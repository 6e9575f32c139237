-- ===== src/Recorder/Layout.antt =====
-- Where records lie: the file names of src/msg_recorder/impl/utils.cc, the tests of a directory and
-- the listing of databases in record_file.cc, and the choice of GetRecordItr in replayer.cc. A name is
-- its bytes; what the file system has in a directory is a parameter, `none` where there is none.
pub mod Choice
mod Tests
use cris_core.Prelude.{
  ℕ, Bool, true, false, not, ◌&&◌, ◌||◌, Option, none, some, List, [], ◌∷◌, ◌++◌, map, leb, ltb,
  ◌==◌, if◌then◌else◌, Ordering,
}
use cris_core.Recorder.Key.{compare_bytes}

pub record Entry : Type 0 where
  pub name : List ℕ
  pub is_directory : Bool
  pub is_regular_file : Bool

-- std::isalnum in the C locale.
abbrev pub is_alnum : ℕ → Bool
is_alnum c = (leb b'0' c && leb c b'9') || (leb b'A' c && leb c b'Z') || (leb b'a' c && leb c b'z')

-- GetMessageFileName
unfoldable pub get_message_file_name : List ℕ → List ℕ
get_message_file_name message_type = map (λ c. if not (is_alnum c) then b'_' else c) message_type

abbrev pub starts_with : List ℕ → List ℕ → Bool
starts_with s [] = true
starts_with [] (p ∷ ps) = false
starts_with (c ∷ s) (p ∷ ps) = c == p && starts_with s ps

abbrev pub same_bytes : List ℕ → List ℕ → Bool
same_bytes [] [] = true
same_bytes [] (t ∷ ts) = false
same_bytes (c ∷ s) [] = false
same_bytes (c ∷ s) (t ∷ ts) = c == t && same_bytes s ts

unfoldable pub ends_with : List ℕ → List ℕ → Bool
ends_with [] suffix = same_bytes [] suffix
ends_with (c ∷ s) suffix = same_bytes (c ∷ s) suffix || ends_with s suffix

abbrev pub is_less : List ℕ → List ℕ → Bool
is_less a b = elim (compare_bytes a b) [ Ordering.lt ↦ true | _ ↦ false ]

-- std::sort on the paths, which differ in their last names only.
unfoldable pub insert_name : List ℕ → List (List ℕ) → List (List ℕ)
insert_name name [] = name ∷ []
insert_name name (n ∷ ns) = if is_less n name then n ∷ insert_name name ns else name ∷ n ∷ ns

unfoldable pub sort_names : List (List ℕ) → List (List ℕ)
sort_names [] = []
sort_names (n ∷ ns) = insert_name n (sort_names ns)

abbrev pub matches : List ℕ → Entry → Bool
matches suffix entry = entry.is_directory && ends_with entry.name suffix

unfoldable pub matching : List Entry → List ℕ → List (List ℕ)
matching [] suffix = []
matching (entry ∷ entries) suffix =
    if matches suffix entry then entry.name ∷ matching entries suffix else matching entries suffix

-- ListSubdirsWithSuffix
unfoldable pub list_subdirs_with_suffix : Option (List Entry) → List ℕ → List (List ℕ)
list_subdirs_with_suffix none suffix = []
list_subdirs_with_suffix (some entries) suffix = sort_names (matching entries suffix)

-- ".ldb.d"
abbrev pub leveldb_dir_suffix : List ℕ
leveldb_dir_suffix = b'.' ∷ b'l' ∷ b'd' ∷ b'b' ∷ b'.' ∷ b'd' ∷ []

-- The directory of a message type and subchannel, by its three names below the record's.
abbrev pub channel_dir : List ℕ → List ℕ → List ℕ × List ℕ
channel_dir message_type subid = (get_message_file_name message_type, subid)

-- ListLevelDBDirs; `dirs` reads the directory of the two names.
unfoldable pub list_leveldb_dirs :
    (List ℕ × List ℕ → Option (List Entry)) → List ℕ → List ℕ → List (List ℕ)
list_leveldb_dirs dirs msg_type subid =
    list_subdirs_with_suffix (dirs (channel_dir msg_type subid)) leveldb_dir_suffix

abbrev pub first_of : List (List ℕ) → Option (List ℕ)
first_of [] = none
first_of (n ∷ ns) = some n

-- The file that GetRecordItr opens; `none` where it throws.
unfoldable pub get_record_itr :
    (List ℕ × List ℕ → Option (List Entry)) → List ℕ → List ℕ → Option (List ℕ)
get_record_itr dirs message_type subid =
    first_of (list_subdirs_with_suffix (dirs (channel_dir message_type subid)) leveldb_dir_suffix)

-- IsEmptyDir
unfoldable pub is_empty_dir : Option (List Entry) → Bool
is_empty_dir none = false
is_empty_dir (some []) = true
is_empty_dir (some (entry ∷ entries)) = false

abbrev pub any_entry : (Entry → Bool) → List Entry → Bool
any_entry test [] = false
any_entry test (entry ∷ entries) = test entry || any_entry test entries

abbrev pub current_name : List ℕ
current_name = b'C' ∷ b'U' ∷ b'R' ∷ b'R' ∷ b'E' ∷ b'N' ∷ b'T' ∷ []

abbrev pub manifest_prefix : List ℕ
manifest_prefix = b'M' ∷ b'A' ∷ b'N' ∷ b'I' ∷ b'F' ∷ b'E' ∷ b'S' ∷ b'T' ∷ b'-' ∷ []

-- IsLevelDBDir
unfoldable pub is_leveldb_dir : Option (List Entry) → Bool
is_leveldb_dir none = false
is_leveldb_dir (some entries) =
    any_entry (λ entry. same_bytes entry.name current_name) entries
    && any_entry (λ entry. entry.is_regular_file && starts_with entry.name manifest_prefix) entries
