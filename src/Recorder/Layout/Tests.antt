-- ===== src/Recorder/Layout/Tests.antt =====
-- Directories of records of src/msg_recorder.
use Prim.Native.Char.{code}
use Prim.Native.String.{String}
use cris_core.Prelude.{ℕ, ◌≡◌, refl, true, false, Option, some, List, [], ◌∷◌}
use cris_core.Recorder.Key.{compare_bytes}
use cris_core.Recorder.Layout.{
  Entry, get_message_file_name, ends_with, insert_name, sort_names, matching,
  list_subdirs_with_suffix, list_leveldb_dirs, get_record_itr, is_empty_dir, is_leveldb_dir,
}
use cris_core.Recorder.Layout.Choice.{IsChoice, get_record_itr-IsChoice}

abbrev bytes : String → List ℕ
bytes String.[] = []
bytes (String.◌∷◌ c s) = code c ∷ bytes s

abbrev folder : String → Entry
folder name = record { name = bytes name; is_directory = true; is_regular_file = false }

abbrev file : String → Entry
file name = record { name = bytes name; is_directory = false; is_regular_file = true }

abbrev rolled : List Entry
rolled = folder "2.ldb.d" ∷ file "0.ldb.d" ∷ folder "1.ldb.d" ∷ folder "1.ldb.d.saving" ∷ []

abbrev dirs : List ℕ × List ℕ → Option (List Entry)
dirs place = some rolled

-- Two message types that differ only in such characters share a directory.
file_names :
    (get_message_file_name (bytes "a::B<int>") ≡ bytes "a__B_int_")
    × (get_message_file_name (bytes "a__B_int_") ≡ bytes "a__B_int_")
unfolding get_message_file_name
file_names = (refl, refl)

listed : list_leveldb_dirs dirs (bytes "a") (bytes "0") ≡ bytes "1.ldb.d" ∷ bytes "2.ldb.d" ∷ []
unfolding list_leveldb_dirs list_subdirs_with_suffix matching sort_names insert_name ends_with
    compare_bytes
listed = refl

leveldb_dirs :
    (is_leveldb_dir (some (file "CURRENT" ∷ file "MANIFEST-7" ∷ [])) ≡ true)
    × (is_leveldb_dir (some (file "CURRENT" ∷ folder "MANIFEST-7" ∷ [])) ≡ false)
    × (is_empty_dir (some []) ≡ true)
unfolding is_leveldb_dir is_empty_dir
leveldb_dirs = (refl, refl, refl)

get_record_itr-IsChoice_example : IsChoice rolled (get_record_itr dirs (bytes "a") (bytes "0"))
get_record_itr-IsChoice_example = get_record_itr-IsChoice dirs (bytes "a") (bytes "0") rolled refl
