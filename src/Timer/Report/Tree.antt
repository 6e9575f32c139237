-- ===== src/Timer/Report/Tree.antt =====
-- GetReport of src/timer/timer_enable.cc on a tree of sections.
use cris_core.Prelude.{ℕ, ◌≡◌, refl, sym, ap, ◌∙◌, Bool, true, false, ◌||◌, ◌==◌, arith}
use cris_core.Timer.Stat.{bucket_num, Collector}
use cris_core.Timer.Report.{
  Section, Sections, section, no_sections, and_section, Header, Report, Reports, report, no_reports,
  and_report, header, subsections, read_buckets, any_hits, section_header, has_name, add_last,
  add_subsection, join_data, get_report, add_all,
}

abbrev pub name_of : Section → ℕ
name_of (section name index subs) = name

-- Whether a section or one below it was hit.
unfoldable mutual
  pub is_hit : Collector → Section → Bool
  is_hit c (section name index subs) =
      any_hits (read_buckets (c.entries index).buckets bucket_num 0) || are_hit c subs

  pub are_hit : Collector → Sections → Bool
  are_hit c no_sections = false
  are_hit c (and_section s rest) = is_hit c s || are_hit c rest

unfoldable pub reports_of : Collector → Sections → Reports
reports_of c no_sections = no_reports
reports_of c (and_section s rest) = and_report (get_report c s true) (reports_of c rest)

unfoldable pub joined : Reports → Reports → Reports
joined no_reports qs = qs
joined (and_report r rs) qs = and_report r (joined rs qs)

unfoldable pub Lacks : Sections → ℕ → Type 0
Lacks no_sections name = Unit
Lacks (and_section s rest) name = ((name == name_of s) ≡ false) × Lacks rest name

-- As in a std::map, no two sections have the same name.
unfoldable pub AreDistinct : Sections → Type 0
AreDistinct no_sections = Unit
AreDistinct (and_section s rest) = Lacks rest (name_of s) × AreDistinct rest

IsFresh : Reports → Sections → Type 0
IsFresh rs no_sections = Unit
IsFresh rs (and_section s rest) = (has_name rs (name_of s) ≡ false) × IsFresh rs rest

has_name-add_last :
    (rs : Reports) (q : Report) (name : ℕ)
    → has_name (add_last rs q) name ≡ (has_name rs name || (header q).section_name == name)
unfolding has_name add_last
has_name-add_last no_reports q name = ground arith
has_name-add_last (and_report r rs) q name = ground (arith, has_name-add_last rs q name)

IsFresh-add_last :
    (rs : Reports) (q : Report) (subs : Sections)
    → Lacks subs (header q).section_name
    → IsFresh rs subs
    → IsFresh (add_last rs q) subs
unfolding Lacks IsFresh
IsFresh-add_last rs q no_sections l f = tt
IsFresh-add_last rs q (and_section s rest) l f = (
  ground (arith, has_name-add_last rs q (name_of s), l.0, f.0),
  IsFresh-add_last rs q rest l.1 f.1,
)

joined-add_last :
    (rs : Reports) (q : Report) (qs : Reports)
    → joined (add_last rs q) qs ≡ joined rs (and_report q qs)
unfolding joined add_last
joined-add_last no_reports q qs = refl
joined-add_last (and_report r rs) q qs = ap (and_report r) (joined-add_last rs q qs)

keep-fields :
    (r sub : Report) (b : Bool)
    → ((header (add_subsection (join_data b r) sub)).section_name ≡ (header r).section_name)
      × ((header (add_subsection (join_data b r) sub)).has_data ≡ ((header r).has_data || b))
unfolding add_subsection
keep-fields (report h rs) sub b = (ground arith, ground arith)

add_fresh :
    (h : Header) (rs : Reports) (sub : Report) (b : Bool)
    → has_name rs (header sub).section_name ≡ false
    → add_subsection (join_data b (report h rs)) sub
      ≡ report (record h { has_data = h.has_data || b }) (add_last rs sub)
unfolding add_subsection
add_fresh h rs sub b e = rw e refl

add_all-name :
    (c : Collector) (r : Report) (subs : Sections)
    → (header (add_all c r subs)).section_name ≡ (header r).section_name
unfolding add_all
add_all-name c r no_sections = refl
add_all-name c r (and_section s rest) =
    let sub = get_report c s true in
    add_all-name c (add_subsection (join_data (header sub).has_data r) sub) rest
    ∙ (keep-fields r sub (header sub).has_data).0

get_report-name :
    (c : Collector) (s : Section) → (header (get_report c s true)).section_name ≡ name_of s
unfolding get_report section_header
get_report-name c (section name index subs) =
    add_all-name c (report (section_header c name index) no_reports) subs

or_false : (a : Bool) → a ≡ (a || false)
or_false true = refl
or_false false = refl

joined-none : (rs : Reports) → joined rs no_reports ≡ rs
unfolding joined
joined-none no_reports = refl
joined-none (and_report r rs) = ap (and_report r) (joined-none rs)

or_assoc : (a b c : Bool) → ((a || b) || c) ≡ (a || (b || c))
or_assoc true b c = refl
or_assoc false b c = refl

mutual
  unfolding get_report add_all section_header is_hit are_hit

  get_report-is_hit :
      (c : Collector) (s : Section) → (header (get_report c s true)).has_data ≡ is_hit c s
  get_report-is_hit c (section name index subs) =
      add_all-are_hit c (report (section_header c name index) no_reports) subs

  add_all-are_hit :
      (c : Collector) (r : Report) (subs : Sections)
      → (header (add_all c r subs)).has_data ≡ ((header r).has_data || are_hit c subs)
  add_all-are_hit c r no_sections = or_false (header r).has_data
  add_all-are_hit c r (and_section s rest) =
      let sub = get_report c s true in
      let later = add_all-are_hit c (add_subsection (join_data (header sub).has_data r) sub) rest in
      let kept = (keep-fields r sub (header sub).has_data).1 in
      let here = get_report-is_hit c s in
      let moved = or_assoc (header r).has_data (is_hit c s) (are_hit c rest) in
      rw (later, kept, here) moved

add_all-joined :
    (c : Collector) (h : Header) (rs : Reports) (subs : Sections)
    → IsFresh rs subs
    → AreDistinct subs
    → subsections (add_all c (report h rs) subs) ≡ joined rs (reports_of c subs)
unfolding add_all reports_of IsFresh AreDistinct
add_all-joined c h rs no_sections f d = sym (joined-none rs)
add_all-joined c h rs (and_section s rest) f d =
    let sub = get_report c s true in
    let named = get_report-name c s in
    let fresh : has_name rs (header sub).section_name ≡ false = rw named f.0 in
    let lacks : Lacks rest (header sub).section_name = rw named d.0 in
    let next =
      add_all-joined c (record h { has_data = h.has_data || (header sub).has_data })
        (add_last rs sub) rest (IsFresh-add_last rs sub rest lacks f.1) d.1 in
    rw (add_fresh h rs sub (header sub).has_data fresh)
      (next ∙ joined-add_last rs sub (reports_of c rest))

none-IsFresh : (subs : Sections) → IsFresh no_reports subs
unfolding IsFresh has_name
none-IsFresh no_sections = tt
none-IsFresh (and_section s rest) = (refl, none-IsFresh rest)

-- The recursive report of a section whose subsections have different names has one report for each
-- subsection, in their order, and says that it has data just if the section or one below it, at
-- whatever depth, has a bucket with hits.
pub get_report-tree :
    (c : Collector) (name index : ℕ) (subs : Sections)
    → AreDistinct subs
    → (subsections (get_report c (section name index subs) true) ≡ reports_of c subs)
      × ((header (get_report c (section name index subs) true)).has_data
          ≡ is_hit c (section name index subs))
unfolding get_report joined
get_report-tree c name index subs d = (
  add_all-joined c (section_header c name index) no_reports subs (none-IsFresh subs) d,
  get_report-is_hit c (section name index subs),
)
