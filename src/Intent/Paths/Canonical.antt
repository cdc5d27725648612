-- ===== src/Intent/Paths/Canonical.antt =====
-- Canonical of internal/pathintent/schema.go: what it accepts and what it returns.
use mathlib.Core.List.{Permᴰ}
use ai_config_selector.Prelude.{ok, ◌≡◌, ◌≤◌, ap, sym, subst, List, All, length}
use ai_config_selector.Prelude.Distinct.{Distinct}
use ai_config_selector.Prelude.Order.{bytes_order}
use ai_config_selector.Prelude.Sort.{sort_by}
use ai_config_selector.Intent.Schema.Canonical
use ai_config_selector.Intent.Schema.Checked.{Validated, canonical_complete}
use ai_config_selector.Intent.Reference.{Reference, maximum_entries}
use ai_config_selector.Intent.Reference.Laws.{Anchored, validate_reference-Anchored}
use ai_config_selector.Intent.Paths.{
  Entry, bad_id, duplicate_destination, too_many_entries, validate, destination, schema, canonical,
}
use ai_config_selector.Intent.Paths.Laws.{
  schema-Laws, id-validate, validate_again, validate-IsValid, Accepts-validate, IsValid,
}

-- If Canonical accepts a path selection, then its result is accepted again and is returned
-- unchanged.
pub canonical_paths_idem : (es cs : List Entry) → canonical es ≡ ok cs → canonical cs ≡ ok cs
unfolding canonical
canonical_paths_idem es cs h = Canonical.canonical_idem schema schema-Laws es cs h

-- If Canonical accepts a path selection, then it accepts every reordering of its entries and
-- returns the same list.
pub canonical_paths_reorder :
    (es fs cs : List Entry) → Permᴰ es fs → canonical es ≡ ok cs → canonical fs ≡ ok cs
unfolding canonical
canonical_paths_reorder es fs cs p h = Canonical.canonical_reorder schema schema-Laws cs p h

same_destination : (x y : Entry) → x.reference ≡ y.reference → destination x ≡ destination y
unfolding destination
same_destination x y e = cc

validated-Anchored : (c : Entry) → IsValid c c → Anchored c.reference.kind c.reference.path
validated-Anchored c v =
    subst (λ (r : Reference). Anchored r.kind r.path)
      (ap (λ (x : Entry). x.reference) (sym v.result))
      (validate_reference-Anchored c.reference v.reference v.validated)

-- If Canonical accepts a path selection, then the reference of each entry of its result is
-- workspace-relative or local-absolute, and its path is one to 128 ordinary names, none of them
-- empty, `.` or `..` and none with a slash, joined by slashes, behind a leading slash if the
-- reference is local-absolute and with no leading slash if it is workspace-relative.
pub canonical_paths-Anchored :
    (es cs : List Entry)
    → canonical es ≡ ok cs
    → All (λ e. Anchored e.reference.kind e.reference.path) cs
unfolding canonical
canonical_paths-Anchored es cs h =
    Canonical.canonical-All schema schema-Laws (λ e. Anchored e.reference.kind e.reference.path)
      (λ c a. validated-Anchored c (validate-IsValid c c (Accepts-validate c c a))) es cs h

abbrev pub AllValid : List Entry → List Entry → Type 0
AllValid = Validated (λ e. e.id) validate

-- If a path selection has at most 128 entries, each with a valid identifier and accepted by the
-- tests on an entry alone, and if the identifiers and the destinations of what these tests return
-- are distinct, then Canonical accepts the selection and returns these entries sorted by their
-- identifiers.
pub canonical_paths_complete :
    (es cs : List Entry)
    → length es ≤ maximum_entries
    → AllValid es cs
    → Distinct (λ e. e.id) cs
    → Distinct destination cs
    → canonical es ≡ ok (sort_by (λ e. e.id) cs)
unfolding canonical
canonical_paths_complete =
    canonical_complete (λ e. e.id) destination validate bad_id duplicate_destination id-validate
      validate_again maximum_entries too_many_entries
