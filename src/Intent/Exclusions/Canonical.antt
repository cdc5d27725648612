-- ===== src/Intent/Exclusions/Canonical.antt =====
-- Canonical of internal/exclusionintent/schema.go: what it accepts and what it returns.
use mathlib.Core.List.{Permᴰ}
use ai_config_selector.Prelude.{ok, ◌≡◌, ◌≤◌, ap, sym, subst, List, All, length}
use ai_config_selector.Prelude.Distinct.{Distinct, Distinct-map}
use ai_config_selector.Prelude.Order.{bytes_order}
use ai_config_selector.Prelude.Sort.{IsSorted}
use ai_config_selector.Intent.Schema.Canonical
use ai_config_selector.Intent.Reference.{Reference, maximum_entries}
use ai_config_selector.Intent.Reference.Laws.{Anchored, validate_reference-Anchored}
use ai_config_selector.Intent.Exclusions.{Entry, destination, schema, canonical}
use ai_config_selector.Intent.Exclusions.Laws.{
  schema-Laws, validate-IsValid, Accepts-validate, IsValid,
}

-- If Canonical accepts an exclusion selection, then it accepts its own result, and every reordering
-- of the selection, and returns the same list each time.
pub canonical_exclusions_stable :
    (es fs cs : List Entry)
    → Permᴰ es fs
    → canonical es ≡ ok cs
    → (canonical cs ≡ ok cs) × (canonical fs ≡ ok cs)
unfolding canonical
canonical_exclusions_stable es fs cs p h = (
  Canonical.canonical_idem schema schema-Laws es cs h,
  Canonical.canonical_reorder schema schema-Laws cs p h,
)

same_destination : (x y : Entry) → x.reference ≡ y.reference → destination x ≡ destination y
unfolding destination
same_destination x y e = cc

-- If Canonical accepts an exclusion selection, then its result has as many entries as the selection, at
-- most 128, in strictly ascending order of their identifiers, and no two entries of it have the
-- same reference.
pub canonical_exclusions_ordered :
    (es cs : List Entry)
    → canonical es ≡ ok cs
    → (length cs ≡ length es)
      × (length es ≤ maximum_entries)
      × IsSorted (λ e. e.id) cs
      × Distinct (λ e. e.reference) cs
unfolding canonical
canonical_exclusions_ordered es cs h =
    let (l, few) = Canonical.length-canonical schema schema-Laws es cs h in
    (
      l,
      few,
      Canonical.canonical-IsSorted schema schema-Laws es cs h,
      Distinct-map destination (λ e. e.reference) cs same_destination
          (Canonical.canonical-Distinct schema schema-Laws es cs h),
    )

validated-Anchored : (c : Entry) → IsValid c c → Anchored c.reference.kind c.reference.path
validated-Anchored c v =
    subst (λ (r : Reference). Anchored r.kind r.path)
      (ap (λ (x : Entry). x.reference) (sym v.result))
      (validate_reference-Anchored c.reference v.reference v.validated)

-- If Canonical accepts an exclusion selection, then the reference of each entry of its result is
-- workspace-relative or local-absolute, and its path is one to 128 ordinary names, none of them
-- empty, `.` or `..` and none with a slash, joined by slashes, behind a leading slash if the
-- reference is local-absolute and with no leading slash if it is workspace-relative.
pub canonical_exclusions-Anchored :
    (es cs : List Entry)
    → canonical es ≡ ok cs
    → All (λ e. Anchored e.reference.kind e.reference.path) cs
unfolding canonical
canonical_exclusions-Anchored es cs h =
    Canonical.canonical-All schema schema-Laws (λ e. Anchored e.reference.kind e.reference.path)
      (λ c a. validated-Anchored c (validate-IsValid c c (Accepts-validate c c a))) es cs h
