-- ===== src/Intent/Environment/Canonical.antt =====
-- Canonical of internal/environmentintent/schema.go: what it lets into a target's environment.
use mathlib.Core.List.{Permᴰ}
use ai_config_selector.Prelude.{
  Bool, true, false, not, ok, ◌≡◌, ◌≢◌, ◌⊎◌, refl, List, [], ◌∷◌, ◌++◌, All, arith, ||_elim_false,
}
use ai_config_selector.Prelude.Bytes.{
  Bytes, bytes_eq, bytes_eq→eq, bytes_eq→ne, seen, no_prefix, has_prefix,
}
use ai_config_selector.Prelude.Distinct.{Distinct}
use ai_config_selector.Prelude.Order.{bytes_order}
use ai_config_selector.Prelude.Sort.{IsSorted}
use ai_config_selector.Intent.Schema.Canonical
use ai_config_selector.Intent.Schema.Laws.{Accepts}
use ai_config_selector.Intent.Environment.{
  Entry, valid_name, reserved_destination, reserved_exact, reserved_prefixes, has_any_prefix,
  attached_process_tree, host_environment, secret_reference, non_secret, secret, refuses_non_secret,
  refuses_secret, check_source, schema, canonical,
}
use ai_config_selector.Intent.Environment.Laws.{schema-Laws, IsValid, admit-IsAdmitted}

-- If Canonical accepts an environment selection, then it accepts its own result, and every
-- reordering of the selection, and returns the same list each time.
pub canonical_environment_stable :
    (es fs cs : List Entry)
    → Permᴰ es fs
    → canonical es ≡ ok cs
    → (canonical cs ≡ ok cs) × (canonical fs ≡ ok cs)
unfolding canonical
canonical_environment_stable es fs cs p h = (
  Canonical.canonical_idem schema schema-Laws es cs h,
  Canonical.canonical_reorder schema schema-Laws cs p h,
)

-- The entry names a host variable and holds no reference, or is required and refers to a secret.
abbrev pub Classified : Entry → Type 0
Classified e =
    ((e.classification ≡ non_secret)
      × (e.source.kind ≡ host_environment)
      × (valid_name e.source.name ≡ true)
      × (e.source.provider ≡ [])
      × (e.source.reference ≡ []))
    ⊎ ((e.classification ≡ secret)
        × (e.required ≡ true)
        × (e.source.kind ≡ secret_reference)
        × (e.source.name ≡ [])
        × (e.source.provider ≡ host_environment)
        × (valid_name e.source.reference ≡ true))

pub record IsSafe (e : Entry) : Type 0 where
  pub name : valid_name e.destination ≡ true
  pub not_exact : All (λ k. k ≢ e.destination) reserved_exact
  pub not_prefixed : All (λ p. (r : Bytes) → e.destination ≢ p ++ r) reserved_prefixes
  pub scope : e.scope ≡ attached_process_tree
  pub classified : Classified e

unseen : (ks : List Bytes) (k : Bytes) → seen ks k ≡ false → All (λ x. x ≢ k) ks
unfolding seen
unseen [] k h = tt
unseen (x ∷ ks) k h =
    let (a, b) = ||_elim_false (bytes_eq x k) (seen ks k) h in (bytes_eq→ne x k a, unseen ks k b)

unprefixed :
    (s : Bytes) (ps : List Bytes)
    → has_any_prefix s ps ≡ false
    → All (λ p. (r : Bytes) → s ≢ p ++ r) ps
unfolding has_any_prefix
unprefixed s [] h = tt
unprefixed s (p ∷ ps) h =
    let (a, b) = ||_elim_false (has_prefix s p) (has_any_prefix s ps) h in
    (no_prefix s p a, unprefixed s ps b)

reserved_parts :
    (s : Bytes)
    → reserved_destination s ≡ false
    → (seen reserved_exact s ≡ false) × (has_any_prefix s reserved_prefixes ≡ false)
unfolding reserved_destination
reserved_parts s h = ||_elim_false (seen reserved_exact s) (has_any_prefix s reserved_prefixes) h

not-false : (b : Bool) → not b ≡ false → b ≡ true
not-false b h = ground arith

source_Classified : (e : Entry) → check_source e ≡ ok tt → Classified e
unfolding check_source refuses_non_secret refuses_secret
source_Classified e h = ground (
  arith,
  bytes_eq→eq e.classification non_secret,
  bytes_eq→eq e.classification secret,
  bytes_eq→eq e.source.kind host_environment,
  bytes_eq→eq e.source.kind secret_reference,
  bytes_eq→eq e.source.provider host_environment,
  bytes_eq→eq e.source.provider [],
  bytes_eq→eq e.source.reference [],
  bytes_eq→eq e.source.name [],
)

IsValid-IsSafe : (e : Entry) → IsValid e → IsSafe e
IsValid-IsSafe e v =
    let (x, p) = reserved_parts e.destination v.unreserved in
    record {
      name = not-false (valid_name e.destination) v.name;
      not_exact = unseen reserved_exact e.destination x;
      not_prefixed = unprefixed e.destination reserved_prefixes p;
      scope = bytes_eq→eq e.scope attached_process_tree (not-false _ v.scope);
      classified = source_Classified e v.source;
    }

-- If Canonical accepts an environment selection, then its result has strictly ascending
-- identifiers and distinct destinations, and each entry of it is safe: its destination is a valid
-- name, is none of the reserved names and begins with none of the reserved prefixes; its scope is
-- the attached process tree; and it is either classified as non-secret, with a valid host variable
-- as its source and no provider or reference, or classified as secret, required, and by the host
-- environment's provider, with a valid reference and no name.
pub canonical_environment-IsSafe :
    (es cs : List Entry)
    → canonical es ≡ ok cs
    → IsSorted (λ e. e.id) cs × Distinct (λ e. e.destination) cs × All IsSafe cs
unfolding canonical
canonical_environment-IsSafe es cs h = (
  Canonical.canonical-IsSorted schema schema-Laws es cs h,
  Canonical.canonical-Distinct schema schema-Laws es cs h,
  Canonical.canonical-All schema schema-Laws IsSafe accepted_safe es cs h,
)
  where
    accepted_safe : (c : Entry) → Accepts schema c c → IsSafe c
    accepted_safe c a =
        IsValid-IsSafe c
          (admit-IsAdmitted [] [] c c (a [] [] (unfold seen in refl) (unfold seen in refl))).valid
