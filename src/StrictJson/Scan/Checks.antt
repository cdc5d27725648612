-- ===== src/StrictJson/Scan/Checks.antt =====
-- internal/strictjson/scan.go: what the tests of the scanner establish.
use ai_config_selector.StrictJson.Scan.{
  Limits, ScanError, limit_exceeded, duplicate_key, rejected_key, exceeds, admitted, admitted_key,
}
use ai_config_selector.StrictJson.Scan.Tree.{Within}
use ai_config_selector.Prelude.{
  ℕ, ◌≤◌, ◌≡◌, refl, inl, inr, Bool, true, false, ◌↔◌, List, ltb, Result, ok, err, ◌>>◌, refuse_if,
  refuse_if-parts, length, ||_elim_false, Bool-cases, arith,
}
use ai_config_selector.Prelude.Bytes.{Bytes, seen}

pub Within-iff : (n maximum : ℕ) → (exceeds n maximum ≡ false) ↔ Within n maximum
Within-iff n maximum = (forward, backward)
  where
    forward : exceeds n maximum ≡ false → Within n maximum
    forward h = elim (Bool-cases (ltb 0 maximum)) [
      | inl p ↦ inr (ground arith)
      | inr p ↦ inl (ground arith)
    ]

    backward : Within n maximum → exceeds n maximum ≡ false
    backward (inl e) = ground arith
    backward (inr e) = ground arith

-- The tests of a chain, and what follows them.
then-parts {ℓ} :
    {B : Type ℓ} (tests : Result ScanError (Unit {0})) (k : Result ScanError B) {b : B}
    → (tests >> k) ≡ ok b
    → (tests ≡ ok tt) × (k ≡ ok b)
then-parts (err e) k h = cc
then-parts (ok tt) k h = (refl, h)

refused : (t : Bool) (e : ScanError) → refuse_if t e ≡ ok tt → t ≡ false
refused true e h = cc
refused false e h = refl

module _ (limits : Limits) (reject_key : Bytes → Bool) where
  pub admitted-parts {ℓ} :
      {B : Type ℓ} (depth n : ℕ) (k : Result ScanError B) {b : B}
      → (admitted limits reject_key depth n >> k) ≡ ok b
      → (depth ≤ limits.max_depth) × Within n limits.max_tokens × (k ≡ ok b)
  admitted-parts depth n k h = elim (Bool-cases (ltb limits.max_depth depth)) [
    | inl p ↦ cc (rw p at h)
    | inr p ↦ elim (Bool-cases (exceeds n limits.max_tokens)) [
      | inl q ↦ cc (rw (p, q) at h)
      | inr q ↦ (ground arith, (Within-iff n limits.max_tokens).0 q, rw (p, q) at h)
    ]
  ]

  pub admitted_of {ℓ} :
      {B : Type ℓ} (depth n : ℕ) (k : Result ScanError B)
      → depth ≤ limits.max_depth
      → Within n limits.max_tokens
      → (admitted limits reject_key depth n >> k) ≡ k
  admitted_of depth n k d w =
      let p : ltb limits.max_depth depth ≡ false = ground arith in
      rw (p, (Within-iff n limits.max_tokens).1 w) refl

  pub admitted_key-parts {ℓ} :
      {B : Type ℓ} (met : List Bytes) (count n : ℕ) (name : Bytes) (k : Result ScanError B) {b : B}
      → (admitted_key limits reject_key met count n name >> k) ≡ ok b
      → Within n limits.max_tokens
        × Within (length name) limits.max_string_bytes
        × Within count limits.max_members
        × (seen met name ≡ false)
        × (reject_key name ≡ false)
        × (k ≡ ok b)
  admitted_key-parts met count n name k h =
      let (tests, e) = then-parts (admitted_key limits reject_key met count n name) k h in
      let (sizes, names) = refuse_if-parts _ limit_exceeded _ tests in
      let (repeated, rejection) = refuse_if-parts (seen met name) duplicate_key _ names in
      let (a, others) = ||_elim_false (exceeds n limits.max_tokens) _ sizes in
      let (b, c) = ||_elim_false (exceeds (length name) limits.max_string_bytes) _ others in
      (
        (Within-iff n limits.max_tokens).0 a,
        (Within-iff (length name) limits.max_string_bytes).0 b,
        (Within-iff count limits.max_members).0 c,
        repeated,
        refused (reject_key name) rejected_key rejection,
        e,
      )

  pub admitted_key_of {ℓ} :
      {B : Type ℓ} (met : List Bytes) (count n : ℕ) (name : Bytes) (k : Result ScanError B)
      → Within n limits.max_tokens
      → Within (length name) limits.max_string_bytes
      → Within count limits.max_members
      → seen met name ≡ false
      → reject_key name ≡ false
      → (admitted_key limits reject_key met count n name >> k) ≡ k
  admitted_key_of met count n name k a b c s r =
      rw
        (
          (Within-iff n limits.max_tokens).1 a,
          (Within-iff (length name) limits.max_string_bytes).1 b,
          (Within-iff count limits.max_members).1 c,
          s,
          r,
        )
        refl
