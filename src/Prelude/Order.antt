-- ===== src/Prelude/Order.antt =====
-- The lexicographic order of byte strings is a strict total order.
use ai_config_selector.Prelude.Bytes.{Bytes, bytes_lt}
use mathlib.Core.Path.{◌≡◌, ◌∙◌, refl, sym}
use mathlib.Core.Bool.{Bool, true, false}
use mathlib.Core.Logic.{◌⊎◌, inl, inr}
use ai_config_selector.Prelude.Tests.{Bool-cases, if◌then◌else◌}
use mathlib.Core.List.{[], ◌∷◌}
use native.Mathlib.Omega.{arith}

pub bytes_lt_irrefl : (a : Bytes) → bytes_lt a a ≡ false
unfolding bytes_lt
bytes_lt_irrefl [] = refl
bytes_lt_irrefl (x ∷ xs) = ground (arith, bytes_lt_irrefl xs)

pub bytes_lt_trans :
    (a b c : Bytes) → bytes_lt a b ≡ true → bytes_lt b c ≡ true → bytes_lt a c ≡ true
unfolding bytes_lt
bytes_lt_trans [] [] c h k = cc
bytes_lt_trans [] (y ∷ ys) [] h k = cc
bytes_lt_trans [] (y ∷ ys) (z ∷ zs) h k = refl
bytes_lt_trans (x ∷ xs) [] c h k = cc
bytes_lt_trans (x ∷ xs) (y ∷ ys) [] h k = cc
bytes_lt_trans (x ∷ xs) (y ∷ ys) (z ∷ zs) h k = ground (arith, bytes_lt_trans xs ys zs)

-- Two texts of which neither is less are the same.
pub bytes_lt_total : (a b : Bytes) → bytes_lt a b ≡ false → bytes_lt b a ≡ false → a ≡ b
unfolding bytes_lt
bytes_lt_total [] [] h k = refl
bytes_lt_total [] (y ∷ ys) h k = cc
bytes_lt_total (x ∷ xs) [] h k = cc
bytes_lt_total (x ∷ xs) (y ∷ ys) h k = ground (arith, bytes_lt_total xs ys)

-- A strict total order, as the sorts of the program use it.
pub record Order {ℓ} (K : Type ℓ) : Type ℓ where
  pub lt : K → K → Bool
  pub irrefl : (a : K) → lt a a ≡ false
  pub trans : (a b c : K) → lt a b ≡ true → lt b c ≡ true → lt a c ≡ true
  pub total : (a b : K) → lt a b ≡ false → lt b a ≡ false → a ≡ b

instance abbrev pub bytes_order : Order Bytes
bytes_order = record {
  lt = bytes_lt;
  irrefl = bytes_lt_irrefl;
  trans = bytes_lt_trans;
  total = bytes_lt_total;
}

module _ {ℓ} {K : Type ℓ} ⦃o : Order K⦄ where
  abbrev pub lt : K → K → Bool
  lt = o.lt

  pub lt_asymm : (a b : K) → lt a b ≡ true → lt b a ≡ false
  lt_asymm a b h = elim (Bool-cases (o.lt b a)) [
    | inl k ↦ absurd (cc (o.trans a b a h k, o.irrefl a))
    | inr k ↦ k
  ]

  -- What is not below y, which is not below x, is not below x.
  pub not_lt_trans : (x y z : K) → lt y x ≡ false → lt z y ≡ false → lt z x ≡ false
  not_lt_trans x y z h k = elim (Bool-cases (o.lt z x)) [
    | inr n ↦ n
    | inl b ↦ elim (Bool-cases (o.lt x y)) [
      | inl c ↦ absurd (cc (o.trans z x y b c, k))
      | inr n ↦ absurd (cc (o.total x y n h, b, k))
    ]
  ]

ne_true : (b : Bool) → ¬ (b ≡ true) → b ≡ false
ne_true true h = absurd (h refl)
ne_true false h = refl

-- By the first component, and then by the second: `if a.0 != b.0 { return a.0 < b.0 }; return a.1 < b.1`
module _ {ℓ κ} {K : Type ℓ} {L : Type κ} (o : Order K) (p : Order L) where
  abbrev pub pair_lt : K × L → K × L → Bool
  pair_lt a b = if o.lt a.0 b.0 then true else if o.lt b.0 a.0 then false else p.lt a.1 b.1

  abbrev Before : K × L → K × L → Type ℓ
  Before a b = (o.lt a.0 b.0 ≡ true) ⊎ ((a.0 ≡ b.0) × (p.lt a.1 b.1 ≡ true))

  Before-of_pair_lt : (a b : K × L) → pair_lt a b ≡ true → Before a b
  Before-of_pair_lt a b h = elim (Bool-cases (o.lt a.0 b.0)) [
    | inl x ↦ inl x
    | inr x ↦ elim (Bool-cases (o.lt b.0 a.0)) [
      | inl y ↦ cc (rw (x, y) at h)
      | inr y ↦ inr (o.total a.0 b.0 x y, rw (x, y) at h)
    ]
  ]

  pair_lt_of_Before : (a b : K × L) → Before a b → pair_lt a b ≡ true
  pair_lt_of_Before a b (inl x) = rw x refl
  pair_lt_of_Before a b (inr (e, y)) = rw (e, o.irrefl b.0) y

  pub pair_lt_irrefl : (a : K × L) → pair_lt a a ≡ false
  pair_lt_irrefl a = rw (o.irrefl a.0) (rw (p.irrefl a.1) refl)

  pub pair_lt_trans : (a b c : K × L) → pair_lt a b ≡ true → pair_lt b c ≡ true → pair_lt a c ≡ true
  pair_lt_trans a b c h k =
      pair_lt_of_Before a c (chain (Before-of_pair_lt a b h) (Before-of_pair_lt b c k))
    where
      chain : Before a b → Before b c → Before a c
      chain (inl x) (inl y) = inl (o.trans a.0 b.0 c.0 x y)
      chain (inl x) (inr (e, y)) = inl (rw (← e) x)
      chain (inr (e, x)) (inl y) = inl (rw e y)
      chain (inr (e, x)) (inr (f, y)) = inr (e ∙ f, p.trans a.1 b.1 c.1 x y)

  pub pair_lt_total : (a b : K × L) → pair_lt a b ≡ false → pair_lt b a ≡ false → a ≡ b
  pair_lt_total a b h k =
      let x = ne_true (o.lt a.0 b.0) (λ x. cc (pair_lt_of_Before a b (inl x), h)) in
      let y = ne_true (o.lt b.0 a.0) (λ y. cc (pair_lt_of_Before b a (inl y), k)) in
      let first = o.total a.0 b.0 x y in
      let z = ne_true (p.lt a.1 b.1) (λ z. cc (pair_lt_of_Before a b (inr (first, z)), h)) in
      let w = ne_true (p.lt b.1 a.1) (λ w. cc (pair_lt_of_Before b a (inr (sym first, w)), k)) in
      cc (first, p.total a.1 b.1 z w)

  abbrev pub pair_order : Order (K × L)
  pair_order = record {
    lt = pair_lt;
    irrefl = pair_lt_irrefl;
    trans = pair_lt_trans;
    total = pair_lt_total;
  }
