-- ===== src/Authority/Encoding/Lists.antt =====
-- internal/authority/plan.go: a list is written as its length and its members, and so can be told
-- apart from what follows it.
use ai_config_selector.Authority.Encoding.{put_uint, put_string, put_each, put_list, put_argument}
use ai_config_selector.Authority.Encoding.Splits.{
  Small, Splits, Tells, put_uint-Splits, length-put_uint, regroup, put_string-Splits,
  put_argument-Splits,
}
use ai_config_selector.Prelude.{
  ◌≤◌, ◌≡◌, refl, ap, subst, List, [], ◌∷◌, ◌++◌, All, length, length-append, arith,
}
use ai_config_selector.Prelude.Bytes.{Bytes}
use mathlib.Core.List.{append_assoc}

-- No value is written as nothing.
abbrev pub IsMarked {ℓ} : {A : Type ℓ} → (A → Bytes) → Type ℓ
IsMarked {A = A} put = (a : A) → 1 ≤ length (put a)

pub put_string-IsMarked : IsMarked put_string
unfolding put_string put_uint
put_string-IsMarked a = omega arith

pub put_argument-IsMarked : IsMarked put_argument
unfolding put_argument put_string put_uint
put_argument-IsMarked a = omega arith

module _ {ℓ} {A : Type ℓ} (put : A → Bytes) where
  length-put_each : IsMarked put → (xs : List A) → length xs ≤ length (put_each put xs)
  unfolding put_each
  length-put_each marked [] = omega arith
  length-put_each marked (x ∷ xs) =
      omega (arith, marked x, length-put_each marked xs, length-append (put x) (put_each put xs))

  put_each-Splits :
      {P : A → Type 0}
      → Splits P put
      → (a b : List A) (r s : Bytes) → All P a
      → All P b
      → length a ≡ length b
      → Small (put_each put a ++ r)
      → put_each put a ++ r ≡ put_each put b ++ s
      → (a ≡ b) × (r ≡ s) × Small r
  unfolding put_each
  put_each-Splits one [] [] r s p q n small e = (refl, e, small)
  put_each-Splits one [] (y ∷ b) r s p q n small e = absurd (omega arith)
  put_each-Splits one (x ∷ a) [] r s p q n small e = absurd (omega arith)
  put_each-Splits one (x ∷ a) (y ∷ b) r s p q n small e =
      let (first, rest, small') =
        one x y (put_each put a ++ r) (put_each put b ++ s) p.0 q.0
          (subst Small (append_assoc (put x) (put_each put a) r) small)
          (regroup (put x) (put_each put a) r (put y) (put_each put b) s e) in
      let (others, behind, small'') =
        put_each-Splits one a b r s p.1 q.1 (omega arith) small' rest in
      (cc, behind, small'')

  pub put_list-Splits :
      {P : A → Type 0} → IsMarked put → Splits P put → Splits (All P) (put_list put)
  unfolding put_list
  put_list-Splits marked one a b r s p q small e =
      let e' =
        regroup (put_uint (length a)) (put_each put a) r (put_uint (length b)) (put_each put b) s
          e in
      let small' = subst Small (append_assoc (put_uint (length a)) (put_each put a) r) small in
      let behind_a = length-put_uint (length a) (put_each put a ++ r) in
      let behind_b = length-put_uint (length b) (put_each put b ++ s) in
      let short_a = length-append (put_each put a) r in
      let short_b = length-append (put_each put b) s in
      let count_a = length-put_each marked a in
      let count_b = length-put_each marked b in
      let same_length = ap length e' in
      let (same, rest, small'') =
        put_uint-Splits (length a) (length b) (put_each put a ++ r) (put_each put b ++ s)
          (omega arith) (omega arith) small' e' in
      put_each-Splits one a b r s p q same small'' rest

-- Members that are written with no condition on them.
All-Unit {ℓ} : {A : Type ℓ} (P : A → Type 0) (always : (a : A) → P a) (xs : List A) → All P xs
All-Unit P always [] = tt
All-Unit P always (x ∷ xs) = (always x, All-Unit P always xs)

pub texts-Splits : Tells (put_list put_string)
texts-Splits a b r s p q =
    let every = All-Unit (λ _. Unit {0}) (λ _. tt) in
    put_list-Splits put_string put_string-IsMarked put_string-Splits a b r s (every a) (every b)

pub arguments-Splits : Tells (put_list put_argument)
arguments-Splits a b r s p q =
    let every = All-Unit (λ _. Unit {0}) (λ _. tt) in
    put_list-Splits put_argument put_argument-IsMarked put_argument-Splits a b r s (every a)
      (every b)
