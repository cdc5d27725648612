-- ===== src/SessionOps/Paging/Cuts.antt =====
-- internal/sessionops/pagination.go: the members and the beginning of a sorted list.
use ai_config_selector.SessionOps.Paging.{take}
use ai_config_selector.SessionOps.Paging.Kept.{Under}
use ai_config_selector.Prelude.{
  ℕ, zero, suc, ◌≤◌, true, ◌≡◌, ◌⊎◌, inl, inr, refl, List, [], ◌∷◌, ◌++◌, All, All-map, length,
  ||_elim, ||_right, ap, subst, arith,
}
use ai_config_selector.Prelude.Bytes.{Bytes, bytes_eq, bytes_eq_refl, bytes_eq→eq, bytes_lt, seen}
use ai_config_selector.Prelude.Order.{bytes_order}
use ai_config_selector.Prelude.Distinct.{All-perm}
use ai_config_selector.Prelude.Sort.{IsSorted}
use mathlib.Core.List.{Permᴰ}
use mathlib.Core.List.Permᴰ

pub seen-All :
    (P : Bytes → Type 0) (ids : List Bytes) (k : Bytes) → All P ids → seen ids k ≡ true → P k
unfolding seen
seen-All P [] k a h = cc
seen-All P (x ∷ xs) k a h = elim (||_elim _ _ h) [
  | inl e ↦ subst P (bytes_eq→eq x k e) a.0
  | inr e ↦ seen-All P xs k a.1 e
]

pub seen-each : (ids : List Bytes) → All (λ k. seen ids k ≡ true) ids
unfolding seen
seen-each [] = tt
seen-each (x ∷ xs) = (rw (bytes_eq_refl x) refl, All-map xs (λ k h. ||_right _ _ h) (seen-each xs))

pub seen-perm : {xs ys : List Bytes} (k : Bytes) → Permᴰ xs ys → seen xs k ≡ true → seen ys k ≡ true
seen-perm {xs} {ys} k p h =
    seen-All (λ z. seen ys z ≡ true) xs k (All-perm _ (Permᴰ.symm p) (seen-each ys)) h

-- A list that is one longer than a page is the page and its last member.
pub take-last :
    (n : ℕ) (ids : List Bytes) → length ids ≡ suc n → (m : Bytes) × (ids ≡ take n ids ++ (m ∷ []))
unfolding take
take-last n [] h = absurd (omega arith)
take-last zero (x ∷ []) h = (x, refl)
take-last zero (x ∷ y ∷ ys) h = absurd (omega arith)
take-last (suc n) (x ∷ xs) h = let (m, e) = take-last n xs (omega arith) in (m, ap (◌∷◌ x) e)

pub length-take : (n : ℕ) (ids : List Bytes) → n ≤ length ids → length (take n ids) ≡ n
unfolding take
length-take zero [] h = refl
length-take (suc n) [] h = absurd (omega arith)
length-take zero (x ∷ xs) h = refl
length-take (suc n) (x ∷ xs) h = ap suc (length-take n xs (omega arith))

pub take-All {κ} : (P : Bytes → Type κ) (n : ℕ) (ids : List Bytes) → All P ids → All P (take n ids)
unfolding take
take-All P n [] h = tt
take-All P zero (x ∷ xs) h = tt
take-All P (suc n) (x ∷ xs) h = (h.0, take-All P n xs h.1)

pub take-IsSorted :
    (n : ℕ) (ids : List Bytes) → IsSorted (λ id. id) ids → IsSorted (λ id. id) (take n ids)
unfolding take
take-IsSorted n [] h = tt
take-IsSorted zero (x ∷ xs) h = tt
take-IsSorted (suc n) (x ∷ xs) h = (take-All _ n xs h.0, take-IsSorted n xs h.1)

pub before_last : (xs : List Bytes) (m : Bytes) → IsSorted (λ id. id) (xs ++ (m ∷ [])) → Under m xs
before_last [] m h = tt
before_last (x ∷ xs) m h = (last_of xs h.0, before_last xs m h.1)
  where
    last_of :
        (xs : List Bytes) → All (λ y. bytes_lt x y ≡ true) (xs ++ (m ∷ [])) → bytes_lt x m ≡ true
    last_of [] a = a.0
    last_of (y ∷ ys) a = last_of ys a.1

pub seen-append_last : (xs : List Bytes) (m : Bytes) → seen (xs ++ (m ∷ [])) m ≡ true
unfolding seen
seen-append_last [] m = rw (bytes_eq_refl m) refl
seen-append_last (x ∷ xs) m = ||_right _ _ (seen-append_last xs m)

pub seen-of_append :
    (xs : List Bytes) (m k : Bytes) → seen (xs ++ (m ∷ [])) k ≡ true → (seen xs k ≡ true) ⊎ (m ≡ k)
unfolding seen
seen-of_append [] m k h = inr (bytes_eq→eq m k (ground (arith, h)))
seen-of_append (x ∷ xs) m k h = elim (||_elim (bytes_eq x k) (seen (xs ++ (m ∷ [])) k) h) [
  | inl e ↦ inl (rw e refl)
  | inr e ↦ elim (seen-of_append xs m k e) [ inl f ↦ inl (||_right _ _ f) | inr f ↦ inr f ]
]
