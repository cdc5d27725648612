-- ===== src/SessionOps/Paging/Kept.antt =====
-- internal/sessionops/pagination.go: what the heap and the map hold in common.
use ai_config_selector.SessionOps.Paging.{push, delete}
use ai_config_selector.Prelude.{
  suc, true, false, ◌||◌, ◌≡◌, inl, inr, refl, List, [], ◌∷◌, All, All-map, Bool-cases,
  if◌then◌else◌, length, ap, sym,
}
use ai_config_selector.Prelude.Bytes.{
  Bytes, bytes_eq, bytes_eq_refl, bytes_eq→eq, ne→bytes_eq, bytes_lt, seen,
}
use ai_config_selector.Prelude.Order.{bytes_lt_irrefl, bytes_lt_trans, bytes_lt_total}
use native.Mathlib.Omega.{arith}

abbrev pub Under : Bytes → List Bytes → Type 0
Under x ys = All (λ y. bytes_lt y x ≡ true) ys

-- In strictly descending order.
abbrev pub IsDescending : List Bytes → Type 0
IsDescending [] = Unit
IsDescending (x ∷ xs) = Under x xs × IsDescending xs

pub push-All {κ} :
    (P : Bytes → Type κ) (x : Bytes) (ys : List Bytes) → P x → All P ys → All P (push x ys)
unfolding push
push-All P x [] p h = (p, tt)
push-All P x (y ∷ ys) p h = elim (Bool-cases (bytes_lt y x)) [
  | inl e ↦ rw e (p, h)
  | inr e ↦ rw e (h.0, push-All P x ys p h.1)
]

pub length-push : (x : Bytes) (ys : List Bytes) → length (push x ys) ≡ suc (length ys)
unfolding push
length-push x [] = refl
length-push x (y ∷ ys) = elim (Bool-cases (bytes_lt y x)) [
  | inl e ↦ rw e refl
  | inr e ↦ rw e (ap suc (length-push x ys))
]

pub seen-push :
    (x : Bytes) (ys : List Bytes) (k : Bytes) → seen (push x ys) k ≡ (bytes_eq x k || seen ys k)
unfolding push seen
seen-push x [] k = refl
seen-push x (y ∷ ys) k = elim (Bool-cases (bytes_lt y x)) [
  | inl e ↦ rw e refl
  | inr e ↦ rw e (ground (arith, seen-push x ys k))
]

pub Under-trans : (x y : Bytes) (ys : List Bytes) → bytes_lt y x ≡ true → Under y ys → Under x ys
Under-trans x y ys h u = All-map ys (λ z k. bytes_lt_trans z y x k h) u

pub push-IsDescending :
    (x : Bytes) (ys : List Bytes) → IsDescending ys → seen ys x ≡ false → IsDescending (push x ys)
unfolding push seen
push-IsDescending x [] d n = (tt, tt)
push-IsDescending x (y ∷ ys) d n = elim (Bool-cases (bytes_lt y x)) [
  | inl e ↦ rw e ((e, Under-trans x y ys e d.0), d)
  | inr e ↦ rw e (
    push-All (λ z. bytes_lt z y ≡ true) x ys (above e) d.0,
    push-IsDescending x ys d.1 (ground arith),
  )
]
  where
    above : bytes_lt y x ≡ false → bytes_lt x y ≡ true
    above e = elim (Bool-cases (bytes_lt x y)) [
      | inl l ↦ l
      | inr l ↦ absurd (cc (bytes_lt_total x y l e, bytes_eq_refl y, n))
    ]

-- What lies under a text does not hold it.
pub Under-seen : (x : Bytes) (ys : List Bytes) → Under x ys → seen ys x ≡ false
unfolding seen
Under-seen x [] u = refl
Under-seen x (y ∷ ys) u =
    rw (ne→bytes_eq y x (λ e. cc (ap (λ z. bytes_lt z x) e, bytes_lt_irrefl x, u.0)))
      (Under-seen x ys u.1)

pub seen-delete :
    (x : Bytes) (ys : List Bytes) (k : Bytes)
    → seen (delete x ys) k ≡ (if bytes_eq x k then false else seen ys k)
unfolding delete seen
seen-delete x [] k = ground arith
seen-delete x (y ∷ ys) k = elim (Bool-cases (bytes_eq y x)) [
  | inl e ↦ rw e (rw (bytes_eq→eq y x e) (ground (arith, seen-delete x ys k)))
  | inr e ↦ rw e (elim (Bool-cases (bytes_eq x k)) [
    | inl f ↦ ground (arith, seen-delete x ys k, ap (λ z. bytes_eq y z) (bytes_eq→eq x k f))
    | inr f ↦ ground (arith, seen-delete x ys k)
  ])
]

-- Deleting the greatest member leaves the others.
pub seen-delete_greatest :
    (x : Bytes) (xs ys : List Bytes)
    → Under x xs
    → ((k : Bytes) → seen ys k ≡ seen (x ∷ xs) k)
    → (k : Bytes) → seen (delete x ys) k ≡ seen xs k
unfolding seen
seen-delete_greatest x xs ys u same k = elim (Bool-cases (bytes_eq x k)) [
  | inl e ↦ rw (seen-delete x ys k, e) (rw (← bytes_eq→eq x k e) (sym (Under-seen x xs u)))
  | inr e ↦ rw (seen-delete x ys k, e) (rw (same k) (rw e refl))
]
