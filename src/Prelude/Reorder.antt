-- ===== src/Prelude/Reorder.antt =====
-- sort.Slice by a key that determines the members of the list: members with equal keys are the same, so
-- that any sort returns one list, and it does not depend on the order of the input.
use mathlib.Core.List.{Permᴰ}
use ai_config_selector.Prelude.Lists.{All}
use ai_config_selector.Prelude.Order.{Order, lt, lt_asymm, not_lt_trans}
use ai_config_selector.Prelude.Distinct.{All-perm}
use ai_config_selector.Prelude.Sort.{insert_by, sort_by}
use ai_config_selector.Prelude.Tests.{Bool-cases}
use mathlib.Core.Path.{◌≡◌, refl, sym, ap, ◌∙◌}
use mathlib.Core.Logic.{inl, inr}
use mathlib.Core.Bool.{true, false}
use mathlib.Core.List.{List, [], ◌∷◌}

module _ {ℓ κ} {A : Type ℓ} {K : Type κ} ⦃o : Order K⦄ (key : A → K) where
  insert_by_nil : (x : A) → insert_by key x [] ≡ x ∷ []
  unfolding insert_by
  insert_by_nil x = refl

  insert_by_past :
      (x z : A) (zs : List A)
      → lt (key z) (key x) ≡ true
      → insert_by key x (z ∷ zs) ≡ z ∷ insert_by key x zs
  unfolding insert_by
  insert_by_past x z zs h = rw h refl

  insert_by_before :
      (x z : A) (zs : List A) → lt (key z) (key x) ≡ false → insert_by key x (z ∷ zs) ≡ x ∷ z ∷ zs
  unfolding insert_by
  insert_by_before x z zs h = rw h refl

  -- In front of what neither of them passes.
  comm_in_front :
      (x y : A) (l : List A)
      → (key x ≡ key y → x ≡ y)
      → insert_by key x l ≡ x ∷ l
      → insert_by key y l ≡ y ∷ l
      → insert_by key x (y ∷ l) ≡ insert_by key y (x ∷ l)
  comm_in_front x y l same fx fy = elim (Bool-cases (lt (key y) (key x))) [
    | inl b ↦
        cc (insert_by_past x y l b, insert_by_before y x l (lt_asymm (key y) (key x) b), fx, fy)
    | inr b ↦ elim (Bool-cases (lt (key x) (key y))) [
      | inl c ↦ cc (insert_by_past y x l c, insert_by_before x y l b, fx, fy)
      | inr c ↦ rw (same (o.total (key x) (key y) c b)) refl
    ]
  ]

  -- The first passes the head and the second stands before it.
  comm_apart :
      (x y z : A) (zs : List A)
      → lt (key z) (key x) ≡ true
      → lt (key z) (key y) ≡ false
      → insert_by key x (insert_by key y (z ∷ zs)) ≡ insert_by key y (insert_by key x (z ∷ zs))
  comm_apart x y z zs zx zy = elim (Bool-cases (lt (key y) (key x))) [
    | inl b ↦ cc (
      insert_by_before y z zs zy,
      insert_by_past x y (z ∷ zs) b,
      insert_by_past x z zs zx,
      insert_by_before y z (insert_by key x zs) zy,
    )
    | inr b ↦ absurd (cc (not_lt_trans (key x) (key y) (key z) b zy, zx))
  ]

  insert_by_comm :
      (x y : A) (l : List A)
      → (key x ≡ key y → x ≡ y)
      → insert_by key x (insert_by key y l) ≡ insert_by key y (insert_by key x l)
  insert_by_comm x y [] same =
      let fx = insert_by_nil x in
      let fy = insert_by_nil y in rw (fx, fy) (comm_in_front x y [] same fx fy)
  insert_by_comm x y (z ∷ zs) same = elim (Bool-cases (lt (key z) (key x))) [
    | inl zx ↦ elim (Bool-cases (lt (key z) (key y))) [
      | inl zy ↦ cc (
        insert_by_past x z zs zx,
        insert_by_past y z zs zy,
        insert_by_past x z (insert_by key y zs) zx,
        insert_by_past y z (insert_by key x zs) zy,
        insert_by_comm x y zs same,
      )
      | inr zy ↦ comm_apart x y z zs zx zy
    ]
    | inr zx ↦ elim (Bool-cases (lt (key z) (key y))) [
      | inl zy ↦ sym (comm_apart y x z zs zy zx)
      | inr zy ↦
          let fx = insert_by_before x z zs zx in
          let fy = insert_by_before y z zs zy in rw (fx, fy) (comm_in_front x y (z ∷ zs) same fx fy)
    ]
  ]

  -- Reorderings of one list are sorted alike.
  pub sort_by-reorder :
      (P : A → Type 0)
      → ((x y : A) → P x → P y → key x ≡ key y → x ≡ y)
      → {xs ys : List A} → Permᴰ xs ys
      → All P xs
      → sort_by key xs ≡ sort_by key ys
  unfolding sort_by
  sort_by-reorder P same Permᴰ.nil h = refl
  sort_by-reorder P same (Permᴰ.cons e p) h =
      rw e (ap (insert_by key _) (sort_by-reorder P same p h.1))
  sort_by-reorder P same (Permᴰ.swap {a = a} {b = b} {l = l} e f) h =
      rw (← e, ← f) (insert_by_comm a b (sort_by key l) (same a b h.0 h.1.0))
  sort_by-reorder P same (Permᴰ.trans p q) h =
      sort_by-reorder P same p h ∙ sort_by-reorder P same q (All-perm P p h)
