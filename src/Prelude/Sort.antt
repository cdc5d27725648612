-- ===== src/Prelude/Sort.antt =====
-- sort.Slice, sort.Strings and sort.Ints, by a key. Go's sort is not stable, and the program only sorts
-- lists with distinct keys: the result is then the one reordering in strictly ascending order, so
-- that any sort returns what this insertion sort returns (`IsSorted-unique`).
use mathlib.Core.List.{Permᴰ}
use mathlib.Core.List.Permᴰ
use ai_config_selector.Prelude.Lists.{All, All-map}
use ai_config_selector.Prelude.Order.{Order, lt, lt_asymm, not_lt_trans}
use ai_config_selector.Prelude.Distinct.{All-perm, Distinct}
use ai_config_selector.Prelude.Tests.{if◌then◌else◌, Bool-cases}
use mathlib.Core.Path.{◌≡◌, refl, sym, ap}
use mathlib.Core.Logic.{◌≢◌, ◌⊎◌, inl, inr}
use mathlib.Core.Bool.{true, false}
use mathlib.Core.List.{List, [], ◌∷◌}

module _ {ℓ κ} {A : Type ℓ} {K : Type κ} ⦃o : Order K⦄ (key : A → K) where
  unfoldable pub insert_by : A → List A → List A
  insert_by x [] = x ∷ []
  insert_by x (y ∷ ys) =
      let rest = insert_by x ys in if lt (key y) (key x) then y ∷ rest else x ∷ y ∷ ys

  unfoldable pub sort_by : List A → List A
  sort_by [] = []
  sort_by (x ∷ xs) = insert_by x (sort_by xs)

  abbrev pub Below : A → List A → Type 0
  Below x ys = All (λ y. lt (key x) (key y) ≡ true) ys

  -- In strictly ascending order of the keys.
  abbrev pub IsSorted : List A → Type 0
  IsSorted [] = Unit
  IsSorted (x ∷ xs) = Below x xs × IsSorted xs

  insert_by-perm : (x : A) (ys : List A) → Permᴰ (insert_by x ys) (x ∷ ys)
  unfolding insert_by
  insert_by-perm x [] = Permᴰ.refl (x ∷ [])
  insert_by-perm x (y ∷ ys) = elim (Bool-cases (lt (key y) (key x))) [
    | inl e ↦ rw e (Permᴰ.trans (Permᴰ.cons refl (insert_by-perm x ys)) (Permᴰ.swap refl refl))
    | inr e ↦ rw e (Permᴰ.refl (x ∷ y ∷ ys))
  ]

  pub sort_by-perm : (xs : List A) → Permᴰ (sort_by xs) xs
  unfolding sort_by
  sort_by-perm [] = Permᴰ.nil
  sort_by-perm (x ∷ xs) =
      Permᴰ.trans (insert_by-perm x (sort_by xs)) (Permᴰ.cons refl (sort_by-perm xs))

  Below-trans : (x y : A) (ys : List A) → lt (key x) (key y) ≡ true → Below y ys → Below x ys
  Below-trans x y ys h b = All-map ys (λ z. o.trans (key x) (key y) (key z) h) b

  insert_by-IsSorted :
      (x : A) (ys : List A) → All (λ y. key x ≢ key y) ys → IsSorted ys → IsSorted (insert_by x ys)
  unfolding insert_by
  insert_by-IsSorted x [] d h = (tt, tt)
  insert_by-IsSorted x (y ∷ ys) d h = elim (Bool-cases (lt (key y) (key x))) [
    | inl e ↦
        rw e
          (All-perm _ (Permᴰ.symm (insert_by-perm x ys)) (e, h.0), insert_by-IsSorted x ys d.1 h.1)
    | inr e ↦ rw e (below e, h)
  ]
    where
      below : lt (key y) (key x) ≡ false → Below x (y ∷ ys)
      below e = elim (Bool-cases (lt (key x) (key y))) [
        | inl f ↦ (f, Below-trans x y ys f h.0)
        | inr f ↦ absurd (d.0 (o.total (key x) (key y) f e))
      ]

  -- A list with distinct keys is sorted into strictly ascending order.
  pub sort_by-IsSorted : (xs : List A) → Distinct key xs → IsSorted (sort_by xs)
  unfolding sort_by
  sort_by-IsSorted [] d = tt
  sort_by-IsSorted (x ∷ xs) d =
      insert_by-IsSorted x (sort_by xs) (All-perm _ (Permᴰ.symm (sort_by-perm xs)) d.0)
        (sort_by-IsSorted xs d.1)

  -- Sorting a list in strictly ascending order changes nothing.
  pub sort_by_of_IsSorted : (xs : List A) → IsSorted xs → sort_by xs ≡ xs
  unfolding sort_by
  sort_by_of_IsSorted [] h = refl
  sort_by_of_IsSorted (x ∷ xs) h = rw (sort_by_of_IsSorted xs h.1) (insert_first x xs h.0)
    where
      insert_first : (x : A) (xs : List A) → Below x xs → insert_by x xs ≡ x ∷ xs
      insert_first x [] b = unfold insert_by in refl
      insert_first x (y ∷ ys) b = unfold insert_by in rw (lt_asymm (key x) (key y) b.0)

  pub IsSorted-Distinct : (xs : List A) → IsSorted xs → Distinct key xs
  IsSorted-Distinct [] h = tt
  IsSorted-Distinct (x ∷ xs) h = (All-map xs (λ y b e. ne y b e) h.0, IsSorted-Distinct xs h.1)
    where
      ne : (y : A) → lt (key x) (key y) ≡ true → key x ≢ key y
      ne y b e = cc (o.irrefl (key y), b, e)

  -- What holds of all of the one list holds of all of the other.
  Covers : List A → List A → Type (ℓ + 1)
  Covers xs ys = (P : A → Type ℓ) → All P xs → All P ys

  head_below :
      (x y : A) (xs ys : List A)
      → IsSorted (x ∷ xs)
      → Covers (x ∷ xs) (y ∷ ys)
      → (y ≡ x) ⊎ (lt (key x) (key y) ≡ true)
  unfolding Covers
  head_below x y xs ys h f =
      (f (λ z. (z ≡ x) ⊎ (lt (key x) (key z) ≡ true)) (inl refl, All-map xs (λ z b. inr b) h.0)).0

  Covers-tail :
      (x : A) (xs ys : List A) → IsSorted (x ∷ ys) → Covers (x ∷ xs) (x ∷ ys) → Covers xs ys
  unfolding Covers
  Covers-tail x xs ys h f P a =
      behind ys h.0 (f (λ z. (z ≡ x) ⊎ P z) (inl refl, All-map xs (λ z p. inr p) a)).1
    where
      behind : (zs : List A) → Below x zs → All (λ z. (z ≡ x) ⊎ P z) zs → All P zs
      behind [] b q = tt
      behind (z ∷ zs) b (inl e, q) = absurd (cc (o.irrefl (key x), b.0, ap key e))
      behind (z ∷ zs) b (inr p, q) = (p, behind zs b.1 q)

  same_head :
      (x y : A) (xs ys : List A)
      → IsSorted (x ∷ xs)
      → IsSorted (y ∷ ys)
      → Covers (x ∷ xs) (y ∷ ys)
      → Covers (y ∷ ys) (x ∷ xs)
      → y ≡ x
  same_head x y xs ys h k f g = elim (head_below x y xs ys h f) [
    | inl e ↦ e
    | inr b ↦ elim (head_below y x ys xs k g) [
      | inl e ↦ sym e
      | inr c ↦ absurd (cc (lt_asymm (key x) (key y) b, c))
    ]
  ]

  nil-Covers : (y : A) (ys : List A) → ¬ Covers [] (y ∷ ys)
  unfolding Covers
  nil-Covers y ys f = cc ((f (λ z. ◌≡◌ {A = List A} [] (z ∷ [])) tt).0)

  same_sorted : (xs ys : List A) → IsSorted xs → IsSorted ys → Covers xs ys → Covers ys xs → xs ≡ ys
  same_sorted [] [] h k f g = refl
  same_sorted [] (y ∷ ys) h k f g = absurd (nil-Covers y ys f)
  same_sorted (x ∷ xs) [] h k f g = absurd (nil-Covers x xs g)
  same_sorted (x ∷ xs) (y ∷ ys) h k f g =
      let e : y ≡ x = same_head x y xs ys h k f g in
      let f' : Covers (x ∷ xs) (x ∷ ys) = rw e at f in
      let g' : Covers (x ∷ ys) (x ∷ xs) = rw e at g in
      let k' : IsSorted (x ∷ ys) = rw e at k in
      rw e (
        ap (◌∷◌ x)
          (same_sorted xs ys h.1 k.1 (Covers-tail x xs ys k' f') (Covers-tail x ys xs h g')))

  -- Two reorderings of one list that are in strictly ascending order are the same list.
  pub IsSorted-unique : {xs ys : List A} → Permᴰ xs ys → IsSorted xs → IsSorted ys → xs ≡ ys
  unfolding Covers
  IsSorted-unique {xs} {ys} p h k =
      same_sorted xs ys h k (λ P. All-perm P p) (λ P. All-perm P (Permᴰ.symm p))

  -- In ascending order of the keys, of which some may be the same.
  abbrev pub IsAscending : List A → Type 0
  IsAscending [] = Unit
  IsAscending (x ∷ xs) = All (λ y. lt (key y) (key x) ≡ false) xs × IsAscending xs

  insert_by-IsAscending : (x : A) (ys : List A) → IsAscending ys → IsAscending (insert_by x ys)
  unfolding insert_by
  insert_by-IsAscending x [] h = (tt, tt)
  insert_by-IsAscending x (y ∷ ys) h = elim (Bool-cases (lt (key y) (key x))) [
    | inl e ↦ rw e (
      All-perm _ (Permᴰ.symm (insert_by-perm x ys)) (lt_asymm (key y) (key x) e, h.0),
      insert_by-IsAscending x ys h.1,
    )
    | inr e ↦ rw e ((e, All-map ys (λ z b. not_lt_trans (key x) (key y) (key z) e b) h.0), h)
  ]

  pub sort_by-IsAscending : (xs : List A) → IsAscending (sort_by xs)
  unfolding sort_by
  sort_by-IsAscending [] = tt
  sort_by-IsAscending (x ∷ xs) = insert_by-IsAscending x (sort_by xs) (sort_by-IsAscending xs)

  -- Neighbours with different keys.
  abbrev pub Unrepeated : List A → Type κ
  Unrepeated [] = Unit
  Unrepeated (x ∷ []) = Unit
  Unrepeated (x ∷ y ∷ ys) = (key x ≢ key y) × Unrepeated (y ∷ ys)

  -- An ascending list without equal neighbours is in strictly ascending order.
  pub IsSorted-of_Unrepeated : (xs : List A) → IsAscending xs → Unrepeated xs → IsSorted xs
  IsSorted-of_Unrepeated [] h u = tt
  IsSorted-of_Unrepeated (x ∷ []) h u = (tt, tt)
  IsSorted-of_Unrepeated (x ∷ y ∷ ys) h u =
      let rest : IsSorted (y ∷ ys) = IsSorted-of_Unrepeated (y ∷ ys) h.1 u.1 in
      ((first, Below-trans x y ys first rest.0), rest)
    where
      first : lt (key x) (key y) ≡ true
      first = elim (Bool-cases (lt (key x) (key y))) [
        | inl e ↦ e
        | inr e ↦ absurd (u.0 (o.total (key x) (key y) e h.0.0))
      ]

  pub Unrepeated-of_Distinct : (xs : List A) → Distinct key xs → Unrepeated xs
  Unrepeated-of_Distinct [] h = tt
  Unrepeated-of_Distinct (x ∷ []) h = tt
  Unrepeated-of_Distinct (x ∷ y ∷ ys) h = (h.0.0, Unrepeated-of_Distinct (y ∷ ys) h.1)
