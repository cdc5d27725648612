-- ===== src/Prelude/Distinct.antt =====
-- Lists with distinct keys, and what a reordering keeps.
use Prim.Native.Nat.{suc}
use mathlib.Core.List.{Permᴰ}
use ai_config_selector.Prelude.Lists.{All, All-map, length}
use ai_config_selector.Prelude.Bytes.{Bytes, seen, bytes_eq→ne, ne→bytes_eq}
use ai_config_selector.Prelude.Tests.{||_elim_false}
use mathlib.Core.Path.{◌≡◌, refl, sym, subst, ap, ◌∙◌}
use mathlib.Core.Logic.{◌≢◌}
use mathlib.Core.Bool.{false}
use mathlib.Core.List.{List, [], ◌∷◌}

module _ {ℓ} {A : Type ℓ} where
  pub All-perm {κ} : (P : A → Type κ) {xs ys : List A} → Permᴰ xs ys → All P xs → All P ys
  All-perm P Permᴰ.nil h = tt
  All-perm P (Permᴰ.cons e p) h = (subst P e h.0, All-perm P p h.1)
  All-perm P (Permᴰ.swap e f) h = (subst P f h.1.0, (subst P e h.0, h.1.1))
  All-perm P (Permᴰ.trans p q) h = All-perm P q (All-perm P p h)

  pub length-perm : {xs ys : List A} → Permᴰ xs ys → length xs ≡ length ys
  length-perm Permᴰ.nil = refl
  length-perm (Permᴰ.cons e p) = ap suc (length-perm p)
  length-perm (Permᴰ.swap e f) = refl
  length-perm (Permᴰ.trans p q) = length-perm p ∙ length-perm q

-- No two members of the list have the same key.
abbrev pub Distinct {ℓ κ} : {A : Type ℓ} {K : Type κ} → (A → K) → List A → Type κ
Distinct key [] = Unit
Distinct key (x ∷ xs) = All (λ y. key x ≢ key y) xs × Distinct key xs

module _ {ℓ κ} {A : Type ℓ} {K : Type κ} (key : A → K) where
  pub Distinct-perm : {xs ys : List A} → Permᴰ xs ys → Distinct key xs → Distinct key ys
  Distinct-perm Permᴰ.nil h = tt
  Distinct-perm (Permᴰ.cons {b = b} {l₁ = l} e p) h = (
    All-perm (λ y. key b ≢ key y) p (subst (λ x. All (λ y. key x ≢ key y) l) e h.0),
    Distinct-perm p h.1,
  )
  Distinct-perm (Permᴰ.swap {a = a} {b = b} {l = l} e f) h = (
    (λ k. h.0.0 (rw (e, f) (sym k)), subst (λ x. All (λ y. key x ≢ key y) l) f h.1.0),
    (subst (λ x. All (λ y. key x ≢ key y) l) e h.0.1, h.1.1),
  )
  Distinct-perm (Permᴰ.trans p q) h = Distinct-perm q (Distinct-perm p h)

  -- Keys that determine another one are distinct if that one is.
  pub Distinct-map {μ} :
      {L : Type μ} (other : A → L) (xs : List A)
      → ((x y : A) → other x ≡ other y → key x ≡ key y)
      → Distinct key xs
      → Distinct other xs
  Distinct-map other [] f h = tt
  Distinct-map other (x ∷ xs) f h =
      (All-map xs (λ y n e. n (f x y e)) h.0, Distinct-map other xs f h.1)

module _ {ℓ} {A : Type ℓ} (key : A → Bytes) where
  -- No key of the list was met before.
  abbrev pub Fresh : List Bytes → List A → Type 0
  Fresh ks xs = All (λ x. seen ks (key x) ≡ false) xs

  pub Fresh-cons :
      (k : Bytes) (ks : List Bytes) (xs : List A)
      → Fresh ks xs
      → All (λ x. k ≢ key x) xs
      → Fresh (k ∷ ks) xs
  unfolding seen
  Fresh-cons k ks [] h d = tt
  Fresh-cons k ks (x ∷ xs) h d = (rw (ne→bytes_eq k (key x) d.0) h.0, Fresh-cons k ks xs h.1 d.1)

  pub Fresh-uncons :
      (k : Bytes) (ks : List Bytes) (xs : List A)
      → Fresh (k ∷ ks) xs
      → Fresh ks xs × All (λ x. k ≢ key x) xs
  unfolding seen
  Fresh-uncons k ks [] h = (tt, tt)
  Fresh-uncons k ks (x ∷ xs) h =
      let (a, b) = ||_elim_false _ _ h.0 in
      let (f, d) = Fresh-uncons k ks xs h.1 in ((b, f), (bytes_eq→ne k (key x) a, d))

  pub Fresh-nil : (xs : List A) → Fresh [] xs
  unfolding seen
  Fresh-nil [] = tt
  Fresh-nil (x ∷ xs) = (refl, Fresh-nil xs)
