-- ===== src/GoPath/Split.antt =====
-- strings.Split and strings.Join are inverse on pieces that are free of the separator.
use mathlib.Core.List.{append-nil}
use ai_config_selector.Prelude.{
  ℕ, false, ◌≡◌, ◌≢◌, refl, ap, sym, ◌∙◌, List, [], ◌∷◌, ◌++◌, ◌==◌, arith, All, inl, inr,
  Bool-cases,
}
use ai_config_selector.Prelude.Bytes.{Bytes, contains_byte}
use ai_config_selector.GoPath.{attach, split, join, join_tail}

abbrev pub IsFree : ℕ → Bytes → Type 0
IsFree sep x = contains_byte sep x ≡ false

All-attach :
    (sep c : ℕ) (xs : List Bytes)
    → (c == sep) ≡ false
    → All (IsFree sep) xs
    → All (IsFree sep) (attach c xs)
unfolding contains_byte
All-attach sep c [] h a = ground arith
All-attach sep c (x ∷ xs) h a = ground arith

pub split-IsFree : (sep : ℕ) (s : Bytes) → All (IsFree sep) (split sep s)
unfolding split contains_byte
split-IsFree sep [] = (refl, tt)
split-IsFree sep (c ∷ cs) = elim (Bool-cases (c == sep)) [
  | inl e ↦ rw e (refl, split-IsFree sep cs)
  | inr e ↦ rw e (All-attach sep c (split sep cs) e (split-IsFree sep cs))
]

pub split-free : (sep : ℕ) (x : Bytes) → IsFree sep x → split sep x ≡ x ∷ []
unfolding split contains_byte
split-free sep [] h = refl
split-free sep (c ∷ cs) h = ground (arith, split-free sep cs)

pub split-free-append :
    (sep : ℕ) (x r : Bytes) → IsFree sep x → split sep (x ++ (sep ∷ r)) ≡ x ∷ split sep r
unfolding split contains_byte
split-free-append sep [] r h = ground arith
split-free-append sep (c ∷ cs) r h = ground (arith, split-free-append sep cs r)

pub split-join :
    (sep : ℕ) (x : Bytes) (xs : List Bytes)
    → All (IsFree sep) (x ∷ xs)
    → split sep (join sep (x ∷ xs)) ≡ x ∷ xs
unfolding join
split-join sep x [] h = rw append-nil (split-free sep x h.0)
split-join sep x (y ∷ ys) h =
    rw (split-free-append sep x (y ++ join_tail sep ys) h.0) (ap (◌∷◌ x) (split-join sep y ys h.1))

join-attach : (sep c : ℕ) (xs : List Bytes) → xs ≢ [] → join sep (attach c xs) ≡ c ∷ join sep xs
unfolding join
join-attach sep c [] h = absurd (h refl)
join-attach sep c (x ∷ xs) h = refl

pub split-ne-nil : (sep : ℕ) (s : Bytes) → split sep s ≢ []
unfolding split
split-ne-nil sep [] = λ e. cc
split-ne-nil sep (c ∷ cs) = λ e. ground (arith, split-ne-nil sep cs)

-- What the pieces join to is the text that was split.
pub join-split : (sep : ℕ) (s : Bytes) → join sep (split sep s) ≡ s
unfolding split join
join-split sep [] = refl
join-split sep (c ∷ cs) =
    ground (arith, join-split sep cs, split-ne-nil sep cs, join-attach sep c (split sep cs))

-- A text that is free of the separator can be read off from in front of it.
pub append_sep-injective :
    (sep : ℕ) (x y u v : Bytes)
    → IsFree sep x
    → IsFree sep y
    → x ++ (sep ∷ u) ≡ y ++ (sep ∷ v)
    → (x ≡ y) × (u ≡ v)
append_sep-injective sep x y u v h k e =
    let s : x ∷ split sep u ≡ y ∷ split sep v =
      sym (split-free-append sep x u h) ∙ ap (split sep) e ∙ split-free-append sep y v k in
    (cc, sym (join-split sep u) ∙ ap (join sep) (cc s) ∙ join-split sep v)
