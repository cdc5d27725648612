-- ===== src/GoPath/Keeps.antt =====
-- What path.Clean keeps of a text: a property of every element, and a bound on the length.
use mathlib.Core.List.{reverse, reverse-cons}
use ai_config_selector.Prelude.{
  ℕ, suc, ◌+◌, ◌≤◌, Bool, true, false, ◌≡◌, ◌≢◌, refl, inl, inr, ap, List, [], ◌∷◌, ◌++◌, arith,
  All, Bool-cases, ◌||◌, All-reverse, length, length-append, ◌==◌, ==_iff,
}
use ai_config_selector.Prelude.Bytes.{Bytes, bytes_eq, bytes_eq→eq}
use ai_config_selector.GoPath.{
  slash, dot, dotdot, backtrack, clean_step, clean_stack, components, split, attach, join,
  join_tail, is_abs, render, clean,
}
use ai_config_selector.GoPath.Split.{split-ne-nil}
use ai_config_selector.GoPath.Clean.{clean_stack-root}

module _ {ℓ} (P : Bytes → Type ℓ) (up : P dotdot) where
  backtrack-All : (rooted : Bool) (s : List Bytes) → All P s → All P (backtrack rooted s)
  unfolding backtrack
  backtrack-All true [] h = tt
  backtrack-All false [] h = (up, tt)
  backtrack-All rooted (x ∷ s) h = elim (Bool-cases (bytes_eq x dotdot)) [
    | inl e ↦ rw e (up, h)
    | inr e ↦ rw e h.1
  ]

  clean_step-All :
      (rooted : Bool) (s : List Bytes) (c : Bytes) → P c → All P s → All P (clean_step rooted s c)
  unfolding clean_step
  clean_step-All rooted s c p h = elim (Bool-cases (bytes_eq c [] || bytes_eq c dot)) [
    | inl e ↦ rw e h
    | inr e ↦ rw e (elim (Bool-cases (bytes_eq c dotdot)) [
      | inl d ↦ rw d (backtrack-All rooted s h)
      | inr d ↦ rw d (p, h)
    ])
  ]

  clean_stack-All :
      (rooted : Bool) (s cs : List Bytes) → All P cs → All P s → All P (clean_stack rooted s cs)
  unfolding clean_stack
  clean_stack-All rooted s [] p h = h
  clean_stack-All rooted s (c ∷ cs) p h =
      clean_stack-All rooted (clean_step rooted s c) cs p.1 (clean_step-All rooted s c p.0 h)

  pub components-All : (p : Bytes) → All P (split slash p) → All P (components p)
  unfolding components
  components-All p h =
      All-reverse P (clean_stack (is_abs p) [] (split slash p))
        (clean_stack-All (is_abs p) [] (split slash p) h tt)

-- The bytes of the elements, with one separator for each.
abbrev pub size : List Bytes → ℕ
size [] = 0
size (x ∷ xs) = length x + 1 + size xs

size-append : (xs ys : List Bytes) → size (xs ++ ys) ≡ size xs + size ys
size-append [] ys = omega arith
size-append (x ∷ xs) ys = omega (arith, size-append xs ys)

size-reverse : (xs : List Bytes) → size (reverse xs) ≡ size xs
size-reverse [] = refl
size-reverse (x ∷ xs) =
    rw (reverse-cons x xs, size-append (reverse xs) (x ∷ [])) (omega (arith, size-reverse xs))

size-attach : (c : ℕ) (xs : List Bytes) → xs ≢ [] → size (attach c xs) ≡ suc (size xs)
size-attach c [] h = absurd (h refl)
size-attach c (x ∷ xs) h = omega arith

size-split : (s : Bytes) → size (split slash s) ≡ length s + 1
unfolding split
size-split [] = refl
size-split (c ∷ cs) = elim (Bool-cases (c == slash)) [
  | inl e ↦ rw e (omega (arith, size-split cs))
  | inr e ↦
      rw e (omega (arith, size-attach c (split slash cs) (split-ne-nil slash cs), size-split cs))
]

length-join_tail : (xs : List Bytes) → length (join_tail slash xs) ≡ size xs
unfolding join_tail
length-join_tail [] = refl
length-join_tail (x ∷ xs) = omega (arith, length-append x (join_tail slash xs), length-join_tail xs)

length-join : (x : Bytes) (xs : List Bytes) → length (join slash (x ∷ xs)) + 1 ≡ size (x ∷ xs)
unfolding join
length-join x xs = omega (arith, length-append x (join_tail slash xs), length-join_tail xs)

backtrack-size : (rooted : Bool) (s : List Bytes) → size (backtrack rooted s) ≤ size s + 3
unfolding backtrack
backtrack-size true [] = omega arith
backtrack-size false [] = omega arith
backtrack-size rooted (x ∷ s) = ground arith

length-dotdot : (c : Bytes) → bytes_eq c dotdot ≡ true → length c ≡ 2
length-dotdot c h = ap (λ (x : Bytes). length x) (bytes_eq→eq c dotdot h)

clean_step-size :
    (rooted : Bool) (s : List Bytes) (c : Bytes)
    → size (clean_step rooted s c) ≤ size s + length c + 1
unfolding clean_step
clean_step-size rooted s c = ground (arith, backtrack-size rooted s, length-dotdot c)

clean_stack-size :
    (rooted : Bool) (s cs : List Bytes) → size (clean_stack rooted s cs) ≤ size s + size cs
unfolding clean_stack
clean_stack-size rooted s [] = omega arith
clean_stack-size rooted s (c ∷ cs) =
    omega (arith, clean_stack-size rooted (clean_step rooted s c) cs, clean_step-size rooted s c)

components-size : (p : Bytes) → size (components p) ≤ length p + 1
unfolding components
components-size p = omega (
  arith,
  size-reverse (clean_stack (is_abs p) [] (split slash p)),
  clean_stack-size (is_abs p) [] (split slash p),
  size-split p,
)

-- An absolute path has an empty piece in front of its root.
components-size_abs : (p : Bytes) → is_abs p ≡ true → size (components p) ≤ length p
unfolding components is_abs
components-size_abs [] h = cc
components-size_abs (c ∷ r) h =
    let e : c ≡ slash = (==_iff c slash).0 h in
    rw (e, clean_stack-root r)
      (omega (
        arith,
        size-reverse (clean_stack true [] (split slash r)),
        clean_stack-size true [] (split slash r),
        size-split r,
      ))

length-render_rel :
    (cs : List Bytes) (n : ℕ) → 1 ≤ n → size cs ≤ n + 1 → length (render false cs) ≤ n
unfolding render
length-render_rel [] n h k = h
length-render_rel (c ∷ cs) n h k = omega (arith, length-join c cs)

length-render_abs : (cs : List Bytes) (n : ℕ) → 1 ≤ n → size cs ≤ n → length (render true cs) ≤ n
unfolding render
length-render_abs [] n h k = unfold join in h
length-render_abs (c ∷ cs) n h k = omega (arith, length-join c cs)

length_pos : (p : Bytes) → p ≢ [] → 1 ≤ length p
length_pos [] h = absurd (h refl)
length_pos (c ∷ p) h = omega arith

-- A text that is not empty is not made longer.
pub length-clean-le : (p : Bytes) → p ≢ [] → length (clean p) ≤ length p
unfolding clean
length-clean-le p h = elim (Bool-cases (is_abs p)) [
  | inl a ↦
      rw a (length-render_abs (components p) (length p) (length_pos p h) (components-size_abs p a))
  | inr a ↦ rw a (length-render_rel (components p) (length p) (length_pos p h) (components-size p))
]
