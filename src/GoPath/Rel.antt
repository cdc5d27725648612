-- ===== src/GoPath/Rel.antt =====
-- filepath.Rel between absolute paths: the test that the program makes on its result compares the
-- elements of the cleaned paths.
use ai_config_selector.Prelude.{
  Bool, true, false, not, ◌≡◌, ◌≢◌, refl, sym, ap, ◌∙◌, ◌↔◌, inl, inr, Option, none, some, List, [],
  ◌∷◌, ◌++◌, All, All-map, arith, Bool-cases, subst,
}
use ai_config_selector.Prelude.Bytes.{
  Bytes, contains_byte, bytes_eq, has_prefix, bytes_eq→eq, bytes_eq→ne, bytes_eq_refl, ne→bytes_eq,
  suffix_of_prefix,
}
use ai_config_selector.GoPath.{
  slash, dot, dotdot, split, join, is_abs, components, render, clean, climb, rel_walk, rel,
}
use ai_config_selector.GoPath.Split.{IsFree, split-join, split-free, split-free-append}
use ai_config_selector.GoPath.Stack.{IsName}
use ai_config_selector.GoPath.Names.{escapes, dotdot_slash, render-dotdot, components-IsName_abs}
use ai_config_selector.GoPath.Clean.{components-clean}

append-nil {ℓ} : {A : Type ℓ} (xs : List A) → xs ++ [] ≡ xs
append-nil [] = refl
append-nil (x ∷ xs) = ap (λ ys. x ∷ ys) (append-nil xs)

-- `err == nil && relative != ".." && !strings.HasPrefix(relative, "../")`
abbrev pub stays : Option Bytes → Bool
stays none = false
stays (some relative) = not (escapes relative)

-- The list begins with the elements of the other one.
abbrev pub Begins : List Bytes → List Bytes → Type 0
Begins bs ts = (rest : List Bytes) × (ts ≡ bs ++ rest)

pub Begins-refl : (xs : List Bytes) → Begins xs xs
Begins-refl xs = ([], sym (append-nil xs))

names-IsFree : (cs : List Bytes) → All IsName cs → All (IsFree slash) cs
names-IsFree cs h = All-map cs (λ x n. n.free) h

first_name : (c : Bytes) (cs r : List Bytes) → IsName c → c ∷ cs ≡ dotdot ∷ r → ⊥
first_name c cs r h e = h.not_dotdot (cc e)

pub escapes-names : (cs : List Bytes) → All IsName cs → escapes (join slash cs) ≡ false
escapes-names [] h = unfold join in unfold has_prefix in unfold bytes_eq in refl
escapes-names (c ∷ cs) h =
    let p = join slash (c ∷ cs) in
    let back = split-join slash c cs (names-IsFree (c ∷ cs) h) in
    elim (Bool-cases (bytes_eq p dotdot)) [
      | inl e ↦ absurd (
          first_name c cs [] h.0 (
            sym back
            ∙ ap (split slash) (bytes_eq→eq p dotdot e)
            ∙ split-free slash dotdot dotdot_free))
      | inr e ↦ elim (Bool-cases (has_prefix p dotdot_slash)) [
        | inr f ↦ ground arith
        | inl f ↦
            let (r, q) = suffix_of_prefix p dotdot_slash f in
            absurd (
              first_name c cs (split slash r) h.0
                (sym back ∙ ap (split slash) q ∙ split-free-append slash dotdot r dotdot_free))
      ]
    ]
  where
    dotdot_free : IsFree slash dotdot
    dotdot_free = unfold contains_byte in refl

escapes-climb : (b : Bytes) (bs ts : List Bytes) → escapes (join slash (climb (b ∷ bs) ts)) ≡ true
unfolding climb join render
escapes-climb b bs ts = render-dotdot (climb bs ts)

-- The walk of Rel over the elements stays inside exactly if the base's elements begin the target's.
rel_walk_iff :
    (bs ts : List Bytes)
    → All IsName bs
    → All IsName ts
    → (stays (rel_walk bs ts) ≡ true) ↔ Begins bs ts
unfolding rel_walk
rel_walk_iff [] ts h k = (λ e. (ts, refl), λ b. rw (escapes-names ts k) refl)
rel_walk_iff (b ∷ bs) [] h k =
    let n = ne→bytes_eq b dotdot h.0.not_dotdot in
    (λ e. ground (arith, escapes-climb b bs []), λ g. absurd (cc g.1))
rel_walk_iff (b ∷ bs) (t ∷ ts) h k = elim (Bool-cases (bytes_eq t b)) [
  | inl e ↦
      let q = bytes_eq→eq t b e in
      let (f, g) = rel_walk_iff bs ts h.1 k.1 in
      rw e (λ d. (let (r, w) = f d in (r, cc (q, w))), λ d. g (d.0, cc d.1))
  | inr e ↦
      let n = ne→bytes_eq b dotdot h.0.not_dotdot in
      rw (e, n, escapes-climb b bs (t ∷ ts))
        (λ d. absurd (cc d), λ d. absurd (bytes_eq→ne t b e (cc d.1)))
]

module _ (base target : Bytes) (b : is_abs base ≡ true) (t : is_abs target ≡ true) where
  elements_of_clean : clean target ≡ clean base → components target ≡ components base
  elements_of_clean e = sym (components-clean target) ∙ ap components e ∙ components-clean base

  -- On absolute paths the test on Rel's result asks whether the base's elements begin the target's.
  pub rel_iff : (stays (rel base target) ≡ true) ↔ Begins (components base) (components target)
  unfolding rel bytes_eq has_prefix
  rel_iff =
      let walk =
        rel_walk_iff (components base) (components target) (components-IsName_abs base b)
          (components-IsName_abs target t) in
      elim (Bool-cases (bytes_eq (clean target) (clean base))) [
        | inl e ↦
            let same = elements_of_clean (bytes_eq→eq (clean target) (clean base) e) in
            rw e ((λ d. ([], same ∙ sym (append-nil (components base)))), (λ d. refl))
        | inr e ↦ rw (e, b, t) walk
      ]

join-ne-dot : (cs : List Bytes) → All IsName cs → join slash cs ≢ dot
join-ne-dot [] h = λ e. absurd (cc (empty e))
  where
    empty : join slash [] ≡ dot → [] ≡ dot
    empty e = unfold join in e
join-ne-dot (c ∷ cs) h = λ e. absurd (
    h.0.not_dot (
      cc (
        sym (split-join slash c cs (names-IsFree (c ∷ cs) h))
        ∙ ap (split slash) e
        ∙ split-free slash dot dot_free)))
  where
    dot_free : IsFree slash dot
    dot_free = unfold contains_byte in refl

rel_walk-append : (bs rest : List Bytes) → rel_walk bs (bs ++ rest) ≡ some (join slash rest)
unfolding rel_walk
rel_walk-append [] rest = refl
rel_walk-append (b ∷ bs) rest = rw (bytes_eq_refl b) (rel_walk-append bs rest)

All-suffix {ℓ κ} : {A : Type ℓ} (P : A → Type κ) (xs ys : List A) → All P (xs ++ ys) → All P ys
All-suffix P [] ys h = h
All-suffix P (x ∷ xs) ys h = All-suffix P xs ys h.1

-- Between two absolute paths of which one lies strictly below the other, Rel returns the way down.
pub rel-strict :
    (base target : Bytes)
    → is_abs base ≡ true
    → is_abs target ≡ true
    → Begins (components base) (components target)
    → clean target ≢ clean base
    → (r : Bytes) × (rel base target ≡ some r) × (bytes_eq r dot ≡ false) × (escapes r ≡ false)
unfolding rel
rel-strict base target b t (rest, e) n =
    let names =
      All-suffix IsName (components base) rest
        (subst (All IsName) e (components-IsName_abs target t)) in
    (
      join slash rest,
      rw (ne→bytes_eq (clean target) (clean base) n, b, t, e)
          (rel_walk-append (components base) rest),
      ne→bytes_eq (join slash rest) dot (join-ne-dot rest names),
      escapes-names rest names,
    )
