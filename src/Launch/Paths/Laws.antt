-- ===== src/Launch/Paths/Laws.antt =====
-- The tests on paths of internal/launch compare the elements of absolute paths.
use ai_config_selector.Prelude.{
  true, false, not, ◌≡◌, ◌↔◌, ◌⊎◌, inl, inr, refl, sym, ◌∙◌, arith, Bool-cases, &&_elim, some, none,
  Option,
}
use ai_config_selector.Prelude.Bytes.{Bytes, bytes_eq, bytes_eq→eq, bytes_eq→ne, ne→bytes_eq}
use ai_config_selector.GoPath.{is_abs, components, clean, rel, dot}
use ai_config_selector.GoPath.Clean.{clean-eq}
use ai_config_selector.GoPath.Names.{escapes}
use ai_config_selector.GoPath.Rel.{stays, Begins, rel_iff, rel-strict, Begins-refl}
use ai_config_selector.Launch.Paths.{within_or_equal, path_within, paths_overlap, goes_down}

-- An absolute path that filepath.Clean leaves as it is.
pub record IsCleaned (p : Bytes) : Type 0 where
  pub absolute : is_abs p ≡ true
  pub cleaned : clean p ≡ p

-- withinOrEqual holds for two absolute paths exactly if the elements of the root begin those of the
-- candidate.
pub within_or_equal_iff :
    (root candidate : Bytes)
    → is_abs root ≡ true
    → is_abs candidate ≡ true
    → (within_or_equal root candidate ≡ true) ↔ Begins (components root) (components candidate)
unfolding within_or_equal
within_or_equal_iff root candidate a b = rel_iff root candidate a b

path_within-Begins :
    (root candidate : Bytes)
    → is_abs root ≡ true
    → is_abs candidate ≡ true
    → path_within root candidate ≡ true
    → Begins (components root) (components candidate)
unfolding path_within
path_within-Begins root candidate a b h =
    (rel_iff root candidate a b).0 (weaken (rel root candidate) h)
  where
    weaken : (o : Option Bytes) → goes_down o ≡ true → stays o ≡ true
    weaken none h = h
    weaken (some r) h = (&&_elim (not (bytes_eq r dot)) (not (escapes r)) h).1

cleaned-injective : (a b : Bytes) → IsCleaned a → IsCleaned b → components a ≡ components b → a ≡ b
cleaned-injective a b h k e =
    sym h.cleaned ∙ clean-eq a b (h.absolute ∙ sym k.absolute) e ∙ k.cleaned

path_within_of_Begins :
    (root candidate : Bytes)
    → IsCleaned root
    → IsCleaned candidate
    → bytes_eq root candidate ≡ false
    → Begins (components root) (components candidate)
    → path_within root candidate ≡ true
unfolding path_within
path_within_of_Begins root candidate h k n g =
    let (r, e, d, f) =
      rel-strict root candidate h.absolute k.absolute g
        (λ e. bytes_eq→ne root candidate n (sym h.cleaned ∙ sym e ∙ k.cleaned)) in
    rw (e, d, f) refl

-- pathsOverlap holds for two absolute cleaned paths exactly if the elements of one begin those of
-- the other: one of them is the other, or lies below it.
pub paths_overlap_iff :
    (a b : Bytes)
    → IsCleaned a
    → IsCleaned b
    → (paths_overlap a b ≡ true)
      ↔ (Begins (components a) (components b) ⊎ Begins (components b) (components a))
unfolding paths_overlap
paths_overlap_iff a b h k = elim (Bool-cases (bytes_eq a b)) [
  | inl e ↦
      let q = bytes_eq→eq a b e in rw e (λ d. inl (rw q (Begins-refl (components b))), λ d. refl)
  | inr e ↦ (
    λ d. elim (Bool-cases (path_within a b)) [
      | inl w ↦ inl (path_within-Begins a b h.absolute k.absolute w)
      | inr w ↦ inr (path_within-Begins b a k.absolute h.absolute (ground arith))
    ],
    λ d. elim d [
      | inl g ↦ rw (e, path_within_of_Begins a b h k e g) refl
      | inr g ↦ (let w = path_within_of_Begins b a k h (differ e) g in ground arith)
    ],
  )
]
  where
    differ : bytes_eq a b ≡ false → bytes_eq b a ≡ false
    differ e = ne→bytes_eq b a (λ q. bytes_eq→ne a b e (sym q))
