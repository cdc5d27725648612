-- ===== src/Intent/Reference/Settled.antt =====
-- A canonical reference passes the tests that its source passed, and is its own canonical form.
use ai_config_selector.Prelude.{
  ℕ, Bool, true, false, ◌≤◌, ◌≡◌, ◌≢◌, refl, sym, List, [], ◌∷◌, ◌++◌, ◌==◌, length, ok, arith, All,
  Bool-cases, inl, inr, le→leb, refuse_if-parts, ok-injective, ||_elim_false,
}
use ai_config_selector.Prelude.Bytes.{Bytes, contains_byte, bytes_eq→ne, ne→bytes_eq}
use ai_config_selector.GoPath.{
  attach, slash, split, join, join_tail, is_abs, clean, render, components,
}
use ai_config_selector.GoPath.Clean.{clean_idem, clean-ne-nil}
use ai_config_selector.GoPath.Keeps.{components-All, length-clean-le}
use ai_config_selector.Text.{valid_string, valid_from, next, lead}
use ai_config_selector.Text.Pieces.{
  IsValidText, split-IsValidText, join-IsValidText, slash-IsValidText,
}
use ai_config_selector.Intent.Reference.{
  valid_path, clean_relative, clean_absolute, maximum_path_bytes,
}

-- The byte c does not occur.
abbrev Without : ℕ → Bytes → Type 0
Without c x = contains_byte c x ≡ false

Without-append : (c : ℕ) (x y : Bytes) → Without c x → Without c y → Without c (x ++ y)
unfolding contains_byte
Without-append c [] y h k = k
Without-append c (b ∷ x) y h k = ground (arith, Without-append c x y)

Without-join_tail :
    (c : ℕ) (xs : List Bytes)
    → (slash == c) ≡ false
    → All (Without c) xs
    → Without c (join_tail slash xs)
unfolding join_tail contains_byte
Without-join_tail c [] s h = refl
Without-join_tail c (x ∷ xs) s h =
    rw s (Without-append c x (join_tail slash xs) h.0 (Without-join_tail c xs s h.1))

Without-attach :
    (c b : ℕ) (xs : List Bytes)
    → (b == c) ≡ false
    → All (Without c) xs
    → All (Without c) (attach b xs)
unfolding contains_byte
Without-attach c b [] e h = (rw e, tt)
Without-attach c b (x ∷ xs) e h = (rw e h.0, h.1)

Without-split : (c : ℕ) (s : Bytes) → Without c s → All (Without c) (split slash s)
unfolding split contains_byte
Without-split c [] h = (refl, tt)
Without-split c (b ∷ s) h =
    let (e, k) = ||_elim_false (b == c) (contains_byte c s) h in
    elim (Bool-cases (b == slash)) [
      | inl t ↦ rw t (refl, Without-split c s k)
      | inr t ↦ rw t (Without-attach c b (split slash s) e (Without-split c s k))
    ]

Without-render :
    (c : ℕ) (rooted : Bool) (cs : List Bytes)
    → (slash == c) ≡ false
    → (b'.' == c) ≡ false
    → All (Without c) cs
    → Without c (render rooted cs)
unfolding render join
Without-render c true [] s d h = unfold contains_byte in rw s
Without-render c true (x ∷ cs) s d h =
    Without-append c (slash ∷ []) (x ++ join_tail slash cs) (unfold contains_byte in rw s)
      (Without-append c x (join_tail slash cs) h.0 (Without-join_tail c cs s h.1))
Without-render c false [] s d h = unfold contains_byte in rw d
Without-render c false (x ∷ cs) s d h =
    Without-append c x (join_tail slash cs) h.0 (Without-join_tail c cs s h.1)

-- A cleaned text is free of what the text was free of.
pub clean-Without :
    (c : ℕ) (p : Bytes)
    → (slash == c) ≡ false
    → (b'.' == c) ≡ false
    → Without c p
    → Without c (clean p)
unfolding clean
clean-Without c p s d h =
    Without-render c (is_abs p) (components p) s d
      (components-All (Without c) (unfold contains_byte in rw d) p (Without-split c p h))

render-IsValidText :
    (rooted : Bool) (cs : List Bytes) → All IsValidText cs → IsValidText (render rooted cs)
unfolding render
render-IsValidText true cs h = slash-IsValidText (join slash cs) (join-IsValidText cs h)
render-IsValidText false [] h = unfold valid_string valid_from next lead in refl
render-IsValidText false (c ∷ cs) h = join-IsValidText (c ∷ cs) h

clean-IsValidText : (p : Bytes) → IsValidText p → IsValidText (clean p)
unfolding clean
clean-IsValidText p h = render-IsValidText (is_abs p) (components p) (
    components-All IsValidText (unfold valid_string valid_from next lead in refl) p
      (split-IsValidText p h))

-- The parts of the test, apart.
pub record IsPathText (p : Bytes) : Type 0 where
  pub not_empty : p ≢ []
  pub short : length p ≤ maximum_path_bytes
  pub valid : IsValidText p
  pub no_nul : Without 0 p

pub valid_path-IsPathText : (p : Bytes) → valid_path p ≡ true → IsPathText p
unfolding valid_path
valid_path-IsPathText p h = record {
  not_empty = bytes_eq→ne p [] (ground arith);
  short = ground arith;
  valid = ground arith;
  no_nul = ground arith;
}

pub valid_path_of_IsPathText : (p : Bytes) → IsPathText p → valid_path p ≡ true
unfolding valid_path
valid_path_of_IsPathText p h =
    rw (
      ne→bytes_eq p [] h.not_empty,
      le→leb (length p) maximum_path_bytes h.short,
      h.valid,
      h.no_nul,
    )

pub valid_path-clean : (p : Bytes) → valid_path p ≡ true → valid_path (clean p) ≡ true
valid_path-clean p h =
    let t = valid_path-IsPathText p h in
    valid_path_of_IsPathText (clean p) (record {
      not_empty = clean-ne-nil p;
      short = omega (arith, length-clean-le p t.not_empty, t.short);
      valid = clean-IsValidText p t.valid;
      no_nul = clean-Without 0 p refl refl t.no_nul;
    })

module _ {ℓ} {Err : Type ℓ} (e : Err) where
  pub clean_relative-eq : (p q : Bytes) → clean_relative e p ≡ ok q → q ≡ clean p
  unfolding clean_relative
  clean_relative-eq p q h = sym (ok-injective (refuse_if-parts _ e (ok (clean p)) h).1)

  pub clean_absolute-eq : (p q : Bytes) → clean_absolute e p ≡ ok q → q ≡ clean p
  unfolding clean_absolute
  clean_absolute-eq p q h = sym (ok-injective (refuse_if-parts _ e (ok (clean p)) h).1)

  pub clean_relative_idem : (p : Bytes) → clean_relative e (clean p) ≡ clean_relative e p
  unfolding clean_relative
  clean_relative_idem p = rw clean_idem

  pub clean_absolute_idem : (p : Bytes) → clean_absolute e (clean p) ≡ clean_absolute e p
  unfolding clean_absolute
  clean_absolute_idem p = rw clean_idem
