-- ===== src/GoPath/Names.antt =====
-- Which cleaned paths consist of names alone: every absolute one, and every relative one that is
-- neither `.` nor begins with the element `..`.
use mathlib.Core.List.{reverse, reverse-reverse, reverse-cons}
use ai_config_selector.Prelude.{
  Bool, true, false, ◌≡◌, ◌≢◌, refl, ◌⊎◌, inl, inr, ap, ◌∙◌, List, [], ◌∷◌, ◌++◌, All, All-reverse,
  ◌||◌,
}
use ai_config_selector.Prelude.Bytes.{Bytes, bytes_eq, has_prefix}
use ai_config_selector.GoPath.{
  slash, dot, dotdot, split, join, join_tail, is_abs, components, render, clean,
}
use ai_config_selector.GoPath.Stack.{IsName, IsDotdot, IsStack}
use ai_config_selector.GoPath.Clean.{IsElements, components-IsElements, split-elements}

abbrev pub dotdot_slash : Bytes
dotdot_slash = b'.' ∷ b'.' ∷ slash ∷ []

-- cleaned == ".." || strings.HasPrefix(cleaned, "../")
abbrev pub escapes : Bytes → Bool
escapes cleaned = bytes_eq cleaned dotdot || has_prefix cleaned dotdot_slash

IsStack-rooted : (s : List Bytes) → IsStack true s → All IsName s
IsStack-rooted [] h = tt
IsStack-rooted (x ∷ s) (inl h) = (h.0, IsStack-rooted s h.1)
IsStack-rooted (x ∷ s) (inr h) = cc

abbrev StartsDotdot : List Bytes → Type 0
StartsDotdot cs = (r : List Bytes) × (cs ≡ dotdot ∷ r)

reverse_dots :
    (x : Bytes) (s : List Bytes) → IsDotdot x → All IsDotdot s → StartsDotdot (reverse (x ∷ s))
reverse_dots x [] h k = ([], ap (λ y. y ∷ []) h)
reverse_dots x (y ∷ s) h k =
    let (r, e) = reverse_dots y s k.0 k.1 in
    (r ++ (x ∷ []), reverse-cons x (y ∷ s) ∙ ap (λ l. l ++ (x ∷ [])) e)

IsStack-relative : (s : List Bytes) → IsStack false s → All IsName s ⊎ StartsDotdot (reverse s)
IsStack-relative [] h = inl tt
IsStack-relative (x ∷ s) (inr h) = inr (reverse_dots x s h.1 h.2)
IsStack-relative (x ∷ s) (inl h) = elim (IsStack-relative s h.1) [
  | inl a ↦ inl (h.0, a)
  | inr (r, e) ↦ inr (r ++ (x ∷ []), reverse-cons x s ∙ ap (λ l. l ++ (x ∷ [])) e)
]

-- A cleaned absolute path consists of names.
pub components-IsName_abs : (p : Bytes) → is_abs p ≡ true → All IsName (components p)
components-IsName_abs p a = rw reverse-reverse at (
    All-reverse IsName (reverse (components p))
      (IsStack-rooted (reverse (components p)) (rw a at (components-IsElements p))))

pub render-dotdot : (r : List Bytes) → escapes (render false (dotdot ∷ r)) ≡ true
unfolding render join join_tail has_prefix bytes_eq
render-dotdot [] = refl
render-dotdot (x ∷ r) = refl

render_names :
    (cs : List Bytes) → IsElements false cs → escapes (render false cs) ≡ false → All IsName cs
render_names cs h e = elim (IsStack-relative (reverse cs) h) [
  | inl a ↦ rw reverse-reverse at (All-reverse IsName (reverse cs) a)
  | inr (r, q) ↦
      absurd (cc (render-dotdot r, e, ap (λ l. escapes (render false l)) (rw reverse-reverse at q)))
]

-- A cleaned relative path that does not escape consists of names.
pub components-IsName_rel :
    (p : Bytes) → is_abs p ≡ false → escapes (clean p) ≡ false → All IsName (components p)
components-IsName_rel p a e =
    let e' : escapes (render (is_abs p) (components p)) ≡ false = unfold clean in e in
    render_names (components p) (rw a at (components-IsElements p)) (rw a at e')

-- A cleaned path with no element is `.` or `/`.
pub components-ne-nil_rel : (p : Bytes) → is_abs p ≡ false → clean p ≢ dot → components p ≢ []
unfolding clean render
components-ne-nil_rel p a h e = h (rw (a, e))

pub components-ne-nil_abs :
    (p : Bytes) → is_abs p ≡ true → clean p ≢ (slash ∷ []) → components p ≢ []
unfolding clean render join
components-ne-nil_abs p a h e = h (rw (a, e))

-- The pieces of a cleaned relative path between its slashes are its elements.
pub split-clean_rel :
    (p : Bytes) → is_abs p ≡ false → components p ≢ [] → split slash (clean p) ≡ components p
unfolding clean
split-clean_rel p a n = rw a (split_render (components p) n (rw a at (components-IsElements p)))
  where
    split_render :
        (cs : List Bytes) → cs ≢ [] → IsElements false cs → split slash (render false cs) ≡ cs
    split_render [] n h = absurd (n refl)
    split_render (c ∷ cs) n h = unfold render in split-elements false c cs h

-- So are those of a cleaned absolute path behind the leading slash.
pub split-clean_abs :
    (p : Bytes)
    → is_abs p ≡ true
    → components p ≢ []
    → (r : Bytes) × (clean p ≡ slash ∷ r) × (split slash r ≡ components p)
unfolding clean
split-clean_abs p a n = rw a (split_render (components p) n (rw a at (components-IsElements p)))
  where
    split_render :
        (cs : List Bytes)
        → cs ≢ []
        → IsElements true cs
        → (r : Bytes) × (render true cs ≡ slash ∷ r) × (split slash r ≡ cs)
    split_render [] n h = absurd (n refl)
    split_render (c ∷ cs) n h =
        (join slash (c ∷ cs), unfold render in refl, split-elements true c cs h)
