-- ===== src/GoPath/Clean.antt =====
-- path.Clean is idempotent: its result is the text of a stack of elements.
use mathlib.Core.List.{reverse, reverse-reverse}
use ai_config_selector.Prelude.{
  Bool, true, false, ◌≡◌, ◌≢◌, refl, inl, inr, ap, ◌∙◌, List, [], ◌∷◌, ◌++◌, arith, All, All-map,
  All-reverse,
}
use ai_config_selector.Prelude.Bytes.{Bytes, contains_byte, bytes_eq}
use ai_config_selector.GoPath.{
  slash, split, join, join_tail, is_abs, clean_step, clean_stack, components, render, clean,
}
use ai_config_selector.GoPath.Split.{IsFree, split-IsFree, split-join}
use ai_config_selector.GoPath.Stack.{IsDotdot, IsStack, clean_stack-IsStack, clean_stack-reverse}

-- What every element of a stack is.
abbrev pub IsElement : Bytes → Type 0
IsElement x = IsFree slash x × (x ≢ [])

IsElement-dotdot : (x : Bytes) → IsDotdot x → IsElement x
IsElement-dotdot x e = rw e (unfold contains_byte in refl, λ h. cc)

pub IsStack-IsElement : (rooted : Bool) (s : List Bytes) → IsStack rooted s → All IsElement s
IsStack-IsElement rooted [] h = tt
IsStack-IsElement rooted (x ∷ s) (inl h) =
    ((h.0.free, h.0.not_empty), IsStack-IsElement rooted s h.1)
IsStack-IsElement rooted (x ∷ s) (inr h) = (IsElement-dotdot x h.1, All-map s IsElement-dotdot h.2)

-- The elements of a cleaned path, from the root.
abbrev pub IsElements : Bool → List Bytes → Type 0
IsElements rooted cs = IsStack rooted (reverse cs)

pub components-IsElements : (p : Bytes) → IsElements (is_abs p) (components p)
unfolding components
components-IsElements p =
    rw reverse-reverse (clean_stack-IsStack (is_abs p) [] (split slash p) (split-IsFree slash p) tt)

IsElements-IsElement : (rooted : Bool) (cs : List Bytes) → IsElements rooted cs → All IsElement cs
IsElements-IsElement rooted cs h =
    rw reverse-reverse at
      (All-reverse IsElement (reverse cs) (IsStack-IsElement rooted (reverse cs) h))

reverse-clean_stack :
    (rooted : Bool) (cs : List Bytes)
    → IsElements rooted cs
    → reverse (clean_stack rooted [] cs) ≡ cs
reverse-clean_stack rooted cs h =
    ap reverse (rw reverse-reverse at (clean_stack-reverse rooted (reverse cs) h))
    ∙ reverse-reverse cs

is_abs-element : (c r : Bytes) → IsElement c → is_abs (c ++ r) ≡ false
unfolding is_abs contains_byte
is_abs-element [] r h = absurd (h.1 refl)
is_abs-element (x ∷ c) r h = ground arith

pub is_abs-render :
    (rooted : Bool) (cs : List Bytes) → IsElements rooted cs → is_abs (render rooted cs) ≡ rooted
unfolding render
is_abs-render true cs h = unfold is_abs in refl
is_abs-render false [] h = unfold is_abs in refl
is_abs-render false (c ∷ cs) h =
    unfold join in is_abs-element c (join_tail slash cs) (IsElements-IsElement false (c ∷ cs) h).0

pub split-elements :
    (rooted : Bool) (c : Bytes) (cs : List Bytes)
    → IsElements rooted (c ∷ cs)
    → split slash (join slash (c ∷ cs)) ≡ c ∷ cs
split-elements rooted c cs h =
    split-join slash c cs (All-map (c ∷ cs) (λ x e. e.0) (IsElements-IsElement rooted (c ∷ cs) h))

pub clean_stack-root :
    (r : Bytes)
    → clean_stack true [] (split slash (slash ∷ r)) ≡ clean_stack true [] (split slash r)
unfolding split clean_stack clean_step bytes_eq
clean_stack-root r = refl

stack-render :
    (rooted : Bool) (cs : List Bytes)
    → IsElements rooted cs
    → clean_stack rooted [] (split slash (render rooted cs)) ≡ clean_stack rooted [] cs
unfolding render
stack-render true [] h = unfold split clean_stack clean_step bytes_eq join in refl
stack-render true (c ∷ cs) h =
    clean_stack-root (join slash (c ∷ cs)) ∙ ap (clean_stack true []) (split-elements true c cs h)
stack-render false [] h = unfold split clean_stack clean_step bytes_eq in refl
stack-render false (c ∷ cs) h = ap (clean_stack false []) (split-elements false c cs h)

pub components-render :
    (rooted : Bool) (cs : List Bytes) → IsElements rooted cs → components (render rooted cs) ≡ cs
unfolding components
components-render rooted cs h =
    rw (is_abs-render rooted cs h)
      (ap reverse (stack-render rooted cs h) ∙ reverse-clean_stack rooted cs h)

pub components-clean : (p : Bytes) → components (clean p) ≡ components p
unfolding clean
components-clean p = components-render (is_abs p) (components p) (components-IsElements p)

pub is_abs-clean : (p : Bytes) → is_abs (clean p) ≡ is_abs p
unfolding clean
is_abs-clean p = is_abs-render (is_abs p) (components p) (components-IsElements p)

-- Cleaning a cleaned path changes nothing.
pub clean_idem : (p : Bytes) → clean (clean p) ≡ clean p
clean_idem p =
    unfold clean in
    rw (
      is_abs-render (is_abs p) (components p) (components-IsElements p),
      components-render (is_abs p) (components p) (components-IsElements p),
    )

-- Two paths of the same kind with the same elements have the same clean form.
pub clean-eq : (p q : Bytes) → is_abs p ≡ is_abs q → components p ≡ components q → clean p ≡ clean q
unfolding clean
clean-eq p q h k = cc

render-ne-nil : (rooted : Bool) (cs : List Bytes) → IsElements rooted cs → render rooted cs ≢ []
unfolding render join
render-ne-nil true cs h e = cc
render-ne-nil false [] h e = cc
render-ne-nil false ([] ∷ cs) h e = (IsElements-IsElement false ([] ∷ cs) h).0.1 refl
render-ne-nil false ((b ∷ c) ∷ cs) h e = cc

pub clean-ne-nil : (p : Bytes) → clean p ≢ []
unfolding clean
clean-ne-nil p = render-ne-nil (is_abs p) (components p) (components-IsElements p)
