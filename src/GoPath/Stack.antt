-- ===== src/GoPath/Stack.antt =====
-- The stack of elements that path.Clean keeps: names, with `..` at the bottom of a relative path only.
use mathlib.Core.List.{reverse, reverse-cons}
use ai_config_selector.Prelude.{
  Bool, true, false, ◌≡◌, ◌≢◌, refl, ◌⊎◌, inl, inr, List, [], ◌∷◌, ◌++◌, arith, All, Bool-cases,
  if◌then◌else◌, ◌||◌, ||_elim_false,
}
use ai_config_selector.Prelude.Bytes.{
  Bytes, bytes_eq, bytes_eq_iff, bytes_eq→ne, ne→bytes_eq, bytes_eq_refl,
}
use ai_config_selector.GoPath.{slash, dot, dotdot, backtrack, clean_step, clean_stack}
use ai_config_selector.GoPath.Split.{IsFree}

-- An element that names a file or a directory.
pub record IsName (x : Bytes) : Type 0 where
  pub free : IsFree slash x
  pub not_empty : x ≢ []
  pub not_dot : x ≢ dot
  pub not_dotdot : x ≢ dotdot

abbrev pub IsDotdot : Bytes → Type 0
IsDotdot x = x ≡ dotdot

abbrev pub IsStack : Bool → List Bytes → Type 0
IsStack rooted [] = Unit
IsStack rooted (x ∷ xs) =
    (IsName x × IsStack rooted xs) ⊎ ((rooted ≡ false) × IsDotdot x × All IsDotdot xs)

backtrack-IsStack :
    (rooted : Bool) (s : List Bytes) → IsStack rooted s → IsStack rooted (backtrack rooted s)
unfolding backtrack
backtrack-IsStack true [] h = tt
backtrack-IsStack false [] h = inr (refl, refl, tt)
backtrack-IsStack true (x ∷ xs) (inl h) = ground (arith, bytes_eq_iff x dotdot, h.0.not_dotdot)
backtrack-IsStack false (x ∷ xs) (inl h) = ground (arith, bytes_eq_iff x dotdot, h.0.not_dotdot)
backtrack-IsStack true (x ∷ xs) (inr h) = cc
backtrack-IsStack false (x ∷ xs) (inr h) =
    rw ((bytes_eq_iff x dotdot).1 h.1) (inr (refl, refl, (h.1, h.2)))

pub clean_step-IsStack :
    (rooted : Bool) (s : List Bytes) (c : Bytes)
    → IsFree slash c
    → IsStack rooted s
    → IsStack rooted (clean_step rooted s c)
unfolding clean_step
clean_step-IsStack rooted s c f h = elim (Bool-cases (bytes_eq c [] || bytes_eq c dot)) [
  | inl e ↦ rw e h
  | inr e ↦ rw e (push (||_elim_false _ _ e))
]
  where
    push :
        (bytes_eq c [] ≡ false) × (bytes_eq c dot ≡ false)
        → IsStack rooted (if bytes_eq c dotdot then backtrack rooted s else c ∷ s)
    push e = elim (Bool-cases (bytes_eq c dotdot)) [
      | inl d ↦ rw d (backtrack-IsStack rooted s h)
      | inr d ↦ rw d (
          inl (
            record {
              free = f;
              not_empty = bytes_eq→ne c [] e.0;
              not_dot = bytes_eq→ne c dot e.1;
              not_dotdot = bytes_eq→ne c dotdot d;
            },
            h,
          ))
    ]

pub clean_stack-IsStack :
    (rooted : Bool) (s cs : List Bytes)
    → All (IsFree slash) cs
    → IsStack rooted s
    → IsStack rooted (clean_stack rooted s cs)
unfolding clean_stack
clean_stack-IsStack rooted s [] f h = h
clean_stack-IsStack rooted s (c ∷ cs) f h =
    clean_stack-IsStack rooted (clean_step rooted s c) cs f.1 (clean_step-IsStack rooted s c f.0 h)

clean_stack-append :
    (rooted : Bool) (s cs ds : List Bytes)
    → clean_stack rooted s (cs ++ ds) ≡ clean_stack rooted (clean_stack rooted s cs) ds
unfolding clean_stack
clean_stack-append rooted s [] ds = refl
clean_stack-append rooted s (c ∷ cs) ds = clean_stack-append rooted (clean_step rooted s c) cs ds

backtrack_dots : (s : List Bytes) → All IsDotdot s → backtrack false s ≡ dotdot ∷ s
unfolding backtrack
backtrack_dots [] h = refl
backtrack_dots (x ∷ s) h = rw (h.0, bytes_eq_refl dotdot)

-- An element on top of a stack is pushed back as it is.
clean_step_top :
    (rooted : Bool) (x : Bytes) (s : List Bytes)
    → IsStack rooted (x ∷ s)
    → clean_step rooted s x ≡ x ∷ s
unfolding clean_step
clean_step_top rooted x s (inl h) = rw (
  ne→bytes_eq x [] h.0.not_empty,
  ne→bytes_eq x dot h.0.not_dot,
  ne→bytes_eq x dotdot h.0.not_dotdot,
)
clean_step_top rooted x s (inr h) = rw (h.0, h.1) (unfold bytes_eq in backtrack_dots s h.2)

IsStack-tail :
    (rooted : Bool) (x : Bytes) (s : List Bytes) → IsStack rooted (x ∷ s) → IsStack rooted s
IsStack-tail rooted x s (inl h) = h.1
IsStack-tail rooted x [] (inr h) = tt
IsStack-tail rooted x (y ∷ s) (inr h) = inr (h.0, h.2.0, h.2.1)

-- Cleaning the elements of a stack, from the bottom, gives the stack back.
pub clean_stack-reverse :
    (rooted : Bool) (s : List Bytes) → IsStack rooted s → clean_stack rooted [] (reverse s) ≡ s
clean_stack-reverse rooted [] h = unfold clean_stack in refl
clean_stack-reverse rooted (x ∷ s) h =
    rw
      (
        reverse-cons x s,
        clean_stack-append rooted [] (reverse s) (x ∷ []),
        clean_stack-reverse rooted s (IsStack-tail rooted x s h),
      )
      (unfold clean_stack in clean_step_top rooted x s h)
