-- ===== src/GoPath.antt =====
-- The parts of Go's path, path/filepath and strings packages that the program relies on, for Unix:
-- strings.Split and strings.Join on a separator, path.Clean (filepath.Clean agrees with it),
-- filepath.IsAbs, filepath.Rel and filepath.Join of two elements. They are the language's standard
-- library, written here as functions on byte strings. The proofs are in the modules below.
pub mod Split
pub mod Stack
pub mod Clean
pub mod Names
pub mod Keeps
pub mod Rel
use mathlib.Core.List.{reverse}
use ai_config_selector.Prelude.{
  ℕ, Bool, true, false, ◌&&◌, ◌||◌, not, Option, none, some, List, [], ◌∷◌, ◌++◌, ◌==◌,
  if◌then◌else◌,
}
use ai_config_selector.Prelude.Bytes.{Bytes, codes, bytes_eq}

abbrev pub slash : ℕ
slash = b'/'

abbrev pub dot : Bytes
dot = b'.' ∷ []

abbrev pub dotdot : Bytes
dotdot = b'.' ∷ b'.' ∷ []

abbrev pub attach : ℕ → List Bytes → List Bytes
attach c [] = (c ∷ []) ∷ []
attach c (x ∷ xs) = (c ∷ x) ∷ xs

-- strings.Split(s, sep) for a separator of one byte
unfoldable pub split : ℕ → Bytes → List Bytes
split sep [] = [] ∷ []
split sep (c ∷ cs) = let rest = split sep cs in if c == sep then [] ∷ rest else attach c rest

unfoldable pub join_tail : ℕ → List Bytes → Bytes
join_tail sep [] = []
join_tail sep (x ∷ xs) = sep ∷ (x ++ join_tail sep xs)

-- strings.Join(parts, sep)
unfoldable pub join : ℕ → List Bytes → Bytes
unfolding join_tail
join sep [] = []
join sep (x ∷ xs) = x ++ join_tail sep xs

-- filepath.IsAbs(p)
unfoldable pub is_abs : Bytes → Bool
is_abs [] = false
is_abs (c ∷ cs) = c == slash

-- What `..` does to the elements kept so far, the last one first.
unfoldable pub backtrack : Bool → List Bytes → List Bytes
backtrack true [] = []
backtrack false [] = dotdot ∷ []
backtrack rooted (x ∷ xs) = if bytes_eq x dotdot then dotdot ∷ x ∷ xs else xs

unfoldable pub clean_step : Bool → List Bytes → Bytes → List Bytes
clean_step rooted stack c =
    if bytes_eq c [] || bytes_eq c dot
    then stack
    else if bytes_eq c dotdot
    then backtrack rooted stack
    else c ∷ stack

unfoldable pub clean_stack : Bool → List Bytes → List Bytes → List Bytes
clean_stack rooted stack [] = stack
clean_stack rooted stack (c ∷ cs) = clean_stack rooted (clean_step rooted stack c) cs

-- The elements of path.Clean(p), without the root.
unfoldable pub components : Bytes → List Bytes
components p = reverse (clean_stack (is_abs p) [] (split slash p))

unfoldable pub render : Bool → List Bytes → Bytes
render true cs = slash ∷ join slash cs
render false [] = dot
render false (c ∷ cs) = join slash (c ∷ cs)

-- path.Clean(p)
unfoldable pub clean : Bytes → Bytes
clean p = render (is_abs p) (components p)

-- filepath.Join(base, element) of two elements that are not empty
unfoldable pub join_path : Bytes → Bytes → Bytes
join_path base element = clean (base ++ (slash ∷ element))

unfoldable pub climb : List Bytes → List Bytes → List Bytes
climb [] ts = ts
climb (b ∷ bs) ts = dotdot ∷ climb bs ts

unfoldable pub rel_walk : List Bytes → List Bytes → Option Bytes
rel_walk [] ts = some (join slash ts)
rel_walk (b ∷ bs) [] = if bytes_eq b dotdot then none else some (join slash (climb (b ∷ bs) []))
rel_walk (b ∷ bs) (t ∷ ts) =
    let rest = rel_walk bs ts in
    if bytes_eq t b
    then rest
    else if bytes_eq b dotdot
    then none
    else some (join slash (climb (b ∷ bs) (t ∷ ts)))

-- filepath.Rel(base, target); `none` is its error
unfoldable pub rel : Bytes → Bytes → Option Bytes
rel base target =
    if bytes_eq (clean target) (clean base)
    then some dot
    else if (is_abs base && is_abs target) || not (is_abs base || is_abs target)
    then rel_walk (components base) (components target)
    else none
