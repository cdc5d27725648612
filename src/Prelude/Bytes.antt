-- ===== src/Prelude/Bytes.antt =====
-- Go strings as lists of bytes, with the tests that the program makes on them.
use Prim.Native.Char.{code}
use ai_config_selector.Prelude.Tests.{ltb, ◌==◌, if◌then◌else◌, &&_elim, ==_iff}
use Prim.Native.Nat.{ℕ}
use Prim.Native.String.{String}
use mathlib.Core.Path.{◌≡◌, refl, ap}
use mathlib.Core.Logic.{◌↔◌, ◌≢◌}
use mathlib.Core.Bool.{Bool, true, false, ◌&&◌, ◌||◌}
use mathlib.Core.List.{List, [], ◌∷◌, ◌++◌}
use native.Mathlib.Omega.{arith}

abbrev pub Bytes : Type 0
Bytes = List ℕ

-- The bytes of an ASCII literal.
abbrev pub codes : String → Bytes
codes String.[] = []
codes (String.◌∷◌ c s) = code c ∷ codes s

-- a == b
unfoldable pub bytes_eq : Bytes → Bytes → Bool
bytes_eq [] [] = true
bytes_eq (x ∷ xs) (y ∷ ys) = x == y && bytes_eq xs ys
bytes_eq _ _ = false

pub bytes_eq→eq : (a b : Bytes) → bytes_eq a b ≡ true → a ≡ b
unfolding bytes_eq
bytes_eq→eq [] [] h = refl
bytes_eq→eq (x ∷ xs) (y ∷ ys) h = ground (arith, bytes_eq→eq xs ys)
bytes_eq→eq [] (y ∷ ys) h = cc
bytes_eq→eq (x ∷ xs) [] h = cc

pub bytes_eq_refl : (a : Bytes) → bytes_eq a a ≡ true
unfolding bytes_eq
bytes_eq_refl [] = refl
bytes_eq_refl (x ∷ xs) = ground (arith, bytes_eq_refl xs)

pub bytes_eq_iff : (a b : Bytes) → (bytes_eq a b ≡ true) ↔ (a ≡ b)
bytes_eq_iff a b = (bytes_eq→eq a b, λ e. rw e (bytes_eq_refl b))

-- a < b, byte by byte
unfoldable pub bytes_lt : Bytes → Bytes → Bool
bytes_lt [] [] = false
bytes_lt [] (y ∷ ys) = true
bytes_lt (x ∷ xs) [] = false
bytes_lt (x ∷ xs) (y ∷ ys) = if ltb x y then true else if ltb y x then false else bytes_lt xs ys

-- strings.HasPrefix(s, prefix)
unfoldable pub has_prefix : Bytes → Bytes → Bool
has_prefix s [] = true
has_prefix [] (p ∷ ps) = false
has_prefix (x ∷ xs) (p ∷ ps) = x == p && has_prefix xs ps

-- strings.ContainsRune(s, c) for an ASCII `c`
unfoldable pub contains_byte : ℕ → Bytes → Bool
contains_byte c [] = false
contains_byte c (x ∷ xs) = x == c || contains_byte c xs

-- seen[key], for the `map[string]bool` that records the keys met so far
unfoldable pub seen : List Bytes → Bytes → Bool
seen [] k = false
seen (x ∷ xs) k = bytes_eq x k || seen xs k

pub bytes_eq→ne : (a b : Bytes) → bytes_eq a b ≡ false → a ≢ b
bytes_eq→ne a b h e = ground (arith, bytes_eq_iff a b)

pub ne→bytes_eq : (a b : Bytes) → a ≢ b → bytes_eq a b ≡ false
ne→bytes_eq a b h = ground (arith, bytes_eq_iff a b)

-- What follows a prefix.
pub suffix_of_prefix : (s p : Bytes) → has_prefix s p ≡ true → (r : Bytes) × (s ≡ p ++ r)
unfolding has_prefix
suffix_of_prefix s [] h = (s, refl)
suffix_of_prefix [] (c ∷ p) h = cc
suffix_of_prefix (b ∷ s) (c ∷ p) h =
    let (e, k) = &&_elim (b == c) (has_prefix s p) h in
    let (r, q) = suffix_of_prefix s p k in (r, cc ((==_iff b c).0 e, q))

pub has_prefix-append : (p r : Bytes) → has_prefix (p ++ r) p ≡ true
unfolding has_prefix
has_prefix-append [] r = refl
has_prefix-append (c ∷ p) r = ground (arith, has_prefix-append p r)

pub no_prefix : (s p : Bytes) → has_prefix s p ≡ false → (r : Bytes) → s ≢ p ++ r
no_prefix s p h r e = cc (ap (λ x. has_prefix x p) e, has_prefix-append p r, h)
