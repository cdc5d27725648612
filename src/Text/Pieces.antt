-- ===== src/Text/Pieces.antt =====
-- A valid text is split at slashes into valid texts, and valid texts join to a valid one.
use mathlib.Core.List.{append-nil}
use ai_config_selector.Prelude.{
  ℕ, ◌≤◌, true, List, [], ◌∷◌, ◌++◌, ◌==◌, ◌≡◌, refl, All, arith, Bool-cases, inl, inr, &&_elim,
  ==_iff,
}
use ai_config_selector.Prelude.Bytes.{Bytes}
use ai_config_selector.GoPath.{slash, split, join, join_tail, attach}
use ai_config_selector.Text.{lead, next, valid_from, valid_string}

abbrev pub IsValidText : Bytes → Type 0
IsValidText s = valid_string s ≡ true

-- The first piece continues a code point of which bytes are missing.
abbrev Pieces : ℕ → ℕ → ℕ → List Bytes → Type 0
Pieces missing lo hi [] = ⊥
Pieces missing lo hi (x ∷ xs) = (valid_from missing lo hi x ≡ true) × All IsValidText xs

low_bound : (missing lo hi b : ℕ) → 0x80 ≤ lo → 0x80 ≤ (next missing lo hi b).low
unfolding next lead
low_bound missing lo hi b h = ground arith

-- A slash is no continuation byte.
slash_complete :
    (missing lo hi : ℕ) (r : Bytes)
    → 0x80 ≤ lo
    → valid_from missing lo hi (slash ∷ r) ≡ true
    → ((missing == 0) ≡ true) × (valid_string r ≡ true)
unfolding valid_from next lead valid_string
slash_complete missing lo hi r b h = ground arith

Pieces-attach :
    (missing lo hi c : ℕ) (xs : List Bytes)
    → (next missing lo hi c).accepted ≡ true
    → Pieces
        (next missing lo hi c).missing
        (next missing lo hi c).low
        (next missing lo hi c).high
        xs
    → Pieces missing lo hi (attach c xs)
unfolding valid_from
Pieces-attach missing lo hi c [] a h = absurd h
Pieces-attach missing lo hi c (x ∷ xs) a h = (rw a h.0, h.1)

All-Pieces : (xs : List Bytes) → Pieces 0 0x80 0xBF xs → All IsValidText xs
unfolding valid_string
All-Pieces [] h = absurd h
All-Pieces (x ∷ xs) h = h

split-Pieces :
    (missing lo hi : ℕ) (s : Bytes)
    → 0x80 ≤ lo
    → valid_from missing lo hi s ≡ true
    → Pieces missing lo hi (split slash s)
unfolding split
split-Pieces missing lo hi [] b h = (h, tt)
split-Pieces missing lo hi (c ∷ cs) b h = elim (Bool-cases (c == slash)) [
  | inl e ↦
      let h' : valid_from missing lo hi (slash ∷ cs) ≡ true = rw ((==_iff c slash).0 e) at h in
      let (none_missing, rest) = slash_complete missing lo hi cs b h' in
      rw e (
        unfold valid_from in none_missing,
        All-Pieces (split slash cs)
            (split-Pieces 0 0x80 0xBF cs (omega arith) (unfold valid_string in rest)),
      )
  | inr e ↦
      let n = next missing lo hi c in
      let (a, k) =
        &&_elim n.accepted (valid_from n.missing n.low n.high cs) (unfold valid_from in h) in
      rw e (
        Pieces-attach missing lo hi c (split slash cs) a
          (split-Pieces n.missing n.low n.high cs (low_bound missing lo hi c b) k))
]

-- The pieces of a valid text are valid.
pub split-IsValidText : (s : Bytes) → IsValidText s → All IsValidText (split slash s)
split-IsValidText s h =
    All-Pieces (split slash s) (split-Pieces 0 0x80 0xBF s (omega arith) (unfold valid_string in h))

valid_from-append :
    (missing lo hi : ℕ) (x r : Bytes)
    → valid_from missing lo hi x ≡ true
    → IsValidText r
    → valid_from missing lo hi (x ++ (slash ∷ r)) ≡ true
unfolding valid_from
valid_from-append missing lo hi [] r h k = unfold next lead valid_string in ground arith
valid_from-append missing lo hi (c ∷ x) r h k =
    let (a, l) = &&_elim (next missing lo hi c).accepted _ h in
    let n = next missing lo hi c in rw a (valid_from-append n.missing n.low n.high x r l k)

valid-append : (x r : Bytes) → IsValidText x → IsValidText r → IsValidText (x ++ (slash ∷ r))
valid-append x r h k = unfold valid_string in valid_from-append 0 0x80 0xBF x r h k

valid-join_tail :
    (x : Bytes) (xs : List Bytes)
    → IsValidText x
    → All IsValidText xs
    → IsValidText (x ++ join_tail slash xs)
unfolding join_tail
valid-join_tail x [] h k = rw append-nil h
valid-join_tail x (y ∷ ys) h k =
    valid-append x (y ++ join_tail slash ys) h (valid-join_tail y ys k.0 k.1)

-- Valid texts join to a valid text.
pub join-IsValidText : (xs : List Bytes) → All IsValidText xs → IsValidText (join slash xs)
unfolding join
join-IsValidText [] h = unfold valid_string valid_from in refl
join-IsValidText (x ∷ xs) h = valid-join_tail x xs h.0 h.1

pub slash-IsValidText : (r : Bytes) → IsValidText r → IsValidText (slash ∷ r)
unfolding valid_string valid_from next lead
slash-IsValidText r h = h
