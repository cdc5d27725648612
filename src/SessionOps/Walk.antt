-- ===== src/SessionOps/Walk.antt =====
-- internal/sessionops/scan.go: the walk over a directory in batches. What the calls of `read` and `validate`
-- answer is a list, which goes as far as the loop does: without an end of the file in it there is no result.
use mathlib.Core.Option
use ai_config_selector.Prelude.{
  sym, ◌∙◌, Bool, true, false, ◌||◌, not, if◌then◌else◌, ◌≡◌, refl, ap, List, [], ◌∷◌, ◌++◌, Option,
  none, some, Bool-cases, inl, inr,
}
use ai_config_selector.Prelude.Bytes.{Bytes}

pub record DirEntry : Type 0 where
  pub is_dir : Bool
  pub name : Bytes

pub data ReadEnd : Type 0 where
  -- no error, io.EOF, or another error
  more at_end failed : ReadEnd

-- One round: the answers of `validate` before and after the read and after the visits.
pub record Batch : Type 0 where
  pub valid_before : Bool
  pub entries : List DirEntry
  pub end : ReadEnd
  pub valid_read : Bool
  pub valid_after : Bool

abbrev pub is_failed : ReadEnd → Bool
is_failed failed = true
is_failed _ = false

abbrev is_nil : List DirEntry → Bool
is_nil [] = true
is_nil _ = false

abbrev pub refuses : Batch → Bool
refuses b = not b.valid_before || (not b.valid_read || is_failed b.end)

-- The end of a round, by its read error and whether it had no entries.
abbrev round_end {ℓ} : {A : Type ℓ} → ReadEnd → Bool → A → Option A → Option A
round_end at_end empty visited rest = some visited
round_end failed empty visited rest = none
round_end more true visited rest = none
round_end more false visited rest = rest

-- One round: its checks, its visits, and its end.
abbrev round {ℓ} : {A : Type ℓ} → Batch → A → Option A → Option A
round b visited rest =
    if refuses b
    then none
    else if not b.valid_after
    then none
    else round_end b.end (is_nil b.entries) visited rest

module _ {ℓ} {S : Type ℓ} (visit : DirEntry → S → S) where
  unfoldable pub visit_each : List DirEntry → S → S
  visit_each [] s = s
  visit_each (entry ∷ entries) s = visit_each entries (visit entry s)

  -- For a visitor that returns no error.
  unfoldable pub walk : List Batch → S → Option S
  walk [] s = none
  walk (b ∷ bs) s =
      let visited = visit_each b.entries s in let rest = walk bs visited in round b visited rest

-- The entries that are visited by a walk that gives no error.
unfoldable pub entries_read : List Batch → Option (List DirEntry)
entries_read [] = none
entries_read (b ∷ bs) =
    let rest = Option.map (λ es. b.entries ++ es) (entries_read bs) in round b b.entries rest

module _ {ℓ} {S : Type ℓ} (visit : DirEntry → S → S) where
  visit_each-append :
      (xs ys : List DirEntry) (s : S)
      → visit_each visit (xs ++ ys) s ≡ visit_each visit ys (visit_each visit xs s)
  unfolding visit_each
  visit_each-append [] ys s = refl
  visit_each-append (x ∷ xs) ys s = visit_each-append xs ys (visit x s)

  abbrev pub visited_all : Option (List DirEntry) → S → Option S
  visited_all none s = none
  visited_all (some es) s = some (visit_each visit es s)

  prepend :
      (xs : List DirEntry) (o : Option (List DirEntry)) (s : S)
      → visited_all o (visit_each visit xs s) ≡ visited_all (Option.map (λ es. xs ++ es) o) s
  prepend xs none s = refl
  prepend xs (some es) s = ap some (sym (visit_each-append xs es s))

  round_end-visited :
      (end : ReadEnd) (empty : Bool) (es : List DirEntry) (o : Option (List DirEntry)) (s : S)
      → round_end end empty (visit_each visit es s) (visited_all o s)
        ≡ visited_all (round_end end empty es o) s
  round_end-visited at_end empty es o s = refl
  round_end-visited failed empty es o s = refl
  round_end-visited more true es o s = refl
  round_end-visited more false es o s = refl

  round-visited :
      (b : Batch) (o : Option (List DirEntry)) (s : S)
      → round b (visit_each visit b.entries s) (visited_all o s)
        ≡ visited_all (round b b.entries o) s
  round-visited b o s = elim (Bool-cases (refuses b)) [
    | inl e ↦ rw e refl
    | inr e ↦ rw e (elim (Bool-cases b.valid_after) [
      | inr f ↦ rw f refl
      | inl f ↦ rw f (round_end-visited b.end (is_nil b.entries) b.entries o s)
    ])
  ]

  -- A walk visits the entries that it reads, in their order, and has no result where it reads none.
  pub walk-entries_read :
      (bs : List Batch) (s : S) → walk visit bs s ≡ visited_all (entries_read bs) s
  unfolding walk entries_read
  walk-entries_read [] s = refl
  walk-entries_read (b ∷ bs) s =
      ap (round b (visit_each visit b.entries s)) (
        walk-entries_read bs (visit_each visit b.entries s) ∙ prepend b.entries (entries_read bs) s)
      ∙ round-visited b _ s
