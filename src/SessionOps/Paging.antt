-- ===== src/SessionOps/Paging.antt =====
-- internal/sessionops/pagination.go. The slice of the heap, whose greatest member is at index 0, is kept
-- in descending order: the program reads no other index of it before it is sorted. The map of the
-- selected identifiers is the list of them.
pub mod Kept
pub mod Visit
pub mod Walk
pub mod Cuts
pub mod Page
use ai_config_selector.SessionOps.Walk.{DirEntry, Batch, walk, visit_each}
use ai_config_selector.SessionOps.Ids.{valid_id}
use ai_config_selector.Prelude.{
  ℕ, suc, Bool, true, false, ◌||◌, not, if◌then◌else◌, ltb, List, [], ◌∷◌, Option, none, some,
  length,
}
use ai_config_selector.Prelude.Bytes.{Bytes, codes, bytes_eq, bytes_lt, seen}
use ai_config_selector.Prelude.Sort.{sort_by}
use ai_config_selector.Prelude.Order.{bytes_order}
use mathlib.Core.Option

-- strings.HasSuffix and strings.TrimSuffix: what stands before the suffix, if the text has it.
unfoldable pub before_suffix : Bytes → Bytes → Option Bytes
before_suffix suffix [] = if bytes_eq [] suffix then some [] else none
before_suffix suffix (x ∷ xs) =
    let rest = before_suffix suffix xs in
    if bytes_eq (x ∷ xs) suffix then some [] else Option.map (λ r. x ∷ r) rest

abbrev id_of : Option Bytes → Bytes
id_of none = []
id_of (some id) = if valid_id id then id else []

-- The empty text where the entry is not the record of a Session.
unfoldable pub record_entry_id : DirEntry → Bytes
record_entry_id entry =
    if entry.is_dir then [] else id_of (before_suffix (codes ".json") entry.name)

-- heap.Push, and heap.Fix after another first member.
unfoldable pub push : Bytes → List Bytes → List Bytes
push x [] = x ∷ []
push x (y ∷ ys) = let rest = push x ys in if bytes_lt y x then x ∷ y ∷ ys else y ∷ rest

-- delete(selected, id)
unfoldable pub delete : Bytes → List Bytes → List Bytes
delete id [] = []
delete id (x ∷ xs) = let rest = delete id xs in if bytes_eq x id then rest else x ∷ rest

pub record Selection : Type 0 where
  pub ids : List Bytes
  pub selected : List Bytes

abbrev pub replace : Bytes → List Bytes → Selection → Selection
replace id [] s = s
replace id (greatest ∷ rest) s =
    if bytes_lt id greatest
    then record { ids = push id rest; selected = id ∷ delete greatest s.selected }
    else s

-- The visitor of an entry, by its identifier.
abbrev pub take_in : ℕ → Bytes → Bytes → Selection → Selection
take_in limit after id s =
    if bytes_eq id [] || (not (bytes_lt after id) || seen s.selected id)
    then s
    else if ltb (length s.ids) (suc limit)
    then record { ids = push id s.ids; selected = id ∷ s.selected }
    else replace id s.ids s

abbrev pub visitor : ℕ → Bytes → DirEntry → Selection → Selection
visitor limit after entry s = take_in limit after (record_entry_id entry) s

abbrev pub none_yet : Selection
none_yet = record { ids = []; selected = [] }

-- s[:n], for an n within the length
unfoldable pub take : ℕ → List Bytes → List Bytes
take n [] = []
take ℕ.zero (x ∷ xs) = []
take (suc n) (x ∷ xs) = x ∷ take n xs

-- The page and whether more identifiers follow it.
abbrev pub cut : ℕ → List Bytes → List Bytes × Bool
cut limit ids = (if ltb limit (length ids) then take limit ids else ids, ltb limit (length ids))

abbrev pub page_of : ℕ → Option Selection → Option (List Bytes × Bool)
page_of limit none = none
page_of limit (some s) = some (cut limit (sort_by (λ id. id) s.ids))

-- recordPage, whose walk is over the directory of the records.
unfoldable pub select_id_page : Bytes → ℕ → List Batch → Option (List Bytes × Bool)
select_id_page after limit batches = page_of limit (walk (visitor limit after) batches none_yet)
