-- ===== src/Tests/SessionOps.antt =====
-- internal/sessionops on small registries.
use ai_config_selector.Prelude.{
  if◌then◌else◌, ℕ, Bool, true, false, refl, ◌≡◌, List, [], ◌∷◌, Option, none, some,
}
use ai_config_selector.Prelude.Bytes.{Bytes, codes, bytes_eq, bytes_lt, has_prefix, seen}
use ai_config_selector.Prelude.Sort.{insert_by, sort_by}
use ai_config_selector.SessionOps.Ids.{all_digits, valid_id}
use ai_config_selector.SessionOps.Walk.{
  DirEntry, Batch, more, at_end, visit_each, walk, entries_read,
}
use ai_config_selector.SessionOps.Paging.{
  before_suffix, record_entry_id, push, delete, take, select_id_page,
}
use ai_config_selector.SessionOps.Paging.Page.{IsPage, select_id_page-IsPage}

abbrev file : Bytes → DirEntry
file name = record { is_dir = false; name = name }

abbrev id_a : Bytes
id_a = codes "ses_aaaaaaaaaaaaaaaaaaaaaaaaaa"

abbrev id_b : Bytes
id_b = codes "ses_aaaaaaaaaaaaaaaaaaaaaaaaab"

abbrev id_c : Bytes
id_c = codes "ses_aaaaaaaaaaaaaaaaaaaaaaaaa7"

-- The identifiers are in the order 7, a, b of their last digits.
abbrev entries : List DirEntry
entries =
    file (codes "ses_aaaaaaaaaaaaaaaaaaaaaaaaab.json")
    ∷ file (codes "ses_aaaaaaaaaaaaaaaaaaaaaaaaaa.json")
    ∷ file (codes "ses_aaaaaaaaaaaaaaaaaaaaaaaaaa.lock")
    ∷ file (codes "ses_aaaaaaaaaaaaaaaaaaaaaaaaa7.json")
    ∷ file (codes "ses_aaaaaaaaaaaaaaaaaaaaaaaaab.json")
    ∷ file (codes "ses_AAAAAAAAAAAAAAAAAAAAAAAAAA.json")
    ∷ []

abbrev batch : List DirEntry → Bool → Batch
batch es last = record {
  valid_before = true;
  entries = es;
  end = if last then at_end else more;
  valid_read = true;
  valid_after = true;
}

-- The directory in two batches, of which the second is empty and at the end.
abbrev batches : List Batch
batches = batch entries false ∷ batch [] true ∷ []

run_page : Bytes → ℕ → List Batch → Option (List Bytes × Bool)
unfolding bytes_eq bytes_lt has_prefix seen insert_by sort_by all_digits valid_id before_suffix
    record_entry_id push delete take select_id_page visit_each walk entries_read
run_page after limit bs = select_id_page after limit bs

whole_page : select_id_page [] 3 batches ≡ some (id_c ∷ id_a ∷ id_b ∷ [], false)
unfolding run_page
whole_page = refl

first_page : select_id_page [] 2 batches ≡ some (id_c ∷ id_a ∷ [], true)
unfolding run_page
first_page = refl

second_page : select_id_page id_a 2 batches ≡ some (id_b ∷ [], false)
unfolding run_page
second_page = refl

replaced_page : select_id_page [] 1 batches ≡ some (id_c ∷ [], true)
unfolding run_page
replaced_page = refl

failed_walk : select_id_page [] 1 (batch entries false ∷ batch [] false ∷ []) ≡ none
unfolding run_page
failed_walk = refl

both_batches : entries_read batches ≡ some entries
unfolding run_page
both_batches = refl

select_id_page-IsPage_example :
    (page : List Bytes) × (follows : Bool) × (select_id_page [] 2 batches ≡ some (page, follows))
    × IsPage [] 2 entries page follows
select_id_page-IsPage_example = select_id_page-IsPage [] 2 batches entries both_batches
