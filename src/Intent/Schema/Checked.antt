-- ===== src/Intent/Schema/Checked.antt =====
-- The loop body that pathintent, exclusionintent and executableintent share: the identifier, then
-- the tests on the entry itself, then the destination of the entry as those tests leave it.
use ai_config_selector.Prelude.{
  ℕ, true, false, ◌||◌, not, ◌≡◌, refl, sym, ap, ◌∙◌, List, [], ◌∷◌, All, length, ◌≤◌, Result, ok,
  ◌>>=◌, ◌>>◌, refuse_if, ||_elim_false, refuse_if-parts, >>=-parts, ok-injective,
}
use ai_config_selector.Prelude.Bytes.{Bytes, seen}
use ai_config_selector.Prelude.Distinct.{Distinct, Fresh-nil}
use ai_config_selector.Prelude.Order.{bytes_order}
use ai_config_selector.Prelude.Sort.{sort_by}
use ai_config_selector.Intent.Schema.{Schema, canonical}
use ai_config_selector.Intent.Schema.Laws.{Laws, Accepts, Pairs}
use ai_config_selector.Intent.Schema.Canonical.{canonical_of_IsCanonical}
use ai_config_selector.Text.{entry_id_matches}

-- Each entry has a valid identifier and passes the tests on it alone, and `cs` lists what these
-- return.
abbrev pub Validated :
    {E Err : Type 0} → (E → Bytes) → (E → Result Err E) → List E → List E → Type 0
Validated id validate [] [] = Unit
Validated id validate (e ∷ es) (c ∷ cs) =
    (entry_id_matches (id e) ≡ true) × (validate e ≡ ok c) × Validated id validate es cs
Validated id validate _ _ = ⊥

module _ {E Err : Type 0} (id destination : E → Bytes) (validate : E → Result Err E)
    (bad_id duplicate : Err) where
  unfoldable pub checked_admit : List Bytes → List Bytes → E → Result Err E
  checked_admit ids destinations e = do
    refuse_if (not (entry_id_matches (id e)) || seen ids (id e)) bad_id
    a ← validate e
    refuse_if (seen destinations (destination a)) duplicate
    ok a

  record IsChecked (ids destinations : List Bytes) (e a : E) : Type 0 where
    named : not (entry_id_matches (id e)) ≡ false
    new_id : seen ids (id e) ≡ false
    validated : validate e ≡ ok a
    new_destination : seen destinations (destination a) ≡ false

  checked_admit-IsChecked :
      (ids destinations : List Bytes) (e a : E)
      → checked_admit ids destinations e ≡ ok a
      → IsChecked ids destinations e a
  unfolding checked_admit
  checked_admit-IsChecked ids destinations e a h =
      let (t, k) = refuse_if-parts _ bad_id _ h in
      let (m, s) = ||_elim_false (not (entry_id_matches (id e))) (seen ids (id e)) t in
      let (b, v, l) = >>=-parts (validate e) _ k in
      let (d, o) = refuse_if-parts (seen destinations (destination b)) duplicate (ok b) l in
      let q : b ≡ a = ok-injective o in
      record {
        named = m;
        new_id = s;
        validated = v ∙ ap ok q;
        new_destination = ap (λ (x : E). seen destinations (destination x)) (sym q) ∙ d;
      }

  checked_admit_of_IsChecked :
      (ids destinations : List Bytes) (e a : E)
      → IsChecked ids destinations e a
      → checked_admit ids destinations e ≡ ok a
  unfolding checked_admit
  checked_admit_of_IsChecked ids destinations e a h =
      rw (h.named, h.new_id, h.validated, h.new_destination)

  abbrev pub checked_schema : ℕ → Err → Schema E Err
  checked_schema maximum too_many = record {
    id = id;
    destination = destination;
    admit = checked_admit;
    maximum = maximum;
    too_many = too_many;
  }

  module _ (keeps_id : (e a : E) → validate e ≡ ok a → id a ≡ id e)
      (again : (e a : E) → validate e ≡ ok a → validate a ≡ ok a) (maximum : ℕ)
      (too_many : Err) where
    pub checked-Laws : Laws (checked_schema maximum too_many)
    checked-Laws = record {
      fresh = λ ids destinations e a h.
          let c = checked_admit-IsChecked ids destinations e a h in
          (ap (seen ids) (keeps_id e a c.validated) ∙ c.new_id, c.new_destination);
      accepts = λ ids destinations e a h ids' destinations' i d.
          let c = checked_admit-IsChecked ids destinations e a h in
          checked_admit_of_IsChecked ids' destinations' e a (record {
            named = c.named;
            new_id = ap (seen ids') (sym (keeps_id e a c.validated)) ∙ i;
            validated = c.validated;
            new_destination = d;
          });
      settled = λ ids destinations e a h ids' destinations' i d.
          let c = checked_admit-IsChecked ids destinations e a h in
          checked_admit_of_IsChecked ids' destinations' a a (record {
            named =
                ap (λ (x : Bytes). not (entry_id_matches x)) (keeps_id e a c.validated) ∙ c.named;
            new_id = i;
            validated = again e a c.validated;
            new_destination = d;
          });
    }

    -- An entry that is accepted anywhere was validated.
    pub Accepts-validated :
        (e a : E) → Accepts (checked_schema maximum too_many) e a → validate e ≡ ok a
    unfolding seen
    Accepts-validated e a h = (checked_admit-IsChecked [] [] e a (h [] [] refl refl)).validated

    Validated-Pairs :
        (es cs : List E)
        → Validated id validate es cs
        → Pairs (checked_schema maximum too_many) es cs
    Validated-Pairs [] [] h = tt
    Validated-Pairs [] (c ∷ cs) h = h
    Validated-Pairs (e ∷ es) [] h = h
    Validated-Pairs (e ∷ es) (c ∷ cs) h = (
      λ ids destinations i d. checked_admit_of_IsChecked ids destinations e c (record {
        named = rw h.0;
        new_id = ap (seen ids) (sym (keeps_id e c h.1)) ∙ i;
        validated = h.1;
        new_destination = d;
      }),
      Validated-Pairs es cs h.2,
    )

    Validated-self :
        (es cs : List E)
        → Validated id validate es cs
        → All (λ c. Accepts (checked_schema maximum too_many) c c) cs
    Validated-self [] [] h = tt
    Validated-self [] (c ∷ cs) h = absurd h
    Validated-self (e ∷ es) [] h = absurd h
    Validated-self (e ∷ es) (c ∷ cs) h = (
      λ ids destinations i d. checked_admit_of_IsChecked ids destinations c c (record {
        named = ap (λ (x : Bytes). not (entry_id_matches x)) (keeps_id e c h.1) ∙ rw h.0;
        new_id = i;
        validated = again e c h.1;
        new_destination = d;
      }),
      Validated-self es cs h.2,
    )

    -- Nothing else is refused: valid entries with distinct keys, within the bound, are accepted.
    pub canonical_complete :
        (es cs : List E)
        → length es ≤ maximum
        → Validated id validate es cs
        → Distinct id cs
        → Distinct destination cs
        → canonical (checked_schema maximum too_many) es ≡ ok (sort_by id cs)
    canonical_complete es cs few v i d =
        canonical_of_IsCanonical (checked_schema maximum too_many) es (sort_by id cs) (record {
          few = few;
          admitted = cs;
          admits = record {
            pairs = Validated-Pairs es cs v;
            settled = Validated-self es cs v;
            distinct_ids = i;
            distinct_destinations = d;
            fresh_ids = Fresh-nil id cs;
            fresh_destinations = Fresh-nil destination cs;
          };
          sorted = refl;
        })
