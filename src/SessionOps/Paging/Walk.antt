-- ===== src/SessionOps/Paging/Walk.antt =====
-- internal/sessionops/pagination.go: the walk over the entries keeps the least identifiers.
use ai_config_selector.SessionOps.Walk.{DirEntry, visit_each}
use ai_config_selector.SessionOps.Paging.{visitor, record_entry_id, Selection, replace, take_in}
use ai_config_selector.SessionOps.Paging.Kept.{Under-trans}
use ai_config_selector.SessionOps.Paging.Visit.{
  Keeps, Keeps-iff, unchanged-Keeps, refused-Keeps, pushed-Keeps, replaced-Keeps,
}
use ai_config_selector.Prelude.{
  ℕ, suc, ◌≤◌, true, false, ◌||◌, not, ltb, ◌≡◌, ◌≢◌, ◌⊎◌, inl, inr, refl, List, [], ◌∷◌, Any,
  Bool-cases, length, ||_elim, ||_elim_false, ap, sym, ◌∙◌, arith,
}
use ai_config_selector.Prelude.Bytes.{Bytes, bytes_eq, bytes_eq→eq, bytes_eq→ne, bytes_lt, seen}
use ai_config_selector.Prelude.Order.{bytes_lt_total}

below_none : (a : Bytes) → bytes_lt a [] ≡ false
unfolding bytes_lt
below_none [] = refl
below_none (x ∷ xs) = refl

module _ (limit : ℕ) (after : Bytes) where
  -- The tests under which an entry is passed over.
  passed_over :
      (P : Bytes → Type 0) (id : Bytes) (s : Selection)
      → Keeps limit after P s
      → (bytes_eq id [] || (not (bytes_lt after id) || seen s.selected id)) ≡ true
      → (bytes_lt after id ≡ false) ⊎ (seen s.ids id ≡ true)
  passed_over P id s h t = elim (||_elim (bytes_eq id []) _ t) [
    | inl e ↦ inl (ap (bytes_lt after) (bytes_eq→eq id [] e) ∙ below_none after)
    | inr u ↦ elim (||_elim (not (bytes_lt after id)) _ u) [
      | inl e ↦ inl (ground (arith, e))
      | inr e ↦ inr (sym (h.same id) ∙ e)
    ]
  ]

  replace-Keeps :
      (P : Bytes → Type 0) (id : Bytes) (ids selected : List Bytes)
      → bytes_lt after id ≡ true
      → seen ids id ≡ false
      → length ids ≡ suc limit
      → Keeps limit after P (record { ids = ids; selected = selected })
      → Keeps limit after
          (λ k. (id ≡ k) ⊎ P k)
          (replace id ids (record { ids = ids; selected = selected }))
  unfolding seen
  replace-Keeps P id [] selected b new full h = absurd (omega arith)
  replace-Keeps P id (greatest ∷ rest) selected b new full h =
      elim (Bool-cases (bytes_lt id greatest)) [
        | inl l ↦ rw l (replaced-Keeps limit after P id b greatest rest selected new full l h)
        | inr l ↦
            let above : bytes_lt greatest id ≡ true =
              greater l (bytes_eq→ne greatest id (||_elim_false _ _ new).0) in
            rw l (
              refused-Keeps limit after P id _ full
                (above, Under-trans id greatest rest above h.descending.0) h)
      ]
    where
      greater : bytes_lt id greatest ≡ false → greatest ≢ id → bytes_lt greatest id ≡ true
      greater l ne = elim (Bool-cases (bytes_lt greatest id)) [
        | inl g ↦ g
        | inr g ↦ absurd (ne (bytes_lt_total greatest id g l))
      ]

  take_in-Keeps :
      (P : Bytes → Type 0) (id : Bytes) (s : Selection)
      → Keeps limit after P s
      → Keeps limit after (λ k. (id ≡ k) ⊎ P k) (take_in limit after id s)
  take_in-Keeps P id s h =
      elim (Bool-cases (bytes_eq id [] || (not (bytes_lt after id) || seen s.selected id))) [
        | inl t ↦ rw t (unchanged-Keeps limit after P id s (passed_over P id s h t) h)
        | inr t ↦
            let u = (||_elim_false (bytes_eq id []) _ t).1 in
            let (v, new) = ||_elim_false (not (bytes_lt after id)) _ u in
            let behind : bytes_lt after id ≡ true = ground (arith, v) in
            elim (Bool-cases (ltb (length s.ids) (suc limit))) [
              | inl room ↦
                  rw (t, room)
                    (pushed-Keeps limit after P id behind s (sym (h.same id) ∙ new)
                      (ground (arith, room)) h)
              | inr full ↦
                  let n : length s.ids ≡ suc limit = count (h.bounded) full in
                  rw (t, full)
                    (replace-Keeps P id s.ids s.selected behind (sym (h.same id) ∙ new) n h)
            ]
      ]
    where
      count :
          length s.ids ≤ suc limit
          → ltb (length s.ids) (suc limit) ≡ false
          → length s.ids ≡ suc limit
      count b f = ground arith

  pub visit_all-Keeps :
      (entries : List DirEntry) (P : Bytes → Type 0) (s : Selection)
      → Keeps limit after P s
      → Keeps limit after
          (λ k. Any (λ e. record_entry_id e ≡ k) entries ⊎ P k)
          (visit_each (visitor limit after) entries s)
  unfolding visit_each
  visit_all-Keeps [] P s h =
      Keeps-iff limit after s (λ k. (λ p. inr p, λ q. elim q [ inl b ↦ absurd b | inr p ↦ p ])) h
  visit_all-Keeps (entry ∷ entries) P s h =
      Keeps-iff limit after _ (λ k. (there k, back k))
        (visit_all-Keeps entries _ _ (take_in-Keeps P (record_entry_id entry) s h))
    where
      there :
          (k : Bytes)
          → Any (λ e. record_entry_id e ≡ k) entries ⊎ ((record_entry_id entry ≡ k) ⊎ P k)
          → Any (λ e. record_entry_id e ≡ k) (entry ∷ entries) ⊎ P k
      there k (inl a) = inl (inr a)
      there k (inr (inl e)) = inl (inl e)
      there k (inr (inr p)) = inr p

      back :
          (k : Bytes)
          → Any (λ e. record_entry_id e ≡ k) (entry ∷ entries) ⊎ P k
          → Any (λ e. record_entry_id e ≡ k) entries ⊎ ((record_entry_id entry ≡ k) ⊎ P k)
      back k (inl (inl e)) = inr (inl e)
      back k (inl (inr a)) = inl a
      back k (inr p) = inr (inr p)
