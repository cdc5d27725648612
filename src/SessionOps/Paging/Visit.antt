-- ===== src/SessionOps/Paging/Visit.antt =====
-- internal/sessionops/pagination.go: what the heap holds after the entries visited so far.
use ai_config_selector.SessionOps.Paging.{push, delete, Selection}
use ai_config_selector.SessionOps.Paging.Kept.{
  Under, IsDescending, push-All, length-push, seen-push, push-IsDescending, seen-delete_greatest,
}
use ai_config_selector.Prelude.{
  ℕ, suc, ◌≤◌, true, false, ◌||◌, ◌≡◌, ◌↔◌, ◌⊎◌, inl, inr, refl, List, ◌∷◌, All, All-map, length,
  ||_elim, ||_elim_false, ap, ◌∙◌, subst, arith,
}
use ai_config_selector.Prelude.Bytes.{Bytes, bytes_eq, bytes_eq_refl, bytes_eq→eq, bytes_lt, seen}
use ai_config_selector.Prelude.Order.{bytes_lt_trans}

module _ (limit : ℕ) (after : Bytes) where
  -- Of the visited identifiers behind `after`, the heap holds the least, one more than a page at most, and
  -- the map the same.
  pub record Keeps (Visited : Bytes → Type 0) (s : Selection) : Type 0 where
    pub descending : IsDescending s.ids
    pub same : (k : Bytes) → seen s.selected k ≡ seen s.ids k
    pub listed : All (λ k. Visited k × (bytes_lt after k ≡ true)) s.ids
    pub bounded : length s.ids ≤ suc limit
    pub complete :
        (k : Bytes)
        → Visited k
        → bytes_lt after k ≡ true
        → (seen s.ids k ≡ true) ⊎ ((length s.ids ≡ suc limit) × Under k s.ids)

  pub Keeps-iff :
      {P Q : Bytes → Type 0} (s : Selection) → ((k : Bytes) → P k ↔ Q k) → Keeps P s → Keeps Q s
  Keeps-iff s f h = record {
    descending = h.descending;
    same = h.same;
    listed = All-map s.ids (λ k p. ((f k).0 p.0, p.1)) h.listed;
    bounded = h.bounded;
    complete = λ k q. h.complete k ((f k).1 q);
  }

  module _ (P : Bytes → Type 0) (id : Bytes) where
    abbrev Next : Bytes → Type 0
    Next k = (id ≡ k) ⊎ P k

    -- An identifier that does not come behind `after`, or is kept already, changes nothing.
    pub unchanged-Keeps :
        (s : Selection)
        → (bytes_lt after id ≡ false) ⊎ (seen s.ids id ≡ true)
        → Keeps P s
        → Keeps Next s
    unchanged-Keeps s r h = record {
      descending = h.descending;
      same = h.same;
      listed = All-map s.ids (λ k p. (inr p.0, p.1)) h.listed;
      bounded = h.bounded;
      complete = covered;
    }
      where
        covered :
            (k : Bytes)
            → Next k
            → bytes_lt after k ≡ true
            → (seen s.ids k ≡ true) ⊎ ((length s.ids ≡ suc limit) × Under k s.ids)
        covered k (inr p) b = h.complete k p b
        covered k (inl e) b = elim r [
          | inl n ↦ absurd (cc (b, n, ap (bytes_lt after) e))
          | inr n ↦ inl (subst (λ z. seen s.ids z ≡ true) e n)
        ]

    -- The greatest of a full heap is below the identifier.
    pub refused-Keeps :
        (s : Selection) → length s.ids ≡ suc limit → Under id s.ids → Keeps P s → Keeps Next s
    refused-Keeps s full u h = record {
      descending = h.descending;
      same = h.same;
      listed = All-map s.ids (λ k p. (inr p.0, p.1)) h.listed;
      bounded = h.bounded;
      complete = covered;
    }
      where
        covered :
            (k : Bytes)
            → Next k
            → bytes_lt after k ≡ true
            → (seen s.ids k ≡ true) ⊎ ((length s.ids ≡ suc limit) × Under k s.ids)
        covered k (inr p) b = h.complete k p b
        covered k (inl e) b = inr (full, subst (λ z. Under z s.ids) e u)

    module _ (behind : bytes_lt after id ≡ true) where
      pub pushed-Keeps :
          (s : Selection)
          → seen s.ids id ≡ false
          → length s.ids ≤ limit
          → Keeps P s
          → Keeps Next (record { ids = push id s.ids; selected = id ∷ s.selected })
      unfolding seen
      pushed-Keeps s new room h = record {
        descending = push-IsDescending id s.ids h.descending new;
        same = λ k. rw (seen-push id s.ids k, h.same k) refl;
        listed =
            push-All _ id s.ids (inl refl, behind) (All-map s.ids (λ k p. (inr p.0, p.1)) h.listed);
        bounded = omega (arith, length-push id s.ids);
        complete = covered;
      }
        where
          kept :
              (k : Bytes) → (bytes_eq id k || seen s.ids k) ≡ true → seen (push id s.ids) k ≡ true
          kept k e = seen-push id s.ids k ∙ e

          covered :
              (k : Bytes)
              → Next k
              → bytes_lt after k ≡ true
              → (seen (push id s.ids) k ≡ true)
                ⊎ ((length (push id s.ids) ≡ suc limit) × Under k (push id s.ids))
          covered k (inl e) b = inl (kept k (rw (← e) (rw (bytes_eq_refl id) refl)))
          covered k (inr p) b = elim (h.complete k p b) [
            | inl i ↦ inl (kept k (ground (arith, i)))
            | inr (full, u) ↦ absurd (omega arith)
          ]

      pub replaced-Keeps :
          (greatest : Bytes) (rest selected : List Bytes)
          → seen (greatest ∷ rest) id ≡ false
          → length (greatest ∷ rest) ≡ suc limit
          → bytes_lt id greatest ≡ true
          → Keeps P (record { ids = greatest ∷ rest; selected = selected })
          → Keeps Next (record { ids = push id rest; selected = id ∷ delete greatest selected })
      unfolding seen
      replaced-Keeps greatest rest selected new full less h = record {
        descending = push-IsDescending id rest h.descending.1 (||_elim_false _ _ new).1;
        same = λ k.
            rw
              (
                seen-push id rest k,
                seen-delete_greatest greatest rest selected h.descending.0 h.same k,
              )
              refl;
        listed =
            push-All _ id rest (inl refl, behind) (All-map rest (λ k p. (inr p.0, p.1)) h.listed.1);
        bounded = omega (arith, length-push id rest, full);
        complete = covered;
      }
        where
          kept : (k : Bytes) → (bytes_eq id k || seen rest k) ≡ true → seen (push id rest) k ≡ true
          kept k e = seen-push id rest k ∙ e

          count : length (push id rest) ≡ suc limit
          count = length-push id rest ∙ full

          covered :
              (k : Bytes)
              → Next k
              → bytes_lt after k ≡ true
              → (seen (push id rest) k ≡ true)
                ⊎ ((length (push id rest) ≡ suc limit) × Under k (push id rest))
          covered k (inl e) b = inl (kept k (rw (← e) (rw (bytes_eq_refl id) refl)))
          covered k (inr p) b = elim (h.complete k p b) [
            | inr (n, u) ↦
                inr (count, push-All _ id rest (bytes_lt_trans id greatest k less u.0) u.1)
            | inl i ↦ elim (||_elim _ _ i) [
              | inr j ↦ inl (kept k (ground (arith, j)))
              | inl j ↦ inr (
                count,
                subst (λ z. Under z (push id rest)) (bytes_eq→eq greatest k j)
                    (push-All _ id rest less h.descending.0),
              )
            ]
          ]
