-- ===== src/SessionOps/Paging/Page.antt =====
-- internal/sessionops/pagination.go: which identifiers selectIDPage returns.
use ai_config_selector.SessionOps.Walk.{
  DirEntry, Batch, visit_each, entries_read, walk-entries_read, visited_all,
}
use ai_config_selector.SessionOps.Paging.{
  visitor, none_yet, page_of, record_entry_id, Selection, take, cut, select_id_page,
}
use ai_config_selector.SessionOps.Paging.Cuts.{
  seen-All, seen-perm, take-last, length-take, take-All, take-IsSorted, before_last,
  seen-append_last, seen-of_append,
}
use ai_config_selector.SessionOps.Paging.Kept.{Under, IsDescending}
use ai_config_selector.SessionOps.Paging.Visit.{Keeps, Keeps-iff}
use ai_config_selector.SessionOps.Paging.Walk.{visit_all-Keeps}
use ai_config_selector.Prelude.{
  ◌∙◌, ℕ, suc, ◌≤◌, Bool, true, false, ltb, ◌≡◌, ◌⊎◌, inl, inr, refl, List, [], ◌∷◌, ◌++◌, All,
  All-map, Any, Bool-cases, length, ap, subst, arith, some,
}
use ai_config_selector.Prelude.Bytes.{Bytes, bytes_lt, seen}
use ai_config_selector.Prelude.Order.{bytes_lt_irrefl, bytes_order}
use ai_config_selector.Prelude.Distinct.{Distinct, All-perm, length-perm}
use ai_config_selector.Prelude.Sort.{sort_by, sort_by-perm, sort_by-IsSorted, IsSorted}
use mathlib.Core.List.{Permᴰ}
use mathlib.Core.List.Permᴰ

-- The record of a Session behind `after`, by its identifier.
abbrev pub Listed : Bytes → List DirEntry → Bytes → Type 0
Listed after entries k = Any (λ e. record_entry_id e ≡ k) entries × (bytes_lt after k ≡ true)

-- The page is the first `limit` of the listed identifiers in their order, or all of them, and `more` says
-- whether others follow.
pub record IsPage (after : Bytes) (limit : ℕ) (entries : List DirEntry) (page : List Bytes)
    (more : Bool) : Type 0 where
  pub sorted : IsSorted (λ id. id) page
  pub listed : All (Listed after entries) page
  pub bounded : length page ≤ limit
  pub complete :
      (k : Bytes) → Listed after entries k → (seen page k ≡ true) ⊎ ((more ≡ true) × Under k page)
  pub following :
      more ≡ true → (length page ≡ limit) × (k : Bytes) × Listed after entries k × Under k page

IsDescending-Distinct : (ids : List Bytes) → IsDescending ids → Distinct (λ id. id) ids
IsDescending-Distinct [] d = tt
IsDescending-Distinct (x ∷ xs) d = (
  All-map xs (λ y l e. cc (ap (λ z. bytes_lt y z) e, bytes_lt_irrefl y, l)) d.0,
  IsDescending-Distinct xs d.1,
)

module _ (after : Bytes) (limit : ℕ) (entries : List DirEntry) (s : Selection) where
  module _ (h : Keeps limit after (λ k. Any (λ e. record_entry_id e ≡ k) entries) s) where
    abbrev in_order : List Bytes
    in_order = sort_by (λ id. id) s.ids

    in_order-IsSorted : IsSorted (λ id. id) in_order
    in_order-IsSorted = sort_by-IsSorted (λ id. id) s.ids (IsDescending-Distinct s.ids h.descending)

    in_order-perm : Permᴰ in_order s.ids
    in_order-perm = sort_by-perm (λ id. id) s.ids

    in_order-All {κ} : (P : Bytes → Type κ) → All P s.ids → All P in_order
    in_order-All P a = All-perm P (Permᴰ.symm in_order-perm) a

    in_order-seen : (k : Bytes) → seen s.ids k ≡ true → seen in_order k ≡ true
    in_order-seen k i = seen-perm k (Permᴰ.symm in_order-perm) i

    all-IsPage : ltb limit (length in_order) ≡ false → IsPage after limit entries in_order false
    all-IsPage few = record {
      sorted = in_order-IsSorted;
      listed = in_order-All _ h.listed;
      bounded = ground (arith, few);
      complete = covered;
      following = λ e. cc;
    }
      where
        covered :
            (k : Bytes)
            → Listed after entries k
            → (seen in_order k ≡ true) ⊎ ((false ≡ true) × Under k in_order)
        covered k l = elim (h.complete k l.0 l.1) [
          | inl i ↦ inl (in_order-seen k i)
          | inr (full, u) ↦ absurd (ground (arith, few, full, length-perm in_order-perm))
        ]

    first-IsPage :
        ltb limit (length in_order) ≡ true → IsPage after limit entries (take limit in_order) true
    first-IsPage many =
        let count : length in_order ≡ suc limit =
          exact many (length-perm in_order-perm) h.bounded in
        let (m, e) = take-last limit in_order count in
        let (page, last) = parts m (subst (IsSorted (λ id. id)) e in_order-IsSorted) in
        record {
          sorted = page;
          listed = take-All _ limit in_order (in_order-All _ h.listed);
          bounded = omega (arith, length-take limit in_order (omega (arith, count)));
          complete = covered m e last;
          following = λ t. (
            length-take limit in_order (omega (arith, count)),
            m,
            seen-All (Listed after entries) in_order m (in_order-All _ h.listed) (held m e),
            last,
          );
        }
      where
        exact :
            ltb limit (length in_order) ≡ true
            → length in_order ≡ length s.ids
            → length s.ids ≤ suc limit
            → length in_order ≡ suc limit
        exact t q b = ground (arith, t)

        parts :
            (m : Bytes)
            → IsSorted (λ id. id) (take limit in_order ++ (m ∷ []))
            → IsSorted (λ id. id) (take limit in_order) × Under m (take limit in_order)
        parts m w =
            (take-IsSorted limit in_order in_order-IsSorted, before_last (take limit in_order) m w)

        held : (m : Bytes) → in_order ≡ take limit in_order ++ (m ∷ []) → seen in_order m ≡ true
        held m e = rw e (seen-append_last (take limit in_order) m)

        covered :
            (m : Bytes)
            → in_order ≡ take limit in_order ++ (m ∷ [])
            → Under m (take limit in_order)
            → (k : Bytes) → Listed after entries k
            → (seen (take limit in_order) k ≡ true)
              ⊎ ((true ≡ true) × Under k (take limit in_order))
        covered m e u k l = elim (h.complete k l.0 l.1) [
          | inr (full, v) ↦ inr (refl, take-All _ limit in_order (in_order-All _ v))
          | inl i ↦
              elim (seen-of_append (take limit in_order) m k
                (subst (λ z. seen z k ≡ true) e (in_order-seen k i))) [
                  | inl j ↦ inl j
                  | inr j ↦ inr (refl, subst (λ z. Under z (take limit in_order)) j u)
                ]
        ]

    cut-IsPage : IsPage after limit entries (cut limit in_order).0 (cut limit in_order).1
    cut-IsPage = elim (Bool-cases (ltb limit (length in_order))) [
      | inl t ↦ rw t (first-IsPage t)
      | inr t ↦ rw t (all-IsPage t)
    ]

-- Where the walk over the directory gives no error, selectIDPage returns a page, in whichever order and
-- batches the entries come and whichever repeat: it is in strictly ascending order, has at most `limit`
-- identifiers, all of them of records behind `after`, and every such identifier is on it or, with `more`
-- set, above all of it. `more` says that the page is full and that an identifier follows it.
pub select_id_page-IsPage :
    (after : Bytes) (limit : ℕ) (batches : List Batch) (entries : List DirEntry)
    → entries_read batches ≡ some entries
    → (page : List Bytes) × (more : Bool) × (select_id_page after limit batches ≡ some (page, more))
      × IsPage after limit entries page more
unfolding select_id_page
select_id_page-IsPage after limit batches entries e =
    let s = visit_each (visitor limit after) entries none_yet in
    let h =
      Keeps-iff limit after s (λ k. (λ p. elim p [ inl a ↦ a | inr b ↦ absurd b ], λ a. inl a))
        (visit_all-Keeps limit after entries (λ k. ⊥) none_yet start) in
    (
      _,
      _,
      ap (page_of limit) (
          walk-entries_read (visitor limit after) batches none_yet
          ∙ ap (λ o. visited_all (visitor limit after) o none_yet) e),
      cut-IsPage after limit entries s h,
    )
  where
    start : Keeps limit after (λ k. ⊥) none_yet
    start = record {
      descending = tt;
      same = λ k. refl;
      listed = tt;
      bounded = omega arith;
      complete = λ k p b. absurd p;
    }
