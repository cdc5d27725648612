-- ===== src/Intent/Schema/Canonical.antt =====
-- What a Canonical function returns: the accepted entries in ascending order of their identifiers,
-- whatever the order in which they were given, and unchanged when it is applied again.
use mathlib.Core.List.{Permᴰ}
use mathlib.Core.List.Permᴰ
use ai_config_selector.Prelude.{
  ℕ, ◌≤◌, List, [], ◌∷◌, ok, false, ◌≡◌, refl, ap, sym, ◌∙◌, All, length, >>=-parts,
  refuse_if-parts, ok-injective, arith, subst, ltb,
}
use ai_config_selector.Prelude.Distinct.{All-perm, length-perm, Distinct, Distinct-perm, Fresh-nil}
use ai_config_selector.Prelude.Order.{bytes_order}
use ai_config_selector.Prelude.Sort.{
  sort_by, sort_by-perm, sort_by-IsSorted, sort_by_of_IsSorted, IsSorted, IsSorted-unique,
}
use ai_config_selector.Intent.Schema.{Schema, admit_all, canonical}
use ai_config_selector.Intent.Schema.Laws.{
  Accepts, Laws, Pairs, IsAdmitted, admit_all-IsAdmitted, admit_all_of_IsAdmitted,
}

pub within : (maximum n : ℕ) → ltb maximum n ≡ false → n ≤ maximum
within maximum n h = ground arith

pub within_iff : (maximum n : ℕ) → n ≤ maximum → ltb maximum n ≡ false
within_iff maximum n h = ground arith

module _ {E Err : Type 0} (s : Schema E Err) where
  open s use {id, destination, admit, maximum, too_many}

  length-Pairs : (es cs : List E) → Pairs s es cs → length es ≡ length cs
  length-Pairs [] [] p = refl
  length-Pairs [] (c ∷ cs) p = absurd p
  length-Pairs (e ∷ es) [] p = absurd p
  length-Pairs (e ∷ es) (c ∷ cs) p = omega (arith, length-Pairs es cs p.1)

  Pairs-self : (cs : List E) → All (λ c. Accepts s c c) cs → Pairs s cs cs
  Pairs-self [] h = tt
  Pairs-self (c ∷ cs) h = (h.0, Pairs-self cs h.1)

  Pairs-perm :
      {es fs : List E} (cs : List E)
      → Permᴰ es fs
      → Pairs s es cs
      → (ds : List E) × Permᴰ cs ds × Pairs s fs ds
  Pairs-perm [] Permᴰ.nil h = ([], Permᴰ.nil, tt)
  Pairs-perm (c ∷ cs) Permᴰ.nil h = absurd h
  Pairs-perm [] (Permᴰ.cons e p) h = absurd h
  Pairs-perm (c ∷ cs) (Permᴰ.cons e p) h =
      let (ds, q, k) = Pairs-perm cs p h.1 in
      (c ∷ ds, Permᴰ.cons refl q, (subst (λ x. Accepts s x c) e h.0, k))
  Pairs-perm [] (Permᴰ.swap e f) h = absurd h
  Pairs-perm (c ∷ []) (Permᴰ.swap e f) h = absurd h.1
  Pairs-perm (c ∷ d ∷ cs) (Permᴰ.swap e f) h = (
    d ∷ c ∷ cs,
    Permᴰ.swap refl refl,
    (subst (λ x. Accepts s x d) f h.1.0, (subst (λ x. Accepts s x c) e h.0, h.1.1)),
  )
  Pairs-perm cs (Permᴰ.trans p q) h =
      let (ds, a, k) = Pairs-perm cs p h in
      let (fs, b, l) = Pairs-perm ds q k in (fs, Permᴰ.trans a b, l)

  -- The entries that were admitted, before the sort.
  pub record IsCanonical (es cs : List E) : Type 0 where
    pub few : length es ≤ maximum
    pub admitted : List E
    pub admits : IsAdmitted s [] [] es admitted
    pub sorted : cs ≡ sort_by id admitted

  pub canonical_of_IsCanonical : (es cs : List E) → IsCanonical es cs → canonical s es ≡ ok cs
  unfolding canonical
  canonical_of_IsCanonical es cs h =
      rw
        (
          within_iff maximum (length es) h.few,
          admit_all_of_IsAdmitted s [] [] es h.admitted h.admits,
        )
        (ap ok (sym h.sorted))

  -- The reordered admitted entries, with no key met before.
  admits_perm :
      {es cs fs ds : List E}
      → IsAdmitted s [] [] es cs
      → Permᴰ cs ds
      → Pairs s fs ds
      → IsAdmitted s [] [] fs ds
  admits_perm {ds = ds} h p q = record {
    pairs = q;
    settled = All-perm (λ c. Accepts s c c) p h.settled;
    distinct_ids = Distinct-perm id p h.distinct_ids;
    distinct_destinations = Distinct-perm destination p h.distinct_destinations;
    fresh_ids = Fresh-nil id ds;
    fresh_destinations = Fresh-nil destination ds;
  }

  module _ (laws : Laws s) where
    pub canonical-IsCanonical : (es cs : List E) → canonical s es ≡ ok cs → IsCanonical es cs
    unfolding canonical
    canonical-IsCanonical es cs h =
        let (few, k) = refuse_if-parts (ltb maximum (length es)) too_many _ h in
        let (a, p, l) = >>=-parts (admit_all s [] [] es) _ k in
        record {
          few = within maximum (length es) few;
          admitted = a;
          admits = admit_all-IsAdmitted s laws [] [] es a p;
          sorted = sym (ok-injective l);
        }

    -- The result is in strictly ascending order of the identifiers.
    pub canonical-IsSorted : (es cs : List E) → canonical s es ≡ ok cs → IsSorted id cs
    canonical-IsSorted es cs h =
        let c = canonical-IsCanonical es cs h in
        rw c.sorted (sort_by-IsSorted id c.admitted c.admits.distinct_ids)

    canonical_perm : (es cs : List E) (c : IsCanonical es cs) → Permᴰ c.admitted cs
    canonical_perm es cs c = rw c.sorted (Permᴰ.symm (sort_by-perm id c.admitted))

    -- No two entries of the result have one destination.
    pub canonical-Distinct : (es cs : List E) → canonical s es ≡ ok cs → Distinct destination cs
    canonical-Distinct es cs h =
        let c = canonical-IsCanonical es cs h in
        Distinct-perm destination (canonical_perm es cs c) c.admits.distinct_destinations

    pub length-canonical :
        (es cs : List E) → canonical s es ≡ ok cs → (length cs ≡ length es) × (length es ≤ maximum)
    length-canonical es cs h =
        let c = canonical-IsCanonical es cs h in
        (
          sym (length-Pairs es c.admitted c.admits.pairs ∙ length-perm (canonical_perm es cs c)),
          c.few,
        )

    -- Each entry of the result is one that the loop's body returned.
    pub canonical-All :
        (P : E → Type 0)
        → ((c : E) → Accepts s c c → P c)
        → (es cs : List E) → canonical s es ≡ ok cs
        → All P cs
    canonical-All P f es cs h =
        let c = canonical-IsCanonical es cs h in
        settle cs (All-perm (λ x. Accepts s x x) (canonical_perm es cs c) c.admits.settled)
      where
        settle : (xs : List E) → All (λ x. Accepts s x x) xs → All P xs
        settle [] h = tt
        settle (x ∷ xs) h = (f x h.0, settle xs h.1)

    -- A canonical list is its own canonical form.
    pub canonical_idem : (es cs : List E) → canonical s es ≡ ok cs → canonical s cs ≡ ok cs
    canonical_idem es cs h =
        let c = canonical-IsCanonical es cs h in
        let p = canonical_perm es cs c in
        let (l, few) = length-canonical es cs h in
        canonical_of_IsCanonical cs cs (record {
          few = omega arith;
          admitted = cs;
          admits =
              admits_perm c.admits p
                (Pairs-self cs (All-perm (λ x. Accepts s x x) p c.admits.settled));
          sorted = sym (sort_by_of_IsSorted id cs (canonical-IsSorted es cs h));
        })

    -- The order in which the entries are given does not matter.
    pub canonical_reorder :
        {es fs : List E} (cs : List E)
        → Permᴰ es fs
        → canonical s es ≡ ok cs
        → canonical s fs ≡ ok cs
    canonical_reorder {es} {fs} cs p h =
        let c = canonical-IsCanonical es cs h in
        let (ds, q, k) = Pairs-perm c.admitted p c.admits.pairs in
        let a : IsAdmitted s [] [] fs ds = admits_perm c.admits q k in
        canonical_of_IsCanonical fs cs (record {
          few = omega (arith, length-perm p, c.few);
          admitted = ds;
          admits = a;
          sorted =
              IsSorted-unique id
                (Permᴰ.trans (Permᴰ.trans (Permᴰ.symm (canonical_perm es cs c)) q)
                  (Permᴰ.symm (sort_by-perm id ds)))
                (canonical-IsSorted es cs h) (sort_by-IsSorted id ds a.distinct_ids);
        })
