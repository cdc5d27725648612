-- ===== src/Intent/Schema/Laws.antt =====
-- The loop of a schema admits a list exactly if each entry is acceptable by itself and the
-- identifiers and destinations are distinct.
use ai_config_selector.Prelude.{
  List, [], ◌∷◌, ok, false, ◌≡◌, refl, All, >>=-parts, ok-injective, subst,
}
use ai_config_selector.Prelude.Bytes.{Bytes, seen}
use ai_config_selector.Prelude.Distinct.{Distinct, Fresh, Fresh-cons, Fresh-uncons}
use ai_config_selector.Intent.Schema.{Schema, admit_all}

module _ {E Err : Type 0} (s : Schema E Err) where
  open s use {id, destination, admit}

  -- The loop's body turns `e` into `a` wherever the keys of `a` are new.
  abbrev pub Accepts : E → E → Type 0
  Accepts e a =
      (ids destinations : List Bytes)
      → seen ids (id a) ≡ false
      → seen destinations (destination a) ≡ false
      → admit ids destinations e ≡ ok a

  -- What a schema's loop body is to satisfy.
  pub record Laws : Type 0 where
    pub fresh :
        (ids destinations : List Bytes) (e a : E)
        → admit ids destinations e ≡ ok a
        → (seen ids (id a) ≡ false) × (seen destinations (destination a) ≡ false)
    pub accepts :
        (ids destinations : List Bytes) (e a : E) → admit ids destinations e ≡ ok a → Accepts e a
    pub settled :
        (ids destinations : List Bytes) (e a : E) → admit ids destinations e ≡ ok a → Accepts a a

  abbrev pub Pairs : List E → List E → Type 0
  Pairs [] [] = Unit
  Pairs (e ∷ es) (a ∷ cs) = Accepts e a × Pairs es cs
  Pairs _ _ = ⊥

  pub record IsAdmitted (ids destinations : List Bytes) (es cs : List E) : Type 0 where
    pub pairs : Pairs es cs
    pub settled : All (λ c. Accepts c c) cs
    pub distinct_ids : Distinct id cs
    pub distinct_destinations : Distinct destination cs
    pub fresh_ids : Fresh id ids cs
    pub fresh_destinations : Fresh destination destinations cs

  module _ (laws : Laws) where
    pub admit_all-IsAdmitted :
        (ids destinations : List Bytes) (es cs : List E)
        → admit_all s ids destinations es ≡ ok cs
        → IsAdmitted ids destinations es cs
    unfolding admit_all
    admit_all-IsAdmitted ids destinations [] [] h = record {
      pairs = tt;
      settled = tt;
      distinct_ids = tt;
      distinct_destinations = tt;
      fresh_ids = tt;
      fresh_destinations = tt;
    }
    admit_all-IsAdmitted ids destinations [] (c ∷ cs) h = absurd (cc (ok-injective h))
    admit_all-IsAdmitted ids destinations (e ∷ es) cs h =
        let (a, p, k) = >>=-parts (admit ids destinations e) _ h in
        let (rest, q, l) =
          >>=-parts (admit_all s (id a ∷ ids) (destination a ∷ destinations) es) _ k in
        let r = admit_all-IsAdmitted (id a ∷ ids) (destination a ∷ destinations) es rest q in
        subst (IsAdmitted ids destinations (e ∷ es)) (ok-injective l) (extend a rest p r)
      where
        extend :
            (a : E) (rest : List E)
            → admit ids destinations e ≡ ok a
            → IsAdmitted (id a ∷ ids) (destination a ∷ destinations) es rest
            → IsAdmitted ids destinations (e ∷ es) (a ∷ rest)
        extend a rest p r =
            let (f, g) = laws.fresh ids destinations e a p in
            let (fi, di) = Fresh-uncons id (id a) ids rest r.fresh_ids in
            let (fd, dd) =
              Fresh-uncons destination (destination a) destinations rest r.fresh_destinations in
            record {
              pairs = (laws.accepts ids destinations e a p, r.pairs);
              settled = (laws.settled ids destinations e a p, r.settled);
              distinct_ids = (di, r.distinct_ids);
              distinct_destinations = (dd, r.distinct_destinations);
              fresh_ids = (f, fi);
              fresh_destinations = (g, fd);
            }

  pub admit_all_of_IsAdmitted :
      (ids destinations : List Bytes) (es cs : List E)
      → IsAdmitted ids destinations es cs
      → admit_all s ids destinations es ≡ ok cs
  unfolding admit_all
  admit_all_of_IsAdmitted ids destinations [] [] h = refl
  admit_all_of_IsAdmitted ids destinations [] (c ∷ cs) h = absurd h.pairs
  admit_all_of_IsAdmitted ids destinations (e ∷ es) [] h = absurd h.pairs
  admit_all_of_IsAdmitted ids destinations (e ∷ es) (c ∷ cs) h =
      rw (h.pairs.0 ids destinations h.fresh_ids.0 h.fresh_destinations.0) (
        rw (
          admit_all_of_IsAdmitted (id c ∷ ids) (destination c ∷ destinations) es cs (record {
            pairs = h.pairs.1;
            settled = h.settled.1;
            distinct_ids = h.distinct_ids.1;
            distinct_destinations = h.distinct_destinations.1;
            fresh_ids = Fresh-cons id (id c) ids cs h.fresh_ids.1 h.distinct_ids.0;
            fresh_destinations =
                Fresh-cons destination (destination c) destinations cs h.fresh_destinations.1
                  h.distinct_destinations.0;
          })))
