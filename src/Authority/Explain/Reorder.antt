-- ===== src/Authority/Explain/Reorder.antt =====
-- internal/authority/plan.go: the explanation does not depend on the order of the contributions.
use mathlib.Core.List.{Permᴰ, append_assoc}
use mathlib.Core.List.Permᴰ
use ai_config_selector.Authority.Facts.{Fact, Facts}
use ai_config_selector.Authority.Encoding.{canonical_fact_encoding}
use ai_config_selector.Authority.Encoding.Splits.{Small}
use ai_config_selector.Authority.Encoding.Injective.{IsFact, canonical_fact_encoding-injective}
use ai_config_selector.Authority.Intents.{no_facts, join_facts, facts_of}
use ai_config_selector.Authority.Plan.{Contribution, gather, last_set, set_or, requirements_of, new}
use ai_config_selector.Authority.Recipe.{TargetRequirements}
use ai_config_selector.Authority.Explain.{
  gathered_facts, fact_key, fact_order, sort_facts, in_order, build_explanation, with_digest,
  contributed,
}
use ai_config_selector.Prelude.{
  ℕ, ◌+◌, ◌≤◌, ◌≡◌, refl, ap, subst, ◌∙◌, Option, none, some, List, [], ◌∷◌, ◌++◌, All, arith,
}
use ai_config_selector.Prelude.Bytes.{Bytes}
use ai_config_selector.Prelude.Reorder.{sort_by-reorder}

module _ {ℓ} {A : Type ℓ} where
  append_left_comm : (a b r : List A) → Permᴰ (a ++ (b ++ r)) (b ++ (a ++ r))
  append_left_comm a b r =
      subst (λ l. Permᴰ l (b ++ (a ++ r))) (append_assoc a b r)
        (subst (Permᴰ ((a ++ b) ++ r)) (append_assoc b a r)
          (Permᴰ.append_right r (Permᴰ.append_comm a b)))

  append_cong : {a b r s : List A} → Permᴰ a b → Permᴰ r s → Permᴰ (a ++ r) (b ++ s)
  append_cong {b = b} {r = r} p q = Permᴰ.trans (Permᴰ.append_right r p) (Permᴰ.append_left b q)

  gather-perm :
      (get : Contribution → List A) {cs ds : List Contribution}
      → Permᴰ cs ds
      → Permᴰ (gather get cs) (gather get ds)
  unfolding gather
  gather-perm get Permᴰ.nil = Permᴰ.nil
  gather-perm get (Permᴰ.cons {a = a} e p) =
      rw (← e) (Permᴰ.append_left (get a) (gather-perm get p))
  gather-perm get (Permᴰ.swap {a = a} {b = b} {l = l} e f) =
      rw (← e, ← f) (append_left_comm (get a) (get b) (gather get l))
  gather-perm get (Permᴰ.trans p q) = Permᴰ.trans (gather-perm get p) (gather-perm get q)

-- The same facts, in whatever order.
record SameFacts (f g : Facts) : Type 0 where
  requested : Permᴰ f.requested g.requested
  target_added : Permᴰ f.target_added g.target_added
  effective : Permᴰ f.effective g.effective
  unsupported : Permᴰ f.unsupported g.unsupported

SameFacts-refl : (f : Facts) → SameFacts f f
SameFacts-refl f = record {
  requested = Permᴰ.refl _;
  target_added = Permᴰ.refl _;
  effective = Permᴰ.refl _;
  unsupported = Permᴰ.refl _;
}

SameFacts-trans : {f g h : Facts} → SameFacts f g → SameFacts g h → SameFacts f h
SameFacts-trans p q = record {
  requested = Permᴰ.trans p.requested q.requested;
  target_added = Permᴰ.trans p.target_added q.target_added;
  effective = Permᴰ.trans p.effective q.effective;
  unsupported = Permᴰ.trans p.unsupported q.unsupported;
}

join-SameFacts :
    {f g h k : Facts} → SameFacts f g → SameFacts h k → SameFacts (join_facts f h) (join_facts g k)
unfolding join_facts
join-SameFacts p q = record {
  requested = append_cong p.requested q.requested;
  target_added = append_cong p.target_added q.target_added;
  effective = append_cong p.effective q.effective;
  unsupported = append_cong p.unsupported q.unsupported;
}

join_left_comm :
    (f g h : Facts) → SameFacts (join_facts f (join_facts g h)) (join_facts g (join_facts f h))
unfolding join_facts
join_left_comm f g h = record {
  requested = append_left_comm f.requested g.requested h.requested;
  target_added = append_left_comm f.target_added g.target_added h.target_added;
  effective = append_left_comm f.effective g.effective h.effective;
  unsupported = append_left_comm f.unsupported g.unsupported h.unsupported;
}

facts_of-perm {ℓ} :
    {A : Type ℓ} (each : A → Facts) {xs ys : List A}
    → Permᴰ xs ys
    → SameFacts (facts_of each xs) (facts_of each ys)
unfolding facts_of
facts_of-perm each Permᴰ.nil = SameFacts-refl no_facts
facts_of-perm each (Permᴰ.cons {a = a} e p) =
    rw (← e) (join-SameFacts (SameFacts-refl (each a)) (facts_of-perm each p))
facts_of-perm each (Permᴰ.swap {a = a} {b = b} {l = l} e f) =
    rw (← e, ← f) (join_left_comm (each a) (each b) (facts_of each l))
facts_of-perm each (Permᴰ.trans p q) = SameFacts-trans (facts_of-perm each p) (facts_of-perm each q)

abbrev pub sets {ℓ} : {A : Type ℓ} → Option A → ℕ
sets none = 0
sets (some a) = 1

-- How many of the contributions set a value.
abbrev pub count_set {ℓ} : {A : Type ℓ} → (Contribution → Option A) → List Contribution → ℕ
count_set get [] = 0
count_set get (c ∷ cs) = sets (get c) + count_set get cs

set_or_comm {ℓ} :
    {A : Type ℓ} (before : A) (x y : Option A)
    → sets x + sets y ≤ 1
    → set_or (set_or before x) y ≡ set_or (set_or before y) x
set_or_comm before none y h = refl
set_or_comm before (some a) none h = refl
set_or_comm before (some a) (some b) h = absurd (omega arith)

module _ {ℓ} {A : Type ℓ} (get : Contribution → Option A) where
  count_set-perm : {cs ds : List Contribution} → Permᴰ cs ds → count_set get cs ≡ count_set get ds
  count_set-perm Permᴰ.nil = refl
  count_set-perm (Permᴰ.cons {a = a} e p) = rw (← e) (ap (λ n. sets (get a) + n) (count_set-perm p))
  count_set-perm (Permᴰ.swap e f) = rw (e, f) (omega arith)
  count_set-perm (Permᴰ.trans p q) = count_set-perm p ∙ count_set-perm q

  -- Where at most one of them does, their order does not matter.
  last_set-perm :
      {cs ds : List Contribution} (before : A)
      → Permᴰ cs ds
      → count_set get cs ≤ 1
      → last_set get before cs ≡ last_set get before ds
  unfolding last_set
  last_set-perm before Permᴰ.nil h = refl
  last_set-perm before (Permᴰ.cons {a = a} e p) h =
      rw (← e) (last_set-perm (set_or before (get a)) p (omega arith))
  last_set-perm before (Permᴰ.swap {a = a} {b = b} {l = l} e f) h =
      rw (← e, ← f) (ap (λ x. last_set get x l) (set_or_comm before (get a) (get b) (omega arith)))
  last_set-perm before (Permᴰ.trans p q) h =
      last_set-perm before p h ∙ last_set-perm before q (rw (← count_set-perm p) h)

-- What the program holds of each fact that it explains: the ranges of its integers and of its size.
abbrev pub IsEncodable : Fact → Type 0
IsEncodable f = IsFact f × Small (canonical_fact_encoding f)

pub record AllEncodable (f : Facts) : Type 0 where
  pub requested : All IsEncodable f.requested
  pub target_added : All IsEncodable f.target_added
  pub effective : All IsEncodable f.effective
  pub unsupported : All IsEncodable f.unsupported

fact_key-injective : (x y : Fact) → IsEncodable x → IsEncodable y → fact_key x ≡ fact_key y → x ≡ y
unfolding fact_key
fact_key-injective x y p q e = canonical_fact_encoding-injective x y p.0 q.0 p.1 (ap (λ z. z.1) e)

sort_facts-perm :
    {xs ys : List Fact} → Permᴰ xs ys → All IsEncodable xs → sort_facts xs ≡ sort_facts ys
unfolding sort_facts
sort_facts-perm p h = sort_by-reorder ⦃o = fact_order⦄ fact_key IsEncodable fact_key-injective p h

in_order-SameFacts : (f g : Facts) → SameFacts f g → AllEncodable f → in_order f ≡ in_order g
unfolding in_order
in_order-SameFacts f g p h = cc (
  sort_facts-perm p.requested h.requested,
  sort_facts-perm p.target_added h.target_added,
  sort_facts-perm p.effective h.effective,
  sort_facts-perm p.unsupported h.unsupported,
)

abbrev pub set_ports : List Contribution → ℕ
set_ports cs = count_set (λ c. c.loopback_ports) cs

abbrev pub set_servers : List Contribution → ℕ
set_servers cs = count_set (λ c. c.mcp_servers) cs

same_gathered :
    {cs ds : List Contribution} (access overlay : Bytes) (supplied : Option TargetRequirements)
    → Permᴰ cs ds
    → set_ports cs ≤ 1
    → set_servers cs ≤ 1
    → SameFacts
        (gathered_facts (new cs access overlay supplied))
        (gathered_facts (new ds access overlay supplied))
unfolding gathered_facts new
same_gathered access overlay supplied p ports servers =
    let same_ports = last_set-perm (λ c. c.loopback_ports) [] p ports in
    let same_servers = last_set-perm (λ c. c.mcp_servers) [] p servers in
    rw (same_ports, same_servers)
      (join-SameFacts (SameFacts-refl _) (
        join-SameFacts (facts_of-perm _ (gather-perm (λ c. c.path_grants) p)) (
          join-SameFacts (facts_of-perm _ (gather-perm (λ c. c.path_exclusions) p)) (
            join-SameFacts (facts_of-perm _ (gather-perm (λ c. c.executable_grants) p)) (
              join-SameFacts (facts_of-perm _ (gather-perm (λ c. c.environment) p))
                (join-SameFacts (facts_of-perm (contributed overlay) p) (SameFacts-refl _)))))))

-- The same selection in another order of the contributions has the same explanation, facts and digest
-- alike, where at most one contribution sets the loopback ports, at most one sets the MCP servers, and
-- every fact has 64-bit integers, lists of an MCP server only with its mark, and a slice for its bytes.
pub build_explanation-new_reorder :
    (sum : Bytes → Bytes) {cs ds : List Contribution} (access overlay : Bytes)
    (supplied : Option TargetRequirements)
    → Permᴰ cs ds
    → set_ports cs ≤ 1
    → set_servers cs ≤ 1
    → AllEncodable (gathered_facts (new cs access overlay supplied))
    → build_explanation sum (new cs access overlay supplied)
      ≡ build_explanation sum (new ds access overlay supplied)
unfolding build_explanation new
build_explanation-new_reorder sum {cs} {ds} access overlay supplied p ports servers h =
    let same = in_order-SameFacts _ _ (same_gathered access overlay supplied p ports servers) h in
    ap (with_digest sum overlay (requirements_of overlay supplied).recipe) same
