-- ===== src/StrictJson/Scan/Steps.antt =====
-- internal/strictjson/scan.go: what each token adds to the values that the scanner has read.
use ai_config_selector.StrictJson.Scan.{Event, text, scalar, open_object, open_array, close, Limits}
use ai_config_selector.StrictJson.Scan.Tree.{
  Json, string, atom, object, array, Members, no_members, member, Items, no_items, item, emit,
  emit_members, emit_items, tokens, tokens_of_members, tokens_of_items, count_members, count_items,
  Within, Unnamed, Conforms, MembersConform, ItemsConform,
}
use ai_config_selector.Prelude.{
  ℕ, suc, ◌+◌, ◌≤◌, ◌≡◌, refl, ap, ◌∙◌, Bool, false, List, [], ◌∷◌, length, ||_elim_false, subst,
  arith,
}
use ai_config_selector.Prelude.Bytes.{Bytes, seen, bytes_eq, bytes_eq→ne}

-- None of the names was met before.
abbrev pub Free : List Bytes → Members → Type 0
Free met no_members = Unit
Free met (member name v ms) = (seen met name ≡ false) × Free met ms

pub Free-uncons :
    (name : Bytes) (met : List Bytes) (ms : Members)
    → Free (name ∷ met) ms
    → Unnamed name ms × Free met ms
unfolding seen
Free-uncons name met no_members h = (tt, tt)
Free-uncons name met (member other v ms) h =
    let (a, b) = ||_elim_false (bytes_eq name other) (seen met other) h.0 in
    let (u, f) = Free-uncons name met ms h.1 in ((bytes_eq→ne name other a, u), (b, f))

module _ (limits : Limits) (reject_key : Bytes → Bool) where
  pub record IsRead (depth n : ℕ) (events : List Event) (n' : ℕ) (rest : List Event) : Type 0 where
    pub read : Json
    pub emitted : events ≡ emit read rest
    pub counted : n' ≡ n + tokens read
    pub conforms : Conforms limits reject_key depth read
    pub within : Within n' limits.max_tokens

  pub record AreRead (depth : ℕ) (met : List Bytes) (count n : ℕ) (events : List Event) (n' : ℕ)
      (rest : List Event) : Type 0 where
    pub read : Members
    pub emitted : events ≡ emit_members read (close ∷ rest)
    pub counted : n' ≡ n + tokens_of_members read
    pub conforms : MembersConform limits reject_key depth read
    pub free : Free met read
    pub few : Within (count + count_members read) limits.max_members
    pub within : Within n' limits.max_tokens

  pub record ItemsRead (depth count n : ℕ) (events : List Event) (n' : ℕ) (rest : List Event)
      : Type 0 where
    pub read : Items
    pub emitted : events ≡ emit_items read (close ∷ rest)
    pub counted : n' ≡ n + tokens_of_items read
    pub conforms : ItemsConform limits reject_key depth read
    pub few : Within (count + count_items read) limits.max_array
    pub within : Within n' limits.max_tokens

  -- The steps, over what the calls on the rest of the tokens read.
  pub object_step :
      (depth n : ℕ) (events : List Event) (n' : ℕ) (rest : List Event)
      → depth ≤ limits.max_depth
      → AreRead depth [] 0 (suc n) events n' rest
      → IsRead depth n (open_object ∷ events) n' rest
  unfolding emit tokens Conforms
  object_step depth n events n' rest d r = record {
    read = object r.read;
    emitted = ap (◌∷◌ open_object) r.emitted;
    counted = omega (arith, r.counted);
    conforms = (d, subst (λ m. Within m limits.max_members) (omega arith) r.few, r.conforms);
    within = r.within;
  }

  pub array_step :
      (depth n : ℕ) (events : List Event) (n' : ℕ) (rest : List Event)
      → depth ≤ limits.max_depth
      → ItemsRead depth 0 (suc n) events n' rest
      → IsRead depth n (open_array ∷ events) n' rest
  unfolding emit tokens Conforms
  array_step depth n events n' rest d r = record {
    read = array r.read;
    emitted = ap (◌∷◌ open_array) r.emitted;
    counted = omega (arith, r.counted);
    conforms = (d, subst (λ m. Within m limits.max_array) (omega arith) r.few, r.conforms);
    within = r.within;
  }

  pub member_step :
      (depth : ℕ) (met : List Bytes) (count n : ℕ) (name : Bytes) (events : List Event) (n₁ : ℕ)
      (events₁ : List Event) (n' : ℕ) (rest : List Event)
      → Within (length name) limits.max_string_bytes
      → seen met name ≡ false
      → reject_key name ≡ false
      → IsRead (suc depth) (suc n) events n₁ events₁
      → AreRead depth (name ∷ met) (suc count) n₁ events₁ n' rest
      → AreRead depth met count n (text name ∷ events) n' rest
  unfolding emit tokens count_members MembersConform
  member_step depth met count n name events n₁ events₁ n' rest short new allowed v r =
      let (unnamed, free) = Free-uncons name met r.read r.free in
      record {
        read = member name v.read r.read;
        emitted = ap (◌∷◌ (text name)) (v.emitted ∙ ap (emit v.read) r.emitted);
        counted = omega (arith, r.counted, v.counted);
        conforms = (short, allowed, unnamed, v.conforms, r.conforms);
        free = (new, free);
        few = subst (λ m. Within m limits.max_members) (omega arith) r.few;
        within = r.within;
      }

  pub item_step :
      (depth count n : ℕ) (events : List Event) (n₁ : ℕ) (events₁ : List Event) (n' : ℕ)
      (rest : List Event)
      → IsRead (suc depth) n events n₁ events₁
      → ItemsRead depth (suc count) n₁ events₁ n' rest
      → ItemsRead depth count n events n' rest
  unfolding emit tokens count_items ItemsConform
  item_step depth count n events n₁ events₁ n' rest v r = record {
    read = item v.read r.read;
    emitted = v.emitted ∙ ap (emit v.read) r.emitted;
    counted = omega (arith, r.counted, v.counted);
    conforms = (v.conforms, r.conforms);
    few = subst (λ m. Within m limits.max_array) (omega arith) r.few;
    within = r.within;
  }

  pub scalar_step :
      (depth n : ℕ) (rest : List Event)
      → depth ≤ limits.max_depth
      → Within (suc n) limits.max_tokens
      → IsRead depth n (scalar ∷ rest) (suc n) rest
  unfolding emit tokens Conforms
  scalar_step depth n rest d w = record {
    read = atom;
    emitted = refl;
    counted = omega arith;
    conforms = d;
    within = w;
  }

  pub text_step :
      (depth n : ℕ) (t : Bytes) (rest : List Event)
      → depth ≤ limits.max_depth
      → Within (length t) limits.max_string_bytes
      → Within (suc n) limits.max_tokens
      → IsRead depth n (text t ∷ rest) (suc n) rest
  unfolding emit tokens Conforms
  text_step depth n t rest d short w = record {
    read = string t;
    emitted = refl;
    counted = omega arith;
    conforms = (d, short);
    within = w;
  }

  pub done_members :
      (depth : ℕ) (met : List Bytes) (count n : ℕ) (rest : List Event)
      → Within count limits.max_members
      → Within n limits.max_tokens
      → AreRead depth met count n (close ∷ rest) n rest
  unfolding emit tokens count_members MembersConform
  done_members depth met count n rest few w = record {
    read = no_members;
    emitted = refl;
    counted = omega arith;
    conforms = tt;
    free = tt;
    few = subst (λ m. Within m limits.max_members) (omega arith) few;
    within = w;
  }

  pub done_items :
      (depth count n : ℕ) (rest : List Event)
      → Within count limits.max_array
      → Within n limits.max_tokens
      → ItemsRead depth count n (close ∷ rest) n rest
  unfolding emit tokens count_items ItemsConform
  done_items depth count n rest few w = record {
    read = no_items;
    emitted = refl;
    counted = omega arith;
    conforms = tt;
    few = subst (λ m. Within m limits.max_array) (omega arith) few;
    within = w;
  }
