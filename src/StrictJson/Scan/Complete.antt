-- ===== src/StrictJson/Scan/Complete.antt =====
-- internal/strictjson/scan.go: a value within the limits is read whole, given enough fuel.
use ai_config_selector.StrictJson.Scan.{
  Event, close, Limits, limit_exceeded, exceeds, value, members, items,
}
use ai_config_selector.StrictJson.Scan.Tree.{
  Json, string, atom, object, array, Members, no_members, member, Items, no_items, item, emit,
  emit_members, emit_items, tokens, tokens_of_members, tokens_of_items, count_members, count_items,
  Within, Unnamed, Conforms, MembersConform, ItemsConform,
}
use ai_config_selector.StrictJson.Scan.Checks.{Within-iff, admitted_of, admitted_key_of}
use ai_config_selector.StrictJson.Scan.Steps.{Free}
use ai_config_selector.Prelude.{
  ℕ, zero, suc, ◌+◌, ◌*◌, ◌≤◌, ◌≡◌, refl, ap, ◌∙◌, inl, inr, Bool, List, [], ◌∷◌, ok, ◌>>=◌, ◌>>◌,
  refuse_if, length, subst, arith,
}
use ai_config_selector.Prelude.Bytes.{Bytes, seen, ne→bytes_eq}

-- The fuel that a value takes.
unfoldable mutual
  pub need : Json → ℕ
  need (string t) = 1
  need atom = 1
  need (object ms) = suc (need_members ms)
  need (array is) = suc (need_items is)

  pub need_members : Members → ℕ
  need_members no_members = 1
  need_members (member name v ms) = suc (need v + need_members ms)

  pub need_items : Items → ℕ
  need_items no_items = 1
  need_items (item v is) = suc (need v + need_items is)

-- Twice the number of the tokens is enough.
mutual
  unfolding need emit

  pub need-le :
      (v : Json) (rest : List Event) → suc (need v) + 2 * length rest ≤ 2 * length (emit v rest)
  need-le (string t) rest = omega arith
  need-le atom rest = omega arith
  need-le (object ms) rest = omega (arith, need_members-le ms (close ∷ rest))
  need-le (array is) rest = omega (arith, need_items-le is (close ∷ rest))

  need_members-le :
      (ms : Members) (rest : List Event)
      → need_members ms + 2 * length rest ≤ 2 * length (emit_members ms rest) + 1
  need_members-le no_members rest = omega arith
  need_members-le (member name v ms) rest =
      omega (arith, need-le v (emit_members ms rest), need_members-le ms rest)

  need_items-le :
      (is : Items) (rest : List Event)
      → need_items is + 2 * length rest ≤ 2 * length (emit_items is rest) + 1
  need_items-le no_items rest = omega arith
  need_items-le (item v is) rest =
      omega (arith, need-le v (emit_items is rest), need_items-le is rest)

pub need_whole : (v : Json) → need v ≤ suc (2 * length (emit v []))
need_whole v = omega (arith, need-le v [])

Within-mono : (n m maximum : ℕ) → n ≤ m → Within m maximum → Within n maximum
Within-mono n m maximum le (inl e) = inl e
Within-mono n m maximum le (inr h) = inr (omega arith)

Free-cons :
    (name : Bytes) (met : List Bytes) (ms : Members)
    → Unnamed name ms
    → Free met ms
    → Free (name ∷ met) ms
unfolding seen
Free-cons name met no_members u f = tt
Free-cons name met (member other v ms) u f =
    (rw (ne→bytes_eq name other u.0) f.0, Free-cons name met ms u.1 f.1)

Free-nil : (ms : Members) → Free [] ms
unfolding seen
Free-nil no_members = tt
Free-nil (member name v ms) = (refl, Free-nil ms)

module _ (limits : Limits) (reject_key : Bytes → Bool) where
  -- The loop over the items sees a value, and reads it.
  items-emit :
      (fuel depth count n : ℕ) (v : Json) (rest : List Event)
      → items limits reject_key (suc fuel) depth count n (emit v rest) ≡ (
          refuse_if (exceeds (suc count) limits.max_array) limit_exceeded
          >> (value limits reject_key fuel (suc depth) n (emit v rest) >>= λ r.
              items limits reject_key fuel depth (suc count) r.0 r.1))
  unfolding items emit
  items-emit fuel depth count n (string t) rest = refl
  items-emit fuel depth count n atom rest = refl
  items-emit fuel depth count n (object ms) rest = refl
  items-emit fuel depth count n (array is) rest = refl

  abbrev pub Reads : Json → Type 0
  Reads v =
      (fuel depth n : ℕ) (rest : List Event)
      → Conforms limits reject_key depth v
      → Within (n + tokens v) limits.max_tokens
      → need v ≤ fuel
      → value limits reject_key fuel depth n (emit v rest) ≡ ok (n + tokens v, rest)

  abbrev ReadsMembers : Members → Type 0
  ReadsMembers ms =
      (fuel depth : ℕ) (met : List Bytes) (count n : ℕ) (rest : List Event)
      → MembersConform limits reject_key depth ms
      → Free met ms
      → Within (count + count_members ms) limits.max_members
      → Within (n + tokens_of_members ms) limits.max_tokens
      → need_members ms ≤ fuel
      → members limits reject_key fuel depth met count n (emit_members ms (close ∷ rest))
        ≡ ok (n + tokens_of_members ms, rest)

  abbrev ReadsItems : Items → Type 0
  ReadsItems is =
      (fuel depth count n : ℕ) (rest : List Event)
      → ItemsConform limits reject_key depth is
      → Within (count + count_items is) limits.max_array
      → Within (n + tokens_of_items is) limits.max_tokens
      → need_items is ≤ fuel
      → items limits reject_key fuel depth count n (emit_items is (close ∷ rest))
        ≡ ok (n + tokens_of_items is, rest)

  Reads-string : (t : Bytes) → Reads (string t)
  unfolding value emit tokens Conforms need
  Reads-string t zero depth n rest c w f = absurd (omega arith)
  Reads-string t (suc fuel) depth n rest c w f =
      admitted_of limits reject_key depth (suc n) _ c.0 (Within-mono _ _ _ (omega arith) w)
      ∙ rw ((Within-iff (length t) limits.max_string_bytes).1 c.1)
          (ap (λ m. ok (m, rest)) (omega arith))

  Reads-atom : Reads atom
  unfolding value emit tokens Conforms need
  Reads-atom zero depth n rest c w f = absurd (omega arith)
  Reads-atom (suc fuel) depth n rest c w f =
      admitted_of limits reject_key depth (suc n) _ c (Within-mono _ _ _ (omega arith) w)
      ∙ ap (λ m. ok (m, rest)) (omega arith)

  Reads-object : (ms : Members) → ReadsMembers ms → Reads (object ms)
  unfolding value emit tokens Conforms need
  Reads-object ms of_members zero depth n rest c w f = absurd (omega arith)
  Reads-object ms of_members (suc fuel) depth n rest c w f =
      let (d, few, conform) = c in
      admitted_of limits reject_key depth (suc n) _ d (Within-mono _ _ _ (omega arith) w)
      ∙ of_members fuel depth [] 0 (suc n) rest conform (Free-nil ms)
          (subst (λ m. Within m limits.max_members) (omega arith) few)
          (subst (λ m. Within m limits.max_tokens) (omega arith) w) (omega arith)
      ∙ ap (λ m. ok (m, rest)) (omega arith)

  Reads-array : (is : Items) → ReadsItems is → Reads (array is)
  unfolding value emit tokens Conforms need
  Reads-array is of_items zero depth n rest c w f = absurd (omega arith)
  Reads-array is of_items (suc fuel) depth n rest c w f =
      let (d, few, conform) = c in
      admitted_of limits reject_key depth (suc n) _ d (Within-mono _ _ _ (omega arith) w)
      ∙ of_items fuel depth 0 (suc n) rest conform
          (subst (λ m. Within m limits.max_array) (omega arith) few)
          (subst (λ m. Within m limits.max_tokens) (omega arith) w) (omega arith)
      ∙ ap (λ m. ok (m, rest)) (omega arith)

  Reads-member :
      (name : Bytes) (v : Json) (ms : Members)
      → Reads v
      → ReadsMembers ms
      → ReadsMembers (member name v ms)
  unfolding members emit tokens count_members MembersConform need
  Reads-member name v ms one others zero depth met count n rest c free few w f =
      absurd (omega arith)
  Reads-member name v ms one others (suc fuel) depth met count n rest c free few w f =
      let (short, allowed, unnamed, conforms, conform) = c in
      let first =
        one fuel (suc depth) (suc n) (emit_members ms (close ∷ rest)) conforms
          (Within-mono _ _ _ (omega arith) w) (omega arith) in
      admitted_key_of limits reject_key met (suc count) (suc n) name _
        (Within-mono _ _ _ (omega arith) w) short (Within-mono _ _ _ (omega arith) few) free.0
        allowed
      ∙ ap (λ r. r >>= λ r. members limits reject_key fuel depth (name ∷ met) (suc count) r.0 r.1)
          first
      ∙ others fuel depth (name ∷ met) (suc count) (suc n + tokens v) rest conform
          (Free-cons name met ms unnamed free.1)
          (subst (λ m. Within m limits.max_members) (omega arith) few)
          (subst (λ m. Within m limits.max_tokens) (omega arith) w) (omega arith)
      ∙ ap (λ m. ok (m, rest)) (omega arith)

  Reads-item : (v : Json) (is : Items) → Reads v → ReadsItems is → ReadsItems (item v is)
  unfolding emit tokens count_items ItemsConform need
  Reads-item v is one others zero depth count n rest c few w f = absurd (omega arith)
  Reads-item v is one others (suc fuel) depth count n rest c few w f =
      let behind = emit_items is (close ∷ rest) in
      let first =
        one fuel (suc depth) n behind c.0 (Within-mono _ _ _ (omega arith) w) (omega arith) in
      items-emit fuel depth count n v behind
      ∙ rw ((Within-iff (suc count) limits.max_array).1 (Within-mono _ _ _ (omega arith) few)) refl
      ∙ ap (λ r. r >>= λ r. items limits reject_key fuel depth (suc count) r.0 r.1) first
      ∙ others fuel depth (suc count) (n + tokens v) rest c.1
          (subst (λ m. Within m limits.max_array) (omega arith) few)
          (subst (λ m. Within m limits.max_tokens) (omega arith) w) (omega arith)
      ∙ ap (λ m. ok (m, rest)) (omega arith)

  reads_no_members : ReadsMembers no_members
  unfolding members emit tokens need
  reads_no_members zero depth met count n rest c free few w f = absurd (omega arith)
  reads_no_members (suc fuel) depth met count n rest c free few w f =
      ap (λ m. ok (m, rest)) (omega arith)

  reads_no_items : ReadsItems no_items
  unfolding items emit tokens need
  reads_no_items zero depth count n rest c few w f = absurd (omega arith)
  reads_no_items (suc fuel) depth count n rest c few w f = ap (λ m. ok (m, rest)) (omega arith)

  mutual
    pub reads : (v : Json) → Reads v
    reads (string t) = Reads-string t
    reads atom = Reads-atom
    reads (object ms) = Reads-object ms (reads_members ms)
    reads (array is) = Reads-array is (reads_items is)

    reads_members : (ms : Members) → ReadsMembers ms
    reads_members no_members = reads_no_members
    reads_members (member name v ms) = Reads-member name v ms (reads v) (reads_members ms)

    reads_items : (is : Items) → ReadsItems is
    reads_items no_items = reads_no_items
    reads_items (item v is) = Reads-item v is (reads v) (reads_items is)
