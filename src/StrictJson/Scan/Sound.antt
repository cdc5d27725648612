-- ===== src/StrictJson/Scan/Sound.antt =====
-- internal/strictjson/scan.go: the tokens that the scanner reads are those of one value within the limits.
use ai_config_selector.StrictJson.Scan.{
  Event, text, scalar, open_object, open_array, close, broken, Limits, bad_syntax, limit_exceeded,
  exceeds, value, members, items,
}
use ai_config_selector.StrictJson.Scan.Tree.{Within}
use ai_config_selector.StrictJson.Scan.Checks.{Within-iff, admitted-parts, admitted_key-parts}
use ai_config_selector.Prelude.{
  ℕ, zero, suc, ◌≡◌, ap, inr, Bool, true, false, List, [], ◌∷◌, ok, err, ◌>>=◌, ◌>>◌, refuse_if,
  ltb, ok-injective, refuse_if-parts, >>=-parts, length, arith,
}
use ai_config_selector.Prelude.Bytes.{Bytes}
use ai_config_selector.StrictJson.Scan.Steps.{
  IsRead, AreRead, ItemsRead, object_step, array_step, member_step, item_step, scalar_step,
  text_step, done_members, done_items,
}

module _ (limits : Limits) (reject_key : Bytes → Bool) where
  abbrev pub SoundValue : ℕ → Type 0
  SoundValue fuel =
      (depth n : ℕ) (events : List Event) (n' : ℕ) (rest : List Event)
      → value limits reject_key fuel depth n events ≡ ok (n', rest)
      → IsRead limits reject_key depth n events n' rest

  abbrev pub SoundMembers : ℕ → Type 0
  SoundMembers fuel =
      (depth : ℕ) (met : List Bytes) (count n : ℕ) (events : List Event) (n' : ℕ)
      (rest : List Event)
      → Within count limits.max_members
      → Within n limits.max_tokens
      → members limits reject_key fuel depth met count n events ≡ ok (n', rest)
      → AreRead limits reject_key depth met count n events n' rest

  abbrev pub SoundItems : ℕ → Type 0
  SoundItems fuel =
      (depth count n : ℕ) (events : List Event) (n' : ℕ) (rest : List Event)
      → Within count limits.max_array
      → Within n limits.max_tokens
      → items limits reject_key fuel depth count n events ≡ ok (n', rest)
      → ItemsRead limits reject_key depth count n events n' rest

  not_read {ℓ} :
      {C : Type ℓ} (t : Bool) {r : ℕ × List Event}
      → (refuse_if t limit_exceeded >> err bad_syntax) ≡ ok r
      → C
  not_read true h = cc
  not_read false h = cc

  value_sound : (fuel : ℕ) → SoundMembers fuel → SoundItems fuel → SoundValue (suc fuel)
  unfolding value
  value_sound fuel of_members of_items depth n [] n' rest h =
      not_read (ltb limits.max_depth depth) h
  value_sound fuel of_members of_items depth n (broken c ∷ events) n' rest h =
      not_read (ltb limits.max_depth depth) h
  value_sound fuel of_members of_items depth n (close ∷ events) n' rest h =
      let (d, w, e) = admitted-parts limits reject_key depth (suc n) (err bad_syntax) h in cc
  value_sound fuel of_members of_items depth n (scalar ∷ events) n' rest h =
      let (d, w, e) = admitted-parts limits reject_key depth (suc n) (ok (suc n, events)) h in
      rw (← ap (λ r. r.0) (ok-injective e), ← ap (λ r. r.1) (ok-injective e))
        (scalar_step limits reject_key depth n events d w)
  value_sound fuel of_members of_items depth n (text t ∷ events) n' rest h =
      let (d, w, e) = admitted-parts limits reject_key depth (suc n) _ h in
      let (short, f) =
        refuse_if-parts (exceeds (length t) limits.max_string_bytes) limit_exceeded
          (ok (suc n, events)) e in
      rw (← ap (λ r. r.0) (ok-injective f), ← ap (λ r. r.1) (ok-injective f))
        (text_step limits reject_key depth n t events d
          ((Within-iff (length t) limits.max_string_bytes).0 short) w)
  value_sound fuel of_members of_items depth n (open_object ∷ events) n' rest h =
      let (d, w, e) = admitted-parts limits reject_key depth (suc n) _ h in
      object_step limits reject_key depth n events n' rest d
        (of_members depth [] 0 (suc n) events n' rest (inr (omega arith)) w e)
  value_sound fuel of_members of_items depth n (open_array ∷ events) n' rest h =
      let (d, w, e) = admitted-parts limits reject_key depth (suc n) _ h in
      array_step limits reject_key depth n events n' rest d
        (of_items depth 0 (suc n) events n' rest (inr (omega arith)) w e)

  members_sound : (fuel : ℕ) → SoundValue fuel → SoundMembers fuel → SoundMembers (suc fuel)
  unfolding members
  members_sound fuel of_value of_members depth met count n (close ∷ events) n' rest few w h =
      rw (← ap (λ r. r.0) (ok-injective h), ← ap (λ r. r.1) (ok-injective h))
        (done_members limits reject_key depth met count n events few w)
  members_sound fuel of_value of_members depth met count n (text name ∷ events) n' rest few w h =
      let (counted, short, fewer, new, allowed, e) =
        admitted_key-parts limits reject_key met (suc count) (suc n) name _ h in
      let (r, first, others) =
        >>=-parts (value limits reject_key fuel (suc depth) (suc n) events) _ e in
      let v = of_value (suc depth) (suc n) events r.0 r.1 first in
      member_step limits reject_key depth met count n name events r.0 r.1 n' rest short new allowed
        v (of_members depth (name ∷ met) (suc count) r.0 r.1 n' rest fewer v.within others)
  members_sound fuel of_value of_members depth met count n [] n' rest few w h = cc
  members_sound fuel of_value of_members depth met count n (scalar ∷ events) n' rest few w h = cc
  members_sound fuel of_value of_members depth met count n (open_object ∷ events) n' rest few w h =
      cc
  members_sound fuel of_value of_members depth met count n (open_array ∷ events) n' rest few w h =
      cc
  members_sound fuel of_value of_members depth met count n (broken c ∷ events) n' rest few w h = cc

  item_sound :
      (fuel : ℕ)
      → SoundValue fuel
      → SoundItems fuel
      → (depth count n : ℕ) (events : List Event) (n' : ℕ) (rest : List Event)
      → (refuse_if (exceeds (suc count) limits.max_array) limit_exceeded
          >> (value limits reject_key fuel (suc depth) n events >>= λ r.
              items limits reject_key fuel depth (suc count) r.0 r.1))
        ≡ ok (n', rest)
      → ItemsRead limits reject_key depth count n events n' rest
  item_sound fuel of_value of_items depth count n events n' rest h =
      let (fewer, e) = refuse_if-parts (exceeds (suc count) limits.max_array) limit_exceeded _ h in
      let (r, first, others) = >>=-parts (value limits reject_key fuel (suc depth) n events) _ e in
      let v = of_value (suc depth) n events r.0 r.1 first in
      item_step limits reject_key depth count n events r.0 r.1 n' rest v (
        of_items depth (suc count) r.0 r.1 n' rest
          ((Within-iff (suc count) limits.max_array).0 fewer) v.within others)

  items_sound : (fuel : ℕ) → SoundValue fuel → SoundItems fuel → SoundItems (suc fuel)
  unfolding items
  items_sound fuel of_value of_items depth count n [] n' rest few w h = cc
  items_sound fuel of_value of_items depth count n (close ∷ events) n' rest few w h =
      rw (← ap (λ r. r.0) (ok-injective h), ← ap (λ r. r.1) (ok-injective h))
        (done_items limits reject_key depth count n events few w)
  items_sound fuel of_value of_items depth count n (broken true ∷ events) n' rest few w h = cc
  items_sound fuel of_value of_items depth count n (broken false ∷ events) n' rest few w h =
      item_sound fuel of_value of_items depth count n _ n' rest h
  items_sound fuel of_value of_items depth count n (text t ∷ events) n' rest few w h =
      item_sound fuel of_value of_items depth count n _ n' rest h
  items_sound fuel of_value of_items depth count n (scalar ∷ events) n' rest few w h =
      item_sound fuel of_value of_items depth count n _ n' rest h
  items_sound fuel of_value of_items depth count n (open_object ∷ events) n' rest few w h =
      item_sound fuel of_value of_items depth count n _ n' rest h
  items_sound fuel of_value of_items depth count n (open_array ∷ events) n' rest few w h =
      item_sound fuel of_value of_items depth count n _ n' rest h

  -- Whatever the fuel, what is read is one value within the limits.
  pub sound : (fuel : ℕ) → SoundValue fuel × SoundMembers fuel × SoundItems fuel
  unfolding value
  sound zero = (
    λ depth n events n' rest h. cc,
    λ depth met count n events n' rest few w h. cc,
    λ depth count n events n' rest few w h. cc,
  )
  sound (suc fuel) =
      let (of_value, of_members, of_items) = sound fuel in
      (
        value_sound fuel of_members of_items,
        members_sound fuel of_value of_members,
        items_sound fuel of_value of_items,
      )
