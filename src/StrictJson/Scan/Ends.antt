-- ===== src/StrictJson/Scan/Ends.antt =====
-- internal/strictjson/scan.go: the scanner ends, since every value takes a token.
use ai_config_selector.StrictJson.Scan.{
  Event, text, scalar, open_object, open_array, close, broken, Limits, ScanError, limit_exceeded,
  duplicate_key, rejected_key, exhausted, exceeds, admitted, admitted_key, value, members, items,
  at_end, scan,
}
use ai_config_selector.StrictJson.Scan.Tree.{Json, string, atom, object, array}
use ai_config_selector.StrictJson.Scan.Sound.{sound}
use ai_config_selector.StrictJson.Scan.Complete.{need, need-le}
use ai_config_selector.Prelude.{
  ℕ, zero, suc, ◌+◌, ◌*◌, ◌≤◌, ◌<◌, ◌≡◌, ◌≢◌, refl, ap, Bool, true, false, ltb, List, [], ◌∷◌,
  Result, ok, err, ◌>>=◌, ◌>>◌, refuse_if, length, arith,
}
use ai_config_selector.Prelude.Bytes.{Bytes, seen}

need_pos : (v : Json) → 1 ≤ need v
unfolding need
need_pos (string t) = omega arith
need_pos atom = omega arith
need_pos (object ms) = omega arith
need_pos (array is) = omega arith

passed {ℓ} :
    {B : Type ℓ} (t : Bool) (e : ScanError) (k : Result ScanError B)
    → e ≢ exhausted
    → k ≢ err exhausted
    → (refuse_if t e >> k) ≢ err exhausted
passed true e k ne h x = ne (cc)
passed false e k ne h x = h x

limit-ne : limit_exceeded ≢ exhausted
limit-ne e = cc

-- A chain runs out where its first step does or the rest does.
bind-ne {ℓ} :
    {A : Type 0} {B : Type ℓ} (m : Result ScanError A) (f : A → Result ScanError B)
    → m ≢ err exhausted
    → ((a : A) → m ≡ ok a → f a ≢ err exhausted)
    → (m >>= f) ≢ err exhausted
bind-ne (err e) f h g x = h (cc)
bind-ne (ok a) f h g x = g a refl x

module _ (limits : Limits) (reject_key : Bytes → Bool) where
  admitted-ne : (depth n : ℕ) → admitted limits reject_key depth n ≢ err exhausted
  admitted-ne depth n =
      passed (ltb limits.max_depth depth) limit_exceeded _ limit-ne
        (refusal-ne (exceeds n limits.max_tokens) limit_exceeded limit-ne)
    where
      refusal-ne : (t : Bool) (e : ScanError) → e ≢ exhausted → refuse_if t e ≢ err exhausted
      refusal-ne true e ne x = ne (cc)
      refusal-ne false e ne x = cc

  admitted_key-ne :
      (met : List Bytes) (count n : ℕ) (name : Bytes)
      → admitted_key limits reject_key met count n name ≢ err exhausted
  admitted_key-ne met count n name = passed _ limit_exceeded _ limit-ne (
      passed (seen met name) duplicate_key _ (λ e. cc)
        (refusal-ne (reject_key name) rejected_key (λ e. cc)))
    where
      refusal-ne : (t : Bool) (e : ScanError) → e ≢ exhausted → refuse_if t e ≢ err exhausted
      refusal-ne true e ne x = ne (cc)
      refusal-ne false e ne x = cc

  value_shorter :
      (fuel depth n : ℕ) (events : List Event) (r : ℕ × List Event)
      → value limits reject_key fuel depth n events ≡ ok r
      → length r.1 < length events
  value_shorter fuel depth n events r h =
      let v = (sound limits reject_key fuel).0 depth n events r.0 r.1 h in
      omega (arith, need-le v.read r.1, need_pos v.read, ap length v.emitted)

  abbrev EndsValue : ℕ → Type 0
  EndsValue fuel =
      (depth n : ℕ) (events : List Event)
      → suc (2 * length events) ≤ fuel
      → value limits reject_key fuel depth n events ≢ err exhausted

  abbrev EndsMembers : ℕ → Type 0
  EndsMembers fuel =
      (depth : ℕ) (met : List Bytes) (count n : ℕ) (events : List Event)
      → 2 + 2 * length events ≤ fuel
      → members limits reject_key fuel depth met count n events ≢ err exhausted

  abbrev EndsItems : ℕ → Type 0
  EndsItems fuel =
      (depth count n : ℕ) (events : List Event)
      → 2 + 2 * length events ≤ fuel
      → items limits reject_key fuel depth count n events ≢ err exhausted

  value_ends : (fuel : ℕ) → EndsMembers fuel → EndsItems fuel → EndsValue (suc fuel)
  unfolding value
  value_ends fuel ms is depth n [] f =
      passed (ltb limits.max_depth depth) limit_exceeded _ limit-ne (λ x. cc)
  value_ends fuel ms is depth n (broken c ∷ events) f =
      passed (ltb limits.max_depth depth) limit_exceeded _ limit-ne (λ x. cc)
  value_ends fuel ms is depth n (close ∷ events) f =
      bind-ne (admitted limits reject_key depth (suc n)) _ (admitted-ne depth (suc n)) (λ a e x. cc)
  value_ends fuel ms is depth n (scalar ∷ events) f =
      bind-ne (admitted limits reject_key depth (suc n)) _ (admitted-ne depth (suc n)) (λ a e x. cc)
  value_ends fuel ms is depth n (text t ∷ events) f =
      bind-ne (admitted limits reject_key depth (suc n)) _ (admitted-ne depth (suc n)) (λ a e.
        passed (exceeds (length t) limits.max_string_bytes) limit_exceeded _ limit-ne (λ x. cc))
  value_ends fuel ms is depth n (open_object ∷ events) f =
      bind-ne (admitted limits reject_key depth (suc n)) _ (admitted-ne depth (suc n))
        (λ a e. ms depth [] 0 (suc n) events (omega arith))
  value_ends fuel ms is depth n (open_array ∷ events) f =
      bind-ne (admitted limits reject_key depth (suc n)) _ (admitted-ne depth (suc n))
        (λ a e. is depth 0 (suc n) events (omega arith))

  members_end : (fuel : ℕ) → EndsValue fuel → EndsMembers fuel → EndsMembers (suc fuel)
  unfolding members
  members_end fuel one ms depth met count n (close ∷ events) f x = cc
  members_end fuel one ms depth met count n (text name ∷ events) f x =
      bind-ne (admitted_key limits reject_key met (suc count) (suc n) name) _
        (admitted_key-ne met (suc count) (suc n) name)
        (λ a e.
          bind-ne (value limits reject_key fuel (suc depth) (suc n) events) _
            (one (suc depth) (suc n) events (omega arith))
            (λ r first.
              ms depth (name ∷ met) (suc count) r.0 r.1
                (omega (arith, value_shorter fuel (suc depth) (suc n) events r first))))
        x
  members_end fuel one ms depth met count n [] f x = cc
  members_end fuel one ms depth met count n (scalar ∷ events) f x = cc
  members_end fuel one ms depth met count n (open_object ∷ events) f x = cc
  members_end fuel one ms depth met count n (open_array ∷ events) f x = cc
  members_end fuel one ms depth met count n (broken c ∷ events) f x = cc

  item_ends :
      (fuel : ℕ)
      → EndsValue fuel
      → EndsItems fuel
      → (depth count n : ℕ) (events : List Event) → suc (2 * length events) ≤ fuel
      → (refuse_if (exceeds (suc count) limits.max_array) limit_exceeded
          >> (value limits reject_key fuel (suc depth) n events >>= λ r.
              items limits reject_key fuel depth (suc count) r.0 r.1))
        ≢ err exhausted
  item_ends fuel one is depth count n events f =
      passed (exceeds (suc count) limits.max_array) limit_exceeded _ limit-ne (
        bind-ne (value limits reject_key fuel (suc depth) n events) _ (one (suc depth) n events f)
          (λ r first.
            is depth (suc count) r.0 r.1
              (omega (arith, value_shorter fuel (suc depth) n events r first))))

  items_end : (fuel : ℕ) → EndsValue fuel → EndsItems fuel → EndsItems (suc fuel)
  unfolding items
  items_end fuel one is depth count n [] f x = cc
  items_end fuel one is depth count n (close ∷ events) f x = cc
  items_end fuel one is depth count n (broken true ∷ events) f x = cc
  items_end fuel one is depth count n (broken false ∷ events) f x =
      item_ends fuel one is depth count n _ (omega arith) x
  items_end fuel one is depth count n (text t ∷ events) f x =
      item_ends fuel one is depth count n _ (omega arith) x
  items_end fuel one is depth count n (scalar ∷ events) f x =
      item_ends fuel one is depth count n _ (omega arith) x
  items_end fuel one is depth count n (open_object ∷ events) f x =
      item_ends fuel one is depth count n _ (omega arith) x
  items_end fuel one is depth count n (open_array ∷ events) f x =
      item_ends fuel one is depth count n _ (omega arith) x

  ends : (fuel : ℕ) → EndsValue fuel × EndsMembers fuel × EndsItems fuel
  ends zero = (
    λ depth n events f. absurd (omega arith),
    λ depth met count n events f. absurd (omega arith),
    λ depth count n events f. absurd (omega arith),
  )
  ends (suc fuel) =
      let (one, ms, is) = ends fuel in
      (value_ends fuel ms is, members_end fuel one ms, items_end fuel one is)

-- Scan ends on every sequence of tokens: the fuel that it is given, one more than twice their number, is
-- never used up, whatever the limits and the rejected keys.
pub scan_ends :
    (limits : Limits) (reject_key : Bytes → Bool) (events : List Event)
    → scan limits reject_key events ≢ err exhausted
unfolding scan
scan_ends limits reject_key events =
    let fuel = suc (2 * length events) in
    bind-ne (value limits reject_key fuel 0 0 events) _
      ((ends limits reject_key fuel).0 0 0 events (omega arith)) (λ r first. last r)
  where
    last : (r : ℕ × List Event) → at_end limits reject_key r ≢ err exhausted
    last (n, []) x = cc
    last (n, e ∷ es) x = cc
