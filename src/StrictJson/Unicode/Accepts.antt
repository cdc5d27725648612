-- ===== src/StrictJson/Unicode/Accepts.antt =====
-- internal/strictjson/unicode.go: the loop accepts exactly the texts of the grammar of escapes.
use ai_config_selector.Prelude.{
  ℕ, zero, suc, ◌≤◌, ◌==◌, true, false, ◌≡◌, ◌≢◌, ◌↔◌, ◌&&◌, inl, inr, refl, sym, ◌∙◌, Option, none,
  some, [], ◌∷◌, length, arith, Bool-cases, Option-cases, &&_elim, ==_iff, subst,
}
use ai_config_selector.Prelude.Bytes.{Bytes}
use ai_config_selector.Text.{valid_string}
use ai_config_selector.StrictJson.Unicode.{
  hex4, is_high, is_low, low_value, low_follows, escape_width, scan_escapes, valid_unicode,
}
use ai_config_selector.StrictJson.Unicode.Grammar.{
  IsEscaped, done, lone, plain, short, unit, pair, scan_step, width_plain, width_short, width_unit,
  width_pair, IsEscaped-scan,
}

-- The loop behind a backslash.
width_known :
    (cs : Bytes)
    → scan_escapes 0 (b'\\' ∷ cs) ≡ true
    → (k : ℕ) × (escape_width cs ≡ some k) × (scan_escapes k cs ≡ true)
unfolding scan_escapes
width_known cs h = go (escape_width cs) refl h
  where
    go :
        (o : Option ℕ)
        → escape_width cs ≡ o
        → elim o [ none ↦ false | some n ↦ scan_escapes n cs ] ≡ true
        → (k : ℕ) × (escape_width cs ≡ some k) × (scan_escapes k cs ≡ true)
    go none e h = absurd (cc h)
    go (some k) e h = (k, e, h)

-- The bytes of the low half of a pair.
record LowHalf (r : Bytes) : Type 0 where
  e : ℕ
  f : ℕ
  g : ℕ
  h : ℕ
  w : ℕ
  rest : Bytes
  shape : r ≡ b'\\' ∷ b'u' ∷ e ∷ f ∷ g ∷ h ∷ rest
  value : hex4 e f g h ≡ some w
  low : is_low w ≡ true

low_value-some : (o : Option ℕ) → low_value o ≡ true → (w : ℕ) × (o ≡ some w) × (is_low w ≡ true)
low_value-some none h = absurd (cc h)
low_value-some (some w) h = (w, refl, h)

low_follows-LowHalf : (r : Bytes) → low_follows r ≡ true → LowHalf r
unfolding low_follows
low_follows-LowHalf [] h = absurd (cc h)
low_follows-LowHalf (s ∷ []) h = absurd (cc h)
low_follows-LowHalf (s ∷ u ∷ []) h = absurd (cc h)
low_follows-LowHalf (s ∷ u ∷ a ∷ []) h = absurd (cc h)
low_follows-LowHalf (s ∷ u ∷ a ∷ b ∷ []) h = absurd (cc h)
low_follows-LowHalf (s ∷ u ∷ a ∷ b ∷ c ∷ []) h = absurd (cc h)
low_follows-LowHalf (s ∷ u ∷ a ∷ b ∷ c ∷ d ∷ r) h =
    let (su, l) = &&_elim (s == b'\\' && u == b'u') (low_value (hex4 a b c d)) h in
    let (x, y) = &&_elim (s == b'\\') (u == b'u') su in
    let (w, v, m) = low_value-some (hex4 a b c d) l in
    record {
      e = a;
      f = b;
      g = c;
      h = d;
      w = w;
      rest = r;
      shape = cc ((==_iff s b'\\').0 x, (==_iff u b'u').0 y);
      value = v;
      low = m;
    }

Recursive : ℕ → Type 0
Recursive n = (r : Bytes) → length r ≤ n → scan_escapes 0 r ≡ true → IsEscaped r

skip_unit-scan :
    (k u a b c d : ℕ) (r : Bytes)
    → scan_escapes k (u ∷ a ∷ b ∷ c ∷ d ∷ r) ≡ true
    → 5 ≡ k
    → scan_escapes 0 r ≡ true
unfolding scan_escapes
skip_unit-scan k u a b c d r h q =
    subst (λ j. scan_escapes j (u ∷ a ∷ b ∷ c ∷ d ∷ r) ≡ true) (sym q) h

skip_pair-scan :
    (k u a b c d s t e f g h : ℕ) (r : Bytes)
    → scan_escapes k (u ∷ a ∷ b ∷ c ∷ d ∷ s ∷ t ∷ e ∷ f ∷ g ∷ h ∷ r) ≡ true
    → 11 ≡ k
    → scan_escapes 0 r ≡ true
unfolding scan_escapes
skip_pair-scan k u a b c d s t e f g h r m q =
    subst (λ j. scan_escapes j (u ∷ a ∷ b ∷ c ∷ d ∷ s ∷ t ∷ e ∷ f ∷ g ∷ h ∷ r) ≡ true) (sym q) m

pair_case :
    (n k a b c d v : ℕ) (r : Bytes)
    → Recursive n
    → length (a ∷ b ∷ c ∷ d ∷ r) ≤ n
    → escape_width (b'u' ∷ a ∷ b ∷ c ∷ d ∷ r) ≡ some k
    → scan_escapes k (b'u' ∷ a ∷ b ∷ c ∷ d ∷ r) ≡ true
    → hex4 a b c d ≡ some v
    → is_high v ≡ true
    → LowHalf r
    → IsEscaped (b'\\' ∷ b'u' ∷ a ∷ b ∷ c ∷ d ∷ r)
unfolding Recursive
pair_case n k a b c d v r rec l e h x z p =
    let q = p.shape in
    let whole : Bytes → Bytes = λ t. b'u' ∷ a ∷ b ∷ c ∷ d ∷ t in
    let e₁ = subst (λ t. escape_width (whole t) ≡ some k) q e in
    let h₁ = subst (λ t. scan_escapes k (whole t) ≡ true) q h in
    let l₁ = subst (λ t. length (a ∷ b ∷ c ∷ d ∷ t) ≤ n) q l in
    let width = width_pair a b c d v p.e p.f p.g p.h p.w p.rest x z p.value p.low in
    subst (λ t. IsEscaped (b'\\' ∷ whole t)) (sym q)
      (pair x z p.value p.low (
        rec p.rest (ground arith) (
          skip_pair-scan k b'u' a b c d b'\\' b'u' p.e p.f p.g p.h p.rest h₁
            (cc (sym width ∙ e₁)))))

unit-IsEscaped :
    (n k : ℕ) (rest : Bytes)
    → Recursive n
    → length rest ≤ n
    → escape_width (b'u' ∷ rest) ≡ some k
    → scan_escapes k (b'u' ∷ rest) ≡ true
    → IsEscaped (b'\\' ∷ b'u' ∷ rest)
unfolding escape_width Recursive
unit-IsEscaped n k [] rec l e h = absurd (cc e)
unit-IsEscaped n k (a ∷ []) rec l e h = absurd (cc e)
unit-IsEscaped n k (a ∷ b ∷ []) rec l e h = absurd (cc e)
unit-IsEscaped n k (a ∷ b ∷ c ∷ []) rec l e h = absurd (cc e)
unit-IsEscaped n k (a ∷ b ∷ c ∷ d ∷ r) rec l e h = elim (Option-cases (hex4 a b c d)) [
  | inl x ↦ ground arith
  | inr (v, x) ↦ elim (Bool-cases (is_low v)) [
    | inl y ↦ ground arith
    | inr y ↦ elim (Bool-cases (is_high v)) [
      | inr z ↦ unit x y z (
          rec r (ground arith)
            (skip_unit-scan k b'u' a b c d r h (cc (sym (width_unit a b c d v r x y z) ∙ e))))
      | inl z ↦ elim (Bool-cases (low_follows r)) [
        | inr t ↦ ground arith
        | inl t ↦ pair_case n k a b c d v r rec l e h x z (low_follows-LowHalf r t)
      ]
    ]
  ]
]

escape-IsEscaped :
    (n : ℕ) (cs : Bytes)
    → Recursive n
    → length cs ≤ n
    → scan_escapes 0 (b'\\' ∷ cs) ≡ true
    → IsEscaped (b'\\' ∷ cs)
unfolding Recursive
escape-IsEscaped n [] rec l h = lone
escape-IsEscaped n (u ∷ rest) rec l h =
    let (k, e, m) = width_known (u ∷ rest) h in
    elim (Bool-cases (u == b'u')) [
      | inl q ↦
          let w = (==_iff u b'u').0 q in
          subst (λ x. IsEscaped (b'\\' ∷ x ∷ rest)) (sym w)
            (unit-IsEscaped n k rest rec (ground arith)
              (subst (λ x. escape_width (x ∷ rest) ≡ some k) w e)
              (subst (λ x. scan_escapes k (x ∷ rest) ≡ true) w m))
      | inr q ↦
          let ne : u ≢ b'u' = λ w. ground arith in
          short ne
            (rec rest (ground arith) (skip_one k u rest m (cc (sym (width_short u rest ne) ∙ e))))
    ]
  where
    skip_one :
        (k u : ℕ) (rest : Bytes)
        → scan_escapes k (u ∷ rest) ≡ true
        → 1 ≡ k
        → scan_escapes 0 rest ≡ true
    skip_one k u rest m q =
        unfold scan_escapes in subst (λ j. scan_escapes j (u ∷ rest) ≡ true) (sym q) m

scan-IsEscaped : (n : ℕ) → Recursive n
unfolding Recursive
scan-IsEscaped n [] l h = done
scan-IsEscaped zero (c ∷ cs) l h = absurd (ground arith)
scan-IsEscaped (suc n) (c ∷ cs) l h = elim (Bool-cases (c == b'\\')) [
  | inl q ↦
      let w = (==_iff c b'\\').0 q in
      subst (λ x. IsEscaped (x ∷ cs)) (sym w)
        (escape-IsEscaped n cs (scan-IsEscaped n) (ground arith)
          (subst (λ x. scan_escapes 0 (x ∷ cs) ≡ true) w h))
  | inr q ↦
      let ne : c ≢ b'\\' = λ w. ground arith in
      plain ne
        (scan-IsEscaped n cs (ground arith) (sym (scan_step c 0 cs (width_plain c cs ne)) ∙ h))
]

-- ValidUnicode accepts exactly the texts that are UTF-8 and in which each `\u` escape is a UTF-16
-- unit outside the surrogates or the high half of a pair with the low half as the next escape.
pub valid_unicode_iff :
    (text : Bytes) → (valid_unicode text ≡ true) ↔ ((valid_string text ≡ true) × IsEscaped text)
unfolding valid_unicode Recursive
valid_unicode_iff text = (
  λ h.
      (let (v, s) = &&_elim (valid_string text) (scan_escapes 0 text) h in
        (v, scan-IsEscaped (length text) text (omega arith) s)),
  λ h. rw (h.0, IsEscaped-scan text h.1) refl,
)
