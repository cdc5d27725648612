-- ===== src/StrictJson/Unicode/Grammar.antt =====
-- internal/strictjson/unicode.go: a grammar of escapes, whose texts pass the loop.
use ai_config_selector.Prelude.{
  ℕ, ◌==◌, true, false, ◌≡◌, ◌≢◌, refl, ◌∙◌, ap, Option, none, some, [], ◌∷◌, arith,
}
use ai_config_selector.Prelude.Bytes.{Bytes}
use ai_config_selector.StrictJson.Unicode.{
  hex4, is_high, is_low, low_follows, escape_width, width_at, scan_escapes,
}

-- A text in which each `\uXXXX` is a UTF-16 unit that is no surrogate, or the high half of a pair
-- with the low half behind it.
pub data IsEscaped : Bytes → Type 0 where
  done : IsEscaped []
  lone : IsEscaped (b'\\' ∷ [])
  plain : {c : ℕ} {cs : Bytes} → c ≢ b'\\' → IsEscaped cs → IsEscaped (c ∷ cs)
  short : {c : ℕ} {cs : Bytes} → c ≢ b'u' → IsEscaped cs → IsEscaped (b'\\' ∷ c ∷ cs)
  unit :
      {a b c d v : ℕ} {cs : Bytes}
      → hex4 a b c d ≡ some v
      → is_low v ≡ false
      → is_high v ≡ false
      → IsEscaped cs
      → IsEscaped (b'\\' ∷ b'u' ∷ a ∷ b ∷ c ∷ d ∷ cs)
  pair :
      {a b c d v e f g h w : ℕ} {cs : Bytes}
      → hex4 a b c d ≡ some v
      → is_high v ≡ true
      → hex4 e f g h ≡ some w
      → is_low w ≡ true
      → IsEscaped cs
      → IsEscaped (b'\\' ∷ b'u' ∷ a ∷ b ∷ c ∷ d ∷ b'\\' ∷ b'u' ∷ e ∷ f ∷ g ∷ h ∷ cs)

pub high-not-low : (v : ℕ) → is_high v ≡ true → is_low v ≡ false
high-not-low v h = ground arith

pub differs : (a b : ℕ) → a ≢ b → (a == b) ≡ false
differs a b h = ground arith

pub scan_step :
    (c n : ℕ) (cs : Bytes) → width_at c cs ≡ some n → scan_escapes 0 (c ∷ cs) ≡ scan_escapes n cs
unfolding scan_escapes
scan_step c n cs e = ap (λ (o : Option ℕ). elim o [ none ↦ false | some n ↦ scan_escapes n cs ]) e

pub width_plain : (c : ℕ) (cs : Bytes) → c ≢ b'\\' → width_at c cs ≡ some 0
width_plain c cs h = rw (differs c b'\\' h) refl

pub width_short : (c : ℕ) (cs : Bytes) → c ≢ b'u' → escape_width (c ∷ cs) ≡ some 1
unfolding escape_width
width_short u [] h = rw (differs u b'u' h) refl
width_short u (a ∷ []) h = rw (differs u b'u' h) refl
width_short u (a ∷ b ∷ []) h = rw (differs u b'u' h) refl
width_short u (a ∷ b ∷ c ∷ []) h = rw (differs u b'u' h) refl
width_short u (a ∷ b ∷ c ∷ d ∷ rest) h = rw (differs u b'u' h) refl

pub width_unit :
    (a b c d v : ℕ) (cs : Bytes)
    → hex4 a b c d ≡ some v
    → is_low v ≡ false
    → is_high v ≡ false
    → escape_width (b'u' ∷ a ∷ b ∷ c ∷ d ∷ cs) ≡ some 5
unfolding escape_width
width_unit a b c d v cs h l k = rw (h, l, k) refl

pub width_pair :
    (a b c d v e f g h w : ℕ) (cs : Bytes)
    → hex4 a b c d ≡ some v
    → is_high v ≡ true
    → hex4 e f g h ≡ some w
    → is_low w ≡ true
    → escape_width (b'u' ∷ a ∷ b ∷ c ∷ d ∷ b'\\' ∷ b'u' ∷ e ∷ f ∷ g ∷ h ∷ cs) ≡ some 11
unfolding escape_width low_follows
width_pair a b c d v e f g h w cs x l y m = rw (x, high-not-low v l, l, y, m) refl

-- The grammar's texts pass the loop.
pub IsEscaped-scan : (s : Bytes) → IsEscaped s → scan_escapes 0 s ≡ true
unfolding scan_escapes
IsEscaped-scan _ done = refl
IsEscaped-scan _ lone = unfold escape_width in refl
IsEscaped-scan _ (plain {c} {cs} n r) = scan_step c 0 cs (width_plain c cs n) ∙ IsEscaped-scan cs r
IsEscaped-scan _ (short {c} {cs} n r) =
    scan_step b'\\' 1 (c ∷ cs) (width_short c cs n) ∙ IsEscaped-scan cs r
IsEscaped-scan _ (unit {a} {b} {c} {d} {v} {cs} h l k r) =
    scan_step b'\\' 5 (b'u' ∷ a ∷ b ∷ c ∷ d ∷ cs) (width_unit a b c d v cs h l k)
    ∙ IsEscaped-scan cs r
IsEscaped-scan _ (pair {a} {b} {c} {d} {v} {e} {f} {g} {h} {w} {cs} x l y m r) =
    scan_step b'\\' 11 (b'u' ∷ a ∷ b ∷ c ∷ d ∷ b'\\' ∷ b'u' ∷ e ∷ f ∷ g ∷ h ∷ cs)
      (width_pair a b c d v e f g h w cs x l y m)
    ∙ IsEscaped-scan cs r
