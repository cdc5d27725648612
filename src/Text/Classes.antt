-- ===== src/Text/Classes.antt =====
-- What a regular expression of the schemas rules out.
use ai_config_selector.Prelude.{
  ℕ, Bool, true, false, ◌&&◌, ◌≡◌, refl, [], ◌∷◌, &&_elim, ◌==◌, ==_iff, Bool-cases, inl, inr, ap,
  leb, length,
}
use ai_config_selector.Prelude.Bytes.{Bytes, contains_byte}
use ai_config_selector.Text.{all_bytes, matches}

differs : (p : ℕ → Bool) (b c : ℕ) → p b ≡ true → p c ≡ false → (b == c) ≡ false
differs p b c h k = elim (Bool-cases (b == c)) [
  | inl e ↦ absurd (cc (ap p ((==_iff b c).0 e), h, k))
  | inr e ↦ e
]

pub all_bytes-contains_byte :
    (p : ℕ → Bool) (c : ℕ) (s : Bytes)
    → p c ≡ false
    → all_bytes p s ≡ true
    → contains_byte c s ≡ false
unfolding all_bytes contains_byte
all_bytes-contains_byte p c [] n h = refl
all_bytes-contains_byte p c (b ∷ s) n h =
    let (k, l) = &&_elim (p b) (all_bytes p s) h in
    rw (differs p b c k n) (all_bytes-contains_byte p c s n l)

pub matches-contains_byte :
    (first rest : ℕ → Bool) (maximum c : ℕ) (s : Bytes)
    → first c ≡ false
    → rest c ≡ false
    → matches first rest maximum s ≡ true
    → contains_byte c s ≡ false
unfolding matches contains_byte
matches-contains_byte first rest maximum c [] f r h = refl
matches-contains_byte first rest maximum c (b ∷ s) f r h =
    let (k, l) = &&_elim (first b) (all_bytes rest s && leb (length s) maximum) h in
    rw (differs first b c k f)
      (all_bytes-contains_byte rest c s r (&&_elim (all_bytes rest s) (leb (length s) maximum) l).0)

-- A text that matches begins with a byte of the first class.
pub matches-head :
    (first rest : ℕ → Bool) (maximum : ℕ) (s : Bytes)
    → matches first rest maximum s ≡ true
    → (c : ℕ) × (r : Bytes) × (s ≡ c ∷ r) × (first c ≡ true)
unfolding matches
matches-head first rest maximum [] h = cc
matches-head first rest maximum (c ∷ s) h = (c, s, refl, (&&_elim (first c) _ h).0)
