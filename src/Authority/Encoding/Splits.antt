-- ===== src/Authority/Encoding/Splits.antt =====
-- internal/authority/plan.go: an encoding of one field can be told apart from what follows it.
use ai_config_selector.Authority.Encoding.{
  put_uint, put_int, to_uint64, put_string, put_count, put_required, put_identity, put_argument,
}
use ai_config_selector.Authority.Facts.{SkillIdentity}
use ai_config_selector.Prelude.{
  true, false, ℕ, ◌+◌, ◌<◌, ◌^◌, ◌≡◌, refl, sym, ap, subst, ◌∙◌, List, [], ◌∷◌, ◌++◌, Option, none,
  some, length, length-append, arith,
}
use ai_config_selector.Prelude.Bytes.{Bytes}
use ai_config_selector.Prelude.Int.{ℤ, pos, negsuc}
use mathlib.Core.List.{append_assoc}

-- A slice of bytes is shorter than this on every machine.
abbrev pub Small : Bytes → Type 0
Small bytes = length bytes < 2 ^ 64

-- The values that Go's 64-bit int has.
abbrev pub IsInt : ℤ → Type 0
IsInt (pos n) = n < 2 ^ 63
IsInt (negsuc n) = n < 2 ^ 63

-- Equal encodings, each with something behind it, are of equal values with the same behind it.
abbrev pub Splits {ℓ} : {A : Type ℓ} → (A → Type 0) → (A → Bytes) → Type ℓ
Splits {A = A} P put =
    (a b : A) (r s : Bytes)
    → P a
    → P b
    → Small (put a ++ r)
    → put a ++ r ≡ put b ++ s
    → (a ≡ b) × (r ≡ s) × Small r

-- The same with no condition on the values.
abbrev pub Tells {ℓ} : {A : Type ℓ} → (A → Bytes) → Type ℓ
Tells put = Splits (λ _. Unit {0}) put

pub put_uint-Splits : Splits (λ n. n < 2 ^ 64) put_uint
unfolding put_uint
put_uint-Splits a b r s p q small e = (ground arith, cc, omega arith)

to_uint64-lt : (a : ℤ) → to_uint64 a < 2 ^ 64
unfolding to_uint64
to_uint64-lt (pos n) = omega arith
to_uint64-lt (negsuc n) = omega arith

to_uint64-injective : (a b : ℤ) → IsInt a → IsInt b → to_uint64 a ≡ to_uint64 b → a ≡ b
unfolding to_uint64
to_uint64-injective (pos a) (pos b) p q e = ap pos (omega arith)
to_uint64-injective (pos a) (negsuc b) p q e = absurd (omega arith)
to_uint64-injective (negsuc a) (pos b) p q e = absurd (omega arith)
to_uint64-injective (negsuc a) (negsuc b) p q e = ap negsuc (omega arith)

-- Lists of one length in front of equal lists.
pub append-split {ℓ} :
    {A : Type ℓ} (a b r s : List A) → length a ≡ length b → a ++ r ≡ b ++ s → (a ≡ b) × (r ≡ s)
append-split [] [] r s n e = (refl, e)
append-split [] (y ∷ b) r s n e = absurd (omega arith)
append-split (x ∷ a) [] r s n e = absurd (omega arith)
append-split (x ∷ a) (y ∷ b) r s n e =
    let (same, rest) = append-split a b r s (omega arith) (cc) in (cc, rest)

pub length-put_uint : (n : ℕ) (r : Bytes) → length (put_uint n ++ r) ≡ 8 + length r
unfolding put_uint
length-put_uint n r = omega arith

pub put_int-Splits : Splits IsInt put_int
unfolding put_int to_uint64
put_int-Splits a b r s p q small e =
    let (same, rest, short) =
      put_uint-Splits (to_uint64 a) (to_uint64 b) r s (to_uint64-lt a) (to_uint64-lt b) small e in
    (to_uint64-injective a b p q same, rest, short)

pub regroup {ℓ} :
    {A : Type ℓ} (a b r c d s : List A)
    → (a ++ b) ++ r ≡ (c ++ d) ++ s
    → a ++ (b ++ r) ≡ c ++ (d ++ s)
regroup a b r c d s e = sym (append_assoc a b r) ∙ e ∙ append_assoc c d s

pub put_string-Splits : Tells put_string
unfolding put_string
put_string-Splits a b r s p q small e =
    let e' = regroup (put_uint (length a)) a r (put_uint (length b)) b s e in
    let small' = subst Small (append_assoc (put_uint (length a)) a r) small in
    let behind_a = length-put_uint (length a) (a ++ r) in
    let behind_b = length-put_uint (length b) (b ++ s) in
    let short_a = length-append a r in
    let short_b = length-append b s in
    let same_length = ap length e' in
    let (same, rest, small'') =
      put_uint-Splits (length a) (length b) (a ++ r) (b ++ s) (omega arith) (omega arith) small'
        e' in
    let (text, behind) = append-split a b r s same rest in (text, behind, omega arith)

module _ {ℓ κ} {A : Type ℓ} {B : Type κ} {P : A → Type 0} {Q : B → Type 0} where
  -- One field after another.
  pub pair-Splits :
      (f : A → Bytes) (g : B → Bytes)
      → Splits P f
      → Splits Q g
      → Splits (λ (c : A × B). P c.0 × Q c.1) (λ (c : A × B). f c.0 ++ g c.1)
  pair-Splits f g one two a b r s p q small e =
      let regrouped = regroup (f a.0) (g a.1) r (f b.0) (g b.1) s e in
      let (first, rest, small') =
        one a.0 b.0 (g a.1 ++ r) (g b.1 ++ s) p.0 q.0
          (subst Small (append_assoc (f a.0) (g a.1) r) small) regrouped in
      let (second, behind, small'') = two a.1 b.1 r s p.1 q.1 small' rest in (cc, behind, small'')

pub pair-Tells {ℓ κ} :
    {A : Type ℓ} {B : Type κ} (f : A → Bytes) (g : B → Bytes)
    → Tells f
    → Tells g
    → Tells (λ (c : A × B). f c.0 ++ g c.1)
pair-Tells f g one two a b r s p q = pair-Splits f g one two a b r s (tt, tt) (tt, tt)

module _ {ℓ κ} {A : Type ℓ} {B : Type κ} {P : A → Type 0} where
  -- The fields of a record, read off by `fields`.
  pub fields-Splits :
      (f : A → Bytes) (fields : B → A)
      → ((c d : B) → fields c ≡ fields d → c ≡ d)
      → Splits P f
      → Splits (λ c. P (fields c)) (λ c. f (fields c))
  fields-Splits f fields whole one a b r s p q small e =
      let (same, rest, small') = one (fields a) (fields b) r s p q small e in
      (whole a b same, rest, small')

-- What the values of an option satisfy.
abbrev pub OptionIs {ℓ} : {A : Type ℓ} → (A → Type 0) → Option A → Type 0
OptionIs P none = Unit
OptionIs P (some a) = P a

pub put_count-Splits : Splits (OptionIs IsInt) put_count
unfolding put_count put_uint
put_count-Splits none none r s p q small e = (refl, cc, omega arith)
put_count-Splits none (some b) r s p q small e = ground arith
put_count-Splits (some a) none r s p q small e = ground arith
put_count-Splits (some a) (some b) r s p q small e =
    let (same, rest, small') = put_int-Splits a b r s p q (omega arith) (cc) in
    (ap some same, rest, small')

pub put_required-Splits : Tells put_required
unfolding put_required put_uint
put_required-Splits none none r s p q small e = (refl, cc, omega arith)
put_required-Splits none (some b) r s p q small e = ground arith
put_required-Splits (some a) none r s p q small e = ground arith
put_required-Splits (some true) (some true) r s p q small e = (refl, cc, omega arith)
put_required-Splits (some true) (some false) r s p q small e = ground arith
put_required-Splits (some false) (some true) r s p q small e = ground arith
put_required-Splits (some false) (some false) r s p q small e = (refl, cc, omega arith)

identity_put : SkillIdentity → Bytes
identity_put identity = put_string identity.source ++ put_string identity.relative_path

identity_put-Splits : Tells identity_put
unfolding identity_put
identity_put-Splits =
    fields-Splits (λ (c : Bytes × Bytes). put_string c.0 ++ put_string c.1)
      (λ i. (i.source, i.relative_path)) (λ c d e. cc)
      (pair-Tells put_string put_string put_string-Splits put_string-Splits)

pub put_identity-Splits : Tells put_identity
unfolding put_identity put_uint identity_put
put_identity-Splits none none r s p q small e = (refl, cc, omega arith)
put_identity-Splits none (some b) r s p q small e = ground arith
put_identity-Splits (some a) none r s p q small e = ground arith
put_identity-Splits (some a) (some b) r s p q small e =
    let (same, rest, small') = identity_put-Splits a b r s tt tt (omega arith) (cc) in
    (ap some same, rest, small')

pub put_argument-Splits : Tells put_argument
unfolding put_argument
put_argument-Splits =
    fields-Splits (λ (c : Bytes × Bytes). put_string c.0 ++ put_string c.1)
      (λ i. (i.kind, i.reference)) (λ c d e. cc)
      (pair-Tells put_string put_string put_string-Splits put_string-Splits)
