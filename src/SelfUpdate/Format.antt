-- ===== src/SelfUpdate/Format.antt =====
-- internal/selfupdate/update.go: which texts ParseVersion accepts.
use ai_config_selector.Prelude.{
  ℕ, ◌<◌, ◌≤◌, ◌⊎◌, ◌↔◌, sym, ap, false, Any, ◌^◌, true, not, ◌≡◌, ◌&&◌, ◌==◌, ==_iff, refl, List,
  [], ◌∷◌, ok, err, >>=-parts, refuse_if-parts, ok-injective, arith, leb, Bool-cases, inl, inr,
  subst, &&_elim,
}
use ai_config_selector.Prelude.Bytes.{Bytes}
use ai_config_selector.GoPath.{split}
use ai_config_selector.Text.{all_bytes}
use ai_config_selector.Release.Publication.{canonical_number, three_numbers, version_matches}
use ai_config_selector.SelfUpdate.{
  Version, bad_version, too_large, decimal, malformed, component, three_components, parse_version,
}

malformed-canonical_number : (p : Bytes) → malformed p ≡ not (canonical_number p)
unfolding malformed canonical_number all_bytes
malformed-canonical_number [] = refl
malformed-canonical_number (c ∷ []) = ground arith
malformed-canonical_number (c ∷ d ∷ cs) = ground arith

-- A number of a version as the text writes it.
pub record IsNumber (p : Bytes) (n : ℕ) : Type 0 where
  pub canonical : canonical_number p ≡ true
  pub value : n ≡ decimal 0 p
  pub fits : n < 2 ^ 64

component-IsNumber : (p : Bytes) (n : ℕ) → component p ≡ ok n → IsNumber p n
unfolding component
component-IsNumber p n h =
    let (a, h₁) = refuse_if-parts (malformed p) bad_version _ h in
    let (b, h₂) = refuse_if-parts (leb (2 ^ 64) (decimal 0 p)) too_large _ h₁ in
    let c = malformed-canonical_number p in
    subst (IsNumber p) (ok-injective h₂)
      (record { canonical = ground arith; value = refl; fits = ground arith })

component_of_IsNumber : (p : Bytes) (n : ℕ) → IsNumber p n → component p ≡ ok n
unfolding component
component_of_IsNumber p n i =
    let c = malformed-canonical_number p in
    let a : malformed p ≡ false = ground (arith, i.canonical) in
    let small : decimal 0 p < 2 ^ 64 = subst (λ m. m < 2 ^ 64) i.value i.fits in
    let b : leb (2 ^ 64) (decimal 0 p) ≡ false = ground (arith, small) in
    rw (a, b) (ap ok (sym i.value))

-- The refusal of a number that does not fit.
abbrev IsLarge : Bytes → Type 0
IsLarge p = (2 ^ 64 ≤ decimal 0 p) × (component p ≡ err too_large)

component-large :
    (p : Bytes) → canonical_number p ≡ true → 2 ^ 64 ≤ decimal 0 p → component p ≡ err too_large
unfolding component
component-large p h l =
    let c = malformed-canonical_number p in
    let a : malformed p ≡ false = ground (arith, h) in
    let b : leb (2 ^ 64) (decimal 0 p) ≡ true = ground (arith, l) in rw (a, b) refl

-- A number in its canonical form is read, or does not fit.
canonical_number-IsLarge :
    (p : Bytes) → canonical_number p ≡ true → IsNumber p (decimal 0 p) ⊎ IsLarge p
canonical_number-IsLarge p h = elim (Bool-cases (leb (2 ^ 64) (decimal 0 p))) [
  | inl d ↦ let l : 2 ^ 64 ≤ decimal 0 p = ground arith in inr (l, component-large p h l)
  | inr d ↦ inl (record { canonical = h; value = refl; fits = ground arith })
]

-- How the text of a version is read.
pub record IsVersion (s : Bytes) (v : Version) : Type 0 where
  pub major : Bytes
  pub minor : Bytes
  pub patch : Bytes
  pub numbers : Bytes
  pub text : s ≡ b'v' ∷ numbers
  pub parts : split b'.' numbers ≡ major ∷ minor ∷ patch ∷ []
  pub major_read : IsNumber major v.major
  pub minor_read : IsNumber minor v.minor
  pub patch_read : IsNumber patch v.patch

abbrev Read : List Bytes → Version → Type 0
Read xs v =
    (a : Bytes) × (b : Bytes) × (c : Bytes) × (xs ≡ a ∷ b ∷ c ∷ [])
    × IsNumber a v.major
    × IsNumber b v.minor
    × IsNumber c v.patch

three_components-Read : (xs : List Bytes) (v : Version) → three_components xs ≡ ok v → Read xs v
unfolding three_components
three_components-Read (a ∷ b ∷ c ∷ []) v h =
    let (x, p, h₁) = >>=-parts (component a) _ h in
    let (y, q, h₂) = >>=-parts (component b) _ h₁ in
    let (z, r, h₃) = >>=-parts (component c) _ h₂ in
    subst (Read (a ∷ b ∷ c ∷ [])) (ok-injective h₃)
      (a, b, c, refl, component-IsNumber a x p, component-IsNumber b y q, component-IsNumber c z r)
three_components-Read [] v h = absurd (cc h)
three_components-Read (a ∷ []) v h = absurd (cc h)
three_components-Read (a ∷ b ∷ []) v h = absurd (cc h)
three_components-Read (a ∷ b ∷ c ∷ d ∷ xs) v h = absurd (cc h)

three_components_of_Read : (xs : List Bytes) (v : Version) → Read xs v → three_components xs ≡ ok v
unfolding three_components
three_components_of_Read xs v (a, b, c, e, f, g, i) = rw e (
    rw
      (
        component_of_IsNumber a v.major f,
        component_of_IsNumber b v.minor g,
        component_of_IsNumber c v.patch i,
      )
      refl)

abbrev Large : List Bytes → Type 0
Large xs = (three_components xs ≡ err too_large) × Any (λ p. 2 ^ 64 ≤ decimal 0 p) xs

-- Three numbers in their canonical form are read, or one of them does not fit.
three_numbers-Large :
    (xs : List Bytes) → three_numbers xs ≡ true → ((v : Version) × Read xs v) ⊎ Large xs
unfolding three_numbers three_components
three_numbers-Large (a ∷ b ∷ c ∷ []) h =
    let (h₁, z) = &&_elim (canonical_number a && canonical_number b) (canonical_number c) h in
    let (x, y) = &&_elim (canonical_number a) (canonical_number b) h₁ in
    elim (canonical_number-IsLarge a x) [
      | inr l ↦ inr (rw l.1 refl, inl l.0)
      | inl i ↦ elim (canonical_number-IsLarge b y) [
        | inr l ↦ inr (rw (component_of_IsNumber a _ i, l.1) refl, inr (inl l.0))
        | inl j ↦ elim (canonical_number-IsLarge c z) [
          | inr l ↦ inr (
            rw (component_of_IsNumber a _ i, component_of_IsNumber b _ j, l.1) refl,
            inr (inr (inl l.0)),
          )
          | inl k ↦ inl (
            record { major = decimal 0 a; minor = decimal 0 b; patch = decimal 0 c },
            (a, b, c, refl, i, j, k),
          )
        ]
      ]
    ]
three_numbers-Large [] h = absurd (cc h)
three_numbers-Large (a ∷ []) h = absurd (cc h)
three_numbers-Large (a ∷ b ∷ []) h = absurd (cc h)
three_numbers-Large (a ∷ b ∷ c ∷ d ∷ xs) h = absurd (cc h)

-- A number between the dots behind the first letter does not fit in 64 bits.
abbrev pub HasLargeNumber : Bytes → Type 0
HasLargeNumber [] = ⊥
HasLargeNumber (c ∷ cs) = Any (λ p. 2 ^ 64 ≤ decimal 0 p) (split b'.' cs)

version-Read :
    (c : ℕ) (cs : Bytes) (v : Version) → Read (split b'.' cs) v → c ≡ b'v' → IsVersion (c ∷ cs) v
version-Read c cs v (x, y, z, e, f, g, i) q = record {
  major = x;
  minor = y;
  patch = z;
  numbers = cs;
  text = ap (λ d. d ∷ cs) q;
  parts = e;
  major_read = f;
  minor_read = g;
  patch_read = i;
}

parse_version-forward : (s : Bytes) (v : Version) → parse_version s ≡ ok v → IsVersion s v
unfolding parse_version
parse_version-forward [] v h = absurd (cc h)
parse_version-forward (c ∷ cs) v h = elim (Bool-cases (c == b'v')) [
  | inl q ↦
      version-Read c cs v (three_components-Read (split b'.' cs) v (rw q at h))
        ((==_iff c b'v').0 q)
  | inr q ↦ absurd (cc (rw q at h))
]

parse_version_of_IsVersion : (s : Bytes) (v : Version) → IsVersion s v → parse_version s ≡ ok v
unfolding parse_version
parse_version_of_IsVersion s v i = rw (i.text) (
    three_components_of_Read (split b'.' i.numbers) v
      (i.major, i.minor, i.patch, i.parts, i.major_read, i.minor_read, i.patch_read))

version_matches_of_IsVersion : (s : Bytes) (v : Version) → IsVersion s v → version_matches s ≡ true
unfolding version_matches three_numbers
version_matches_of_IsVersion s v i = rw (i.text) (
    rw (i.parts) (rw (i.major_read.canonical, i.minor_read.canonical, i.patch_read.canonical) refl))

matching-read :
    (s : Bytes)
    → version_matches s ≡ true
    → ((v : Version) × (parse_version s ≡ ok v))
      ⊎ ((parse_version s ≡ err too_large) × HasLargeNumber s)
unfolding version_matches parse_version
matching-read [] h = absurd (cc h)
matching-read (c ∷ cs) h = elim (Bool-cases (c == b'v')) [
  | inr q ↦ absurd (cc (rw q at h))
  | inl q ↦ elim (three_numbers-Large (split b'.' cs) (rw q at h)) [
    | inr l ↦ inr (rw q l.0, l.1)
    | inl r ↦ inl (r.0, rw q (three_components_of_Read (split b'.' cs) r.0 r.1))
  ]
]

-- ParseVersion returns a version exactly for a text `v<major>.<minor>.<patch>` of three decimal
-- numbers without leading zeros that fit in 64 bits, and returns these numbers. The publication of
-- releases takes every such text for a version, and a text that it takes for one is read by
-- ParseVersion, or refused as too large and then one of its numbers does not fit in 64 bits.
pub parse_version-IsVersion :
    (s : Bytes)
    → ((v : Version) → (parse_version s ≡ ok v) ↔ IsVersion s v)
      × ((v : Version) → IsVersion s v → version_matches s ≡ true)
      × (version_matches s ≡ true
          → ((v : Version) × (parse_version s ≡ ok v))
            ⊎ ((parse_version s ≡ err too_large) × HasLargeNumber s))
parse_version-IsVersion s = (
  λ v. (parse_version-forward s v, parse_version_of_IsVersion s v),
  version_matches_of_IsVersion s,
  matching-read s,
)
