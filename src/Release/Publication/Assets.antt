-- ===== src/Release/Publication/Assets.antt =====
-- internal/release/publication/plan.go: the two loops of Plan over the assets.
use ai_config_selector.Prelude.{
  false, ◌≡◌, ◌≢◌, ◌⊎◌, not, inl, inr, refl, sym, ◌∙◌, ap, Option, none, some, List, [], ◌∷◌, All,
  Any, All-map, Any-map, ok, arith, >>=-parts, refuse_if-parts, ok-injective, Bool-cases,
  Option-cases, ||_elim_false,
}
use ai_config_selector.Prelude.Bytes.{Bytes, codes, bytes_eq, bytes_eq→ne, bytes_eq→eq}
use ai_config_selector.Prelude.Distinct.{Distinct}
use ai_config_selector.Prelude.Int.{ltb_ℤ, ltb_ℤ_total}
use ai_config_selector.Release.Publication.{
  LocalAsset, ReleaseAsset, unexpected_asset, duplicate_asset, digest_mismatch, is_none,
  find_local_asset, find_existing, collect, int_ne, mismatches, missing_assets,
}

-- No asset of the list has the name.
abbrev pub Absent : List ReleaseAsset → Bytes → Type 0
Absent xs name = All (λ (a : ReleaseAsset). a.name ≢ name) xs

-- The local asset is on GitHub, with its size and digest.
pub record IsUploaded (l : LocalAsset) (a : ReleaseAsset) : Type 0 where
  pub name : a.name ≡ l.name
  pub state : a.state ≡ codes "uploaded"
  pub size : a.size ≡ l.size
  pub digest : a.digest ≡ l.digest

find_local_asset-some :
    (ls : List LocalAsset) (n : Bytes)
    → is_none (find_local_asset ls n) ≡ false
    → Any (λ (l : LocalAsset). l.name ≡ n) ls
unfolding find_local_asset
find_local_asset-some [] n h = absurd (cc h)
find_local_asset-some (l ∷ ls) n h = elim (Bool-cases (bytes_eq l.name n)) [
  | inl e ↦ inl (bytes_eq→eq l.name n e)
  | inr e ↦ inr (find_local_asset-some ls n (ground arith))
]

find_existing-none : (xs : List ReleaseAsset) (n : Bytes) → find_existing xs n ≡ none → Absent xs n
unfolding find_existing
find_existing-none [] n h = tt
find_existing-none (a ∷ xs) n h = elim (Bool-cases (bytes_eq a.name n)) [
  | inl e ↦ ground arith
  | inr e ↦ (bytes_eq→ne a.name n e, find_existing-none xs n (ground arith))
]

find_existing-some :
    (xs : List ReleaseAsset) (n : Bytes) (o : ReleaseAsset)
    → find_existing xs n ≡ some o
    → (o.name ≡ n) × Any (λ a. a ≡ o) xs
unfolding find_existing
find_existing-some [] n o h = absurd (cc h)
find_existing-some (a ∷ xs) n o h = elim (Bool-cases (bytes_eq a.name n)) [
  | inl e ↦
      (let q : a ≡ o = ground arith in
        (ap (λ (k : ReleaseAsset). k.name) (sym q) ∙ bytes_eq→eq a.name n e, inl q))
  | inr e ↦ let (q, m) = find_existing-some xs n o (ground arith) in (q, inr m)
]

-- The order in which the loop leaves the assets.
abbrev pub reverse_onto : List ReleaseAsset → List ReleaseAsset → List ReleaseAsset
reverse_onto [] ys = ys
reverse_onto (x ∷ xs) ys = reverse_onto xs (x ∷ ys)

pub reverse_onto-All :
    (P : ReleaseAsset → Type 0) (xs ys : List ReleaseAsset)
    → All P (reverse_onto xs ys)
    → All P xs × All P ys
reverse_onto-All P [] ys h = (tt, h)
reverse_onto-All P (x ∷ xs) ys h = let (a, b) = reverse_onto-All P xs (x ∷ ys) h in ((b.0, a), b.1)

pub reverse_onto-Any :
    (P : ReleaseAsset → Type 0) (xs ys : List ReleaseAsset)
    → Any P (reverse_onto xs ys)
    → Any P xs ⊎ Any P ys
reverse_onto-Any P [] ys h = inr h
reverse_onto-Any P (x ∷ xs) ys h = elim (reverse_onto-Any P xs (x ∷ ys) h) [
  | inl k ↦ inl (inr k)
  | inr (inl k) ↦ inl (inl k)
  | inr (inr k) ↦ inr k
]

-- What a run of the first loop establishes of the release.
pub record IsCollected (local : List LocalAsset) (before xs after : List ReleaseAsset)
    : Type 0 where
  pub known : All (λ (a : ReleaseAsset). Any (λ (l : LocalAsset). l.name ≡ a.name) local) xs
  pub distinct : Distinct (λ (a : ReleaseAsset). a.name) xs
  pub fresh : All (λ (a : ReleaseAsset). Absent before a.name) xs
  pub after_eq : after ≡ reverse_onto xs before

is_none-eq : (o : Option ReleaseAsset) → not (is_none o) ≡ false → o ≡ none
is_none-eq none h = refl
is_none-eq (some o) h = absurd (cc h)

pub collect-IsCollected :
    (local : List LocalAsset) (before xs after : List ReleaseAsset)
    → collect local before xs ≡ ok after
    → IsCollected local before xs after
unfolding collect
collect-IsCollected local before [] after h = record {
  known = tt;
  distinct = tt;
  fresh = tt;
  after_eq = sym (ok-injective h);
}
collect-IsCollected local before (a ∷ xs) after h =
    let (k, h₁) = refuse_if-parts (is_none (find_local_asset local a.name)) unexpected_asset _ h in
    let (u, h₂) =
      refuse_if-parts (not (is_none (find_existing before a.name))) duplicate_asset
        (collect local (a ∷ before) xs) h₁ in
    let c = collect-IsCollected local (a ∷ before) xs after h₂ in
    record {
      known = (find_local_asset-some local a.name k, c.known);
      distinct = (All-map xs (λ b f. f.0) c.fresh, c.distinct);
      fresh = (
        find_existing-none before a.name (is_none-eq (find_existing before a.name) u),
        All-map xs (λ b f. f.1) c.fresh,
      );
      after_eq = c.after_eq;
    }

mismatches-IsUploaded :
    (o : ReleaseAsset) (l : LocalAsset) → o.name ≡ l.name → mismatches o l ≡ false → IsUploaded l o
unfolding mismatches
mismatches-IsUploaded o l n h =
    let (s, h₁) = ||_elim_false (not (bytes_eq o.state (codes "uploaded"))) _ h in
    let (z, d) = ||_elim_false (int_ne o.size l.size) (not (bytes_eq o.digest l.digest)) h₁ in
    let (x, y) = ||_elim_false (ltb_ℤ o.size l.size) (ltb_ℤ l.size o.size) z in
    record {
      name = n;
      state = bytes_eq→eq o.state (codes "uploaded") (ground arith);
      size = ltb_ℤ_total o.size l.size x y;
      digest = bytes_eq→eq o.digest l.digest (ground arith);
    }

-- The names that a plan may upload, for the assets on GitHub: those of local assets that it has
-- not. Every other local asset is there, with its size and digest.
abbrev pub IsMissing : List ReleaseAsset → List LocalAsset → List Bytes → Type 0
IsMissing existing [] [] = Unit
IsMissing existing [] (m ∷ ms) = ⊥
IsMissing existing (l ∷ ls) ms =
    (Any (IsUploaded l) existing × IsMissing existing ls ms)
    ⊎ (Absent existing l.name × (ns : List Bytes) × (ms ≡ l.name ∷ ns) × IsMissing existing ls ns)

pub missing_assets-IsMissing :
    (existing : List ReleaseAsset) (ls : List LocalAsset) (ms : List Bytes)
    → missing_assets existing ls ≡ ok ms
    → IsMissing existing ls ms
unfolding missing_assets
missing_assets-IsMissing existing [] [] h = tt
missing_assets-IsMissing existing [] (m ∷ ms) h = absurd (cc (ok-injective h))
missing_assets-IsMissing existing (l ∷ ls) ms h =
    elim (Option-cases (find_existing existing l.name)) [
      | inl e ↦
          let (ns, t, d) =
            >>=-parts (missing_assets existing ls) (λ ns. ok (l.name ∷ ns)) (ground arith) in
          inr (
            find_existing-none existing l.name e,
            ns,
            sym (ok-injective d),
            missing_assets-IsMissing existing ls ns t,
          )
      | inr (o, e) ↦
          let (n, a) = find_existing-some existing l.name o e in
          let (m, t) =
            refuse_if-parts (mismatches o l) digest_mismatch (missing_assets existing ls)
              (ground arith) in
          inl (
            Any-map existing (λ b q. rw q (mismatches-IsUploaded o l n m)) a,
            missing_assets-IsMissing existing ls ms t,
          )
    ]
