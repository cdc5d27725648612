-- ===== src/Release/Publication/Candidate.antt =====
-- internal/release/publication/plan.go: inspectCandidate accepts only the exact directory.
use ai_config_selector.Prelude.{
  true, ◌≡◌, ◌++◌, not, refl, Option, none, some, List, [], ◌∷◌, map, All, ok, arith, >>=-parts,
  refuse_if-parts, ok-injective, &&_elim, subst, length, Option-cases, inl, inr,
}
use mathlib.Core.List.{Permᴰ}
use mathlib.Core.List.Permᴰ
use ai_config_selector.Prelude.Bytes.{Bytes, codes, bytes_eq, bytes_eq→eq}
use ai_config_selector.Prelude.Order.{bytes_order}
use ai_config_selector.Prelude.Int.{pos}
use ai_config_selector.Prelude.Sort.{sort_by, sort_by-perm}
use ai_config_selector.Release.Publication.{
  LocalAsset, DirectoryEntry, PlanError, unsafe_entry, asset_names, equal_strings, inspect_entries,
  actual_names, read_asset, read_assets, inspect_candidate, expected_asset_names,
}

pub equal_strings→eq : (xs ys : List Bytes) → equal_strings xs ys ≡ true → xs ≡ ys
unfolding equal_strings
equal_strings→eq [] [] h = refl
equal_strings→eq (x ∷ xs) (y ∷ ys) h =
    let (e, k) = &&_elim (bytes_eq x y) (equal_strings xs ys) h in
    cc (bytes_eq→eq x y e, equal_strings→eq xs ys k)
equal_strings→eq [] (y ∷ ys) h = cc
equal_strings→eq (x ∷ xs) [] h = cc

actual_names-parts :
    (es : List DirectoryEntry) (names : List Bytes)
    → actual_names es ≡ ok names
    → All (λ (e : DirectoryEntry). e.regular ≡ true) es
      × (map (λ (e : DirectoryEntry). e.name) es ≡ names)
unfolding actual_names
actual_names-parts [] names h = (tt, ok-injective h)
actual_names-parts (e ∷ es) names h =
    let (r, k) = refuse_if-parts (not e.regular) unsafe_entry _ h in
    let (rest, a, d) = >>=-parts (actual_names es) (λ ns. ok (e.name ∷ ns)) k in
    let (regular, eq) = actual_names-parts es rest a in
    ((ground arith, regular), cc (eq, ok-injective d))

module _ (read_file : Bytes → Option Bytes) (sha256 : Bytes → Bytes) where
  -- The asset is the file of that name.
  pub IsFile : Bytes → LocalAsset → Type 0
  IsFile name asset =
      (contents : Bytes) × (read_file name ≡ some contents)
      × (asset.name ≡ name)
      × (asset.size ≡ pos (length contents))
      × (asset.digest ≡ codes "sha256:" ++ sha256 contents)

  abbrev pub Files : List Bytes → List LocalAsset → Type 0
  Files [] [] = Unit
  Files (name ∷ names) (asset ∷ assets) = IsFile name asset × Files names assets
  Files _ _ = ⊥

  read_asset-IsFile :
      (name : Bytes) (asset : LocalAsset)
      → read_asset read_file sha256 name ≡ ok asset
      → IsFile name asset
  unfolding read_asset IsFile
  read_asset-IsFile name asset h = elim (Option-cases (read_file name)) [
    | inl e ↦ ground arith
    | inr (contents, e) ↦
        subst (IsFile name)
          (ok-injective {E = PlanError}
            {a = record {
              name = name;
              size = pos (length contents);
              digest = codes "sha256:" ++ sha256 contents;
            }}
            (ground arith))
          (contents, e, refl, refl, refl)
  ]

  read_assets-Files :
      (names : List Bytes) (assets : List LocalAsset)
      → read_assets read_file sha256 names ≡ ok assets
      → Files names assets
  unfolding read_assets
  read_assets-Files [] [] h = tt
  read_assets-Files [] (a ∷ rest) h = absurd (cc (ok-injective h))
  read_assets-Files (name ∷ names) assets h =
      let (asset, r, k) = >>=-parts (read_asset read_file sha256 name) _ h in
      let (rest, s, d) = >>=-parts (read_assets read_file sha256 names) (λ xs. ok (asset ∷ xs)) k in
      subst (Files (name ∷ names)) (ok-injective d)
        (read_asset-IsFile name asset r, read_assets-Files names rest s)

  -- The directory that a release is made from: its entries are regular files, under exactly the four
  -- expected names, and the assets are these files in the order of the names.
  pub record IsExact (version : Bytes) (entries : List DirectoryEntry) (assets : List LocalAsset)
      : Type 0 where
    pub regular : All (λ (e : DirectoryEntry). e.regular ≡ true) entries
    pub names : Permᴰ (map (λ (e : DirectoryEntry). e.name) entries) (expected_asset_names version)
    pub files : Files (expected_asset_names version) assets

  inspect_entries-IsExact :
      (version : Bytes) (entries : List DirectoryEntry) (assets : List LocalAsset)
      → inspect_entries read_file sha256 version entries ≡ ok assets
      → IsExact version entries assets
  unfolding inspect_entries
  inspect_entries-IsExact version entries assets h =
      let key : Bytes → Bytes = λ n. n in
      let names = expected_asset_names version in
      let (actual, a, k) = >>=-parts (actual_names entries) _ h in
      let (regular, eq) = actual_names-parts entries actual a in
      let (t, r) =
        refuse_if-parts (not (equal_strings (sort_by key actual) (sort_by key names))) asset_names
          (read_assets read_file sha256 names) k in
      let same : sort_by key actual ≡ sort_by key names =
        equal_strings→eq (sort_by key actual) (sort_by key names) (ground arith) in
      record {
        regular = regular;
        names =
            rw eq (
              Permᴰ.trans (Permᴰ.symm (sort_by-perm key actual))
                (rw same (sort_by-perm key names)));
        files = read_assets-Files names assets r;
      }

  -- inspectCandidate succeeds only if the candidate directory can be listed, holds regular files
  -- only, and these have exactly the expected names of the version; the assets that it returns are
  -- then these files in the order of the expected names, with their lengths and digests.
  pub inspect_candidate-IsExact :
      (version : Bytes) (listing : Option (List DirectoryEntry)) (assets : List LocalAsset)
      → inspect_candidate read_file sha256 version listing ≡ ok assets
      → (entries : List DirectoryEntry) × (listing ≡ some entries) × IsExact version entries assets
  unfolding inspect_candidate
  inspect_candidate-IsExact version none assets h = absurd (cc h)
  inspect_candidate-IsExact version (some entries) assets h =
      (entries, refl, inspect_entries-IsExact version entries assets h)
