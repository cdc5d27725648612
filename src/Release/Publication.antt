-- ===== src/Release/Publication.antt =====
-- internal/release/publication/plan.go: what is to be done to publish one release of ACS, from the
-- candidate directory and from what GitHub says of the release.
-- A directory and the files in it are arguments, and so are SHA-256 and the decoded response.
pub mod Assets
pub mod Candidate
pub mod Plans
use ai_config_selector.Prelude.{
  ℕ, ◌+◌, ◌*◌, Bool, true, false, ◌&&◌, ◌||◌, not, Option, none, some, List, [], ◌∷◌, ◌++◌, map,
  Result, ok, err, ◌>>=◌, ◌>>◌, refuse_if, if◌then◌else◌, ltb, leb, ◌==◌, length, zero, suc,
}
use ai_config_selector.Prelude.Bytes.{Bytes, codes, bytes_eq}
use ai_config_selector.Prelude.Order.{bytes_order}
use ai_config_selector.Prelude.Int.{ℤ, pos, negsuc, ltb_ℤ}
use ai_config_selector.Prelude.Sort.{sort_by}
use ai_config_selector.GoPath.{split}
use ai_config_selector.Text.{is_digit, is_lower, between, all_bytes}

pub data State : Type 0 where
  create_draft : State
  resume_draft : State
  publish_draft : State
  complete : State

pub record PublicationPlan : Type 0 where
  pub state : State
  pub release_id : ℤ
  pub upload : List Bytes
  pub publish : Bool

pub record ReleaseAsset : Type 0 where
  pub name : Bytes
  pub size : ℤ
  pub digest : Bytes
  pub state : Bytes

pub record Release : Type 0 where
  pub id : ℤ
  pub tag_name : Bytes
  pub target_commitish : Bytes
  pub name : Bytes
  pub body : Bytes
  pub draft : Bool
  pub prerelease : Bool
  pub immutable : Bool
  pub assets : List ReleaseAsset

pub record LocalAsset : Type 0 where
  pub name : Bytes
  pub size : ℤ
  pub digest : Bytes

pub data PlanError : Type 0 where
  publication_identity : PlanError
  candidate_unavailable : PlanError
  unsafe_entry : PlanError
  asset_names : PlanError
  unreadable_asset : PlanError
  release_response : PlanError
  release_identity : PlanError
  unexpected_prerelease : PlanError
  unexpected_asset : PlanError
  duplicate_asset : PlanError
  digest_mismatch : PlanError
  not_immutable : PlanError
  incomplete : PlanError
  conflicting_immutable : PlanError

-- `0|[1-9][0-9]*`
unfoldable pub canonical_number : Bytes → Bool
canonical_number [] = false
canonical_number (c ∷ []) = is_digit c
canonical_number (c ∷ cs) = between b'1' b'9' c && all_bytes is_digit cs

unfoldable pub three_numbers : List Bytes → Bool
three_numbers (a ∷ b ∷ c ∷ []) = canonical_number a && canonical_number b && canonical_number c
three_numbers _ = false

-- `^v(0|[1-9][0-9]*)\.(0|[1-9][0-9]*)\.(0|[1-9][0-9]*)$`
unfoldable pub version_matches : Bytes → Bool
version_matches [] = false
version_matches (c ∷ cs) = c == b'v' && three_numbers (split b'.' cs)

-- `^[0-9a-f]{40}$`
unfoldable pub commit_matches : Bytes → Bool
commit_matches c = length c == 40 && all_bytes (λ b. is_digit b || between b'a' b'f' b) c

unfoldable pub any_code : List ℕ → ℕ → Bool
any_code [] q = false
any_code (c ∷ cs) q = q == c || any_code cs q

-- The code points that strings.TrimSpace removes, and the beginnings of those that take several
-- bytes, each as one number in base 256.
abbrev pub space_codes : List ℕ
space_codes =
    0x09 ∷ 0x0A ∷ 0x0B ∷ 0x0C ∷ 0x0D ∷ 0x20 ∷ 0xC285 ∷ 0xC2A0 ∷ 0xE19A80 ∷ 0xE28080 ∷ 0xE28081
    ∷ 0xE28082 ∷ 0xE28083 ∷ 0xE28084 ∷ 0xE28085 ∷ 0xE28086 ∷ 0xE28087 ∷ 0xE28088 ∷ 0xE28089
    ∷ 0xE2808A ∷ 0xE280A8 ∷ 0xE280A9 ∷ 0xE280AF ∷ 0xE2819F ∷ 0xE38080 ∷ []

abbrev pub space_beginnings : List ℕ
space_beginnings = 0xC2 ∷ 0xE1 ∷ 0xE19A ∷ 0xE2 ∷ 0xE280 ∷ 0xE281 ∷ 0xE3 ∷ 0xE380 ∷ []

-- strings.TrimSpace(notes) == "", where `p` holds the bytes of an unfinished code point.
unfoldable pub blank_from : ℕ → Bytes → Bool
blank_from p [] = p == 0
blank_from p (b ∷ bs) =
    let q = p * 256 + b in
    let start = any_code space_codes q in
    (start || any_code space_beginnings q) && blank_from (if start then 0 else q) bs

unfoldable pub is_blank : Bytes → Bool
is_blank notes = blank_from 0 notes

unfoldable pub local_asset_names : List LocalAsset → List Bytes
local_asset_names [] = []
local_asset_names (a ∷ rest) = a.name ∷ local_asset_names rest

unfoldable pub find_local_asset : List LocalAsset → Bytes → Option LocalAsset
find_local_asset [] name = none
find_local_asset (a ∷ rest) name =
    if bytes_eq a.name name then some a else find_local_asset rest name

-- existing[name]
unfoldable pub find_existing : List ReleaseAsset → Bytes → Option ReleaseAsset
find_existing [] name = none
find_existing (a ∷ rest) name = if bytes_eq a.name name then some a else find_existing rest name

abbrev pub is_none {ℓ} : {A : Type ℓ} → Option A → Bool
is_none none = true
is_none (some a) = false

unfoldable pub equal_strings : List Bytes → List Bytes → Bool
equal_strings [] [] = true
equal_strings (a ∷ xs) (b ∷ ys) = bytes_eq a b && equal_strings xs ys
equal_strings _ _ = false

-- strings.TrimPrefix(version, "v")
unfoldable pub archive_version : Bytes → Bytes
archive_version [] = []
archive_version (c ∷ cs) = if c == b'v' then cs else c ∷ cs

unfoldable pub expected_asset_names : Bytes → List Bytes
expected_asset_names version =
    (codes "acs_" ++ archive_version version ++ codes "_darwin_arm64.tar.gz")
    ∷ (codes "acs_" ++ archive_version version ++ codes "_linux_amd64.tar.gz")
    ∷ codes "SHA256SUMS"
    ∷ codes "install.sh"
    ∷ []

-- An entry of the candidate directory: `regular` says that its information could be read and that
-- it is a regular file.
pub record DirectoryEntry : Type 0 where
  pub name : Bytes
  pub regular : Bool

unfoldable pub actual_names : List DirectoryEntry → Result PlanError (List Bytes)
actual_names [] = ok []
actual_names (e ∷ es) =
    refuse_if (not e.regular) unsafe_entry >> (actual_names es >>= (λ names. ok (e.name ∷ names)))

-- The candidate directory: `entries` lists it, or it cannot be listed; `read_file` reads a file of it, and `sha256` is the
-- digest in hexadecimal.
module _ (read_file : Bytes → Option Bytes) (sha256 : Bytes → Bytes) where
  unfoldable pub read_asset : Bytes → Result PlanError LocalAsset
  read_asset name = elim (read_file name) [
    | none ↦ err unreadable_asset
    | some contents ↦ ok (record {
      name = name;
      size = pos (length contents);
      digest = codes "sha256:" ++ sha256 contents;
    })
  ]

  unfoldable pub read_assets : List Bytes → Result PlanError (List LocalAsset)
  read_assets [] = ok []
  read_assets (name ∷ names) =
      read_asset name >>= (λ asset. read_assets names >>= (λ assets. ok (asset ∷ assets)))

  unfoldable pub inspect_entries : Bytes → List DirectoryEntry → Result PlanError (List LocalAsset)
  inspect_entries version entries =
      let names = expected_asset_names version in
      actual_names entries >>= (λ actual.
        refuse_if
          (not
            (equal_strings (sort_by (λ (n : Bytes). n) actual) (sort_by (λ (n : Bytes). n) names)))
          asset_names
        >> read_assets names)

  unfoldable pub inspect_candidate :
      Bytes → Option (List DirectoryEntry) → Result PlanError (List LocalAsset)
  inspect_candidate version none = err candidate_unavailable
  inspect_candidate version (some entries) = inspect_entries version entries

-- The loop over the assets of the release, which fills `existing`.
unfoldable pub collect :
    List LocalAsset → List ReleaseAsset → List ReleaseAsset → Result PlanError (List ReleaseAsset)
collect local existing [] = ok existing
collect local existing (a ∷ rest) =
    refuse_if (is_none (find_local_asset local a.name)) unexpected_asset
    >> (refuse_if (not (is_none (find_existing existing a.name))) duplicate_asset
        >> collect local (a ∷ existing) rest)

abbrev pub int_ne : ℤ → ℤ → Bool
int_ne a b = ltb_ℤ a b || ltb_ℤ b a

unfoldable pub mismatches : ReleaseAsset → LocalAsset → Bool
mismatches observed expected =
    not (bytes_eq observed.state (codes "uploaded"))
    || (int_ne observed.size expected.size || not (bytes_eq observed.digest expected.digest))

-- The loop over the local assets, which fills `missing`.
unfoldable pub missing_assets : List ReleaseAsset → List LocalAsset → Result PlanError (List Bytes)
missing_assets existing [] = ok []
missing_assets existing (l ∷ ls) = elim (find_existing existing l.name) [
  | none ↦ missing_assets existing ls >>= (λ missing. ok (l.name ∷ missing))
  | some observed ↦ refuse_if (mismatches observed l) digest_mismatch >> missing_assets existing ls
]

-- `len(list) != 0`
abbrev pub non_empty {ℓ} : {A : Type ℓ} → List A → Bool
non_empty [] = false
non_empty (x ∷ xs) = true

-- What follows the two loops.
unfoldable pub decide : Release → List Bytes → Result PlanError PublicationPlan
decide r missing =
    if not r.draft
    then refuse_if (not r.immutable) not_immutable
      >> (refuse_if (non_empty missing) incomplete
          >> ok (record { state = complete; release_id = r.id; upload = []; publish = false }))
    else refuse_if r.immutable conflicting_immutable
      >> (if non_empty missing
          then ok (record {
            state = resume_draft;
            release_id = r.id;
            upload = missing;
            publish = false;
          })
          else ok
              (record { state = publish_draft; release_id = r.id; upload = []; publish = true }))

unfoldable pub identity_differs : Bytes → Bytes → Bytes → Release → Bool
identity_differs version commit notes r =
    not (ltb_ℤ (pos 0) r.id)
    || (not (bytes_eq r.tag_name version)
        || (not (bytes_eq r.target_commitish commit)
            || (not (bytes_eq r.name (codes "ACS " ++ version)) || not (bytes_eq r.body notes))))

-- What Plan does with a decoded release.
unfoldable pub plan_existing :
    List LocalAsset → Bytes → Bytes → Bytes → Release → Result PlanError PublicationPlan
plan_existing local version commit notes r =
    refuse_if (identity_differs version commit notes r) release_identity
    >> (refuse_if r.prerelease unexpected_prerelease
        >> (collect local [] r.assets
            >>= (λ existing. missing_assets existing local >>= (λ missing. decide r missing))))

-- No release exists for the tag.
unfoldable pub plan_new : List LocalAsset → PublicationPlan
plan_new local = record {
  state = create_draft;
  release_id = pos 0;
  upload = local_asset_names local;
  publish = false;
}

-- The function Plan, with what inspectCandidate returns and the release that the response decodes to: `none` for
-- a nil reader.
unfoldable pub plan :
    Result PlanError (List LocalAsset)
    → Bytes
    → Bytes
    → Bytes
    → Option (Result PlanError Release)
    → Result PlanError PublicationPlan
plan candidate version commit notes remote =
    refuse_if (not (version_matches version) || (not (commit_matches commit) || is_blank notes))
      publication_identity
    >> (candidate >>= (λ local. elim remote [
      | none ↦ ok (plan_new local)
      | some response ↦ response >>= (λ r. plan_existing local version commit notes r)
    ]))
