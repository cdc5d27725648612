-- ===== src/Tests/Release/Publication.antt =====
-- internal/release/publication/plan.go on the release of one version.
use ai_config_selector.Prelude.{
  true, false, Result, ok, err, refl, ◌≡◌, ◌++◌, List, [], ◌∷◌, Option, none, some, map, length,
}
use ai_config_selector.Prelude.Bytes.{Bytes, codes, bytes_eq, bytes_lt}
use ai_config_selector.Prelude.Order.{bytes_order}
use ai_config_selector.Prelude.Sort.{sort_by, insert_by}
use ai_config_selector.Prelude.Int.{pos}
use ai_config_selector.GoPath.{split}
use ai_config_selector.Text.{all_bytes}
use ai_config_selector.Release.Publication.{
  LocalAsset, ReleaseAsset, Release, PublicationPlan, DirectoryEntry, PlanError, resume_draft,
  publish_draft, create_draft, canonical_number, three_numbers, version_matches, commit_matches,
  any_code, blank_from, is_blank, local_asset_names, find_local_asset, find_existing, equal_strings,
  archive_version, expected_asset_names, actual_names, read_asset, read_assets, inspect_entries,
  inspect_candidate, collect, mismatches, missing_assets, decide, identity_differs, plan_existing,
  plan_new, plan, publication_identity,
}
use ai_config_selector.Release.Publication.Candidate.{inspect_candidate-IsExact, IsExact}
use ai_config_selector.Release.Publication.Plans.{
  plan_existing-IsForward, plan_existing-published, completed, IsForward, IsIdentified,
}

abbrev version : Bytes
version = codes "v1.2.3"

abbrev commit : Bytes
commit = codes "0123456789abcdef0123456789abcdef01234567"

abbrev listing : List DirectoryEntry
listing =
    record { name = codes "install.sh"; regular = true }
    ∷ record { name = codes "acs_1.2.3_linux_amd64.tar.gz"; regular = true }
    ∷ record { name = codes "SHA256SUMS"; regular = true }
    ∷ record { name = codes "acs_1.2.3_darwin_arm64.tar.gz"; regular = true }
    ∷ []

abbrev contents_of : Bytes → Option Bytes
contents_of name = some name

-- A stand-in for the digest.
abbrev digest_of : Bytes → Bytes
digest_of contents = contents

abbrev local_asset : Bytes → LocalAsset
local_asset name = record {
  name = name;
  size = pos (length name);
  digest = codes "sha256:" ++ name;
}

abbrev locals : List LocalAsset
locals =
    local_asset (codes "acs_1.2.3_darwin_arm64.tar.gz")
    ∷ local_asset (codes "acs_1.2.3_linux_amd64.tar.gz")
    ∷ local_asset (codes "SHA256SUMS")
    ∷ local_asset (codes "install.sh")
    ∷ []

abbrev uploaded : LocalAsset → ReleaseAsset
uploaded l = record { name = l.name; size = l.size; digest = l.digest; state = codes "uploaded" }

abbrev draft_with : List LocalAsset → Release
draft_with ls = record {
  id = pos 7;
  tag_name = version;
  target_commitish = commit;
  name = codes "ACS v1.2.3";
  body = codes "notes";
  draft = true;
  prerelease = false;
  immutable = false;
  assets = map uploaded ls;
}

run_candidate : Bytes → Option (List DirectoryEntry) → Result PlanError (List LocalAsset)
unfolding inspect_candidate inspect_entries actual_names read_assets read_asset equal_strings
    bytes_eq bytes_lt sort_by insert_by expected_asset_names archive_version
run_candidate v l = inspect_candidate contents_of digest_of v l

candidate_read : inspect_candidate contents_of digest_of version (some listing) ≡ ok locals
unfolding run_candidate
candidate_read = refl

run_plan :
    Result PlanError (List LocalAsset)
    → Option (Result PlanError Release)
    → Result PlanError PublicationPlan
unfolding plan plan_existing plan_new identity_differs collect missing_assets decide mismatches
    find_existing find_local_asset bytes_eq local_asset_names version_matches commit_matches
    is_blank blank_from any_code canonical_number three_numbers split all_bytes
run_plan candidate remote = plan candidate version commit (codes "notes") remote

new_release :
    plan (ok locals) version commit (codes "notes") none
    ≡ ok (record {
      state = create_draft;
      release_id = pos 0;
      upload = map (λ (l : LocalAsset). l.name) locals;
      publish = false;
    })
unfolding run_plan
new_release = refl

blank_notes : plan (ok locals) version commit (codes " \n") none ≡ err publication_identity
unfolding run_plan
blank_notes = refl

abbrev resume_plan : PublicationPlan
resume_plan = record {
  state = resume_draft;
  release_id = pos 7;
  upload = map (λ (l : LocalAsset). l.name) (local_asset (codes "SHA256SUMS") ∷ []);
  publish = false;
}

abbrev partial_draft : Release
partial_draft = draft_with (
    local_asset (codes "install.sh")
    ∷ local_asset (codes "acs_1.2.3_linux_amd64.tar.gz")
    ∷ local_asset (codes "acs_1.2.3_darwin_arm64.tar.gz")
    ∷ [])

resumed : plan_existing locals version commit (codes "notes") partial_draft ≡ ok resume_plan
unfolding run_plan
resumed = refl

abbrev publish_plan : PublicationPlan
publish_plan = record { state = publish_draft; release_id = pos 7; upload = []; publish = true }

ready : plan_existing locals version commit (codes "notes") (draft_with locals) ≡ ok publish_plan
unfolding run_plan
ready = refl

inspect_candidate-IsExact_example :
    (entries : List DirectoryEntry) × (some listing ≡ some entries)
    × IsExact contents_of digest_of version entries locals
inspect_candidate-IsExact_example =
    inspect_candidate-IsExact contents_of digest_of version (some listing) locals candidate_read

plan_existing-IsForward_example :
    IsIdentified version commit (codes "notes") partial_draft
    × IsForward locals partial_draft resume_plan
plan_existing-IsForward_example =
    plan_existing-IsForward locals version commit (codes "notes") partial_draft resume_plan resumed

plan_existing-published_example :
    plan_existing locals version commit
      (codes "notes")
      (record (draft_with locals) { draft = false; immutable = true })
    ≡ ok (completed (draft_with locals))
plan_existing-published_example =
    plan_existing-published locals version commit (codes "notes") (draft_with locals) publish_plan
      ready refl
