-- ===== src/Tests/Launch/Exclusions.antt =====
-- internal/launch/path_exclusions.go on a workspace in which nothing else exists.
use ai_config_selector.Prelude.{
  Bool, true, false, refl, ◌≡◌, ◌↔◌, some, List, [], ◌∷◌, All, Result, ok, err, if◌then◌else◌,
}
use ai_config_selector.Prelude.Bytes.{
  Bytes, codes, bytes_eq, bytes_lt, has_prefix, seen, contains_byte,
}
use ai_config_selector.Prelude.Sort.{sort_by, insert_by}
use ai_config_selector.Prelude.Int.{pos}
use ai_config_selector.GoPath.{
  clean, render, components, clean_stack, clean_step, backtrack, split, join, join_tail, join_path,
  is_abs, rel, rel_walk, climb,
}
use ai_config_selector.Text.{
  entry_id_matches, matches, all_bytes, valid_string, valid_from, next, lead,
}
use ai_config_selector.Intent.Schema
use ai_config_selector.Intent.Schema.{admit_all}
use ai_config_selector.Intent.Schema.Checked.{checked_admit}
use ai_config_selector.Intent.Reference.{
  anchor, valid_path, clean_relative, clean_absolute, trim_root, validate_reference, relative_case,
  absolute_case, workspace_relative,
}
use ai_config_selector.Intent.Exclusions as Intent
use ai_config_selector.Intent.Paths.{read_only, directory}
use ai_config_selector.Launch.Paths.{within_or_equal, path_within, paths_overlap}
use ai_config_selector.Launch.Grants.{FilesystemGrant}
use ai_config_selector.Launch.Host.{
  Host, FileInfo, resolved, identity_from_file_info, resolve_future_path, nearest_parent,
  existing_parent, inspect_grant_path, supported_local_grant_root, on_volume,
}
use ai_config_selector.Launch.Exclusions.{
  PathExclusionIntent, FilesystemExclusion, ExclusionFailure, Presence, present, absent,
  intent_entries, walk_up, nearest_existing_ancestor, session_operations_directory, is_local,
  below_ancestor, check_path, logical_path, excluded_path, witness_of, resolve_exclusion,
  resolve_exclusions, resolve_selected, resolve_filesystem_exclusions, any_granted, any_overlaps,
  validate_exclusion_requirements, conflicts_with_grant, conflicts_with_session,
}
use ai_config_selector.Launch.Exclusions.Placed.{resolve_filesystem_exclusions-Placed, Excluded}
use ai_config_selector.Launch.Exclusions.Requirements.{validate_exclusion_requirements_iff, IsMet}

abbrev a_directory : FileInfo
a_directory = record {
  is_dir = true;
  is_regular = false;
  device = 1;
  inode = 5;
  mode = 0;
  links = 3;
  size = pos 0;
  modified_nanos = pos 0;
}

abbrev host : Host
host = record {
  eval_symlinks = λ p. resolved p;
  stat = λ p. some a_directory;
  logical_components = λ p. some [];
  open_canonical = λ p want. some a_directory;
  user_home = some (codes "/home/u");
}

lstat : Bytes → Presence
unfolding bytes_eq
lstat p = if bytes_eq p (codes "/w") then present else absent

abbrev build : PathExclusionIntent
build = record {
  id = codes "build";
  type = codes "file";
  reference_kind = workspace_relative;
  path = codes "out/build";
}

abbrev grant_of : Bytes → Bytes → Bool → FilesystemGrant
grant_of logical path relative = record {
  id = [];
  access = read_only;
  type = directory;
  logical_path = logical;
  logical_witness = [];
  path = path;
  identity = identity_from_file_info a_directory;
  workspace_relative = relative;
  workspace_logical_path = codes "/w";
  workspace_logical_witness = [];
  workspace_path = codes "/w";
  workspace_identity = identity_from_file_info a_directory;
  effective = false;
}

abbrev excluded : FilesystemExclusion
excluded = record {
  id = codes "build";
  path = codes "/w/out/build";
  logical_path = codes "/w/out/build";
  first_missing = codes "/w/out";
  witness = grant_of (codes "/w") (codes "/w") true;
  exists = false;
}

run_exclusions :
    List PathExclusionIntent → Bytes → Result ExclusionFailure (List FilesystemExclusion)
unfolding lstat Intent.canonical Schema.canonical admit_all checked_admit entry_id_matches matches
    all_bytes seen Intent.validate bytes_eq validate_reference valid_path valid_string valid_from
    next lead contains_byte anchor relative_case backtrack clean clean_stack clean_step components
    is_abs join join_tail join_path render split Intent.destination absolute_case clean_absolute
    clean_relative trim_root bytes_lt has_prefix insert_by sort_by rel rel_walk climb
    within_or_equal path_within paths_overlap resolve_future_path nearest_parent existing_parent
    inspect_grant_path supported_local_grant_root on_volume intent_entries walk_up
    nearest_existing_ancestor session_operations_directory is_local below_ancestor check_path
    logical_path excluded_path witness_of resolve_exclusion resolve_exclusions resolve_selected
    resolve_filesystem_exclusions any_granted any_overlaps validate_exclusion_requirements
run_exclusions intents sessions =
    resolve_filesystem_exclusions host lstat intents (codes "/w") sessions

one_excluded :
    resolve_filesystem_exclusions host lstat (build ∷ []) (codes "/w") (codes "/s/sessions")
    ≡ ok (excluded ∷ [])
unfolding run_exclusions
one_excluded = refl

sessions_kept :
    resolve_filesystem_exclusions host lstat (build ∷ []) (codes "/w") (codes "/w/out")
    ≡ err conflicts_with_session
unfolding run_exclusions
sessions_kept = refl

granted_refused :
    validate_exclusion_requirements
      (excluded ∷ [])
      (grant_of (codes "/w/out/build/x") (codes "/w/out/build/x") true ∷ [])
      []
      []
    ≡ err conflicts_with_grant
unfolding run_exclusions
granted_refused = refl

resolve_filesystem_exclusions-Placed_example :
    Excluded host lstat (build ∷ []) (codes "/w") (codes "/s/sessions") (excluded ∷ [])
resolve_filesystem_exclusions-Placed_example =
    resolve_filesystem_exclusions-Placed host lstat (build ∷ []) (codes "/w") (codes "/s/sessions")
      (excluded ∷ []) one_excluded

validate_exclusion_requirements_iff_example :
    (validate_exclusion_requirements
        (excluded ∷ [])
        (grant_of (codes "/w/docs") (codes "/w/docs") true ∷ [])
        (codes "/usr/bin/git" ∷ [])
        (codes "/usr/lib" ∷ [])
      ≡ ok tt)
    ↔ All
        (λ x.
          IsMet x
            (grant_of (codes "/w/docs") (codes "/w/docs") true ∷ [])
            (codes "/usr/bin/git" ∷ [])
            (codes "/usr/lib" ∷ []))
        (excluded ∷ [])
validate_exclusion_requirements_iff_example =
    validate_exclusion_requirements_iff (excluded ∷ [])
      (grant_of (codes "/w/docs") (codes "/w/docs") true ∷ []) (codes "/usr/bin/git" ∷ [])
      (codes "/usr/lib" ∷ [])
