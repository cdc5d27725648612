-- ===== src/Tests/Launch/Resolve.antt =====
-- internal/launch/path_grants.go: ResolveFilesystemGrants on a small file system.
use ai_config_selector.Prelude.{
  true, false, refl, ◌≡◌, some, List, [], ◌∷◌, Result, ok, err, if◌then◌else◌, All,
}
use ai_config_selector.Prelude.Bytes.{Bytes, codes, bytes_eq, bytes_lt, has_prefix, seen}
use ai_config_selector.Prelude.Int.{pos}
use ai_config_selector.GoPath.{
  clean, render, components, clean_stack, clean_step, backtrack, split, join, join_tail, join_path,
  is_abs, rel, rel_walk, climb,
}
use ai_config_selector.Intent.Paths.{read_only, read_write, file, directory}
use ai_config_selector.Intent.Reference.{workspace_relative, local_absolute}
use ai_config_selector.Launch.Paths.{
  within_or_equal, path_within, paths_overlap, under_any, protected_writable_root,
}
use ai_config_selector.Launch.Grants.{
  FilesystemGrant, workspace_writable, less, insert_grant, sort_grants, in_workspace, dominates,
  any_dominates, is_effective, mark, reduce_filesystem_grants,
}
use ai_config_selector.Launch.Host.{
  Host, FileInfo, GrantError, resolved, missing, identity_from_file_info, resolve_existing_path,
  resolve_future_path, nearest_parent, existing_parent, inspect_grant_path,
  supported_local_grant_root, on_volume, overlaps_protected, overlaps_runtime_input,
}
use ai_config_selector.Launch.Resolve.{
  PathGrantIntent, any_overlap, denies, any_denies, any_of_kind, any_writable, protected_path,
  resolve_protected_paths, relative_workspace, inspect_workspace, candidate_path, check_canonical,
  make_grant, resolve_intent, resolve_intents, resolve_filesystem_grants, no_identity,
}
use ai_config_selector.Launch.Exclusions.{session_operations_directory}
use ai_config_selector.Launch.Revalidate.{
  RevalidationError, workspace_identity, same_identity, equal_path_witness, check_workspaces,
  check_grants, revalidate_filesystem_grants,
}
use ai_config_selector.Launch.Revalidate.Unchanged.{
  revalidate_filesystem_grants-All, IsFound, WorkspaceFound,
}

abbrev a_directory : FileInfo
a_directory = record {
  is_dir = true;
  is_regular = false;
  device = 1;
  inode = 5;
  mode = 0;
  links = 3;
  size = pos 0;
  modified_nanos = pos 0;
}

abbrev a_file : FileInfo
a_file = record {
  is_dir = false;
  is_regular = true;
  device = 1;
  inode = 9;
  mode = 0;
  links = 1;
  size = pos 4;
  modified_nanos = pos 0;
}

-- Everything exists and is no link, but for the directory of Sessions, which is not there yet.
small_host : Host
unfolding bytes_eq
small_host = record {
  eval_symlinks = λ p. if bytes_eq p (codes "/s/sessions") then missing else resolved p;
  stat = λ p. some a_directory;
  logical_components = λ p. some [];
  open_canonical = λ p want. some (if bytes_eq want file then a_file else a_directory);
  user_home = some (codes "/home/u");
}

abbrev notes : PathGrantIntent
notes = record {
  id = codes "notes";
  access = read_write;
  type = file;
  reference_kind = local_absolute;
  path = codes "/home/u/notes";
}

abbrev docs : PathGrantIntent
docs = record {
  id = codes "docs";
  access = read_only;
  type = directory;
  reference_kind = workspace_relative;
  path = codes "docs";
}

abbrev granted : List FilesystemGrant
granted =
    record {
      id = codes "notes";
      access = read_write;
      type = file;
      logical_path = codes "/home/u/notes";
      logical_witness = [];
      path = codes "/home/u/notes";
      identity = record {
        device = 1;
        inode = 9;
        mode = 0;
        links = 1;
        size = pos 4;
        modified_nanos = pos 0;
      };
      workspace_relative = false;
      workspace_logical_path = [];
      workspace_logical_witness = [];
      workspace_path = [];
      workspace_identity = no_identity;
      effective = true;
    }
    ∷ record {
      id = codes "docs";
      access = read_only;
      type = directory;
      logical_path = codes "/w/docs";
      logical_witness = [];
      path = codes "/w/docs";
      identity = record {
        device = 1;
        inode = 5;
        mode = 0;
        links = 0;
        size = pos 0;
        modified_nanos = pos 0;
      };
      workspace_relative = true;
      workspace_logical_path = codes "/w";
      workspace_logical_witness = [];
      workspace_path = codes "/w";
      workspace_identity = record {
        device = 1;
        inode = 5;
        mode = 0;
        links = 0;
        size = pos 0;
        modified_nanos = pos 0;
      };
      effective = false;
    }
    ∷ []

run_resolve : List PathGrantIntent → Bytes → Result GrantError (List FilesystemGrant)
unfolding small_host within_or_equal path_within paths_overlap under_any protected_writable_root rel
    rel_walk climb clean render components clean_stack clean_step backtrack split join join_tail
    join_path is_abs bytes_eq has_prefix bytes_lt seen workspace_writable less insert_grant
    sort_grants in_workspace dominates any_dominates is_effective mark reduce_filesystem_grants
    identity_from_file_info resolve_existing_path resolve_future_path nearest_parent existing_parent
    inspect_grant_path supported_local_grant_root on_volume any_overlap denies any_denies
    any_of_kind any_writable protected_path resolve_protected_paths relative_workspace
    inspect_workspace candidate_path check_canonical make_grant resolve_intent resolve_intents
    resolve_filesystem_grants
run_resolve intents sessions =
    resolve_filesystem_grants small_host intents (codes "/w") sessions read_only [] []

two_granted :
    resolve_filesystem_grants small_host
      (docs ∷ notes ∷ [])
      (codes "/w")
      (codes "/s/sessions")
      read_only
      []
      []
    ≡ ok granted
unfolding run_resolve
two_granted = refl

sessions_refused :
    resolve_filesystem_grants small_host (notes ∷ []) (codes "/w") (codes "/home/u") read_only [] []
    ≡ err overlaps_protected
unfolding run_resolve
sessions_refused = refl

run_revalidate : List FilesystemGrant → Bytes → Result RevalidationError (List FilesystemGrant)
unfolding run_resolve same_identity equal_path_witness check_workspaces check_grants
    revalidate_filesystem_grants session_operations_directory small_host within_or_equal path_within
    paths_overlap rel rel_walk climb clean render components clean_stack clean_step backtrack split
    join join_tail join_path is_abs bytes_eq has_prefix identity_from_file_info inspect_grant_path
run_revalidate grants workspace =
    revalidate_filesystem_grants small_host grants workspace (codes "/s/sessions")

found_again :
    revalidate_filesystem_grants small_host granted (codes "/w") (codes "/s/sessions") ≡ ok granted
unfolding run_revalidate
found_again = refl

moved_workspace :
    revalidate_filesystem_grants small_host granted (codes "/v") (codes "/s/sessions")
    ≡ err workspace_identity
unfolding run_revalidate
moved_workspace = refl

revalidate_filesystem_grants-All_example :
    (granted ≡ granted)
    × All (IsFound small_host (codes "/s/sessions")) granted
    × All (WorkspaceFound small_host (codes "/w")) granted
revalidate_filesystem_grants-All_example =
    revalidate_filesystem_grants-All small_host granted (codes "/w") (codes "/s/sessions") granted
      found_again

input_refused :
    resolve_filesystem_grants small_host
      (notes ∷ [])
      (codes "/w")
      (codes "/s/sessions")
      read_only
      []
      (codes "/home/u/notes" ∷ [])
    ≡ err overlaps_runtime_input
unfolding run_resolve
input_refused = refl
