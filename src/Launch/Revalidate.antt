-- ===== src/Launch/Revalidate.antt =====
-- internal/launch/path_grants.go: revalidateFilesystemGrants, which looks at the file system again
-- before a Session starts.
pub mod Unchanged
use ai_config_selector.Prelude.{
  Bool, true, false, not, ◌&&◌, ◌||◌, ◌==◌, List, [], ◌∷◌, Result, ok, err, ◌>>=◌, ◌>>◌, refuse_if,
  map_err,
}
use ai_config_selector.Prelude.Bytes.{Bytes, bytes_eq}
use ai_config_selector.Prelude.Int.{ℤ, ltb_ℤ}
use ai_config_selector.GoPath.{clean}
use ai_config_selector.Intent.Paths.{read_only, directory}
use ai_config_selector.Launch.Paths.{paths_overlap}
use ai_config_selector.Launch.Grants.{PathIdentity, FilesystemGrant}
use ai_config_selector.Launch.Host.{Host, Inspection, GrantError, inspect_grant_path}
use ai_config_selector.Launch.Exclusions.{session_operations_directory}

pub data RevalidationError : Type 0 where
  workspace_identity : RevalidationError
  path_identity : RevalidationError
  private_state : RevalidationError

abbrev int_eq : ℤ → ℤ → Bool
int_eq a b = not (ltb_ℤ a b) && not (ltb_ℤ b a)

-- left == right, for two identities
unfoldable pub same_identity : PathIdentity → PathIdentity → Bool
same_identity i j =
    i.device == j.device
    && (i.inode == j.inode
        && (i.mode == j.mode
            && (i.links == j.links
                && (int_eq i.size j.size && int_eq i.modified_nanos j.modified_nanos))))

unfoldable pub equal_path_witness : List PathIdentity → List PathIdentity → Bool
equal_path_witness [] [] = true
equal_path_witness (i ∷ is) (j ∷ js) = same_identity i j && equal_path_witness is js
equal_path_witness _ _ = false

module _ (host : Host) where
  -- The first loop. The workspace is inspected for the first relative grant; a later inspection in
  -- the same run gives the same answer.
  unfoldable pub check_workspaces :
      Bytes → List FilesystemGrant → Result RevalidationError (Unit {0})
  check_workspaces workspace [] = ok tt
  check_workspaces workspace (g ∷ gs) = elim g.workspace_relative [
    | false ↦ check_workspaces workspace gs
    | true ↦
        map_err (λ e. workspace_identity)
          (inspect_grant_path host (clean workspace) directory read_only)
        >>= (λ (i : Inspection).
            refuse_if
              (not (bytes_eq (clean workspace) g.workspace_logical_path)
                || (not (bytes_eq i.canonical g.workspace_path)
                    || (not (same_identity i.identity g.workspace_identity)
                        || not (equal_path_witness i.witness g.workspace_logical_witness))))
              workspace_identity
            >> check_workspaces workspace gs)
  ]

  unfoldable pub check_grants : Bytes → List FilesystemGrant → Result RevalidationError (Unit {0})
  check_grants sessions [] = ok tt
  check_grants sessions (g ∷ gs) =
      map_err (λ e. path_identity) (inspect_grant_path host g.logical_path g.type g.access)
      >>= (λ (i : Inspection).
          refuse_if
            (not (bytes_eq i.canonical g.path)
              || (not (same_identity i.identity g.identity)
                  || not (equal_path_witness i.witness g.logical_witness)))
            path_identity
          >> (refuse_if
                (paths_overlap i.canonical sessions
                  || paths_overlap i.canonical (session_operations_directory sessions))
                private_state
              >> check_grants sessions gs))

  unfoldable pub revalidate_filesystem_grants :
      List FilesystemGrant → Bytes → Bytes → Result RevalidationError (List FilesystemGrant)
  revalidate_filesystem_grants grants workspace sessions =
      check_workspaces workspace grants >> (check_grants sessions grants >> ok grants)
