-- ===== src/Launch/Resolve.antt =====
-- internal/launch/path_grants.go: ResolveFilesystemGrants and resolveProtectedPaths.
pub mod Safe
pub mod Requested
pub mod Covered
pub mod Outcome
use ai_config_selector.Prelude.{
  Bool, true, false, not, ◌&&◌, ◌||◌, ◌==◌, if◌then◌else◌, Option, none, some, List, [], ◌∷◌, ◌++◌,
  Result, ok, err, ◌>>=◌, ◌>>◌, refuse_if, map_err,
}
use ai_config_selector.Prelude.Bytes.{Bytes, codes, bytes_eq, seen}
use ai_config_selector.Prelude.Int.{pos}
use ai_config_selector.GoPath.{clean, is_abs, join_path}
use ai_config_selector.Intent.Paths.{read_only, read_write, file, directory}
use ai_config_selector.Intent.Reference.{workspace_relative, local_absolute}
use ai_config_selector.Launch.Paths.{within_or_equal, paths_overlap, protected_writable_root}
use ai_config_selector.Launch.Grants.{PathIdentity, FilesystemGrant, reduce_filesystem_grants}
use ai_config_selector.Launch.Host.{
  Host, GrantError, Inspection, resolved, missing, failed, workspace_changed, home_unavailable,
  bad_protected_path, workspace_overlaps, unsupported_reference, escapes_anchor, unsupported_root,
  overlaps_protected, system_root, overlaps_runtime_input, or_refuse, resolution,
  identity_from_file_info, resolve_existing_path, resolve_future_path, inspect_grant_path,
  supported_local_grant_root,
}

pub record PathGrantIntent : Type 0 where
  pub id : Bytes
  pub access : Bytes
  pub type : Bytes
  pub reference_kind : Bytes
  pub path : Bytes

-- The zero value of pathIdentity.
abbrev pub no_identity : PathIdentity
no_identity = record {
  device = 0;
  inode = 0;
  mode = 0;
  links = 0;
  size = pos 0;
  modified_nanos = pos 0;
}

pub record ProtectedPath : Type 0 where
  pub path : Bytes
  pub exists : Bool
  pub identity : PathIdentity

unfoldable pub any_overlap : List ProtectedPath → Bytes → Bool
any_overlap [] path = false
any_overlap (d ∷ ds) path = paths_overlap path d.path || any_overlap ds path

abbrev pub same_file : PathIdentity → PathIdentity → Bool
same_file i j = i.device == j.device && i.inode == j.inode

-- The test on one protected path in the loops over `protected` and `protectedWritable`.
unfoldable pub denies : Bytes → Bytes → PathIdentity → ProtectedPath → Bool
denies canonical type identity d =
    paths_overlap canonical d.path
    || (bytes_eq type file && (d.exists && same_file identity d.identity))

unfoldable pub any_denies : List ProtectedPath → Bytes → Bytes → PathIdentity → Bool
any_denies [] canonical type identity = false
any_denies (d ∷ ds) canonical type identity =
    denies canonical type identity d || any_denies ds canonical type identity

unfoldable pub any_of_kind : Bytes → List PathGrantIntent → Bool
any_of_kind kind [] = false
any_of_kind kind (i ∷ is) = bytes_eq i.reference_kind kind || any_of_kind kind is

unfoldable pub any_writable : List PathGrantIntent → Bool
any_writable [] = false
any_writable (i ∷ is) = bytes_eq i.access read_write || any_writable is

-- The workspace as the grants of a workspace-relative reference record it.
pub record Workspace : Type 0 where
  pub canonical : Bytes
  pub logical_path : Bytes
  pub witness : List PathIdentity
  pub identity : PathIdentity

module _ (host : Host) where
  unfoldable pub protected_path : Bytes → Result GrantError ProtectedPath
  protected_path input =
      refuse_if (not (is_abs input)) bad_protected_path >> elim (host.eval_symlinks (clean input)) [
        | resolved canonical ↦ or_refuse (host.stat canonical) bad_protected_path >>= (λ info.
            ok
              (record { path = canonical; exists = true; identity = identity_from_file_info info }))
        | missing ↦
            map_err (λ e. bad_protected_path) (resolve_future_path host input)
            >>= (λ path. ok (record { path = path; exists = false; identity = no_identity }))
        | failed ↦ err bad_protected_path
      ]

  unfoldable pub resolve_protected_paths :
      List Bytes → List Bytes → Result GrantError (List ProtectedPath)
  resolve_protected_paths paths [] = ok []
  resolve_protected_paths paths (input ∷ inputs) = protected_path input >>= (λ d.
      resolve_protected_paths (d.path ∷ paths) inputs
      >>= (λ rest. ok (if seen paths d.path then rest else d ∷ rest)))

  unfoldable pub relative_workspace : Bytes → Bytes → Result GrantError Workspace
  relative_workspace workspace canonical =
      map_err (λ e. workspace_changed)
        (inspect_grant_path host (clean workspace) directory read_only)
      >>= (λ (i : Inspection).
          refuse_if (not (bytes_eq i.canonical canonical)) workspace_changed
          >> ok (record {
            canonical = canonical;
            logical_path = clean workspace;
            witness = i.witness;
            identity = i.identity;
          }))

  -- The first loop, which runs to the first workspace-relative intent.
  unfoldable pub inspect_workspace :
      Bytes → Bytes → List PathGrantIntent → Result GrantError Workspace
  inspect_workspace workspace canonical intents =
      if any_of_kind workspace_relative intents
      then relative_workspace workspace canonical
      else ok (record {
        canonical = canonical;
        logical_path = [];
        witness = [];
        identity = no_identity;
      })

  unfoldable pub candidate_path : Bytes → PathGrantIntent → Result GrantError Bytes
  candidate_path canonical_workspace intent =
      if bytes_eq intent.reference_kind workspace_relative
      then ok (join_path canonical_workspace intent.path)
      else if bytes_eq intent.reference_kind local_absolute
      then ok (clean intent.path)
      else err unsupported_reference

  -- The tests on the inspected path of an intent.
  unfoldable pub check_canonical :
      Workspace
      → Bytes
      → List ProtectedPath
      → List ProtectedPath
      → PathGrantIntent
      → Inspection
      → Result GrantError (Unit {0})
  check_canonical w home protected protected_writable intent i =
      refuse_if
        (bytes_eq intent.reference_kind workspace_relative
          && not (within_or_equal w.canonical i.canonical))
        escapes_anchor
      >> (refuse_if
            (bytes_eq intent.reference_kind local_absolute
              && not (supported_local_grant_root host home i.canonical))
            unsupported_root
          >> (refuse_if (any_denies protected i.canonical intent.type i.identity) overlaps_protected
              >> (refuse_if
                    (bytes_eq intent.access read_write && protected_writable_root i.canonical)
                    system_root
                  >> refuse_if
                      (bytes_eq intent.access read_write
                        && any_denies protected_writable i.canonical intent.type i.identity)
                      overlaps_runtime_input)))

  unfoldable pub make_grant : Workspace → PathGrantIntent → Bytes → Inspection → FilesystemGrant
  make_grant w intent candidate i =
      let relative = bytes_eq intent.reference_kind workspace_relative in
      record {
        id = intent.id;
        access = intent.access;
        type = intent.type;
        logical_path = clean candidate;
        logical_witness = i.witness;
        path = i.canonical;
        identity = i.identity;
        workspace_relative = relative;
        workspace_logical_path = if relative then w.logical_path else [];
        workspace_logical_witness = if relative then w.witness else [];
        workspace_path = if relative then w.canonical else [];
        workspace_identity = if relative then w.identity else no_identity;
        effective = true;
      }

  unfoldable pub resolve_intent :
      Workspace
      → Bytes
      → List ProtectedPath
      → List ProtectedPath
      → PathGrantIntent
      → Result GrantError FilesystemGrant
  resolve_intent w home protected protected_writable intent =
      candidate_path w.canonical intent >>= (λ candidate.
        inspect_grant_path host candidate intent.type intent.access >>= (λ i.
          check_canonical w home protected protected_writable intent i
          >> ok (make_grant w intent candidate i)))

  unfoldable pub resolve_intents :
      Workspace
      → Bytes
      → List ProtectedPath
      → List ProtectedPath
      → List PathGrantIntent
      → Result GrantError (List FilesystemGrant)
  resolve_intents w home protected protected_writable [] = ok []
  resolve_intents w home protected protected_writable (intent ∷ intents) =
      resolve_intent w home protected protected_writable intent
      >>= (λ g. resolve_intents w home protected protected_writable intents >>= (λ gs. ok (g ∷ gs)))

  -- `supplied` is suppliedProtected[0] and `supplied_writable` suppliedProtected[1], empty where the
  -- caller gives none.
  unfoldable pub resolve_filesystem_grants :
      List PathGrantIntent
      → Bytes
      → Bytes
      → Bytes
      → List Bytes
      → List Bytes
      → Result GrantError (List FilesystemGrant)
  resolve_filesystem_grants intents workspace sessions access supplied supplied_writable =
      resolve_existing_path host workspace >>= (λ canonical.
        inspect_workspace workspace canonical intents >>= (λ w.
          resolve_future_path host sessions >>= (λ canonical_sessions.
            or_refuse host.user_home home_unavailable >>= (λ home.
              resolution (host.eval_symlinks (clean home)) home_unavailable >>= (λ canonical_home.
                resolve_protected_paths [] (canonical_sessions ∷ supplied) >>= (λ protected.
                  resolve_protected_paths []
                    (if any_writable intents then supplied_writable else [])
                  >>= (λ protected_writable.
                      refuse_if (any_overlap protected canonical) workspace_overlaps
                      >> (resolve_intents w canonical_home protected protected_writable intents
                          >>= (λ grants.
                              ok (reduce_filesystem_grants grants canonical access))))))))))
