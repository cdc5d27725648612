-- ===== src/Launch/Exclusions.antt =====
-- internal/launch/path_exclusions.go: the excluded paths of a launch. The file system is the same
-- record of answers as for the grants, with os.Lstat as a further argument.
pub mod Placed
pub mod Requirements
use mathlib.Core.List.{reverse}
use ai_config_selector.Prelude.{
  Bool, true, false, not, ◌&&◌, ◌||◌, if◌then◌else◌, Option, none, some, List, [], ◌∷◌, ◌++◌,
  Result, ok, err, ◌>>=◌, ◌>>◌, refuse_if, map_err,
}
use ai_config_selector.Prelude.Bytes.{Bytes, codes, bytes_eq}
use ai_config_selector.GoPath.{dot, clean, components, render, join_path, is_abs, rel}
use ai_config_selector.GoPath.Names.{escapes}
use ai_config_selector.Intent.Paths.{read_only, directory}
use ai_config_selector.Intent.Reference.{Reference, workspace_relative, local_absolute}
use ai_config_selector.Intent.Exclusions as Intent
use ai_config_selector.Launch.Paths.{within_or_equal, paths_overlap}
use ai_config_selector.Launch.Grants.{FilesystemGrant, PathIdentity}
use ai_config_selector.Launch.Host.{
  Host, Inspection, GrantError, or_refuse, resolution, home_unavailable, resolve_future_path,
  inspect_grant_path, supported_local_grant_root,
}
use ai_config_selector.Launch.Resolve.{no_identity}

pub record PathExclusionIntent : Type 0 where
  pub id : Bytes
  pub type : Bytes
  pub reference_kind : Bytes
  pub path : Bytes

pub record FilesystemExclusion : Type 0 where
  pub id : Bytes
  pub path : Bytes
  pub logical_path : Bytes
  pub first_missing : Bytes
  pub witness : FilesystemGrant
  pub exists : Bool

pub data ExclusionFailure : Type 0 where
  bad_intent : Intent.ExclusionError → ExclusionFailure
  unsafe_workspace : ExclusionFailure
  host_failure : GrantError → ExclusionFailure
  unavailable : ExclusionFailure
  unsafe_link : ExclusionFailure
  escapes_workspace : ExclusionFailure
  outside_roots : ExclusionFailure
  conflicts_with_session : ExclusionFailure
  conflicts_with_grant : ExclusionFailure
  conflicts_with_executable : ExclusionFailure
  conflicts_with_runtime_input : ExclusionFailure

-- os.Lstat: whether the path is there, or the error is os.ErrNotExist or another one.
pub data Presence : Type 0 where
  present : Presence
  absent : Presence
  unknown : Presence

unfoldable pub intent_entries : List PathExclusionIntent → List Intent.Entry
intent_entries [] = []
intent_entries (i ∷ is) =
    record {
      id = i.id;
      type = i.type;
      reference = record { kind = i.reference_kind; path = i.path };
    }
    ∷ intent_entries is

-- What nearestExistingAncestor returns.
pub record Ancestor : Type 0 where
  pub existing : Bytes
  pub first_missing : Bytes

-- The loop of nearestExistingAncestor on an absolute path: `above` is the elements of `current` from
-- the last one up.
unfoldable pub walk_up : (Bytes → Presence) → List Bytes → Bytes → Option Ancestor
walk_up lstat [] first_missing = elim (lstat (render true [])) [
  | present ↦ some (record { existing = render true []; first_missing = first_missing })
  | absent ↦ none
  | unknown ↦ none
]
walk_up lstat (c ∷ above) first_missing =
    let current = render true (reverse (c ∷ above)) in
    let parent = walk_up lstat above current in
    elim (lstat current) [
      | present ↦ some (record { existing = current; first_missing = first_missing })
      | absent ↦ parent
      | unknown ↦ none
    ]

unfoldable pub nearest_existing_ancestor : (Bytes → Presence) → Bytes → Option Ancestor
nearest_existing_ancestor lstat logical = walk_up lstat (reverse (components logical)) []

-- SessionOperationsDirectory: filepath.Dir of a cleaned absolute path drops its last element.
abbrev drop_first : List Bytes → List Bytes
drop_first [] = []
drop_first (c ∷ cs) = cs

unfoldable pub session_operations_directory : Bytes → Bytes
session_operations_directory sessions =
    join_path (render (is_abs sessions) (reverse (drop_first (reverse (components sessions)))))
      (codes "session-operations-v1")

-- filepath.IsLocal
unfoldable pub is_local : Bytes → Bool
is_local path = not (is_abs path) && (not (bytes_eq path []) && not (escapes (clean path)))

-- The path below a canonical ancestor, for an excluded path that does not exist.
unfoldable pub below_ancestor : Bytes → Bytes → Bytes → Option Bytes
below_ancestor canonical captured logical = elim (rel captured logical) [
  | none ↦ none
  | some remainder ↦
      if bytes_eq remainder dot || not (is_local remainder)
      then none
      else some (join_path canonical remainder)
]

abbrev pub required {ℓ} : {A : Type ℓ} → Option A → ExclusionFailure → Result ExclusionFailure A
required none reason = err reason
required (some a) reason = ok a

module _ (host : Host) (lstat : Bytes → Presence) where
  -- The tests on the path of an exclusion, where `private` is the directory of the Sessions.
  unfoldable pub check_path :
      Bytes → Bytes → Bytes → Bytes → Bytes → Result ExclusionFailure (Unit {0})
  check_path workspace home private kind path =
      refuse_if (bytes_eq kind workspace_relative && not (within_or_equal workspace path))
        escapes_workspace
      >> (refuse_if
            (bytes_eq kind local_absolute && not (supported_local_grant_root host home path))
            outside_roots
          >> refuse_if
              (paths_overlap path private
                || paths_overlap path (session_operations_directory private))
              conflicts_with_session)

  unfoldable pub logical_path : Bytes → Reference → Bytes
  logical_path workspace r =
      if bytes_eq r.kind workspace_relative then join_path workspace r.path else r.path

  unfoldable pub excluded_path : Bytes → Ancestor → Bytes → Result ExclusionFailure Bytes
  excluded_path canonical a logical =
      if bytes_eq a.first_missing []
      then ok canonical
      else required (below_ancestor canonical a.existing logical) unavailable

  unfoldable pub witness_of :
      Bytes → Inspection → Ancestor → Bytes → Bytes → Inspection → FilesystemGrant
  witness_of workspace w a kind type i =
      let relative = bytes_eq kind workspace_relative in
      record {
        id = [];
        access = read_only;
        type = type;
        logical_path = a.existing;
        logical_witness = i.witness;
        path = i.canonical;
        identity = i.identity;
        workspace_relative = relative;
        workspace_logical_path = if relative then clean workspace else [];
        workspace_logical_witness = if relative then w.witness else [];
        workspace_path = if relative then w.canonical else [];
        workspace_identity = if relative then w.identity else no_identity;
        effective = false;
      }

  unfoldable pub resolve_exclusion :
      Bytes
      → Inspection
      → Bytes
      → Bytes
      → Intent.Entry
      → Result ExclusionFailure FilesystemExclusion
  resolve_exclusion workspace w home private e =
      let logical = logical_path w.canonical e.reference in
      required (nearest_existing_ancestor lstat logical) unavailable >>= (λ (a : Ancestor).
        let exists = bytes_eq a.first_missing [] in
        let kind = if exists then e.type else directory in
        map_err (λ f. unsafe_link) (inspect_grant_path host a.existing kind read_only)
        >>= (λ (i : Inspection). excluded_path i.canonical a logical >>= (λ path.
            check_path w.canonical home private e.reference.kind path
            >> ok (record {
              id = e.id;
              path = path;
              logical_path = logical;
              first_missing = a.first_missing;
              witness = witness_of workspace w a e.reference.kind kind i;
              exists = exists;
            }))))

  unfoldable pub resolve_exclusions :
      Bytes
      → Inspection
      → Bytes
      → Bytes
      → List Intent.Entry
      → Result ExclusionFailure (List FilesystemExclusion)
  resolve_exclusions workspace w home private [] = ok []
  resolve_exclusions workspace w home private (e ∷ es) =
      resolve_exclusion workspace w home private e
      >>= (λ x. resolve_exclusions workspace w home private es >>= (λ xs. ok (x ∷ xs)))

  -- ResolveFilesystemExclusions once the canonical selection is not empty.
  unfoldable pub resolve_selected :
      Bytes → Bytes → List Intent.Entry → Result ExclusionFailure (List FilesystemExclusion)
  resolve_selected workspace sessions entries =
      map_err (λ f. unsafe_workspace)
        (inspect_grant_path host (clean workspace) directory read_only)
      >>= (λ w. map_err host_failure (or_refuse host.user_home home_unavailable) >>= (λ home.
          map_err host_failure (resolution (host.eval_symlinks home) home_unavailable)
          >>= (λ real_home.
              map_err host_failure (resolve_future_path host sessions)
              >>= (λ private. resolve_exclusions workspace w real_home private entries))))

  unfoldable pub resolve_filesystem_exclusions :
      List PathExclusionIntent → Bytes → Bytes → Result ExclusionFailure (List FilesystemExclusion)
  resolve_filesystem_exclusions intents workspace sessions =
      map_err bad_intent (Intent.canonical (intent_entries intents)) >>= (λ entries. elim entries [
        | [] ↦ ok []
        | e ∷ es ↦ resolve_selected workspace sessions (e ∷ es)
      ])

unfoldable pub any_granted : FilesystemExclusion → List FilesystemGrant → Bool
any_granted x [] = false
any_granted x (g ∷ gs) = within_or_equal x.path g.path || any_granted x gs

-- Of an executable grant only the path counts here.
unfoldable pub any_overlaps : FilesystemExclusion → List Bytes → Bool
any_overlaps x [] = false
any_overlaps x (p ∷ ps) = paths_overlap x.path p || any_overlaps x ps

unfoldable pub validate_exclusion_requirements :
    List FilesystemExclusion
    → List FilesystemGrant
    → List Bytes
    → List Bytes
    → Result ExclusionFailure (Unit {0})
validate_exclusion_requirements [] grants executables inputs = ok tt
validate_exclusion_requirements (x ∷ xs) grants executables inputs =
    refuse_if (any_granted x grants) conflicts_with_grant
    >> (refuse_if (any_overlaps x executables) conflicts_with_executable
        >> (refuse_if (any_overlaps x inputs) conflicts_with_runtime_input
            >> validate_exclusion_requirements xs grants executables inputs))
