-- ===== src/Launch/Resolve/Outcome.antt =====
-- internal/launch/path_grants.go: what ResolveFilesystemGrants returns when it succeeds.
use ai_config_selector.Prelude.{false, ◌≡◌, List, [], ◌∷◌, All, ok, some, Any}
use ai_config_selector.Prelude.Bytes.{Bytes}
use ai_config_selector.GoPath.{clean}
use ai_config_selector.Launch.Paths.{paths_overlap}
use ai_config_selector.Launch.Grants.{FilesystemGrant}
use ai_config_selector.Launch.Host.{Host, resolved, resolve_existing_path, resolve_future_path}
use ai_config_selector.Launch.Resolve.{
  PathGrantIntent, ProtectedPath, Workspace, no_identity, resolve_protected_paths,
}
use ai_config_selector.Launch.Resolve.Requested.{IsRequested, IsWritable}
use ai_config_selector.Launch.Resolve.Covered.{IsCovered}
use ai_config_selector.Launch.Resolve.Safe.{IsGranted}

-- The workspace of the grants where no reference is relative to it.
abbrev plain : Bytes → Workspace
plain canonical = record {
  canonical = canonical;
  logical_path = [];
  witness = [];
  identity = no_identity;
}

-- The grants of a launch, with the paths that they are resolved against.
pub record IsResolved (host : Host) (intents : List PathGrantIntent) (workspace sessions : Bytes)
    (supplied supplied_writable : List Bytes) (grants : List FilesystemGrant) : Type 0 where
  pub canonical_workspace : Bytes
  pub canonical_sessions : Bytes
  pub home : Bytes
  pub canonical_home : Bytes
  pub protected : List ProtectedPath
  pub protected_writable : List ProtectedPath
  pub workspace_resolved : resolve_existing_path host workspace ≡ ok canonical_workspace
  pub sessions_resolved : resolve_future_path host sessions ≡ ok canonical_sessions
  pub home_found : host.user_home ≡ some home
  pub home_resolved : host.eval_symlinks (clean home) ≡ resolved canonical_home
  pub protected_resolved :
      resolve_protected_paths host [] (canonical_sessions ∷ supplied) ≡ ok protected
  pub covered : All (IsCovered host protected) (canonical_sessions ∷ supplied)
  pub requested : All (λ g. Any (λ i. IsRequested i g) intents) grants
  pub writable_resolved :
      Any IsWritable grants
      → resolve_protected_paths host [] supplied_writable ≡ ok protected_writable
  pub covered_writable :
      Any IsWritable grants → All (IsCovered host protected_writable) supplied_writable
  pub workspace_apart :
      All (λ (d : ProtectedPath). paths_overlap canonical_workspace d.path ≡ false) protected
  pub granted :
      All (IsGranted host canonical_workspace canonical_home protected protected_writable) grants
