-- ===== src/Launch/Grants.antt =====
-- internal/launch/path_grants.go: the path grants of a launch, and which of them are effective.
pub mod Authority
use ai_config_selector.Prelude.{
  ℕ, Bool, true, false, not, ◌&&◌, ◌||◌, if◌then◌else◌, List, [], ◌∷◌, ◌++◌,
}
use ai_config_selector.Prelude.Bytes.{Bytes, codes, bytes_eq, bytes_lt}
use ai_config_selector.Prelude.Int.{ℤ}
use ai_config_selector.Intent.Paths.{read_only, read_write}
use ai_config_selector.Launch.Paths.{within_or_equal}

pub record PathIdentity : Type 0 where
  pub device : ℕ
  pub inode : ℕ
  pub mode : ℕ
  pub links : ℕ
  pub size : ℤ
  pub modified_nanos : ℤ

pub record FilesystemGrant : Type 0 where
  pub id : Bytes
  pub access : Bytes
  pub type : Bytes
  pub logical_path : Bytes
  pub logical_witness : List PathIdentity
  pub path : Bytes
  pub identity : PathIdentity
  pub workspace_relative : Bool
  pub workspace_logical_path : Bytes
  pub workspace_logical_witness : List PathIdentity
  pub workspace_path : Bytes
  pub workspace_identity : PathIdentity
  pub effective : Bool

-- WorkspaceAccess: the empty text is the legacy value.
abbrev pub legacy : Bytes
legacy = []

unfoldable pub workspace_writable : Bytes → Bool
workspace_writable access = bytes_eq access legacy || bytes_eq access read_write

-- The comparison of sort.Slice in reduceFilesystemGrants.
unfoldable pub less : FilesystemGrant → FilesystemGrant → Bool
less g h =
    if not (bytes_eq g.path h.path) then bytes_lt g.path h.path else bytes_lt h.access g.access

unfoldable pub insert_grant : FilesystemGrant → List FilesystemGrant → List FilesystemGrant
insert_grant g [] = g ∷ []
insert_grant g (h ∷ hs) = let rest = insert_grant g hs in if less h g then h ∷ rest else g ∷ h ∷ hs

unfoldable pub sort_grants : List FilesystemGrant → List FilesystemGrant
sort_grants [] = []
sort_grants (g ∷ gs) = insert_grant g (sort_grants gs)

-- Nothing is gained from the grant over the authority on the workspace.
unfoldable pub in_workspace : Bytes → Bytes → FilesystemGrant → Bool
in_workspace workspace access g =
    within_or_equal workspace g.path && (bytes_eq g.access read_only || workspace_writable access)

unfoldable pub dominates : FilesystemGrant → FilesystemGrant → Bool
dominates current g =
    current.effective
    && (within_or_equal current.path g.path
        && (bytes_eq current.access read_write || bytes_eq g.access read_only))

unfoldable pub any_dominates : List FilesystemGrant → FilesystemGrant → Bool
any_dominates [] g = false
any_dominates (current ∷ result) g = dominates current g || any_dominates result g

-- The body of the loop: whether the grant is appended as effective.
unfoldable pub is_effective : Bytes → Bytes → List FilesystemGrant → FilesystemGrant → Bool
is_effective workspace access result g =
    if in_workspace workspace access g then false else not (any_dominates result g)

unfoldable pub mark :
    Bytes → Bytes → List FilesystemGrant → List FilesystemGrant → List FilesystemGrant
mark workspace access result [] = result
mark workspace access result (g ∷ gs) =
    mark workspace access
      (result ++ (record g { effective = is_effective workspace access result g } ∷ [])) gs

unfoldable pub reduce_filesystem_grants :
    List FilesystemGrant → Bytes → Bytes → List FilesystemGrant
reduce_filesystem_grants grants workspace access = mark workspace access [] (sort_grants grants)
