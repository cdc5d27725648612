-- ===== src/Launch/Host.antt =====
-- What internal/launch asks of the file system, as a record of the answers, and its helpers that
-- resolve a path: resolveExistingPath and resolveFuturePath of sandbox.go, and inspectGrantPath and
-- supportedLocalGrantRoot of path_grants.go. One record stands for the file system during one call:
-- what changes under a call that runs is not modelled.
use mathlib.Core.List.{reverse}
use ai_config_selector.Prelude.{
  ℕ, ◌≡◌, ap, ok-injective, Bool, true, false, not, ◌&&◌, ◌||◌, ◌==◌, if◌then◌else◌, Option, none,
  some, List, [], ◌∷◌, Result, ok, err, ◌>>=◌, ◌>>◌, refuse_if,
}
use ai_config_selector.Prelude.Bytes.{Bytes, codes, bytes_eq}
use ai_config_selector.Prelude.Int.{ℤ}
use ai_config_selector.GoPath.{slash, split, clean, components, render, join_path, is_abs}
use ai_config_selector.Intent.Paths.{read_write, file, directory}
use ai_config_selector.Launch.Paths.{path_within}
use ai_config_selector.Launch.Grants.{PathIdentity}

-- filepath.EvalSymlinks: the resolved path, or an error that is os.ErrNotExist or not.
pub data Resolution : Type 0 where
  resolved : Bytes → Resolution
  missing : Resolution
  failed : Resolution

-- os.FileInfo with its Stat_t.
pub record FileInfo : Type 0 where
  pub is_dir : Bool
  pub is_regular : Bool
  pub device : ℕ
  pub inode : ℕ
  pub mode : ℕ
  pub links : ℕ
  pub size : ℤ
  pub modified_nanos : ℤ

pub record Host : Type 0 where
  pub eval_symlinks : Bytes → Resolution
  pub stat : Bytes → Option FileInfo
  -- inspectLogicalComponents, which opens the components one after the other
  pub logical_components : Bytes → Option (List PathIdentity)
  -- openCanonicalPath and Stat of the file that it opens
  pub open_canonical : Bytes → Bytes → Option FileInfo
  pub user_home : Option Bytes

pub data GrantError : Type 0 where
  not_absolute : GrantError
  unresolved : GrantError
  not_directory : GrantError
  unsafe_path : GrantError
  wrong_type : GrantError
  several_links : GrantError
  workspace_changed : GrantError
  home_unavailable : GrantError
  bad_protected_path : GrantError
  workspace_overlaps : GrantError
  unsupported_reference : GrantError
  escapes_anchor : GrantError
  unsupported_root : GrantError
  overlaps_protected : GrantError
  system_root : GrantError
  overlaps_runtime_input : GrantError

abbrev pub or_refuse {ℓ} : {A : Type ℓ} → Option A → GrantError → Result GrantError A
or_refuse none reason = err reason
or_refuse (some a) reason = ok a

abbrev pub resolution : Resolution → GrantError → Result GrantError Bytes
resolution (resolved p) reason = ok p
resolution missing reason = err reason
resolution failed reason = err reason

pub or_refuse-eq-ok {ℓ} :
    {A : Type ℓ} (o : Option A) (e : GrantError) {a : A} → or_refuse o e ≡ ok a → o ≡ some a
or_refuse-eq-ok none e h = cc
or_refuse-eq-ok (some b) e h = ap some (ok-injective h)

pub resolution-eq-ok :
    (r : Resolution) (e : GrantError) {p : Bytes} → resolution r e ≡ ok p → r ≡ resolved p
resolution-eq-ok (resolved q) e h = ap resolved (ok-injective h)
resolution-eq-ok missing e h = cc
resolution-eq-ok failed e h = cc

-- identityFromFileInfo
unfoldable pub identity_from_file_info : FileInfo → PathIdentity
identity_from_file_info info = record {
  device = info.device;
  inode = info.inode;
  mode = info.mode;
  links = if info.is_regular then info.links else 0;
  size = if info.is_regular then info.size else ℤ.pos 0;
  modified_nanos = if info.is_regular then info.modified_nanos else ℤ.pos 0;
}

-- What inspectGrantPath returns.
pub record Inspection : Type 0 where
  pub canonical : Bytes
  pub witness : List PathIdentity
  pub identity : PathIdentity

module _ (host : Host) where
  open host use {eval_symlinks, stat, logical_components, open_canonical}

  -- resolveExistingPath(path, true, false)
  unfoldable pub resolve_existing_path : Bytes → Result GrantError Bytes
  resolve_existing_path path =
      refuse_if (not (is_abs path)) not_absolute
      >> (resolution (eval_symlinks (clean path)) unresolved >>= (λ found.
          or_refuse (stat found) unresolved
          >>= (λ info. refuse_if (not info.is_dir) not_directory >> ok found)))

  abbrev join_all : Bytes → List Bytes → Bytes
  join_all path [] = path
  join_all path (c ∷ cs) = join_all (join_path path c) cs

  unfoldable pub existing_parent : Bytes → List Bytes → Result GrantError Bytes
  existing_parent found suffix = elim (stat found) [
    | none ↦ err not_directory
    | some info ↦ refuse_if (not info.is_dir) not_directory >> ok (join_all found suffix)
  ]

  -- The loop of resolveFuturePath: `above` is the elements of `current` from the last one up, and
  -- `suffix` those already taken off.
  unfoldable pub nearest_parent : List Bytes → List Bytes → Result GrantError Bytes
  nearest_parent [] suffix = elim (eval_symlinks (render true [])) [
    | resolved found ↦ existing_parent found suffix
    | missing ↦ err unresolved
    | failed ↦ err unresolved
  ]
  nearest_parent (c ∷ above) suffix =
      let parent = nearest_parent above (c ∷ suffix) in
      elim (eval_symlinks (render true (reverse (c ∷ above)))) [
        | resolved found ↦ existing_parent found suffix
        | missing ↦ parent
        | failed ↦ parent
      ]

  unfoldable pub resolve_future_path : Bytes → Result GrantError Bytes
  resolve_future_path path =
      refuse_if (not (is_abs path)) not_absolute >> nearest_parent (reverse (components path)) []

  unfoldable pub inspect_grant_path : Bytes → Bytes → Bytes → Result GrantError Inspection
  inspect_grant_path path want access =
      or_refuse (logical_components (clean path)) unsafe_path >>= (λ witness.
        resolution (eval_symlinks (clean path)) unresolved >>= (λ canonical.
          or_refuse (open_canonical canonical want) unsafe_path >>= (λ info.
            refuse_if
              ((bytes_eq want directory && not info.is_dir)
                || (bytes_eq want file && not info.is_regular))
              wrong_type
            >> (refuse_if
                  (bytes_eq access read_write && (bytes_eq want file && not (info.links == 1)))
                  several_links
                >> ok (record {
                  canonical = canonical;
                  witness = witness;
                  identity = identity_from_file_info info;
                })))))

  abbrev other_device : Option FileInfo → Option FileInfo → Bool
  other_device (some volume) (some parent) = volume.is_dir && not (volume.device == parent.device)
  other_device _ _ = false

  -- `/Volumes/<name>/...` where the volume is a directory on another device than `/Volumes`.
  unfoldable pub on_volume : List Bytes → Bool
  on_volume (first ∷ name ∷ below ∷ rest) =
      bytes_eq first (codes "Volumes")
      && (not (bytes_eq name [])
          && other_device (stat (render true (first ∷ name ∷ [])))
              (stat (render true (first ∷ []))))
  on_volume _ = false

  -- strings.TrimPrefix(path, "/")
  abbrev trim_slash : Bytes → Bytes
  trim_slash [] = []
  trim_slash (c ∷ cs) = if c == slash then cs else c ∷ cs

  unfoldable pub supported_local_grant_root : Bytes → Bytes → Bool
  supported_local_grant_root home candidate =
      path_within home candidate || on_volume (split slash (trim_slash (clean candidate)))
