-- ===== src/Launch/Revalidate/Unchanged.antt =====
-- internal/launch/path_grants.go: revalidateFilesystemGrants accepts grants that are found again.
use ai_config_selector.Prelude.{
  Bool, true, false, not, ◌≡◌, ◌||◌, ◌==◌, ==_iff, refl, sym, ap, subst, ◌∙◌, inl, inr, Bool-cases,
  List, [], ◌∷◌, All, Result, ok, ◌>>◌, refuse_if, >>=-parts, refuse_if-parts, ok-injective,
  map_err, map_err-eq-ok, ||_elim_false, &&_elim, arith,
}
use ai_config_selector.Prelude.Bytes.{Bytes, bytes_eq, bytes_eq→eq}
use ai_config_selector.Prelude.Int.{ℤ, ltb_ℤ_total}
use ai_config_selector.GoPath.{clean}
use ai_config_selector.Intent.Paths.{read_only, directory}
use ai_config_selector.Launch.Paths.{paths_overlap}
use ai_config_selector.Launch.Grants.{PathIdentity, FilesystemGrant}
use ai_config_selector.Launch.Host.{Host, Inspection, GrantError, inspect_grant_path}
use ai_config_selector.Launch.Exclusions.{session_operations_directory}
use ai_config_selector.Launch.Revalidate.{
  RevalidationError, workspace_identity, path_identity, private_state, same_identity, int_eq,
  equal_path_witness, check_workspaces, check_grants, revalidate_filesystem_grants,
}

int_eq→eq : (a b : ℤ) → int_eq a b ≡ true → a ≡ b
int_eq→eq a b h = ltb_ℤ_total a b (ground arith) (ground arith)

same_identity→eq : (i j : PathIdentity) → same_identity i j ≡ true → i ≡ j
unfolding same_identity
same_identity→eq i j h =
    let (a, h₁) = &&_elim (i.device == j.device) _ h in
    let (b, h₂) = &&_elim (i.inode == j.inode) _ h₁ in
    let (c, h₃) = &&_elim (i.mode == j.mode) _ h₂ in
    let (d, h₄) = &&_elim (i.links == j.links) _ h₃ in
    let (e, f) = &&_elim (int_eq i.size j.size) (int_eq i.modified_nanos j.modified_nanos) h₄ in
    cc (
      (==_iff i.device j.device).0 a,
      (==_iff i.inode j.inode).0 b,
      (==_iff i.mode j.mode).0 c,
      (==_iff i.links j.links).0 d,
      int_eq→eq i.size j.size e,
      int_eq→eq i.modified_nanos j.modified_nanos f,
    )

equal_path_witness→eq : (is js : List PathIdentity) → equal_path_witness is js ≡ true → is ≡ js
unfolding equal_path_witness
equal_path_witness→eq [] [] h = refl
equal_path_witness→eq (i ∷ is) (j ∷ js) h =
    let (a, b) = &&_elim (same_identity i j) (equal_path_witness is js) h in
    cc (same_identity→eq i j a, equal_path_witness→eq is js b)
equal_path_witness→eq [] (j ∷ js) h = absurd (cc h)
equal_path_witness→eq (i ∷ is) [] h = absurd (cc h)

-- The grant as a new inspection finds it: the same canonical path, identity and witness, and still
-- apart from the directories of the Sessions.
abbrev pub found : FilesystemGrant → Inspection
found g = record { canonical = g.path; witness = g.logical_witness; identity = g.identity }

pub record IsFound (host : Host) (sessions : Bytes) (g : FilesystemGrant) : Type 0 where
  pub again : inspect_grant_path host g.logical_path g.type g.access ≡ ok (found g)
  pub apart_sessions : paths_overlap g.path sessions ≡ false
  pub apart_operations : paths_overlap g.path (session_operations_directory sessions) ≡ false

-- The workspace of a relative grant as a new inspection finds it.
abbrev pub found_workspace : FilesystemGrant → Inspection
found_workspace g = record {
  canonical = g.workspace_path;
  witness = g.workspace_logical_witness;
  identity = g.workspace_identity;
}

abbrev pub WorkspaceFound : Host → Bytes → FilesystemGrant → Type 0
WorkspaceFound host workspace g =
    g.workspace_relative ≡ true
    → (clean workspace ≡ g.workspace_logical_path)
      × (inspect_grant_path host (clean workspace) directory read_only ≡ ok (found_workspace g))

inspection_again :
    (m : Result GrantError Inspection) (i j : Inspection)
    → m ≡ ok i
    → bytes_eq i.canonical j.canonical ≡ true
    → same_identity i.identity j.identity ≡ true
    → equal_path_witness i.witness j.witness ≡ true
    → m ≡ ok j
inspection_again m i j h a b c =
    let x = bytes_eq→eq i.canonical j.canonical a in
    let y = same_identity→eq i.identity j.identity b in
    let z = equal_path_witness→eq i.witness j.witness c in
    let q : i ≡ j = cc (x, y, z) in h ∙ ap ok q

not-eq-false : (b : Bool) → not b ≡ false → b ≡ true
not-eq-false b h = ground arith

check_grants-All :
    (host : Host) (sessions : Bytes) (gs : List FilesystemGrant) (u : Unit {0})
    → check_grants host sessions gs ≡ ok u
    → All (IsFound host sessions) gs
unfolding check_grants
check_grants-All host sessions [] u h = tt
check_grants-All host sessions (g ∷ gs) u h =
    let m = inspect_grant_path host g.logical_path g.type g.access in
    let (i, a, h₁) = >>=-parts (map_err (λ e. path_identity) m) _ h in
    let (b, h₂) =
      refuse_if-parts
        (not (bytes_eq i.canonical g.path)
          || (not (same_identity i.identity g.identity)
              || not (equal_path_witness i.witness g.logical_witness)))
        path_identity _ h₁ in
    let (c, h₃) =
      refuse_if-parts
        (paths_overlap i.canonical sessions
          || paths_overlap i.canonical (session_operations_directory sessions))
        private_state _ h₂ in
    let (x, b₁) = ||_elim_false (not (bytes_eq i.canonical g.path)) _ b in
    let (y, z) = ||_elim_false (not (same_identity i.identity g.identity)) _ b₁ in
    let (v, w) = ||_elim_false (paths_overlap i.canonical sessions) _ c in
    let same = bytes_eq→eq i.canonical g.path (not-eq-false _ x) in
    (
      record {
        again =
            inspection_again m i (found g) (map_err-eq-ok (λ e. path_identity) m a)
              (not-eq-false _ x) (not-eq-false _ y) (not-eq-false _ z);
        apart_sessions = subst (λ p. paths_overlap p sessions ≡ false) same v;
        apart_operations =
            subst (λ p. paths_overlap p (session_operations_directory sessions) ≡ false) same w;
      },
      check_grants-All host sessions gs u h₃,
    )

check_workspaces-All :
    (host : Host) (workspace : Bytes) (gs : List FilesystemGrant) (u : Unit {0})
    → check_workspaces host workspace gs ≡ ok u
    → All (WorkspaceFound host workspace) gs
unfolding check_workspaces
check_workspaces-All host workspace [] u h = tt
check_workspaces-All host workspace (g ∷ gs) u h = elim (Bool-cases g.workspace_relative) [
  | inr r ↦ ((λ q. absurd (cc (r, q))), check_workspaces-All host workspace gs u (ground arith))
  | inl r ↦
      let m = inspect_grant_path host (clean workspace) directory read_only in
      let (i, a, h₁) = >>=-parts (map_err (λ e. workspace_identity) m) (rest g) (ground arith) in
      let (b, h₂) =
        refuse_if-parts
          (not (bytes_eq (clean workspace) g.workspace_logical_path)
            || (not (bytes_eq i.canonical g.workspace_path)
                || (not (same_identity i.identity g.workspace_identity)
                    || not (equal_path_witness i.witness g.workspace_logical_witness))))
          workspace_identity _ h₁ in
      let (x, b₁) = ||_elim_false (not (bytes_eq (clean workspace) g.workspace_logical_path)) _ b in
      let (y, b₂) = ||_elim_false (not (bytes_eq i.canonical g.workspace_path)) _ b₁ in
      let (z, t) = ||_elim_false (not (same_identity i.identity g.workspace_identity)) _ b₂ in
      (
        λ q. (
          bytes_eq→eq (clean workspace) g.workspace_logical_path (not-eq-false _ x),
          inspection_again m i (found_workspace g) (map_err-eq-ok (λ e. workspace_identity) m a)
              (not-eq-false _ y) (not-eq-false _ z) (not-eq-false _ t),
        ),
        check_workspaces-All host workspace gs u h₂,
      )
]
  where
    rest : FilesystemGrant → Inspection → Result RevalidationError (Unit {0})
    rest g i =
        refuse_if
          (not (bytes_eq (clean workspace) g.workspace_logical_path)
            || (not (bytes_eq i.canonical g.workspace_path)
                || (not (same_identity i.identity g.workspace_identity)
                    || not (equal_path_witness i.witness g.workspace_logical_witness))))
          workspace_identity
        >> check_workspaces host workspace gs

-- If revalidateFilesystemGrants succeeds, it returns the grants as they were, and a new inspection
-- of each grant finds the same canonical path, identity and witness, apart from the directories of
-- the Sessions and their operations; for a workspace-relative grant it finds the workspace unchanged
-- as well.
pub revalidate_filesystem_grants-All :
    (host : Host) (grants : List FilesystemGrant) (workspace sessions : Bytes)
    (result : List FilesystemGrant)
    → revalidate_filesystem_grants host grants workspace sessions ≡ ok result
    → (result ≡ grants)
      × All (IsFound host sessions) grants
      × All (WorkspaceFound host workspace) grants
unfolding revalidate_filesystem_grants
revalidate_filesystem_grants-All host grants workspace sessions result h =
    let (u, a, h₁) = >>=-parts (check_workspaces host workspace grants) _ h in
    let (v, b, h₂) = >>=-parts (check_grants host sessions grants) (λ x. ok grants) h₁ in
    (
      sym (ok-injective h₂),
      check_grants-All host sessions grants v b,
      check_workspaces-All host workspace grants u a,
    )
