-- ===== src/Launch/Exclusions/Placed.antt =====
-- internal/launch/path_exclusions.go: where the excluded paths of a launch lie.
use ai_config_selector.Prelude.{
  Bool, true, false, not, ◌≡◌, ◌⊎◌, ◌&&◌, map, ap, ◌∙◌, some, inl, inr, refl, sym, List, [], ◌∷◌,
  All, ok, refuse_if, >>=-parts, refuse_if-parts, ok-injective, subst, arith, ||_elim_false,
  map_err, map_err-eq-ok,
}
use ai_config_selector.Prelude.Bytes.{Bytes, bytes_eq, bytes_eq_iff}
use ai_config_selector.GoPath.{clean}
use ai_config_selector.Intent.Paths.{read_only, directory}
use ai_config_selector.Intent.Reference.{workspace_relative, local_absolute}
use ai_config_selector.Intent.Reference.Laws.{Anchored}
use ai_config_selector.Intent.Exclusions as Intent
use ai_config_selector.Intent.Exclusions.Canonical.{canonical_exclusions-Anchored}
use ai_config_selector.Launch.Paths.{within_or_equal, paths_overlap}
use ai_config_selector.Launch.Host.{
  Host, Inspection, home_unavailable, or_refuse, or_refuse-eq-ok, resolution, resolution-eq-ok,
  resolved, resolve_future_path, inspect_grant_path, supported_local_grant_root,
}
use ai_config_selector.Launch.Exclusions.{
  PathExclusionIntent, FilesystemExclusion, ExclusionFailure, Presence, bad_intent,
  unsafe_workspace, host_failure, unavailable, unsafe_link, escapes_workspace, outside_roots,
  conflicts_with_session, intent_entries, nearest_existing_ancestor, session_operations_directory,
  required, check_path, logical_path, excluded_path, resolve_exclusion, resolve_exclusions,
  resolve_selected, resolve_filesystem_exclusions,
}

-- An excluded path lies in the workspace, under the home or on a volume, and apart from what the
-- Session needs.
pub record IsPlaced (host : Host) (workspace home private : Bytes) (x : FilesystemExclusion)
    : Type 0 where
  pub placed :
      (within_or_equal workspace x.path ≡ true)
      ⊎ (supported_local_grant_root host home x.path ≡ true)
  pub sessions : paths_overlap x.path private ≡ false
  pub operations : paths_overlap x.path (session_operations_directory private) ≡ false

passed : (a b : Bytes) (c : Bool) → (bytes_eq a b && not c) ≡ false → a ≡ b → c ≡ true
passed a b c h e = go (bytes_eq a b) c h ((bytes_eq_iff a b).1 e)
  where
    go : (t c : Bool) → (t && not c) ≡ false → t ≡ true → c ≡ true
    go t c h e = ground arith

last_refusal : (t : Bool) (e : ExclusionFailure) (u : Unit {0}) → refuse_if t e ≡ ok u → t ≡ false
last_refusal true e u h = absurd (cc h)
last_refusal false e u h = refl

module _ (host : Host) (lstat : Bytes → Presence) where
  check_path-IsPlaced :
      (workspace home private kind : Bytes) (x : FilesystemExclusion) (p : Bytes) (u : Unit {0})
      → Anchored kind p
      → check_path host lstat workspace home private kind x.path ≡ ok u
      → IsPlaced host workspace home private x
  unfolding check_path
  check_path-IsPlaced workspace home private kind x p u anchored h =
      let (a, h₁) =
        refuse_if-parts (bytes_eq kind workspace_relative && not (within_or_equal workspace x.path))
          escapes_workspace _ h in
      let (b, h₂) =
        refuse_if-parts
          (bytes_eq kind local_absolute && not (supported_local_grant_root host home x.path))
          outside_roots _ h₁ in
      let (c, d) =
        ||_elim_false (paths_overlap x.path private) _
          (last_refusal _ conflicts_with_session u h₂) in
      record {
        placed = elim anchored [
          | inl k ↦ inl (passed kind workspace_relative (within_or_equal workspace x.path) a k.0)
          | inr k ↦
              inr (passed kind local_absolute (supported_local_grant_root host home x.path) b k.0)
        ];
        sessions = c;
        operations = d;
      }

  module _ (workspace : Bytes) (w : Inspection) (home private : Bytes) where
    resolve_exclusion-IsPlaced :
        (e : Intent.Entry) (x : FilesystemExclusion)
        → Anchored e.reference.kind e.reference.path
        → resolve_exclusion host lstat workspace w home private e ≡ ok x
        → IsPlaced host w.canonical home private x
    unfolding resolve_exclusion
    resolve_exclusion-IsPlaced e x anchored h =
        let logical = logical_path host lstat w.canonical e.reference in
        let (a, f, h₁) =
          >>=-parts (required (nearest_existing_ancestor lstat logical) unavailable) _ h in
        let (i, g, h₂) =
          >>=-parts (map_err (λ f. unsafe_link) (inspect_grant_path host a.existing _ read_only)) _
            h₁ in
        let (path, k, h₃) = >>=-parts (excluded_path host lstat i.canonical a logical) _ h₂ in
        let (u, c, h₄) =
          >>=-parts (check_path host lstat w.canonical home private e.reference.kind path) _ h₃ in
        subst (IsPlaced host w.canonical home private) (ok-injective h₄) (
          check_path-IsPlaced w.canonical home private e.reference.kind _ e.reference.path u
            anchored c)

    resolve_exclusions-All :
        (es : List Intent.Entry) (xs : List FilesystemExclusion)
        → All (λ (e : Intent.Entry). Anchored e.reference.kind e.reference.path) es
        → resolve_exclusions host lstat workspace w home private es ≡ ok xs
        → All (IsPlaced host w.canonical home private) xs
    unfolding resolve_exclusions
    resolve_exclusions-All [] xs anchored h =
        subst (All (IsPlaced host w.canonical home private)) (ok-injective h) tt
    resolve_exclusions-All (e ∷ es) xs anchored h =
        let (x, a, h₁) = >>=-parts (resolve_exclusion host lstat workspace w home private e) _ h in
        let (rest, b, h₂) =
          >>=-parts (resolve_exclusions host lstat workspace w home private es) (λ ys. ok (x ∷ ys))
            h₁ in
        subst (All (IsPlaced host w.canonical home private)) (ok-injective h₂)
          (resolve_exclusion-IsPlaced e x anchored.0 a, resolve_exclusions-All es rest anchored.1 b)

    resolve_exclusion-id :
        (e : Intent.Entry) (x : FilesystemExclusion)
        → resolve_exclusion host lstat workspace w home private e ≡ ok x
        → x.id ≡ e.id
    unfolding resolve_exclusion
    resolve_exclusion-id e x h =
        let logical = logical_path host lstat w.canonical e.reference in
        let (a, f, h₁) =
          >>=-parts (required (nearest_existing_ancestor lstat logical) unavailable) _ h in
        let (i, g, h₂) =
          >>=-parts (map_err (λ f. unsafe_link) (inspect_grant_path host a.existing _ read_only)) _
            h₁ in
        let (path, k, h₃) = >>=-parts (excluded_path host lstat i.canonical a logical) _ h₂ in
        let (u, c, h₄) =
          >>=-parts (check_path host lstat w.canonical home private e.reference.kind path) _ h₃ in
        ap (λ (y : FilesystemExclusion). y.id) (sym (ok-injective h₄))

    resolve_exclusions-ids :
        (es : List Intent.Entry) (xs : List FilesystemExclusion)
        → resolve_exclusions host lstat workspace w home private es ≡ ok xs
        → map (λ x. x.id) xs ≡ map (λ e. e.id) es
    unfolding resolve_exclusions
    resolve_exclusions-ids [] xs h = ap (map (λ x. x.id)) (sym (ok-injective h))
    resolve_exclusions-ids (e ∷ es) xs h =
        let (x, a, h₁) = >>=-parts (resolve_exclusion host lstat workspace w home private e) _ h in
        let (rest, b, h₂) =
          >>=-parts (resolve_exclusions host lstat workspace w home private es) (λ ys. ok (x ∷ ys))
            h₁ in
        ap (map (λ x. x.id)) (sym (ok-injective h₂))
        ∙ (ap (λ i. i ∷ map (λ y. y.id) rest) (resolve_exclusion-id e x a)
            ∙ ap (◌∷◌ e.id) (resolve_exclusions-ids es rest b))

  -- The exclusions are placed by the canonical workspace, the user's home without links, and the
  -- directory of the Sessions.
  pub record Placed (workspace sessions : Bytes) (xs : List FilesystemExclusion) : Type 0 where
    pub inspected : Inspection
    pub user_home : Bytes
    pub home : Bytes
    pub private : Bytes
    pub workspace_inspected :
        inspect_grant_path host (clean workspace) directory read_only ≡ ok inspected
    pub home_found : host.user_home ≡ some user_home
    pub home_resolved : host.eval_symlinks user_home ≡ resolved home
    pub sessions_resolved : resolve_future_path host sessions ≡ ok private
    pub all_placed : All (IsPlaced host inspected.canonical home private) xs

  resolve_selected-Placed :
      (workspace sessions : Bytes) (es : List Intent.Entry) (xs : List FilesystemExclusion)
      → All (λ (e : Intent.Entry). Anchored e.reference.kind e.reference.path) es
      → resolve_selected host lstat workspace sessions es ≡ ok xs
      → Placed workspace sessions xs × (map (λ x. x.id) xs ≡ map (λ e. e.id) es)
  unfolding resolve_selected
  resolve_selected-Placed workspace sessions es xs anchored h =
      let (w, a, h₁) =
        >>=-parts
          (map_err (λ f. unsafe_workspace)
            (inspect_grant_path host (clean workspace) directory read_only))
          _ h in
      let (home, b, h₂) =
        >>=-parts (map_err host_failure (or_refuse host.user_home home_unavailable)) _ h₁ in
      let (real_home, c, h₃) =
        >>=-parts (map_err host_failure (resolution (host.eval_symlinks home) home_unavailable)) _
          h₂ in
      let (private, d, h₄) =
        >>=-parts (map_err host_failure (resolve_future_path host sessions)) _ h₃ in
      (
        record {
          inspected = w;
          user_home = home;
          home = real_home;
          private = private;
          workspace_inspected = map_err-eq-ok (λ f. unsafe_workspace) _ a;
          home_found =
              or_refuse-eq-ok host.user_home home_unavailable (map_err-eq-ok host_failure _ b);
          home_resolved =
              resolution-eq-ok (host.eval_symlinks home) home_unavailable
                (map_err-eq-ok host_failure _ c);
          sessions_resolved = map_err-eq-ok host_failure _ d;
          all_placed = resolve_exclusions-All workspace w real_home private es xs anchored h₄;
        },
        resolve_exclusions-ids workspace w real_home private es xs h₄,
      )

  -- The exclusions of a launch: they have the identifiers of the canonical selection, in its order.
  abbrev pub Excluded : List PathExclusionIntent → Bytes → Bytes → List FilesystemExclusion → Type 0
  Excluded intents workspace sessions xs =
      (es : List Intent.Entry) × (Intent.canonical (intent_entries intents) ≡ ok es)
      × (map (λ x. x.id) xs ≡ map (λ e. e.id) es)
      × ((es ≡ []) ⊎ Placed workspace sessions xs)

  -- If ResolveFilesystemExclusions succeeds, then it returns one exclusion for each entry of the
  -- canonical selection, with its identifier and in its order. Unless there is none, the user's home
  -- and the workspace are known, and the path of every exclusion lies in the canonical workspace, or
  -- under the home without its links or on a mounted volume, and overlaps neither the directory of
  -- the Sessions nor that of the Session operations.
  pub resolve_filesystem_exclusions-Placed :
      (intents : List PathExclusionIntent) (workspace sessions : Bytes)
      (xs : List FilesystemExclusion)
      → resolve_filesystem_exclusions host lstat intents workspace sessions ≡ ok xs
      → Excluded intents workspace sessions xs
  unfolding resolve_filesystem_exclusions
  resolve_filesystem_exclusions-Placed intents workspace sessions xs h =
      let (es, a, k) =
        >>=-parts (map_err bad_intent (Intent.canonical (intent_entries intents))) _ h in
      let c = map_err-eq-ok bad_intent _ a in
      let (ids, placed) = go es (canonical_exclusions-Anchored (intent_entries intents) es c) k in
      (es, c, ids, placed)
    where
      go :
          (es : List Intent.Entry)
          → All (λ (e : Intent.Entry). Anchored e.reference.kind e.reference.path) es
          → elim es [
            | [] ↦ ok []
            | e ∷ es ↦ resolve_selected host lstat workspace sessions (e ∷ es)
          ]
            ≡ ok xs
          → (map (λ x. x.id) xs ≡ map (λ (e : Intent.Entry). e.id) es)
            × ((es ≡ []) ⊎ Placed workspace sessions xs)
      go [] anchored k = (ap (map (λ x. x.id)) (sym (ok-injective k)), inl refl)
      go (e ∷ es) anchored k =
          let (placed, ids) = resolve_selected-Placed workspace sessions (e ∷ es) xs anchored k in
          (ids, inr placed)
