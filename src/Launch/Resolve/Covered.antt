-- ===== src/Launch/Resolve/Covered.antt =====
-- internal/launch/path_grants.go: resolveProtectedPaths covers every input by a protected path.
use ai_config_selector.Prelude.{
  true, false, not, ◌≡◌, ◌⊎◌, inl, inr, refl, sym, ap, ◌∙◌, if◌then◌else◌, List, [], ◌∷◌, All,
  All-map, Any, Any-map, ok, >>=-parts, refuse_if-parts, map_err-eq-ok, map_err, ok-injective,
  subst, Bool-cases, arith, ◌>>=◌, err,
}
use ai_config_selector.Prelude.Bytes.{Bytes, bytes_eq, bytes_eq→eq, seen}
use ai_config_selector.GoPath.{clean, is_abs}
use ai_config_selector.Launch.Host.{
  Host, Resolution, resolved, missing, failed, bad_protected_path, or_refuse,
  identity_from_file_info, resolve_future_path,
}
use ai_config_selector.Launch.Resolve.{
  ProtectedPath, no_identity, protected_path, resolve_protected_paths,
}

module _ (host : Host) where
  -- What a protected input stands for: what its links lead to, or, where that is missing, where it would be.
  abbrev pub StandsFor : Bytes → Bytes → Type 0
  StandsFor input path =
      (host.eval_symlinks (clean input) ≡ resolved path)
      ⊎ ((host.eval_symlinks (clean input) ≡ missing) × (resolve_future_path host input ≡ ok path))

  -- The input is covered by one of the protected paths.
  abbrev pub IsCovered : List ProtectedPath → Bytes → Type 0
  IsCovered ds input = Any (λ (d : ProtectedPath). StandsFor input d.path) ds

  protected_path-StandsFor :
      (input : Bytes) (d : ProtectedPath)
      → protected_path host input ≡ ok d
      → StandsFor input d.path
  unfolding protected_path
  protected_path-StandsFor input d h =
      from (host.eval_symlinks (clean input)) refl (refuse_if-parts (not (is_abs input)) _ _ h).1
    where
      from :
          (r : Resolution)
          → host.eval_symlinks (clean input) ≡ r
          → (elim r [
            | resolved canonical ↦ or_refuse (host.stat canonical) bad_protected_path >>= (λ info.
                ok (record {
                  path = canonical;
                  exists = true;
                  identity = identity_from_file_info info;
                }))
            | missing ↦
                map_err (λ e. bad_protected_path) (resolve_future_path host input)
                >>= (λ path. ok (record { path = path; exists = false; identity = no_identity }))
            | failed ↦ err bad_protected_path
          ])
            ≡ ok d
          → StandsFor input d.path
      from (resolved p) e k =
          let (info, a, k₁) = >>=-parts (or_refuse (host.stat p) bad_protected_path) _ k in
          inl (e ∙ ap (λ (d : ProtectedPath). resolved d.path) (ok-injective k₁))
      from missing e k =
          let (p, a, k₁) =
            >>=-parts (map_err (λ e. bad_protected_path) (resolve_future_path host input)) _ k in
          let f = map_err-eq-ok (λ e. bad_protected_path) (resolve_future_path host input) a in
          inr (e, f ∙ ap (λ (d : ProtectedPath). ok d.path) (ok-injective k₁))
      from failed e k = absurd (cc k)

  seen-Any : (paths : List Bytes) (p : Bytes) → seen paths p ≡ true → Any (λ q. q ≡ p) paths
  unfolding seen
  seen-Any [] p h = absurd (cc h)
  seen-Any (q ∷ qs) p h = elim (Bool-cases (bytes_eq q p)) [
    | inl e ↦ inl (bytes_eq→eq q p e)
    | inr e ↦ inr (seen-Any qs p (ground arith))
  ]

  -- The path is among those met before or among the results.
  abbrev IsMet : List Bytes → List ProtectedPath → Bytes → Type 0
  IsMet paths ds p = Any (λ q. q ≡ p) paths ⊎ Any (λ (d : ProtectedPath). d.path ≡ p) ds

  abbrev StandsMet : List Bytes → List ProtectedPath → Bytes → Type 0
  StandsMet paths ds input = (p : Bytes) × StandsFor input p × IsMet paths ds p

  IsMet-head :
      (paths : List Bytes) (d : ProtectedPath) (rest : List ProtectedPath)
      → IsMet paths (if seen paths d.path then rest else d ∷ rest) d.path
  IsMet-head paths d rest = elim (Bool-cases (seen paths d.path)) [
    | inl e ↦ inl (seen-Any paths d.path e)
    | inr e ↦ inr (rw e (inl refl))
  ]

  IsMet-tail :
      (paths : List Bytes) (d : ProtectedPath) (rest : List ProtectedPath) (p : Bytes)
      → IsMet (d.path ∷ paths) rest p
      → IsMet paths (if seen paths d.path then rest else d ∷ rest) p
  IsMet-tail paths d rest p (inl (inl e)) =
      subst (IsMet paths (if seen paths d.path then rest else d ∷ rest)) e (IsMet-head paths d rest)
  IsMet-tail paths d rest p (inl (inr k)) = inl k
  IsMet-tail paths d rest p (inr k) = elim (Bool-cases (seen paths d.path)) [
    | inl e ↦ inr (rw e k)
    | inr e ↦ inr (rw e (inr k))
  ]

  resolve_protected_paths-StandsMet :
      (paths inputs : List Bytes) (ds : List ProtectedPath)
      → resolve_protected_paths host paths inputs ≡ ok ds
      → All (StandsMet paths ds) inputs
  unfolding resolve_protected_paths
  resolve_protected_paths-StandsMet paths [] ds h = tt
  resolve_protected_paths-StandsMet paths (input ∷ inputs) ds h =
      let (d, a, h₁) = >>=-parts (protected_path host input) _ h in
      let (rest, b, h₂) = >>=-parts (resolve_protected_paths host (d.path ∷ paths) inputs) _ h₁ in
      subst (λ ds. All (StandsMet paths ds) (input ∷ inputs)) (ok-injective h₂)
        (
          (d.path, protected_path-StandsFor input d a, IsMet-head paths d rest),
          All-map inputs (λ i (p, s, m). (p, s, IsMet-tail paths d rest p m))
              (resolve_protected_paths-StandsMet (d.path ∷ paths) inputs rest b),
        )

  pub resolve_protected_paths-IsCovered :
      (inputs : List Bytes) (ds : List ProtectedPath)
      → resolve_protected_paths host [] inputs ≡ ok ds
      → All (IsCovered ds) inputs
  resolve_protected_paths-IsCovered inputs ds h =
      All-map inputs (λ i k. covered i k) (resolve_protected_paths-StandsMet [] inputs ds h)
    where
      covered : (input : Bytes) → StandsMet [] ds input → IsCovered ds input
      covered input (p, s, inl k) = absurd k
      covered input (p, s, inr k) = Any-map ds (λ d e. subst (StandsFor input) (sym e) s) k
