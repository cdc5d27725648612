-- ===== src/Launch/Exclusions/Requirements.antt =====
-- internal/launch/path_exclusions.go: no grant or requirement of a launch meets an excluded path.
use ai_config_selector.Prelude.{
  false, ◌≡◌, ◌↔◌, refl, List, [], ◌∷◌, All, ok, refuse_if-parts, ||_elim_false,
}
use ai_config_selector.Prelude.Bytes.{Bytes}
use ai_config_selector.Launch.Paths.{within_or_equal, paths_overlap}
use ai_config_selector.Launch.Grants.{FilesystemGrant}
use ai_config_selector.Launch.Exclusions.{
  FilesystemExclusion, conflicts_with_grant, conflicts_with_executable,
  conflicts_with_runtime_input, any_granted, any_overlaps, validate_exclusion_requirements,
}

-- The path is neither excluded nor does it contain an excluded path or lie in one.
abbrev pub Apart : FilesystemExclusion → Bytes → Type 0
Apart x p = paths_overlap x.path p ≡ false

pub record IsMet (x : FilesystemExclusion) (grants : List FilesystemGrant)
    (executables inputs : List Bytes) : Type 0 where
  pub granted : All (λ (g : FilesystemGrant). within_or_equal x.path g.path ≡ false) grants
  pub executable : All (Apart x) executables
  pub input : All (Apart x) inputs

any_granted-All :
    (x : FilesystemExclusion) (gs : List FilesystemGrant)
    → (any_granted x gs ≡ false)
      ↔ All (λ (g : FilesystemGrant). within_or_equal x.path g.path ≡ false) gs
unfolding any_granted
any_granted-All x [] = ((λ h. tt), λ h. refl)
any_granted-All x (g ∷ gs) =
    let (f, b) = any_granted-All x gs in
    (
      (λ h. (let (p, q) = ||_elim_false (within_or_equal x.path g.path) _ h in (p, f q))),
      λ h. rw (h.0, b h.1) refl,
    )

any_overlaps-All :
    (x : FilesystemExclusion) (ps : List Bytes) → (any_overlaps x ps ≡ false) ↔ All (Apart x) ps
unfolding any_overlaps
any_overlaps-All x [] = ((λ h. tt), λ h. refl)
any_overlaps-All x (p ∷ ps) =
    let (f, b) = any_overlaps-All x ps in
    (
      (λ h. (let (u, v) = ||_elim_false (paths_overlap x.path p) _ h in (u, f v))),
      λ h. rw (h.0, b h.1) refl,
    )

-- The check validateExclusionRequirements passes exactly if no grant lies at or below an excluded
-- path, and no
-- executable and no required runtime input overlaps one.
pub validate_exclusion_requirements_iff :
    (xs : List FilesystemExclusion) (grants : List FilesystemGrant)
    (executables inputs : List Bytes)
    → (validate_exclusion_requirements xs grants executables inputs ≡ ok tt)
      ↔ All (λ x. IsMet x grants executables inputs) xs
unfolding validate_exclusion_requirements
validate_exclusion_requirements_iff [] grants executables inputs = ((λ h. tt), λ h. refl)
validate_exclusion_requirements_iff (x ∷ xs) grants executables inputs =
    let (f, b) = validate_exclusion_requirements_iff xs grants executables inputs in
    (
      (λ h.
          (let (p, h₁) = refuse_if-parts (any_granted x grants) conflicts_with_grant _ h in
            let (q, h₂) =
              refuse_if-parts (any_overlaps x executables) conflicts_with_executable _ h₁ in
            let (r, h₃) =
              refuse_if-parts (any_overlaps x inputs) conflicts_with_runtime_input _ h₂ in
            (
              record {
                granted = (any_granted-All x grants).0 p;
                executable = (any_overlaps-All x executables).0 q;
                input = (any_overlaps-All x inputs).0 r;
              },
              f h₃,
            ))),
      λ h.
          rw
            (
              (any_granted-All x grants).1 h.0.granted,
              (any_overlaps-All x executables).1 h.0.executable,
              (any_overlaps-All x inputs).1 h.0.input,
            )
            (b h.1),
    )
