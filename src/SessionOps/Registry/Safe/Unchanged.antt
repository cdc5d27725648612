-- ===== src/SessionOps/Registry/Safe/Unchanged.antt =====
-- internal/sessionops/sessionops.go: what Recover compares under the fence counts as the same if it is.
use ai_config_selector.SessionOps.Registry.{Record, Capability}
use ai_config_selector.SessionOps.Registry.Answers.{
  same_record, same_capability, same_bool, state_code,
}
use ai_config_selector.Prelude.{ℕ, Bool, true, false, ◌==◌, ==_iff, ◌≡◌, refl, &&_intro}
use ai_config_selector.Prelude.Bytes.{bytes_eq_refl}

same_bool_refl : (b : Bool) → same_bool b b ≡ true
same_bool_refl true = refl
same_bool_refl false = refl

same : (n : ℕ) → (n == n) ≡ true
same n = (==_iff n n).1 refl

pub same_record_refl : (rec : Record) → same_record rec rec ≡ true
same_record_refl rec = &&_intro _ _ (bytes_eq_refl rec.id) (
    &&_intro _ _ (same rec.revision) (
      &&_intro _ _ (same (state_code rec.state)) (
        &&_intro _ _ (bytes_eq_refl rec.target) (
          &&_intro _ _ (bytes_eq_refl rec.created_at) (
            &&_intro _ _ (bytes_eq_refl rec.updated_at) (
              &&_intro _ _ (bytes_eq_refl rec.removed_at) (
                &&_intro _ _ (bytes_eq_refl rec.root_token) (
                  &&_intro _ _ (same rec.generation) (
                    &&_intro _ _ (bytes_eq_refl rec.completion_root)
                      (bytes_eq_refl rec.completion_challenge_hash))))))))))

pub same_capability_refl : (cap : Capability) → same_capability cap cap ≡ true
same_capability_refl cap = &&_intro _ _ (bytes_eq_refl cap.id) (
    &&_intro _ _ (bytes_eq_refl cap.root_name) (
      &&_intro _ _ (bytes_eq_refl cap.root_token) (
        &&_intro _ _ (same cap.generation)
          (&&_intro _ _ (bytes_eq_refl cap.challenge) (same_bool_refl cap.removed)))))
