-- ===== src/SessionOps/Registry/Answers.antt =====
-- internal/sessionops/sessionops.go: what Recover reports, what it is told by others, and its comparisons.
use ai_config_selector.SessionOps.Registry.{
  State, active, settling, retryable, unproven, removable, removed, unknown, corrupt, Record,
  Capability, Reading, absent, unreadable, present,
}
use ai_config_selector.Prelude.{ℕ, Bool, true, false, ◌&&◌, ◌||◌, not, ◌==◌, Option}
use ai_config_selector.Prelude.Bytes.{Bytes, codes, bytes_eq}

pub data Outcome : Type 0 where
  invalid_session_id session_not_found registry_unavailable : Outcome
  busy not_recoverable left_unproven still_active removal_failed session_removed : Outcome

-- The error is nil exactly for session_removed. A state that the code leaves empty is `unknown` here.
pub record RecoverResult : Type 0 where
  pub outcome : Outcome
  pub state : State
  pub revision : ℕ

-- What AuthRecovery and AcquireBySession answer: a binding by its challenge and whether it is prepared,
-- with or without its marker.
pub data AuthAnswer : Type 0 where
  no_store acquire_busy acquire_failed gone : AuthAnswer
  without_marker with_marker : Bytes → Bool → AuthAnswer

pub data FenceAnswer : Type 0 where
  contended fence_failed taken : FenceAnswer

pub data SessionAnswer : Type 0 where
  running refused no_root recovered : SessionAnswer

pub record Answers : Type 0 where
  pub registry_bound : Option Bool
  pub auth : AuthAnswer
  pub fence : FenceAnswer
  pub session : SessionAnswer
  pub proven : Bool

-- authBinding, authMarkerMissing and authLookupGone
pub data AuthBinding : Type 0 where
  no_binding lookup_gone : AuthBinding
  bound : Bytes → Bool → Bool → AuthBinding

abbrev pub is_lookup_gone : AuthBinding → Bool
is_lookup_gone lookup_gone = true
is_lookup_gone _ = false

abbrev pub state_code : State → ℕ
state_code active = 0
state_code settling = 1
state_code retryable = 2
state_code unproven = 3
state_code removable = 4
state_code removed = 5
state_code unknown = 6
state_code corrupt = 7

-- rec == snapshot
abbrev pub same_record : Record → Record → Bool
same_record a b =
    bytes_eq a.id b.id
    && ((a.revision == b.revision)
        && ((state_code a.state == state_code b.state)
            && (bytes_eq a.target b.target
                && (bytes_eq a.created_at b.created_at
                    && (bytes_eq a.updated_at b.updated_at
                        && (bytes_eq a.removed_at b.removed_at
                            && (bytes_eq a.root_token b.root_token
                                && ((a.generation == b.generation)
                                    && (bytes_eq a.completion_root b.completion_root
                                        && bytes_eq a.completion_challenge_hash
                                            b.completion_challenge_hash)))))))))

abbrev pub same_bool : Bool → Bool → Bool
same_bool true b = b
same_bool false b = not b

abbrev pub same_capability : Capability → Capability → Bool
same_capability a b =
    bytes_eq a.id b.id
    && (bytes_eq a.root_name b.root_name
        && (bytes_eq a.root_token b.root_token
            && ((a.generation == b.generation)
                && (bytes_eq a.challenge b.challenge && same_bool a.removed b.removed))))

-- Two files that are refused count as the same.
abbrev pub same_reading : Reading Capability → Reading Capability → Bool
same_reading absent absent = true
same_reading unreadable unreadable = true
same_reading (present a) (present b) = same_capability a b
same_reading _ _ = false

abbrev pub is_codex : Bytes → Bool
is_codex target = bytes_eq target (codes "codex") || bytes_eq target (codes "codex-auth")

-- authBinding != nil && authBinding.CleanupChallenge() == challenge
abbrev pub holds_challenge : AuthBinding → Bytes → Bool
holds_challenge (bound held prepared marked) challenge = bytes_eq held challenge
holds_challenge _ challenge = false

abbrev pub result : Outcome → State → ℕ → RecoverResult
result outcome state revision = record { outcome = outcome; state = state; revision = revision }
