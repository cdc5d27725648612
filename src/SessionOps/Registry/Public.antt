-- ===== src/SessionOps/Registry/Public.antt =====
-- internal/sessionops/sessionops.go: what the program shows of a Session.
use ai_config_selector.SessionOps.Registry.{
  State, active, settling, retryable, unproven, removable, removed, unknown, corrupt, is_removed,
  Record, Capability, valid_binding,
}
use ai_config_selector.Prelude.{
  ◌&&◌, ◌≡◌, refl, ℕ, Bool, true, false, ◌||◌, not, if◌then◌else◌, Option, none, some,
}
use ai_config_selector.Prelude.Bytes.{Bytes, codes}

pub record Recovery : Type 0 where
  pub allowed : Bool
  pub action : Bytes

pub record PublicSession : Type 0 where
  pub id : Bytes
  pub state : State
  pub observation : Bytes
  pub target : Bytes
  pub created_at : Bytes
  pub updated_at : Bytes
  pub revision : ℕ
  pub recovery : Recovery

abbrev pub bound_to : Record → Option Capability → Bool
bound_to rec none = false
bound_to rec (some cap) = valid_binding rec cap

abbrev pub gone : Option Capability → Bool → Bool
gone none root = false
gone (some cap) root = not root

-- The state that is shown, by whether the root of the capability is there.
abbrev pub shown_state : Record → Option Capability → Bool → State
shown_state rec cap root =
    if is_removed rec.state
    then removed
    else if not (bound_to rec cap) || gone cap root
    then unknown
    else rec.state

abbrev is_unverified : State → Bool
is_unverified active = true
is_unverified settling = true
is_unverified _ = false

abbrev pub recovery_of : State → Bool → Recovery
recovery_of active bound = record { allowed = bound; action = codes "verify-proof" }
recovery_of settling bound = record { allowed = bound; action = codes "verify-proof" }
recovery_of retryable bound = record { allowed = bound; action = codes "verify-proof" }
recovery_of unproven bound = record { allowed = bound; action = codes "verify-proof" }
recovery_of removable bound = record { allowed = true; action = codes "remove" }
recovery_of _ bound = record { allowed = false; action = codes "none" }

unfoldable pub public_session : Record → Option Capability → Bool → PublicSession
public_session rec cap root =
    let state = shown_state rec cap root in
    record {
      id = rec.id;
      state = state;
      observation = if is_unverified state then codes "unverified" else codes "durable";
      target = rec.target;
      created_at = rec.created_at;
      updated_at = rec.updated_at;
      revision = rec.revision;
      recovery = recovery_of state (bound_to rec cap);
    }

-- The states in which something can be recovered.
abbrev pub is_open : State → Bool
is_open removed = false
is_open unknown = false
is_open corrupt = false
is_open _ = true

allowed-recovery_of :
    (state : State) (bound is_gone : Bool)
    → (recovery_of
        (if is_removed state then removed else if not bound || is_gone then unknown else state)
        bound).allowed
      ≡ (is_open state && (bound && not is_gone))
allowed-recovery_of active true true = refl
allowed-recovery_of active true false = refl
allowed-recovery_of active false is_gone = refl
allowed-recovery_of settling true true = refl
allowed-recovery_of settling true false = refl
allowed-recovery_of settling false is_gone = refl
allowed-recovery_of retryable true true = refl
allowed-recovery_of retryable true false = refl
allowed-recovery_of retryable false is_gone = refl
allowed-recovery_of unproven true true = refl
allowed-recovery_of unproven true false = refl
allowed-recovery_of unproven false is_gone = refl
allowed-recovery_of removable true true = refl
allowed-recovery_of removable true false = refl
allowed-recovery_of removable false is_gone = refl
allowed-recovery_of removed bound is_gone = refl
allowed-recovery_of unknown true true = refl
allowed-recovery_of unknown true false = refl
allowed-recovery_of unknown false is_gone = refl
allowed-recovery_of corrupt true true = refl
allowed-recovery_of corrupt true false = refl
allowed-recovery_of corrupt false is_gone = refl

-- The recovery of a Session is offered exactly where its record is in one of the states that can be recovered,
-- and it has the capability of the record, whose root is there.
pub public_session-allowed :
    (rec : Record) (cap : Option Capability) (root : Bool)
    → (public_session rec cap root).recovery.allowed
      ≡ (is_open rec.state && (bound_to rec cap && not (gone cap root)))
unfolding public_session
public_session-allowed rec cap root =
    allowed-recovery_of rec.state (bound_to rec cap) (gone cap root)
