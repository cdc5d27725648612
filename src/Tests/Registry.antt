-- ===== src/Tests/Registry.antt =====
-- internal/sessionops/sessionops.go on one Session: its start, an interrupted removal, and its recovery.
use ai_config_selector.Prelude.{
  ◌&&◌, not, true, false, refl, ◌≡◌, ◌⊎◌, List, [], ◌∷◌, some, Bool, ltb,
}
use ai_config_selector.Prelude.Bytes.{Bytes, codes, bytes_eq, has_prefix, seen, contains_byte}
use ai_config_selector.SessionOps.Ids.{all_digits, valid_id}
use ai_config_selector.SessionOps.Registry.{
  Store, valid_timestamp, settling, Record, Capability, absent, present, missing, holds, decode_hex,
  encode_hex,
}
use ai_config_selector.SessionOps.Registry.Writes.{done, lost, late}
use ai_config_selector.SessionOps.Registry.Tracker.{Tracker, arm, transition, removed_session}
use ai_config_selector.SessionOps.Registry.Answers.{
  session_removed, removal_failed, RecoverResult, no_store, taken, recovered, running, Answers,
}
use ai_config_selector.SessionOps.Registry.Recovery.{recover}
use ai_config_selector.SessionOps.Registry.Retention.{prune}
use ai_config_selector.SessionOps.Registry.Finalize.{Removal, finalize_removal}
use ai_config_selector.SessionOps.Registry.Public.{
  is_open, bound_to, gone, public_session, public_session-allowed,
}
use ai_config_selector.SessionOps.Registry.Safe.{Safe}
use ai_config_selector.SessionOps.Registry.Safe.Recovered.{IsClean, Reports}
use ai_config_selector.SessionOps.Registry.Safe.Recovers.{recover-Reports}
use ai_config_selector.SessionOps.Registry.Safe.Completes.{recovering}
use ai_config_selector.SessionOps.Registry.Safe.Pruned.{prune-IsClean}
use ai_config_selector.SessionOps.Registry.Safe.Runs.{
  System, Event, arms, moves, root_removed, removal_observed, recovers, finalizes, prunes, created,
  run, run-created-Safe,
}

-- In place of SHA-256.
abbrev digest : Bytes → Bytes
digest bytes = codes "0123456789abcdef0123456789abcdef"

abbrev now : Bytes
now = codes "2026-01-02T03:04:05Z"

abbrev id : Bytes
id = codes "ses_aaaaaaaaaaaaaaaaaaaaaaaaaa"

abbrev tracker : Tracker
tracker = record {
  id = codes "ses_aaaaaaaaaaaaaaaaaaaaaaaaaa";
  root_name = codes "session-1";
  root_token = codes "aaaaaaaaaaaaaaaaaaaaaaaaaaaaaaaaaaaaaaaaaaaaaaaaaaaaaaaaaaaaaaaa";
  target = codes "shell";
  generation = 0;
}

abbrev challenge : Bytes
challenge = codes "0123456789abcdef0123456789abcdef"

abbrev answers : Answers
answers = record {
  registry_bound = some true;
  auth = no_store;
  fence = taken;
  session = recovered;
  proven = true;
}

run_registry : List Event → System
unfolding bytes_eq has_prefix seen contains_byte all_digits valid_id decode_hex encode_hex arm
    transition removed_session recover prune valid_timestamp finalize_removal
run_registry events = run digest tracker events created

-- The process arms twice, settles, and dies when the record of the removal is to be written.
abbrev interrupted : List Event
interrupted =
    arms challenge now []
    ∷ arms challenge now []
    ∷ moves settling now []
    ∷ root_removed
    ∷ removal_observed now (done ∷ lost ∷ [])
    ∷ []

abbrev final : System
final = run digest tracker interrupted created

abbrev marked : Capability
marked = record {
  id = codes "ses_aaaaaaaaaaaaaaaaaaaaaaaaaa";
  root_name = codes "session-1";
  root_token = codes "aaaaaaaaaaaaaaaaaaaaaaaaaaaaaaaaaaaaaaaaaaaaaaaaaaaaaaaaaaaaaaaa";
  generation = 2;
  challenge = codes "3031323334353637383961626364656630313233343536373839616263646566";
  removed = true;
}

abbrev settled : Record
settled = record {
  id = codes "ses_aaaaaaaaaaaaaaaaaaaaaaaaaa";
  revision = 3;
  state = settling;
  target = codes "shell";
  created_at = codes "2026-01-02T03:04:05Z";
  updated_at = codes "2026-01-02T03:04:05Z";
  removed_at = [];
  root_token = codes "aaaaaaaaaaaaaaaaaaaaaaaaaaaaaaaaaaaaaaaaaaaaaaaaaaaaaaaaaaaaaaaa";
  generation = 2;
  completion_root = [];
  completion_challenge_hash = [];
}

interrupted_record : final.store.record_file ≡ holds settled
unfolding run_registry
interrupted_record = refl

interrupted_capability : final.store.capability_file ≡ holds marked
unfolding run_registry
interrupted_capability = refl

run-created-Safe_example : Safe final.alive final.store
run-created-Safe_example =
    run-created-Safe digest tracker interrupted
      (refl, (refl, ((refl, refl), (tt, ((refl, refl), tt)))))

final-Safe : Safe false final.store
final-Safe =
    run-created-Safe digest tracker interrupted
      (refl, (refl, ((refl, refl), (tt, ((refl, refl), tt)))))

recover-Reports_example :
    Reports false
      (recover digest now id answers
        (present settled)
        (present marked)
        final.store
        (done ∷ late ∷ [])).0
      (recover digest now id answers
        (present settled)
        (present marked)
        final.store
        (done ∷ late ∷ [])).1
recover-Reports_example =
    recover-Reports false digest now answers final.store final-Safe (λ e. refl) id (present settled)
      (present marked) (done ∷ late ∷ [])

is_byte_string : Bytes → Bool
is_byte_string [] = true
is_byte_string (b ∷ bs) = ltb b 256 && is_byte_string bs

-- Where the error comes after the capability is gone, the last record is enough for the next call.
abbrev stopped : RecoverResult × Store
stopped = recovering digest now id answers final.store (done ∷ done ∷ done ∷ late ∷ [])

stopped_outcome : stopped.0.outcome ≡ removal_failed
unfolding run_registry
stopped_outcome = refl

stopped_capability : stopped.1.capability_file ≡ missing
unfolding run_registry
stopped_capability = refl

resumed_outcome : (recovering digest now id answers stopped.1 []).0.outcome ≡ session_removed
unfolding run_registry
resumed_outcome = refl

-- A later run removes the record, and nothing is left.
abbrev pruned : System
pruned =
    run digest tracker
      (recovers id answers (present settled) (present marked) now []
        ∷ prunes (λ text. true) id []
        ∷ [])
      final

pruned_record : pruned.store.record_file ≡ missing
unfolding run_registry
pruned_record = refl

kept_record : (prune (λ text. true) id final.store []).1 ≡ final.store
unfolding run_registry
kept_record = refl

prune-IsClean_example :
    ((prune (λ text. true) id final.store (done ∷ late ∷ [])).1 ≡ final.store) ⊎ IsClean final.store
prune-IsClean_example =
    prune-IsClean false (λ text. true) id final.store (done ∷ late ∷ []) final-Safe

-- While the process runs, the Session is not recovered.
refused_while_running :
    (run digest tracker
      (arms challenge now []
        ∷ recovers id (record answers { session = running }) (present settled) absent now []
        ∷ [])
      created).store
    ≡ (run digest tracker (arms challenge now [] ∷ []) created).store
unfolding run_registry
refused_while_running = refl

public_session-allowed_example :
    (public_session settled (some marked) true).recovery.allowed
    ≡ (is_open settled.state && (bound_to settled (some marked) && not (gone (some marked) true)))
public_session-allowed_example = public_session-allowed settled (some marked) true

abbrev clear_registry : Removal
clear_registry = record { registry_bound = some true; others_clear = true; removes = true }

-- FinalizeRemoval with the challenge of the Session completes the removal, and not with another one.
abbrev finalized : Bytes → System
finalized held =
    run digest tracker (finalizes id (codes "session-1") held clear_registry now [] ∷ []) final

finalized_capability : (finalized marked.challenge).store.capability_file ≡ missing
unfolding run_registry
finalized_capability = refl

other_challenge_refused :
    (finalized (codes "0000000000000000000000000000000000000000000000000000000000000000")).store
    ≡ final.store
unfolding run_registry
other_challenge_refused = refl

leap_day : valid_timestamp (codes "2024-02-29T23:59:59Z") ≡ true
unfolding run_registry
leap_day = refl

no_leap_day : valid_timestamp (codes "2023-02-29T23:59:59Z") ≡ false
unfolding run_registry
no_leap_day = refl

offset_refused : valid_timestamp (codes "2024-02-29T23:59:59+00:00") ≡ false
unfolding run_registry
offset_refused = refl
