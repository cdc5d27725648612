-- ===== src/SessionOps/Registry/Safe/Runs.antt =====
-- internal/sessionops/sessionops.go: a Session from its start, with everything that is done to its files.
use ai_config_selector.SessionOps.Registry.{
  State, is_removed, Record, Capability, Reading, missing, Store,
}
use ai_config_selector.SessionOps.Registry.Writes.{Fault}
use ai_config_selector.SessionOps.Registry.Tracker.{Tracker, arm, transition, removed_session}
use ai_config_selector.SessionOps.Registry.Answers.{Answers, recovered}
use ai_config_selector.SessionOps.Registry.Recovery.{recover}
use ai_config_selector.SessionOps.Registry.Retention.{prune}
use ai_config_selector.SessionOps.Registry.Finalize.{Removal, finalize_removal}
use ai_config_selector.SessionOps.Registry.Safe.Finalized.{finalize_removal-Safe}
use ai_config_selector.SessionOps.Registry.Safe.{Safe, Ended-Safe}
use ai_config_selector.SessionOps.Registry.Safe.Tracked.{
  arm-Safe, transition-Safe, removed_session-Safe,
}
use ai_config_selector.SessionOps.Registry.Safe.Pruned.{prune-Safe}
use ai_config_selector.SessionOps.Registry.Safe.Recovers.{recover-Reports}
use ai_config_selector.Prelude.{
  ℕ, Bool, true, false, ◌≡◌, refl, subst, sym, List, [], ◌∷◌, Option, none, some,
}
use ai_config_selector.Prelude.Bytes.{Bytes}

-- Whether the process of the Session runs, the generation of its Tracker, and the files.
pub record System : Type 0 where
  pub alive : Bool
  pub generation : ℕ
  pub store : Store

-- Each operation with the fate of its writes. An operation of another process stands between any two.
pub data Event : Type 0 where
  arms : Bytes → Bytes → List Fault → Event
  moves : State → Bytes → List Fault → Event
  root_removed process_ended : Event
  removal_observed : Bytes → List Fault → Event
  recovers : Bytes → Answers → Reading Record → Reading Capability → Bytes → List Fault → Event
  prunes : (Bytes → Bool) → Bytes → List Fault → Event
  finalizes : Bytes → Bytes → Bytes → Removal → Bytes → List Fault → Event

abbrev generation_after : Option ℕ → ℕ → ℕ
generation_after none generation = generation
generation_after (some next) generation = next

-- The Session is created with its root; nothing is in the registry.
abbrev pub created : System
created = record {
  alive = true;
  generation = 0;
  store = record {
    record_file = missing;
    capability_file = missing;
    binding_file = missing;
    root = true;
  };
}

module _ (sha256 : Bytes → Bytes) (started : Tracker) where
  abbrev tracker_of : System → Tracker
  tracker_of system = record started { generation = system.generation }

  abbrev pub apply : Event → System → System
  apply (arms challenge now faults) system =
      let (next, store) = arm (tracker_of system) challenge now system.store faults in
      record system { generation = generation_after next system.generation; store = store }
  apply (moves state now faults) system = record system {
    store = (transition (tracker_of system) state [] now system.store faults).1;
  }
  apply root_removed system = record system { store = record system.store { root = false } }
  apply process_ended system = record system { alive = false }
  apply (removal_observed now faults) system = record system {
    alive = false;
    store = (removed_session (tracker_of system) sha256 now system.store faults).1;
  }
  apply (recovers id answers snapshot before now faults) system = record system {
    store = (recover sha256 now id answers snapshot before system.store faults).1;
  }
  apply (finalizes id root_name challenge removal now faults) system = record system {
    store = (finalize_removal sha256 now id root_name challenge removal system.store faults).1;
  }
  apply (prunes old id faults) system = record system {
    store = (prune old id system.store faults).1;
  }

  -- Settling and Retryable are called while the process runs, Removed at its end and after the removal of
  -- the root, and launch.RecoverSession hands out a Session whose process
  -- has ended, for which alone FinalizeRemoval is called.
  abbrev pub Allowed : Event → System → Type 0
  Allowed (arms challenge now faults) system = system.alive ≡ true
  Allowed (moves state now faults) system = (system.alive ≡ true) × (is_removed state ≡ false)
  Allowed (removal_observed now faults) system = (system.alive ≡ true) × (system.store.root ≡ false)
  Allowed (recovers id answers snapshot before now faults) system =
      answers.session ≡ recovered → system.alive ≡ false
  Allowed (finalizes id root_name challenge removal now faults) system = system.alive ≡ false
  Allowed _ system = Unit

  abbrev pub run : List Event → System → System
  run [] system = system
  run (event ∷ events) system = run events (apply event system)

  abbrev pub AllAllowed : List Event → System → Type 0
  AllAllowed [] system = Unit
  AllAllowed (event ∷ events) system = Allowed event system × AllAllowed events (apply event system)

  apply-Safe :
      (event : Event) (system : System)
      → Allowed event system
      → Safe system.alive system.store
      → Safe (apply event system).alive (apply event system).store
  apply-Safe (arms challenge now faults) system a h =
      arm-Safe (tracker_of system) system.alive challenge now system.store h faults
  apply-Safe (moves state now faults) system a h =
      subst (λ b. Safe b (transition (tracker_of system) state [] now system.store faults).1)
        (sym a.0)
        (transition-Safe (tracker_of system) state [] now system.store a.1
          (subst (λ b. Safe b system.store) a.0 h) faults)
  apply-Safe root_removed system a h =
      Ended-Safe system.alive system.alive false system.store (λ e. (refl, e.1)) h
  apply-Safe process_ended system a h =
      Ended-Safe system.alive false system.store.root system.store (λ e. (e.0, refl)) h
  apply-Safe (removal_observed now faults) system a h =
      removed_session-Safe (tracker_of system) sha256 now system.store a.1
        (Ended-Safe system.alive false system.store.root system.store (λ e. (e.0, refl)) h) faults
  apply-Safe (recovers id answers snapshot before now faults) system a h =
      (recover-Reports system.alive sha256 now answers system.store h a id snapshot before faults).0
  apply-Safe (finalizes id root_name challenge removal now faults) system a h =
      subst
        (λ b.
          Safe b (finalize_removal sha256 now id root_name challenge removal system.store faults).1)
        (sym a)
        (finalize_removal-Safe sha256 now id root_name challenge removal system.store
          (subst (λ b. Safe b system.store) a h) faults)
  apply-Safe (prunes old id faults) system a h =
      prune-Safe system.alive old id system.store h faults

  run-Safe :
      (events : List Event) (system : System)
      → AllAllowed events system
      → Safe system.alive system.store
      → Safe (run events system).alive (run events system).store
  run-Safe [] system a h = h
  run-Safe (event ∷ events) system a h =
      run-Safe events (apply event system) a.1 (apply-Safe event system a.0 h)

-- From its creation on, whatever operations are done to a Session and whichever of their writes fail: a
-- record that is not removed has a capability, a record or a capability that says that the Session is
-- removed means that its root is gone and its process has ended, and a record without a capability has no
-- binding. Arm, Settling, Retryable and Removed are called by a process that runs, Removed once the root
-- is gone and as its last call, and a Session is recovered or finalized only
-- when its process has ended.
pub run-created-Safe :
    (sha256 : Bytes → Bytes) (started : Tracker) (events : List Event)
    → AllAllowed sha256 started events created
    → Safe (run sha256 started events created).alive (run sha256 started events created).store
run-created-Safe sha256 started events a = run-Safe sha256 started events created a fresh
  where
    fresh : Safe true created.store
    fresh = record { kept = tt; gone = tt; marked = tt; unbound = tt }
