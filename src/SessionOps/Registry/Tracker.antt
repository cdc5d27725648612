-- ===== src/SessionOps/Registry/Tracker.antt =====
-- internal/sessionops/sessionops.go: the Tracker of a Session that runs. The challenge of Arm is given: where it
-- is nil, the code draws one at random. An operation that does not get the fence writes nothing.
use ai_config_selector.SessionOps.Registry.{
  State, active, removed, is_active, Record, Capability, RootBinding, Reading, absent, unreadable,
  present, challenge_size, encode_hex, completion_challenge_hash, valid_binding, read_record,
  read_capability, read_root_binding,
}
use ai_config_selector.SessionOps.Registry.Writes.{
  Operation, finish, write, attempt, put_record, put_capability, put_binding, remove_binding,
  remove_capability,
}
use ai_config_selector.Prelude.{
  ℕ, suc, Bool, true, false, ◌&&◌, not, ◌==◌, if◌then◌else◌, [], Option, none, some, length,
}
use ai_config_selector.Prelude.Bytes.{Bytes, bytes_eq}

-- The name of the root stands for its path.
pub record Tracker : Type 0 where
  pub id : Bytes
  pub root_name : Bytes
  pub root_token : Bytes
  pub target : Bytes
  pub generation : ℕ

abbrev pub set_completion_binding : (Bytes → Bytes) → Capability → Record → Record
set_completion_binding sha256 cap rec = record rec {
  completion_root = cap.root_name;
  completion_challenge_hash = completion_challenge_hash sha256 cap.challenge;
}

-- rec.Revision++, and the state removed at the time.
abbrev pub mark_removed : Bytes → Record → Record
mark_removed now rec = record rec {
  revision = suc rec.revision;
  state = removed;
  updated_at = now;
  removed_at = now;
}

module _ (tracker : Tracker) where
  abbrev pub record_admits : Reading Record → Bool
  record_admits absent = tracker.generation == 0
  record_admits unreadable = false
  record_admits (present current) =
      not (tracker.generation == 0)
      && (bytes_eq current.id tracker.id
          && (bytes_eq current.root_token tracker.root_token
              && (bytes_eq current.target tracker.target
                  && ((current.generation == tracker.generation) && is_active current.state))))

  abbrev pub binding_of : RootBinding
  binding_of = record {
    id = tracker.id;
    root_name = tracker.root_name;
    root_token = tracker.root_token;
  }

  abbrev pub binding_admits : Reading RootBinding → Bool
  binding_admits absent = tracker.generation == 0
  binding_admits unreadable = false
  binding_admits (present current) =
      bytes_eq current.id tracker.id
      && (bytes_eq current.root_name tracker.root_name
          && bytes_eq current.root_token tracker.root_token)

  abbrev pub armed_capability : Bytes → Capability
  armed_capability challenge = record {
    id = tracker.id;
    root_name = tracker.root_name;
    root_token = tracker.root_token;
    generation = suc tracker.generation;
    challenge = encode_hex challenge;
    removed = false;
  }

  abbrev pub armed_record : Bytes → Reading Record → Record
  armed_record now (present current) = record {
    id = tracker.id;
    revision = suc current.revision;
    state = active;
    target = tracker.target;
    created_at = current.created_at;
    updated_at = now;
    removed_at = [];
    root_token = tracker.root_token;
    generation = suc tracker.generation;
    completion_root = [];
    completion_challenge_hash = [];
  }
  armed_record now _ = record {
    id = tracker.id;
    revision = 1;
    state = active;
    target = tracker.target;
    created_at = now;
    updated_at = now;
    removed_at = [];
    root_token = tracker.root_token;
    generation = suc tracker.generation;
    completion_root = [];
    completion_challenge_hash = [];
  }

  abbrev pub with_binding : {R : Type 0} → Reading RootBinding → R → Operation R → Operation R
  with_binding (present current) failed rest = rest
  with_binding _ failed rest = write (put_binding binding_of) failed rest

  -- Arm: the next generation of the Tracker, or nothing on an error. PrepareSessionCleanupProof writes
  -- below the root of the Session.
  abbrev pub write_armed : Bytes → Bytes → Reading Record → Operation (Option ℕ)
  write_armed challenge now current = write (put_capability (armed_capability challenge)) none (
      attempt none (
        write (put_record (armed_record now current)) none
          (finish (some (suc tracker.generation)))))

  abbrev pub admitted : Bytes → Reading Record → Reading RootBinding → Bool
  admitted challenge current bound =
      (length challenge == challenge_size) && (record_admits current && binding_admits bound)

  unfoldable pub arm : Bytes → Bytes → Operation (Option ℕ)
  arm challenge now store =
      let current = read_record tracker.id store in
      let bound = read_root_binding tracker.id tracker.root_name store in
      if admitted challenge current bound
      then with_binding bound none (write_armed challenge now current) store
      else finish none store

  -- What is written by `transition`, unless the binding changed.
  abbrev pub moved : State → Bytes → Bytes → Record → Record
  moved state removed_at now current = record current {
    revision = suc current.revision;
    state = state;
    updated_at = now;
    removed_at = removed_at;
  }

  abbrev pub transition_from : State → Bytes → Bytes → Reading Record → Operation Bool
  transition_from state removed_at now (present current) =
      if bytes_eq current.root_token tracker.root_token
        && (current.generation == tracker.generation)
      then write (put_record (moved state removed_at now current)) false (finish true)
      else finish false
  transition_from state removed_at now _ = finish false

  -- Whether no error is returned.
  unfoldable pub transition : State → Bytes → Bytes → Operation Bool
  transition state removed_at now store =
      if tracker.generation == 0
      then finish true store
      else transition_from state removed_at now (read_record tracker.id store) store

  abbrev pub remove_from :
      (Bytes → Bytes) → Bytes → Reading Record → Reading Capability → Operation Bool
  remove_from sha256 now (present rec) (present cap) =
      let final = record cap { removed = true } in
      if bytes_eq rec.root_token tracker.root_token
        && ((rec.generation == tracker.generation) && valid_binding rec cap)
      then write (put_capability final) false (
          write (put_record (set_completion_binding sha256 final (mark_removed now rec))) false
            (write remove_binding false (write remove_capability false (finish true))))
      else finish false
  remove_from sha256 now _ _ = finish false

  -- Removed
  unfoldable pub removed_session : (Bytes → Bytes) → Bytes → Operation Bool
  removed_session sha256 now store =
      if tracker.generation == 0
      then finish true store
      else remove_from sha256 now (read_record tracker.id store) (read_capability tracker.id store)
          store
