-- ===== src/SessionOps/Registry/Safe/Tracked.antt =====
-- internal/sessionops/sessionops.go: the Tracker keeps the registry safe.
use ai_config_selector.SessionOps.Registry.{
  State, is_removed, Record, Capability, RootBinding, Reading, absent, unreadable, present, holds,
  Store, valid_binding, read_record, read_capability, read_root_binding, valid_record,
}
use ai_config_selector.SessionOps.Registry.Writes.{
  Operation, finish, write, attempt, put_record, put_capability, put_binding, remove_binding,
  remove_capability,
}
use ai_config_selector.SessionOps.Registry.Tracker.{
  Tracker, set_completion_binding, mark_removed, record_admits, binding_of, armed_capability,
  armed_record, with_binding, write_armed, admitted, arm, moved, transition_from, transition,
  remove_from, removed_session,
}
use ai_config_selector.SessionOps.Registry.Safe.{
  IsMissing, Safe, AllRuns, write-AllRuns, put_record-Safe, put_capability-Safe, put_binding-Safe,
  remove_binding-Safe, remove_capability-Safe,
}
use ai_config_selector.SessionOps.Registry.Safe.Recovered.{
  holds_of_present, missing_of_absent, capability_of_kept, ended_of_removed,
}
use ai_config_selector.Prelude.{
  ℕ, suc, Bool, true, false, ◌&&◌, ◌==◌, ◌≡◌, refl, sym, subst, if◌then◌else◌, Option, none, some,
  Bool-cases, inl, inr, &&_elim, length,
}
use ai_config_selector.Prelude.Bytes.{Bytes, bytes_eq}

module _ {ℓ} {R : Type ℓ} (alive : Bool) where
  abbrev pub Stays : R → Store → Type 0
  Stays r store = Safe alive store

  pub step :
      (effect : Store → Store) (r : R) (rest : Operation R) (store : Store)
      → Safe alive store
      → Safe alive (effect store)
      → AllRuns Stays rest (effect store)
      → AllRuns Stays (write effect r rest) store
  step effect r rest store h k m = write-AllRuns Stays effect r rest store h k m

  pub branch_at :
      (t : Bool) (m k : Operation R) (store : Store)
      → (t ≡ true → AllRuns Stays m store)
      → (t ≡ false → AllRuns Stays k store)
      → AllRuns Stays (λ s. if t then m s else k s) store
  branch_at true m k store a b = a refl
  branch_at false m k store a b = b refl

  pub branch :
      (t : Bool) (m k : Operation R) (store : Store)
      → (t ≡ true → AllRuns Stays m store)
      → (t ≡ false → AllRuns Stays k store)
      → AllRuns Stays (if t then m else k) store
  branch true m k store a b = a refl
  branch false m k store a b = b refl

module _ (tracker : Tracker) where
  armed_record-state :
      (now : Bytes) (current : Reading Record)
      → is_removed (armed_record tracker now current).state ≡ false
  armed_record-state now absent = refl
  armed_record-state now unreadable = refl
  armed_record-state now (present current) = refl

  -- A Tracker that has no binding yet has no record either.
  no_record :
      (current : Reading Record)
      → (tracker.generation == 0) ≡ true
      → record_admits tracker current ≡ true
      → current ≡ absent
  no_record absent g a = refl
  no_record unreadable g a = cc
  no_record (present current) g a = cc (rw g at a)

  write_armed-AllRuns :
      (alive : Bool) (challenge now : Bytes) (current : Reading Record) (store : Store)
      → Safe alive store
      → AllRuns (Stays alive) (write_armed tracker challenge now current) store
  write_armed-AllRuns alive challenge now current store h =
      let cap = armed_capability tracker challenge in
      let next = armed_record tracker now current in
      let last : Operation (Option ℕ) =
        write (put_record next) none (finish (some (suc tracker.generation))) in
      let s1 = put_capability cap store in
      let h1 : Safe alive s1 = put_capability-Safe alive cap store (λ e. cc) h in
      let h2 : Safe alive (put_record next s1) =
        put_record-Safe alive next s1 tt (λ e. absurd (cc (e, armed_record-state now current)))
          h1 in
      step alive (put_capability cap) none (attempt none last) store h h1 (
        step alive (λ s. s) none last s1 h1 h1
          (step alive (put_record next) none (finish (some (suc tracker.generation))) s1 h1 h2
            (λ faults. h2)))

  with_binding-AllRuns :
      (alive : Bool) (challenge now : Bytes) (current : Reading Record)
      (bound : Reading RootBinding) (store : Store)
      → read_record tracker.id store ≡ current
      → admitted tracker challenge current bound ≡ true
      → Safe alive store
      → AllRuns
          (Stays alive)
          (with_binding tracker bound none (write_armed tracker challenge now current))
          store
  with_binding-AllRuns alive challenge now current (present b) store e a h =
      write_armed-AllRuns alive challenge now current store h
  with_binding-AllRuns alive challenge now current unreadable store e a h =
      let (x, y) = &&_elim (length challenge == 32) _ a in
      absurd (cc ((&&_elim (record_admits tracker current) _ y).1))
  with_binding-AllRuns alive challenge now current absent store e a h =
      let (x, y) = &&_elim (length challenge == 32) _ a in
      let (u, v) = &&_elim (record_admits tracker current) _ y in
      let none_yet =
        missing_of_absent (valid_record tracker.id) store.record_file
          (subst (λ c. read_record tracker.id store ≡ c) (no_record current v u) e) in
      let h1 =
        put_binding-Safe alive (binding_of tracker) store (subst IsMissing (sym none_yet) tt) h in
      step alive (put_binding (binding_of tracker)) none (write_armed tracker challenge now current)
        store h h1
        (write_armed-AllRuns alive challenge now current (put_binding (binding_of tracker) store)
          h1)

  pub arm-Safe :
      (alive : Bool) (challenge now : Bytes) (store : Store)
      → Safe alive store
      → AllRuns (Stays alive) (arm tracker challenge now) store
  unfolding arm
  arm-Safe alive challenge now store h =
      let current = read_record tracker.id store in
      let bound = read_root_binding tracker.id tracker.root_name store in
      branch_at alive (admitted tracker challenge current bound)
        (with_binding tracker bound none (write_armed tracker challenge now current)) (finish none)
        store (λ a. with_binding-AllRuns alive challenge now current bound store refl a h)
        (λ a faults. h)

  -- The record of a Session whose process runs is not removed.
  alive_record :
      (rec : Record) (store : Store)
      → store.record_file ≡ holds rec
      → Safe true store
      → is_removed rec.state ≡ false
  alive_record rec store file h = elim (Bool-cases (is_removed rec.state)) [
    | inr e ↦ e
    | inl e ↦ absurd (cc ((ended_of_removed true rec store file h e).1))
  ]

  transition_from-AllRuns :
      (state : State) (removed_at now : Bytes) (current : Reading Record) (store : Store)
      → read_record tracker.id store ≡ current
      → is_removed state ≡ false
      → Safe true store
      → AllRuns (Stays true) (transition_from tracker state removed_at now current) store
  transition_from-AllRuns state removed_at now absent store e n h = λ faults. h
  transition_from-AllRuns state removed_at now unreadable store e n h = λ faults. h
  transition_from-AllRuns state removed_at now (present current) store e n h =
      let file = holds_of_present (valid_record tracker.id) store.record_file current e in
      let next = moved tracker state removed_at now current in
      let kept = capability_of_kept true current store file h (alive_record current store file h) in
      let h1 = put_record-Safe true next store kept (λ r. absurd (cc (r, n))) h in
      branch true
        (bytes_eq current.root_token tracker.root_token
          && (current.generation == tracker.generation))
        (write (put_record next) false (finish true)) (finish false) store
        (λ t. step true (put_record next) false (finish true) store h h1 (λ faults. h1))
        (λ t faults. h)

  pub transition-Safe :
      (state : State) (removed_at now : Bytes) (store : Store)
      → is_removed state ≡ false
      → Safe true store
      → AllRuns (Stays true) (transition tracker state removed_at now) store
  unfolding transition
  transition-Safe state removed_at now store n h =
      branch_at true (tracker.generation == 0) (finish true)
        (transition_from tracker state removed_at now (read_record tracker.id store)) store
        (λ g faults. h) (λ g. transition_from-AllRuns state removed_at now _ store refl n h)

  remove_from-AllRuns :
      (sha256 : Bytes → Bytes) (now : Bytes) (current : Reading Record) (cap : Reading Capability)
      (store : Store)
      → store.root ≡ false
      → Safe false store
      → AllRuns (Stays false) (remove_from tracker sha256 now current cap) store
  remove_from-AllRuns sha256 now absent cap store r h = λ faults. h
  remove_from-AllRuns sha256 now unreadable cap store r h = λ faults. h
  remove_from-AllRuns sha256 now (present rec) absent store r h = λ faults. h
  remove_from-AllRuns sha256 now (present rec) unreadable store r h = λ faults. h
  remove_from-AllRuns sha256 now (present rec) (present cap) store r h =
      let final = record cap { removed = true } in
      let last = set_completion_binding sha256 final (mark_removed now rec) in
      let s1 = put_capability final store in
      let s2 = put_record last s1 in
      let p3 : Operation Bool = write remove_capability false (finish true) in
      let p2 : Operation Bool = write remove_binding false p3 in
      let p1 : Operation Bool = write (put_record last) false p2 in
      let h1 : Safe false s1 = put_capability-Safe false final store (λ e. (r, refl)) h in
      let h2 : Safe false s2 = put_record-Safe false last s1 tt (λ e. (r, refl)) h1 in
      let h3 : Safe false (remove_binding s2) = remove_binding-Safe false s2 h2 in
      let h4 : Safe false (remove_capability (remove_binding s2)) =
        remove_capability-Safe false last store.root refl (r, refl) in
      branch false
        (bytes_eq rec.root_token tracker.root_token
          && ((rec.generation == tracker.generation) && valid_binding rec cap))
        (write (put_capability final) false p1) (finish false) store
        (λ t. step false (put_capability final) false p1 store h h1 (
          step false (put_record last) false p2 s1 h1 h2 (
            step false remove_binding false p3 s2 h2 h3 (
              step false remove_capability false (finish true) (remove_binding s2) h3 h4
                (λ faults. h4)))))
        (λ t faults. h)

  pub removed_session-Safe :
      (sha256 : Bytes → Bytes) (now : Bytes) (store : Store)
      → store.root ≡ false
      → Safe false store
      → AllRuns (Stays false) (removed_session tracker sha256 now) store
  unfolding removed_session
  removed_session-Safe sha256 now store r h =
      branch_at false (tracker.generation == 0) (finish true)
        (remove_from tracker sha256 now (read_record tracker.id store)
          (read_capability tracker.id store))
        store (λ g faults. h) (λ g. remove_from-AllRuns sha256 now _ _ store r h)
