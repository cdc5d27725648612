-- ===== src/SessionOps/Registry/Safe/Recovered.antt =====
-- internal/sessionops/sessionops.go: Recover keeps the registry safe, and reports a removal only when it is.
use ai_config_selector.SessionOps.Registry.{
  unproven, removed, unknown, is_removed, Record, absent, present, File, missing, damaged, holds,
  Store, checked, valid_completion_binding,
}
use ai_config_selector.SessionOps.Registry.Writes.{
  Operation, finish, write, write_ignoring, attempt, put_record, remove_binding, remove_capability,
}
use ai_config_selector.SessionOps.Registry.Answers.{
  session_removed, removal_failed, left_unproven, RecoverResult, result,
}
use ai_config_selector.SessionOps.Registry.Recovery.{restricted, leave_unproven, already_removed}
use ai_config_selector.SessionOps.Registry.Safe.{
  Present, IsMissing, Ended, Kept, Gone, Unbound, Safe, AllRuns, write-AllRuns,
  write_ignoring-AllRuns, put_record-Safe, remove_binding-Safe, remove_capability-Safe,
  IsRemovedRecord,
}
use ai_config_selector.Prelude.{
  Bool, true, false, ◌≡◌, ◌≢◌, refl, sym, subst, if◌then◌else◌, Bool-cases, inl, inr,
}
use ai_config_selector.Prelude.Bytes.{Bytes}

-- Nothing is left of the Session but the record of its removal.
pub record IsClean (store : Store) : Type 0 where
  pub root : store.root ≡ false
  pub record_file : IsRemovedRecord store.record_file
  pub capability_file : IsMissing store.capability_file
  pub binding_file : IsMissing store.binding_file

pub holds_of_present :
    {A : Type 0} (valid : A → Bool) (f : File A) (x : A) → checked valid f ≡ present x → f ≡ holds x
holds_of_present valid missing x h = cc
holds_of_present valid damaged x h = cc
holds_of_present valid (holds y) x h = elim (Bool-cases (valid y)) [
  | inl e ↦ cc (rw e at h)
  | inr e ↦ cc (rw e at h)
]

pub missing_of_absent :
    {A : Type 0} (valid : A → Bool) (f : File A) → checked valid f ≡ absent → f ≡ missing
missing_of_absent valid missing h = refl
missing_of_absent valid damaged h = cc
missing_of_absent valid (holds y) h = elim (Bool-cases (valid y)) [
  | inl e ↦ cc (rw e at h)
  | inr e ↦ cc (rw e at h)
]

module _ (alive : Bool) where
  -- The store is safe, and clean if a removal is reported.
  abbrev pub Reports : RecoverResult → Store → Type 0
  Reports r store = Safe alive store × (r.outcome ≡ session_removed → IsClean store)

  pub failure :
      (r : RecoverResult) (store : Store)
      → r.outcome ≢ session_removed
      → Safe alive store
      → Reports r store
  failure r store n h = (h, λ e. absurd (n e))

  pub branch :
      (t : Bool) (m k : Operation RecoverResult) (store : Store)
      → (t ≡ true → AllRuns Reports m store)
      → (t ≡ false → AllRuns Reports k store)
      → AllRuns Reports (if t then m else k) store
  branch true m k store a b = a refl
  branch false m k store a b = b refl

  pub branch_at :
      (t : Bool) (m k : Operation RecoverResult) (store : Store)
      → (t ≡ true → AllRuns Reports m store)
      → (t ≡ false → AllRuns Reports k store)
      → AllRuns Reports (λ s. if t then m s else k s) store
  branch_at true m k store a b = a refl
  branch_at false m k store a b = b refl

  pub attempt-AllRuns :
      (r : RecoverResult) (rest : Operation RecoverResult) (store : Store)
      → r.outcome ≢ session_removed
      → Safe alive store
      → AllRuns Reports rest store
      → AllRuns Reports (attempt r rest) store
  attempt-AllRuns r rest store n h k =
      write-AllRuns Reports (λ s. s) r rest store (failure r store n h) (failure r store n h) k

  -- A write that keeps the store safe.
  pub step :
      (effect : Store → Store) (r : RecoverResult) (rest : Operation RecoverResult) (store : Store)
      → r.outcome ≢ session_removed
      → Safe alive store
      → Safe alive (effect store)
      → AllRuns Reports rest (effect store)
      → AllRuns Reports (write effect r rest) store
  step effect r rest store n h k m =
      write-AllRuns Reports effect r rest store (failure r store n h) (failure r (effect store) n k)
        m

  module _ (rec : Record) (store : Store) (file : store.record_file ≡ holds rec)
      (h : Safe alive store) where
    pub capability_of_kept : is_removed rec.state ≡ false → Present store.capability_file
    capability_of_kept = subst (λ f. Kept f store.capability_file) file h.kept

    pub ended_of_removed : is_removed rec.state ≡ true → Ended alive store.root
    ended_of_removed = subst (λ f. Gone f (Ended alive store.root)) file h.gone

    -- A record that is not removed is rewritten.
    pub rewrite-AllRuns :
        (next : Record) (r : RecoverResult)
        → is_removed rec.state ≡ false
        → is_removed next.state ≡ false
        → r.outcome ≢ session_removed
        → AllRuns Reports (write_ignoring (put_record next) (finish r)) store
    rewrite-AllRuns next r u v n =
        write_ignoring-AllRuns Reports (put_record next) (finish r) store
          (λ faults. failure r store n h)
          (λ faults.
            failure r (put_record next store) n
              (put_record-Safe alive next store (capability_of_kept u) (λ e. absurd (cc (e, v))) h))

    pub leave_unproven-AllRuns :
        (sha256 : Bytes → Bytes) (now : Bytes)
        → AllRuns Reports (leave_unproven sha256 now rec) store
    leave_unproven-AllRuns sha256 now =
        branch (is_removed rec.state) _ _ store
          (λ e faults. failure (result left_unproven unproven rec.revision) store (λ x. cc) h)
          (λ e.
            rewrite-AllRuns (restricted unproven now rec)
              (result left_unproven unproven rec.revision) e refl (λ x. cc))

    pub already_removed-AllRuns :
        (sha256 : Bytes → Bytes) (now : Bytes)
        → is_removed rec.state ≡ true
        → store.capability_file ≡ missing
        → AllRuns Reports (already_removed sha256 now rec) store
    already_removed-AllRuns sha256 now r m =
        let failed = result removal_failed removed rec.revision in
        let last : Operation RecoverResult = finish (result session_removed removed rec.revision) in
        branch (valid_completion_binding rec) _ _ store
          (λ e.
            attempt-AllRuns failed (attempt failed (attempt failed last)) store (λ x. cc) h
              (attempt-AllRuns failed (attempt failed last) store (λ x. cc) h
                (attempt-AllRuns failed last store (λ x. cc) h (λ faults. (h, λ x. clean)))))
          (λ e faults. failure (result left_unproven unknown rec.revision) store (λ x. cc) h)
      where
        clean : IsClean store
        clean = record {
          root = (ended_of_removed r).0;
          record_file = subst IsRemovedRecord (sym file) r;
          capability_file = subst IsMissing (sym m) tt;
          binding_file =
              subst (λ f. Unbound (holds rec) f store.binding_file) m
                (subst (λ f. Unbound f store.capability_file store.binding_file) file h.unbound);
        }

  -- The last two writes.
  pub discard-AllRuns :
      (last : Record) (r s : RecoverResult) (store : Store)
      → is_removed last.state ≡ true
      → Ended alive store.root
      → store.record_file ≡ holds last
      → r.outcome ≢ session_removed
      → Safe alive store
      → AllRuns Reports (write remove_binding r (write remove_capability r (finish s))) store
  discard-AllRuns last r s store done ended file n h =
      let unbound = remove_binding-Safe alive store h in
      let left : Safe alive (remove_capability (remove_binding store)) =
        rw file (remove_capability-Safe alive last store.root done ended) in
      step remove_binding r (write remove_capability r (finish s)) store n h unbound (
        step remove_capability r (finish s) (remove_binding store) n unbound left (λ faults. (
          left,
          λ e. record {
            root = ended.0;
            record_file = subst IsRemovedRecord (sym file) done;
            capability_file = tt;
            binding_file = tt;
          },
        )))
