-- ===== src/SessionOps/Registry/Safe/Removals.antt =====
-- internal/sessionops/sessionops.go: the writes by which Recover removes a Session.
use ai_config_selector.SessionOps.Registry.{
  removable, removed, unknown, is_removed, Record, Capability, holds, Store,
}
use ai_config_selector.SessionOps.Registry.Writes.{
  Operation, finish, write, put_record, put_capability, remove_binding, remove_capability,
  remove_root,
}
use ai_config_selector.SessionOps.Registry.Tracker.{set_completion_binding, mark_removed}
use ai_config_selector.SessionOps.Registry.Answers.{
  session_removed, removal_failed, RecoverResult, result, AuthBinding, no_binding, lookup_gone,
  bound,
}
use ai_config_selector.SessionOps.Registry.Recovery.{
  restricted, completed, complete, delete_marker, delete_bound_marker, finalize_recovery,
  remove_proven,
}
use ai_config_selector.SessionOps.Registry.Safe.{
  Ended, Marked, Safe, AllRuns, put_record-Safe, put_capability-Safe, Ended-Safe,
}
use ai_config_selector.Prelude.{Bool, true, false, ◌≡◌, ◌≢◌, refl, subst, Bool-cases, inl, inr}
use ai_config_selector.Prelude.Bytes.{Bytes}
use ai_config_selector.SessionOps.Registry.Safe.Recovered.{
  Reports, attempt-AllRuns, step, discard-AllRuns, capability_of_kept,
}

module _ (alive : Bool) where
  marker-AllRuns :
      (auth : AuthBinding) (r : RecoverResult) (rest : Operation RecoverResult) (store : Store)
      → r.outcome ≢ session_removed
      → Safe alive store
      → AllRuns (Reports alive) rest store
      → AllRuns (Reports alive) (delete_bound_marker auth r rest) store
  marker-AllRuns no_binding r rest store n h k = k
  marker-AllRuns lookup_gone r rest store n h k = k
  marker-AllRuns (bound held prepared marked) r rest store n h k =
      attempt-AllRuns alive r rest store n h k

  unless_missing-AllRuns :
      (auth : AuthBinding) (r : RecoverResult) (rest : Operation RecoverResult) (store : Store)
      → r.outcome ≢ session_removed
      → Safe alive store
      → AllRuns (Reports alive) rest store
      → AllRuns (Reports alive) (delete_marker auth r rest) store
  unless_missing-AllRuns no_binding r rest store n h k = k
  unless_missing-AllRuns lookup_gone r rest store n h k = k
  unless_missing-AllRuns (bound held prepared false) r rest store n h k = k
  unless_missing-AllRuns (bound held prepared true) r rest store n h k =
      attempt-AllRuns alive r rest store n h k

  finalize-AllRuns :
      (auth : AuthBinding) (r : RecoverResult) (rest : Operation RecoverResult) (store : Store)
      → r.outcome ≢ session_removed
      → Safe alive store
      → AllRuns (Reports alive) rest store
      → AllRuns (Reports alive) (finalize_recovery auth r rest) store
  finalize-AllRuns no_binding r rest store n h k = k
  finalize-AllRuns lookup_gone r rest store n h k = k
  finalize-AllRuns (bound held true marked) r rest store n h k = k
  finalize-AllRuns (bound held false marked) r rest store n h k =
      attempt-AllRuns alive r rest store n h k

  module _ (sha256 : Bytes → Bytes) (now : Bytes) where
    pub complete-AllRuns :
        (auth : AuthBinding) (rec : Record) (cap : Capability) (store : Store)
        → store.capability_file ≡ holds cap
        → cap.removed ≡ true
        → Safe alive store
        → AllRuns (Reports alive) (complete sha256 now auth rec cap) store
    complete-AllRuns auth rec cap store file r h =
        let failed = result removal_failed rec.state rec.revision in
        let final = completed sha256 now rec cap in
        let last : Operation RecoverResult = write remove_binding failed (
          write remove_capability failed
            (finish (result session_removed removed final.revision))) in
        let ended = subst (λ f. Marked f (Ended alive store.root)) file h.marked r in
        let first = put_capability-Safe alive cap store (λ e. ended) h in
        let second = put_record-Safe alive final (put_capability cap store) tt (λ e. ended) first in
        step alive (put_capability cap) failed
          (write (put_record final) failed (delete_marker auth failed last)) store (λ x. cc) h first
          (step alive (put_record final) failed (delete_marker auth failed last)
            (put_capability cap store) (λ x. cc) first second
            (unless_missing-AllRuns auth failed last (put_record final (put_capability cap store))
              (λ x. cc) second
              (discard-AllRuns alive final failed (result session_removed removed final.revision)
                (put_record final (put_capability cap store)) is_final ended refl (λ x. cc)
                second)))
      where
        is_final : is_removed (completed sha256 now rec cap).state ≡ true
        is_final = elim (Bool-cases (is_removed rec.state)) [ inl e ↦ rw e e | inr e ↦ rw e refl ]

    pub remove_proven-AllRuns :
        (auth : AuthBinding) (rec : Record) (cap : Capability) (store : Store)
        → store.record_file ≡ holds rec
        → store.capability_file ≡ holds cap
        → is_removed rec.state ≡ false
        → alive ≡ false
        → Safe alive store
        → AllRuns (Reports alive) (remove_proven sha256 now auth rec cap) store
    remove_proven-AllRuns auth rec cap store file held u dead h =
        let ready = restricted removable now rec in
        let final = record cap { removed = true } in
        let last = set_completion_binding sha256 final (mark_removed now ready) in
        let r0 = result removal_failed rec.state rec.revision in
        let r1 = result removal_failed removable rec.revision in
        let r2 = result removal_failed removable ready.revision in
        let r4 = result removal_failed unknown rec.revision in
        let r5 = result removal_failed removed rec.revision in
        let good = result session_removed removed last.revision in
        let p5 : Operation RecoverResult =
          write remove_binding r5 (write remove_capability r5 (finish good)) in
        let p4 : Operation RecoverResult =
          write (put_record last) r4 (delete_bound_marker auth r5 p5) in
        let p3 : Operation RecoverResult = write (put_capability final) r1 p4 in
        let p2 : Operation RecoverResult = write remove_root r2 p3 in
        let s1 = put_record ready store in
        let s2 = remove_root s1 in
        let s3 = put_capability final s2 in
        let s4 = put_record last s3 in
        let h1 : Safe alive s1 =
          put_record-Safe alive ready store (capability_of_kept alive rec store file h u) (λ e. cc)
            h in
        let h2 : Safe alive s2 = Ended-Safe alive alive false s1 (λ e. (refl, e.1)) h1 in
        let h3 : Safe alive s3 = put_capability-Safe alive final s2 (λ e. (refl, dead)) h2 in
        let h4 : Safe alive s4 = put_record-Safe alive last s3 tt (λ e. (refl, dead)) h3 in
        step alive (put_record ready) r0 (finalize_recovery auth r1 p2) store (λ x. cc) h h1
          (finalize-AllRuns auth r1 p2 s1 (λ x. cc) h1
            (step alive remove_root r2 p3 s1 (λ x. cc) h1 h2
              (step alive (put_capability final) r1 p4 s2 (λ x. cc) h2 h3
                (step alive (put_record last) r4 (delete_bound_marker auth r5 p5) s3 (λ x. cc) h3 h4
                  (marker-AllRuns auth r5 p5 s4 (λ x. cc) h4
                    (discard-AllRuns alive last r5 good s4 refl (refl, dead) refl (λ x. cc) h4))))))
