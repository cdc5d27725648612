-- ===== src/SessionOps/Registry/Safe/Completions.antt =====
-- internal/sessionops/sessionops.go: the writes with which Recover completes a removal, and what they leave
-- where one of them fails.
use ai_config_selector.SessionOps.Registry.{
  removed, is_removed, Record, Capability, missing, holds, Store, valid_timestamp,
}
use ai_config_selector.SessionOps.Registry.Writes.{
  Operation, finish, write, attempt, put_record, put_capability, remove_binding, remove_capability,
}
use ai_config_selector.SessionOps.Registry.Answers.{
  removal_failed, session_removed, RecoverResult, result, AuthBinding, no_binding, lookup_gone,
  bound,
}
use ai_config_selector.SessionOps.Registry.Recovery.{
  completed, complete, delete_marker, already_removed,
}
use ai_config_selector.SessionOps.Registry.Safe.{AllRuns, write-AllRuns}
use ai_config_selector.SessionOps.Registry.Safe.Recovered.{IsClean}
use ai_config_selector.SessionOps.Registry.Safe.Resumable.{
  IsDigest, IsInterrupted, IsSettled, IsResumable, completed-completed, completed-is_removed,
  completed-IsInterrupted,
}
use ai_config_selector.Prelude.{true, false, ◌≡◌, ◌⊎◌, inl, inr, refl, sym, subst, [], &&_elim}
use ai_config_selector.Prelude.Bytes.{Bytes}

-- The Session is reported as removed and is, or the removal has failed and can be resumed.
abbrev pub Resumes : Bytes → RecoverResult → Store → Type 0
Resumes id r store =
    ((r.outcome ≡ session_removed) × IsClean store)
    ⊎ ((r.outcome ≡ removal_failed) × IsResumable id store)

marker-AllRuns :
    (J : RecoverResult → Store → Type 0) (auth : AuthBinding) (failed : RecoverResult)
    (rest : Operation RecoverResult) (store : Store)
    → J failed store
    → AllRuns J rest store
    → AllRuns J (delete_marker auth failed rest) store
marker-AllRuns J no_binding failed rest store a h = h
marker-AllRuns J lookup_gone failed rest store a h = h
marker-AllRuns J (bound held prepared false) failed rest store a h = h
marker-AllRuns J (bound held prepared true) failed rest store a h =
    write-AllRuns J (λ s. s) failed rest store a a h

marker-done :
    (auth : AuthBinding) (failed : RecoverResult) (rest : Operation RecoverResult) (store : Store)
    → delete_marker auth failed rest store [] ≡ rest store []
marker-done no_binding failed rest store = refl
marker-done lookup_gone failed rest store = refl
marker-done (bound held prepared false) failed rest store = refl
marker-done (bound held prepared true) failed rest store = refl

module _ (sha256 : Bytes → Bytes) (digest : IsDigest sha256) (now id : Bytes)
    (time : valid_timestamp now ≡ true) where
  completed-Clean :
      (rec : Record) (cap : Capability) (store : Store)
      → store.root ≡ false
      → IsClean (record store {
        record_file = holds (completed sha256 now rec cap);
        capability_file = missing;
        binding_file = missing;
      })
  completed-Clean rec cap store r = record {
    root = r;
    record_file = completed-is_removed sha256 digest now id time rec cap;
    capability_file = tt;
    binding_file = tt;
  }

  module _ (auth : AuthBinding) (rec : Record) (cap : Capability) (store : Store)
      (root : store.root ≡ false) (h : IsInterrupted id rec cap store) where
    abbrev final : Record
    final = completed sha256 now rec cap

    abbrev failed : RecoverResult
    failed = result removal_failed rec.state rec.revision

    abbrev from_capability : Operation RecoverResult
    from_capability =
        write remove_capability failed (finish (result session_removed removed final.revision))

    abbrev from_binding : Operation RecoverResult
    from_binding = write remove_binding failed from_capability

    abbrev from_marker : Operation RecoverResult
    from_marker = delete_marker auth failed from_binding

    abbrev rewritten : Store
    rewritten = put_record final (put_capability cap store)

    capability_kept : IsInterrupted id rec cap (put_capability cap store)
    capability_kept = record {
      record_file = h.record_file;
      capability_file = refl;
      readable = h.readable;
      capable = h.capable;
      same_token = h.same_token;
      same_generation = h.same_generation;
      marked = h.marked;
      bound = h.bound;
    }

    record_rewritten : IsInterrupted id final cap rewritten
    record_rewritten =
        completed-IsInterrupted sha256 digest now id time rec cap (put_capability cap store)
          capability_kept

    binding_removed : IsInterrupted id final cap (remove_binding rewritten)
    binding_removed =
        let k = record_rewritten in
        record {
          record_file = refl;
          capability_file = refl;
          readable = k.readable;
          capable = k.capable;
          same_token = k.same_token;
          same_generation = k.same_generation;
          marked = k.marked;
          bound = completed-is_removed sha256 digest now id time rec cap;
        }

    stopped :
        (r : Record) (s : Store) → s.root ≡ false → IsInterrupted id r cap s → Resumes id failed s
    stopped r s e i = inr (refl, record { root = e; files = inl (r, cap, i) })

    capability_removed : IsSettled id final (remove_capability (remove_binding rewritten))
    capability_removed = record {
      record_file = refl;
      readable = record_rewritten.readable;
      completed = completed-completed sha256 digest now id time rec cap h.capable;
      capability_file = refl;
      binding_file = tt;
    }

    pub complete-AllRuns : AllRuns (Resumes id) (complete sha256 now auth rec cap) store
    complete-AllRuns =
        let J = Resumes id in
        let b = stopped rec (put_capability cap store) root capability_kept in
        let c = stopped final rewritten root record_rewritten in
        let d = stopped final (remove_binding rewritten) root binding_removed in
        write-AllRuns J (put_capability cap) failed (write (put_record final) failed from_marker)
          store (stopped rec store root h) b
          (write-AllRuns J (put_record final) failed from_marker (put_capability cap store) b c (
            marker-AllRuns J auth failed from_binding rewritten c (
              write-AllRuns J remove_binding failed from_capability rewritten c d (
                write-AllRuns J remove_capability failed
                  (finish (result session_removed removed final.revision))
                  (remove_binding rewritten) d
                  (inr (refl, record { root = root; files = inr (final, capability_removed) }))
                  (λ faults. inl (refl, completed-Clean rec cap store root))))))

    pub complete-done :
        ((complete sha256 now auth rec cap store []).0.outcome ≡ session_removed)
        × IsClean (complete sha256 now auth rec cap store []).1
    complete-done =
        subst (λ (x : RecoverResult × Store). (x.0.outcome ≡ session_removed) × IsClean x.1)
          (sym (marker-done auth failed from_binding rewritten))
          (refl, completed-Clean rec cap store root)

  module _ (rec : Record) (store : Store) (root : store.root ≡ false)
      (h : IsSettled id rec store) where
    pub settled-removed : is_removed rec.state ≡ true
    settled-removed = (&&_elim (is_removed rec.state) _ h.completed).0

    settled-IsClean : IsClean store
    settled-IsClean = record {
      root = root;
      record_file = rw h.record_file settled-removed;
      capability_file = rw h.capability_file tt;
      binding_file = h.binding_file;
    }

    pub already_removed-AllRuns : AllRuns (Resumes id) (already_removed sha256 now rec) store
    already_removed-AllRuns =
        let J = Resumes id in
        let failed = result removal_failed removed rec.revision in
        let k : J failed store = inr (refl, record { root = root; files = inr (rec, h) }) in
        let last : Operation RecoverResult = finish (result session_removed removed rec.revision) in
        rw h.completed (
          write-AllRuns J (λ s. s) failed (attempt failed (attempt failed last)) store k k
            (write-AllRuns J (λ s. s) failed (attempt failed last) store k k
              (write-AllRuns J (λ s. s) failed last store k k
                (λ faults. inl (refl, settled-IsClean)))))

    pub already_removed-done :
        ((already_removed sha256 now rec store []).0.outcome ≡ session_removed)
        × IsClean (already_removed sha256 now rec store []).1
    already_removed-done = rw h.completed (refl, settled-IsClean)
