-- ===== src/SessionOps/Registry/Safe/Pruned.antt =====
-- internal/sessionops/sessionops.go: retention removes only the record of a complete removal.
use ai_config_selector.SessionOps.Registry.{
  is_removed, Record, Reading, absent, unreadable, present, holds, Store, read_record,
  read_capability, valid_record, valid_capability,
}
use ai_config_selector.SessionOps.Registry.Writes.{
  Fault, Operation, write_ignoring, attempt, remove_record, finish,
}
use ai_config_selector.SessionOps.Registry.Retention.{is_absent, prunable, prune}
use ai_config_selector.SessionOps.Registry.Safe.{
  IsRemovedRecord, IsMissing, Unbound, Safe, AllRuns, write_ignoring-AllRuns, remove_record-Safe,
}
use ai_config_selector.SessionOps.Registry.Safe.Tracked.{Stays, step, branch_at}
use ai_config_selector.SessionOps.Registry.Safe.Recovered.{
  IsClean, holds_of_present, missing_of_absent, ended_of_removed,
}
use ai_config_selector.Prelude.{
  Bool, true, false, not, ◌≡◌, ◌⊎◌, inl, inr, refl, sym, subst, List, [], Bool-cases, &&_elim,
}
use ai_config_selector.Prelude.Bytes.{Bytes, bytes_eq}

none_read : {A : Type 0} (r : Reading A) → is_absent r ≡ true → r ≡ absent
none_read absent e = refl
none_read unreadable e = cc
none_read (present x) e = cc

module _ (alive : Bool) (old : Bytes → Bool) (id : Bytes) (store : Store) where
  prunable-IsClean :
      (current : Reading Record)
      → read_record id store ≡ current
      → prunable old id current store ≡ true
      → Safe alive store
      → IsClean store
  prunable-IsClean absent e p h = cc
  prunable-IsClean unreadable e p h = cc
  prunable-IsClean (present rec) e p h =
      let (gone, p1) = &&_elim (is_removed rec.state) _ p in
      let (dated, p2) = &&_elim (not (bytes_eq rec.removed_at [])) _ p1 in
      let (before, p3) = &&_elim (old rec.removed_at) _ p2 in
      let (no_cap, p4) = &&_elim (is_absent (read_capability id store)) _ p3 in
      let file = holds_of_present (valid_record id) store.record_file rec e in
      let m = missing_of_absent (valid_capability id) store.capability_file (none_read _ no_cap) in
      record {
        root = (ended_of_removed alive rec store file h gone).0;
        record_file = subst IsRemovedRecord (sym file) gone;
        capability_file = subst IsMissing (sym m) tt;
        binding_file =
            subst (λ f. Unbound (holds rec) f store.binding_file) m
              (subst (λ f. Unbound f store.capability_file store.binding_file) file h.unbound);
      }

  -- The files are left alone, unless the test holds.
  prune-idle :
      (faults : List Fault)
      → prunable old id (read_record id store) store ≡ false
      → (prune old id store faults).1 ≡ store
  unfolding prune
  prune-idle faults e = rw e refl

-- Retention leaves the files of a Session in a safe registry alone, whichever of its writes fail, unless the
-- root, the capability and the binding are gone and the record says that the Session is removed.
pub prune-IsClean :
    (alive : Bool) (old : Bytes → Bool) (id : Bytes) (store : Store) (faults : List Fault)
    → Safe alive store
    → ((prune old id store faults).1 ≡ store) ⊎ IsClean store
prune-IsClean alive old id store faults h =
    elim (Bool-cases (prunable old id (read_record id store) store)) [
      | inl p ↦ inr (prunable-IsClean alive old id store _ refl p h)
      | inr p ↦ inl (prune-idle alive old id store faults p)
    ]

pub prune-Safe :
    (alive : Bool) (old : Bytes → Bool) (id : Bytes) (store : Store)
    → Safe alive store
    → AllRuns (Stays alive) (prune old id) store
unfolding prune
prune-Safe alive old id store h =
    let unlink : Operation (Unit {0}) = write_ignoring remove_record (finish tt) in
    branch_at alive (prunable old id (read_record id store) store) (attempt tt (attempt tt unlink))
      (finish tt) store
      (λ p.
        step alive (λ s. s) tt (attempt tt unlink) store h h
          (step alive (λ s. s) tt unlink store h h
            (write_ignoring-AllRuns (Stays alive) remove_record (finish tt) store (λ faults. h)
              (λ faults. remove_record-Safe alive store h))))
      (λ p faults. h)
