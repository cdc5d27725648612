-- ===== src/SessionOps/Registry/Retention.antt =====
-- internal/sessionops/sessionops.go: the removal of an old record in pruneRemovedLocked.
use ai_config_selector.SessionOps.Registry.{
  is_removed, Record, Reading, absent, present, Store, valid_completion_binding, read_record,
  read_capability, read_root_binding,
}
use ai_config_selector.SessionOps.Registry.Writes.{
  Operation, finish, write_ignoring, attempt, remove_record,
}
use ai_config_selector.Prelude.{Bool, true, false, ◌&&◌, not, if◌then◌else◌, []}
use ai_config_selector.Prelude.Bytes.{Bytes, bytes_eq}

abbrev pub is_absent : {A : Type 0} → Reading A → Bool
is_absent absent = true
is_absent _ = false

-- Whether a record that was found to be old may go. `old` tells of the time of its removal that it is
-- before the cutoff; the second reading is under the fence of the Session.
abbrev pub prunable : (Bytes → Bool) → Bytes → Reading Record → Store → Bool
prunable old id (present rec) store =
    is_removed rec.state
    && (not (bytes_eq rec.removed_at [])
        && (old rec.removed_at
            && (is_absent (read_capability id store)
                && (valid_completion_binding rec
                    && is_absent (read_root_binding id rec.completion_root store)))))
prunable old id _ store = false

-- The body of the loop, for one identifier, where the record does not change before the fence is taken.
-- The directories of the capabilities and of the bindings are synchronized before the unlink.
unfoldable pub prune : (Bytes → Bool) → Bytes → Operation (Unit {0})
prune old id store =
    if prunable old id (read_record id store) store
    then attempt tt (attempt tt (write_ignoring remove_record (finish tt))) store
    else finish tt store
