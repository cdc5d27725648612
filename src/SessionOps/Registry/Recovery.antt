-- ===== src/SessionOps/Registry/Recovery.antt =====
-- internal/sessionops/sessionops.go: Recover. The calls of the authentication store, of the fence and of
-- launch.RecoverSession are answers. Everyone who writes these files holds the fence, so that what Recover
-- reads twice under it is the same.
use ai_config_selector.SessionOps.Ids.{valid_id}
use ai_config_selector.SessionOps.Registry.{
  State, active, unproven, removable, removed, unknown, corrupt, is_removed, Record, Capability,
  RootBinding, Reading, absent, unreadable, present, valid_binding, valid_completion_binding,
  read_record, read_capability, read_root_binding,
}
use ai_config_selector.SessionOps.Registry.Writes.{
  Operation, finish, write, write_ignoring, attempt, put_record, put_capability, remove_binding,
  remove_capability, remove_root,
}
use ai_config_selector.SessionOps.Registry.Tracker.{set_completion_binding, mark_removed}
use ai_config_selector.Prelude.{
  suc, Bool, true, false, ◌&&◌, not, if◌then◌else◌, Option, none, some,
}
use ai_config_selector.Prelude.Bytes.{Bytes, bytes_eq}
use ai_config_selector.SessionOps.Registry.Answers.{
  RecoverResult, AuthAnswer, FenceAnswer, SessionAnswer, Answers, AuthBinding, is_lookup_gone,
  same_record, same_reading, is_codex, holds_challenge, result, invalid_session_id,
  session_not_found, registry_unavailable, busy, not_recoverable, left_unproven, still_active,
  removal_failed, session_removed, no_store, acquire_busy, acquire_failed, gone, without_marker,
  with_marker, contended, fence_failed, taken, running, refused, no_root, recovered, no_binding,
  lookup_gone, bound,
}

-- What restrict writes.
abbrev pub restricted : State → Bytes → Record → Record
restricted state now rec = record rec {
  revision = suc rec.revision;
  state = state;
  updated_at = now;
}

-- The name that `binding` has to have, or the completed finalization without one.
abbrev pub binding_disagrees : Record → Capability → Reading RootBinding → Bool
binding_disagrees rec cap unreadable = true
binding_disagrees rec cap absent = not (is_removed rec.state && cap.removed)
binding_disagrees rec cap (present binding) = not (
    bytes_eq binding.id rec.id
    && (bytes_eq binding.root_name cap.root_name && bytes_eq binding.root_token rec.root_token))

-- DeleteMarkerAfterProjectionRemoval
abbrev pub delete_marker :
    AuthBinding → RecoverResult → Operation RecoverResult → Operation RecoverResult
delete_marker (bound held prepared true) failed rest = attempt failed rest
delete_marker _ failed rest = rest

-- The same without the test on the marker.
abbrev pub delete_bound_marker :
    AuthBinding → RecoverResult → Operation RecoverResult → Operation RecoverResult
delete_bound_marker (bound held prepared marked) failed rest = attempt failed rest
delete_bound_marker _ failed rest = rest

abbrev pub finalize_recovery :
    AuthBinding → RecoverResult → Operation RecoverResult → Operation RecoverResult
finalize_recovery (bound held false marked) failed rest = attempt failed rest
finalize_recovery _ failed rest = rest

module _ (sha256 : Bytes → Bytes) (now : Bytes) where
  abbrev pub leave_unproven : Record → Operation RecoverResult
  leave_unproven rec =
      let report = finish (result left_unproven unproven rec.revision) in
      if is_removed rec.state
      then report
      else write_ignoring (put_record (restricted unproven now rec)) report

  abbrev pub already_removed : Record → Operation RecoverResult
  already_removed rec =
      let failed = result removal_failed removed rec.revision in
      if valid_completion_binding rec
      then attempt failed
          (attempt failed (attempt failed (finish (result session_removed removed rec.revision))))
      else finish (result left_unproven unknown rec.revision)

  abbrev pub completed : Record → Capability → Record
  completed rec cap =
      set_completion_binding sha256 cap (if is_removed rec.state then rec else mark_removed now rec)

  -- The capability records the removal, of which the rest is done again.
  abbrev pub complete : AuthBinding → Record → Capability → Operation RecoverResult
  complete auth rec cap =
      let failed = result removal_failed rec.state rec.revision in
      let final = completed rec cap in
      write (put_capability cap) failed (
        write (put_record final) failed (
          delete_marker auth failed (
            write remove_binding failed (
              write remove_capability failed
                (finish (result session_removed removed final.revision))))))

  -- The proof holds, and the Session is removed.
  abbrev pub remove_proven : AuthBinding → Record → Capability → Operation RecoverResult
  remove_proven auth rec cap =
      let ready = restricted removable now rec in
      let final = record cap { removed = true } in
      let last = set_completion_binding sha256 final (mark_removed now ready) in
      write (put_record ready) (result removal_failed rec.state rec.revision) (
        finalize_recovery auth (result removal_failed removable rec.revision) (
          write remove_root (result removal_failed removable ready.revision) (
            write (put_capability final) (result removal_failed removable rec.revision) (
              write (put_record last) (result removal_failed unknown rec.revision) (
                delete_bound_marker auth (result removal_failed removed rec.revision) (
                  write remove_binding (result removal_failed removed rec.revision) (
                    write remove_capability (result removal_failed removed rec.revision)
                      (finish (result session_removed removed last.revision)))))))))

  abbrev pub recovered_root : Answers → AuthBinding → Record → Capability → Operation RecoverResult
  recovered_root answers auth rec cap =
      if is_codex rec.target && not (holds_challenge auth cap.challenge)
      then finish (result not_recoverable rec.state rec.revision)
      else if answers.proven
      then remove_proven auth rec cap
      else write_ignoring (put_record (restricted unproven now rec))
          (finish (result left_unproven unproven rec.revision))

  abbrev pub with_session :
      SessionAnswer → Answers → AuthBinding → Record → Capability → Operation RecoverResult
  with_session running answers auth rec cap = finish (result still_active active rec.revision)
  with_session refused answers auth rec cap = finish (result not_recoverable rec.state rec.revision)
  with_session no_root answers auth rec cap =
      write_ignoring (put_record (restricted unknown now rec))
        (finish (result not_recoverable unknown rec.revision))
  with_session recovered answers auth rec cap = recovered_root answers auth rec cap

  abbrev pub with_binding :
      Answers → AuthBinding → Record → Capability → Reading RootBinding → Operation RecoverResult
  with_binding answers auth rec cap binding =
      if binding_disagrees rec cap binding
      then leave_unproven rec
      else if is_lookup_gone auth && not (is_removed rec.state)
      then finish (result not_recoverable rec.state rec.revision)
      else if cap.removed
      then complete auth rec cap
      else if is_removed rec.state
      then finish (result removal_failed removed rec.revision)
      else with_session answers.session answers auth rec cap

  abbrev pub with_capability :
      Answers → AuthBinding → Record → Reading Capability → Operation RecoverResult
  with_capability answers auth rec unreadable store = leave_unproven rec store
  with_capability answers auth rec absent store =
      if is_removed rec.state then already_removed rec store else leave_unproven rec store
  with_capability answers auth rec (present cap) store =
      if valid_binding rec cap
      then with_binding answers auth rec cap (read_root_binding rec.id cap.root_name store) store
      else leave_unproven rec store

  -- Under the fence: what was read before it has to be unchanged, unless the marker has gone since.
  abbrev pub under_fence :
      Answers
      → AuthBinding
      → Record
      → Reading Capability
      → Reading Record
      → Reading Capability
      → Operation RecoverResult
  under_fence answers auth snapshot before absent cap =
      finish (result session_not_found snapshot.state snapshot.revision)
  under_fence answers auth snapshot before unreadable cap =
      finish (result not_recoverable corrupt snapshot.revision)
  under_fence answers auth snapshot before (present rec) cap =
      if not (is_lookup_gone auth) && not (same_record rec snapshot && same_reading cap before)
      then finish (result busy snapshot.state snapshot.revision)
      else with_capability answers auth rec cap

  abbrev pub with_fence :
      FenceAnswer
      → Answers
      → Bytes
      → AuthBinding
      → Record
      → Reading Capability
      → Operation RecoverResult
  with_fence contended answers id auth snapshot before store =
      finish (result busy snapshot.state snapshot.revision) store
  with_fence fence_failed answers id auth snapshot before store =
      finish (result registry_unavailable snapshot.state snapshot.revision) store
  with_fence taken answers id auth snapshot before store =
      under_fence answers auth snapshot before (read_record id store) (read_capability id store)
        store

  abbrev pub acquired :
      AuthAnswer
      → Record
      → Capability
      → (AuthBinding → Operation RecoverResult)
      → Operation RecoverResult
  acquired no_store snapshot cap rest =
      finish (result not_recoverable snapshot.state snapshot.revision)
  acquired acquire_failed snapshot cap rest =
      finish (result not_recoverable snapshot.state snapshot.revision)
  acquired acquire_busy snapshot cap rest = finish (result busy snapshot.state snapshot.revision)
  acquired gone snapshot cap rest = rest lookup_gone
  acquired (without_marker held prepared) snapshot cap rest = rest (bound held prepared false)
  acquired (with_marker held prepared) snapshot cap rest =
      if bytes_eq held cap.challenge
      then rest (bound held prepared true)
      else finish (result not_recoverable snapshot.state snapshot.revision)

  -- The authentication binding is acquired before the fence.
  abbrev pub with_auth :
      Answers
      → Record
      → Reading Capability
      → (AuthBinding → Operation RecoverResult)
      → Operation RecoverResult
  with_auth answers snapshot (present cap) rest =
      if valid_binding snapshot cap && is_codex snapshot.target
      then acquired answers.auth snapshot cap rest
      else rest no_binding
  with_auth answers snapshot _ rest = rest no_binding

  abbrev pub from_snapshot :
      Answers → Bytes → Reading Record → Reading Capability → Operation RecoverResult
  from_snapshot answers id unreadable before = finish (result not_recoverable corrupt 0)
  from_snapshot answers id absent before = finish (result session_not_found unknown 0)
  from_snapshot answers id (present snapshot) before =
      with_auth answers snapshot before
        (λ auth. with_fence answers.fence answers id auth snapshot before)

  abbrev pub with_registry :
      Option Bool → Answers → Bytes → Reading Record → Reading Capability → Operation RecoverResult
  with_registry none answers id snapshot before = finish (result session_not_found unknown 0)
  with_registry (some false) answers id snapshot before =
      finish (result registry_unavailable unknown 0)
  with_registry (some true) answers id snapshot before = from_snapshot answers id snapshot before

  -- Recover, with what it reads before it takes the fence.
  unfoldable pub recover :
      Bytes → Answers → Reading Record → Reading Capability → Operation RecoverResult
  recover id answers snapshot before =
      if not (valid_id id)
      then finish (result invalid_session_id unknown 0)
      else with_registry answers.registry_bound answers id snapshot before
