-- ===== src/SessionOps/Registry/Safe/Recovers.antt =====
-- internal/sessionops/sessionops.go: Recover keeps the registry safe, and reports only a complete removal.
use ai_config_selector.SessionOps.Ids.{valid_id}
use ai_config_selector.SessionOps.Registry.{
  unproven, removed, unknown, corrupt, active, is_removed, Record, Capability, RootBinding, Reading,
  absent, unreadable, present, holds, Store, checked, valid_binding, read_record, read_capability,
  read_root_binding, valid_record, valid_capability,
}
use ai_config_selector.SessionOps.Registry.Writes.{Operation}
use ai_config_selector.SessionOps.Registry.Answers.{
  removal_failed, left_unproven, not_recoverable, busy, still_active, session_not_found,
  registry_unavailable, invalid_session_id, RecoverResult, result, Answers, FenceAnswer, AuthAnswer,
  no_store, acquire_busy, acquire_failed, gone, without_marker, with_marker, AuthBinding,
  no_binding, lookup_gone, bound, SessionAnswer, running, refused, no_root, recovered, contended,
  fence_failed, taken, is_codex, holds_challenge, is_lookup_gone, same_record, same_reading,
}
use ai_config_selector.SessionOps.Registry.Recovery.{
  restricted, binding_disagrees, leave_unproven, already_removed, recovered_root, with_session,
  with_binding, with_capability, under_fence, with_fence, acquired, with_auth, with_registry,
  recover,
}
use ai_config_selector.SessionOps.Registry.Safe.{Safe, AllRuns}
use ai_config_selector.Prelude.{Bool, true, false, ◌&&◌, not, ◌≡◌, refl, Option, none, some}
use ai_config_selector.Prelude.Bytes.{Bytes, bytes_eq}
use ai_config_selector.SessionOps.Registry.Safe.Recovered.{
  holds_of_present, missing_of_absent, Reports, failure, branch, branch_at, rewrite-AllRuns,
  leave_unproven-AllRuns, already_removed-AllRuns,
}
use ai_config_selector.SessionOps.Registry.Safe.Removals.{complete-AllRuns, remove_proven-AllRuns}

module _ (alive : Bool) (sha256 : Bytes → Bytes) (now : Bytes) where
  module _ (answers : Answers) (auth : AuthBinding) (rec : Record) (store : Store) where
    -- The lease of a Session whose process runs is not given away.
    abbrev Leased : Type 0
    Leased = answers.session ≡ recovered → alive ≡ false

    module _ (file : store.record_file ≡ holds rec) (h : Safe alive store) (leased : Leased) where
      recovered_root-AllRuns :
          (cap : Capability)
          → store.capability_file ≡ holds cap
          → is_removed rec.state ≡ false
          → alive ≡ false
          → AllRuns (Reports alive) (recovered_root sha256 now answers auth rec cap) store
      recovered_root-AllRuns cap held u dead =
          branch alive (is_codex rec.target && not (holds_challenge auth cap.challenge)) _ _ store
            (λ e faults.
              failure alive (result not_recoverable rec.state rec.revision) store (λ x. cc) h)
            (λ e.
              branch alive answers.proven _ _ store
                (λ f. remove_proven-AllRuns alive sha256 now auth rec cap store file held u dead h)
                (λ f.
                  rewrite-AllRuns alive rec store file h (restricted unproven now rec)
                    (result left_unproven unproven rec.revision) u refl (λ x. cc)))

      with_session-AllRuns :
          (session : SessionAnswer) (cap : Capability)
          → answers.session ≡ session
          → store.capability_file ≡ holds cap
          → is_removed rec.state ≡ false
          → AllRuns (Reports alive) (with_session sha256 now session answers auth rec cap) store
      with_session-AllRuns running cap e held u =
          λ faults. failure alive (result still_active active rec.revision) store (λ x. cc) h
      with_session-AllRuns refused cap e held u =
          λ faults. failure alive (result not_recoverable rec.state rec.revision) store (λ x. cc) h
      with_session-AllRuns no_root cap e held u =
          rewrite-AllRuns alive rec store file h (restricted unknown now rec)
            (result not_recoverable unknown rec.revision) u refl (λ x. cc)
      with_session-AllRuns recovered cap e held u = recovered_root-AllRuns cap held u (leased e)

      with_binding-AllRuns :
          (cap : Capability) (binding : Reading RootBinding)
          → store.capability_file ≡ holds cap
          → AllRuns (Reports alive) (with_binding sha256 now answers auth rec cap binding) store
      with_binding-AllRuns cap binding held =
          branch alive (binding_disagrees rec cap binding) _ _ store
            (λ e. leave_unproven-AllRuns alive rec store file h sha256 now)
            (λ e.
              branch alive (is_lookup_gone auth && not (is_removed rec.state)) _ _ store
                (λ f faults.
                  failure alive (result not_recoverable rec.state rec.revision) store (λ x. cc) h)
                (λ f.
                  branch alive cap.removed _ _ store
                    (λ r. complete-AllRuns alive sha256 now auth rec cap store held r h)
                    (λ r.
                      branch alive (is_removed rec.state) _ _ store
                        (λ g faults.
                          failure alive (result removal_failed removed rec.revision) store (λ x. cc)
                            h)
                        (λ g. with_session-AllRuns answers.session cap refl held g))))

      with_capability-AllRuns :
          (valid : Capability → Bool) (cap : Reading Capability)
          → checked valid store.capability_file ≡ cap
          → AllRuns (Reports alive) (with_capability sha256 now answers auth rec cap) store
      with_capability-AllRuns valid unreadable e =
          leave_unproven-AllRuns alive rec store file h sha256 now
      with_capability-AllRuns valid absent e =
          branch_at alive (is_removed rec.state) (already_removed sha256 now rec)
            (leave_unproven sha256 now rec) store
            (λ r.
              already_removed-AllRuns alive rec store file h sha256 now r
                (missing_of_absent valid store.capability_file e))
            (λ r. leave_unproven-AllRuns alive rec store file h sha256 now)
      with_capability-AllRuns valid (present cap) e =
          branch_at alive (valid_binding rec cap)
            (with_binding sha256 now answers auth rec cap
              (read_root_binding rec.id cap.root_name store))
            (leave_unproven sha256 now rec) store
            (λ v. with_binding-AllRuns cap _ (holds_of_present valid store.capability_file cap e))
            (λ v. leave_unproven-AllRuns alive rec store file h sha256 now)

  module _ (answers : Answers) (store : Store) (h : Safe alive store)
      (leased : answers.session ≡ recovered → alive ≡ false) where
    with_fence-AllRuns :
        (fence : FenceAnswer) (id : Bytes) (auth : AuthBinding) (snapshot : Record)
        (before : Reading Capability)
        → AllRuns
            (Reports alive)
            (with_fence sha256 now fence answers id auth snapshot before)
            store
    with_fence-AllRuns contended id auth snapshot before =
        λ faults. failure alive (result busy snapshot.state snapshot.revision) store (λ x. cc) h
    with_fence-AllRuns fence_failed id auth snapshot before = λ faults.
        failure alive (result registry_unavailable snapshot.state snapshot.revision) store (λ x. cc)
          h
    with_fence-AllRuns taken id auth snapshot before = under (read_record id store) refl
      where
        under :
            (rec : Reading Record)
            → read_record id store ≡ rec
            → AllRuns
                (Reports alive)
                (under_fence sha256 now answers auth snapshot before rec (read_capability id store))
                store
        under absent e = λ faults.
            failure alive (result session_not_found snapshot.state snapshot.revision) store
              (λ x. cc) h
        under unreadable e = λ faults.
            failure alive (result not_recoverable corrupt snapshot.revision) store (λ x. cc) h
        under (present rec) e =
            branch alive
              (not (is_lookup_gone auth)
                && not (same_record rec snapshot && same_reading (read_capability id store) before))
              _ _ store
              (λ t faults.
                failure alive (result busy snapshot.state snapshot.revision) store (λ x. cc) h)
              (λ t.
                with_capability-AllRuns answers auth rec store
                  (holds_of_present (valid_record id) store.record_file rec e) h leased
                  (valid_capability id) _ refl)

    acquired-AllRuns :
        (auth : AuthAnswer) (snapshot : Record) (cap : Capability)
        (rest : AuthBinding → Operation RecoverResult)
        → ((a : AuthBinding) → AllRuns (Reports alive) (rest a) store)
        → AllRuns (Reports alive) (acquired sha256 now auth snapshot cap rest) store
    acquired-AllRuns no_store snapshot cap rest k = λ faults.
        failure alive (result not_recoverable snapshot.state snapshot.revision) store (λ x. cc) h
    acquired-AllRuns acquire_failed snapshot cap rest k = λ faults.
        failure alive (result not_recoverable snapshot.state snapshot.revision) store (λ x. cc) h
    acquired-AllRuns acquire_busy snapshot cap rest k =
        λ faults. failure alive (result busy snapshot.state snapshot.revision) store (λ x. cc) h
    acquired-AllRuns gone snapshot cap rest k = k lookup_gone
    acquired-AllRuns (without_marker held prepared) snapshot cap rest k =
        k (bound held prepared false)
    acquired-AllRuns (with_marker held prepared) snapshot cap rest k =
        branch alive (bytes_eq held cap.challenge) _ _ store (λ e. k (bound held prepared true))
          (λ e faults.
            failure alive (result not_recoverable snapshot.state snapshot.revision) store (λ x. cc)
              h)

    with_auth-AllRuns :
        (snapshot : Record) (cap : Reading Capability)
        (rest : AuthBinding → Operation RecoverResult)
        → ((a : AuthBinding) → AllRuns (Reports alive) (rest a) store)
        → AllRuns (Reports alive) (with_auth sha256 now answers snapshot cap rest) store
    with_auth-AllRuns snapshot absent rest k = k no_binding
    with_auth-AllRuns snapshot unreadable rest k = k no_binding
    with_auth-AllRuns snapshot (present cap) rest k =
        branch alive (valid_binding snapshot cap && is_codex snapshot.target) _ _ store
          (λ e. acquired-AllRuns answers.auth snapshot cap rest k) (λ e. k no_binding)

    with_registry-AllRuns :
        (registry : Option Bool) (id : Bytes) (snapshot : Reading Record)
        (before : Reading Capability)
        → AllRuns
            (Reports alive)
            (with_registry sha256 now registry answers id snapshot before)
            store
    with_registry-AllRuns none id snapshot before =
        λ faults. failure alive (result session_not_found unknown 0) store (λ x. cc) h
    with_registry-AllRuns (some false) id snapshot before =
        λ faults. failure alive (result registry_unavailable unknown 0) store (λ x. cc) h
    with_registry-AllRuns (some true) id unreadable before =
        λ faults. failure alive (result not_recoverable corrupt 0) store (λ x. cc) h
    with_registry-AllRuns (some true) id absent before =
        λ faults. failure alive (result session_not_found unknown 0) store (λ x. cc) h
    with_registry-AllRuns (some true) id (present snapshot) before =
        with_auth-AllRuns snapshot before _
          (λ a. with_fence-AllRuns answers.fence id a snapshot before)

    -- If the registry is safe before, and a Session whose process runs is not recovered, then Recover leaves
    -- the registry safe, whatever the other answers are, whatever it has read before the fence and whichever
    -- writes fail; and it reports that the Session is removed only if then its root, its capability and its
    -- binding are gone and its record says that it is removed.
    pub recover-Reports :
        (id : Bytes) (snapshot : Reading Record) (before : Reading Capability)
        → AllRuns (Reports alive) (recover sha256 now id answers snapshot before) store
    unfolding recover
    recover-Reports id snapshot before =
        branch alive (not (valid_id id)) _ _ store
          (λ e faults. failure alive (result invalid_session_id unknown 0) store (λ x. cc) h)
          (λ e. with_registry-AllRuns answers.registry_bound id snapshot before)
