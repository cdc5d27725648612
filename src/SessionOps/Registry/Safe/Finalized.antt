-- ===== src/SessionOps/Registry/Safe/Finalized.antt =====
-- internal/sessionops/sessionops.go: FinalizeRemoval keeps the registry safe.
use ai_config_selector.SessionOps.Registry.{
  is_removed, Record, Capability, RootBinding, Reading, absent, unreadable, present, Store, holds,
  is_root_name, decode_hex, decodes_to, valid_binding, valid_completion_binding, read_record,
  read_capability, read_root_binding, valid_capability,
}
use ai_config_selector.SessionOps.Registry.Writes.{
  Operation, finish, write, attempt, put_record, put_capability, remove_binding, remove_capability,
  remove_root,
}
use ai_config_selector.SessionOps.Registry.Recovery.{binding_disagrees, completed}
use ai_config_selector.SessionOps.Registry.Finalize.{
  Removal, remove_call, binding_differs, after_completion, is_completed, if_untracked, by_record,
  publish, remove_first, by_capability, matched, in_registry, finalize_removal,
}
use ai_config_selector.SessionOps.Registry.Safe.{
  Ended, Marked, Safe, AllRuns, put_record-Safe, put_capability-Safe, remove_binding-Safe,
  remove_capability-Safe, Ended-Safe,
}
use ai_config_selector.SessionOps.Registry.Safe.Recovered.{holds_of_present}
use ai_config_selector.SessionOps.Registry.Safe.Tracked.{Stays, step, branch, branch_at}
use ai_config_selector.Prelude.{
  Bool, true, false, ◌&&◌, ◌||◌, not, ◌≡◌, refl, subst, Option, none, some, Bool-cases, inl, inr,
}
use ai_config_selector.Prelude.Bytes.{Bytes, bytes_eq}

module _ (sha256 : Bytes → Bytes) (now id root_name challenge : Bytes) where
  untracked-AllRuns :
      (removes : Bool) (store : Store)
      → Safe false store
      → AllRuns (Stays false) (remove_call removes (attempt false (finish true))) store
  untracked-AllRuns true store h =
      let h1 : Safe false (remove_root store) =
        Ended-Safe false false false store (λ e. (refl, refl)) h in
      step false remove_root false (attempt false (finish true)) store h h1
        (step false (λ s. s) false (finish true) (remove_root store) h1 h1 (λ faults. h1))
  untracked-AllRuns false store h =
      step false (λ s. s) false (attempt false (finish true)) store h h
        (step false (λ s. s) false (finish true) store h h (λ faults. h))

  after_completion-AllRuns :
      (rec : Record) (binding : Reading RootBinding) (store : Store)
      → Safe false store
      → AllRuns (Stays false) (after_completion sha256 now id root_name challenge rec binding) store
  after_completion-AllRuns rec unreadable store h = λ faults. h
  after_completion-AllRuns rec absent store h =
      step false (λ s. s) false (attempt false (finish true)) store h h
        (step false (λ s. s) false (finish true) store h h (λ faults. h))
  after_completion-AllRuns rec (present binding) store h =
      let last : Operation Bool = write remove_binding false (finish true) in
      branch false (binding_differs sha256 now id root_name challenge rec binding) (finish false)
        (attempt false last) store (λ e faults. h)
        (λ e.
          step false (λ s. s) false last store h h
            (step false remove_binding false (finish true) store h
              (remove_binding-Safe false store h) (λ faults. remove_binding-Safe false store h)))

  if_untracked-AllRuns :
      (removal : Removal) (binding : Reading RootBinding) (store : Store)
      → Safe false store
      → AllRuns (Stays false) (if_untracked sha256 now id root_name challenge removal binding) store
  if_untracked-AllRuns removal absent store h = untracked-AllRuns removal.removes store h
  if_untracked-AllRuns removal unreadable store h = λ faults. h
  if_untracked-AllRuns removal (present b) store h = λ faults. h

  by_record-AllRuns :
      (removal : Removal) (current : Reading Record) (binding : Reading RootBinding) (store : Store)
      → Safe false store
      → AllRuns
          (Stays false)
          (by_record sha256 now id root_name challenge removal current binding)
          store
  by_record-AllRuns removal unreadable binding store h = λ faults. h
  by_record-AllRuns removal absent binding store h = if_untracked-AllRuns removal binding store h
  by_record-AllRuns removal (present rec) binding store h =
      let rest = after_completion sha256 now id root_name challenge rec binding in
      branch false (is_completed sha256 now id root_name challenge rec) _ _ store
        (λ e.
          branch false (valid_completion_binding rec) (attempt false (attempt false rest))
            (finish false) store
            (λ f.
              step false (λ s. s) false (attempt false rest) store h h
                (step false (λ s. s) false rest store h h
                  (after_completion-AllRuns rec binding store h)))
            (λ f faults. h))
        (λ e. if_untracked-AllRuns removal binding store h)

  -- The capability is there, and the root is gone.
  publish-AllRuns :
      (rec : Record) (cap other : Capability) (store : Store)
      → store.root ≡ false
      → Safe false (put_capability other store)
      → AllRuns
          (Stays false)
          (publish sha256 now id root_name challenge rec cap)
          (put_capability other store)
  publish-AllRuns rec cap other store r h =
      let final = completed sha256 now rec cap in
      let p3 : Operation Bool = write remove_capability false (finish true) in
      let p2 : Operation Bool = write remove_binding false p3 in
      let s0 = put_capability other store in
      let s1 = put_record final s0 in
      let h1 : Safe false s1 = put_record-Safe false final s0 tt (λ e. (r, refl)) h in
      let h2 : Safe false (remove_binding s1) = remove_binding-Safe false s1 h1 in
      let h3 : Safe false (remove_capability (remove_binding s1)) =
        remove_capability-Safe false final store.root is_final (r, refl) in
      step false (put_record final) false (attempt false p2) s0 h h1 (
        step false (λ s. s) false p2 s1 h1 h1
          (step false remove_binding false p3 s1 h1 h2 (
            step false remove_capability false (finish true) (remove_binding s1) h2 h3
              (λ faults. h3))))
    where
      is_final : is_removed (completed sha256 now rec cap).state ≡ true
      is_final = elim (Bool-cases (is_removed rec.state)) [ inl e ↦ rw e e | inr e ↦ rw e refl ]

  remove_first-AllRuns :
      (removes : Bool) (rec : Record) (cap : Capability) (store : Store)
      → Safe false store
      → AllRuns (Stays false) (remove_first sha256 now id root_name challenge removes rec cap) store
  remove_first-AllRuns false rec cap store h =
      step false (λ s. s) false (finish false) store h h (λ faults. h)
  remove_first-AllRuns true rec cap store h =
      let final = record cap { removed = true } in
      let rest = publish sha256 now id root_name challenge rec final in
      let h1 : Safe false (remove_root store) =
        Ended-Safe false false false store (λ e. (refl, refl)) h in
      let h2 : Safe false (put_capability final (remove_root store)) =
        put_capability-Safe false final (remove_root store) (λ e. (refl, refl)) h1 in
      step false remove_root false (write (put_capability final) false rest) store h h1 (
        step false (put_capability final) false rest (remove_root store) h1 h2
          (publish-AllRuns rec final final (remove_root store) refl h2))

  by_capability-AllRuns :
      (removal : Removal) (current : Reading Record) (cap : Capability)
      (binding : Reading RootBinding) (store : Store)
      → store.capability_file ≡ holds cap
      → Safe false store
      → AllRuns
          (Stays false)
          (by_capability sha256 now id root_name challenge removal current cap binding)
          store
  by_capability-AllRuns removal absent cap binding store file h = λ faults. h
  by_capability-AllRuns removal unreadable cap binding store file h = λ faults. h
  by_capability-AllRuns removal (present rec) cap binding store file h =
      branch false
        (not (valid_binding rec cap)
          || (not (bytes_eq cap.challenge challenge) || binding_disagrees rec cap binding))
        _ _ store (λ e faults. h)
        (λ e.
          branch false cap.removed _ _ store
            (λ r.
              let ended = subst (λ f. Marked f (Ended false store.root)) file h.marked r in
              let h1 = put_capability-Safe false cap store (λ x. ended) h in
              step false (put_capability cap) false
                (publish sha256 now id root_name challenge rec cap) store h h1
                (publish-AllRuns rec cap cap store ended.0 h1))
            (λ r. remove_first-AllRuns removal.removes rec cap store h))

  matched-AllRuns :
      (removal : Removal) (current : Reading Record) (cap : Reading Capability)
      (binding : Reading RootBinding) (store : Store)
      → read_capability id store ≡ cap
      → Safe false store
      → AllRuns
          (Stays false)
          (matched sha256 now id root_name challenge removal current cap binding)
          store
  matched-AllRuns removal current unreadable binding store e h = λ faults. h
  matched-AllRuns removal current absent binding store e h =
      by_record-AllRuns removal current binding store h
  matched-AllRuns removal current (present cap) binding store e h =
      branch false (bytes_eq cap.root_name root_name) _ _ store
        (λ n.
          by_capability-AllRuns removal current cap binding store
            (holds_of_present (valid_capability id) store.capability_file cap e) h)
        (λ n. by_record-AllRuns removal current binding store h)

  in_registry-AllRuns :
      (registry : Option Bool) (removal : Removal) (store : Store)
      → Safe false store
      → AllRuns (Stays false) (in_registry sha256 now id root_name challenge registry removal) store
  in_registry-AllRuns none removal store h = untracked-AllRuns removal.removes store h
  in_registry-AllRuns (some false) removal store h = λ faults. h
  in_registry-AllRuns (some true) removal store h =
      branch_at false removal.others_clear
        (matched sha256 now id root_name challenge removal (read_record id store)
          (read_capability id store) (read_root_binding id root_name store))
        (finish false) store (λ e. matched-AllRuns removal _ _ _ store refl h) (λ e faults. h)

  pub finalize_removal-Safe :
      (removal : Removal) (store : Store)
      → Safe false store
      → AllRuns (Stays false) (finalize_removal sha256 now id root_name challenge removal) store
  unfolding finalize_removal
  finalize_removal-Safe removal store h =
      branch false (is_root_name root_name && decodes_to 32 (decode_hex challenge))
        (in_registry sha256 now id root_name challenge removal.registry_bound removal)
        (finish false) store (λ e. in_registry-AllRuns removal.registry_bound removal store h)
        (λ e faults. h)
