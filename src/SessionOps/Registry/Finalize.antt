-- ===== src/SessionOps/Registry/Finalize.antt =====
-- internal/sessionops/sessionops.go: FinalizeRemoval. Its walks over the files of the other Sessions find
-- nothing for the root, or fail; the callbacks `remove` and `finalize` are calls that may fail.
use ai_config_selector.SessionOps.Registry.{
  is_removed, Record, Capability, RootBinding, Reading, absent, unreadable, present, challenge_size,
  is_root_name, decode_hex, decodes_to, completion_challenge_hash, valid_binding,
  valid_completion_binding, read_record, read_capability, read_root_binding,
}
use ai_config_selector.SessionOps.Registry.Writes.{
  Operation, finish, write, attempt, put_record, put_capability, remove_binding, remove_capability,
  remove_root,
}
use ai_config_selector.SessionOps.Registry.Recovery.{binding_disagrees, completed}
use ai_config_selector.Prelude.{
  Bool, true, false, ◌&&◌, ◌||◌, not, if◌then◌else◌, Option, none, some,
}
use ai_config_selector.Prelude.Bytes.{Bytes, bytes_eq}

-- Whether the registry is bound, whether the walks over the other Sessions succeed, and what `remove` says.
pub record Removal : Type 0 where
  pub registry_bound : Option Bool
  pub others_clear : Bool
  pub removes : Bool

-- if removed, err := remove(); err != nil { return err }
abbrev pub remove_call : Bool → Operation Bool → Operation Bool
remove_call true rest = write remove_root false rest
remove_call false rest = attempt false rest

-- No general metadata is left: a Session that was not tracked.
abbrev pub untracked : Removal → Operation Bool
untracked removal = remove_call removal.removes (attempt false (finish true))

module _ (sha256 : Bytes → Bytes) (now id root_name challenge : Bytes) where
  abbrev pub binding_differs : Record → RootBinding → Bool
  binding_differs rec binding =
      not (bytes_eq binding.id rec.id && bytes_eq binding.root_token rec.root_token)

  -- The record says that the removal is complete, up to the typed marker and the binding.
  abbrev pub after_completion : Record → Reading RootBinding → Operation Bool
  after_completion rec unreadable = finish false
  after_completion rec absent = attempt false (attempt false (finish true))
  after_completion rec (present binding) =
      if binding_differs rec binding
      then finish false
      else attempt false (write remove_binding false (finish true))

  abbrev pub is_completed : Record → Bool
  is_completed rec =
      is_removed rec.state
      && (bytes_eq rec.completion_root root_name
          && bytes_eq rec.completion_challenge_hash (completion_challenge_hash sha256 challenge))

  abbrev pub if_untracked : Removal → Reading RootBinding → Operation Bool
  if_untracked removal absent = untracked removal
  if_untracked removal _ = finish false

  -- No capability has the root.
  abbrev pub by_record : Removal → Reading Record → Reading RootBinding → Operation Bool
  by_record removal unreadable binding = finish false
  by_record removal absent binding = if_untracked removal binding
  by_record removal (present rec) binding =
      if is_completed rec
      then if valid_completion_binding rec
        then attempt false (attempt false (after_completion rec binding))
        else finish false
      else if_untracked removal binding

  -- The record of the removal, the typed marker, the binding and the capability.
  abbrev pub publish : Record → Capability → Operation Bool
  publish rec cap =
      write (put_record (completed sha256 now rec cap)) false
        (attempt false (write remove_binding false (write remove_capability false (finish true))))

  -- if !removed { return err }, after `remove`
  abbrev pub remove_first : Bool → Record → Capability → Operation Bool
  remove_first true rec cap =
      let final = record cap { removed = true } in
      write remove_root false (write (put_capability final) false (publish rec final))
  remove_first false rec cap = attempt false (finish false)

  abbrev pub by_capability :
      Removal → Reading Record → Capability → Reading RootBinding → Operation Bool
  by_capability removal (present rec) cap binding =
      if not (valid_binding rec cap)
        || (not (bytes_eq cap.challenge challenge) || binding_disagrees rec cap binding)
      then finish false
      else if cap.removed
      then write (put_capability cap) false (publish rec cap)
      else remove_first removal.removes rec cap
  by_capability removal _ cap binding = finish false

  abbrev pub matched :
      Removal → Reading Record → Reading Capability → Reading RootBinding → Operation Bool
  matched removal rec unreadable binding = finish false
  matched removal rec absent binding = by_record removal rec binding
  matched removal rec (present cap) binding =
      if bytes_eq cap.root_name root_name
      then by_capability removal rec cap binding
      else by_record removal rec binding

  abbrev pub in_registry : Option Bool → Removal → Operation Bool
  in_registry none removal store = untracked removal store
  in_registry (some false) removal store = finish false store
  in_registry (some true) removal store =
      if removal.others_clear
      then matched removal (read_record id store) (read_capability id store)
          (read_root_binding id root_name store) store
      else finish false store

  -- Whether FinalizeRemoval returns no error.
  unfoldable pub finalize_removal : Removal → Operation Bool
  finalize_removal removal =
      if is_root_name root_name && decodes_to challenge_size (decode_hex challenge)
      then in_registry removal.registry_bound removal
      else finish false
