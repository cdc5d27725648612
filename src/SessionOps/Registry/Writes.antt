-- ===== src/SessionOps/Registry/Writes.antt =====
-- internal/sessionops/sessionops.go: the writes of an operation, each of which may fail, before or after
-- its effect is visible. An operation stops at a write that fails, so that a failed write also stands for
-- the end of the process there.
use ai_config_selector.SessionOps.Registry.{Store, Record, Capability, RootBinding, missing, holds}
use ai_config_selector.Prelude.{false, List, [], ◌∷◌}

pub data Fault : Type 0 where
  done lost late : Fault

-- What an operation reports and leaves, by the store that it meets and the fate of its writes.
abbrev pub Operation {ℓ} : Type ℓ → Type ℓ
Operation R = Store → List Fault → R × Store

module _ {ℓ} {R : Type ℓ} where
  abbrev pub finish : R → Operation R
  finish r store faults = (r, store)

  -- if err := write(); err != nil { return failed }
  abbrev pub write : (Store → Store) → R → Operation R → Operation R
  write effect failed rest store [] = rest (effect store) []
  write effect failed rest store (done ∷ faults) = rest (effect store) faults
  write effect failed rest store (lost ∷ faults) = (failed, store)
  write effect failed rest store (late ∷ faults) = (failed, effect store)

  -- _ = write()
  abbrev pub write_ignoring : (Store → Store) → Operation R → Operation R
  write_ignoring effect rest store [] = rest (effect store) []
  write_ignoring effect rest store (done ∷ faults) = rest (effect store) faults
  write_ignoring effect rest store (lost ∷ faults) = rest store faults
  write_ignoring effect rest store (late ∷ faults) = rest (effect store) faults

  -- A call that leaves the registry alone, and may fail.
  abbrev pub attempt : R → Operation R → Operation R
  attempt failed rest = write (λ store. store) failed rest

abbrev pub put_record : Record → Store → Store
put_record value store = record store { record_file = holds value }

abbrev pub put_capability : Capability → Store → Store
put_capability value store = record store { capability_file = holds value }

abbrev pub put_binding : RootBinding → Store → Store
put_binding value store = record store { binding_file = holds value }

abbrev pub remove_binding : Store → Store
remove_binding store = record store { binding_file = missing }

abbrev pub remove_capability : Store → Store
remove_capability store = record store { capability_file = missing }

abbrev pub remove_record : Store → Store
remove_record store = record store { record_file = missing }

abbrev pub remove_root : Store → Store
remove_root store = record store { root = false }
