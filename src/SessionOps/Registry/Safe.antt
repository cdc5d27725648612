-- ===== src/SessionOps/Registry/Safe.antt =====
-- internal/sessionops/sessionops.go: what the registry keeps at every write, whichever of them fail.
pub mod Tracked
pub mod Finalized
pub mod Recovered
pub mod Removals
pub mod Recovers
pub mod Runs
pub mod Resumable
pub mod Unchanged
pub mod Completions
pub mod Completes
pub mod Pruned
use ai_config_selector.SessionOps.Registry.{
  is_removed, Record, Capability, RootBinding, File, missing, damaged, holds, Store,
}
use ai_config_selector.SessionOps.Registry.Writes.{
  Fault, done, lost, late, Operation, finish, write, write_ignoring, put_record, put_capability,
  put_binding, remove_binding, remove_capability, remove_record, remove_root,
}
use ai_config_selector.Prelude.{Bool, true, false, ◌≡◌, refl, List, [], ◌∷◌}

abbrev pub Present : {A : Type 0} → File A → Type 0
Present (holds value) = Unit
Present _ = ⊥

abbrev pub IsMissing : {A : Type 0} → File A → Type 0
IsMissing missing = Unit
IsMissing _ = ⊥

abbrev pub IsRemovedRecord : File Record → Type 0
IsRemovedRecord (holds rec) = is_removed rec.state ≡ true
IsRemovedRecord _ = ⊥

-- The root is removed, and no process owns the Session.
abbrev pub Ended : Bool → Bool → Type 0
Ended alive root = (root ≡ false) × (alive ≡ false)

-- A record that is not removed has a capability.
abbrev pub Kept : File Record → File Capability → Type 0
Kept (holds rec) cap = is_removed rec.state ≡ false → Present cap
Kept _ cap = Unit

abbrev pub Gone : File Record → Type 0 → Type 0
Gone (holds rec) ended = is_removed rec.state ≡ true → ended
Gone _ ended = Unit

abbrev pub Marked : File Capability → Type 0 → Type 0
Marked (holds cap) ended = cap.removed ≡ true → ended
Marked _ ended = Unit

-- A record without a capability has no binding either.
abbrev pub Unbound : File Record → File Capability → File RootBinding → Type 0
Unbound (holds rec) missing binding = IsMissing binding
Unbound _ _ binding = Unit

pub record Safe (alive : Bool) (store : Store) : Type 0 where
  pub kept : Kept store.record_file store.capability_file
  pub gone : Gone store.record_file (Ended alive store.root)
  pub marked : Marked store.capability_file (Ended alive store.root)
  pub unbound : Unbound store.record_file store.capability_file store.binding_file

-- What the operation reports and leaves meets J, whichever writes fail.
abbrev pub AllRuns {ℓ} : {R : Type ℓ} → (R → Store → Type 0) → Operation R → Store → Type 0
AllRuns J operation store =
    (faults : List Fault) → J (operation store faults).0 (operation store faults).1

module _ {ℓ} {R : Type ℓ} (J : R → Store → Type 0) where
  pub write-AllRuns :
      (effect : Store → Store) (failed : R) (rest : Operation R) (store : Store)
      → J failed store
      → J failed (effect store)
      → AllRuns J rest (effect store)
      → AllRuns J (write effect failed rest) store
  write-AllRuns effect failed rest store a b h [] = h []
  write-AllRuns effect failed rest store a b h (done ∷ faults) = h faults
  write-AllRuns effect failed rest store a b h (lost ∷ faults) = a
  write-AllRuns effect failed rest store a b h (late ∷ faults) = b

  pub write_ignoring-AllRuns :
      (effect : Store → Store) (rest : Operation R) (store : Store)
      → AllRuns J rest store
      → AllRuns J rest (effect store)
      → AllRuns J (write_ignoring effect rest) store
  write_ignoring-AllRuns effect rest store a h [] = h []
  write_ignoring-AllRuns effect rest store a h (done ∷ faults) = h faults
  write_ignoring-AllRuns effect rest store a h (lost ∷ faults) = a faults
  write_ignoring-AllRuns effect rest store a h (late ∷ faults) = h faults

module _ (alive : Bool) where
  Unbound-of_Present :
      (rec : File Record) (cap : File Capability) (binding : File RootBinding)
      → Present cap
      → Unbound rec cap binding
  Unbound-of_Present missing cap binding p = tt
  Unbound-of_Present damaged cap binding p = tt
  Unbound-of_Present (holds rec) missing binding p = absurd p
  Unbound-of_Present (holds rec) damaged binding p = tt
  Unbound-of_Present (holds rec) (holds cap) binding p = tt

  Kept-of_Present : (rec : File Record) (cap : File Capability) → Present cap → Kept rec cap
  Kept-of_Present missing cap p = tt
  Kept-of_Present damaged cap p = tt
  Kept-of_Present (holds rec) cap p = λ h. p

  pub put_record-Safe :
      (rec : Record) (store : Store)
      → Present store.capability_file
      → (is_removed rec.state ≡ true → Ended alive store.root)
      → Safe alive store
      → Safe alive (put_record rec store)
  put_record-Safe rec store p e h = record {
    kept = Kept-of_Present (holds rec) store.capability_file p;
    gone = e;
    marked = h.marked;
    unbound = Unbound-of_Present (holds rec) store.capability_file store.binding_file p;
  }

  pub put_capability-Safe :
      (cap : Capability) (store : Store)
      → (cap.removed ≡ true → Ended alive store.root)
      → Safe alive store
      → Safe alive (put_capability cap store)
  put_capability-Safe cap store e h = record {
    kept = Kept-of_Present store.record_file (holds cap) tt;
    gone = h.gone;
    marked = e;
    unbound = Unbound-of_Present store.record_file (holds cap) store.binding_file tt;
  }

  pub remove_binding-Safe : (store : Store) → Safe alive store → Safe alive (remove_binding store)
  remove_binding-Safe store h = record {
    kept = h.kept;
    gone = h.gone;
    marked = h.marked;
    unbound = none_left store.record_file store.capability_file;
  }
    where
      none_left : (rec : File Record) (cap : File Capability) → Unbound rec cap missing
      none_left missing cap = tt
      none_left damaged cap = tt
      none_left (holds rec) missing = tt
      none_left (holds rec) damaged = tt
      none_left (holds rec) (holds cap) = tt

  pub remove_capability-Safe :
      (rec : Record) (root : Bool)
      → is_removed rec.state ≡ true
      → Ended alive root
      → Safe alive (record {
        record_file = holds rec;
        capability_file = missing;
        binding_file = missing;
        root = root;
      })
  remove_capability-Safe rec root r e = record {
    kept = λ h. absurd (cc (r, h));
    gone = λ h. e;
    marked = tt;
    unbound = tt;
  }

  pub put_binding-Safe :
      (binding : RootBinding) (store : Store)
      → IsMissing store.record_file
      → Safe alive store
      → Safe alive (put_binding binding store)
  put_binding-Safe binding store m h = record {
    kept = h.kept;
    gone = h.gone;
    marked = h.marked;
    unbound = no_record store.record_file m;
  }
    where
      no_record :
          (rec : File Record) → IsMissing rec → Unbound rec store.capability_file (holds binding)
      no_record missing m = tt
      no_record damaged m = absurd m
      no_record (holds rec) m = absurd m

  Gone-map : (rec : File Record) {P Q : Type 0} → (P → Q) → Gone rec P → Gone rec Q
  Gone-map missing f h = tt
  Gone-map damaged f h = tt
  Gone-map (holds rec) f h = λ r. f (h r)

  Marked-map : (cap : File Capability) {P Q : Type 0} → (P → Q) → Marked cap P → Marked cap Q
  Marked-map missing f h = tt
  Marked-map damaged f h = tt
  Marked-map (holds cap) f h = λ r. f (h r)

  -- The root may be removed, and the process may end.
  pub Ended-Safe :
      (next root : Bool) (store : Store)
      → (Ended alive store.root → Ended next root)
      → Safe alive store
      → Safe next (record store { root = root })
  Ended-Safe next root store f h = record {
    kept = h.kept;
    gone = Gone-map store.record_file f h.gone;
    marked = Marked-map store.capability_file f h.marked;
    unbound = h.unbound;
  }

  pub remove_record-Safe : (store : Store) → Safe alive store → Safe alive (remove_record store)
  remove_record-Safe store h = record { kept = tt; gone = tt; marked = h.marked; unbound = tt }
