-- ===== src/SessionOps/Registry/Safe/Completes.antt =====
-- internal/sessionops/sessionops.go: a removal that was interrupted is completed by Recover.
use ai_config_selector.SessionOps.Registry.{
  is_removed, Record, Capability, File, holds, Store, read_record, read_capability,
}
use ai_config_selector.SessionOps.Registry.Writes.{Fault}
use ai_config_selector.SessionOps.Registry.Answers.{
  RecoverResult, Answers, AuthAnswer, no_store, acquire_busy, acquire_failed, gone, without_marker,
  with_marker, taken, is_codex,
}
use ai_config_selector.SessionOps.Registry.Recovery.{recover}
use ai_config_selector.Prelude.{true, false, ◌≡◌, ◌⊎◌, List, some}
use ai_config_selector.Prelude.Bytes.{Bytes}

-- The answers with which Recover gets to the files.
pub record IsReady (answers : Answers) : Type 0 where
  pub registry : answers.registry_bound ≡ some true
  pub fence : answers.fence ≡ taken

-- The answer of the authentication store by which the removal of a Codex Session goes on.
abbrev pub IsHeld : Record → Capability → AuthAnswer → Type 0
IsHeld rec cap (without_marker held prepared) = Unit
IsHeld rec cap (with_marker held prepared) = held ≡ cap.challenge
IsHeld rec cap gone = is_removed rec.state ≡ true
IsHeld rec cap no_store = ⊥
IsHeld rec cap acquire_busy = ⊥
IsHeld rec cap acquire_failed = ⊥

abbrev pub IsAuthorised : AuthAnswer → File Record → File Capability → Type 0
IsAuthorised auth (holds rec) (holds cap) = (is_codex rec.target ≡ false) ⊎ IsHeld rec cap auth
IsAuthorised auth _ _ = Unit

-- Recover, on what it reads both before the fence and under it.
abbrev pub recovering :
    (Bytes → Bytes) → Bytes → Bytes → Answers → Store → List Fault → RecoverResult × Store
recovering sha256 now id answers store =
    recover sha256 now id answers (read_record id store) (read_capability id store) store
