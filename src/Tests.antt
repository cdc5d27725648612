-- ===== src/Tests.antt =====
-- Runs of the definitions on concrete inputs, and each theorem at an input that meets its
-- hypotheses.
mod Intent
mod Launch
mod Release
mod StrictJson
mod SelfUpdate
mod Instructions
mod Authority
mod SessionOps
mod Registry
