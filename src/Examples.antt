-- ===== src/Examples.antt =====
-- Tests of the definitions, and an instance of each theorem that has hypotheses.
mod Text
mod Plan
mod Parts
mod Sync
mod Settings
mod Rounds
mod Engine
mod Alerts
