-- ===== src/Syncer.antt =====
-- syncer/: the synchronisation of one target.
pub mod Retry
pub mod Observation
pub mod Calls
pub mod Resolve
pub mod Attempt
pub mod Target
pub mod DnsRound
pub mod Round
pub mod Loop
pub mod State
pub mod DryRun
