-- ===== src/Health.antt =====
-- internal/health/: the evaluation of the program's health, and the supervisor that reports it.
pub mod Checker
pub mod Supervisor
