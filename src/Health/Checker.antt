-- ===== src/Health/Checker.antt =====
-- internal/health/health.go. A time is a number of nanoseconds since some start, so that `now.Sub(t)` is
-- `now - t`, 0 for a later `t`: it is only compared with durations that are not negative.
pub mod Collected
pub mod Reasons
use cloudhost_firewall_autou.Common.{
  ℕ, ◌+◌, ◌-◌, ◌*◌, Bool, true, false, not, ◌&&◌, Option, none, some, List, [], ◌∷◌, ◌++◌, is_empty,
  ltb, ◌==◌, nat_eq, if◌then◌else◌, is_none, Eq,
}
use cloudhost_firewall_autou.Config.Alerts.{AlertPolicyConfig, default_health_timeout, second}
use cloudhost_firewall_autou.Syncer.Round.{
  RoundOutcome, round_success, round_failed, round_partial, round_idle,
}

-- The constants Reason….
pub data Reason : Type 0 where
  reason_sqlite reason_syncer_stopped reason_round_timeout reason_last_round_failed : Reason
  reason_last_round_partial reason_schedule_stalled reason_no_completed_round : Reason

unfoldable pub reason_number : Reason → ℕ
reason_number reason_sqlite = 0
reason_number reason_syncer_stopped = 1
reason_number reason_round_timeout = 2
reason_number reason_last_round_failed = 3
reason_number reason_last_round_partial = 4
reason_number reason_schedule_stalled = 5
reason_number reason_no_completed_round = 6

-- The SyncStatus that Status returns; of the last round, its outcome.
pub record SyncStatus : Type 0 where
  pub running : Bool
  pub enabled : Bool
  pub last_sync : Option ℕ
  pub last_outcome : Option RoundOutcome
  pub round_started_at : Option ℕ
  pub process_started_at : ℕ
  pub started_at : Option ℕ

-- What Evaluate reads of its dependencies.
pub record Reading : Type 0 where
  pub now : ℕ
  pub ping_ok : Bool
  pub status : SyncStatus
  pub health_timeout : ℕ
  pub interval : ℕ
  pub startup_grace : ℕ

pub record Result : Type 0 where
  pub healthy : Bool
  pub checked_at : ℕ
  pub reasons : List Reason

abbrev pub default_startup_grace : ℕ
default_startup_grace = 10 * second

-- The grace that New sets where none is given.
unfoldable pub grace_of : ℕ → ℕ
grace_of given = if given == 0 then default_startup_grace else given

unfoldable pub timeout_of : ℕ → ℕ
timeout_of given = if given == 0 then default_health_timeout else given

abbrev pub reason_if : Bool → Reason → List Reason
reason_if true r = r ∷ []
reason_if false r = []

abbrev pub exceeds : ℕ → ℕ → Option ℕ → Bool
exceeds now limit none = false
exceeds now limit (some t) = ltb limit (now - t)

abbrev pub stopped_reason : Reading → List Reason
stopped_reason d =
    reason_if
      (not d.status.running
        && (if is_none d.status.started_at
            then ltb (grace_of d.startup_grace) (d.now - d.status.process_started_at)
            else true))
      reason_syncer_stopped

abbrev pub outcome_reason : Option RoundOutcome → List Reason
outcome_reason (some round_failed) = reason_last_round_failed ∷ []
outcome_reason (some round_partial) = reason_last_round_partial ∷ []
outcome_reason _ = []

abbrev pub schedule_reason : Reading → List Reason
schedule_reason d =
    if is_none d.status.round_started_at
    then (if is_none d.status.last_sync
        then reason_if (ltb (timeout_of d.health_timeout) (d.now - d.status.process_started_at))
            reason_no_completed_round
        else reason_if (exceeds d.now (d.interval + timeout_of d.health_timeout) d.status.last_sync)
            reason_schedule_stalled)
    else []

abbrev pub compact_with : Reason → List Reason → List Reason
compact_with r [] = r ∷ []
compact_with r (s ∷ rest) = if reason_number r == reason_number s then s ∷ rest else r ∷ s ∷ rest

-- slices.Compact: of equal neighbours one is kept.
unfoldable pub compact : List Reason → List Reason
compact [] = []
compact (r ∷ rs) = compact_with r (compact rs)

unfoldable pub collect : Reading → List Reason
collect d =
    reason_if (not d.ping_ok) reason_sqlite
    ++ (stopped_reason d
        ++ (if d.status.enabled
            then reason_if (exceeds d.now (timeout_of d.health_timeout) d.status.round_started_at)
                reason_round_timeout
              ++ (outcome_reason d.status.last_outcome ++ schedule_reason d)
            else []))

unfoldable pub evaluate : Reading → Result
evaluate d =
    let reasons = compact (collect d) in
    record { healthy = is_empty reasons; checked_at = d.now; reasons = reasons }

-- Without a policy the trigger is off.
unfoldable pub trigger_enabled : Option AlertPolicyConfig → Bool
trigger_enabled none = false
trigger_enabled (some p) = p.operational_error_enabled
