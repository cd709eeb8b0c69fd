-- ===== src/Health/Supervisor.antt =====
-- internal/health/supervisor.go: what one check does to the supervisor, under its mutex, and the event
-- that it publishes. Logs are left out; the bus is there.
pub mod Episodes
use cloudhost_firewall_autou.Common.{
  Bool, true, false, not, ◌&&◌, Option, none, some, List, [], ◌∷◌, if◌then◌else◌,
}
use cloudhost_firewall_autou.Health.Checker.{Reason, Result}

pub record Supervisor : Type 0 where
  pub was_unhealthy : Bool
  pub published : Bool
  pub last_reasons : List Reason

abbrev pub new_supervisor : Supervisor
new_supervisor = record { was_unhealthy = false; published = false; last_reasons = [] }

abbrev pub healthy_again : Supervisor
healthy_again = record { was_unhealthy = false; published = false; last_reasons = [] }

-- The supervisor in an unhealthy check, before it decides whether to publish.
abbrev pub unhealthy_with : List Reason → Supervisor → Supervisor
unhealthy_with reasons s = record {
  was_unhealthy = true;
  published = if s.was_unhealthy then s.published else false;
  last_reasons = reasons;
}

abbrev pub publish_if : Bool → Result → Supervisor → Supervisor × Option Result
publish_if true res s = (record s { published = true }, some res)
publish_if false res s = (s, none)

-- The published event carries the result.
unfoldable pub check : Supervisor → Result → Bool → Supervisor × Option Result
check s res trigger =
    let t = unhealthy_with res.reasons s in
    if res.healthy then (healthy_again, none) else publish_if (trigger && not t.published) res t
