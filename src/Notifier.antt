-- ===== src/Notifier.antt =====
-- notifier/: the event bus, and the limit on notifications in flight.
pub mod InFlight
pub mod Bus
use cloudhost_firewall_autou.Common.{ℕ}

pub data EventType : Type 0 where
  sync_start sync_complete target_sync_complete domain_sync_complete : EventType
  sync_error dns_failed operational_unhealthy : EventType

unfoldable pub event_number : EventType → ℕ
event_number sync_start = 0
event_number sync_complete = 1
event_number target_sync_complete = 2
event_number domain_sync_complete = 3
event_number sync_error = 4
event_number dns_failed = 5
event_number operational_unhealthy = 6

-- An event with its `Data`.
pub record Event (D : Type 0) : Type 0 where
  pub event_type : EventType
  pub timestamp : ℕ
  pub payload : D
