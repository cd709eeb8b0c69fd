-- ===== src/Notifier/InFlight.antt =====
-- notifier/inflight.go. The channel of slots is how many it holds; each part under `dropMu` is one
-- function, and what writeDropLog writes is the counts that it is given. The counts are 64 bits wide.
pub mod Slots
pub mod Drops
use cloudhost_firewall_autou.Common.{
  ℕ, zero, suc, ◌&&◌, ◌+◌, ◌-◌, ◌%◌, ◌^◌, ◌≡◌, Bool, true, false, not, Option, none, some, List, [],
  ◌∷◌, ◌==◌, nat_eq, list_eq, ltb, if◌then◌else◌, update,
}
use cloudhost_firewall_autou.Strings.{Text, codes}
use cloudhost_firewall_autou.Strconv.{ℤ, pos, negsuc}
use cloudhost_firewall_autou.Notifier.{EventType, dns_failed, sync_error, operational_unhealthy}

abbrev pub in_flight_limit : ℕ
in_flight_limit = 4

pub record DropCounts : Type 0 where
  pub channels : ℕ → ℕ
  pub events : ℕ → ℕ

abbrev pub no_drops : DropCounts
no_drops = record { channels = λ i. 0; events = λ i. 0 }

pub record InFlightLimiter : Type 0 where
  pub capacity : ℕ
  pub slots : ℕ
  pub drop_timer : Bool
  pub drops : DropCounts
  pub diagnostics_closed : Bool

abbrev capacity_of : ℤ → ℕ
capacity_of (pos zero) = 1
capacity_of (pos (suc n)) = suc n
capacity_of (negsuc n) = 1

unfoldable pub new_in_flight_limiter : ℤ → InFlightLimiter
new_in_flight_limiter capacity = record {
  capacity = capacity_of capacity;
  slots = 0;
  drop_timer = false;
  drops = no_drops;
  diagnostics_closed = false;
}

-- A call of Acquire with its release function: not made, granted, refused, or given back.
pub data Token : Type 0 where
  unused held refused released : Token

unfoldable pub acquire : InFlightLimiter → InFlightLimiter × Token
acquire l =
    if ltb l.slots l.capacity then (record l { slots = l.slots + 1 }, held) else (l, refused)

-- The release function runs its body once.
unfoldable pub release : InFlightLimiter → Token → InFlightLimiter × Token
release l held = (record l { slots = l.slots - 1 }, released)
release l t = (l, t)

unfoldable pub channel_index : Text → ℕ
channel_index channel =
    if channel == codes "email"
    then 0
    else if channel == codes "dingtalk"
    then 1
    else if channel == codes "feishu"
    then 2
    else if channel == codes "slack"
    then 3
    else 4

unfoldable pub event_index : EventType → Option ℕ
event_index dns_failed = some 0
event_index sync_error = some 1
event_index operational_unhealthy = some 2
event_index _ = none

abbrev pub add64 : ℕ → ℕ
add64 n = (n + 1) % 2 ^ 64

abbrev pub count_drop : ℕ → ℕ → DropCounts → DropCounts
count_drop ci ei d = record {
  channels = update d.channels ci (add64 (d.channels ci));
  events = update d.events ei (add64 (d.events ei));
}

abbrev pub log_counted : ℕ → Option ℕ → InFlightLimiter → InFlightLimiter × Option DropCounts
log_counted ci none l = (l, none)
log_counted ci (some ei) l =
    let counted = count_drop ci ei l.drops in
    if l.diagnostics_closed
    then (l, none)
    else if l.drop_timer
    then (record l { drops = counted }, none)
    else (record l { drops = no_drops; drop_timer = true }, some counted)

-- A dropped notification, with what is logged of it at once.
unfoldable pub log_dropped :
    Text → EventType → InFlightLimiter → InFlightLimiter × Option DropCounts
log_dropped channel event l = log_counted (channel_index channel) (event_index event) l

abbrev pub no_events : DropCounts → Bool
no_events d = (d.events 0 == 0) && ((d.events 1 == 0) && (d.events 2 == 0))

-- The end of the window: the part before the log line, and the part after it.
unfoldable pub flush_drops : InFlightLimiter → InFlightLimiter × Option DropCounts
flush_drops l =
    if l.diagnostics_closed
    then (l, none)
    else if no_events l.drops
    then (record l { drop_timer = false }, none)
    else (record l { drops = no_drops }, some l.drops)

unfoldable pub rearm : InFlightLimiter → InFlightLimiter
rearm l = if l.diagnostics_closed then l else record l { drop_timer = true }

unfoldable pub stop_diagnostics : InFlightLimiter → InFlightLimiter
stop_diagnostics l = record l { diagnostics_closed = true; drop_timer = false; drops = no_drops }
