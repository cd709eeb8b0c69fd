-- ===== src/Notifier/InFlight/Drops.antt =====
-- Every dropped notification is logged once, or waits for the next log line.
use cloudhost_firewall_autou.Common.{
  ℕ, ◌+◌, ◌^◌, ◌≤◌, ◌<◌, ◌≡◌, refl, false, Option, none, some, is_none, List, [], ◌∷◌, length,
  nat_eq, arith, if◌then◌else◌,
}
use cloudhost_firewall_autou.Strings.{Text}
use cloudhost_firewall_autou.Strconv.{ℤ}
use cloudhost_firewall_autou.Notifier.{
  EventType, dns_failed, sync_error, operational_unhealthy, sync_start, sync_complete,
  target_sync_complete, domain_sync_complete,
}
use cloudhost_firewall_autou.Notifier.InFlight

-- What happens before StopDiagnostics: a drop, and the two parts of the end of a window.
pub data Op : Type 0 where
  drop : Text → EventType → Op
  flush : Op
  rearm : Op

abbrev pub apply :
    InFlight.InFlightLimiter → Op → InFlight.InFlightLimiter × Option InFlight.DropCounts
apply l (drop channel event) = InFlight.log_dropped channel event l
apply l flush = InFlight.flush_drops l
apply l rearm = (InFlight.rearm l, none)

abbrev pub events_of : InFlight.DropCounts → ℕ
events_of d = d.events 0 + d.events 1 + d.events 2

abbrev pub logged : Option InFlight.DropCounts → ℕ
logged none = 0
logged (some d) = events_of d

-- Whether the operation is a drop that counts: of one of the three alerts.
abbrev pub is_counted : Op → ℕ
is_counted (drop channel event) = if is_none (InFlight.event_index event) then 0 else 1
is_counted _ = 0

-- The notifications in all log lines, and the limiter at the end.
abbrev pub run : InFlight.InFlightLimiter → List Op → ℕ × InFlight.InFlightLimiter
run l [] = (0, l)
run l (o ∷ os) = let (l', line) = apply l o in let (n, last) = run l' os in (logged line + n, last)

abbrev pub counted : List Op → ℕ
counted [] = 0
counted (o ∷ os) = is_counted o + counted os

-- What an operation does to the number of dropped notifications.
abbrev Kept :
    InFlight.InFlightLimiter → ℕ → InFlight.InFlightLimiter × Option InFlight.DropCounts → Type 0
Kept l n (l', line) =
    (logged line + events_of l'.drops ≡ events_of l.drops + n) × (l'.diagnostics_closed ≡ false)

events-count_drop :
    (ci ei : ℕ) (d : InFlight.DropCounts)
    → ei < 3
    → events_of d + 1 < 2 ^ 64
    → events_of (InFlight.count_drop ci ei d) ≡ events_of d + 1
events-count_drop ci ei d small few = ground arith

log_counted-Kept :
    (ci ei : ℕ) (l : InFlight.InFlightLimiter)
    → ei < 3
    → events_of l.drops + 1 < 2 ^ 64
    → l.diagnostics_closed ≡ false
    → Kept l 1 (InFlight.log_counted ci (some ei) l)
log_counted-Kept ci ei l small few running =
    ground (arith, events-count_drop ci ei l.drops small few)

drop-Kept :
    (channel : Text) (event : EventType) (l : InFlight.InFlightLimiter)
    → events_of l.drops + 1 < 2 ^ 64
    → l.diagnostics_closed ≡ false
    → Kept l (is_counted (drop channel event)) (InFlight.log_dropped channel event l)
unfolding InFlight.log_dropped InFlight.event_index
drop-Kept channel dns_failed l few running =
    log_counted-Kept (InFlight.channel_index channel) 0 l (omega arith) few running
drop-Kept channel sync_error l few running =
    log_counted-Kept (InFlight.channel_index channel) 1 l (omega arith) few running
drop-Kept channel operational_unhealthy l few running =
    log_counted-Kept (InFlight.channel_index channel) 2 l (omega arith) few running
drop-Kept channel sync_start l few running = (omega arith, running)
drop-Kept channel sync_complete l few running = (omega arith, running)
drop-Kept channel target_sync_complete l few running = (omega arith, running)
drop-Kept channel domain_sync_complete l few running = (omega arith, running)

apply-Kept :
    (o : Op) (l : InFlight.InFlightLimiter)
    → events_of l.drops + 1 < 2 ^ 64
    → l.diagnostics_closed ≡ false
    → Kept l (is_counted o) (apply l o)
unfolding InFlight.flush_drops InFlight.rearm
apply-Kept (drop channel event) l few running = drop-Kept channel event l few running
apply-Kept flush l few running = ground arith
apply-Kept rearm l few running = ground arith

is_counted-le : (o : Op) → is_counted o ≤ 1
is_counted-le (drop channel event) = ground arith
is_counted-le flush = omega arith
is_counted-le rearm = omega arith

run-Kept :
    (os : List Op) (l : InFlight.InFlightLimiter)
    → events_of l.drops + length os < 2 ^ 64
    → l.diagnostics_closed ≡ false
    → (run l os).0 + events_of (run l os).1.drops ≡ events_of l.drops + counted os
run-Kept [] l few running = omega arith
run-Kept (o ∷ os) l few running =
    let (kept, still) = apply-Kept o l (omega (arith, few)) running in
    let rest = run-Kept os (apply l o).0 (omega (arith, few, kept, is_counted-le o)) still in
    omega (arith, kept, rest)

-- Before the diagnostics are stopped, after fewer than 2^64 drops and ends of windows in any order,
-- the notifications in all log lines and those that wait are together the counted drops.
pub drops_accounted :
    (capacity : ℤ) (os : List Op)
    → length os < 2 ^ 64
    → (run (InFlight.new_in_flight_limiter capacity) os).0
        + events_of (run (InFlight.new_in_flight_limiter capacity) os).1.drops
      ≡ counted os
unfolding InFlight.new_in_flight_limiter
drops_accounted capacity os few =
    let h = run-Kept os (InFlight.new_in_flight_limiter capacity) (omega (arith, few)) refl in
    omega (arith, h)
