-- ===== src/Examples/Alerts.antt =====
-- Health checks, notifications that are dropped, and the queue of records.
use cloudhost_firewall_autou.Common.{
  ◌≡◌, ◌≤◌, ◌+◌, ℕ, refl, true, false, none, some, not, if◌then◌else◌, nat_eq, List, [], ◌∷◌, ◌++◌,
  map, foldl, length, take, arith, update, total, Memᴰ, ◌&&◌,
}
use cloudhost_firewall_autou.Strings.{codes}
use cloudhost_firewall_autou.Strconv.{pos}
use cloudhost_firewall_autou.Syncer.Round.{round_failed}
use cloudhost_firewall_autou.Health.Checker
use cloudhost_firewall_autou.Health.Checker.Collected.{has_reason, applies}
use cloudhost_firewall_autou.Health.Checker.Reasons.{reasons_exact}
use cloudhost_firewall_autou.Health.Supervisor
use cloudhost_firewall_autou.Health.Supervisor.Episodes.{Check, after, fired_since, publish_exact}
use cloudhost_firewall_autou.Notifier.{Event, dns_failed, sync_start, sync_error}
use cloudhost_firewall_autou.Notifier.InFlight
use cloudhost_firewall_autou.Notifier.InFlight.Slots
use cloudhost_firewall_autou.Notifier.InFlight.Slots.{slots_exact}
use cloudhost_firewall_autou.Notifier.InFlight.Drops.{
  Op, drop, flush, run, events_of, counted, drops_accounted,
}
use cloudhost_firewall_autou.Notifier.Bus
use cloudhost_firewall_autou.Webui.LogQueue
use cloudhost_firewall_autou.Webui.LogQueue.Fifo.{
  QueueOp, put, take_out, apply, apply_spec, entries, first_of, apply-refined,
}
use cloudhost_firewall_autou.Notifier.Bus.Delivery.{publish_all, publish_all-exact}

abbrev failing : Checker.Reading
failing = record {
  now = 900;
  ping_ok = true;
  status = record {
    running = true;
    enabled = true;
    last_sync = some 800;
    last_outcome = some round_failed;
    round_started_at = none;
    process_started_at = 0;
    started_at = some 1;
  };
  health_timeout = 600;
  interval = 60;
  startup_grace = 0;
}

reasons_exact_example :
    has_reason (Checker.evaluate failing).reasons Checker.reason_last_round_failed
    ≡ applies failing Checker.reason_last_round_failed
reasons_exact_example = reasons_exact failing Checker.reason_last_round_failed

abbrev sick : Checker.Result
sick = record { healthy = false; checked_at = 900; reasons = Checker.reason_last_round_failed ∷ [] }

abbrev muted : Check
muted = record { result = sick; trigger = false }

abbrev loud : Check
loud = record { result = sick; trigger = true }

publish_exact_example :
    (Supervisor.check (foldl after Supervisor.new_supervisor (muted ∷ [])) sick true).1
    ≡ (if not sick.healthy && (true && not (fired_since (muted ∷ []))) then some sick else none)
publish_exact_example = publish_exact (muted ∷ []) loud

abbrev fresh : Slots.System
fresh = record { limiter = InFlight.new_in_flight_limiter (pos 1); token = λ i. InFlight.unused }

abbrev taken : Slots.System
taken = record {
  limiter = (InFlight.acquire fresh.limiter).0;
  token = update fresh.token 0 (InFlight.acquire fresh.limiter).1;
}

abbrev full : Slots.System
full = record {
  limiter = (InFlight.acquire taken.limiter).0;
  token = update taken.token 1 (InFlight.acquire taken.limiter).1;
}

full-Reach : Slots.Reach 2 (pos 1) full
full-Reach =
    Slots.later (Slots.later Slots.start (Slots.take 0 (omega arith) refl))
      (Slots.take 1 (omega arith) refl)

slots_exact_example :
    (full.limiter.slots ≡ total Slots.holds 2 full.token)
    × (full.limiter.slots ≤ full.limiter.capacity)
slots_exact_example = slots_exact full-Reach

abbrev dropped : List Op
dropped =
    drop (codes "email") dns_failed
    ∷ drop (codes "slack") sync_error
    ∷ drop (codes "slack") sync_start
    ∷ flush
    ∷ []

drops_accounted_example :
    (run (InFlight.new_in_flight_limiter (pos 4)) dropped).0
      + events_of (run (InFlight.new_in_flight_limiter (pos 4)) dropped).1.drops
    ≡ counted dropped
drops_accounted_example = drops_accounted (pos 4) dropped (omega arith)

abbrev event : ℕ → Event ℕ
event n = record { event_type = sync_start; timestamp = n; payload = n }

abbrev listening : Bus.EventBus ℕ
listening = record Bus.new_event_bus { chan_subs = (0, event 1 ∷ []) ∷ []; next_id = 1 }

short_queues : (c : ℕ × List (Event ℕ)) → Memᴰ c listening.chan_subs → length c.1 ≤ 32
short_queues c (Memᴰ.head e) = rw e (omega arith)
short_queues c (Memᴰ.tail m) = elim m [ ]

publish_all-exact_example :
    (publish_all listening (event 2 ∷ event 3 ∷ [])).chan_subs
    ≡ map (λ c. (c.0, take 32 (c.1 ++ (event 2 ∷ event 3 ∷ [])))) listening.chan_subs
publish_all-exact_example = publish_all-exact (event 2 ∷ event 3 ∷ []) listening short_queues

abbrev queued : List (QueueOp ℕ)
queued = put 1 ∷ put 2 ∷ take_out ∷ put 3 ∷ []

apply-refined_example :
    (entries (foldl apply LogQueue.new_queue queued) ≡ foldl apply_spec [] queued)
    × ((LogQueue.take_next (foldl apply LogQueue.new_queue queued)).0
        ≡ first_of (foldl apply_spec [] queued))
    × (foldl apply LogQueue.new_queue queued).size ≤ 256
apply-refined_example = apply-refined queued
