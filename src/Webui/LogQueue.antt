-- ===== src/Webui/LogQueue.antt =====
-- webui/api/logqueue.go: the ring of pending records, with its production capacity. What is done under
-- the mutex is one function; the writes, the reports and the deadline's clock are left out.
pub mod Fifo
use cloudhost_firewall_autou.Common.{
  ℕ, ◌+◌, ◌-◌, ◌%◌, ◌^◌, Bool, true, false, Option, none, some, ◌==◌, nat_eq, ltb, if◌then◌else◌,
  update,
}

abbrev pub log_queue_capacity : ℕ
log_queue_capacity = 256

pub record QueuedLogWriter (L : Type 0) : Type 0 where
  pub ring : ℕ → Option L
  pub head : ℕ
  pub size : ℕ
  pub accepting : Bool
  pub expired : Bool
  pub overflow : ℕ
  pub abandoned : ℕ

module _ {L : Type 0} where
  abbrev pub new_queue : QueuedLogWriter L
  new_queue = record {
    ring = λ i. none;
    head = 0;
    size = 0;
    accepting = true;
    expired = false;
    overflow = 0;
    abandoned = 0;
  }

  -- The oldest record leaves a slot, which is cleared.
  unfoldable pub drop_head : QueuedLogWriter L → QueuedLogWriter L
  drop_head q = record q {
    ring = update q.ring q.head none;
    head = (q.head + 1) % log_queue_capacity;
    size = q.size - 1;
  }

  unfoldable pub make_room : QueuedLogWriter L → QueuedLogWriter L
  make_room q =
      if q.size == log_queue_capacity
      then record (drop_head q) { overflow = (q.overflow + 1) % 2 ^ 64 }
      else q

  unfoldable pub add_tail : L → QueuedLogWriter L → QueuedLogWriter L
  add_tail log q = record q {
    ring = update q.ring ((q.head + q.size) % log_queue_capacity) (some log);
    size = q.size + 1;
  }

  -- Enqueue of an event that has a record.
  unfoldable pub enqueue : L → QueuedLogWriter L → QueuedLogWriter L
  enqueue log q = if q.accepting then add_tail log (make_room q) else q

  -- The part of the worker's loop that takes the next record.
  unfoldable pub take_next : QueuedLogWriter L → Option L × QueuedLogWriter L
  take_next q = if ltb 0 q.size then (q.ring q.head, drop_head q) else (none, q)

  unfoldable pub expire : QueuedLogWriter L → QueuedLogWriter L
  expire q = if q.expired then q else record q {
    expired = true;
    accepting = false;
    abandoned = (q.abandoned + q.size) % 2 ^ 64;
    ring = λ i. none;
    size = 0;
  }

  -- The part of Stop under the lock.
  unfoldable pub stop_accepting : QueuedLogWriter L → QueuedLogWriter L
  stop_accepting q = record q { accepting = false }
