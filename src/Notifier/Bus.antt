-- ===== src/Notifier/Bus.antt =====
-- notifier/bus.go. A subscriber, a channel and an ingress function are known by their number; what is
-- done under the mutex is one step. Publish starts a goroutine for each callback, so that here it
-- says which callbacks it has started; `callback_wg` counts those that have not returned.
pub mod Delivery
use cloudhost_firewall_autou.Common.{
  ℕ, suc, ◌+◌, ◌-◌, Bool, true, false, Option, none, some, List, [], ◌∷◌, ◌++◌, map, length, ltb,
  ◌==◌, nat_eq, if◌then◌else◌, update, select, not,
}
use cloudhost_firewall_autou.Notifier.{EventType, event_number, Event}

abbrev pub channel_capacity : ℕ
channel_capacity = 32

-- The maps are keyed by the number of the event's type.
pub record EventBus (D : Type 0) : Type 0 where
  pub subscribers : ℕ → List ℕ
  pub callbacks_stopped : Bool
  pub callback_wg : ℕ
  pub chan_subs : List (ℕ × List (Event D))
  pub next_id : ℕ
  pub ingress : ℕ → List ℕ

unfoldable pub remove_first : ℕ → List ℕ → List ℕ
remove_first sub [] = []
remove_first sub (s ∷ subs) =
    let rest = remove_first sub subs in if s == sub then subs else s ∷ rest

module _ {D : Type 0} where
  abbrev pub new_event_bus : EventBus D
  new_event_bus = record {
    subscribers = λ t. [];
    callbacks_stopped = false;
    callback_wg = 0;
    chan_subs = [];
    next_id = 0;
    ingress = λ t. [];
  }

  unfoldable pub subscribe : EventType → ℕ → EventBus D → EventBus D
  subscribe t sub b = record b {
    subscribers =
        update b.subscribers (event_number t) (b.subscribers (event_number t) ++ sub ∷ []);
  }

  unfoldable pub unsubscribe : EventType → ℕ → EventBus D → EventBus D
  unsubscribe t sub b = record b {
    subscribers =
        update b.subscribers (event_number t) (remove_first sub (b.subscribers (event_number t)));
  }

  -- A new channel, with its number, by which the returned function removes it.
  unfoldable pub subscribe_chan : EventBus D → ℕ × EventBus D
  subscribe_chan b =
      (b.next_id, record b { chan_subs = (b.next_id, []) ∷ b.chan_subs; next_id = b.next_id + 1 })

  unfoldable pub unsubscribe_chan : ℕ → EventBus D → EventBus D
  unsubscribe_chan id b = record b { chan_subs = select (λ c. not (c.0 == id)) b.chan_subs }

  unfoldable pub subscribe_ingress : EventType → EventBus D → ℕ × EventBus D
  subscribe_ingress t b = (
    b.next_id,
    record b {
      ingress = update b.ingress (event_number t) (b.next_id ∷ b.ingress (event_number t));
      next_id = b.next_id + 1;
    },
  )

  unfoldable pub unsubscribe_ingress : EventType → ℕ → EventBus D → EventBus D
  unsubscribe_ingress t id b = record b {
    ingress =
        update b.ingress (event_number t)
          (select (λ i. not (i == id)) (b.ingress (event_number t)));
  }

  -- A full channel misses the event.
  abbrev pub offer : Event D → ℕ × List (Event D) → ℕ × List (Event D)
  offer e (id, queue) =
      if ltb (length queue) channel_capacity then (id, queue ++ e ∷ []) else (id, queue)

  -- What a publication starts or calls: the callbacks, and the ingress functions.
  unfoldable pub started : Event D → EventBus D → List ℕ
  started e b = if b.callbacks_stopped then [] else b.subscribers (event_number e.event_type)

  unfoldable pub enqueued : Event D → EventBus D → List ℕ
  enqueued e b = b.ingress (event_number e.event_type)

  unfoldable pub publish : Event D → EventBus D → EventBus D
  publish e b = record b {
    callback_wg = b.callback_wg + length (started e b);
    chan_subs = map (offer e) b.chan_subs;
  }

  -- A callback returns.
  unfoldable pub callback_done : EventBus D → EventBus D
  callback_done b = record b { callback_wg = b.callback_wg - 1 }

  -- The part of DrainSubscribers before its wait.
  unfoldable pub drain_subscribers : EventBus D → EventBus D
  drain_subscribers b = record b { callbacks_stopped = true }
