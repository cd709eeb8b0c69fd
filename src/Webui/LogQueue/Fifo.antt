-- ===== src/Webui/LogQueue/Fifo.antt =====
-- The ring is a queue of at most 256 records that forgets the oldest ones.
use cloudhost_firewall_autou.Common.{
  ℕ, zero, suc, ◌+◌, ◌-◌, ◌%◌, ◌≤◌, ◌<◌, ◌≡◌, ◌≢◌, refl, sym, ap, ◌∙◌, subst, true, false, Option,
  none, some, List, [], ◌∷◌, ◌++◌, foldl, length, drop, ◌==◌, nat_eq, ==-eq_false, ==_refl, ltb,
  if◌then◌else◌, update, arith, Bool-cases, inl, inr, ==_iff,
}
use cloudhost_firewall_autou.Webui.LogQueue

below_full : (n : ℕ) → n ≤ 256 → (n == 256) ≡ false → n < 256
below_full n few differ = ground arith

ltb_pos : (n : ℕ) → ltb 0 n ≡ true → 0 < n
ltb_pos n t = ground arith

module _ {L : Type 0} where
  -- The records from a place of the ring on.
  pub gather : (ℕ → Option L) → ℕ → ℕ → List (Option L)
  gather ring h zero = []
  gather ring h (suc n) = ring (h % 256) ∷ gather ring (h + 1) n

  length-gather : (ring : ℕ → Option L) (h n : ℕ) → length (gather ring h n) ≡ n
  unfolding gather
  length-gather ring h zero = refl
  length-gather ring h (suc n) = ap suc (length-gather ring (h + 1) n)

  gather-snoc :
      (ring : ℕ → Option L) (h n : ℕ)
      → gather ring h (suc n) ≡ gather ring h n ++ ring ((h + n) % 256) ∷ []
  unfolding gather
  gather-snoc ring h zero = ap (λ k. ring k ∷ []) (omega arith)
  gather-snoc ring h (suc n) =
      ap (λ t. ring (h % 256) ∷ t)
        (gather-snoc ring (h + 1) n ∙ ap (λ k. gather ring (h + 1) n ++ ring k ∷ []) (omega arith))

  gather-mod :
      (ring : ℕ → Option L) (h k n : ℕ) → h % 256 ≡ k % 256 → gather ring h n ≡ gather ring k n
  unfolding gather
  gather-mod ring h k zero e = refl
  gather-mod ring h k (suc n) e = rw (e, gather-mod ring (h + 1) (k + 1) n (omega (arith, e))) refl

  -- A change behind the records that are gathered is not seen.
  gather-update :
      (ring : ℕ → Option L) (v : Option L) (k h n : ℕ)
      → n ≤ 255
      → ((m : ℕ) → m < n → (h + m) % 256 ≢ k)
      → gather (update ring k v) h n ≡ gather ring h n
  unfolding gather
  gather-update ring v k h zero few away = refl
  gather-update ring v k h (suc n) few away =
      let first =
        ==-eq_false (h % 256) k (λ e. away 0 (omega arith) (ap (λ x. x % 256) (omega arith) ∙ e)) in
      let rest =
        gather-update ring v k (h + 1) n (omega (arith, few))
          (λ m lt e. away (m + 1) (omega (arith, lt)) (ap (λ x. x % 256) (omega arith) ∙ e)) in
      rw (first, rest) refl

  -- What the ring holds, the oldest record first.
  abbrev pub entries : LogQueue.QueuedLogWriter L → List (Option L)
  entries q = gather q.ring q.head q.size

  record IsRing (q : LogQueue.QueuedLogWriter L) : Type 0 where
    in_ring : q.head < 256
    bounded : q.size ≤ 256

  drop-gather :
      (ring : ℕ → Option L) (h m : ℕ)
      → h < 256
      → m ≤ 255
      → gather (update ring h none) ((h + 1) % 256) m ≡ drop 1 (gather ring h (suc m))
  unfolding gather
  drop-gather ring h m inside few =
      gather-mod (update ring h none) ((h + 1) % 256) (h + 1) m (omega arith)
      ∙ gather-update ring none h (h + 1) m few (λ j lt e. omega (arith, inside, few, lt, e))

  drop_head-entries :
      (q : LogQueue.QueuedLogWriter L)
      → IsRing q
      → 0 < q.size
      → (entries (LogQueue.drop_head q) ≡ drop 1 (entries q)) × IsRing (LogQueue.drop_head q)
  unfolding LogQueue.drop_head
  drop_head-entries q ok some_left = (
    drop-gather q.ring q.head (q.size - 1) ok.in_ring (omega (arith, ok.bounded))
        ∙ ap (λ n. drop 1 (gather q.ring q.head n)) (omega (arith, some_left)),
    record { in_ring = omega arith; bounded = omega (arith, ok.bounded) },
  )

  add-gather :
      (ring : ℕ → Option L) (v : Option L) (h n : ℕ)
      → n < 256
      → gather (update ring ((h + n) % 256) v) h (suc n) ≡ gather ring h n ++ v ∷ []
  add-gather ring v h n room =
      gather-snoc (update ring ((h + n) % 256) v) h n
      ∙ rw
          (
            gather-update ring v ((h + n) % 256) h n (omega (arith, room))
                (λ m lt e. omega (arith, room, lt, e)),
            ==_refl ((h + n) % 256),
          )
          refl

  add_tail-entries :
      (q : LogQueue.QueuedLogWriter L) (log : L)
      → q.head < 256
      → q.size < 256
      → (entries (LogQueue.add_tail log q) ≡ entries q ++ some log ∷ [])
        × IsRing (LogQueue.add_tail log q)
  unfolding LogQueue.add_tail
  add_tail-entries q log ok room = (
    ap (λ n. gather (update q.ring ((q.head + q.size) % 256) (some log)) q.head n) (omega arith)
        ∙ add-gather q.ring (some log) q.head q.size room,
    record { in_ring = ok; bounded = omega (arith, room) },
  )

  length-entries : (q : LogQueue.QueuedLogWriter L) → length (entries q) ≡ q.size
  length-entries q = length-gather q.ring q.head q.size

  -- The list that the ring stands for, without its oldest record when it is full.
  abbrev trim : List (Option L) → List (Option L)
  trim xs = if length xs == 256 then drop 1 xs else xs

  make_room-entries :
      (q : LogQueue.QueuedLogWriter L)
      → IsRing q
      → (entries (LogQueue.make_room q) ≡ trim (entries q))
        × IsRing (LogQueue.make_room q)
        × (LogQueue.make_room q).size < 256
  unfolding LogQueue.make_room LogQueue.drop_head
  make_room-entries q ok = elim (Bool-cases (q.size == 256)) [
    | inl full ↦
        let dropped = drop_head-entries q ok (omega (arith, (==_iff q.size 256).0 full)) in
        rw (length-entries q, full)
          (
            dropped.0,
            record { in_ring = dropped.1.in_ring; bounded = dropped.1.bounded },
            omega (arith, ok.bounded),
          )
    | inr room ↦ rw (length-entries q, room) (refl, ok, below_full q.size ok.bounded room)
  ]

  enqueue-open :
      (q : LogQueue.QueuedLogWriter L) (log : L)
      → q.accepting ≡ true
      → LogQueue.enqueue log q ≡ LogQueue.add_tail log (LogQueue.make_room q)
  unfolding LogQueue.enqueue
  enqueue-open q log open_ =
      ap (λ b. if b then LogQueue.add_tail log (LogQueue.make_room q) else q) open_

  enqueue-entries :
      (q : LogQueue.QueuedLogWriter L) (log : L)
      → IsRing q
      → q.accepting ≡ true
      → (entries (LogQueue.enqueue log q) ≡ trim (entries q) ++ some log ∷ [])
        × IsRing (LogQueue.enqueue log q)
  enqueue-entries q log ok open_ =
      let opened = enqueue-open q log open_ in
      let made = make_room-entries q ok in
      let added = add_tail-entries (LogQueue.make_room q) log made.1.in_ring made.2 in
      (
        ap entries opened ∙ added.0 ∙ ap (λ ys. ys ++ some log ∷ []) made.0,
        subst IsRing (sym opened) added.1,
      )

  abbrev pub first_of : List (Option L) → Option L
  first_of [] = none
  first_of (x ∷ xs) = x

  first-gather :
      (ring : ℕ → Option L) (h n : ℕ) → h < 256 → 0 < n → ring h ≡ first_of (gather ring h n)
  unfolding gather
  first-gather ring h zero inside some_left = absurd (omega (arith, some_left))
  first-gather ring h (suc n) inside some_left = ap ring (omega (arith, inside))

  gather-none : (ring : ℕ → Option L) (h n : ℕ) → ltb 0 n ≡ false → gather ring h n ≡ []
  unfolding gather
  gather-none ring h zero empty = refl
  gather-none ring h (suc n) empty = ground arith

  take_next-entries :
      (q : LogQueue.QueuedLogWriter L)
      → IsRing q
      → ((LogQueue.take_next q).0 ≡ first_of (entries q))
        × (entries (LogQueue.take_next q).1 ≡ drop 1 (entries q))
        × IsRing (LogQueue.take_next q).1
  unfolding LogQueue.take_next
  take_next-entries q ok = elim (Bool-cases (ltb 0 q.size)) [
    | inl waiting ↦
        let some_left = ltb_pos q.size waiting in
        let dropped = drop_head-entries q ok some_left in
        rw waiting (first-gather q.ring q.head q.size ok.in_ring some_left, dropped.0, dropped.1)
    | inr empty ↦
        let gone = gather-none q.ring q.head q.size empty in
        rw empty (sym (ap first_of gone), gone ∙ sym (ap (drop 1) gone), ok)
  ]

  accepting-enqueue :
      (q : LogQueue.QueuedLogWriter L) (log : L) → (LogQueue.enqueue log q).accepting ≡ q.accepting
  unfolding LogQueue.enqueue LogQueue.make_room LogQueue.add_tail LogQueue.drop_head
  accepting-enqueue q log = ground arith

  accepting-take_next :
      (q : LogQueue.QueuedLogWriter L) → (LogQueue.take_next q).1.accepting ≡ q.accepting
  unfolding LogQueue.take_next LogQueue.drop_head
  accepting-take_next q = ground arith

-- What the event bus and the worker do to a queue that is not stopped.
pub data QueueOp (L : Type 0) : Type 0 where
  put : L → QueueOp L
  take_out : QueueOp L

module _ {L : Type 0} where
  pub apply : LogQueue.QueuedLogWriter L → QueueOp L → LogQueue.QueuedLogWriter L
  apply q (put log) = LogQueue.enqueue log q
  apply q take_out = (LogQueue.take_next q).1

  -- The same on a list.
  pub apply_spec : List (Option L) → QueueOp L → List (Option L)
  apply_spec xs (put log) = trim xs ++ some log ∷ []
  apply_spec xs take_out = drop 1 xs

  record Good (q : LogQueue.QueuedLogWriter L) : Type 0 where
    ring_ok : IsRing q
    open_ : q.accepting ≡ true

  apply-entries :
      (q : LogQueue.QueuedLogWriter L) (op : QueueOp L)
      → Good q
      → (entries (apply q op) ≡ apply_spec (entries q) op) × Good (apply q op)
  unfolding apply apply_spec
  apply-entries q (put log) g =
      let now = enqueue-entries q log g.ring_ok g.open_ in
      (now.0, record { ring_ok = now.1; open_ = accepting-enqueue q log ∙ g.open_ })
  apply-entries q take_out g =
      let now = take_next-entries q g.ring_ok in
      (now.1, record { ring_ok = now.2; open_ = accepting-take_next q ∙ g.open_ })

  foldl-apply :
      (q : LogQueue.QueuedLogWriter L) (ops : List (QueueOp L))
      → Good q
      → (entries (foldl apply q ops) ≡ foldl apply_spec (entries q) ops) × Good (foldl apply q ops)
  foldl-apply q [] g = (refl, g)
  foldl-apply q (op ∷ ops) g =
      let now = apply-entries q op g in
      let rest = foldl-apply (apply q op) ops now.1 in
      (rest.0 ∙ ap (λ xs. foldl apply_spec xs ops) now.0, rest.1)

  -- From a new queue, after any sequence of events that are put in and records that are taken out before
  -- the queue is stopped, the ring holds exactly what a list holds to which each event is added at the
  -- end, after its first record is dropped when it has 256, and from which each take removes the first
  -- record; the next record that the worker takes is the first of that list, and there are at most 256.
  pub apply-refined :
      (ops : List (QueueOp L))
      → (entries (foldl apply LogQueue.new_queue ops) ≡ foldl apply_spec [] ops)
        × ((LogQueue.take_next (foldl apply LogQueue.new_queue ops)).0
            ≡ first_of (foldl apply_spec [] ops))
        × (foldl apply LogQueue.new_queue ops).size ≤ 256
  unfolding gather
  apply-refined ops =
      let all = foldl-apply LogQueue.new_queue ops (record {
        ring_ok = record { in_ring = omega arith; bounded = omega arith };
        open_ = refl;
      }) in
      let next = take_next-entries (foldl apply LogQueue.new_queue ops) all.1.ring_ok in
      (all.0, next.0 ∙ ap first_of all.0, all.1.ring_ok.bounded)
