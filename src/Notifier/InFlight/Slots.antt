-- ===== src/Notifier/InFlight/Slots.antt =====
-- Calls of Acquire and of their release functions, in any order.
use cloudhost_firewall_autou.Common.{
  ℕ, zero, suc, ◌+◌, ◌≤◌, ◌<◌, ◌≡◌, refl, sym, ap, nat_eq, update, total, total-update, arith,
}
use cloudhost_firewall_autou.Strconv.{ℤ}
use cloudhost_firewall_autou.Notifier.InFlight.{
  InFlightLimiter, Token, unused, held, refused, released, acquire, release, new_in_flight_limiter,
}

pub record System : Type 0 where
  pub limiter : InFlightLimiter
  pub token : ℕ → Token

-- One of `n` calls is made, or a release function is called, also again.
pub data Step (n : ℕ) (s : System) : System → Type 0 where
  take :
      (i : ℕ)
      → i < n
      → s.token i ≡ unused
      → Step n s (record {
        limiter = (acquire s.limiter).0;
        token = update s.token i (acquire s.limiter).1;
      })
  give :
      (i : ℕ)
      → i < n
      → Step n s (record {
        limiter = (release s.limiter (s.token i)).0;
        token = update s.token i (release s.limiter (s.token i)).1;
      })

pub data Reach (n : ℕ) (capacity : ℤ) : System → Type 0 where
  start :
      Reach n capacity (record { limiter = new_in_flight_limiter capacity; token = λ i. unused })
  later : {s t : System} → Reach n capacity s → Step n s t → Reach n capacity t

abbrev pub holds : Token → ℕ
holds held = 1
holds _ = 0

record Inv (n : ℕ) (s : System) : Type 0 where
  counted : s.limiter.slots ≡ total holds n s.token
  bounded : s.limiter.slots ≤ s.limiter.capacity

acquire_lem :
    (l : InFlightLimiter)
    → ((acquire l).0.slots ≡ l.slots + holds (acquire l).1)
      × (l.slots ≤ l.capacity → (acquire l).0.slots ≤ (acquire l).0.capacity)
unfolding acquire
acquire_lem l = (ground arith, λ h. ground arith)

release_lem :
    (l : InFlightLimiter) (t : Token)
    → holds t ≤ l.slots
    → ((release l t).0.slots + holds t ≡ l.slots + holds (release l t).1)
      × ((release l t).0.capacity ≡ l.capacity)
      × ((release l t).0.slots ≤ l.slots)
unfolding release
release_lem l held h = ground arith
release_lem l unused h = ground arith
release_lem l refused h = ground arith
release_lem l released h = ground arith

holds-le_total : (n i : ℕ) (f : ℕ → Token) → i < n → holds (f i) ≤ total holds n f
holds-le_total n i f lt = let u = total-update holds n i f unused lt in omega (arith, u)

Step-Inv : {n : ℕ} {s t : System} → Step n s t → Inv n s → Inv n t
Step-Inv {n} {s} (take i lt e) inv =
    let (slots, kept) = acquire_lem s.limiter in
    let u = total-update holds n i s.token (acquire s.limiter).1 lt in
    let f = ap holds e in
    record { counted = omega (arith, slots, u, f, inv.counted); bounded = kept inv.bounded }
Step-Inv {n} {s} (give i lt) inv =
    let own = holds-le_total n i s.token lt in
    let (slots, same, fewer) =
      release_lem s.limiter (s.token i) (omega (arith, own, inv.counted)) in
    let u = total-update holds n i s.token (release s.limiter (s.token i)).1 lt in
    record {
      counted = omega (arith, slots, u, inv.counted);
      bounded = omega (arith, same, fewer, inv.bounded);
    }

total_unused : (n : ℕ) → total holds n (λ i. unused) ≡ 0
unfolding total
total_unused zero = refl
total_unused (suc n) = omega (arith, total_unused n)

Reach-Inv : {n : ℕ} {capacity : ℤ} {s : System} → Reach n capacity s → Inv n s
unfolding new_in_flight_limiter
Reach-Inv {n} start = record { counted = sym (total_unused n); bounded = omega arith }
Reach-Inv (later r st) = Step-Inv st (Reach-Inv r)

-- After any calls of Acquire and of release functions, in any order and also repeated, the slots in
-- use are as many as the calls that hold one, and never more than the capacity.
pub slots_exact :
    {n : ℕ} {capacity : ℤ} {s : System}
    → Reach n capacity s
    → (s.limiter.slots ≡ total holds n s.token) × (s.limiter.slots ≤ s.limiter.capacity)
slots_exact r = let inv = Reach-Inv r in (inv.counted, inv.bounded)
