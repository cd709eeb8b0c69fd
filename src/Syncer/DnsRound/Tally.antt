-- ===== src/Syncer/DnsRound/Tally.antt =====
-- What a host's marks and the breaker's counter say about the calls that have returned.
use cloudhost_firewall_autou.Common.{ℕ, ◌≡◌, ◌⊎◌, inl, inr, true, none, some, nat_eq, update, arith}
use cloudhost_firewall_autou.Syncer.DnsRound.{DnsRoundHost, settle_host}
use cloudhost_firewall_autou.Syncer.DnsRound.Invariant.{
  Place, won, failed, Move, wake_failed, probe_end, plain_end,
}

pub record Tally (h : DnsRoundHost) (place : ℕ → Place) : Type 0 where
  pub won_success : (i : ℕ) → place i ≡ won → h.success ≡ true
  pub success_won : h.success ≡ true → (i : ℕ) × (place i ≡ won)
  pub failed_attempted : (i : ℕ) → place i ≡ failed → h.attempted ≡ true
  pub attempted_ended : h.attempted ≡ true → (i : ℕ) × ((place i ≡ won) ⊎ (place i ≡ failed))
  pub success_attempted : h.success ≡ true → h.attempted ≡ true
  pub closed_attempted : h.closed ≡ true → h.attempted ≡ true

module _ {h : DnsRoundHost} {place : ℕ → Place} (tally : Tally h place) (i : ℕ) where
  open tally use {
    won_success, success_won, failed_attempted, attempted_ended, success_attempted,
    closed_attempted,
  }

  Move-won_success :
      {p q : Place} {h' : DnsRoundHost}
      → place i ≡ p
      → Move h p h' q
      → (a : ℕ) → update place i q a ≡ won
      → h'.success ≡ true
  unfolding settle_host
  Move-won_success e (probe_end none) a = ground (arith, won_success a)
  Move-won_success e (probe_end (some x)) a = ground (arith, won_success a)
  Move-won_success e (plain_end none) a = ground (arith, won_success a)
  Move-won_success e (plain_end (some x)) a = ground (arith, won_success a)
  Move-won_success e m a = ground (arith, won_success a)

  kept_won :
      {p q : Place} {h' : DnsRoundHost}
      → place i ≡ p
      → Move h p h' q
      → (a : ℕ) → place a ≡ won
      → update place i q a ≡ won
  kept_won e (probe_end err) a w = ground arith
  kept_won e m a w = ground arith

  kept_failed :
      {p q : Place} {h' : DnsRoundHost}
      → place i ≡ p
      → Move h p h' q
      → (a : ℕ) → place a ≡ failed
      → update place i q a ≡ failed
  kept_failed e (probe_end err) a w = ground arith
  kept_failed e m a w = ground arith

  Move-success_won :
      {p q : Place} {h' : DnsRoundHost}
      → place i ≡ p
      → Move h p h' q
      → h'.success ≡ true
      → (a : ℕ) × (update place i q a ≡ won)
  unfolding settle_host
  Move-success_won e (probe_end none) g = (i, ground arith)
  Move-success_won e (plain_end none) g = (i, ground arith)
  Move-success_won e m g = let (a, w) = success_won (ground arith) in (a, kept_won e m a w)

  Move-failed_attempted :
      {p q : Place} {h' : DnsRoundHost}
      → place i ≡ p
      → Move h p h' q
      → (a : ℕ) → update place i q a ≡ failed
      → h'.attempted ≡ true
  unfolding settle_host
  Move-failed_attempted e (probe_end err) a = ground (arith, failed_attempted a)
  Move-failed_attempted e (wake_failed c d) a =
      ground (arith, failed_attempted a, closed_attempted c)
  Move-failed_attempted e m a = ground (arith, failed_attempted a, closed_attempted)

  Move-attempted_ended :
      {p q : Place} {h' : DnsRoundHost}
      → place i ≡ p
      → Move h p h' q
      → h'.attempted ≡ true
      → (a : ℕ) × ((update place i q a ≡ won) ⊎ (update place i q a ≡ failed))
  unfolding settle_host
  Move-attempted_ended e (probe_end none) g = (i, inl (ground arith))
  Move-attempted_ended e (probe_end (some x)) g = (i, inr (ground arith))
  Move-attempted_ended e (plain_end none) g = (i, inl (ground arith))
  Move-attempted_ended e (plain_end (some x)) g = (i, inr (ground arith))
  Move-attempted_ended e m g =
      let (a, w) = attempted_ended (ground arith) in
      (a, elim w [ inl v ↦ inl (kept_won e m a v) | inr v ↦ inr (kept_failed e m a v) ])

  Move-success_attempted :
      {p q : Place} {h' : DnsRoundHost} → Move h p h' q → h'.success ≡ true → h'.attempted ≡ true
  unfolding settle_host
  Move-success_attempted (probe_end e) = ground arith
  Move-success_attempted m = ground (arith, success_attempted)

  Move-closed_attempted :
      {p q : Place} {h' : DnsRoundHost} → Move h p h' q → h'.closed ≡ true → h'.attempted ≡ true
  unfolding settle_host
  Move-closed_attempted (probe_end e) = ground arith
  Move-closed_attempted m = ground (arith, closed_attempted)

  pub Move-Tally :
      {p q : Place} {h' : DnsRoundHost} → place i ≡ p → Move h p h' q → Tally h' (update place i q)
  Move-Tally e m = record {
    won_success = Move-won_success e m;
    success_won = Move-success_won e m;
    failed_attempted = Move-failed_attempted e m;
    attempted_ended = Move-attempted_ended e m;
    success_attempted = Move-success_attempted m;
    closed_attempted = Move-closed_attempted m;
  }
