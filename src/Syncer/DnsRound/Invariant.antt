-- ===== src/Syncer/DnsRound/Invariant.antt =====
-- What holds of one host in every reachable state of a round: where each call stands with respect to
-- that host, and how a step moves it.
use cloudhost_firewall_autou.Common.{
  ℕ, ◌≡◌, ◌≢◌, ◌⊎◌, inl, inr, refl, true, false, Option, none, some, nat_eq, list_eq, update, arith,
}
use cloudhost_firewall_autou.Strings.{Text}
use cloudhost_firewall_autou.Syncer.DnsRound.{DnsRoundHost, settle_host}

-- Where a call stands with respect to a host.
pub data Place : Type 0 where
  away waits probes plain won failed : Place

abbrev pub ended : Option Text → Place
ended none = won
ended (some e) = failed

-- What a step does to a host and to the place of the call that makes it.
pub data Move (h : DnsRoundHost) : Place → DnsRoundHost → Place → Type 0 where
  stay : Move h away h away
  enter_wait : h.opened ≡ true → h.made ≡ true → Move h away h waits
  enter_probe : h.opened ≡ true → h.made ≡ false → Move h away (record h { made = true }) probes
  enter_plain : h.opened ≡ false → Move h away h plain
  wake_plain : h.closed ≡ true → h.error ≡ none → Move h waits h plain
  wake_failed : h.closed ≡ true → h.error ≢ none → Move h waits h failed
  probe_end : (e : Option Text) → Move h probes (settle_host true e h) (ended e)
  plain_end : (e : Option Text) → Move h plain (settle_host false e h) (ended e)

pub record Inv (h : DnsRoundHost) (place : ℕ → Place) : Type 0 where
  pub one_probe : (i j : ℕ) → place i ≡ probes → place j ≡ probes → i ≡ j
  pub probe_made :
      (i : ℕ) → place i ≡ probes → (h.made ≡ true) × (h.closed ≡ false) × (h.opened ≡ true)
  pub wait_made : (i : ℕ) → place i ≡ waits → h.made ≡ true
  pub plain_closed : (i : ℕ) → place i ≡ plain → h.opened ≡ false
  pub covered : h.made ≡ true → (h.closed ≡ true) ⊎ ((i : ℕ) × (place i ≡ probes))
  pub healed : h.closed ≡ true → h.error ≡ none → h.opened ≡ false
  pub closed_made : h.closed ≡ true → h.made ≡ true

module _ {h : DnsRoundHost} {place : ℕ → Place} (inv : Inv h place) (i : ℕ) where
  open inv use {one_probe, probe_made, wait_made, plain_closed, covered, healed, closed_made}

  Move-one_probe :
      {p q : Place} {h' : DnsRoundHost}
      → place i ≡ p
      → Move h p h' q
      → (a b : ℕ) → update place i q a ≡ probes
      → update place i q b ≡ probes
      → a ≡ b
  Move-one_probe e (enter_probe opened made) a b =
      ground (arith, one_probe a b, probe_made a, probe_made b)
  Move-one_probe e m a b = ground (arith, one_probe a b)

  Move-probe_made :
      {p q : Place} {h' : DnsRoundHost}
      → place i ≡ p
      → Move h p h' q
      → (a : ℕ) → update place i q a ≡ probes
      → (h'.made ≡ true) × (h'.closed ≡ false) × (h'.opened ≡ true)
  unfolding settle_host
  Move-probe_made e stay a = ground (arith, probe_made a)
  Move-probe_made e (enter_wait o m) a = ground (arith, probe_made a)
  Move-probe_made e (enter_probe o m) a = ground (arith, probe_made a, closed_made)
  Move-probe_made e (enter_plain o) a = ground (arith, probe_made a)
  Move-probe_made e (wake_plain c n) a = ground (arith, probe_made a)
  Move-probe_made e (wake_failed c d) a = ground (arith, probe_made a)
  Move-probe_made e (probe_end err) a = ground (arith, probe_made a, one_probe a i)
  Move-probe_made e (plain_end err) a = ground (arith, probe_made a)

  Move-wait_made :
      {p q : Place} {h' : DnsRoundHost}
      → place i ≡ p
      → Move h p h' q
      → (a : ℕ) → update place i q a ≡ waits
      → h'.made ≡ true
  unfolding settle_host
  Move-wait_made e (enter_wait o m) a = ground (arith, wait_made a)
  Move-wait_made e m a = ground (arith, wait_made a)

  Move-plain_closed :
      {p q : Place} {h' : DnsRoundHost}
      → place i ≡ p
      → Move h p h' q
      → (a : ℕ) → update place i q a ≡ plain
      → h'.opened ≡ false
  unfolding settle_host
  Move-plain_closed e (enter_plain o) a = ground (arith, plain_closed a)
  Move-plain_closed e (wake_plain c n) a = ground (arith, plain_closed a, healed)
  Move-plain_closed e m a = ground (arith, plain_closed a)

  Move-covered :
      {p q : Place} {h' : DnsRoundHost}
      → place i ≡ p
      → Move h p h' q
      → h'.made ≡ true
      → (h'.closed ≡ true) ⊎ ((a : ℕ) × (update place i q a ≡ probes))
  unfolding settle_host
  Move-covered e (enter_probe o m) g = inr (i, ground arith)
  Move-covered e (probe_end err) g = inl refl
  Move-covered e m g = elim (covered (ground arith)) [
    | inl c ↦ inl (ground arith)
    | inr (j, at) ↦ inr (j, ground arith)
  ]

  Move-healed :
      {p q : Place} {h' : DnsRoundHost}
      → place i ≡ p
      → Move h p h' q
      → h'.closed ≡ true
      → h'.error ≡ none
      → h'.opened ≡ false
  unfolding settle_host
  Move-healed e (probe_end err) = ground (arith, healed, probe_made i)
  Move-healed e m = ground (arith, healed, probe_made i)

  Move-closed_made :
      {p q : Place} {h' : DnsRoundHost}
      → place i ≡ p
      → Move h p h' q
      → h'.closed ≡ true
      → h'.made ≡ true
  unfolding settle_host
  Move-closed_made e (probe_end err) = ground (arith, closed_made, probe_made i)
  Move-closed_made e m = ground (arith, closed_made, probe_made i)

  pub Move-Inv :
      {p q : Place} {h' : DnsRoundHost} → place i ≡ p → Move h p h' q → Inv h' (update place i q)
  Move-Inv e m = record {
    one_probe = Move-one_probe e m;
    probe_made = Move-probe_made e m;
    wait_made = Move-wait_made e m;
    plain_closed = Move-plain_closed e m;
    covered = Move-covered e m;
    healed = Move-healed e m;
    closed_made = Move-closed_made e m;
  }
