-- ===== src/Syncer/DnsRound/Reached.antt =====
-- The invariants of every reachable state, for all hosts at once.
use cloudhost_firewall_autou.Common.{
  ℕ, ◌≡◌, inl, inr, refl, ap, subst, Bool, List, if◌then◌else◌, ◌==◌, nat_eq, list_eq, update,
  arith, ==_iff, Bool-cases,
}
use cloudhost_firewall_autou.Strings.{Text}
use cloudhost_firewall_autou.Config.{DomainRule}
use cloudhost_firewall_autou.Dns.{domain_key}
use cloudhost_firewall_autou.Dns.Breaker.{CircuitBreaker, record_success}
use cloudhost_firewall_autou.Syncer.DnsRound.{
  DnsRound, new_dns_round, Answer, Pc, ready, waiting, running, finished, begin_resolve, wake,
  judge, settle_host, settle, System, Step, enter, resume, return, init, Reach, start, later,
}
use cloudhost_firewall_autou.Syncer.DnsRound.Invariant.{Move, Inv, Move-Inv}
use cloudhost_firewall_autou.Syncer.DnsRound.Tally.{Tally, Move-Tally}
use cloudhost_firewall_autou.Syncer.DnsRound.Steps.{
  place_at, place_at-update, begin_move, wake_move, settle_move,
}

-- The counters of the breaker: a host that was resolved has none, the others have what they had.
abbrev pub Counted : CircuitBreaker → DnsRound → Type 0
Counted cb r =
    (r.breaker.threshold ≡ cb.threshold)
    × ((k : Text) → r.breaker.fail_count k ≡ (if (r.host k).success then 0 else cb.fail_count k))

pub record Good (cb : CircuitBreaker) (s : System) : Type 0 where
  pub inv : (k : Text) → Inv (s.round.host k) (λ i. place_at k (s.pc i))
  pub tally : (k : Text) → Tally (s.round.host k) (λ i. place_at k (s.pc i))
  pub counted : Counted cb s.round

Good-init : (cb : CircuitBreaker) (rules : List DomainRule) → Good cb (init cb rules)
unfolding new_dns_round
Good-init cb rules = record {
  inv = λ k. record {
    one_probe = λ i j. ground arith;
    probe_made = λ i. ground arith;
    wait_made = λ i. ground arith;
    plain_closed = λ i. ground arith;
    covered = ground arith;
    healed = ground arith;
    closed_made = ground arith;
  };
  tally = λ k. record {
    won_success = λ i. ground arith;
    success_won = ground arith;
    failed_attempted = λ i. ground arith;
    attempted_ended = ground arith;
    success_attempted = ground arith;
    closed_attempted = ground arith;
  };
  counted = (refl, λ k. refl);
}

module _ {cb : CircuitBreaker} {s : System} (good : Good cb s) where
  open good use {inv, tally, counted}

  -- A step of call `i` that is a move for every host.
  moved :
      (r : DnsRound) (i : ℕ) (p q : Pc)
      → s.pc i ≡ p
      → ((k : Text) → Move (s.round.host k) (place_at k p) (r.host k) (place_at k q))
      → Counted cb r
      → Good cb (record { round = r; pc = update s.pc i q })
  moved r i p q e m c = record {
    inv = λ k.
        subst (Inv (r.host k)) (place_at-update k s.pc i q)
          (Move-Inv (inv k) i (ap (place_at k) e) (m k));
    tally = λ k.
        subst (Tally (r.host k)) (place_at-update k s.pc i q)
          (Move-Tally (tally k) i (ap (place_at k) e) (m k));
    counted = c;
  }

  begin_counted : (host : Text) → Counted cb (begin_resolve s.round host).0
  unfolding begin_resolve
  begin_counted host = (
    ground (arith, counted.0),
    λ k. elim (Bool-cases (k == domain_key host)) [
      | inl same ↦
          let e = (==_iff k (domain_key host)).0 same in
          ground (arith, same, counted.1 k, ap (λ j. (s.round.host j).success) e)
      | inr differ ↦ ground (arith, counted.1 k)
    ],
  )

  settle_counted :
      (host : Text) (probe : Bool) (answer : Answer) → Counted cb (settle s.round host probe answer)
  unfolding settle settle_host record_success
  settle_counted host probe (ips, e) = (
    ground (arith, counted.0),
    λ k. elim (Bool-cases (k == domain_key host)) [
      | inl same ↦
          let q = (==_iff k (domain_key host)).0 same in
          ground (arith, same, counted.1 k, ap (λ j. (s.round.host j).success) q)
      | inr differ ↦ ground (arith, counted.1 k)
    ],
  )

  pub Step-Good : {n : ℕ} {t : System} → Step n s t → Good cb t
  Step-Good (enter i host lt e known) =
      moved (begin_resolve s.round host).0 i ready (begin_resolve s.round host).1 e
        (begin_move s.round host) (begin_counted host)
  Step-Good (resume i host lt e closed) =
      moved s.round i (waiting host) (wake s.round host) e (wake_move s.round host closed) counted
  Step-Good (return i host probe answer lt e) =
      moved (settle s.round host probe (judge host answer)) i (running host probe)
        (finished host (judge host answer)) e (settle_move s.round host (judge host answer) probe)
        (settle_counted host probe (judge host answer))

pub Reach-Good :
    {n : ℕ} {cb : CircuitBreaker} {rules : List DomainRule} {s : System}
    → Reach n cb rules s
    → Good cb s
Reach-Good {cb} {rules} start = Good-init cb rules
Reach-Good (later r st) = Step-Good (Reach-Good r) st
