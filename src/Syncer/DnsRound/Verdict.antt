-- ===== src/Syncer/DnsRound/Verdict.antt =====
-- What a round leaves on the breaker, by what its calls have returned.
use cloudhost_firewall_autou.Common.{
  ℕ, ◌≡◌, ◌≢◌, ◌⊎◌, inl, inr, refl, sym, ap, ◌∙◌, subst, true, false, none, some, List,
  if◌then◌else◌, ◌==◌, nat_eq, list_eq, arith, ==_iff, ==_refl, Bool-cases, contains, false≢true,
  All-mem, contains→mem,
}
use cloudhost_firewall_autou.Strings.{Text}
use cloudhost_firewall_autou.Config.{DomainRule}
use cloudhost_firewall_autou.Dns.{ResolvedIp, domain_key}
use cloudhost_firewall_autou.Dns.Breaker.{CircuitBreaker, record_failure}
use cloudhost_firewall_autou.Syncer.DnsRound.{
  Answer, Pc, ready, waiting, running, finished, finish, System, Reach,
}
use cloudhost_firewall_autou.Syncer.DnsRound.Invariant.{Place, away, won, failed}
use cloudhost_firewall_autou.Syncer.DnsRound.Steps.{place_at}
use cloudhost_firewall_autou.Syncer.DnsRound.Reached.{Reach-Good}
use cloudhost_firewall_autou.Syncer.DnsRound.Finish.{
  Reach-keys, bump, blamed, finish-count, record_failure-count,
}

-- A call for the host has returned an address, or an error.
abbrev pub Succeeded : Text → System → Type 0
Succeeded k s =
    (i : ℕ) × (host : Text) × (ips : List ResolvedIp) × (s.pc i ≡ finished host (ips, none))
    × (domain_key host ≡ k)

abbrev pub Failed : Text → System → Type 0
Failed k s =
    (i : ℕ) × (host : Text) × (ips : List ResolvedIp) × (e : Text) × (s.pc i
      ≡ finished host (ips, some e))
    × (domain_key host ≡ k)

-- The count of failures that a round leaves for a host, by what its calls have returned.
pub data Verdict (cb : CircuitBreaker) (s : System) (k : Text) : ℕ → Type 0 where
  cleared : Succeeded k s → Verdict cb s k 0
  counted : ¬ Succeeded k s → Failed k s → Verdict cb s k ((record_failure cb k).fail_count k)
  untouched : ¬ Succeeded k s → ¬ Failed k s → Verdict cb s k (cb.fail_count k)

finished-for :
    (k host : Text) (answer : Answer) (p : Place)
    → place_at k (finished host answer) ≡ p
    → p ≢ away
    → domain_key host ≡ k
finished-for k host answer p h d = elim (Bool-cases (k == domain_key host)) [
  | inl same ↦ sym ((==_iff k (domain_key host)).0 same)
  | inr differ ↦ absurd (d (sym (rw differ at h)))
]

place-won :
    (k : Text) (p : Pc)
    → place_at k p ≡ won
    → (host : Text) × (ips : List ResolvedIp) × (p ≡ finished host (ips, none))
      × (domain_key host ≡ k)
place-won k ready h = ground arith
place-won k (waiting host) h = ground arith
place-won k (running host true) h = ground arith
place-won k (running host false) h = ground arith
place-won k (finished host (ips, none)) h =
    (host, ips, refl, finished-for k host (ips, none) won h (λ e. ground arith))
place-won k (finished host (ips, some e)) h = ground arith

place-failed :
    (k : Text) (p : Pc)
    → place_at k p ≡ failed
    → (host : Text) × (ips : List ResolvedIp) × (e : Text) × (p ≡ finished host (ips, some e))
      × (domain_key host ≡ k)
place-failed k ready h = ground arith
place-failed k (waiting host) h = ground arith
place-failed k (running host true) h = ground arith
place-failed k (running host false) h = ground arith
place-failed k (finished host (ips, none)) h = ground arith
place-failed k (finished host (ips, some e)) h =
    (host, ips, e, refl, finished-for k host (ips, some e) failed h (λ e. ground arith))

won-place : (k : Text) (s : System) → Succeeded k s → (i : ℕ) × (place_at k (s.pc i) ≡ won)
won-place k s (i, host, ips, at, same) =
    (i, ap (place_at k) at ∙ rw (sym same, ==_refl (domain_key host)) refl)

failed-place : (k : Text) (s : System) → Failed k s → (i : ℕ) × (place_at k (s.pc i) ≡ failed)
failed-place k s (i, host, ips, e, at, same) =
    (i, ap (place_at k) at ∙ rw (sym same, ==_refl (domain_key host)) refl)

finish-blamed :
    {n : ℕ} {cb : CircuitBreaker} {rules : List DomainRule} {s : System}
    → Reach n cb rules s
    → (k : Text) → contains s.round.keys k ≡ true
    → (domain_key k ≡ k)
      × ((finish s.round).fail_count k ≡ (
          if blamed s.round k
          then bump cb.threshold (if (s.round.host k).success then 0 else cb.fail_count k)
          else if (s.round.host k).success
          then 0
          else cb.fail_count k))
unfolding finish
finish-blamed {s} r k m =
    let (distinct, own) = Reach-keys r in
    let member = contains→mem s.round.keys k m in
    let (threshold, counts) = (Reach-Good r).counted in
    (
      All-mem (λ x. domain_key x ≡ x) s.round.keys own k member,
      finish-count s.round s.round.keys k s.round.breaker distinct own member
          ∙ rw (threshold, counts k) refl,
    )

-- After a round, whatever the order of its calls, the failure count of each of its hosts is cleared
-- if some call for the host has succeeded; it is that of one failure more if none has and some has
-- failed; and it is what it was if no call for it has returned.
pub finish_exact :
    {n : ℕ} {cb : CircuitBreaker} {rules : List DomainRule} {s : System}
    → Reach n cb rules s
    → (k : Text) → contains s.round.keys k ≡ true
    → Verdict cb s k ((finish s.round).fail_count k)
finish_exact {cb} {s} r k m = elim (Bool-cases (s.round.host k).success) [
  | inl good ↦
      let (i, at) = success_won good in
      let (host, ips, e, own) = place-won k (s.pc i) at in
      subst (Verdict cb s k) (rw (count, good) (ground arith)) (cleared (i, host, ips, e, own))
  | inr bad ↦
      let none_won : ¬ Succeeded k s =
        λ w. let (i, at) = won-place k s w in false≢true (sym bad ∙ won_success i at) in
      elim (Bool-cases (s.round.host k).attempted) [
        | inl tried ↦
            subst (Verdict cb s k)
              (record_failure-count cb k key ∙ sym (rw (count, bad, tried) refl))
              (counted none_won (some_failed (attempted_ended tried) bad))
        | inr idle ↦ subst (Verdict cb s k) (sym (rw (count, bad, idle) refl)) (
            untouched none_won (λ w.
              let (i, at) = failed-place k s w in false≢true (sym idle ∙ failed_attempted i at)))
      ]
]
  where
    key : domain_key k ≡ k
    key = (finish-blamed r k m).0

    count : (finish s.round).fail_count k ≡ (
        if blamed s.round k
        then bump cb.threshold (if (s.round.host k).success then 0 else cb.fail_count k)
        else if (s.round.host k).success
        then 0
        else cb.fail_count k)
    count = (finish-blamed r k m).1

    some_failed :
        (i : ℕ) × ((place_at k (s.pc i) ≡ won) ⊎ (place_at k (s.pc i) ≡ failed))
        → (s.round.host k).success ≡ false
        → Failed k s
    some_failed (i, inl at) bad =
        absurd (false≢true (sym bad ∙ ((Reach-Good r).tally k).won_success i at))
    some_failed (i, inr at) bad =
        let (host, ips, e, at_i, own) = place-failed k (s.pc i) at in (i, host, ips, e, at_i, own)

    open ((Reach-Good r).tally k) use {won_success, success_won, failed_attempted, attempted_ended}
