-- ===== src/Syncer/DnsRound/Progress.antt =====
-- Who may resolve a host whose breaker is open, and that every call returns.
use cloudhost_firewall_autou.Common.{
  ℕ, suc, ◌+◌, ◌*◌, ◌≤◌, ◌<◌, ◌≡◌, ◌≢◌, ◌⊎◌, inl, inr, refl, sym, ap, ◌∙◌, Bool, true, false,
  Option, none, some, List, [], if◌then◌else◌, ◌==◌, nat_eq, list_eq, arith, ==_iff, ==_refl,
  Bool-cases, total, total-update, total_le, false≢true,
}
use cloudhost_firewall_autou.Strings.{Text}
use cloudhost_firewall_autou.Config.{DomainRule}
use cloudhost_firewall_autou.Dns.{domain_key}
use cloudhost_firewall_autou.Dns.Breaker.{CircuitBreaker}
use cloudhost_firewall_autou.Syncer.DnsRound.{
  DnsRound, Answer, Pc, ready, waiting, running, finished, begin_resolve, wake, after_wait, judge,
  System, Step, enter, resume, return, Reach, start, later,
}
use cloudhost_firewall_autou.Syncer.DnsRound.Invariant.{away, probes, plain}
use cloudhost_firewall_autou.Syncer.DnsRound.Steps.{place_at}
use cloudhost_firewall_autou.Syncer.DnsRound.Reached.{Good, Reach-Good}

-- A call for a host that stands in the network call while the breaker counts as open is the probe.
running_place :
    (k host : Text) (probe : Bool)
    → domain_key host ≡ k
    → place_at k (running host probe) ≡ (if probe then probes else plain)
running_place k host true e = rw (sym e, ==_refl (domain_key host))
running_place k host false e = rw (sym e, ==_refl (domain_key host))

probe_of_open :
    {cb : CircuitBreaker} {s : System}
    → Good cb s
    → (k host : Text) (probe : Bool) (i : ℕ) → s.pc i ≡ running host probe
    → domain_key host ≡ k
    → (s.round.host k).opened ≡ true
    → place_at k (s.pc i) ≡ probes
probe_of_open good k host true i at e o = ap (place_at k) at ∙ running_place k host true e
probe_of_open good k host false i at e o = absurd (
    false≢true
      (sym ((good.inv k).plain_closed i (ap (place_at k) at ∙ running_place k host false e)) ∙ o))

-- As long as a host's breaker counts as open in the round, at most one call is in the network call
-- for that host.
pub one_call_while_open :
    {n : ℕ} {cb : CircuitBreaker} {rules : List DomainRule} {s : System}
    → Reach n cb rules s
    → (k : Text) → (s.round.host k).opened ≡ true
    → (i j : ℕ) (host other : Text) (probe probe' : Bool) → s.pc i ≡ running host probe
    → domain_key host ≡ k
    → s.pc j ≡ running other probe'
    → domain_key other ≡ k
    → i ≡ j
one_call_while_open r k o i j host other probe probe' at_i for_i at_j for_j =
    let good = Reach-Good r in
    (good.inv k).one_probe i j (probe_of_open good k host probe i at_i for_i o)
      (probe_of_open good k other probe' j at_j for_j o)

-- A call that has begun is one of the `n`.
begun-below :
    {n : ℕ} {cb : CircuitBreaker} {rules : List DomainRule} {s : System}
    → Reach n cb rules s
    → (i : ℕ) → s.pc i ≢ ready
    → i < n
begun-below start i h = absurd (h refl)
begun-below (later r (enter j host lt e known)) i h = ground (arith, begun-below r i)
begun-below (later r (resume j host lt e closed)) i h = ground (arith, begun-below r i)
begun-below (later r (return j host probe answer lt e)) i h = ground (arith, begun-below r i)

away≢probes : away ≢ probes
away≢probes h = ground arith

-- The call at a place that only a probe has.
probe-running :
    (k : Text) (p : Pc)
    → place_at k p ≡ probes
    → (host : Text) × (p ≡ running host true) × (domain_key host ≡ k)
probe-running k ready h = ground arith
probe-running k (waiting host) h = ground arith
probe-running k (running host true) h = (host, refl, for_host (Bool-cases (k == domain_key host)))
  where
    for_host :
        ((k == domain_key host) ≡ true) ⊎ ((k == domain_key host) ≡ false) → domain_key host ≡ k
    for_host (inl same) = sym ((==_iff k (domain_key host)).0 same)
    for_host (inr differ) = absurd (away≢probes (rw differ at h))
probe-running k (running host false) h = ground arith
probe-running k (finished host (ips, none)) h = ground arith
probe-running k (finished host (ips, some e)) h = ground arith

-- A call that waits can go on at once, or the probe that it waits for is in the network call.
pub no_deadlock :
    {n : ℕ} {cb : CircuitBreaker} {rules : List DomainRule} {s : System}
    → Reach n cb rules s
    → (i : ℕ) (host : Text) → s.pc i ≡ waiting host
    → ((s.round.host (domain_key host)).closed ≡ true)
      ⊎ ((j : ℕ) × (other : Text) × (j < n)
          × (s.pc j ≡ running other true)
          × (domain_key other ≡ domain_key host))
no_deadlock {s} r i host at =
    let good = Reach-Good r in
    let k = domain_key host in
    elim ((good.inv k).covered
      ((good.inv k).wait_made i (ap (place_at k) at ∙ rw (==_refl k) refl))) [
        | inl closed ↦ inl closed
        | inr (j, probing) ↦
            let (other, at_j, same) = probe-running k (s.pc j) probing in
            inr (
              j,
              other,
              begun-below r j (λ e. away≢probes (sym (ap (place_at k) e) ∙ probing)),
              at_j,
              same,
            )
      ]

-- How many steps a call can still make, at most.
abbrev pub rank : Pc → ℕ
rank ready = 3
rank (waiting host) = 2
rank (running host probe) = 1
rank (finished host answer) = 0

abbrev pub remaining : ℕ → System → ℕ
remaining n s = total rank n s.pc

-- A sequence of `m` steps.
pub data Walk (n : ℕ) (s : System) : ℕ → System → Type 0 where
  here : Walk n s 0 s
  onward : {m : ℕ} {t u : System} → Walk n s m t → Step n t u → Walk n s (suc m) u

begin-rank : (r : DnsRound) (host : Text) → rank (begin_resolve r host).1 < 3
unfolding begin_resolve
begin-rank r host = ground arith

after_wait-rank : (host : Text) (o : Option Text) → rank (after_wait host o) < 2
after_wait-rank host none = omega arith
after_wait-rank host (some e) = omega arith

wake-rank : (r : DnsRound) (host : Text) → rank (wake r host) < 2
unfolding wake
wake-rank r host = after_wait-rank host (r.host (domain_key host)).error

Step-remaining : {n : ℕ} {s t : System} → Step n s t → remaining n t < remaining n s
Step-remaining {n} {s} (enter i host lt e known) =
    let b = begin-rank s.round host in
    let u = total-update rank n i s.pc (begin_resolve s.round host).1 lt in
    let f = ap rank e in omega (arith, b, u, f)
Step-remaining {n} {s} (resume i host lt e closed) =
    let b = wake-rank s.round host in
    let u = total-update rank n i s.pc (wake s.round host) lt in
    let f = ap rank e in omega (arith, b, u, f)
Step-remaining {n} {s} (return i host probe answer lt e) =
    let u = total-update rank n i s.pc (finished host (judge host answer)) lt in
    let f = ap rank e in omega (arith, u, f)

rank-le : (p : Pc) → rank p ≤ 3
rank-le ready = omega arith
rank-le (waiting host) = omega arith
rank-le (running host probe) = omega arith
rank-le (finished host answer) = omega arith

Walk-remaining :
    {n : ℕ} {s : System} {m : ℕ} {t : System} → Walk n s m t → m + remaining n t ≤ remaining n s
Walk-remaining here = omega arith
Walk-remaining (onward w st) = omega (arith, Walk-remaining w, Step-remaining st)

Walk-bounded : {n m : ℕ} {s t : System} → Walk n s m t → m ≤ n * 3
Walk-bounded {n} {m} {s} {t} w =
    omega (arith, Walk-remaining w, total_le rank n 3 s.pc (λ i. rank-le (s.pc i)))

Walk-Reach :
    {n : ℕ} {cb : CircuitBreaker} {rules : List DomainRule} {s : System} {m : ℕ} {t : System}
    → Reach n cb rules s
    → Walk n s m t
    → Reach n cb rules t
Walk-Reach r here = r
Walk-Reach r (onward w st) = later (Walk-Reach r w) st

-- The call in the network call of `i` can return.
returns :
    {n : ℕ} {s : System} (i : ℕ) (host : Text) (probe : Bool)
    → i < n
    → s.pc i ≡ running host probe
    → (u : System) × Step n s u
returns i host probe lt at = (_, return i host probe ([], none) lt at)

-- A call that has begun has returned, or there is a step.
goes_on :
    {n : ℕ} {cb : CircuitBreaker} {rules : List DomainRule} {s : System}
    → Reach n cb rules s
    → (i : ℕ) (p : Pc) → s.pc i ≡ p
    → p ≢ ready
    → ((host : Text) × (answer : Answer) × (p ≡ finished host answer)) ⊎ ((u : System) × Step n s u)
goes_on r i ready at h = absurd (h refl)
goes_on r i (finished host answer) at h = inl (host, answer, refl)
goes_on r i (running host probe) at h =
    inr (returns i host probe (begun-below r i (λ e. h (sym at ∙ e))) at)
goes_on r i (waiting host) at h = elim (no_deadlock r i host at) [
  | inl closed ↦ inr (_, resume i host (begun-below r i (λ e. h (sym at ∙ e))) at closed)
  | inr (j, other, lt, at_j, same) ↦ inr (returns j other true lt at_j)
]

-- From a reachable state of `n` calls no more than three steps for each can follow, and after any of
-- these sequences of steps a call that has begun has returned, or a further step is possible: a
-- sequence that cannot go on has ended with every call that has begun returned.
pub calls_return :
    {n m : ℕ} {cb : CircuitBreaker} {rules : List DomainRule} {s t : System}
    → Reach n cb rules s
    → Walk n s m t
    → (i : ℕ) → t.pc i ≢ ready
    → (m ≤ n * 3)
      × (((host : Text) × (answer : Answer) × (t.pc i ≡ finished host answer))
          ⊎ ((u : System) × Step n t u))
calls_return {t} r w i h = (Walk-bounded w, goes_on (Walk-Reach r w) i (t.pc i) refl h)
