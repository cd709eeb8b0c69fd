-- ===== src/Syncer/DnsRound/Finish.antt =====
-- The loop of `finish`: each key of the round once.
use cloudhost_firewall_autou.Common.{
  ℕ, ◌≡◌, ◌≢◌, inl, inr, refl, sym, ◌∙◌, subst, Bool, false, not, ◌&&◌, List, [], ◌∷◌, foldl,
  if◌then◌else◌, nat_eq, list_eq, arith, ==_refl, ==-eq_false, Bool-cases, contains, leb, ◌+◌,
  false≢true, All, All-mem, All-of_mem, All-append, Distinct, Distinct-append_one, Memᴰ,
  mem→contains, foldl_inv,
}
use cloudhost_firewall_autou.Strings.{Text}
use cloudhost_firewall_autou.Config.{DomainRule}
use cloudhost_firewall_autou.Dns.{domain_key}
use cloudhost_firewall_autou.Dns.Keys.{domain_key_idem}
use cloudhost_firewall_autou.Dns.Breaker.{CircuitBreaker, record_failure}
use cloudhost_firewall_autou.Syncer.DnsRound.{
  DnsRound, new_dns_round, add_key, begin_resolve, settle, finish_host, System, Step, enter, resume,
  return, Reach, start, later,
}

-- The keys of a round: pairwise different, each its own key.
abbrev pub AreKeys : List Text → Type 0
AreKeys keys = Distinct keys × All (λ k. domain_key k ≡ k) keys

All-differ : (keys : List Text) (k : Text) → contains keys k ≡ false → All (λ y. k ≢ y) keys
All-differ keys k h =
    All-of_mem (λ y. k ≢ y) keys
      (λ y m e. false≢true (sym h ∙ mem→contains keys k (subst (λ z. Memᴰ z keys) (sym e) m)))

add_key-AreKeys :
    (keys : List Text) (rule : DomainRule) → AreKeys keys → AreKeys (add_key keys rule)
unfolding add_key
add_key-AreKeys keys rule h = elim (Bool-cases (contains keys (domain_key rule.host))) [
  | inl old ↦ rw old h
  | inr new ↦ rw new (
    Distinct-append_one keys (domain_key rule.host) h.0
        (All-differ keys (domain_key rule.host) new),
    All-append (λ k. domain_key k ≡ k) keys (domain_key rule.host ∷ []) h.1
        (domain_key_idem rule.host, tt),
  )
]

new_dns_round-AreKeys :
    (cb : CircuitBreaker) (rules : List DomainRule) → AreKeys (new_dns_round cb rules).keys
unfolding new_dns_round
new_dns_round-AreKeys cb rules = foldl_inv AreKeys add_key add_key-AreKeys rules [] (tt, tt)

begin-keys : (r : DnsRound) (host : Text) → (begin_resolve r host).0.keys ≡ r.keys
unfolding begin_resolve
begin-keys r host = ground arith

Step-keys : {n : ℕ} {s t : System} → Step n s t → t.round.keys ≡ s.round.keys
unfolding settle
Step-keys {s} (enter i host lt e known) = begin-keys s.round host
Step-keys (resume i host lt e closed) = refl
Step-keys (return i host probe answer lt e) = refl

pub Reach-keys :
    {n : ℕ} {cb : CircuitBreaker} {rules : List DomainRule} {s : System}
    → Reach n cb rules s
    → AreKeys s.round.keys
Reach-keys {cb} {rules} start = new_dns_round-AreKeys cb rules
Reach-keys (later r st) = subst AreKeys (sym (Step-keys st)) (Reach-keys r)

-- A failure that is counted.
abbrev pub bump : ℕ → ℕ → ℕ
bump threshold n = if leb threshold n then n else n + 1

-- Whether `finish` counts a failure of the host.
abbrev pub blamed : DnsRound → Text → Bool
blamed r k = (r.host k).attempted && not (r.host k).success

pub record_failure-count :
    (cb : CircuitBreaker) (k : Text)
    → domain_key k ≡ k
    → (record_failure cb k).fail_count k ≡ bump cb.threshold (cb.fail_count k)
unfolding record_failure
record_failure-count cb k e = rw e (ground (arith, ==_refl k))

record_failure-other :
    (cb : CircuitBreaker) (x k : Text)
    → domain_key x ≡ x
    → x ≢ k
    → (record_failure cb x).fail_count k ≡ cb.fail_count k
unfolding record_failure
record_failure-other cb x k e d = rw e (ground (arith, ==-eq_false k x (λ q. d (sym q))))

record_failure-threshold :
    (cb : CircuitBreaker) (x : Text) → (record_failure cb x).threshold ≡ cb.threshold
unfolding record_failure
record_failure-threshold cb x = ground arith

module _ (r : DnsRound) where
  finish_host-count :
      (cb : CircuitBreaker) (k : Text)
      → domain_key k ≡ k
      → (finish_host r cb k).fail_count k
        ≡ (if blamed r k then bump cb.threshold (cb.fail_count k) else cb.fail_count k)
  unfolding finish_host
  finish_host-count cb k e = ground (arith, record_failure-count cb k e)

  finish_host-other :
      (cb : CircuitBreaker) (x k : Text)
      → domain_key x ≡ x
      → x ≢ k
      → ((finish_host r cb x).fail_count k ≡ cb.fail_count k)
        × ((finish_host r cb x).threshold ≡ cb.threshold)
  unfolding finish_host
  finish_host-other cb x k e d =
      ground (arith, record_failure-other cb x k e d, record_failure-threshold cb x)

  finish-others :
      (keys : List Text) (k : Text) (cb : CircuitBreaker)
      → All (λ x. domain_key x ≡ x) keys
      → All (λ x. x ≢ k) keys
      → (foldl (finish_host r) cb keys).fail_count k ≡ cb.fail_count k
  finish-others [] k cb n d = refl
  finish-others (x ∷ xs) k cb n d =
      finish-others xs k (finish_host r cb x) n.1 d.1 ∙ (finish_host-other cb x k n.0 d.0).0

  -- The loop of `finish` on one key.
  pub finish-count :
      (keys : List Text) (k : Text) (cb : CircuitBreaker)
      → Distinct keys
      → All (λ x. domain_key x ≡ x) keys
      → Memᴰ k keys
      → (foldl (finish_host r) cb keys).fail_count k
        ≡ (if blamed r k then bump cb.threshold (cb.fail_count k) else cb.fail_count k)
  finish-count [] k cb d n m = elim m [ ]
  finish-count (x ∷ xs) k cb d n (Memᴰ.head e) =
      subst
        (λ y.
          (foldl (finish_host r) (finish_host r cb x) xs).fail_count y
          ≡ (if blamed r y then bump cb.threshold (cb.fail_count y) else cb.fail_count y))
        (sym e) (finish-others xs x (finish_host r cb x) n.1 d.0 ∙ finish_host-count cb x n.0)
  finish-count (x ∷ xs) k cb d n (Memᴰ.tail m) =
      let other = finish_host-other cb x k n.0 (λ e. (All-mem (λ y. y ≢ x) xs d.0 k m) (sym e)) in
      finish-count xs k (finish_host r cb x) d.1 n.1 m ∙ rw (other.0, other.1) refl
