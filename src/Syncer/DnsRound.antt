-- ===== src/Syncer/DnsRound.antt =====
-- syncer/dns_round.go: the resolutions of a round, which share the probe of a host whose breaker was
-- open when the round began. A call of `resolve` is a thread with its place `Pc`; every part that
-- runs under the mutex is one step, and the network call lies between two steps.
pub mod Invariant
pub mod Tally
pub mod Steps
pub mod Reached
pub mod Progress
pub mod Finish
pub mod Verdict
use cloudhost_firewall_autou.Common.{
  ℕ, ◌<◌, ◌≡◌, Bool, true, false, not, ◌&&◌, Option, none, some, List, [], ◌∷◌, ◌++◌, foldl,
  if◌then◌else◌, contains, is_none, ◌==◌, nat_eq, list_eq, update,
}
use cloudhost_firewall_autou.Strings.{Text, codes}
use cloudhost_firewall_autou.Config.{DomainRule}
use cloudhost_firewall_autou.Dns.{ResolvedIp, domain_key}
use cloudhost_firewall_autou.Dns.Breaker.{CircuitBreaker, is_open, record_success, record_failure}

-- `done` is a channel: whether it is made, and whether it is closed.
pub record DnsRoundHost : Type 0 where
  pub opened : Bool
  pub made : Bool
  pub closed : Bool
  pub error : Option Text
  pub attempted : Bool
  pub success : Bool

-- The map `hosts` is its keys and what it holds for each.
pub record DnsRound : Type 0 where
  pub breaker : CircuitBreaker
  pub keys : List Text
  pub host : Text → DnsRoundHost

abbrev pub new_host : CircuitBreaker → Text → DnsRoundHost
new_host cb key = record {
  opened = is_open cb key;
  made = false;
  closed = false;
  error = none;
  attempted = false;
  success = false;
}

unfoldable pub add_key : List Text → DomainRule → List Text
add_key keys rule =
    if contains keys (domain_key rule.host) then keys else keys ++ domain_key rule.host ∷ []

unfoldable pub new_dns_round : CircuitBreaker → List DomainRule → DnsRound
new_dns_round cb rules = record { breaker = cb; keys = foldl add_key [] rules; host = new_host cb }

-- What a resolution returns.
abbrev pub Answer : Type 0
Answer = List ResolvedIp × Option Text

-- Where a call of `resolve` stands: not begun, at the wait for the probe's end, in the network call
-- (as the probe or not), or returned.
pub data Pc : Type 0 where
  ready : Pc
  waiting : Text → Pc
  running : Text → Bool → Pc
  finished : Text → Answer → Pc

-- The first part of `resolve`, up to the wait or the network call.
unfoldable pub begin_resolve : DnsRound → Text → DnsRound × Pc
begin_resolve r host =
    let h = r.host (domain_key host) in
    if h.opened
    then (if h.made then (r, waiting host) else (
      record r { host = update r.host (domain_key host) (record h { made = true }) },
      running host true,
    ))
    else (r, running host false)

abbrev pub after_wait : Text → Option Text → Pc
after_wait host none = running host false
after_wait host (some e) = finished host ([], some e)

-- The part after the wait.
unfoldable pub wake : DnsRound → Text → Pc
wake r host = after_wait host (r.host (domain_key host)).error

-- No address without an error is an error too.
unfoldable pub judge : Text → Answer → Answer
judge host ([], none) = ([], some (codes "DNS 解析无结果: " ++ host))
judge host (ips, e) = (ips, e)

unfoldable pub settle_host : Bool → Option Text → DnsRoundHost → DnsRoundHost
settle_host probe e h = record h {
  attempted = true;
  success = if is_none e then true else h.success;
  error = if probe then e else h.error;
  opened = if probe && is_none e then false else h.opened;
  closed = if probe then true else h.closed;
}

-- The part of `run` after the network call.
unfoldable pub settle : DnsRound → Text → Bool → Answer → DnsRound
settle r host probe (ips, e) = record {
  breaker = if is_none e then record_success r.breaker host else r.breaker;
  keys = r.keys;
  host = update r.host (domain_key host) (settle_host probe e (r.host (domain_key host)));
}

unfoldable pub finish_host : DnsRound → CircuitBreaker → Text → CircuitBreaker
finish_host r cb key =
    if (r.host key).attempted && not (r.host key).success then record_failure cb key else cb

-- `finish` gives the breaker that the round leaves.
unfoldable pub finish : DnsRound → CircuitBreaker
finish r = foldl (finish_host r) r.breaker r.keys

pub record System : Type 0 where
  pub round : DnsRound
  pub pc : ℕ → Pc

-- A step of one of `n` calls. A call is for a host of the round's configuration, and the network may
-- answer with anything.
pub data Step (n : ℕ) (s : System) : System → Type 0 where
  enter :
      (i : ℕ) (host : Text)
      → i < n
      → s.pc i ≡ ready
      → contains s.round.keys (domain_key host) ≡ true
      → Step n s (record {
        round = (begin_resolve s.round host).0;
        pc = update s.pc i (begin_resolve s.round host).1;
      })
  resume :
      (i : ℕ) (host : Text)
      → i < n
      → s.pc i ≡ waiting host
      → (s.round.host (domain_key host)).closed ≡ true
      → Step n s (record { round = s.round; pc = update s.pc i (wake s.round host) })
  return :
      (i : ℕ) (host : Text) (probe : Bool) (answer : Answer)
      → i < n
      → s.pc i ≡ running host probe
      → Step n s (record {
        round = settle s.round host probe (judge host answer);
        pc = update s.pc i (finished host (judge host answer));
      })

abbrev pub init : CircuitBreaker → List DomainRule → System
init cb rules = record { round = new_dns_round cb rules; pc = λ i. ready }

pub data Reach (n : ℕ) (cb : CircuitBreaker) (rules : List DomainRule) : System → Type 0 where
  start : Reach n cb rules (init cb rules)
  later : {s t : System} → Reach n cb rules s → Step n s t → Reach n cb rules t
