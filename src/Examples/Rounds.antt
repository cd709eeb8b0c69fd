-- ===== src/Examples/Rounds.antt =====
-- Two resolutions of a host whose breaker is open: the first is the probe, the second waits for it.
use cloudhost_firewall_autou.Common.{
  ◌≡◌, ◌≢◌, ◌⊎◌, ◌<◌, ◌≤◌, ◌*◌, ℕ, refl, true, none, [], ◌∷◌, list_beq, list_eq, nat_eq, contains,
  update, arith, select, any, foldl, ◌^◌, All, ◌↔◌,
}
use cloudhost_firewall_autou.Strings.{
  Text, codes, trim_space, trim_left, trim_right, is_space, to_lower, lower_code,
}
use cloudhost_firewall_autou.Dns.{domain_key}
use cloudhost_firewall_autou.Dns.Breaker.{CircuitBreaker, is_open}
use cloudhost_firewall_autou.Syncer.DnsRound
use cloudhost_firewall_autou.Syncer.DnsRound.Progress.{
  one_call_while_open, no_deadlock, here, onward, calls_return,
}
use cloudhost_firewall_autou.Syncer.DnsRound.Verdict.{Verdict, finish_exact}
use cloudhost_firewall_autou.Syncer.Round
use cloudhost_firewall_autou.Syncer.Round.Units.{round_results}
use cloudhost_firewall_autou.Syncer.Round.Order.{summary_of-order}
use cloudhost_firewall_autou.Syncer.Round.Summary.{
  IsCounted, run_round-IsCounted, IsSuccess, round_success_exact,
}
use cloudhost_firewall_autou.Examples.Plan.{web, address}
use cloudhost_firewall_autou.Examples.Sync.{cloud, begin}
use cloudhost_firewall_autou.Syncer.Observation.{TargetResult, target_success}
use cloudhost_firewall_autou.Syncer.Attempt.{new_result}
use mathlib.Core.List.Permᴰ

abbrev tired : CircuitBreaker
tired = record { fail_count = λ k. 1; threshold = 1 }

abbrev s0 : DnsRound.System
s0 = DnsRound.init tired (web ∷ [])

abbrev entered : ℕ → DnsRound.System → DnsRound.System
entered i s = record {
  round = (DnsRound.begin_resolve s.round web.host).0;
  pc = update s.pc i (DnsRound.begin_resolve s.round web.host).1;
}

abbrev answer : DnsRound.Answer
answer = (address ∷ [], none)

abbrev probing : DnsRound.System
probing = entered 0 s0

abbrev queued : DnsRound.System
queued = entered 1 probing

abbrev probed : DnsRound.System
probed = record {
  round = DnsRound.settle queued.round web.host true (DnsRound.judge web.host answer);
  pc = update queued.pc 0 (DnsRound.finished web.host (DnsRound.judge web.host answer));
}

enter_first : DnsRound.Step 2 s0 probing
unfolding DnsRound.new_dns_round DnsRound.add_key DnsRound.begin_resolve contains is_open domain_key
    list_beq trim_space trim_left trim_right is_space to_lower lower_code
enter_first = DnsRound.enter 0 web.host (omega arith) refl refl

enter_second : DnsRound.Step 2 probing queued
unfolding DnsRound.new_dns_round DnsRound.add_key DnsRound.begin_resolve contains is_open domain_key
    list_beq trim_space trim_left trim_right is_space to_lower lower_code
enter_second = DnsRound.enter 1 web.host (omega arith) refl refl

probe_returns : DnsRound.Step 2 queued probed
unfolding DnsRound.new_dns_round DnsRound.add_key DnsRound.begin_resolve contains is_open domain_key
    list_beq trim_space trim_left trim_right is_space to_lower lower_code
probe_returns = DnsRound.return 0 web.host true answer (omega arith) refl

queued-Reach : DnsRound.Reach 2 tired (web ∷ []) queued
queued-Reach = DnsRound.later (DnsRound.later DnsRound.start enter_first) enter_second

queued_waiting : queued.pc 1 ≡ DnsRound.waiting web.host
unfolding DnsRound.new_dns_round DnsRound.begin_resolve is_open domain_key list_beq trim_space
    trim_left trim_right is_space to_lower lower_code
queued_waiting = refl

queued_running : queued.pc 0 ≡ DnsRound.running web.host true
unfolding DnsRound.new_dns_round DnsRound.begin_resolve is_open domain_key list_beq trim_space
    trim_left trim_right is_space to_lower lower_code
queued_running = refl

queued_open : (queued.round.host (domain_key web.host)).opened ≡ true
unfolding DnsRound.new_dns_round DnsRound.begin_resolve is_open domain_key list_beq trim_space
    trim_left trim_right is_space to_lower lower_code
queued_open = refl

probed_key : contains probed.round.keys (domain_key web.host) ≡ true
unfolding DnsRound.new_dns_round DnsRound.add_key DnsRound.begin_resolve DnsRound.settle contains
    is_open domain_key list_beq trim_space trim_left trim_right is_space to_lower lower_code
probed_key = refl

one_call_while_open_example : ◌≡◌ {A = ℕ} 0 0
one_call_while_open_example =
    one_call_while_open queued-Reach (domain_key web.host) queued_open 0 0 web.host web.host true
      true queued_running refl queued_running refl

no_deadlock_example :
    ((queued.round.host (domain_key web.host)).closed ≡ true)
    ⊎ ((j : ℕ) × (other : Text) × (j < 2)
        × (queued.pc j ≡ DnsRound.running other true)
        × (domain_key other ≡ domain_key web.host))
no_deadlock_example = no_deadlock queued-Reach 1 web.host queued_waiting

-- The first call has begun its probe, which returns; the second waits for it.
queued_begun : queued.pc 1 ≢ DnsRound.ready
queued_begun e = ground (arith, queued_waiting, e)

calls_return_example :
    (1 ≤ 2 * 3)
    × (((host : Text) × (a : DnsRound.Answer) × (queued.pc 1 ≡ DnsRound.finished host a))
        ⊎ ((u : DnsRound.System) × DnsRound.Step 2 queued u))
calls_return_example =
    calls_return (DnsRound.later DnsRound.start enter_first) (onward here enter_second) 1
      queued_begun

finish_exact_example :
    Verdict tired probed
      (domain_key web.host)
      ((DnsRound.finish probed.round).fail_count (domain_key web.host))
finish_exact_example =
    finish_exact (DnsRound.later queued-Reach probe_returns) (domain_key web.host) probed_key

one_unit : Round.count_units (web ∷ []) (cloud ∷ []) < 2 ^ 31
unfolding Round.count_units Round.filter_rules_for_target select any
one_unit = omega arith

run_round-IsCounted_example :
    IsCounted
      (Round.run_round (codes "home") (web ∷ []) (cloud ∷ []) begin).0
      (round_results (codes "home") (web ∷ []) (cloud ∷ []) begin)
run_round-IsCounted_example =
    run_round-IsCounted (codes "home") (web ∷ []) (cloud ∷ []) begin one_unit

round_success_exact_example :
    (Round.outcome_of (Round.run_round (codes "home") (web ∷ []) (cloud ∷ []) begin).0
      ≡ Round.round_success)
    ↔ ((0 < Round.count_units (web ∷ []) (cloud ∷ []))
        × All IsSuccess (round_results (codes "home") (web ∷ []) (cloud ∷ []) begin))
round_success_exact_example =
    round_success_exact (codes "home") (web ∷ []) (cloud ∷ []) begin one_unit

abbrev unchanged : TargetResult
unchanged = new_result cloud (codes "home") (web ∷ [])

abbrev wrote_one : TargetResult
wrote_one = record unchanged { added = 1; outcome = target_success }

summary_of-order_example :
    Round.summary_of 2 (foldl Round.count_result Round.no_counts (unchanged ∷ wrote_one ∷ []))
    ≡ Round.summary_of 2 (foldl Round.count_result Round.no_counts (wrote_one ∷ unchanged ∷ []))
summary_of-order_example =
    summary_of-order 2 (unchanged ∷ wrote_one ∷ []) (wrote_one ∷ unchanged ∷ [])
      (Permᴰ.swap refl refl)
