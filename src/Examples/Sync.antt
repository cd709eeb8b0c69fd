-- ===== src/Examples/Sync.antt =====
-- The synchronisation of a small cloud: its state is the list of its rules. At first it has a stale
-- rule and a foreign one.
use cloudhost_firewall_autou.Common.{
  ap, ◌∙◌, insert_sorted, sort_by, list_beq, ◌≡◌, ℕ, refl, true, map, none, Option, select,
  contains, any, Bool, not, List, [], ◌∷◌, ◌++◌, ◌==◌, list_eq, nat_eq,
}
use cloudhost_firewall_autou.Strings.{codes}
use cloudhost_firewall_autou.Config.{tc_lighthouse, RuleInfo, RuleAction}
use cloudhost_firewall_autou.Syncer.Calls.{ok, Services, World}
use cloudhost_firewall_autou.Syncer.Attempt.Sound.{IsSafe}
use cloudhost_firewall_autou.Syncer.Target.{sync_target}
use cloudhost_firewall_autou.Syncer.Observation.Counted.{summarize, IsSummary, summarize_lem}
use cloudhost_firewall_autou.Syncer.Target.Finished.{IsFinished, sync_target-IsFinished}
use cloudhost_firewall_autou.Syncer.Target.Safe.{sync_target-IsSafe}
use cloudhost_firewall_autou.Common.{length}
use cloudhost_firewall_autou.Examples.Plan.{web, stale, foreign, address}
use cloudhost_firewall_autou.Portconv
use cloudhost_firewall_autou.Strings.{
  is_space, trim_left, trim_right, trim_space, upper_code, lower_code, to_upper, to_lower,
  equal_fold, has_prefix, has_suffix, contains_sub, contains_code, cut, split, join, text_lt,
  byte_length, read_digits,
}
use cloudhost_firewall_autou.Netip.{
  parse_addr, parse_prefix, masked, itoa, prefix_text, to_4, ip_text,
}
use cloudhost_firewall_autou.Tag.{format, is_owned}
use cloudhost_firewall_autou.Portconv.{to_slash}
use cloudhost_firewall_autou.Dns.{resolved_cidr}
use cloudhost_firewall_autou.Provider.Types.{key_beq, key_text}
use cloudhost_firewall_autou.Provider.Ports.{capabilities, expand_ports, expand_planned_ports}
use cloudhost_firewall_autou.Provider.Description.{truncate_description, render_description}
use cloudhost_firewall_autou.Provider.Keys.{
  canonical_protocol, canonical_port_expression, canonical_ip_prefix, canonical_cidr,
  rule_family_cidr, split_port_field, sort_rule_keys, build_keys, snapshot_rule_keys,
  planned_action_keys, unsupported_key_reason,
}
use cloudhost_firewall_autou.Provider.Desired.{
  find_int, rule_action, planned_rule, append_unique_int, append_unique_string, merge_planned,
  place_planned, note_unsupported, add_wire_port, add_protocol, protocols, add_ip, add_rule,
  sort_rules, desired_draft, render_planned, sort_planned, desired_rules,
}
use cloudhost_firewall_autou.Provider.Snapshot.{
  rules_at, tuple_action, index_key, index_rule, index_snapshot, is_opposed, opposite_conflicts,
  revision_conflicts, snapshot_conflicts,
}
use cloudhost_firewall_autou.Provider.Cleanup.{
  cover_one, cover, coverage_ready, is_candidate, cleanup_entries, distinct_issue_codes,
  gate_issues, is_int64, is_located, cleanup_locator_issue, settle, issue_lt, sort_issues,
}
use cloudhost_firewall_autou.Provider.Plan.{
  snapshot_index, conflicts, coverage, is_ready, candidates, gate, settled, plan_target,
}
use cloudhost_firewall_autou.Syncer.Retry.{GoError}
use cloudhost_firewall_autou.Dns.{domain_key}
use cloudhost_firewall_autou.Syncer.Observation.{
  TargetResult, desired_input_complete, observe_unsupported, merge_observations,
}
use cloudhost_firewall_autou.Syncer.Resolve.{
  find_host, filter_ipv4, addresses, report_failure, resolve_new, resolve_rule,
  resolve_target_rules, dns_failure_error, rule_hosts,
}
use cloudhost_firewall_autou.Syncer.Attempt.{
  still_deletable, add_cleanup, observe_s1, new_result, verify_cleanup_result, run_target_cleanup,
  with_plan1, read_s1, run_target_attempt,
}
use cloudhost_firewall_autou.Syncer.Attempt.Confirmed.{IsConfirmed, run_target_attempt-IsConfirmed}
use cloudhost_firewall_autou.Syncer.Target.{finish, absorb, attempts_from}
use cloudhost_firewall_autou.Syncer.Round.{count_units}
use cloudhost_firewall_autou.Syncer.DryRun.{dry_run}
use cloudhost_firewall_autou.Syncer.DryRun.Reads.{Reads, dry_run-Reads}

abbrev pub Cloud : Type 0
Cloud = List RuleInfo

abbrev as_info : RuleAction → RuleInfo
as_info a = record {
  protocol = a.protocol;
  port = a.port;
  cidr_block = a.cidr_block;
  ipv6_cidr_block = a.ipv6_cidr_block;
  action = a.action;
  description = a.description;
  policy_index = [];
  rule_id = codes "new";
}

abbrev has_id : List RuleInfo → RuleInfo → Bool
has_id rules r = any (λ s. s.rule_id == r.rule_id) rules

abbrev pub cloud : Services Cloud
cloud = record {
  name = codes "lighthouse";
  cloud_type = tc_lighthouse;
  target_index = 1;
  get_snapshot = λ c. (ok (record { rules = c; revision = codes "12" }), c);
  create_rules = λ s actions c.
      ((record { written = length actions; skipped = 0 }, none), c ++ map as_info actions);
  delete_rules = λ s rules c. (
    (record { deleted = length rules; resolved = length rules }, none),
    select (λ r. not (has_id rules r)) c,
  );
  round_resolve = λ host c. (ok (address ∷ []), c);
  resolve_host = λ host c. (ok (address ∷ []), c);
}

abbrev pub begin : World Cloud
begin = record { state = stale ∷ foreign ∷ []; calls = []; events = []; dns_failed_hosts = [] }

sync_target-IsSafe_example :
    IsSafe cloud
      (codes "home")
      (web ∷ [])
      (sync_target cloud (codes "home") (web ∷ []) begin).1.calls
sync_target-IsSafe_example = sync_target-IsSafe cloud (codes "home") (web ∷ []) begin IsSafe.start

run : World Cloud → ((TargetResult × Option GoError) × World Cloud) × (TargetResult × World Cloud)
unfolding sync_target attempts_from finish absorb merge_observations desired_input_complete
    observe_unsupported find_host filter_ipv4 addresses report_failure resolve_new resolve_rule
    resolve_target_rules dns_failure_error rule_hosts still_deletable add_cleanup observe_s1
    new_result verify_cleanup_result run_target_cleanup with_plan1 read_s1 run_target_attempt
    domain_key plan_target snapshot_index conflicts coverage is_ready candidates gate settled
    cover_one cover coverage_ready is_candidate cleanup_entries distinct_issue_codes gate_issues
    is_int64 is_located cleanup_locator_issue settle issue_lt sort_issues rules_at tuple_action
    index_key index_rule index_snapshot is_opposed opposite_conflicts revision_conflicts
    snapshot_conflicts find_int rule_action planned_rule append_unique_int append_unique_string
    merge_planned place_planned note_unsupported add_wire_port add_protocol protocols add_ip
    add_rule sort_rules desired_draft render_planned sort_planned desired_rules canonical_protocol
    canonical_port_expression canonical_ip_prefix canonical_cidr rule_family_cidr split_port_field
    sort_rule_keys build_keys snapshot_rule_keys planned_action_keys unsupported_key_reason
    truncate_description render_description capabilities expand_ports expand_planned_ports key_beq
    key_text resolved_cidr format is_owned Portconv.parse to_slash parse_addr parse_prefix masked
    itoa prefix_text to_4 ip_text is_space trim_left trim_right trim_space upper_code lower_code
    to_upper to_lower equal_fold has_prefix has_suffix contains_sub contains_code cut split join
    text_lt byte_length read_digits select insert_sorted sort_by any contains list_beq
run w = (
  run_target_attempt cloud (codes "home") (web ∷ []) w,
  sync_target cloud (codes "home") (web ∷ []) w,
)

abbrev totals : TargetResult → ℕ × (ℕ × ℕ)
totals r = (r.attempts, (r.added, r.deleted))

-- One attempt adds the address and deletes the stale rule.
synced_totals : totals (run begin).1.0 ≡ (1, (1, 1))
unfolding run
synced_totals = refl

synced_cloud :
    map (λ r. r.cidr_block) (run begin).1.1.state ≡ codes "0.0.0.0/0" ∷ codes "1.2.3.4/32" ∷ []
unfolding run
synced_cloud = refl

attempt_error : (run begin).0.0.1 ≡ none
unfolding run
attempt_error = refl

attempt_lem : run_target_attempt cloud (codes "home") (web ∷ []) begin ≡ (run begin).0
unfolding run
attempt_lem = refl

run_target_attempt-IsConfirmed_example :
    IsConfirmed cloud
      (codes "home")
      (web ∷ [])
      (resolve_target_rules cloud true (web ∷ []) begin).0
      (run_target_attempt cloud (codes "home") (web ∷ []) begin).1.calls
      (run_target_attempt cloud (codes "home") (web ∷ []) begin).0.0.outcome
run_target_attempt-IsConfirmed_example =
    run_target_attempt-IsConfirmed cloud (codes "home") (web ∷ []) begin
      (ap (λ x. x.0.1) attempt_lem ∙ attempt_error)

sync_target-IsFinished_example : IsFinished 1 3 (sync_target cloud (codes "home") (web ∷ []) begin)
sync_target-IsFinished_example = sync_target-IsFinished cloud (codes "home") (web ∷ []) begin

abbrev unseen : TargetResult
unseen = new_result cloud (codes "home") (web ∷ [])

-- Two targets, one of which was never observed.
summarize_lem_example :
    IsSummary (summarize ((run begin).1.0 ∷ unseen ∷ [])) ((run begin).1.0 ∷ unseen ∷ [])
summarize_lem_example = summarize_lem ((run begin).1.0 ∷ unseen ∷ [])

dry_run-Reads_example :
    Reads begin
      (count_units (web ∷ []) (cloud ∷ []))
      (dry_run (codes "home") (web ∷ []) (cloud ∷ []) begin).1
dry_run-Reads_example = dry_run-Reads (codes "home") (web ∷ []) (cloud ∷ []) begin
