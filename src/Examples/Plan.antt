-- ===== src/Examples/Plan.antt =====
-- A Lighthouse target with one domain rule, a rule of its own that covers it, a stale rule of its
-- own, and a rule of another owner: what PlanTarget makes of it, and the theorems on plans there.
use cloudhost_firewall_autou.Common.{
  String, ap, ◌∙◌, ◌≡◌, ◌≢◌, ◌↔◌, refl, sym, subst, true, false, not, ◌&&◌, List, [], ◌∷◌, map,
  select, insert_sorted, sort_by, any, contains, list_beq, Memᴰ, Distinct,
}
use cloudhost_firewall_autou.Strings.{
  codes, is_space, trim_left, trim_right, trim_space, upper_code, lower_code, to_upper, to_lower,
  equal_fold, has_prefix, has_suffix, contains_sub, contains_code, cut, split, join, text_lt,
  byte_length, read_digits,
}
use cloudhost_firewall_autou.Netip.{
  parse_addr, parse_prefix, masked, itoa, prefix_text, to_4, ip_text,
}
use cloudhost_firewall_autou.Tag.{format, is_owned}
use cloudhost_firewall_autou.Portconv
use cloudhost_firewall_autou.Portconv.{to_slash}
use cloudhost_firewall_autou.Config.{tc_lighthouse, RuleInfo, DomainRule}
use cloudhost_firewall_autou.Dns.{ResolvedIp, resolved_cidr}
use cloudhost_firewall_autou.Provider.Types.{
  FunctionalKey, ipv4, key_beq, key_text, RuleSnapshot, TargetPlan, TargetPlanInput,
}
use cloudhost_firewall_autou.Provider.Ports.{capabilities, expand_ports, expand_planned_ports}
use cloudhost_firewall_autou.Provider.Description.{truncate_description, render_description}
use cloudhost_firewall_autou.Provider.Keys.{
  canonical_protocol, canonical_port_expression, canonical_ip_prefix, canonical_cidr,
  rule_family_cidr, split_port_field, sort_rule_keys, build_keys, snapshot_rule_keys,
  planned_action_keys, unsupported_key_reason,
}
use cloudhost_firewall_autou.Provider.Desired.{
  find_int, rule_action, planned_rule, append_unique_int, append_unique_string, merge_planned,
  place_planned, note_unsupported, add_wire_port, add_protocol, protocols, add_ip, add_rule,
  sort_rules, desired_draft, render_planned, sort_planned, desired_rules,
}
use cloudhost_firewall_autou.Provider.Desired.Asked.{Asks, keys, desired_exact}
use cloudhost_firewall_autou.Provider.Desired.Unique.{desired_rules-Distinct}
use cloudhost_firewall_autou.Provider.Snapshot.{
  rules_at, tuple_action, index_key, index_rule, index_snapshot, is_opposed, opposite_conflicts,
  revision_conflicts, snapshot_conflicts,
}
use cloudhost_firewall_autou.Provider.Snapshot.Indexed.{external_to}
use cloudhost_firewall_autou.Provider.Cleanup.{
  cover_one, cover, coverage_ready, is_candidate, cleanup_entries, distinct_issue_codes,
  gate_issues, is_int64, is_located, cleanup_locator_issue, settle, issue_lt, sort_issues,
}
use cloudhost_firewall_autou.Provider.Plan.{
  snapshot_index, conflicts, coverage, is_ready, candidates, gate, settled, plan_target,
}
use cloudhost_firewall_autou.Provider.Plan.Stale.{IsStale, IsOpen, candidates_exact}
use cloudhost_firewall_autou.Provider.Plan.Safety.{
  HasLocator, Unambiguous, deletable_exact, deletable-HasLocator,
}
use cloudhost_firewall_autou.Provider.Plan.Covering.{
  has_with, snapshot_has, with_snapshot, to_add_exact, satisfied_exact, coverage_ready_exact,
  deletion_keeps_coverage,
}

abbrev cloud_rule : String → String → String → String → RuleInfo
cloud_rule port cidr description id = record {
  protocol = codes "TCP";
  port = codes port;
  cidr_block = codes cidr;
  ipv6_cidr_block = [];
  action = codes "ACCEPT";
  description = codes description;
  policy_index = [];
  rule_id = codes id;
}

abbrev covering : RuleInfo
covering = cloud_rule "443" "1.2.3.4/32" "[home] web" "r1"

abbrev pub stale : RuleInfo
stale = cloud_rule "443" "9.9.9.9" "[home] web" "r2"

abbrev pub foreign : RuleInfo
foreign = cloud_rule "22" "0.0.0.0/0" "ssh" "r3"

abbrev pub web : DomainRule
web = record {
  id = 7;
  host = codes "home.example";
  protocol = codes "tcp";
  ports = codes "443";
  action = codes "ACCEPT";
  targets = 1 ∷ [];
  comment = codes "web";
  enable_ipv6 = false;
}

abbrev pub address : ResolvedIp
address = record { ip = 1 ∷ 2 ∷ 3 ∷ 4 ∷ []; is_ipv6 = false }

abbrev snapshot_of : List RuleInfo → RuleSnapshot
snapshot_of rules = record { rules = rules; revision = codes "12" }

abbrev input_of : List RuleInfo → TargetPlanInput
input_of rules = record {
  cloud_type = tc_lighthouse;
  tag = codes "home";
  rules = web ∷ [];
  resolved = (7, address ∷ []) ∷ [];
  dns_errors = [];
  snapshot = snapshot_of rules;
  add_state_unknown = false;
}

abbrev covered : TargetPlanInput
covered = input_of (covering ∷ stale ∷ foreign ∷ [])

abbrev uncovered : TargetPlanInput
uncovered = input_of (stale ∷ foreign ∷ [])

abbrev web_key : FunctionalKey
web_key = record {
  family = ipv4;
  cidr = codes "1.2.3.4/32";
  protocol = codes "TCP";
  port = codes "443";
  action = codes "ACCEPT";
}

run : TargetPlanInput → TargetPlan
unfolding plan_target snapshot_index conflicts coverage is_ready candidates gate settled cover_one
    cover coverage_ready is_candidate cleanup_entries distinct_issue_codes gate_issues is_int64
    is_located cleanup_locator_issue settle issue_lt sort_issues rules_at tuple_action index_key
    index_rule index_snapshot is_opposed opposite_conflicts revision_conflicts snapshot_conflicts
    find_int rule_action planned_rule append_unique_int append_unique_string merge_planned
    place_planned note_unsupported add_wire_port add_protocol protocols add_ip add_rule sort_rules
    desired_draft render_planned sort_planned desired_rules canonical_protocol
    canonical_port_expression canonical_ip_prefix canonical_cidr rule_family_cidr split_port_field
    sort_rule_keys build_keys snapshot_rule_keys planned_action_keys unsupported_key_reason
    truncate_description render_description capabilities expand_ports expand_planned_ports key_beq
    key_text resolved_cidr format is_owned Portconv.parse to_slash parse_addr parse_prefix masked
    itoa prefix_text to_4 ip_text is_space trim_left trim_right trim_space upper_code lower_code
    to_upper to_lower equal_fold has_prefix has_suffix contains_sub contains_code cut split join
    text_lt byte_length read_digits select insert_sorted sort_by any contains list_beq
run input = plan_target input

run_lem : (input : TargetPlanInput) → plan_target input ≡ run input
unfolding run
run_lem input = refl

-- The stale rule, and only it, may be deleted, and nothing is to be added.
covered_deletable : (run covered).cleanup_deletable ≡ stale ∷ []
unfolding run
covered_deletable = refl

covered_to_add : (run covered).to_add ≡ []
unfolding run
covered_to_add = refl

-- Without the covering rule, the address is added and nothing is deleted.
uncovered_to_add : map (λ a. a.cidr_block) (run uncovered).to_add ≡ codes "1.2.3.4/32" ∷ []
unfolding run
uncovered_to_add = refl

uncovered_deletable : (run uncovered).cleanup_deletable ≡ []
unfolding run
uncovered_deletable = refl

stale_allowed : Memᴰ stale (plan_target covered).cleanup_deletable
stale_allowed =
    subst (Memᴰ stale) (sym (ap (λ p. p.cleanup_deletable) (run_lem covered) ∙ covered_deletable))
      (Memᴰ.head refl)

nothing_to_add : (plan_target covered).to_add ≡ []
nothing_to_add = ap (λ p. p.to_add) (run_lem covered) ∙ covered_to_add

deletable_exact_example :
    Memᴰ stale (plan_target covered).cleanup_deletable
    ↔ (IsStale covered stale × IsOpen (plan_target covered) × Unambiguous covered stale)
deletable_exact_example = deletable_exact covered stale

deletable-HasLocator_example : HasLocator tc_lighthouse (covering ∷ stale ∷ foreign ∷ []) stale
deletable-HasLocator_example = deletable-HasLocator covered stale stale_allowed

not_stale :
    (r : RuleInfo)
    → Memᴰ r (covering ∷ stale ∷ foreign ∷ [])
    → (Memᴰ r (plan_target covered).cleanup_deletable → ⊥)
    → Memᴰ r (covering ∷ foreign ∷ [])
not_stale r (Memᴰ.head e) h = Memᴰ.head e
not_stale r (Memᴰ.tail (Memᴰ.head e)) h =
    absurd (h (subst (λ s. Memᴰ s (plan_target covered).cleanup_deletable) (sym e) stale_allowed))
not_stale r (Memᴰ.tail (Memᴰ.tail m)) h = Memᴰ.tail m

deletion_keeps_coverage_example :
    (plan_target (with_snapshot covered (snapshot_of (covering ∷ foreign ∷ [])))).to_add ≡ []
deletion_keeps_coverage_example =
    deletion_keeps_coverage covered (snapshot_of (covering ∷ foreign ∷ [])) nothing_to_add not_stale

to_add_exact_example :
    (plan_target uncovered).to_add
    ≡ map
        (λ d. d.action)
        (select
          (λ d. d.implementable && not (snapshot_has (stale ∷ foreign ∷ []) d.key))
          (plan_target uncovered).desired)
to_add_exact_example = to_add_exact uncovered

satisfied_exact_example :
    (map (λ m. m.key) (plan_target covered).satisfied_by_owned
      ≡ map
          (λ d. d.key)
          (select
            (λ d.
              has_with
                (λ r. is_owned r.description (codes "home"))
                (covering ∷ stale ∷ foreign ∷ [])
                d.key)
            (plan_target covered).desired))
    × (map (λ m. m.key) (plan_target covered).satisfied_by_external
        ≡ map
            (λ d. d.key)
            (select
              (λ d.
                not (
                  has_with
                    (λ r. is_owned r.description (codes "home"))
                    (covering ∷ stale ∷ foreign ∷ [])
                    d.key)
                && has_with (external_to (codes "home")) (covering ∷ stale ∷ foreign ∷ []) d.key)
              (plan_target covered).desired))
satisfied_exact_example = satisfied_exact covered

coverage_ready_exact_example : ((plan_target covered).coverage_ready ≡ true) ↔ (
    (select (λ d. d.implementable) (plan_target covered).desired ≢ [])
    × ((plan_target covered).to_add ≡ [])
    × (false ≡ false))
coverage_ready_exact_example = coverage_ready_exact covered

candidates_exact_example :
    Memᴰ stale (plan_target covered).cleanup_candidates ↔ IsStale covered stale
candidates_exact_example = candidates_exact covered stale

desired_exact_example :
    Memᴰ web_key (keys (desired_rules covered))
    ↔ ((r : DomainRule) × Memᴰ r (web ∷ []) × Asks covered web_key r)
desired_exact_example = desired_exact covered web_key

desired_rules-Distinct_example : Distinct (keys (desired_rules covered))
desired_rules-Distinct_example = desired_rules-Distinct covered
