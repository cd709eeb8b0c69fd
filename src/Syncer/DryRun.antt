-- ===== src/Syncer/DryRun.antt =====
-- syncer/syncer.go: DryRun, and the changes of provider/common.go that it shows. The lock against a
-- second run, the answer before a state is there, and the cooldown between reads are left out.
pub mod Reads
use cloudhost_firewall_autou.Common.{
  ℕ, Bool, true, false, not, Option, none, some, List, [], ◌∷◌, ◌++◌, map, is_empty, if◌then◌else◌,
}
use cloudhost_firewall_autou.Strings.{Text, codes}
use cloudhost_firewall_autou.Config.{RuleInfo, RuleAction, DomainRule}
use cloudhost_firewall_autou.Provider.Types.{
  PlannedRule, PlanMatch, PlanIssue, TargetPlan, RuleSnapshot,
}
use cloudhost_firewall_autou.Provider.Plan.{plan_target}
use cloudhost_firewall_autou.Syncer.Calls.{Result, ok, err, Services, World, call_read}
use cloudhost_firewall_autou.Syncer.Resolve.{Resolution, resolve_target_rules, rule_hosts}
use cloudhost_firewall_autou.Syncer.Round.{filter_rules_for_target, has_rules}

pub record RuleChange : Type 0 where
  pub protocol : Text
  pub port : Text
  pub action : Text
  pub cidr : Text
  pub desc : Text
  pub skip_reason : Text

abbrev pub either_cidr : Text → Text → Text
either_cidr v4 v6 = if is_empty v4 then v6 else v4

unfoldable pub rule_change_from_action : RuleAction → RuleChange
rule_change_from_action a = record {
  protocol = a.protocol;
  port = a.port;
  action = a.action;
  cidr = either_cidr a.cidr_block a.ipv6_cidr_block;
  desc = a.description;
  skip_reason = [];
}

unfoldable pub rule_change_from_info : RuleInfo → RuleChange
rule_change_from_info r = record {
  protocol = r.protocol;
  port = r.port;
  action = r.action;
  cidr = either_cidr r.cidr_block r.ipv6_cidr_block;
  desc = r.description;
  skip_reason = [];
}

pub record DryRunResult : Type 0 where
  pub target_id : ℕ
  pub provider : Text
  pub domains : List Text
  pub desired : List PlannedRule
  pub satisfied_by_owned : List PlanMatch
  pub satisfied_by_external : List PlanMatch
  pub to_add : List RuleChange
  pub cleanup_candidates : List RuleChange
  pub cleanup_deferred : List PlanIssue
  pub dns_errors : List PlanIssue
  pub unsupported : List PlanIssue
  pub conflicts : List PlanIssue
  pub coverage_ready : Bool
  pub error : Text

pub record DryRunResponse : Type 0 where
  pub results : List DryRunResult
  pub warnings : List Text

unfoldable pub empty_dry_run_result : ℕ → Text → List Text → DryRunResult
empty_dry_run_result target_id name domains = record {
  target_id = target_id;
  provider = name;
  domains = domains;
  desired = [];
  satisfied_by_owned = [];
  satisfied_by_external = [];
  to_add = [];
  cleanup_candidates = [];
  cleanup_deferred = [];
  dns_errors = [];
  unsupported = [];
  conflicts = [];
  coverage_ready = false;
  error = [];
}

-- A plan, shown in the result of its target.
unfoldable pub planned_result : DryRunResult → TargetPlan → DryRunResult
planned_result r plan = record r {
  desired = plan.desired;
  satisfied_by_owned = plan.satisfied_by_owned;
  satisfied_by_external = plan.satisfied_by_external;
  to_add = map rule_change_from_action plan.to_add;
  cleanup_candidates = map rule_change_from_info plan.cleanup_candidates;
  cleanup_deferred = plan.cleanup_deferred;
  dns_errors = plan.dns_errors;
  unsupported = plan.unsupported;
  conflicts = plan.conflicts;
  coverage_ready = plan.coverage_ready;
}

module _ {S : Type 0} (tag : Text) (rules : List DomainRule) where
  abbrev pub skeleton : Services S → DryRunResult
  skeleton p =
      empty_dry_run_result p.target_index p.name
        (rule_hosts (filter_rules_for_target rules p.target_index))

  abbrev pub shown : Services S → Resolution → Result RuleSnapshot → DryRunResult
  shown p z (err e) = record (skeleton p) { error = e.message }
  shown p z (ok snapshot) = planned_result (skeleton p) (
      plan_target (record {
        cloud_type = p.cloud_type;
        tag = tag;
        rules = filter_rules_for_target rules p.target_index;
        resolved = z.resolved;
        dns_errors = z.dns_errors;
        snapshot = snapshot;
        add_state_unknown = false;
      }))

  -- A target with rules: its domains are resolved, outside the round, and its snapshot is read.
  unfoldable pub dry_run_target : Services S → World S → DryRunResult × World S
  dry_run_target p w =
      let (z, w') = resolve_target_rules p false (filter_rules_for_target rules p.target_index) w in
      let (snapshot, w'') = call_read p w' in (shown p z snapshot, w'')

  unfoldable pub dry_run_targets : List (Services S) → World S → List DryRunResult × World S
  dry_run_targets [] w = ([], w)
  dry_run_targets (p ∷ ps) w =
      let (r, w') = if has_rules rules p then dry_run_target p w else (skeleton p, w) in
      let (rs, w'') = dry_run_targets ps w' in (r ∷ rs, w'')

  unfoldable pub dry_run : List (Services S) → World S → DryRunResponse × World S
  dry_run ps w =
      let (results, w') = dry_run_targets ps w in
      (
        record {
          results = results;
          warnings =
              (if is_empty ps then codes "暂无云资源目标，请先在云资源管理页配置" ∷ [] else [])
              ++ (if is_empty rules then codes "暂无域名规则，请先在域名规则页配置" ∷ [] else []);
        },
        w',
      )
