-- ===== src/Provider/Plan.antt =====
-- provider/plan.go: PlanTarget, the composition of its five steps.
pub mod Covering
pub mod Stale
pub mod Safety
use cloudhost_firewall_autou.Common.{Bool, not, List, map, ◌++◌, is_empty}
use cloudhost_firewall_autou.Config.{RuleInfo}
use cloudhost_firewall_autou.Provider.Types.{PlanIssue, TargetPlan, TargetPlanInput}
use cloudhost_firewall_autou.Provider.Desired.{desired_draft, desired_rules}
use cloudhost_firewall_autou.Provider.Snapshot.{Entry, Index, index_snapshot, snapshot_conflicts}
use cloudhost_firewall_autou.Provider.Cleanup.{
  Coverage, cover, coverage_ready, cleanup_entries, gate_issues, settle, sort_issues,
}

module _ (input : TargetPlanInput) where
  unfoldable pub snapshot_index : Index
  snapshot_index = index_snapshot input.tag input.snapshot.rules

  unfoldable pub conflicts : List PlanIssue
  conflicts = snapshot_conflicts input.cloud_type input.snapshot.revision snapshot_index

  unfoldable pub coverage : Coverage
  coverage = cover snapshot_index (desired_rules input)

  unfoldable pub is_ready : Bool
  is_ready = coverage_ready coverage input.add_state_unknown

  unfoldable pub candidates : List Entry
  candidates = cleanup_entries snapshot_index (desired_rules input)

  unfoldable pub gate : List PlanIssue
  gate =
      gate_issues (desired_rules input) (desired_draft input).dns_errors
        (desired_draft input).unsupported conflicts is_ready

  unfoldable pub settled : List PlanIssue × List RuleInfo
  settled = settle input.cloud_type snapshot_index (not (is_empty gate)) candidates

  unfoldable pub plan_target : TargetPlan
  plan_target = record {
    desired = desired_rules input;
    satisfied_by_owned = coverage.satisfied_by_owned;
    satisfied_by_external = coverage.satisfied_by_external;
    to_add = coverage.to_add;
    cleanup_candidates = map (λ e. e.rule) candidates;
    cleanup_deletable = settled.1;
    cleanup_deferred = sort_issues (gate ++ settled.0);
    dns_errors = sort_issues (desired_draft input).dns_errors;
    unsupported = sort_issues (desired_draft input).unsupported;
    conflicts = sort_issues conflicts;
    coverage_ready = is_ready;
  }
