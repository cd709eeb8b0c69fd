-- ===== src/Syncer/Attempt.antt =====
-- syncer/target.go: one attempt on a target: resolve, S0, add, S1, and the conditional cleanup
-- with its S2. The measured times are left out.
pub mod Sound
pub mod Confirmed
use cloudhost_firewall_autou.Common.{
  ℕ, ◌+◌, ◌-◌, Bool, true, false, not, ◌&&◌, ◌||◌, Option, none, some, List, [], ◌∷◌, ◌++◌, map,
  if◌then◌else◌, is_empty, select, any, contains, length,
}
use cloudhost_firewall_autou.Strings.{Text, codes, trim_space}
use cloudhost_firewall_autou.Netip.{itoa}
use cloudhost_firewall_autou.Tag
use cloudhost_firewall_autou.Config.{DomainRule, RuleInfo, RuleAction}
use cloudhost_firewall_autou.Provider.Types.{
  FunctionalKey, key_eq, RuleSnapshot, PlannedRule, TargetPlan, TargetPlanInput, PlanIssue,
}
use cloudhost_firewall_autou.Provider.Keys.{snapshot_rule_keys}
use cloudhost_firewall_autou.Provider.Plan.{plan_target}
use cloudhost_firewall_autou.Syncer.Retry.{
  GoError, wrap, plain_error, is_retryable, is_partial_delete, is_version_mismatch,
  is_idempotent_create, is_idempotent_delete,
}
use cloudhost_firewall_autou.Syncer.Observation.{
  CleanupObservation, TargetOutcome, target_success, target_partial, TargetResult,
  desired_input_complete, observe_unsupported,
}
use cloudhost_firewall_autou.Syncer.Calls.{
  Result, ok, err, CreateResult, DeleteResult, Services, World, call_read, call_create, call_delete,
}
use cloudhost_firewall_autou.Syncer.Resolve.{
  Resolution, resolve_target_rules, dns_failure_error, rule_hosts,
}

pub record CleanupResult : Type 0 where
  pub deleted : ℕ
  pub deferred : ℕ
  pub basis : Text

-- A retryableCleanupError around another error.
abbrev pub cleanup_error : GoError → GoError
cleanup_error e = record e { cleanup = true }

abbrev pub nothing_deleted : TargetPlan → CleanupResult
nothing_deleted plan = record { deleted = 0; deferred = length plan.cleanup_candidates; basis = [] }

abbrev pub keys_free : List FunctionalKey → Option (List FunctionalKey) → Bool
keys_free desired none = false
keys_free desired (some keys) = not (any (contains desired) keys)

-- The second proof, before the deletion, that the rule is the program's own and not desired.
unfoldable pub still_deletable : Text → TargetPlan → RuleInfo → Bool
still_deletable tag plan r =
    Tag.is_owned r.description tag
    && keys_free (map (λ d. d.key) plan.desired) (snapshot_rule_keys r)

abbrev pub delete_progress : TargetPlan → DeleteResult → CleanupResult
delete_progress plan r = record {
  deleted = r.deleted;
  deferred = length plan.cleanup_candidates - r.resolved;
  basis = codes "delete_progress";
}

abbrev pub verify_plan : TargetPlan → Result ℕ
verify_plan plan2 =
    if not (is_empty plan2.to_add)
    then err (
        plain_error
          (codes "S2 覆盖验证失败：清理后 " ++ (itoa (length plan2.to_add) ++ codes " 个期望功能不再被快照覆盖")))
    else ok (length plan2.cleanup_candidates)

abbrev pub conclude_cleanup : CleanupResult → Result ℕ → CleanupResult × Option GoError
conclude_cleanup result (err e) = (result, some e)
conclude_cleanup result (ok n) = (record result { deferred = n; basis = codes "s2" }, none)

-- What the attempt reports of its cleanup.
abbrev pub observe_cleanup : CleanupResult → CleanupObservation → CleanupObservation
observe_cleanup c o = record o {
  basis = if is_empty c.basis then o.basis else c.basis;
  deferred = c.deferred;
}

abbrev pub observe_optional : CleanupResult → Option CleanupObservation → Option CleanupObservation
observe_optional c none = none
observe_optional c (some o) = some (observe_cleanup c o)

unfoldable pub add_cleanup : TargetResult → CleanupResult → TargetResult
add_cleanup res c = record res {
  cleanup_deleted = c.deleted;
  deleted = res.deleted + c.deleted;
  cleanup_deferred = c.deferred;
  cleanup_observation = observe_optional c res.cleanup_observation;
}

-- Before a trusted S2, all candidates of S1 count as remaining.
unfoldable pub observe_s1 : TargetPlan → Bool → TargetResult → TargetResult
observe_s1 plan1 complete res =
    let n = length plan1.cleanup_candidates in
    record (observe_unsupported res plan1.unsupported (codes "s1") complete) {
      cleanup_observation = some (record {
        attempt = 0;
        candidates = n;
        deferred = n;
        basis = codes "s1";
        desired_complete = complete;
        historical = false;
      });
      cleanup_candidates = n;
      cleanup_deferred = n;
      cleanup_deleted = 0;
    }

module _ {S : Type 0} (svc : Services S) (tag : Text) (rules : List DomainRule) where
  unfoldable pub new_result : TargetResult
  new_result = record {
    attempts = 0;
    cleanup_observation = none;
    unsupported_observation = none;
    target_id = svc.target_index;
    provider = svc.name;
    domains = rule_hosts rules;
    outcome = target_success;
    added = 0;
    deleted = 0;
    unsupported = [];
    cleanup_candidates = 0;
    cleanup_deleted = 0;
    cleanup_deferred = 0;
    err = none;
  }

  abbrev pub plan_input : Resolution → RuleSnapshot → TargetPlanInput
  plan_input z snapshot = record {
    cloud_type = svc.cloud_type;
    tag = tag;
    rules = rules;
    resolved = z.resolved;
    dns_errors = z.dns_errors;
    snapshot = snapshot;
    add_state_unknown = false;
  }

  abbrev pub Reported : Type 0
  Reported = (TargetResult × Option GoError) × World S

  module _ (z : Resolution) where
    abbrev pub verify_with : Text → Result RuleSnapshot → Result ℕ
    verify_with revision (err e) = err (wrap (codes "获取 S2 快照失败: ") e)
    verify_with revision (ok s2) =
        if is_empty (trim_space s2.revision) && not (is_empty (trim_space revision))
        then err (plain_error (codes "云端快照不完整: S2 缺少版本号，无法证明清理后状态"))
        else verify_plan (plan_target (plan_input z s2))

    unfoldable pub verify_cleanup_result : Text → World S → Result ℕ × World S
    verify_cleanup_result revision w = let (r, w') = call_read svc w in (verify_with revision r, w')

    abbrev pub verified :
        RuleSnapshot → CleanupResult → World S → (CleanupResult × Option GoError) × World S
    verified s1 result w =
        let (r, w') = verify_cleanup_result s1.revision w in (conclude_cleanup result r, w')

    -- The switch on the error of the deletion.
    abbrev pub settle_delete :
        RuleSnapshot
        → TargetPlan
        → CleanupResult
        → Option GoError
        → World S
        → (CleanupResult × Option GoError) × World S
    settle_delete s1 plan1 result none w = verified s1 result w
    settle_delete s1 plan1 result (some e) w =
        if is_partial_delete e
        then verified s1 result w
        else if is_idempotent_delete e
        then verified s1 result w
        else if is_version_mismatch e
        then ((result, some (cleanup_error (wrap (codes "清理版本竞争，整目标重试: ") e))), w)
        else if is_retryable e
        then ((result, some (cleanup_error (wrap (codes "清理失败（可重试）：") e))), w)
        else ((record result { deferred = length plan1.cleanup_candidates }, none), w)

    abbrev pub delete_all :
        RuleSnapshot
        → TargetPlan
        → List RuleInfo
        → World S
        → (CleanupResult × Option GoError) × World S
    delete_all s1 plan1 [] w = ((nothing_deleted plan1, none), w)
    delete_all s1 plan1 (r ∷ rs) w =
        let ((d, e), w') = call_delete svc s1 (r ∷ rs) w in
        settle_delete s1 plan1 (delete_progress plan1 d) e w'

    -- If the plan has nothing to delete, the selection is empty as well.
    unfoldable pub run_target_cleanup :
        RuleSnapshot → TargetPlan → World S → (CleanupResult × Option GoError) × World S
    run_target_cleanup s1 plan1 w =
        delete_all s1 plan1 (select (still_deletable tag plan1) plan1.cleanup_deletable) w

    abbrev pub cleaned : TargetResult → (CleanupResult × Option GoError) × World S → Reported
    cleaned res ((c, e), w) = ((add_cleanup res c, e), w)

    abbrev pub outcome_of : TargetPlan → TargetOutcome
    outcome_of plan1 = if is_empty plan1.unsupported then target_success else target_partial

    unfoldable pub with_plan1 : TargetResult → RuleSnapshot → TargetPlan → World S → Reported
    with_plan1 res s1 plan1 w =
        if not (is_empty plan1.to_add)
        then (
          (
            res,
            some (
                plain_error (
                  codes "新增后覆盖验证失败："
                  ++ (itoa (length plan1.to_add) ++ codes " 个期望功能未在 S1 快照中得到确认"))),
          ),
          w,
        )
        else if not (is_empty plan1.dns_errors)
        then ((res, some (dns_failure_error plan1.dns_errors z.raw_errors)), w)
        else cleaned (record res { outcome = outcome_of plan1 }) (run_target_cleanup s1 plan1 w)

    abbrev pub complete : Bool
    complete = desired_input_complete rules z.resolved z.dns_errors

    abbrev pub with_s1 : TargetResult → Result RuleSnapshot → World S → Reported
    with_s1 res (err e) w = ((res, some (wrap (codes "获取 S1 快照失败: ") e)), w)
    with_s1 res (ok s1) w =
        let plan1 = plan_target (plan_input z s1) in
        with_plan1 (observe_s1 plan1 complete res) s1 plan1 w

    unfoldable pub read_s1 : TargetResult → World S → Reported
    read_s1 res w = let (r, w') = call_read svc w in with_s1 res r w'

    abbrev pub created : TargetResult → Option GoError → World S → Reported
    created res none w = read_s1 res w
    created res (some e) w =
        if is_idempotent_create e then read_s1 res w else ((res, some (wrap (codes "新增失败: ") e)), w)

    abbrev pub add_missing : TargetResult → RuleSnapshot → List RuleAction → World S → Reported
    add_missing res s0 [] w = read_s1 res w
    add_missing res s0 (a ∷ more) w =
        let ((c, e), w') = call_create svc s0 (a ∷ more) w in
        created (record res { added = res.added + c.written }) e w'

    abbrev pub with_s0 : TargetResult → Result RuleSnapshot → World S → Reported
    with_s0 res (err e) w = ((res, some (wrap (codes "获取 S0 快照失败: ") e)), w)
    with_s0 res (ok s0) w =
        let plan0 = plan_target (plan_input z s0) in
        add_missing (observe_unsupported res plan0.unsupported (codes "s0") complete) s0
          plan0.to_add w

  unfoldable pub run_target_attempt : World S → Reported
  run_target_attempt w =
      let (z, w1) = resolve_target_rules svc true rules w in
      let (r, w2) = call_read svc w1 in with_s0 z new_result r w2
