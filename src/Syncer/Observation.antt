-- ===== src/Syncer/Observation.antt =====
-- syncer/observation.go: what an attempt has observed, and how attempts are merged. Times of
-- observation are left out. `Latest` is set whenever its UnsupportedObservation exists.
pub mod Merged
pub mod Counted
use cloudhost_firewall_autou.Common.{
  ℕ, ◌+◌, Bool, false, not, ◌||◌, Option, none, some, List, ◌==◌, nat_eq, list_eq, if◌then◌else◌,
  is_empty, is_none, or_empty, any,
}
use cloudhost_firewall_autou.Strings.{Text, codes}
use cloudhost_firewall_autou.Config.{DomainRule}
use cloudhost_firewall_autou.Dns.{ResolvedIp}
use cloudhost_firewall_autou.Provider.Types.{PlanIssue}
use cloudhost_firewall_autou.Provider.Desired.{find_int}
use cloudhost_firewall_autou.Syncer.Retry.{GoError}

pub record CleanupObservation : Type 0 where
  pub attempt : ℕ
  pub candidates : ℕ
  pub deferred : ℕ
  pub basis : Text
  pub desired_complete : Bool
  pub historical : Bool

pub record PlanObservation : Type 0 where
  pub attempt : ℕ
  pub stage : Text
  pub complete : Bool
  pub issues : List PlanIssue
  pub historical : Bool

pub record UnsupportedObservation : Type 0 where
  pub latest : PlanObservation
  pub last_complete : Option PlanObservation

pub data TargetOutcome : Type 0 where
  target_success target_partial target_failed : TargetOutcome

-- `durationMS` is left out.
pub record TargetResult : Type 0 where
  pub attempts : ℕ
  pub cleanup_observation : Option CleanupObservation
  pub unsupported_observation : Option UnsupportedObservation
  pub target_id : ℕ
  pub provider : Text
  pub domains : List Text
  pub outcome : TargetOutcome
  pub added : ℕ
  pub deleted : ℕ
  pub unsupported : List PlanIssue
  pub cleanup_candidates : ℕ
  pub cleanup_deleted : ℕ
  pub cleanup_deferred : ℕ
  pub err : Option GoError

unfoldable pub desired_input_complete :
    List DomainRule → List (ℕ × List ResolvedIp) → List (ℕ × Text) → Bool
desired_input_complete rules resolved dns_errors = not (
    any
      (λ r.
        not (is_none (find_int dns_errors r.id)) || is_empty (or_empty (find_int resolved r.id)))
      rules)

abbrev last_complete_of : Option UnsupportedObservation → Option PlanObservation
last_complete_of none = none
last_complete_of (some o) = o.last_complete

unfoldable pub observe_unsupported : TargetResult → List PlanIssue → Text → Bool → TargetResult
observe_unsupported r issues stage complete =
    let observation : PlanObservation = record {
      attempt = 0;
      stage = stage;
      complete = complete;
      issues = issues;
      historical = false;
    } in
    record r {
      unsupported_observation = some (record {
        latest = observation;
        last_complete =
            if complete then some observation else last_complete_of r.unsupported_observation;
      });
      unsupported = issues;
    }

abbrev cleanup_from :
    ℕ → Option CleanupObservation → Option CleanupObservation → Option CleanupObservation
cleanup_from attempt none old = old
cleanup_from attempt (some o) old = some (record o { attempt = attempt })

abbrev complete_from : ℕ → Option PlanObservation → Option PlanObservation → Option PlanObservation
complete_from attempt none old = old
complete_from attempt (some o) old = some (record o { attempt = attempt })

abbrev unsupported_from :
    ℕ
    → Option UnsupportedObservation
    → Option UnsupportedObservation
    → Option UnsupportedObservation
unsupported_from attempt none old = old
unsupported_from attempt (some o) old = some (record {
  latest = record o.latest { attempt = attempt };
  last_complete = complete_from attempt o.last_complete (last_complete_of old);
})

abbrev age_plan : ℕ → PlanObservation → PlanObservation
age_plan attempt o = record o { historical = not (o.attempt == attempt) }

abbrev age_complete : ℕ → Option PlanObservation → Option PlanObservation
age_complete attempt none = none
age_complete attempt (some o) = some (age_plan attempt o)

abbrev age_cleanup : ℕ → TargetResult → Option CleanupObservation → TargetResult
age_cleanup attempt r none = record r { cleanup_observation = none }
age_cleanup attempt r (some o) = record r {
  cleanup_observation = some (record o { historical = not (o.attempt == attempt) });
  cleanup_candidates = o.candidates;
  cleanup_deferred = o.deferred;
}

abbrev age_unsupported : ℕ → TargetResult → Option UnsupportedObservation → TargetResult
age_unsupported attempt r none = record r { unsupported_observation = none }
age_unsupported attempt r (some o) = record r {
  unsupported_observation = some (record {
    latest = age_plan attempt o.latest;
    last_complete = age_complete attempt o.last_complete;
  });
  unsupported = o.latest.issues;
}

unfoldable pub merge_observations : TargetResult → TargetResult → ℕ → TargetResult
merge_observations r next attempt =
    let cleanup = cleanup_from attempt next.cleanup_observation r.cleanup_observation in
    let unsupported =
      unsupported_from attempt next.unsupported_observation r.unsupported_observation in
    age_unsupported attempt (age_cleanup attempt (record r { attempts = attempt }) cleanup)
      unsupported

pub record CleanupObservationSummary : Type 0 where
  pub observed_targets : ℕ
  pub estimated_targets : ℕ
  pub historical_targets : ℕ
  pub unknown_targets : ℕ
  pub observed_candidates : ℕ
  pub observed_deferred : ℕ
  pub complete : Bool

abbrev pub classify :
    CleanupObservationSummary → Option CleanupObservation → CleanupObservationSummary
classify s none = record s { unknown_targets = s.unknown_targets + 1 }
classify s (some o) =
    if o.historical
    then record s { historical_targets = s.historical_targets + 1 }
    else if (o.basis == codes "delete_progress") || not o.desired_complete
    then record s { estimated_targets = s.estimated_targets + 1 }
    else record s {
      observed_targets = s.observed_targets + 1;
      observed_candidates = s.observed_candidates + o.candidates;
      observed_deferred = s.observed_deferred + o.deferred;
    }

unfoldable pub add_observation :
    CleanupObservationSummary → TargetResult → CleanupObservationSummary
add_observation s r =
    let s' = classify s r.cleanup_observation in
    record s' { complete = s'.estimated_targets + s'.historical_targets + s'.unknown_targets == 0 }
