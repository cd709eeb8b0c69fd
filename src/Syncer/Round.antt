-- ===== src/Syncer/Round.antt =====
-- syncer/syncer.go and ratelimit.go: one round. `runRound` lets the groups of the clouds run at the
-- same time; here they run one after the other, in some order. Every counter is an atomic.Int32,
-- kept as its 32 bits. Times are left out.
pub mod Order
pub mod Units
pub mod Summary
use cloudhost_firewall_autou.Common.{
  ℕ, ◌+◌, ◌-◌, ◌%◌, ◌^◌, Bool, true, false, not, ◌||◌, List, [], ◌∷◌, ◌++◌, foldl, length, is_empty,
  select, any, ltb, ◌==◌, nat_eq, list_eq, if◌then◌else◌,
}
use cloudhost_firewall_autou.Strings.{Text}
use cloudhost_firewall_autou.Strconv.{ℤ, pos, negsuc}
use cloudhost_firewall_autou.Config.{CloudType, tc_lighthouse, ali_swas, DomainRule}
use cloudhost_firewall_autou.Config.Validate.{cloud_text}
use cloudhost_firewall_autou.Syncer.Observation.{
  TargetOutcome, target_failed, target_partial, target_success, TargetResult,
  CleanupObservationSummary, add_observation,
}
use cloudhost_firewall_autou.Syncer.Observation.Counted.{empty_summary}
use cloudhost_firewall_autou.Syncer.Calls.{Services, World}
use cloudhost_firewall_autou.Syncer.Target.{sync_target}

-- The pause between two targets of a platform, in milliseconds.
unfoldable pub rate_limit_interval : CloudType → ℕ
rate_limit_interval ali_swas = 5000
rate_limit_interval tc_lighthouse = 5000
rate_limit_interval _ = 200

-- No target in a rule stands for all targets.
abbrev pub applies_to : ℕ → DomainRule → Bool
applies_to target r = is_empty r.targets || any (λ t. t == target) r.targets

unfoldable pub filter_rules_for_target : List DomainRule → ℕ → List DomainRule
filter_rules_for_target rules target = select (applies_to target) rules

pub data RoundOutcome : Type 0 where
  round_success round_failed round_partial round_idle : RoundOutcome

abbrev pub add32 : ℕ → ℕ → ℕ
add32 a b = (a + b) % 2 ^ 32

-- The bits as a signed number.
abbrev pub load32 : ℕ → ℤ
load32 n = if ltb n (2 ^ 31) then pos n else negsuc (2 ^ 32 - n - 1)

pub record RoundCounters : Type 0 where
  pub ok : ℕ
  pub changed : ℕ
  pub failed : ℕ
  pub skipped : ℕ
  pub added : ℕ
  pub deleted : ℕ
  pub cleanup_candidates : ℕ
  pub cleanup_deleted : ℕ
  pub cleanup_deferred : ℕ
  pub observations : CleanupObservationSummary

abbrev pub no_counts : RoundCounters
no_counts = record {
  ok = 0;
  changed = 0;
  failed = 0;
  skipped = 0;
  added = 0;
  deleted = 0;
  cleanup_candidates = 0;
  cleanup_deleted = 0;
  cleanup_deferred = 0;
  observations = empty_summary;
}

-- The four classes of a result.
unfoldable pub class_result : RoundCounters → TargetResult → TargetOutcome → RoundCounters
class_result c r target_failed = record c { failed = add32 c.failed 1 }
class_result c r target_partial = record c { skipped = add32 c.skipped 1 }
class_result c r target_success =
    if ltb 0 r.added || ltb 0 r.deleted
    then record c { changed = add32 c.changed 1 }
    else record c { ok = add32 c.ok 1 }

-- What the end of a target does to the counters.
unfoldable pub count_result : RoundCounters → TargetResult → RoundCounters
count_result c r = record (class_result c r r.outcome) {
  added = add32 c.added r.added;
  deleted = add32 c.deleted r.deleted;
  cleanup_candidates = add32 c.cleanup_candidates r.cleanup_candidates;
  cleanup_deleted = add32 c.cleanup_deleted r.cleanup_deleted;
  cleanup_deferred = add32 c.cleanup_deferred r.cleanup_deferred;
  observations = add_observation c.observations r;
}

pub record RoundSummary : Type 0 where
  pub total : ℕ
  pub ok : ℤ
  pub changed : ℤ
  pub failed : ℤ
  pub skipped : ℤ
  pub added : ℤ
  pub deleted : ℤ
  pub observations : CleanupObservationSummary
  pub cleanup_candidates : ℤ
  pub cleanup_deleted : ℤ
  pub cleanup_deferred : ℤ

unfoldable pub summary_of : ℕ → RoundCounters → RoundSummary
summary_of total c = record {
  total = total;
  ok = load32 c.ok;
  changed = load32 c.changed;
  failed = load32 c.failed;
  skipped = load32 c.skipped;
  added = load32 c.added;
  deleted = load32 c.deleted;
  observations = c.observations;
  cleanup_candidates = load32 c.cleanup_candidates;
  cleanup_deleted = load32 c.cleanup_deleted;
  cleanup_deferred = load32 c.cleanup_deferred;
}

abbrev pub is_positive : ℤ → Bool
is_positive (pos n) = ltb 0 n
is_positive (negsuc n) = false

unfoldable pub outcome_of : RoundSummary → RoundOutcome
outcome_of s =
    if s.total == 0
    then round_idle
    else if is_positive s.failed
    then round_failed
    else if is_positive s.skipped
    then round_partial
    else round_success

abbrev pub Group : Type 0 → Type 0
Group S = Text × List (Services S)

module _ {S : Type 0} where
  -- One step of the loop of groupByCloud. The key is the cloud type's string.
  unfoldable pub add_to_group : List (Group S) → Services S → List (Group S)
  add_to_group [] p = (cloud_text p.cloud_type, p ∷ []) ∷ []
  add_to_group ((ct, ps) ∷ gs) p =
      let rest = add_to_group gs p in
      if ct == cloud_text p.cloud_type then (ct, ps ++ p ∷ []) ∷ gs else (ct, ps) ∷ rest

  unfoldable pub group_by_cloud : List (Services S) → List (Group S)
  group_by_cloud ps = foldl add_to_group [] ps

  abbrev pub has_rules : List DomainRule → Services S → Bool
  has_rules rules p = not (is_empty (filter_rules_for_target rules p.target_index))

  -- The units that syncAll counts before the round.
  unfoldable pub count_units : List DomainRule → List (Services S) → ℕ
  count_units rules ps = length (select (has_rules rules) ps)

  module _ (tag : Text) (rules : List DomainRule) where
    -- The loop of a group, with the counters and the world of the round.
    unfoldable pub run_group : List (Services S) → RoundCounters × World S → RoundCounters × World S
    run_group [] state = state
    run_group (p ∷ ps) (c, w) =
        let (r, w') = sync_target p tag (filter_rules_for_target rules p.target_index) w in
        run_group ps (if has_rules rules p then (count_result c r, w') else (c, w))

    unfoldable pub run_groups : List (Group S) → RoundCounters × World S → RoundCounters × World S
    run_groups [] state = state
    run_groups ((ct, ps) ∷ gs) state = run_groups gs (run_group ps state)

    unfoldable pub run_round : List (Services S) → World S → RoundSummary × World S
    run_round ps w =
        let (c, w') = run_groups (group_by_cloud ps) (no_counts, w) in
        (summary_of (count_units rules ps) c, w')
