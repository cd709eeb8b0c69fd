-- ===== src/Syncer/Target.antt =====
-- syncer/target.go: the loop of attempts of syncTarget, over Syncer/Attempt. `maxRetries` is 3; the
-- delays are in milliseconds; the measured times are left out.
pub mod Safe
pub mod Finished
use cloudhost_firewall_autou.Common.{
  ℕ, zero, suc, ◌+◌, ◌-◌, ◌*◌, Bool, true, false, Option, none, some, List, [], ◌∷◌, if◌then◌else◌,
  ltb,
}
use cloudhost_firewall_autou.Strings.{Text}
use cloudhost_firewall_autou.Config.{DomainRule}
use cloudhost_firewall_autou.Syncer.Retry.{GoError, is_retryable}
use cloudhost_firewall_autou.Syncer.Observation.{
  TargetOutcome, target_failed, target_success, target_partial, TargetResult, merge_observations,
}
use cloudhost_firewall_autou.Syncer.Calls.{
  Services, World, Event, sync_error, target_sync_complete, call_sleep, publish,
}
use cloudhost_firewall_autou.Syncer.Attempt.{new_result, run_target_attempt}

-- 1 << n
abbrev doubled : ℕ → ℕ
doubled zero = 1
doubled (suc n) = 2 * doubled n

-- The delay of attempt n + 1 after the first, of 1 << n seconds.
abbrev pub backoff : ℕ → ℕ
backoff n = doubled n * 1000

abbrev pub wait_before : {S : Type 0} → ℕ → World S → World S
wait_before zero w = w
wait_before (suc n) w = call_sleep (backoff n) w

abbrev pub result_event : TargetOutcome → TargetResult → Event
result_event target_failed r = sync_error r
result_event _ r = target_sync_complete r

unfoldable pub finish : {S : Type 0} → TargetResult → World S → TargetResult × World S
finish r w = (r, publish (result_event r.outcome r) w)

-- What an attempt adds to the result of the target.
unfoldable pub absorb : TargetResult → TargetResult → ℕ → TargetResult
absorb res a attempt =
    let merged =
      merge_observations
        (record res { added = res.added + a.added; deleted = res.deleted + a.deleted }) a attempt in
    record merged { cleanup_deleted = merged.cleanup_deleted + a.cleanup_deleted }

abbrev pub fail_with : {S : Type 0} → GoError → TargetResult → World S → TargetResult × World S
fail_with e res w = finish (record res { outcome = target_failed; err = some e }) w

-- The end of the last attempt. `a` is what the attempt itself reported.
abbrev pub exhausted :
    {S : Type 0} → TargetResult → TargetResult → Option GoError → World S → TargetResult × World S
exhausted a res none w = finish (record res { outcome = a.outcome }) w
exhausted a res (some e) w =
    if e.cleanup
    then finish (record res { outcome = a.outcome; err = none }) w
    else fail_with e res w

-- The end of an earlier attempt, with the rest of the loop.
abbrev pub continued :
    {S : Type 0}
    → (TargetResult → World S → TargetResult × World S)
    → TargetResult
    → TargetResult
    → Option GoError
    → World S
    → TargetResult × World S
continued next a res none w = finish (record res { outcome = a.outcome }) w
continued next a res (some e) w = if is_retryable e then next res w else fail_with e res w

module _ {S : Type 0} (svc : Services S) (tag : Text) (rules : List DomainRule) where
  -- The attempts from number `attempt`, with so many more to follow it.
  unfoldable pub attempts_from : ℕ → ℕ → TargetResult → World S → TargetResult × World S
  attempts_from zero attempt res w =
      let ((a, e), w') = run_target_attempt svc tag rules (wait_before attempt w) in
      exhausted a (absorb res a (attempt + 1)) e w'
  attempts_from (suc more) attempt res w =
      let ((a, e), w') = run_target_attempt svc tag rules (wait_before attempt w) in
      continued (attempts_from more (attempt + 1)) a (absorb res a (attempt + 1)) e w'

  unfoldable pub sync_target : World S → TargetResult × World S
  sync_target w = attempts_from 2 0 (new_result svc tag rules) (record w { dns_failed_hosts = [] })
