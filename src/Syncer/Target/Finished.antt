-- ===== src/Syncer/Target/Finished.antt =====
-- How syncTarget ends: the number of its attempts and the event of its result.
use cloudhost_firewall_autou.Common.{
  ℕ, zero, suc, ◌+◌, ◌≤◌, ◌≡◌, refl, ap, subst, Option, none, some, List, [], ◌∷◌, ◌++◌, arith,
}
use cloudhost_firewall_autou.Strings.{Text}
use cloudhost_firewall_autou.Config.{DomainRule}
use cloudhost_firewall_autou.Syncer.Retry.{GoError, is_retryable}
use cloudhost_firewall_autou.Syncer.Observation.{target_failed, TargetResult}
use cloudhost_firewall_autou.Syncer.Observation.Merged.{core-merge_observations}
use cloudhost_firewall_autou.Syncer.Calls.{Services, World, Event}
use cloudhost_firewall_autou.Syncer.Attempt.{new_result, run_target_attempt}
use cloudhost_firewall_autou.Syncer.Attempt.Sound.{if_elim}
use cloudhost_firewall_autou.Syncer.Target.{
  wait_before, finish, fail_with, absorb, exhausted, continued, attempts_from, sync_target,
  result_event,
}

-- An end after at least `low` and at most `high` attempts, whose last event tells the result.
pub record IsFinished {S : Type 0} (low high : ℕ) (x : TargetResult × World S) : Type 0 where
  pub at_least : low ≤ x.0.attempts
  pub at_most : x.0.attempts ≤ high
  pub earlier : List Event
  pub told : x.1.events ≡ earlier ++ result_event x.0.outcome x.0 ∷ []

attempts-absorb : (res a : TargetResult) (n : ℕ) → (absorb res a n).attempts ≡ n
unfolding absorb
attempts-absorb res a n =
    ap (λ c. c.0)
      (core-merge_observations
        (record res { added = res.added + a.added; deleted = res.deleted + a.deleted }) a n)

abbrev InRange : ℕ → ℕ → TargetResult → Type 0
InRange low high r = (low ≤ r.attempts) × (r.attempts ≤ high)

module _ {S : Type 0} (low high : ℕ) where
  finish-IsFinished :
      (r : TargetResult) (w : World S) → InRange low high r → IsFinished low high (finish r w)
  unfolding finish
  finish-IsFinished r w h = record {
    at_least = h.0;
    at_most = h.1;
    earlier = w.events;
    told = refl;
  }

  exhausted-IsFinished :
      (a res : TargetResult) (e : Option GoError) (w : World S)
      → InRange low high res
      → IsFinished low high (exhausted a res e w)
  exhausted-IsFinished a res none w h = finish-IsFinished (record res { outcome = a.outcome }) w h
  exhausted-IsFinished a res (some e) w h =
      if_elim (λ (x : TargetResult × World S). IsFinished low high x) e.cleanup
        (finish (record res { outcome = a.outcome; err = none }) w) (fail_with e res w)
        (finish-IsFinished (record res { outcome = a.outcome; err = none }) w h)
        (finish-IsFinished (record res { outcome = target_failed; err = some e }) w h)

  continued-IsFinished :
      (next : TargetResult → World S → TargetResult × World S) (a res : TargetResult)
      (e : Option GoError) (w : World S)
      → ((r : TargetResult) (v : World S) → IsFinished low high (next r v))
      → InRange low high res
      → IsFinished low high (continued next a res e w)
  continued-IsFinished next a res none w n h =
      finish-IsFinished (record res { outcome = a.outcome }) w h
  continued-IsFinished next a res (some e) w n h =
      if_elim (λ (x : TargetResult × World S). IsFinished low high x) (is_retryable e) (next res w)
        (fail_with e res w) (n res w)
        (finish-IsFinished (record res { outcome = target_failed; err = some e }) w h)

module _ {S : Type 0} (svc : Services S) (tag : Text) (rules : List DomainRule) where
  attempts_from-IsFinished :
      (low more attempt : ℕ) (res : TargetResult) (w : World S)
      → low ≤ attempt + 1
      → IsFinished low (attempt + 1 + more) (attempts_from svc tag rules more attempt res w)
  unfolding attempts_from
  attempts_from-IsFinished low zero attempt res w h =
      let ((a, e), w') = run_target_attempt svc tag rules (wait_before attempt w) in
      let n = attempts-absorb res a (attempt + 1) in
      exhausted-IsFinished low (attempt + 1 + 0) a (absorb res a (attempt + 1)) e w'
        (ground arith, ground arith)
  attempts_from-IsFinished low (suc more) attempt res w h =
      let ((a, e), w') = run_target_attempt svc tag rules (wait_before attempt w) in
      let n = attempts-absorb res a (attempt + 1) in
      continued-IsFinished low (attempt + 1 + suc more)
        (attempts_from svc tag rules more (attempt + 1)) a (absorb res a (attempt + 1)) e w'
        (λ r v.
          subst (λ high. IsFinished low high (attempts_from svc tag rules more (attempt + 1) r v))
            (omega arith) (attempts_from-IsFinished low more (attempt + 1) r v (omega arith)))
        (ground arith, ground arith)

  -- The synchronisation of a target ends, whatever its calls answer, after at least one and at most
  -- three attempts, and the last event that it publishes is the one of the returned result.
  pub sync_target-IsFinished : (w : World S) → IsFinished 1 3 (sync_target svc tag rules w)
  unfolding sync_target
  sync_target-IsFinished w =
      attempts_from-IsFinished 1 2 0 (new_result svc tag rules) (record w { dns_failed_hosts = [] })
        (omega arith)
