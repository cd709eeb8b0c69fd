-- ===== src/Syncer/Target/Safe.antt =====
-- The calls of syncTarget.
use cloudhost_firewall_autou.Common.{ℕ, zero, suc, ◌+◌, refl, Option, none, some, List, []}
use cloudhost_firewall_autou.Strings.{Text}
use cloudhost_firewall_autou.Config.{DomainRule}
use cloudhost_firewall_autou.Syncer.Retry.{GoError, is_retryable}
use cloudhost_firewall_autou.Syncer.Observation.{TargetResult}
use cloudhost_firewall_autou.Syncer.Calls.{Services, World}
use cloudhost_firewall_autou.Syncer.Attempt.{new_result, run_target_attempt}
use cloudhost_firewall_autou.Syncer.Attempt.Sound.{IsSafe, run_target_attempt-Safe, if_elim}
use cloudhost_firewall_autou.Syncer.Target.{
  wait_before, finish, absorb, exhausted, continued, attempts_from, sync_target,
}

module _ {S : Type 0} (svc : Services S) (tag : Text) (rules : List DomainRule) where
  abbrev Safe : World S → Type 0
  Safe w = IsSafe svc tag rules w.calls

  finish-Safe : (r : TargetResult) (w : World S) → Safe w → Safe (finish r w).1
  unfolding finish
  finish-Safe r w h = h

  exhausted-Safe :
      (a res : TargetResult) (e : Option GoError) (w : World S)
      → Safe w
      → Safe (exhausted a res e w).1
  exhausted-Safe a res none w h = finish-Safe _ w h
  exhausted-Safe a res (some e) w h =
      if_elim (λ (x : TargetResult × World S). Safe x.1) e.cleanup _ _ (finish-Safe _ w h)
        (finish-Safe _ w h)

  continued-Safe :
      (next : TargetResult → World S → TargetResult × World S) (a res : TargetResult)
      (e : Option GoError) (w : World S)
      → ((r : TargetResult) (v : World S) → Safe v → Safe (next r v).1)
      → Safe w
      → Safe (continued next a res e w).1
  continued-Safe next a res none w n h = finish-Safe _ w h
  continued-Safe next a res (some e) w n h =
      if_elim (λ (x : TargetResult × World S). Safe x.1) (is_retryable e) _ _ (n res w h)
        (finish-Safe _ w h)

  wait-Safe : (n : ℕ) (w : World S) → Safe w → Safe (wait_before n w)
  wait-Safe zero w h = h
  wait-Safe (suc n) w h = IsSafe.quiet w.calls _ refl h

  attempts_from-Safe :
      (more attempt : ℕ) (res : TargetResult) (w : World S)
      → Safe w
      → Safe (attempts_from svc tag rules more attempt res w).1
  unfolding attempts_from
  attempts_from-Safe zero attempt res w h =
      let ((a, e), w') = run_target_attempt svc tag rules (wait_before attempt w) in
      exhausted-Safe a (absorb res a (attempt + 1)) e w'
        (run_target_attempt-Safe svc tag rules (wait_before attempt w) (wait-Safe attempt w h))
  attempts_from-Safe (suc more) attempt res w h =
      let ((a, e), w') = run_target_attempt svc tag rules (wait_before attempt w) in
      continued-Safe (attempts_from svc tag rules more (attempt + 1)) a (absorb res a (attempt + 1))
        e w' (attempts_from-Safe more (attempt + 1))
        (run_target_attempt-Safe svc tag rules (wait_before attempt w) (wait-Safe attempt w h))

  -- Whatever the provider, the resolver and the breaker do: if each deletion of the log so far is
  -- safe, so is each one after the synchronisation of a target. A deletion is safe if it directly
  -- follows the read of a snapshot on whose ground, with some resolution of the domains, each rule
  -- that it deletes is owned by the tag, is no desired function, can be located, and the plan's
  -- cleanup gate is open (full coverage, nothing unsupported, no DNS error and no conflict).
  pub sync_target-IsSafe :
      (w : World S)
      → IsSafe svc tag rules w.calls
      → IsSafe svc tag rules (sync_target svc tag rules w).1.calls
  unfolding sync_target
  sync_target-IsSafe w h =
      attempts_from-Safe 2 0 (new_result svc tag rules) (record w { dns_failed_hosts = [] }) h
