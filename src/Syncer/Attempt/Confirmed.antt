-- ===== src/Syncer/Attempt/Confirmed.antt =====
-- What an attempt without an error has confirmed.
use mathlib.Core.List.Memᴰ
use cloudhost_firewall_autou.Common.{
  ◌+◌, ◌≡◌, refl, ap, true, Option, none, some, List, [], ◌∷◌, is_none, is_empty, select, Memᴰ,
  false≢true, Bool-cases, inl, inr,
}
use cloudhost_firewall_autou.Strings.{Text}
use cloudhost_firewall_autou.Config.{DomainRule, RuleInfo, RuleAction}
use cloudhost_firewall_autou.Provider.Types.{RuleSnapshot, TargetPlan}
use cloudhost_firewall_autou.Provider.Plan.{plan_target}
use cloudhost_firewall_autou.Syncer.Retry.{
  GoError, is_retryable, is_partial_delete, is_version_mismatch, is_idempotent_create,
  is_idempotent_delete,
}
use cloudhost_firewall_autou.Syncer.Observation.{TargetOutcome, TargetResult}
use cloudhost_firewall_autou.Syncer.Calls.{
  Result, ok, err, seen, Services, World, Call, read, call_read, call_create,
}
use cloudhost_firewall_autou.Syncer.Resolve.{Resolution, resolve_target_rules}
use cloudhost_firewall_autou.Syncer.Attempt
use cloudhost_firewall_autou.Syncer.Attempt.Sound.{if_elim}

not_none : {A : Type 0} {a : A} {B : Type 0} → some a ≡ none → B
not_none h = absurd (false≢true (ap is_none h))

module _ {S : Type 0} (svc : Services S) (tag : Text) (rules : List DomainRule)
    (z : Resolution) where
  abbrev plan_on : RuleSnapshot → TargetPlan
  plan_on s = plan_target (Attempt.plan_input svc tag rules z s)

  -- A snapshot that was read shows that nothing is missing and no domain failed, and the outcome
  -- says whether the platform can express everything.
  pub record IsConfirmed (calls : List Call) (outcome : TargetOutcome) : Type 0 where
    pub s1 : RuleSnapshot
    pub was_read : Memᴰ (read (some s1)) calls
    pub covered : is_empty (plan_target (Attempt.plan_input svc tag rules z s1)).to_add ≡ true
    pub resolved : is_empty (plan_target (Attempt.plan_input svc tag rules z s1)).dns_errors ≡ true
    pub is_outcome :
        outcome
        ≡ Attempt.outcome_of svc tag rules z (plan_target (Attempt.plan_input svc tag rules z s1))

  abbrev Logged : Call → World S → Type 0
  Logged c w = Memᴰ c w.calls

  verify-Logged :
      (c : Call) (rev : Text) (w : World S)
      → Logged c w
      → Logged c (Attempt.verify_cleanup_result svc tag rules z rev w).1
  unfolding Attempt.verify_cleanup_result
  verify-Logged c rev w m = Memᴰ.append_left _ m

  settle_delete-Logged :
      (c : Call) (s1 : RuleSnapshot) (plan1 : TargetPlan) (r : Attempt.CleanupResult)
      (e : Option GoError) (w : World S)
      → Logged c w
      → Logged c (Attempt.settle_delete svc tag rules z s1 plan1 r e w).1
  settle_delete-Logged c s1 plan1 r none w m = verify-Logged c s1.revision w m
  settle_delete-Logged c s1 plan1 r (some e) w m =
      let P = λ (x : (Attempt.CleanupResult × Option GoError) × World S). Logged c x.1 in
      let v = verify-Logged c s1.revision w m in
      if_elim P (is_partial_delete e) _ _ v (
        if_elim P (is_idempotent_delete e) _ _ v
          (if_elim P (is_version_mismatch e) _ _ m (if_elim P (is_retryable e) _ _ m m)))

  delete_all-Logged :
      (c : Call) (s1 : RuleSnapshot) (plan1 : TargetPlan) (rs : List RuleInfo) (w : World S)
      → Logged c w
      → Logged c (Attempt.delete_all svc tag rules z s1 plan1 rs w).1
  delete_all-Logged c s1 plan1 [] w m = m
  delete_all-Logged c s1 plan1 (r ∷ rs) w m =
      settle_delete-Logged c s1 plan1 _ _ _ (Memᴰ.append_left _ m)

  cleanup-Logged :
      (c : Call) (s1 : RuleSnapshot) (plan1 : TargetPlan) (w : World S)
      → Logged c w
      → Logged c (Attempt.run_target_cleanup svc tag rules z s1 plan1 w).1
  unfolding Attempt.run_target_cleanup
  cleanup-Logged c s1 plan1 w m =
      delete_all-Logged c s1 plan1
        (select (Attempt.still_deletable tag plan1) plan1.cleanup_deletable) w m

  abbrev Confirms : Attempt.Reported svc tag rules → Type 0
  Confirms x = x.0.1 ≡ none → IsConfirmed x.1.calls x.0.0.outcome

  with_s1-Confirms :
      (res : TargetResult) (r : Result RuleSnapshot) (w : World S)
      → Logged (read (seen r)) w
      → Confirms (Attempt.with_s1 svc tag rules z res r w)
  unfolding Attempt.with_plan1 Attempt.add_cleanup
  with_s1-Confirms res (err x) w m = not_none
  with_s1-Confirms res (ok s1) w m = elim (Bool-cases (is_empty (plan_on s1).to_add)) [
    | inr missing ↦ rw missing not_none
    | inl covered ↦ elim (Bool-cases (is_empty (plan_on s1).dns_errors)) [
      | inr failed ↦ rw (covered, failed) not_none
      | inl resolved ↦
          rw (covered, resolved)
            (λ h. record {
              s1 = s1;
              was_read = cleanup-Logged (read (some s1)) s1 (plan_on s1) w m;
              covered = covered;
              resolved = resolved;
              is_outcome = refl;
            })
    ]
  ]

  read_s1-Confirms :
      (res : TargetResult) (w : World S) → Confirms (Attempt.read_s1 svc tag rules z res w)
  unfolding Attempt.read_s1
  read_s1-Confirms res w =
      let (r, w') = call_read svc w in
      with_s1-Confirms res r w' (Memᴰ.append_right w.calls (Memᴰ.head refl))

  created-Confirms :
      (res : TargetResult) (e : Option GoError) (w : World S)
      → Confirms (Attempt.created svc tag rules z res e w)
  created-Confirms res none w = read_s1-Confirms res w
  created-Confirms res (some e) w = elim (Bool-cases (is_idempotent_create e)) [
    | inl again ↦ rw again (read_s1-Confirms res w)
    | inr failed ↦ rw failed not_none
  ]

  add_missing-Confirms :
      (res : TargetResult) (s0 : RuleSnapshot) (actions : List RuleAction) (w : World S)
      → Confirms (Attempt.add_missing svc tag rules z res s0 actions w)
  add_missing-Confirms res s0 [] w = read_s1-Confirms res w
  add_missing-Confirms res s0 (a ∷ more) w =
      let ((c, e), w') = call_create svc s0 (a ∷ more) w in
      created-Confirms (record res { added = res.added + c.written }) e w'

  with_s0-Confirms :
      (res : TargetResult) (r : Result RuleSnapshot) (w : World S)
      → Confirms (Attempt.with_s0 svc tag rules z res r w)
  with_s0-Confirms res (err e) w = not_none
  with_s0-Confirms res (ok s0) w =
      add_missing-Confirms
        (Attempt.observe_unsupported res (plan_on s0).unsupported (Attempt.codes "s0")
          (Attempt.complete svc tag rules z))
        s0 (plan_on s0).to_add w

module _ {S : Type 0} (svc : Services S) (tag : Text) (rules : List DomainRule) where
  -- An attempt that reports no error has read a snapshot on which, with the addresses that this
  -- attempt resolved, nothing is left to add and no domain failed; it is a success if that plan
  -- finds nothing unsupported, and else partial.
  pub run_target_attempt-IsConfirmed :
      (w : World S)
      → (Attempt.run_target_attempt svc tag rules w).0.1 ≡ none
      → IsConfirmed svc tag rules
          (resolve_target_rules svc true rules w).0
          (Attempt.run_target_attempt svc tag rules w).1.calls
          (Attempt.run_target_attempt svc tag rules w).0.0.outcome
  unfolding Attempt.run_target_attempt
  run_target_attempt-IsConfirmed w =
      let (z, w1) = resolve_target_rules svc true rules w in
      let (r, w2) = call_read svc w1 in
      with_s0-Confirms svc tag rules z (Attempt.new_result svc tag rules) r w2
