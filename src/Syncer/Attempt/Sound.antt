-- ===== src/Syncer/Attempt/Sound.antt =====
-- The calls of an attempt: every deletion follows the read of the snapshot that it is based on.
use cloudhost_firewall_autou.Common.{
  nat_eq, list_eq, Bool-cases, Option-cases, inl, inr, ◌≡◌, refl, sym, subst, Bool, true, false,
  Option, none, some, List, [], ◌∷◌, ◌++◌, foldl_inv, if◌then◌else◌, is_empty, select, contains,
  Memᴰ, mem-select,
}
use cloudhost_firewall_autou.Strings.{Text}
use cloudhost_firewall_autou.Config.{DomainRule, RuleInfo, RuleAction}
use cloudhost_firewall_autou.Dns.{ResolvedIp, domain_key}
use cloudhost_firewall_autou.Provider.Types.{RuleSnapshot, TargetPlan, TargetPlanInput}
use cloudhost_firewall_autou.Provider.Plan.{plan_target}
use cloudhost_firewall_autou.Provider.Plan.Stale.{IsStale, IsOpen}
use cloudhost_firewall_autou.Provider.Plan.Safety.{
  HasLocator, deletable_exact, deletable-HasLocator,
}
use cloudhost_firewall_autou.Syncer.Retry.{
  GoError, is_retryable, is_partial_delete, is_version_mismatch, is_idempotent_create,
  is_idempotent_delete,
}
use cloudhost_firewall_autou.Syncer.Observation.{TargetResult}
use cloudhost_firewall_autou.Syncer.Calls.{
  Result, ok, err, seen, Services, World, Call, read, delete, call_read,
}
use cloudhost_firewall_autou.Syncer.Resolve.{
  Resolution, Progress, find_host, report_failure, resolve_new, resolve_rule, resolve_target_rules,
  store,
}
use cloudhost_firewall_autou.Syncer.Attempt

-- What the deletion of a rule on the ground of a snapshot takes.
pub record IsSound (input : TargetPlanInput) (r : RuleInfo) : Type 0 where
  pub stale : IsStale input r
  pub gate_open : IsOpen (plan_target input)
  pub located : HasLocator input.cloud_type input.snapshot.rules r

abbrev pub is_delete : Call → Bool
is_delete (delete s rs) = true
is_delete _ = false

pub if_elim :
    {A : Type 0} (P : A → Type 0) (b : Bool) (x y : A) → P x → P y → P (if b then x else y)
if_elim P true x y p q = p
if_elim P false x y p q = q

module _ {S : Type 0} (svc : Services S) (tag : Text) (rules : List DomainRule) where
  -- A log of calls in which each deletion stands right behind the read of its snapshot, and deletes
  -- only rules that this snapshot shows to be safe to delete.
  pub data IsSafe : List Call → Type 0 where
    start : IsSafe []
    quiet : (cs : List Call) (c : Call) → is_delete c ≡ false → IsSafe cs → IsSafe (cs ++ c ∷ [])
    deletion :
        (cs : List Call) (z : Resolution) (s1 : RuleSnapshot) (rs : List RuleInfo)
        → ((r : RuleInfo) → Memᴰ r rs → IsSound (Attempt.plan_input svc tag rules z s1) r)
        → IsSafe cs
        → IsSafe ((cs ++ read (some s1) ∷ []) ++ delete s1 rs ∷ [])

  abbrev pub Safe : World S → Type 0
  Safe w = IsSafe w.calls

  pub read-Safe : (w : World S) → Safe w → Safe (call_read svc w).1
  read-Safe w h = IsSafe.quiet w.calls _ refl h

  module _ (z : Resolution) where
    verify-Safe :
        (rev : Text) (w : World S)
        → Safe w
        → Safe (Attempt.verify_cleanup_result svc tag rules z rev w).1
    unfolding Attempt.verify_cleanup_result
    verify-Safe rev w h = read-Safe w h

    settle_delete-Safe :
        (s1 : RuleSnapshot) (plan1 : TargetPlan) (c : Attempt.CleanupResult) (e : Option GoError)
        (w : World S)
        → Safe w
        → Safe (Attempt.settle_delete svc tag rules z s1 plan1 c e w).1
    settle_delete-Safe s1 plan1 c none w h = verify-Safe s1.revision w h
    settle_delete-Safe s1 plan1 c (some e) w h =
        let P = λ (x : (Attempt.CleanupResult × Option GoError) × World S). Safe x.1 in
        let v = verify-Safe s1.revision w h in
        if_elim P (is_partial_delete e) _ _ v (
          if_elim P (is_idempotent_delete e) _ _ v
            (if_elim P (is_version_mismatch e) _ _ h (if_elim P (is_retryable e) _ _ h h)))

    delete_all-Safe :
        (cs : List Call) (s1 : RuleSnapshot) (plan1 : TargetPlan) (rs : List RuleInfo) (w : World S)
        → ((r : RuleInfo) → Memᴰ r rs → IsSound (Attempt.plan_input svc tag rules z s1) r)
        → w.calls ≡ cs ++ read (some s1) ∷ []
        → IsSafe cs
        → Safe (Attempt.delete_all svc tag rules z s1 plan1 rs w).1
    delete_all-Safe cs s1 plan1 [] w sound e h = subst IsSafe (sym e) (IsSafe.quiet cs _ refl h)
    delete_all-Safe cs s1 plan1 (r ∷ rs) w sound e h = settle_delete-Safe s1 plan1 _ _ _ (
        subst (λ l. IsSafe (l ++ delete s1 (r ∷ rs) ∷ [])) (sym e)
          (IsSafe.deletion cs z s1 (r ∷ rs) sound h))

    run_target_cleanup-Safe :
        (cs : List Call) (s1 : RuleSnapshot) (w : World S)
        → w.calls ≡ cs ++ read (some s1) ∷ []
        → IsSafe cs
        → Safe
            (Attempt.run_target_cleanup svc tag rules z s1
              (plan_target (Attempt.plan_input svc tag rules z s1))
              w).1
    unfolding Attempt.run_target_cleanup
    run_target_cleanup-Safe cs s1 w e h =
        delete_all-Safe cs s1 (plan_target (Attempt.plan_input svc tag rules z s1)) _ w sound e h
      where
        sound :
            (r : RuleInfo)
            → Memᴰ r (
                select
                  (Attempt.still_deletable tag
                    (plan_target (Attempt.plan_input svc tag rules z s1)))
                  (plan_target (Attempt.plan_input svc tag rules z s1)).cleanup_deletable)
            → IsSound (Attempt.plan_input svc tag rules z s1) r
        sound r m =
            let input = Attempt.plan_input svc tag rules z s1 in
            let allowed =
              ((mem-select (Attempt.still_deletable tag (plan_target input)) _ r).0 m).0 in
            let (stale, gate_open, _) = (deletable_exact input r).0 allowed in
            record {
              stale = stale;
              gate_open = gate_open;
              located = deletable-HasLocator input r allowed;
            }

    with_s1-Safe :
        (cs : List Call) (res : TargetResult) (r : Result RuleSnapshot) (w : World S)
        → w.calls ≡ cs ++ read (seen r) ∷ []
        → IsSafe cs
        → Safe (Attempt.with_s1 svc tag rules z res r w).1
    unfolding Attempt.with_plan1
    with_s1-Safe cs res (err x) w e h = subst IsSafe (sym e) (IsSafe.quiet cs _ refl h)
    with_s1-Safe cs res (ok s1) w e h =
        let kept = subst IsSafe (sym e) (IsSafe.quiet cs (read (some s1)) refl h) in
        let plan1 = plan_target (Attempt.plan_input svc tag rules z s1) in
        elim (Bool-cases (is_empty plan1.to_add)) [
          | inr missing ↦ rw missing kept
          | inl covered ↦ elim (Bool-cases (is_empty plan1.dns_errors)) [
            | inr failed ↦ rw (covered, failed) kept
            | inl resolved ↦ rw (covered, resolved) (run_target_cleanup-Safe cs s1 w e h)
          ]
        ]

    read_s1-Safe :
        (res : TargetResult) (w : World S) → Safe w → Safe (Attempt.read_s1 svc tag rules z res w).1
    unfolding Attempt.read_s1
    read_s1-Safe res w h = with_s1-Safe w.calls res _ _ refl h

    created-Safe :
        (res : TargetResult) (e : Option GoError) (w : World S)
        → Safe w
        → Safe (Attempt.created svc tag rules z res e w).1
    created-Safe res none w h = read_s1-Safe res w h
    created-Safe res (some e) w h =
        if_elim (λ (x : (TargetResult × Option GoError) × World S). Safe x.1)
          (is_idempotent_create e) _ _ (read_s1-Safe res w h) h

    add_missing-Safe :
        (res : TargetResult) (s0 : RuleSnapshot) (actions : List RuleAction) (w : World S)
        → Safe w
        → Safe (Attempt.add_missing svc tag rules z res s0 actions w).1
    add_missing-Safe res s0 [] w h = read_s1-Safe res w h
    add_missing-Safe res s0 (a ∷ more) w h = created-Safe _ _ _ (IsSafe.quiet w.calls _ refl h)

    with_s0-Safe :
        (res : TargetResult) (r : Result RuleSnapshot) (w : World S)
        → Safe w
        → Safe (Attempt.with_s0 svc tag rules z res r w).1
    with_s0-Safe res (err e) w h = h
    with_s0-Safe res (ok s0) w h = add_missing-Safe _ s0 _ w h

  report_failure-Safe :
      (report : Bool) (host : Text) (e : GoError) (w : World S)
      → Safe w
      → Safe (report_failure report host e w)
  unfolding report_failure
  report_failure-Safe report host e w h =
      if_elim Safe report _ _ (if_elim Safe (contains w.dns_failed_hosts (domain_key host)) _ _ h h)
        h

  store-Safe :
      (rule : DomainRule) (r : Result (List ResolvedIp)) (p : Progress S)
      → Safe p.world
      → Safe (store svc true rule r p).world
  store-Safe rule (ok ips) p h = h
  store-Safe rule (err e) p h = report_failure-Safe true rule.host e p.world h

  resolve_rule-Safe :
      (p : Progress S) (rule : DomainRule)
      → Safe p.world
      → Safe (resolve_rule svc true p rule).world
  unfolding resolve_rule resolve_new
  resolve_rule-Safe p rule h = elim (Option-cases (find_host p.cache (domain_key rule.host))) [
    | inl fresh ↦ rw fresh (store-Safe rule _ _ h)
    | inr (r, cached) ↦ rw cached (store-Safe rule r p h)
  ]

  -- Resolving makes no call of the provider.
  resolve-Safe : (w : World S) → Safe w → Safe (resolve_target_rules svc true rules w).1
  unfolding resolve_target_rules
  resolve-Safe w h =
      foldl_inv (λ (p : Progress S). Safe p.world) (resolve_rule svc true) resolve_rule-Safe rules _
        h

  -- An attempt extends a safe log of calls to a safe one.
  pub run_target_attempt-Safe :
      (w : World S) → Safe w → Safe (Attempt.run_target_attempt svc tag rules w).1
  unfolding Attempt.run_target_attempt
  run_target_attempt-Safe w h =
      with_s0-Safe _ _ _ _ (read-Safe (resolve_target_rules svc true rules w).1 (resolve-Safe w h))
