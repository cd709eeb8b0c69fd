-- ===== src/Syncer/DryRun/Reads.antt =====
-- A dry run reads one snapshot for each target with rules, and writes nothing.
use cloudhost_firewall_autou.Common.{
  ℕ, suc, ◌+◌, ◌≡◌, refl, ◌∙◌, subst, false, Option, none, some, List, [], ◌∷◌, ◌++◌, foldl_inv,
  Bool-cases, inl, inr, arith, select,
}
use cloudhost_firewall_autou.Strings.{Text}
use cloudhost_firewall_autou.Config.{DomainRule}
use cloudhost_firewall_autou.Provider.Types.{RuleSnapshot}
use cloudhost_firewall_autou.Syncer.Calls.{Result, ok, err, Services, World, read, seen}
use cloudhost_firewall_autou.Syncer.Resolve.{
  Progress, empty_resolution, find_host, report_failure, resolve_new, resolve_rule,
  resolve_target_rules, store, look_up,
}
use cloudhost_firewall_autou.Syncer.Round
use cloudhost_firewall_autou.Syncer.DryRun

-- Nothing is written: the second world has the calls of the first, then so many reads, and its events.
pub data Reads {S : Type 0} (w : World S) : ℕ → World S → Type 0 where
  read_nothing : {w' : World S} → w'.calls ≡ w.calls → w'.events ≡ w.events → Reads w 0 w'
  read_one :
      {n : ℕ} {w' w'' : World S} (s : Option RuleSnapshot)
      → Reads w n w'
      → w''.calls ≡ w'.calls ++ read s ∷ []
      → w''.events ≡ w'.events
      → Reads w (suc n) w''

module _ {S : Type 0} where
  abbrev Quiet : World S → World S → Type 0
  Quiet w w' = (w'.calls ≡ w.calls) × (w'.events ≡ w.events)

  stored-Quiet :
      (svc : Services S) (w : World S) (rule : DomainRule) (r : Result _) (p : Progress S)
      → Quiet w p.world
      → Quiet w (store svc false rule r p).world
  unfolding report_failure
  stored-Quiet svc w rule (ok ips) p h = h
  stored-Quiet svc w rule (err e) p h = h

  rule-Quiet :
      (svc : Services S) (w : World S) (p : Progress S) (rule : DomainRule)
      → Quiet w p.world
      → Quiet w (resolve_rule svc false p rule).world
  unfolding resolve_rule resolve_new
  rule-Quiet svc w p rule h = by_cache (find_host p.cache _)
    where
      by_cache :
          (o : Option (Result _))
          → Quiet w
              (store svc false rule
                (look_up svc false o rule p).0
                (look_up svc false o rule p).1).world
      by_cache none = stored-Quiet svc w rule _ _ h
      by_cache (some r) = stored-Quiet svc w rule r p h

  resolve-Quiet :
      (svc : Services S) (rules : List DomainRule) (w : World S)
      → Quiet w (resolve_target_rules svc false rules w).1
  unfolding resolve_target_rules
  resolve-Quiet svc rules w =
      foldl_inv (λ p. Quiet w p.world) (resolve_rule svc false) (rule-Quiet svc w) rules
        (record { cache = []; resolution = empty_resolution; world = w }) (refl, refl)

  Reads-Quiet : {n : ℕ} {w w' w'' : World S} → Reads w n w' → Quiet w' w'' → Reads w n w''
  Reads-Quiet (read_nothing c e) (c', e') = read_nothing (c' ∙ c) (e' ∙ e)
  Reads-Quiet (read_one s r c e) (c', e') = read_one s r (c' ∙ c) (e' ∙ e)

  module _ (tag : Text) (rules : List DomainRule) where
    target-Reads :
        {n : ℕ} {w w' : World S} (p : Services S)
        → Reads w n w'
        → Reads w (suc n) (DryRun.dry_run_target tag rules p w').1
    unfolding DryRun.dry_run_target
    target-Reads {w'} p r =
        let applicable = Round.filter_rules_for_target rules p.target_index in
        let after = (resolve_target_rules p false applicable w').1 in
        read_one (seen (p.get_snapshot after.state).0)
          (Reads-Quiet {w'' = after} r (resolve-Quiet p applicable w')) refl refl

    targets-Reads :
        (ps : List (Services S)) (n : ℕ) (w w' : World S)
        → Reads w n w'
        → Reads w (n + Round.count_units rules ps) (DryRun.dry_run_targets tag rules ps w').1
    unfolding DryRun.dry_run_targets Round.count_units select
    targets-Reads [] n w w' r = subst (λ m. Reads w m w') (omega arith) r
    targets-Reads (p ∷ ps) n w w' r = elim (Bool-cases (Round.has_rules rules p)) [
      | inl some_rules ↦
          let rest = targets-Reads ps (suc n) w _ (target-Reads p r) in
          rw some_rules (
            subst
              (λ m.
                Reads w m
                  (DryRun.dry_run_targets tag rules ps (DryRun.dry_run_target tag rules p w').1).1)
              (omega arith) rest)
      | inr no_rules ↦ rw no_rules (targets-Reads ps n w w' r)
    ]

    -- A dry run makes no call that changes the cloud and publishes no event: beside resolving
    -- domains it reads one snapshot for each target that has rules.
    pub dry_run-Reads :
        (ps : List (Services S)) (w : World S)
        → Reads w (Round.count_units rules ps) (DryRun.dry_run tag rules ps w).1
    unfolding DryRun.dry_run
    dry_run-Reads ps w =
        subst (λ m. Reads w m (DryRun.dry_run_targets tag rules ps w).1) (omega arith)
          (targets-Reads ps 0 w w (read_nothing refl refl))
