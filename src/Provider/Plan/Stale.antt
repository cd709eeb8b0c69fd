-- ===== src/Provider/Plan/Stale.antt =====
-- The cleanup candidates of PlanTarget, and the gate before their deletion.
use cloudhost_firewall_autou.Common.{
  or_empty, Option-cases, ◌≡◌, ◌≢◌, ◌↔◌, refl, sym, ap, ◌∙◌, subst, true, false, List, [], ◌∷◌,
  is_empty, arith, Memᴰ, false≢true, any, contains, mem→contains, contains→mem, any-eq_false,
  mem_of_any, mem-select, mem-map, map-mem, Bool-cases, inl, inr,
}
use cloudhost_firewall_autou.Strings.{Text}
use cloudhost_firewall_autou.Tag
use cloudhost_firewall_autou.Config.{RuleInfo}
use cloudhost_firewall_autou.Provider.Types.{key_eq, PlannedRule, TargetPlan, TargetPlanInput}
use cloudhost_firewall_autou.Provider.Desired.{desired_draft, desired_rules}
use cloudhost_firewall_autou.Provider.Keys.{snapshot_rule_keys}
use cloudhost_firewall_autou.Provider.Snapshot.{Entry, index_snapshot}
use cloudhost_firewall_autou.Provider.Snapshot.Indexed.{
  keys_of, is_judged, entry_of, entries-index_snapshot,
}
use cloudhost_firewall_autou.Provider.Cleanup.{is_candidate, cleanup_entries, desired_keys}
use cloudhost_firewall_autou.Provider.Cleanup.Settled.{gate-eq_nil, gate_open, sort_issues-eq_nil}
use cloudhost_firewall_autou.Provider.Plan.{
  plan_target, snapshot_index, candidates, gate, is_ready, conflicts,
}

-- A snapshot rule of the namespace that can be judged and has no desired function.
pub record IsStale (input : TargetPlanInput) (r : RuleInfo) : Type 0 where
  pub in_snapshot : Memᴰ r input.snapshot.rules
  pub owned : Tag.is_owned r.description input.tag ≡ true
  pub judged : keys_of r ≢ []
  pub undesired :
      (d : PlannedRule) → Memᴰ d (plan_target input).desired → Memᴰ d.key (keys_of r) → ⊥

-- What the cleanup gate asks of a plan.
pub record IsOpen (plan : TargetPlan) : Type 0 where
  pub some_desired : plan.desired ≢ []
  pub dns_resolved : plan.dns_errors ≡ []
  pub all_supported : plan.unsupported ≡ []
  pub no_conflicts : plan.conflicts ≡ []
  pub covered : plan.coverage_ready ≡ true

judged_of_keys : (r : RuleInfo) → keys_of r ≢ [] → is_judged r ≡ true
judged_of_keys r h = elim (Option-cases (snapshot_rule_keys r)) [
  | inl unjudged ↦ absurd (h (ap or_empty unjudged))
  | inr (keys, judged) ↦ rw judged
]

not_empty : {A : Type 0} (xs : List A) → xs ≢ [] → is_empty xs ≡ false
not_empty [] h = absurd (h refl)
not_empty (x ∷ xs) h = refl

ne_nil_of_test : {A : Type 0} (xs : List A) → is_empty xs ≡ false → xs ≢ []
ne_nil_of_test xs h e = false≢true (sym h ∙ ap is_empty e)

module _ (desired : List PlannedRule) (tag : Text) (r : RuleInfo) where
  test-stale :
      is_candidate desired (entry_of tag r) ≡ true
      → (Tag.is_owned r.description tag ≡ true)
        × (keys_of r ≢ [])
        × ((d : PlannedRule) → Memᴰ d desired → Memᴰ d.key (keys_of r) → ⊥)
  unfolding is_candidate
  test-stale h =
      let fresh : any (contains (desired_keys desired)) (keys_of r) ≡ false = ground arith in
      let full : is_empty (keys_of r) ≡ false = ground arith in
      (
        ground arith,
        ne_nil_of_test (keys_of r) full,
        λ d m k. false≢true (
            sym (any-eq_false (contains (desired_keys desired)) (keys_of r) fresh d.key k)
            ∙ mem→contains (desired_keys desired) d.key (mem-map (λ p. p.key) desired d m)),
      )

  stale-test :
      Tag.is_owned r.description tag ≡ true
      → keys_of r ≢ []
      → ((d : PlannedRule) → Memᴰ d desired → Memᴰ d.key (keys_of r) → ⊥)
      → is_candidate desired (entry_of tag r) ≡ true
  unfolding is_candidate
  stale-test own full fresh =
      let none_desired : any (contains (desired_keys desired)) (keys_of r) ≡ false =
        elim (Bool-cases (any (contains (desired_keys desired)) (keys_of r))) [
          | inl some_desired ↦
              let (k, m, c) =
                mem_of_any (contains (desired_keys desired)) (keys_of r) some_desired in
              let (d, n, e) =
                map-mem (λ p. p.key) desired k (contains→mem (desired_keys desired) k c) in
              absurd (fresh d n (subst (λ j. Memᴰ j (keys_of r)) e m))
          | inr none_desired ↦ none_desired
        ] in
      ground (arith, judged_of_keys r full, not_empty (keys_of r) full)

module _ (input : TargetPlanInput) where
  pub candidate-stale :
      (e : Entry)
      → Memᴰ e (candidates input)
      → IsStale input e.rule × (e ≡ entry_of input.tag e.rule)
  unfolding candidates cleanup_entries snapshot_index plan_target
  candidate-stale e m =
      let (n, test) =
        (mem-select (is_candidate (desired_rules input))
            (index_snapshot input.tag input.snapshot.rules).entries e).0
          m in
      let (r, k, same) =
        map-mem (entry_of input.tag) input.snapshot.rules e
          (subst (Memᴰ e) (entries-index_snapshot input.tag input.snapshot.rules) n) in
      let (own, full, fresh) =
        test-stale (desired_rules input) input.tag r
          (subst (λ f. is_candidate (desired_rules input) f ≡ true) same test) in
      (
        subst (λ f. IsStale input f.rule) (sym same)
            (record { in_snapshot = k; owned = own; judged = full; undesired = fresh }),
        same ∙ ap (λ f. entry_of input.tag f.rule) (sym same),
      )

  pub stale-candidate :
      (r : RuleInfo) → IsStale input r → Memᴰ (entry_of input.tag r) (candidates input)
  unfolding candidates cleanup_entries snapshot_index plan_target
  stale-candidate r h =
      (mem-select (is_candidate (desired_rules input))
          (index_snapshot input.tag input.snapshot.rules).entries (entry_of input.tag r)).1
        (
          rw (entries-index_snapshot input.tag input.snapshot.rules)
              (mem-map (entry_of input.tag) input.snapshot.rules r h.in_snapshot),
          stale-test (desired_rules input) input.tag r h.owned h.judged h.undesired,
        )

  -- The cleanup candidates are exactly the rules of the snapshot that this tag owns, that have
  -- canonical keys, and none of whose keys is the key of a desired rule.
  pub candidates_exact :
      (r : RuleInfo) → Memᴰ r (plan_target input).cleanup_candidates ↔ IsStale input r
  unfolding plan_target
  candidates_exact r = (
    λ m.
        let (e, n, same) = map-mem (λ e. e.rule) (candidates input) r m in
        subst (IsStale input) (sym same) (candidate-stale e n).0,
    λ h. mem-map (λ e. e.rule) (candidates input) (entry_of input.tag r) (stale-candidate r h),
  )

  -- The gate of a plan that deletes something.
  pub gate-IsOpen : gate input ≡ [] → IsOpen (plan_target input)
  unfolding gate plan_target
  gate-IsOpen h =
      let (desired, dns, unsupported, no_conflict, ready) =
        gate-eq_nil (desired_rules input) (desired_draft input).dns_errors
          (desired_draft input).unsupported (conflicts input) (is_ready input) h in
      record {
        some_desired = desired;
        dns_resolved = (sort_issues-eq_nil _).1 dns;
        all_supported = (sort_issues-eq_nil _).1 unsupported;
        no_conflicts = (sort_issues-eq_nil _).1 no_conflict;
        covered = ready;
      }

  pub gate_of_open : IsOpen (plan_target input) → gate input ≡ []
  unfolding gate plan_target
  gate_of_open h =
      rw
        (
          (sort_issues-eq_nil _).0 h.dns_resolved,
          (sort_issues-eq_nil _).0 h.all_supported,
          (sort_issues-eq_nil _).0 h.no_conflicts,
          h.covered,
        )
        (gate_open (desired_rules input) h.some_desired)
