-- ===== src/Provider/Plan/Covering.antt =====
-- What PlanTarget adds and when it calls a target covered, said of the snapshot's rules themselves.
use cloudhost_firewall_autou.Common.{
  ◌≡◌, ◌≢◌, ◌↔◌, refl, sym, ap, ◌∙◌, subst, Bool, true, false, not, ◌&&◌, ◌||◌, List, [], ◌∷◌, map,
  is_empty, arith, Memᴰ, false≢true, select, any, contains, mem→contains, contains→mem, any_of_mem,
  mem_of_any, select-eq_nil, mem-select, map-eq_nil, Bool-cases, inl, inr,
}
use mathlib.Core.Path.{fun_ext, ap₂}
use mathlib.Core.List.Memᴰ
use cloudhost_firewall_autou.Strings.{Text}
use cloudhost_firewall_autou.Tag
use cloudhost_firewall_autou.Config.{RuleInfo}
use cloudhost_firewall_autou.Provider.Types.{
  FunctionalKey, key_eq, PlannedRule, RuleSnapshot, TargetPlanInput,
}
use cloudhost_firewall_autou.Provider.Desired.{desired_draft, desired_rules, add_rule}
use cloudhost_firewall_autou.Provider.Snapshot.{index_snapshot}
use cloudhost_firewall_autou.Provider.Snapshot.Indexed.{
  keys_of, Holds, external_to, mem-owned_index, mem-external_index,
}
use cloudhost_firewall_autou.Provider.Cleanup.Covered.{
  held_owned, held_external, is_missing, to_add-cover, by_owned-cover, by_external-cover,
  coverage_ready_iff,
}
use cloudhost_firewall_autou.Provider.Plan.{plan_target, snapshot_index, coverage, is_ready}
use cloudhost_firewall_autou.Provider.Plan.Safety.{deletable_exact}

-- Whether a rule of the snapshot with `p` has the key.
abbrev pub has_with : (RuleInfo → Bool) → List RuleInfo → FunctionalKey → Bool
has_with p rules k = any (λ r. p r && contains (keys_of r) k) rules

-- Whether any rule of the snapshot has the key.
abbrev pub snapshot_has : List RuleInfo → FunctionalKey → Bool
snapshot_has rules k = any (λ r. contains (keys_of r) k) rules

bool_ext : (a b : Bool) → (a ≡ true → b ≡ true) → (b ≡ true → a ≡ true) → a ≡ b
bool_ext true b f g = sym (f refl)
bool_ext false true f g = g refl
bool_ext false false f g = refl

first_of_test : {A : Type 0} (xs : List A) → not (is_empty xs) ≡ true → (x : A) × Memᴰ x xs
first_of_test [] h = absurd (false≢true h)
first_of_test (x ∷ xs) h = (x, Memᴰ.head refl)

test_of_mem : {A : Type 0} (xs : List A) (x : A) → Memᴰ x xs → not (is_empty xs) ≡ true
test_of_mem [] x m = elim m [ ]
test_of_mem (y ∷ xs) x m = refl

-- An index that holds at a key just the rules with `p` answers the test.
held_lem :
    (p : RuleInfo → Bool) (rules at_key : List RuleInfo) (k : FunctionalKey)
    → ((s : RuleInfo) → Memᴰ s at_key ↔ (Holds rules k s × (p s ≡ true)))
    → not (is_empty at_key) ≡ has_with p rules k
held_lem p rules at_key k exact = bool_ext _ _ to from
  where
    to : not (is_empty at_key) ≡ true → has_with p rules k ≡ true
    to h =
        let (s, m) = first_of_test at_key h in
        let (held, ps) = (exact s).0 m in
        any_of_mem (λ r. p r && contains (keys_of r) k) rules s held.0
          (rw (ps, mem→contains (keys_of s) k held.1))

    from : has_with p rules k ≡ true → not (is_empty at_key) ≡ true
    from h =
        let (s, m, test) = mem_of_any (λ r. p r && contains (keys_of r) k) rules h in
        test_of_mem at_key s
          ((exact s).1 ((m, contains→mem (keys_of s) k (ground arith)), ground arith))

module _ (tag : Text) (rules : List RuleInfo) (d : PlannedRule) where
  held_owned_lem :
      held_owned (index_snapshot tag rules) d
      ≡ has_with (λ r. Tag.is_owned r.description tag) rules d.key
  held_owned_lem = held_lem _ rules _ d.key (mem-owned_index tag rules d.key)

  held_external_lem :
      held_external (index_snapshot tag rules) d ≡ has_with (external_to tag) rules d.key
  held_external_lem = held_lem _ rules _ d.key (mem-external_index tag rules d.key)

any_split :
    (p q : RuleInfo → Bool) (rules : List RuleInfo)
    → any q rules ≡ any (λ r. p r && q r) rules || any (λ r. not (p r) && q r) rules
unfolding any
any_split p q [] = refl
any_split p q (r ∷ rules) = ground (arith, any_split p q rules)

module _ (tag : Text) (rules : List RuleInfo) where
  is_missing_lem :
      (d : PlannedRule)
      → is_missing (index_snapshot tag rules) d
        ≡ (d.implementable && not (snapshot_has rules d.key))
  is_missing_lem d = ground (
    arith,
    held_owned_lem tag rules d,
    held_external_lem tag rules d,
    any_split (λ r. Tag.is_owned r.description tag) (λ r. contains (keys_of r) d.key) rules,
  )

module _ (input : TargetPlanInput) where
  -- The plan adds exactly the actions of the desired rules that the platform can express and whose
  -- key no rule of the snapshot has, in the order of the desired rules.
  pub to_add_exact :
      (plan_target input).to_add
      ≡ map
          (λ d. d.action)
          (select
            (λ d. d.implementable && not (snapshot_has input.snapshot.rules d.key))
            (plan_target input).desired)
  unfolding plan_target coverage snapshot_index
  to_add_exact =
      to_add-cover (index_snapshot input.tag input.snapshot.rules) (desired_rules input)
      ∙ ap (λ p. map (λ d. d.action) (select p (desired_rules input)))
          (fun_ext (is_missing_lem input.tag input.snapshot.rules))

  -- A desired function counts as met by an own rule exactly if a snapshot rule that the tag owns
  -- has its key, and as met by an external rule exactly if only rules of others have it.
  pub satisfied_exact :
      (map (λ m. m.key) (plan_target input).satisfied_by_owned
        ≡ map
            (λ d. d.key)
            (select
              (λ d. has_with (λ r. Tag.is_owned r.description input.tag) input.snapshot.rules d.key)
              (plan_target input).desired))
      × (map (λ m. m.key) (plan_target input).satisfied_by_external
          ≡ map
              (λ d. d.key)
              (select
                (λ d.
                  not (
                    has_with (λ r. Tag.is_owned r.description input.tag) input.snapshot.rules d.key)
                  && has_with (external_to input.tag) input.snapshot.rules d.key)
                (plan_target input).desired))
  unfolding plan_target coverage snapshot_index
  satisfied_exact =
      let idx = index_snapshot input.tag input.snapshot.rules in
      (
        by_owned-cover idx (desired_rules input)
            ∙ ap (λ p. map (λ d. d.key) (select p (desired_rules input)))
                (fun_ext (held_owned_lem input.tag input.snapshot.rules)),
        by_external-cover idx (desired_rules input)
            ∙ ap (λ p. map (λ d. d.key) (select p (desired_rules input)))
                (fun_ext λ d.
                  ap₂ (λ a b. not a && b) (held_owned_lem input.tag input.snapshot.rules d)
                    (held_external_lem input.tag input.snapshot.rules d)),
      )

  -- Coverage is ready exactly if some desired rule can be expressed on the platform, nothing is
  -- left to add, and the state of an earlier addition is not unknown.
  pub coverage_ready_exact : ((plan_target input).coverage_ready ≡ true) ↔ (
      (select (λ d. d.implementable) (plan_target input).desired ≢ [])
      × ((plan_target input).to_add ≡ [])
      × (input.add_state_unknown ≡ false))
  unfolding plan_target coverage is_ready
  coverage_ready_exact =
      let idx = snapshot_index input in
      let ds = desired_rules input in
      let (to, from) = coverage_ready_iff idx ds input.add_state_unknown in
      (
        λ h.
            let (some_one, nothing, known) = to h in
            (some_one, to_add-cover idx ds ∙ ap (map (λ d. d.action)) nothing, known),
        λ (some_one, nothing, known).
            from
              (some_one, map-eq_nil (λ d. d.action) _ (sym (to_add-cover idx ds) ∙ nothing), known),
      )

-- The same target with another snapshot.
abbrev pub with_snapshot : TargetPlanInput → RuleSnapshot → TargetPlanInput
with_snapshot input s = record input { snapshot = s }

module _ (input : TargetPlanInput) (s : RuleSnapshot) where
  nothing_missing :
      (plan_target input).to_add ≡ []
      → (d : PlannedRule) → Memᴰ d (desired_rules input)
      → d.implementable ≡ true
      → snapshot_has input.snapshot.rules d.key ≡ true
  unfolding plan_target
  nothing_missing h d m can =
      let missing =
        λ (e : PlannedRule). e.implementable && not (snapshot_has input.snapshot.rules e.key) in
      let empty =
        map-eq_nil (λ e. e.action) (select missing (desired_rules input))
          (sym (to_add_exact input) ∙ h) in
      elim (Bool-cases (snapshot_has input.snapshot.rules d.key)) [
        | inl has ↦ has
        | inr lacks ↦ absurd (
            Memᴰ.not-nil (
              subst (Memᴰ d) empty
                ((mem-select missing (desired_rules input) d).1 (m, rw (can, lacks) refl))))
      ]

  desired_same : (plan_target (with_snapshot input s)).desired ≡ desired_rules input
  unfolding plan_target desired_rules desired_draft add_rule
  desired_same = refl

  desired-plan :
      {d : PlannedRule} → Memᴰ d (desired_rules input) → Memᴰ d (plan_target input).desired
  unfolding plan_target
  desired-plan m = m

  still_has :
      (plan_target input).to_add ≡ []
      → ((r : RuleInfo)
          → Memᴰ r input.snapshot.rules
          → (Memᴰ r (plan_target input).cleanup_deletable → ⊥)
          → Memᴰ r s.rules)
      → (d : PlannedRule) → Memᴰ d (desired_rules input)
      → d.implementable ≡ true
      → snapshot_has s.rules d.key ≡ true
  still_has covered kept d m can =
      let (r, n, has) =
        mem_of_any (λ r. contains (keys_of r) d.key) input.snapshot.rules
          (nothing_missing covered d m can) in
      any_of_mem (λ r. contains (keys_of r) d.key) s.rules r
        (kept r n (λ del.
          ((deletable_exact input r).0 del).0.undesired d (desired-plan m)
            (contains→mem (keys_of r) d.key has)))
        has

  -- Deletion keeps coverage: whatever a later snapshot holds, if it still holds every rule that
  -- the plan did not allow to delete, and the plan had nothing to add, then a new plan for the same
  -- desired state has nothing to add.
  pub deletion_keeps_coverage :
      (plan_target input).to_add ≡ []
      → ((r : RuleInfo)
          → Memᴰ r input.snapshot.rules
          → (Memᴰ r (plan_target input).cleanup_deletable → ⊥)
          → Memᴰ r s.rules)
      → (plan_target (with_snapshot input s)).to_add ≡ []
  deletion_keeps_coverage covered kept =
      to_add_exact (with_snapshot input s)
      ∙ ap (λ ds. map (λ d. d.action) (select missing ds)) desired_same
      ∙ ap (map (λ d. d.action)) (select-eq_nil missing (desired_rules input) met)
    where
      missing : PlannedRule → Bool
      missing d = d.implementable && not (snapshot_has s.rules d.key)

      met : (d : PlannedRule) → Memᴰ d (desired_rules input) → missing d ≡ false
      met d m = elim (Bool-cases d.implementable) [
        | inr cannot ↦ ground arith
        | inl can ↦ ground (arith, still_has covered kept d m can)
      ]
