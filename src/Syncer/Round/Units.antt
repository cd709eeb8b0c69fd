-- ===== src/Syncer/Round/Units.antt =====
-- The counters of a round account for every target that has rules.
use cloudhost_firewall_autou.Common.{
  ℕ, suc, ◌+◌, ◌≡◌, inl, inr, refl, ap, ◌∙◌, List, [], ◌∷◌, ◌++◌, foldl, length, length-append,
  arith, if◌then◌else◌, nat_eq, list_eq, ◌==◌, select, Bool-cases,
}
use cloudhost_firewall_autou.Strings.{Text}
use cloudhost_firewall_autou.Config.{DomainRule}
use cloudhost_firewall_autou.Config.Validate.{cloud_text}
use cloudhost_firewall_autou.Syncer.Observation
use cloudhost_firewall_autou.Syncer.Calls.{Services, World}
use cloudhost_firewall_autou.Syncer.Target.{sync_target}
use cloudhost_firewall_autou.Syncer.Round

foldl-append :
    (xs ys : List Observation.TargetResult) (c : Round.RoundCounters)
    → foldl Round.count_result c (xs ++ ys)
      ≡ foldl Round.count_result (foldl Round.count_result c xs) ys
foldl-append [] ys c = refl
foldl-append (x ∷ xs) ys c = foldl-append xs ys (Round.count_result c x)

count_units-nil : (S : Type 0) (rules : List DomainRule) → Round.count_units {S = S} rules [] ≡ 0
unfolding Round.count_units select
count_units-nil S rules = refl

module _ {S : Type 0} (tag : Text) (rules : List DomainRule) where
  -- The results of the targets of a group, in the order in which they end.
  unfoldable pub group_results :
      List (Services S) → World S → List Observation.TargetResult × World S
  group_results [] w = ([], w)
  group_results (p ∷ ps) w =
      let (r, w') = sync_target p tag (Round.filter_rules_for_target rules p.target_index) w in
      let (rs, w'') = group_results ps w' in
      let skipped = group_results ps w in if Round.has_rules rules p then (r ∷ rs, w'') else skipped

  unfoldable pub groups_results :
      List (Round.Group S) → World S → List Observation.TargetResult × World S
  groups_results [] w = ([], w)
  groups_results ((ct, ps) ∷ gs) w =
      let (rs, w') = group_results ps w in let (rs', w'') = groups_results gs w' in (rs ++ rs', w'')

  run_group-results :
      (ps : List (Services S)) (c : Round.RoundCounters) (w : World S)
      → Round.run_group tag rules ps (c, w)
        ≡ (foldl Round.count_result c (group_results ps w).0, (group_results ps w).1)
  unfolding Round.run_group group_results
  run_group-results [] c w = refl
  run_group-results (p ∷ ps) c w = elim (Bool-cases (Round.has_rules rules p)) [
    | inl some_rules ↦ rw some_rules (run_group-results ps _ _)
    | inr no_rules ↦ rw no_rules (run_group-results ps c w)
  ]

  run_groups-results :
      (gs : List (Round.Group S)) (c : Round.RoundCounters) (w : World S)
      → Round.run_groups tag rules gs (c, w)
        ≡ (foldl Round.count_result c (groups_results gs w).0, (groups_results gs w).1)
  unfolding Round.run_groups groups_results
  run_groups-results [] c w = refl
  run_groups-results ((ct, ps) ∷ gs) c w =
      ap (Round.run_groups tag rules gs) (run_group-results ps c w)
      ∙ run_groups-results gs _ _
      ∙ rw⁻¹ (foldl-append (group_results ps w).0 (groups_results gs (group_results ps w).1).0 c)
          refl

  length-group_results :
      (ps : List (Services S)) (w : World S)
      → length (group_results ps w).0 ≡ Round.count_units rules ps
  unfolding group_results Round.count_units select
  length-group_results [] w = refl
  length-group_results (p ∷ ps) w = elim (Bool-cases (Round.has_rules rules p)) [
    | inl some_rules ↦ rw some_rules (ap suc (length-group_results ps _))
    | inr no_rules ↦ rw no_rules (length-group_results ps w)
  ]

  -- The units of all groups.
  abbrev group_units : List (Round.Group S) → ℕ
  group_units [] = 0
  group_units ((ct, ps) ∷ gs) = Round.count_units rules ps + group_units gs

  length-groups_results :
      (gs : List (Round.Group S)) (w : World S) → length (groups_results gs w).0 ≡ group_units gs
  unfolding groups_results
  length-groups_results [] w = refl
  length-groups_results ((ct, ps) ∷ gs) w =
      let (rs, w') = group_results ps w in
      omega (
        arith,
        length-append rs (groups_results gs w').0,
        length-group_results ps w,
        length-groups_results gs w',
      )

  count_units-append :
      (ps : List (Services S)) (p : Services S)
      → Round.count_units rules (ps ++ p ∷ [])
        ≡ Round.count_units rules ps + Round.count_units rules (p ∷ [])
  unfolding Round.count_units select
  count_units-append [] p = omega arith
  count_units-append (q ∷ ps) p = elim (Bool-cases (Round.has_rules rules q)) [
    | inl some_rules ↦ rw some_rules (omega (arith, count_units-append ps p))
    | inr no_rules ↦ rw no_rules (count_units-append ps p)
  ]

  add_to_group-units :
      (gs : List (Round.Group S)) (p : Services S)
      → group_units (Round.add_to_group gs p) ≡ group_units gs + Round.count_units rules (p ∷ [])
  unfolding Round.add_to_group
  add_to_group-units [] p = omega arith
  add_to_group-units ((ct, ps) ∷ gs) p = elim (Bool-cases (ct == cloud_text p.cloud_type)) [
    | inl same ↦ rw same (omega (arith, count_units-append ps p))
    | inr differ ↦ rw differ (omega (arith, add_to_group-units gs p))
  ]

  count_units-cons :
      (p : Services S) (ps : List (Services S))
      → Round.count_units rules (p ∷ ps)
        ≡ Round.count_units rules (p ∷ []) + Round.count_units rules ps
  unfolding Round.count_units select
  count_units-cons p ps = ground arith

  grouped_units :
      (ps : List (Services S)) (gs : List (Round.Group S))
      → group_units (foldl Round.add_to_group gs ps) ≡ group_units gs + Round.count_units rules ps
  grouped_units [] gs = omega (arith, count_units-nil S rules)
  grouped_units (p ∷ ps) gs = omega (
    arith,
    grouped_units ps (Round.add_to_group gs p),
    add_to_group-units gs p,
    count_units-cons p ps,
  )

  -- The results of a whole round, in the order in which its targets end.
  abbrev pub round_results : List (Services S) → World S → List Observation.TargetResult
  round_results ps w = (groups_results (Round.group_by_cloud ps) w).0

  -- A round runs every unit once.
  pub length-round_results :
      (ps : List (Services S)) (w : World S)
      → length (round_results ps w) ≡ Round.count_units rules ps
  unfolding Round.group_by_cloud
  length-round_results ps w =
      omega (arith, length-groups_results (foldl Round.add_to_group [] ps) w, grouped_units ps [])

  pub run_round-results :
      (ps : List (Services S)) (w : World S)
      → (Round.run_round tag rules ps w).0
        ≡ Round.summary_of
            (Round.count_units rules ps)
            (foldl Round.count_result Round.no_counts (round_results ps w))
  unfolding Round.run_round
  run_round-results ps w =
      ap (λ x. Round.summary_of (Round.count_units rules ps) x.0)
        (run_groups-results (Round.group_by_cloud ps) Round.no_counts w)
