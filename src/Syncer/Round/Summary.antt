-- ===== src/Syncer/Round/Summary.antt =====
-- The classes of a summary add up, and its outcome says what the targets' outcomes say.
use cloudhost_firewall_autou.Common.{
  ℕ, ◌+◌, ◌^◌, ◌<◌, ◌≤◌, ◌≡◌, ◌↔◌, refl, sym, ◌∙◌, subst, Bool, true, false, not, ◌||◌, List, [],
  ◌∷◌, foldl, length, arith, ltb, if◌then◌else◌, nat_eq, list_eq, select, All,
}
use cloudhost_firewall_autou.Strings.{Text}
use cloudhost_firewall_autou.Strconv.{pos}
use cloudhost_firewall_autou.Config.{DomainRule}
use cloudhost_firewall_autou.Syncer.Observation
use cloudhost_firewall_autou.Syncer.Calls.{Services, World}
use cloudhost_firewall_autou.Syncer.Round
use cloudhost_firewall_autou.Syncer.Round.Units.{
  round_results, length-round_results, run_round-results,
}

abbrev in_failed : Observation.TargetOutcome → Bool → Bool
in_failed Observation.target_failed m = true
in_failed _ m = false

abbrev in_skipped : Observation.TargetOutcome → Bool → Bool
in_skipped Observation.target_partial m = true
in_skipped _ m = false

abbrev in_changed : Observation.TargetOutcome → Bool → Bool
in_changed Observation.target_success m = m
in_changed _ m = false

abbrev in_ok : Observation.TargetOutcome → Bool → Bool
in_ok Observation.target_success m = not m
in_ok _ m = false

abbrev of_class : (Observation.TargetOutcome → Bool → Bool) → Observation.TargetResult → Bool
of_class cls r = cls r.outcome (ltb 0 r.added || ltb 0 r.deleted)

abbrev in_class : (Observation.TargetOutcome → Bool → Bool) → List Observation.TargetResult → ℕ
in_class cls rs = length (select (of_class cls) rs)

-- A counter that goes up by one at the results of a class.
module _ (get : Round.RoundCounters → ℕ) (cls : Observation.TargetOutcome → Bool → Bool)
    (step : (c : Round.RoundCounters) (r : Observation.TargetResult)
      → get (Round.count_result c r)
        ≡ (if of_class cls r then Round.add32 (get c) 1 else get c)) where
  counter :
      (rs : List Observation.TargetResult) (c : Round.RoundCounters)
      → get c + length rs < 2 ^ 31
      → get (foldl Round.count_result c rs) ≡ get c + in_class cls rs
  unfolding select
  counter [] c h = omega arith
  counter (r ∷ rs) c h = ground (arith, counter rs (Round.count_result c r), step c r)

  in_class-le : (rs : List Observation.TargetResult) → in_class cls rs ≤ length rs
  unfolding select
  in_class-le [] = omega arith
  in_class-le (r ∷ rs) = ground (arith, in_class-le rs)

  loaded :
      (rs : List Observation.TargetResult)
      → length rs < 2 ^ 31
      → get Round.no_counts ≡ 0
      → Round.load32 (get (foldl Round.count_result Round.no_counts rs)) ≡ pos (in_class cls rs)
  loaded rs few fresh =
      let n = counter rs Round.no_counts (omega (arith, fresh)) in
      ground (arith, n, fresh, in_class-le rs)

failed_step :
    (c : Round.RoundCounters) (r : Observation.TargetResult)
    → (Round.count_result c r).failed
      ≡ (if of_class in_failed r then Round.add32 c.failed 1 else c.failed)
unfolding Round.count_result Round.class_result
failed_step c r = ground arith

skipped_step :
    (c : Round.RoundCounters) (r : Observation.TargetResult)
    → (Round.count_result c r).skipped
      ≡ (if of_class in_skipped r then Round.add32 c.skipped 1 else c.skipped)
unfolding Round.count_result Round.class_result
skipped_step c r = ground arith

changed_step :
    (c : Round.RoundCounters) (r : Observation.TargetResult)
    → (Round.count_result c r).changed
      ≡ (if of_class in_changed r then Round.add32 c.changed 1 else c.changed)
unfolding Round.count_result Round.class_result
changed_step c r = ground arith

ok_step :
    (c : Round.RoundCounters) (r : Observation.TargetResult)
    → (Round.count_result c r).ok ≡ (if of_class in_ok r then Round.add32 c.ok 1 else c.ok)
unfolding Round.count_result Round.class_result
ok_step c r = ground arith

-- Each result is in just one of the four classes.
in_one_class :
    (rs : List Observation.TargetResult)
    → in_class in_ok rs + in_class in_changed rs + in_class in_failed rs + in_class in_skipped rs
      ≡ length rs
unfolding select
in_one_class [] = refl
in_one_class (r ∷ rs) = ground (arith, in_one_class rs)

-- What a summary says of the results of its round.
pub record IsCounted (s : Round.RoundSummary) (rs : List Observation.TargetResult) : Type 0 where
  pub total_results : s.total ≡ length rs
  pub ok_results : s.ok ≡ pos (in_class in_ok rs)
  pub changed_results : s.changed ≡ pos (in_class in_changed rs)
  pub failed_results : s.failed ≡ pos (in_class in_failed rs)
  pub skipped_results : s.skipped ≡ pos (in_class in_skipped rs)
  pub classes :
      in_class in_ok rs + in_class in_changed rs + in_class in_failed rs + in_class in_skipped rs
      ≡ s.total

summary_of-IsCounted :
    (n : ℕ) (rs : List Observation.TargetResult)
    → length rs ≡ n
    → n < 2 ^ 31
    → IsCounted (Round.summary_of n (foldl Round.count_result Round.no_counts rs)) rs
unfolding Round.summary_of
summary_of-IsCounted n rs e few =
    let few' : length rs < 2 ^ 31 = omega (arith, e, few) in
    record {
      total_results = sym e;
      ok_results = loaded (λ c. c.ok) in_ok ok_step rs few' refl;
      changed_results = loaded (λ c. c.changed) in_changed changed_step rs few' refl;
      failed_results = loaded (λ c. c.failed) in_failed failed_step rs few' refl;
      skipped_results = loaded (λ c. c.skipped) in_skipped skipped_step rs few' refl;
      classes = in_one_class rs ∙ e;
    }

-- In the summary of a round of fewer than 2^31 units, the total is the number of results, each class
-- counts just the results that belong to it, and the four classes add up to the total.
pub run_round-IsCounted :
    {S : Type 0} (tag : Text) (rules : List DomainRule) (ps : List (Services S)) (w : World S)
    → Round.count_units rules ps < 2 ^ 31
    → IsCounted (Round.run_round tag rules ps w).0 (round_results tag rules ps w)
run_round-IsCounted tag rules ps w few =
    subst (λ s. IsCounted s (round_results tag rules ps w)) (sym (run_round-results tag rules ps w))
      (summary_of-IsCounted (Round.count_units rules ps) (round_results tag rules ps w)
        (length-round_results tag rules ps w) few)

-- The result of a target that has all its rules.
abbrev pub IsSuccess : Observation.TargetResult → Type 0
IsSuccess r = r.outcome ≡ Observation.target_success

none_bad_to :
    (rs : List Observation.TargetResult)
    → in_class in_failed rs ≡ 0
    → in_class in_skipped rs ≡ 0
    → All IsSuccess rs
unfolding select
none_bad_to [] f s = tt
none_bad_to (r ∷ rs) f s = (ground arith, none_bad_to rs (ground arith) (ground arith))

none_bad_from :
    (rs : List Observation.TargetResult)
    → All IsSuccess rs
    → (in_class in_failed rs ≡ 0) × (in_class in_skipped rs ≡ 0)
unfolding select
none_bad_from [] h = (refl, refl)
none_bad_from (r ∷ rs) h = let t = none_bad_from rs h.1 in (rw h.0 t.0, rw h.0 t.1)

outcome_lem :
    (s : Round.RoundSummary) (rs : List Observation.TargetResult)
    → IsCounted s rs
    → (Round.outcome_of s ≡ Round.round_success)
      ↔ ((0 < s.total) × (in_class in_failed rs ≡ 0) × (in_class in_skipped rs ≡ 0))
unfolding Round.outcome_of
outcome_lem s rs t = (
  λ h. ground (arith, t.failed_results, t.skipped_results),
  λ h. ground (arith, t.failed_results, t.skipped_results),
)

-- A round of fewer than 2^31 units is a success exactly if it has a unit and every unit's result is a
-- success.
pub round_success_exact :
    {S : Type 0} (tag : Text) (rules : List DomainRule) (ps : List (Services S)) (w : World S)
    → Round.count_units rules ps < 2 ^ 31
    → (Round.outcome_of (Round.run_round tag rules ps w).0 ≡ Round.round_success)
      ↔ ((0 < Round.count_units rules ps) × All IsSuccess (round_results tag rules ps w))
round_success_exact tag rules ps w few =
    let rs = round_results tag rules ps w in
    let t = run_round-IsCounted tag rules ps w few in
    let n = t.total_results ∙ length-round_results tag rules ps w in
    let (to, from) = outcome_lem (Round.run_round tag rules ps w).0 rs t in
    (
      λ h.
          let (some_unit, failed, skipped) = to h in
          (omega (arith, n, some_unit), none_bad_to rs failed skipped),
      λ h.
          let (failed, skipped) = none_bad_from rs h.1 in
          from (omega (arith, n, h.0), failed, skipped),
    )
