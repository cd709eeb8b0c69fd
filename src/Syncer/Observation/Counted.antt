-- ===== src/Syncer/Observation/Counted.antt =====
-- The summary of the cleanup observations of a round.
use cloudhost_firewall_autou.Common.{
  ℕ, ◌+◌, ◌≡◌, ◌↔◌, refl, ◌∙◌, Bool, true, false, not, ◌&&◌, ◌==◌, none, some, is_none, List, [],
  ◌∷◌, nat_eq, list_eq, foldl, length, arith, if◌then◌else◌, All, sum_by,
}
use cloudhost_firewall_autou.Strings.{codes}
use cloudhost_firewall_autou.Syncer.Observation

abbrev pub Summary : Type 0
Summary = Observation.CleanupObservationSummary

abbrev pub empty_summary : Summary
empty_summary = record {
  observed_targets = 0;
  estimated_targets = 0;
  historical_targets = 0;
  unknown_targets = 0;
  observed_candidates = 0;
  observed_deferred = 0;
  complete = true;
}

abbrev pub summarize : List Observation.TargetResult → Summary
summarize = foldl Observation.add_observation empty_summary

-- The classes of targets, from what was observed of their candidates for deletion.
abbrev of_class : (Observation.CleanupObservation → Bool) → Observation.TargetResult → Bool
of_class cls r = elim r.cleanup_observation [ none ↦ false | some o ↦ cls o ]

abbrev is_final : Observation.CleanupObservation → Bool
is_final o = o.desired_complete && not (o.basis == codes "delete_progress")

abbrev pub in_observed : Observation.TargetResult → Bool
in_observed = of_class (λ o. not o.historical && is_final o)

abbrev pub in_estimated : Observation.TargetResult → Bool
in_estimated = of_class (λ o. not o.historical && not (is_final o))

abbrev pub in_historical : Observation.TargetResult → Bool
in_historical = of_class (λ o. o.historical)

abbrev pub in_unknown : Observation.TargetResult → Bool
in_unknown r = is_none r.cleanup_observation

abbrev pub number : (Observation.TargetResult → Bool) → List Observation.TargetResult → ℕ
number p = sum_by (λ r. if p r then 1 else 0)

abbrev candidates_of : Observation.TargetResult → ℕ
candidates_of r = elim r.cleanup_observation [ none ↦ 0 | some o ↦ o.candidates ]

abbrev deferred_of : Observation.TargetResult → ℕ
deferred_of r = elim r.cleanup_observation [ none ↦ 0 | some o ↦ o.deferred ]

-- What a summary says of the results that it was made of.
pub record IsSummary (s : Summary) (rs : List Observation.TargetResult) : Type 0 where
  pub observed : s.observed_targets ≡ number in_observed rs
  pub estimated : s.estimated_targets ≡ number in_estimated rs
  pub historical : s.historical_targets ≡ number in_historical rs
  pub unknown : s.unknown_targets ≡ number in_unknown rs
  pub candidates :
      s.observed_candidates ≡ sum_by (λ r. if in_observed r then candidates_of r else 0) rs
  pub deferred : s.observed_deferred ≡ sum_by (λ r. if in_observed r then deferred_of r else 0) rs
  pub classes :
      s.observed_targets + s.estimated_targets + s.historical_targets + s.unknown_targets
      ≡ length rs
  pub all_observed : (s.complete ≡ true) ↔ All (λ r. in_observed r ≡ true) rs

-- A count that a target changes by what `f` says of it.
counted :
    (get : Summary → ℕ) (f : Observation.TargetResult → ℕ)
    → ((s : Summary) (r : Observation.TargetResult)
        → get (Observation.add_observation s r) ≡ get s + f r)
    → (rs : List Observation.TargetResult) (s : Summary)
    → get (foldl Observation.add_observation s rs) ≡ get s + sum_by f rs
unfolding sum_by
counted get f step [] s = omega arith
counted get f step (r ∷ rs) s =
    omega (arith, counted get f step rs (Observation.add_observation s r), step s r)

module _ (s : Summary) (r : Observation.TargetResult) where
  observed_step :
      (Observation.add_observation s r).observed_targets
      ≡ s.observed_targets + (if in_observed r then 1 else 0)
  unfolding Observation.add_observation
  observed_step = ground arith

  estimated_step :
      (Observation.add_observation s r).estimated_targets
      ≡ s.estimated_targets + (if in_estimated r then 1 else 0)
  unfolding Observation.add_observation
  estimated_step = ground arith

  historical_step :
      (Observation.add_observation s r).historical_targets
      ≡ s.historical_targets + (if in_historical r then 1 else 0)
  unfolding Observation.add_observation
  historical_step = ground arith

  unknown_step :
      (Observation.add_observation s r).unknown_targets
      ≡ s.unknown_targets + (if in_unknown r then 1 else 0)
  unfolding Observation.add_observation
  unknown_step = ground arith

  candidates_step :
      (Observation.add_observation s r).observed_candidates
      ≡ s.observed_candidates + (if in_observed r then candidates_of r else 0)
  unfolding Observation.add_observation
  candidates_step = ground arith

  deferred_step :
      (Observation.add_observation s r).observed_deferred
      ≡ s.observed_deferred + (if in_observed r then deferred_of r else 0)
  unfolding Observation.add_observation
  deferred_step = ground arith

  -- Whether the flag says that only observed targets were counted.
  marked_step : ((Observation.add_observation s r).complete ≡ true) ↔ (
      (Observation.add_observation s r).estimated_targets
        + (Observation.add_observation s r).historical_targets
        + (Observation.add_observation s r).unknown_targets
      ≡ 0)
  unfolding Observation.add_observation
  marked_step = (λ h. ground arith, λ h. ground arith)

abbrev unobserved : Summary → ℕ
unobserved s = s.estimated_targets + s.historical_targets + s.unknown_targets

marked :
    (rs : List Observation.TargetResult) (s : Summary)
    → (s.complete ≡ true) ↔ (unobserved s ≡ 0)
    → ((foldl Observation.add_observation s rs).complete ≡ true)
      ↔ (unobserved (foldl Observation.add_observation s rs) ≡ 0)
marked [] s h = h
marked (r ∷ rs) s h = marked rs (Observation.add_observation s r) (marked_step s r)

in_one_class :
    (rs : List Observation.TargetResult)
    → number in_observed rs
        + number in_estimated rs
        + number in_historical rs
        + number in_unknown rs
      ≡ length rs
unfolding sum_by
in_one_class [] = refl
in_one_class (r ∷ rs) = ground (arith, in_one_class rs)

none_unobserved :
    (rs : List Observation.TargetResult)
    → number in_estimated rs + number in_historical rs + number in_unknown rs ≡ 0
    → All (λ r. in_observed r ≡ true) rs
unfolding sum_by
none_unobserved [] h = tt
none_unobserved (r ∷ rs) h = (ground arith, none_unobserved rs (omega (arith, h)))

unobserved_none :
    (rs : List Observation.TargetResult)
    → All (λ r. in_observed r ≡ true) rs
    → number in_estimated rs + number in_historical rs + number in_unknown rs ≡ 0
unfolding sum_by
unobserved_none [] h = refl
unobserved_none (r ∷ rs) h = ground (arith, h.0, unobserved_none rs h.1)

-- In the summary of a round, a target counts as observed if it has an observation that is from its
-- last attempt, has complete input and is not the progress of a deletion; as estimated if it has one
-- from its last attempt that is not so; as historical if it has an older one; as unknown if it has
-- none. Each counter is the number of the targets of its class, the four add up to the targets, the
-- sums are over the observed targets, and the round is complete exactly if all targets are observed.
pub summarize_lem : (rs : List Observation.TargetResult) → IsSummary (summarize rs) rs
summarize_lem rs =
    let e = counted (λ s. s.estimated_targets) _ estimated_step rs empty_summary in
    let h = counted (λ s. s.historical_targets) _ historical_step rs empty_summary in
    let u = counted (λ s. s.unknown_targets) _ unknown_step rs empty_summary in
    let o = counted (λ s. s.observed_targets) _ observed_step rs empty_summary in
    let flag = marked rs empty_summary ((λ t. refl), λ t. refl) in
    record {
      observed = o ∙ omega arith;
      estimated = e ∙ omega arith;
      historical = h ∙ omega arith;
      unknown = u ∙ omega arith;
      candidates =
          counted (λ s. s.observed_candidates) _ candidates_step rs empty_summary ∙ omega arith;
      deferred = counted (λ s. s.observed_deferred) _ deferred_step rs empty_summary ∙ omega arith;
      classes = omega (arith, o, e, h, u, in_one_class rs);
      all_observed = (
        λ t. none_unobserved rs (omega (arith, flag.0 t, e, h, u)),
        λ all. flag.1 (omega (arith, unobserved_none rs all, e, h, u)),
      );
    }
