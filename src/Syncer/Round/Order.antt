-- ===== src/Syncer/Round/Order.antt =====
-- The counters of a round do not depend on the order in which its targets end.
use mathlib.Core.List.{Permᴰ}
use cloudhost_firewall_autou.Common.{
  ℕ, ◌+◌, ◌≡◌, refl, sym, ap, ◌∙◌, Bool, true, false, List, ◌∷◌, foldl, arith, ltb, if◌then◌else◌,
  nat_eq, list_eq, Option, none, some, Bool-cases, inl, inr, not, ◌||◌, ◌==◌,
}
use cloudhost_firewall_autou.Strings.{codes}
use cloudhost_firewall_autou.Syncer.Observation
use cloudhost_firewall_autou.Syncer.Round

foldl-perm {ℓ κ} :
    {A : Type ℓ} {S : Type κ} (f : S → A → S)
    → ((s : S) (x y : A) → f (f s x) y ≡ f (f s y) x)
    → (xs ys : List A) → Permᴰ xs ys
    → (s : S) → foldl f s xs ≡ foldl f s ys
foldl-perm f comm xs ys Permᴰ.nil s = refl
foldl-perm f comm (a ∷ xs) (b ∷ ys) (Permᴰ.cons e p) s = rw e (foldl-perm f comm xs ys p (f s b))
foldl-perm f comm (a ∷ b ∷ l) (a' ∷ b' ∷ _) (Permᴰ.swap e d) s =
    rw (e, d) (ap (λ t. foldl f t l) (comm s b' a'))
foldl-perm f comm xs ys (Permᴰ.trans p q) s = foldl-perm f comm _ _ p s ∙ foldl-perm f comm _ _ q s

-- What an observation adds to the four classes and the two sums.
record Share : Type 0 where
  observed : ℕ
  estimated : ℕ
  historical : ℕ
  unknown : ℕ
  candidates : ℕ
  deferred : ℕ

abbrev share : Option Observation.CleanupObservation → Share
share none = record {
  observed = 0;
  estimated = 0;
  historical = 0;
  unknown = 1;
  candidates = 0;
  deferred = 0;
}
share (some o) =
    if o.historical
    then record {
      observed = 0;
      estimated = 0;
      historical = 1;
      unknown = 0;
      candidates = 0;
      deferred = 0;
    }
    else if (o.basis == codes "delete_progress") || not o.desired_complete
    then record {
      observed = 0;
      estimated = 1;
      historical = 0;
      unknown = 0;
      candidates = 0;
      deferred = 0;
    }
    else record {
      observed = 1;
      estimated = 0;
      historical = 0;
      unknown = 0;
      candidates = o.candidates;
      deferred = o.deferred;
    }

abbrev shared :
    Observation.CleanupObservationSummary → Share → Observation.CleanupObservationSummary
shared s d = record {
  observed_targets = s.observed_targets + d.observed;
  estimated_targets = s.estimated_targets + d.estimated;
  historical_targets = s.historical_targets + d.historical;
  unknown_targets = s.unknown_targets + d.unknown;
  observed_candidates = s.observed_candidates + d.candidates;
  observed_deferred = s.observed_deferred + d.deferred;
  complete =
      s.estimated_targets
        + d.estimated
        + (s.historical_targets + d.historical)
        + (s.unknown_targets + d.unknown)
      == 0;
}

add_observation-shared :
    (s : Observation.CleanupObservationSummary) (r : Observation.TargetResult)
    → Observation.add_observation s r ≡ shared s (share r.cleanup_observation)
unfolding Observation.add_observation
add_observation-shared s r = by_observation r.cleanup_observation
  where
    by_observation :
        (o : Option Observation.CleanupObservation)
        → (let t = Observation.classify s o in
            record t {
              complete = t.estimated_targets + t.historical_targets + t.unknown_targets == 0;
            })
          ≡ shared s (share o)
    by_observation none = ground arith
    by_observation (some o) = ground arith

shared_comm :
    (s : Observation.CleanupObservationSummary) (x y : Share)
    → shared (shared s x) y ≡ shared (shared s y) x
shared_comm s x y = ground arith

add_observation_comm :
    (s : Observation.CleanupObservationSummary) (x y : Observation.TargetResult)
    → Observation.add_observation (Observation.add_observation s x) y
      ≡ Observation.add_observation (Observation.add_observation s y) x
add_observation_comm s x y =
    let a = share x.cleanup_observation in
    let b = share y.cleanup_observation in
    add_observation-shared (Observation.add_observation s x) y
    ∙ ap (λ t. shared t b) (add_observation-shared s x)
    ∙ shared_comm s a b
    ∙ sym (
        add_observation-shared (Observation.add_observation s y) x
        ∙ ap (λ t. shared t a) (add_observation-shared s y))

add32_comm : (c a b : ℕ) → Round.add32 (Round.add32 c a) b ≡ Round.add32 (Round.add32 c b) a
add32_comm c a b = omega arith

-- The four class counters of a round.
abbrev Classes : Type 0
Classes = ℕ × ℕ × ℕ × ℕ

abbrev classes_of : Round.RoundCounters → Classes
classes_of c = (c.ok, c.changed, c.failed, c.skipped)

abbrev class_step : Classes → Observation.TargetOutcome → Bool → Classes
class_step (a, b, c, d) Observation.target_failed m = (a, b, Round.add32 c 1, d)
class_step (a, b, c, d) Observation.target_partial m = (a, b, c, Round.add32 d 1)
class_step (a, b, c, d) Observation.target_success true = (a, Round.add32 b 1, c, d)
class_step (a, b, c, d) Observation.target_success false = (Round.add32 a 1, b, c, d)

class_step_comm :
    (s : Classes) (o p : Observation.TargetOutcome) (m n : Bool)
    → class_step (class_step s o m) p n ≡ class_step (class_step s p n) o m
class_step_comm s Observation.target_failed Observation.target_failed m n = refl
class_step_comm s Observation.target_failed Observation.target_partial m n = refl
class_step_comm s Observation.target_failed Observation.target_success m true = refl
class_step_comm s Observation.target_failed Observation.target_success m false = refl
class_step_comm s Observation.target_partial Observation.target_failed m n = refl
class_step_comm s Observation.target_partial Observation.target_partial m n = refl
class_step_comm s Observation.target_partial Observation.target_success m true = refl
class_step_comm s Observation.target_partial Observation.target_success m false = refl
class_step_comm s Observation.target_success Observation.target_failed true n = refl
class_step_comm s Observation.target_success Observation.target_failed false n = refl
class_step_comm s Observation.target_success Observation.target_partial true n = refl
class_step_comm s Observation.target_success Observation.target_partial false n = refl
class_step_comm s Observation.target_success Observation.target_success true true = refl
class_step_comm s Observation.target_success Observation.target_success true false = refl
class_step_comm s Observation.target_success Observation.target_success false true = refl
class_step_comm s Observation.target_success Observation.target_success false false = refl

abbrev wrote : Observation.TargetResult → Bool
wrote r = ltb 0 r.added || ltb 0 r.deleted

-- A result, counted by its class and its sums.
abbrev assembled : Classes → Round.RoundCounters → Observation.TargetResult → Round.RoundCounters
assembled (a, b, f, s) c r = record {
  ok = a;
  changed = b;
  failed = f;
  skipped = s;
  added = Round.add32 c.added r.added;
  deleted = Round.add32 c.deleted r.deleted;
  cleanup_candidates = Round.add32 c.cleanup_candidates r.cleanup_candidates;
  cleanup_deleted = Round.add32 c.cleanup_deleted r.cleanup_deleted;
  cleanup_deferred = Round.add32 c.cleanup_deferred r.cleanup_deferred;
  observations = Observation.add_observation c.observations r;
}

class_result-assembled :
    (c : Round.RoundCounters) (r : Observation.TargetResult) (o : Observation.TargetOutcome)
    → classes_of (Round.class_result c r o) ≡ class_step (classes_of c) o (wrote r)
unfolding Round.class_result
class_result-assembled c r Observation.target_failed = refl
class_result-assembled c r Observation.target_partial = refl
class_result-assembled c r Observation.target_success = elim (Bool-cases (wrote r)) [
  | inl wrote_some ↦ rw wrote_some refl
  | inr wrote_none ↦ rw wrote_none refl
]

count_result-assembled :
    (c : Round.RoundCounters) (r : Observation.TargetResult)
    → Round.count_result c r ≡ assembled (class_step (classes_of c) r.outcome (wrote r)) c r
unfolding Round.count_result
count_result-assembled c r = ap (λ k. assembled k c r) (class_result-assembled c r r.outcome)

assembled_comm :
    (c : Round.RoundCounters) (x y : Observation.TargetResult) (k k' l l' : Classes)
    → k ≡ l
    → assembled k (assembled k' c x) y ≡ assembled l (assembled l' c y) x
assembled_comm c x y k k' l l' e =
    rw
      (
        e,
        add32_comm c.added x.added y.added,
        add32_comm c.deleted x.deleted y.deleted,
        add32_comm c.cleanup_candidates x.cleanup_candidates y.cleanup_candidates,
        add32_comm c.cleanup_deleted x.cleanup_deleted y.cleanup_deleted,
        add32_comm c.cleanup_deferred x.cleanup_deferred y.cleanup_deferred,
        add_observation_comm c.observations x y,
      )
      refl

count_result_comm :
    (c : Round.RoundCounters) (x y : Observation.TargetResult)
    → Round.count_result (Round.count_result c x) y ≡ Round.count_result (Round.count_result c y) x
count_result_comm c x y =
    count_result-assembled (Round.count_result c x) y
    ∙ ap (λ t. assembled (class_step (classes_of t) y.outcome (wrote y)) t y)
        (count_result-assembled c x)
    ∙ assembled_comm c x y _ (class_step (classes_of c) x.outcome (wrote x)) _
        (class_step (classes_of c) y.outcome (wrote y))
        (class_step_comm (classes_of c) x.outcome y.outcome (wrote x) (wrote y))
    ∙ sym (
        count_result-assembled (Round.count_result c y) x
        ∙ ap (λ t. assembled (class_step (classes_of t) x.outcome (wrote x)) t x)
            (count_result-assembled c y))

-- The summary of a round is the same, in whichever order its targets end.
pub summary_of-order :
    (total : ℕ) (rs rs' : List Observation.TargetResult)
    → Permᴰ rs rs'
    → Round.summary_of total (foldl Round.count_result Round.no_counts rs)
      ≡ Round.summary_of total (foldl Round.count_result Round.no_counts rs')
summary_of-order total rs rs' p =
    ap (Round.summary_of total)
      (foldl-perm Round.count_result count_result_comm rs rs' p Round.no_counts)
