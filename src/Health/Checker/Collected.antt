-- ===== src/Health/Checker/Collected.antt =====
-- What the list of reasons holds: each reason with its condition.
use mathlib.Core.Path.{ap₂}
use cloudhost_firewall_autou.Common.{
  ℕ, ◌+◌, ◌-◌, ◌≡◌, refl, Bool, true, false, not, ◌&&◌, ◌||◌, Option, none, some, List, [], ◌∷◌,
  ◌++◌, any, ltb, ◌==◌, nat_eq, if◌then◌else◌, is_none, arith, sym, ap, ◌∙◌, Bool-cases, inl, inr,
}
use cloudhost_firewall_autou.Syncer.Round.{
  RoundOutcome, round_success, round_failed, round_partial, round_idle,
}
use cloudhost_firewall_autou.Health.Checker

abbrev pub ended_as : RoundOutcome → RoundOutcome → Bool
ended_as round_failed round_failed = true
ended_as round_partial round_partial = true
ended_as _ _ = false

abbrev pub last_ended : RoundOutcome → Option RoundOutcome → Bool
last_ended o none = false
last_ended o (some p) = ended_as o p

-- The condition of each reason.
abbrev pub applies : Checker.Reading → Checker.Reason → Bool
applies d Checker.reason_sqlite = not d.ping_ok
applies d Checker.reason_syncer_stopped =
    not d.status.running
    && (not (is_none d.status.started_at)
        || ltb (Checker.grace_of d.startup_grace) (d.now - d.status.process_started_at))
applies d Checker.reason_round_timeout =
    d.status.enabled
    && Checker.exceeds d.now (Checker.timeout_of d.health_timeout) d.status.round_started_at
applies d Checker.reason_last_round_failed =
    d.status.enabled && last_ended round_failed d.status.last_outcome
applies d Checker.reason_last_round_partial =
    d.status.enabled && last_ended round_partial d.status.last_outcome
applies d Checker.reason_schedule_stalled =
    d.status.enabled
    && (is_none d.status.round_started_at
        && Checker.exceeds d.now (d.interval + Checker.timeout_of d.health_timeout)
            d.status.last_sync)
applies d Checker.reason_no_completed_round =
    d.status.enabled
    && (is_none d.status.round_started_at
        && (is_none d.status.last_sync
            && ltb (Checker.timeout_of d.health_timeout) (d.now - d.status.process_started_at)))

abbrev pub has_reason : List Checker.Reason → Checker.Reason → Bool
has_reason rs r = any (λ s. Checker.reason_number s == Checker.reason_number r) rs

or_false : (b : Bool) → (b || false) ≡ b
or_false true = refl
or_false false = refl

if-or : (b c : Bool) → (if b then c else true) ≡ (not b || c)
if-or true c = refl
if-or false c = refl

has_reason-append :
    (xs ys : List Checker.Reason) (r : Checker.Reason)
    → has_reason (xs ++ ys) r ≡ (has_reason xs r || has_reason ys r)
unfolding any
has_reason-append [] ys r = refl
has_reason-append (x ∷ xs) ys r = ground (arith, has_reason-append xs ys r)

has_reason-compact_with :
    (s : Checker.Reason) (rs : List Checker.Reason) (r : Checker.Reason)
    → has_reason (Checker.compact_with s rs) r ≡ has_reason (s ∷ rs) r
unfolding any
has_reason-compact_with s [] r = refl
has_reason-compact_with s (t ∷ rest) r = ground arith

pub has_reason-compact :
    (rs : List Checker.Reason) (r : Checker.Reason)
    → has_reason (Checker.compact rs) r ≡ has_reason rs r
unfolding any Checker.compact
has_reason-compact [] r = refl
has_reason-compact (s ∷ rs) r =
    has_reason-compact_with s (Checker.compact rs) r ∙ ground (arith, has_reason-compact rs r)

has-reason_if :
    (b : Bool) (s r : Checker.Reason)
    → has_reason (Checker.reason_if b s) r
      ≡ (b && (Checker.reason_number s == Checker.reason_number r))
unfolding any
has-reason_if true s r = ground arith
has-reason_if false s r = refl

has-outcome_reason :
    (o : Option RoundOutcome) (r : Checker.Reason)
    → has_reason (Checker.outcome_reason o) r ≡ (
        (last_ended round_failed o
          && (Checker.reason_number Checker.reason_last_round_failed == Checker.reason_number r))
        || (last_ended round_partial o
            && (Checker.reason_number Checker.reason_last_round_partial
                == Checker.reason_number r)))
unfolding any
has-outcome_reason none r = refl
has-outcome_reason (some round_success) r = refl
has-outcome_reason (some round_failed) r = ground arith
has-outcome_reason (some round_partial) r = ground arith
has-outcome_reason (some round_idle) r = refl

abbrev pub is_reason : Checker.Reason → Checker.Reason → Bool
is_reason s r = Checker.reason_number s == Checker.reason_number r

abbrev scheduled : ℕ → ℕ → ℕ → ℕ → Option ℕ → Option ℕ → List Checker.Reason
scheduled now timeout limit begun round last =
    if is_none round
    then (if is_none last
        then Checker.reason_if (ltb timeout (now - begun)) Checker.reason_no_completed_round
        else Checker.reason_if (Checker.exceeds now limit last) Checker.reason_schedule_stalled)
    else []

has-scheduled :
    (now timeout limit begun : ℕ) (round last : Option ℕ) (r : Checker.Reason)
    → has_reason (scheduled now timeout limit begun round last) r ≡ (
        ((is_none round && Checker.exceeds now limit last)
          && is_reason Checker.reason_schedule_stalled r)
        || ((is_none round && (is_none last && ltb timeout (now - begun)))
            && is_reason Checker.reason_no_completed_round r))
unfolding any
has-scheduled now timeout limit begun (some t) last r = refl
has-scheduled now timeout limit begun none none r =
    has-reason_if (ltb timeout (now - begun)) Checker.reason_no_completed_round r
has-scheduled now timeout limit begun none (some t) r =
    has-reason_if (ltb limit (now - t)) Checker.reason_schedule_stalled r
    ∙ sym (or_false (ltb limit (now - t) && is_reason Checker.reason_schedule_stalled r))

has-stopped :
    (d : Checker.Reading) (r : Checker.Reason)
    → has_reason (Checker.stopped_reason d) r
      ≡ (applies d Checker.reason_syncer_stopped && is_reason Checker.reason_syncer_stopped r)
has-stopped d r =
    has-reason_if _ Checker.reason_syncer_stopped r
    ∙ ap (λ b. (not d.status.running && b) && is_reason Checker.reason_syncer_stopped r)
        (if-or (is_none d.status.started_at)
          (ltb (Checker.grace_of d.startup_grace) (d.now - d.status.process_started_at)))

abbrev when_enabled : Checker.Reading → List Checker.Reason
when_enabled d =
    Checker.reason_if
      (Checker.exceeds d.now (Checker.timeout_of d.health_timeout) d.status.round_started_at)
      Checker.reason_round_timeout
    ++ (Checker.outcome_reason d.status.last_outcome ++ Checker.schedule_reason d)

has-when_enabled :
    (d : Checker.Reading) (r : Checker.Reason)
    → has_reason (if d.status.enabled then when_enabled d else []) r
      ≡ (d.status.enabled && has_reason (when_enabled d) r)
unfolding any
has-when_enabled d r = elim (Bool-cases d.status.enabled) [
  | inl on ↦ rw on refl
  | inr off ↦ rw off refl
]

-- Every reason with its condition.
pub collected :
    (d : Checker.Reading) (r : Checker.Reason)
    → has_reason (Checker.collect d) r ≡ (
        (not d.ping_ok && is_reason Checker.reason_sqlite r)
        || ((applies d Checker.reason_syncer_stopped && is_reason Checker.reason_syncer_stopped r)
            || (d.status.enabled
                && ((Checker.exceeds d.now
                        (Checker.timeout_of d.health_timeout)
                        d.status.round_started_at
                      && is_reason Checker.reason_round_timeout r)
                    || (((last_ended round_failed d.status.last_outcome
                            && is_reason Checker.reason_last_round_failed r)
                          || (last_ended round_partial d.status.last_outcome
                              && is_reason Checker.reason_last_round_partial r))
                        || (((is_none d.status.round_started_at
                                && Checker.exceeds d.now
                                    (d.interval + Checker.timeout_of d.health_timeout)
                                    d.status.last_sync)
                              && is_reason Checker.reason_schedule_stalled r)
                            || ((is_none d.status.round_started_at
                                  && (is_none d.status.last_sync
                                      && ltb
                                          (Checker.timeout_of d.health_timeout)
                                          (d.now - d.status.process_started_at)))
                                && is_reason Checker.reason_no_completed_round r)))))))
unfolding Checker.collect
collected d r =
    has_reason-append (Checker.reason_if (not d.ping_ok) Checker.reason_sqlite) _ r
    ∙ ap₂ ◌||◌ (has-reason_if (not d.ping_ok) Checker.reason_sqlite r) (
        has_reason-append (Checker.stopped_reason d) _ r
        ∙ ap₂ ◌||◌ (has-stopped d r) (
            has-when_enabled d r
            ∙ ap (λ b. d.status.enabled && b)
                (has_reason-append
                    (Checker.reason_if
                      (Checker.exceeds d.now (Checker.timeout_of d.health_timeout)
                        d.status.round_started_at)
                      Checker.reason_round_timeout)
                    _ r
                  ∙ ap₂ ◌||◌ (has-reason_if _ Checker.reason_round_timeout r) (
                      has_reason-append (Checker.outcome_reason d.status.last_outcome) _ r
                      ∙ ap₂ ◌||◌ (has-outcome_reason d.status.last_outcome r) (
                          has-scheduled d.now (Checker.timeout_of d.health_timeout)
                            (d.interval + Checker.timeout_of d.health_timeout)
                            d.status.process_started_at d.status.round_started_at d.status.last_sync
                            r)))))
