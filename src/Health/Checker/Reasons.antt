-- ===== src/Health/Checker/Reasons.antt =====
-- Each reason is reported exactly under its own condition.
use cloudhost_firewall_autou.Common.{
  ◌+◌, ◌-◌, ◌≡◌, refl, Bool, not, ◌&&◌, ◌||◌, ltb, nat_eq, is_none, arith, ◌∙◌,
}
use cloudhost_firewall_autou.Syncer.Round.{round_failed, round_partial}
use cloudhost_firewall_autou.Health.Checker
use cloudhost_firewall_autou.Health.Checker.Collected.{
  applies, has_reason, is_reason, last_ended, collected, has_reason-compact,
}

-- The condition that belongs to a reason, of seven.
abbrev choose : (a b c d e f g : Bool) → Checker.Reason → Bool
choose a b c d e f g Checker.reason_sqlite = a
choose a b c d e f g Checker.reason_syncer_stopped = b
choose a b c d e f g Checker.reason_round_timeout = c
choose a b c d e f g Checker.reason_last_round_failed = d
choose a b c d e f g Checker.reason_last_round_partial = e
choose a b c d e f g Checker.reason_schedule_stalled = f
choose a b c d e f g Checker.reason_no_completed_round = g

chosen :
    (a b on c d e f g : Bool) (r : Checker.Reason)
    → ((a && is_reason Checker.reason_sqlite r)
        || ((b && is_reason Checker.reason_syncer_stopped r)
            || (on
                && ((c && is_reason Checker.reason_round_timeout r)
                    || (((d && is_reason Checker.reason_last_round_failed r)
                          || (e && is_reason Checker.reason_last_round_partial r))
                        || ((f && is_reason Checker.reason_schedule_stalled r)
                            || (g && is_reason Checker.reason_no_completed_round r)))))))
      ≡ choose a b (on && c) (on && d) (on && e) (on && f) (on && g) r
unfolding Checker.reason_number
chosen a b on c d e f g Checker.reason_sqlite = ground arith
chosen a b on c d e f g Checker.reason_syncer_stopped = ground arith
chosen a b on c d e f g Checker.reason_round_timeout = ground arith
chosen a b on c d e f g Checker.reason_last_round_failed = ground arith
chosen a b on c d e f g Checker.reason_last_round_partial = ground arith
chosen a b on c d e f g Checker.reason_schedule_stalled = ground arith
chosen a b on c d e f g Checker.reason_no_completed_round = ground arith

choose-applies :
    (d : Checker.Reading) (r : Checker.Reason)
    → choose
        (applies d Checker.reason_sqlite)
        (applies d Checker.reason_syncer_stopped)
        (applies d Checker.reason_round_timeout)
        (applies d Checker.reason_last_round_failed)
        (applies d Checker.reason_last_round_partial)
        (applies d Checker.reason_schedule_stalled)
        (applies d Checker.reason_no_completed_round)
        r
      ≡ applies d r
choose-applies d Checker.reason_sqlite = refl
choose-applies d Checker.reason_syncer_stopped = refl
choose-applies d Checker.reason_round_timeout = refl
choose-applies d Checker.reason_last_round_failed = refl
choose-applies d Checker.reason_last_round_partial = refl
choose-applies d Checker.reason_schedule_stalled = refl
choose-applies d Checker.reason_no_completed_round = refl

-- A check reports a reason exactly if the reason's own condition holds of what it reads.
pub reasons_exact :
    (d : Checker.Reading) (r : Checker.Reason)
    → has_reason (Checker.evaluate d).reasons r ≡ applies d r
unfolding Checker.evaluate
reasons_exact d r =
    let none_running = is_none d.status.round_started_at in
    has_reason-compact (Checker.collect d) r
    ∙ collected d r
    ∙ chosen (not d.ping_ok) (applies d Checker.reason_syncer_stopped) d.status.enabled
        (Checker.exceeds d.now (Checker.timeout_of d.health_timeout) d.status.round_started_at)
        (last_ended round_failed d.status.last_outcome)
        (last_ended round_partial d.status.last_outcome)
        (none_running
          && Checker.exceeds d.now (d.interval + Checker.timeout_of d.health_timeout)
              d.status.last_sync)
        (none_running
          && (is_none d.status.last_sync
              && ltb (Checker.timeout_of d.health_timeout) (d.now - d.status.process_started_at)))
        r
    ∙ choose-applies d r
