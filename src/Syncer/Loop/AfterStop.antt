-- ===== src/Syncer/Loop/AfterStop.antt =====
-- The rounds that begin after Stop has set its flag.
use cloudhost_firewall_autou.Common.{
  ℕ, ◌+◌, ◌≤◌, ◌<◌, ◌≡◌, refl, sym, ◌∙◌, Bool, true, Option, nat_eq, arith, false≢true, total,
  total-update, total_le_one,
}
use cloudhost_firewall_autou.Syncer.Loop
use cloudhost_firewall_autou.Syncer.Loop.Steps
use cloudhost_firewall_autou.Syncer.Loop.Single.{
  is_inside, publish-Same, switch-Same, run_stopped, Reach-IsSingle,
}

-- Whether a call of Run has found the stop flag unset and has not yet begun its round.
abbrev pub passed : Loop.Run → ℕ
passed (Loop.boot_passed i) = 1
passed (Loop.check_passed i) = 1
passed (Loop.resume_passed st) = 1
passed _ = 0

-- Some steps of any goroutines.
pub data Walk (n : ℕ) (e : Steps.Engine) : Steps.Engine → Type 0 where
  here : Walk n e e
  onward : {f g : Steps.Engine} → Walk n e f → Steps.Step n f g → Walk n e g

decide-passed :
    (o : Option Loop.Published) (pending was : Bool) (i : ℕ) (completed : Bool)
    → passed (Loop.decide o pending was i completed) ≡ 0
unfolding Loop.decide
decide-passed o pending was i completed = ground arith

run_passed :
    {s t : Loop.SyncerState} {r r' : Loop.Run}
    → Steps.RunStep s r t r'
    → s.stopped ≡ true
    → t.rounds + passed r' ≡ s.rounds + passed r
run_passed (Steps.call a b) h = refl
run_passed {s} (Steps.consume {was} {completed} {i}) h =
    omega (arith, decide-passed s.runtime s.pending_resume was i completed)
run_passed (Steps.boot_allowed a) h = absurd (false≢true (sym a ∙ h))
run_passed (Steps.allowed a) h = absurd (false≢true (sym a ∙ h))
run_passed (Steps.resume_allowed a) h = absurd (false≢true (sym a ∙ h))
run_passed st h = ground arith

-- The rounds that have begun, and those that a call is about to begin.
abbrev pub admitted : ℕ → Steps.Engine → ℕ
admitted n e = e.core.rounds + total passed n e.runs

Step-admitted :
    {n : ℕ} {e f : Steps.Engine}
    → Steps.Step n e f
    → e.core.stopped ≡ true
    → (admitted n f ≡ admitted n e) × (f.core.stopped ≡ true)
Step-admitted {n} {e} (Steps.running i {s} {r} lt st) h =
    (omega (arith, run_passed st h, total-update passed n i e.runs r lt), run_stopped st ∙ h)
Step-admitted {n} {e} (Steps.publish next) h =
    let same = publish-Same next e.core in (omega (arith, same.3), same.2 ∙ h)
Step-admitted {n} {e} (Steps.switch on fresh {s} q) h =
    let same = switch-Same on fresh e.core s q in (omega (arith, same.3), same.2 ∙ h)
Step-admitted (Steps.notify q) h = (refl, h)
Step-admitted Steps.trigger_sync h = (refl, h)
Step-admitted (Steps.stop_flag q) h = (refl, refl)
Step-admitted (Steps.stop_close q) h = (refl, h)
Step-admitted (Steps.stop_done q) h = (refl, h)

Walk-admitted :
    {n : ℕ} {e f : Steps.Engine}
    → Walk n e f
    → e.core.stopped ≡ true
    → (admitted n f ≡ admitted n e) × (f.core.stopped ≡ true)
Walk-admitted here h = (refl, h)
Walk-admitted (onward w st) h =
    let (same, still) = Walk-admitted w h in
    let (again, flag) = Step-admitted st still in (again ∙ same, flag)

passed-le : (r : Loop.Run) → passed r ≤ 1
passed-le r = ground arith

passed-inside : (r : Loop.Run) → 0 < passed r → is_inside r ≡ true
passed-inside r h = ground arith

-- Once Stop has set its flag, no steps of any goroutines let another call of Run through a gate: the
-- rounds that have begun, with the calls that have passed a gate and not yet begun their round, stay
-- as many. When the flag is set there is at most one such call.
pub admitted_after_stop :
    {n : ℕ} {st : Option Loop.Published} {e f : Steps.Engine}
    → Steps.Reach n st e
    → Walk n e f
    → e.core.stopped ≡ true
    → (f.core.rounds + total passed n f.runs ≡ e.core.rounds + total passed n e.runs)
      × (total passed n e.runs ≤ 1)
admitted_after_stop {n} {st} {e} r w h =
    let single = Reach-IsSingle r in
    (
      (Walk-admitted w h).0,
      total_le_one passed n e.runs (λ i. passed-le (e.runs i))
          (λ i j a b. single.alone i j (passed-inside (e.runs i) a) (passed-inside (e.runs j) b)),
    )
