-- ===== src/Syncer/Loop/Shutdown.antt =====
-- What Stop does to the loop: no gate opens after it, and `doneCh` is closed once.
use cloudhost_firewall_autou.Common.{
  ℕ, ◌+◌, ◌≤◌, ◌≡◌, inl, inr, refl, sym, ap, ◌∙◌, subst, Bool, true, false, not, Option, none, some,
  if◌then◌else◌, nat_eq, arith, false≢true, Bool-cases, update, update-cases,
}
use cloudhost_firewall_autou.Syncer.Loop
use cloudhost_firewall_autou.Syncer.Loop.Steps
use cloudhost_firewall_autou.Syncer.Loop.Single.{
  is_inside, Same, publish-Same, switch-Same, run_stopped, marks, IsSingle, other_idle,
  Reach-IsSingle,
}

-- How often a call of Run, and Stop, have closed the channel.
abbrev by_run : Loop.Run → ℕ
by_run Loop.exited = 1
by_run _ = 0

abbrev by_stop : Loop.Stopper → ℕ
by_stop (Loop.finished true) = 1
by_stop _ = 0

-- Whether Stop has seen that Run was never called.
abbrev saw_none : Loop.Stopper → Bool
saw_none Loop.idle = false
saw_none (Loop.flagged never) = never
saw_none (Loop.closing never) = never
saw_none (Loop.finished never) = never

abbrev is_idle : Loop.Stopper → Bool
is_idle Loop.idle = true
is_idle _ = false

record Inv (e : Steps.Engine) : Type 0 where
  once : e.core.done_closed ≤ 1
  live : (i : ℕ) → is_inside (e.runs i) ≡ true → by_run (e.runs i) ≡ 0 → e.core.done_closed ≡ 0
  unstarted : e.core.run_guard ≡ false → by_stop e.stopper ≡ 0 → e.core.done_closed ≡ 0
  kept_out : saw_none e.stopper ≡ true → e.core.run_guard ≡ false
  flag : e.core.stopped ≡ not (is_idle e.stopper)

idle_saw_none : (x : Loop.Stopper) → is_idle x ≡ true → saw_none x ≡ false
idle_saw_none x h = ground arith

idle-by_stop : (x : Loop.Stopper) → is_idle x ≡ true → by_stop x ≡ 0
idle-by_stop x h = ground arith

outside-by_run : (r : Loop.Run) → is_inside r ≡ false → by_run r ≡ 0
outside-by_run r h = ground arith

by_run-le : (r : Loop.Run) → by_run r ≤ 1
by_run-le r = ground arith

decide-by_run :
    (o : Option Loop.Published) (pending was : Bool) (i : ℕ) (completed : Bool)
    → by_run (Loop.decide o pending was i completed) ≡ 0
unfolding Loop.decide
decide-by_run none pending was i completed = refl
decide-by_run (some st) pending was i completed = ground arith

-- Where the first state of a call's step has exited, there is no step.
was_running : {s t : Loop.SyncerState} {r r' : Loop.Run} → Steps.RunStep s r t r' → by_run r ≡ 0
was_running (Steps.call a b) = refl
was_running st = ground arith

run_done :
    {s t : Loop.SyncerState} {r r' : Loop.Run}
    → Steps.RunStep s r t r'
    → t.done_closed ≡ s.done_closed + by_run r'
run_done (Steps.call a b) = omega arith
run_done {s} (Steps.consume {was} {completed} {i}) =
    omega (arith, decide-by_run s.runtime s.pending_resume was i completed)
run_done st = ground arith

run_guard_back :
    {s t : Loop.SyncerState} {r r' : Loop.Run}
    → Steps.RunStep s r t r'
    → t.run_guard ≡ false
    → s.run_guard ≡ false
run_guard_back (Steps.call a b) h = b
run_guard_back st h = ground arith

-- While Stop has not seen an unused guard, or after it, the guard stays as it is.
run_kept_out :
    {s t : Loop.SyncerState} {r r' : Loop.Run} (x : Loop.Stopper)
    → s.stopped ≡ not (is_idle x)
    → Steps.RunStep s r t r'
    → saw_none x ≡ true
    → s.run_guard ≡ false
    → t.run_guard ≡ false
run_kept_out x flag (Steps.call a b) w g =
    absurd (false≢true (ground (arith, flag, a, idle_saw_none x, w)))
run_kept_out x flag st w g = ground arith

-- A call that is inside after its step makes it while the channel is open.
free :
    {e : Steps.Engine} {r r' : Loop.Run} {t : Loop.SyncerState}
    → Inv e
    → (is_inside r ≡ true → by_run r ≡ 0 → e.core.done_closed ≡ 0)
    → Steps.RunStep e.core r t r'
    → is_inside r' ≡ true
    → e.core.done_closed ≡ 0
free {e} inv live (Steps.call a b) h =
    inv.unstarted b (ground (arith, inv.flag, a, idle-by_stop e.stopper))
free inv live (Steps.absorbed a) h = absurd (false≢true h)
free inv live (Steps.repeated a b) h = absurd (false≢true h)
free inv live st h = live refl refl

module _ {e : Steps.Engine} {t : Loop.SyncerState} {r' : Loop.Run} (inv : Inv e)
    (single : IsSingle e) (i : ℕ) (st : Steps.RunStep e.core (e.runs i) t r') where
  running_once : t.done_closed ≤ 1
  running_once = elim (Bool-cases (is_inside r')) [
    | inl inside ↦ omega (arith, run_done st, free inv (inv.live i) st inside, by_run-le r')
    | inr out ↦ omega (arith, run_done st, outside-by_run r' out, inv.once)
  ]

  running_live :
      (j : ℕ)
      → is_inside (update e.runs i r' j) ≡ true
      → by_run (update e.runs i r' j) ≡ 0
      → t.done_closed ≡ 0
  running_live j h q = elim (update-cases e.runs i r' j) [
    | inl (same, at) ↦
        let closed = free inv (inv.live i) st (sym (ap is_inside at) ∙ h) in
        omega (arith, run_done st, closed, ap by_run at, q)
    | inr (differ, at) ↦
        let inside = sym (ap is_inside at) ∙ h in
        sym (ap (λ s. Loop.SyncerState.done_closed s) (other_idle single i j differ inside st))
        ∙ inv.live j inside (sym (ap by_run at) ∙ q)
  ]

  running_unstarted : t.run_guard ≡ false → by_stop e.stopper ≡ 0 → t.done_closed ≡ 0
  running_unstarted g q = elim (Bool-cases (is_inside r')) [
    | inl inside ↦ absurd (false≢true (sym g ∙ marks st (single.guarded i) inside))
    | inr out ↦
        omega (arith, run_done st, outside-by_run r' out, inv.unstarted (run_guard_back st g) q)
  ]

  running-Inv : (f : Steps.Engine) → f ≡ record e { core = t; runs = update e.runs i r' } → Inv f
  running-Inv f same = subst Inv (sym same) (record {
    once = running_once;
    live = running_live;
    unstarted = running_unstarted;
    kept_out = λ w. run_kept_out e.stopper inv.flag st w (inv.kept_out w);
    flag = run_stopped st ∙ inv.flag;
  })

-- A step that leaves the guard, the flag and the channel as they were.
Same-Inv :
    {e : Steps.Engine} (s : Loop.SyncerState) (owed : ℕ)
    → Same e.core s
    → Inv e
    → Inv (record e { core = s; owed = owed })
Same-Inv s owed (closes, guarded, flag, rounds) inv = record {
  once = omega (arith, closes, inv.once);
  live = λ i h q. closes ∙ inv.live i h q;
  unstarted = λ g q. closes ∙ inv.unstarted (sym guarded ∙ g) q;
  kept_out = λ w. guarded ∙ inv.kept_out w;
  flag = flag ∙ inv.flag;
}

-- Stop closes the channel only if the guard was free when it set its flag.
stop_done-Inv :
    (e : Steps.Engine) (never : Bool)
    → e.stopper ≡ Loop.closing never
    → Inv e
    → IsSingle e
    → Inv (record e {
      core = record e.core {
        done_closed = (if never then e.core.done_closed + 1 else e.core.done_closed);
      };
      stopper = Loop.finished never;
    })
stop_done-Inv e true h inv single =
    let free_guard = inv.kept_out (rw h refl) in
    let still_open = inv.unstarted free_guard (rw h refl) in
    record {
      once = omega (arith, still_open);
      live = λ i inside q. absurd (false≢true (sym free_guard ∙ single.guarded i inside));
      unstarted = λ g q. absurd (omega (arith, q));
      kept_out = λ w. free_guard;
      flag = inv.flag ∙ rw h refl;
    }
stop_done-Inv e false h inv single = record {
  once = inv.once;
  live = inv.live;
  unstarted = λ g q. inv.unstarted g (rw h refl);
  kept_out = λ w. absurd (false≢true w);
  flag = inv.flag ∙ rw h refl;
}

Step-Inv : {n : ℕ} {e f : Steps.Engine} → Steps.Step n e f → IsSingle e → Inv e → Inv f
Step-Inv (Steps.running i lt st) single inv = running-Inv inv single i st _ refl
Step-Inv {n} {e} (Steps.publish next) single inv = Same-Inv _ _ (publish-Same next e.core) inv
Step-Inv {n} {e} (Steps.switch on fresh {s} h) single inv =
    Same-Inv s _ (switch-Same on fresh e.core s h) inv
Step-Inv (Steps.notify h) single inv = Same-Inv _ _ (refl, refl, refl, refl) inv
Step-Inv Steps.trigger_sync single inv = Same-Inv _ _ (refl, refl, refl, refl) inv
Step-Inv {n} {e} (Steps.stop_flag h) single inv = record {
  once = inv.once;
  live = inv.live;
  unstarted = λ g q. inv.unstarted g (rw h refl);
  kept_out = λ w. ground arith;
  flag = refl;
}
Step-Inv (Steps.stop_close h) single inv = record {
  once = inv.once;
  live = inv.live;
  unstarted = λ g q. inv.unstarted g (rw h refl);
  kept_out = λ w. inv.kept_out (rw h w);
  flag = inv.flag ∙ rw h refl;
}
Step-Inv {n} {e} (Steps.stop_done {never} h) single inv = stop_done-Inv e never h inv single

Reach-Inv : {n : ℕ} {st : Option Loop.Published} {e : Steps.Engine} → Steps.Reach n st e → Inv e
Reach-Inv Steps.start = record {
  once = omega arith;
  live = λ i h q. refl;
  unstarted = λ g q. refl;
  kept_out = λ w. refl;
  flag = refl;
}
Reach-Inv (Steps.later r st) = Step-Inv st (Reach-IsSingle r) (Reach-Inv r)

-- With any number of calls of Run and a Stop, in any order of their steps, `doneCh` is closed at most
-- once, so that no close panics.
pub done_once :
    {n : ℕ} {st : Option Loop.Published} {e : Steps.Engine}
    → Steps.Reach n st e
    → e.core.done_closed ≤ 1
done_once r = (Reach-Inv r).once
