-- ===== src/Syncer/Loop/Wakeup.antt =====
-- No publication that resumes the loop is lost, and the loop never reads a state that is not there.
use cloudhost_firewall_autou.Common.{
  ℕ, suc, ◌<◌, ◌≡◌, ◌≢◌, ◌⊎◌, inl, inr, refl, sym, ap, ◌∙◌, subst, Bool, true, false, not, ◌&&◌,
  ◌||◌, Option, none, some, is_none, nat_eq, arith, false≢true, Bool-cases, update, update-cases,
}
use cloudhost_firewall_autou.Syncer.Loop
use cloudhost_firewall_autou.Syncer.Loop.Steps
use cloudhost_firewall_autou.Syncer.Loop.Single.{is_inside, IsSingle, other_idle, Reach-IsSingle}

-- Whether Run will read the state before it waits again.
abbrev pub will_read : Loop.Run → Bool
will_read Loop.outside = true
will_read Loop.turned_away = true
will_read Loop.entered = true
will_read Loop.marked = true
will_read Loop.boot = true
will_read (Loop.consuming was i completed) = true
will_read Loop.quitting = true
will_read Loop.leaving = true
will_read Loop.exited = true
will_read _ = false

-- Whether Run stands behind a state that was there.
abbrev pub has_begun : Loop.Run → Bool
has_begun Loop.outside = false
has_begun Loop.turned_away = false
has_begun Loop.entered = false
has_begun Loop.marked = false
has_begun Loop.await_state = false
has_begun Loop.quitting = false
has_begun Loop.leaving = false
has_begun Loop.exited = false
has_begun _ = true

abbrev pub is_there : Loop.SyncerState → Bool
is_there s = not (is_none s.runtime)

pub record Inv (s : Loop.SyncerState) (owed : ℕ) (run : Loop.Run) : Type 0 where
  pub woken : s.pending_resume ≡ true → will_read run ≡ false → (s.control ≡ true) ⊎ (0 < owed)
  pub pending_there : s.pending_resume ≡ true → is_there s ≡ true
  pub control_there : s.control ≡ true → is_there s ≡ true
  pub owed_there : 0 < owed → is_there s ≡ true
  pub begun_there : has_begun run ≡ true → is_there s ≡ true

run_runtime :
    {s t : Loop.SyncerState} {r r' : Loop.Run} → Steps.RunStep s r t r' → t.runtime ≡ s.runtime
run_runtime (Steps.call a b) = refl
run_runtime st = ground arith

run_pending :
    {s t : Loop.SyncerState} {r r' : Loop.Run}
    → Steps.RunStep s r t r'
    → t.pending_resume ≡ true
    → s.pending_resume ≡ true
run_pending (Steps.call a b) p = p
run_pending st p = ground arith

run_control :
    {s t : Loop.SyncerState} {r r' : Loop.Run}
    → Steps.RunStep s r t r'
    → t.control ≡ true
    → s.control ≡ true
run_control (Steps.call a b) p = p
run_control st p = ground arith

module _ {s : Loop.SyncerState} {owed : ℕ} where
  run_woken :
      {r r' : Loop.Run} {t : Loop.SyncerState}
      → Inv s owed r
      → Steps.RunStep s r t r'
      → t.pending_resume ≡ true
      → will_read r' ≡ false
      → (t.control ≡ true) ⊎ (0 < owed)
  run_woken inv (Steps.begin_waiting e) p w =
      absurd (false≢true (ground (arith, e, inv.pending_there p)))
  run_woken inv (Steps.boot_consume e) p w = ground arith
  run_woken inv (Steps.consume {was} {completed} {i}) p w = ground arith
  run_woken inv st p w = ground (arith, inv.woken)

  run_begun :
      {r r' : Loop.Run} {t : Loop.SyncerState}
      → Inv s owed r
      → Steps.RunStep s r t r'
      → has_begun r' ≡ true
      → is_there s ≡ true
  run_begun inv (Steps.begin_ready e) b = ground arith
  run_begun inv (Steps.first_state c) b = inv.control_there c
  run_begun inv st b = ground (arith, inv.begun_there)

  RunStep-Inv :
      {r r' : Loop.Run} {t : Loop.SyncerState}
      → Inv s owed r
      → Steps.RunStep s r t r'
      → Inv t owed r'
  RunStep-Inv {t} inv st =
      let same : is_there t ≡ is_there s = ap (λ o. not (is_none o)) (run_runtime st) in
      record {
        woken = run_woken inv st;
        pending_there = λ p. same ∙ inv.pending_there (run_pending st p);
        control_there = λ c. same ∙ inv.control_there (run_control st c);
        owed_there = λ o. same ∙ inv.owed_there o;
        begun_there = λ b. same ∙ run_begun inv st b;
      }

-- A state that was published, with its notification owed.
published-Inv :
    (next : Loop.Published) (s : Loop.SyncerState) {owed : ℕ} {run : Loop.Run}
    → Inv s owed run
    → Inv (Loop.apply_state_locked next s) (suc owed) run
unfolding Loop.apply_state_locked
published-Inv next s inv = record {
  woken = λ p w. inr (omega arith);
  pending_there = λ p. refl;
  control_there = λ c. refl;
  owed_there = λ o. refl;
  begun_there = λ b. refl;
}

switch_to-Inv :
    (on : Bool) (fresh : ℕ) (o : Option Loop.Published) (s t : Loop.SyncerState) (owed : ℕ)
    (run : Loop.Run)
    → Inv s owed run
    → Loop.switch_to on fresh o s ≡ (true, t)
    → Inv t (suc owed) run
switch_to-Inv on fresh none s t owed run inv h = absurd (false≢true (ap (λ x. x.0) h))
switch_to-Inv on fresh (some st) s t owed run inv h =
    elim (Bool-cases ((st.sync_enabled && on) || (not st.sync_enabled && not on))) [
      | inl same ↦ absurd (false≢true (ap (λ x. x.0) (rw same at h)))
      | inr differ ↦
          subst (λ u. Inv u (suc owed) run) (ap (λ x. x.1) (rw differ at h))
            (published-Inv (record st { sync_enabled = on; version = fresh }) s inv)
    ]

switched-Inv :
    (on : Bool) (fresh : ℕ) (s t : Loop.SyncerState) {owed : ℕ} {run : Loop.Run}
    → Inv s owed run
    → Loop.set_sync_enabled on fresh s ≡ (true, t)
    → Inv t (suc owed) run
unfolding Loop.set_sync_enabled
switched-Inv on fresh s t {owed} {run} inv h = switch_to-Inv on fresh s.runtime s t owed run inv h

outside_reads : (r : Loop.Run) → is_inside r ≡ false → will_read r ≡ true
outside_reads r h = ground arith

outside_begins : (r : Loop.Run) → is_inside r ≡ false → has_begun r ≡ false
outside_begins r h = ground arith

-- A call that is not inside has nothing to read, and stands behind nothing.
outside_Inv :
    {s : Loop.SyncerState} {owed : ℕ} {r : Loop.Run} (r' : Loop.Run)
    → Inv s owed r
    → is_inside r' ≡ false
    → Inv s owed r'
outside_Inv r' inv h = record {
  woken = λ p w. absurd (false≢true (sym w ∙ outside_reads r' h));
  pending_there = inv.pending_there;
  control_there = inv.control_there;
  owed_there = inv.owed_there;
  begun_there = λ b. absurd (false≢true (sym (outside_begins r' h) ∙ b));
}

-- A step of the call `i`, seen from the call `j`.
running-Inv :
    {e : Steps.Engine} {t : Loop.SyncerState} {r' : Loop.Run}
    → IsSingle e
    → (i j : ℕ) → Steps.RunStep e.core (e.runs i) t r'
    → ((k : ℕ) → Inv e.core e.owed (e.runs k))
    → Inv t e.owed (update e.runs i r' j)
running-Inv {e} {t} {r'} single i j st inv =
    let stepped = RunStep-Inv (inv i) st in
    elim (update-cases e.runs i r' j) [
      | inl (same, at) ↦ subst (Inv t e.owed) (sym at) stepped
      | inr (differ, at) ↦ subst (Inv t e.owed) (sym at) (elim (Bool-cases (is_inside (e.runs j))) [
        | inl inside ↦
            subst (λ s. Inv s e.owed (e.runs j)) (other_idle single i j differ inside st) (inv j)
        | inr out ↦ outside_Inv (e.runs j) stepped out
      ])
    ]

-- A step that leaves the state, its mark and the channel as they were.
kept-Inv :
    {s t : Loop.SyncerState} {owed : ℕ} {run : Loop.Run}
    → t.runtime ≡ s.runtime
    → t.pending_resume ≡ s.pending_resume
    → t.control ≡ s.control
    → Inv s owed run
    → Inv t owed run
kept-Inv {s} {t} same pending control inv =
    let there : is_there t ≡ is_there s = ap (λ o. not (is_none o)) same in
    record {
      woken = λ p w. elim (inv.woken (sym pending ∙ p) w) [
        | inl sent ↦ inl (control ∙ sent)
        | inr later ↦ inr later
      ];
      pending_there = λ p. there ∙ inv.pending_there (sym pending ∙ p);
      control_there = λ c. there ∙ inv.control_there (sym control ∙ c);
      owed_there = λ o. there ∙ inv.owed_there o;
      begun_there = λ b. there ∙ inv.begun_there b;
    }

Step-Inv :
    {n : ℕ} {e f : Steps.Engine} (i : ℕ)
    → IsSingle e
    → Steps.Step n e f
    → ((k : ℕ) → Inv e.core e.owed (e.runs k))
    → Inv f.core f.owed (f.runs i)
Step-Inv i single (Steps.running j lt st) all = running-Inv single j i st all
Step-Inv {n} {e} i single (Steps.publish next) all = published-Inv next e.core (all i)
Step-Inv {n} {e} i single (Steps.switch on fresh h) all = switched-Inv on fresh e.core _ (all i) h
Step-Inv i single (Steps.notify {more} h) all = record {
  woken = λ p w. inl refl;
  pending_there = (all i).pending_there;
  control_there = λ c. (all i).owed_there (rw h (omega arith));
  owed_there = λ o. (all i).owed_there (rw h (omega arith));
  begun_there = (all i).begun_there;
}
Step-Inv i single Steps.trigger_sync all = kept-Inv refl refl refl (all i)
Step-Inv i single (Steps.stop_flag h) all = kept-Inv refl refl refl (all i)
Step-Inv i single (Steps.stop_close h) all = kept-Inv refl refl refl (all i)
Step-Inv i single (Steps.stop_done h) all = kept-Inv refl refl refl (all i)

Reach-Inv :
    {n : ℕ} {st : Option Loop.Published} {e : Steps.Engine}
    → Steps.Reach n st e
    → (i : ℕ) → Inv e.core e.owed (e.runs i)
Reach-Inv Steps.start i = record {
  woken = λ p. absurd (false≢true p);
  pending_there = λ p. absurd (false≢true p);
  control_there = λ p. absurd (false≢true p);
  owed_there = λ o. absurd (omega (arith, o));
  begun_there = λ p. absurd (false≢true p);
}
Reach-Inv (Steps.later r st) i = Step-Inv i (Reach-IsSingle r) st (Reach-Inv r)

-- While a call of Run waits in its select, after any steps of any goroutines, a pending resume has a
-- message in the control channel, or a publisher that is about to send one.
pub no_lost_wakeup :
    {n : ℕ} {st : Option Loop.Published} {e : Steps.Engine}
    → Steps.Reach n st e
    → (i : ℕ) (on : Bool) (interval : ℕ) → e.runs i ≡ Loop.selecting on interval
    → e.core.pending_resume ≡ true
    → (e.core.control ≡ true) ⊎ (0 < e.owed)
no_lost_wakeup r i on interval at p = (Reach-Inv r i).woken p (ap will_read at)

-- When Run reads its first state, there is one.
pub first_state_there :
    {n : ℕ} {st : Option Loop.Published} {e : Steps.Engine}
    → Steps.Reach n st e
    → (i : ℕ) → e.runs i ≡ Loop.boot
    → e.core.runtime ≢ none
first_state_there r i at h =
    false≢true (sym (ap (λ o. not (is_none o)) h) ∙ (Reach-Inv r i).begun_there (ap has_begun at))
