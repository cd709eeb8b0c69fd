-- ===== src/Syncer/Loop/Single.antt =====
-- Of all calls of Run, one at most gets past the guard.
use cloudhost_firewall_autou.Common.{
  ℕ, ◌≡◌, ◌≢◌, ◌⊎◌, inl, inr, refl, sym, ap, ◌∙◌, subst, Bool, true, false, not, ◌&&◌, ◌||◌, Option,
  none, some, nat_eq, arith, false≢true, Bool-cases, update, update-cases,
}
use cloudhost_firewall_autou.Syncer.Loop
use cloudhost_firewall_autou.Syncer.Loop.Steps

-- Whether a call of Run has got past the guard.
abbrev pub is_inside : Loop.Run → Bool
is_inside Loop.outside = false
is_inside Loop.turned_away = false
is_inside _ = true

-- What a publication leaves as it was.
abbrev pub Same : Loop.SyncerState → Loop.SyncerState → Type 0
Same s t =
    (t.done_closed ≡ s.done_closed)
    × (t.run_guard ≡ s.run_guard)
    × (t.stopped ≡ s.stopped)
    × (t.rounds ≡ s.rounds)

pub publish-Same :
    (next : Loop.Published) (s : Loop.SyncerState) → Same s (Loop.apply_state_locked next s)
unfolding Loop.apply_state_locked
publish-Same next s = (refl, refl, refl, refl)

switch_to-Same :
    (on : Bool) (fresh : ℕ) (o : Option Loop.Published) (s : Loop.SyncerState)
    → Same s (Loop.switch_to on fresh o s).1
switch_to-Same on fresh none s = (refl, refl, refl, refl)
switch_to-Same on fresh (some st) s =
    elim (Bool-cases ((st.sync_enabled && on) || (not st.sync_enabled && not on))) [
      | inl same ↦ rw same (refl, refl, refl, refl)
      | inr differ ↦ rw differ (publish-Same (record st { sync_enabled = on; version = fresh }) s)
    ]

pub switch-Same :
    (on : Bool) (fresh : ℕ) (s t : Loop.SyncerState)
    → Loop.set_sync_enabled on fresh s ≡ (true, t)
    → Same s t
unfolding Loop.set_sync_enabled
switch-Same on fresh s t h = subst (Same s) (ap (λ x. x.1) h) (switch_to-Same on fresh s.runtime s)

pub decide-inside :
    (o : Option Loop.Published) (pending was : Bool) (i : ℕ) (completed : Bool)
    → is_inside (Loop.decide o pending was i completed) ≡ true
unfolding Loop.decide
decide-inside none pending was i completed = refl
decide-inside (some st) pending was i completed = ground arith

pub run_stopped :
    {s t : Loop.SyncerState} {r r' : Loop.Run} → Steps.RunStep s r t r' → t.stopped ≡ s.stopped
run_stopped (Steps.call a b) = refl
run_stopped st = ground arith

-- A step keeps the guard once it is set.
guard_kept :
    {s t : Loop.SyncerState} {r r' : Loop.Run}
    → Steps.RunStep s r t r'
    → s.run_guard ≡ true
    → t.run_guard ≡ true
guard_kept (Steps.call a b) h = refl
guard_kept st h = ground arith

-- Where the guard is set, a call that is inside after its step was inside before.
pub stays :
    {s t : Loop.SyncerState} {r r' : Loop.Run}
    → Steps.RunStep s r t r'
    → is_inside r' ≡ true
    → s.run_guard ≡ true
    → is_inside r ≡ true
stays (Steps.call a b) h g = absurd (ground arith)
stays st h g = ground arith

-- A call that is inside after its step has set the guard.
pub marks :
    {s t : Loop.SyncerState} {r r' : Loop.Run}
    → Steps.RunStep s r t r'
    → (is_inside r ≡ true → s.run_guard ≡ true)
    → is_inside r' ≡ true
    → t.run_guard ≡ true
marks (Steps.call a b) g h = refl
marks (Steps.absorbed a) g h = absurd (false≢true h)
marks (Steps.repeated a b) g h = absurd (false≢true h)
marks st g h = guard_kept st (g refl)

-- A call that is not inside does nothing once the guard is set.
outside_idle :
    {s t : Loop.SyncerState} {r r' : Loop.Run}
    → Steps.RunStep s r t r'
    → is_inside r ≡ false
    → s.run_guard ≡ true
    → s ≡ t
outside_idle (Steps.call a b) h g = absurd (ground arith)
outside_idle (Steps.absorbed a) h g = refl
outside_idle (Steps.repeated a b) h g = refl
outside_idle st h g = absurd (false≢true (sym h))

pub record IsSingle (e : Steps.Engine) : Type 0 where
  pub guarded : (i : ℕ) → is_inside (e.runs i) ≡ true → e.core.run_guard ≡ true
  pub alone : (i j : ℕ) → is_inside (e.runs i) ≡ true → is_inside (e.runs j) ≡ true → i ≡ j

-- While a call is inside, a step of another call changes nothing.
pub other_idle :
    {e : Steps.Engine} {t : Loop.SyncerState} {r' : Loop.Run}
    → IsSingle e
    → (i j : ℕ) → j ≢ i
    → is_inside (e.runs j) ≡ true
    → Steps.RunStep e.core (e.runs i) t r'
    → e.core ≡ t
other_idle {e} single i j differ inside st =
    outside_idle st (not_inside (Bool-cases (is_inside (e.runs i)))) (single.guarded j inside)
  where
    not_inside :
        (is_inside (e.runs i) ≡ true) ⊎ (is_inside (e.runs i) ≡ false)
        → is_inside (e.runs i) ≡ false
    not_inside (inl too) = absurd (differ (single.alone j i inside too))
    not_inside (inr out) = out

module _ {e : Steps.Engine} {t : Loop.SyncerState} {r' : Loop.Run} (single : IsSingle e) (i : ℕ)
    (st : Steps.RunStep e.core (e.runs i) t r') where
  running_guarded : (j : ℕ) → is_inside (update e.runs i r' j) ≡ true → t.run_guard ≡ true
  running_guarded j h = elim (update-cases e.runs i r' j) [
    | inl (same, at) ↦ marks st (single.guarded i) (sym (ap is_inside at) ∙ h)
    | inr (differ, at) ↦ guard_kept st (single.guarded j (sym (ap is_inside at) ∙ h))
  ]

  no_second : (j : ℕ) → j ≢ i → is_inside (e.runs j) ≡ true → is_inside r' ≡ true → (A : Type 0) → A
  no_second j differ inside h A =
      absurd (differ (single.alone j i inside (stays st h (single.guarded j inside))))

  running_alone :
      (j k : ℕ)
      → is_inside (update e.runs i r' j) ≡ true
      → is_inside (update e.runs i r' k) ≡ true
      → j ≡ k
  running_alone j k hj hk = elim (update-cases e.runs i r' j) [
    | inl (same, at) ↦ elim (update-cases e.runs i r' k) [
      | inl (same', at') ↦ same ∙ sym same'
      | inr (differ, at') ↦
          no_second k differ (sym (ap is_inside at') ∙ hk) (sym (ap is_inside at) ∙ hj) (j ≡ k)
    ]
    | inr (differ, at) ↦ elim (update-cases e.runs i r' k) [
      | inl (same', at') ↦
          no_second j differ (sym (ap is_inside at) ∙ hj) (sym (ap is_inside at') ∙ hk) (j ≡ k)
      | inr (differ', at') ↦
          single.alone j k (sym (ap is_inside at) ∙ hj) (sym (ap is_inside at') ∙ hk)
    ]
  ]

Step-IsSingle : {n : ℕ} {e f : Steps.Engine} → Steps.Step n e f → IsSingle e → IsSingle f
Step-IsSingle (Steps.running i lt st) single = record {
  guarded = running_guarded single i st;
  alone = running_alone single i st;
}
Step-IsSingle {n} {e} (Steps.publish next) single = record {
  guarded = λ i h. (publish-Same next e.core).1 ∙ single.guarded i h;
  alone = single.alone;
}
Step-IsSingle {n} {e} (Steps.switch on fresh {s} q) single = record {
  guarded = λ i h. (switch-Same on fresh e.core s q).1 ∙ single.guarded i h;
  alone = single.alone;
}
Step-IsSingle (Steps.notify q) single = record { guarded = single.guarded; alone = single.alone }
Step-IsSingle Steps.trigger_sync single = record { guarded = single.guarded; alone = single.alone }
Step-IsSingle (Steps.stop_flag q) single = record { guarded = single.guarded; alone = single.alone }
Step-IsSingle (Steps.stop_close q) single = record {
  guarded = single.guarded;
  alone = single.alone;
}
Step-IsSingle (Steps.stop_done q) single = record { guarded = single.guarded; alone = single.alone }

pub Reach-IsSingle :
    {n : ℕ} {st : Option Loop.Published} {e : Steps.Engine} → Steps.Reach n st e → IsSingle e
Reach-IsSingle Steps.start = record {
  guarded = λ i h. absurd (false≢true h);
  alone = λ i j h k. absurd (false≢true h);
}
Reach-IsSingle (Steps.later r st) = Step-IsSingle st (Reach-IsSingle r)
