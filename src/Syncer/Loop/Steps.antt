-- ===== src/Syncer/Loop/Steps.antt =====
-- The steps of the goroutines over the Syncer.
use cloudhost_firewall_autou.Common.{
  ℕ, suc, ◌+◌, ◌<◌, ◌≡◌, Bool, true, false, not, Option, none, some, if◌then◌else◌, nat_eq, update,
}
use cloudhost_firewall_autou.Syncer.Loop.{
  Published, SyncerState, new_syncer, apply_state_locked, set_sync_enabled, is_enabled, Source, Run,
  after_mirror, dropped, decide, Stopper, ticker, triggered, outside, turned_away, entered, marked,
  await_state, boot, mirroring, boot_gate, boot_passed, boot_round, selecting, check_pending,
  check_enabled, check_gate, check_passed, in_round, consuming, resume_drain, resume_gate,
  resume_passed, resume_round, applying, quitting, leaving, exited, idle, flagged, closing,
  finished,
}

-- `runs` holds the calls of Run. `owed` counts the publishers that have left the lock and not yet sent their notification.
pub record Engine : Type 0 where
  pub core : SyncerState
  pub owed : ℕ
  pub stopper : Stopper
  pub runs : ℕ → Run

abbrev pub enter_round : SyncerState → SyncerState
enter_round s = record s { round_running = true; rounds = s.rounds + 1 }

-- A call of Run. The first is let in, unless Stop has come before it.
pub data RunStep : SyncerState → Run → SyncerState → Run → Type 0 where
  call :
      {s : SyncerState}
      → s.stopped ≡ false
      → s.run_guard ≡ false
      → RunStep s outside (record s { run_guard = true }) entered
  absorbed : {s : SyncerState} → s.stopped ≡ true → RunStep s outside s turned_away
  repeated :
      {s : SyncerState} → s.stopped ≡ false → s.run_guard ≡ true → RunStep s outside s turned_away
  mark : {s : SyncerState} → RunStep s entered (record s { running = true }) marked
  begin_waiting : {s : SyncerState} → s.runtime ≡ none → RunStep s marked s await_state
  begin_ready : {s : SyncerState} {st : Published} → s.runtime ≡ some st → RunStep s marked s boot
  first_state :
      {s : SyncerState}
      → s.control ≡ true
      → RunStep s await_state (record s { control = false }) boot
  give_up : {s : SyncerState} → s.stop_closed ≡ true → RunStep s await_state s quitting
  boot_consume :
      {s : SyncerState} {st : Published}
      → s.runtime ≡ some st
      → RunStep s boot (record s { pending_resume = false }) (mirroring st)
  mirror :
      {s : SyncerState} {st : Published}
      → RunStep s (mirroring st) (record s { enabled = st.sync_enabled }) (after_mirror st)
  boot_refused : {s : SyncerState} {i : ℕ} → s.stopped ≡ true → RunStep s (boot_gate i) s quitting
  boot_allowed :
      {s : SyncerState} {i : ℕ} → s.stopped ≡ false → RunStep s (boot_gate i) s (boot_passed i)
  boot_begin : {s : SyncerState} {i : ℕ} → RunStep s (boot_passed i) (enter_round s) (boot_round i)
  boot_end :
      {s : SyncerState} {i : ℕ}
      → RunStep s (boot_round i) (record s { round_running = false }) (selecting true i)
  stop_seen :
      {s : SyncerState} {on : Bool} {i : ℕ}
      → s.stop_closed ≡ true
      → RunStep s (selecting on i) s quitting
  control_taken :
      {s : SyncerState} {on : Bool} {i : ℕ}
      → s.control ≡ true
      → RunStep s (selecting on i) (record s { control = false }) (consuming on i false)
  tick : {s : SyncerState} {i : ℕ} → RunStep s (selecting true i) s (check_pending ticker i)
  trigger_taken :
      {s : SyncerState} {i : ℕ}
      → s.trigger ≡ true
      → RunStep s (selecting true i) (record s { trigger = false }) (check_pending triggered i)
  yields :
      {s : SyncerState} {src : Source} {i : ℕ}
      → s.pending_resume ≡ true
      → RunStep s (check_pending src i) s (consuming true i false)
  goes_on :
      {s : SyncerState} {src : Source} {i : ℕ}
      → s.pending_resume ≡ false
      → RunStep s (check_pending src i) s (check_enabled src i)
  paused :
      {s : SyncerState} {src : Source} {i : ℕ}
      → is_enabled s ≡ false
      → RunStep s (check_enabled src i) s (dropped src i)
  unpaused :
      {s : SyncerState} {src : Source} {i : ℕ}
      → is_enabled s ≡ true
      → RunStep s (check_enabled src i) s (check_gate src i)
  refused :
      {s : SyncerState} {src : Source} {i : ℕ}
      → s.stopped ≡ true
      → RunStep s (check_gate src i) s (dropped src i)
  allowed :
      {s : SyncerState} {src : Source} {i : ℕ}
      → s.stopped ≡ false
      → RunStep s (check_gate src i) s (check_passed i)
  begin : {s : SyncerState} {i : ℕ} → RunStep s (check_passed i) (enter_round s) (in_round i)
  round_end :
      {s : SyncerState} {i : ℕ}
      → RunStep s (in_round i) (record s { round_running = false }) (consuming true i true)
  consume :
      {s : SyncerState} {was completed : Bool} {i : ℕ}
      → RunStep s
          (consuming was i completed)
          (record s { pending_resume = false })
          (decide s.runtime s.pending_resume was i completed)
  drain_trigger :
      {s : SyncerState} {st : Published}
      → RunStep s (resume_drain st) (record s { trigger = false }) (resume_gate st)
  resume_refused :
      {s : SyncerState} {st : Published} → s.stopped ≡ true → RunStep s (resume_gate st) s quitting
  resume_allowed :
      {s : SyncerState} {st : Published}
      → s.stopped ≡ false
      → RunStep s (resume_gate st) s (resume_passed st)
  resume_begin :
      {s : SyncerState} {st : Published}
      → RunStep s (resume_passed st) (enter_round s) (resume_round st)
  resume_end :
      {s : SyncerState} {st : Published}
      → RunStep s (resume_round st) (record s { round_running = false }) (applying st st.interval)
  applied_seen :
      {s : SyncerState} {st : Published} {i : ℕ}
      → RunStep s
          (applying st i)
          (record s { applied = some st.version })
          (selecting st.sync_enabled i)
  unmark : {s : SyncerState} → RunStep s quitting (record s { running = false }) leaving
  close :
      {s : SyncerState} → RunStep s leaving (record s { done_closed = s.done_closed + 1 }) exited

-- A step of any goroutine, among `n` calls of Run.
pub data Step (n : ℕ) (e : Engine) : Engine → Type 0 where
  running :
      (i : ℕ) {s : SyncerState} {r : Run}
      → i < n
      → RunStep e.core (e.runs i) s r
      → Step n e (record e { core = s; runs = update e.runs i r })
  publish :
      (next : Published)
      → Step n e (record e { core = apply_state_locked next e.core; owed = suc e.owed })
  switch :
      (on : Bool) (fresh : ℕ) {s : SyncerState}
      → set_sync_enabled on fresh e.core ≡ (true, s)
      → Step n e (record e { core = s; owed = suc e.owed })
  notify :
      {more : ℕ}
      → e.owed ≡ suc more
      → Step n e (record e { core = record e.core { control = true }; owed = more })
  trigger_sync : Step n e (record e { core = record e.core { trigger = true } })
  stop_flag :
      e.stopper ≡ idle
      → Step n e (record e {
        core = record e.core { stopped = true };
        stopper = flagged (not e.core.run_guard);
      })
  stop_close :
      {never : Bool}
      → e.stopper ≡ flagged never
      → Step n e (record e { core = record e.core { stop_closed = true }; stopper = closing never })
  stop_done :
      {never : Bool}
      → e.stopper ≡ closing never
      → Step n e (record e {
        core = record e.core {
          done_closed = (if never then e.core.done_closed + 1 else e.core.done_closed);
        };
        stopper = finished never;
      })

abbrev pub init : Option Published → Engine
init st = record { core = new_syncer st; owed = 0; stopper = idle; runs = λ i. outside }

pub data Reach (n : ℕ) (st : Option Published) : Engine → Type 0 where
  start : Reach n st (init st)
  later : {e f : Engine} → Reach n st e → Step n e f → Reach n st f
