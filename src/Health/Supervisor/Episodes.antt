-- ===== src/Health/Supervisor/Episodes.antt =====
-- The supervisor publishes once in a row of unhealthy checks.
use cloudhost_firewall_autou.Common.{
  ◌≡◌, refl, Bool, false, not, ◌&&◌, ◌||◌, none, some, List, [], ◌∷◌, foldl, if◌then◌else◌, arith,
}
use cloudhost_firewall_autou.Health.Checker.{Result}
use cloudhost_firewall_autou.Health.Supervisor

-- A check: its result, and whether the trigger was enabled.
pub record Check : Type 0 where
  pub result : Result
  pub trigger : Bool

abbrev pub after : Supervisor.Supervisor → Check → Supervisor.Supervisor
after s c = (Supervisor.check s c.result c.trigger).0

-- Whether some check since the last healthy one, with `fired` before, had the trigger enabled.
abbrev pub fire : Bool → Check → Bool
fire fired c = if c.result.healthy then false else fired || c.trigger

abbrev pub fired_since : List Check → Bool
fired_since cs = foldl fire false cs

-- Whether the last check was unhealthy.
abbrev pub ill : Bool → Check → Bool
ill b c = not c.result.healthy

record Inv (s : Supervisor.Supervisor) (fired : Bool) : Type 0 where
  marked : (s.was_unhealthy && s.published) ≡ fired

check-Inv :
    (s : Supervisor.Supervisor) (fired : Bool) (c : Check)
    → Inv s fired
    → Inv (after s c) (fire fired c)
unfolding Supervisor.check
check-Inv s fired c inv = record { marked = ground (arith, inv.marked) }

run-Inv :
    (cs : List Check) (s : Supervisor.Supervisor) (fired : Bool)
    → Inv s fired
    → Inv (foldl after s cs) (foldl fire fired cs)
run-Inv [] s fired inv = inv
run-Inv (c ∷ cs) s fired inv = run-Inv cs (after s c) (fire fired c) (check-Inv s fired c inv)

check_publishes :
    (s : Supervisor.Supervisor) (fired : Bool) (c : Check)
    → Inv s fired
    → (Supervisor.check s c.result c.trigger).1
      ≡ (if not c.result.healthy && (c.trigger && not fired) then some c.result else none)
unfolding Supervisor.check
check_publishes s fired c inv = ground (arith, inv.marked)

-- After any checks of a new supervisor, the next check publishes its result exactly if it is
-- unhealthy, the trigger is enabled, and no check since the last healthy one had the trigger enabled.
pub publish_exact :
    (cs : List Check) (c : Check)
    → (Supervisor.check (foldl after Supervisor.new_supervisor cs) c.result c.trigger).1 ≡ (
        if not c.result.healthy && (c.trigger && not (fired_since cs)) then some c.result else none)
publish_exact cs c =
    check_publishes (foldl after Supervisor.new_supervisor cs) (fired_since cs) c
      (run-Inv cs Supervisor.new_supervisor false (record { marked = refl }))
