-- ===== src/Syncer/Observation/Merged.antt =====
-- What merging the observations of an attempt sets and keeps.
use cloudhost_firewall_autou.Common.{ℕ, ◌≡◌, ◌∙◌, refl, Option, none, some, nat_eq}
use cloudhost_firewall_autou.Syncer.Retry.{GoError}
use cloudhost_firewall_autou.Syncer.Observation

-- The parts of a result that merging does not take from the observations.
abbrev pub core : Observation.TargetResult → ℕ × (ℕ × (ℕ × (ℕ × Option GoError)))
core r = (r.attempts, (r.added, (r.deleted, (r.cleanup_deleted, r.err))))

core-age_cleanup :
    (n : ℕ) (r : Observation.TargetResult) (c : Option Observation.CleanupObservation)
    → core (Observation.age_cleanup n r c) ≡ core r
core-age_cleanup n r none = refl
core-age_cleanup n r (some o) = refl

core-age_unsupported :
    (n : ℕ) (r : Observation.TargetResult) (u : Option Observation.UnsupportedObservation)
    → core (Observation.age_unsupported n r u) ≡ core r
core-age_unsupported n r none = refl
core-age_unsupported n r (some o) = refl

pub core-merge_observations :
    (r next : Observation.TargetResult) (n : ℕ)
    → core (Observation.merge_observations r next n) ≡ core (record r { attempts = n })
unfolding Observation.merge_observations
core-merge_observations r next n =
    let cleanup = Observation.cleanup_from n next.cleanup_observation r.cleanup_observation in
    core-age_unsupported n (Observation.age_cleanup n (record r { attempts = n }) cleanup) _
    ∙ core-age_cleanup n (record r { attempts = n }) cleanup
