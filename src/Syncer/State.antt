-- ===== src/Syncer/State.antt =====
-- syncer/state.go and provider/registry.go: the building of a runtime state. What a factory makes of a
-- target, a provider with its cloud client, is a parameter; the resolver and the pool are made of the
-- configuration and are left out.
pub mod Built
use cloudhost_firewall_autou.Common.{
  ℕ, Bool, true, false, Option, none, some, List, [], ◌∷◌, map, ◌⊎◌, inl, inr,
}
use cloudhost_firewall_autou.Strings.{Text, codes}
use cloudhost_firewall_autou.Config.{
  CloudType, tc_lighthouse, tc_cvm, ali_swas, ali_ecs, other, TargetConfig, DomainRule,
}
use cloudhost_firewall_autou.Config.Runtime.{RuntimeConfig}
use cloudhost_firewall_autou.Dns.Breaker.{
  CircuitBreaker, new_circuit_breaker, clone_for_domains, set_threshold,
}

pub data BreakerPolicy : Type 0 where
  breaker_preserve breaker_reset : BreakerPolicy

pub record RuntimeState (P : Type 0) : Type 0 where
  pub config : RuntimeConfig
  pub providers : List P
  pub breaker : CircuitBreaker

-- The cloud types that the adapters register.
abbrev pub is_registered : CloudType → Bool
is_registered (other t) = false
is_registered _ = true

module _ {P : Type 0} (factory : TargetConfig → Option P) where
  abbrev from_registry : Bool → TargetConfig → Option P
  from_registry true t = factory t
  from_registry false t = none

  -- NewProvider; an error is `none`.
  unfoldable pub new_provider : TargetConfig → Option P
  new_provider t = from_registry (is_registered t.cloud_type) t

  abbrev pub append_provider : TargetConfig → Option P → CloudType ⊎ List P → CloudType ⊎ List P
  append_provider t none rest = inl t.cloud_type
  append_provider t (some p) (inl ct) = inl ct
  append_provider t (some p) (inr ps) = inr (p ∷ ps)

  -- The loop over the targets: the providers, or the cloud type of the first that fails.
  unfoldable pub new_providers : List TargetConfig → CloudType ⊎ List P
  new_providers [] = inr []
  new_providers (t ∷ ts) = append_provider t (new_provider t) (new_providers ts)

abbrev pub host_of : DomainRule → Text
host_of r = r.host

unfoldable pub new_breaker : Option CircuitBreaker → RuntimeConfig → BreakerPolicy → CircuitBreaker
new_breaker (some cb) rc breaker_preserve =
    set_threshold (clone_for_domains cb (map host_of rc.domain_rules)) rc.dns_fail_threshold
new_breaker none rc policy = new_circuit_breaker rc.dns_fail_threshold
new_breaker (some cb) rc breaker_reset = new_circuit_breaker rc.dns_fail_threshold

abbrev pub breaker_of : {P : Type 0} → Option (RuntimeState P) → Option CircuitBreaker
breaker_of none = none
breaker_of (some s) = some s.breaker

abbrev pub state_with :
    {P : Type 0} → RuntimeConfig → CircuitBreaker → CloudType ⊎ List P → CloudType ⊎ RuntimeState P
state_with rc cb (inl ct) = inl ct
state_with rc cb (inr ps) = inr (record { config = rc; providers = ps; breaker = cb })

unfoldable pub build_runtime_state :
    {P : Type 0}
    → (TargetConfig → Option P)
    → Option (RuntimeState P)
    → RuntimeConfig
    → BreakerPolicy
    → CloudType ⊎ RuntimeState P
build_runtime_state factory previous rc policy =
    state_with rc (new_breaker (breaker_of previous) rc policy) (new_providers factory rc.targets)
