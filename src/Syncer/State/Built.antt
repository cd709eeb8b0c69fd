-- ===== src/Syncer/State/Built.antt =====
-- What a state that was built holds.
use cloudhost_firewall_autou.Common.{
  ℕ, ◌≡◌, refl, ap, ◌∙◌, Bool, true, false, Option, none, some, List, [], ◌∷◌, map, ◌⊎◌, inl, inr,
  any, if◌then◌else◌, ◌==◌, list_eq, nat_eq, arith, subst, ◌≢◌, false≢true,
}
use cloudhost_firewall_autou.Strings.{Text}
use cloudhost_firewall_autou.Config.{CloudType, TargetConfig}
use cloudhost_firewall_autou.Config.Runtime.{RuntimeConfig}
use cloudhost_firewall_autou.Dns.{domain_key}
use cloudhost_firewall_autou.Dns.Breaker.{CircuitBreaker, clone_for_domains, set_threshold}
use cloudhost_firewall_autou.Dns.Breaker.History.{clone_for_domains_lem}
use cloudhost_firewall_autou.Syncer.State

any-map :
    {A B : Type 0} (p : B → Bool) (f : A → B) (xs : List A)
    → any p (map f xs) ≡ any (λ x. p (f x)) xs
unfolding any
any-map p f [] = refl
any-map p f (x ∷ xs) = ground (arith, any-map p f xs)

set_threshold_lem :
    (cb : CircuitBreaker) (n : ℕ)
    → ((set_threshold cb n).fail_count ≡ cb.fail_count)
      × ((set_threshold cb n).threshold ≡ (if n == 0 then cb.threshold else n))
unfolding set_threshold
set_threshold_lem cb n = ground arith

is_inr : {A B : Type 0} → A ⊎ B → Bool
is_inr (inl a) = false
is_inr (inr b) = true

inl≢inr : {A B : Type 0} {a : A} {b : B} → inl a ≢ inr b
unfolding is_inr
inl≢inr h = false≢true (ap is_inr h)

right_or : {A B : Type 0} → B → A ⊎ B → B
right_or d (inl a) = d
right_or d (inr b) = b

inr-eq : {A B : Type 0} {a b : B} → ◌≡◌ {A = A ⊎ B} (inr a) (inr b) → a ≡ b
unfolding right_or
inr-eq {a} h = ap (right_or a) h

module _ {P : Type 0} (factory : TargetConfig → Option P) where
  -- The targets, each with its provider.
  pub data Made : List TargetConfig → List P → Type 0 where
    none_left : Made [] []
    one_more :
        {t : TargetConfig} {p : P} {ts : List TargetConfig} {ps : List P}
        → State.new_provider factory t ≡ some p
        → Made ts ps
        → Made (t ∷ ts) (p ∷ ps)

  new_providers-Made :
      (ts : List TargetConfig) (ps : List P) → State.new_providers factory ts ≡ inr ps → Made ts ps
  unfolding State.new_providers
  new_providers-Made [] ps h = subst (Made []) (inr-eq h) none_left
  new_providers-Made (t ∷ ts) ps h =
      made (State.new_provider factory t) refl (State.new_providers factory ts)
        (λ qs d. new_providers-Made ts qs d) h
    where
      made :
          (o : Option P)
          → State.new_provider factory t ≡ o
          → (r : CloudType ⊎ List P) → ((qs : List P) → r ≡ inr qs → Made ts qs)
          → State.append_provider factory t o r ≡ inr ps
          → Made (t ∷ ts) ps
      made none e r d q = absurd (inl≢inr q)
      made (some p) e (inl ct) d q = absurd (inl≢inr q)
      made (some p) e (inr qs) d q = subst (Made (t ∷ ts)) (inr-eq q) (one_more e (d qs refl))

  state_with-Made :
      (rc : RuntimeConfig) (cb : CircuitBreaker) (s : State.RuntimeState P)
      → State.state_with rc cb (State.new_providers factory rc.targets) ≡ inr s
      → (s.config ≡ rc) × Made rc.targets s.providers × (s.breaker ≡ cb)
  state_with-Made rc cb s h = with_result (State.new_providers factory rc.targets) refl h
    where
      with_result :
          (r : CloudType ⊎ List P)
          → State.new_providers factory rc.targets ≡ r
          → State.state_with rc cb r ≡ inr s
          → (s.config ≡ rc) × Made rc.targets s.providers × (s.breaker ≡ cb)
      with_result (inl ct) e q = absurd (inl≢inr q)
      with_result (inr ps) e q =
          subst (λ t. (t.config ≡ rc) × Made rc.targets t.providers × (t.breaker ≡ cb)) (inr-eq q)
            (refl, new_providers-Made rc.targets ps e, refl)

  -- A state that was built has the given configuration and, in order, a provider for each target. If
  -- there was a state before and the breaker is to be kept, the new breaker has for each configured
  -- host the old count, for each other host none, and the threshold of the configuration, or the old
  -- one where that is 0.
  pub kept_breaker :
      (old s : State.RuntimeState P) (rc : RuntimeConfig)
      → State.build_runtime_state factory (some old) rc State.breaker_preserve ≡ inr s
      → (s.config ≡ rc)
        × Made rc.targets s.providers
        × ((k : Text)
            → s.breaker.fail_count k ≡ (
                if any (λ r. k == domain_key r.host) rc.domain_rules
                then old.breaker.fail_count k
                else 0))
        × (s.breaker.threshold
            ≡ (if rc.dns_fail_threshold == 0 then old.breaker.threshold else rc.dns_fail_threshold))
  unfolding State.build_runtime_state State.new_breaker
  kept_breaker old s rc h =
      let hosts = map State.host_of rc.domain_rules in
      let cloned = clone_for_domains old.breaker hosts in
      let (config, made, breaker) =
        state_with-Made rc (set_threshold cloned rc.dns_fail_threshold) s h in
      let (counts, threshold) = set_threshold_lem cloned rc.dns_fail_threshold in
      (
        config,
        made,
        λ k.
            ap (λ b. b.fail_count k) breaker
            ∙ ap (λ f. f k) counts
            ∙ (clone_for_domains_lem old.breaker hosts k).0
            ∙ ap (λ b. if b then old.breaker.fail_count k else 0)
                (any-map (λ d. k == domain_key d) State.host_of rc.domain_rules),
        ap (λ b. b.threshold) breaker
            ∙ threshold
            ∙ ap (λ n. if rc.dns_fail_threshold == 0 then n else rc.dns_fail_threshold)
                (clone_for_domains_lem old.breaker hosts []).1,
      )
