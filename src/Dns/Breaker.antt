-- ===== src/Dns/Breaker.antt =====
-- dns/circuitbreaker.go. A missing entry of `failCount` reads as 0, so the map is a function; each
-- method runs under the mutex, so it is one step.
pub mod History
use cloudhost_firewall_autou.Common.{
  ℕ, ◌+◌, Bool, List, [], ◌∷◌, foldl, ltb, leb, ◌==◌, nat_eq, list_eq, if◌then◌else◌, update,
}
use cloudhost_firewall_autou.Strings.{Text}
use cloudhost_firewall_autou.Dns.{domain_key}

pub record CircuitBreaker : Type 0 where
  pub fail_count : Text → ℕ
  pub threshold : ℕ

abbrev pub new_circuit_breaker : ℕ → CircuitBreaker
new_circuit_breaker threshold = record { fail_count = λ k. 0; threshold = threshold }

-- A threshold that is not positive is ignored.
unfoldable pub set_threshold : CircuitBreaker → ℕ → CircuitBreaker
set_threshold cb threshold = if threshold == 0 then cb else record cb { threshold = threshold }

-- The loop body of CloneForDomains.
unfoldable pub keep_count : (Text → ℕ) → (Text → ℕ) → Text → Text → ℕ
keep_count old kept domain =
    let n = old (domain_key domain) in if ltb 0 n then update kept (domain_key domain) n else kept

unfoldable pub clone_for_domains : CircuitBreaker → List Text → CircuitBreaker
clone_for_domains cb domains = record {
  fail_count = foldl (keep_count cb.fail_count) (λ k. 0) domains;
  threshold = cb.threshold;
}

unfoldable pub is_open : CircuitBreaker → Text → Bool
is_open cb domain = leb cb.threshold (cb.fail_count (domain_key domain))

unfoldable pub record_success : CircuitBreaker → Text → CircuitBreaker
record_success cb domain = record cb { fail_count = update cb.fail_count (domain_key domain) 0 }

-- An open breaker does not count on.
unfoldable pub record_failure : CircuitBreaker → Text → CircuitBreaker
record_failure cb domain =
    let k = domain_key domain in
    if leb cb.threshold (cb.fail_count k)
    then cb
    else record cb { fail_count = update cb.fail_count k (cb.fail_count k + 1) }
