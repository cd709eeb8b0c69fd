-- ===== src/Dns/Breaker/History.antt =====
-- The breaker of a domain is open exactly while its last results are enough failures in a row.
use Prim.Native.Nat.{min}
use cloudhost_firewall_autou.Common.{
  ℕ, ◌+◌, ◌≤◌, ◌≡◌, ◌↔◌, ◌⊎◌, refl, ap, ◌∙◌, true, List, [], ◌∷◌, foldl, any, arith, ◌==◌, ==_iff,
  nat_eq, list_eq, if◌then◌else◌, Bool-cases, inl, inr,
}
use cloudhost_firewall_autou.Strings.{Text}
use cloudhost_firewall_autou.Dns.{domain_key}
use cloudhost_firewall_autou.Dns.Breaker.{
  CircuitBreaker, new_circuit_breaker, keep_count, clone_for_domains, is_open, record_success,
  record_failure,
}

-- The result of a round for a domain.
pub data Event : Type 0 where
  success failure : Text → Event

abbrev pub apply : CircuitBreaker → Event → CircuitBreaker
apply cb (success domain) = record_success cb domain
apply cb (failure domain) = record_failure cb domain

-- The failures of a key in a row, when one more result follows.
abbrev pub step : Text → ℕ → Event → ℕ
step k n (success d) = if k == domain_key d then 0 else n
step k n (failure d) = if k == domain_key d then n + 1 else n

-- How many failures of the key stand at the end, after its last success.
abbrev pub run_length : Text → ℕ → List Event → ℕ
run_length k n [] = n
run_length k n (e ∷ es) = run_length k (step k n e) es

threshold-apply : (cb : CircuitBreaker) (e : Event) → (apply cb e).threshold ≡ cb.threshold
unfolding record_success record_failure
threshold-apply cb (success d) = refl
threshold-apply cb (failure d) = ground arith

count-success :
    (cb : CircuitBreaker) (d k : Text)
    → (record_success cb d).fail_count k ≡ (if k == domain_key d then 0 else cb.fail_count k)
unfolding record_success
count-success cb d k = refl

-- The counter stops at the threshold.
count-failure :
    (cb : CircuitBreaker) (d k : Text) (n : ℕ)
    → cb.fail_count k ≡ min cb.threshold n
    → (record_failure cb d).fail_count k ≡ min cb.threshold (if k == domain_key d then n + 1 else n)
unfolding record_failure
count-failure cb d k n h = elim (Bool-cases (k == domain_key d)) [
  | inr differ ↦ ground arith
  | inl same ↦ let e = (==_iff k (domain_key d)).0 same in ground (arith, ap cb.fail_count e)
]

step_count :
    (cb : CircuitBreaker) (e : Event) (k : Text) (n : ℕ)
    → cb.fail_count k ≡ min cb.threshold n
    → (apply cb e).fail_count k ≡ min (apply cb e).threshold (step k n e)
step_count cb (success d) k n h =
    rw (threshold-apply cb (success d), count-success cb d k) (ground arith)
step_count cb (failure d) k n h = rw (threshold-apply cb (failure d)) (count-failure cb d k n h)

count-run :
    (es : List Event) (cb : CircuitBreaker) (k : Text) (n : ℕ)
    → cb.fail_count k ≡ min cb.threshold n
    → ((foldl apply cb es).fail_count k ≡ min cb.threshold (run_length k n es))
      × ((foldl apply cb es).threshold ≡ cb.threshold)
count-run [] cb k n h = (h, refl)
count-run (e ∷ es) cb k n h =
    let (counted, same) = count-run es (apply cb e) k (step k n e) (step_count cb e k n h) in
    let t = threshold-apply cb e in
    (counted ∙ ap (λ m. min m (run_length k (step k n e) es)) t, same ∙ t)

-- From a new breaker with any threshold, after any results of any domains, the breaker of a domain
-- is open exactly if the domain's failures since its last success are at least the threshold.
pub is_open_exact :
    (threshold : ℕ) (es : List Event) (domain : Text)
    → (is_open (foldl apply (new_circuit_breaker threshold) es) domain ≡ true)
      ↔ (threshold ≤ run_length (domain_key domain) 0 es)
unfolding is_open
is_open_exact threshold es domain =
    let (counted, same) =
      count-run es (new_circuit_breaker threshold) (domain_key domain) 0 (omega arith) in
    (λ h. ground (arith, counted, same), λ h. ground (arith, counted, same))

keep_count_lem :
    (old kept : Text → ℕ) (k d : Text)
    → ((kept k ≡ old k) ⊎ (kept k ≡ 0))
    → keep_count old kept d k ≡ (if k == domain_key d then old k else kept k)
unfolding keep_count
keep_count_lem old kept k d h = elim (Bool-cases (k == domain_key d)) [
  | inr differ ↦ ground arith
  | inl same ↦ let e = (==_iff k (domain_key d)).0 same in ground (arith, ap old e)
]

clone_count :
    (old kept : Text → ℕ) (domains : List Text) (k : Text)
    → ((kept k ≡ old k) ⊎ (kept k ≡ 0))
    → foldl (keep_count old) kept domains k
      ≡ (if any (λ d. k == domain_key d) domains then old k else kept k)
unfolding any
clone_count old kept [] k h = refl
clone_count old kept (d ∷ ds) k h =
    let first = keep_count_lem old kept k d h in
    ground (arith, first, clone_count old (keep_count old kept d) ds k)

-- A cloned breaker has the counts of the configured domains, under their normalised names, and no
-- others, and the same threshold.
pub clone_for_domains_lem :
    (cb : CircuitBreaker) (domains : List Text) (k : Text)
    → ((clone_for_domains cb domains).fail_count k
        ≡ (if any (λ d. k == domain_key d) domains then cb.fail_count k else 0))
      × ((clone_for_domains cb domains).threshold ≡ cb.threshold)
unfolding clone_for_domains
clone_for_domains_lem cb domains k = (clone_count cb.fail_count (λ j. 0) domains k (inr refl), refl)
