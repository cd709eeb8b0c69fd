-- ===== src/Examples/Parts.antt =====
-- Tags, descriptions, the breaker and the classes of errors on concrete values.
use cloudhost_firewall_autou.Common.{
  list_beq, ◌≡◌, ◌↔◌, ◌≤◌, refl, true, false, some, List, [], ◌∷◌, foldl, any, ◌==◌, list_eq,
  nat_eq, if◌then◌else◌, arith,
}
use cloudhost_firewall_autou.Strings.{
  Text, codes, is_space, trim_left, trim_right, trim_space, to_lower, lower_code, has_prefix,
  contains_sub, cut, equal_fold,
}
use cloudhost_firewall_autou.Config.{ali_swas}
use cloudhost_firewall_autou.Tag.{format, is_owned, parse}
use cloudhost_firewall_autou.Tag.Ownership.{
  NoBracket, is_owned-format, parse-format, owned_by_one_tag,
}
use cloudhost_firewall_autou.Portconv.{to_slash}
use cloudhost_firewall_autou.Provider.Description.{render_description}
use cloudhost_firewall_autou.Provider.Description.Kept.{render_description-owned}
use cloudhost_firewall_autou.Dns.{domain_key}
use cloudhost_firewall_autou.Dns.Breaker.{
  CircuitBreaker, new_circuit_breaker, clone_for_domains, is_open, record_failure, record_success,
}
use cloudhost_firewall_autou.Dns.Breaker.History.{
  Event, success, failure, apply, run_length, is_open_exact, clone_for_domains_lem,
}
use cloudhost_firewall_autou.Syncer.Retry.{GoError, plain_error, is_retryable, is_version_mismatch}
use cloudhost_firewall_autou.Syncer.Retry.Classes.{version_mismatch-retryable}

abbrev home : Text
home = codes "home"

format-web : format home (codes " web ") ≡ codes "[home]  web "
unfolding format
format-web = refl

is_owned_other : is_owned (codes "[homework] x") home ≡ false
unfolding is_owned has_prefix list_beq
is_owned_other = refl

is_owned-format_example : is_owned (format (codes "home") (codes " web ")) (codes "home") ≡ true
is_owned-format_example = is_owned-format (codes "home") (codes " web ")

parse-format_example :
    parse (format (codes "home") (codes " web ")) (codes "home") ≡ some (trim_space (codes " web "))
parse-format_example = parse-format (codes "home") (codes " web ")

home-NoBracket : NoBracket (codes "home")
home-NoBracket = (ground arith, (ground arith, (ground arith, (ground arith, tt))))

short-NoBracket : NoBracket (codes "ho")
short-NoBracket = (ground arith, (ground arith, tt))

owned_web : is_owned (codes "[home] web") (codes "home") ≡ true
unfolding is_owned has_prefix list_beq
owned_web = refl

owned_by_one_tag_example : is_owned (codes "[home] web") (codes "ho") ≡ false
owned_by_one_tag_example =
    owned_by_one_tag (codes "[home] web") (codes "home") (codes "ho") home-NoBracket short-NoBracket
      (λ e. ground arith) owned_web

abbrev long_comment : Text
long_comment = codes "a comment that is far longer than the fifty characters of the product"

render_description-owned_example :
    is_owned (render_description ali_swas (codes "home") long_comment) (codes "home") ≡ true
render_description-owned_example =
    render_description-owned (codes "home") home-NoBracket ali_swas long_comment

abbrev results : List Event
results =
    failure (codes "a.example")
    ∷ success (codes "a.example")
    ∷ failure (codes " A.example ")
    ∷ failure (codes "b.example")
    ∷ failure (codes "a.example")
    ∷ []

-- The breaker of a.example is open after two failures in a row, under any spelling of the name.
opened : is_open (foldl apply (new_circuit_breaker 2) results) (codes "A.EXAMPLE") ≡ true
unfolding is_open record_failure record_success domain_key to_lower lower_code trim_space trim_left
    trim_right is_space list_beq
opened = refl

is_open_exact_example :
    (is_open (foldl apply (new_circuit_breaker 2) results) (codes "a.example") ≡ true)
    ↔ (2 ≤ run_length (domain_key (codes "a.example")) 0 results)
is_open_exact_example = is_open_exact 2 results (codes "a.example")

abbrev counted : CircuitBreaker
counted = foldl apply (new_circuit_breaker 2) results

clone_for_domains_lem_example :
    ((clone_for_domains counted (codes "a.example" ∷ [])).fail_count (codes "b.example") ≡ (
      if any (λ d. codes "b.example" == domain_key d) (codes "a.example" ∷ [])
      then counted.fail_count (codes "b.example")
      else 0))
    × ((clone_for_domains counted (codes "a.example" ∷ [])).threshold ≡ counted.threshold)
clone_for_domains_lem_example =
    clone_for_domains_lem counted (codes "a.example" ∷ []) (codes "b.example")

abbrev race : GoError
race = plain_error (codes "ResourceInUse.FirewallVersionMismatch")

race_lem : is_version_mismatch race ≡ true
unfolding is_version_mismatch to_lower lower_code contains_sub has_prefix
race_lem = refl

race_retryable : is_retryable race ≡ true
race_retryable = version_mismatch-retryable race race_lem

ranges : to_slash (codes "8000-8010") ≡ codes "8000/8010"
unfolding to_slash cut equal_fold list_beq
ranges = refl
