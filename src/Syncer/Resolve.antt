-- ===== src/Syncer/Resolve.antt =====
-- syncer/target.go: resolveTargetRules and the errors of failed resolutions. A Go map that is built
-- here is a list with the newest entry in front.
use cloudhost_firewall_autou.Common.{
  ℕ, Bool, not, Option, none, some, List, [], ◌∷◌, ◌++◌, foldl, ◌==◌, nat_eq, list_eq,
  if◌then◌else◌, is_empty, contains, select, sort_by, ltb, length,
}
use cloudhost_firewall_autou.Strings.{Text, codes, trim_space, text_lt}
use cloudhost_firewall_autou.Netip.{itoa}
use cloudhost_firewall_autou.Config.{DomainRule}
use cloudhost_firewall_autou.Dns.{ResolvedIp, domain_key}
use cloudhost_firewall_autou.Provider.Types.{PlanIssue}
use cloudhost_firewall_autou.Syncer.Retry.{GoError, wrap, plain_error}
use cloudhost_firewall_autou.Syncer.Calls.{Result, ok, err, Services, World, dns_failed, publish}

pub record Resolution : Type 0 where
  pub resolved : List (ℕ × List ResolvedIp)
  pub dns_errors : List (ℕ × Text)
  pub raw_errors : List (ℕ × GoError)

abbrev pub empty_resolution : Resolution
empty_resolution = record { resolved = []; dns_errors = []; raw_errors = [] }

abbrev Cache : Type 0
Cache = List (Text × Result (List ResolvedIp))

unfoldable pub find_host : Cache → Text → Option (Result (List ResolvedIp))
find_host [] k = none
find_host ((j, r) ∷ m) k = if j == k then some r else find_host m k

unfoldable pub filter_ipv4 : List ResolvedIp → List ResolvedIp
filter_ipv4 = select (λ ip. not ip.is_ipv6)

abbrev resolved_as : DomainRule → List ResolvedIp → Resolution → Resolution
resolved_as r [] z = z
resolved_as r (ip ∷ ips) z = record z { resolved = (r.id, ip ∷ ips) ∷ z.resolved }

unfoldable pub addresses : DomainRule → List ResolvedIp → List ResolvedIp
addresses r ips = if r.enable_ipv6 then ips else filter_ipv4 ips

-- A failed host is published once for a target.
unfoldable pub report_failure : {S : Type 0} → Bool → Text → GoError → World S → World S
report_failure report host e w =
    if report
    then (if contains w.dns_failed_hosts (domain_key host)
        then w
        else publish (dns_failed host e.message)
            (record w { dns_failed_hosts = domain_key host ∷ w.dns_failed_hosts }))
    else w

pub record Progress (S : Type 0) : Type 0 where
  pub cache : Cache
  pub resolution : Resolution
  pub world : World S

module _ {S : Type 0} (svc : Services S) (report : Bool) where
  -- The resolution of a host that the cache does not hold.
  unfoldable pub resolve_new : Text → World S → Result (List ResolvedIp) × World S
  resolve_new host w =
      let (r, s) =
        if report then svc.round_resolve host w.state else svc.resolve_host host w.state in
      (r, record w { state = s })

  abbrev pub look_up :
      Option (Result (List ResolvedIp))
      → DomainRule
      → Progress S
      → Result (List ResolvedIp) × Progress S
  look_up (some r) rule p = (r, p)
  look_up none rule p =
      let (r, w) = resolve_new rule.host p.world in
      (r, record p { cache = (domain_key rule.host, r) ∷ p.cache; world = w })

  abbrev pub store : DomainRule → Result (List ResolvedIp) → Progress S → Progress S
  store rule (ok ips) p = record p {
    resolution = resolved_as rule (addresses rule ips) p.resolution;
  }
  store rule (err e) p = record p {
    resolution = record p.resolution {
      dns_errors = (rule.id, e.message) ∷ p.resolution.dns_errors;
      raw_errors = (rule.id, e) ∷ p.resolution.raw_errors;
    };
    world = report_failure report rule.host e p.world;
  }

  unfoldable pub resolve_rule : Progress S → DomainRule → Progress S
  resolve_rule p rule =
      let (r, p') = look_up (find_host p.cache (domain_key rule.host)) rule p in store rule r p'

  unfoldable pub resolve_target_rules : List DomainRule → World S → Resolution × World S
  resolve_target_rules rules w =
      let p =
        foldl resolve_rule (record { cache = []; resolution = empty_resolution; world = w })
          rules in
      (p.resolution, p.world)

abbrev first_error : List (ℕ × GoError) → ℕ → GoError
first_error [] n = plain_error (codes "域名解析失败或为空（" ++ (itoa n ++ codes " 个适用规则）"))
first_error ((id, e) ∷ es) n = wrap (codes "域名解析失败（" ++ (itoa n ++ codes " 个适用规则）：")) e

-- The error of the rule with the least identifier.
unfoldable pub dns_failure_error : List PlanIssue → List (ℕ × GoError) → GoError
dns_failure_error issues raw = first_error (sort_by (λ a b. ltb a.0 b.0) raw) (length issues)

-- The loop body of ruleHosts.
add_host : List Text → DomainRule → List Text
add_host hosts r =
    let h = trim_space r.host in
    if is_empty h then hosts else if contains hosts h then hosts else hosts ++ h ∷ []

unfoldable pub rule_hosts : List DomainRule → List Text
unfolding add_host
rule_hosts rules = sort_by text_lt (foldl add_host [] rules)
