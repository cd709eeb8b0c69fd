-- ===== src/Provider/Desired.antt =====
-- provider/plan.go, PlanTarget step 1: the desired functions of a target, from its domain rules in
-- the order of their identifiers. `desiredIndex` maps a key to its place in `Desired`, so a lookup
-- is a search for the key there.
pub mod Asked
pub mod Unique
use cloudhost_firewall_autou.Common.{
  or_empty, is_none, ℕ, Bool, true, false, not, ◌&&◌, Option, none, some, List, [], ◌∷◌, ◌++◌, map,
  foldl, ◌==◌, list_eq, nat_eq, if◌then◌else◌, is_empty, contains, sort_by, ltb,
}
use cloudhost_firewall_autou.Strings.{Text, codes, trim_space, to_upper, equal_fold, text_lt}
use cloudhost_firewall_autou.Config.{CloudType, DomainRule}
use cloudhost_firewall_autou.Dns.{ResolvedIp, resolved_cidr}
use cloudhost_firewall_autou.Provider.Types.{
  AddressFamily, ipv4, ipv6, FunctionalKey, key_text, key_eq, IssueCode, dns_failed, dns_empty,
  code_text, Message, fixed, text, about_code, PlanIssue, PlannedRule, TargetPlanInput,
}
use cloudhost_firewall_autou.Provider.Ports.{capabilities, expand_planned_ports}
use cloudhost_firewall_autou.Provider.Description.{render_description}
use cloudhost_firewall_autou.Provider.Keys.{
  canonical_protocol, canonical_port_expression, canonical_cidr, unsupported_key_reason,
}

module _ {ℓ} {V : Type ℓ} where
  -- A read of a Go map with integer keys.
  unfoldable pub find_int : List (ℕ × V) → ℕ → Option V
  find_int [] k = none
  find_int ((j, v) ∷ m) k = if j == k then some v else find_int m k

-- The variables of step 1 that its loops change.
pub record Draft : Type 0 where
  pub desired : List PlannedRule
  pub dns_errors : List PlanIssue
  pub unsupported : List PlanIssue
  pub unsupported_seen : List Text

abbrev pub empty_draft : Draft
empty_draft = record { desired = []; dns_errors = []; unsupported = []; unsupported_seen = [] }

-- What the loops over addresses and protocols hold fixed.
pub record Endpoint : Type 0 where
  pub cloud_type : CloudType
  pub rule : DomainRule
  pub family : AddressFamily
  pub cidr : Text
  pub protocol : Text

unfoldable pub rule_action : DomainRule → Text
rule_action r = to_upper (trim_space r.action)

abbrev pub endpoint_key : Endpoint → Text → FunctionalKey
endpoint_key e wire_port =
    let proto = canonical_protocol e.protocol in
    record {
      family = e.family;
      cidr = e.cidr;
      protocol = proto;
      port = canonical_port_expression proto wire_port;
      action = rule_action e.rule;
    }

abbrev pub endpoint_reason : Endpoint → Option IssueCode
endpoint_reason e =
    unsupported_key_reason (capabilities e.cloud_type) e.family (canonical_protocol e.protocol)
      (rule_action e.rule)

abbrev cidr_for : AddressFamily → AddressFamily → Text → Text
cidr_for ipv4 ipv4 cidr = cidr
cidr_for ipv6 ipv6 cidr = cidr
cidr_for _ _ cidr = []

unfoldable pub planned_rule : Endpoint → Text → PlannedRule
planned_rule e wire_port = record {
  key = endpoint_key e wire_port;
  comment = trim_space e.rule.comment;
  description = [];
  rule_ids = e.rule.id ∷ [];
  domains = e.rule.host ∷ [];
  implementable = is_none (endpoint_reason e);
  action = record {
    protocol = e.protocol;
    port = wire_port;
    cidr_block = cidr_for ipv4 e.family e.cidr;
    ipv6_cidr_block = cidr_for ipv6 e.family e.cidr;
    action = rule_action e.rule;
    description = [];
  };
}

-- appendUniqueInt and appendUniqueString.
unfoldable pub append_unique_int : List ℕ → ℕ → List ℕ
append_unique_int list v = if contains list v then list else list ++ v ∷ []

unfoldable pub append_unique_string : List Text → Text → List Text
append_unique_string list v = if contains list v then list else list ++ v ∷ []

-- A further rule that asks for a function already planned.
unfoldable pub merge_planned : PlannedRule → PlannedRule → DomainRule → PlannedRule
merge_planned cur planned r = record cur {
  rule_ids = append_unique_int cur.rule_ids r.id;
  domains = append_unique_string cur.domains r.host;
  comment = if is_empty cur.comment then planned.comment else cur.comment;
}

unfoldable pub place_planned : PlannedRule → DomainRule → List PlannedRule → List PlannedRule
place_planned planned r [] = planned ∷ []
place_planned planned r (cur ∷ rest) =
    if cur.key == planned.key
    then merge_planned cur planned r ∷ rest
    else cur ∷ place_planned planned r rest

-- An unsupported function is reported once for each reason and key.
unfoldable pub note_unsupported : Endpoint → FunctionalKey → Option IssueCode → Draft → Draft
note_unsupported e key none d = d
note_unsupported e key (some reason) d =
    let seen_key = code_text reason ++ b'|' ∷ key_text key in
    if contains d.unsupported_seen seen_key then d else record d {
      unsupported_seen = d.unsupported_seen ++ seen_key ∷ [];
      unsupported =
          d.unsupported
          ++ record {
            code = reason;
            message = about_code reason;
            key = some key;
            domain = e.rule.host;
            rule_id = e.rule.id;
          }
            ∷ [];
    }

unfoldable pub add_wire_port : Endpoint → Draft → Text → Draft
add_wire_port e d wire_port =
    let planned = planned_rule e wire_port in
    note_unsupported e planned.key (endpoint_reason e)
      (record d { desired = place_planned planned e.rule d.desired })

unfoldable pub add_protocol : CloudType → DomainRule → AddressFamily → Text → Draft → Text → Draft
add_protocol ct r family cidr d proto =
    foldl
      (add_wire_port
        (record { cloud_type = ct; rule = r; family = family; cidr = cidr; protocol = proto }))
      d (expand_planned_ports ct proto r.ports)

abbrev dns_issue : DomainRule → IssueCode → Message → PlanIssue
dns_issue r code message = record {
  code = code;
  message = message;
  key = none;
  domain = r.host;
  rule_id = r.id;
}

abbrev pub add_dns_issue : DomainRule → IssueCode → Message → Draft → Draft
add_dns_issue r code message d = record d {
  dns_errors = d.dns_errors ++ dns_issue r code message ∷ [];
}

-- TCP+UDP is two protocols where the product has no such rule.
unfoldable pub protocols : CloudType → Text → List Text
protocols ct protocol =
    if equal_fold protocol (codes "TCP+UDP") && not (capabilities ct).tcp_udp
    then codes "TCP" ∷ codes "UDP" ∷ []
    else protocol ∷ []

abbrev pub add_cidr : CloudType → DomainRule → ResolvedIp → Draft → Option Text → Draft
add_cidr ct r ip d none = add_dns_issue r dns_failed fixed d
add_cidr ct r ip d (some cidr) =
    foldl (add_protocol ct r (if ip.is_ipv6 then ipv6 else ipv4) cidr) d (protocols ct r.protocol)

unfoldable pub add_ip : CloudType → DomainRule → Draft → ResolvedIp → Draft
add_ip ct r d ip = add_cidr ct r ip d (canonical_cidr (resolved_cidr ip))

abbrev pub add_resolved : CloudType → DomainRule → Draft → List ResolvedIp → Draft
add_resolved ct r d [] = add_dns_issue r dns_empty fixed d
add_resolved ct r d (ip ∷ ips) = foldl (add_ip ct r) d (ip ∷ ips)

unfoldable pub add_rule : TargetPlanInput → Draft → DomainRule → Draft
add_rule input d r =
    let msg = trim_space (or_empty (find_int input.dns_errors r.id)) in
    if is_empty msg
    then add_resolved input.cloud_type r d (or_empty (find_int input.resolved r.id))
    else add_dns_issue r dns_failed (text msg) d

unfoldable pub sort_rules : List DomainRule → List DomainRule
sort_rules = sort_by (λ a b. ltb a.id b.id)

unfoldable pub desired_draft : TargetPlanInput → Draft
desired_draft input = foldl (add_rule input) empty_draft (sort_rules input.rules)

-- The rendering of the descriptions, the only place where they are cut.
unfoldable pub render_planned : CloudType → Text → PlannedRule → PlannedRule
render_planned ct tag p =
    let description = render_description ct tag p.comment in
    record p {
      description = description;
      action = record p.action { description = description };
      rule_ids = sort_by ltb p.rule_ids;
      domains = sort_by text_lt p.domains;
    }

unfoldable pub sort_planned : List PlannedRule → List PlannedRule
sort_planned = sort_by (λ a b. text_lt (key_text a.key) (key_text b.key))

-- `plan.Desired` when step 1 is done.
unfoldable pub desired_rules : TargetPlanInput → List PlannedRule
desired_rules input =
    sort_planned (map (render_planned input.cloud_type input.tag) (desired_draft input).desired)
