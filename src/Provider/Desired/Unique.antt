-- ===== src/Provider/Desired/Unique.antt =====
-- No function is desired twice.
use cloudhost_firewall_autou.Common.{
  sym, subst, Option, none, some, List, [], ◌∷◌, map, foldl_inv, Distinct, Distinct-add,
  sort_by-Distinct, is_empty, Bool-cases, inl, inr, or_empty,
}
use cloudhost_firewall_autou.Strings.{Text, trim_space}
use cloudhost_firewall_autou.Config.{CloudType, DomainRule}
use cloudhost_firewall_autou.Dns.{ResolvedIp, resolved_cidr}
use cloudhost_firewall_autou.Provider.Types.{AddressFamily, key_eq, TargetPlanInput}
use cloudhost_firewall_autou.Provider.Ports.{expand_planned_ports}
use cloudhost_firewall_autou.Provider.Keys.{canonical_cidr}
use cloudhost_firewall_autou.Provider.Desired.{
  Draft, empty_draft, Endpoint, endpoint_key, find_int, add_wire_port, add_protocol, protocols,
  add_cidr, add_ip, add_resolved, add_rule, sort_rules, desired_draft, desired_rules,
  render_planned, sort_planned,
}
use cloudhost_firewall_autou.Provider.Desired.Asked.{
  keys, endpoint, family_of, keys-add_wire_port, keys-render_planned,
}

abbrev IsUnique : Draft → Type 0
IsUnique d = Distinct (keys d.desired)

add_wire_port-IsUnique :
    (e : Endpoint) (d : Draft) (w : Text) → IsUnique d → IsUnique (add_wire_port e d w)
add_wire_port-IsUnique e d w h =
    rw (keys-add_wire_port e d w) (Distinct-add (keys d.desired) (endpoint_key e w) h)

add_protocol-IsUnique :
    (ct : CloudType) (r : DomainRule) (family : AddressFamily) (cidr : Text) (d : Draft)
    (proto : Text)
    → IsUnique d
    → IsUnique (add_protocol ct r family cidr d proto)
unfolding add_protocol
add_protocol-IsUnique ct r family cidr d proto =
    let e = endpoint ct r family cidr proto in
    foldl_inv IsUnique (add_wire_port e) (add_wire_port-IsUnique e)
      (expand_planned_ports ct proto r.ports) d

add_cidr-IsUnique :
    (ct : CloudType) (r : DomainRule) (ip : ResolvedIp) (d : Draft) (o : Option Text)
    → IsUnique d
    → IsUnique (add_cidr ct r ip d o)
add_cidr-IsUnique ct r ip d none h = h
add_cidr-IsUnique ct r ip d (some cidr) h =
    foldl_inv IsUnique (add_protocol ct r (family_of ip) cidr)
      (add_protocol-IsUnique ct r (family_of ip) cidr) (protocols ct r.protocol) d h

add_ip-IsUnique :
    (ct : CloudType) (r : DomainRule) (d : Draft) (ip : ResolvedIp)
    → IsUnique d
    → IsUnique (add_ip ct r d ip)
unfolding add_ip
add_ip-IsUnique ct r d ip = add_cidr-IsUnique ct r ip d (canonical_cidr (resolved_cidr ip))

add_resolved-IsUnique :
    (ct : CloudType) (r : DomainRule) (d : Draft) (ips : List ResolvedIp)
    → IsUnique d
    → IsUnique (add_resolved ct r d ips)
add_resolved-IsUnique ct r d [] h = h
add_resolved-IsUnique ct r d (ip ∷ ips) h =
    foldl_inv IsUnique (add_ip ct r) (add_ip-IsUnique ct r) (ip ∷ ips) d h

add_rule-IsUnique :
    (input : TargetPlanInput) (d : Draft) (r : DomainRule)
    → IsUnique d
    → IsUnique (add_rule input d r)
unfolding add_rule
add_rule-IsUnique input d r h =
    elim (Bool-cases (is_empty (trim_space (or_empty (find_int input.dns_errors r.id))))) [
      | inl clean ↦
          rw clean
            (add_resolved-IsUnique input.cloud_type r d (or_empty (find_int input.resolved r.id)) h)
      | inr failed ↦ rw failed h
    ]

-- The desired rules have pairwise different keys.
pub desired_rules-Distinct : (input : TargetPlanInput) → Distinct (keys (desired_rules input))
unfolding desired_rules desired_draft sort_planned
desired_rules-Distinct input =
    sort_by-Distinct (λ d. d.key) _
      (map (render_planned input.cloud_type input.tag) (desired_draft input).desired)
      (subst Distinct
        (sym (keys-render_planned input.cloud_type input.tag (desired_draft input).desired))
        (foldl_inv IsUnique (add_rule input) (add_rule-IsUnique input) (sort_rules input.rules)
          empty_draft tt))
