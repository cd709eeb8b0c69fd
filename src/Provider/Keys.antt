-- ===== src/Provider/Keys.antt =====
-- provider/plan.go: canonical protocols, ports and addresses, and the functional keys of a rule.
use cloudhost_firewall_autou.Common.{
  Bool, not, ◌&&◌, ◌||◌, Option, none, some, List, [], ◌∷◌, ◌++◌, map, foldl, ◌==◌, list_eq, nat_eq,
  if◌then◌else◌, is_empty, contains, sort_by,
}
use cloudhost_firewall_autou.Strings.{Text, codes, trim_space, to_upper, cut, split, text_lt}
use cloudhost_firewall_autou.Netip.{
  Prefix, Addr, v4, v6, parse_prefix, parse_addr, masked, prefix_text, is_4, is_6,
}
use cloudhost_firewall_autou.Config.{RuleInfo, RuleAction}
use cloudhost_firewall_autou.Provider.Types.{
  AddressFamily, ipv4, ipv6, FunctionalKey, key_text, IssueCode, unsupported_ipv6,
  unsupported_icmpv6, unsupported_action, Capability,
}

abbrev pub icmp : Text
icmp = codes "ICMP"

abbrev pub all_ports : Text
all_ports = codes "ALL"

abbrev pub accept : Text
accept = codes "ACCEPT"

abbrev pub drop_action : Text
drop_action = codes "DROP"

unfoldable pub canonical_protocol : Text → Text
canonical_protocol protocol =
    let p = to_upper (trim_space protocol) in if p == codes "ICMPV6" then icmp else p

abbrev slash_form : Text → Option (Text × Text) → Text
slash_form p none = p
slash_form p (some (first, last)) = if first == last then first else first ++ b'-' ∷ last

abbrev fold_port : Text → Text
fold_port p =
    if is_empty p || ((p == all_ports) || ((p == codes "-1/-1") || (p == codes "-1")))
    then all_ports
    else slash_form p (cut b'/' p)

unfoldable pub canonical_port_expression : Text → Text → Text
canonical_port_expression protocol port =
    if (protocol == icmp) || (protocol == all_ports)
    then all_ports
    else fold_port (to_upper (trim_space port))

-- The prefix of one address; a zone is refused.
abbrev single_prefix : Option Addr → Option Prefix
single_prefix (some (v4 fields)) = some (record { addr = v4 fields; bits = 32 })
single_prefix (some (v6 groups [])) = some (record { addr = v6 groups []; bits = 128 })
single_prefix _ = none

unfoldable pub canonical_ip_prefix : Text → Option Prefix
canonical_ip_prefix value =
    let value' = trim_space value in
    elim (parse_prefix value') [
      | some p ↦ some (masked p)
      | none ↦ single_prefix (parse_addr value')
    ]

unfoldable pub canonical_cidr : Text → Option Text
unfolding canonical_ip_prefix
canonical_cidr cidr = elim (canonical_ip_prefix cidr) [
  | none ↦ none
  | some p ↦ some (prefix_text p)
]

abbrev of_family : AddressFamily → Option Prefix → Option (AddressFamily × Text)
of_family f none = none
of_family ipv4 (some p) = if is_4 p.addr then some (ipv4, prefix_text p) else none
of_family ipv6 (some p) = if is_6 p.addr then some (ipv6, prefix_text p) else none

unfoldable pub rule_family_cidr : Text → Text → Option (AddressFamily × Text)
rule_family_cidr cidr_block ipv6_cidr_block =
    let has_v4 = not (is_empty (trim_space cidr_block)) in
    let has_v6 = not (is_empty (trim_space ipv6_cidr_block)) in
    if has_v4
    then (if has_v6 then none else of_family ipv4 (canonical_ip_prefix cidr_block))
    else (if has_v6 then of_family ipv6 (canonical_ip_prefix ipv6_cidr_block) else none)

-- The loop body: `out` also holds what has been seen.
keep_new : List Text → Text → List Text
keep_new out p =
    let p' = trim_space p in if is_empty p' || contains out p' then out else out ++ p' ∷ []

unfoldable pub split_port_field : Text → List Text
unfolding keep_new
split_port_field port = sort_by text_lt (foldl keep_new [] (split b',' port))

abbrev key_lt : FunctionalKey → FunctionalKey → Bool
key_lt a b = text_lt (key_text a) (key_text b)

unfoldable pub sort_rule_keys : List FunctionalKey → List FunctionalKey
sort_rule_keys = sort_by key_lt

-- The port items of a rule; a protocol without ports may leave them out.
abbrev port_items : Text → List Text → Option (List Text)
port_items proto [] =
    if (proto == icmp) || (proto == all_ports) then some (all_ports ∷ []) else none
port_items proto (p ∷ ps) = some (p ∷ ps)

abbrev key_at : AddressFamily → Text → Text → Text → Text → FunctionalKey
key_at family cidr proto act p = record {
  family = family;
  cidr = cidr;
  protocol = proto;
  port = canonical_port_expression proto p;
  action = act;
}

unfoldable pub build_keys : AddressFamily → Text → Text → Text → Text → Option (List FunctionalKey)
build_keys family cidr protocol port_field action =
    let proto = canonical_protocol protocol in
    let act = to_upper (trim_space action) in
    if is_empty proto
    then none
    else if not (act == accept) && not (act == drop_action)
    then none
    else elim (port_items proto (split_port_field port_field)) [
      | none ↦ none
      | some ports ↦ some (sort_rule_keys (map (key_at family cidr proto act) ports))
    ]

unfoldable pub snapshot_rule_keys : RuleInfo → Option (List FunctionalKey)
snapshot_rule_keys r = elim (rule_family_cidr r.cidr_block r.ipv6_cidr_block) [
  | none ↦ none
  | some (family, cidr) ↦ build_keys family cidr r.protocol r.port r.action
]

unfoldable pub planned_action_keys : RuleAction → List FunctionalKey
planned_action_keys a = elim (rule_family_cidr a.cidr_block a.ipv6_cidr_block) [
  | none ↦ []
  | some (family, cidr) ↦ elim (build_keys family cidr a.protocol a.port a.action) [
    | none ↦ []
    | some keys ↦ keys
  ]
]

-- `none` is the empty reason.
unfoldable pub unsupported_key_reason : Capability → AddressFamily → Text → Text → Option IssueCode
unsupported_key_reason caps ipv4 protocol action =
    if (action == drop_action) && not caps.drop then some unsupported_action else none
unsupported_key_reason caps ipv6 protocol action =
    if not caps.ipv6
    then some unsupported_ipv6
    else if (protocol == icmp) && not caps.icmpv6
    then some unsupported_icmpv6
    else if (action == drop_action) && not caps.drop
    then some unsupported_action
    else none
