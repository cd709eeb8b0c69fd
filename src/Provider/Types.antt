-- ===== src/Provider/Types.antt =====
-- provider/plan.go: the functional key, the issues and the parts of a plan.
use cloudhost_firewall_autou.Common.{
  ℕ, ◌≡◌, ◌↔◌, Bool, ◌&&◌, Option, List, ◌++◌, ◌∷◌, arith, Eq, ◌==◌, ==_iff, nat_eq, list_eq, true,
  false,
}
use cloudhost_firewall_autou.Strings.{Text, codes}
use cloudhost_firewall_autou.Config.{CloudType, RuleInfo, RuleAction, DomainRule}
use cloudhost_firewall_autou.Dns.{ResolvedIp}

pub data AddressFamily : Type 0 where
  ipv4 ipv6 : AddressFamily

abbrev pub family_text : AddressFamily → Text
family_text ipv4 = codes "ipv4"
family_text ipv6 = codes "ipv6"

abbrev pub family_beq : AddressFamily → AddressFamily → Bool
family_beq ipv4 ipv4 = true
family_beq ipv6 ipv6 = true
family_beq _ _ = false

pub family_beq_iff : (a b : AddressFamily) → (family_beq a b ≡ true) ↔ (a ≡ b)
family_beq_iff a b = ground arith

instance abbrev pub family_eq : Eq AddressFamily
family_eq = record { beq = family_beq; beq_iff = family_beq_iff }

pub record FunctionalKey : Type 0 where
  pub family : AddressFamily
  pub cidr : Text
  pub protocol : Text
  pub port : Text
  pub action : Text

unfoldable pub key_beq : FunctionalKey → FunctionalKey → Bool
key_beq a b =
    (a.family == b.family)
    && ((a.cidr == b.cidr)
        && ((a.protocol == b.protocol) && ((a.port == b.port) && (a.action == b.action))))

pub key_beq_iff : (a b : FunctionalKey) → (key_beq a b ≡ true) ↔ (a ≡ b)
unfolding key_beq
key_beq_iff a b = ground (
  arith,
  family_beq_iff a.family b.family,
  ==_iff a.cidr b.cidr,
  ==_iff a.protocol b.protocol,
  ==_iff a.port b.port,
  ==_iff a.action b.action,
)

instance abbrev pub key_eq : Eq FunctionalKey
key_eq = record { beq = key_beq; beq_iff = key_beq_iff }

abbrev bar : Text → Text → Text
bar a b = a ++ b'|' ∷ b

-- FunctionalKey.String.
unfoldable pub key_text : FunctionalKey → Text
key_text k = bar (family_text k.family) (bar k.cidr (bar k.protocol (bar k.port k.action)))

-- The stable codes of plan.go.
pub data IssueCode : Type 0 where
  dns_failed dns_empty snapshot_incomplete unsupported_ipv6 unsupported_icmpv6 : IssueCode
  unsupported_action owned_locator_missing owned_key_ambiguous snapshot_rule_invalid : IssueCode
  opposite_action desired_empty coverage_not_ready : IssueCode

abbrev pub code_text : IssueCode → Text
code_text dns_failed = codes "dns_failed"
code_text dns_empty = codes "dns_empty"
code_text snapshot_incomplete = codes "snapshot_incomplete"
code_text unsupported_ipv6 = codes "unsupported_ipv6"
code_text unsupported_icmpv6 = codes "unsupported_icmpv6"
code_text unsupported_action = codes "unsupported_action"
code_text owned_locator_missing = codes "owned_locator_missing"
code_text owned_key_ambiguous = codes "owned_key_ambiguous"
code_text snapshot_rule_invalid = codes "snapshot_rule_invalid"
code_text opposite_action = codes "opposite_action"
code_text desired_empty = codes "desired_empty"
code_text coverage_not_ready = codes "coverage_not_ready"

-- The displayed text of an issue: a fixed text of its place in the code, given here by the values
-- that it is formatted with.
pub data Message : Type 0 where
  fixed : Message
  text : Text → Message
  about_rule : RuleInfo → Message
  about_tuple : Text → Message
  about_count : ℕ → Message
  about_code : IssueCode → Message

pub record PlanIssue : Type 0 where
  pub code : IssueCode
  pub message : Message
  pub key : Option FunctionalKey
  pub domain : Text
  pub rule_id : ℕ

pub record RuleSnapshot : Type 0 where
  pub rules : List RuleInfo
  pub revision : Text

pub record PlannedRule : Type 0 where
  pub key : FunctionalKey
  pub comment : Text
  pub description : Text
  pub rule_ids : List ℕ
  pub domains : List Text
  pub implementable : Bool
  pub action : RuleAction

pub record PlanMatch : Type 0 where
  pub key : FunctionalKey
  pub description : Text
  pub rules : List RuleInfo

pub record TargetPlan : Type 0 where
  pub desired : List PlannedRule
  pub satisfied_by_owned : List PlanMatch
  pub satisfied_by_external : List PlanMatch
  pub to_add : List RuleAction
  pub cleanup_candidates : List RuleInfo
  pub cleanup_deletable : List RuleInfo
  pub cleanup_deferred : List PlanIssue
  pub dns_errors : List PlanIssue
  pub unsupported : List PlanIssue
  pub conflicts : List PlanIssue
  pub coverage_ready : Bool

-- `resolved` and `dns_errors` are Go maps by the identifier of a domain rule.
pub record TargetPlanInput : Type 0 where
  pub cloud_type : CloudType
  pub tag : Text
  pub rules : List DomainRule
  pub resolved : List (ℕ × List ResolvedIp)
  pub dns_errors : List (ℕ × Text)
  pub snapshot : RuleSnapshot
  pub add_state_unknown : Bool

pub record Capability : Type 0 where
  pub ipv6 : Bool
  pub icmpv6 : Bool
  pub tcp_udp : Bool
  pub drop : Bool
