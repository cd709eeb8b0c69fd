-- ===== src/Config.antt =====
-- config/config.go: the records that the planner and the synchroniser exchange.
pub mod Alerts
pub mod Validate
pub mod ValidateAlerts
pub mod Runtime
use cloudhost_firewall_autou.Common.{ℕ, Bool, List, list_eq, nat_eq}
use cloudhost_firewall_autou.Strings.{Text}

-- `CloudType` is a string type; `other` is a value that is none of its four constants.
pub data CloudType : Type 0 where
  tc_lighthouse tc_cvm ali_swas ali_ecs : CloudType
  other : Text → CloudType

pub record RuleInfo : Type 0 where
  pub protocol : Text
  pub port : Text
  pub cidr_block : Text
  pub ipv6_cidr_block : Text
  pub action : Text
  pub description : Text
  pub policy_index : Text
  pub rule_id : Text

pub record RuleAction : Type 0 where
  pub protocol : Text
  pub port : Text
  pub cidr_block : Text
  pub ipv6_cidr_block : Text
  pub action : Text
  pub description : Text

-- Rule and target identifiers are SQLite row ids.
pub record TargetConfig : Type 0 where
  pub id : ℕ
  pub cloud_type : CloudType
  pub region : Text
  pub resource_id : Text

pub record DomainRule : Type 0 where
  pub id : ℕ
  pub host : Text
  pub protocol : Text
  pub ports : Text
  pub action : Text
  pub targets : List ℕ
  pub comment : Text
  pub enable_ipv6 : Bool
