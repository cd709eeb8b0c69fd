-- ===== src/Config/Runtime.antt =====
-- config/runtime.go and config/config.go: what the running program holds of its configuration. A deep
-- copy of a value is the value. Durations are in nanoseconds.
use cloudhost_firewall_autou.Common.{ℕ, Bool, Option, none, some, List, ◌==◌, list_eq, nat_eq}
use cloudhost_firewall_autou.Strings.{Text, codes}
use cloudhost_firewall_autou.Strconv.{ℤ, pos}
use cloudhost_firewall_autou.Config.Validate.{Checked, valid, invalid, normalize_dns_fail_threshold}
use cloudhost_firewall_autou.Config.{TargetConfig, DomainRule}
use cloudhost_firewall_autou.Config.Alerts.{
  AlertPolicyConfig, AlertEmailConfig, AlertWebhookConfig, UptimeKumaPushConfig,
}

pub record Credentials : Type 0 where
  pub tencent_secret_id : Text
  pub tencent_secret_key : Text
  pub aliyun_access_key_id : Text
  pub aliyun_access_key_secret : Text

pub record RuntimeConfig : Type 0 where
  pub credentials : Credentials
  pub targets : List TargetConfig
  pub domain_rules : List DomainRule
  pub tag : Text
  pub interval : ℤ
  pub dns : Text
  pub dns_timeout : ℤ
  pub dns_fail_threshold : ℕ
  pub log_level : Text
  pub sync_enabled : Bool
  pub theme : Text
  pub policy : AlertPolicyConfig
  pub email : AlertEmailConfig
  pub webhook : AlertWebhookConfig
  pub uptime_kuma_push : UptimeKumaPushConfig

-- The map of settings is a function; a key that is not there reads as the empty string.
pub record BusinessSnapshot : Type 0 where
  pub targets : List TargetConfig
  pub rules : List DomainRule
  pub settings : Text → Text
  pub policy : AlertPolicyConfig
  pub email : AlertEmailConfig
  pub webhook : AlertWebhookConfig
  pub uptime_kuma_push : UptimeKumaPushConfig

unfoldable pub credentials_of : BusinessSnapshot → Credentials
credentials_of s = record {
  tencent_secret_id = s.settings (codes "tc_access_id");
  tencent_secret_key = s.settings (codes "tc_access_key");
  aliyun_access_key_id = s.settings (codes "ali_access_id");
  aliyun_access_key_secret = s.settings (codes "ali_access_key");
}

abbrev threshold_of : Checked (Text × ℕ) → ℕ
threshold_of (valid (text, n)) = n
threshold_of (invalid field reason) = 0

unfoldable pub must_threshold : Text → ℕ
must_threshold v = threshold_of (normalize_dns_fail_threshold v)

abbrev or_zero : Option ℤ → ℤ
or_zero none = pos 0
or_zero (some d) = d

-- `parse_duration` is time.ParseDuration.
module _ (parse_duration : Text → Option ℤ) where
  unfoldable pub must_duration : Text → ℤ
  must_duration v = or_zero (parse_duration v)

  unfoldable pub to_runtime_config : BusinessSnapshot → RuntimeConfig
  to_runtime_config s = record {
    credentials = credentials_of s;
    targets = s.targets;
    domain_rules = s.rules;
    tag = s.settings (codes "tag");
    interval = must_duration (s.settings (codes "interval"));
    dns = s.settings (codes "dns");
    dns_timeout = must_duration (s.settings (codes "dns_timeout"));
    dns_fail_threshold = must_threshold (s.settings (codes "dns_fail_threshold"));
    log_level = s.settings (codes "log_level");
    sync_enabled = s.settings (codes "sync_enabled") == codes "true";
    theme = s.settings (codes "theme");
    policy = s.policy;
    email = s.email;
    webhook = s.webhook;
    uptime_kuma_push = s.uptime_kuma_push;
  }
