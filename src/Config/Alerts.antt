-- ===== src/Config/Alerts.antt =====
-- config/config.go: the records of the alert settings, and their fixed values. A duration is a
-- number of nanoseconds; the durations of these records have been checked to be positive.
use cloudhost_firewall_autou.Common.{ℕ, ◌*◌, Bool, false, ◌||◌, ◌==◌, nat_eq, list_eq, []}
use cloudhost_firewall_autou.Strings.{Text, codes}

pub record AlertEmailConfig : Type 0 where
  pub enabled : Bool
  pub host : Text
  pub port : Text
  pub security : Text
  pub username : Text
  pub password : Text
  pub from_addr : Text
  pub to_addr : Text
  pub subject : Text
  pub body : Text

pub record AlertPolicyConfig : Type 0 where
  pub dns_failed_enabled : Bool
  pub sync_error_enabled : Bool
  pub operational_error_enabled : Bool
  pub health_timeout : ℕ
  pub health_timeout_text : Text

pub record UptimeKumaPushConfig : Type 0 where
  pub enabled : Bool
  pub url : Text
  pub interval : ℕ
  pub interval_text : Text

pub record AlertWebhookConfig : Type 0 where
  pub enabled : Bool
  pub url : Text
  pub channel : Text

abbrev pub second : ℕ
second = 1000 * 1000 * 1000

abbrev pub default_health_timeout : ℕ
default_health_timeout = 10 * 60 * second

abbrev pub default_push_interval : ℕ
default_push_interval = 60 * second

abbrev pub min_push_interval : ℕ
min_push_interval = 20 * second

abbrev pub max_email_subject_runes : ℕ
max_email_subject_runes = 200

abbrev pub max_email_body_bytes : ℕ
max_email_body_bytes = 10 * 1024

unfoldable pub valid_smtp_security : Text → Bool
valid_smtp_security s =
    (s == codes "auto_starttls") || ((s == codes "starttls") || (s == codes "implicit_tls"))

abbrev pub default_alert_policy : AlertPolicyConfig
default_alert_policy = record {
  dns_failed_enabled = false;
  sync_error_enabled = false;
  operational_error_enabled = false;
  health_timeout = default_health_timeout;
  health_timeout_text = codes "10m";
}

abbrev pub default_uptime_kuma_push : UptimeKumaPushConfig
default_uptime_kuma_push = record {
  enabled = false;
  url = [];
  interval = default_push_interval;
  interval_text = codes "60s";
}
