-- ===== src/Examples/Settings.antt =====
-- A rule and a TAG as a user may type them.
use cloudhost_firewall_autou.Common.{
  ◌≡◌, ◌≤◌, ◌↔◌, refl, true, false, some, [], ◌∷◌, list_beq, list_eq, nat_eq, contains, any, length,
  length, Option, if◌then◌else◌, ◌==◌, inr,
}
use cloudhost_firewall_autou.Strings.{
  Text, codes, trim_space, trim_left, trim_right, is_space, to_upper, upper_code,
}
use cloudhost_firewall_autou.Tag.{is_owned}
use cloudhost_firewall_autou.Config.{DomainRule, TargetConfig, ali_swas, tc_lighthouse}
use cloudhost_firewall_autou.Config.Alerts.{default_alert_policy, default_uptime_kuma_push}
use cloudhost_firewall_autou.Config.Runtime.{RuntimeConfig}
use cloudhost_firewall_autou.Config.Validate
use cloudhost_firewall_autou.Config.Validate.Rules.{normalize_rule_idem}
use cloudhost_firewall_autou.Config.Validate.Tags.{IsTag, normalize_tag_exact, accepted_tag_owns}
use cloudhost_firewall_autou.Provider.Description.{render_description}
use cloudhost_firewall_autou.Strconv.{pos}
use cloudhost_firewall_autou.Dns.{domain_key}
use cloudhost_firewall_autou.Syncer.State
use cloudhost_firewall_autou.Syncer.State.Built.{Made, kept_breaker}
use cloudhost_firewall_autou.Examples.Plan.{web}

abbrev typed : DomainRule
typed = record web {
  host = codes " home.example ";
  protocol = codes "icmp";
  action = codes "accept ";
}

abbrev stored : DomainRule
stored = record web { protocol = codes "ICMP"; ports = codes "ALL" }

typed_accepted : Validate.normalize_rule typed ≡ Validate.valid stored
unfolding Validate.normalize_rule contains list_beq trim_space trim_left trim_right is_space
    to_upper upper_code
typed_accepted = refl

normalize_rule_idem_example : Validate.normalize_rule stored ≡ Validate.valid stored
normalize_rule_idem_example = normalize_rule_idem typed stored typed_accepted

normalize_tag_exact_example :
    (Validate.normalize_tag (codes " home ") ≡ Validate.valid (codes "home"))
    ↔ ((codes "home" ≡ trim_space (codes " home ")) × IsTag (codes "home"))
normalize_tag_exact_example = normalize_tag_exact (codes " home ") (codes "home")

tag_accepted : Validate.normalize_tag (codes " home ") ≡ Validate.valid (codes "home")
unfolding Validate.normalize_tag Validate.has_control_char any trim_space trim_left trim_right
    is_space
tag_accepted = refl

abbrev long_comment : Text
long_comment = codes "a comment that is far longer than the fifty characters of the product"

accepted_tag_owns_example :
    (is_owned (render_description ali_swas (codes "home") long_comment) (codes "home") ≡ true)
    × (length (render_description ali_swas (codes "home") long_comment) ≤ 50)
accepted_tag_owns_example =
    accepted_tag_owns (codes " home ") (codes "home") tag_accepted ali_swas long_comment 50 refl

abbrev target : TargetConfig
target = record { id = 1; cloud_type = tc_lighthouse; region = codes "r"; resource_id = codes "lh" }

abbrev settings : RuntimeConfig
settings = record {
  credentials = record {
    tencent_secret_id = [];
    tencent_secret_key = [];
    aliyun_access_key_id = [];
    aliyun_access_key_secret = [];
  };
  targets = target ∷ [];
  domain_rules = web ∷ [];
  tag = codes "home";
  interval = pos 60;
  dns = codes "1.1.1.1";
  dns_timeout = pos 5;
  dns_fail_threshold = 3;
  log_level = codes "info";
  sync_enabled = true;
  theme = codes "dark";
  policy = default_alert_policy;
  email = record {
    enabled = false;
    host = [];
    port = [];
    security = [];
    username = [];
    password = [];
    from_addr = [];
    to_addr = [];
    subject = [];
    body = [];
  };
  webhook = record { enabled = false; url = []; channel = [] };
  uptime_kuma_push = default_uptime_kuma_push;
}

abbrev provider_of : TargetConfig → Option Text
provider_of t = some t.resource_id

abbrev before : State.RuntimeState Text
before = record {
  config = settings;
  providers = [];
  breaker = record { fail_count = λ k. 2; threshold = 2 };
}

abbrev built : State.RuntimeState Text
built = record {
  config = settings;
  providers = codes "lh" ∷ [];
  breaker = State.new_breaker (some before.breaker) settings State.breaker_preserve;
}

built_lem :
    State.build_runtime_state provider_of (some before) settings State.breaker_preserve ≡ inr built
unfolding State.build_runtime_state State.new_providers State.new_provider
built_lem = refl

kept_breaker_example :
    (built.config ≡ settings)
    × Made provider_of (target ∷ []) built.providers
    × ((k : Text)
        → built.breaker.fail_count k ≡ (
            if any (λ r. k == domain_key r.host) (web ∷ [])
            then before.breaker.fail_count k
            else 0))
    × (built.breaker.threshold ≡ 3)
kept_breaker_example = kept_breaker provider_of before built settings built_lem
