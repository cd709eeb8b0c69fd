-- ===== src/Config/ValidateAlerts.antt =====
-- config/validate.go: the checks of the alert settings. time.ParseDuration, in nanoseconds, and
-- url.Parse, by scheme and host, are parameters.
use cloudhost_firewall_autou.Common.{
  ℕ, suc, Bool, false, not, ◌&&◌, ◌||◌, Option, none, some, List, [], ◌∷◌, is_empty, length,
  contains, leb, ◌==◌, nat_eq, list_eq,
}
use cloudhost_firewall_autou.Strings.{Text, codes, trim_space, to_lower, byte_length}
use cloudhost_firewall_autou.Strconv.{ℤ, pos}
use cloudhost_firewall_autou.Config.Alerts.{
  AlertEmailConfig, AlertPolicyConfig, UptimeKumaPushConfig, AlertWebhookConfig, min_push_interval,
  max_email_subject_runes, max_email_body_bytes, valid_smtp_security,
}
use cloudhost_firewall_autou.Config.Validate.{
  Checked, valid, invalid, ◌>>=◌, require, normalize_port, has_control_char,
}

abbrev port_of_email : Checked Text → Checked Text
port_of_email (valid p) = valid p
port_of_email (invalid f r) = invalid (codes "email.port") (codes "必须是 1～65535 的整数")

-- A field that may be blank unless the channel is enabled.
abbrev needed : Bool → Text → Text → Checked Text
needed enabled field s = require (not (enabled && is_empty s)) field (codes "启用邮件告警时不能为空") s

unfoldable pub normalize_alert_email : AlertEmailConfig → Checked AlertEmailConfig
normalize_alert_email c = do
  security ←
      require (valid_smtp_security c.security) (codes "email.security")
        (codes "只允许 auto_starttls / starttls / implicit_tls") c.security
  port ← port_of_email (normalize_port c.port)
  host ← needed c.enabled (codes "email.host") (trim_space c.host)
  from_addr ← needed c.enabled (codes "email.from_addr") (trim_space c.from_addr)
  to_addr ← needed c.enabled (codes "email.to_addr") (trim_space c.to_addr)
  subject ←
      require (not (is_empty (trim_space c.subject))) (codes "email.subject") (codes "不能为空")
        (trim_space c.subject)
  subject ←
      require (leb (length subject) max_email_subject_runes) (codes "email.subject")
        (codes "最多 200 个字符") subject
  subject ←
      require (not (has_control_char subject)) (codes "email.subject") (codes "不能包含换行或控制字符") subject
  body ←
      require (leb (byte_length c.body) max_email_body_bytes) (codes "email.body")
        (codes "最大 10 KiB") c.body
  valid (record c {
    port = port;
    host = host;
    from_addr = from_addr;
    to_addr = to_addr;
    subject = subject;
  })

abbrev channels : List Text
channels = codes "dingtalk" ∷ codes "feishu" ∷ codes "slack" ∷ []

abbrev checked_channel : Bool → Text → Checked Text
checked_channel enabled [] = require (not enabled) (codes "webhook.channel") (codes "启用时必须选择渠道") []
checked_channel enabled (c ∷ s) =
    require (contains channels (c ∷ s)) (codes "webhook.channel")
      (codes "只允许 dingtalk / feishu / slack") (c ∷ s)

abbrev positive_duration : Text → Text → Option ℤ → Checked (Text × ℕ)
positive_duration field s (some (pos (suc n))) = valid (s, suc n)
positive_duration field s _ = invalid field (codes "必须是大于 0 的时长（如 30s / 5m / 1h）")

abbrev is_http : Option (Text × Text) → Bool
is_http none = false
is_http (some (scheme, host)) =
    not (is_empty host) && ((scheme == codes "http") || (scheme == codes "https"))

module _ (parse_duration : Text → Option ℤ) where
  unfoldable pub parse_positive_duration : Text → Text → Checked (Text × ℕ)
  parse_positive_duration field value =
      positive_duration field (trim_space value) (parse_duration (trim_space value))

  unfoldable pub normalize_alert_policy : AlertPolicyConfig → Checked AlertPolicyConfig
  normalize_alert_policy p = do
    (text, d) ← parse_positive_duration (codes "policy.health_timeout") p.health_timeout_text
    valid (record p { health_timeout_text = text; health_timeout = d })

module _ (parse_url : Text → Option (Text × Text)) where
  unfoldable pub normalize_alert_webhook : AlertWebhookConfig → Checked AlertWebhookConfig
  normalize_alert_webhook c = do
    channel ← checked_channel c.enabled (to_lower (trim_space c.channel))
    url ←
        require (not c.enabled || is_http (parse_url (trim_space c.url))) (codes "webhook.url")
          (codes "启用时必须是以 http/https 开头且包含主机的绝对 URL") (trim_space c.url)
    valid (record c { channel = channel; url = url })

module _ (parse_duration : Text → Option ℤ) (parse_url : Text → Option (Text × Text)) where
  unfoldable pub normalize_uptime_kuma_push : UptimeKumaPushConfig → Checked UptimeKumaPushConfig
  normalize_uptime_kuma_push p = do
    (text, d) ←
        parse_positive_duration parse_duration (codes "uptime_kuma_push.interval") p.interval_text
    d ← require (leb min_push_interval d) (codes "uptime_kuma_push.interval") (codes "不能小于 20s") d
    url ←
        require (not p.enabled || is_http (parse_url (trim_space p.url)))
          (codes "uptime_kuma_push.url") (codes "启用时必须是以 http/https 开头且包含主机的绝对 URL")
          (trim_space p.url)
    valid (record p { interval_text = text; interval = d; url = url })
