-- ===== src/Config/Validate.antt =====
-- config/validate.go: the checks of targets, rules and settings. A Go pair (value, error) is a value
-- or the field and the reason of the ValidationError.
pub mod Tags
pub mod Rules
use cloudhost_firewall_autou.Common.{
  ℕ, zero, suc, Bool, true, false, not, ◌&&◌, ◌||◌, Option, none, some, List, [], ◌∷◌, ◌++◌, map,
  if◌then◌else◌, is_empty, length, drop, take, ◌-◌, any, contains, leb, ltb, ◌==◌, nat_eq, list_eq,
}
use cloudhost_firewall_autou.Strings.{
  Text, codes, trim_space, to_upper, to_lower, contains_code, is_control, has_suffix,
}
use cloudhost_firewall_autou.Netip.{Addr, v4, v6, is_4in6, parse_addr, itoa}
use cloudhost_firewall_autou.Strconv.{ℤ, pos, negsuc, atoi, split_host_port}
use cloudhost_firewall_autou.Config.{
  CloudType, tc_lighthouse, tc_cvm, ali_swas, ali_ecs, other, TargetConfig, DomainRule,
}

pub data Checked {ℓ} (A : Type ℓ) : Type ℓ where
  valid : A → Checked A
  invalid : Text → Text → Checked A

infixl 5 ◌>>=◌
abbrev pub ◌>>=◌ {ℓ κ} : {A : Type ℓ} {B : Type κ} → Checked A → (A → Checked B) → Checked B
valid a >>= f = f a
invalid field reason >>= f = invalid field reason

-- A guard that fails with a reason.
abbrev pub require {ℓ} : {A : Type ℓ} → Bool → Text → Text → A → Checked A
require true field reason a = valid a
require false field reason a = invalid field reason

abbrev pub max_tag_runes : ℕ
max_tag_runes = 48

abbrev pub valid_protocols : List Text
valid_protocols = codes "TCP" ∷ codes "UDP" ∷ codes "TCP+UDP" ∷ codes "ICMP" ∷ []

abbrev pub valid_actions : List Text
valid_actions = codes "ACCEPT" ∷ codes "DROP" ∷ []

abbrev pub cloud_text : CloudType → Text
cloud_text tc_lighthouse = codes "tc_lighthouse"
cloud_text tc_cvm = codes "tc_cvm"
cloud_text ali_swas = codes "ali_swas"
cloud_text ali_ecs = codes "ali_ecs"
cloud_text (other t) = t

unfoldable pub normalize_cloud_type : Text → Checked CloudType
normalize_cloud_type v =
    let ct = trim_space v in
    if ct == codes "tc_lighthouse"
    then valid tc_lighthouse
    else if ct == codes "tc_cvm"
    then valid tc_cvm
    else if ct == codes "ali_swas"
    then valid ali_swas
    else if ct == codes "ali_ecs"
    then valid ali_ecs
    else invalid (codes "cloud_type") (codes "必须是 tc_lighthouse / tc_cvm / ali_swas / ali_ecs 之一")

abbrev not_blank : Text → Text → Checked Text
not_blank field s = require (not (is_empty s)) field (codes "不能为空") s

unfoldable pub normalize_region : Text → Checked Text
normalize_region v = not_blank (codes "region") (trim_space v)

unfoldable pub normalize_resource_id : Text → Checked Text
normalize_resource_id v = not_blank (codes "resource_id") (trim_space v)

unfoldable pub normalize_target : TargetConfig → Checked TargetConfig
normalize_target t = do
  ct ← normalize_cloud_type (cloud_text t.cloud_type)
  region ← normalize_region t.region
  resource_id ← normalize_resource_id t.resource_id
  valid (record { id = t.id; cloud_type = ct; region = region; resource_id = resource_id })

-- The ports of a rule, by its protocol.
abbrev pub checked_ports : Text → Text → Checked Text
checked_ports protocol ports =
    if protocol == codes "ICMP"
    then valid (codes "ALL")
    else require (not (is_empty ports)) (codes "ports") (codes "非 ICMP 协议不能为空") ports

unfoldable pub normalize_rule : DomainRule → Checked DomainRule
normalize_rule r = do
  host ← not_blank (codes "host") (trim_space r.host)
  protocol ←
      require (contains valid_protocols (to_upper (trim_space r.protocol))) (codes "protocol")
        (codes "只允许 TCP / UDP / TCP+UDP / ICMP") (to_upper (trim_space r.protocol))
  action ←
      require (contains valid_actions (to_upper (trim_space r.action))) (codes "action")
        (codes "只允许 ACCEPT / DROP") (to_upper (trim_space r.action))
  ports ← checked_ports protocol (trim_space r.ports)
  valid (record r { host = host; protocol = protocol; ports = ports; action = action })

abbrev not_positive : Checked (List ℕ)
not_positive = invalid (codes "targets") (codes "目标 ID 必须为正数")

-- The loop over the identifiers, with those that it has seen, in order.
unfoldable pub check_target_ids : List ℕ → List ℤ → Checked (List ℕ)
check_target_ids seen [] = valid seen
check_target_ids seen (negsuc n ∷ ids) = not_positive
check_target_ids seen (pos zero ∷ ids) = not_positive
check_target_ids seen (pos (suc n) ∷ ids) =
    let rest = check_target_ids (seen ++ suc n ∷ []) ids in
    if contains seen (suc n) then invalid (codes "targets") (codes "目标 ID 不能重复") else rest

unfoldable pub normalize_target_ids : List ℤ → Checked (List ℕ)
normalize_target_ids ids = check_target_ids [] ids

unfoldable pub has_control_char : Text → Bool
has_control_char = any is_control

unfoldable pub normalize_tag : Text → Checked Text
normalize_tag v = do
  s ← not_blank (codes "tag") (trim_space v)
  s ← require (leb (length s) max_tag_runes) (codes "tag") (codes "最多 48 个字符") s
  s ← require (not (any (λ c. (c == b'[') || (c == b']')) s)) (codes "tag") (codes "不能包含方括号") s
  require (not (has_control_char s)) (codes "tag") (codes "不能包含控制字符") s

abbrev positive : Option ℤ → Checked (Text × ℕ)
positive (some (pos (suc n))) = valid (itoa (suc n), suc n)
positive _ = invalid (codes "dns_fail_threshold") (codes "必须是正整数")

unfoldable pub normalize_dns_fail_threshold : Text → Checked (Text × ℕ)
normalize_dns_fail_threshold v = positive (atoi (trim_space v))

abbrev one_of : List Text → Text → Text → Text → Checked Text
one_of allowed field reason s = require (contains allowed s) field reason s

unfoldable pub normalize_log_level : Text → Checked Text
normalize_log_level v =
    one_of (codes "debug" ∷ codes "info" ∷ codes "warn" ∷ codes "error" ∷ []) (codes "log_level")
      (codes "只允许 debug / info / warn / error") (to_lower (trim_space v))

unfoldable pub normalize_theme : Text → Checked Text
normalize_theme v =
    one_of (codes "light" ∷ codes "dark" ∷ []) (codes "theme") (codes "只允许 light / dark")
      (to_lower (trim_space v))

unfoldable pub normalize_sync_enabled : Text → Checked Bool
normalize_sync_enabled v =
    if trim_space v == codes "true"
    then valid true
    else if trim_space v == codes "false"
    then valid false
    else invalid (codes "sync_enabled") (codes "只允许 true / false")

abbrev port_range : Option ℤ → Checked Text
port_range (some (pos n)) =
    require (leb 1 n && leb n 65535) (codes "port") (codes "必须是 1～65535 的整数") (itoa n)
port_range _ = invalid (codes "port") (codes "必须是 1～65535 的整数")

unfoldable pub normalize_port : Text → Checked Text
normalize_port v = port_range (atoi (trim_space v))

abbrev drop_last : Text → Text
drop_last s = take (length s - 1) s

-- net.ParseIP gives an address that is none of IPv4's.
abbrev is_ipv6_only : Option Addr → Bool
is_ipv6_only (some (v6 groups [])) = not (is_4in6 groups)
is_ipv6_only _ = false

abbrev port_or : Text → Checked Text → Checked Text
port_or s (valid p) = valid s
port_or s (invalid f r) = invalid (codes "dns") (codes "端口必须是 1～65535")

abbrev checked_port : Text → Text → Checked Text
checked_port s [] = valid s
checked_port s (c ∷ port) = port_or s (normalize_port (c ∷ port))

abbrev bracketed_address : Text → Text × Text → Checked Text
bracketed_address s (host, port) =
    if is_ipv6_only (parse_addr host)
    then checked_port s port
    else invalid (codes "dns") (codes "IPv6 地址无效")

-- An address in brackets, with or without a port.
abbrev check_bracketed : Text → Option (Text × Text) → Checked Text
check_bracketed s (some hp) = bracketed_address s hp
check_bracketed s none =
    if has_suffix s (b']' ∷ [])
    then bracketed_address s (drop_last (drop 1 s), [])
    else invalid (codes "dns") (codes "IPv6 地址必须写成 [地址] 或 [地址]:端口")

abbrev check_plain : Text → Option (Text × Text) → Checked Text
check_plain s none = invalid (codes "dns") (codes "IPv6 必须使用 [地址] 或 [地址]:端口；端口必须是 1～65535")
check_plain s (some (host, port)) =
    if is_empty (trim_space host)
    then invalid (codes "dns") (codes "主机不能为空")
    else port_or s (normalize_port port)

unfoldable pub check_dns_address : Text → Checked Text
check_dns_address [] = invalid (codes "dns") (codes "不能为空")
check_dns_address (c ∷ s) =
    if c == b'['
    then check_bracketed (c ∷ s) (split_host_port (c ∷ s))
    else if contains_code b':' (c ∷ s)
    then check_plain (c ∷ s) (split_host_port (c ∷ s))
    else valid (c ∷ s)

unfoldable pub normalize_dns_address : Text → Checked Text
normalize_dns_address v = check_dns_address (trim_space v)
