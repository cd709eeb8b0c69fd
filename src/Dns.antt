-- ===== src/Dns.antt =====
-- dns/resolver.go and dns/circuitbreaker.go.
pub mod Breaker
pub mod Keys
use cloudhost_firewall_autou.Common.{ℕ, Bool, List, ◌++◌, if◌then◌else◌}
use cloudhost_firewall_autou.Strings.{Text, codes, to_lower, trim_space}
use cloudhost_firewall_autou.Netip.{ip_text}

-- The bytes of a net.IP, and whether it is no IPv4 address.
pub record ResolvedIp : Type 0 where
  pub ip : List ℕ
  pub is_ipv6 : Bool

unfoldable pub resolved_cidr : ResolvedIp → Text
resolved_cidr r = ip_text r.ip ++ (if r.is_ipv6 then codes "/128" else codes "/32")

unfoldable pub domain_key : Text → Text
domain_key host = to_lower (trim_space host)
