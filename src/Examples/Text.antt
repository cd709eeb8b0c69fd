-- ===== src/Examples/Text.antt =====
-- Tests of the models of Go's string and address functions, on inputs whose results Go documents.
use cloudhost_firewall_autou.Common.{◌≡◌, refl, some, none, Option, [], ◌∷◌}
use cloudhost_firewall_autou.Strings.{Text, codes, trim_space, is_space, to_upper, upper_code}
use cloudhost_firewall_autou.Netip.{parse_prefix, prefix_text, masked, ip_text}
use mathlib.Core.Option

abbrev canonical : Text → Option Text
canonical s = Option.map (λ p. prefix_text (masked p)) (parse_prefix s)

v4_prefix : canonical (codes "10.1.2.77/26") ≡ some (codes "10.1.2.64/26")
unfolding parse_prefix prefix_text masked
v4_prefix = refl

v6_prefix : canonical (codes "2001:DB8:0:0:1::5/64") ≡ some (codes "2001:db8::/64")
unfolding parse_prefix prefix_text masked
v6_prefix = refl

v6_mapped : canonical (codes "::ffff:1.2.3.4/128") ≡ some (codes "::ffff:1.2.3.4/128")
unfolding parse_prefix prefix_text masked
v6_mapped = refl

v6_zone : canonical (codes "fe80::1%eth0/64") ≡ none
unfolding parse_prefix prefix_text masked
v6_zone = refl

v4_short : canonical (codes "1.2.3/24") ≡ none
unfolding parse_prefix prefix_text masked
v4_short = refl

v4_zeros : canonical (codes "1.2.3.04/24") ≡ none
unfolding parse_prefix prefix_text masked
v4_zeros = refl

ip_v6 :
    ip_text (32 ∷ 1 ∷ 13 ∷ 184 ∷ 0 ∷ 0 ∷ 0 ∷ 0 ∷ 0 ∷ 1 ∷ 0 ∷ 0 ∷ 0 ∷ 0 ∷ 0 ∷ 1 ∷ [])
    ≡ codes "2001:db8::1:0:0:1"
unfolding ip_text
ip_v6 = refl

ip_mapped :
    ip_text (0 ∷ 0 ∷ 0 ∷ 0 ∷ 0 ∷ 0 ∷ 0 ∷ 0 ∷ 0 ∷ 0 ∷ 255 ∷ 255 ∷ 8 ∷ 8 ∷ 4 ∷ 4 ∷ [])
    ≡ codes "8.8.4.4"
unfolding ip_text
ip_mapped = refl

trimmed : trim_space (codes "  a b ") ≡ codes "a b"
unfolding trim_space is_space
trimmed = refl

upper : to_upper (codes "tcp+Udp") ≡ codes "TCP+UDP"
unfolding to_upper upper_code
upper = refl
