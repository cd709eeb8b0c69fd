-- ===== src/Dns/Keys.antt =====
-- The key of a domain is its own key.
use cloudhost_firewall_autou.Common.{ℕ, ◌≡◌, ap, ◌∙◌, [], ◌∷◌, map, arith, is_empty, refl, nat_eq}
use cloudhost_firewall_autou.Strings.{
  Text, is_space, trim_left, trim_right, trim_space, trim_space_idem, lower_code, to_lower,
}
use cloudhost_firewall_autou.Dns.{domain_key}

is_space-lower : (c : ℕ) → is_space (lower_code c) ≡ is_space c
unfolding is_space lower_code
is_space-lower c = ground arith

lower_code_idem : (c : ℕ) → lower_code (lower_code c) ≡ lower_code c
unfolding lower_code
lower_code_idem c = ground arith

map-trim_left : (s : Text) → trim_left (map lower_code s) ≡ map lower_code (trim_left s)
unfolding trim_left
map-trim_left [] = refl
map-trim_left (c ∷ s) = ground (arith, is_space-lower c, map-trim_left s)

is_empty-map : (s : Text) → is_empty (map lower_code s) ≡ is_empty s
is_empty-map [] = refl
is_empty-map (c ∷ s) = refl

map-trim_right : (s : Text) → trim_right (map lower_code s) ≡ map lower_code (trim_right s)
unfolding trim_right
map-trim_right [] = refl
map-trim_right (c ∷ s) =
    ground (arith, is_space-lower c, map-trim_right s, is_empty-map (trim_right s))

trim_space-to_lower : (s : Text) → trim_space (to_lower s) ≡ to_lower (trim_space s)
unfolding trim_space to_lower
trim_space-to_lower s = ap trim_right (map-trim_left s) ∙ map-trim_right (trim_left s)

to_lower_idem : (s : Text) → to_lower (to_lower s) ≡ to_lower s
unfolding to_lower
to_lower_idem [] = refl
to_lower_idem (c ∷ s) = rw (lower_code_idem c, to_lower_idem s)

-- Normalising a domain's name twice is normalising it once.
pub domain_key_idem : (host : Text) → domain_key (domain_key host) ≡ domain_key host
unfolding domain_key
domain_key_idem host =
    ap to_lower (trim_space-to_lower (trim_space host) ∙ ap to_lower (trim_space_idem host))
    ∙ to_lower_idem (trim_space host)
