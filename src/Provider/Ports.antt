-- ===== src/Provider/Ports.antt =====
-- provider/plan.go: what the cloud products can express, and the wire formats of ports.
use cloudhost_firewall_autou.Common.{
  Bool, true, false, ◌&&◌, ◌||◌, ◌+◌, List, [], ◌∷◌, ◌++◌, map, ◌==◌, if◌then◌else◌, is_empty, leb,
  nat_eq, length,
}
use cloudhost_firewall_autou.Strings.{Text, codes, equal_fold, join, byte_length}
use cloudhost_firewall_autou.Portconv
use cloudhost_firewall_autou.Portconv.{to_slash}
use cloudhost_firewall_autou.Config.{CloudType, tc_lighthouse, ali_swas, ali_ecs}
use cloudhost_firewall_autou.Provider.Types.{Capability}

unfoldable pub capabilities : CloudType → Capability
capabilities ali_swas = record { ipv6 = false; icmpv6 = false; tcp_udp = true; drop = false }
capabilities ali_ecs = record { ipv6 = true; icmpv6 = false; tcp_udp = false; drop = true }
capabilities _ = record { ipv6 = true; icmpv6 = true; tcp_udp = false; drop = true }

-- The loop that fills comma lists of at most 64 bytes; `current` is the list being filled.
pack_ports : List Text → List Text → Text → List Text
pack_ports [] result current = if is_empty current then result else result ++ current ∷ []
pack_ports (p ∷ ps) result current =
    let fits = leb (byte_length current + 1 + byte_length p) 64 in
    pack_ports ps (if is_empty current || fits then result else result ++ current ∷ [])
      (if is_empty current then p else if fits then current ++ b',' ∷ p else p)

lighthouse_ports : List Text → List Text
unfolding pack_ports
lighthouse_ports ports =
    let joined = join (codes ",") ports in
    if length ports == 1
    then ports
    else if leb (byte_length joined) 64
    then joined ∷ []
    else pack_ports ports [] []

unfoldable pub expand_ports : CloudType → Text → List Text
unfolding lighthouse_ports
expand_ports tc_lighthouse port = lighthouse_ports (Portconv.parse port)
expand_ports ali_swas port = map to_slash (Portconv.parse port)
expand_ports ali_ecs port = map to_slash (Portconv.parse port)
expand_ports _ port = Portconv.parse port

abbrev is_ali : CloudType → Bool
is_ali ali_swas = true
is_ali ali_ecs = true
is_ali _ = false

-- On Aliyun, ALL of a protocol with ports is written as the full range.
planned_item : CloudType → Text → Text → Text
planned_item ct protocol item =
    if is_ali ct
      && ((equal_fold protocol (codes "TCP")
            || (equal_fold protocol (codes "UDP") || equal_fold protocol (codes "TCP+UDP")))
          && equal_fold item (codes "ALL"))
    then codes "1-65535"
    else item

abbrev wire_or : Text → List Text → List Text
wire_or item [] = item ∷ []
wire_or item (w ∷ ws) = w ∷ ws

-- The loop over the port items.
planned_items : CloudType → Text → List Text → List Text
unfolding planned_item
planned_items ct protocol [] = []
planned_items ct protocol (item ∷ items) =
    let item' = planned_item ct protocol item in
    wire_or item' (expand_ports ct item') ++ planned_items ct protocol items

unfoldable pub expand_planned_ports : CloudType → Text → Text → List Text
unfolding planned_items
expand_planned_ports ct protocol port =
    let items = Portconv.parse port in
    if is_empty items then port ∷ [] else planned_items ct protocol items
