-- ===== src/Netip.antt =====
-- What the program uses of Go's net/netip and of net.IP: reading, masking and printing addresses.
mod Print
unfoldable pub use Print.*
use cloudhost_firewall_autou.Common.{
  ℕ, zero, suc, ◌+◌, ◌-◌, ◌*◌, ◌/◌, ◌^◌, Bool, true, false, not, ◌&&◌, ◌||◌, Option, none, some,
  List, [], ◌∷◌, ◌++◌, ltb, leb, ◌==◌, if◌then◌else◌, is_empty, length, take, drop, nat_eq, list_eq,
}
use cloudhost_firewall_autou.Strings.{Text, cut, split, is_digit, read_digits, contains_code}
use cloudhost_firewall_autou.Netip.Print.{Addr, v4, v6, Prefix, replicate}

-- One field of a dotted address: a decimal below 256 with no leading zero.
octet : Text → Option ℕ
unfolding read_digits
octet [] = none
octet (c ∷ s) =
    if (c == b'0') && not (is_empty s)
    then none
    else elim (read_digits 0 (c ∷ s)) [ none ↦ none | some n ↦ if ltb n 256 then some n else none ]

octets : List Text → Option (List ℕ)
unfolding octet
octets [] = some []
octets (p ∷ ps) =
    let rest = octets ps in
    elim (octet p) [ none ↦ none | some n ↦ elim rest [ none ↦ none | some ns ↦ some (n ∷ ns) ] ]

parse_v4_fields : Text → Option (List ℕ)
unfolding octets split
parse_v4_fields s = let parts = split b'.' s in if length parts == 4 then octets parts else none

abbrev hex_value : ℕ → Option ℕ
hex_value c =
    if is_digit c
    then some (c - b'0')
    else if leb b'a' c && leb c b'f'
    then some (c - b'a' + 10)
    else if leb b'A' c && leb c b'F'
    then some (c - b'A' + 10)
    else none

-- The hexadecimal digits in front: their number, their value behind `n`, and the rest.
hex_run : ℕ → ℕ → Text → ℕ × ℕ × Text
hex_run k n [] = (k, n, [])
hex_run k n (c ∷ s) = elim (hex_value c) [
  | none ↦ (k, n, c ∷ s)
  | some d ↦ hex_run (k + 1) (n * 16 + d) s
]

abbrev pairs : List ℕ → List ℕ
pairs (a ∷ b ∷ c ∷ d ∷ []) = (a * 256 + b) ∷ (c * 256 + d) ∷ []
pairs _ = []

-- The trailing dotted address of a v6 address stands for two of its groups.
abbrev with_v4 : List ℕ → Option ℕ → Option (List ℕ) → Option (List ℕ × Option ℕ)
with_v4 groups ellipsis none = none
with_v4 groups none (some bytes) =
    if length groups == 6 then some (groups ++ pairs bytes, none) else none
with_v4 groups (some k) (some bytes) =
    if leb (length groups) 6 then some (groups ++ pairs bytes, some k) else none

-- The loop over the groups, at most eight rounds: what is read, and where `::` stood.
pub data Follow : Type 0 where
  stop : Follow
  dot : Follow
  colon : Text → Follow
  colons : Text → Follow
  wrong : Follow

-- What stands behind a group.
abbrev follow : Text → Follow
follow [] = stop
follow (c ∷ []) = if c == b'.' then dot else wrong
follow (c ∷ d ∷ s) =
    if c == b'.'
    then dot
    else if c == b':'
    then (if d == b':' then colons s else colon (d ∷ s))
    else wrong

-- The loop over the groups, at most eight rounds: what is read, and where `::` stood.
v6_groups : ℕ → Text → List ℕ → Option ℕ → Option (List ℕ × Option ℕ)
unfolding hex_run parse_v4_fields
v6_groups zero s groups ellipsis = if is_empty s then some (groups, ellipsis) else none
v6_groups (suc fuel) s groups ellipsis =
    let (k, n, rest) = hex_run 0 0 s in
    let groups' = groups ++ n ∷ [] in
    if (k == 0) || ltb 4 k then none else elim (follow rest) [
      | stop ↦ some (groups', ellipsis)
      | dot ↦ with_v4 groups ellipsis (parse_v4_fields s)
      | colon s' ↦ v6_groups fuel s' groups' ellipsis
      | colons s' ↦ elim ellipsis [
        | some k ↦ none
        | none ↦ elim (is_empty s') [
          | true ↦ some (groups', some (length groups'))
          | false ↦ v6_groups fuel s' groups' (some (length groups'))
        ]
      ]
      | wrong ↦ none
    ]

abbrev expand : Option (List ℕ × Option ℕ) → Option (List ℕ)
expand none = none
expand (some (groups, none)) = if length groups == 8 then some groups else none
expand (some (groups, some k)) =
    if ltb (length groups) 8
    then some (take k groups ++ (replicate (8 - length groups) 0 ++ drop k groups))
    else none

abbrev v6_body : Text → Option (List ℕ)
unfolding v6_groups
v6_body (c ∷ d ∷ []) =
    if (c == b':') && (d == b':')
    then some (replicate 8 0)
    else expand (v6_groups 8 (c ∷ d ∷ []) [] none)
v6_body (c ∷ d ∷ s) =
    if (c == b':') && (d == b':')
    then expand (v6_groups 8 s [] (some 0))
    else expand (v6_groups 8 (c ∷ d ∷ s) [] none)
v6_body s = expand (v6_groups 8 s [] none)

abbrev v6_with : Text → Option (List ℕ) → Option Addr
v6_with zone none = none
v6_with zone (some groups) = some (v6 groups zone)

parse_v6 : Text → Option Addr
unfolding v6_groups cut
parse_v6 s = elim (cut b'%' s) [
  | none ↦ v6_with [] (v6_body s)
  | some (body, zone) ↦ if is_empty zone then none else v6_with zone (v6_body body)
]

abbrev v4_with : Option (List ℕ) → Option Addr
v4_with none = none
v4_with (some fields) = some (v4 fields)

-- The first of `.`, `:` and `%` says which form the text has.
parse_form : Text → Text → Option Addr
unfolding parse_v4_fields parse_v6
parse_form whole [] = none
parse_form whole (c ∷ s) =
    if c == b'.'
    then v4_with (parse_v4_fields whole)
    else if c == b':'
    then parse_v6 whole
    else if c == b'%'
    then none
    else parse_form whole s

unfoldable pub parse_addr : Text → Option Addr
unfolding parse_form
parse_addr s = parse_form s s

-- The parts before and behind the last slash.
cut_last_slash : Text → Option (Text × Text)
cut_last_slash [] = none
cut_last_slash (c ∷ s) = elim (cut_last_slash s) [
  | some (a, b) ↦ some (c ∷ a, b)
  | none ↦ if c == b'/' then some ([], s) else none
]

-- A decimal without sign and leading zeros.
bits_value : Text → Option ℕ
unfolding read_digits
bits_value [] = none
bits_value (c ∷ s) = if (c == b'0') && not (is_empty s) then none else read_digits 0 (c ∷ s)

abbrev prefix_of : Option Addr → Option ℕ → Option Prefix
prefix_of (some (v4 fields)) (some n) =
    if leb n 32 then some (record { addr = v4 fields; bits = n }) else none
prefix_of (some (v6 groups [])) (some n) =
    if leb n 128 then some (record { addr = v6 groups []; bits = n }) else none
prefix_of _ _ = none

unfoldable pub parse_prefix : Text → Option Prefix
unfolding parse_addr cut_last_slash bits_value
parse_prefix s = elim (cut_last_slash s) [
  | none ↦ none
  | some (a, b) ↦ prefix_of (parse_addr a) (bits_value b)
]

-- The fields with all but their first `bits` bits set to 0.
mask_fields : ℕ → ℕ → List ℕ → List ℕ
mask_fields width bits [] = []
mask_fields width bits (g ∷ gs) =
    (if leb width bits then g else g / 2 ^ (width - bits) * 2 ^ (width - bits))
    ∷ mask_fields width (bits - width) gs

abbrev mask_addr : ℕ → Addr → Addr
unfolding mask_fields
mask_addr bits (v4 fields) = v4 (mask_fields 8 bits fields)
mask_addr bits (v6 groups zone) = v6 (mask_fields 16 bits groups) zone

unfoldable pub masked : Prefix → Prefix
unfolding mask_fields
masked p = record { addr = mask_addr p.bits p.addr; bits = p.bits }

abbrev pub is_4 : Addr → Bool
is_4 (v4 _) = true
is_4 (v6 _ _) = false

abbrev pub is_6 : Addr → Bool
is_6 a = not (is_4 a)
