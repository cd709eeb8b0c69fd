-- ===== src/Netip/Print.antt =====
-- Addresses and prefixes, and how they print.
use cloudhost_firewall_autou.Common.{
  ℕ, zero, suc, ◌+◌, ◌-◌, ◌*◌, ◌/◌, ◌%◌, Bool, true, false, ◌&&◌, Option, none, some, List, [], ◌∷◌,
  ◌++◌, ltb, leb, ◌==◌, if◌then◌else◌, length, take, drop, nat_eq, list_eq, map,
}
use cloudhost_firewall_autou.Strings.{Text, codes, join}

-- Four octets, or eight groups with a zone.
pub data Addr : Type 0 where
  v4 : List ℕ → Addr
  v6 : List ℕ → Text → Addr

pub record Prefix : Type 0 where
  pub addr : Addr
  pub bits : ℕ

abbrev pub replicate : ℕ → ℕ → List ℕ
replicate zero a = []
replicate (suc n) a = a ∷ replicate n a

itoa_loop : ℕ → ℕ → Text → Text
itoa_loop zero n out = out
itoa_loop (suc fuel) n out = elim (ltb n 10) [
  | true ↦ (b'0' + n) ∷ out
  | false ↦ itoa_loop fuel (n / 10) ((b'0' + n % 10) ∷ out)
]

-- strconv.Itoa of a number that is not negative; `n` has at most `n + 1` digits.
unfoldable pub itoa : ℕ → Text
unfolding itoa_loop
itoa n = itoa_loop (suc n) n []

abbrev hex_digit : ℕ → ℕ
hex_digit d = if ltb d 10 then b'0' + d else b'a' + (d - 10)

-- A group without leading zeros.
hex_text : ℕ → Text
hex_text n =
    if ltb n 16
    then hex_digit n ∷ []
    else if ltb n 256
    then hex_digit (n / 16) ∷ hex_digit (n % 16) ∷ []
    else if ltb n 4096
    then hex_digit (n / 256) ∷ hex_digit (n / 16 % 16) ∷ hex_digit (n % 16) ∷ []
    else hex_digit (n / 4096)
      ∷ hex_digit (n / 256 % 16)
      ∷ hex_digit (n / 16 % 16)
      ∷ hex_digit (n % 16)
      ∷ []

dotted : List ℕ → Text
unfolding itoa join
dotted fields = join (b'.' ∷ []) (map itoa fields)

zero_run : List ℕ → ℕ
zero_run [] = 0
zero_run (g ∷ gs) = let n = zero_run gs in if g == 0 then n + 1 else 0

-- The first longest run of two zero groups or more: where it starts and its length.
longest_run : ℕ → List ℕ → ℕ × ℕ → ℕ × ℕ
unfolding zero_run
longest_run i [] best = best
longest_run i (g ∷ gs) (start, size) =
    let l = zero_run (g ∷ gs) in
    longest_run (i + 1) gs (if leb 2 l && ltb size l then (i, l) else (start, size))

abbrev colon_join : List ℕ → Text
unfolding hex_text
colon_join groups = join (b':' ∷ []) (map hex_text groups)

abbrev compressed : List ℕ → ℕ × ℕ → Text
unfolding hex_text
compressed groups (start, zero) = colon_join groups
compressed groups (start, suc size) =
    colon_join (take start groups) ++ (codes "::" ++ colon_join (drop (start + suc size) groups))

abbrev pub is_4in6 : List ℕ → Bool
is_4in6 (a ∷ b ∷ c ∷ d ∷ e ∷ f ∷ rest) =
    (a == 0) && ((b == 0) && ((c == 0) && ((d == 0) && ((e == 0) && (f == 0xffff)))))
is_4in6 _ = false

abbrev halves : List ℕ → List ℕ
halves [] = []
halves (g ∷ gs) = (g / 256) ∷ (g % 256) ∷ halves gs

v6_text : List ℕ → Text
unfolding longest_run hex_text dotted join
v6_text groups =
    if is_4in6 groups
    then codes "::ffff:" ++ dotted (halves (drop 6 groups))
    else compressed groups (longest_run 0 groups (0, 0))

addr_text : Addr → Text
unfolding v6_text dotted
addr_text (v4 fields) = dotted fields
addr_text (v6 groups zone) = v6_text groups

-- netip.Prefix.String; a prefix has no zone.
unfoldable pub prefix_text : Prefix → Text
unfolding addr_text itoa
prefix_text p = addr_text p.addr ++ (b'/' ∷ itoa p.bits)

abbrev groups_of : List ℕ → List ℕ
groups_of [] = []
groups_of (a ∷ []) = []
groups_of (a ∷ b ∷ rest) = (a * 256 + b) ∷ groups_of rest

-- net.IP.To4 of the bytes of an address.
unfoldable pub to_4 : List ℕ → Option (List ℕ)
to_4 bytes =
    if length bytes == 4
    then some bytes
    else if (length bytes == 16) && is_4in6 (groups_of bytes)
    then some (drop 12 bytes)
    else none

abbrev hex_byte : ℕ → Text
hex_byte n = hex_digit (n / 16) ∷ hex_digit (n % 16) ∷ []

abbrev hex_bytes : List ℕ → Text
hex_bytes [] = []
hex_bytes (n ∷ ns) = hex_byte n ++ hex_bytes ns

-- net.IP.String.
unfoldable pub ip_text : List ℕ → Text
unfolding dotted v6_text to_4
ip_text [] = codes "<nil>"
ip_text (b ∷ bytes) = elim (to_4 (b ∷ bytes)) [
  | some fields ↦ dotted fields
  | none ↦
      if length (b ∷ bytes) == 16
      then v6_text (groups_of (b ∷ bytes))
      else b'?' ∷ hex_bytes (b ∷ bytes)
]
