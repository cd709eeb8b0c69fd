-- ===== src/Strconv.antt =====
-- strconv.Atoi on a 64-bit platform, and net.SplitHostPort. An error is `none`.
use cloudhost_firewall_autou.Common.{
  ℕ, zero, suc, ◌-◌, ◌^◌, not, ◌&&◌, ◌||◌, Option, none, some, [], ◌∷◌, leb, ◌==◌, nat_eq, list_eq,
  if◌then◌else◌,
}
use cloudhost_firewall_autou.Strings.{Text, read_digits, contains_code, cut}

-- `negsuc n` is -(n + 1).
pub data ℤ : Type 0 where
  pos : ℕ → ℤ
  negsuc : ℕ → ℤ

abbrev pub negative : ℕ → ℤ
negative zero = pos 0
negative (suc n) = negsuc n

abbrev within : ℕ → (ℕ → ℤ) → Option ℕ → Option ℤ
within limit f none = none
within limit f (some n) = if leb n limit then some (f n) else none

abbrev digits : Text → Option ℕ
digits [] = none
digits (c ∷ s) = read_digits 0 (c ∷ s)

unfoldable pub atoi : Text → Option ℤ
atoi [] = none
atoi (c ∷ s) =
    if c == b'-'
    then within (2 ^ 63) negative (digits s)
    else if c == b'+'
    then within (2 ^ 63 - 1) pos (digits s)
    else within (2 ^ 63 - 1) pos (digits (c ∷ s))

-- The parts before and behind the last colon.
unfoldable pub cut_last_colon : Text → Option (Text × Text)
cut_last_colon [] = none
cut_last_colon (c ∷ s) = elim (cut_last_colon s) [
  | some (a, b) ↦ some (c ∷ a, b)
  | none ↦ if c == b':' then some ([], s) else none
]

-- What stands behind the closing bracket has to be the last colon and the port.
abbrev bracket_port : Text → Text → Text → Option (Text × Text)
bracket_port rest host [] = none
bracket_port rest host (c ∷ port) =
    if (c == b':')
      && not (contains_code b':' port || (contains_code b'[' rest || contains_code b']' port))
    then some (host, port)
    else none

abbrev bracketed_host : Text → Option (Text × Text) → Option (Text × Text)
bracketed_host rest none = none
bracketed_host rest (some (host, after)) = bracket_port rest host after

abbrev plain_host : Text → Option (Text × Text) → Option (Text × Text)
plain_host s none = none
plain_host s (some (host, port)) =
    if contains_code b':' host || (contains_code b'[' s || contains_code b']' s)
    then none
    else some (host, port)

unfoldable pub split_host_port : Text → Option (Text × Text)
unfolding cut_last_colon
split_host_port [] = none
split_host_port (c ∷ s) =
    if c == b'[' then bracketed_host s (cut b']' s) else plain_host (c ∷ s) (cut_last_colon (c ∷ s))
