-- ===== src/Strings.antt =====
-- What the program uses of Go's packages strings, strconv and unicode. A string is the list of its
-- code points: the program's strings are valid UTF-8, whose byte order is the order of code points.
mod Trim
unfoldable pub use Trim.*
use Prim.Native.Char.{code}
use cloudhost_firewall_autou.Common.{
  ℕ, zero, suc, ◌+◌, ◌-◌, ◌*◌, String, Bool, true, false, not, ◌&&◌, ◌||◌, Option, none, some, List,
  [], ◌∷◌, ◌++◌, map, ltb, leb, ◌==◌, if◌then◌else◌, is_empty, nat_eq, list_eq,
}
use cloudhost_firewall_autou.Strings.Trim.{Text}

-- The code points of a literal.
abbrev pub codes : String → Text
codes String.[] = []
codes (String.◌∷◌ c s) = code c ∷ codes s

-- strings.ToUpper and strings.ToLower by code point: exact on ASCII and on the letters outside it
-- whose counterpart is ASCII. Other letters are left as they are.
unfoldable pub upper_code : ℕ → ℕ
upper_code c =
    if leb b'a' c && leb c b'z'
    then c - 32
    else if c == 0x131
    then b'I'
    else if c == 0x17f
    then b'S'
    else c

unfoldable pub lower_code : ℕ → ℕ
lower_code c =
    if leb b'A' c && leb c b'Z'
    then c + 32
    else if c == 0x130
    then b'i'
    else if c == 0x212a
    then b'k'
    else c

unfoldable pub to_upper : Text → Text
unfolding upper_code
to_upper = map upper_code

unfoldable pub to_lower : Text → Text
to_lower = map lower_code

-- strings.EqualFold against a word with no `k` and no `s`, the only letters that fold with a letter
-- outside ASCII.
ascii_lower : ℕ → ℕ
ascii_lower c = if leb b'A' c && leb c b'Z' then c + 32 else c

unfoldable pub equal_fold : Text → Text → Bool
unfolding ascii_lower
equal_fold s t = map ascii_lower s == map ascii_lower t

unfoldable pub has_prefix : Text → Text → Bool
has_prefix s [] = true
has_prefix [] (p ∷ ps) = false
has_prefix (c ∷ s) (p ∷ ps) = (c == p) && has_prefix s ps

unfoldable pub has_suffix : Text → Text → Bool
has_suffix [] t = is_empty t
has_suffix (c ∷ s) t = (c ∷ s == t) || has_suffix s t

unfoldable pub contains_sub : Text → Text → Bool
contains_sub [] t = is_empty t
contains_sub (c ∷ s) t = has_prefix (c ∷ s) t || contains_sub s t

unfoldable pub contains_code : ℕ → Text → Bool
contains_code d [] = false
contains_code d (c ∷ s) = (c == d) || contains_code d s

abbrev cut_after : ℕ → Bool → Option (Text × Text) → Text → Option (Text × Text)
cut_after c true rest s = some ([], s)
cut_after c false none s = none
cut_after c false (some (a, b)) s = some (c ∷ a, b)

-- strings.Cut at the first separator, which is one code point.
unfoldable pub cut : ℕ → Text → Option (Text × Text)
cut d [] = none
cut d (c ∷ s) = cut_after c (c == d) (cut d s) s

abbrev split_at : ℕ → Bool → List Text → List Text
split_at c true parts = [] ∷ parts
split_at c false [] = (c ∷ []) ∷ []
split_at c false (p ∷ ps) = (c ∷ p) ∷ ps

-- strings.Split at a separator of one code point.
unfoldable pub split : ℕ → Text → List Text
split d [] = [] ∷ []
split d (c ∷ s) = split_at c (c == d) (split d s)

unfoldable pub join : Text → List Text → Text
join sep [] = []
join sep (p ∷ []) = p
join sep (p ∷ q ∷ ps) = p ++ (sep ++ join sep (q ∷ ps))

-- `<` on strings.
unfoldable pub text_lt : Text → Text → Bool
text_lt s [] = false
text_lt [] (d ∷ t) = true
text_lt (c ∷ s) (d ∷ t) = ltb c d || ((c == d) && text_lt s t)

-- The bytes of a code point in UTF-8, and `len` of a string.
abbrev code_bytes : ℕ → ℕ
code_bytes c = if ltb c 0x80 then 1 else if ltb c 0x800 then 2 else if ltb c 0x10000 then 3 else 4

unfoldable pub byte_length : Text → ℕ
byte_length [] = 0
byte_length (c ∷ s) = code_bytes c + byte_length s

abbrev pub is_digit : ℕ → Bool
is_digit c = leb b'0' c && leb c b'9'

-- The number that decimal digits spell behind `n`; `none` at any other code point.
unfoldable pub read_digits : ℕ → Text → Option ℕ
read_digits n [] = some n
read_digits n (c ∷ s) =
    let rest = read_digits (n * 10 + (c - b'0')) s in if is_digit c then rest else none

-- unicode.IsControl.
abbrev pub is_control : ℕ → Bool
is_control c = ltb c 0x20 || (leb 0x7f c && ltb c 0xa0)
