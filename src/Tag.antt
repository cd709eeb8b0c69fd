-- ===== src/Tag.antt =====
-- internal/tag/tag.go: the "[TAG] comment" descriptions by which the program knows its own rules.
pub mod Ownership
use cloudhost_firewall_autou.Common.{
  ◌≡◌, refl, Bool, true, false, ◌||◌, Option, none, some, List, [], ◌∷◌, ◌++◌, ◌==◌, if◌then◌else◌,
  is_empty, nat_eq, list_eq, length, drop,
}
use cloudhost_firewall_autou.Strings.{Text, has_prefix, trim_space}

-- "[" + tag + "]"
abbrev pub prefix : Text → Text
prefix tag = b'[' ∷ (tag ++ b']' ∷ [])

unfoldable pub format : Text → Text → Text
format tag comment =
    if is_empty comment then prefix tag else b'[' ∷ (tag ++ (b']' ∷ b' ' ∷ comment))

unfoldable pub is_owned : Text → Text → Bool
is_owned description tag =
    (description == prefix tag) || has_prefix description (prefix tag ++ b' ' ∷ [])

-- `none` is the result ("", false).
unfoldable pub parse : Text → Text → Option Text
parse description tag =
    if is_owned description tag
    then some (trim_space (drop (length (prefix tag)) description))
    else none
