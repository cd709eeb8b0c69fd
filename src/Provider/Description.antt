-- ===== src/Provider/Description.antt =====
-- provider/plan.go: the description that is written to the cloud, and its truncation.
pub mod Kept
use cloudhost_firewall_autou.Common.{
  ℕ, Option, none, some, [], ◌∷◌, ◌++◌, if◌then◌else◌, leb, ltb, length, take,
}
use cloudhost_firewall_autou.Strings.{Text, cut}
use cloudhost_firewall_autou.Tag
use cloudhost_firewall_autou.Config.{CloudType, tc_lighthouse, ali_swas}

-- The limit of the description field, where the product has one.
abbrev pub max_description : CloudType → Option ℕ
max_description tc_lighthouse = some 64
max_description ali_swas = some 50
max_description _ = none

abbrev pub bracket_end : Option (Text × Text) → Option Text
bracket_end none = none
bracket_end (some (before, rest)) = some (before ++ b']' ∷ [])

-- The text through its first closing bracket.
abbrev pub bracketed : Text → Option Text
bracketed desc = bracket_end (cut b']' desc)

abbrev pub truncate_to : ℕ → Text → Option Text → Text
truncate_to n desc none = take n desc
truncate_to n desc (some head) = if ltb n (length head) then head else take n desc

abbrev pub limit_to : Option ℕ → Text → Text
limit_to none desc = desc
limit_to (some n) desc = if leb (length desc) n then desc else truncate_to n desc (bracketed desc)

unfoldable pub truncate_description : CloudType → Text → Text
truncate_description ct desc = limit_to (max_description ct) desc

unfoldable pub render_description : CloudType → Text → Text → Text
render_description ct tag comment = truncate_description ct (Tag.format tag comment)
