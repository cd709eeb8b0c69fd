-- ===== src/Provider/Snapshot/Counted.antt =====
-- How many rules of the snapshot have a key, repeated rules counted.
use cloudhost_firewall_autou.Common.{
  ℕ, ◌+◌, ◌≤◌, ◌≡◌, ap, Bool, List, [], ◌∷◌, ◌==◌, list_eq, nat_eq, if◌then◌else◌, length,
  length-append, select, contains, arith, Bool-cases, inl, inr,
}
use mathlib.Core.List.{flat_map}
use cloudhost_firewall_autou.Strings.{Text}
use cloudhost_firewall_autou.Tag
use cloudhost_firewall_autou.Config.{RuleInfo}
use cloudhost_firewall_autou.Provider.Types.{FunctionalKey, key_eq}
use cloudhost_firewall_autou.Provider.Snapshot.{rules_at, index_snapshot}
use cloudhost_firewall_autou.Provider.Snapshot.Indexed.{
  keys_of, pairs_of, pairs_if, owned_by, external_to, rules_at-append, owned_index-index_snapshot,
  external_index-index_snapshot,
}

abbrev pub has_key : FunctionalKey → RuleInfo → Bool
has_key k s = contains (keys_of s) k

abbrev one_if : Bool → ℕ
one_if b = if b then 1 else 0

pairs_of-count :
    (r : RuleInfo) (ks : List FunctionalKey) (k : FunctionalKey)
    → one_if (contains ks k) ≤ length (rules_at (pairs_of r ks) k)
unfolding contains rules_at pairs_of
pairs_of-count r [] k = omega arith
pairs_of-count r (j ∷ ks) k = elim (Bool-cases (j == k)) [
  | inl same ↦ rw same (omega arith)
  | inr differ ↦ rw differ (pairs_of-count r ks k)
]

rule-count :
    (tag : Text) (r : RuleInfo) (k : FunctionalKey)
    → one_if (has_key k r)
      ≤ length (rules_at (pairs_if (owned_by tag) r) k)
        + length (rules_at (pairs_if (external_to tag) r) k)
unfolding rules_at
rule-count tag r k = elim (Bool-cases (Tag.is_owned r.description tag)) [
  | inl own ↦ rw own (omega (arith, pairs_of-count r (keys_of r) k))
  | inr differ ↦ rw differ (omega (arith, pairs_of-count r (keys_of r) k))
]

length-select_cons :
    (k : FunctionalKey) (r : RuleInfo) (rules : List RuleInfo)
    → length (select (has_key k) (r ∷ rules))
      ≡ one_if (has_key k r) + length (select (has_key k) rules)
unfolding select
length-select_cons k r rules = ground arith

none_counted :
    (k : FunctionalKey)
    → length (select (has_key k) []) ≤ length (rules_at [] k) + length (rules_at [] k)
unfolding select
none_counted k = omega arith

rules-count :
    (tag : Text) (rules : List RuleInfo) (k : FunctionalKey)
    → length (select (has_key k) rules)
      ≤ length (rules_at (flat_map (pairs_if (owned_by tag)) rules) k)
        + length (rules_at (flat_map (pairs_if (external_to tag)) rules) k)
unfolding flat_map
rules-count tag [] k = none_counted k
rules-count tag (r ∷ rules) k =
    let own = pairs_if (owned_by tag) r in
    let ext = pairs_if (external_to tag) r in
    let owns = flat_map (pairs_if (owned_by tag)) rules in
    let exts = flat_map (pairs_if (external_to tag)) rules in
    omega (
      arith,
      length-select_cons k r rules,
      rule-count tag r k,
      rules-count tag rules k,
      ap length (rules_at-append own owns k),
      ap length (rules_at-append ext exts k),
      length-append (rules_at own k) (rules_at owns k),
      length-append (rules_at ext k) (rules_at exts k),
    )

-- The rules with a key are at most those that the two indexes hold at it.
pub index-count :
    (tag : Text) (rules : List RuleInfo) (k : FunctionalKey)
    → length (select (has_key k) rules)
      ≤ length (rules_at (index_snapshot tag rules).owned_index k)
        + length (rules_at (index_snapshot tag rules).external_index k)
index-count tag rules k =
    rw (owned_index-index_snapshot tag rules, external_index-index_snapshot tag rules)
      (rules-count tag rules k)
