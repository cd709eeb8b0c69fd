-- ===== src/Provider/Snapshot.antt =====
-- provider/plan.go, PlanTarget step 2: the index of the cloud snapshot and its conflicts. A Go map
-- from keys to lists of rules is the list of what was appended, in order.
pub mod Indexed
pub mod Counted
use cloudhost_firewall_autou.Common.{
  Option, ℕ, Bool, true, false, ◌&&◌, none, some, List, [], ◌∷◌, ◌++◌, map, foldl, ◌==◌, list_eq,
  nat_eq, if◌then◌else◌, is_empty, any, select, sort_by,
}
use cloudhost_firewall_autou.Strings.{Text, trim_space, text_lt}
use cloudhost_firewall_autou.Tag
use cloudhost_firewall_autou.Config.{CloudType, tc_lighthouse, tc_cvm, RuleInfo}
use cloudhost_firewall_autou.Provider.Types.{
  FunctionalKey, key_eq, family_text, IssueCode, snapshot_rule_invalid, opposite_action,
  snapshot_incomplete, Message, fixed, about_rule, about_tuple, PlanIssue,
}
use cloudhost_firewall_autou.Provider.Keys.{snapshot_rule_keys, accept, drop_action}

-- A rule of the snapshot with its keys; none if the rule cannot be judged.
pub record Entry : Type 0 where
  pub rule : RuleInfo
  pub keys : List FunctionalKey
  pub owned : Bool

-- One action seen on a function without its action.
pub record TupleAction : Type 0 where
  pub tuple : Text
  pub shown : Text
  pub action : Text

pub record Index : Type 0 where
  pub owned_index : List (FunctionalKey × RuleInfo)
  pub external_index : List (FunctionalKey × RuleInfo)
  pub entries : List Entry
  pub tuple_actions : List TupleAction
  pub conflicts : List PlanIssue

abbrev pub empty_index : Index
empty_index = record {
  owned_index = [];
  external_index = [];
  entries = [];
  tuple_actions = [];
  conflicts = [];
}

-- The list at a key of `ownedIndex` or `externalIndex`.
unfoldable pub rules_at : List (FunctionalKey × RuleInfo) → FunctionalKey → List RuleInfo
rules_at [] k = []
rules_at ((j, r) ∷ index) k = if j == k then r ∷ rules_at index k else rules_at index k

abbrev spaced : ℕ → FunctionalKey → Text
spaced c k = family_text k.family ++ c ∷ (k.cidr ++ c ∷ (k.protocol ++ c ∷ k.port))

unfoldable pub tuple_action : FunctionalKey → TupleAction
tuple_action k = record { tuple = spaced b'|' k; shown = spaced b' ' k; action = k.action }

unfoldable pub index_key : RuleInfo → Bool → Index → FunctionalKey → Index
index_key r owned idx k = record idx {
  owned_index = if owned then idx.owned_index ++ (k, r) ∷ [] else idx.owned_index;
  external_index = if owned then idx.external_index else idx.external_index ++ (k, r) ∷ [];
  tuple_actions = idx.tuple_actions ++ tuple_action k ∷ [];
}

abbrev pub plain_issue : IssueCode → Message → PlanIssue
plain_issue code message = record {
  code = code;
  message = message;
  key = none;
  domain = [];
  rule_id = 0;
}

abbrev pub index_judged : Text → Index → RuleInfo → Option (List FunctionalKey) → Index
index_judged tag idx r none = record idx {
  entries = idx.entries ++ record { rule = r; keys = []; owned = false } ∷ [];
  conflicts = idx.conflicts ++ plain_issue snapshot_rule_invalid (about_rule r) ∷ [];
}
index_judged tag idx r (some keys) =
    let owned = Tag.is_owned r.description tag in
    foldl (index_key r owned)
      (record idx { entries = idx.entries ++ record { rule = r; keys = keys; owned = owned } ∷ [] })
      keys

unfoldable pub index_rule : Text → Index → RuleInfo → Index
index_rule tag idx r = index_judged tag idx r (snapshot_rule_keys r)

unfoldable pub index_snapshot : Text → List RuleInfo → Index
index_snapshot tag = foldl (index_rule tag) empty_index

-- The keys of `tupleActions`, each once.
add_tuple : List TupleAction → TupleAction → List TupleAction
add_tuple out t = if any (λ u. u.tuple == t.tuple) out then out else out ++ t ∷ []

distinct_tuples : List TupleAction → List TupleAction
unfolding add_tuple
distinct_tuples log = foldl add_tuple [] log

abbrev acts : Text → Text → TupleAction → Bool
acts tuple action t = (t.tuple == tuple) && (t.action == action)

unfoldable pub is_opposed : List TupleAction → TupleAction → Bool
is_opposed log t = any (acts t.tuple accept) log && any (acts t.tuple drop_action) log

unfoldable pub opposite_conflicts : List TupleAction → List PlanIssue
unfolding distinct_tuples
opposite_conflicts log =
    map (λ t. plain_issue opposite_action (about_tuple t.shown))
      (select (is_opposed log) (sort_by (λ a b. text_lt a.tuple b.tuple) (distinct_tuples log)))

abbrev is_tencent : CloudType → Bool
is_tencent tc_lighthouse = true
is_tencent tc_cvm = true
is_tencent _ = false

-- Tencent writes carry the version of the snapshot.
unfoldable pub revision_conflicts : CloudType → Text → List PlanIssue
revision_conflicts ct revision =
    if is_tencent ct && is_empty (trim_space revision)
    then plain_issue snapshot_incomplete fixed ∷ []
    else []

unfoldable pub snapshot_conflicts : CloudType → Text → Index → List PlanIssue
snapshot_conflicts ct revision idx =
    idx.conflicts ++ (opposite_conflicts idx.tuple_actions ++ revision_conflicts ct revision)
