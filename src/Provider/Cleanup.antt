-- ===== src/Provider/Cleanup.antt =====
-- provider/plan.go, PlanTarget steps 3 to 5: coverage, cleanup candidates and the cleanup gate.
pub mod Settled
pub mod Covered
use cloudhost_firewall_autou.Common.{
  ℕ, ◌+◌, ◌-◌, ◌^◌, Bool, true, false, not, ◌&&◌, ◌||◌, Option, none, some, List, [], ◌∷◌, ◌++◌,
  map, foldl, ◌==◌, list_eq, nat_eq, if◌then◌else◌, is_empty, contains, any, select, sort_by,
  length, ltb, leb,
}
use cloudhost_firewall_autou.Strings.{Text, trim_space, text_lt, read_digits}
use cloudhost_firewall_autou.Config.{CloudType, tc_lighthouse, tc_cvm, RuleInfo, RuleAction}
use cloudhost_firewall_autou.Provider.Types.{
  FunctionalKey, key_eq, key_text, IssueCode, dns_failed, owned_locator_missing,
  owned_key_ambiguous, desired_empty, coverage_not_ready, code_text, fixed, about_rule, about_count,
  PlanIssue, PlannedRule, PlanMatch,
}
use cloudhost_firewall_autou.Provider.Snapshot.{Entry, Index, rules_at, plain_issue}

-- The variables of step 3.
pub record Coverage : Type 0 where
  pub satisfied_by_owned : List PlanMatch
  pub satisfied_by_external : List PlanMatch
  pub to_add : List RuleAction
  pub implementable : ℕ
  pub covered : ℕ

abbrev pub no_coverage : Coverage
no_coverage = record {
  satisfied_by_owned = [];
  satisfied_by_external = [];
  to_add = [];
  implementable = 0;
  covered = 0;
}

abbrev pub count_if : Bool → ℕ → ℕ
count_if true n = n + 1
count_if false n = n

abbrev match_by : FunctionalKey → RuleInfo → List RuleInfo → PlanMatch
match_by k r rs = record { key = k; description = r.description; rules = r ∷ rs }

-- The branches of the loop body: the rules that the two indexes hold at the key.
abbrev cover_by : PlannedRule → Coverage → List RuleInfo → List RuleInfo → Coverage
cover_by d c (r ∷ rs) external = record c {
  satisfied_by_owned = c.satisfied_by_owned ++ match_by d.key r rs ∷ [];
  covered = count_if d.implementable c.covered;
}
cover_by d c [] (r ∷ rs) = record c {
  satisfied_by_external = c.satisfied_by_external ++ match_by d.key r rs ∷ [];
  covered = count_if d.implementable c.covered;
}
cover_by d c [] [] = record c {
  to_add = if d.implementable then c.to_add ++ d.action ∷ [] else c.to_add;
}

unfoldable pub cover_one : Index → Coverage → PlannedRule → Coverage
cover_one idx c d =
    cover_by d (record c { implementable = count_if d.implementable c.implementable })
      (rules_at idx.owned_index d.key) (rules_at idx.external_index d.key)

unfoldable pub cover : Index → List PlannedRule → Coverage
cover idx = foldl (cover_one idx) no_coverage

unfoldable pub coverage_ready : Coverage → Bool → Bool
coverage_ready c add_state_unknown =
    ltb 0 c.implementable && ((c.covered == c.implementable) && not add_state_unknown)

abbrev pub desired_keys : List PlannedRule → List FunctionalKey
desired_keys = map (λ d. d.key)

-- A rule of the namespace none of whose functions is desired.
unfoldable pub is_candidate : List PlannedRule → Entry → Bool
is_candidate desired e =
    e.owned && (not (is_empty e.keys) && not (any (contains (desired_keys desired)) e.keys))

unfoldable pub cleanup_entries : Index → List PlannedRule → List Entry
cleanup_entries idx desired = select (is_candidate desired) idx.entries

abbrev pub add_code : List IssueCode → PlanIssue → List IssueCode
add_code out i = if contains (map code_text out) (code_text i.code) then out else out ++ i.code ∷ []

-- distinctIssueCodes: each code once, in the order of their texts.
unfoldable pub distinct_issue_codes : List PlanIssue → List IssueCode
distinct_issue_codes issues =
    sort_by (λ a b. text_lt (code_text a) (code_text b)) (foldl add_code [] issues)

unfoldable pub gate_issues :
    List PlannedRule → List PlanIssue → List PlanIssue → List PlanIssue → Bool → List PlanIssue
gate_issues desired dns_errors unsupported conflicts ready =
    (if is_empty desired then plain_issue desired_empty fixed ∷ [] else [])
    ++ ((if is_empty dns_errors
          then []
          else plain_issue dns_failed (about_count (length dns_errors)) ∷ [])
        ++ (map (λ code. plain_issue code fixed) (distinct_issue_codes unsupported)
            ++ (map (λ code. plain_issue code fixed) (distinct_issue_codes conflicts)
                ++ (if ready then [] else plain_issue coverage_not_ready fixed ∷ []))))

abbrev in_range : ℕ → Option ℕ → Bool
in_range limit none = false
in_range limit (some n) = leb n limit

-- Whether strconv.ParseInt(s, 10, 64) succeeds.
unfoldable pub is_int64 : Text → Bool
is_int64 [] = false
is_int64 (c ∷ []) = in_range 9 (read_digits 0 (c ∷ []))
is_int64 (c ∷ d ∷ s) =
    if c == b'-'
    then in_range (2 ^ 63) (read_digits 0 (d ∷ s))
    else if c == b'+'
    then in_range (2 ^ 63 - 1) (read_digits 0 (d ∷ s))
    else in_range (2 ^ 63 - 1) (read_digits 0 (c ∷ d ∷ s))

abbrev pub key_at_head : List FunctionalKey → Option FunctionalKey
key_at_head [] = none
key_at_head (k ∷ ks) = some k

abbrev locator_issue : IssueCode → Entry → PlanIssue
locator_issue code e = record {
  code = code;
  message = about_rule e.rule;
  key = key_at_head e.keys;
  domain = [];
  rule_id = 0;
}

-- A key that the snapshot holds once, in an owned rule.
unfoldable pub is_located : Index → FunctionalKey → Bool
is_located idx k =
    (length (rules_at idx.owned_index k) == 1) && is_empty (rules_at idx.external_index k)

-- `none` is the result without an issue.
unfoldable pub cleanup_locator_issue : CloudType → Index → Entry → Option PlanIssue
cleanup_locator_issue tc_lighthouse idx e =
    if any (λ k. not (is_located idx k)) e.keys
    then some (locator_issue owned_key_ambiguous e)
    else none
cleanup_locator_issue tc_cvm idx e =
    let index = trim_space e.rule.policy_index in
    if is_empty index || not (is_int64 index)
    then some (locator_issue owned_locator_missing e)
    else none
cleanup_locator_issue _ idx e =
    if is_empty (trim_space e.rule.rule_id)
    then some (locator_issue owned_locator_missing e)
    else none

abbrev pub settle_as :
    Bool
    → RuleInfo
    → Option PlanIssue
    → List PlanIssue × List RuleInfo
    → List PlanIssue × List RuleInfo
settle_as blocked r (some issue) (deferred, deletable) = (issue ∷ deferred, deletable)
settle_as true r none (deferred, deletable) = (deferred, deletable)
settle_as false r none (deferred, deletable) = (deferred, r ∷ deletable)

-- The loop over the candidates: the issues that it defers, and the rules that may be deleted.
unfoldable pub settle : CloudType → Index → Bool → List Entry → List PlanIssue × List RuleInfo
settle ct idx blocked [] = ([], [])
settle ct idx blocked (e ∷ es) =
    settle_as blocked e.rule (cleanup_locator_issue ct idx e) (settle ct idx blocked es)

abbrev issue_key : PlanIssue → Text
issue_key i = elim i.key [ none ↦ [] | some k ↦ key_text k ]

unfoldable pub issue_lt : PlanIssue → PlanIssue → Bool
issue_lt a b =
    if not (code_text a.code == code_text b.code)
    then text_lt (code_text a.code) (code_text b.code)
    else if not (issue_key a == issue_key b)
    then text_lt (issue_key a) (issue_key b)
    else if not (a.domain == b.domain)
    then text_lt a.domain b.domain
    else ltb a.rule_id b.rule_id

unfoldable pub sort_issues : List PlanIssue → List PlanIssue
sort_issues = sort_by issue_lt
