-- ===== src/Syncer/Retry.antt =====
-- syncer/retry.go: the classification of errors. An error is what its chain shows: its text, whether
-- it is a context deadline, whether its first net.Error is a timeout, the code of its first
-- tea.SDKError (empty if that has none), and whether it holds a PartialDeleteError or a
-- retryableCleanupError.
pub mod Classes
use cloudhost_firewall_autou.Common.{
  Bool, true, false, not, ◌&&◌, ◌||◌, Option, none, some, List, [], ◌∷◌, ◌++◌, ◌==◌, if◌then◌else◌,
  nat_eq, list_eq, any, contains,
}
use cloudhost_firewall_autou.Strings.{Text, codes, to_lower, contains_sub}

pub record GoError : Type 0 where
  pub message : Text
  pub deadline : Bool
  pub net_timeout : Bool
  pub sdk_code : Option Text
  pub partial_delete : Bool
  pub cleanup : Bool

-- fmt.Errorf("…%w", err) keeps the chain.
abbrev pub wrap : Text → GoError → GoError
wrap prefix e = record e { message = prefix ++ e.message }

-- An error of the package's own text.
abbrev pub plain_error : Text → GoError
plain_error message = record {
  message = message;
  deadline = false;
  net_timeout = false;
  sdk_code = none;
  partial_delete = false;
  cleanup = false;
}

abbrev pub retryable_codes : List Text
retryable_codes =
    codes "Throttling"
    ∷ codes "Throttling.User"
    ∷ codes "Throttling.Api"
    ∷ codes "ServiceUnavailable"
    ∷ codes "InternalError"
    ∷ []

abbrev pub retryable_texts : List Text
retryable_texts =
    codes "firewallversionmismatch"
    ∷ codes "versionmismatch"
    ∷ codes "requestlimitexceeded"
    ∷ codes "internalerror"
    ∷ codes "firewallbusy"
    ∷ codes "timeout"
    ∷ codes "connection refused"
    ∷ codes "clienterror.networkerror"
    ∷ []

-- An SDK error is judged by its code alone, any other error by its text.
abbrev pub by_code_or : List Text → Bool → Option Text → Bool
by_code_or accepted otherwise none = otherwise
by_code_or accepted otherwise (some code) = contains accepted code

unfoldable pub is_retryable : GoError → Bool
is_retryable e =
    e.deadline
    || (e.net_timeout
        || by_code_or retryable_codes (any (contains_sub (to_lower e.message)) retryable_texts)
            e.sdk_code)

unfoldable pub is_partial_delete : GoError → Bool
is_partial_delete e = e.partial_delete

unfoldable pub is_version_mismatch : GoError → Bool
is_version_mismatch e =
    let msg = to_lower e.message in
    by_code_or []
      (contains_sub msg (codes "firewallversionmismatch")
        || contains_sub msg (codes "versionmismatch"))
      e.sdk_code

abbrev pub create_codes : List Text
create_codes =
    codes "FirewallRulesExist"
    ∷ codes "FirewallRuleAlreadyExist"
    ∷ codes "DuplicatePolicy"
    ∷ codes "FirewallRulesDuplicated"
    ∷ []

unfoldable pub is_idempotent_create : GoError → Bool
is_idempotent_create e =
    by_code_or create_codes (any (contains_sub e.message) create_codes) e.sdk_code

abbrev pub delete_codes : List Text
delete_codes =
    codes "FirewallRulesNotFound"
    ∷ codes "InvalidParam.SecurityGroupRuleId"
    ∷ codes "InvalidSecurityGroupRuleId.NotFound"
    ∷ codes "InvalidSecurityGroupRule.RuleNotExist"
    ∷ codes "InvalidInstanceId.NotFound"
    ∷ []

unfoldable pub is_idempotent_delete : GoError → Bool
is_idempotent_delete e =
    by_code_or delete_codes (any (contains_sub e.message) delete_codes) e.sdk_code
