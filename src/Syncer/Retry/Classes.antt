-- ===== src/Syncer/Retry/Classes.antt =====
-- How the classes of errors relate.
use cloudhost_firewall_autou.Common.{◌≡◌, true, arith, any, contains, list_eq, nat_eq}
use cloudhost_firewall_autou.Syncer.Retry.{GoError, is_retryable, is_version_mismatch}

-- An error that counts as a version race also counts as retryable.
pub version_mismatch-retryable :
    (e : GoError) → is_version_mismatch e ≡ true → is_retryable e ≡ true
unfolding is_version_mismatch is_retryable any contains
version_mismatch-retryable e h = ground arith
