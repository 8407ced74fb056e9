-- ===== src/Account/Marks.antt =====
-- internal/pool/account.go: what a finished request does to its account.
pub mod Tokens
pub mod History
pub mod Cooldown
pub mod Quota
use chatgpt_prism2api.Base.{
  ℕ, ◌+◌, Bool, true, false, not, ◌&&◌, ◌||◌, Option, none, some, List, [], ◌∷◌, ◌==◌,
  if◌then◌else◌,
}
use chatgpt_prism2api.Base.Int.{ℤ, pos}
use chatgpt_prism2api.Base.Text.{Text, codes, is_empty, has_prefix}
use chatgpt_prism2api.FailClass.{Class, Result}
use chatgpt_prism2api.Account.State.{Account, Token}
use chatgpt_prism2api.Account.Limits.{record_use_locked, over_limit}

-- `skipUseCount`: failures that are no use of the account.
unfoldable pub skip_use_count : Class → Bool
skip_use_count Class.unclassified = true
skip_use_count Class.canceled = true
skip_use_count Class.region = true
skip_use_count Class.bad_request = true
skip_use_count _ = false

abbrev pub is_quota : Class → Bool
is_quota Class.quota = true
is_quota _ = false

abbrev pub is_rate_limit : Class → Bool
is_rate_limit Class.rate_limit = true
is_rate_limit _ = false

abbrev pub is_auth : Class → Bool
is_auth Class.auth = true
is_auth _ = false

unfoldable pub is_quota_disable_reason : Text → Bool
unfolding has_prefix
is_quota_disable_reason reason = has_prefix reason (codes "quota")

-- `applyClassCooldownLocked`: it counts and classifies, and sets no cooldown.
unfoldable pub apply_class_cooldown : Account → Class → Account
apply_class_cooldown a class = record a { fail_count = a.fail_count + 1; fail_class = class }

-- `TokenManager.DropAccessToken` (internal/auth/login.go): the credentials stay.
unfoldable pub drop_access_token : Option Token → Option Token
drop_access_token none = none
drop_access_token (some t) = some (record t { access_token = [] })

abbrev pub on_manager :
    (Option Token → Option Token) → Option (Option Token) → Option (Option Token)
on_manager f none = none
on_manager f (some t) = some (f t)

-- The steps of `MarkFailure` on the account, in the order of the source.
unfoldable pub disable_by_quota : Account → Class → Account
disable_by_quota a class =
    if is_quota class && (a.enabled || is_quota_disable_reason a.disable_reason)
    then record a {
      enabled = false;
      disable_reason = if is_empty a.disable_reason then codes "quota" else a.disable_reason;
    }
    else a

unfoldable pub degrade_by_rate_limit : Account → Class → Account
degrade_by_rate_limit a class = if is_rate_limit class then record a { degraded = true } else a

-- A 401 drops the access token at once, a 403 only if the account's last failure was `auth` too.
unfoldable pub revoke_by_auth : Account → Class → ℕ → Account
unfolding drop_access_token
revoke_by_auth a class status =
    if is_auth class && (not (status == 403) || is_auth a.fail_class)
    then record a { tokens = on_manager drop_access_token a.tokens }
    else a

-- The tail shared by the marks: over a limit, the account is classified as rate limited.
unfoldable pub rate_limit_if_over : Account → ℕ → Account
unfolding over_limit apply_class_cooldown
rate_limit_if_over a now =
    let (p, over) = over_limit a now (pos 0) (pos 0) in
    if over then apply_class_cooldown p Class.rate_limit else p

-- The body of `MarkFailure` behind its early return.
unfoldable pub count_failure : Account → Result → ℕ → Account
unfolding disable_by_quota degrade_by_rate_limit revoke_by_auth rate_limit_if_over record_use_locked
count_failure a res now =
    let used = record_use_locked (record a { last_used_at = now }) now in
    let stopped = disable_by_quota used res.class in
    let slowed = degrade_by_rate_limit stopped res.class in
    let revoked = revoke_by_auth slowed res.class res.http_status in
    if not res.cool then rate_limit_if_over revoked now else apply_class_cooldown revoked res.class

-- `MarkFailure`; the model is passed on to `applyClassCooldownLocked`, which does not read it.
unfoldable pub mark_failure : Account → Result → ℕ → Account
unfolding count_failure skip_use_count
mark_failure a res now = if skip_use_count res.class then a else count_failure a res now

-- `ClearCooldown`.
unfoldable pub clear_cooldown : Account → Account
clear_cooldown a = record a {
  fail_count = 0;
  fail_class = Class.unclassified;
  cooldown_until = 0;
  cooldown_reason = Class.unclassified;
  trigger_count = 0;
}

-- `RecordUse`; `TouchUse` and `BeginUse` are the same.
unfoldable pub record_use : Account → ℕ → Account
unfolding record_use_locked rate_limit_if_over
record_use a now = rate_limit_if_over (record_use_locked (record a { last_used_at = now }) now) now

-- `MarkSuccess`.
unfoldable pub mark_success : Account → ℕ → Account
unfolding clear_cooldown record_use
mark_success a now =
    let c = clear_cooldown a in record_use (record c { success_count = c.success_count + 1 }) now

-- `applyQuotaPolicyLocked`, given the answer of the snapshot's `QuotaDisableReason`.
unfoldable pub apply_quota_policy : Account → Text → Account
unfolding is_quota_disable_reason
apply_quota_policy a reason =
    if not (is_empty reason)
    then if a.enabled || is_empty a.disable_reason || is_quota_disable_reason a.disable_reason
      then record a { enabled = false; disable_reason = reason }
      else a
    else if not a.enabled && is_quota_disable_reason a.disable_reason
    then record a { enabled = true; disable_reason = [] }
    else a
