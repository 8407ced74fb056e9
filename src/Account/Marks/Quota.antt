-- ===== src/Account/Marks/Quota.antt =====
-- The quota policy stops and restores only accounts that no administrator disabled.
use chatgpt_prism2api.Base.{◌≡◌, true, false, [], arith}
use chatgpt_prism2api.Base.Text.{Text, is_empty}
use chatgpt_prism2api.FailClass.{Result}
use chatgpt_prism2api.Account.State.{Account}
use chatgpt_prism2api.Account.Marks.{mark_failure, apply_quota_policy, is_quota_disable_reason}
use chatgpt_prism2api.Base.{ℕ}

-- An account that is disabled for a reason of another kind is left alone by the quota policy, and a
-- failure changes neither that it is disabled nor why.
pub manual_disable_stays :
    (a : Account) (reason : Text) (res : Result) (now : ℕ)
    → a.enabled ≡ false
    → is_empty a.disable_reason ≡ false
    → is_quota_disable_reason a.disable_reason ≡ false
    → (apply_quota_policy a reason ≡ a)
      × ((mark_failure a res now).enabled ≡ false)
      × ((mark_failure a res now).disable_reason ≡ a.disable_reason)
unfolding apply_quota_policy mark_failure
manual_disable_stays a reason res now off why manual = (ground arith, ground arith, ground arith)

-- What the policy stops for quota it restores when the quota is back: the account is then as before.
pub quota_policy_restores :
    (a : Account) (reason : Text)
    → a.enabled ≡ true
    → a.disable_reason ≡ []
    → is_empty reason ≡ false
    → is_quota_disable_reason reason ≡ true
    → ((apply_quota_policy a reason).enabled ≡ false)
      × (apply_quota_policy (apply_quota_policy a reason) [] ≡ a)
unfolding apply_quota_policy
quota_policy_restores a reason on clear given quota = (ground arith, ground arith)
