-- ===== src/Account/Marks/Tokens.antt =====
-- What one failure does to the tokens of an account and to its switches.
use chatgpt_prism2api.Base.{
  ℕ, ◌==◌, if◌then◌else◌, not, ◌&&◌, ◌||◌, Bool-cases, ◌≡◌, refl, inl, inr, Bool, true, false,
  Option, none, some, [], arith,
}
use chatgpt_prism2api.FailClass.{Result}
use chatgpt_prism2api.Account.State.{Account, Token}
use chatgpt_prism2api.Account.Limits.Window.{drop_old-snoc}
use chatgpt_prism2api.Account.Limits.{record_use_locked}
use chatgpt_prism2api.Account.Marks.{
  mark_failure, skip_use_count, is_auth, is_quota, is_rate_limit, on_manager, drop_access_token,
}

-- What a re-login needs is the same in both.
abbrev pub SameCredentials : Option (Option Token) → Option (Option Token) → Type 0
SameCredentials none t = t ≡ none
SameCredentials (some none) t = t ≡ some none
SameCredentials (some (some s)) t =
    (u : Token) × (t ≡ some (some u))
    × (u.refresh_token ≡ s.refresh_token)
    × (u.api_key ≡ s.api_key)

pub tokens_of_failure :
    (a : Account) (res : Result) (now : ℕ)
    → (mark_failure a res now).tokens ≡ (
        if is_auth res.class && (not (res.http_status == 403) || is_auth a.fail_class)
        then on_manager drop_access_token a.tokens
        else a.tokens)
unfolding mark_failure
tokens_of_failure a res now = ground arith

pub dropped-SameCredentials :
    (t : Option (Option Token)) → SameCredentials t (on_manager drop_access_token t)
unfolding drop_access_token
dropped-SameCredentials none = refl
dropped-SameCredentials (some none) = refl
dropped-SameCredentials (some (some t)) = (record t { access_token = [] }, refl, refl, refl)

pub SameCredentials-refl : (t : Option (Option Token)) → SameCredentials t t
SameCredentials-refl none = refl
SameCredentials-refl (some none) = refl
SameCredentials-refl (some (some t)) = (t, refl, refl, refl)

-- No failure loses the credentials that a re-login needs.
pub mark_failure-SameCredentials :
    (a : Account) (res : Result) (now : ℕ)
    → SameCredentials a.tokens (mark_failure a res now).tokens
mark_failure-SameCredentials a res now =
    rw (tokens_of_failure a res now) (elim (Bool-cases revoked) [
      | inl e ↦ rw e (dropped-SameCredentials a.tokens)
      | inr e ↦ rw e (SameCredentials-refl a.tokens)
    ])
  where
    revoked : Bool
    revoked = is_auth res.class && (not (res.http_status == 403) || is_auth a.fail_class)

-- Request faults, cancellations and region errors leave the account as it is; any other failure is
-- counted as one use at its time, disables the account when it is a quota failure that meets an
-- account which is enabled or was disabled for quota, degrades it when it is a rate limit, and does
-- neither otherwise.
pub mark_failure_effects :
    (a : Account) (res : Result) (now : ℕ)
    → (skip_use_count res.class ≡ true → mark_failure a res now ≡ a)
      × (skip_use_count res.class ≡ false
          → ((mark_failure a res now).use_times ≡ (record_use_locked a now).use_times)
            × ((mark_failure a res now).daily_count ≡ (record_use_locked a now).daily_count)
            × ((mark_failure a res now).last_used_at ≡ now)
            × ((mark_failure a res now).enabled ≡ a.enabled && not (is_quota res.class))
            × ((mark_failure a res now).degraded ≡ is_rate_limit res.class || a.degraded))
unfolding mark_failure
mark_failure_effects a res now = (
  λ s. ground arith,
  λ s. (
    ground (arith, drop_old-snoc now a.use_times),
    ground arith,
    ground arith,
    ground arith,
    ground arith,
  ),
)
