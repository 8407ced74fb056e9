-- ===== src/Pool/Document/Policy.antt =====
-- The quota policy and the credentials of an account do not touch each other.
use chatgpt_prism2api.Base.{
  ◌≡◌, refl, Bool, true, false, not, ◌&&◌, ◌||◌, Option, some, [], if◌then◌else◌,
}
use chatgpt_prism2api.Base.Text.{Text, is_empty}
use chatgpt_prism2api.Account.State.{Account, Token}
use chatgpt_prism2api.Account.Marks.{apply_quota_policy, is_quota_disable_reason}
use chatgpt_prism2api.Pool.Usage.{has_quota_meters, quota_disable_reason}
use chatgpt_prism2api.Pool.Member.{Member, Persisted, new_member, set_token}
use chatgpt_prism2api.Pool.Document.{restored, settle_quota, apply_persisted, load_with}

if_map :
    {A B : Type 0} (f : A → B) (b : Bool) (x y : A)
    → (if b then f x else f y) ≡ f (if b then x else y)
if_map f true x y = refl
if_map f false x y = refl

-- The quota policy does not look at the credentials.
policy-tokens :
    (a : Account) (reason : Text) (t : Option (Option Token))
    → apply_quota_policy (record a { tokens = t }) reason
      ≡ record (apply_quota_policy a reason) { tokens = t }
unfolding apply_quota_policy
policy-tokens a reason t =
    let f : Account → Account = λ b. record b { tokens = t } in
    let full = a.enabled || is_empty a.disable_reason || is_quota_disable_reason a.disable_reason in
    let stopped = record a { enabled = false; disable_reason = reason } in
    let freed = record a { enabled = true; disable_reason = [] } in
    let free = not a.enabled && is_quota_disable_reason a.disable_reason in
    rw (if_map f full stopped a, if_map f free freed a)
      (if_map f (not (is_empty reason)) (if full then stopped else a) (if free then freed else a))

module _ {F : Type 0} (is_full : F → Bool) (plan_is_full : F → F → Bool) where
  pub settle_quota-set_token :
      (m : Member F) (t : Option Token)
      → settle_quota is_full plan_is_full (set_token m t)
        ≡ set_token (settle_quota is_full plan_is_full m) t
  unfolding settle_quota set_token
  settle_quota-set_token m t =
      let f : Member F → Member F = λ n. set_token n t in
      let reason = quota_disable_reason is_full plan_is_full m.vendor_usage in
      let g = has_quota_meters m.vendor_usage || m.vendor_usage.unlimited in
      rw (policy-tokens m.account reason (some t))
        (if_map f g (record m { account = apply_quota_policy m.account reason }) m)

  pub loaded :
      (name : Text) (rec : Persisted F) (uuid : Text) (tok : Token)
      → is_empty rec.access_token ≡ false
      → load_with is_full plan_is_full name rec uuid tok
        ≡ some (
            set_token
              (settle_quota is_full plan_is_full
                (restored (new_member name [] tok.api_key) rec uuid))
              (some tok))
  unfolding load_with apply_persisted
  loaded name rec uuid tok h = rw h refl
