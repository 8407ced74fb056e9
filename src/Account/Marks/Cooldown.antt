-- ===== src/Account/Marks/Cooldown.antt =====
-- No operation of an account sets a cooldown: the class cooldown only counts and classifies, and a document
-- that is loaded gives neither a cooldown nor the states of models.
use chatgpt_prism2api.Base.{ℕ, ◌≡◌, refl, List, [], Option, arith}
use chatgpt_prism2api.Base.Int.{ℤ}
use chatgpt_prism2api.Base.Text.{Text}
use chatgpt_prism2api.FailClass.{Result}
use chatgpt_prism2api.Account.State.{
  Account, Token, new_account, set_weight, set_rpm, set_daily_max, set_groups, rename_group,
  copy_meta_from,
}
use chatgpt_prism2api.Account.Limits.{prune_uses}
use chatgpt_prism2api.Account.Slots.{acquire, release, degrade_concurrency, set_concurrency}
use chatgpt_prism2api.Account.Marks.{
  mark_failure, clear_cooldown, record_use, mark_success, apply_quota_policy,
}
use chatgpt_prism2api.Pool.Member.{Member, Persisted, AdminPatch, patch_account}
use chatgpt_prism2api.Pool.Document.{restored}

-- One call of a method that changes the account. `looked` is the pruning by a limit check, `loaded` the
-- fields that `applyPersisted` assigns, `metered` the quota policy that it and `RememberUsage` then apply,
-- `token_set` a token that the token manager takes over.
pub data Step : Account → Account → Type 1 where
  failed : (a : Account) (res : Result) (now : ℕ) → Step a (mark_failure a res now)
  succeeded : (a : Account) (now : ℕ) → Step a (mark_success a now)
  used : (a : Account) (now : ℕ) → Step a (record_use a now)
  looked : (a : Account) (now : ℕ) → Step a (prune_uses a now)
  cleared : (a : Account) → Step a (clear_cooldown a)
  acquired : (a : Account) → Step a (acquire a).0
  released : (a : Account) → Step a (release a)
  slowed : (a : Account) → Step a (degrade_concurrency a)
  resolved : (a : Account) (fn : Option (ℤ × ℤ)) → Step a (set_concurrency a fn)
  weighted : (a : Account) (w : ℤ) → Step a (set_weight a w)
  limited : (a : Account) (n : ℤ) → Step a (set_rpm a n)
  limited_daily : (a : Account) (n : ℤ) → Step a (set_daily_max a n)
  grouped : (a : Account) (names : List Text) → Step a (set_groups a names)
  renamed : (a : Account) (old new : Text) → Step a (rename_group a old new)
  metered : (a : Account) (reason : Text) → Step a (apply_quota_policy a reason)
  replaced :
      (a fresh : Account) (name uuid : Text)
      → fresh ≡ new_account name uuid
      → Step a (copy_meta_from fresh a)
  prioritised : (a : Account) (priority : ℤ) → Step a (record a { priority = priority })
  limited_by : (a : Account) (fn : Option (List Text → ℤ × ℤ)) → Step a (record a { limit_fn = fn })
  patched : (a : Account) (p : AdminPatch) → Step a (patch_account a p)
  loaded :
      {F : Type 0} (m : Member F) (rec : Persisted F) (uuid : Text)
      → Step m.account (restored m rec uuid).account
  token_set : (a : Account) (t : Option (Option Token)) → Step a (record a { tokens = t })

pub data Reach (s : Account) : Account → Type 1 where
  here : Reach s s
  next : {a b : Account} → Reach s a → Step a b → Reach s b

pub record NoCooldown (a : Account) : Type 0 where
  pub until_zero : a.cooldown_until ≡ 0
  pub no_models : a.model_states ≡ []

mark_failure-NoCooldown :
    (a : Account) (res : Result) (now : ℕ) → NoCooldown a → NoCooldown (mark_failure a res now)
unfolding mark_failure
mark_failure-NoCooldown a res now h = record { until_zero = ground arith; no_models = ground arith }

patch_account-NoCooldown :
    (a : Account) (p : AdminPatch) → NoCooldown a → NoCooldown (patch_account a p)
unfolding patch_account set_weight set_rpm set_daily_max set_groups
patch_account-NoCooldown a p h = record { until_zero = ground arith; no_models = ground arith }

Step-NoCooldown : {a b : Account} → Step a b → NoCooldown a → NoCooldown b
unfolding mark_success clear_cooldown record_use prune_uses acquire release degrade_concurrency
    set_concurrency set_weight set_rpm set_daily_max set_groups rename_group apply_quota_policy
    copy_meta_from new_account restored
Step-NoCooldown (failed a res now) h = mark_failure-NoCooldown a res now h
Step-NoCooldown (succeeded a now) h = ground arith
Step-NoCooldown (used a now) h = ground arith
Step-NoCooldown (looked a now) h = ground arith
Step-NoCooldown (cleared a) h = ground arith
Step-NoCooldown (acquired a) h = ground arith
Step-NoCooldown (released a) h = ground arith
Step-NoCooldown (slowed a) h = ground arith
Step-NoCooldown (resolved a fn) h = ground arith
Step-NoCooldown (weighted a w) h = ground arith
Step-NoCooldown (limited a n) h = ground arith
Step-NoCooldown (limited_daily a n) h = ground arith
Step-NoCooldown (grouped a names) h = ground arith
Step-NoCooldown (renamed a old new) h = ground arith
Step-NoCooldown (metered a reason) h = ground arith
Step-NoCooldown (replaced a fresh name uuid e) h = ground arith
Step-NoCooldown (prioritised a priority) h = ground arith
Step-NoCooldown (limited_by a fn) h = ground arith
Step-NoCooldown (patched a p) h = patch_account-NoCooldown a p h
Step-NoCooldown (loaded m rec uuid) h = record { until_zero = h.until_zero; no_models = refl }
Step-NoCooldown (token_set a t) h = ground arith

pub Reach-NoCooldown : {s a : Account} → NoCooldown s → Reach s a → NoCooldown a
Reach-NoCooldown h here = h
Reach-NoCooldown h (next r st) = Step-NoCooldown st (Reach-NoCooldown h r)

pub new_account-NoCooldown : (name uuid : Text) → NoCooldown (new_account name uuid)
unfolding new_account
new_account-NoCooldown name uuid = record { until_zero = refl; no_models = refl }
