-- ===== src/Pool/Member.antt =====
-- internal/pool/account.go: an account with its manager and its egress, its document, and what the
-- administration and the quota cache change in it.
-- The times of a document are seconds of Unix. `encoding/json` gives back the record that it was given, so
-- a document is the record; the class of a failure is one of the known ones.
use chatgpt_prism2api.Base.{
  ℕ, ◌+◌, ◌*◌, ◌/◌, Bool, true, not, ◌&&◌, Option, none, some, List, [], ◌==◌, if◌then◌else◌,
}
use chatgpt_prism2api.Base.Int.{ℤ, pos, negsuc, sub_ℕ}
use chatgpt_prism2api.Base.Text.{Text, is_empty, trim_space}
use chatgpt_prism2api.FailClass.{Class, second}
use chatgpt_prism2api.Account.State.{
  Account, Token, ModelState, copy_meta_from, new_account, set_weight, set_rpm, set_daily_max,
  set_groups,
}
use chatgpt_prism2api.Pool.Usage.{Snapshot, no_snapshot}

-- An account with the fields of `Account` and of its `TokenManager` that its scheduling does not read.
pub record Member (F : Type 0) : Type 0 where
  pub account : Account
  pub manager_key : Text
  pub proxy_url : Text
  pub proxy_id : Text
  pub client_type : Text
  pub vendor_usage : Snapshot F
  pub usage_updated_at : ℕ
  pub usage_last_error : Text

-- `persistedAccount`.
pub record Persisted (F : Type 0) : Type 0 where
  pub access_token : Text
  pub refresh_token : Text
  pub api_key : Text
  pub id : Text
  pub enabled : Option Bool
  pub disable_reason : Text
  pub priority : ℤ
  pub weight : ℤ
  pub groups : List Text
  pub proxy_url : Text
  pub proxy_id : Text
  pub client_type : Text
  pub rpm : ℤ
  pub daily_max : ℤ
  pub fail_class : Class
  pub cooldown_until : ℤ
  pub cooldown_reason : Class
  pub trigger_count : ℕ
  pub model_states : List (Text × ModelState)
  pub last_used_at : ℤ
  pub success_count : ℕ
  pub cursor_usage : Option (Snapshot F)
  pub usage_updated_at : ℤ
  pub usage_last_error : Text
  pub daily_count : ℕ
  pub daily_day : Option ℕ

-- `AdminPatch`.
pub record AdminPatch : Type 0 where
  pub priority : Option ℤ
  pub weight : Option ℤ
  pub enabled : Option Bool
  pub proxy_url : Option Text
  pub proxy_id : Option Text
  pub rpm : Option ℤ
  pub daily_max : Option ℤ
  pub groups : Option (List Text)

-- The seconds from the zero time to 1970.
abbrev pub unix_epoch : ℕ
unix_epoch = 62_135_596_800

-- `Unix`, with 0 for the zero time.
unfoldable pub saved_time : ℕ → ℤ
saved_time t = if t == 0 then pos 0 else sub_ℕ (t / second) unix_epoch

-- `time.Unix(n, 0)` if n is positive, and the zero time otherwise.
unfoldable pub loaded_time : ℤ → ℕ
loaded_time (pos n) = if n == 0 then 0 else (n + unix_epoch) * second
loaded_time (negsuc n) = 0

-- `TokenManager.SetToken`: the token, and the key that the manager then has.
abbrev pub manager_key_of : Text → Option Token → Text
manager_key_of key none = key
manager_key_of key (some t) = if not (is_empty t.api_key) && is_empty key then t.api_key else key

-- `TokenManager.Current`; the manager of an account of the pool is never nil.
abbrev pub current : Option (Option Token) → Option Token
current none = none
current (some t) = t

abbrev pub access_token_of : Option Token → Text
access_token_of none = []
access_token_of (some t) = t.access_token

abbrev pub or_current : {A : Type 0} → Option A → A → A
or_current none x = x
or_current (some y) x = y

-- `rec.Enabled == nil || *rec.Enabled`.
abbrev pub is_on : Option Bool → Bool
is_on none = true
is_on (some b) = b

-- The scheduling fields that `ApplyAdminPatch` sets.
abbrev patch_weight : Option ℤ → Account → Account
patch_weight none a = a
patch_weight (some w) a = set_weight a w

abbrev patch_rpm : Option ℤ → Account → Account
patch_rpm none a = a
patch_rpm (some n) a = set_rpm a n

abbrev patch_daily_max : Option ℤ → Account → Account
patch_daily_max none a = a
patch_daily_max (some n) a = set_daily_max a n

abbrev patch_groups : Option (List Text) → Account → Account
patch_groups none a = a
patch_groups (some gs) a = set_groups a gs

abbrev patch_enabled : Option Bool → Account → Account
patch_enabled none a = a
patch_enabled (some b) a = record a {
  enabled = b;
  disable_reason = if b then [] else a.disable_reason;
}

abbrev patch_proxy_id : Option Text → Text → Text
patch_proxy_id none id = id
patch_proxy_id (some new) id = trim_space new

unfoldable pub patch_account : Account → AdminPatch → Account
unfolding set_weight set_rpm set_daily_max set_groups
patch_account a p =
    let ranked = record a { priority = or_current p.priority a.priority } in
    let switched = patch_enabled p.enabled (patch_weight p.weight ranked) in
    patch_groups p.groups (patch_daily_max p.daily_max (patch_rpm p.rpm switched))

module _ {F : Type 0} where
  -- `ApplyAdminPatch`, up to `save`.
  unfoldable pub apply_admin_patch : Member F → AdminPatch → Member F
  unfolding patch_account
  apply_admin_patch m p = record m {
    account = patch_account m.account p;
    proxy_url = or_current p.proxy_url m.proxy_url;
    proxy_id = patch_proxy_id p.proxy_id m.proxy_id;
  }

  -- Whether `ApplyAdminPatch` or `RememberUsage` calls the hook for enabled accounts.
  abbrev pub becomes_enabled : Member F → Member F → Bool
  becomes_enabled before after = not before.account.enabled && after.account.enabled

  -- `newAccount` with a manager for a key.
  unfoldable pub new_member : Text → Text → Text → Member F
  new_member name uuid key = record {
    account = record (new_account name uuid) { tokens = some none };
    manager_key = key;
    proxy_url = [];
    proxy_id = [];
    client_type = [];
    vendor_usage = no_snapshot;
    usage_updated_at = 0;
    usage_last_error = [];
  }

  -- `copyMetaFrom`.
  unfoldable pub copy_member : Member F → Member F → Member F
  unfolding copy_meta_from
  copy_member m src = record m {
    account = copy_meta_from m.account src.account;
    proxy_url = src.proxy_url;
    proxy_id = src.proxy_id;
    client_type = src.client_type;
  }

  -- `TokenManager.SetToken`.
  unfoldable pub set_token : Member F → Option Token → Member F
  set_token m tok = record m {
    account = record (m.account) { tokens = some tok };
    manager_key = manager_key_of m.manager_key tok;
  }
