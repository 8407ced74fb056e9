-- ===== src/Pool/Document.antt =====
-- internal/pool/account.go: the document of an account, written and read.
-- Each sealed field draws a nonce of its own.
pub mod Policy
pub mod RoundTrip
use chatgpt_prism2api.Base.{
  ℕ, Bool, false, not, ◌&&◌, ◌||◌, Option, none, some, [], ◌==◌, if◌then◌else◌,
}
use chatgpt_prism2api.Base.Int.{ℤ, pos, negsuc, ltb_ℤ}
use chatgpt_prism2api.Base.Text.{Text, text_eq, is_empty, trim_space}
use chatgpt_prism2api.Account.State.{Token}
use chatgpt_prism2api.Account.Marks.{apply_quota_policy}
use chatgpt_prism2api.Pool.Secret.{seal, open_sealed}
use chatgpt_prism2api.Pool.Usage.{Snapshot, has_quota_meters, quota_disable_reason}
use chatgpt_prism2api.Pool.Member.{
  Member, Persisted, new_member, set_token, current, saved_time, loaded_time, is_on, or_current,
}

-- `if rec.X > 0 { a.x = time.Unix(rec.X, 0) }`, for the loaded time of `rec.X`.
unfoldable pub later : ℕ → ℕ → ℕ
later t old = if t == 0 then old else t

-- The nonces of the three sealed fields.
pub record Nonces : Type 0 where
  pub access : Option ℕ
  pub refresh : Option ℕ
  pub key : Option ℕ

abbrev is_zero : ℤ → Bool
is_zero (pos n) = n == 0
is_zero (negsuc n) = false

abbrev is_one : ℤ → Bool
is_one (pos n) = n == 1
is_one (negsuc n) = false

module _ (encrypt : Text → ℕ → Text → Text) (key : Text) where
  -- The three sealed fields: the key of the token, or of the manager when the token has none.
  unfoldable pub sealed_tokens : Option Token → Text → Nonces → Text × Text × Text
  unfolding seal
  sealed_tokens none manager_key n = ([], [], seal encrypt key n.key manager_key)
  sealed_tokens (some t) manager_key n =
      let own = seal encrypt key n.key t.api_key in
      let missing = is_empty own || text_eq own (seal encrypt key n.key []) in
      (
        seal encrypt key n.access t.access_token,
        seal encrypt key n.refresh t.refresh_token,
        if missing then seal encrypt key n.key manager_key else own,
      )

module _ {F : Type 0} where
  -- The usage is written if it was fetched, names a membership or has an error.
  unfoldable pub saved_usage : Member F → Option (Snapshot F)
  saved_usage m =
      if ltb_ℤ (pos 0) m.vendor_usage.fetched_at
        || not (is_empty m.vendor_usage.membership_type)
        || not (is_empty m.usage_last_error)
      then some m.vendor_usage
      else none

  -- `marshalPersisted`.
  unfoldable pub marshal_persisted :
      (Text → ℕ → Text → Text) → Text → Member F → Nonces → Persisted F
  unfolding sealed_tokens
  marshal_persisted encrypt key m n =
      let (access, refresh, api) =
        sealed_tokens encrypt key (current m.account.tokens) m.manager_key n in
      record {
        access_token = access;
        refresh_token = refresh;
        api_key = api;
        id = m.account.id;
        enabled = if m.account.enabled then none else some false;
        disable_reason = m.account.disable_reason;
        priority = m.account.priority;
        weight = if is_one m.account.weight then pos 0 else m.account.weight;
        groups = m.account.groups;
        proxy_url = m.proxy_url;
        proxy_id = m.proxy_id;
        client_type = m.client_type;
        rpm = m.account.rpm;
        daily_max = m.account.daily_max;
        fail_class = m.account.fail_class;
        cooldown_until = saved_time m.account.cooldown_until;
        cooldown_reason = m.account.cooldown_reason;
        trigger_count = m.account.trigger_count;
        model_states = m.account.model_states;
        last_used_at = saved_time m.account.last_used_at;
        success_count = m.account.success_count;
        cursor_usage = saved_usage m;
        usage_updated_at = saved_time m.usage_updated_at;
        usage_last_error = m.usage_last_error;
        daily_count = m.account.daily_count;
        daily_day = m.account.daily_day;
      }

  -- `tokenFromPersisted`.
  unfoldable pub token_from_persisted : (Text → Text → Option Text) → Text → Persisted F → Token
  unfolding open_sealed
  token_from_persisted decrypt key rec = record {
    access_token = open_sealed decrypt key rec.access_token;
    refresh_token = open_sealed decrypt key rec.refresh_token;
    api_key = open_sealed decrypt key rec.api_key;
  }

  -- The fields that `applyPersisted` assigns.
  unfoldable pub restored : Member F → Persisted F → Text → Member F
  restored m rec uuid = record m {
    account = record (m.account) {
      id = if is_empty rec.id then uuid else rec.id;
      enabled = is_on rec.enabled;
      disable_reason = rec.disable_reason;
      priority = rec.priority;
      weight = if is_zero rec.weight then pos 1 else rec.weight;
      groups = rec.groups;
      rpm = rec.rpm;
      daily_max = rec.daily_max;
      fail_class = rec.fail_class;
      model_states = [];
      last_used_at = later (loaded_time rec.last_used_at) m.account.last_used_at;
      success_count = rec.success_count;
      daily_count = rec.daily_count;
      daily_day = rec.daily_day;
    };
    proxy_url = rec.proxy_url;
    proxy_id = rec.proxy_id;
    client_type = rec.client_type;
    vendor_usage = or_current rec.cursor_usage m.vendor_usage;
    usage_updated_at = later (loaded_time rec.usage_updated_at) m.usage_updated_at;
    usage_last_error = rec.usage_last_error;
  }

  module _ (is_full : F → Bool) (plan_is_full : F → F → Bool) where
    -- The quota policy, when the snapshot has meters.
    unfoldable pub settle_quota : Member F → Member F
    unfolding apply_quota_policy quota_disable_reason has_quota_meters
    settle_quota m =
        let reason = quota_disable_reason is_full plan_is_full m.vendor_usage in
        if has_quota_meters m.vendor_usage || m.vendor_usage.unlimited
        then record m { account = apply_quota_policy m.account reason }
        else m

    -- `applyPersisted`.
    unfoldable pub apply_persisted : Member F → Persisted F → Text → Member F
    unfolding restored settle_quota
    apply_persisted m rec uuid = settle_quota (restored m rec uuid)

    -- `RememberUsage`, up to `save`.
    unfoldable pub remember_usage : Member F → Snapshot F → Text → ℕ → Member F
    unfolding settle_quota
    remember_usage m snap err now = settle_quota (record m {
      vendor_usage = snap;
      usage_last_error = err;
      usage_updated_at = later (loaded_time snap.fetched_at) now;
    })

    -- The body of the loop in `loadAll` for one document, behind the token that it reads.
    unfoldable pub load_with : Text → Persisted F → Text → Token → Option (Member F)
    unfolding apply_persisted set_token
    load_with name rec uuid tok =
        if is_empty rec.access_token
          && is_empty rec.api_key
          && is_empty (trim_space rec.refresh_token)
        then none
        else some (set_token (apply_persisted (new_member name [] tok.api_key) rec uuid) (some tok))

    -- The document of one account in `loadAll`: nothing without a credential.
    unfoldable pub load_member :
        (Text → Text → Option Text) → Text → Text → Persisted F → Text → Option (Member F)
    unfolding token_from_persisted load_with
    load_member decrypt key name rec uuid =
        load_with name rec uuid (token_from_persisted decrypt key rec)
