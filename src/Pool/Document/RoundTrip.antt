-- ===== src/Pool/Document/RoundTrip.antt =====
-- A restart gives back an account from its own document.
use chatgpt_prism2api.Base.{
  ℕ, ◌*◌, ◌/◌, ◌≡◌, refl, sym, ap, ◌∙◌, Bool, true, false, not, ◌&&◌, ◌||◌, Option, none, some, [],
  ◌∷◌, arith, leb, if◌then◌else◌,
}
use chatgpt_prism2api.Base.Int.{ℤ, pos, negsuc}
use chatgpt_prism2api.Base.Text.{Text, text_eq, is_empty, has_prefix}
use chatgpt_prism2api.FailClass.{second}
use chatgpt_prism2api.Account.State.{Token, new_account}
use chatgpt_prism2api.Pool.Secret.{seal, open_sealed, open_sealed-seal, prefix}
use chatgpt_prism2api.Pool.Usage.{no_snapshot}
use chatgpt_prism2api.Pool.Member.{
  Member, new_member, set_token, saved_time, loaded_time, unix_epoch, is_on, or_current,
}
use chatgpt_prism2api.Pool.Document.{
  Nonces, later, is_zero, is_one, sealed_tokens, saved_usage, marshal_persisted,
  token_from_persisted, restored, settle_quota, load_member, load_with,
}
use chatgpt_prism2api.Pool.Document.Policy.{settle_quota-set_token, loaded}

-- A time cut to whole seconds; up to the first second of 1970 it is lost.
unfoldable pub whole_seconds : ℕ → ℕ
whole_seconds t = if leb (t / second) unix_epoch then 0 else (t / second) * second

loaded-saved : (t : ℕ) → later (loaded_time (saved_time t)) 0 ≡ whole_seconds t
unfolding loaded_time saved_time later whole_seconds
loaded-saved t = ground arith

-- The key of a token, or of its manager.
abbrev pub key_of : Token → Text → Text
key_of t manager_key = if is_empty t.api_key then manager_key else t.api_key

-- What survives a restart: the settings, the counts, the credentials and the cached usage; not the
-- cooldowns, the window of uses and the slots.
unfoldable pub survivor : {F : Type 0} → Member F → Token → Member F
survivor m t =
    let a = m.account in
    record {
      account = record (new_account a.name a.id) {
        tokens = some (some (record t { api_key = key_of t m.manager_key }));
        enabled = a.enabled;
        disable_reason = a.disable_reason;
        priority = a.priority;
        weight = a.weight;
        groups = a.groups;
        rpm = a.rpm;
        daily_max = a.daily_max;
        fail_class = a.fail_class;
        last_used_at = whole_seconds a.last_used_at;
        success_count = a.success_count;
        daily_count = a.daily_count;
        daily_day = a.daily_day;
      };
      manager_key = key_of t m.manager_key;
      proxy_url = m.proxy_url;
      proxy_id = m.proxy_id;
      client_type = m.client_type;
      vendor_usage = or_current (saved_usage m) no_snapshot;
      usage_updated_at = whole_seconds m.usage_updated_at;
      usage_last_error = m.usage_last_error;
    }

weight_back :
    (w : ℤ)
    → is_zero w ≡ false
    → (if is_zero (if is_one w then pos 0 else w) then pos 1 else if is_one w then pos 0 else w) ≡ w
weight_back (pos n) h = ground arith
weight_back (negsuc n) h = refl

enabled_back : (b : Bool) → is_on (if b then none else some false) ≡ b
enabled_back true = refl
enabled_back false = refl

id_back : (id uuid : Text) → is_empty id ≡ false → (if is_empty id then uuid else id) ≡ id
id_back id uuid h = ground arith

text_eq-nil : (s : Text) → text_eq s [] ≡ is_empty s
unfolding text_eq
text_eq-nil [] = refl
text_eq-nil (c ∷ s) = refl

key_kept : (k : Text) → (if not (is_empty k) && is_empty k then k else k) ≡ k
key_kept [] = refl
key_kept (c ∷ k) = refl

module _ (encrypt : Text → ℕ → Text → Text) (decrypt : Text → Text → Option Text) (key : Text) where
  seal-nonempty :
      (nonce : Option ℕ) (plain : Text)
      → is_empty plain ≡ false
      → is_empty (seal encrypt key nonce plain) ≡ false
  unfolding seal
  seal-nonempty none plain h = ground arith
  seal-nonempty (some nonce) plain h = ground arith

  seal-empty : (n : Option ℕ) → seal encrypt key n [] ≡ []
  unfolding seal
  seal-empty n = refl

  access_kept :
      {F : Type 0} (m : Member F) (t : Token) (n : Nonces)
      → m.account.tokens ≡ some (some t)
      → is_empty t.access_token ≡ false
      → is_empty (marshal_persisted encrypt key m n).access_token ≡ false
  unfolding marshal_persisted sealed_tokens
  access_kept m t n ht ha = rw ht (seal-nonempty n.access t.access_token ha)

  fields_back :
      {F : Type 0} (m : Member F) (t : Token) (n : Nonces) (uuid : Text)
      → is_empty m.account.id ≡ false
      → is_zero m.account.weight ≡ false
      → let tok = record t { api_key = key_of t m.manager_key } in
        set_token
          (restored
            (new_member m.account.name [] tok.api_key)
            (marshal_persisted encrypt key m n)
            uuid)
          (some tok)
        ≡ survivor m t
  unfolding marshal_persisted restored survivor set_token new_member new_account
  fields_back m t n uuid hi hw =
      rw
        (
          id_back m.account.id uuid hi,
          weight_back m.account.weight hw,
          enabled_back m.account.enabled,
          loaded-saved m.account.last_used_at,
          loaded-saved m.usage_updated_at,
          key_kept (key_of t m.manager_key),
        )
        refl

  module _
      (back : (key : Text) (nonce : ℕ) (plain : Text)
        → decrypt key (encrypt key nonce plain) ≡ some plain) where
    key_back :
        (nonce : Option ℕ) (own manager_key : Text)
        → has_prefix own prefix ≡ false
        → has_prefix manager_key prefix ≡ false
        → let sealed = seal encrypt key nonce own in
          open_sealed decrypt key (
            if is_empty sealed || text_eq sealed (seal encrypt key nonce [])
            then seal encrypt key nonce manager_key
            else sealed)
          ≡ (if is_empty own then manager_key else own)
    key_back nonce [] manager_key h k =
        rw (seal-empty nonce) (open_sealed-seal encrypt decrypt back key nonce manager_key k)
    key_back nonce (c ∷ own) manager_key h k =
        rw
          (
            seal-empty nonce,
            text_eq-nil (seal encrypt key nonce (c ∷ own)),
            seal-nonempty nonce (c ∷ own) refl,
          )
          (open_sealed-seal encrypt decrypt back key nonce (c ∷ own) h)

    token_back :
        {F : Type 0} (m : Member F) (t : Token) (n : Nonces)
        → m.account.tokens ≡ some (some t)
        → has_prefix t.access_token prefix ≡ false
        → has_prefix t.refresh_token prefix ≡ false
        → has_prefix t.api_key prefix ≡ false
        → has_prefix m.manager_key prefix ≡ false
        → token_from_persisted decrypt key (marshal_persisted encrypt key m n)
          ≡ record t { api_key = key_of t m.manager_key }
    unfolding token_from_persisted marshal_persisted sealed_tokens
    token_back m t n ht pa pr pk pm =
        rw
          (
            ht,
            open_sealed-seal encrypt decrypt back key n.access t.access_token pa,
            open_sealed-seal encrypt decrypt back key n.refresh t.refresh_token pr,
            key_back n.key t.api_key m.manager_key pk pm,
          )
          refl

    -- The account that `loadAll` makes from the document of an account whose token has an access token, when
    -- the account has an identifier, its weight is not zero, and no credential begins with the mark of sealed
    -- texts: what survives a restart, with the quota policy applied. The decryption is assumed to undo the encryption.
    pub load_member-marshal_persisted :
        {F : Type 0} (is_full : F → Bool) (plan_is_full : F → F → Bool) (m : Member F) (t : Token)
        (n : Nonces) (uuid : Text)
        → m.account.tokens ≡ some (some t)
        → is_empty t.access_token ≡ false
        → is_empty m.account.id ≡ false
        → is_zero m.account.weight ≡ false
        → has_prefix t.access_token prefix ≡ false
        → has_prefix t.refresh_token prefix ≡ false
        → has_prefix t.api_key prefix ≡ false
        → has_prefix m.manager_key prefix ≡ false
        → load_member is_full plan_is_full decrypt key m.account.name
            (marshal_persisted encrypt key m n)
            uuid
          ≡ some (settle_quota is_full plan_is_full (survivor m t))
    unfolding load_member
    load_member-marshal_persisted is_full plan_is_full m t n uuid ht ha hi hw pa pr pk pm =
        let tok = record t { api_key = key_of t m.manager_key } in
        let doc = marshal_persisted encrypt key m n in
        let made = restored (new_member m.account.name [] tok.api_key) doc uuid in
        ap (load_with is_full plan_is_full m.account.name doc uuid)
          (token_back m t n ht pa pr pk pm)
        ∙ loaded is_full plan_is_full m.account.name doc uuid tok (access_kept m t n ht ha)
        ∙ ap some (sym (settle_quota-set_token is_full plan_is_full made (some tok)))
        ∙ ap (λ x. some (settle_quota is_full plan_is_full x)) (fields_back m t n uuid hi hw)
