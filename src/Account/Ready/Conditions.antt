-- ===== src/Account/Ready/Conditions.antt =====
-- When an account is ready.
use chatgpt_prism2api.Base.{
  ltb, subst, ℕ, ◌+◌, ◌≡◌, refl, Bool, true, false, not, ◌&&◌, ◌||◌, [], ◌∷◌, arith, length,
  length-append,
}
use chatgpt_prism2api.Base.Int.{ℤ, pos, negsuc}
use chatgpt_prism2api.Base.Text.{Text}
use chatgpt_prism2api.Base.Dict.{lookup, text_key}
use chatgpt_prism2api.Account.State.{Account, new_account}
use chatgpt_prism2api.Account.Limits.{
  prune_uses, over_limit, record_use_locked, effective_limits, drop_old, at_limit, overlay, or_else,
  reaches,
}
use chatgpt_prism2api.Account.Limits.Window.{drop_old_idem}
use chatgpt_prism2api.Account.Slots.{full}
use chatgpt_prism2api.Account.Marks.Cooldown.{
  NoCooldown, Reach, here, next, looked, Reach-NoCooldown, new_account-NoCooldown,
}
use chatgpt_prism2api.Account.Ready.{
  ready_with_limits, holds_token, next_retry_at, cooling, model_cooldown_until,
}

-- An account that was never set a cooldown is never waited for, and the cooling switch does not matter.
pub NoCooldown-ready :
    (is_expired : ℕ → Text → Bool) (a : Account) (model : Text) (now : ℕ) (rpm daily : ℤ)
    → NoCooldown a
    → (next_retry_at a model now ≡ 0)
      × (ready_with_limits is_expired a model now false rpm daily
          ≡ ready_with_limits is_expired a model now true rpm daily)
unfolding next_retry_at ready_with_limits lookup
NoCooldown-ready is_expired a model now rpm daily h = (ground arith, ground arith)

-- Whatever happened to an account since it was made, no request waits for it to cool down.
pub Reach-ready :
    (is_expired : ℕ → Text → Bool) (name uuid : Text) (a : Account) (model : Text) (now : ℕ)
    (rpm daily : ℤ)
    → Reach (new_account name uuid) a
    → (next_retry_at a model now ≡ 0)
      × (ready_with_limits is_expired a model now false rpm daily
          ≡ ready_with_limits is_expired a model now true rpm daily)
Reach-ready is_expired name uuid a model now rpm daily r =
    NoCooldown-ready is_expired a model now rpm daily
      (Reach-NoCooldown (new_account-NoCooldown name uuid) r)

tests_of_ready :
    (off limited filled cooled held : Bool)
    → not (off || limited || filled) && cooled && held ≡ true
    → (off ≡ false) × (limited ≡ false) × (filled ≡ false) × (held ≡ true)
tests_of_ready off limited filled cooled held h = ground arith

ready_tests :
    (is_expired : ℕ → Text → Bool) (a : Account) (model : Text) (now : ℕ) (disable : Bool)
    (rpm daily : ℤ)
    → (ready_with_limits is_expired a model now disable rpm daily).1 ≡ true
    → (a.enabled ≡ true)
      × (at_limit (prune_uses a now) (effective_limits (prune_uses a now) rpm daily) ≡ false)
      × (full a ≡ false)
      × (holds_token (is_expired now) a.tokens ≡ true)
unfolding ready_with_limits
ready_tests is_expired a model now disable rpm daily h =
    let tests =
      tests_of_ready (not a.enabled) (over_limit a now rpm daily).1 (full a)
        (disable
          || not (cooling now a.cooldown_until || cooling now (model_cooldown_until a model)))
        (holds_token (is_expired now) a.tokens) h in
    (not_false a.enabled tests.0, tests.1, tests.2, tests.3)
  where
    not_false : (b : Bool) → not b ≡ false → b ≡ true
    not_false true e = refl
    not_false false e = cc

-- `limit > 0 && n > limit`.
abbrev pub exceeds : ℕ → ℤ → Bool
exceeds n (pos k) = ltb 0 k && ltb k n
exceeds n (negsuc k) = false

next_within : (n : ℕ) (limit : ℤ) → reaches n limit ≡ false → exceeds (n + 1) limit ≡ false
next_within n (pos k) h = ground arith
next_within n (negsuc k) h = refl

-- A limit that is set for the account itself is the effective one.
own_within : (n : ℕ) (own other : ℤ) → exceeds n (or_else own other) ≡ false → exceeds n own ≡ false
own_within n (pos k) other h = ground (arith, h)
own_within n (negsuc k) other h = refl

or_else-effective_limits :
    (a : Account) (rpm daily : ℤ)
    → ((effective_limits a rpm daily).0 ≡ or_else a.rpm (overlay a rpm daily).0)
      × ((effective_limits a rpm daily).1 ≡ or_else a.daily_max (overlay a rpm daily).1)
unfolding effective_limits
or_else-effective_limits a rpm daily = (ground arith, ground arith)

below_limits :
    (a : Account) (limits : ℤ × ℤ)
    → at_limit a limits ≡ false
    → (reaches (length a.use_times) limits.0 ≡ false) × (reaches a.daily_count limits.1 ≡ false)
unfolding at_limit
below_limits a (rpm, daily) h = (ground arith, ground arith)

length-record :
    (a : Account) (now : ℕ)
    → length (record_use_locked (prune_uses a now) now).use_times
      ≡ length (prune_uses a now).use_times + 1
unfolding record_use_locked
length-record a now =
    rw (drop_old_idem now a.use_times) (length-append (drop_old now a.use_times) (now ∷ []))

count-record :
    (a : Account) (now : ℕ)
    → (record_use_locked (prune_uses a now) now).daily_count ≡ (prune_uses a now).daily_count + 1
unfolding record_use_locked
count-record a now = ground arith

-- An account that is ready is enabled and has an access token that is not expired and a free slot; and with
-- one more use it has no more uses in the minute and on the day than its effective limits allow, and than
-- its own limits allow, each where it is positive.
pub ready_sound :
    (is_expired : ℕ → Text → Bool) (a : Account) (model : Text) (now : ℕ) (disable : Bool)
    (rpm daily : ℤ)
    → (ready_with_limits is_expired a model now disable rpm daily).1 ≡ true
    → let p = (ready_with_limits is_expired a model now disable rpm daily).0 in
      let limits = effective_limits p rpm daily in
      let used = record_use_locked p now in
      (a.enabled ≡ true)
      × (holds_token (is_expired now) a.tokens ≡ true)
      × (exceeds (length used.use_times) limits.0 ≡ false)
      × (exceeds used.daily_count limits.1 ≡ false)
      × (exceeds (length used.use_times) a.rpm ≡ false)
      × (exceeds used.daily_count a.daily_max ≡ false)
      × (full a ≡ false)
unfolding ready_with_limits
ready_sound is_expired a model now disable rpm daily h =
    let p = prune_uses a now in
    let (on, room, free, held) = ready_tests is_expired a model now disable rpm daily h in
    let (below, below') = below_limits p (effective_limits p rpm daily) room in
    let limits = effective_limits p rpm daily in
    let used = record_use_locked p now in
    let uses : exceeds (length used.use_times) limits.0 ≡ false =
      rw (length-record a now) (next_within (length p.use_times) limits.0 below) in
    let count : exceeds used.daily_count limits.1 ≡ false =
      rw (count-record a now) (next_within p.daily_count limits.1 below') in
    let (own, own') = or_else-effective_limits p rpm daily in
    (
      on,
      held,
      uses,
      count,
      own_within (length used.use_times) a.rpm (overlay p rpm daily).0
          (subst (λ r. exceeds (length used.use_times) r ≡ false) own uses),
      own_within used.daily_count a.daily_max (overlay p rpm daily).1
          (subst (λ r. exceeds used.daily_count r ≡ false) own' count),
      free,
    )

-- An account that is ready: the pruned account is enabled, holds a token and has a free slot.
pub ready_basics :
    (is_expired : ℕ → Text → Bool) (a : Account) (model : Text) (now : ℕ) (disable : Bool)
    (rpm daily : ℤ)
    → (ready_with_limits is_expired a model now disable rpm daily).1 ≡ true
    → ((ready_with_limits is_expired a model now disable rpm daily).0 ≡ prune_uses a now)
      × (a.enabled ≡ true)
      × (holds_token (is_expired now) a.tokens ≡ true)
      × (full a ≡ false)
unfolding ready_with_limits
ready_basics is_expired a model now disable rpm daily h =
    let (on, _, free, held) = ready_tests is_expired a model now disable rpm daily h in
    (refl, on, held, free)

pub prune-NoCooldown : (a : Account) (now : ℕ) → NoCooldown a → NoCooldown (prune_uses a now)
prune-NoCooldown a now h = Reach-NoCooldown h (next here (looked a now))
