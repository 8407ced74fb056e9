-- ===== src/Account/Ready.antt =====
-- internal/pool/account.go: whether an account may take a request, and when it is to be asked again.
pub mod Conditions
use chatgpt_prism2api.Base.{
  ℕ, Bool, true, false, not, ◌&&◌, ◌||◌, Option, none, some, List, [], ◌∷◌, ltb, ◌==◌,
  if◌then◌else◌,
}
use chatgpt_prism2api.Base.Int.{ℤ, pos}
use chatgpt_prism2api.Base.Text.{Text, is_empty}
use chatgpt_prism2api.Base.Dict.{lookup, text_key}
use chatgpt_prism2api.Account.State.{Account, Token, ModelState}
use chatgpt_prism2api.Account.Limits.{over_limit}
use chatgpt_prism2api.Account.Slots.{full}

abbrev until_of : Option ModelState → ℕ
until_of none = 0
until_of (some m) = m.cooldown_until

-- The cooldown of one model; the zero time without a model or an entry.
unfoldable pub model_cooldown_until : Account → Text → ℕ
model_cooldown_until a model = if is_empty model then 0 else until_of (lookup model a.model_states)

-- `!until.IsZero() && now.Before(until)`.
abbrev pub cooling : ℕ → ℕ → Bool
cooling now until = not (until == 0) && ltb now until

-- `TokenManager.TokenLocal` answers a token. Whether an access token is expired at a time is decided
-- by `isExpired`, which is a parameter.
abbrev pub holds_token : (Text → Bool) → Option (Option Token) → Bool
holds_token is_expired none = false
holds_token is_expired (some none) = false
holds_token is_expired (some (some t)) =
    not (is_empty t.access_token) && not (is_expired t.access_token)

module _ (is_expired : ℕ → Text → Bool) where
  -- `ReadyWithLimits`: the account, pruned by the limit check, and the answer.
  unfoldable pub ready_with_limits : Account → Text → ℕ → Bool → ℤ → ℤ → Account × Bool
  unfolding model_cooldown_until over_limit full
  ready_with_limits a model now disable_cooling overlay_rpm overlay_daily =
      let (p, limited) = over_limit a now overlay_rpm overlay_daily in
      let blocked = not p.enabled || limited || full p in
      let cooled = cooling now p.cooldown_until || cooling now (model_cooldown_until p model) in
      (p, not blocked && (disable_cooling || not cooled) && holds_token (is_expired now) p.tokens)

  -- `Ready`.
  unfoldable pub ready : Account → Text → ℕ → Bool → Account × Bool
  unfolding ready_with_limits
  ready a model now disable_cooling = ready_with_limits a model now disable_cooling (pos 0) (pos 0)

  -- `available`.
  unfoldable pub available : Account → ℕ → Account × Bool
  unfolding ready
  available a now = ready a [] now false

-- `NextRetryAt`: the earlier of the running cooldowns, or the zero time.
unfoldable pub next_retry_at : Account → Text → ℕ → ℕ
unfolding model_cooldown_until
next_retry_at a model now =
    let next = if cooling now a.cooldown_until then a.cooldown_until else 0 in
    let until = model_cooldown_until a model in
    if cooling now until && ((next == 0) || ltb until next) then until else next
