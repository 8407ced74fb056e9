-- ===== src/Api/Iter.antt =====
-- internal/api/pick.go with internal/scheduler/wait.go: one request asks for accounts.
-- What other requests do meanwhile is an argument: the accounts and the clock at each turn of the loop, the
-- account as `Acquire` finds it, and whether the context ends during the wait. `strconv` and `fnv` are
-- parameters. The log line is not modelled.
pub mod Ends
pub mod Tries
pub mod Waits
use chatgpt_prism2api.Base.{
  ℕ, zero, suc, ◌+◌, ◌-◌, ◌*◌, ◌/◌, Bool, true, false, not, ◌&&◌, ◌||◌, Option, none, some, List,
  [], ◌∷◌, ◌++◌, ltb, leb, ◌==◌, if◌then◌else◌, length,
}
use chatgpt_prism2api.Base.Int.{ℤ, pos, ltb_ℤ}
use chatgpt_prism2api.Base.Text.{Text, codes, is_empty, trim_space}
use chatgpt_prism2api.FailClass.{second}
use chatgpt_prism2api.Account.State.{Account}
use chatgpt_prism2api.Account.Slots.{acquire}
use chatgpt_prism2api.Scheduler.Config.{Config, credential_limit}
use chatgpt_prism2api.Scheduler.Unavailable.{PickError}
use chatgpt_prism2api.Scheduler.Pick.{Scheduler, Request, Outcome, pick}

-- `accountIter`, with the session identifiers in place of the headers and the body.
pub record Iter : Type 0 where
  pub model : Text
  pub session_ids : Text × Text
  pub tried : List Text
  pub outer : ℕ
  pub group : Text
  pub fallback_affinity : Text

-- What `newAccountIter` reads of an identity.
pub record Caller : Type 0 where
  pub key_id : ℕ
  pub group : Text

-- What happens around the loop.
pub record World : Type 0 where
  pub accounts : ℕ → List Account
  pub now : ℕ → ℕ
  pub at_acquire : ℕ → Account → Account
  pub context_ends : ℕ → Bool

pub data PickAnswer : Type 0 where
  got : Account → PickAnswer
  credentials_exhausted wait_interrupted out_of_fuel : PickAnswer
  pick_failed : PickError → PickAnswer

-- One turn of the loop: an answer, or another turn.
pub data IterTurn : Type 0 where
  answers : Iter → PickAnswer → IterTurn
  again : Iter → IterTurn

module _ (format_decimal format_hash : ℕ → Text) (hash : Text → ℕ) where
  abbrev caller_group : Option Caller → Text
  caller_group none = []
  caller_group (some c) = c.group

  -- The binding of a client that names no session: by its key, or by its user agent under the main key.
  abbrev affinity_of : Option Caller → Text → Text
  affinity_of none agent = []
  affinity_of (some c) agent =
      if not (c.key_id == 0)
      then codes "key:" ++ format_decimal c.key_id
      else if not (is_empty (trim_space agent))
      then codes "ua:" ++ format_hash (hash agent)
      else []

  -- `newAccountIter`.
  unfoldable pub new_account_iter : Option Caller → Text → Text → Text × Text → Iter
  new_account_iter caller agent model session_ids = record {
    model = model;
    session_ids = session_ids;
    tried = [];
    outer = 0;
    group = caller_group caller;
    fallback_affinity = affinity_of caller agent;
  }

-- The request that `Next` hands to the scheduler.
unfoldable pub request_of : Iter → Request
request_of it = record {
  model = it.model;
  session_ids = it.session_ids;
  tried = it.tried;
  group = it.group;
  fallback_affinity = it.fallback_affinity;
}

-- `limit > 0 && len(it.tried) >= limit`.
unfoldable pub is_exhausted : Config → Iter → Bool
unfolding credential_limit
is_exhausted cfg it =
    let limit = credential_limit cfg in
    ltb_ℤ (pos 0) limit && not (ltb_ℤ (pos (length it.tried)) limit)

-- `it.outer >= cfg.RequestRetry || cfg.MaxRetryInterval <= 0`.
abbrev pub may_not_wait : Config → Iter → Bool
may_not_wait cfg it =
    not (ltb_ℤ (pos it.outer) cfg.request_retry) || not (ltb_ℤ (pos 0) cfg.max_retry_interval)

-- The turn behind an error of `Pick`: only a cooldown that is short enough is waited for.
unfoldable pub after_error : Config → Iter → Bool → PickError → IterTurn
after_error cfg it context_ends (PickError.cooling_down model wait) =
    if may_not_wait cfg it || (wait == 0) || ltb_ℤ cfg.max_retry_interval (pos wait)
    then answers it (pick_failed (PickError.cooling_down model wait))
    else if context_ends
    then answers it wait_interrupted
    else again (record it { tried = []; outer = it.outer + 1 })
after_error cfg it context_ends e = answers it (pick_failed e)

-- The turn behind `Pick`.
unfoldable pub after_pick : Config → Iter → (Account → Account) → Bool → Outcome → IterTurn
unfolding after_error acquire
after_pick cfg it at_acquire context_ends (Outcome.picked a) =
    let (b, ok) = acquire (at_acquire a) in
    if ok then answers (record it { tried = a.id ∷ it.tried }) (got b) else again it
after_pick cfg it at_acquire context_ends (Outcome.failed e) = after_error cfg it context_ends e

-- Behind a turn: its answer, or the rest of the loop.
unfoldable pub proceed :
    IterTurn
    → Scheduler
    → (Iter → Scheduler → Iter × Scheduler × PickAnswer)
    → Iter × Scheduler × PickAnswer
proceed (answers it answer) s rest = (it, s, answer)
proceed (again it) s rest = rest it s

module _ (is_expired : ℕ → Text → Bool) (w : World) (cfg : Config) where
  -- The body of the loop of `Next` in the turn `t`.
  unfoldable pub one_turn : ℕ → Iter → Scheduler → Scheduler × IterTurn
  unfolding is_exhausted request_of after_pick
  one_turn t it s =
      let (s', looked, outcome) = pick is_expired s (w.accounts t) (request_of it) (w.now t) in
      if is_exhausted cfg it
      then (s, answers it credentials_exhausted)
      else (s', after_pick cfg it (w.at_acquire t) (w.context_ends t) outcome)

  -- `Next` from the turn `t`, for as many turns as are left.
  unfoldable pub next_loop : ℕ → ℕ → Iter → Scheduler → Iter × Scheduler × PickAnswer
  unfolding one_turn proceed
  next_loop zero t it s = (it, s, out_of_fuel)
  next_loop (suc k) t it s =
      let (s', turn) = one_turn t it s in proceed turn s' (λ i r. next_loop k (t + 1) i r)

-- The jitter of `jitteredCooldownWait`: the range from which it draws, none when there is none.
abbrev pub wait_jitter_cap : ℕ
wait_jitter_cap = 2 * second

-- `jitteredCooldownWait`; `rand` is what `rand.N` draws.
unfoldable pub jittered_cooldown_wait : (ℕ → ℕ) → ℕ → ℕ → ℕ
jittered_cooldown_wait rand wait max_wait =
    let quarter = wait / 4 in
    let capped = if ltb wait_jitter_cap quarter then wait_jitter_cap else quarter in
    let range =
      if ltb 0 max_wait && ltb (max_wait - wait) capped then max_wait - wait else capped in
    if wait == 0 || range == 0 then wait else wait + rand range
