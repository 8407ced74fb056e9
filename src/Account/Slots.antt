-- ===== src/Account/Slots.antt =====
-- internal/pool/account.go: the concurrency slots of an account.
pub mod Bounds
use chatgpt_prism2api.Base.{ℕ, ◌+◌, ◌-◌, Bool, true, false, Option, none, some, ltb, if◌then◌else◌}
use chatgpt_prism2api.Base.Int.{ℤ, pos, negsuc}
use chatgpt_prism2api.Account.State.{Account}
use chatgpt_prism2api.Account.Limits.{reaches}

-- An account that is not degraded follows the new base; a degraded one keeps what it has.
abbrev follow_base : Bool → Option (ℤ × ℤ) → ℤ → ℤ
follow_base true fn max_concurrent = max_concurrent
follow_base false none max_concurrent = max_concurrent
follow_base false (some (base, degraded)) max_concurrent = base

-- `SetConcurrencyResolver`; the argument is what the new function returns at present, if it is set.
unfoldable pub set_concurrency : Account → Option (ℤ × ℤ) → Account
set_concurrency a fn = record a {
  concurrency = fn;
  max_concurrent = follow_base a.degraded fn a.max_concurrent;
}

abbrev pub configured : Option (ℤ × ℤ) → ℤ → ℤ × ℤ
configured none max_concurrent = (max_concurrent, pos 0)
configured (some (base, degraded)) max_concurrent = (base, degraded)

-- `concurrencyLimitLocked`.
unfoldable pub concurrency_limit : Account → ℤ
concurrency_limit a =
    let (base, degraded) = configured a.concurrency a.max_concurrent in
    if a.degraded then degraded else base

-- `fullLocked`: a limit of zero or less never fills.
unfoldable pub full : Account → Bool
unfolding concurrency_limit
full a = reaches a.inflight (concurrency_limit a)

-- `Acquire`: the account, and whether a slot was taken.
unfoldable pub acquire : Account → Account × Bool
unfolding full
acquire a = if full a then (a, false) else (record a { inflight = a.inflight + 1 }, true)

-- `Release`.
unfoldable pub release : Account → Account
release a = if ltb 0 a.inflight then record a { inflight = a.inflight - 1 } else a

-- `DegradeConcurrency`.
unfoldable pub degrade_concurrency : Account → Account
degrade_concurrency a = record a { degraded = true }
