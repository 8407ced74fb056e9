-- ===== src/Api/Iter/Waits.antt =====
-- How long a request sleeps before it asks again.
use chatgpt_prism2api.Base.{ℕ, ◌+◌, ◌-◌, ◌/◌, ◌<◌, ◌≤◌, arith, ltb, ◌&&◌, ◌||◌, ◌==◌, if◌then◌else◌}
use chatgpt_prism2api.Api.Iter.{jittered_cooldown_wait, wait_jitter_cap}

-- The sleep is never shorter than the cooldown, longer by at most a quarter of it and by at most two seconds,
-- and stays within the greatest wait when the cooldown does, for a random source that
-- draws below its bound.
pub jittered_cooldown_wait_bounds :
    (rand : ℕ → ℕ)
    → ((n : ℕ) → 0 < n → rand n < n)
    → (wait max_wait : ℕ)
    → let sleep = jittered_cooldown_wait rand wait max_wait in
      (wait ≤ sleep)
      × (sleep ≤ wait + wait / 4)
      × (sleep ≤ wait + wait_jitter_cap)
      × (wait ≤ max_wait → 0 < max_wait → sleep ≤ max_wait)
unfolding jittered_cooldown_wait
jittered_cooldown_wait_bounds rand below wait max_wait =
    let quarter = wait / 4 in
    let capped = if ltb wait_jitter_cap quarter then wait_jitter_cap else quarter in
    let range =
      if ltb 0 max_wait && ltb (max_wait - wait) capped then max_wait - wait else capped in
    by_range capped range (ground arith) (ground arith) (ground arith) (below range)
  where
    by_range :
        (capped range : ℕ)
        → capped ≤ wait / 4
        → capped ≤ wait_jitter_cap
        → (range ≤ capped) × (0 < max_wait → range ≤ max_wait - wait)
        → (0 < range → rand range < range)
        → let sleep = if wait == 0 || range == 0 then wait else wait + rand range in
          (wait ≤ sleep)
          × (sleep ≤ wait + wait / 4)
          × (sleep ≤ wait + wait_jitter_cap)
          × (wait ≤ max_wait → 0 < max_wait → sleep ≤ max_wait)
    by_range capped range a b c d = ground arith
