-- ===== src/Tasks/Slots.antt =====
-- internal/tasks/runner.go: the slots that bound how many tasks run at once.
-- A goroutine that waits for a slot is the identifier of its task in the queue of waiters; the closing
-- of its channel answers that identifier.
pub mod Semaphore
use chatgpt_prism2api.Base.{
  ℕ, ◌+◌, ◌-◌, Bool, true, false, Option, none, some, List, [], ◌∷◌, ◌++◌, ltb, if◌then◌else◌,
}
use chatgpt_prism2api.Base.Int.{ℤ, pos, negsuc}
use chatgpt_prism2api.Base.Text.{Text}

-- The fields of `Runner` that count; `max` is the atomic one.
pub record Slots : Type 0 where
  pub max : ℕ
  pub active : ℕ
  pub waiters : List Text

-- `SetConcurrency`: from 1 to 64.
unfoldable pub clamp_concurrency : ℤ → ℕ
clamp_concurrency (negsuc n) = 1
clamp_concurrency (pos n) = if ltb n 1 then 1 else if ltb 64 n then 64 else n

unfoldable pub set_max : Slots → ℤ → Slots
unfolding clamp_concurrency
set_max r n = record r { max = clamp_concurrency n }

-- `NewRunner`.
unfoldable pub new_slots : ℤ → Slots
unfolding set_max
new_slots n = set_max (record { max = 0; active = 0; waiters = [] }) n

-- `Concurrency`.
unfoldable pub concurrency_of : Slots → ℕ
concurrency_of r = if ltb r.max 1 then 4 else r.max

-- `acquire` up to its wait: whether the slot is taken at once.
unfoldable pub acquire_slot : Slots → Text → Slots × Bool
unfolding concurrency_of
acquire_slot r id =
    if ltb r.active (concurrency_of r)
    then (record r { active = r.active + 1 }, true)
    else (record r { waiters = r.waiters ++ id ∷ [] }, false)

-- `release` on the waiters: a slot goes to the first waiter, if there is one.
unfoldable pub hand_over : Slots → List Text → Slots × Option Text
hand_over r [] = (if ltb 0 r.active then record r { active = r.active - 1 } else r, none)
hand_over r (id ∷ ids) = (record r { waiters = ids }, some id)

-- `release`: the waiter that it wakes.
unfoldable pub release_slot : Slots → Slots × Option Text
unfolding hand_over
release_slot r = hand_over r r.waiters
