-- ===== src/Scheduler/Unavailable.antt =====
-- internal/scheduler/error.go, and `unavailableFrom` of pick.go: the errors of a pick.
use chatgpt_prism2api.Base.{
  ℕ, ◌+◌, ◌-◌, Bool, not, ◌&&◌, ◌||◌, List, [], ◌∷◌, ltb, ◌==◌, if◌then◌else◌,
}
use chatgpt_prism2api.Base.Text.{Text}
use chatgpt_prism2api.Account.State.{Account}
use chatgpt_prism2api.Account.Ready.{next_retry_at}

-- The errors of a pick: `UnavailableError` with the time to wait, the same without one, and the plain
-- error of `newUnavailable`.
pub data PickError : Type 0 where
  cooling_down : Text → ℕ → PickError
  no_auth_available : Text → PickError
  no_available_accounts : PickError

-- `newUnavailable`.
unfoldable pub new_unavailable : Text → ℕ → Bool → PickError
new_unavailable model reset_in all_cooling =
    if all_cooling && ltb 0 reset_in
    then cooling_down model reset_in
    else if all_cooling
    then no_auth_available model
    else no_available_accounts

-- The loop of `unavailableFrom`: how many accounts cool down, and the earliest end.
unfoldable pub count_cooling : Text → ℕ → ℕ → ℕ → List Account → ℕ × ℕ
unfolding next_retry_at
count_cooling model now count earliest [] = (count, earliest)
count_cooling model now count earliest (a ∷ more) =
    let next = next_retry_at a model now in
    let waits = a.enabled && not (next == 0) && ltb now next in
    let sooner = (earliest == 0) || ltb next earliest in
    count_cooling model now (if waits then count + 1 else count)
      (if waits && sooner then next else earliest) more

-- `unavailableFrom`. The earliest end lies ahead, so the subtraction does not stop at zero.
unfoldable pub unavailable_from : List Account → Text → ℕ → PickError
unfolding new_unavailable
unavailable_from accounts model now =
    let (count, earliest) = count_cooling model now 0 0 accounts in
    new_unavailable model (if earliest == 0 then 0 else earliest - now) (ltb 0 count)
