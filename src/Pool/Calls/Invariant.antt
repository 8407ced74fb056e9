-- ===== src/Pool/Calls/Invariant.antt =====
-- The pool stays sound through any sequence of calls.
use chatgpt_prism2api.Base.{
  ℕ, ◌≡◌, refl, Bool, Option, none, some, List, [], ◌∷◌, Bool-cases, inl, inr, arith,
}
use chatgpt_prism2api.Base.Int.{ℤ}
use chatgpt_prism2api.Base.Text.{Text}
use chatgpt_prism2api.Base.Dict.{lookup, nat_eq}
use chatgpt_prism2api.FailClass.{Result}
use chatgpt_prism2api.Account.State.{
  Account, Token, set_groups, set_rpm, set_weight, set_daily_max, rename_group,
}
use chatgpt_prism2api.Account.Limits.{over_limit, prune_uses, record_use_locked}
use chatgpt_prism2api.Account.Marks.{
  mark_failure, mark_success, count_failure, disable_by_quota, degrade_by_rate_limit,
  revoke_by_auth, rate_limit_if_over, apply_class_cooldown, clear_cooldown, record_use,
}
use chatgpt_prism2api.Pool.Member.{AdminPatch, apply_admin_patch, patch_account}
use chatgpt_prism2api.Pool.Document.{Nonces}
use chatgpt_prism2api.Pool.State.{State, get_account, update, with_concurrency}
use chatgpt_prism2api.Pool.Calls.{
  on_account, add_api_key, set_token_of, set_groups_of, set_rpm_of, update_named, update_handle,
  renames, rename_each, rename_group_everywhere, remove, flush, next, connect_each,
  set_concurrency_resolver,
}
use chatgpt_prism2api.Pool.Calls.Sound.{IsSound}
use chatgpt_prism2api.Pool.Calls.Preserve.{
  update-IsSound, remove-IsSound, flush-IsSound, next-IsSound, change-IsSound,
}
use chatgpt_prism2api.Pool.Calls.Enter.{add_api_key-IsSound, set_token_of-IsSound, concurrency_name}

-- The calls on the pool, and the ends of requests and patches on its objects.
pub data PoolCall : Type 0 where
  adds_key : Text → Text → Text → Nonces → Bool → PoolCall
  sets_token : Text → Option Token → Text → Nonces → Bool → PoolCall
  sets_groups : Text → List Text → PoolCall
  sets_rpm : Text → ℤ → PoolCall
  renames_group : Text → Text → PoolCall
  removes : Text → Bool → PoolCall
  flushes : (ℕ → Nonces) → (ℕ → Bool) → PoolCall
  picks : ℕ → PoolCall
  connects : ℤ × ℤ → PoolCall
  patches : ℕ → AdminPatch → PoolCall
  fails : ℕ → Result → ℕ → PoolCall
  succeeds : ℕ → ℕ → PoolCall

mark_failure_name : (a : Account) (res : Result) (now : ℕ) → (mark_failure a res now).name ≡ a.name
unfolding mark_failure count_failure disable_by_quota degrade_by_rate_limit revoke_by_auth
    rate_limit_if_over record_use_locked over_limit prune_uses apply_class_cooldown
mark_failure_name a res now = ground arith

mark_success_name : (a : Account) (now : ℕ) → (mark_success a now).name ≡ a.name
unfolding mark_success clear_cooldown record_use rate_limit_if_over record_use_locked over_limit
    prune_uses apply_class_cooldown
mark_success_name a now = ground arith

patch_account_name : (a : Account) (p : AdminPatch) → (patch_account a p).name ≡ a.name
unfolding patch_account set_weight set_rpm set_daily_max set_groups
patch_account_name a p = ground arith

module _ {F : Type 0} (encrypt : Text → ℕ → Text → Text) (key : Text)
    (is_expired : ℕ → Text → Bool) where
  unfoldable pub run_call : State F → PoolCall → State F
  run_call y (adds_key name api_key uuid n ok) =
      (add_api_key encrypt key y name api_key uuid n ok).0
  run_call y (sets_token name tok uuid n ok) = (set_token_of encrypt key y name tok uuid n ok).0
  run_call y (sets_groups name groups) = (set_groups_of y name groups).0
  run_call y (sets_rpm name rpm) = (set_rpm_of y name rpm).0
  run_call y (renames_group old new) = rename_group_everywhere y old new
  run_call y (removes name ok) = (remove y name ok).0
  run_call y (flushes n ok) = flush encrypt key y n ok
  run_call y (picks now) = (next is_expired y now).0
  run_call y (connects c) = set_concurrency_resolver y c
  run_call y (patches h p) = update y h (λ m. apply_admin_patch m p)
  run_call y (fails h res now) = update y h (on_account (λ a. mark_failure a res now))
  run_call y (succeeds h now) = update y h (on_account (λ a. mark_success a now))

  unfoldable pub run_calls : State F → List PoolCall → State F
  unfolding run_call
  run_calls y [] = y
  run_calls y (c ∷ cs) = run_calls (run_call y c) cs

  found_IsSound :
      (y : State F) (o : Option ℕ) (f : Account → Account)
      → ((a : Account) → (f a).name ≡ a.name)
      → IsSound y
      → IsSound (update_handle y o f).0
  found_IsSound y none f k s = s
  found_IsSound y (some h) f k s = update-IsSound y h (on_account f) (λ m. k m.account) s

  rename_each-IsSound :
      (old new : Text) (hs : List ℕ) (y : State F) → IsSound y → IsSound (rename_each old new hs y)
  unfolding rename_each rename_group
  rename_each-IsSound old new [] y s = s
  rename_each-IsSound old new (h ∷ hs) y s =
      let f : Account → Account = λ a. rename_group a old new in
      elim (Bool-cases (renames old new (lookup h y.heap))) [
        | inl q ↦ rw q (
            rename_each-IsSound old new hs (update y h (on_account f))
              (update-IsSound y h (on_account f) (λ m. refl) s))
        | inr q ↦ rw q (rename_each-IsSound old new hs y s)
      ]

  connect_each-IsSound :
      (c : ℤ × ℤ) (hs : List ℕ) (y : State F) → IsSound y → IsSound (connect_each c hs y)
  unfolding connect_each
  connect_each-IsSound c [] y s = s
  connect_each-IsSound c (h ∷ hs) y s =
      connect_each-IsSound c hs _
        (change-IsSound y h (with_concurrency (some c)) (concurrency_name (some c)) s)

  run_call-IsSound : (y : State F) (c : PoolCall) → IsSound y → IsSound (run_call y c)
  unfolding run_call set_groups_of set_rpm_of update_named set_groups set_rpm
      rename_group_everywhere set_concurrency_resolver apply_admin_patch
  run_call-IsSound y (adds_key name api_key uuid n ok) s =
      add_api_key-IsSound encrypt key y name api_key uuid n ok s
  run_call-IsSound y (sets_token name tok uuid n ok) s =
      set_token_of-IsSound encrypt key y name tok uuid n ok s
  run_call-IsSound y (sets_groups name groups) s =
      found_IsSound y (get_account y name) (λ a. set_groups a groups) (λ a. refl) s
  run_call-IsSound y (sets_rpm name rpm) s =
      found_IsSound y (get_account y name) (λ a. set_rpm a rpm) (λ a. refl) s
  run_call-IsSound y (renames_group old new) s = rename_each-IsSound old new y.accounts y s
  run_call-IsSound y (removes name ok) s = remove-IsSound y name ok s
  run_call-IsSound y (flushes n ok) s = flush-IsSound encrypt key y n ok s
  run_call-IsSound y (picks now) s = next-IsSound is_expired y now s
  run_call-IsSound y (connects c) s =
      connect_each-IsSound c y.accounts (record y { concurrency = some c })
        record {
          distinct = s.distinct;
          known = s.known;
          once = s.once;
          waiting = s.waiting;
          below = s.below;
        }
  run_call-IsSound y (patches h p) s =
      update-IsSound y h (λ m. apply_admin_patch m p) (λ m. patch_account_name m.account p) s
  run_call-IsSound y (fails h res now) s =
      update-IsSound y h (on_account (λ a. mark_failure a res now))
        (λ m. mark_failure_name m.account res now) s
  run_call-IsSound y (succeeds h now) s =
      update-IsSound y h (on_account (λ a. mark_success a now))
        (λ m. mark_success_name m.account now) s

  -- Any sequence of additions, logins, settings, renamings, removals, flushes, round-robin picks, patches and
  -- ends of requests, on a pool where each name has one account and each waiting object waits once under
  -- its own name, leaves such a pool.
  pub run_calls-IsSound : (y : State F) (cs : List PoolCall) → IsSound y → IsSound (run_calls y cs)
  unfolding run_calls
  run_calls-IsSound y [] s = s
  run_calls-IsSound y (c ∷ cs) s = run_calls-IsSound (run_call y c) cs (run_call-IsSound y c s)
