-- ===== src/Account/Slots/Bounds.antt =====
-- Slots are taken only below the limit, and every one that is taken can be given back.
use chatgpt_prism2api.Base.{ℕ, ◌+◌, ◌≤◌, ◌<◌, ◌≡◌, ◌⊎◌, true, false, some, List, [], ◌∷◌, arith}
use chatgpt_prism2api.Base.Int.{ℤ, pos}
use chatgpt_prism2api.Account.State.{Account}
use chatgpt_prism2api.Account.Slots.{acquire, release, concurrency_limit, degrade_concurrency}

-- A slot is refused exactly when a positive limit is reached. A refusal changes nothing; otherwise one
-- more request is in flight, still within a positive limit.
pub acquire_lem :
    (a : Account) (n : ℕ)
    → concurrency_limit a ≡ pos n
    → (0 < n → n ≤ a.inflight → acquire a ≡ (a, false))
      × ((n ≡ 0) ⊎ (a.inflight < n)
          → (acquire a ≡ (record a { inflight = a.inflight + 1 }, true))
            × (0 < n → (acquire a).0.inflight ≤ n))
unfolding acquire
acquire_lem a n e = (λ p h. ground arith, λ h. (ground arith, ground arith))

-- Giving back a slot just taken restores the account.
pub release-acquire : (a : Account) → (acquire a).1 ≡ true → release (acquire a).0 ≡ a
unfolding acquire release
release-acquire a h = ground arith

-- What the requests of one account do, in the order in which they take the mutex: take a slot, give
-- one back, or fail with a rate limit.
pub data Call : Type 0 where
  enter leave slow : Call

pub run : Account → List Call → Account
run a [] = a
run a (enter ∷ cs) = run (acquire a).0 cs
run a (leave ∷ cs) = run (release a) cs
run a (slow ∷ cs) = run (degrade_concurrency a) cs

pub record IsWithin (base low : ℕ) (a : Account) : Type 0 where
  pub limits : a.concurrency ≡ some (pos base, pos low)
  pub ordered : low ≤ base
  pub positive : 0 < low
  pub bounded : a.inflight ≤ base

acquire-IsWithin : (b l : ℕ) (a : Account) → IsWithin b l a → IsWithin b l (acquire a).0
unfolding acquire
acquire-IsWithin b l a v = ground arith

release-IsWithin : (b l : ℕ) (a : Account) → IsWithin b l a → IsWithin b l (release a)
unfolding release
release-IsWithin b l a v = ground arith

degrade-IsWithin : (b l : ℕ) (a : Account) → IsWithin b l a → IsWithin b l (degrade_concurrency a)
unfolding degrade_concurrency
degrade-IsWithin b l a v = ground arith

-- With positive limits, the degraded one not above the base, no sequence of requests has more of them
-- in flight than the base limit.
pub run-IsWithin :
    (b l : ℕ) (a : Account) (cs : List Call) → IsWithin b l a → IsWithin b l (run a cs)
unfolding run
run-IsWithin b l a [] v = v
run-IsWithin b l a (enter ∷ cs) v = run-IsWithin b l (acquire a).0 cs (acquire-IsWithin b l a v)
run-IsWithin b l a (leave ∷ cs) v = run-IsWithin b l (release a) cs (release-IsWithin b l a v)
run-IsWithin b l a (slow ∷ cs) v =
    run-IsWithin b l (degrade_concurrency a) cs (degrade-IsWithin b l a v)

-- A degraded limit of zero lifts the base limit: a degraded account takes every request.
pub degrade_lifts_limit :
    (a : Account) (base : ℤ)
    → a.concurrency ≡ some (base, pos 0)
    → (acquire (degrade_concurrency a)).1 ≡ true
unfolding acquire degrade_concurrency
degrade_lifts_limit a base e = ground arith
