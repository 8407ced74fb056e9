-- ===== src/Examples/Accounts.antt =====
-- Runs on one account: its window, its slots, its readiness.
use chatgpt_prism2api.Base.{
  ◌*◌, ◌≡◌, ◌≤◌, refl, true, false, some, [], ◌∷◌, ◌++◌, arith, length, select, All,
}
use chatgpt_prism2api.Base.Int.{pos}
use chatgpt_prism2api.Base.Text.{codes}
use chatgpt_prism2api.FailClass.{second}
use chatgpt_prism2api.Account.State.{new_account}
use chatgpt_prism2api.Account.Limits.{drop_old, prune_uses, effective_limits, record_use_locked}
use chatgpt_prism2api.Account.Limits.Window.{IsSorted, recent, record_use_window}
use chatgpt_prism2api.Account.Slots.{acquire, degrade_concurrency, full}
use chatgpt_prism2api.Account.Slots.Bounds.{
  enter, leave, slow, run, IsWithin, run-IsWithin, degrade_lifts_limit,
}
use chatgpt_prism2api.Account.Ready.{holds_token, ready_with_limits, next_retry_at}
use chatgpt_prism2api.Account.Ready.Conditions.{Reach-ready, ready_sound, exceeds}
use chatgpt_prism2api.Account.Marks.Cooldown.{here, next, used, acquired}
use chatgpt_prism2api.Account.Marks.{record_use}
use chatgpt_prism2api.Examples.{ann, is_late}

record_use_window_example :
    ((record_use_locked
        (record ann { use_times = 5 * second ∷ 60 * second ∷ [] })
        (70 * second)).use_times
      ≡ select (recent (70 * second)) (5 * second ∷ 60 * second ∷ []) ++ 70 * second ∷ [])
    × IsSorted
        (record_use_locked
          (record ann { use_times = 5 * second ∷ 60 * second ∷ [] })
          (70 * second)).use_times
    × All
        (λ u. u ≤ 70 * second)
        (record_use_locked
          (record ann { use_times = 5 * second ∷ 60 * second ∷ [] })
          (70 * second)).use_times
record_use_window_example =
    record_use_window (record ann { use_times = 5 * second ∷ 60 * second ∷ [] }) (70 * second)
      ((omega arith, tt), (tt, tt)) (omega arith, (omega arith, tt))

-- Two requests enter, one is answered 429, a third one comes, and two leave.
run-IsWithin_example : IsWithin 2 1 (run ann (enter ∷ enter ∷ slow ∷ enter ∷ leave ∷ leave ∷ []))
unfolding new_account
run-IsWithin_example =
    run-IsWithin 2 1 ann (enter ∷ enter ∷ slow ∷ enter ∷ leave ∷ leave ∷ []) (record {
      limits = refl;
      ordered = omega arith;
      positive = omega arith;
      bounded = omega arith;
    })

-- A base limit of one that is reached, and 0 for the degraded limit.
degrade_lifts_limit_example :
    (acquire
      (degrade_concurrency (record ann { inflight = 1; concurrency = some (pos 1, pos 0) }))).1
    ≡ true
degrade_lifts_limit_example =
    degrade_lifts_limit (record ann { inflight = 1; concurrency = some (pos 1, pos 0) }) (pos 1)
      refl

-- `ann` with one use of two, ready for another one at the time 50.
ready_sound_example :
    let a = record ann { use_times = 10 ∷ [] } in
    let p = (ready_with_limits is_late a [] 50 false (pos 0) (pos 9)).0 in
    let used = record_use_locked p 50 in
    (a.enabled ≡ true)
    × (holds_token (is_late 50) a.tokens ≡ true)
    × (exceeds (length used.use_times) (effective_limits p (pos 0) (pos 9)).0 ≡ false)
    × (exceeds used.daily_count (effective_limits p (pos 0) (pos 9)).1 ≡ false)
    × (exceeds (length used.use_times) a.rpm ≡ false)
    × (exceeds used.daily_count a.daily_max ≡ false)
    × (full a ≡ false)
unfolding new_account ready_with_limits prune_uses drop_old effective_limits
ready_sound_example =
    ready_sound is_late (record ann { use_times = 10 ∷ [] }) [] 50 false (pos 0) (pos 9) refl

Reach-ready_example :
    (next_retry_at (record_use (acquire (new_account (codes "ann") (codes "A"))).0 7) (codes "m") 8
      ≡ 0)
    × (ready_with_limits is_late
          (record_use (acquire (new_account (codes "ann") (codes "A"))).0 7)
          (codes "m")
          8
          false
          (pos 0)
          (pos 0)
        ≡ ready_with_limits is_late
            (record_use (acquire (new_account (codes "ann") (codes "A"))).0 7)
            (codes "m")
            8
            true
            (pos 0)
            (pos 0))
Reach-ready_example =
    Reach-ready is_late (codes "ann") (codes "A")
      (record_use (acquire (new_account (codes "ann") (codes "A"))).0 7) (codes "m") 8 (pos 0)
      (pos 0)
      (next (next here (acquired (new_account (codes "ann") (codes "A"))))
        (used (acquire (new_account (codes "ann") (codes "A"))).0 7))
