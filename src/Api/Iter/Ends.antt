-- ===== src/Api/Iter/Ends.antt =====
-- The loop that asks for an account ends.
use chatgpt_prism2api.Base.{
  ℕ, zero, suc, ◌+◌, ◌-◌, ◌<◌, ◌≤◌, ◌≡◌, ◌≢◌, Bool, true, false, not, ◌||◌, ◌==◌, [], arith,
  if◌then◌else◌, Bool-cases, inl, inr,
}
use chatgpt_prism2api.Base.Int.{ℤ, pos, negsuc, ltb_ℤ, pos_part}
use chatgpt_prism2api.Base.Text.{Text}
use chatgpt_prism2api.Account.State.{Account}
use chatgpt_prism2api.Account.Slots.{full, acquire}
use chatgpt_prism2api.Scheduler.Config.{Config}
use chatgpt_prism2api.Scheduler.Unavailable.{PickError}
use chatgpt_prism2api.Scheduler.Pick.{Scheduler, Request, Outcome, pick}
use chatgpt_prism2api.Scheduler.Pick.Fit.{IsFit, pick-IsFit}
use chatgpt_prism2api.Scheduler.Pick.Members.{OfOutcome}
use chatgpt_prism2api.Api.Iter.{
  Iter, World, PickAnswer, IterTurn, request_of, is_exhausted, after_error, after_pick, proceed,
  one_turn, next_loop, may_not_wait,
}

-- Nobody else takes the last slot of an account between the pick and the acquisition.
abbrev pub IsUndisturbed : World → Type 0
IsUndisturbed w = (t : ℕ) (a : Account) → full a ≡ false → full (w.at_acquire t a) ≡ false

-- The cooldowns that an iterator may still wait for.
unfoldable pub waits_left : Config → Iter → ℕ
waits_left cfg it = pos_part cfg.request_retry - it.outer

-- A turn that goes on has used one of the waits.
abbrev Uses : Config → Iter → IterTurn → Type 0
Uses cfg it (IterTurn.answers i a) = a ≢ PickAnswer.out_of_fuel
Uses cfg it (IterTurn.again i) = waits_left cfg i + 1 ≤ waits_left cfg it

waits_used :
    (r : ℤ) (outer : ℕ) (b : Bool)
    → not (ltb_ℤ (pos outer) r) || b ≡ false
    → (pos_part r - (outer + 1)) + 1 ≤ pos_part r - outer
waits_used (pos n) outer b h = ground arith
waits_used (negsuc n) outer b h = ground arith

after_error-Uses :
    (cfg : Config) (it : Iter) (ends : Bool) (e : PickError)
    → Uses cfg it (after_error cfg it ends e)
unfolding after_error waits_left
after_error-Uses cfg it ends (PickError.no_auth_available m) = λ e. cc
after_error-Uses cfg it ends PickError.no_available_accounts = λ e. cc
after_error-Uses cfg it ends (PickError.cooling_down m wait) =
    elim (Bool-cases (may_not_wait cfg it)) [
      | inl q ↦ rw q (λ e. cc)
      | inr q ↦ rw q (
          rest (wait == 0 || ltb_ℤ cfg.max_retry_interval (pos wait)) ends
            (waits_used cfg.request_retry it.outer _ q))
    ]
  where
    rest :
        (b c : Bool)
        → (pos_part cfg.request_retry - (it.outer + 1)) + 1 ≤ pos_part cfg.request_retry - it.outer
        → Uses cfg it (
            if b
            then IterTurn.answers it (PickAnswer.pick_failed (PickError.cooling_down m wait))
            else if c
            then IterTurn.answers it PickAnswer.wait_interrupted
            else IterTurn.again (record it { tried = []; outer = it.outer + 1 }))
    rest true c l = λ e. cc
    rest false true l = λ e. cc
    rest false false l = l

after_pick-Uses :
    (cfg : Config) (it : Iter) (at : Account → Account) (ends : Bool) (o : Outcome)
    → ((a : Account) → full a ≡ false → full (at a) ≡ false)
    → OfOutcome (λ a. full a ≡ false) o
    → Uses cfg it (after_pick cfg it at ends o)
unfolding after_pick acquire
after_pick-Uses cfg it at ends (Outcome.picked a) free f = rw (free a f) (λ e. cc)
after_pick-Uses cfg it at ends (Outcome.failed e) free f = after_error-Uses cfg it ends e

free_outcome :
    (is_expired : ℕ → Text → Bool) (req : Request) (now : ℕ) (o : Outcome)
    → OfOutcome (IsFit is_expired req now) o
    → OfOutcome (λ a. full a ≡ false) o
free_outcome is_expired req now (Outcome.picked a) f = f.free
free_outcome is_expired req now (Outcome.failed e) f = tt

proceed-ends :
    (cfg : Config) (it : Iter) (k : ℕ) (rest : Iter → Scheduler → Iter × Scheduler × PickAnswer)
    (s : Scheduler) (turn : IterTurn)
    → ((i : Iter) (r : Scheduler) → waits_left cfg i < k → (rest i r).2 ≢ PickAnswer.out_of_fuel)
    → waits_left cfg it ≤ k
    → Uses cfg it turn
    → (proceed turn s rest).2 ≢ PickAnswer.out_of_fuel
unfolding proceed
proceed-ends cfg it k rest s (IterTurn.answers i a) f l u = u
proceed-ends cfg it k rest s (IterTurn.again i) f l u = f i s (omega arith)

module _ (is_expired : ℕ → Text → Bool) (w : World) (cfg : Config) where
  one_turn-Uses :
      IsUndisturbed w
      → (t : ℕ) (it : Iter) (s : Scheduler) → Uses cfg it (one_turn is_expired w cfg t it s).1
  unfolding one_turn
  one_turn-Uses free t it s =
      let o = pick is_expired s (w.accounts t) (request_of it) (w.now t) in
      elim (Bool-cases (is_exhausted cfg it)) [
        | inl q ↦ rw q (λ e. cc)
        | inr q ↦ rw q (
            after_pick-Uses cfg it (w.at_acquire t) (w.context_ends t) o.2 (free t) (
              free_outcome is_expired (request_of it) (w.now t) o.2
                (pick-IsFit is_expired s (w.accounts t) (request_of it) (w.now t))))
      ]

  -- A request that asks for an account gets an answer, after at most one turn more than the waits that its
  -- configuration leaves it, when nobody else takes the last slot between a pick and its acquisition.
  pub next_loop_ends :
      IsUndisturbed w
      → (k t : ℕ) (it : Iter) (s : Scheduler) → waits_left cfg it < k
      → (next_loop is_expired w cfg k t it s).2 ≢ PickAnswer.out_of_fuel
  unfolding next_loop
  next_loop_ends free zero t it s l = absurd (omega arith)
  next_loop_ends free (suc k) t it s l =
      let (s', turn) = one_turn is_expired w cfg t it s in
      proceed-ends cfg it k (λ i r. next_loop is_expired w cfg k (t + 1) i r) s' turn
        (λ i r h. next_loop_ends free k (t + 1) i r h) (omega arith) (one_turn-Uses free t it s)
