-- ===== src/Api/Iter/Tries.antt =====
-- The accounts that a request tries.
use chatgpt_prism2api.Base.{
  ℕ, zero, suc, ◌+◌, ◌≡◌, ◌⊎◌, Bool, true, false, not, ◌&&◌, ◌||◌, ◌==◌, [], ◌∷◌, arith, ltb,
  if◌then◌else◌, length, Bool-cases, inl, inr,
}
use chatgpt_prism2api.Base.Int.{ℤ, pos, negsuc, ltb_ℤ, ◌≤ℤ◌}
use chatgpt_prism2api.Base.Text.{Text}
use chatgpt_prism2api.GroupNames.{has_name}
use chatgpt_prism2api.GroupNames.Laws.{NoRepeat}
use chatgpt_prism2api.Account.State.{Account}
use chatgpt_prism2api.Account.Slots.{acquire}
use chatgpt_prism2api.Scheduler.Config.{Config, credential_limit}
use chatgpt_prism2api.Scheduler.Unavailable.{PickError}
use chatgpt_prism2api.Scheduler.Pick.{Scheduler, Request, Outcome, pick}
use chatgpt_prism2api.Scheduler.Pick.Fit.{IsFit, pick-IsFit}
use chatgpt_prism2api.Scheduler.Pick.Members.{OfOutcome}
use chatgpt_prism2api.Api.Iter.{
  Iter, World, PickAnswer, IterTurn, request_of, is_exhausted, after_error, after_pick, proceed,
  one_turn, next_loop, may_not_wait,
}

-- No account stands twice among the tried ones, and there are no more than the configuration allows.
pub record IsThrifty (cfg : Config) (it : Iter) : Type 0 where
  pub distinct : NoRepeat it.tried
  pub few :
      (ltb_ℤ (pos 0) (credential_limit cfg) ≡ false)
      ⊎ (pos (length it.tried) ≤ℤ credential_limit cfg)

abbrev OfTurn : (Iter → Type 0) → IterTurn → Type 0
OfTurn P (IterTurn.answers i a) = P i
OfTurn P (IterTurn.again i) = P i

room_left :
    (cfg : Config) (it : Iter)
    → is_exhausted cfg it ≡ false
    → (ltb_ℤ (pos 0) (credential_limit cfg) ≡ false)
      ⊎ (pos (suc (length it.tried)) ≤ℤ credential_limit cfg)
unfolding is_exhausted
room_left cfg it h = by_limit (credential_limit cfg) h
  where
    by_limit :
        (limit : ℤ)
        → ltb_ℤ (pos 0) limit && not (ltb_ℤ (pos (length it.tried)) limit) ≡ false
        → (ltb_ℤ (pos 0) limit ≡ false) ⊎ (pos (suc (length it.tried)) ≤ℤ limit)
    by_limit (pos n) h = elim (Bool-cases (ltb 0 n)) [
      | inl q ↦ inr (ground arith)
      | inr q ↦ inl (ground arith)
    ]
    by_limit (negsuc n) h = inl (ground arith)

limit-NonNegative : (cfg : Config) → pos 0 ≤ℤ credential_limit cfg
unfolding credential_limit
limit-NonNegative cfg = by_setting cfg.max_retry_credentials
  where
    by_setting : (n : ℤ) → pos 0 ≤ℤ (if ltb_ℤ (pos 0) n then n else pos 0)
    by_setting (pos n) = ground arith
    by_setting (negsuc n) = ground arith

after_error-IsThrifty :
    (cfg : Config) (it : Iter) (ends : Bool) (e : PickError)
    → IsThrifty cfg it
    → OfTurn (IsThrifty cfg) (after_error cfg it ends e)
unfolding after_error
after_error-IsThrifty cfg it ends (PickError.no_auth_available m) h = h
after_error-IsThrifty cfg it ends PickError.no_available_accounts h = h
after_error-IsThrifty cfg it ends (PickError.cooling_down m wait) h =
    rest (may_not_wait cfg it || (wait == 0) || ltb_ℤ cfg.max_retry_interval (pos wait)) ends
  where
    rest :
        (b c : Bool)
        → OfTurn (IsThrifty cfg) (
            if b
            then IterTurn.answers it (PickAnswer.pick_failed (PickError.cooling_down m wait))
            else if c
            then IterTurn.answers it PickAnswer.wait_interrupted
            else IterTurn.again (record it { tried = []; outer = it.outer + 1 }))
    rest true c = h
    rest false true = h
    rest false false = record { distinct = tt; few = inr (limit-NonNegative cfg) }

after_pick-IsThrifty :
    (cfg : Config) (it : Iter) (at : Account → Account) (ends : Bool) (o : Outcome)
    → IsThrifty cfg it
    → is_exhausted cfg it ≡ false
    → OfOutcome (λ a. has_name a.id it.tried ≡ false) o
    → OfTurn (IsThrifty cfg) (after_pick cfg it at ends o)
unfolding after_pick
after_pick-IsThrifty cfg it at ends (Outcome.failed e) h x u = after_error-IsThrifty cfg it ends e h
after_pick-IsThrifty cfg it at ends (Outcome.picked a) h x u = taken (acquire (at a)).1
  where
    taken :
        (ok : Bool)
        → OfTurn (IsThrifty cfg) (
            if ok
            then IterTurn.answers
                (record it { tried = a.id ∷ it.tried })
                (PickAnswer.got (acquire (at a)).0)
            else IterTurn.again it)
    taken true = record { distinct = (u, h.distinct); few = room_left cfg it x }
    taken false = h

untried_outcome :
    (is_expired : ℕ → Text → Bool) (req : Request) (now : ℕ) (o : Outcome)
    → OfOutcome (IsFit is_expired req now) o
    → OfOutcome (λ a. has_name a.id req.tried ≡ false) o
untried_outcome is_expired req now (Outcome.picked a) f = f.untried
untried_outcome is_expired req now (Outcome.failed e) f = tt

proceed-IsThrifty :
    (cfg : Config) (rest : Iter → Scheduler → Iter × Scheduler × PickAnswer) (s : Scheduler)
    (turn : IterTurn)
    → ((i : Iter) (r : Scheduler) → IsThrifty cfg i → IsThrifty cfg (rest i r).0)
    → OfTurn (IsThrifty cfg) turn
    → IsThrifty cfg (proceed turn s rest).0
unfolding proceed
proceed-IsThrifty cfg rest s (IterTurn.answers i a) f h = h
proceed-IsThrifty cfg rest s (IterTurn.again i) f h = f i s h

module _ (is_expired : ℕ → Text → Bool) (w : World) (cfg : Config) where
  one_turn-IsThrifty :
      (t : ℕ) (it : Iter) (s : Scheduler)
      → IsThrifty cfg it
      → OfTurn (IsThrifty cfg) (one_turn is_expired w cfg t it s).1
  unfolding one_turn request_of
  one_turn-IsThrifty t it s h =
      let o = pick is_expired s (w.accounts t) (request_of it) (w.now t) in
      elim (Bool-cases (is_exhausted cfg it)) [
        | inl q ↦ rw q h
        | inr q ↦ rw q (
            after_pick-IsThrifty cfg it (w.at_acquire t) (w.context_ends t) o.2 h q (
              untried_outcome is_expired (request_of it) (w.now t) o.2
                (pick-IsFit is_expired s (w.accounts t) (request_of it) (w.now t))))
      ]

  -- Asking for an account keeps the tried ones distinct and no more than the configuration allows, whatever
  -- happens around the request.
  pub next_loop-IsThrifty :
      (k t : ℕ) (it : Iter) (s : Scheduler)
      → IsThrifty cfg it
      → IsThrifty cfg (next_loop is_expired w cfg k t it s).0
  unfolding next_loop
  next_loop-IsThrifty zero t it s h = h
  next_loop-IsThrifty (suc k) t it s h =
      let (s', turn) = one_turn is_expired w cfg t it s in
      proceed-IsThrifty cfg (λ i r. next_loop is_expired w cfg k (t + 1) i r) s' turn
        (λ i r g. next_loop-IsThrifty k (t + 1) i r g) (one_turn-IsThrifty t it s h)
