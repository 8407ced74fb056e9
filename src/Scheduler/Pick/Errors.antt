-- ===== src/Scheduler/Pick/Errors.antt =====
-- Without cooldowns a pick has one error.
use chatgpt_prism2api.Base.{
  ℕ, ◌≡◌, refl, Bool, false, Option, none, some, List, [], ◌∷◌, arith, All,
}
use chatgpt_prism2api.Base.Int.{pos}
use chatgpt_prism2api.Base.Text.{Text}
use chatgpt_prism2api.Base.Dict.{text_key}
use chatgpt_prism2api.Account.State.{Account}
use chatgpt_prism2api.Account.Marks.Cooldown.{NoCooldown}
use chatgpt_prism2api.Account.Ready.Conditions.{NoCooldown-ready}
use chatgpt_prism2api.Scheduler.Pick.{
  Scheduler, Request, Outcome, picked, failed, pick, pick_among, finish,
}
use chatgpt_prism2api.Scheduler.Unavailable.{no_available_accounts, count_cooling, unavailable_from}
use chatgpt_prism2api.Scheduler.Pick.Fit.{collect_ready-NoCooldown}

count_cooling-NoCooldown :
    (model : Text) (now count earliest : ℕ) (accounts : List Account)
    → All NoCooldown accounts
    → count_cooling model now count earliest accounts ≡ (count, earliest)
unfolding count_cooling
count_cooling-NoCooldown model now count earliest [] h = refl
count_cooling-NoCooldown model now count earliest (a ∷ more) h = ground (
  arith,
  NoCooldown-ready (λ t x. false) a model now (pos 0) (pos 0) h.0,
  count_cooling-NoCooldown model now count earliest more h.1,
)

unavailable_from-NoCooldown :
    (accounts : List Account) (model : Text) (now : ℕ)
    → All NoCooldown accounts
    → unavailable_from accounts model now ≡ no_available_accounts
unfolding unavailable_from
unavailable_from-NoCooldown accounts model now h =
    rw (count_cooling-NoCooldown model now 0 0 accounts h)

-- The error of an outcome is the plain one.
abbrev pub IsPlain : Outcome → Type 0
IsPlain (picked a) = Unit
IsPlain (failed e) = e ≡ no_available_accounts

finish-IsPlain :
    (s : Scheduler) (accounts : List Account) (req : Request) (now : ℕ) (o : Option Account)
    → All NoCooldown accounts
    → IsPlain (finish s accounts req now o).1
unfolding finish
finish-IsPlain s accounts req now none h = unavailable_from-NoCooldown accounts req.model now h
finish-IsPlain s accounts req now (some a) h = tt

pick_among-IsPlain :
    (s : Scheduler) (accounts : List Account) (req : Request) (now : ℕ) (candidates : List Account)
    → All NoCooldown accounts
    → IsPlain (pick_among s accounts req now candidates).1
unfolding pick_among
pick_among-IsPlain s accounts req now [] h = unavailable_from-NoCooldown accounts req.model now h
pick_among-IsPlain s accounts req now (c ∷ cs) h = finish-IsPlain _ accounts req now _ h

-- Over accounts without a cooldown, as all are that only their own operations changed, a pick never fails
-- with a cooldown to wait for: its error is always the plain one.
pub pick-IsPlain :
    (is_expired : ℕ → Text → Bool) (s : Scheduler) (accounts : List Account) (req : Request)
    (now : ℕ)
    → All NoCooldown accounts
    → IsPlain (pick is_expired s accounts req now).2
unfolding pick
pick-IsPlain is_expired s accounts req now h =
    pick_among-IsPlain s _ req now _
      (collect_ready-NoCooldown is_expired req s.cfg now s.limits accounts h)
