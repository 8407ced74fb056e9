-- ===== src/Scheduler/Pick/Fit.antt =====
-- The account that a pick answers is fit for the request.
use chatgpt_prism2api.Base.{
  ℕ, ◌≡◌, refl, ◌∙◌, sym, subst, Bool, true, false, ◌||◌, Option, List, [], ◌∷◌, arith,
  if◌then◌else◌, All, select,
}
use chatgpt_prism2api.Base.Int.{ℤ}
use chatgpt_prism2api.Base.Text.{Text, is_empty}
use chatgpt_prism2api.Base.Dict.{text_key}
use chatgpt_prism2api.GroupNames.{has_name}
use chatgpt_prism2api.Account.State.{Account}
use chatgpt_prism2api.Account.Limits.{prune_uses}
use chatgpt_prism2api.Account.Slots.{full}
use chatgpt_prism2api.Account.Marks.Cooldown.{NoCooldown}
use chatgpt_prism2api.Account.Ready.{ready_with_limits, holds_token}
use chatgpt_prism2api.Account.Ready.Conditions.{ready_basics, prune-NoCooldown}
use chatgpt_prism2api.Scheduler.Config.{Config, Strategy}
use chatgpt_prism2api.Scheduler.Select.{positive_weight}
use chatgpt_prism2api.Scheduler.Pick.{
  Scheduler, Request, consider, collect_ready, pick, eligible, overlay_of,
}
use chatgpt_prism2api.Scheduler.Pick.Members.{OfOutcome, pick_among-OfOutcome}

-- What a request may expect of its account: untried, of its group if it names one, enabled, with a
-- valid token and a free slot.
pub record IsFit (is_expired : ℕ → Text → Bool) (req : Request) (now : ℕ) (a : Account)
    : Type 0 where
  pub untried : has_name a.id req.tried ≡ false
  pub grouped : is_empty req.group || has_name req.group a.groups ≡ true
  pub on : a.enabled ≡ true
  pub held : holds_token (is_expired now) a.tokens ≡ true
  pub free : full a ≡ false

module _ (is_expired : ℕ → Text → Bool) (req : Request) (cfg : Config) (now : ℕ)
    (limits : Option (List Text → ℤ × ℤ)) where
  consider_ready :
      (a : Account)
      → (consider is_expired req cfg now limits a).1 ≡ true
      → let (rpm, daily) = overlay_of limits a.groups in
        let r = ready_with_limits is_expired a req.model now cfg.disable_cooling rpm daily in
        (has_name a.id req.tried ≡ false)
        × (is_empty req.group || has_name req.group a.groups ≡ true)
        × (r.1 ≡ true)
        × ((consider is_expired req cfg now limits a).0 ≡ r.0)
  unfolding consider
  consider_ready a h = (ground arith, ground arith, ground arith, ground arith)

  consider-IsFit :
      (a : Account)
      → (consider is_expired req cfg now limits a).1 ≡ true
      → IsFit is_expired req now (consider is_expired req cfg now limits a).0
  unfolding full prune_uses
  consider-IsFit a h =
      let (untried, grouped, passed, same) = consider_ready a h in
      let (pruned, on, held, free) = ready_basics is_expired a req.model now _ _ _ passed in
      let fit : IsFit is_expired req now (prune_uses a now) = record {
        untried = untried;
        grouped = grouped;
        on = on;
        held = held;
        free = free;
      } in
      subst (IsFit is_expired req now) (sym (same ∙ pruned)) fit

  add-IsFit :
      (a : Account) (b : Bool) (more : List Account)
      → (consider is_expired req cfg now limits a).1 ≡ b
      → All (IsFit is_expired req now) more
      → All
          (IsFit is_expired req now)
          (if b then (consider is_expired req cfg now limits a).0 ∷ more else more)
  add-IsFit a true more e h = (consider-IsFit a e, h)
  add-IsFit a false more e h = h

  collect_ready-IsFit :
      (accounts : List Account)
      → All (IsFit is_expired req now) (collect_ready is_expired req cfg now limits accounts).1
  unfolding collect_ready
  collect_ready-IsFit [] = tt
  collect_ready-IsFit (a ∷ more) = add-IsFit a _ _ refl (collect_ready-IsFit more)

  consider-NoCooldown :
      (a : Account) → NoCooldown a → NoCooldown (consider is_expired req cfg now limits a).0
  unfolding consider ready_with_limits
  consider-NoCooldown a h = ground (arith, prune-NoCooldown a now h)

  pub collect_ready-NoCooldown :
      (accounts : List Account)
      → All NoCooldown accounts
      → All NoCooldown (collect_ready is_expired req cfg now limits accounts).0
  unfolding collect_ready
  collect_ready-NoCooldown [] h = tt
  collect_ready-NoCooldown (a ∷ more) h =
      (consider-NoCooldown a h.0, collect_ready-NoCooldown more h.1)

positive_weight_id : (candidates : List Account) → positive_weight candidates ≡ candidates
unfolding positive_weight select
positive_weight_id [] = refl
positive_weight_id (a ∷ more) = ground (arith, positive_weight_id more)

-- Every weight counts as at least one, so the weighted strategy drops no candidate.
pub eligible_id :
    (strategy : Strategy) (candidates : List Account) → eligible strategy candidates ≡ candidates
unfolding eligible
eligible_id strategy candidates = ground (arith, positive_weight_id candidates)

-- The account that a pick answers was not tried, is of the request's group, and is enabled, with a valid
-- token and a free slot.
pub pick-IsFit :
    (is_expired : ℕ → Text → Bool) (s : Scheduler) (accounts : List Account) (req : Request)
    (now : ℕ)
    → OfOutcome (IsFit is_expired req now) (pick is_expired s accounts req now).2
unfolding pick
pick-IsFit is_expired s accounts req now =
    pick_among-OfOutcome (IsFit is_expired req now) s _ req now _ (
      rw (eligible_id s.cfg.strategy _)
        (collect_ready-IsFit is_expired req s.cfg now s.limits accounts))
