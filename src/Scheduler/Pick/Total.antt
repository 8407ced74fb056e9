-- ===== src/Scheduler/Pick/Total.antt =====
-- A pick answers an account whenever there is a candidate.
use chatgpt_prism2api.Base.{
  ℕ, suc, ◌<◌, ◌≡◌, refl, Bool, false, Option, none, some, List, [], ◌∷◌, arith, length, if_both,
}
use chatgpt_prism2api.Base.Text.{Text}
use chatgpt_prism2api.Base.Dict.{text_key}
use chatgpt_prism2api.Account.State.{Account}
use chatgpt_prism2api.Scheduler.Config.{Strategy}
use chatgpt_prism2api.Scheduler.Select.{
  Turn, weigh, weigh_all, is_none, weighted_pick, highest_priority, sort_by_id, insert_by_id,
  first_turn,
}
use chatgpt_prism2api.Scheduler.Select.RoundRobin.{round_robin_total}
use chatgpt_prism2api.Scheduler.Select.Tier.{highest_priority_lem}
use chatgpt_prism2api.Scheduler.Pick.{
  Scheduler, Request, Outcome, picked, collect_ready, pick, pick_among, pick_strategy, tier_of,
  or_all, choose, finish,
}
use chatgpt_prism2api.Scheduler.Pick.Fit.{eligible_id}

-- An optional account that is one.
abbrev Found : Option Account → Type 0
Found o = (a : Account) × (o ≡ some a)

Found-of : (o : Option Account) → is_none o ≡ false → Found o
Found-of none h = cc
Found-of (some a) h = (a, refl)

weigh-Found : (t : Turn) (a : Account) → Found (weigh t a).picked
unfolding weigh
weigh-Found t a = Found-of (weigh t a).picked (ground arith)

weigh_all-Found :
    (t : Turn) (more : List Account) → Found t.picked → Found (weigh_all t more).picked
unfolding weigh_all
weigh_all-Found t [] h = h
weigh_all-Found t (a ∷ more) h = weigh_all-Found (weigh t a) more (weigh-Found t a)

pick_strategy-Found :
    (s : Scheduler) (strategy : Strategy) (model : Text) (a : Account) (more : List Account)
    → Found (pick_strategy s strategy model (a ∷ more)).1
unfolding pick_strategy weighted_pick
pick_strategy-Found s Strategy.fill_first model a more = (a, refl)
pick_strategy-Found s Strategy.weighted model a more =
    weigh_all-Found (weigh (first_turn _) a) more (weigh-Found (first_turn _) a)
pick_strategy-Found s Strategy.round_robin model a more = round_robin_total s.cursors _ a more
pick_strategy-Found s (Strategy.other t) model a more = round_robin_total s.cursors _ a more

length-insert_by_id :
    (a : Account) (xs : List Account) → length (insert_by_id a xs) ≡ suc (length xs)
unfolding insert_by_id
length-insert_by_id a [] = refl
length-insert_by_id a (x ∷ xs) = ground (arith, length-insert_by_id a xs)

length-sort_by_id : (xs : List Account) → length (sort_by_id xs) ≡ length xs
unfolding sort_by_id
length-sort_by_id [] = refl
length-sort_by_id (x ∷ xs) =
    omega (arith, length-insert_by_id x (sort_by_id xs), length-sort_by_id xs)

or_all-pos : (warm tier : List Account) → 0 < length tier → 0 < length (or_all warm tier)
or_all-pos [] tier h = h
or_all-pos (a ∷ warm) tier h = omega arith

tier_of-pos :
    (warm : Bool) (a : Account) (more : List Account) → 0 < length (tier_of warm (a ∷ more))
unfolding tier_of
tier_of-pos warm a more =
    let (best, _, _, some_best) = highest_priority_lem a more in
    let sorted : 0 < length (sort_by_id (highest_priority (a ∷ more))) =
      omega (arith, length-sort_by_id (highest_priority (a ∷ more)), some_best) in
    if_both (λ (xs : List Account). 0 < length xs) warm (or_all-pos _ _ sorted) sorted

pick_strategy-pos :
    (s : Scheduler) (strategy : Strategy) (model : Text) (tier : List Account)
    → 0 < length tier
    → Found (pick_strategy s strategy model tier).1
pick_strategy-pos s strategy model [] h = absurd (omega arith)
pick_strategy-pos s strategy model (a ∷ more) h = pick_strategy-Found s strategy model a more

choose-Found :
    (s : Scheduler) (a : Account) (more : List Account) (model : Text) (o : Option Account)
    → Found (choose s (a ∷ more) model o).1
unfolding choose
choose-Found s a more model (some b) = (b, refl)
choose-Found s a more model none =
    pick_strategy-pos s s.cfg.strategy model (tier_of s.cfg.warm_preference (a ∷ more))
      (tier_of-pos s.cfg.warm_preference a more)

-- The outcome is an account.
abbrev pub IsPicked : Outcome → Type 0
IsPicked o = (a : Account) × (o ≡ picked a)

finish-IsPicked :
    (s : Scheduler) (accounts : List Account) (req : Request) (now : ℕ) (o : Option Account)
    → Found o
    → IsPicked (finish s accounts req now o).1
unfolding finish
finish-IsPicked s accounts req now none h = cc (h.1)
finish-IsPicked s accounts req now (some a) h = (a, refl)

pick_among-IsPicked :
    (s : Scheduler) (accounts : List Account) (req : Request) (now : ℕ) (c : Account)
    (cs : List Account)
    → IsPicked (pick_among s accounts req now (c ∷ cs)).1
unfolding pick_among
pick_among-IsPicked s accounts req now c cs =
    finish-IsPicked _ accounts req now _ (choose-Found _ c cs req.model _)

pick_among-nil :
    (s : Scheduler) (accounts : List Account) (req : Request) (now : ℕ)
    → IsPicked (pick_among s accounts req now []).1
    → ⊥
unfolding pick_among
pick_among-nil s accounts req now (a, e) = cc

-- A pick answers an account exactly when some account passes the checks of the request.
pub pick_total :
    (is_expired : ℕ → Text → Bool) (s : Scheduler) (accounts : List Account) (req : Request)
    (now : ℕ)
    → (IsPicked (pick is_expired s accounts req now).2
        → 0 < length (collect_ready is_expired req s.cfg now s.limits accounts).1)
      × (0 < length (collect_ready is_expired req s.cfg now s.limits accounts).1
          → IsPicked (pick is_expired s accounts req now).2)
unfolding pick
pick_total is_expired s accounts req now =
    let collected = collect_ready is_expired req s.cfg now s.limits accounts in
    rw (eligible_id s.cfg.strategy collected.1) (by_candidates collected.0 collected.1)
  where
    by_candidates :
        (looked candidates : List Account)
        → (IsPicked (pick_among s looked req now candidates).1 → 0 < length candidates)
          × (0 < length candidates → IsPicked (pick_among s looked req now candidates).1)
    by_candidates looked [] =
        (λ p. absurd (pick_among-nil s looked req now p), λ h. absurd (omega arith))
    by_candidates looked (c ∷ cs) =
        (λ p. omega arith, λ h. pick_among-IsPicked s looked req now c cs)
