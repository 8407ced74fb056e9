-- ===== src/Scheduler/Pick/Members.antt =====
-- Whatever holds of all candidates holds of the account that a pick answers.
use chatgpt_prism2api.Base.{
  ℕ, zero, suc, subst, sym, Bool, Option, none, some, List, [], ◌∷◌, arith, get_elem?, first, All,
  All-select, if_both,
}
use chatgpt_prism2api.Base.Text.{Text, text_lt}
use chatgpt_prism2api.Account.State.{Account}
use chatgpt_prism2api.Scheduler.Config.{Strategy}
use chatgpt_prism2api.Scheduler.Cache.{get, get_and_refresh}
use chatgpt_prism2api.Scheduler.Select.{
  Turn, round_robin_pick, weighted_pick, weigh, weigh_all, first_turn, highest_priority, sort_by_id,
  insert_by_id,
}
use chatgpt_prism2api.Scheduler.Select.Tier.{has_priority, highest_priority_lem}
use chatgpt_prism2api.Scheduler.Pick.{
  Scheduler, Request, Outcome, picked, failed, find_id, pick_strategy, tier_of, or_all,
  bound_candidate, cache_key, drop_stale, find_fallback, after_primary, find_bound, choose, finish,
  pick_among,
}

module _ (P : Account → Type 0) where
  -- What an optional account satisfies, if there is one.
  abbrev pub Any : Option Account → Type 0
  Any none = Unit
  Any (some a) = P a

  get_elem?-Any : (xs : List Account) (i : ℕ) → All P xs → Any (get_elem? xs i)
  get_elem?-Any [] i h = tt
  get_elem?-Any (x ∷ xs) zero h = h.0
  get_elem?-Any (x ∷ xs) (suc i) h = get_elem?-Any xs i h.1

  first-Any : (p : Account → Bool) (xs : List Account) → All P xs → Any (first p xs)
  unfolding first
  first-Any p [] h = tt
  first-Any p (x ∷ xs) h = if_both Any (p x) h.0 (first-Any p xs h.1)

  weigh-Any : (t : Turn) (a : Account) → Any t.picked → P a → Any (weigh t a).picked
  unfolding weigh
  weigh-Any t a h p = ground arith

  weigh_all-Any :
      (t : Turn) (xs : List Account) → Any t.picked → All P xs → Any (weigh_all t xs).picked
  unfolding weigh_all
  weigh_all-Any t [] h a = h
  weigh_all-Any t (x ∷ xs) h a = weigh_all-Any (weigh t x) xs (weigh-Any t x h a.0) a.1

  pub pick_strategy-Any :
      (s : Scheduler) (strategy : Strategy) (model : Text) (tier : List Account)
      → All P tier
      → Any (pick_strategy s strategy model tier).1
  unfolding pick_strategy weighted_pick round_robin_pick
  pick_strategy-Any s Strategy.fill_first model [] h = tt
  pick_strategy-Any s Strategy.fill_first model (a ∷ more) h = h.0
  pick_strategy-Any s Strategy.weighted model tier h = weigh_all-Any (first_turn _) tier tt h
  pick_strategy-Any s Strategy.round_robin model [] h = tt
  pick_strategy-Any s Strategy.round_robin model (a ∷ more) h = get_elem?-Any (a ∷ more) _ h
  pick_strategy-Any s (Strategy.other t) model [] h = tt
  pick_strategy-Any s (Strategy.other t) model (a ∷ more) h = get_elem?-Any (a ∷ more) _ h

  insert_by_id-All : (a : Account) (xs : List Account) → P a → All P xs → All P (insert_by_id a xs)
  unfolding insert_by_id
  insert_by_id-All a [] p h = (p, tt)
  insert_by_id-All a (x ∷ xs) p h =
      if_both (All P) (text_lt x.id a.id) (h.0, insert_by_id-All a xs p h.1) (p, h)

  sort_by_id-All : (xs : List Account) → All P xs → All P (sort_by_id xs)
  unfolding sort_by_id
  sort_by_id-All [] h = tt
  sort_by_id-All (x ∷ xs) h = insert_by_id-All x (sort_by_id xs) h.0 (sort_by_id-All xs h.1)

  pub highest_priority-All : (xs : List Account) → All P xs → All P (highest_priority xs)
  unfolding highest_priority
  highest_priority-All [] h = tt
  highest_priority-All (a ∷ more) h =
      let (best, _, e, _) = highest_priority_lem a more in
      subst (All P) (sym e) (All-select P (has_priority best) (a ∷ more) h)

  or_all-All : (warm tier : List Account) → All P warm → All P tier → All P (or_all warm tier)
  or_all-All [] tier w h = h
  or_all-All (a ∷ warm) tier w h = w

  pub tier_of-All :
      (warm : Bool) (xs : List Account) → All P (highest_priority xs) → All P (tier_of warm xs)
  unfolding tier_of
  tier_of-All warm xs h =
      let sorted = sort_by_id-All (highest_priority xs) h in
      if_both (All P) warm (or_all-All _ _ (All-select P _ _ sorted) sorted) sorted

  bound-Any : (xs : List Account) (id : Option Text) → All P xs → Any (bound_candidate xs id)
  unfolding find_id
  bound-Any xs none h = tt
  bound-Any xs (some id) h = first-Any _ xs h

  find_fallback-Any :
      (s : Scheduler) (xs : List Account) (primary fallback model : Text) (now : ℕ)
      → All P xs
      → Any (find_fallback s xs primary fallback model now).1
  unfolding find_fallback
  find_fallback-Any s xs primary fallback model now h =
      ground (arith, bound-Any xs (get s.cache (cache_key fallback model) now).1 h)

  after_primary-Any :
      (s : Scheduler) (xs : List Account) (primary fallback model : Text) (now : ℕ)
      (id : Option Text) (o : Option Account)
      → All P xs
      → Any o
      → Any (after_primary s xs primary fallback model now id o).1
  unfolding after_primary
  after_primary-Any s xs primary fallback model now id none h a =
      find_fallback-Any (drop_stale s id) xs primary fallback model now h
  after_primary-Any s xs primary fallback model now id (some c) h a = a

  find_bound-Any :
      (s : Scheduler) (xs : List Account) (primary fallback model : Text) (now : ℕ)
      → All P xs
      → Any (find_bound s xs primary fallback model now).1
  unfolding find_bound
  find_bound-Any s xs primary fallback model now h =
      let r = get_and_refresh s.cache (cache_key primary model) now in
      ground (
        arith,
        after_primary-Any (record s { cache = r.0 }) xs primary fallback model now r.1
            (bound_candidate xs r.1) h (bound-Any xs r.1 h),
      )

  pub choose-Any :
      (s : Scheduler) (xs : List Account) (model : Text) (o : Option Account)
      → All P xs
      → Any o
      → Any (choose s xs model o).1
  unfolding choose
  choose-Any s xs model none h a =
      pick_strategy-Any s s.cfg.strategy model (tier_of s.cfg.warm_preference xs)
        (tier_of-All s.cfg.warm_preference xs (highest_priority-All xs h))
  choose-Any s xs model (some c) h a = a

  -- What the account of an outcome satisfies, if it is one.
  abbrev pub OfOutcome : Outcome → Type 0
  OfOutcome (picked a) = P a
  OfOutcome (failed e) = Unit

  finish-OfOutcome :
      (s : Scheduler) (accounts : List Account) (req : Request) (now : ℕ) (o : Option Account)
      → Any o
      → OfOutcome (finish s accounts req now o).1
  unfolding finish
  finish-OfOutcome s accounts req now none h = tt
  finish-OfOutcome s accounts req now (some a) h = h

  -- Whatever holds of all candidates holds of the account that is picked among them.
  pub pick_among-OfOutcome :
      (s : Scheduler) (accounts : List Account) (req : Request) (now : ℕ)
      (candidates : List Account)
      → All P candidates
      → OfOutcome (pick_among s accounts req now candidates).1
  unfolding pick_among
  pick_among-OfOutcome s accounts req now [] h = tt
  pick_among-OfOutcome s accounts req now (c ∷ cs) h =
      finish-OfOutcome _ accounts req now _
        (choose-Any _ (c ∷ cs) req.model _ h (find_bound-Any s (c ∷ cs) _ _ req.model now h))
