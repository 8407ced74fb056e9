-- ===== src/Scheduler/Pick/Priority.antt =====
-- Which candidate a pick answers.
use chatgpt_prism2api.Base.{
  ℕ, ◌<◌, ◌≡◌, sym, subst, Bool, true, false, Option, none, some, List, [], ◌∷◌, arith, All,
  All-mono, select, select-All, first,
}
use chatgpt_prism2api.Base.Int.{ℤ, ◌≤ℤ◌}
use chatgpt_prism2api.Base.Text.{Text, is_empty}
use chatgpt_prism2api.Base.Dict.{lookup, text_key}
use chatgpt_prism2api.Account.State.{Account}
use chatgpt_prism2api.Scheduler.Cache.{Entry, get_and_refresh}
use chatgpt_prism2api.Scheduler.Select.{highest_priority, eq_ℤ}
use chatgpt_prism2api.Scheduler.Select.Tier.{has_priority, highest_priority_lem}
use chatgpt_prism2api.Scheduler.Pick.{
  Scheduler, Request, picked, collect_ready, pick, pick_among, tier_of, find_bound, choose, finish,
  find_id, after_primary, cache_key, primary_of, fallback_of,
}
use chatgpt_prism2api.Scheduler.Pick.Members.{Any, OfOutcome, pick_strategy-Any, tier_of-All}
use chatgpt_prism2api.Scheduler.Pick.Fit.{eligible_id}

-- No candidate has a higher priority.
abbrev pub IsTop : List Account → Account → Type 0
IsTop candidates a = All (λ c. c.priority ≤ℤ a.priority) candidates

highest_priority-IsTop :
    (a : Account) (more : List Account) → All (IsTop (a ∷ more)) (highest_priority (a ∷ more))
highest_priority-IsTop a more =
    let (best, bound, e, _) = highest_priority_lem a more in
    subst (All (IsTop (a ∷ more))) (sym e) (
      All-mono _ _ (select (has_priority best) (a ∷ more))
        (λ x is_best.
          All-mono _ _ (a ∷ more) (λ c le. raise c.priority x.priority best le is_best) bound)
        (select-All (has_priority best) (a ∷ more)))
  where
    raise : (p q best : ℤ) → p ≤ℤ best → eq_ℤ q best ≡ true → p ≤ℤ q
    raise p q best le e = ground arith

choose-IsTop :
    (s : Scheduler) (a : Account) (more : List Account) (model : Text)
    → Any (IsTop (a ∷ more)) (choose s (a ∷ more) model none).1
unfolding choose
choose-IsTop s a more model =
    pick_strategy-Any (IsTop (a ∷ more)) s s.cfg.strategy model
      (tier_of s.cfg.warm_preference (a ∷ more))
      (tier_of-All (IsTop (a ∷ more)) s.cfg.warm_preference (a ∷ more)
        (highest_priority-IsTop a more))

unbound :
    (s : Scheduler) (candidates : List Account) (primary fallback model : Text) (now : ℕ)
    → s.cfg.session_affinity ≡ false
    → find_bound s candidates primary fallback model now ≡ (s, none)
unfolding find_bound
unbound s candidates primary fallback model now h = ground arith

finish-Any :
    (P : Account → Type 0) (s : Scheduler) (accounts : List Account) (req : Request) (now : ℕ)
    (o : Option Account)
    → Any P o
    → OfOutcome P (finish s accounts req now o).1
unfolding finish
finish-Any P s accounts req now none h = tt
finish-Any P s accounts req now (some a) h = h

pick_among-IsTop :
    (s : Scheduler) (accounts : List Account) (req : Request) (now : ℕ) (candidates : List Account)
    → s.cfg.session_affinity ≡ false
    → OfOutcome (IsTop candidates) (pick_among s accounts req now candidates).1
unfolding pick_among
pick_among-IsTop s accounts req now [] h = tt
pick_among-IsTop s accounts req now (c ∷ cs) h = finish-Any (IsTop (c ∷ cs)) _ accounts req now _ (
    rw (unbound s (c ∷ cs) (primary_of s.cfg req) (fallback_of s.cfg req) req.model now h)
      (choose-IsTop s c cs req.model))

-- Without session affinity the account picked is one of the highest priority among the candidates,
-- whatever the strategy.
pub pick-IsTop :
    (is_expired : ℕ → Text → Bool) (s : Scheduler) (accounts : List Account) (req : Request)
    (now : ℕ)
    → s.cfg.session_affinity ≡ false
    → OfOutcome
        (IsTop (collect_ready is_expired req s.cfg now s.limits accounts).1)
        (pick is_expired s accounts req now).2
unfolding pick
pick-IsTop is_expired s accounts req now h =
    let collected = collect_ready is_expired req s.cfg now s.limits accounts in
    rw (eligible_id s.cfg.strategy collected.1)
      (pick_among-IsTop s collected.0 req now collected.1 h)

find_bound_sticky :
    (s : Scheduler) (candidates : List Account) (primary fallback model : Text) (now : ℕ)
    (entry : Entry) (a : Account)
    → s.cfg.session_affinity ≡ true
    → is_empty primary ≡ false
    → lookup (cache_key primary model) s.cache.entries ≡ some entry
    → now < entry.expires_at
    → find_id candidates entry.auth_id ≡ some a
    → (find_bound s candidates primary fallback model now).1 ≡ some a
unfolding find_bound after_primary get_and_refresh cache_key
find_bound_sticky s candidates primary fallback model now entry a on named bound live found =
    ground arith

choose-some :
    (s : Scheduler) (candidates : List Account) (model : Text) (o : Option Account) (a : Account)
    → o ≡ some a
    → (choose s candidates model o).1 ≡ some a
unfolding choose
choose-some s candidates model o a e = rw (e, choose)

finish-some :
    (s : Scheduler) (accounts : List Account) (req : Request) (now : ℕ) (o : Option Account)
    (a : Account)
    → o ≡ some a
    → (finish s accounts req now o).1 ≡ picked a
unfolding finish
finish-some s accounts req now o a e = rw (e, finish)

find_id-nil : (id : Text) (a : Account) → find_id [] id ≡ some a → ⊥
unfolding find_id first
find_id-nil id a e = cc

pick_among_sticky :
    (s : Scheduler) (accounts : List Account) (req : Request) (now : ℕ) (candidates : List Account)
    (entry : Entry) (a : Account)
    → s.cfg.session_affinity ≡ true
    → is_empty (primary_of s.cfg req) ≡ false
    → lookup (cache_key (primary_of s.cfg req) req.model) s.cache.entries ≡ some entry
    → now < entry.expires_at
    → find_id candidates entry.auth_id ≡ some a
    → (pick_among s accounts req now candidates).1 ≡ picked a
unfolding pick_among
pick_among_sticky s accounts req now [] entry a on named bound live found =
    absurd (find_id-nil entry.auth_id a found)
pick_among_sticky s accounts req now (c ∷ cs) entry a on named bound live found =
    finish-some _ accounts req now _ a (
      choose-some _ (c ∷ cs) req.model _ a (
        find_bound_sticky s (c ∷ cs) (primary_of s.cfg req) (fallback_of s.cfg req) req.model now
          entry a on named bound live found))

-- With session affinity a request whose session has a live binding to a candidate is answered that
-- candidate, whatever the priorities and the strategy are.
pub pick_sticky :
    (is_expired : ℕ → Text → Bool) (s : Scheduler) (accounts : List Account) (req : Request)
    (now : ℕ) (entry : Entry) (a : Account)
    → s.cfg.session_affinity ≡ true
    → is_empty (primary_of s.cfg req) ≡ false
    → lookup (cache_key (primary_of s.cfg req) req.model) s.cache.entries ≡ some entry
    → now < entry.expires_at
    → find_id (collect_ready is_expired req s.cfg now s.limits accounts).1 entry.auth_id ≡ some a
    → (pick is_expired s accounts req now).2 ≡ picked a
unfolding pick
pick_sticky is_expired s accounts req now entry a on named bound live found =
    let collected = collect_ready is_expired req s.cfg now s.limits accounts in
    rw (eligible_id s.cfg.strategy collected.1)
      (pick_among_sticky s collected.0 req now collected.1 entry a on named bound live found)
