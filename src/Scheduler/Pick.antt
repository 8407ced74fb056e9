-- ===== src/Scheduler/Pick.antt =====
-- internal/scheduler/pick.go: one pick of an account for a request.
-- The accounts are those of the pool, in its order; the pick hands them back as its limit checks leave
-- them. The session identifiers of a request are the results of `ExtractSessionIDs` on it.
pub mod Members
pub mod Fit
pub mod Total
pub mod Errors
pub mod Priority
use chatgpt_prism2api.Base.{
  ℕ, ◌+◌, ◌-◌, ◌≡◌, Bool, true, false, not, ◌&&◌, ◌||◌, Option, none, some, List, [], ◌∷◌, ◌++◌,
  ltb, ◌==◌, if◌then◌else◌, select, first,
}
use chatgpt_prism2api.Base.Int.{ℤ, pos}
use chatgpt_prism2api.Base.Text.{Text, codes, text_eq, is_empty}
use chatgpt_prism2api.GroupNames.{has_name}
use chatgpt_prism2api.Account.State.{Account}
use chatgpt_prism2api.Account.Ready.{ready_with_limits, next_retry_at}
use chatgpt_prism2api.Scheduler.Config.{Config, Strategy, normalized}
use chatgpt_prism2api.Scheduler.Select.{
  Smooth, round_robin_pick, weighted_pick, highest_priority, positive_weight, sort_by_id,
}
use chatgpt_prism2api.Scheduler.Unavailable.{PickError, unavailable_from}
use chatgpt_prism2api.Scheduler.Cache.{
  Cache, new_cache, set_ttl, get, get_and_refresh, set_aliases, invalidate_auth,
}

-- `Request`, with the session identifiers in place of the headers and the body.
pub record Request : Type 0 where
  pub model : Text
  pub session_ids : Text × Text
  pub tried : List Text
  pub group : Text
  pub fallback_affinity : Text

pub record Scheduler : Type 0 where
  pub cfg : Config
  pub cache : Cache
  pub cursors : List (Text × ℕ)
  pub states : List (Text × Smooth)
  pub limits : Option (List Text → ℤ × ℤ)

pub data Outcome : Type 0 where
  picked : Account → Outcome
  failed : PickError → Outcome

-- `New`.
unfoldable pub new_scheduler : Config → Scheduler
unfolding normalized new_cache
new_scheduler cfg =
    let c = normalized cfg in
    record {
      cfg = c;
      cache = new_cache c.session_affinity_ttl;
      cursors = [];
      states = [];
      limits = none;
    }

-- `SetConfig`.
unfoldable pub set_config : Scheduler → Config → Scheduler
unfolding normalized set_ttl
set_config s cfg =
    let c = normalized cfg in record s { cfg = c; cache = set_ttl s.cache c.session_affinity_ttl }

-- `Invalidate`.
unfoldable pub invalidate : Scheduler → Text → Scheduler
invalidate s account_id = record s { cache = invalidate_auth s.cache account_id }

-- `cacheKey`.
unfoldable pub cache_key : Text → Text → Text
cache_key session_id model = codes "cursor::" ++ session_id ++ codes "::" ++ model

-- `findID`.
unfoldable pub find_id : List Account → Text → Option Account
find_id accounts id = first (λ a. text_eq a.id id) accounts

abbrev overlay_of : Option (List Text → ℤ × ℤ) → List Text → ℤ × ℤ
overlay_of none groups = (pos 0, pos 0)
overlay_of (some f) groups = f groups

-- `pickStrategy`, with the key that it prefixes.
unfoldable pub pick_strategy :
    Scheduler → Strategy → Text → List Account → Scheduler × Option Account
pick_strategy s Strategy.fill_first model [] = (s, none)
pick_strategy s Strategy.fill_first model (a ∷ more) = (s, some a)
pick_strategy s Strategy.weighted model tier =
    let (states, a) = weighted_pick s.states (codes "cursor:" ++ model) tier in
    (record s { states = states }, a)
pick_strategy s _ model tier =
    let (cursors, a) = round_robin_pick s.cursors (codes "cursor:" ++ model) tier in
    (record s { cursors = cursors }, a)

abbrev or_all : List Account → List Account → List Account
or_all [] tier = tier
or_all (a ∷ warm) tier = a ∷ warm

-- The tier: the candidates of the highest priority by identifier, only the warm ones if preferred.
unfoldable pub tier_of : Bool → List Account → List Account
tier_of warm_preference candidates =
    let tier = sort_by_id (highest_priority candidates) in
    if warm_preference then or_all (select (λ a. a.sandbox_warm) tier) tier else tier

-- `fallback != "" && fallback != primary`.
abbrev pub has_fallback : Text → Text → Bool
has_fallback primary fallback = not (is_empty fallback) && not (text_eq fallback primary)

-- The closure `bind` of `Pick`: whether it binds, and what.
abbrev pub keys_of : Text → Text → Text → List Text
keys_of primary fallback model =
    if has_fallback primary fallback
    then cache_key primary model ∷ cache_key fallback model ∷ []
    else cache_key primary model ∷ []

unfoldable pub bind : Scheduler → Text → Text → Text → ℕ → Account → Scheduler
bind s primary fallback model now a =
    if not s.cfg.session_affinity || is_empty primary
    then s
    else record s { cache = set_aliases s.cache a.id (keys_of primary fallback model) now }

-- The account of a binding, if it is a candidate.
abbrev pub bound_candidate : List Account → Option Text → Option Account
bound_candidate candidates none = none
bound_candidate candidates (some id) = find_id candidates id

-- A binding to an account that is no candidate is invalidated.
abbrev pub drop_stale : Scheduler → Option Text → Scheduler
drop_stale s none = s
drop_stale s (some id) = invalidate s id

-- The lookup of the fallback identifier.
unfoldable pub find_fallback :
    Scheduler → List Account → Text → Text → Text → ℕ → Scheduler × Option Account
find_fallback s candidates primary fallback model now =
    let (cache, id) = get s.cache (cache_key fallback model) now in
    if has_fallback primary fallback
    then (record s { cache = cache }, bound_candidate candidates id)
    else (s, none)

-- The affinity part of `Pick` behind its lookup of the primary identifier.
unfoldable pub after_primary :
    Scheduler
    → List Account
    → Text
    → Text
    → Text
    → ℕ
    → Option Text
    → Option Account
    → Scheduler × Option Account
after_primary s candidates primary fallback model now id (some a) = (s, some a)
after_primary s candidates primary fallback model now id none =
    find_fallback (drop_stale s id) candidates primary fallback model now

-- The affinity part of `Pick`: the bound account, if there is one among the candidates.
unfoldable pub find_bound :
    Scheduler → List Account → Text → Text → Text → ℕ → Scheduler × Option Account
find_bound s candidates primary fallback model now =
    let (cache, id) = get_and_refresh s.cache (cache_key primary model) now in
    if s.cfg.session_affinity && not (is_empty primary)
    then after_primary (record s { cache = cache }) candidates primary fallback model now id
        (bound_candidate candidates id)
    else (s, none)

-- The last part of `Pick`: by strategy in the tier.
unfoldable pub choose :
    Scheduler → List Account → Text → Option Account → Scheduler × Option Account
choose s candidates model (some a) = (s, some a)
choose s candidates model none =
    pick_strategy s s.cfg.strategy model (tier_of s.cfg.warm_preference candidates)

abbrev pub primary_of : Config → Request → Text
primary_of cfg req =
    if cfg.session_affinity
    then if is_empty req.session_ids.0 then req.fallback_affinity else req.session_ids.0
    else []

abbrev pub fallback_of : Config → Request → Text
fallback_of cfg req = if cfg.session_affinity then req.session_ids.1 else []

abbrev is_weighted : Strategy → Bool
is_weighted Strategy.weighted = true
is_weighted _ = false

-- The candidates that the strategy takes: those of positive weight, for the weighted one.
unfoldable pub eligible : Strategy → List Account → List Account
eligible strategy candidates =
    if is_weighted strategy then positive_weight candidates else candidates

-- The result of `Pick` on its candidates.
unfoldable pub finish :
    Scheduler → List Account → Request → ℕ → Option Account → Scheduler × Outcome
finish s accounts req now none = (s, failed (unavailable_from accounts req.model now))
finish s accounts req now (some a) =
    (bind s (primary_of s.cfg req) (fallback_of s.cfg req) req.model now a, picked a)

unfoldable pub pick_among :
    Scheduler → List Account → Request → ℕ → List Account → Scheduler × Outcome
unfolding finish
pick_among s accounts req now [] = (s, failed (unavailable_from accounts req.model now))
pick_among s accounts req now (c ∷ cs) =
    let (s', bound) =
      find_bound s (c ∷ cs) (primary_of s.cfg req) (fallback_of s.cfg req) req.model now in
    let (s'', chosen) = choose s' (c ∷ cs) req.model bound in finish s'' accounts req now chosen

module _ (is_expired : ℕ → Text → Bool) where
  -- One account in the loop of `collectReady`: as the limit check leaves it, and whether it is ready.
  unfoldable pub consider :
      Request → Config → ℕ → Option (List Text → ℤ × ℤ) → Account → Account × Bool
  consider req cfg now limits a =
      let (rpm, daily) = overlay_of limits a.groups in
      if has_name a.id req.tried
      then (a, false)
      else if not (is_empty req.group) && not (has_name req.group a.groups)
      then (a, false)
      else ready_with_limits is_expired a req.model now cfg.disable_cooling rpm daily

  -- `collectReady`: the accounts afterwards, and the candidates.
  unfoldable pub collect_ready :
      Request → Config → ℕ → Option (List Text → ℤ × ℤ) → List Account → List Account × List Account
  unfolding consider
  collect_ready req cfg now limits [] = ([], [])
  collect_ready req cfg now limits (a ∷ more) =
      let (a', is_ready) = consider req cfg now limits a in
      let (accounts, candidates) = collect_ready req cfg now limits more in
      (a' ∷ accounts, if is_ready then a' ∷ candidates else candidates)

  -- `Pick`: the scheduler, the accounts, and the account picked or the error.
  unfoldable pub pick : Scheduler → List Account → Request → ℕ → Scheduler × List Account × Outcome
  pick s accounts req now =
      let (looked, candidates) = collect_ready req s.cfg now s.limits accounts in
      let (s', outcome) = pick_among s looked req now (eligible s.cfg.strategy candidates) in
      (s', looked, outcome)
