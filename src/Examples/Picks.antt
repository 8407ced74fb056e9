-- ===== src/Examples/Picks.antt =====
-- Runs of a pick over two accounts: `ann` has the higher priority, `bob` is of the group `g`.
use chatgpt_prism2api.Base.{first, ◌≡◌, ◌<◌, refl, false, none, List, [], ◌∷◌, arith, length, All}
use chatgpt_prism2api.Base.Text.{codes, text_eq}
use chatgpt_prism2api.Base.Dict.{lookup, text_key}
use chatgpt_prism2api.Account.State.{Account, new_account}
use chatgpt_prism2api.Account.Limits.{prune_uses, effective_limits}
use chatgpt_prism2api.GroupNames.{has_name}
use chatgpt_prism2api.Account.Marks.Cooldown.{NoCooldown}
use chatgpt_prism2api.Account.Ready.{ready_with_limits}
use chatgpt_prism2api.Scheduler.Config.{default_config}
use chatgpt_prism2api.Scheduler.Cache.{Entry}
use chatgpt_prism2api.Scheduler.Pick.{
  Request, Scheduler, picked, find_id, cache_key, collect_ready, pick,
}
use chatgpt_prism2api.Scheduler.Pick.Members.{OfOutcome}
use chatgpt_prism2api.Scheduler.Pick.Fit.{IsFit, pick-IsFit}
use chatgpt_prism2api.Scheduler.Pick.Total.{IsPicked, pick_total}
use chatgpt_prism2api.Scheduler.Pick.Priority.{IsTop, pick-IsTop, pick_sticky}
use chatgpt_prism2api.Examples.{is_late, ann, bob}

abbrev accounts : List Account
accounts = bob ∷ ann ∷ []

abbrev request : Request
request = record {
  model = codes "m";
  session_ids = (codes "s", []);
  tried = [];
  group = [];
  fallback_affinity = [];
}

abbrev of_group : Request
of_group = record request { group = codes "g" }

-- The session `s` is bound to `bob`.
abbrev bound : Entry
bound = record {
  auth_id = codes "B";
  expires_at = 60;
  aliases = cache_key (codes "s") (codes "m") ∷ [];
}

abbrev sticky : Scheduler
sticky = record {
  cfg = default_config;
  cache = record { entries = (cache_key (codes "s") (codes "m"), bound) ∷ []; ttl = 10 };
  cursors = [];
  states = [];
  limits = none;
}

abbrev free : Scheduler
free = record sticky { cfg = record default_config { session_affinity = false } }

-- What the runs of this file unfold.
program : Unit {0}
unfolding default_config first collect_ready ready_with_limits find_id cache_key new_account
    prune_uses effective_limits text_eq lookup has_name
program = tt

accounts-NoCooldown : All NoCooldown accounts
unfolding program
accounts-NoCooldown = (
  record { until_zero = refl; no_models = refl },
  (record { until_zero = refl; no_models = refl }, tt),
)

pick_total_example :
    (IsPicked (pick is_late free accounts of_group 50).2
      → 0 < length (collect_ready is_late of_group free.cfg 50 free.limits accounts).1)
    × (0 < length (collect_ready is_late of_group free.cfg 50 free.limits accounts).1
        → IsPicked (pick is_late free accounts of_group 50).2)
pick_total_example = pick_total is_late free accounts of_group 50

-- So the pick of that request does answer an account.
of_group-IsPicked : IsPicked (pick is_late free accounts of_group 50).2
unfolding program
of_group-IsPicked = (pick_total is_late free accounts of_group 50).1 (omega arith)

pick-IsFit_example :
    OfOutcome (IsFit is_late of_group 50) (pick is_late free accounts of_group 50).2
pick-IsFit_example = pick-IsFit is_late free accounts of_group 50

pick-IsTop_example :
    OfOutcome
      (IsTop (collect_ready is_late request free.cfg 50 free.limits accounts).1)
      (pick is_late free accounts request 50).2
pick-IsTop_example = pick-IsTop is_late free accounts request 50 refl

pick_sticky_example : (pick is_late sticky accounts request 50).2 ≡ picked (prune_uses bob 50)
unfolding program
pick_sticky_example =
    pick_sticky is_late sticky accounts request 50 bound (prune_uses bob 50) refl refl refl
      (omega arith) refl
