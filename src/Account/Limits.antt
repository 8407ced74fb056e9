-- ===== src/Account/Limits.antt =====
-- internal/pool/account.go: the sliding window of uses, the count of the UTC day, and the limits.
pub mod Window
use chatgpt_prism2api.Base.{
  ℕ, ◌+◌, ◌*◌, ◌/◌, ◌≡◌, refl, Bool, true, false, ◌&&◌, ◌||◌, Option, none, some, List, [], ◌∷◌,
  ◌++◌, arith, ltb, leb, ◌==◌, if◌then◌else◌, length,
}
use chatgpt_prism2api.Base.Int.{ℤ, pos, negsuc, ltb_ℤ}
use chatgpt_prism2api.Base.Text.{Text}
use chatgpt_prism2api.FailClass.{second}
use chatgpt_prism2api.Account.State.{Account, minute}

-- `utcDay`: the day of a time, as a number in place of its date.
abbrev pub utc_day : ℕ → ℕ
utc_day t = t / (86_400 * second)

abbrev pub same_day : Option ℕ → ℕ → Bool
same_day none d = false
same_day (some e) d = e == d

-- The loop of `pruneUsesLocked`: drop leading times that are not after `now - time.Minute`.
unfoldable pub drop_old : ℕ → List ℕ → List ℕ
drop_old now [] = []
drop_old now (t ∷ ts) = let rest = drop_old now ts in if leb (t + minute) now then rest else t ∷ ts

unfoldable pub prune_uses : Account → ℕ → Account
prune_uses a now = record a {
  use_times = drop_old now a.use_times;
  daily_day = some (utc_day now);
  daily_count = if same_day a.daily_day (utc_day now) then a.daily_count else 0;
}

-- `recordUseLocked`.
unfoldable pub record_use_locked : Account → ℕ → Account
unfolding prune_uses
record_use_locked a now =
    let p = prune_uses a now in
    record p { use_times = p.use_times ++ now ∷ []; daily_count = p.daily_count + 1 }

-- The limits that `limitFn` gives for the groups; none when it is not asked.
abbrev pub ask_groups : Option (List Text → ℤ × ℤ) → List Text → ℤ × ℤ
ask_groups none gs = (pos 0, pos 0)
ask_groups (some f) gs = f gs

-- `if x <= 0 { x = y }`.
abbrev pub or_else : ℤ → ℤ → ℤ
or_else x y = if ltb_ℤ (pos 0) x then x else y

abbrev pub has_limit_fn : Option (List Text → ℤ × ℤ) → Bool
has_limit_fn none = false
has_limit_fn (some f) = true

-- The overlay of the group: the caller's, then what `limitFn` gives.
unfoldable pub overlay : Account → ℤ → ℤ → ℤ × ℤ
overlay a overlay_rpm overlay_daily =
    let (fr, fd) = ask_groups a.limit_fn a.groups in
    if has_limit_fn a.limit_fn
    then (or_else overlay_rpm fr, or_else overlay_daily fd)
    else (overlay_rpm, overlay_daily)

-- `effectiveLimitsLocked`.
unfoldable pub effective_limits : Account → ℤ → ℤ → ℤ × ℤ
unfolding overlay
effective_limits a overlay_rpm overlay_daily =
    let (g_rpm, g_daily) = overlay a overlay_rpm overlay_daily in
    if ltb_ℤ (pos 0) a.rpm && ltb_ℤ (pos 0) a.daily_max
    then (a.rpm, a.daily_max)
    else (or_else a.rpm g_rpm, or_else a.daily_max g_daily)

-- `limit > 0 && n >= limit`.
abbrev pub reaches : ℕ → ℤ → Bool
reaches n (pos k) = ltb 0 k && leb k n
reaches n (negsuc k) = false

-- The answer of `overLimitLocked` on an account that is pruned already.
unfoldable pub at_limit : Account → ℤ × ℤ → Bool
at_limit a (rpm, daily) = reaches (length a.use_times) rpm || reaches a.daily_count daily

-- `overLimitLocked`: it prunes, then compares.
unfoldable pub over_limit : Account → ℕ → ℤ → ℤ → Account × Bool
unfolding prune_uses effective_limits at_limit
over_limit a now overlay_rpm overlay_daily =
    let p = prune_uses a now in (p, at_limit p (effective_limits p overlay_rpm overlay_daily))
