-- ===== src/Api/Gate.antt =====
-- internal/api/gate.go and the release in server.go: the gate before every API request.
-- A channel is its capacity with the number of tokens in it; the requests hold the number of the channel that
-- they entered. What a request meets that waits for its slot is an argument.
pub mod Resize
pub mod Holders
use chatgpt_prism2api.Base.{
  ℕ, zero, suc, ◌+◌, ◌-◌, ◌*◌, ◌<◌, ◌≡◌, Bool, true, false, not, ◌&&◌, ◌||◌, Option, none, some,
  List, [], ◌∷◌, ltb, ◌==◌, if◌then◌else◌,
}
use chatgpt_prism2api.Base.Int.{ℤ, pos, ltb_ℤ, pos_part}
use chatgpt_prism2api.Base.Dict.{lookup, insert, nat_eq}
use chatgpt_prism2api.FailClass.{second}

pub record Chan : Type 0 where
  pub cap : ℕ
  pub used : ℕ

-- The fields `gate` and `gateCheckedAt` of the server, with all the channels made so far.
pub record Gate : Type 0 where
  pub chans : List (ℕ × Chan)
  pub fresh : ℕ
  pub current : Option ℕ
  pub checked_at : ℕ

-- `GatewayConcurrencyN`, `AccountConcurrencyN` and `GatewayQueueSecN` of the configuration.
pub record GateSettings : Type 0 where
  pub gateway_concurrency : ℤ
  pub account_concurrency : ℤ
  pub gateway_queue_sec : ℤ

abbrev gate_recheck_interval : ℕ
gate_recheck_interval = 30 * second

abbrev gate_default_queue_sec : ℕ
gate_default_queue_sec = 30

abbrev if_positive : ℤ → ℕ → ℕ
if_positive n other = if ltb_ℤ (pos 0) n then pos_part n else other

-- `gateCapacity`, for a pool of some accounts.
unfoldable pub gate_capacity : Option GateSettings → ℕ → ℕ
gate_capacity none count = 0
gate_capacity (some r) count =
    if_positive r.gateway_concurrency (count * if_positive r.account_concurrency 100)

-- `gateQueueSec`.
unfoldable pub gate_queue : Option GateSettings → ℕ
gate_queue none = gate_default_queue_sec * second
gate_queue (some r) = if_positive r.gateway_queue_sec gate_default_queue_sec * second

-- The loop `drain`, with nobody waiting to enter the old channel: tokens go from the old channel to the new one until the old one is empty or a token
-- finds no room.
unfoldable pub drain : ℕ → ℕ → ℕ → ℕ × ℕ
drain zero cap moved = (0, moved)
drain (suc old) cap moved =
    let rest = drain old cap (moved + 1) in if ltb moved cap then rest else (old, moved)

-- A new channel of the capacity, with the tokens of the old one.
abbrev replaced : Option Chan → ℕ → ℕ → ℕ → List (ℕ × Chan) → List (ℕ × Chan)
replaced none old want fresh chans = insert fresh (record { cap = want; used = 0 }) chans
replaced (some c) old want fresh chans =
    let (left, moved) = drain c.used want 0 in
    insert fresh (record { cap = want; used = moved }) (insert old (record c { used = left }) chans)

unfoldable pub replace_gate : Gate → ℕ → Option ℕ → Gate
unfolding drain
replace_gate g want none = record g {
  chans = insert g.fresh (record { cap = want; used = 0 }) g.chans;
  fresh = g.fresh + 1;
  current = some g.fresh;
}
replace_gate g want (some old) = record g {
  chans = replaced (lookup old g.chans) old want g.fresh g.chans;
  fresh = g.fresh + 1;
  current = some g.fresh;
}

abbrev has_cap : Option Chan → ℕ → Bool
has_cap none want = false
has_cap (some c) want = c.cap == want

abbrev fits : List (ℕ × Chan) → Option ℕ → ℕ → Bool
fits chans none want = false
fits chans (some h) want = has_cap (lookup h chans) want

abbrev has_gate : Option ℕ → Bool
has_gate none = false
has_gate (some h) = true

-- The part of `gateAcquire` under the mutex.
unfoldable pub refresh_gate : Gate → ℕ → ℕ → Gate
unfolding replace_gate
refresh_gate g now want =
    let due = not (has_gate g.current) || ltb (g.checked_at + gate_recheck_interval) now in
    let next = if fits g.chans g.current want then g else replace_gate g want g.current in
    if due && ltb 0 want then record next { checked_at = now } else g

-- What a request gets from the gate: it passes without a slot, it has a slot of a channel, or it finds the
-- channel full and waits until a slot is free, its time is over or its context ends.
pub data GateEntry : Type 0 where
  passes : GateEntry
  holds : ℕ → GateEntry
  waits_for : ℕ → GateEntry

abbrev enter_chan : Option Chan → ℕ → Gate → Gate × GateEntry
enter_chan none h g = (g, waits_for h)
enter_chan (some c) h g =
    if ltb c.used c.cap
    then (record g { chans = insert h (record c { used = c.used + 1 }) g.chans }, holds h)
    else (g, waits_for h)

-- The send on the channel that was read under the mutex.
unfoldable pub enter : Gate → Option ℕ → Gate × GateEntry
enter g none = (g, passes)
enter g (some h) = enter_chan (lookup h g.chans) h g

-- `gateAcquire`.
unfoldable pub gate_acquire : Gate → ℕ → ℕ → Gate × GateEntry
unfolding refresh_gate enter
gate_acquire g now want = let r = refresh_gate g now want in enter r r.current

-- The deferred `<-gch`: none when the channel is empty, so that the handler waits.
abbrev leave_chan : Option Chan → ℕ → Gate → Option Gate
leave_chan none h g = none
leave_chan (some c) h g =
    if ltb 0 c.used
    then some (record g { chans = insert h (record c { used = c.used - 1 }) g.chans })
    else none

unfoldable pub leave : Gate → ℕ → Option Gate
leave g h = leave_chan (lookup h g.chans) h g
