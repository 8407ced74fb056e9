-- ===== src/Api/Gate/Resize.antt =====
-- What a change of the capacity does to the requests in flight.
use chatgpt_prism2api.Base.{
  ℕ, zero, suc, ◌+◌, ◌-◌, ◌<◌, ◌≤◌, ◌≡◌, refl, true, false, none, some, arith, ltb, leb, ◌==◌, ◌∙◌,
  Option, Bool, if◌then◌else◌,
}
use chatgpt_prism2api.Base.Dict.{lookup, insert, lookup-insert, nat_eq}
use chatgpt_prism2api.Api.Gate.{
  Gate, Chan, drain, replace_gate, refresh_gate, leave, gate_recheck_interval,
}

drain_lem :
    (old cap moved : ℕ)
    → moved ≤ cap
    → drain old cap moved
      ≡ (old + moved - (cap + 1), if leb (old + moved) cap then old + moved else cap)
unfolding drain
drain_lem zero cap moved l = ground arith
drain_lem (suc old) cap moved l = ground (arith, drain_lem old cap (moved + 1))

same : (n : ℕ) → (n == n) ≡ true
same n = ground arith

-- Whether a request gives back its slot at once.
abbrev pub gives_back : Option Gate → Bool
gives_back none = false
gives_back (some g) = true

-- When a recheck is due and finds a positive capacity other than the one of the channel, the tokens of the
-- requests in flight go over to the new channel as far as it has room, and one more is lost where it has
-- not. The old channel, on which those requests give back their slots, keeps the others only: with no more
-- requests in flight than one above the new capacity, none of them can give back its slot.
pub resize_strands :
    (g : Gate) (now want old : ℕ) (c : Chan)
    → g.current ≡ some old
    → lookup old g.chans ≡ some c
    → (g.fresh == old) ≡ false
    → g.checked_at + gate_recheck_interval < now
    → 0 < want
    → (c.cap == want) ≡ false
    → let r = refresh_gate g now want in
      let moved = if leb c.used want then c.used else want in
      (r.current ≡ some g.fresh)
      × (lookup g.fresh r.chans ≡ some (record { cap = want; used = moved }))
      × (lookup old r.chans ≡ some (record c { used = c.used - (want + 1) }))
      × (gives_back (leave r old) ≡ ltb (want + 1) c.used)
unfolding refresh_gate replace_gate leave
resize_strands g now want old c ec el apart due some_want other =
    let d : ltb (g.checked_at + gate_recheck_interval) now ≡ true = ground arith in
    let p : ltb 0 want ≡ true = ground arith in
    let moved = if leb c.used want then c.used else want in
    let none_yet : c.used + 0 ≡ c.used = omega arith in
    let all : drain c.used want 0 ≡ (c.used - (want + 1), moved) =
      drain_lem c.used want 0 (omega arith) ∙ rw none_yet refl in
    let new : Chan = record { cap = want; used = moved } in
    let emptied : Chan = record c { used = c.used - (want + 1) } in
    rw
      (
        ec,
        el,
        d,
        p,
        other,
        all,
        lookup-insert g.fresh g.fresh new (insert old emptied g.chans),
        lookup-insert g.fresh old new (insert old emptied g.chans),
        apart,
        lookup-insert old old emptied g.chans,
        same g.fresh,
        same old,
      )
      (refl, refl, refl, ground arith)
