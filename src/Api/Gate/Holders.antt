-- ===== src/Api/Gate/Holders.antt =====
-- The gate while its capacity does not change: its channel counts the requests inside.
use chatgpt_prism2api.Base.{
  ℕ, zero, suc, ◌+◌, ◌-◌, ◌<◌, ◌≤◌, ◌≡◌, refl, ◌∙◌, ◌⊎◌, inl, inr, true, Option, none, some, List,
  [], ◌∷◌, arith, ltb, ◌==◌, All, length, if_both, not, ◌&&◌, ◌||◌, Bool-cases, subst, All-mono,
}
use chatgpt_prism2api.Base.Dict.{lookup, insert, lookup-insert, nat_eq}
use chatgpt_prism2api.Api.Gate.{
  Gate, GateEntry, passes, holds, waits_for, refresh_gate, replace_gate, enter, gate_acquire, leave,
  gate_recheck_interval, fits, has_gate,
}
use chatgpt_prism2api.Api.Gate.Resize.{gives_back}

-- A request comes at a time, or the one at a place of the list of those inside ends.
pub data GateCall : Type 0 where
  comes ends : ℕ → GateCall

abbrev admitted : GateEntry → List ℕ → List ℕ
admitted passes inside = inside
admitted (holds h) inside = h ∷ inside
admitted (waits_for h) inside = inside

unfoldable pub at_place : ℕ → List ℕ → Option ℕ
at_place n [] = none
at_place zero (h ∷ hs) = some h
at_place (suc n) (h ∷ hs) = at_place n hs

unfoldable pub drop_place : ℕ → List ℕ → List ℕ
drop_place n [] = []
drop_place zero (h ∷ hs) = hs
drop_place (suc n) (h ∷ hs) = h ∷ drop_place n hs

-- A request that finds its channel empty stays.
abbrev after_leave : Option Gate → Gate → ℕ → List ℕ → Gate × List ℕ
after_leave none g n inside = (g, inside)
after_leave (some z) g n inside = (z, drop_place n inside)

abbrev end_at : Option ℕ → Gate → ℕ → List ℕ → Gate × List ℕ
end_at none g n inside = (g, inside)
end_at (some h) g n inside = after_leave (leave g h) g n inside

-- The gate with the channels that the requests inside have entered.
unfoldable pub run_gate : ℕ → List GateCall → Gate → List ℕ → Gate × List ℕ
run_gate want [] g inside = (g, inside)
run_gate want (comes now ∷ calls) g inside =
    let (r, e) = gate_acquire g now want in run_gate want calls r (admitted e inside)
run_gate want (ends n ∷ calls) g inside =
    let (r, rest) = end_at (at_place n inside) g n inside in run_gate want calls r rest

-- The current channel has the capacity and a token for each request inside, and all have entered it.
abbrev pub IsOpen : ℕ → Gate → List ℕ → Type 0
IsOpen want g inside =
    (h : ℕ) × (g.current ≡ some h)
    × (lookup h g.chans ≡ some (record { cap = want; used = length inside }))
    × (length inside ≤ want)
    × All (λ k. k ≡ h) inside

-- There is no channel and nobody inside, or the gate is open.
abbrev pub IsCounted : ℕ → Gate → List ℕ → Type 0
IsCounted want g inside = ((g.current ≡ none) × (inside ≡ [])) ⊎ IsOpen want g inside

same : (n : ℕ) → (n == n) ≡ true
same n = ground arith

refresh-IsOpen :
    (g : Gate) (now want : ℕ) (inside : List ℕ)
    → 0 < want
    → IsCounted want g inside
    → IsOpen want (refresh_gate g now want) inside
unfolding refresh_gate replace_gate
refresh-IsOpen g now want inside p (inl (e, empty)) =
    let q : ltb 0 want ≡ true = ground arith in
    rw (e, q, empty)
      (
        g.fresh,
        refl,
        rw (lookup-insert g.fresh g.fresh (record { cap = want; used = 0 }) g.chans, same g.fresh)
            refl,
        omega arith,
        tt,
      )
refresh-IsOpen g now want inside p (inr (h, e, at, few, all)) =
    let fit : fits g.chans g.current want ≡ true = rw (e, at) (same want) in
    rw fit (
      if_both (λ (z : Gate). IsOpen want z inside)
        ((not (has_gate g.current) || ltb (g.checked_at + gate_recheck_interval) now) && ltb 0 want)
        (h, e, at, few, all) (h, e, at, few, all))

enter-IsOpen :
    (g : Gate) (want : ℕ) (inside : List ℕ)
    → IsOpen want g inside
    → IsOpen want (enter g g.current).0 (admitted (enter g g.current).1 inside)
unfolding enter
enter-IsOpen g want inside (h, e, at, few, all) = elim (Bool-cases (ltb (length inside) want)) [
  | inl q ↦
      rw (e, at, q)
        (
          h,
          refl,
          rw (lookup-insert h h (record { cap = want; used = length inside + 1 }) g.chans, same h)
              (ground arith),
          ground arith,
          (refl, all),
        )
  | inr q ↦ rw (e, at, q) (h, refl, at, few, all)
]

All-at_place :
    (P : ℕ → Type 0) (n k : ℕ) (hs : List ℕ)
    → at_place n hs ≡ some k
    → All P hs
    → P k × (length (drop_place n hs) + 1 ≡ length hs) × All P (drop_place n hs)
unfolding at_place drop_place
All-at_place P n k [] e a = absurd (none_not e)
  where
    none_not : none ≡ some k → ⊥
    none_not e = cc
All-at_place P zero k (h ∷ hs) e a = (subst P (same_head e) a.0, omega arith, a.1)
  where
    same_head : some h ≡ some k → h ≡ k
    same_head e = cc
All-at_place P (suc n) k (h ∷ hs) e a =
    let (p, l, rest) = All-at_place P n k hs e a.1 in (p, omega (arith, l), (a.0, rest))

leave_at :
    (g : Gate) (want h used : ℕ)
    → lookup h g.chans ≡ some (record { cap = want; used = used + 1 })
    → leave g h ≡ some (record g { chans = insert h (record { cap = want; used = used }) g.chans })
unfolding leave
leave_at g want h used at =
    let back : used + 1 - 1 ≡ used = omega arith in
    let some_used : ltb 0 (used + 1) ≡ true = ground arith in rw (at, some_used, back) refl

end-IsOpen :
    (g : Gate) (want n : ℕ) (inside : List ℕ) (o : Option ℕ)
    → at_place n inside ≡ o
    → IsOpen want g inside
    → IsOpen want (end_at o g n inside).0 (end_at o g n inside).1
end-IsOpen g want n inside none e i = i
end-IsOpen g want n inside (some k) e (h, cur, at, few, all) =
    let (place, count, rest) = All-at_place (λ j. j ≡ h) n k inside e all in
    let used = length (drop_place n inside) in
    let held : lookup h g.chans ≡ some (record { cap = want; used = used + 1 }) = rw count at in
    rw (place, leave_at g want h used held)
      (
        h,
        cur,
        rw (lookup-insert h h (record { cap = want; used = used }) g.chans, same h) refl,
        omega (arith, few, count),
        rest,
      )

end-IsCounted :
    (g : Gate) (want n : ℕ) (inside : List ℕ)
    → IsCounted want g inside
    → IsCounted want
        (end_at (at_place n inside) g n inside).0
        (end_at (at_place n inside) g n inside).1
unfolding at_place
end-IsCounted g want n inside (inl (e, empty)) = rw empty (inl (e, refl))
end-IsCounted g want n inside (inr o) = inr (end-IsOpen g want n inside (at_place n inside) refl o)

run_gate-IsCounted :
    (want : ℕ) (calls : List GateCall) (g : Gate) (inside : List ℕ)
    → 0 < want
    → IsCounted want g inside
    → IsCounted want (run_gate want calls g inside).0 (run_gate want calls g inside).1
unfolding run_gate gate_acquire
run_gate-IsCounted want [] g inside p c = c
run_gate-IsCounted want (comes now ∷ calls) g inside p c = run_gate-IsCounted want calls _ _ p (
    inr (enter-IsOpen (refresh_gate g now want) want inside (refresh-IsOpen g now want inside p c)))
run_gate-IsCounted want (ends n ∷ calls) g inside p c =
    run_gate-IsCounted want calls _ _ p (end-IsCounted g want n inside c)

open_leaves :
    (want h : ℕ) (g : Gate) (inside : List ℕ)
    → lookup h g.chans ≡ some (record { cap = want; used = length inside })
    → All (λ k. k ≡ h) inside
    → All (λ k. gives_back (leave g k) ≡ true) inside
open_leaves want h g [] at all = tt
open_leaves want h g (x ∷ xs) at all = All-mono (λ k. k ≡ h) _ (x ∷ xs) freed all
  where
    freed : (k : ℕ) → k ≡ h → gives_back (leave g k) ≡ true
    freed k e =
        let one_more : length (x ∷ xs) ≡ length xs + 1 = omega arith in
        let held : lookup h g.chans ≡ some (record { cap = want; used = length xs + 1 }) =
          at ∙ rw one_more refl in
        rw (e, leave_at g want h (length xs) held) refl

counted_leaves :
    (want : ℕ) (g : Gate) (inside : List ℕ)
    → IsCounted want g inside
    → (length inside ≤ want) × All (λ k. gives_back (leave g k) ≡ true) inside
counted_leaves want g inside (inl (e, empty)) = rw empty (omega arith, tt)
counted_leaves want g inside (inr (h, e, at, few, all)) = (few, open_leaves want h g inside at all)

-- While the configured capacity is positive and stays what it is, from a gate that counts the requests
-- inside (one without a channel, and nobody inside, is such a gate), whatever requests come and end: no
-- more of them are inside than the capacity, each of them can give back its slot at once, and the gate
-- still counts them.
pub run_gate_lem :
    (want : ℕ) (calls : List GateCall) (g : Gate) (inside : List ℕ)
    → 0 < want
    → IsCounted want g inside
    → let (z, rest) = run_gate want calls g inside in
      (length rest ≤ want) × All (λ h. gives_back (leave z h) ≡ true) rest × IsCounted want z rest
run_gate_lem want calls g inside p c =
    let counted = run_gate-IsCounted want calls g inside p c in
    let (few, free) =
      counted_leaves want (run_gate want calls g inside).0 (run_gate want calls g inside).1
        counted in
    (few, free, counted)
