-- ===== src/Scheduler/Select/RoundRobin.antt =====
-- The round robin picks a candidate whenever there is one, and reaches every one in a lap.
use native.Mathlib.Nat.{mod-lt, mod-eq_of_lt, div-add-mod, mul-add-mod_self_left}
use chatgpt_prism2api.Base.{
  ℕ, zero, suc, ◌+◌, ◌-◌, ◌*◌, ◌/◌, ◌%◌, ◌<◌, ◌≡◌, refl, ◌∙◌, true, false, some, List, [], ◌∷◌,
  arith, leb, tests, Bool-cases, inl, inr, if◌then◌else◌, length, get_elem?,
}
use chatgpt_prism2api.Base.Text.{Text}
use chatgpt_prism2api.Base.Dict.{lookup-insert, beq_refl, text_key}
use chatgpt_prism2api.Account.State.{Account}
use chatgpt_prism2api.Scheduler.Select.{round_robin_pick, cursor, cursor_limit}

get_elem?-in :
    {A : Type 0} (xs : List A) (i : ℕ) → i < length xs → (x : A) × (get_elem? xs i ≡ some x)
get_elem?-in [] i h = elim h [ ]
get_elem?-in (x ∷ xs) zero h = (x, refl)
get_elem?-in (x ∷ xs) (suc i) h = get_elem?-in xs i (omega arith)

-- The cursors after some picks over the same candidates.
pub after : ℕ → List (Text × ℕ) → Text → List Account → List (Text × ℕ)
after zero cursors key accounts = cursors
after (suc k) cursors key accounts = after k (round_robin_pick cursors key accounts).0 key accounts

cursor-pick :
    (cursors : List (Text × ℕ)) (key : Text) (a : Account) (more : List Account)
    → cursor key cursors + 1 < cursor_limit
    → cursor key (round_robin_pick cursors key (a ∷ more)).0 ≡ cursor key cursors + 1
unfolding round_robin_pick
cursor-pick cursors key a more h =
    ground (arith, lookup-insert key key (cursor key cursors + 1) cursors, beq_refl key)

cursor-after :
    (k : ℕ) (cursors : List (Text × ℕ)) (key : Text) (a : Account) (more : List Account)
    → cursor key cursors + k < cursor_limit
    → cursor key (after k cursors key (a ∷ more)) ≡ cursor key cursors + k
unfolding after
cursor-after zero cursors key a more h = omega arith
cursor-after (suc k) cursors key a more h =
    let step = cursor-pick cursors key a more (omega arith) in
    let rest = (round_robin_pick cursors key (a ∷ more)).0 in
    cursor-after k rest key a more (omega arith) ∙ omega arith

-- The number of picks after which the position `p` of `n` comes, from the index `i`.
wait_of : ℕ → ℕ → ℕ → ℕ
wait_of i p n = if leb (i % n) p then p - i % n else n - i % n + p

mod_of_eq : (x p n q : ℕ) → p < n → x ≡ n * q + p → x % n ≡ p
mod_of_eq x p n q h e = rw e (mul-add-mod_self_left n q p ∙ mod-eq_of_lt h)

ahead : (i p n : ℕ) → leb (i % n) p ≡ true → wait_of i p n ≡ p - i % n
unfolding wait_of
ahead i p n e = ground arith

behind : (i p n : ℕ) → leb (i % n) p ≡ false → wait_of i p n ≡ n - i % n + p
unfolding wait_of
behind i p n e = ground arith

wait_of_lem : (i p n : ℕ) → p < n → (wait_of i p n < n) × ((i + wait_of i p n) % n ≡ p)
wait_of_lem i p n h = elim (Bool-cases (leb (i % n) p)) [
  | inl e ↦
      rw (ahead i p n e)
        (omega arith, mod_of_eq _ p n (i / n) h (omega (tests, e, div-add-mod i n)))
  | inr e ↦
      let above : p < i % n = ground arith in
      let below : i % n < n = mod-lt i (omega arith) in
      rw (behind i p n e)
        (omega arith, mod_of_eq _ p n (i / n + 1) h (omega (arith, div-add-mod i n)))
]

-- From any cursor that is not near its limit, each candidate is picked within one lap: for the one at
-- position `p` there is a number of picks below the number of candidates after which the next pick
-- answers it.
pub round_robin_lap :
    (cursors : List (Text × ℕ)) (key : Text) (a : Account) (more : List Account) (p : ℕ)
    → p < length (a ∷ more)
    → cursor key cursors + length (a ∷ more) < cursor_limit
    → (k : ℕ) × (k < length (a ∷ more))
      × ((round_robin_pick (after k cursors key (a ∷ more)) key (a ∷ more)).1
          ≡ get_elem? (a ∷ more) p)
unfolding round_robin_pick
round_robin_lap cursors key a more p h room =
    let n = length (a ∷ more) in
    let i = cursor key cursors in
    let w = wait_of_lem i p n h in
    (wait_of i p n, w.0, rw (cursor-after (wait_of i p n) cursors key a more (omega arith), w.1))

-- A pick over some candidates always answers one of them.
pub round_robin_total :
    (cursors : List (Text × ℕ)) (key : Text) (a : Account) (more : List Account)
    → (b : Account) × ((round_robin_pick cursors key (a ∷ more)).1 ≡ some b)
unfolding round_robin_pick
round_robin_total cursors key a more =
    get_elem?-in (a ∷ more) _ (mod-lt (cursor key cursors) (omega arith))
