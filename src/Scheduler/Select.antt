-- ===== src/Scheduler/Select.antt =====
-- internal/scheduler/select.go: the strategies, each over a list of candidates.
pub mod RoundRobin
pub mod Tier
use chatgpt_prism2api.Base.{
  ℕ, suc, ◌+◌, ◌-◌, ◌%◌, ◌^◌, ◌≡◌, refl, Bool, true, false, not, ◌&&◌, ◌||◌, Option, none, some,
  List, [], ◌∷◌, ltb, leb, ◌==◌, if◌then◌else◌, length, get_elem?, select,
}
use chatgpt_prism2api.Base.Int.{ℤ, pos, negsuc, ltb_ℤ, ◌+ℤ◌, ◌-ℤ◌}
use chatgpt_prism2api.Base.Text.{Text, text_lt}
use chatgpt_prism2api.Base.Dict.{lookup, insert, erase, text_key}
use chatgpt_prism2api.GroupNames.{has_name}
use chatgpt_prism2api.Account.State.{Account, effective_weight}

-- `m[k]` on a map of numbers: zero for a missing key.
abbrev pub or_zero : Option ℕ → ℕ
or_zero none = 0
or_zero (some n) = n

abbrev pub or_zero_ℤ : Option ℤ → ℤ
or_zero_ℤ none = pos 0
or_zero_ℤ (some n) = n

abbrev pub cursor_limit : ℕ
cursor_limit = 2_147_483_640

-- The cursor that a pick uses: past the limit it starts again.
unfoldable pub cursor : Text → List (Text × ℕ) → ℕ
cursor key cursors =
    let index = or_zero (lookup key cursors) in if leb cursor_limit index then 0 else index

-- `roundRobinState.pick`: the cursors, and the account picked.
unfoldable pub round_robin_pick :
    List (Text × ℕ) → Text → List Account → List (Text × ℕ) × Option Account
unfolding cursor
round_robin_pick cursors key [] = (cursors, none)
round_robin_pick cursors key (a ∷ more) =
    let index = cursor key cursors in
    (insert key (index + 1) cursors, get_elem? (a ∷ more) (index % length (a ∷ more)))

abbrev pub max_int64 : ℤ
max_int64 = pos (2 ^ 63 - 1)

abbrev pub min_int64 : ℤ
min_int64 = negsuc (2 ^ 63 - 1)

-- `saturatingAdd` on int64; neither bound minus the delta overflows where it is compared.
unfoldable pub saturating_add : ℤ → ℤ → ℤ
unfolding ◌+ℤ◌ ◌-ℤ◌
saturating_add value delta =
    if ltb_ℤ (pos 0) delta && ltb_ℤ (max_int64 -ℤ delta) value
    then max_int64
    else if ltb_ℤ delta (pos 0) && ltb_ℤ value (min_int64 -ℤ delta)
    then min_int64
    else value +ℤ delta

-- The variables of the loop of `pickSmoothWeighted`.
pub record Turn : Type 0 where
  pub active : List Text
  pub current : List (Text × ℤ)
  pub picked : Option Account
  pub picked_current : ℤ
  pub total_weight : ℤ

abbrev pub is_none : Option Account → Bool
is_none none = true
is_none (some a) = false

-- One round: the account's current weight grows by its weight, and the first largest is picked.
unfoldable pub weigh : Turn → Account → Turn
unfolding effective_weight saturating_add
weigh t a =
    let w = effective_weight a in
    let grown = saturating_add (or_zero_ℤ (lookup a.id t.current)) w in
    let takes = is_none t.picked || ltb_ℤ t.picked_current grown in
    if ltb_ℤ (pos 0) w
    then record {
      active = a.id ∷ t.active;
      current = insert a.id grown t.current;
      picked = if takes then some a else t.picked;
      picked_current = if takes then grown else t.picked_current;
      total_weight = saturating_add t.total_weight w;
    }
    else t

unfoldable pub weigh_all : Turn → List Account → Turn
weigh_all t [] = t
weigh_all t (a ∷ more) = weigh_all (weigh t a) more

-- The entries of the accounts that are not active are deleted.
unfoldable pub keep_active : List Text → List (Text × ℤ) → List (Text × ℤ)
keep_active active [] = []
keep_active active ((k, v) ∷ m) =
    let rest = keep_active active m in if has_name k active then (k, v) ∷ rest else rest

-- The picked account pays the total weight.
unfoldable pub settle : Turn → List (Text × ℤ) → Option Account → List (Text × ℤ)
unfolding saturating_add
settle t kept none = kept
settle t kept (some a) =
    insert a.id (saturating_add (or_zero_ℤ (lookup a.id kept)) (pos 0 -ℤ t.total_weight)) kept

abbrev pub first_turn : List (Text × ℤ) → Turn
first_turn current = record {
  active = [];
  current = current;
  picked = none;
  picked_current = pos 0;
  total_weight = pos 0;
}

-- `pickSmoothWeighted`: the current weights, and the account picked.
unfoldable pub pick_smooth : List Account → List (Text × ℤ) → List (Text × ℤ) × Option Account
unfolding weigh_all settle keep_active
pick_smooth accounts current =
    let t = weigh_all (first_turn current) accounts in
    (settle t (keep_active t.active t.current) t.picked, t.picked)

-- The loop of `weightVector`.
unfoldable pub weights_from : List (Text × ℤ) → List Account → List (Text × ℤ)
unfolding effective_weight
weights_from out [] = out
weights_from out (a ∷ more) =
    weights_from
      (if ltb_ℤ (pos 0) (effective_weight a) then insert a.id (effective_weight a) out else out)
      more

abbrev pub eq_ℤ : ℤ → ℤ → Bool
eq_ℤ a b = not (ltb_ℤ a b) && not (ltb_ℤ b a)

unfoldable pub agrees_with : List (Text × ℤ) → List (Text × ℤ) → Bool
agrees_with [] right = true
agrees_with ((k, w) ∷ left) right = eq_ℤ (or_zero_ℤ (lookup k right)) w && agrees_with left right

-- `weightVectorsEqual`.
unfoldable pub weight_vectors_equal : List (Text × ℤ) → List (Text × ℤ) → Bool
unfolding agrees_with
weight_vectors_equal left right = (length left == length right) && agrees_with left right

-- `smoothWeightedState`: the current weights and the weight vector they belong to.
pub record Smooth : Type 0 where
  pub current : List (Text × ℤ)
  pub weights : List (Text × ℤ)

-- The current weights that a pick starts from: none, if the weight vector is another one.
unfoldable pub carried : Option Smooth → List (Text × ℤ) → List (Text × ℤ)
unfolding weight_vectors_equal
carried none weights = []
carried (some st) weights = if weight_vectors_equal st.weights weights then st.current else []

-- `weightedState.pick`.
unfoldable pub weighted_pick :
    List (Text × Smooth) → Text → List Account → List (Text × Smooth) × Option Account
unfolding carried weights_from pick_smooth
weighted_pick states key accounts =
    let weights = weights_from [] accounts in
    let (current, picked) = pick_smooth accounts (carried (lookup key states) weights) in
    (insert key (record { current = current; weights = weights }) states, picked)

-- The loop of `highestPriority`: the best priority and how many have it.
abbrev pub next_best : ℤ → ℤ → ℤ
next_best best p = if ltb_ℤ best p then p else best

abbrev pub next_count : ℤ → ℤ → ℕ → ℕ
next_count best p count = if ltb_ℤ best p then 1 else if eq_ℤ p best then suc count else count

unfoldable pub best_priority : ℤ → ℕ → List Account → ℤ × ℕ
best_priority best count [] = (best, count)
best_priority best count (a ∷ more) =
    best_priority (next_best best a.priority) (next_count best a.priority count) more

-- `highestPriority`.
unfoldable pub highest_priority : List Account → List Account
unfolding best_priority
highest_priority [] = []
highest_priority (a ∷ []) = a ∷ []
highest_priority (a ∷ b ∷ more) =
    let (best, count) = best_priority a.priority 1 (b ∷ more) in
    if count == length (a ∷ b ∷ more)
    then a ∷ b ∷ more
    else select (λ c. eq_ℤ c.priority best) (a ∷ b ∷ more)

-- `positiveWeight`.
unfoldable pub positive_weight : List Account → List Account
unfolding effective_weight
positive_weight accounts = select (λ a. ltb_ℤ (pos 0) (effective_weight a)) accounts

unfoldable pub insert_by_id : Account → List Account → List Account
insert_by_id a [] = a ∷ []
insert_by_id a (b ∷ bs) =
    let rest = insert_by_id a bs in if text_lt b.id a.id then b ∷ rest else a ∷ b ∷ bs

-- `sortByID`. Identifiers are distinct, so the sorted list does not depend on the algorithm.
unfoldable pub sort_by_id : List Account → List Account
unfolding insert_by_id text_lt
sort_by_id [] = []
sort_by_id (a ∷ more) = insert_by_id a (sort_by_id more)
