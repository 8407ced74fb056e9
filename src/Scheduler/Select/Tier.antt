-- ===== src/Scheduler/Select/Tier.antt =====
-- The tier that the strategies pick from: all candidates of the highest priority, by identifier.
use mathlib.Core.List.{Perm}
use mathlib.Core.List.Perm
use chatgpt_prism2api.Base.{
  ℕ, suc, ◌+◌, ◌<◌, ◌≡◌, refl, ap, sym, ◌∙◌, Bool, true, false, List, [], ◌∷◌, arith, ◌==◌,
  if◌then◌else◌, length, select, All, length-select-le, Bool-cases, inl, inr,
}
use chatgpt_prism2api.Base.Int.{ℤ, ◌≤ℤ◌}
use chatgpt_prism2api.Base.Text.{Text, text_lt}
use chatgpt_prism2api.Account.State.{Account}
use chatgpt_prism2api.Scheduler.Select.{
  next_best, next_count, best_priority, highest_priority, eq_ℤ, insert_by_id, sort_by_id,
}

abbrev pub has_priority : ℤ → Account → Bool
has_priority best c = eq_ℤ c.priority best

next_best_bound : (best p : ℤ) → (best ≤ℤ next_best best p) × (p ≤ℤ next_best best p)
next_best_bound best p = (ground arith, ground arith)

-- The best priority is that of the start or of some account, and no account is above it.
best_bound :
    (best : ℤ) (count : ℕ) (more : List Account)
    → (best ≤ℤ (best_priority best count more).0)
      × All (λ a. a.priority ≤ℤ (best_priority best count more).0) more
unfolding best_priority
best_bound best count [] = (omega arith, tt)
best_bound best count (a ∷ more) =
    let ih = best_bound (next_best best a.priority) (next_count best a.priority count) more in
    let up = next_best_bound best a.priority in
    (omega (arith, ih.0, up.0), (omega (arith, ih.0, up.1), ih.1))

eq_ℤ_refl : (a : ℤ) → eq_ℤ a a ≡ true
eq_ℤ_refl a = ground arith

count_step :
    (best p r : ℤ) (count n : ℕ)
    → best ≤ℤ r
    → p ≤ℤ r
    → n + (if eq_ℤ (next_best best p) r then next_count best p count else 0)
      ≡ (if eq_ℤ p r then suc n else n) + (if eq_ℤ best r then count else 0)
count_step best p r count n h k = ground arith

length-if :
    (b : Bool) (a : Account) (xs : List Account)
    → length (if b then a ∷ xs else xs) ≡ (if b then suc (length xs) else length xs)
length-if true a xs = refl
length-if false a xs = refl

best_count :
    (best : ℤ) (count : ℕ) (more : List Account)
    → (best_priority best count more).1
      ≡ length (select (has_priority (best_priority best count more).0) more)
        + (if eq_ℤ best (best_priority best count more).0 then count else 0)
unfolding best_priority select
best_count best count [] = rw (eq_ℤ_refl best) (omega arith)
best_count best count (a ∷ more) =
    let bound = best_bound best count (a ∷ more) in
    best_count (next_best best a.priority) (next_count best a.priority count) more
    ∙ count_step best a.priority (best_priority best count (a ∷ more)).0 count
        (length (select (has_priority (best_priority best count (a ∷ more)).0) more)) bound.0
        bound.1.0
    ∙ ap (λ n. n + (if eq_ℤ best (best_priority best count (a ∷ more)).0 then count else 0))
        (sym (length-if _ a _))

select_full :
    (p : Account → Bool) (xs : List Account) → length (select p xs) ≡ length xs → select p xs ≡ xs
unfolding select
select_full p [] h = refl
select_full p (x ∷ xs) h = ground (arith, select_full p xs, length-select-le p xs)

choose_lem :
    (p : Account → Bool) (xs : List Account) (count : ℕ)
    → length (select p xs) ≡ count
    → (if count == length xs then xs else select p xs) ≡ select p xs
choose_lem p xs count e = ground (arith, select_full p xs)

best_pos :
    (best : ℤ) (count : ℕ) (more : List Account) → 0 < count → 0 < (best_priority best count more).1
unfolding best_priority
best_pos best count [] h = h
best_pos best count (a ∷ more) h =
    best_pos (next_best best a.priority) (next_count best a.priority count) more (ground arith)

select_count :
    (a : Account) (more : List Account)
    → length (select (has_priority (best_priority a.priority 1 more).0) (a ∷ more))
      ≡ (best_priority a.priority 1 more).1
unfolding select
select_count a more =
    length-if (has_priority (best_priority a.priority 1 more).0 a) a
      (select (has_priority (best_priority a.priority 1 more).0) more)
    ∙ ground (arith, best_count a.priority 1 more)

-- `highestPriority` answers exactly the candidates whose priority no other exceeds, in their order, and
-- there is one.
pub highest_priority_lem :
    (a : Account) (more : List Account)
    → (best : ℤ) × All (λ c. c.priority ≤ℤ best) (a ∷ more)
      × (highest_priority (a ∷ more) ≡ select (has_priority best) (a ∷ more))
      × (0 < length (highest_priority (a ∷ more)))
unfolding highest_priority
highest_priority_lem a [] =
    (a.priority, (omega arith, tt), unfold select in rw (eq_ℤ_refl a.priority), omega arith)
highest_priority_lem a (b ∷ more) =
    let best = (best_priority a.priority 1 (b ∷ more)).0 in
    let bound = best_bound a.priority 1 (b ∷ more) in
    let e = choose_lem (has_priority best) (a ∷ b ∷ more) _ (select_count a (b ∷ more)) in
    (
      best,
      (bound.0, bound.1),
      e,
      rw e (rw (select_count a (b ∷ more)) (best_pos a.priority 1 (b ∷ more) (omega arith))),
    )

insert_by_id-perm : (a : Account) (bs : List Account) → Perm (insert_by_id a bs) (a ∷ bs)
unfolding insert_by_id
insert_by_id-perm a [] = Perm.refl (a ∷ [])
insert_by_id-perm a (b ∷ bs) = elim (Bool-cases (text_lt b.id a.id)) [
  | inl e ↦ rw e (Perm.trans (Perm.cons b (insert_by_id-perm a bs)) (Perm.swap a b bs))
  | inr e ↦ rw e (Perm.refl (a ∷ b ∷ bs))
]

sort_by_id-perm : (accounts : List Account) → Perm (sort_by_id accounts) accounts
unfolding sort_by_id
sort_by_id-perm [] = Perm.refl []
sort_by_id-perm (a ∷ more) =
    Perm.trans (insert_by_id-perm a (sort_by_id more)) (Perm.cons a (sort_by_id-perm more))

-- No identifier is above the next one.
abbrev pub IsOrdered : List Account → Type 0
IsOrdered [] = Unit
IsOrdered (a ∷ []) = Unit
IsOrdered (a ∷ b ∷ more) = (text_lt b.id a.id ≡ false) × IsOrdered (b ∷ more)

text_lt_asym : (s t : Text) → text_lt s t ≡ true → text_lt t s ≡ false
unfolding text_lt
text_lt_asym s [] h = cc
text_lt_asym [] (b ∷ t) h = refl
text_lt_asym (a ∷ s) (b ∷ t) h = ground (arith, text_lt_asym s t)

insert_by_id-IsOrdered :
    (a : Account) (bs : List Account) → IsOrdered bs → IsOrdered (insert_by_id a bs)
unfolding insert_by_id
insert_by_id-IsOrdered a [] o = tt
insert_by_id-IsOrdered a (b ∷ []) o = ground (arith, text_lt_asym b.id a.id)
insert_by_id-IsOrdered a (b ∷ c ∷ bs) o =
    ground (arith, text_lt_asym b.id a.id, insert_by_id-IsOrdered a (c ∷ bs) o.1)

sort_by_id-IsOrdered : (accounts : List Account) → IsOrdered (sort_by_id accounts)
unfolding sort_by_id
sort_by_id-IsOrdered [] = tt
sort_by_id-IsOrdered (a ∷ more) =
    insert_by_id-IsOrdered a (sort_by_id more) (sort_by_id-IsOrdered more)

-- `sortByID` orders the same accounts by identifier.
pub sort_by_id_lem :
    (accounts : List Account)
    → Perm (sort_by_id accounts) accounts × IsOrdered (sort_by_id accounts)
sort_by_id_lem accounts = (sort_by_id-perm accounts, sort_by_id-IsOrdered accounts)
