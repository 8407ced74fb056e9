-- ===== src/Account/Limits/Window.antt =====
-- The sliding window holds exactly the uses of the last minute, and an admitted use stays within the
-- limits. The window is kept in the order of the clock.
use chatgpt_prism2api.Base.{
  ℕ, ◌+◌, ◌≤◌, ◌<◌, ◌≡◌, refl, ap, inl, inr, Bool, List, [], ◌∷◌, ◌++◌, arith, ltb, leb, select,
  All, Bool-cases,
}
use chatgpt_prism2api.Account.State.{Account, minute}
use chatgpt_prism2api.Account.Limits.{drop_old, prune_uses, record_use_locked}

-- The times do not fall along the list.
abbrev pub IsSorted : List ℕ → Type 0
IsSorted [] = Unit
IsSorted (t ∷ ts) = All (λ u. t ≤ u) ts × IsSorted ts

-- Within the last minute: after `now - time.Minute`.
abbrev pub recent : ℕ → ℕ → Bool
recent now t = ltb now (t + minute)

select-recent-All :
    (now t : ℕ) (ts : List ℕ) → now < t + minute → All (λ u. t ≤ u) ts → select (recent now) ts ≡ ts
unfolding select
select-recent-All now t [] h a = refl
select-recent-All now t (u ∷ ts) h a = ground (arith, select-recent-All now t ts h a.1)

-- On a window in order, dropping the old times in front keeps exactly the recent ones.
pub drop_old-select :
    (now : ℕ) (ts : List ℕ) → IsSorted ts → drop_old now ts ≡ select (recent now) ts
unfolding drop_old select
drop_old-select now [] s = refl
drop_old-select now (t ∷ ts) s =
    ground (arith, drop_old-select now ts s.1, select-recent-All now t ts)

All-le_trans : (n t : ℕ) (ts : List ℕ) → n ≤ t → All (λ u. t ≤ u) ts → All (λ u. n ≤ u) ts
All-le_trans n t [] h a = tt
All-le_trans n t (u ∷ ts) h a = (omega arith, All-le_trans n t ts h a.1)

All-drop_old : (P : ℕ → Type 0) (now : ℕ) (ts : List ℕ) → All P ts → All P (drop_old now ts)
unfolding drop_old
All-drop_old P now [] a = tt
All-drop_old P now (t ∷ ts) a = elim (Bool-cases (leb (t + minute) now)) [
  | inl e ↦ rw e (All-drop_old P now ts a.1)
  | inr e ↦ rw e a
]

drop_old-IsSorted : (now : ℕ) (ts : List ℕ) → IsSorted ts → IsSorted (drop_old now ts)
unfolding drop_old
drop_old-IsSorted now [] s = tt
drop_old-IsSorted now (t ∷ ts) s = elim (Bool-cases (leb (t + minute) now)) [
  | inl e ↦ rw e (drop_old-IsSorted now ts s.1)
  | inr e ↦ rw e s
]

All-snoc : (P : ℕ → Type 0) (ts : List ℕ) (u : ℕ) → All P ts → P u → All P (ts ++ u ∷ [])
All-snoc P [] u a h = (h, tt)
All-snoc P (t ∷ ts) u a h = (a.0, All-snoc P ts u a.1 h)

snoc-IsSorted :
    (ts : List ℕ) (now : ℕ) → IsSorted ts → All (λ u. u ≤ now) ts → IsSorted (ts ++ now ∷ [])
snoc-IsSorted [] now s a = (tt, tt)
snoc-IsSorted (t ∷ ts) now s a =
    (All-snoc (λ u. t ≤ u) ts now s.0 a.0, snoc-IsSorted ts now s.1 a.1)

-- Recording a use at a time that is not before the window's keeps the window in order and not after
-- that time, and leaves in it exactly the earlier uses of the last minute, then the new one.
pub record_use_window :
    (a : Account) (now : ℕ)
    → IsSorted a.use_times
    → All (λ u. u ≤ now) a.use_times
    → ((record_use_locked a now).use_times ≡ select (recent now) a.use_times ++ now ∷ [])
      × IsSorted (record_use_locked a now).use_times
      × All (λ u. u ≤ now) (record_use_locked a now).use_times
unfolding record_use_locked
record_use_window a now s b = (
  ap (λ ts. ts ++ now ∷ []) (drop_old-select now a.use_times s),
  snoc-IsSorted _ now (drop_old-IsSorted now a.use_times s) (All-drop_old _ now a.use_times b),
  All-snoc _ _ now (All-drop_old _ now a.use_times b) (omega arith),
)

pub drop_old_idem : (now : ℕ) (ts : List ℕ) → drop_old now (drop_old now ts) ≡ drop_old now ts
unfolding drop_old
drop_old_idem now [] = refl
drop_old_idem now (t ∷ ts) = ground (arith, drop_old_idem now ts)

-- Pruning twice at one time is pruning once.
pub prune_uses_idem : (a : Account) (now : ℕ) → prune_uses (prune_uses a now) now ≡ prune_uses a now
unfolding prune_uses
prune_uses_idem a now = ground (arith, drop_old_idem now a.use_times)

-- Pruning behind a use recorded at the same time drops nothing.
pub drop_old-snoc :
    (now : ℕ) (ts : List ℕ)
    → drop_old now (drop_old now ts ++ now ∷ []) ≡ drop_old now ts ++ now ∷ []
unfolding drop_old
drop_old-snoc now [] = ground arith
drop_old-snoc now (t ∷ ts) = ground (arith, drop_old-snoc now ts)
