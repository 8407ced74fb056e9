-- ===== src/Tasks/Slots/Semaphore.antt =====
-- internal/tasks/runner.go: the slots are a counting semaphore with a queue.
use chatgpt_prism2api.Base.{
  ℕ, ◌+◌, ◌≤◌, ◌<◌, ◌≡◌, refl, Bool, true, false, List, [], ◌∷◌, ◌++◌, ltb, ◌⊎◌, if◌then◌else◌,
  length, arith, subst, sym,
}
use chatgpt_prism2api.Base.Int.{ℤ}
use chatgpt_prism2api.Base.Text.{Text, text_eq}
use chatgpt_prism2api.GroupNames.{has_name}
use chatgpt_prism2api.Tasks.Slots.{
  Slots, clamp_concurrency, set_max, acquire_slot, hand_over, release_slot,
}

-- The specification: who holds a slot, who waits for one in order, and how many slots there are.
pub record Semaphore : Type 0 where
  pub size : ℕ
  pub holders : List Text
  pub queue : List Text

-- What tasks do with their slots, and an administrator with their number.
pub data SlotCall : Type 0 where
  enter leave : Text → SlotCall
  resize : ℤ → SlotCall

unfoldable pub without_one : Text → List Text → List Text
without_one id [] = []
without_one id (h ∷ hs) = let rest = without_one id hs in if text_eq h id then hs else h ∷ rest

abbrev pub enter_spec : Semaphore → Text → Semaphore
enter_spec s id =
    if ltb (length s.holders) s.size
    then record s { holders = id ∷ s.holders }
    else record s { queue = s.queue ++ id ∷ [] }

abbrev pub pass_on : ℕ → List Text → List Text → Semaphore
pass_on size holders [] = record { size = size; holders = holders; queue = [] }
pass_on size holders (w ∷ ws) = record { size = size; holders = w ∷ holders; queue = ws }

abbrev pub leave_spec : Semaphore → Text → Semaphore
leave_spec s id = pass_on s.size (without_one id s.holders) s.queue

abbrev pub step_spec : SlotCall → Semaphore → Semaphore
step_spec (enter id) s = enter_spec s id
step_spec (leave id) s = leave_spec s id
step_spec (resize n) s = record s { size = clamp_concurrency n }

abbrev pub step_slots : SlotCall → Slots → Slots
step_slots (enter id) r = (acquire_slot r id).0
step_slots (leave id) r = (release_slot r).0
step_slots (resize n) r = set_max r n

unfoldable pub run_spec : List SlotCall → Semaphore → Semaphore
run_spec [] s = s
run_spec (c ∷ cs) s = run_spec cs (step_spec c s)

unfoldable pub run_slots : List SlotCall → Slots → Slots
run_slots [] r = r
run_slots (c ∷ cs) r = run_slots cs (step_slots c r)

-- Only who holds a slot gives it back.
abbrev pub IsFair : List SlotCall → Semaphore → Type 0
IsFair [] s = Unit
IsFair (leave id ∷ cs) s = (has_name id s.holders ≡ true) × IsFair cs (leave_spec s id)
IsFair (c ∷ cs) s = IsFair cs (step_spec c s)

-- The counter is the number of holders, and the waiters are the queue.
pub record Refines (r : Slots) (s : Semaphore) : Type 0 where
  pub size : r.max ≡ s.size
  pub in_range : (0 < s.size) × (s.size ≤ 64)
  pub counted : r.active ≡ length s.holders
  pub queued : r.waiters ≡ s.queue
  pub few : length s.holders ≤ 64

length-without_one :
    (id : Text) (hs : List Text)
    → has_name id hs ≡ true
    → length (without_one id hs) + 1 ≡ length hs
unfolding without_one has_name
length-without_one id [] h = ground arith
length-without_one id (x ∷ hs) h = ground (arith, length-without_one id hs)

enter-Refines :
    (r : Slots) (s : Semaphore) (id : Text)
    → Refines r s
    → Refines (acquire_slot r id).0 (enter_spec s id)
unfolding acquire_slot
enter-Refines r s id v = ground arith

clamp_range : (n : ℤ) → (0 < clamp_concurrency n) × (clamp_concurrency n ≤ 64)
unfolding clamp_concurrency
clamp_range n = ground arith

resize-Refines :
    (r : Slots) (s : Semaphore) (n : ℤ)
    → Refines r s
    → Refines (set_max r n) (record s { size = clamp_concurrency n })
unfolding set_max
resize-Refines r s n v = record {
  size = refl;
  in_range = clamp_range n;
  counted = v.counted;
  queued = v.queued;
  few = v.few;
}

handed-Refines :
    (r : Slots) (size : ℕ) (hs ws : List Text)
    → r.max ≡ size
    → (0 < size) × (size ≤ 64)
    → r.active ≡ length hs + 1
    → length hs + 1 ≤ 64
    → r.waiters ≡ ws
    → Refines (hand_over r ws).0 (pass_on size hs ws)
unfolding hand_over
handed-Refines r size hs [] m range a f w = ground arith
handed-Refines r size hs (x ∷ ws) m range a f w = ground arith

leave-Refines :
    (r : Slots) (s : Semaphore) (id : Text)
    → Refines r s
    → has_name id s.holders ≡ true
    → Refines (release_slot r).0 (leave_spec s id)
unfolding release_slot
leave-Refines r s id v h =
    let one : length (without_one id s.holders) + 1 ≡ length s.holders =
      length-without_one id s.holders h in
    subst (λ ws. Refines (hand_over r ws).0 (leave_spec s id)) (sym v.queued)
      (handed-Refines r s.size (without_one id s.holders) s.queue v.size v.in_range
        (omega (arith, one, v.counted)) (omega (arith, one, v.few)) v.queued)

-- Any fair sequence of calls keeps the counter and the waiters of the runner in step with the
-- specification: as many holders as the counter says, the waiters in the order in which they came, and
-- never more than sixty-four holders.
pub run_slots-Refines :
    (cs : List SlotCall) (r : Slots) (s : Semaphore)
    → Refines r s
    → IsFair cs s
    → Refines (run_slots cs r) (run_spec cs s)
unfolding run_slots run_spec
run_slots-Refines [] r s v f = v
run_slots-Refines (enter id ∷ cs) r s v f =
    run_slots-Refines cs (acquire_slot r id).0 (enter_spec s id) (enter-Refines r s id v) f
run_slots-Refines (leave id ∷ cs) r s v f =
    run_slots-Refines cs (release_slot r).0 (leave_spec s id) (leave-Refines r s id v f.0) f.1
run_slots-Refines (resize n ∷ cs) r s v f =
    run_slots-Refines cs (set_max r n) (record s { size = clamp_concurrency n })
      (resize-Refines r s n v) f

abbrev is_call : SlotCall → Bool
is_call (resize n) = false
is_call c = true

abbrev pub IsFixed : List SlotCall → Type 0
IsFixed [] = Unit
IsFixed (c ∷ cs) = (is_call c ≡ true) × IsFixed cs

-- No more holders than slots, and nobody waits while a slot is free.
pub record IsTight (s : Semaphore) : Type 0 where
  pub bounded : length s.holders ≤ s.size
  pub busy : (s.queue ≡ []) ⊎ (length s.holders ≡ s.size)

enter-IsTight : (s : Semaphore) (id : Text) → IsTight s → IsTight (enter_spec s id)
enter-IsTight s id t = ground arith

passed-IsTight :
    (size : ℕ) (hs ws : List Text)
    → length hs + 1 ≤ size
    → (ws ≡ []) ⊎ (length hs + 1 ≡ size)
    → IsTight (pass_on size hs ws)
passed-IsTight size hs [] b h = ground arith
passed-IsTight size hs (w ∷ ws) b h = ground arith

leave-IsTight :
    (s : Semaphore) (id : Text)
    → IsTight s
    → has_name id s.holders ≡ true
    → IsTight (leave_spec s id)
leave-IsTight s id t h =
    let one : length (without_one id s.holders) + 1 ≡ length s.holders =
      length-without_one id s.holders h in
    passed-IsTight s.size (without_one id s.holders) s.queue (ground (arith, one, t.bounded))
      (ground (arith, one, t.busy))

run_spec-IsTight :
    (cs : List SlotCall) (s : Semaphore)
    → IsTight s
    → IsFair cs s
    → IsFixed cs
    → IsTight (run_spec cs s)
unfolding run_spec
run_spec-IsTight [] s t f x = t
run_spec-IsTight (enter id ∷ cs) s t f x =
    run_spec-IsTight cs (enter_spec s id) (enter-IsTight s id t) f x.1
run_spec-IsTight (leave id ∷ cs) s t f x =
    run_spec-IsTight cs (leave_spec s id) (leave-IsTight s id t f.0) f.1 x.1
run_spec-IsTight (resize n ∷ cs) s t f x = ground (arith, x.0)

-- While nobody changes the number of slots, no fair sequence of calls has more tasks run than there are
-- slots, or lets a task wait while a slot is free.
pub run_slots_tight :
    (cs : List SlotCall) (r : Slots) (s : Semaphore)
    → Refines r s
    → IsTight s
    → IsFair cs s
    → IsFixed cs
    → let done = run_slots cs r in
      (done.active ≤ done.max) × ((done.waiters ≡ []) ⊎ (done.active ≡ done.max))
run_slots_tight cs r s v t f x =
    let w = run_slots-Refines cs r s v f in
    let u = run_spec-IsTight cs s t f x in
    ground (arith, w.size, w.counted, w.queued, u.bounded, u.busy)
