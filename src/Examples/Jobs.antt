-- ===== src/Examples/Jobs.antt =====
-- Runs of the background tasks.
use chatgpt_prism2api.Base.{◌≡◌, refl, true, false, none, List, [], ◌∷◌, arith}
use chatgpt_prism2api.Base.Int.{pos}
use chatgpt_prism2api.Base.Text.{Text, codes, text_eq}
use chatgpt_prism2api.Base.Dict.{lookup, insert, text_key}
use chatgpt_prism2api.GroupNames.{has_name}
use chatgpt_prism2api.Tasks.Store.{
  Task, TaskStore, Status, put_locked, append_log, progress, set_status, open_tasks, open_task,
}
use chatgpt_prism2api.Tasks.Store.Retention.{IsBounded, methods-IsBounded}
use chatgpt_prism2api.Tasks.Store.Saved.{open_tasks_lem}
use chatgpt_prism2api.Tasks.Slots.{Slots}
use chatgpt_prism2api.Tasks.Slots.Semaphore.{
  Semaphore, SlotCall, Refines, run_slots, run_spec, run_slots-Refines,
}
use chatgpt_prism2api.Tasks.Runner.{System, Phase, Reach, Step, TaskRequest, enqueue, start}
use chatgpt_prism2api.Tasks.Runner.Holding.{IsTracked, holding, Reach-IsTracked}

abbrev one_slot : Slots
one_slot = record { max = 1; active = 0; waiters = [] }

abbrev one_permit : Semaphore
one_permit = record { size = 1; holders = []; queue = [] }

in_step : Refines one_slot one_permit
in_step = record {
  size = refl;
  in_range = (omega arith, omega arith);
  counted = refl;
  few = omega arith;
  queued = refl;
}

-- Two tasks for one slot: the second one waits and gets it when the first one ends.
abbrev two_tasks : List SlotCall
two_tasks =
    SlotCall.enter (codes "a") ∷ SlotCall.enter (codes "b") ∷ SlotCall.leave (codes "a") ∷ []

run_slots-Refines_example : Refines (run_slots two_tasks one_slot) (run_spec two_tasks one_permit)
unfolding has_name text_eq
run_slots-Refines_example = run_slots-Refines two_tasks one_slot one_permit in_step (refl, tt)

abbrev job : Task Text
job = record {
  id = codes "a";
  kind = codes "probe";
  title = codes "probe";
  status = Status.pending;
  created_at = 1;
  started_at = none;
  finished_at = none;
  current = pos 0;
  total = pos 2;
  message = [];
  error = [];
  result = none;
  meta = none;
  logs = [];
  created_by = [];
  cancelable = true;
}

abbrev empty_store : TaskStore Text
empty_store = record { items = []; order = []; subs = []; sub_id = 0; saved = [] }

empty_store-IsBounded : IsBounded empty_store
unfolding lookup has_name
empty_store-IsBounded = record {
  kept = record { distinct = tt; indexed = λ id. refl; few_logs = λ id. tt };
  few_tasks = omega arith;
}

methods-IsBounded_example :
    IsBounded (put_locked empty_store job)
    × IsBounded (append_log empty_store 2 (codes "a") (codes "info") (codes "hello"))
    × IsBounded (progress empty_store (codes "a") (pos 1) (pos 2) (codes "hello"))
    × IsBounded (set_status empty_store 2 (codes "a") Status.running (codes "hello") none)
methods-IsBounded_example =
    methods-IsBounded empty_store job (codes "a") (codes "info") (codes "hello") 2 (pos 1) (pos 2)
      Status.running none empty_store-IsBounded (omega arith)

open_tasks_lem_example : open_task (lookup (codes "a") (open_tasks 9 (job ∷ [])).items) ≡ false
open_tasks_lem_example = open_tasks_lem 9 (job ∷ []) (codes "a")

abbrev idle : System Text
idle = record { store = empty_store; slots = one_slot; jobs = []; canceling = [] }

idle-IsTracked : IsTracked {R = Text} one_slot []
unfolding has_name holding
idle-IsTracked = record { counted = refl; waiters = λ id h. ground arith; distinct = tt }

abbrev request : TaskRequest Text
request = record {
  kind = codes "probe";
  title = [];
  total = pos 2;
  meta = none;
  created_by = [];
  cancelable = true;
}

abbrev pending_system : System Text
pending_system = enqueue idle request (codes "a") 1

-- The task is entered and asks for its slot.
Reach-IsTracked_example :
    IsTracked (start pending_system (codes "a")).slots (start pending_system (codes "a")).jobs
unfolding enqueue lookup insert text_eq
Reach-IsTracked_example =
    Reach-IsTracked {y = idle} {z = start pending_system (codes "a")} idle-IsTracked (
      Reach.next (Reach.next Reach.here (Step.enqueued idle request (codes "a") 1 refl))
        (Step.started pending_system (codes "a") refl))

-- The task `b` is about to give back the only slot, and `a` waits for it.
abbrev waiting_system : System Text
waiting_system = record pending_system {
  slots = record { max = 1; active = 1; waiters = codes "a" ∷ [] };
  jobs = (codes "b", Phase.leaving) ∷ (codes "a", Phase.waiting) ∷ [];
}
