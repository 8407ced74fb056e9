-- ===== src/Tasks/Runner.antt =====
-- internal/tasks/runner.go: the life of a task, from its entry to the return of its slot.
-- Each part of a goroutine between two uses of a mutex is one step. `newID` draws the identifier, and the
-- function of a task answers an outcome; both are arguments.
pub mod Holding
pub mod Cancel
use chatgpt_prism2api.Base.{
  ℕ, ◌≡◌, Bool, true, false, not, ◌&&◌, Option, none, some, List, [], ◌∷◌, if◌then◌else◌,
}
use chatgpt_prism2api.Base.Int.{ℤ, pos}
use chatgpt_prism2api.Base.Text.{Text, codes, text_eq, is_empty}
use chatgpt_prism2api.Base.Dict.{lookup, insert, text_key}
use chatgpt_prism2api.GroupNames.{has_name}
use chatgpt_prism2api.Tasks.Store.{
  TaskStore, Task, Status, LogLine, put_locked, append_log, set_status, is_open, open_task,
}
use chatgpt_prism2api.Tasks.Slots.{Slots, acquire_slot, release_slot}

-- What the function of a task answers: there is none, a result, or an error with a result.
pub data TaskAnswer (R : Type 0) : Type 0 where
  no_runner : TaskAnswer R
  returned : Option R → TaskAnswer R
  raised : Text → Option R → TaskAnswer R

-- What `run` reports at its end: the status, its error text, the result, and whether the error is logged.
pub record Verdict (R : Type 0) : Type 0 where
  pub status : Status
  pub error : Text
  pub result : Option R
  pub logged : Bool

-- Where the goroutine of a task stands: before `acquire`, waiting in it, behind it, behind the registration
-- of its cancel function, in the function (and, in both, whether its context is canceled), before its
-- report, behind it, behind the removal of its cancel function, and at its end.
pub data Phase (R : Type 0) : Type 0 where
  queued waiting granted ended leaving finished : Phase R
  registered working : Bool → Phase R
  judged : Verdict R → Phase R

-- `Runner` with its store; `canceling` are the calls of `markCanceled` between their test and their change.
pub record System (R : Type 0) : Type 0 where
  pub store : TaskStore R
  pub slots : Slots
  pub jobs : List (Text × Phase R)
  pub canceling : List Text

-- `CreateRequest`, without its function.
pub record TaskRequest (R : Type 0) : Type 0 where
  pub kind : Text
  pub title : Text
  pub total : ℤ
  pub meta : Option R
  pub created_by : Text
  pub cancelable : Bool

pub data CancelAnswer : Type 0 where
  accepted task_not_found : CancelAnswer
  task_is : Status → CancelAnswer

abbrev is_canceled : Status → Bool
is_canceled Status.canceled = true
is_canceled _ = false

abbrev is_accepted : CancelAnswer → Bool
is_accepted accepted = true
is_accepted _ = false

unfoldable pub drop_one : Text → List Text → List Text
drop_one id [] = []
drop_one id (x ∷ xs) = let rest = drop_one id xs in if text_eq x id then xs else x ∷ rest

module _ {R : Type 0} where
  -- The task that `Enqueue` makes.
  unfoldable pub new_task : TaskRequest R → Text → ℕ → Task R
  new_task req id now = record {
    id = id;
    kind = req.kind;
    title = if is_empty req.title then req.kind else req.title;
    status = Status.pending;
    created_at = now;
    started_at = none;
    finished_at = none;
    current = pos 0;
    total = req.total;
    message = [];
    error = [];
    result = none;
    meta = req.meta;
    logs = [];
    created_by = req.created_by;
    cancelable = req.cancelable;
  }

  -- `Enqueue`.
  unfoldable pub enqueue : System R → TaskRequest R → Text → ℕ → System R
  unfolding new_task
  enqueue y req id now = record y {
    store = put_locked y.store (new_task req id now);
    jobs = insert id Phase.queued y.jobs;
  }

  -- `r.acquire()`.
  unfoldable pub start : System R → Text → System R
  unfolding acquire_slot
  start y id =
      let (r, taken) = acquire_slot y.slots id in
      record y {
        slots = r;
        jobs = insert id (if taken then Phase.granted else Phase.waiting) y.jobs;
      }

  -- The cancel function is registered, under the mutex of the runner.
  unfoldable pub register : System R → Text → System R
  register y id = record y { jobs = insert id (Phase.registered false) y.jobs }

  -- The status is set to running, under the mutex of the store; a context that was canceled stays so.
  unfoldable pub begin_run : System R → Text → Bool → ℕ → System R
  begin_run y id is_canceled now = record y {
    store = set_status y.store now id Status.running [] none;
    jobs = insert id (Phase.working is_canceled) y.jobs;
  }

  -- The end of `run` on the answer of the function, with what it reads of its context.
  unfoldable pub verdict : Bool → TaskAnswer R → Verdict R
  verdict is_canceled no_runner = record {
    status = Status.failed;
    error = codes "no runner";
    result = none;
    logged = false;
  }
  verdict true (returned result) = record {
    status = Status.canceled;
    error = codes "context canceled";
    result = result;
    logged = false;
  }
  verdict true (raised err result) = record {
    status = Status.canceled;
    error = codes "context canceled";
    result = result;
    logged = false;
  }
  verdict false (returned result) = record {
    status = Status.success;
    error = [];
    result = result;
    logged = false;
  }
  verdict false (raised err result) = record {
    status = Status.failed;
    error = err;
    result = result;
    logged = true;
  }

  unfoldable pub judge : System R → Text → Bool → TaskAnswer R → System R
  unfolding verdict
  judge y id is_canceled a = record y {
    jobs = insert id (Phase.judged (verdict is_canceled a)) y.jobs;
  }

  -- The report; a logged error is its own step in the source, right before.
  unfoldable pub report : System R → Text → ℕ → Verdict R → System R
  report y id now v =
      let s = if v.logged then append_log y.store now id (codes "error") v.error else y.store in
      record y {
        store = set_status s now id v.status v.error v.result;
        jobs = insert id Phase.ended y.jobs;
      }

  -- The first deferred function to run: the cancel function is removed.
  unfoldable pub unregister : System R → Text → System R
  unregister y id = record y { jobs = insert id Phase.leaving y.jobs }

  abbrev pub wake : List (Text × Phase R) → Option Text → List (Text × Phase R)
  wake jobs none = jobs
  wake jobs (some w) = insert w Phase.granted jobs

  -- The last one: the slot is released, to a waiter if there is one.
  unfoldable pub give_back : System R → Text → System R
  unfolding release_slot
  give_back y id =
      let (r, woken) = release_slot y.slots in
      record y { slots = r; jobs = wake (insert id Phase.finished y.jobs) woken }

  -- `cancels[id]` is there from the registration to its removal.
  abbrev pub has_cancel : Option (Phase R) → Bool
  has_cancel (some (registered c)) = true
  has_cancel (some (working c)) = true
  has_cancel (some (judged v)) = true
  has_cancel (some ended) = true
  has_cancel _ = false

  -- `cancel()` on the context, which is read at the end of `working` only.
  abbrev pub interrupt : Text → Option (Phase R) → List (Text × Phase R) → List (Text × Phase R)
  interrupt id (some (registered c)) jobs = insert id (Phase.registered true) jobs
  interrupt id (some (working c)) jobs = insert id (Phase.working true) jobs
  interrupt id _ jobs = jobs

  -- The answer of `Cancel` from the task and from whether its cancel function was there.
  unfoldable pub cancel_answer : Option (Task R) → Bool → CancelAnswer
  cancel_answer none has_one = task_not_found
  cancel_answer (some t) has_one =
      if not (is_open t.status) && not (is_canceled t.status) && not has_one
      then task_is t.status
      else accepted

  -- `Cancel` up to the test of `markCanceled`, with its answer. The lookup of the cancel function, the one of
  -- the task and that test have a critical section each in the source and are one step here.
  unfoldable pub cancel : System R → Text → System R × CancelAnswer
  unfolding cancel_answer
  cancel y id =
      let phase = lookup id y.jobs in
      let task = lookup id y.store.items in
      let answer = cancel_answer task (has_cancel phase) in
      (
        record y {
          jobs = interrupt id phase y.jobs;
          canceling =
              if is_accepted answer && open_task task then id ∷ y.canceling else y.canceling;
        },
        answer,
      )

  -- The change of `markCanceled`.
  unfoldable pub set_canceled : System R → Text → ℕ → System R
  unfolding drop_one
  set_canceled y id now = record y {
    store = set_status y.store now id Status.canceled (codes "canceled") none;
    canceling = drop_one id y.canceling;
  }

  -- One step of the system.
  pub data Step : System R → System R → Type 0 where
    enqueued :
        (y : System R) (req : TaskRequest R) (id : Text) (now : ℕ)
        → lookup id y.jobs ≡ none
        → Step y (enqueue y req id now)
    started :
        (y : System R) (id : Text) → lookup id y.jobs ≡ some Phase.queued → Step y (start y id)
    has_registered :
        (y : System R) (id : Text) → lookup id y.jobs ≡ some Phase.granted → Step y (register y id)
    began :
        (y : System R) (id : Text) (c : Bool) (now : ℕ)
        → lookup id y.jobs ≡ some (Phase.registered c)
        → Step y (begin_run y id c now)
    answered :
        (y : System R) (id : Text) (c : Bool) (a : TaskAnswer R)
        → lookup id y.jobs ≡ some (Phase.working c)
        → Step y (judge y id c a)
    reported :
        (y : System R) (id : Text) (now : ℕ) (v : Verdict R)
        → lookup id y.jobs ≡ some (Phase.judged v)
        → Step y (report y id now v)
    unregistered :
        (y : System R) (id : Text) → lookup id y.jobs ≡ some Phase.ended → Step y (unregister y id)
    left :
        (y : System R) (id : Text) → lookup id y.jobs ≡ some Phase.leaving → Step y (give_back y id)
    cancel_called : (y : System R) (id : Text) → Step y (cancel y id).0
    cancel_set :
        (y : System R) (id : Text) (now : ℕ)
        → has_name id y.canceling ≡ true
        → Step y (set_canceled y id now)

  pub data Reach (y : System R) : System R → Type 0 where
    here : Reach y y
    next : {a b : System R} → Reach y a → Step a b → Reach y b
