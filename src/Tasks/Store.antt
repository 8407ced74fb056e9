-- ===== src/Tasks/Store.antt =====
-- internal/tasks/store.go and types.go: the records of background tasks.
-- Every method holds the mutex and is one step. JSON values (results and meta data) are of a type that
-- is a parameter. `saved` is the list that was last given to the backend. A channel of a subscriber is
-- the queue of the events in it.
pub mod Retention
pub mod Saved
use chatgpt_prism2api.Base.{
  ℕ, ◌+◌, ◌-◌, Bool, true, false, not, ◌&&◌, ◌||◌, Option, none, some, List, [], ◌∷◌, ◌++◌, ltb,
  leb, ◌==◌, if◌then◌else◌, length,
}
use mathlib.Core.List.{reverse}
use chatgpt_prism2api.Base.Int.{ℤ, pos, pos_part, ltb_ℤ}
use chatgpt_prism2api.Base.Text.{Text, codes, text_eq, is_empty}
use chatgpt_prism2api.Base.Dict.{lookup, insert, erase, text_key}

-- The status texts; `unknown` is any other one that a document may hold.
pub data Status : Type 0 where
  pending running success failed canceled partial : Status
  unknown : Text → Status

-- `LogLine`.
pub record LogLine : Type 0 where
  pub time : ℕ
  pub level : Text
  pub message : Text

-- `Task`; `nil` times and a `nil` result are none.
pub record Task (R : Type 0) : Type 0 where
  pub id : Text
  pub kind : Text
  pub title : Text
  pub status : Status
  pub created_at : ℕ
  pub started_at : Option ℕ
  pub finished_at : Option ℕ
  pub current : ℤ
  pub total : ℤ
  pub message : Text
  pub error : Text
  pub result : Option R
  pub meta : Option R
  pub logs : List LogLine
  pub created_by : Text
  pub cancelable : Bool

-- `Event`.
pub data Event (R : Type 0) : Type 0 where
  log_event : Task R → LogLine → Event R
  progress_event status_event : Task R → Event R

-- One subscription: the task it follows, or the empty text for all, its number and its channel.
pub record Subscriber (R : Type 0) : Type 0 where
  pub topic : Text
  pub number : ℕ
  pub queue : List (Event R)

-- `Store`.
pub record TaskStore (R : Type 0) : Type 0 where
  pub items : List (Text × Task R)
  pub order : List Text
  pub subs : List (Subscriber R)
  pub sub_id : ℕ
  pub saved : List (Task R)

abbrev pub max_tasks : ℕ
max_tasks = 400

abbrev pub max_logs : ℕ
max_logs = 2_000

abbrev pub channel_size : ℕ
channel_size = 64

-- `l[len(l)-n:]` for a list longer than `n`.
unfoldable pub last_of {ℓ} : {A : Type ℓ} → ℕ → List A → List A
last_of n [] = []
last_of n (x ∷ xs) = let rest = last_of n xs in if ltb n (length (x ∷ xs)) then rest else x ∷ xs

abbrev pub is_final : Status → Bool
is_final Status.success = true
is_final Status.failed = true
is_final Status.canceled = true
is_final Status.partial = true
is_final _ = false

abbrev pub is_running : Status → Bool
is_running Status.running = true
is_running _ = false

-- `t.Status == StatusPending || t.Status == StatusRunning`.
abbrev pub is_open : Status → Bool
is_open Status.pending = true
is_open Status.running = true
is_open _ = false

abbrev or_old {ℓ} : {A : Type ℓ} → Option A → Option A → Option A
or_old none old = old
or_old (some a) old = some a

abbrev is_nil {ℓ} : {A : Type ℓ} → Option A → Bool
is_nil none = true
is_nil (some a) = false

module _ {R : Type 0} where
  abbrev cons_some : Option (Task R) → List (Task R) → List (Task R)
  cons_some none ts = ts
  cons_some (some t) ts = t ∷ ts

  -- The tasks in their order, as `saveLocked` collects them.
  unfoldable pub listed : List (Text × Task R) → List Text → List (Task R)
  listed m [] = []
  listed m (id ∷ ids) = cons_some (lookup id m) (listed m ids)

  -- `saveLocked`; the error of the backend is ignored by the source.
  unfoldable pub save_tasks : TaskStore R → TaskStore R
  save_tasks s = record s { saved = listed s.items s.order }

  -- `trimLocked` on the entries and the order.
  unfoldable pub trim : List (Text × Task R) → List Text → List (Text × Task R) × List Text
  trim m [] = (m, [])
  trim m (id ∷ ids) =
      let rest = trim (erase id m) ids in
      if ltb max_tasks (length (id ∷ ids)) then rest else (m, id ∷ ids)

  unfoldable pub trim_locked : TaskStore R → TaskStore R
  unfolding trim
  trim_locked s = let (m, ids) = trim s.items s.order in record s { items = m; order = ids }

  -- What `Open` does to a task that was interrupted.
  unfoldable pub interrupted : ℕ → Task R → Task R
  interrupted now t =
      if is_open t.status
      then record t { status = Status.failed; error = codes "interrupted"; finished_at = some now }
      else t

  -- `sort.Slice` by the time of creation.
  unfoldable pub insert_by_time : Task R → List (Task R) → List (Task R)
  insert_by_time t [] = t ∷ []
  insert_by_time t (u ∷ us) =
      let rest = insert_by_time t us in
      if ltb u.created_at t.created_at then u ∷ rest else t ∷ u ∷ us

  unfoldable pub sort_by_time : List (Task R) → List (Task R)
  sort_by_time [] = []
  sort_by_time (t ∷ ts) = insert_by_time t (sort_by_time ts)

  -- The loop of `Open` over the sorted list.
  unfoldable pub load : ℕ → TaskStore R → List (Task R) → TaskStore R
  unfolding interrupted
  load now s [] = s
  load now s (t ∷ ts) =
      load now
        (record s { items = insert t.id (interrupted now t) s.items; order = s.order ++ t.id ∷ [] })
        ts

  -- `Open` on the tasks of a document.
  unfoldable pub open_tasks : ℕ → List (Task R) → TaskStore R
  unfolding load trim_locked sort_by_time
  open_tasks now list = trim_locked (
      load now (record { items = []; order = []; subs = []; sub_id = 0; saved = list })
        (sort_by_time list))

  -- `Get`.
  unfoldable pub get_task : TaskStore R → Text → Option (Task R)
  get_task s id = lookup id s.items

  abbrev pub has_task : Option (Task R) → Bool
  has_task none = false
  has_task (some t) = true

  -- `putLocked`.
  unfoldable pub put_locked : TaskStore R → Task R → TaskStore R
  unfolding trim_locked save_tasks
  put_locked s t = save_tasks (
      trim_locked (record s {
        order = if has_task (lookup t.id s.items) then s.order else s.order ++ t.id ∷ [];
        items = insert t.id t s.items;
      }))

  -- `Subscribe`: the store and the number of the subscription.
  unfoldable pub subscribe : TaskStore R → Text → TaskStore R × ℕ
  subscribe s id =
      let n = s.sub_id + 1 in
      (record s { sub_id = n; subs = record { topic = id; number = n; queue = [] } ∷ s.subs }, n)

  -- The function that `Subscribe` returns.
  unfoldable pub unsubscribe : TaskStore R → ℕ → TaskStore R
  unsubscribe s n = record s { subs = without s.subs }
    where
      without : List (Subscriber R) → List (Subscriber R)
      without [] = []
      without (u ∷ us) = let rest = without us in if u.number == n then rest else u ∷ rest

  -- A send that does not wait: an event for a full channel is dropped.
  unfoldable pub offer : Event R → Subscriber R → Subscriber R
  offer ev u =
      if ltb (length u.queue) channel_size then record u { queue = u.queue ++ ev ∷ [] } else u

  -- The closure `push` of `publishLocked`.
  unfoldable pub push : Text → Event R → List (Subscriber R) → List (Subscriber R)
  unfolding offer
  push topic ev [] = []
  push topic ev (u ∷ us) =
      let rest = push topic ev us in (if text_eq u.topic topic then offer ev u else u) ∷ rest

  -- `publishLocked`.
  unfoldable pub publish_locked : TaskStore R → Text → Event R → TaskStore R
  unfolding push
  publish_locked s id ev = record s { subs = push [] ev (push id ev s.subs) }

  -- The end of the methods that change one task: write it, save, publish.
  abbrev changed : TaskStore R → Text → Task R → Event R → TaskStore R
  changed s id t ev = publish_locked (save_tasks (record s { items = insert id t s.items })) id ev

  -- `appendLog` behind its lookup.
  unfoldable pub append_to : TaskStore R → Text → LogLine → Option (Task R) → TaskStore R
  unfolding last_of save_tasks publish_locked
  append_to s id line none = s
  append_to s id line (some t) =
      let logs = last_of max_logs (t.logs ++ line ∷ []) in
      let t' = record t { logs = logs; message = line.message } in
      changed s id t' (log_event t' line)

  unfoldable pub append_log : TaskStore R → ℕ → Text → Text → Text → TaskStore R
  unfolding append_to
  append_log s now id level msg =
      append_to s id (record { time = now; level = level; message = msg }) (lookup id s.items)

  -- `progress` behind its lookup.
  unfoldable pub progress_of : TaskStore R → Text → ℤ → ℤ → Text → Option (Task R) → TaskStore R
  unfolding save_tasks publish_locked
  progress_of s id current total message none = s
  progress_of s id current total message (some t) =
      let t' = record t {
        current = current;
        total = if ltb_ℤ (pos 0) total then total else t.total;
        message = if is_empty message then t.message else message;
      } in
      changed s id t' (progress_event t')

  unfoldable pub progress : TaskStore R → Text → ℤ → ℤ → Text → TaskStore R
  unfolding progress_of
  progress s id current total message = progress_of s id current total message (lookup id s.items)

  -- What `setStatus` does to the task.
  unfoldable pub with_status : ℕ → Status → Text → Option R → Task R → Task R
  with_status now status err result t = record t {
    status = status;
    error = if is_empty err then t.error else err;
    result = or_old result t.result;
    started_at = if is_running status && is_nil t.started_at then some now else t.started_at;
    finished_at = if is_final status then some now else t.finished_at;
  }

  -- `setStatus` behind its lookup.
  unfoldable pub status_of :
      TaskStore R → ℕ → Text → Status → Text → Option R → Option (Task R) → TaskStore R
  unfolding with_status save_tasks publish_locked
  status_of s now id status err result none = s
  status_of s now id status err result (some t) =
      let t' = with_status now status err result t in changed s id t' (status_event t')

  unfoldable pub set_status : TaskStore R → ℕ → Text → Status → Text → Option R → TaskStore R
  unfolding status_of
  set_status s now id status err result = status_of s now id status err result (lookup id s.items)

  abbrev pub open_task : Option (Task R) → Bool
  open_task none = false
  open_task (some t) = is_open t.status

  -- `markCanceled` where nothing comes between its test and its change, although it gives the mutex
  -- back there; the module Runner has the two as separate steps.
  unfoldable pub mark_canceled : TaskStore R → ℕ → Text → TaskStore R × Bool
  unfolding set_status
  mark_canceled s now id =
      if open_task (lookup id s.items)
      then (set_status s now id Status.canceled (codes "canceled") none, true)
      else (s, false)

  -- The loop of `List` from the newest: at most `n` tasks, each with its last 40 log lines.
  unfoldable pub newest : List (Text × Task R) → ℕ → List Text → List (Task R)
  newest m n ids = take_tasks n ids
    where
      shown : Option (Task R) → List (Task R)
      shown none = []
      shown (some t) = record t { logs = last_of 40 t.logs } ∷ []

      take_tasks : ℕ → List Text → List (Task R)
      take_tasks n [] = []
      take_tasks n (id ∷ ids) =
          let one = shown (lookup id m) in
          let rest = take_tasks (n - length one) ids in if n == 0 then [] else one ++ rest

  -- `List`, the newest task first.
  unfoldable pub list_tasks : TaskStore R → ℤ → List (Task R)
  unfolding newest
  list_tasks s limit =
      let n = if not (ltb_ℤ (pos 0) limit) || ltb_ℤ (pos 500) limit then 100 else pos_part limit in
      newest s.items n (reverse s.order)
