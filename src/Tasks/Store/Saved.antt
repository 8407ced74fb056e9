-- ===== src/Tasks/Store/Saved.antt =====
-- internal/tasks/store.go: what is saved, what a restart makes of it, and what subscribers get.
use chatgpt_prism2api.Base.{
  ℕ, ◌≤◌, ◌≡◌, refl, false, Option, none, some, List, [], ◌∷◌, ◌++◌, length, length-append, arith,
  All,
}
use chatgpt_prism2api.Base.Int.{ℤ}
use chatgpt_prism2api.Base.Text.{Text}
use chatgpt_prism2api.Base.Dict.{lookup, insert, erase, text_key, lookup-insert, lookup-erase}
use chatgpt_prism2api.Tasks.Store.{
  Task, LogLine, Event, TaskStore, Status, Subscriber, trim, trim_locked, save_tasks, put_locked,
  append_log, listed, append_to, progress, progress_of, set_status, status_of, publish_locked,
  offer, push, channel_size, load, open_tasks, open_task, interrupted, is_open, sort_by_time,
}

module _ {R : Type 0} where
  -- What the backend was last given is the tasks as they are.
  abbrev pub IsSaved : TaskStore R → Type 0
  IsSaved s = s.saved ≡ listed s.items s.order

  append_to-IsSaved :
      (s : TaskStore R) (id : Text) (line : LogLine) (o : Option (Task R))
      → IsSaved s
      → IsSaved (append_to s id line o)
  unfolding append_to save_tasks publish_locked
  append_to-IsSaved s id line none h = h
  append_to-IsSaved s id line (some t) h = refl

  progress_of-IsSaved :
      (s : TaskStore R) (id : Text) (current total : ℤ) (message : Text) (o : Option (Task R))
      → IsSaved s
      → IsSaved (progress_of s id current total message o)
  unfolding progress_of save_tasks publish_locked
  progress_of-IsSaved s id current total message none h = h
  progress_of-IsSaved s id current total message (some t) h = refl

  status_of-IsSaved :
      (s : TaskStore R) (now : ℕ) (id : Text) (status : Status) (err : Text) (result : Option R)
      (o : Option (Task R))
      → IsSaved s
      → IsSaved (status_of s now id status err result o)
  unfolding status_of save_tasks publish_locked
  status_of-IsSaved s now id status err result none h = h
  status_of-IsSaved s now id status err result (some t) h = refl

  -- Every method saves what it changes: the backend holds the tasks as they are, in order.
  pub methods-IsSaved :
      (s : TaskStore R) (t : Task R) (id level msg : Text) (now : ℕ) (current total : ℤ)
      (status : Status) (result : Option R)
      → IsSaved s
      → IsSaved (put_locked s t)
        × IsSaved (append_log s now id level msg)
        × IsSaved (progress s id current total msg)
        × IsSaved (set_status s now id status msg result)
  unfolding put_locked save_tasks append_log progress set_status
  methods-IsSaved s t id level msg now current total status result h = (
    refl,
    append_to-IsSaved s id _ (lookup id s.items) h,
    progress_of-IsSaved s id current total msg (lookup id s.items) h,
    status_of-IsSaved s now id status msg result (lookup id s.items) h,
  )

  trim_closed :
      (m : List (Text × Task R)) (ids : List Text) (id : Text)
      → open_task (lookup id m) ≡ false
      → open_task (lookup id (trim m ids).0) ≡ false
  unfolding trim
  trim_closed m [] id h = h
  trim_closed m (j ∷ ids) id h = ground (arith, lookup-erase j id m, trim_closed (erase j m) ids id)

  interrupted_closed : (now : ℕ) (t : Task R) → is_open (interrupted now t).status ≡ false
  unfolding interrupted
  interrupted_closed now t = ground arith

  load_closed :
      (now : ℕ) (s : TaskStore R) (ts : List (Task R)) (id : Text)
      → open_task (lookup id s.items) ≡ false
      → open_task (lookup id (load now s ts).items) ≡ false
  unfolding load
  load_closed now s [] id h = h
  load_closed now s (t ∷ ts) id h =
      load_closed now
        (record s { items = insert t.id (interrupted now t) s.items; order = s.order ++ t.id ∷ [] })
        ts id
        (ground
          (arith, lookup-insert t.id id (interrupted now t) s.items, interrupted_closed now t, h))

  -- After a restart no task is pending or running.
  pub open_tasks_lem :
      (now : ℕ) (list : List (Task R)) (id : Text)
      → open_task (lookup id (open_tasks now list).items) ≡ false
  unfolding open_tasks trim_locked lookup
  open_tasks_lem now list id =
      let empty : TaskStore R = record {
        items = [];
        order = [];
        subs = [];
        sub_id = 0;
        saved = list;
      } in
      let loaded = load now empty (sort_by_time list) in
      trim_closed loaded.items loaded.order id (load_closed now empty (sort_by_time list) id refl)

  -- A subscriber's channel never holds more events than its size.
  abbrev pub IsRoomy : List (Subscriber R) → Type 0
  IsRoomy us = All (λ u. length u.queue ≤ channel_size) us

  push-IsRoomy :
      (topic : Text) (ev : Event R) (us : List (Subscriber R))
      → IsRoomy us
      → IsRoomy (push topic ev us)
  unfolding push offer
  push-IsRoomy topic ev [] h = tt
  push-IsRoomy topic ev (u ∷ us) h =
      ground (arith, length-append u.queue (ev ∷ []), push-IsRoomy topic ev us h.1)

  -- Publishing an event waits for no subscriber and fills no channel beyond its size.
  pub publish_locked-IsRoomy :
      (s : TaskStore R) (id : Text) (ev : Event R)
      → IsRoomy s.subs
      → IsRoomy (publish_locked s id ev).subs
  unfolding publish_locked
  publish_locked-IsRoomy s id ev h = push-IsRoomy [] ev _ (push-IsRoomy id ev s.subs h)
