-- ===== src/Tasks/Runner/Cancel.antt =====
-- internal/tasks/runner.go: what a cancellation does, early and late.
use chatgpt_prism2api.Base.{
  ℕ, ◌<◌, ◌≡◌, refl, ◌⊎◌, Bool, true, Option, none, some, List, ◌∷◌, arith,
}
use chatgpt_prism2api.Base.Text.{Text, codes, text_eq_refl}
use chatgpt_prism2api.Base.Dict.{lookup, text_key, lookup-insert}
use chatgpt_prism2api.Tasks.Store.{
  TaskStore, Task, Status, set_status, status_of, with_status, save_tasks, publish_locked,
}
use chatgpt_prism2api.Tasks.Slots.{concurrency_of}
use chatgpt_prism2api.Tasks.Runner.{
  System, returned, raised, Phase, waiting, accepted, start, judge, report, verdict, give_back,
  cancel, cancel_answer,
}

module _ {R : Type 0} where
  abbrev status_or_nil : Option (Task R) → Option Status
  status_or_nil none = none
  status_or_nil (some t) = some t.status

  -- The status of a task.
  abbrev pub status_at : TaskStore R → Text → Option Status
  status_at s id = status_or_nil (lookup id s.items)

  status_of_lem :
      (s : TaskStore R) (now : ℕ) (id : Text) (st : Status) (err : Text) (r : Option R) (t : Task R)
      → status_at (status_of s now id st err r (some t)) id ≡ some st
  unfolding status_of with_status save_tasks publish_locked
  status_of_lem s now id st err r t =
      ground (arith, lookup-insert id id (with_status now st err r t) s.items, text_eq_refl id)

  -- A task that is there has the status that is set.
  set_status_lem :
      (s : TaskStore R) (now : ℕ) (id : Text) (st old : Status) (err : Text) (r : Option R)
      → status_at s id ≡ some old
      → status_at (set_status s now id st err r) id ≡ some st
  unfolding set_status
  set_status_lem s now id st old err r h = set_found (lookup id s.items) refl (ground (arith, h))
    where
      set_found :
          (o : Option (Task R))
          → lookup id s.items ≡ o
          → status_or_nil o ≡ some old
          → status_at (status_of s now id st err r o) id ≡ some st
      set_found none e g = ground (arith, g)
      set_found (some t) e g = status_of_lem s now id st err r t

  -- How a task without a slot comes to one: there is a free one when it asks, or it is the first to wait when
  -- another task gives back its own.
  abbrev pub MayEnter : System R → Text → Text → Type 0
  MayEnter y id other =
      ((lookup id y.jobs ≡ some Phase.queued) × (y.slots.active < concurrency_of y.slots))
      ⊎ ((lookup id y.jobs ≡ some Phase.waiting)
          × ((rest : List Text) × (y.slots.waiters ≡ id ∷ rest)))

  -- The step that gives the slot.
  abbrev pub enter_by : Option (Phase R) → System R → Text → Text → System R
  enter_by (some waiting) y id other = give_back y other
  enter_by _ y id other = start y id

  -- A task that is canceled while its function runs is reported as canceled, whatever the function
  -- answers.
  pub cancel_working :
      (y : System R) (id err : Text) (t : Task R) (r : Option R) (c : Bool) (now : ℕ)
      → lookup id y.store.items ≡ some t
      → t.status ≡ Status.running
      → lookup id y.jobs ≡ some (Phase.working c)
      → let after = (cancel y id).0 in
        let well = report (judge after id true (returned r)) id now (verdict true (returned r)) in
        let ill =
          report (judge after id true (raised err r)) id now (verdict true (raised err r)) in
        ((cancel y id).1 ≡ accepted)
        × (lookup id after.jobs ≡ some (Phase.working true))
        × (status_at well.store id ≡ some Status.canceled)
        × (status_at ill.store id ≡ some Status.canceled)
  unfolding cancel judge report verdict cancel_answer
  cancel_working y id err t r c now at runs works =
      let s0 : status_at y.store id ≡ some Status.running = ground (arith, at, runs) in
      let s1 =
        set_status_lem y.store now id Status.canceled Status.running (codes "context canceled") r
          s0 in
      (
        ground (arith, at, runs),
        rw works (ground (arith, lookup-insert id id (Phase.working true) y.jobs, text_eq_refl id)),
        s1,
        s1,
      )
