-- ===== src/Tasks/Runner/Holding.antt =====
-- internal/tasks/runner.go: the counter of the runner counts the tasks that hold a slot.
use chatgpt_prism2api.Base.{
  ℕ, ◌+◌, ◌≡◌, refl, Bool, true, false, Option, none, some, List, [], ◌∷◌, ◌++◌, if◌then◌else◌,
  arith, ltb, Bool-cases, inl, inr,
}
use chatgpt_prism2api.Base.Text.{Text, text_eq_iff, text_eq_refl}
use chatgpt_prism2api.Base.Dict.{lookup, insert, text_key, lookup-insert}
use chatgpt_prism2api.GroupNames.{has_name}
use chatgpt_prism2api.GroupNames.Laws.{NoRepeat}
use chatgpt_prism2api.Scheduler.Cache.Laws.{has_name-append}
use chatgpt_prism2api.Tasks.Store.Retention.{snoc-NoRepeat}
use chatgpt_prism2api.Tasks.Slots.{Slots, acquire_slot, release_slot, hand_over, concurrency_of}
use chatgpt_prism2api.Tasks.Runner.{
  Phase, queued, waiting, granted, ended, leaving, finished, registered, working, judged, System,
  enqueue, start, register, begin_run, judge, report, unregister, give_back, wake, interrupt,
  cancel, set_canceled, Step, enqueued, started, has_registered, began, answered, reported,
  unregistered, left, cancel_called, cancel_set, Reach, here, next,
}

module _ {R : Type 0} where
  -- Whether a goroutine holds a slot.
  abbrev pub holds : Phase R → ℕ
  holds queued = 0
  holds waiting = 0
  holds finished = 0
  holds _ = 1

  unfoldable pub holding : List (Text × Phase R) → ℕ
  holding [] = 0
  holding ((id, p) ∷ m) = holds p + holding m

  holding-insert :
      (id : Text) (old new : Phase R) (m : List (Text × Phase R))
      → lookup id m ≡ some old
      → holding (insert id new m) + holds old ≡ holding m + holds new
  unfolding lookup insert holding
  holding-insert id old new [] h = cc
  holding-insert id old new ((j, p) ∷ m) h = ground (arith, holding-insert id old new m)

  holding_new :
      (id : Text) (new : Phase R) (m : List (Text × Phase R))
      → lookup id m ≡ none
      → holding (insert id new m) ≡ holding m + holds new
  unfolding lookup insert holding
  holding_new id new [] h = omega arith
  holding_new id new ((j, p) ∷ m) h = ground (arith, holding_new id new m)

  abbrev is_waiting : Phase R → Bool
  is_waiting waiting = true
  is_waiting _ = false

  -- The counter counts the holders, and the waiters are waiting, each once.
  pub record IsTracked (r : Slots) (jobs : List (Text × Phase R)) : Type 0 where
    pub counted : r.active ≡ holding jobs
    pub waiters : (id : Text) → has_name id r.waiters ≡ true → lookup id jobs ≡ some waiting
    pub distinct : NoRepeat r.waiters

  -- A goroutine that is not waiting goes on, with its slot or without one as before.
  moved-IsTracked :
      (r : Slots) (jobs : List (Text × Phase R)) (id : Text) (old new : Phase R)
      → lookup id jobs ≡ some old
      → is_waiting old ≡ false
      → holds old ≡ holds new
      → IsTracked r jobs
      → IsTracked r (insert id new jobs)
  moved-IsTracked r jobs id old new at awake same v = record {
    counted = omega (arith, v.counted, holding-insert id old new jobs at, same);
    waiters = λ w h. ground (arith, lookup-insert id w new jobs, v.waiters w h, text_eq_iff id w);
    distinct = v.distinct;
  }

  fresh-IsTracked :
      (r : Slots) (jobs : List (Text × Phase R)) (id : Text)
      → lookup id jobs ≡ none
      → IsTracked r jobs
      → IsTracked r (insert id queued jobs)
  fresh-IsTracked r jobs id free v = record {
    counted = omega (arith, v.counted, holding_new id queued jobs free);
    waiters =
        λ w h. ground (arith, lookup-insert id w queued jobs, v.waiters w h, text_eq_iff id w);
    distinct = v.distinct;
  }

  taken-IsTracked :
      (r : Slots) (jobs : List (Text × Phase R)) (id : Text)
      → lookup id jobs ≡ some queued
      → IsTracked r jobs
      → IsTracked (record r { active = r.active + 1 }) (insert id granted jobs)
  taken-IsTracked r jobs id at v = record {
    counted = omega (arith, v.counted, holding-insert id queued granted jobs at);
    waiters =
        λ w h. ground (arith, lookup-insert id w granted jobs, v.waiters w h, text_eq_iff id w);
    distinct = v.distinct;
  }

  line_up-IsTracked :
      (r : Slots) (jobs : List (Text × Phase R)) (id : Text)
      → lookup id jobs ≡ some queued
      → IsTracked r jobs
      → IsTracked (record r { waiters = r.waiters ++ id ∷ [] }) (insert id waiting jobs)
  unfolding has_name
  line_up-IsTracked r jobs id at v = record {
    counted = omega (arith, v.counted, holding-insert id queued waiting jobs at);
    waiters = λ w h. ground (
      arith,
      lookup-insert id w waiting jobs,
      has_name-append w r.waiters (id ∷ []),
      v.waiters w,
      h,
    );
    distinct = snoc-NoRepeat id r.waiters v.distinct (ground (arith, v.waiters id, at));
  }

  handed-IsTracked :
      (r : Slots) (jobs : List (Text × Phase R)) (id : Text) (ws : List Text)
      → lookup id jobs ≡ some leaving
      → IsTracked (record r { waiters = ws }) jobs
      → IsTracked
          (hand_over (record r { waiters = ws }) ws).0
          (wake (insert id finished jobs) (hand_over (record r { waiters = ws }) ws).1)
  unfolding hand_over has_name
  handed-IsTracked r jobs id [] at v = record {
    counted = ground (arith, v.counted, holding-insert id leaving finished jobs at);
    waiters = λ w h. ground (arith, h);
    distinct = ground arith;
  }
  handed-IsTracked r jobs id (w ∷ ws) at v =
      let waits : lookup w jobs ≡ some waiting = v.waiters w (ground (arith, text_eq_refl w)) in
      let still : lookup w (insert id finished jobs) ≡ some waiting =
        ground (arith, lookup-insert id w finished jobs, waits, at, text_eq_iff id w) in
      record {
        counted = omega (
          arith,
          v.counted,
          holding-insert id leaving finished jobs at,
          holding-insert w waiting granted (insert id finished jobs) still,
        );
        waiters = λ u h. ground (
          arith,
          h,
          v.waiters u,
          v.distinct.0,
          at,
          text_eq_iff w u,
          text_eq_iff id u,
          lookup-insert w u granted (insert id finished jobs),
          lookup-insert id u finished jobs,
        );
        distinct = v.distinct.1;
      }

  started-IsTracked :
      (r : Slots) (jobs : List (Text × Phase R)) (id : Text)
      → lookup id jobs ≡ some queued
      → IsTracked r jobs
      → IsTracked
          (acquire_slot r id).0
          (insert id (if (acquire_slot r id).1 then granted else waiting) jobs)
  unfolding acquire_slot
  started-IsTracked r jobs id at v = elim (Bool-cases (ltb r.active (concurrency_of r))) [
    | inl free ↦ rw free (taken-IsTracked r jobs id at v)
    | inr full ↦ rw full (line_up-IsTracked r jobs id at v)
  ]

  interrupted-IsTracked :
      (r : Slots) (jobs : List (Text × Phase R)) (id : Text) (p : Option (Phase R))
      → lookup id jobs ≡ p
      → IsTracked r jobs
      → IsTracked r (interrupt id p jobs)
  interrupted-IsTracked r jobs id (some (working c)) at v =
      moved-IsTracked r jobs id (working c) (working true) at refl refl v
  interrupted-IsTracked r jobs id (some (registered c)) at v =
      moved-IsTracked r jobs id (registered c) (registered true) at refl refl v
  interrupted-IsTracked r jobs id none at v = v
  interrupted-IsTracked r jobs id (some queued) at v = v
  interrupted-IsTracked r jobs id (some waiting) at v = v
  interrupted-IsTracked r jobs id (some granted) at v = v
  interrupted-IsTracked r jobs id (some ended) at v = v
  interrupted-IsTracked r jobs id (some leaving) at v = v
  interrupted-IsTracked r jobs id (some finished) at v = v
  interrupted-IsTracked r jobs id (some (judged w)) at v = v

  Step-IsTracked : {y z : System R} → Step y z → IsTracked y.slots y.jobs → IsTracked z.slots z.jobs
  unfolding enqueue start register begin_run judge report unregister give_back cancel set_canceled
      release_slot
  Step-IsTracked (enqueued y req id now free) v = fresh-IsTracked y.slots y.jobs id free v
  Step-IsTracked (started y id at) v = started-IsTracked y.slots y.jobs id at v
  Step-IsTracked (has_registered y id at) v =
      moved-IsTracked y.slots y.jobs id granted (registered false) at refl refl v
  Step-IsTracked (began y id c now at) v =
      moved-IsTracked y.slots y.jobs id (registered c) (working c) at refl refl v
  Step-IsTracked (answered y id c a at) v =
      moved-IsTracked y.slots y.jobs id (working c) _ at refl refl v
  Step-IsTracked (reported y id now w at) v =
      moved-IsTracked y.slots y.jobs id (judged w) ended at refl refl v
  Step-IsTracked (unregistered y id at) v =
      moved-IsTracked y.slots y.jobs id ended leaving at refl refl v
  Step-IsTracked (left y id at) v = handed-IsTracked y.slots y.jobs id y.slots.waiters at v
  Step-IsTracked (cancel_called y id) v =
      interrupted-IsTracked y.slots y.jobs id (lookup id y.jobs) refl v
  Step-IsTracked (cancel_set y id now h) v = v

  -- However the goroutines interleave, the counter of the runner is the number of those that hold a
  -- slot, and its queue has goroutines that wait, each once.
  pub Reach-IsTracked :
      {y z : System R} → IsTracked y.slots y.jobs → Reach y z → IsTracked z.slots z.jobs
  Reach-IsTracked v here = v
  Reach-IsTracked v (next r st) = Step-IsTracked st (Reach-IsTracked v r)
