-- ===== src/Tasks/Store/Retention.antt =====
-- internal/tasks/store.go: what is kept, and how much of it.
use chatgpt_prism2api.Base.{
  ℕ, ◌≤◌, ◌≡◌, refl, true, false, Option, none, some, List, [], ◌∷◌, ◌++◌, ltb, if◌then◌else◌,
  length, arith, Bool-cases, inl, inr, subst, sym, ap, ◌∙◌,
}
use chatgpt_prism2api.Base.Int.{ℤ}
use chatgpt_prism2api.Base.Text.{Text, text_eq_iff}
use chatgpt_prism2api.Base.Dict.{lookup, insert, erase, text_key, lookup-insert, lookup-erase}
use chatgpt_prism2api.GroupNames.{has_name}
use chatgpt_prism2api.GroupNames.Laws.{NoRepeat}
use chatgpt_prism2api.Scheduler.Cache.Laws.{has_name-append}
use chatgpt_prism2api.Tasks.Store.{
  Task, LogLine, TaskStore, Status, max_tasks, max_logs, last_of, trim, trim_locked, save_tasks,
  put_locked, append_log, append_to, progress, progress_of, set_status, status_of, has_task,
  publish_locked, with_status,
}

-- The last elements are as many as asked for, or all.
pub length-last_of {ℓ} :
    {A : Type ℓ} (n : ℕ) (xs : List A)
    → length (last_of n xs) ≡ (if ltb n (length xs) then n else length xs)
unfolding last_of
length-last_of n [] = ground arith
length-last_of n (x ∷ xs) = ground (arith, length-last_of n xs)

pub snoc-NoRepeat :
    (id : Text) (ids : List Text)
    → NoRepeat ids
    → has_name id ids ≡ false
    → NoRepeat (ids ++ id ∷ [])
unfolding has_name
snoc-NoRepeat id [] u h = (refl, tt)
snoc-NoRepeat id (j ∷ ids) u h = ground (
  arith,
  has_name-append j ids (id ∷ []),
  text_eq_iff id j,
  text_eq_iff j id,
  snoc-NoRepeat id ids u.1,
)

module _ {R : Type 0} where
  abbrev LogsFit : Option (Task R) → Type 0
  LogsFit none = Unit
  LogsFit (some t) = length t.logs ≤ max_logs

  -- The identifiers in order are distinct and are those of the entries, and no task has more log lines
  -- than are kept.
  pub record IsKept (m : List (Text × Task R)) (ids : List Text) : Type 0 where
    pub distinct : NoRepeat ids
    pub indexed : (id : Text) → has_task (lookup id m) ≡ has_name id ids
    pub few_logs : (id : Text) → LogsFit (lookup id m)

  -- A store that is kept so, with no more tasks than are kept.
  pub record IsBounded (s : TaskStore R) : Type 0 where
    pub kept : IsKept s.items s.order
    pub few_tasks : length s.order ≤ max_tasks

  erased-IsKept :
      (m : List (Text × Task R)) (id : Text) (ids : List Text)
      → IsKept m (id ∷ ids)
      → IsKept (erase id m) ids
  unfolding has_name
  erased-IsKept m id ids h = record {
    distinct = h.distinct.1;
    indexed = λ j. ground (arith, lookup-erase id j m, h.indexed j, h.distinct, text_eq_iff id j);
    few_logs = λ j. ground (arith, lookup-erase id j m, h.few_logs j);
  }

  written-IsKept :
      (m : List (Text × Task R)) (id : Text) (ids : List Text) (t : Task R)
      → IsKept m ids
      → has_task (lookup id m) ≡ true
      → length t.logs ≤ max_logs
      → IsKept (insert id t m) ids
  written-IsKept m id ids t h there fits = record {
    distinct = h.distinct;
    indexed = λ j. ground (arith, lookup-insert id j t m, h.indexed j, text_eq_iff id j);
    few_logs = λ j. ground (arith, lookup-insert id j t m, h.few_logs j);
  }

  added-IsKept :
      (m : List (Text × Task R)) (id : Text) (ids : List Text) (t : Task R)
      → IsKept m ids
      → has_task (lookup id m) ≡ false
      → length t.logs ≤ max_logs
      → IsKept (insert id t m) (ids ++ id ∷ [])
  unfolding has_name
  added-IsKept m id ids t h free fits = record {
    distinct = snoc-NoRepeat id ids h.distinct (sym (h.indexed id) ∙ free);
    indexed =
        λ j. ground (arith, lookup-insert id j t m, h.indexed j, has_name-append j ids (id ∷ []));
    few_logs = λ j. ground (arith, lookup-insert id j t m, h.few_logs j);
  }

  trim-IsKept :
      (m : List (Text × Task R)) (ids : List Text)
      → IsKept m ids
      → IsKept (trim m ids).0 (trim m ids).1
  unfolding trim
  trim-IsKept m [] h = h
  trim-IsKept m (id ∷ ids) h = elim (Bool-cases (ltb max_tasks (length (id ∷ ids)))) [
    | inl long ↦ rw long (trim-IsKept (erase id m) ids (erased-IsKept m id ids h))
    | inr short ↦ rw short h
  ]

  length-trim : (m : List (Text × Task R)) (ids : List Text) → length (trim m ids).1 ≤ max_tasks
  unfolding trim
  length-trim m [] = omega arith
  length-trim m (id ∷ ids) = ground (arith, length-trim (erase id m) ids)

  put-IsKept :
      (s : TaskStore R) (t : Task R)
      → IsKept s.items s.order
      → length t.logs ≤ max_logs
      → IsKept
          (insert t.id t s.items)
          (if has_task (lookup t.id s.items) then s.order else s.order ++ t.id ∷ [])
  put-IsKept s t h fits = elim (Bool-cases (has_task (lookup t.id s.items))) [
    | inl there ↦ rw there (written-IsKept s.items t.id s.order t h there fits)
    | inr free ↦ rw free (added-IsKept s.items t.id s.order t h free fits)
  ]

  put_locked-IsBounded :
      (s : TaskStore R) (t : Task R)
      → IsBounded s
      → length t.logs ≤ max_logs
      → IsBounded (put_locked s t)
  unfolding put_locked trim_locked save_tasks
  put_locked-IsBounded s t h fits =
      let ids = if has_task (lookup t.id s.items) then s.order else s.order ++ t.id ∷ [] in
      record {
        kept = trim-IsKept (insert t.id t s.items) ids (put-IsKept s t h.kept fits);
        few_tasks = length-trim (insert t.id t s.items) ids;
      }

  changed-IsBounded :
      (s : TaskStore R) (id : Text) (t u : Task R)
      → IsBounded s
      → lookup id s.items ≡ some t
      → length u.logs ≤ max_logs
      → IsBounded (record s { items = insert id u s.items })
  changed-IsBounded s id t u h at fits = record {
    kept = written-IsKept s.items id s.order u h.kept (ap has_task at) fits;
    few_tasks = h.few_tasks;
  }

  append_to-IsBounded :
      (s : TaskStore R) (id : Text) (line : LogLine) (o : Option (Task R))
      → lookup id s.items ≡ o
      → IsBounded s
      → IsBounded (append_to s id line o)
  unfolding append_to save_tasks publish_locked
  append_to-IsBounded s id line none at h = h
  append_to-IsBounded s id line (some t) at h =
      let b =
        changed-IsBounded s id t
          (record t { logs = last_of max_logs (t.logs ++ line ∷ []); message = line.message }) h at
          (ground (arith, length-last_of max_logs (t.logs ++ line ∷ []))) in
      record { kept = b.kept; few_tasks = b.few_tasks }

  fits_of :
      (s : TaskStore R) (id : Text) (t : Task R)
      → IsBounded s
      → lookup id s.items ≡ some t
      → length t.logs ≤ max_logs
  fits_of s id t h at = subst LogsFit at (h.kept.few_logs id)

  progress_of-IsBounded :
      (s : TaskStore R) (id : Text) (current total : ℤ) (message : Text) (o : Option (Task R))
      → lookup id s.items ≡ o
      → IsBounded s
      → IsBounded (progress_of s id current total message o)
  unfolding progress_of save_tasks publish_locked
  progress_of-IsBounded s id current total message none at h = h
  progress_of-IsBounded s id current total message (some t) at h =
      let b = changed-IsBounded s id t _ h at (fits_of s id t h at) in
      record { kept = b.kept; few_tasks = b.few_tasks }

  status_of-IsBounded :
      (s : TaskStore R) (now : ℕ) (id : Text) (status : Status) (err : Text) (result : Option R)
      (o : Option (Task R))
      → lookup id s.items ≡ o
      → IsBounded s
      → IsBounded (status_of s now id status err result o)
  unfolding status_of with_status save_tasks publish_locked
  status_of-IsBounded s now id status err result none at h = h
  status_of-IsBounded s now id status err result (some t) at h =
      let b =
        changed-IsBounded s id t (with_status now status err result t) h at (fits_of s id t h at) in
      record { kept = b.kept; few_tasks = b.few_tasks }

  -- Whatever is put, logged or set, the store keeps at most four hundred tasks, each once and with at
  -- most two thousand log lines, and every identifier in order has its task.
  pub methods-IsBounded :
      (s : TaskStore R) (t : Task R) (id level msg : Text) (now : ℕ) (current total : ℤ)
      (status : Status) (result : Option R)
      → IsBounded s
      → length t.logs ≤ max_logs
      → IsBounded (put_locked s t)
        × IsBounded (append_log s now id level msg)
        × IsBounded (progress s id current total msg)
        × IsBounded (set_status s now id status msg result)
  unfolding append_log progress set_status
  methods-IsBounded s t id level msg now current total status result h fits = (
    put_locked-IsBounded s t h fits,
    append_to-IsBounded s id _ (lookup id s.items) refl h,
    progress_of-IsBounded s id current total msg (lookup id s.items) refl h,
    status_of-IsBounded s now id status msg result (lookup id s.items) refl h,
  )
