-- ===== src/Metadata/Tasks/Queue.antt =====
-- Which tasks fetchTasks of ton-metadata-fetcher/main.go takes, and which ones updateStalledTasks
-- makes ready again.
use ton_indexer.Prelude.{
  ℕ, zero, suc, String, Bool, true, false, Option, none, some, List, [], ◌∷◌, ◌≡◌, refl, ◌+◌, ◌<◌,
  ◌≤◌, arith, if◌then◌else◌, ltb, leb, ◌==◌, ◌&&◌, str_eq, All, Bool-cases, inl, inr, ◌>>=◌,
}
use ton_indexer.Metadata.Overrides.{FetchTask}
use ton_indexer.Metadata.Tables.{
  ready, BackgroundTask, Tables, apply, is_ready, is_in_progress, update_task, retried, given_up,
}
use ton_indexer.Metadata.Tasks.{Settings, failure_statement, calculate_backoff_delay, seconds}
use ton_indexer.Metadata.Tasks.Laws.{failed_tables}

abbrev reached : ℕ → Option ℕ → Bool
reached now none = true
reached now (some at) = leb at now

-- the condition of the SELECT in fetchTasks
unfoldable pub is_due : ℕ → ℕ → BackgroundTask → Bool
is_due max_retries now t =
    is_ready t.status
    && str_eq t.task_type "fetch_metadata"
    && leb t.retries max_retries
    && reached now t.retry_at

-- A task without the texts in its data panics.
to_fetch_task : BackgroundTask → Option FetchTask
to_fetch_task t = elim t.data_type [
  | none ↦ none
  | some type ↦ elim t.data_address [
    | none ↦ none
    | some address ↦
        some (record { address = address; type = type; retry = t.retries; task_id = t.id })
  ]
]

-- at most `limit` of the tasks that are due
take_due : ℕ → ℕ → ℕ → List BackgroundTask → List BackgroundTask
unfolding is_due
take_due limit max_retries now [] = []
take_due limit max_retries now (t ∷ more) = elim limit [
  | zero ↦ []
  | suc n ↦
      let rest = take_due n max_retries now more in
      let others = take_due (suc n) max_retries now more in
      if is_due max_retries now t then t ∷ rest else others
]

collect : List BackgroundTask → Option (List FetchTask)
unfolding to_fetch_task
collect [] = some []
collect (t ∷ more) = do task ← to_fetch_task t; rest ← collect more; some (task ∷ rest)

unfoldable pub fetch_tasks : ℕ → ℕ → Tables → Option (List FetchTask)
unfolding collect take_due
fetch_tasks max_retries now t = collect (take_due 10000 max_retries now t.background_tasks)

abbrev started_before : ℕ → ℕ → Option ℕ → Bool
started_before now interval none = false
started_before now interval (some at) = ltb (at + interval) now

-- the condition and the SET of the UPDATE in updateStalledTasks, which gets the interval as a
-- Duration; delay is what LEAST gives for the retries
module _ (delay : ℕ → ℕ) (interval now : ℕ) where
  is_stalled : BackgroundTask → Bool
  is_stalled t =
      str_eq t.task_type "fetch_metadata"
      && is_in_progress t.status
      && started_before now interval t.started_at

  reset : BackgroundTask → BackgroundTask
  unfolding is_stalled
  reset t =
      if is_stalled t
      then record t { status = ready; retry_at = some (now + delay t.retries) }
      else t

  reset_all : List BackgroundTask → List BackgroundTask
  unfolding reset
  reset_all [] = []
  reset_all (t ∷ more) = reset t ∷ reset_all more

  unfoldable pub update_stalled_tasks : Tables → Tables
  unfolding reset_all
  update_stalled_tasks t = record t { background_tasks = reset_all t.background_tasks }

  started_before-false : now ≤ interval → (o : Option ℕ) → started_before now interval o ≡ false
  started_before-false h none = refl
  started_before-false h (some at) = ground arith

  is_stalled-false : now ≤ interval → (t : BackgroundTask) → is_stalled t ≡ false
  unfolding is_stalled
  is_stalled-false h t = rw (started_before-false h t.started_at) ground arith

  reset-id : now ≤ interval → (t : BackgroundTask) → reset t ≡ t
  unfolding reset
  reset-id h t = rw (is_stalled-false h t)

  reset_all-id : now ≤ interval → (l : List BackgroundTask) → reset_all l ≡ l
  unfolding reset_all
  reset_all-id h [] = refl
  reset_all-id h (t ∷ more) = rw (reset-id h t, reset_all-id h more)

  -- updateStalledTasks leaves the tables as they are at each time, in seconds, up to the interval in
  -- nanoseconds, however long ago a task was started.
  pub update_stalled_tasks-idle : (t : Tables) → now ≤ interval → update_stalled_tasks t ≡ t
  unfolding update_stalled_tasks
  update_stalled_tasks-idle t h = rw (reset_all-id h t.background_tasks)

module _ (id : ℕ) (f : BackgroundTask → BackgroundTask) (P : BackgroundTask → Type 0) where
  update_task-All :
      ((t : BackgroundTask) → P (f t))
      → (l : List BackgroundTask) → All (λ t. t.id ≡ id → P t) (update_task id f l)
  unfolding update_task
  update_task-All h [] = tt
  update_task-All h (t ∷ more) = elim (Bool-cases (t.id == id)) [
    | inl e ↦ rw e (λ same. h t, update_task-All h more)
    | inr e ↦ rw e (λ same. ground arith, update_task-All h more)
  ]

retried-is_due :
    (max_retries now later delay : ℕ) (e : String) (row : BackgroundTask)
    → is_due max_retries later (retried now delay e row) ≡ true
    → now + delay ≤ later
unfolding is_due
retried-is_due max_retries now later delay e row due = ground arith

given_up-is_due :
    {P : Type 0} (max_retries now later : ℕ) (e : String) (row : BackgroundTask)
    → is_due max_retries later (given_up now e row) ≡ true
    → P
unfolding is_due
given_up-is_due max_retries now later e row due = ground arith

-- After a failure, the task is due again only if its retries were not used up, and only when the
-- delay of its backoff is over.
pub failed_tables-is_due :
    (s : Settings) (now later : ℕ) (task : FetchTask) (e : String) (t : Tables)
    → All
        (λ row.
          row.id ≡ task.task_id
          → is_due s.max_retries later row ≡ true
          → (task.retry < s.max_retries)
            × (now + seconds (calculate_backoff_delay s task.retry) ≤ later))
        (failed_tables s now task e t).background_tasks
unfolding failed_tables failure_statement apply
failed_tables-is_due s now later task e t = elim (Bool-cases (ltb task.retry s.max_retries)) [
  | inl h ↦
      rw (h, failure_statement)
        (update_task-All task.task_id _
          (λ row.
            is_due s.max_retries later row ≡ true
            → (task.retry < s.max_retries)
              × (now + seconds (calculate_backoff_delay s task.retry) ≤ later))
          (λ row due. (ground arith, retried-is_due s.max_retries now later _ e row due))
          t.background_tasks)
  | inr h ↦
      rw (h, failure_statement)
        (update_task-All task.task_id _
          (λ row.
            is_due s.max_retries later row ≡ true
            → (task.retry < s.max_retries)
              × (now + seconds (calculate_backoff_delay s task.retry) ≤ later))
          (λ row due. given_up-is_due s.max_retries now later e row due) t.background_tasks)
]
