-- ===== src/Metadata/Tasks.antt =====
-- The work on the tasks in ton-metadata-fetcher/main.go: fetchTasks, processTask, handleTaskFailure
-- and updateStalledTasks. A panic is `none`. Durations are in nanoseconds.
pub mod Laws
pub mod Outcome
pub mod Queue
use ton_indexer.Prelude.{
  ℕ, zero, suc, String, Bool, true, false, Option, none, some, List, [], ◌∷◌, Result, ok, err, ◌+◌,
  ◌-◌, ◌*◌, ◌/◌, ◌^◌, ◌<◌, if◌then◌else◌, ltb, leb, ◌==◌, ◌&&◌, ◌||◌, not, map, str_eq, min,
}
use mathlib.Core.Option.{map as map_option}
use ton_indexer.Prelude.GoMap.{GoMap, insert}
use ton_indexer.Prelude.Text.{concat}
use ton_indexer.Metadata.Content.{Value, text, AddressMetadata, entries}
use ton_indexer.Metadata.Fetch.{Network, fetch_content}
use ton_indexer.Metadata.Overrides.{FetchTask, OverrideManager, Content, Loaded, get_metadata}
use ton_indexer.Metadata.Tables.{
  Status, ready, BackgroundTask, MetadataRow, Tables, Statement, delete_task, retry_task, fail_task,
  upsert_valid, upsert_invalid, apply, is_ready, is_in_progress,
}

-- The pool, and the transactions of PostgreSQL. `effect` is what the statements of a transaction do
-- to the tables. They hold the locks of their rows until the transaction ends, so that they act on
-- the tables as these are then, with what other transactions have committed meanwhile. A commit may
-- fail, and gives its error beside the tables.
pub record Database : Type 1 where
  pub Tx : Type 0
  pub acquire : Option String
  pub begin : Result String Tx
  pub query_row : String → String → Tx → Result String Content × Tx
  pub exec : Statement → Tx → Option String × Tx
  pub commit : Tx → Tables → Option String × Tables
  pub effect : Tx → Tables → Tables

-- backoff_power r is the whole part of backoff_multiplier to the power r - 1. The settings are such
-- that the delays of the retries they allow are not beyond the 63 bits of a time.Duration.
pub record Settings : Type 0 where
  pub max_retries : ℕ
  pub initial_backoff : ℕ
  pub max_backoff : ℕ
  pub backoff_power : ℕ → ℕ
  pub delays_fit :
      (retry : ℕ) → retry < max_retries → initial_backoff * backoff_power retry < 2 ^ 63

unfoldable pub expiration_period : ℕ
expiration_period = 604800

unfoldable pub calculate_backoff_delay : Settings → ℕ → ℕ
calculate_backoff_delay s retry =
    let delay = s.initial_backoff * s.backoff_power retry in
    if ltb s.max_backoff delay then s.max_backoff else delay

-- int64(delay.Seconds())
abbrev pub seconds : ℕ → ℕ
seconds delay = delay / 1000000000

-- The rows that processTask and handleTaskFailure write, at a time.
abbrev pub valid_row : ℕ → FetchTask → AddressMetadata → MetadataRow
unfolding expiration_period
valid_row now task content = record {
  address = task.address;
  type = task.type;
  valid = true;
  name = content.name;
  description = content.description;
  image = content.image;
  symbol = content.symbol;
  extra = content.extra;
  updated_at = now;
  expires_at = now + expiration_period;
}

abbrev pub invalid_row : ℕ → FetchTask → String → MetadataRow
unfolding expiration_period
invalid_row now task e = record {
  address = task.address;
  type = task.type;
  valid = false;
  name = none;
  description = none;
  image = none;
  symbol = none;
  extra = some (("error", text e) ∷ []);
  updated_at = now;
  expires_at = now + expiration_period;
}

unfoldable pub failure_statement : Settings → FetchTask → String → Statement
unfolding calculate_backoff_delay
failure_statement s task e =
    if ltb task.retry s.max_retries
    then retry_task (seconds (calculate_backoff_delay s task.retry)) task.task_id e
    else fail_task e task.task_id

-- the proxied images; b.BuildUrl
unfoldable pub with_images : (String → String → String) → AddressMetadata → AddressMetadata
with_images build_url content = elim content.image [
  | none ↦ content
  | some image ↦ record content {
    extra = some (
        insert "_image_big" (text (build_url image "big")) (
          insert "_image_medium" (text (build_url image "medium"))
            (insert "_image_small" (text (build_url image "small")) (entries content.extra))));
  }
]

-- what is left when the statement has failed, or how the work goes on after it
abbrev pub after :
    {A : Type 0}
    → Option String × A
    → (String → A → Option String × A)
    → (A → Option String × A)
    → Option String × A
after (some e, tx) failed done = failed e tx
after (none, tx) failed done = done tx

module _ (d : Database) (s : Settings) (now : ℕ) where
  unfoldable pub handle_task_failure : FetchTask → String → d.Tx → Option String × d.Tx
  unfolding failure_statement
  handle_task_failure task e tx =
      after (d.exec (failure_statement s task e) tx) (λ e2 t. (some e2, t))
        (λ t. d.exec (upsert_invalid (invalid_row now task e)) t)

  unfoldable pub store : FetchTask → AddressMetadata → d.Tx → Option String × d.Tx
  unfolding handle_task_failure concat
  store task content tx =
      after (d.exec (upsert_valid (valid_row now task content)) tx)
        (λ e t. handle_task_failure task e t)
        (λ t.
          after (d.exec (delete_task task.task_id) t)
            (λ e u. handle_task_failure task (concat "failed to delete task: " e) u)
            (λ u. (none, u)))

  -- The deferred call rolls back at an error, else it commits. It drops the error of the commit.
  abbrev pub finished : Tables → Option String × d.Tx → Option String × Tables
  finished tables (some e, tx) = (some e, tables)
  finished tables (none, tx) = (none, (d.commit tx tables).1)

  -- what follows fetchContent
  unfoldable pub process_fetched :
      (String → String → String)
      → FetchTask
      → Option (Result String AddressMetadata)
      → d.Tx
      → Option (Option String × d.Tx)
  unfolding store with_images
  process_fetched build_url task none tx = none
  process_fetched build_url task (some (err e)) tx = some (handle_task_failure task e tx)
  process_fetched build_url task (some (ok content)) tx =
      some (store task (with_images build_url content) tx)

  module _ (n : Network) (build_url : String → String → String) where
    -- what follows getMetadata
    unfoldable pub process_metadata :
        FetchTask → Result String (GoMap Value) → d.Tx → Option (Option String × d.Tx)
    unfolding process_fetched
    process_metadata task (err e) tx = some (handle_task_failure task e tx)
    process_metadata task (ok metadata) tx =
        process_fetched build_url task (fetch_content n metadata) tx

    unfoldable pub run_loaded :
        Tables → FetchTask → Loaded × d.Tx → Option ((Option String × Tables) × OverrideManager)
    unfolding process_metadata
    run_loaded tables task (none, tx) = none
    run_loaded tables task (some (metadata, m), tx) =
        map_option (λ r. (finished tables r, m)) (process_metadata task metadata tx)

    -- what follows pool.Acquire and conn.Begin
    unfoldable pub begin_task :
        FetchTask
        → OverrideManager
        → Tables
        → Option String
        → Result String d.Tx
        → Option ((Option String × Tables) × OverrideManager)
    unfolding run_loaded get_metadata concat
    begin_task task m tables (some e) begun =
        some ((some (concat "failed to acquire connection: " e), tables), m)
    begin_task task m tables none (err e) =
        some ((some (concat "failed to start transaction: " e), tables), m)
    begin_task task m tables none (ok tx) =
        run_loaded tables task (get_metadata n.unmarshal d.query_row task m tx)

    -- tables: as they are when the task's transaction ends
    unfoldable pub process_task :
        FetchTask → OverrideManager → Tables → Option ((Option String × Tables) × OverrideManager)
    unfolding begin_task
    process_task task m tables = begin_task task m tables d.acquire d.begin
