-- ===== src/Metadata/Examples.antt =====
-- Runs of ton-metadata-fetcher on small data.
use ton_indexer.Prelude.{
  ℕ, String, Bool, true, false, Option, none, some, [], ◌∷◌, ok, ◌≡◌, refl, ◌≤◌, ◌<◌, arith, ◌+◌,
  All, ap, sym, ◌⊎◌, inl, inr,
}
use ton_indexer.Prelude.GoMap.{GoMap, lookup, IsUnique}
use ton_indexer.Metadata.Content.{Value, text, non_text, empty_metadata, get_metadata_from_json}
use ton_indexer.Metadata.Content.Laws.{IsRead, get_metadata_from_json_correct}
use ton_indexer.Metadata.Fetch.{Network, Response, fetch_content}
use ton_indexer.Metadata.Fetch.Laws.{Outcome, fetch_content_correct}
use ton_indexer.Metadata.Ipfs.{file}
use ton_indexer.Metadata.Overrides.{FetchTask, OverrideManager}
use ton_indexer.Metadata.Tables.{
  Statement, start_task, delete_task, retry_task, fail_task, upsert_valid, upsert_invalid, Tables,
  BackgroundTask, in_progress, apply,
}
use ton_indexer.Metadata.Tasks.{Database, Settings, seconds, calculate_backoff_delay}
use ton_indexer.Metadata.Tasks.Laws.{IsTransactional, failed_tables}
use ton_indexer.Metadata.Tasks.Queue.{
  is_due, update_stalled_tasks, update_stalled_tasks-idle, failed_tables-is_due,
}

abbrev link : GoMap Value
link = ("uri", text "https://x.org/1.json") ∷ ("name", text "One") ∷ ("decimals", non_text "9") ∷ []

abbrev link-IsUnique : IsUnique link
unfolding lookup
link-IsUnique = (refl, (refl, (refl, tt)))

abbrev page : Response
page = record { status_code = 200; status = "200 OK"; body = ok "null" }

abbrev network : Network
network = record {
  client_get = λ url. ok page;
  new_path = λ path. ok path;
  get_node = λ path. ok (file (ok 4) (ok "null"));
  unmarshal = λ bytes. ok (some (("description", text bytes) ∷ []));
}

get_metadata_from_json_correct_example : IsRead link empty_metadata (get_metadata_from_json link)
get_metadata_from_json_correct_example = get_metadata_from_json_correct link link-IsUnique

fetch_content_correct_example : Outcome network link (fetch_content network link)
fetch_content_correct_example = fetch_content_correct network link

-- A database in which a task cannot be given up: the statement fails, and each one after it.
abbrev Work : Type 0
Work = Tables → Tables

abbrev tried : Bool → Statement → Work → Option String × (Work × Bool)
unfolding apply
tried true st f = (some "current transaction is aborted", (f, true))
tried false (start_task id) f = (none, (λ t. apply 100 (start_task id) (f t), false))
tried false (delete_task id) f = (none, (λ t. apply 100 (delete_task id) (f t), false))
tried false (retry_task delay id e) f =
    (none, (λ t. apply 100 (retry_task delay id e) (f t), false))
tried false (fail_task e id) f = (some "deadlock detected", (f, true))
tried false (upsert_valid row) f = (none, (λ t. apply 100 (upsert_valid row) (f t), false))
tried false (upsert_invalid row) f = (none, (λ t. apply 100 (upsert_invalid row) (f t), false))

-- A commit after a failed statement fails.
abbrev end_work : Bool → Work → Tables → Option String × Tables
end_work true f t = (some "commit of an aborted transaction", t)
end_work false f t = (none, f t)

abbrev database : Database
database = record {
  Tx = Work × Bool;
  acquire = none;
  begin = ok (λ t. t, false);
  query_row = λ query arg tx. (ok (record { bytes = "null"; domain = none }), tx);
  exec = λ st tx. tried tx.1 st tx.0;
  commit = λ tx t. end_work tx.1 tx.0 t;
  effect = λ tx t. tx.0 t;
}

begun : (tx : Work × Bool) (t : Tables) → database.begin ≡ ok tx → tx.0 t ≡ t
begun tx t p = let same : (λ t. t, false) ≡ tx = cc p in ap (λ (v : Work × Bool). v.0 t) (sym same)

end_work-cases :
    (aborted : Bool) (f : Work) (t : Tables)
    → ((e : String) × (end_work aborted f t ≡ (some e, t))) ⊎ (end_work aborted f t ≡ (none, f t))
end_work-cases true f t = inl (_, refl)
end_work-cases false f t = inr refl

tried-done :
    (aborted : Bool) (st : Statement) (f : Work) (t : Tables)
    → (tried aborted st f).0 ≡ none
    → (tried aborted st f).1.0 t ≡ apply 100 st (f t)
unfolding apply tried
tried-done true st f t h = ground arith
tried-done false (start_task id) f t h = refl
tried-done false (delete_task id) f t h = refl
tried-done false (retry_task delay id e) f t h = refl
tried-done false (fail_task e id) f t h = ground arith
tried-done false (upsert_valid row) f t h = refl
tried-done false (upsert_invalid row) f t h = refl

none-some : {P : Type 0} (e : String) → none ≡ some e → P
none-some e h = ground arith

tried-failed :
    (aborted : Bool) (st next : Statement) (f : Work) (e : String)
    → (tried aborted st f).0 ≡ some e
    → (e2 : String) × ((tried (tried aborted st f).1.1 next (tried aborted st f).1.0).0 ≡ some e2)
unfolding tried
tried-failed true st next t e h = (_, refl)
tried-failed false (start_task id) next t e h = none-some e h
tried-failed false (delete_task id) next t e h = none-some e h
tried-failed false (retry_task delay id e1) next t e h = none-some e h
tried-failed false (fail_task e1 id) next t e h = (_, refl)
tried-failed false (upsert_valid row) next t e h = none-some e h
tried-failed false (upsert_invalid row) next t e h = none-some e h

abbrev database-IsTransactional : IsTransactional database 100
database-IsTransactional = record {
  begin_effect = begun;
  query_effect = λ query arg tx t. refl;
  exec_done = λ st tx t. tried-done tx.1 st tx.0 t;
  exec_failed = λ st next tx. tried-failed tx.1 st next tx.0;
  commit_effect = λ tx t. end_work-cases tx.1 tx.0 t;
}

abbrev settings : Settings
settings = record {
  max_retries = 5;
  initial_backoff = 5000000000;
  max_backoff = 300000000000;
  backoff_power = λ retry. 2;
  delays_fit = λ retry h. omega arith;
}

abbrev task : FetchTask
task = record { address = "0:AB"; type = "jetton_masters"; retry = 2; task_id = 7 }

abbrev row : BackgroundTask
row = record {
  id = 7;
  task_type = "fetch_metadata";
  status = in_progress;
  retries = 2;
  retry_at = none;
  started_at = some 90;
  data_type = some "jetton_masters";
  data_address = some "0:AB";
  task_error = none;
}

abbrev tables : Tables
tables = record { background_tasks = row ∷ []; address_metadata = [] }

abbrev no_overrides : OverrideManager
no_overrides = record { content_overrides = []; loaded = true }

abbrev same_url : String → String → String
same_url src preset = src

abbrev two_seconds : ℕ → ℕ
two_seconds retries = 2

update_stalled_tasks-idle_example :
    update_stalled_tasks two_seconds 300000000000 1700000000 tables ≡ tables
update_stalled_tasks-idle_example =
    update_stalled_tasks-idle two_seconds 300000000000 1700000000 tables (omega arith)

failed_tables-is_due_example :
    All
      (λ r.
        r.id ≡ 7
        → is_due 5 105 r ≡ true
        → (2 < 5) × (100 + seconds (calculate_backoff_delay settings 2) ≤ 105))
      (failed_tables settings 100 task "no 'url'" tables).background_tasks
failed_tables-is_due_example = failed_tables-is_due settings 100 105 task "no 'url'" tables
