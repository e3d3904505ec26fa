-- ===== src/Metadata/Tables.antt =====
-- The tables background_tasks and address_metadata of ton-metadata-fetcher/main.go, and what its SQL
-- statements do to them. Time is in seconds.
use ton_indexer.Prelude.{
  ℕ, String, Bool, true, false, Option, some, List, [], ◌∷◌, ◌+◌, if◌then◌else◌, ◌==◌, ◌&&◌, str_eq,
}
use ton_indexer.Prelude.GoMap.{GoMap}
use ton_indexer.Metadata.Content.{Value}

pub data Status : Type 0 where
  ready : Status
  in_progress : Status
  failed : Status

abbrev pub is_ready : Status → Bool
is_ready ready = true
is_ready in_progress = false
is_ready failed = false

abbrev pub is_in_progress : Status → Bool
is_in_progress ready = false
is_in_progress in_progress = true
is_in_progress failed = false

-- A row of background_tasks, with the type and the address of its data.
pub record BackgroundTask : Type 0 where
  pub id : ℕ
  pub task_type : String
  pub status : Status
  pub retries : ℕ
  pub retry_at : Option ℕ
  pub started_at : Option ℕ
  pub data_type : Option String
  pub data_address : Option String
  pub task_error : Option String

-- A row of address_metadata.
pub record MetadataRow : Type 0 where
  pub address : String
  pub type : String
  pub valid : Bool
  pub name : Option String
  pub description : Option String
  pub image : Option String
  pub symbol : Option String
  pub extra : Option (GoMap Value)
  pub updated_at : ℕ
  pub expires_at : ℕ

pub record Tables : Type 0 where
  pub background_tasks : List BackgroundTask
  pub address_metadata : List MetadataRow

-- The statements, with their arguments.
pub data Statement : Type 0 where
  start_task : ℕ → Statement
  delete_task : ℕ → Statement
  retry_task : ℕ → ℕ → String → Statement
  fail_task : String → ℕ → Statement
  upsert_valid : MetadataRow → Statement
  upsert_invalid : MetadataRow → Statement

-- UPDATE background_tasks SET ... WHERE id = id
unfoldable pub update_task :
    ℕ → (BackgroundTask → BackgroundTask) → List BackgroundTask → List BackgroundTask
update_task id f [] = []
update_task id f (t ∷ more) =
    let rest = update_task id f more in if t.id == id then f t ∷ rest else t ∷ rest

-- DELETE FROM background_tasks WHERE id = id
unfoldable pub remove_task : ℕ → List BackgroundTask → List BackgroundTask
remove_task id [] = []
remove_task id (t ∷ more) = let rest = remove_task id more in if t.id == id then rest else t ∷ rest

-- INSERT ... ON CONFLICT (address, type) DO UPDATE
unfoldable pub upsert :
    (MetadataRow → MetadataRow → MetadataRow) → MetadataRow → List MetadataRow → List MetadataRow
upsert change row [] = row ∷ []
upsert change row (old ∷ more) =
    let rest = upsert change row more in
    if str_eq old.address row.address && str_eq old.type row.type
    then change row old ∷ more
    else old ∷ rest

abbrev pub keep_data : MetadataRow → MetadataRow → MetadataRow
keep_data row old = record old {
  valid = row.valid;
  updated_at = row.updated_at;
  expires_at = row.expires_at;
}

abbrev pub replace_row : MetadataRow → MetadataRow → MetadataRow
replace_row row old = row

-- now: EXTRACT(EPOCH FROM NOW())
module _ (now : ℕ) where
  abbrev pub started : BackgroundTask → BackgroundTask
  started t = record t { status = in_progress; started_at = some now }

  abbrev pub retried : ℕ → String → BackgroundTask → BackgroundTask
  retried delay e t = record t {
    status = ready;
    retry_at = some (now + delay);
    retries = t.retries + 1;
    task_error = some e;
  }

  abbrev pub given_up : String → BackgroundTask → BackgroundTask
  given_up e t = record t { status = failed; task_error = some e; retries = t.retries + 1 }

  unfoldable pub apply : Statement → Tables → Tables
  unfolding update_task remove_task upsert
  apply (start_task id) t = record t {
    background_tasks = update_task id started t.background_tasks;
  }
  apply (delete_task id) t = record t { background_tasks = remove_task id t.background_tasks }
  apply (retry_task delay id e) t = record t {
    background_tasks = update_task id (retried delay e) t.background_tasks;
  }
  apply (fail_task e id) t = record t {
    background_tasks = update_task id (given_up e) t.background_tasks;
  }
  apply (upsert_valid row) t = record t {
    address_metadata = upsert replace_row row t.address_metadata;
  }
  apply (upsert_invalid row) t = record t {
    address_metadata = upsert keep_data row t.address_metadata;
  }
