-- ===== src/Metadata/Tasks/Outcome.antt =====
-- The ways in which processTask of ton-metadata-fetcher/main.go ends.
use ton_indexer.Prelude.{ℕ, String, Option, none, some, Result, ok, err, ◌≡◌, ◌⊎◌}
use mathlib.Core.Option.{map as map_option}
use ton_indexer.Prelude.GoMap.{GoMap}
use ton_indexer.Metadata.Content.{Value, AddressMetadata}
use ton_indexer.Metadata.Fetch.{Network, fetch_content}
use ton_indexer.Metadata.Overrides.{FetchTask, OverrideManager, Loaded, get_metadata}
use ton_indexer.Metadata.Tables.{Tables}
use ton_indexer.Metadata.Tasks.{Database, Settings, with_images, finished}
use ton_indexer.Metadata.Tasks.Laws.{Refused, done_tables, failed_tables}

module _ (d : Database) (s : Settings) (now : ℕ) (n : Network)
    (build_url : String → String → String) (task : FetchTask) (tables : Tables) where
  -- What the transaction of a task does whose metadata are loaded.
  pub data Stores (metadata : Result String (GoMap Value)) : Tables → Type 0 where
    completed :
        {found : GoMap Value} {content : AddressMetadata}
        → metadata ≡ ok found
        → fetch_content n found ≡ some (ok content)
        → Stores metadata (done_tables now task (with_images build_url content) tables)
    unloaded : {e : String} → metadata ≡ err e → Stores metadata (failed_tables s now task e tables)
    unfetched :
        {found : GoMap Value} {e : String}
        → metadata ≡ ok found
        → fetch_content n found ≡ some (err e)
        → Stores metadata (failed_tables s now task e tables)

  -- How it ends. When the commit fails, nothing is stored and there is no error.
  pub data Processed (metadata : Result String (GoMap Value))
      : Option (Option String × Tables) → Type 0 where
    panicked :
        {found : GoMap Value}
        → metadata ≡ ok found
        → fetch_content n found ≡ none
        → Processed metadata none
    committed : {t : Tables} → Stores metadata t → Processed metadata (some (none, t))
    uncommitted :
        {tx : d.Tx} {e : String}
        → Stores metadata (d.effect tx tables)
        → d.commit tx tables ≡ (some e, tables)
        → Processed metadata (some (none, tables))
    rolled_back : {e : String} → Refused d → Processed metadata (some (some e, tables))

  abbrev finish : Option (Option String × d.Tx) → Option (Option String × Tables)
  finish none = none
  finish (some r) = some (finished d s now tables r)

  -- What getMetadata returns.
  abbrev load : OverrideManager → d.Tx → Loaded × d.Tx
  load m tx = get_metadata n.unmarshal d.query_row task m tx

  pub data Run (m : OverrideManager)
      : Option ((Option String × Tables) × OverrideManager) → Type 0 where
    not_started :
        {e : String}
        → ((e1 : String) × (d.acquire ≡ some e1)) ⊎ ((e1 : String) × (d.begin ≡ err e1))
        → Run m (some ((some e, tables), m))
    nil_map : {tx : d.Tx} → d.begin ≡ ok tx → (load m tx).0 ≡ none → Run m none
    run_panicked :
        {tx : d.Tx} {metadata : Result String (GoMap Value)} {after : OverrideManager}
        → d.begin ≡ ok tx
        → (load m tx).0 ≡ some (metadata, after)
        → Processed metadata none
        → Run m none
    ran :
        {tx : d.Tx} {metadata : Result String (GoMap Value)} {after : OverrideManager}
        {r : Option String × Tables}
        → d.begin ≡ ok tx
        → (load m tx).0 ≡ some (metadata, after)
        → Processed metadata (some r)
        → Run m (some (r, after))
