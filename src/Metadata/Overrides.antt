-- ===== src/Metadata/Overrides.antt =====
-- The metadata that a task starts from: the overrides of ton-metadata-fetcher/overrides.go, and
-- getCommonMetadataFromDb and getNftMetadataFromDb of main.go. They write into the map of an override
-- itself, so the manager comes back changed; to write into a nil map panics (`none`).
pub mod Load
use ton_indexer.Prelude.{
  ℕ, String, Bool, Option, none, some, Result, ok, err, if◌then◌else◌, ◌||◌, str_eq, ◌>>=◌,
}
use mathlib.Core.Option.{map as map_option}
use ton_indexer.Prelude.GoMap.{GoMap, lookup, insert}
use ton_indexer.Prelude.Text.{concat}
use ton_indexer.Metadata.Content.{Value, text}

pub record FetchTask : Type 0 where
  pub address : String
  pub type : String
  pub retry : ℕ
  pub task_id : ℕ

abbrev pub ContentOverrides : Type 0
ContentOverrides = GoMap (GoMap (Option (GoMap Value)))

pub record OverrideManager : Type 0 where
  pub content_overrides : ContentOverrides
  pub loaded : Bool

unfoldable pub get_content_override :
    OverrideManager → String → String → Option (Option (GoMap Value))
get_content_override m addr_type address =
    if m.loaded then lookup addr_type m.content_overrides >>= lookup address else none

-- The map of the override, which the caller has changed.
changed : String → String → GoMap Value → OverrideManager → OverrideManager
changed addr_type address metadata m = elim (lookup addr_type m.content_overrides) [
  | none ↦ m
  | some type_map ↦ record m {
    content_overrides =
        insert addr_type (insert address (some metadata) type_map) m.content_overrides;
  }
]

-- What a row has: the content, and the domain of an NFT if it has one.
pub record Content : Type 0 where
  pub bytes : String
  pub domain : Option String

abbrev pub Loaded : Type 0
Loaded = Option (Result String (GoMap Value) × OverrideManager)

-- The override in place of the metadata, and the writes into it.
overridden :
    (GoMap Value → GoMap Value) → FetchTask → OverrideManager → Option (GoMap Value) → Loaded
unfolding get_content_override changed
overridden write task m metadata = elim (get_content_override m task.type task.address) [
  | none ↦ map_option (λ found. (ok (write found), m)) metadata
  | some override ↦
      map_option (λ found. (ok (write found), changed task.type task.address (write found) m))
        override
]

set_type : String → GoMap Value → GoMap Value
set_type type metadata = insert "_type" (text type) metadata

set_domain : Option String → GoMap Value → GoMap Value
set_domain none metadata = metadata
set_domain (some domain) metadata = insert "domain" (text domain) metadata

abbrev field_name : String → String
field_name type =
    if str_eq type "nft_collections"
    then "collection_content"
    else if str_eq type "jetton_masters"
    then "jetton_content"
    else ""

abbrev nft_query : String
nft_query =
    "SELECT n.content, d.domain FROM nft_items n\n        LEFT JOIN dns_entries d ON d.nft_item_address = n.address\n        WHERE n.address = $1"

module _ (unmarshal : String → Result String (Option (GoMap Value))) where
  from_content :
      (Content → GoMap Value → GoMap Value)
      → FetchTask
      → OverrideManager
      → Result String Content
      → Loaded
  unfolding overridden concat
  from_content write task m (err e) = some (err (concat "failed to fetch metadata: " e), m)
  from_content write task m (ok content) = elim (unmarshal content.bytes) [
    | err e ↦ some (err (concat "failed to unmarshal metadata: " e), m)
    | ok metadata ↦ overridden (write content) task m metadata
  ]

  -- tx.QueryRow(ctx, query, task.Address).Scan
  module _ {Tx : Type 0} (query_row : String → String → Tx → Result String Content × Tx) where
    unfoldable pub get_common_metadata_from_db : FetchTask → OverrideManager → Tx → Loaded × Tx
    unfolding from_content set_type concat
    get_common_metadata_from_db task m tx =
        let query = concat "SELECT " (
          concat (field_name task.type)
            (concat " as metadata FROM " (concat task.type " WHERE address = $1"))) in
        let row = query_row query task.address tx in
        (from_content (λ content. set_type task.type) task m row.0, row.1)

    unfoldable pub get_nft_metadata_from_db : FetchTask → OverrideManager → Tx → Loaded × Tx
    unfolding from_content set_type set_domain
    get_nft_metadata_from_db task m tx =
        let row = query_row nft_query task.address tx in
        let write : Content → GoMap Value → GoMap Value =
          λ content metadata. set_type "nft_items" (set_domain content.domain metadata) in
        (from_content write task m row.0, row.1)

    unfoldable pub get_metadata : FetchTask → OverrideManager → Tx → Loaded × Tx
    unfolding get_common_metadata_from_db get_nft_metadata_from_db
    get_metadata task m tx =
        if str_eq task.type "nft_collections" || str_eq task.type "jetton_masters"
        then get_common_metadata_from_db task m tx
        else if str_eq task.type "nft_items"
        then get_nft_metadata_from_db task m tx
        else (some (err (concat "unsupported task type: " task.type), m), tx)
