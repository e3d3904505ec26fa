-- ===== src/Metadata/Fetch.antt =====
-- The fetching of metadata in ton-metadata-fetcher/main.go: extractURL's link, what it leads to over
-- HTTP or IPFS, and the merge with what the database has. A panic is `none`. The HTTP client, the
-- files of IPFS and the reading of JSON are parameters; JSON's null leaves a nil map.
pub mod Laws
use ton_indexer.Prelude.{
  ℕ, String, Bool, true, false, not, Option, none, some, List, [], ◌∷◌, Result, ok, err, ◌&&◌, ◌||◌,
  if◌then◌else◌, str_eq, ltb,
}
use mathlib.Core.Option.{map as map_option}
use ton_indexer.Prelude.GoMap.{GoMap}
use ton_indexer.Prelude.Text.{concat, split}
use ton_indexer.Metadata.Content.{
  Value, AddressMetadata, entries, has_any_data, merge, get_metadata_from_json, extract_url,
}
use ton_indexer.Metadata.Ipfs.{Node, get_file, and_then}

pub record Response : Type 0 where
  pub status_code : ℕ
  pub status : String
  pub body : Result String String

pub record Network : Type 0 where
  pub client_get : String → Result String Response
  pub new_path : String → Result String String
  pub get_node : String → Result String Node
  pub unmarshal : String → Result String (Option (GoMap Value))

-- strings.Split(url, ":")[0], when there are two parts at least
unfoldable pub protocol_of : String → Option String
protocol_of url = elim (split b':' url) [
  | [] ↦ none
  | protocol ∷ rest ↦ elim rest [ [] ↦ none | part ∷ more ↦ some protocol ]
]

-- fmt.Errorf(text + "%v", err), if there is an error
abbrev pub explained : {A : Type 0} → String → Result String A → Result String A
explained text (err e) = err (concat text e)
explained text (ok a) = ok a

abbrev pub parsed : Result String (Option (GoMap Value)) → Result String AddressMetadata
parsed (err e) = err e
parsed (ok content) = ok (get_metadata_from_json (entries content))

module _ (n : Network) where
  read_response : Response → Result String (Option (GoMap Value))
  unfolding concat
  read_response r =
      if ltb r.status_code 200 || not (ltb r.status_code 300)
      then err (concat "non-OK HTTP status: " r.status)
      else and_then (explained "failed to read response body: " r.body)
          (λ bytes. explained "failed to unmarshal response body: " (n.unmarshal bytes))

  unfoldable pub fetch_http_metadata : String → Result String (Option (GoMap Value))
  unfolding read_response
  fetch_http_metadata url =
      and_then (explained "failed to fetch content from URL: " (n.client_get url)) read_response

  unfoldable pub fetch_ipfs_metadata : String → Option (Result String (Option (GoMap Value)))
  unfolding get_file
  fetch_ipfs_metadata url =
      map_option
        (λ read.
          and_then (explained "failed to fetch content from IPFS: " read)
            (λ bytes. explained "failed to unmarshal IPFS content: " (n.unmarshal bytes)))
        (get_file n.new_path n.get_node url)

  unfoldable pub fetch_by_protocol : String → String → Option (Result String AddressMetadata)
  unfolding fetch_http_metadata fetch_ipfs_metadata
  fetch_by_protocol url protocol =
      if str_eq protocol "http" || str_eq protocol "https"
      then some (parsed (fetch_http_metadata url))
      else if str_eq protocol "ipfs"
      then map_option parsed (fetch_ipfs_metadata url)
      else some (err (concat "unsupported protocol: " protocol))

  unfoldable pub fetch_offchain_metadata : String → Option (Result String AddressMetadata)
  unfolding protocol_of fetch_by_protocol
  fetch_offchain_metadata url = elim (protocol_of url) [
    | none ↦ some (err (concat "invalid URL: " url))
    | some protocol ↦ fetch_by_protocol url protocol
  ]

-- what the database has, if that is enough, else the error
abbrev pub or_error : AddressMetadata → String → Result String AddressMetadata
or_error m e = if has_any_data m then ok m else err e

abbrev pub merged :
    AddressMetadata
    → Option (Result String AddressMetadata)
    → Option (Result String AddressMetadata)
merged from_db none = none
merged from_db (some (err e)) = some (or_error from_db e)
merged from_db (some (ok offchain)) = some (ok (merge offchain from_db))

module _ (n : Network) where
  abbrev pub fetched :
      AddressMetadata → Result String String → Option (Result String AddressMetadata)
  fetched from_db (err e) =
      some (or_error from_db (concat "failed to extract URL or required data: " e))
  fetched from_db (ok url) = merged from_db (fetch_offchain_metadata n url)

  unfoldable pub fetch_content : GoMap Value → Option (Result String AddressMetadata)
  fetch_content metadata = fetched (get_metadata_from_json metadata) (extract_url metadata)
