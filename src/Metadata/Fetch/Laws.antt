-- ===== src/Metadata/Fetch/Laws.antt =====
-- What fetchContent of ton-metadata-fetcher/main.go returns.
use ton_indexer.Prelude.{
  String, true, false, Option, none, some, Result, ok, err, ◌≡◌, refl, arith, Bool-cases,
  Result-cases, Option-cases, inl, inr, ◌⊎◌, str_eq, ltb, eq_iff, ap, ◌||◌, ◌∙◌,
}
use mathlib.Core.Option.{map as map_option}
use ton_indexer.Prelude.GoMap.{GoMap, lookup, IsUnique}
use ton_indexer.Metadata.Content.{
  Value, AddressMetadata, entries, override, merge_extra, merge, get_metadata_from_json,
  extract_url, has_any_data,
}
use ton_indexer.Metadata.Content.Keys.{lookup-copy_extra}
use ton_indexer.Metadata.Content.Laws.{get_metadata_from_json-IsUnique}
use ton_indexer.Metadata.Ipfs.{byte_length, prepared_id, get_file}
use ton_indexer.Metadata.Fetch.{
  Network, protocol_of, fetch_ipfs_metadata, fetch_offchain_metadata, fetch_content, merged,
  or_error, parsed, fetch_by_protocol,
}

-- A metadata whose fields are the first's, or the second's where the first has none.
pub record Combined (first second result : AddressMetadata) : Type 0 where
  pub name_is : result.name ≡ override first.name second.name
  pub description_is : result.description ≡ override first.description second.description
  pub image_is : result.image ≡ override first.image second.image
  pub symbol_is : result.symbol ≡ override first.symbol second.symbol
  pub extra_is :
      (k : String)
      → lookup k (entries result.extra)
        ≡ override (lookup k (entries first.extra)) (lookup k (entries second.extra))

lookup-merge_extra :
    (k : String) (extra old : Option (GoMap Value))
    → IsUnique (entries extra)
    → lookup k (entries (merge_extra extra old))
      ≡ override (lookup k (entries extra)) (lookup k (entries old))
unfolding merge_extra lookup
lookup-merge_extra k none old u = refl
lookup-merge_extra k (some extra) old u = lookup-copy_extra k extra (entries old) u

merge-Combined :
    (first second : AddressMetadata)
    → IsUnique (entries first.extra)
    → Combined first second (merge second first)
unfolding merge
merge-Combined first second u = record {
  name_is = refl;
  description_is = refl;
  image_is = refl;
  symbol_is = refl;
  extra_is = λ k. lookup-merge_extra k first.extra second.extra u;
}

map_option-none : {A B : Type 0} (f : A → B) (o : Option A) → map_option f o ≡ none → o ≡ none
map_option-none f none h = refl
map_option-none f (some a) h = ground arith

prepared_id-none : (id : String) → prepared_id id ≡ none → ltb (byte_length id) 7 ≡ true
unfolding prepared_id
prepared_id-none id h = ground arith

pub run-cases :
    (o : Option (Result String AddressMetadata))
    → (o ≡ none) ⊎ ((e : String) × (o ≡ some (err e))) ⊎ ((m : AddressMetadata) × (o ≡ some (ok m)))
run-cases none = inl refl
run-cases (some (err e)) = inr (inl (e, refl))
run-cases (some (ok m)) = inr (inr (m, refl))

module _ (n : Network) where
  fetch_ipfs_metadata-none :
      (url : String) → fetch_ipfs_metadata n url ≡ none → ltb (byte_length url) 7 ≡ true
  unfolding fetch_ipfs_metadata get_file
  fetch_ipfs_metadata-none url h = prepared_id-none url (
      map_option-none _ (prepared_id url)
        (map_option-none _ (get_file n.new_path n.get_node url) h))

  -- Only a link of the protocol ipfs panics.
  fetch_by_protocol-none :
      (url protocol : String)
      → fetch_by_protocol n url protocol ≡ none
      → (protocol ≡ "ipfs") × (fetch_ipfs_metadata n url ≡ none)
  unfolding fetch_by_protocol
  fetch_by_protocol-none url protocol h =
      elim (Bool-cases (str_eq protocol "http" || str_eq protocol "https")) [
        | inl e ↦ ground arith
        | inr e ↦ elim (Bool-cases (str_eq protocol "ipfs")) [
          | inl i ↦ (
            (eq_iff protocol "ipfs").0 i,
            map_option-none parsed (fetch_ipfs_metadata n url) (rw (e, i) at h),
          )
          | inr i ↦ ground arith
        ]
      ]

  fetch_offchain_metadata-none :
      (url : String)
      → fetch_offchain_metadata n url ≡ none
      → (protocol_of url ≡ some "ipfs") × (ltb (byte_length url) 7 ≡ true)
  unfolding fetch_offchain_metadata
  fetch_offchain_metadata-none url h = elim (Option-cases (protocol_of url)) [
    | inl e ↦ ground arith
    | inr (protocol, e) ↦
        let found = fetch_by_protocol-none url protocol (rw (e, fetch_offchain_metadata) at h) in
        (e ∙ ap some found.0, fetch_ipfs_metadata-none url found.1)
  ]

  -- There is nothing outside of the database: no link, or no content behind it.
  unfoldable pub NoOffchain : GoMap Value → Type 0
  NoOffchain metadata =
      ((e : String) × (extract_url metadata ≡ err e))
      ⊎ ((url : String) × (e : String) × (extract_url metadata ≡ ok url)
          × (fetch_offchain_metadata n url ≡ some (err e)))

  pub data Outcome (metadata : GoMap Value) : Option (Result String AddressMetadata) → Type 0 where
    both :
        {url : String} {offchain result : AddressMetadata}
        → extract_url metadata ≡ ok url
        → fetch_offchain_metadata n url ≡ some (ok offchain)
        → Combined (get_metadata_from_json metadata) offchain result
        → Outcome metadata (some (ok result))
    database_only :
        has_any_data (get_metadata_from_json metadata) ≡ true
        → NoOffchain metadata
        → Outcome metadata (some (ok (get_metadata_from_json metadata)))
    neither :
        {e : String}
        → has_any_data (get_metadata_from_json metadata) ≡ false
        → NoOffchain metadata
        → Outcome metadata (some (err e))
    short_link :
        {url : String}
        → extract_url metadata ≡ ok url
        → protocol_of url ≡ some "ipfs"
        → ltb (byte_length url) 7 ≡ true
        → Outcome metadata none

  or_error-Outcome :
      (metadata : GoMap Value) (e : String)
      → NoOffchain metadata
      → Outcome metadata (some (or_error (get_metadata_from_json metadata) e))
  or_error-Outcome metadata e none_there =
      elim (Bool-cases (has_any_data (get_metadata_from_json metadata))) [
        | inl h ↦ rw h (database_only h none_there)
        | inr h ↦ rw h (neither h none_there)
      ]

  merged-Outcome :
      (metadata : GoMap Value) (url : String)
      → extract_url metadata ≡ ok url
      → Outcome metadata (merged (get_metadata_from_json metadata) (fetch_offchain_metadata n url))
  unfolding NoOffchain
  merged-Outcome metadata url p = elim (run-cases (fetch_offchain_metadata n url)) [
    | inl q ↦
        let panics = fetch_offchain_metadata-none url q in rw q (short_link p panics.0 panics.1)
    | inr (inl (e, q)) ↦ rw q (or_error-Outcome metadata e (inr (url, e, p, q)))
    | inr (inr (offchain, q)) ↦ rw q (
        both p q (
          merge-Combined (get_metadata_from_json metadata) offchain
            (get_metadata_from_json-IsUnique metadata)))
  ]

  -- fetchContent returns what the database has, with what the link leads to in place of what the
  -- database lacks; without a link or content behind it, what the database has, if that is enough data
  -- for its type; an error only if it is not; and it panics only at a link of the protocol ipfs that
  -- is shorter than 7 bytes.
  pub fetch_content_correct : (metadata : GoMap Value) → Outcome metadata (fetch_content n metadata)
  unfolding fetch_content NoOffchain
  fetch_content_correct metadata = elim (Result-cases (extract_url metadata)) [
    | inl (e, p) ↦ rw p (or_error-Outcome metadata _ (inl (e, p)))
    | inr (url, p) ↦ rw p (merged-Outcome metadata url p)
  ]
