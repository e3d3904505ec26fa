-- ===== src/Metadata/Content.antt =====
-- AddressMetadata of ton-metadata-fetcher/main.go: its parts, how they are read from JSON
-- and how they are put together. A nil map is `none`.
pub mod Keys
pub mod Laws
use ton_indexer.Prelude.{
  ℕ, String, Bool, true, false, not, Option, none, some, List, [], ◌∷◌, Result, ok, err, ◌&&◌, ◌||◌,
  if◌then◌else◌, str_eq, ◌>>=◌,
}
use ton_indexer.Prelude.GoMap.{GoMap, lookup, insert}

-- A value of JSON: a string, or any other value, by its text.
pub data Value : Type 0 where
  text : String → Value
  non_text : String → Value

pub record AddressMetadata : Type 0 where
  pub address : Option String
  pub type : Option String
  pub name : Option String
  pub symbol : Option String
  pub description : Option String
  pub image : Option String
  pub extra : Option (GoMap Value)

abbrev pub empty_metadata : AddressMetadata
empty_metadata = record {
  address = none;
  type = none;
  name = none;
  symbol = none;
  description = none;
  image = none;
  extra = none;
}

-- v != nil, and v != nil && *v == s
abbrev pub is_set : {A : Type 0} → Option A → Bool
is_set none = false
is_set (some v) = true

abbrev pub is_text : Option String → String → Bool
is_text none s = false
is_text (some v) s = str_eq v s

-- A nil map has no entries.
abbrev pub entries : Option (GoMap Value) → GoMap Value
entries none = []
entries (some m) = m

unfoldable pub has_any_data : AddressMetadata → Bool
has_any_data m =
    if is_text m.type "jetton_masters"
    then is_set m.symbol
    else if is_text m.type "nft_items"
    then is_set m.name || is_set (lookup "domain" (entries m.extra))
    else is_set m.name || is_set m.description || is_set m.image

-- the other value, if it is set
abbrev pub override : {A : Type 0} → Option A → Option A → Option A
override none old = old
override (some v) old = some v

-- for key, value := range other.Extra
unfoldable pub copy_extra : GoMap Value → GoMap Value → GoMap Value
copy_extra [] m = m
copy_extra ((key, value) ∷ more) m = copy_extra more (insert key value m)

unfoldable pub merge_extra : Option (GoMap Value) → Option (GoMap Value) → Option (GoMap Value)
unfolding copy_extra
merge_extra none old = old
merge_extra (some extra) old = some (copy_extra extra (entries old))

-- func (receiver *AddressMetadata) merge
unfoldable pub merge : AddressMetadata → AddressMetadata → AddressMetadata
unfolding merge_extra
merge receiver other = record receiver {
  name = override other.name receiver.name;
  description = override other.description receiver.description;
  image = override other.image receiver.image;
  symbol = override other.symbol receiver.symbol;
  extra = merge_extra other.extra receiver.extra;
}

-- result.Extra[key] = value
abbrev pub put_extra : String → Value → AddressMetadata → AddressMetadata
put_extra key value m = record m { extra = some (insert key value (entries m.extra)) }

-- the body of the loop over the keys
unfoldable pub put_key : String → Value → AddressMetadata → AddressMetadata
put_key key (non_text v) m = put_extra key (non_text v) m
put_key key (text v) m =
    if str_eq key "_type"
    then record m { type = some v }
    else if str_eq key "name"
    then record m { name = some v }
    else if str_eq key "description"
    then record m { description = some v }
    else if str_eq key "image"
    then record m { image = some v }
    else if str_eq key "symbol"
    then record m { symbol = some v }
    else put_extra key (text v) m

unfoldable pub put_keys : GoMap Value → AddressMetadata → AddressMetadata
unfolding put_key
put_keys [] m = m
put_keys ((key, value) ∷ more) m = put_keys more (put_key key value m)

unfoldable pub get_metadata_from_json : GoMap Value → AddressMetadata
unfolding put_keys
get_metadata_from_json metadata = put_keys metadata empty_metadata

abbrev pub as_text : Value → Option String
as_text (text v) = some v
as_text (non_text v) = none

-- metadata[key].(string)
unfoldable pub string_at : String → GoMap Value → Option String
string_at key metadata = lookup key metadata >>= as_text

unfoldable pub extract_url : GoMap Value → Result String String
unfolding string_at
extract_url metadata = elim (string_at "url" metadata) [
  | some url ↦ ok url
  | none ↦ elim (string_at "uri" metadata) [
    | some uri ↦ ok uri
    | none ↦ err "no 'url' or 'uri' found in metadata"
  ]
]
