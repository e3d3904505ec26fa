-- ===== src/Metadata/Content/Laws.antt =====
-- What the parts of a metadata hold, by key, in ton-metadata-fetcher/main.go.
use ton_indexer.Prelude.{
  String, Option, none, [], ◌∷◌, ◌≡◌, refl, if◌then◌else◌, str_eq, ◌>>=◌, eq_iff, Bool-cases, inl,
  inr, ap, subst, ◌∙◌,
}
use ton_indexer.Prelude.GoMap.{GoMap, lookup, IsUnique}
use ton_indexer.Metadata.Content.{
  Value, AddressMetadata, empty_metadata, entries, override, put_key, put_keys,
  get_metadata_from_json, string_at,
}
use ton_indexer.Metadata.Content.Keys.{kept, at_key, PutsKey-all, put_key-IsUnique}

unfoldable pub extra_at : String → GoMap Value → Option Value
unfolding kept
extra_at key m = lookup key m >>= kept key

string_at-step :
    (wanted key : String) (v : Value) (more : GoMap Value) (old : Option String)
    → lookup key more ≡ none
    → override (string_at wanted more) (override (at_key wanted key v) old)
      ≡ override (string_at wanted ((key, v) ∷ more)) old
unfolding string_at lookup
string_at-step wanted key v more old h = elim (Bool-cases (str_eq key wanted)) [
  | inl e ↦
      let absent : lookup wanted more ≡ none =
        subst (λ k. lookup k more ≡ none) ((eq_iff key wanted).0 e) h in
      rw (e, absent)
  | inr e ↦ rw e
]

extra_at-step :
    (k key : String) (v : Value) (more : GoMap Value) (old : Option Value)
    → lookup key more ≡ none
    → override (extra_at k more) (override (if str_eq key k then kept key v else none) old)
      ≡ override (extra_at k ((key, v) ∷ more)) old
unfolding extra_at lookup
extra_at-step k key v more old h = elim (Bool-cases (str_eq key k)) [
  | inl e ↦
      let same : key ≡ k = (eq_iff key k).0 e in
      let absent : lookup k more ≡ none = subst (λ j. lookup j more ≡ none) same h in
      rw (e, absent) (ap (λ j. override (kept j v) old) same)
  | inr e ↦ rw e
]

-- The fields of a metadata that comes of the entries of a map, over one that was there before.
pub record IsRead (m : GoMap Value) (before after : AddressMetadata) : Type 0 where
  pub type_read : after.type ≡ override (string_at "_type" m) before.type
  pub name_read : after.name ≡ override (string_at "name" m) before.name
  pub description_read : after.description ≡ override (string_at "description" m) before.description
  pub image_read : after.image ≡ override (string_at "image" m) before.image
  pub symbol_read : after.symbol ≡ override (string_at "symbol" m) before.symbol
  pub extra_read :
      (k : String)
      → lookup k (entries after.extra) ≡ override (extra_at k m) (lookup k (entries before.extra))

pub put_keys-IsRead :
    (m : GoMap Value) (before : AddressMetadata) → IsUnique m → IsRead m before (put_keys m before)
unfolding put_keys string_at extra_at lookup
put_keys-IsRead [] before u = record {
  type_read = refl;
  name_read = refl;
  description_read = refl;
  image_read = refl;
  symbol_read = refl;
  extra_read = λ k. refl;
}
put_keys-IsRead ((key, v) ∷ more) before u =
    let p = PutsKey-all key v before in
    let r = put_keys-IsRead more (put_key key v before) u.1 in
    record {
      type_read =
          r.type_read
          ∙ ap (override (string_at "_type" more)) p.type_is
          ∙ string_at-step "_type" key v more before.type u.0;
      name_read =
          r.name_read
          ∙ ap (override (string_at "name" more)) p.name_is
          ∙ string_at-step "name" key v more before.name u.0;
      description_read =
          r.description_read
          ∙ ap (override (string_at "description" more)) p.description_is
          ∙ string_at-step "description" key v more before.description u.0;
      image_read =
          r.image_read
          ∙ ap (override (string_at "image" more)) p.image_is
          ∙ string_at-step "image" key v more before.image u.0;
      symbol_read =
          r.symbol_read
          ∙ ap (override (string_at "symbol" more)) p.symbol_is
          ∙ string_at-step "symbol" key v more before.symbol u.0;
      extra_read = λ k.
          r.extra_read k
          ∙ ap (override (extra_at k more)) (p.extra_is k)
          ∙ extra_at-step k key v more (lookup k (entries before.extra)) u.0;
    }

-- Whatever the order of the entries, getMetadataFromJson takes the type, the name, the description,
-- the image and the symbol from the strings under their keys, and keeps each other entry, and each of
-- theirs that is no string, under its key in Extra, when the map has one entry to a key.
pub get_metadata_from_json_correct :
    (metadata : GoMap Value)
    → IsUnique metadata
    → IsRead metadata empty_metadata (get_metadata_from_json metadata)
unfolding get_metadata_from_json
get_metadata_from_json_correct metadata u = put_keys-IsRead metadata empty_metadata u

put_keys-IsUnique :
    (metadata : GoMap Value) (m : AddressMetadata)
    → IsUnique (entries m.extra)
    → IsUnique (entries (put_keys metadata m).extra)
unfolding put_keys
put_keys-IsUnique [] m u = u
put_keys-IsUnique ((key, v) ∷ more) m u =
    put_keys-IsUnique more (put_key key v m) (put_key-IsUnique key v m u)

pub get_metadata_from_json-IsUnique :
    (metadata : GoMap Value) → IsUnique (entries (get_metadata_from_json metadata).extra)
unfolding get_metadata_from_json
get_metadata_from_json-IsUnique metadata = put_keys-IsUnique metadata empty_metadata tt
