-- ===== src/Metadata/Overrides/Load.antt =====
-- Load of ton-metadata-fetcher/overrides.go. The file and the reading of JSON are parameters; a nil
-- map is an empty one, which no code writes into before the missing types are added.
use ton_indexer.Prelude.{
  ℕ, String, Bool, true, false, Option, none, some, [], ◌∷◌, Result, ok, err, ◌≡◌, sym, ap, ◌∙◌,
  ◌+◌, ◌>>=◌, str_eq, Bool-cases, inl, inr, eq_iff, Option-cases, length,
}
use ton_indexer.Prelude.GoMap.{GoMap, lookup, insert, lookup-insert}
use ton_indexer.Prelude.Text.{concat}
use ton_indexer.Metadata.Content.{Value}
use ton_indexer.Metadata.Overrides.{ContentOverrides, OverrideManager, get_content_override}

-- if _, ok := data.ContentOverrides[addrType]; !ok { ... }
ensure : String → ContentOverrides → ContentOverrides
ensure addr_type overrides = elim (lookup addr_type overrides) [
  | none ↦ insert addr_type [] overrides
  | some type_map ↦ overrides
]

unfoldable pub with_types : ContentOverrides → ContentOverrides
unfolding ensure
with_types overrides =
    ensure "jetton_masters" (ensure "nft_items" (ensure "nft_collections" overrides))

unfoldable pub count_overrides : ContentOverrides → ℕ
count_overrides [] = 0
count_overrides ((addr_type, type_map) ∷ more) = length type_map + count_overrides more

-- the text of the defaults, and what it and a file read as
module _ (default_overrides_content : String)
    (unmarshal : String → Result String ContentOverrides) where
  content_of : Bool → Result String String → String
  content_of false read = default_overrides_content
  content_of true (err e) = default_overrides_content
  content_of true (ok bytes) = bytes

  -- exists: os.Stat succeeds; read: os.ReadFile
  unfoldable pub load :
      Bool → Result String String → OverrideManager → Option String × OverrideManager
  unfolding content_of with_types concat
  load exists read m = elim (unmarshal (content_of exists read)) [
    | err e ↦ (some (concat "failed to unmarshal overrides: " e), m)
    | ok overrides ↦ (none, record { content_overrides = with_types overrides; loaded = true })
  ]

abbrev found : String → String → ContentOverrides → Option (Option (GoMap Value))
found addr_type address overrides = lookup addr_type overrides >>= lookup address

found-insert :
    (k addr_type address : String) (overrides : ContentOverrides)
    → lookup k overrides ≡ none
    → found addr_type address (insert k [] overrides) ≡ found addr_type address overrides
unfolding lookup
found-insert k addr_type address overrides h = elim (Bool-cases (str_eq k addr_type)) [
  | inl e ↦
      let same : k ≡ addr_type = (eq_iff k addr_type).0 e in
      let absent : lookup addr_type overrides ≡ none =
        ap (λ j. lookup j overrides) (sym same) ∙ h in
      rw (lookup-insert k addr_type [] overrides, e, absent)
  | inr e ↦ rw (lookup-insert k addr_type [] overrides, e)
]

found-ensure :
    (k addr_type address : String) (overrides : ContentOverrides)
    → found addr_type address (ensure k overrides) ≡ found addr_type address overrides
unfolding ensure
found-ensure k addr_type address overrides = elim (Option-cases (lookup k overrides)) [
  | inl h ↦ rw (h, ensure) (found-insert k addr_type address overrides h)
  | inr (type_map, h) ↦ rw (h, ensure)
]

-- After Load, each address has the override that was read for it.
pub get_content_override-with_types :
    (addr_type address : String) (overrides : ContentOverrides)
    → get_content_override
        (record { content_overrides = with_types overrides; loaded = true })
        addr_type
        address
      ≡ (lookup addr_type overrides >>= lookup address)
unfolding get_content_override with_types
get_content_override-with_types addr_type address overrides =
    found-ensure "jetton_masters" addr_type address _
    ∙ found-ensure "nft_items" addr_type address _
    ∙ found-ensure "nft_collections" addr_type address overrides
