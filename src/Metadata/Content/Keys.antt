-- ===== src/Metadata/Content/Keys.antt =====
-- One turn of the loop over the keys in getMetadataFromJson of ton-metadata-fetcher/main.go.
use ton_indexer.Prelude.{
  String, Bool, true, false, Option, none, some, [], ◌∷◌, ◌≡◌, refl, arith, if◌then◌else◌, str_eq,
  eq_iff, ◌||◌, Bool-cases, inl, inr, ◌⊎◌, sym, subst,
}
use ton_indexer.Prelude.GoMap.{GoMap, lookup, insert, lookup-insert, IsUnique, insert-IsUnique}
use ton_indexer.Metadata.Content.{
  Value, text, non_text, AddressMetadata, entries, override, copy_extra, put_key, as_text,
}

pub lookup-copy_extra :
    (k : String) (extra m : GoMap Value)
    → IsUnique extra
    → lookup k (copy_extra extra m) ≡ override (lookup k extra) (lookup k m)
unfolding copy_extra lookup
lookup-copy_extra k [] m u = refl
lookup-copy_extra k ((key, value) ∷ more) m u = ground (
  arith,
  lookup-copy_extra k more (insert key value m),
  lookup-insert key k value m,
  eq_iff key k,
)

-- the keys of which a string has a field of its own
own : String → Bool
own key =
    str_eq key "_type"
    || str_eq key "name"
    || str_eq key "description"
    || str_eq key "image"
    || str_eq key "symbol"

-- What stays in Extra under a key.
unfoldable pub kept : String → Value → Option Value
unfolding own
kept key (non_text v) = some (non_text v)
kept key (text v) = if own key then none else some (text v)

abbrev pub at_key : String → String → Value → Option String
at_key wanted key v = if str_eq key wanted then as_text v else none

pub record PutsKey (key : String) (v : Value) (m : AddressMetadata) : Type 0 where
  pub type_is : (put_key key v m).type ≡ override (at_key "_type" key v) m.type
  pub name_is : (put_key key v m).name ≡ override (at_key "name" key v) m.name
  pub description_is :
      (put_key key v m).description ≡ override (at_key "description" key v) m.description
  pub image_is : (put_key key v m).image ≡ override (at_key "image" key v) m.image
  pub symbol_is : (put_key key v m).symbol ≡ override (at_key "symbol" key v) m.symbol
  pub extra_is :
      (k : String)
      → lookup k (entries (put_key key v m).extra)
        ≡ override (if str_eq key k then kept key v else none) (lookup k (entries m.extra))

both_none : {A : Type 0} (b : Bool) (o : Option A) → o ≡ override (if b then none else none) o
both_none true o = refl
both_none false o = refl

lookup-put :
    (key k : String) (v : Value) (m : GoMap Value)
    → lookup k (insert key v m) ≡ override (if str_eq key k then some v else none) (lookup k m)
lookup-put key k v m = ground (arith, lookup-insert key k v m)

PutsKey-non_text : (key v : String) (m : AddressMetadata) → PutsKey key (non_text v) m
unfolding put_key kept
PutsKey-non_text key v m = record {
  type_is = both_none (str_eq key "_type") m.type;
  name_is = both_none (str_eq key "name") m.name;
  description_is = both_none (str_eq key "description") m.description;
  image_is = both_none (str_eq key "image") m.image;
  symbol_is = both_none (str_eq key "symbol") m.symbol;
  extra_is = λ k. lookup-put key k (non_text v) (entries m.extra);
}

module _ (v : String) (m : AddressMetadata) where
  PutsKey-own :
      (key : String)
      → (key ≡ "_type")
        ⊎ (key ≡ "name")
        ⊎ (key ≡ "description")
        ⊎ (key ≡ "image")
        ⊎ (key ≡ "symbol")
      → PutsKey key (text v) m
  unfolding put_key kept
  PutsKey-own key (inl e) =
      subst (λ k. PutsKey k (text v) m) (sym e)
        (record {
          type_is = refl;
          name_is = refl;
          description_is = refl;
          image_is = refl;
          symbol_is = refl;
          extra_is = λ k. both_none (str_eq "_type" k) (lookup k (entries m.extra));
        })
  PutsKey-own key (inr (inl e)) =
      subst (λ k. PutsKey k (text v) m) (sym e)
        (record {
          type_is = refl;
          name_is = refl;
          description_is = refl;
          image_is = refl;
          symbol_is = refl;
          extra_is = λ k. both_none (str_eq "name" k) (lookup k (entries m.extra));
        })
  PutsKey-own key (inr (inr (inl e))) =
      subst (λ k. PutsKey k (text v) m) (sym e)
        (record {
          type_is = refl;
          name_is = refl;
          description_is = refl;
          image_is = refl;
          symbol_is = refl;
          extra_is = λ k. both_none (str_eq "description" k) (lookup k (entries m.extra));
        })
  PutsKey-own key (inr (inr (inr (inl e)))) =
      subst (λ k. PutsKey k (text v) m) (sym e)
        (record {
          type_is = refl;
          name_is = refl;
          description_is = refl;
          image_is = refl;
          symbol_is = refl;
          extra_is = λ k. both_none (str_eq "image" k) (lookup k (entries m.extra));
        })
  PutsKey-own key (inr (inr (inr (inr e)))) =
      subst (λ k. PutsKey k (text v) m) (sym e)
        (record {
          type_is = refl;
          name_is = refl;
          description_is = refl;
          image_is = refl;
          symbol_is = refl;
          extra_is = λ k. both_none (str_eq "symbol" k) (lookup k (entries m.extra));
        })

  PutsKey-free : (key : String) → own key ≡ false → PutsKey key (text v) m
  unfolding put_key kept own
  PutsKey-free key h =
      let t : str_eq key "_type" ≡ false = ground arith in
      let n : str_eq key "name" ≡ false = ground arith in
      let d : str_eq key "description" ≡ false = ground arith in
      let i : str_eq key "image" ≡ false = ground arith in
      let y : str_eq key "symbol" ≡ false = ground arith in
      record {
        type_is = rw (t, n, d, i, y) refl;
        name_is = rw (t, n, d, i, y) refl;
        description_is = rw (t, n, d, i, y) refl;
        image_is = rw (t, n, d, i, y) refl;
        symbol_is = rw (t, n, d, i, y) refl;
        extra_is = λ k. rw (t, n, d, i, y) (lookup-put key k (text v) (entries m.extra));
      }

which_key :
    (key : String)
    → ((key ≡ "_type")
        ⊎ (key ≡ "name")
        ⊎ (key ≡ "description")
        ⊎ (key ≡ "image")
        ⊎ (key ≡ "symbol"))
      ⊎ (own key ≡ false)
unfolding own
which_key key = elim (Bool-cases (str_eq key "_type")) [
  | inl e ↦ inl (inl ((eq_iff key "_type").0 e))
  | inr t ↦ elim (Bool-cases (str_eq key "name")) [
    | inl e ↦ inl (inr (inl ((eq_iff key "name").0 e)))
    | inr n ↦ elim (Bool-cases (str_eq key "description")) [
      | inl e ↦ inl (inr (inr (inl ((eq_iff key "description").0 e))))
      | inr d ↦ elim (Bool-cases (str_eq key "image")) [
        | inl e ↦ inl (inr (inr (inr (inl ((eq_iff key "image").0 e)))))
        | inr i ↦ elim (Bool-cases (str_eq key "symbol")) [
          | inl e ↦ inl (inr (inr (inr (inr ((eq_iff key "symbol").0 e)))))
          | inr y ↦ inr (rw (t, n, d, i, y))
        ]
      ]
    ]
  ]
]

pub PutsKey-all : (key : String) (v : Value) (m : AddressMetadata) → PutsKey key v m
PutsKey-all key (non_text v) m = PutsKey-non_text key v m
PutsKey-all key (text v) m = elim (which_key key) [
  | inl e ↦ PutsKey-own v m key e
  | inr e ↦ PutsKey-free v m key e
]

module _ (v : String) (m : AddressMetadata) (u : IsUnique (entries m.extra)) where
  Unique : String → Type 0
  Unique key = IsUnique (entries (put_key key (text v) m).extra)

  put_own-Unique :
      (key : String)
      → (key ≡ "_type")
        ⊎ (key ≡ "name")
        ⊎ (key ≡ "description")
        ⊎ (key ≡ "image")
        ⊎ (key ≡ "symbol")
      → Unique key
  unfolding Unique put_key
  put_own-Unique key (inl e) = subst Unique (sym e) u
  put_own-Unique key (inr (inl e)) = subst Unique (sym e) u
  put_own-Unique key (inr (inr (inl e))) = subst Unique (sym e) u
  put_own-Unique key (inr (inr (inr (inl e)))) = subst Unique (sym e) u
  put_own-Unique key (inr (inr (inr (inr e)))) = subst Unique (sym e) u

  put_free-Unique : (key : String) → own key ≡ false → Unique key
  unfolding Unique put_key own
  put_free-Unique key h =
      let t : str_eq key "_type" ≡ false = ground arith in
      let n : str_eq key "name" ≡ false = ground arith in
      let d : str_eq key "description" ≡ false = ground arith in
      let i : str_eq key "image" ≡ false = ground arith in
      let y : str_eq key "symbol" ≡ false = ground arith in
      rw (t, n, d, i, y) (insert-IsUnique key (text v) (entries m.extra) u)

pub put_key-IsUnique :
    (key : String) (v : Value) (m : AddressMetadata)
    → IsUnique (entries m.extra)
    → IsUnique (entries (put_key key v m).extra)
unfolding put_key Unique
put_key-IsUnique key (non_text v) m u = insert-IsUnique key (non_text v) (entries m.extra) u
put_key-IsUnique key (text v) m u = elim (which_key key) [
  | inl e ↦ put_own-Unique v m u key e
  | inr e ↦ put_free-Unique v m u key e
]
