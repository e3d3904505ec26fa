-- ===== src/Index/Query/Literals.antt =====
-- The literals of an SQL text, and those of the filters of ton-index-go/index/crud.go.
use ton_indexer.Prelude.{
  String, Bool, true, false, not, List, [], ◌∷◌, ◌++◌, map, All, ◌==◌, if◌then◌else◌, ◌≡◌, refl, ap,
  sym, ◌∙◌, append-nil, arith, Bool-cases, inl, inr,
}
use Prim.Native.Char.{code}
use ton_indexer.Prelude.Text.{concat, lacks, prepend}
use ton_indexer.Index.Query.Sql.{
  ◌<>◌, literal, literals, join, is_empty, array_query, filter_by_array,
}
use ton_indexer.Index.Query.Skeleton.{QuoteFree, concat_assoc}
use ton_indexer.Index.Query.Outcome.{concat-nil}

-- What stands between quotes, as a scanner reads it that is inside of a literal or not.
unfoldable pub texts : Bool → String → List String
unfolding prepend
texts inside String.[] = if inside then "" ∷ [] else []
texts inside (String.◌∷◌ c s) =
    let rest = texts (if code c == b'\'' then not inside else inside) s in
    if inside then (if code c == b'\'' then "" ∷ rest else prepend c rest) else rest

-- the values that are not empty
unfoldable pub nonempty : List String → List String
nonempty [] = []
nonempty (x ∷ values) = let rest = nonempty values in if is_empty x then rest else x ∷ rest

texts-outside : (s u : String) → QuoteFree s → texts false (s <> u) ≡ texts false u
unfolding texts concat lacks
texts-outside String.[] u h = refl
texts-outside (String.◌∷◌ c s) u h = ground (arith, texts-outside s u)

texts-inside : (s u : String) → QuoteFree s → texts true (s <> ("'" <> u)) ≡ s ∷ texts false u
unfolding texts concat lacks prepend
texts-inside String.[] u h = refl
texts-inside (String.◌∷◌ c s) u h = ground (arith, texts-inside s u)

texts-open : (t : String) → texts false ("'" <> t) ≡ texts true t
unfolding texts concat
texts-open t = refl

texts-literal : (s u : String) → QuoteFree s → texts false (literal s <> u) ≡ s ∷ texts false u
unfolding literal
texts-literal s u h =
    rw (concat_assoc "'" (s <> "'") u, concat_assoc s "'" u, texts-open, texts-inside s u h)

texts-join :
    (sep : String) (values : List String) (u : String)
    → QuoteFree sep
    → All QuoteFree values
    → texts false (join (map literal values) sep <> u) ≡ values ++ texts false u
unfolding join concat
texts-join sep [] u k h = refl
texts-join sep (x ∷ []) u k (h, _) = texts-literal x u h
texts-join sep (x ∷ y ∷ values) u k (h, hs) =
    let more = join (map literal (y ∷ values)) sep in
    ap (texts false) (
      concat_assoc (literal x) (sep <> more) u ∙ ap (λ t. literal x <> t) (concat_assoc sep more u))
    ∙ texts-literal x (sep <> (more <> u)) h
    ∙ ap (λ l. x ∷ l) (texts-outside sep (more <> u) k ∙ texts-join sep (y ∷ values) u k hs)

literals-nonempty : (values : List String) → literals values ≡ map literal (nonempty values)
unfolding literals nonempty
literals-nonempty [] = refl
literals-nonempty (x ∷ values) = ground (arith, literals-nonempty values)

QuoteFree-nonempty : (values : List String) → All QuoteFree values → All QuoteFree (nonempty values)
unfolding nonempty
QuoteFree-nonempty [] h = h
QuoteFree-nonempty (x ∷ values) (h, hs) = elim (Bool-cases (is_empty x)) [
  | inl e ↦ rw e (QuoteFree-nonempty values hs)
  | inr e ↦ rw e (h, QuoteFree-nonempty values hs)
]

texts-array_query :
    (clmn : String) (values : List String)
    → QuoteFree clmn
    → All QuoteFree values
    → texts false (array_query clmn (map literal values)) ≡ values
unfolding array_query lacks texts
texts-array_query clmn [] c h = refl
texts-array_query clmn (x ∷ []) c (h, _) =
    texts-outside clmn (" = " <> literal x) c
    ∙ texts-outside " = " (literal x) refl
    ∙ ap (texts false) (sym (concat-nil (literal x)))
    ∙ texts-literal x "" h
texts-array_query clmn (x ∷ y ∷ values) c h =
    texts-outside clmn _ c
    ∙ texts-outside " in (" _ refl
    ∙ texts-join "," (x ∷ y ∷ values) ")" refl h
    ∙ append-nil (x ∷ y ∷ values)

-- The literals of a filter by array are the values that are not empty, in their order, when neither
-- the column nor a value has a quote.
pub texts-filter_by_array :
    (clmn : String) (values : List String)
    → QuoteFree clmn
    → All QuoteFree values
    → texts false (filter_by_array clmn values) ≡ nonempty values
unfolding filter_by_array
texts-filter_by_array clmn values c h =
    ap (λ l. texts false (array_query clmn l)) (literals-nonempty values)
    ∙ texts-array_query clmn (nonempty values) c (QuoteFree-nonempty values h)
