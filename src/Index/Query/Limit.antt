-- ===== src/Index/Query/Limit.antt =====
-- limitQuery of ton-index-go/index/crud.go keeps the limit within the settings.
use ton_indexer.Prelude.{
  ℕ, Option, none, some, String, true, false, Result, ok, err, ◌≡◌, refl, arith, Bool-cases, inl,
  inr, ◌⊎◌,
}
use ton_indexer.Prelude.Int.{ℤ, pos, negsuc, ◌≤ℤ◌, ◌<ℤ◌, ltb_ℤ}
use ton_indexer.Prelude.Format.{format_int}
use ton_indexer.Index.Query.Request.{LimitRequest, RequestSettings}
use ton_indexer.Index.Query.Sql.{
  ◌<>◌, limit_query, limit_of, to_int32, max_ℤ, or_default, offset_query, IndexError,
}

<ℤ-ltb_ℤ : (a b : ℤ) → ltb_ℤ a b ≡ true → a <ℤ b
<ℤ-ltb_ℤ a b h = ground arith

≤ℤ-ltb_ℤ : (a b : ℤ) → ltb_ℤ a b ≡ false → b ≤ℤ a
≤ℤ-ltb_ℤ a b h = ground arith

max_ℤ-bounds : (a b : ℤ) → (a ≤ℤ max_ℤ a b) × (b ≤ℤ max_ℤ a b)
max_ℤ-bounds a b = elim (Bool-cases (ltb_ℤ a b)) [
  | inl e ↦ rw e (omega (arith, <ℤ-ltb_ℤ a b e), omega arith)
  | inr e ↦ rw e (omega arith, ≤ℤ-ltb_ℤ a b e)
]

max_ℤ-cases : (a b : ℤ) → (max_ℤ a b ≡ a) ⊎ (max_ℤ a b ≡ b)
max_ℤ-cases a b = elim (Bool-cases (ltb_ℤ a b)) [ inl e ↦ inr (rw e) | inr e ↦ inl (rw e) ]

-- The text for an offset: none without one, and one below 0 is taken for 0.
pub data Skips : Option ℤ → String → Type 0 where
  from_start : Skips none ""
  from_row : {n : ℕ} → Skips (some (pos n)) (" offset " <> format_int (pos n))
  from_first_row : {n : ℕ} → Skips (some (negsuc n)) (" offset " <> format_int (pos 0))

max_zero-pos : (n : ℕ) → max_ℤ (pos 0) (pos n) ≡ pos n
max_zero-pos n = ground arith

max_zero-negsuc : (n : ℕ) → max_ℤ (pos 0) (negsuc n) ≡ pos 0
max_zero-negsuc n = ground arith

offset_query-Skips : (o : Option ℤ) → Skips o (offset_query o)
offset_query-Skips none = from_start
offset_query-Skips (some (pos n)) = rw (max_zero-pos n) from_row
offset_query-Skips (some (negsuc n)) = rw (max_zero-negsuc n) from_first_row

-- A query is this limit and the offset that the request wants, and nothing else.
pub record Bounded (settings : RequestSettings) (wanted : ℤ) (skipped : Option ℤ) (query : String)
    : Type 0 where
  pub limit : ℤ
  pub offset : String
  pub skips : Skips skipped offset
  pub at_least_one : pos 1 ≤ℤ limit
  pub at_most_max : limit ≤ℤ to_int32 (settings.max_limit)
  pub not_below : wanted ≤ℤ limit
  pub chosen : (limit ≡ pos 1) ⊎ (limit ≡ wanted)
  pub shown : query ≡ " limit " <> format_int limit <> offset

pub data IsBounded (settings : RequestSettings) (wanted : ℤ) (skipped : Option ℤ)
    : Result IndexError String → Type 0 where
  refused :
      {e : IndexError}
      → e.code ≡ pos 422
      → to_int32 (settings.max_limit) <ℤ max_ℤ (pos 1) wanted
      → IsBounded settings wanted skipped (err e)
  bounded :
      {query : String}
      → Bounded settings wanted skipped query
      → IsBounded settings wanted skipped (ok query)

-- A query asks for at least one row and at most the maximum of the settings, and for the rows that
-- the request wants, or the default without one, if that is one at least; it skips the rows that
-- the request wants to skip, none if they are below 0; and it says nothing else. More than the
-- maximum is refused with code 422.
pub limit_query_correct :
    (lim : LimitRequest) (settings : RequestSettings)
    → IsBounded settings
        (or_default (to_int32 (settings.default_limit)) (lim.limit))
        lim.offset
        (limit_query lim settings)
unfolding limit_query limit_of
limit_query_correct lim settings =
    let wanted = or_default (to_int32 (settings.default_limit)) (lim.limit) in
    let most = to_int32 (settings.max_limit) in
    let limit = max_ℤ (pos 1) wanted in
    elim (Bool-cases (ltb_ℤ most limit)) [
      | inl e ↦ rw e (refused refl (<ℤ-ltb_ℤ most limit e))
      | inr e ↦ rw e (
          bounded (record {
            limit = limit;
            offset = offset_query (lim.offset);
            skips = offset_query-Skips lim.offset;
            at_least_one = (max_ℤ-bounds (pos 1) wanted).0;
            at_most_max = ≤ℤ-ltb_ℤ most limit e;
            not_below = (max_ℤ-bounds (pos 1) wanted).1;
            chosen = max_ℤ-cases (pos 1) wanted;
            shown = refl;
          }))
    ]
