-- ===== src/Index/Query/Sql.antt =====
-- The parts that the builders of ton-index-go/index/crud.go share: sort order, limit and filters.
-- Every use of `filterByArray` there is at a type whose kind is a string.
use ton_indexer.Prelude.{
  ℕ, String, Bool, true, false, not, Option, none, some, List, [], ◌∷◌, ◌++◌, Result, ok, err, ltb,
  ◌==◌, if◌then◌else◌, str_eq, ◌||◌,
}
use ton_indexer.Prelude.{◌+◌, ◌-◌, ◌%◌, ◌^◌, ◌&&◌, leb}
use Prim.Native.Char.{code}
use ton_indexer.Prelude.Int.{ℤ, pos, negsuc, ltb_ℤ}
use ton_indexer.Prelude.Text.{concat}
use ton_indexer.Prelude.Format.{format_int}
use ton_indexer.Index.Query.Request.{
  RequestSettings, LimitRequest, SortType, Slice, UtimeRequest, LtRequest,
}

infixr 60 ◌<>◌
abbrev pub ◌<>◌ : String → String → String
s <> t = concat s t

pub record IndexError : Type 0 where
  pub code : ℤ
  pub message : String

infixl 5 ◌>>?◌
-- if err != nil { return "", err }
abbrev pub ◌>>?◌ :
    {A B : Type 0} → Result IndexError A → (A → Result IndexError B) → Result IndexError B
err e >>? f = err e
ok a >>? f = f a

abbrev lower_table : ℕ → ℕ
lower_table c = if leb b'A' c && leb c b'Z' then c + 32 else c

-- Does the text, in lower case, have these code points? A non-ASCII capital with an ASCII lower case,
-- the Kelvin sign, is in none of the words that are asked for.
abbrev lower_is : String → String → Bool
lower_is String.[] String.[] = true
lower_is (String.◌∷◌ c s) (String.◌∷◌ d t) = lower_table (code c) == code d && lower_is s t
lower_is _ _ = false

unfoldable pub get_sort_order : SortType → Result IndexError String
get_sort_order order =
    if lower_is order "desc"
    then ok "desc"
    else if lower_is order "d"
    then ok "desc"
    else if lower_is order "asc"
    then ok "asc"
    else if lower_is order "a"
    then ok "asc"
    else err (record { code = pos 422; message = "wrong value for sort parameter" })

-- the sort order, or what stands for it when the request has none
unfoldable pub sort_order_or : String → Option SortType → Result IndexError String
unfolding get_sort_order
sort_order_or default none = ok default
sort_order_or default (some order) = get_sort_order order

-- int32(x)
unfoldable pub to_int32 : ℤ → ℤ
to_int32 (pos n) = let m = n % 2 ^ 32 in if ltb m (2 ^ 31) then pos m else negsuc (2 ^ 32 - m - 1)
to_int32 (negsuc n) =
    let m = n % 2 ^ 32 in if ltb m (2 ^ 31) then negsuc m else pos (2 ^ 32 - m - 1)

abbrev pub max_ℤ : ℤ → ℤ → ℤ
max_ℤ a b = if ltb_ℤ a b then b else a

abbrev pub or_default : ℤ → Option ℤ → ℤ
or_default d none = d
or_default d (some n) = n

-- lim.Limit is a default or the request's, at least 1
unfoldable pub limit_of : LimitRequest → RequestSettings → ℤ
unfolding to_int32
limit_of lim settings = max_ℤ (pos 1) (or_default (to_int32 (settings.default_limit)) (lim.limit))

abbrev pub offset_query : Option ℤ → String
offset_query none = ""
offset_query (some offset) = " offset " <> format_int (max_ℤ (pos 0) offset)

unfoldable pub limit_query : LimitRequest → RequestSettings → Result IndexError String
unfolding limit_of
limit_query lim settings =
    let limit = limit_of lim settings in
    if ltb_ℤ (to_int32 (settings.max_limit)) limit
    then err (record {
      code = pos 422;
      message =
          "limit is not allowed: " <> format_int limit <> " > " <> format_int (settings.max_limit);
    })
    else ok (" limit " <> format_int limit <> offset_query (lim.offset))

-- fmt.Sprintf("'%s'", s)
unfoldable pub literal : String → String
literal s = "'" <> s <> "'"

-- strings.Join(parts, sep)
unfoldable pub join : List String → String → String
join [] sep = ""
join (s ∷ []) sep = s
join (s ∷ t ∷ rest) sep = s <> sep <> join (t ∷ rest) sep

abbrev pub is_empty : String → Bool
is_empty String.[] = true
is_empty (String.◌∷◌ c s) = false

-- the quoted values that are not empty
unfoldable pub literals : List String → List String
unfolding literal
literals [] = []
literals (x ∷ values) = let rest = literals values in if is_empty x then rest else literal x ∷ rest

unfoldable pub array_query : String → List String → String
unfolding join
array_query clmn [] = ""
array_query clmn (s ∷ []) = clmn <> " = " <> s
array_query clmn (s ∷ t ∷ rest) = clmn <> " in (" <> join (s ∷ t ∷ rest) "," <> ")"

unfoldable pub filter_by_array : String → List String → String
unfolding literals array_query
filter_by_array clmn values = array_query clmn (literals values)

-- the filter on a field that the request may leave out
abbrev pub opt_filter : {A : Type 0} → Option A → (A → String) → List String
opt_filter none f = []
opt_filter (some v) f = f v ∷ []

-- filter_str, if it is not empty
unfoldable pub nonempty_filter : String → List String
nonempty_filter String.[] = []
nonempty_filter (String.◌∷◌ c s) = String.◌∷◌ c s ∷ []

unfoldable pub array_filter : String → List String → List String
unfolding filter_by_array nonempty_filter
array_filter clmn values = nonempty_filter (filter_by_array clmn values)

-- v != nil, then the filter by array if it is not empty
unfoldable pub slice_filter : String → Slice String → List String
unfolding array_filter
slice_filter clmn none = []
slice_filter clmn (some values) = array_filter clmn values

-- two columns that may hold one of the values
unfoldable pub either_filter : String → String → List String → String
unfolding filter_by_array
either_filter c c' values =
    "(" <> filter_by_array c values <> " or " <> filter_by_array c' values <> ")"

-- len(v) > 0 for a slice, which may be nil
unfoldable pub has_values : {A : Type 0} → Slice A → Bool
has_values none = false
has_values (some []) = false
has_values (some (x ∷ values)) = true

-- len(v) == 1
unfoldable pub has_one : {A : Type 0} → Slice A → Bool
has_one (some (v ∷ [])) = true
has_one _ = false

-- v != nil && len(*v) > 0
unfoldable pub has_text : Option String → Bool
has_text none = false
has_text (some s) = not (is_empty s)

-- v != nil
unfoldable pub is_some : {A : Type 0} → Option A → Bool
is_some none = false
is_some (some v) = true

unfoldable pub where_query : List String → String
unfolding join
where_query [] = ""
where_query (s ∷ rest) = " where " <> join (s ∷ rest) " and "

-- the filters on the time and the logical time, in these columns
unfoldable pub time_filters : String → String → UtimeRequest → LtRequest → List String
time_filters utime_column lt_column utime_req lt_req =
    opt_filter (utime_req.start_utime) (λ v. utime_column <> " >= " <> format_int (pos v))
    ++ opt_filter (utime_req.end_utime) (λ v. utime_column <> " <= " <> format_int (pos v))
    ++ opt_filter (lt_req.start_lt) (λ v. lt_column <> " >= " <> format_int (pos v))
    ++ opt_filter (lt_req.end_lt) (λ v. lt_column <> " <= " <> format_int (pos v))

-- order_by_now
unfoldable pub by_time : UtimeRequest → Bool
unfolding is_some
by_time utime_req = is_some (utime_req.start_utime) || is_some (utime_req.end_utime)

-- both columns, when the first gives a filter
unfoldable pub pair_filters : String → String → List String → List String
unfolding filter_by_array either_filter
pair_filters c c' values =
    if is_empty (filter_by_array c values) then [] else either_filter c c' values ∷ []

-- the owner on the side of the transfer that the request asks for
unfoldable pub owner_filters : String → String → Slice String → Option String → List String
unfolding array_filter pair_filters
owner_filters outgoing incoming none direction = []
owner_filters outgoing incoming (some values) none = pair_filters outgoing incoming values
owner_filters outgoing incoming (some values) (some direction) =
    array_filter (if str_eq direction "in" then incoming else outgoing) values

unfoldable pub message_hash_filters : Slice String → List String
unfolding either_filter
message_hash_filters none = []
message_hash_filters (some []) = []
message_hash_filters (some (v ∷ more)) =
    either_filter "M.msg_hash" "M.msg_hash_norm" (v ∷ more) ∷ []

-- filter_list = []string{filter_str}, if it is not empty
unfoldable pub replaced_by : List String → List String → List String
replaced_by filters [] = filters
replaced_by filters (s ∷ rest) = s ∷ rest

abbrev pub flag_filter : Option Bool → String → List String
flag_filter (some true) text = text ∷ []
flag_filter _ text = []

unfoldable pub sort_or_desc : Option SortType → SortType
sort_or_desc none = "desc"
sort_or_desc (some order) = order
