-- ===== src/Index/Query/Outcome.antt =====
-- The outcomes of the builders of ton-index-go/index/crud.go: an error, or a query.
use ton_indexer.Prelude.{
  ℕ, String, Bool, true, false, Option, none, some, List, if◌then◌else◌, ◌≡◌, refl, ap, sym, ◌∙◌,
  Result, ok, err,
}
use ton_indexer.Prelude.Int.{ℤ}
use ton_indexer.Prelude.Text.{concat}
use ton_indexer.Index.Query.Request.{LimitRequest, RequestSettings}
use ton_indexer.Index.Query.Sql.{
  ◌<>◌, limit_query, sort_order_or, get_sort_order, IndexError, ◌>>?◌, offset_query,
}
use ton_indexer.Index.Query.Skeleton.{Same, Same-closed, Same-concat, skeleton}
use ton_indexer.Index.Query.Redact.{Same-format_int}

-- Two outcomes of a builder: the same error, or queries with the same skeleton.
pub data SameResult : Result IndexError String → Result IndexError String → Type 0 where
  same_err : {e : IndexError} → SameResult (err e) (err e)
  same_ok : {s t : String} → Same s t → SameResult (ok s) (ok t)

pub SameResult-then :
    {r r' : Result IndexError String} {f g : String → Result IndexError String}
    → SameResult r r'
    → ((s t : String) → Same s t → SameResult (f s) (g t))
    → SameResult (r >>? f) (r' >>? g)
SameResult-then same_err k = same_err
SameResult-then (same_ok p) k = k _ _ p

pub SameResult-if :
    {x y x' y' : Result IndexError String} (b : Bool)
    → SameResult x x'
    → SameResult y y'
    → SameResult (if b then x else y) (if b then x' else y')
SameResult-if true p q = p
SameResult-if false p q = q

pub get_sort_order-Same :
    (order : String) → SameResult (get_sort_order order) (get_sort_order order)
unfolding get_sort_order
get_sort_order-Same order = search (SameResult-if, same_err, same_ok, Same-closed) depth 8

pub sort_order_or-Same :
    (default : String) (order : Option String)
    → Same default default
    → SameResult (sort_order_or default order) (sort_order_or default order)
unfolding sort_order_or
sort_order_or-Same default none h = same_ok h
sort_order_or-Same default (some order) h = get_sort_order-Same order

offset_query-Same : (o : Option ℤ) → Same (offset_query o) (offset_query o)
offset_query-Same none = Same-closed "" refl
offset_query-Same (some n) = Same-concat (Same-closed " offset " refl) (Same-format_int _)

pub limit_query-Same :
    (lim : LimitRequest) (settings : RequestSettings)
    → SameResult (limit_query lim settings) (limit_query lim settings)
unfolding limit_query
limit_query-Same lim settings = SameResult-if _ same_err (
    same_ok (
      Same-concat (Same-closed " limit " refl)
        (Same-concat (Same-format_int _) (offset_query-Same (lim.offset)))))

pub concat-nil : (s : String) → s <> "" ≡ s
unfolding concat
concat-nil String.[] = refl
concat-nil (String.◌∷◌ c s) = ap (String.◌∷◌ c) (concat-nil s)

-- The skeleton of a query, or the error.
abbrev pub outline : Result IndexError String → Result IndexError (List ℕ)
outline (err e) = err e
outline (ok s) = ok (skeleton false s)

pub SameResult-outline :
    {r r' : Result IndexError String} → SameResult r r' → outline r ≡ outline r'
SameResult-outline same_err = refl
SameResult-outline (same_ok {s = s} {t = t} p) = ap ok (
    ap (skeleton false) (sym (concat-nil s)) ∙ p.at "" "" refl ∙ ap (skeleton false) (concat-nil t))
