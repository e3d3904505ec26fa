-- ===== src/Index/Query/Actions/Laws.antt =====
-- buildActionsQuery of ton-index-go/index/crud.go and the texts of its request.
use ton_indexer.Prelude.{
  String, Bool, true, false, Option, none, some, List, All, ◌≡◌, refl, Bool-cases, inl, inr,
}
use mathlib.Core.Option.{map as map_option}
use ton_indexer.Prelude.Int.{ℤ}
use ton_indexer.Index.Query.Request.{
  ActionRequest, UtimeRequest, LtRequest, LimitRequest, RequestSettings,
}
use ton_indexer.Index.Query.Sql.{◌<>◌, by_time, is_empty}
use ton_indexer.Index.Query.Skeleton.{
  Same, Same-closed, Same-concat, SameAll, same_nil, same_cons, QuoteFree, closed,
}
use ton_indexer.Index.Query.Redact.{redact, redact_slice, IfSome, is_empty-redact, Same-if}
use ton_indexer.Index.Query.Parts.{same_rules, redact_laws, has_text-redact}
use ton_indexer.Index.Query.Outcome.{
  outline, SameResult, same_ok, SameResult-then, SameResult-outline, limit_query-Same,
  sort_order_or-Same,
}
use ton_indexer.Index.Query.Actions.{
  build_actions_query, action_filters, account_filters, complete_filters, not_filters, all_filters,
  action_from, action_distinct, action_order, order_query,
}

-- The request with its texts hidden.
unfoldable pub redact_actions : ActionRequest → ActionRequest
redact_actions r = record r {
  account_address = map_option redact (r.account_address);
  transaction_hash = redact_slice (r.transaction_hash);
  message_hash = redact_slice (r.message_hash);
  trace_id = redact_slice (r.trace_id);
  action_id = redact_slice (r.action_id);
  include_action_types = redact_slice (r.include_action_types);
  exclude_action_types = redact_slice (r.exclude_action_types);
}

-- No text of the request has a quote.
pub record ActionIsFree (r : ActionRequest) : Type 0 where
  pub account_address_free : IfSome QuoteFree (r.account_address)
  pub transaction_hash_free : IfSome (All QuoteFree) (r.transaction_hash)
  pub message_hash_free : IfSome (All QuoteFree) (r.message_hash)
  pub trace_id_free : IfSome (All QuoteFree) (r.trace_id)
  pub action_id_free : IfSome (All QuoteFree) (r.action_id)
  pub include_action_types_free : IfSome (All QuoteFree) (r.include_action_types)
  pub exclude_action_types_free : IfSome (All QuoteFree) (r.exclude_action_types)

SameAll-account_filters :
    (v : Option String)
    → IfSome QuoteFree v
    → SameAll (account_filters v) (account_filters (map_option redact v))
unfolding account_filters
SameAll-account_filters none h = same_nil
SameAll-account_filters (some s) h = elim (Bool-cases (is_empty s)) [
  | inl e ↦ rw (is_empty-redact s, e) same_nil
  | inr e ↦ rw (is_empty-redact s, e) (search (same_rules, h))
]

SameAll-complete_filters : (v : Option ℤ) → SameAll (complete_filters v) (complete_filters v)
unfolding complete_filters
SameAll-complete_filters none = same_nil
SameAll-complete_filters (some n) = search same_rules

SameAll-not_filters : {l m : List String} → SameAll l m → SameAll (not_filters l) (not_filters m)
unfolding not_filters
SameAll-not_filters same_nil = same_nil
SameAll-not_filters (same_cons p r) =
    same_cons (Same-concat (Same-closed "not (" refl) (Same-concat p (Same-closed ")" refl)))
      same_nil

action_filters-redact :
    (r : ActionRequest) (utime : UtimeRequest) (lt : LtRequest)
    → ActionIsFree r
    → SameAll (action_filters r utime lt) (action_filters (redact_actions r) utime lt)
unfolding action_filters redact_actions
action_filters-redact r utime lt h = rw (has_text-redact (r.account_address)) (
    search (same_rules, SameAll-account_filters, SameAll-complete_filters, SameAll-not_filters)
      depth 24 fits 9000)

all_filters-redact :
    (r : ActionRequest) (utime : UtimeRequest) (lt : LtRequest)
    → ActionIsFree r
    → SameAll (all_filters r utime lt) (all_filters (redact_actions r) utime lt)
unfolding all_filters redact_actions
all_filters-redact r utime lt h = search (same_rules, action_filters-redact r) depth 24 fits 9000

action_from-redact : (r : ActionRequest) → action_from (redact_actions r) ≡ action_from r
unfolding action_from redact_actions
action_from-redact r = simp redact_laws

action_distinct-redact :
    (r : ActionRequest) (now : Bool)
    → action_distinct (redact_actions r) now ≡ action_distinct r now
unfolding action_distinct redact_actions
action_distinct-redact r now = simp redact_laws

Same-action_from : (r : ActionRequest) → Same (action_from r) (action_from r)
unfolding action_from
Same-action_from r = search (same_rules) depth 24 fits 9000

Same-action_distinct :
    (r : ActionRequest) (now : Bool) → Same (action_distinct r now) (action_distinct r now)
unfolding action_distinct
Same-action_distinct r now = search (same_rules) depth 24 fits 9000

Same-order_query :
    (c₁ c₂ c₃ c₄ : String) {s t : String}
    → closed false c₁ ≡ true
    → closed false c₂ ≡ true
    → closed false c₃ ≡ true
    → closed false c₄ ≡ true
    → Same s t
    → Same (order_query c₁ c₂ c₃ c₄ s) (order_query c₁ c₂ c₃ c₄ t)
unfolding order_query
Same-order_query c₁ c₂ c₃ c₄ {s} {t} p₁ p₂ p₃ p₄ p = column " order by " c₁ refl p₁ (
    column ", " c₂ refl p₂ (
      column ", " c₃ refl p₃ (
        Same-concat (Same-closed ", " refl)
          (Same-concat (Same-closed c₄ p₄) (Same-concat (Same-closed " " refl) p)))))
  where
    column :
        (before c : String) {u v : String}
        → closed false before ≡ true
        → closed false c ≡ true
        → Same u v
        → Same (before <> c <> " " <> s <> u) (before <> c <> " " <> t <> v)
    column before c e q r =
        Same-concat (Same-closed before e)
          (Same-concat (Same-closed c q) (Same-concat (Same-closed " " refl) (Same-concat p r)))

Same-action_order :
    (by_account now : Bool) {s t : String}
    → Same s t
    → Same (action_order by_account now s) (action_order by_account now t)
unfolding action_order
Same-action_order by_account now p =
    Same-if by_account
      (Same-if now (Same-order_query _ _ _ _ refl refl refl refl p)
        (Same-order_query _ _ _ _ refl refl refl refl p))
      (Same-if now (Same-order_query _ _ _ _ refl refl refl refl p)
        (Same-order_query _ _ _ _ refl refl refl refl p))

build_actions_query-Same :
    (r : ActionRequest) (utime : UtimeRequest) (lt : LtRequest) (lim : LimitRequest)
    (settings : RequestSettings)
    → ActionIsFree r
    → SameResult
        (build_actions_query r utime lt lim settings)
        (build_actions_query (redact_actions r) utime lt lim settings)
unfolding build_actions_query
build_actions_query-Same r utime lt lim settings h =
    SameResult-then (limit_query-Same lim settings) λ l l' p.
      SameResult-then (sort_order_or-Same "desc" (lim.sort) (Same-closed "desc" refl)) λ o o' q.
        rw (action_from-redact r, action_distinct-redact r (by_time utime))
          (same_ok (
            search
              (
                same_rules,
                all_filters-redact r utime lt,
                Same-action_from,
                Same-action_distinct,
                Same-action_order,
              )
              depth 30 fits 9000))

-- When no text of the request has a quote, the query built from it and the query built from the
-- request with its texts hidden are the same outside of their literals, or both are the same error.
pub build_actions_query-redact :
    (r : ActionRequest) (utime : UtimeRequest) (lt : LtRequest) (lim : LimitRequest)
    (settings : RequestSettings)
    → ActionIsFree r
    → outline (build_actions_query r utime lt lim settings)
      ≡ outline (build_actions_query (redact_actions r) utime lt lim settings)
build_actions_query-redact r utime lt lim settings h =
    SameResult-outline (build_actions_query-Same r utime lt lim settings h)
