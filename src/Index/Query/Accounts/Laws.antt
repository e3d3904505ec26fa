-- ===== src/Index/Query/Accounts/Laws.antt =====
-- buildAccountStatesQuery of ton-index-go/index/crud.go and the texts of its request.
use ton_indexer.Prelude.{All, ◌≡◌}
use ton_indexer.Index.Query.Request.{AccountRequest, LimitRequest, RequestSettings}
use ton_indexer.Index.Query.Skeleton.{SameAll, QuoteFree}
use ton_indexer.Index.Query.Redact.{redact_slice, IfSome}
use ton_indexer.Index.Query.Parts.{same_rules}
use ton_indexer.Index.Query.Outcome.{
  outline, SameResult, same_ok, SameResult-then, SameResult-outline, limit_query-Same,
}
use ton_indexer.Index.Query.Accounts.{build_account_states_query, account_filters}

-- The request with its texts hidden.
unfoldable pub redact_accounts : AccountRequest → AccountRequest
redact_accounts r = record r {
  account_address = redact_slice (r.account_address);
  code_hash = redact_slice (r.code_hash);
}

-- No text of the request has a quote.
pub record AccountIsFree (r : AccountRequest) : Type 0 where
  pub account_address_free : IfSome (All QuoteFree) (r.account_address)
  pub code_hash_free : IfSome (All QuoteFree) (r.code_hash)

account_filters-redact :
    (r : AccountRequest)
    → AccountIsFree r
    → SameAll (account_filters r) (account_filters (redact_accounts r))
unfolding account_filters redact_accounts
account_filters-redact r h = search (same_rules) depth 24 fits 9000

build_account_states_query-Same :
    (r : AccountRequest) (lim : LimitRequest) (settings : RequestSettings)
    → AccountIsFree r
    → SameResult
        (build_account_states_query r lim settings)
        (build_account_states_query (redact_accounts r) lim settings)
unfolding build_account_states_query redact_accounts
build_account_states_query-Same r lim settings h =
    SameResult-then (limit_query-Same lim settings)
      λ l l' p. same_ok (search (same_rules, account_filters-redact r) depth 30 fits 9000)

-- When no text of the request has a quote, the query built from it and the query built from the
-- request with its texts hidden are the same outside of their literals, or both are the same error.
pub build_account_states_query-redact :
    (r : AccountRequest) (lim : LimitRequest) (settings : RequestSettings)
    → AccountIsFree r
    → outline (build_account_states_query r lim settings)
      ≡ outline (build_account_states_query (redact_accounts r) lim settings)
build_account_states_query-redact r lim settings h =
    SameResult-outline (build_account_states_query-Same r lim settings h)
