-- ===== src/Index/Action/Complete.antt =====
-- The addresses of the answers of ton-index-go/index/parse.go are looked up: the address book and the
-- metadata are asked for the addresses that CollectAddressesFromAction of crud.go collects.
use ton_indexer.Prelude.{Bool, true, Option, some, ◌≡◌, ◌⊎◌}
use ton_indexer.Prelude.GoMap.{GoMap, lookup}
use ton_indexer.Index.Query.Request.{AccountAddress}
use ton_indexer.Index.Query.Redact.{IfSome}
use ton_indexer.Index.Action.Models.{RawAction}
use ton_indexer.Index.Action.Addresses.{uncollected, Listed}

-- An address that an answer shows is in the list, or is one of those that are left out.
unfoldable pub IsFound : GoMap Bool → RawAction → Option AccountAddress → Type 0
IsFound addr_list raw o =
    IfSome (λ a. (lookup a addr_list ≡ some true) ⊎ Listed (uncollected raw) (some a)) o
