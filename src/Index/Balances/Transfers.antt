-- ===== src/Index/Balances/Transfers.antt =====
-- The second walk of CalculateBalanceChanges in ton-index-go/index/balances.go, checkJettonWallets
-- and the owners of wallets: the jettons that move, and the sum of all changes. A panic is `none`.
-- The rows of the query and the cells of tonutils-go are parameters.
use ton_indexer.Prelude.{
  ℕ, String, Bool, true, false, Option, none, some, List, [], ◌∷◌, if◌then◌else◌, str_eq, ◌>>=◌,
  get_elem?, ◌&&◌, Result, ok, err,
}
use ton_indexer.Prelude.Int.{ℤ}
use ton_indexer.Prelude.GoMap.{GoMap, lookup, insert}
use ton_indexer.Prelude.Base64.{decode_string}
use ton_indexer.Index.Balances.{BalanceChanges, add_jetton, merge}
use ton_indexer.Index.Balances.Messages.{ShortMessage}
use ton_indexer.Index.Balances.Nodes.{Node, update_node}
use ton_indexer.Index.Balances.Visit.{has_opcode, jetton_transfer, set_changes}

pub record WalletInfo : Type 0 where
  pub address : String
  pub owner : String
  pub jetton_master : String

same_wallet : WalletInfo → WalletInfo → Bool
same_wallet a b =
    str_eq a.address b.address && str_eq a.owner b.owner && str_eq a.jetton_master b.jetton_master

-- jetton_wallets.Add
add_wallet : WalletInfo → List WalletInfo → List WalletInfo
unfolding same_wallet
add_wallet w [] = w ∷ []
add_wallet w (x ∷ wallets) =
    let rest = add_wallet w wallets in if same_wallet x w then x ∷ wallets else x ∷ rest

scan_wallets : List (Result String WalletInfo) → List WalletInfo → Result String (List WalletInfo)
unfolding add_wallet
scan_wallets [] wallets = ok wallets
scan_wallets (err e ∷ rows) wallets = err e
scan_wallets (ok w ∷ rows) wallets = scan_wallets rows (add_wallet w wallets)

scanned : Result String (List (Result String WalletInfo)) → Result String (List WalletInfo)
unfolding scan_wallets
scanned (err e) = err e
scanned (ok rows) = scan_wallets rows []

unfoldable pub check_jetton_wallets :
    (List String → Result String (List (Result String WalletInfo)))
    → List String
    → Result String (List WalletInfo)
unfolding scanned
check_jetton_wallets query candidates = scanned (query candidates)

abbrev pub OwnerWallets : Type 0
OwnerWallets = GoMap (GoMap WalletInfo)

abbrev map_or_empty : Option (GoMap WalletInfo) → GoMap WalletInfo
map_or_empty none = []
map_or_empty (some m) = m

-- owner_wallets[w.jettonMaster][w.owner] = w
unfoldable pub owner_wallets : List WalletInfo → OwnerWallets → OwnerWallets
owner_wallets [] m = m
owner_wallets (w ∷ wallets) m =
    owner_wallets wallets
      (insert w.jetton_master (insert w.owner w (map_or_empty (lookup w.jetton_master m))) m)

abbrev owner_or_empty : Option WalletInfo → String
owner_or_empty none = ""
owner_or_empty (some w) = w.owner

unfoldable pub owner_of : String → String → OwnerWallets → String
owner_of master owner m = owner_or_empty (lookup owner (map_or_empty (lookup master m)))

-- The jetton of the first wallet with the address.
unfoldable pub master_of : String → List WalletInfo → String
master_of address [] = ""
master_of address (w ∷ wallets) =
    let rest = master_of address wallets in
    if str_eq w.address address then w.jetton_master else rest

pub record TransferPayload : Type 0 where
  pub destination : String
  pub amount : ℤ

-- cell.FromBOC and tlb.LoadFromCell, which leaves the payload as it has read it beside its error
pub record Payloads : Type 1 where
  pub Cell : Type 0
  pub from_boc : List ℕ → Option Cell
  pub load_transfer : Cell → TransferPayload × Bool

abbrev address_or_empty : Option String → String
address_or_empty none = ""
address_or_empty (some a) = a

pub record Totals : Type 0 where
  pub store : List Node
  pub changes : BalanceChanges

module _ (p : Payloads) (account_address_converter : String → Option String)
    (wallets : List WalletInfo) (owners : OwnerWallets) where
  unfoldable pub move_jettons :
      TransferPayload → ShortMessage → BalanceChanges → Option BalanceChanges
  unfolding owner_of master_of
  move_jettons transfer msg changes =
      let destination = address_or_empty (account_address_converter transfer.destination) in
      msg.source >>= λ source. msg.destination >>= λ wallet.
      let master = master_of wallet wallets in
      some (
        add_jetton (owner_of master destination owners) master transfer.amount false
          (add_jetton (owner_of master source owners) master transfer.amount true changes))

  -- A transfer with its payload: the nodes after it, and whether the body of the loop goes on.
  unfoldable pub apply_transfer :
      ℕ → Node → ShortMessage → TransferPayload × Bool → List Node → Option (Bool × List Node)
  unfolding move_jettons update_node
  apply_transfer n node msg (transfer, fine) store = node.balance_changes >>= λ changes.
      move_jettons transfer msg changes >>= λ moved.
      some (fine, update_node n (set_changes moved) store)

  unfoldable pub apply_body :
      ℕ → Node → ShortMessage → String → List Node → Option (Bool × List Node)
  unfolding apply_transfer
  apply_body n node msg body store = elim (decode_string body) [
    | none ↦ some (false, store)
    | some bytes ↦ elim (p.from_boc bytes) [
      | none ↦ some (false, store)
      | some cell ↦ apply_transfer n node msg (p.load_transfer cell) store
    ]
  ]

  unfoldable pub apply_message :
      ℕ → Node → Option ShortMessage → List Node → Option (Bool × List Node)
  unfolding apply_body
  apply_message n node none store = some (true, store)
  apply_message n node (some msg) store = elim msg.body [
    | none ↦ some (true, store)
    | some body ↦
        if has_opcode jetton_transfer msg
        then apply_body n node msg body store
        else some (true, store)
  ]

  -- The changes of a node go into the sum, and its next nodes into the queue.
  unfoldable pub add_node : ℕ → BalanceChanges → List Node → Option (Totals × List ℕ)
  unfolding merge
  add_node n total store = get_elem? store n >>= λ node. some (elim node.balance_changes [
    | none ↦ (record { store = store; changes = total }, node.next_nodes)
    | some changes ↦ (record { store = store; changes = merge total changes }, node.next_nodes)
  ])

  -- the body of the loop; after an error it leaves the node's changes and its next nodes out
  unfoldable pub settle_node : ℕ → Totals → Option (Totals × List ℕ)
  unfolding apply_message add_node
  settle_node n s = get_elem? s.store n >>= λ node.
      apply_message n node node.msg s.store >>= λ applied.
      if applied.0
      then add_node n s.changes applied.1
      else some (record s { store = applied.1 }, [])
