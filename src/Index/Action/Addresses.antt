-- ===== src/Index/Action/Addresses.antt =====
-- CollectAddressesFromAction of ton-index-go/index/crud.go, against the addresses that an answer shows.
use ton_indexer.Prelude.{
  ℕ, suc, String, Bool, true, false, ◌||◌, Option, none, some, List, [], ◌∷◌, ◌++◌, All, All-append,
  ◌≡◌, refl, get_elem?, if◌then◌else◌, Bool-cases, inl, inr,
}
use ton_indexer.Prelude.GoMap.{GoMap, insert}
use ton_indexer.Index.Query.Request.{AccountAddress}
use ton_indexer.Index.Action.Models
use ton_indexer.Index.Action.Models.{
  RawAction, Action, Details, unsupported, ActionDetailsJettonSwapTransfer,
}
use ton_indexer.Index.Action.{
  Kind, kind_of, parse_raw_action, is_default, details_of, is_text, call_contract, contract_deploy,
  ton_transfer, auction_bid, change_dns, dex_deposit_liquidity, dex_withdraw_liquidity, delete_dns,
  renew_dns, election_deposit, election_recover, jetton_burn, jetton_swap, jetton_transfer,
  jetton_mint, nft_mint, nft_transfer, tick_tock, stake_deposit, stake_withdrawal,
  stake_withdrawal_request, subscribe, unsubscribe, default,
}

-- The fields that are looked at, in this order.
unfoldable pub address_fields : RawAction → List (Option AccountAddress)
address_fields raw =
    raw.source ∷ raw.source_secondary ∷ raw.destination ∷ raw.destination_secondary ∷ raw.asset
    ∷ raw.asset_secondary ∷ raw.asset2 ∷ raw.asset2_secondary
    ∷ raw.jetton_transfer_response_destination ∷ raw.nft_transfer_response_destination
    ∷ raw.jetton_swap_sender ∷ raw.jetton_swap_dex_incoming_transfer_asset
    ∷ raw.jetton_swap_dex_incoming_transfer_source
    ∷ raw.jetton_swap_dex_incoming_transfer_destination
    ∷ raw.jetton_swap_dex_incoming_transfer_source_jetton_wallet
    ∷ raw.jetton_swap_dex_incoming_transfer_destination_jetton_wallet
    ∷ raw.jetton_swap_dex_outgoing_transfer_asset ∷ raw.jetton_swap_dex_outgoing_transfer_source
    ∷ raw.jetton_swap_dex_outgoing_transfer_destination
    ∷ raw.jetton_swap_dex_outgoing_transfer_source_jetton_wallet
    ∷ raw.jetton_swap_dex_outgoing_transfer_destination_jetton_wallet
    ∷ raw.dex_deposit_liquidity_data_asset1 ∷ raw.dex_deposit_liquidity_data_asset2
    ∷ raw.dex_withdraw_liquidity_data_asset1_out ∷ raw.dex_withdraw_liquidity_data_asset2_out ∷ []

-- (*addr_list)[string(*v)] = true, for each field that is not nil
unfoldable pub add_addresses : List (Option AccountAddress) → GoMap Bool → GoMap Bool
add_addresses [] m = m
add_addresses (none ∷ fields) m = add_addresses fields m
add_addresses (some address ∷ fields) m = add_addresses fields (insert address true m)

-- Its result is always true.
unfoldable pub collect_addresses_from_action : GoMap Bool → RawAction → GoMap Bool
unfolding address_fields add_addresses
collect_addresses_from_action addr_list raw = add_addresses (address_fields raw) addr_list

-- The addresses that the details of an action show, apart from those in the list of peer swaps.
unfoldable pub transfer_addresses :
    Option ActionDetailsJettonSwapTransfer → List (Option AccountAddress)
transfer_addresses none = []
transfer_addresses (some d) =
    d.asset ∷ d.source ∷ d.destination ∷ d.source_jetton_wallet ∷ d.destination_jetton_wallet ∷ []

unfoldable pub shown_addresses : Details → List (Option AccountAddress)
unfolding transfer_addresses
shown_addresses (Models.call_contract d) = d.source ∷ d.destination ∷ []
shown_addresses (Models.contract_deploy d) = d.source ∷ d.destination ∷ []
shown_addresses (Models.ton_transfer d) = d.source ∷ d.destination ∷ []
shown_addresses (Models.auction_bid d) = d.bidder ∷ d.auction ∷ d.nft_item ∷ d.nft_collection ∷ []
shown_addresses (Models.change_dns d) =
    d.source ∷ d.asset ∷ d.nft_collection ∷ d.value.dns_smc_address
    ∷ d.value.dns_next_resolver_address ∷ d.value.dns_adnl_address ∷ d.value.dns_storage_address
    ∷ []
shown_addresses (Models.dex_deposit_liquidity d) =
    d.asset1 ∷ d.asset2 ∷ d.user_jetton_wallet1 ∷ d.user_jetton_wallet2 ∷ d.source ∷ d.pool
    ∷ d.destination_liquidity ∷ []
shown_addresses (Models.dex_withdraw_liquidity d) =
    d.asset1 ∷ d.asset2 ∷ d.user_jetton_wallet1 ∷ d.user_jetton_wallet2 ∷ d.source ∷ d.pool
    ∷ d.destination_liquidity ∷ []
shown_addresses (Models.delete_dns d) = d.source ∷ d.asset ∷ d.nft_collection ∷ []
shown_addresses (Models.renew_dns d) = d.source ∷ d.asset ∷ d.nft_collection ∷ []
shown_addresses (Models.election_deposit d) = d.stake_holder ∷ []
shown_addresses (Models.election_recover d) = d.stake_holder ∷ []
shown_addresses (Models.jetton_burn d) = d.owner ∷ d.owner_jetton_wallet ∷ d.asset ∷ []
shown_addresses (Models.jetton_swap d) =
    d.sender ∷ d.asset_in ∷ d.asset_out ∷ transfer_addresses d.dex_incoming_transfer
    ++ transfer_addresses d.dex_outgoing_transfer
shown_addresses (Models.jetton_transfer d) =
    d.asset ∷ d.sender ∷ d.receiver ∷ d.sender_jetton_wallet ∷ d.receiver_jetton_wallet
    ∷ d.response_destination ∷ []
shown_addresses (Models.jetton_mint d) = d.asset ∷ d.receiver ∷ d.receiver_jetton_wallet ∷ []
shown_addresses (Models.nft_mint d) = d.owner ∷ d.nft_item ∷ d.nft_collection ∷ []
shown_addresses (Models.nft_transfer d) =
    d.nft_collection ∷ d.nft_item ∷ d.old_owner ∷ d.new_owner ∷ d.response_destination ∷ []
shown_addresses (Models.tick_tock d) = d.account ∷ []
shown_addresses (Models.stake_deposit d) = d.stake_holder ∷ d.pool ∷ d.asset ∷ []
shown_addresses (Models.withdraw_stake d) = d.stake_holder ∷ d.pool ∷ d.payout_nft ∷ d.asset ∷ []
shown_addresses (Models.withdraw_stake_request d) =
    d.stake_holder ∷ d.pool ∷ d.payout_nft ∷ d.asset ∷ []
shown_addresses (Models.subscribe d) = d.subscriber ∷ d.beneficiary ∷ d.subscription ∷ []
shown_addresses (Models.unsubscribe d) = d.subscriber ∷ d.beneficiary ∷ d.subscription ∷ []
shown_addresses (unsupported text) = []

-- The addresses of an action that is shown raw, apart from those in its list of peer swaps.
unfoldable pub raw_addresses : Option RawAction → List (Option AccountAddress)
unfolding address_fields
raw_addresses none = []
raw_addresses (some raw) =
    raw.dex_deposit_liquidity_data_user_jetton_wallet1
    ∷ raw.dex_deposit_liquidity_data_user_jetton_wallet2
    ∷ raw.dex_withdraw_liquidity_data_user_jetton_wallet1
    ∷ raw.dex_withdraw_liquidity_data_user_jetton_wallet2
    ∷ raw.dex_withdraw_liquidity_data_dex_jetton_wallet1
    ∷ raw.dex_withdraw_liquidity_data_dex_jetton_wallet2
    ∷ raw.staking_data_ts_nft
    ∷ raw.change_dns_record_value
    ∷ address_fields raw

-- The addresses that the answer for an action shows, apart from those of peer swaps.
abbrev pub answer_addresses : Action → List (Option AccountAddress)
answer_addresses a = shown_addresses a.details ++ raw_addresses a.raw_action

-- These are shown, and not collected: the wallets of a liquidity action, the NFT of a stake and the
-- value of a DNS record.
unfoldable pub uncollected : RawAction → List (Option AccountAddress)
uncollected raw =
    raw.dex_deposit_liquidity_data_user_jetton_wallet1
    ∷ raw.dex_deposit_liquidity_data_user_jetton_wallet2
    ∷ raw.dex_withdraw_liquidity_data_user_jetton_wallet1
    ∷ raw.dex_withdraw_liquidity_data_user_jetton_wallet2 ∷ raw.staking_data_ts_nft
    ∷ raw.dex_withdraw_liquidity_data_dex_jetton_wallet1
    ∷ raw.dex_withdraw_liquidity_data_dex_jetton_wallet2 ∷ raw.change_dns_record_value ∷ []

-- The field is one of the list.
unfoldable pub Listed : List (Option AccountAddress) → Option AccountAddress → Type 0
Listed l o = (i : ℕ) × (get_elem? l i ≡ some o)

pub data Origin (raw : RawAction) (o : Option AccountAddress) : Type 0 where
  collected : Listed (address_fields raw) o → Origin raw o
  left_out : Listed (uncollected raw) o → Origin raw o
  absent : o ≡ none → Origin raw o

module _ {raw : RawAction} {o : Option AccountAddress} where
  at : (i : ℕ) → get_elem? (address_fields raw) i ≡ some o → Origin raw o
  unfolding Listed
  at i e = collected (i, e)

  left_at : (i : ℕ) → get_elem? (uncollected raw) i ≡ some o → Origin raw o
  unfolding Listed
  left_at i e = left_out (i, e)

liquidity :
    (raw : RawAction)
    → Origin raw (
        if is_text raw.dex_deposit_liquidity_data_dex "dedust"
        then raw.destination_secondary
        else raw.destination)
unfolding address_fields
liquidity raw = elim (Bool-cases (is_text raw.dex_deposit_liquidity_data_dex "dedust")) [
  | inl e ↦ rw e (at 3 refl)
  | inr e ↦ rw e (at 2 refl)
]

-- The value of a DNS record stands in at most one of the fields, or in none.
dns_field :
    (raw : RawAction) (b : Bool) → Origin raw (if b then raw.change_dns_record_value else none)
unfolding uncollected
dns_field raw true = left_at 7 refl
dns_field raw false = absent refl

All-at :
    {A : Type 0} (Q : A → Type 0) (l : List A)
    → ((i : ℕ) (x : A) → get_elem? l i ≡ some x → Q x)
    → All Q l
All-at Q [] h = tt
All-at Q (x ∷ l) h = (h 0 x refl, All-at Q l (λ i y e. h (suc i) y e))

raw_addresses-Origin :
    (b : Bool) (raw : RawAction) → All (Origin raw) (raw_addresses (if b then some raw else none))
unfolding raw_addresses uncollected
raw_addresses-Origin false raw = tt
raw_addresses-Origin true raw =
    let all = All-at (Origin raw) (address_fields raw) (λ i o e. at i e) in
    (
      left_at 0 refl,
      (
        left_at 1 refl,
        (
          left_at 2 refl,
          (
            left_at 3 refl,
            (left_at 5 refl, (left_at 6 refl, (left_at 4 refl, (left_at 7 refl, all)))),
          ),
        ),
      ),
    )

module _ (parse_comment_from_payload : String → Option (Option String × Bool)) where
  shown_addresses-Origin :
      (kind : Kind) (raw : RawAction)
      → All (Origin raw) (shown_addresses (details_of parse_comment_from_payload kind raw))
  unfolding shown_addresses details_of address_fields uncollected
  shown_addresses-Origin call_contract raw = (at 0 refl, (at 2 refl, tt))
  shown_addresses-Origin contract_deploy raw = (at 0 refl, (at 2 refl, tt))
  shown_addresses-Origin ton_transfer raw = (at 0 refl, (at 2 refl, tt))
  shown_addresses-Origin auction_bid raw = (at 0 refl, (at 2 refl, (at 5 refl, (at 4 refl, tt))))
  shown_addresses-Origin change_dns raw =
      let schema = raw.change_dns_record_value_schema in
      (
        at 0 refl,
        (
          at 2 refl,
          (
            at 4 refl,
            (
              dns_field raw (is_text schema "DNSSmcAddress"),
              (
                dns_field raw (is_text schema "DNSNextResolver"),
                (
                  dns_field raw (is_text schema "DNSAdnlAddress"),
                  (
                    dns_field raw (is_text schema "DNSStorageAddress" || is_text schema "DNSText"),
                    tt,
                  ),
                ),
              ),
            ),
          ),
        ),
      )
  shown_addresses-Origin dex_deposit_liquidity raw = (
    at 21 refl,
    (at 22 refl, (left_at 0 refl, (left_at 1 refl, (at 0 refl, (at 2 refl, (liquidity raw, tt)))))),
  )
  shown_addresses-Origin dex_withdraw_liquidity raw = (
    at 23 refl,
    (at 24 refl, (left_at 2 refl, (left_at 3 refl, (at 0 refl, (at 2 refl, (at 2 refl, tt)))))),
  )
  shown_addresses-Origin delete_dns raw = (at 0 refl, (at 2 refl, (at 4 refl, tt)))
  shown_addresses-Origin renew_dns raw = (at 0 refl, (at 2 refl, (at 4 refl, tt)))
  shown_addresses-Origin election_deposit raw = (at 0 refl, tt)
  shown_addresses-Origin election_recover raw = (at 0 refl, tt)
  shown_addresses-Origin jetton_burn raw = (at 0 refl, (at 1 refl, (at 4 refl, tt)))
  shown_addresses-Origin jetton_swap raw = (
    at 0 refl,
    (
      at 4 refl,
      (
        at 6 refl,
        (
          at 11 refl,
          (
            at 12 refl,
            (
              at 13 refl,
              (
                at 14 refl,
                (
                  at 15 refl,
                  (at 16 refl, (at 17 refl, (at 18 refl, (at 19 refl, (at 20 refl, tt))))),
                ),
              ),
            ),
          ),
        ),
      ),
    ),
  )
  shown_addresses-Origin jetton_transfer raw =
      (at 4 refl, (at 0 refl, (at 2 refl, (at 1 refl, (at 3 refl, (at 8 refl, tt))))))
  shown_addresses-Origin jetton_mint raw = (at 4 refl, (at 2 refl, (at 3 refl, tt)))
  shown_addresses-Origin nft_mint raw = (at 0 refl, (at 5 refl, (at 4 refl, tt)))
  shown_addresses-Origin nft_transfer raw =
      (at 4 refl, (at 5 refl, (at 0 refl, (at 2 refl, (at 9 refl, tt)))))
  shown_addresses-Origin tick_tock raw = (absent refl, tt)
  shown_addresses-Origin stake_deposit raw = (at 0 refl, (at 2 refl, (at 4 refl, tt)))
  shown_addresses-Origin stake_withdrawal raw =
      (at 0 refl, (at 2 refl, (left_at 4 refl, (at 4 refl, tt))))
  shown_addresses-Origin stake_withdrawal_request raw =
      (at 0 refl, (at 2 refl, (left_at 4 refl, (at 4 refl, tt))))
  shown_addresses-Origin subscribe raw = (at 0 refl, (at 2 refl, (at 3 refl, tt)))
  shown_addresses-Origin unsubscribe raw = (at 0 refl, (at 2 refl, (at 3 refl, tt)))
  shown_addresses-Origin default raw = tt

  pub answer_addresses-Origin :
      (raw : RawAction)
      → All (Origin raw) (answer_addresses (parse_raw_action parse_comment_from_payload raw))
  unfolding parse_raw_action
  answer_addresses-Origin raw =
      let kind = kind_of raw.type in
      All-append (Origin raw) (shown_addresses (details_of parse_comment_from_payload kind raw)) _
        (shown_addresses-Origin kind raw)
        (raw_addresses-Origin (is_default parse_comment_from_payload kind) raw)
