-- ===== src/Index/Parse/Wallets.antt =====
-- ParseWalletState of ton-index-go/index/parse.go and the parsers of wallets that it looks up. The
-- cells of tonutils-go are a parameter. `none` is a panic: a nil pointer, or a cell that is too short.
use ton_indexer.Prelude.{
  ℕ, String, Bool, true, false, Option, none, some, List, [], ◌∷◌, Result, ok, err, ◌>>=◌, and_then,
}
use ton_indexer.Prelude.Int.{ℤ, pos}
use ton_indexer.Prelude.GoMap.{GoMap, lookup}
use ton_indexer.Prelude.Base64.{decode_string}
use ton_indexer.Index.Query.Request.{AccountAddress, HashType}

pub record AccountStateFull : Type 0 where
  pub account_address : Option AccountAddress
  pub hash : HashType
  pub balance : Option String
  pub balance_extra_currencies : GoMap String
  pub account_status : Option String
  pub frozen_hash : Option HashType
  pub last_transaction_hash : Option HashType
  pub last_transaction_lt : Option ℤ
  pub data_hash : Option HashType
  pub code_hash : Option HashType
  pub data_boc : Option String
  pub code_boc : Option String

pub record WalletState : Type 0 where
  pub account_address : AccountAddress
  pub is_wallet : Bool
  pub wallet_type : Option String
  pub seqno : Option ℤ
  pub wallet_id : Option ℤ
  pub balance : Option String
  pub balance_extra_currencies : GoMap String
  pub is_signature_allowed : Option Bool
  pub account_status : Option String
  pub code_hash : Option HashType
  pub last_transaction_hash : Option HashType
  pub last_transaction_lt : Option ℤ

pub data WalletError : Type 0 where
  corrupt_input : WalletError
  bad_boc : WalletError

-- cell.FromBOC and BeginParse, MustLoadUInt(32) and MustLoadBoolBit: the last two return the rest of
-- the slice, or panic.
pub record Cells (Slice : Type 0) : Type 0 where
  pub from_boc : List ℕ → Option Slice
  pub load_uint32 : Slice → Option (ℕ × Slice)
  pub load_bool_bit : Slice → Option (Bool × Slice)

-- var info WalletState
abbrev pub empty_wallet : WalletState
empty_wallet = record {
  account_address = "";
  is_wallet = false;
  wallet_type = none;
  seqno = none;
  wallet_id = none;
  balance = none;
  balance_extra_currencies = [];
  is_signature_allowed = none;
  account_status = none;
  code_hash = none;
  last_transaction_hash = none;
  last_transaction_lt = none;
}

pub data WalletParser : Type 0 where
  parse_wallet_seqno parse_wallet_v3 parse_wallet_v5 : WalletParser

-- var walletParsersMap: a name and a parser for each hash of code
abbrev pub wallet_parsers_map : GoMap (String × WalletParser)
wallet_parsers_map =
    ("oM/CxIruFqJx8s/AtzgtgXVs7LEBfQd/qqs7tgL2how=", ("wallet v1 r1", parse_wallet_seqno))
    ∷ ("1JAvzJ+tdGmPqONTIgpo2g3PcuMryy657gQhfBfTBiw=", ("wallet v1 r2", parse_wallet_seqno))
    ∷ ("WHzHie/xyE9G7DeX5F/ICaFP9a4k8eDHpqmcydyQYf8=", ("wallet v1 r3", parse_wallet_seqno))
    ∷ ("XJpeaMEI4YchoHxC+ZVr+zmtd+xtYktgxXbsiO7mUyk=", ("wallet v2 r1", parse_wallet_seqno))
    ∷ ("/pUw0yQ4Uwg+8u8LTCkIwKv2+hwx6iQ6rKpb+MfXU/E=", ("wallet v2 r2", parse_wallet_seqno))
    ∷ ("thBBpYp5gLlG6PueGY48kE0keZ/6NldOpCUcQaVm9YE=", ("wallet v3 r1", parse_wallet_v3))
    ∷ ("hNr6RJ+Ypph3ibojI1gHK8D3bcRSQAKl0JGLmnXS1Zk=", ("wallet v3 r2", parse_wallet_v3))
    ∷ ("ZN1UgFUixb6KnbWc6gEFzPDQh4bKeb64y3nogKjXMi0=", ("wallet v4 r1", parse_wallet_v3))
    ∷ ("/rX/aCDi/w2Ug+fg1iyBfYRniftK5YDIeIZtlZ2r1cA=", ("wallet v4 r2", parse_wallet_v3))
    ∷ ("89fKU0k97trCizgZhqhJQDy6w9LFhHea8IEGWvCsS5M=", ("wallet v5 beta", parse_wallet_v5))
    ∷ ("IINLe3KxEhR+Gy+0V7hOdNGjDwT3N9T2KmaOlVLSty8=", ("wallet v5 r1", parse_wallet_v5))
    ∷ []

module _ {Slice : Type 0} (cells : Cells Slice) where
  -- The parsers, on the slice at the beginning of the cell.
  unfoldable pub run_parser : WalletParser → Slice → WalletState → Option WalletState
  run_parser parse_wallet_seqno l state =
      cells.load_uint32 l >>= λ (seqno, _). some (record state { seqno = some (pos seqno) })
  run_parser parse_wallet_v3 l state = cells.load_uint32 l >>= λ (seqno, l₁).
      cells.load_uint32 l₁ >>= λ (wallet_id, _).
      some (record state { seqno = some (pos seqno); wallet_id = some (pos wallet_id) })
  run_parser parse_wallet_v5 l state = cells.load_bool_bit l >>= λ (allowed, l₁).
      cells.load_uint32 l₁ >>= λ (seqno, l₂). cells.load_uint32 l₂ >>= λ (wallet_id, _).
      some (record state {
        is_signature_allowed = some allowed;
        seqno = some (pos seqno);
        wallet_id = some (pos wallet_id);
      })

  -- func (parser *walletInfoParser) Parse
  unfoldable pub parse :
      String × WalletParser → String → WalletState → Option (Result WalletError WalletState)
  unfolding run_parser
  parse (name, parser) data_boc state = elim (decode_string data_boc) [
    | none ↦ some (err corrupt_input)
    | some boc ↦ elim (cells.from_boc boc) [
      | none ↦ some (err bad_boc)
      | some l ↦
          run_parser parser l (record state { is_wallet = true; wallet_type = some name }) >>= λ st.
          some (ok st)
    ]
  ]

  abbrev finish : AccountStateFull → WalletState → Option (Result WalletError WalletState)
  finish state info = state.account_address >>= λ account_address. some (
      ok (record info {
        account_address = account_address;
        balance = state.balance;
        balance_extra_currencies = state.balance_extra_currencies;
        account_status = state.account_status;
        code_hash = state.code_hash;
        last_transaction_hash = state.last_transaction_hash;
        last_transaction_lt = state.last_transaction_lt;
      }))

  -- the parser of the code, if there is one
  abbrev parsed : Option (String × WalletParser) → String → Option (Result WalletError WalletState)
  parsed none data_boc = some (ok empty_wallet)
  parsed (some parser) data_boc = parse parser data_boc empty_wallet

  -- The code hash is read when there are an address and data. Only the address is needed otherwise.
  abbrev info_of :
      Option AccountAddress
      → Option String
      → Option HashType
      → Option (Result WalletError WalletState)
  info_of (some address) (some data_boc) code_hash =
      code_hash >>= λ hash. parsed (lookup hash wallet_parsers_map) data_boc
  info_of _ _ code_hash = some (ok empty_wallet)

  unfoldable pub parse_wallet_state : AccountStateFull → Option (Result WalletError WalletState)
  unfolding parse
  parse_wallet_state state =
      info_of (state.account_address) (state.data_boc) (state.code_hash) >>= λ r.
      and_then r λ info. finish state info
