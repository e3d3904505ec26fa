-- ===== src/Index/Sample.antt =====
-- A small trace for ton-index-go/index, a root and the message that it sends, with what the theorems
-- ask of it.
use ton_indexer.Prelude.{
  ℕ, suc, ◌≤◌, ◌<◌, ◌≡◌, refl, subst, String, true, false, Option, none, some, [], ◌∷◌, ok, All,
  IfOk, Bool-cases, inl, inr, str_eq, if◌then◌else◌, arith,
}
use ton_indexer.Prelude.Int.{pos}
use ton_indexer.Prelude.GoMap.{GoMap, lookup, insert}
use ton_indexer.Prelude.Base64.{encode_to_string}
use ton_indexer.Index.Emulated.Models.{
  TraceNode, Transaction, TransactionDescr, TrMessage, TrStoragePhase, skipped_data,
}
use ton_indexer.Index.Emulated.Actions.{Action}
use ton_indexer.Index.Emulated.Convert.{Codec, next_keys}
use ton_indexer.Index.Emulated.Convert.Nodes.{total}
use ton_indexer.Index.Emulated.Convert.Walks.{IsWeighed}
use ton_indexer.Index.Emulated.Transactions.Laws.{ComputeFits}
use ton_indexer.Index.Pending.{EmulatedTracesContext}
use ton_indexer.Index.Pending.Fill.{insert_all}
use ton_indexer.Index.Pending.Fill.Emulated.{OnlyEmulated}
use ton_indexer.Index.Pending.Fill.Laws.{IsReady}
use ton_indexer.Index.Pending.Fill.Traces.{HasTimes}
use ton_indexer.Index.Pending.Fill.Raw.{IsSafe, IsWalkable}

abbrev pub storage : TrStoragePhase
storage = record { storage_fees_collected = 0; storage_fees_due = none; status_change = pos 0 }

abbrev pub message : TrMessage
message = record {
  hash = 1 ∷ 2 ∷ 3 ∷ [];
  source = none;
  destination = none;
  value = none;
  fwd_fee = none;
  ihr_fee = none;
  created_lt = none;
  created_at = none;
  opcode = none;
  ihr_disabled = none;
  bounce = none;
  bounced = none;
  import_fee = none;
  body_boc = "";
  init_state_boc = none;
  hash_norm = none;
}

abbrev pub description : TransactionDescr
description = record {
  credit_first = false;
  storage_ph = some storage;
  credit_ph = none;
  compute_ph = record { kind = 0; payload = skipped_data (record { reason = pos 0 }) };
  action = none;
  aborted = false;
  bounce = none;
  destroyed = false;
}

abbrev pub transaction : Transaction
transaction = record {
  hash = [];
  account = "0:aa";
  lt = 7;
  prev_trans_hash = [];
  prev_trans_lt = 0;
  now = 0;
  orig_status = pos 2;
  end_status = pos 2;
  in_msg = some message;
  out_msgs = [];
  total_fees = 0;
  account_state_hash_before = [];
  account_state_hash_after = [];
  description = description;
}

abbrev pub leaf : TraceNode
leaf = record {
  transaction = transaction;
  emulated = true;
  block_id = record { workchain = pos 0; shard = 0; seqno = 0 };
  mc_block_seqno = 0;
  trace_id = none;
  key = "";
}

abbrev pub root : TraceNode
root = record leaf { transaction = record transaction { out_msgs = message ∷ [] } }

abbrev pub action : Action
action = record {
  action_id = "";
  type = "";
  trace_id = none;
  trace_external_hash = "";
  tx_hashes = [];
  value = none;
  amount = none;
  start_lt = some 1;
  end_lt = some 2;
  start_utime = some 3;
  end_utime = some 4;
  trace_end_lt = none;
  trace_end_utime = none;
  trace_start_lt = none;
  trace_mc_seqno_end = none;
  source = none;
  source_secondary = none;
  destination = none;
  destination_secondary = none;
  asset = none;
  asset_secondary = none;
  asset2 = none;
  asset2_secondary = none;
  opcode = none;
  success = false;
  ton_transfer_data = none;
  jetton_transfer_data = none;
  nft_transfer_data = none;
  jetton_swap_data = none;
  change_dns_record_data = none;
  nft_mint_data = none;
  dex_deposit_liquidity_data = none;
  dex_withdraw_liquidity_data = none;
  staking_data = none;
}

abbrev pub codec : Codec
codec = record {
  unmarshal_node = λ d. if str_eq d "root" then ok root else ok leaf;
  unmarshal_actions = λ d. ok (action ∷ []);
  cell_hash = λ bytes. ok (4 ∷ 5 ∷ 6 ∷ []);
}

abbrev pub others : GoMap String
others = ("root_node", "r") ∷ ("AQID", "child") ∷ ("actions", "acts") ∷ []

abbrev pub fields : GoMap String
fields = ("r", "root") ∷ others

abbrev pub weight : String → ℕ
weight key = if str_eq "r" key then 2 else 1

IsLeafData : String → Type 0
IsLeafData d = str_eq d "root" ≡ false

abbrev pub Given : (String → Type 0) → Option String → Type 0
Given P none = Unit
Given P (some d) = P d

lookup-Given :
    (P : String → Type 0) (key : String) (m : GoMap String)
    → All (λ entry. P entry.1) m
    → Given P (lookup key m)
unfolding lookup
lookup-Given P key [] p = tt
lookup-Given P key ((k, v) ∷ m) p = elim (Bool-cases (str_eq k key)) [
  | inl e ↦ rw e p.0
  | inr e ↦ rw e (lookup-Given P key m p.1)
]

-- The weight of a key is above that of the messages of its node.
abbrev pub Outweighs : String → TraceNode → Type 0
Outweighs key n = suc (total weight (next_keys fields n.transaction.out_msgs)) ≤ weight key

leaf-Outweighs : (key : String) → Outweighs key leaf
unfolding total next_keys
leaf-Outweighs key = ground arith

root-Outweighs : (key : String) → str_eq "r" key ≡ true → Outweighs key root
unfolding total next_keys lookup encode_to_string
root-Outweighs key e = rw e (omega arith)

decoded-Outweighs :
    (key d : String) → Given IsLeafData (some d) → IfOk (Outweighs key) (codec.unmarshal_node d)
unfolding IsLeafData
decoded-Outweighs key d e = rw e (leaf-Outweighs key)

pub fields-IsWeighed : IsWeighed codec fields weight
unfolding IsWeighed IsLeafData lookup
fields-IsWeighed key d n found decoded =
    subst (IfOk (Outweighs key)) decoded (elim (Bool-cases (str_eq "r" key)) [
      | inl e ↦ elim (Bool-cases (str_eq d "root")) [
        | inl f ↦ rw f (root-Outweighs key e)
        | inr f ↦ rw f (leaf-Outweighs key)
      ]
      | inr e ↦ decoded-Outweighs key d (
          subst (Given IsLeafData) (rw e at found)
            (lookup-Given IsLeafData key others (refl, (refl, (refl, tt)))))
    ])

pub fields-enough : (k : String) → lookup "root_node" fields ≡ some k → weight k < 3
fields-enough k e = ground arith

-- IsComplete, IsReady
pub leaf-IsReady : IsReady leaf
unfolding ComputeFits
leaf-IsReady = record {
  complete = record {
    storage = (storage, refl);
    compute = refl;
    bounce = λ p e. absurd (ground (arith, e));
  };
  in_msg = (message, refl);
}

pub root-IsReady : IsReady root
unfolding ComputeFits
root-IsReady = record {
  complete = record {
    storage = (storage, refl);
    compute = refl;
    bounce = λ p e. absurd (ground (arith, e));
  };
  in_msg = (message, refl);
}

decoded-IsReady : (d : String) → IfOk IsReady (codec.unmarshal_node d)
decoded-IsReady d = elim (Bool-cases (str_eq d "root")) [
  | inl e ↦ rw e root-IsReady
  | inr e ↦ rw e leaf-IsReady
]

pub action-HasTimes : HasTimes action
action-HasTimes = record {
  start_lt = (1, refl);
  end_lt = (2, refl);
  start_utime = (3, refl);
  end_utime = (4, refl);
}

codec-IsSafe : (m : GoMap String) → IsSafe codec m
codec-IsSafe m = record {
  nodes = λ key d n found e. subst (IfOk IsReady) e (decoded-IsReady d);
  actions = λ d l found e. subst (IfOk (All HasTimes)) e (action-HasTimes, tt);
}

abbrev pub raw_data : GoMap (GoMap String)
raw_data = ("r", fields) ∷ []

abbrev pub context : EmulatedTracesContext
context = record {
  emulated_traces = [];
  emulated_actions = [];
  emulated_transactions_raw = [];
  emulated_transactions = [];
  emulated_message_contents = [];
  emulated_message_init_states = [];
  emulated_messages = [];
  trace_keys = [];
  tx_hash_trace_external_hash = [];
  emulated_only = true;
}

nothing-IsWalkable : IsWalkable codec 3 []
unfolding IsWeighed lookup
nothing-IsWalkable = record {
  weight = weight;
  weighed = λ key d n e. absurd (ground (arith, e));
  enough = λ k e. absurd (ground (arith, e));
}

fields-IsWalkable : IsWalkable codec 3 fields
fields-IsWalkable = record { weight = weight; weighed = fields-IsWeighed; enough = fields-enough }

pub context-IsWalkable :
    (key : String)
    → IsWalkable codec 3 (elim (lookup key (insert_all raw_data [])) [ none ↦ [] | some m ↦ m ])
      × IsSafe codec (elim (lookup key (insert_all raw_data [])) [ none ↦ [] | some m ↦ m ])
unfolding lookup insert_all insert
context-IsWalkable key = elim (Bool-cases (str_eq "r" key)) [
  | inl e ↦ rw e (fields-IsWalkable, codec-IsSafe fields)
  | inr e ↦ rw e (nothing-IsWalkable, codec-IsSafe [])
]

pub context-OnlyEmulated : OnlyEmulated context
context-OnlyEmulated = λ only. tt
