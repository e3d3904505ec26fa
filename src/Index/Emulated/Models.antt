-- ===== src/Index/Emulated/Models.antt =====
-- The nodes of a trace in ton-index-go/index/emulated/models.go: transactions and their phases.
-- A status is the number the message holds. The two variants keep their tag beside the value, which
-- an `interface{}` may hold of any type.
use ton_indexer.Prelude.{ℕ, String, Bool, Option, List}
use ton_indexer.Prelude.Int.{ℤ}

-- hash [32]byte
abbrev pub Hash : Type 0
Hash = List ℕ

abbrev pub AccountStatus : Type 0
AccountStatus = ℤ

abbrev pub AccStatusChange : Type 0
AccStatusChange = ℤ

abbrev pub ComputeSkipReason : Type 0
ComputeSkipReason = ℤ

pub record TrStoragePhase : Type 0 where
  pub storage_fees_collected : ℕ
  pub storage_fees_due : Option ℕ
  pub status_change : AccStatusChange

pub record TrCreditPhase : Type 0 where
  pub due_fees_collected : Option ℕ
  pub credit : ℕ

pub record TrComputePhaseSkipped : Type 0 where
  pub reason : ComputeSkipReason

pub record TrComputePhaseVm : Type 0 where
  pub success : Bool
  pub msg_state_used : Bool
  pub account_activated : Bool
  pub gas_fees : ℕ
  pub gas_used : ℕ
  pub gas_limit : ℕ
  pub gas_credit : Option ℕ
  pub mode : ℤ
  pub exit_code : ℤ
  pub exit_arg : Option ℤ
  pub vm_steps : ℕ
  pub vm_init_state_hash : Hash
  pub vm_final_state_hash : Hash

pub record StorageUsedShort : Type 0 where
  pub cells : ℕ
  pub bits : ℕ

pub record TrActionPhase : Type 0 where
  pub success : Bool
  pub valid : Bool
  pub no_funds : Bool
  pub status_change : AccStatusChange
  pub total_fwd_fees : Option ℕ
  pub total_action_fees : Option ℕ
  pub result_code : Option ℤ
  pub result_arg : Option ℤ
  pub tot_actions : Option ℕ
  pub spec_actions : Option ℕ
  pub skipped_actions : Option ℕ
  pub msgs_created : Option ℕ
  pub action_list_hash : Hash
  pub tot_msg_size : StorageUsedShort

pub record TrBouncePhaseNegfunds : Type 0 where
  pub dummy : Bool

pub record TrBouncePhaseNofunds : Type 0 where
  pub msg_size : StorageUsedShort
  pub req_fwd_fees : ℕ

pub record TrBouncePhaseOk : Type 0 where
  pub msg_size : StorageUsedShort
  pub msg_fees : ℕ
  pub fwd_fees : ℕ

pub record TrMessage : Type 0 where
  pub hash : Hash
  pub source : Option String
  pub destination : Option String
  pub value : Option ℕ
  pub fwd_fee : Option ℕ
  pub ihr_fee : Option ℕ
  pub created_lt : Option ℕ
  pub created_at : Option ℕ
  pub opcode : Option ℤ
  pub ihr_disabled : Option Bool
  pub bounce : Option Bool
  pub bounced : Option Bool
  pub import_fee : Option ℕ
  pub body_boc : String
  pub init_state_boc : Option String
  pub hash_norm : Option Hash

pub data ComputeData : Type 0 where
  nil_compute : ComputeData
  skipped_data : TrComputePhaseSkipped → ComputeData
  vm_data : TrComputePhaseVm → ComputeData

pub record ComputePhaseVar : Type 0 where
  pub kind : ℕ
  pub payload : ComputeData

pub data BounceData : Type 0 where
  nil_bounce : BounceData
  negfunds_data : TrBouncePhaseNegfunds → BounceData
  nofunds_data : TrBouncePhaseNofunds → BounceData
  ok_data : TrBouncePhaseOk → BounceData

pub record BouncePhaseVar : Type 0 where
  pub kind : ℕ
  pub payload : BounceData

pub record TransactionDescr : Type 0 where
  pub credit_first : Bool
  pub storage_ph : Option TrStoragePhase
  pub credit_ph : Option TrCreditPhase
  pub compute_ph : ComputePhaseVar
  pub action : Option TrActionPhase
  pub aborted : Bool
  pub bounce : Option BouncePhaseVar
  pub destroyed : Bool

pub record Transaction : Type 0 where
  pub hash : Hash
  pub account : String
  pub lt : ℕ
  pub prev_trans_hash : Hash
  pub prev_trans_lt : ℕ
  pub now : ℕ
  pub orig_status : AccountStatus
  pub end_status : AccountStatus
  pub in_msg : Option TrMessage
  pub out_msgs : List TrMessage
  pub total_fees : ℕ
  pub account_state_hash_before : Hash
  pub account_state_hash_after : Hash
  pub description : TransactionDescr

pub record BlockId : Type 0 where
  pub workchain : ℤ
  pub shard : ℕ
  pub seqno : ℕ

pub record TraceNode : Type 0 where
  pub transaction : Transaction
  pub emulated : Bool
  pub block_id : BlockId
  pub mc_block_seqno : ℕ
  pub trace_id : Option String
  pub key : String
