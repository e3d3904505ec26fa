-- ===== src/Index/Emulated/Transactions.antt =====
-- GetTransactionRow of ton-index-go/index/emulated/models.go. An outer `none` is a panic.
pub mod Laws
use ton_indexer.Prelude.{
  ℕ, zero, suc, String, Bool, true, false, Option, none, some, List, [], ◌∷◌, Result, ok, err,
  ◌>>=◌, and_then, if◌then◌else◌, ◌==◌,
}
use mathlib.Core.Option
use ton_indexer.Prelude.Int.{ℤ, pos, negsuc}
use ton_indexer.Prelude.Base64.{encode_to_string}
use ton_indexer.Index.Emulated.Models.{
  AccountStatus, AccStatusChange, ComputeSkipReason, TraceNode, TrStoragePhase, TrActionPhase,
  TrComputePhaseSkipped, TrComputePhaseVm, ComputePhaseVar, BouncePhaseVar, ComputeData, BounceData,
  nil_compute, skipped_data, vm_data, nil_bounce, negfunds_data, nofunds_data, ok_data,
}
use ton_indexer.Index.Emulated.Rows.{TransactionRow}

pub data StatusError : Type 0 where
  unknown_account_status : ℤ → StatusError
  unknown_status_change : ℤ → StatusError
  unknown_skip_reason : ℤ → StatusError

unfoldable pub account_status_str : AccountStatus → Result StatusError String
account_status_str (pos zero) = ok "uninit"
account_status_str (pos (suc zero)) = ok "frozen"
account_status_str (pos (suc (suc zero))) = ok "active"
account_status_str (pos (suc (suc (suc zero)))) = ok "nonexist"
account_status_str d = err (unknown_account_status d)

unfoldable pub status_change_str : AccStatusChange → Result StatusError String
status_change_str (pos zero) = ok "unchanged"
status_change_str (pos (suc zero)) = ok "frozen"
status_change_str (pos (suc (suc zero))) = ok "deleted"
status_change_str d = err (unknown_status_change d)

unfoldable pub skip_reason_str : ComputeSkipReason → Result StatusError String
skip_reason_str (pos zero) = ok "no_state"
skip_reason_str (pos (suc zero)) = ok "bad_state"
skip_reason_str (pos (suc (suc zero))) = ok "no_gas"
skip_reason_str (pos (suc (suc (suc zero)))) = ok "suspended"
skip_reason_str d = err (unknown_skip_reason d)

-- The row as it is first made; the columns that are set later are nil.
unfoldable pub first_row : TraceNode → TrStoragePhase → String → String → String → TransactionRow
first_row n storage orig_status end_status storage_status_change = record {
  account = n.transaction.account;
  hash = encode_to_string n.transaction.hash;
  lt = n.transaction.lt;
  block_workchain = some n.block_id.workchain;
  block_shard = some n.block_id.shard;
  block_seqno = some n.block_id.seqno;
  mc_block_seqno = some n.mc_block_seqno;
  trace_id = n.trace_id;
  prev_trans_hash = some (encode_to_string n.transaction.prev_trans_hash);
  prev_trans_lt = some n.transaction.prev_trans_lt;
  now = some n.transaction.now;
  orig_status = some orig_status;
  end_status = some end_status;
  total_fees = some n.transaction.total_fees;
  total_fees_extra_currencies = [];
  account_state_hash_before = some (encode_to_string n.transaction.account_state_hash_before);
  account_state_hash_after = some (encode_to_string n.transaction.account_state_hash_after);
  descr = some "ord";
  aborted = some n.transaction.description.aborted;
  destroyed = some n.transaction.description.destroyed;
  credit_first = some n.transaction.description.credit_first;
  is_tock = some false;
  installed = some false;
  storage_fees_collected = some storage.storage_fees_collected;
  storage_fees_due = storage.storage_fees_due;
  storage_status_change = some storage_status_change;
  credit_due_fees_collected = n.transaction.description.credit_ph >>= λ p. p.due_fees_collected;
  credit = Option.map (λ p. p.credit) n.transaction.description.credit_ph;
  credit_extra_currencies = [];
  compute_skipped = none;
  skipped_reason = none;
  compute_success = none;
  compute_msg_state_used = none;
  compute_account_activated = none;
  compute_gas_fees = none;
  compute_gas_used = none;
  compute_gas_limit = none;
  compute_gas_credit = none;
  compute_mode = none;
  compute_exit_code = none;
  compute_exit_arg = none;
  compute_vm_steps = none;
  compute_vm_init_state_hash = none;
  compute_vm_final_state_hash = none;
  action_success = none;
  action_valid = none;
  action_no_funds = none;
  action_status_change = none;
  action_total_fwd_fees = none;
  action_total_action_fees = none;
  action_result_code = none;
  action_result_arg = none;
  action_tot_actions = none;
  action_spec_actions = none;
  action_skipped_actions = none;
  action_msgs_created = none;
  action_action_list_hash = none;
  action_tot_msg_size_cells = none;
  action_tot_msg_size_bits = none;
  bounce = none;
  bounce_msg_size_cells = none;
  bounce_msg_size_bits = none;
  bounce_req_fwd_fees = none;
  bounce_msg_fees = none;
  bounce_fwd_fees = none;
  split_info_cur_shard_pfx_len = none;
  split_info_acc_split_depth = none;
  split_info_this_addr = none;
  split_info_sibling_addr = none;
  emulated = n.emulated;
}

-- The compute phase.
unfoldable pub set_compute :
    ComputePhaseVar → TransactionRow → Option (Result StatusError TransactionRow)
set_compute phase row = if phase.kind == 0 then skipped phase.payload else executed phase.payload
  where
    skipped : ComputeData → Option (Result StatusError TransactionRow)
    skipped (skipped_data p) = and_then (skip_reason_str p.reason) λ reason.
        some (ok (record row { compute_skipped = some true; skipped_reason = some reason }))
    skipped p = none

    executed : ComputeData → Option (Result StatusError TransactionRow)
    executed (vm_data vm) = some (
        ok (record row {
          compute_skipped = some false;
          compute_success = some vm.success;
          compute_msg_state_used = some vm.msg_state_used;
          compute_account_activated = some vm.account_activated;
          compute_gas_fees = some vm.gas_fees;
          compute_gas_used = some vm.gas_used;
          compute_gas_limit = some vm.gas_limit;
          compute_gas_credit = vm.gas_credit;
          compute_mode = some vm.mode;
          compute_exit_code = some vm.exit_code;
          compute_exit_arg = vm.exit_arg;
          compute_vm_steps = some vm.vm_steps;
          compute_vm_init_state_hash = some (encode_to_string vm.vm_init_state_hash);
          compute_vm_final_state_hash = some (encode_to_string vm.vm_final_state_hash);
        }))
    executed p = none

-- The action phase.
unfoldable pub set_action :
    Option TrActionPhase → TransactionRow → Option (Result StatusError TransactionRow)
set_action none row = some (ok row)
set_action (some p) row = and_then (status_change_str p.status_change) λ status. some (
    ok (record row {
      action_success = some p.success;
      action_valid = some p.valid;
      action_no_funds = some p.no_funds;
      action_status_change = some status;
      action_total_fwd_fees = p.total_fwd_fees;
      action_total_action_fees = p.total_action_fees;
      action_result_code = p.result_code;
      action_result_arg = p.result_arg;
      action_tot_actions = p.tot_actions;
      action_spec_actions = p.spec_actions;
      action_skipped_actions = p.skipped_actions;
      action_msgs_created = p.msgs_created;
      action_action_list_hash = some (encode_to_string p.action_list_hash);
      action_tot_msg_size_cells = some p.tot_msg_size.cells;
      action_tot_msg_size_bits = some p.tot_msg_size.bits;
    }))

-- The bounce phase.
unfoldable pub set_bounce :
    Option BouncePhaseVar → TransactionRow → Option (Result StatusError TransactionRow)
set_bounce none row = some (ok row)
set_bounce (some phase) row =
    if phase.kind == 0
    then some (ok (record row { bounce = some "negfunds" }))
    else if phase.kind == 1
    then nofunds phase.payload
    else bounced phase.payload
  where
    nofunds : BounceData → Option (Result StatusError TransactionRow)
    nofunds (nofunds_data p) = some (
        ok (record row {
          bounce = some "nofunds";
          bounce_msg_size_cells = some p.msg_size.cells;
          bounce_msg_size_bits = some p.msg_size.bits;
          bounce_req_fwd_fees = some p.req_fwd_fees;
        }))
    nofunds p = none

    bounced : BounceData → Option (Result StatusError TransactionRow)
    bounced (ok_data p) = some (
        ok (record row {
          bounce = some "ok";
          bounce_msg_size_cells = some p.msg_size.cells;
          bounce_msg_size_bits = some p.msg_size.bits;
          bounce_msg_fees = some p.msg_fees;
          bounce_fwd_fees = some p.fwd_fees;
        }))
    bounced p = none

unfoldable pub get_transaction_row : TraceNode → Option (Result StatusError TransactionRow)
get_transaction_row n = and_then (account_status_str n.transaction.orig_status) λ orig_status.
    and_then (account_status_str n.transaction.end_status) λ end_status.
      n.transaction.description.storage_ph >>= λ storage.
      and_then (status_change_str storage.status_change) λ storage_status_change.
        set_compute n.transaction.description.compute_ph
          (first_row n storage orig_status end_status storage_status_change)
        >>= λ computed. and_then computed λ row.
          set_action n.transaction.description.action row >>= λ acted.
          and_then acted λ row'. set_bounce n.transaction.description.bounce row'
