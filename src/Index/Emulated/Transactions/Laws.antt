-- ===== src/Index/Emulated/Transactions/Laws.antt =====
-- GetTransactionRow of ton-index-go/index/emulated/models.go: for which nodes it does not panic.
use ton_indexer.Prelude.{
  ℕ, zero, suc, ◌<◌, ◌≡◌, refl, String, Bool, Option, none, some, ok, IfOk, IfOk-and_then,
  IfOk-bind, Yields, yields, Yields-at, ◌≢◌, ◌↔◌, arith, Option-cases, Result-cases, inl, inr,
}
use ton_indexer.Prelude.Int.{pos, negsuc}
use ton_indexer.Prelude.Base64.{encode_to_string}
use ton_indexer.Index.Emulated.Models.{
  AccountStatus, TraceNode, TrStoragePhase, TrActionPhase, ComputeData, BounceData, nil_compute,
  skipped_data, vm_data, BouncePhaseVar, nil_bounce, negfunds_data, nofunds_data, ok_data,
}
use ton_indexer.Index.Emulated.Rows.{TransactionRow}
use ton_indexer.Index.Emulated.Transactions.{
  status_change_str, account_status_str, skip_reason_str, first_row, set_compute, set_action,
  set_bounce, get_transaction_row,
}

-- The value is of the type that the tag tells, as DecodeMsgpack leaves it.
unfoldable pub ComputeFits : ℕ → ComputeData → Type 0
ComputeFits kind nil_compute = ⊥
ComputeFits kind (skipped_data p) = kind ≡ 0
ComputeFits kind (vm_data p) = kind ≡ 1

unfoldable pub BounceFits : ℕ → BounceData → Type 0
BounceFits kind nil_bounce = ⊥
BounceFits kind (negfunds_data p) = kind ≡ 0
BounceFits kind (nofunds_data p) = kind ≡ 1
BounceFits kind (ok_data p) = kind ≡ 2

-- The node has a storage phase, and its variants fit.
pub record IsComplete (n : TraceNode) : Type 0 where
  pub storage : (s : TrStoragePhase) × (n.transaction.description.storage_ph ≡ some s)
  pub compute :
      ComputeFits n.transaction.description.compute_ph.kind
        n.transaction.description.compute_ph.payload
  pub bounce :
      (p : BouncePhaseVar) → n.transaction.description.bounce ≡ some p → BounceFits p.kind p.payload

-- The columns that the context of pending traces reads.
pub record Columns : Type 0 where
  pub hash : String
  pub account : String
  pub lt : ℕ
  pub now : Option ℕ
  pub mc_block_seqno : Option ℕ
  pub trace_id : Option String
  pub emulated : Bool

abbrev pub columns : TransactionRow → Columns
columns row = record {
  hash = row.hash;
  account = row.account;
  lt = row.lt;
  now = row.now;
  mc_block_seqno = row.mc_block_seqno;
  trace_id = row.trace_id;
  emulated = row.emulated;
}

abbrev pub node_columns : TraceNode → Columns
node_columns n = record {
  hash = encode_to_string n.transaction.hash;
  account = n.transaction.account;
  lt = n.transaction.lt;
  now = some n.transaction.now;
  mc_block_seqno = some n.mc_block_seqno;
  trace_id = n.trace_id;
  emulated = n.emulated;
}

abbrev pub Shows : TraceNode → TransactionRow → Type 0
Shows n row = columns row ≡ node_columns n

set_compute-Shows :
    (n : TraceNode) (k : ℕ) (payload : ComputeData) (row : TransactionRow)
    → ComputeFits k payload
    → Shows n row
    → Yields (IfOk (Shows n)) (set_compute (record { kind = k; payload = payload }) row)
unfolding set_compute ComputeFits
set_compute-Shows n k nil_compute row fits s = absurd fits
set_compute-Shows n k (skipped_data p) row fits s =
    rw fits (IfOk-and_then (skip_reason_str p.reason) λ reason. yields s)
set_compute-Shows n k (vm_data p) row fits s = rw fits (yields s)

set_action-Shows :
    (n : TraceNode) (phase : Option TrActionPhase) (row : TransactionRow)
    → Shows n row
    → Yields (IfOk (Shows n)) (set_action phase row)
unfolding set_action
set_action-Shows n none row s = yields s
set_action-Shows n (some p) row s =
    IfOk-and_then (status_change_str p.status_change) λ status. yields s

set_phase-Shows :
    (n : TraceNode) (k : ℕ) (payload : BounceData) (row : TransactionRow)
    → BounceFits k payload
    → Shows n row
    → Yields (IfOk (Shows n)) (set_bounce (some (record { kind = k; payload = payload })) row)
unfolding set_bounce BounceFits
set_phase-Shows n k nil_bounce row fits s = absurd fits
set_phase-Shows n k (negfunds_data p) row fits s = rw fits (yields s)
set_phase-Shows n k (nofunds_data p) row fits s = rw fits (yields s)
set_phase-Shows n k (ok_data p) row fits s = rw fits (yields s)

set_bounce-Shows :
    (n : TraceNode) (phase : Option BouncePhaseVar) (row : TransactionRow)
    → ((p : BouncePhaseVar) → phase ≡ some p → BounceFits p.kind p.payload)
    → Shows n row
    → Yields (IfOk (Shows n)) (set_bounce phase row)
unfolding set_bounce
set_bounce-Shows n none row fits s = yields s
set_bounce-Shows n (some p) row fits s = set_phase-Shows n p.kind p.payload row (fits p refl) s

-- GetTransactionRow does not panic on a node that has a storage phase and whose variants hold the
-- type of their tag; a row that it returns has the hash, account, times, masterchain number, trace
-- id and emulated flag of the node. It may return an error, for a status that has no name.
pub get_transaction_row-Shows :
    (n : TraceNode) → IsComplete n → Yields (IfOk (Shows n)) (get_transaction_row n)
unfolding get_transaction_row first_row
get_transaction_row-Shows n complete =
    let (storage, stored) = complete.storage in
    let d = n.transaction.description in
    IfOk-and_then (account_status_str n.transaction.orig_status) λ orig_status.
      IfOk-and_then (account_status_str n.transaction.end_status) λ end_status. Yields-at _ stored (
        IfOk-and_then (status_change_str storage.status_change) λ change.
          IfOk-bind
            (set_compute-Shows n d.compute_ph.kind d.compute_ph.payload _ complete.compute refl)
            λ row computed.
              IfOk-bind (set_action-Shows n d.action row computed)
                λ row' acted. set_bounce-Shows n d.bounce row' complete.bounce acted)

-- The status is one of the four that have names.
abbrev pub IsNamed : AccountStatus → Type 0
IsNamed status = (n : ℕ) × (status ≡ pos n) × (n < 4)

account_status_str-pos : (n : ℕ) → n < 4 → (name : String) × (account_status_str (pos n) ≡ ok name)
unfolding account_status_str
account_status_str-pos zero h = ("uninit", refl)
account_status_str-pos (suc zero) h = ("frozen", refl)
account_status_str-pos (suc (suc zero)) h = ("active", refl)
account_status_str-pos (suc (suc (suc zero))) h = ("nonexist", refl)
account_status_str-pos (suc (suc (suc (suc n)))) h = absurd (omega arith)

account_status_str-IsNamed :
    (status : AccountStatus) (name : String) → account_status_str status ≡ ok name → IsNamed status
unfolding account_status_str
account_status_str-IsNamed (pos zero) name h = (0, refl, omega arith)
account_status_str-IsNamed (pos (suc zero)) name h = (1, refl, omega arith)
account_status_str-IsNamed (pos (suc (suc zero))) name h = (2, refl, omega arith)
account_status_str-IsNamed (pos (suc (suc (suc zero)))) name h = (3, refl, omega arith)
account_status_str-IsNamed (pos (suc (suc (suc (suc n))))) name h = absurd (ground arith)
account_status_str-IsNamed (negsuc n) name h = absurd (ground arith)

IsNamed-account_status_str :
    {status : AccountStatus}
    → IsNamed status
    → (name : String) × (account_status_str status ≡ ok name)
IsNamed-account_status_str (n, e, h) = rw e (account_status_str-pos n h)

-- The variants of the node fit; it may lack a storage phase.
pub record HasFittingPhases (n : TraceNode) : Type 0 where
  pub compute :
      ComputeFits n.transaction.description.compute_ph.kind
        n.transaction.description.compute_ph.payload
  pub bounce :
      (p : BouncePhaseVar) → n.transaction.description.bounce ≡ some p → BounceFits p.kind p.payload

-- The node has no storage phase, and GetTransactionRow comes so far as to read it.
pub record LacksStorage (n : TraceNode) : Type 0 where
  pub storage : n.transaction.description.storage_ph ≡ none
  pub orig_status : IsNamed n.transaction.orig_status
  pub end_status : IsNamed n.transaction.end_status

Yields-ne_none : {A : Type 0} {P : A → Type 0} {r : Option A} → Yields P r → r ≢ none
Yields-ne_none (yields p) h = ground arith

LacksStorage-panics : (n : TraceNode) → LacksStorage n → get_transaction_row n ≡ none
unfolding get_transaction_row
LacksStorage-panics n h =
    let (orig_status, a) = IsNamed-account_status_str h.orig_status in
    let (end_status, b) = IsNamed-account_status_str h.end_status in
    rw (a, get_transaction_row)
      (rw (b, get_transaction_row) (rw (h.storage, get_transaction_row) refl))

panics-LacksStorage :
    (n : TraceNode) → HasFittingPhases n → get_transaction_row n ≡ none → LacksStorage n
unfolding get_transaction_row
panics-LacksStorage n fits panics = elim (Option-cases n.transaction.description.storage_ph) [
  | inr (s, e) ↦ absurd (
      Yields-ne_none
        (get_transaction_row-Shows n
          (record { storage = (s, e); compute = fits.compute; bounce = fits.bounce }))
        panics)
  | inl e ↦ elim (Result-cases (account_status_str n.transaction.orig_status)) [
    | inl (x, a) ↦ absurd (let q = rw (a, get_transaction_row) at panics in ground arith)
    | inr (orig_status, a) ↦ elim (Result-cases (account_status_str n.transaction.end_status)) [
      | inl (x, b) ↦ absurd (let q = rw (a, b, get_transaction_row) at panics in ground arith)
      | inr (end_status, b) ↦ record {
        storage = e;
        orig_status = account_status_str-IsNamed _ orig_status a;
        end_status = account_status_str-IsNamed _ end_status b;
      }
    ]
  ]
]

-- Of the nodes whose variants hold the type of their tag, GetTransactionRow panics on exactly those
-- that lack a storage phase and whose two account statuses have names.
pub get_transaction_row_panics :
    (n : TraceNode) → HasFittingPhases n → (get_transaction_row n ≡ none) ↔ LacksStorage n
get_transaction_row_panics n fits = (panics-LacksStorage n fits, LacksStorage-panics n)
