-- ===== src/Index/Emulated/Messages.antt =====
-- GetMessageRow and GetMessages of ton-index-go/index/emulated/models.go. An outer `none` is a
-- panic.
pub mod Laws
pub mod Total
use ton_indexer.Prelude.{
  ℕ, String, Bool, true, false, Option, none, some, List, [], ◌∷◌, ◌++◌, Result, ok, err, ◌>>=◌,
  and_then, IsOk, is_ok, Yields-and_then,
}
use mathlib.Core.Option
use ton_indexer.Prelude.GoMap.{GoMap, insert}
use ton_indexer.Prelude.Base64.{encode_to_string, decode_string}
use ton_indexer.Index.Emulated.Models.{TraceNode, TrMessage}
use ton_indexer.Index.Emulated.Convert.{Codec}
use ton_indexer.Index.Emulated.Rows.{MessageRow, MessageContentRow}

pub data HashError : Type 0 where
  corrupt_input : String → HashError
  bad_boc : String → HashError

-- What GetMessages collects.
pub record Gathered : Type 0 where
  pub messages : List MessageRow
  pub message_contents : GoMap MessageContentRow
  pub init_states : GoMap MessageContentRow

-- What GetMessageRow returns beside an error.
pub record MessageParts : Type 0 where
  pub row : MessageRow
  pub body : Option MessageContentRow
  pub init_state : Option MessageContentRow

unfoldable pub message_row :
    TrMessage → String → String → ℕ → String → String → Option String → MessageRow
message_row m trace_id direction tx_lt tx_hash body_hash init_state_hash = record {
  tx_hash = tx_hash;
  tx_lt = tx_lt;
  msg_hash = encode_to_string m.hash;
  direction = direction;
  trace_id = some trace_id;
  source = m.source;
  destination = m.destination;
  value = m.value;
  value_extra_currencies = [];
  fwd_fee = m.fwd_fee;
  ihr_fee = m.ihr_fee;
  created_lt = m.created_lt;
  created_at = m.created_at;
  opcode = m.opcode;
  ihr_disabled = m.ihr_disabled;
  bounce = m.bounce;
  bounced = m.bounced;
  import_fee = m.import_fee;
  body_hash = some body_hash;
  init_state_hash = init_state_hash;
  msg_hash_norm = Option.map encode_to_string m.hash_norm;
}

-- messageContents[hash] = *body, if the body is there
abbrev pub put :
    Option MessageContentRow → String → GoMap MessageContentRow → GoMap MessageContentRow
put none key m = m
put (some content) key m = insert key content m

-- initStates[*hash] = *initState, if the state is there
abbrev pub put_state :
    Option MessageContentRow
    → Option String
    → GoMap MessageContentRow
    → Option (GoMap MessageContentRow)
put_state none key m = some m
put_state (some content) none m = none
put_state (some content) (some key) m = some (insert key content m)

abbrev pub start_gathered : Gathered
start_gathered = record { messages = []; message_contents = []; init_states = [] }

module _ (codec : Codec) where
  unfoldable pub calc_hash : String → Result HashError String
  calc_hash boc = elim (decode_string boc) [
    | none ↦ err (corrupt_input boc)
    | some decoded_body ↦ elim (codec.cell_hash decoded_body) [
      | err e ↦ err (bad_boc e)
      | ok hash ↦ ok (encode_to_string hash)
    ]
  ]

  -- After the body's hash.
  unfoldable pub with_init_state :
      TrMessage → String → String → ℕ → String → String → Result HashError MessageParts
  with_init_state m trace_id direction tx_lt tx_hash body_hash = elim m.init_state_boc [
    | none ↦ ok (record {
      row = message_row m trace_id direction tx_lt tx_hash body_hash none;
      body = some (record { hash = body_hash; body = some m.body_boc });
      init_state = none;
    })
    | some boc ↦ elim (calc_hash boc) [
      | err e ↦ err e
      | ok h ↦ ok (record {
        row = message_row m trace_id direction tx_lt tx_hash body_hash (some h);
        body = some (record { hash = body_hash; body = some m.body_boc });
        init_state = some (record { hash = body_hash; body = some boc });
      })
    ]
  ]

  unfoldable pub get_message_row :
      TrMessage → String → String → ℕ → String → Result HashError MessageParts
  get_message_row m trace_id direction tx_lt tx_hash = elim (calc_hash m.body_boc) [
    | err e ↦ err e
    | ok body_hash ↦ with_init_state m trace_id direction tx_lt tx_hash body_hash
  ]

  -- One message of GetMessages.
  unfoldable pub add_message :
      TraceNode → String → TrMessage → Gathered → Option (Result HashError Gathered)
  add_message n direction m g =
      and_then
        (get_message_row m n.key direction n.transaction.lt (encode_to_string n.transaction.hash))
        λ parts. put_state parts.init_state parts.row.init_state_hash g.init_states >>= λ states.
          some (
            ok (record {
              messages = g.messages ++ parts.row ∷ [];
              message_contents = put parts.body parts.row.msg_hash g.message_contents;
              init_states = states;
            }))

  -- The loop over the outgoing messages.
  unfoldable pub add_out_messages :
      TraceNode → List TrMessage → Gathered → Option (Result HashError Gathered)
  add_out_messages n [] g = some (ok g)
  add_out_messages n (m ∷ out_msgs) g =
      add_message n "out" m g >>= λ added. and_then added λ g'. add_out_messages n out_msgs g'

  -- The returned map of init states is nil, whatever was collected.
  unfoldable pub get_messages : TraceNode → Option (Result HashError Gathered)
  get_messages n = add_out_messages n n.transaction.out_msgs start_gathered >>= λ gathered.
      and_then gathered λ g. n.transaction.in_msg >>= λ m. add_message n "in" m g >>= λ added.
      and_then added λ g'. some (ok (record g' { init_states = [] }))
