-- ===== src/Index/Emulated/Messages/Total.antt =====
-- GetMessages of ton-index-go/index/emulated/models.go: its panics.
use ton_indexer.Prelude.{
  ℕ, ◌≡◌, refl, String, some, List, [], ◌∷◌, Result-cases, Option-cases, inl, inr, IfOk, IfOk-then,
  IfOk-bind, Yields, yields, Yields-at,
}
use ton_indexer.Prelude.GoMap.{GoMap}
use ton_indexer.Prelude.Base64.{encode_to_string}
use ton_indexer.Index.Emulated.Models.{TraceNode, TrMessage}
use ton_indexer.Index.Emulated.Convert.{Codec}
use ton_indexer.Index.Emulated.Rows.{MessageContentRow}
use ton_indexer.Index.Emulated.Messages.{
  Gathered, MessageParts, put_state, calc_hash, message_row, with_init_state, get_message_row,
  add_message, add_out_messages, get_messages, start_gathered,
}

-- An init state comes with the hash that it is put under.
pub Stores : MessageParts → Type 0
Stores parts =
    (g : GoMap MessageContentRow)
    → (states : GoMap MessageContentRow) × (put_state parts.init_state parts.row.init_state_hash g
        ≡ some states)

abbrev AnyGathered : Gathered → Type 0
AnyGathered g = Unit

module _ (codec : Codec) where
  with_init_state-Stores :
      (m : TrMessage) (trace_id direction : String) (tx_lt : ℕ) (tx_hash body_hash : String)
      → IfOk Stores (with_init_state codec m trace_id direction tx_lt tx_hash body_hash)
  unfolding with_init_state Stores message_row
  with_init_state-Stores m trace_id direction tx_lt tx_hash body_hash =
      elim (Option-cases m.init_state_boc) [
        | inl n ↦ rw (n, with_init_state) (λ g. (g, refl))
        | inr (boc, b) ↦ elim (Result-cases (calc_hash codec boc)) [
          | inl (e, p) ↦ rw (b, with_init_state) (rw (p, with_init_state) tt)
          | inr (h, p) ↦ rw (b, with_init_state) (rw (p, with_init_state) (λ g. (_, refl)))
        ]
      ]

  get_message_row-Stores :
      (m : TrMessage) (trace_id direction : String) (tx_lt : ℕ) (tx_hash : String)
      → IfOk Stores (get_message_row codec m trace_id direction tx_lt tx_hash)
  unfolding get_message_row
  get_message_row-Stores m trace_id direction tx_lt tx_hash =
      elim (Result-cases (calc_hash codec m.body_boc)) [
        | inl (e, p) ↦ rw (p, get_message_row) tt
        | inr (h, p) ↦
            rw (p, get_message_row) (with_init_state-Stores m trace_id direction tx_lt tx_hash h)
      ]

  add_message_total :
      (n : TraceNode) (direction : String) (m : TrMessage) (g : Gathered)
      → Yields (IfOk AnyGathered) (add_message codec n direction m g)
  unfolding add_message Stores
  add_message_total n direction m g =
      IfOk-then
        (get_message_row codec m n.key direction n.transaction.lt
          (encode_to_string n.transaction.hash))
        (get_message_row-Stores m n.key direction n.transaction.lt
          (encode_to_string n.transaction.hash))
        λ parts stores. Yields-at _ (stores g.init_states).1 (yields tt)

  add_out_messages_total :
      (n : TraceNode) (out_msgs : List TrMessage) (g : Gathered)
      → Yields (IfOk AnyGathered) (add_out_messages codec n out_msgs g)
  unfolding add_out_messages
  add_out_messages_total n [] g = yields tt
  add_out_messages_total n (m ∷ out_msgs) g =
      IfOk-bind (add_message_total n "out" m g) λ g' t. add_out_messages_total n out_msgs g'

  pub get_messages_total :
      (n : TraceNode) (m : TrMessage)
      → n.transaction.in_msg ≡ some m
      → Yields (IfOk AnyGathered) (get_messages codec n)
  unfolding get_messages
  get_messages_total n m e =
      IfOk-bind (add_out_messages_total n n.transaction.out_msgs start_gathered)
        λ g t. Yields-at _ e (IfOk-bind (add_message_total n "in" m g) λ g' t'. yields tt)
