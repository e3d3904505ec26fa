-- ===== src/Index/Emulated/Messages/Laws.antt =====
-- GetMessages of ton-index-go/index/emulated/models.go: what it gives for a node whose BOCs are
-- good.
use ton_indexer.Prelude.{
  ℕ, ◌≡◌, refl, sym, ap, ◌∙◌, String, true, Option, none, some, List, [], ◌∷◌, ◌++◌, map,
  append_assoc, append-nil, ok, arith, All, All-append, All-imp, Option-cases, inl, inr, IsOk,
  is_ok, Yields-and_then, Yields-at, Yields, yields, eq_iff,
}
use ton_indexer.Prelude.GoMap.{GoMap, insert, lookup, lookup-insert}
use ton_indexer.Prelude.Base64.{encode_to_string}
use ton_indexer.Index.Emulated.Models.{TraceNode, TrMessage}
use ton_indexer.Index.Emulated.Convert.{Codec, has}
use ton_indexer.Index.Emulated.Rows.{MessageRow, MessageContentRow}
use ton_indexer.Index.Emulated.Messages.{
  Gathered, calc_hash, message_row, with_init_state, get_message_row, add_message, add_out_messages,
  put_state, get_messages, start_gathered,
}

abbrev pub hash_of : TrMessage → String
hash_of m = encode_to_string m.hash

has-insert :
    {V : Type 0} (key other : String) (v : V) (m : GoMap V)
    → has (lookup other m) ≡ true
    → has (lookup other (insert key v m)) ≡ true
has-insert key other v m h = ground (arith, lookup-insert key other v m)

has-insert-same :
    {V : Type 0} (key : String) (v : V) (m : GoMap V) → has (lookup key (insert key v m)) ≡ true
has-insert-same key v m = ground (arith, lookup-insert key key v m, eq_iff key key)

map-append {ℓ κ} :
    {A : Type ℓ} {B : Type κ} (f : A → B) (xs : List A) (y : A)
    → map f (xs ++ y ∷ []) ≡ map f xs ++ f y ∷ []
map-append f [] y = refl
map-append f (x ∷ xs) y = ap (◌∷◌ (f x)) (map-append f xs y)

module _ (codec : Codec) where
  unfoldable pub IsGood : String → Type 0
  IsGood boc = (h : String) × (calc_hash codec boc ≡ ok h)

  -- The body of the message, and its init state if there is one, are cells.
  pub record IsHashable (m : TrMessage) : Type 0 where
    pub body : IsGood m.body_boc
    pub init_state : (boc : String) → m.init_state_boc ≡ some boc → IsGood boc

  pub record IsRowOf (n : TraceNode) (row : MessageRow) : Type 0 where
    pub same_hash : row.tx_hash ≡ encode_to_string n.transaction.hash
    pub same_lt : row.tx_lt ≡ n.transaction.lt
    pub same_trace : row.trace_id ≡ some n.key

  -- The rows are those of the messages, in order, and each has its content.
  pub record GathersFrom (n : TraceNode) (ms : List TrMessage) (g : Gathered) : Type 0 where
    pub hashes : map (λ row. row.msg_hash) g.messages ≡ map hash_of ms
    pub rows : All (IsRowOf n) g.messages
    pub contents : All (λ row. has (lookup row.msg_hash g.message_contents) ≡ true) g.messages

  grow :
      (n : TraceNode) (m : TrMessage) (ms : List TrMessage) (g : Gathered) (row : MessageRow)
      (content : MessageContentRow) (states : GoMap MessageContentRow)
      → row.msg_hash ≡ hash_of m
      → IsRowOf n row
      → GathersFrom n ms g
      → GathersFrom n (ms ++ m ∷ []) (record {
        messages = g.messages ++ row ∷ [];
        message_contents = insert row.msg_hash content g.message_contents;
        init_states = states;
      })
  grow n m ms g row content states h r inv = record {
    hashes =
        map-append _ g.messages row
        ∙ ap (λ hs. hs ++ row.msg_hash ∷ []) inv.hashes
        ∙ ap (λ x. map hash_of ms ++ x ∷ []) h
        ∙ sym (map-append hash_of ms m);
    rows = All-append (IsRowOf n) g.messages _ inv.rows (r, tt);
    contents =
        All-append _ g.messages _
          (All-imp _ _ g.messages (λ other. has-insert row.msg_hash other.msg_hash content _)
            inv.contents)
          (has-insert-same row.msg_hash content _, tt);
  }

  pub IsMade : TrMessage → String → String → ℕ → String → Type 0
  IsMade m trace_id direction tx_lt tx_hash =
      (h : String) × (state_hash : Option String) × (state : Option MessageContentRow)
      × (get_message_row codec m trace_id direction tx_lt tx_hash
          ≡ ok (record {
            row = message_row m trace_id direction tx_lt tx_hash h state_hash;
            body = some (record { hash = h; body = some m.body_boc });
            init_state = state;
          }))
      × ((g : GoMap MessageContentRow)
          → (states : GoMap MessageContentRow) × (put_state state state_hash g ≡ some states))

  get_message_row-IsMade :
      (m : TrMessage) (trace_id direction : String) (tx_lt : ℕ) (tx_hash : String)
      → IsHashable m
      → IsMade m trace_id direction tx_lt tx_hash
  unfolding IsMade get_message_row with_init_state IsGood message_row
  get_message_row-IsMade m trace_id direction tx_lt tx_hash good =
      let (h, e) = good.body in
      elim (Option-cases m.init_state_boc) [
        | inl n ↦
            (h, none, none, rw (e, get_message_row) (rw (n, with_init_state) refl), λ g. (g, refl))
        | inr (boc, b) ↦
            let (h', e') = good.init_state boc b in
            (
              h,
              some h',
              some (record { hash = h; body = some boc }),
              rw (e, get_message_row) (rw (b, with_init_state) (rw (e', with_init_state) refl)),
              λ g. (_, refl),
            )
      ]

  add_message-GathersFrom :
      (n : TraceNode) (direction : String) (m : TrMessage) (ms : List TrMessage) (g : Gathered)
      → IsHashable m
      → GathersFrom n ms g
      → Yields (IsOk (GathersFrom n (ms ++ m ∷ []))) (add_message codec n direction m g)
  unfolding add_message IsMade message_row
  add_message-GathersFrom n direction m ms g good inv =
      let (h, state_hash, state, e, stored) =
        get_message_row-IsMade m n.key direction n.transaction.lt
          (encode_to_string n.transaction.hash) good in
      let (states, p) = stored g.init_states in
      rw e (
        rw p (
          yields (
            is_ok (
              grow n m ms g _ _ states refl
                (record { same_hash = refl; same_lt = refl; same_trace = refl }) inv))))

  add_out_messages-GathersFrom :
      (n : TraceNode) (out_msgs ms : List TrMessage) (g : Gathered)
      → All IsHashable out_msgs
      → GathersFrom n ms g
      → Yields (IsOk (GathersFrom n (ms ++ out_msgs))) (add_out_messages codec n out_msgs g)
  unfolding add_out_messages
  add_out_messages-GathersFrom n [] ms g good inv = yields (is_ok (rw (append-nil ms) inv))
  add_out_messages-GathersFrom n (m ∷ out_msgs) ms g good inv =
      Yields-and_then (add_message-GathersFrom n "out" m ms g good.0 inv) λ g' inv'.
        rw (append_assoc ms (m ∷ []) out_msgs) at
          (add_out_messages-GathersFrom n out_msgs (ms ++ m ∷ []) g' good.1 inv')

  All-split :
      (P : TrMessage → Type 0) (xs : List TrMessage) (y : TrMessage)
      → All P (xs ++ y ∷ [])
      → All P xs × P y
  All-split P [] y p = (tt, p.0)
  All-split P (x ∷ xs) y p = let (q, r) = All-split P xs y p.1 in ((p.0, q), r)

  -- For a node that has an incoming message, when the bodies and init states of its messages are
  -- cells, GetMessages succeeds: it gives one row for each outgoing message, in order, and then one
  -- for the incoming message, each with the message's hash, the transaction's hash and logical time
  -- and the node's key as trace id; there is a content under the hash of each row; and no init
  -- state is given, though messages may have one.
  pub get_messages_correct :
      (n : TraceNode) (m : TrMessage)
      → n.transaction.in_msg ≡ some m
      → All IsHashable (n.transaction.out_msgs ++ m ∷ [])
      → Yields
          (IsOk (λ g. GathersFrom n (n.transaction.out_msgs ++ m ∷ []) g × (g.init_states ≡ [])))
          (get_messages codec n)
  unfolding get_messages
  get_messages_correct n m e good =
      let (outs, last) = All-split IsHashable n.transaction.out_msgs m good in
      Yields-and_then
        (add_out_messages-GathersFrom n n.transaction.out_msgs [] start_gathered outs
          (record { hashes = refl; rows = tt; contents = tt }))
        λ g inv. Yields-at _ e (
          Yields-and_then (add_message-GathersFrom n "in" m _ g last inv) λ g' inv'. yields (
            is_ok
              (record { hashes = inv'.hashes; rows = inv'.rows; contents = inv'.contents }, refl)))
