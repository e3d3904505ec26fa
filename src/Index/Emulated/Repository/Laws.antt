-- ===== src/Index/Emulated/Repository/Laws.antt =====
-- EmulatedTracesRepository of ton-index-go/index/emulated/repository.go: what the reads give.
use ton_indexer.Prelude.{
  ◌≡◌, refl, sym, ap, ◌∙◌, String, Bool, true, false, ◌||◌, Option, none, some, List, [], ◌∷◌, ◌++◌,
  append_assoc, append-nil, ok, str_eq, eq_iff, if◌then◌else◌, contains, Option-cases, Bool-cases,
  inl, inr, subst, arith,
}
use ton_indexer.Prelude.Text.{
  split, concat, lacks, Divides, Divides-split, split-Divides, split-whole, split-lacks,
}
use ton_indexer.Prelude.GoMap.{GoMap, lookup, lookup-insert}
use ton_indexer.Index.Emulated.Repository.{
  Reader, listed, put_fields, two_parts, add_action, action_ids, load_loop, load_raw_traces,
  get_action_ids_by_account,
}

-- The actions of a trace: the second parts of the members whose first part it is, in order.
unfoldable actions_of : String → List String → List String
actions_of t [] = []
actions_of t (key ∷ keys) =
    let rest = actions_of t keys in
    elim (two_parts (split b':' key)) [
      | none ↦ rest
      | some parts ↦ if str_eq parts.0 t then parts.1 ∷ rest else rest
    ]

-- The member is the trace id, a ':' and the action id, which have no ':' of their own.
pub record IsMember (trace_id action_id key : String) : Type 0 where
  pub parts : Divides b':' key trace_id action_id
  pub last : lacks b':' action_id ≡ true

-- The action ids of the members of a trace, in their order; other members are passed over.
pub data Grouped (t : String) : List String → List String → Type 0 where
  no_keys : Grouped t [] []
  taken :
      {key action_id : String} {keys ids : List String}
      → IsMember t action_id key
      → Grouped t keys ids
      → Grouped t (key ∷ keys) (action_id ∷ ids)
  passed :
      {key : String} {keys ids : List String}
      → ((action_id : String) → ¬ IsMember t action_id key)
      → Grouped t keys ids
      → Grouped t (key ∷ keys) ids

IsMember-two_parts :
    {t a key : String} → IsMember t a key → two_parts (split b':' key) ≡ some (t, a)
unfolding two_parts
IsMember-two_parts {t} {a} {key} m =
    ap two_parts (Divides-split m.parts ∙ ap (◌∷◌ t) (split-lacks b':' a m.last))

two_parts-list :
    (l : List String) (parts : String × String)
    → two_parts l ≡ some parts
    → l ≡ parts.0 ∷ parts.1 ∷ []
unfolding two_parts
two_parts-list [] parts h = ground arith
two_parts-list (x ∷ []) parts h = ground arith
two_parts-list (x ∷ y ∷ []) parts h = let same : (x, y) ≡ parts = cc h in rw (← same) refl
two_parts-list (x ∷ y ∷ z ∷ l) parts h = ground arith

two_parts-IsMember :
    (key : String) (parts : String × String)
    → two_parts (split b':' key) ≡ some parts
    → IsMember parts.0 parts.1 key
two_parts-IsMember key parts h =
    let (rest, d, r) =
      split-Divides b':' key parts.0 parts.1 [] (two_parts-list (split b':' key) parts h) in
    let (same, last) = split-whole b':' rest parts.1 r in
    record { parts = rw (← same) d; last = rw (← same) last }

actions_of-Grouped : (t : String) (keys : List String) → Grouped t keys (actions_of t keys)
unfolding actions_of
actions_of-Grouped t [] = no_keys
actions_of-Grouped t (key ∷ keys) = elim (Option-cases (two_parts (split b':' key))) [
  | inl n ↦
      rw (n, actions_of)
        (passed (λ a m. ground (arith, IsMember-two_parts m)) (actions_of-Grouped t keys))
  | inr (parts, e) ↦ elim (Bool-cases (str_eq parts.0 t)) [
    | inl b ↦
        rw (e, actions_of)
          (rw b (
            taken (rw ((eq_iff parts.0 t).0 b) at (two_parts-IsMember key parts e))
              (actions_of-Grouped t keys)))
    | inr b ↦
        rw (e, actions_of)
          (rw b (
            passed
              (λ a m.
                let same : (t, a) ≡ parts = cc (sym (IsMember-two_parts m) ∙ e) in
                let first : t ≡ parts.0 = ap (λ (p : String × String). p.0) same in
                ground (arith, (eq_iff parts.0 t).1 (sym first)))
              (actions_of-Grouped t keys)))
  ]
]

listed-add_action :
    (t : String) (parts : String × String) (actions : GoMap (List String))
    → listed (lookup t (add_action parts actions))
      ≡ listed (lookup t actions) ++ (if str_eq parts.0 t then parts.1 ∷ [] else [])
unfolding add_action
listed-add_action t parts actions =
    ap listed (lookup-insert parts.0 t _ actions) ∙ elim (Bool-cases (str_eq parts.0 t)) [
      | inl e ↦ rw e (ap (λ k. listed (lookup k actions) ++ parts.1 ∷ []) ((eq_iff parts.0 t).0 e))
      | inr e ↦ rw e (sym (append-nil _))
    ]

listed_cons :
    (t : String) (parts : String × String) (xs rest : List String)
    → xs ++ (if str_eq parts.0 t then parts.1 ∷ [] else []) ++ rest
      ≡ xs ++ (if str_eq parts.0 t then parts.1 ∷ rest else rest)
listed_cons t parts xs rest = elim (Bool-cases (str_eq parts.0 t)) [
  | inl e ↦ rw e (append_assoc xs (parts.1 ∷ []) rest)
  | inr e ↦ rw e (ap (λ ys. ys ++ rest) (append-nil xs))
]

action_ids-actions_of :
    (t : String) (keys : List String) (actions : GoMap (List String))
    → listed (lookup t (action_ids keys actions)) ≡ listed (lookup t actions) ++ actions_of t keys
unfolding action_ids actions_of
action_ids-actions_of t [] actions = sym (append-nil _)
action_ids-actions_of t (key ∷ keys) actions = elim (Option-cases (two_parts (split b':' key))) [
  | inl n ↦ rw (n, actions_of) (action_ids-actions_of t keys actions)
  | inr (parts, e) ↦
      rw (e, actions_of)
        (action_ids-actions_of t keys (add_action parts actions)
          ∙ ap (λ xs. xs ++ actions_of t keys) (listed-add_action t parts actions)
          ∙ listed_cons t parts (listed (lookup t actions)) (actions_of t keys))
]

module _ (r : Reader) where
  open r use {State}

  -- No one writes to Redis between the reads.
  abbrev pub IsQuiet : State → Type 0
  IsQuiet s = (k : String) → (r.hgetall k s).1 ≡ s

  abbrev pub or_else : GoMap String → Option (GoMap String) → Option (GoMap String)
  or_else [] before = before
  or_else (field ∷ fields) before = some (field ∷ fields)

  lookup-put_fields :
      (k trace_id : String) (fields : GoMap String) (result : GoMap (GoMap String))
      → lookup k (put_fields trace_id fields result)
        ≡ (if str_eq trace_id k then or_else fields (lookup k result) else lookup k result)
  unfolding put_fields
  lookup-put_fields k trace_id [] result = elim (Bool-cases (str_eq trace_id k)) [
    | inl e ↦ rw e refl
    | inr e ↦ rw e refl
  ]
  lookup-put_fields k trace_id (field ∷ fields) result =
      lookup-insert trace_id k (field ∷ fields) result

  or_else-or_else :
      (fields : GoMap String) (before : Option (GoMap String))
      → or_else fields (or_else fields before) ≡ or_else fields before
  or_else-or_else [] before = refl
  or_else-or_else (field ∷ fields) before = refl

  -- The fields of a key.
  abbrev pub fields_of : String → State → GoMap String
  fields_of k s = (r.hgetall k s).0.0

  again :
      (b : Bool) (fields : GoMap String) (before : Option (GoMap String))
      → (if b then or_else fields (or_else fields before) else or_else fields before)
        ≡ or_else fields before
  again true fields before = or_else-or_else fields before
  again false fields before = refl

  absorb :
      (b : Bool) (k id : String) (s : State) (before : Option (GoMap String))
      → (let next = (if str_eq id k then or_else (fields_of id s) before else before) in
          if b then or_else (fields_of k s) next else next)
        ≡ (if str_eq id k || b then or_else (fields_of k s) before else before)
  absorb b k id s before = elim (Bool-cases (str_eq id k)) [
    | inl e ↦ rw e (
        ap
          (λ j.
            if b
            then or_else (fields_of k s) (or_else (fields_of j s) before)
            else or_else (fields_of j s) before)
          ((eq_iff id k).0 e)
        ∙ again b (fields_of k s) before)
    | inr e ↦ rw e refl
  ]

  lookup-load_loop :
      (k : String) (ids : List String) (result : GoMap (GoMap String)) (s : State)
      → IsQuiet s
      → lookup k (load_loop r ids result s).0
        ≡ (if contains ids k then or_else (fields_of k s) (lookup k result) else lookup k result)
  unfolding load_loop contains
  lookup-load_loop k [] result s quiet = refl
  lookup-load_loop k (id ∷ ids) result s quiet =
      let fields = fields_of id s in
      ap (λ s'. lookup k (load_loop r ids (put_fields id fields result) s').0) (quiet id)
      ∙ lookup-load_loop k ids (put_fields id fields result) s quiet
      ∙ ap (λ v. if contains ids k then or_else (fields_of k s) v else v)
          (lookup-put_fields k id fields result)
      ∙ absorb (contains ids k) k id s (lookup k result)

  -- While no one writes to Redis, LoadRawTraces gives the fields of each key that it is asked for and
  -- that has fields, and nothing for any other key.
  pub load_raw_traces_correct :
      (k : String) (ids : List String) (s : State)
      → IsQuiet s
      → lookup k (load_raw_traces r ids s).0
        ≡ (if contains ids k then or_else (fields_of k s) none else none)
  unfolding load_raw_traces lookup
  load_raw_traces_correct k ids s quiet = lookup-load_loop k ids [] s quiet

  -- GetActionIdsByAccount, when the read of the account's sorted set succeeds, groups its members by
  -- trace: under each trace id it gives the actions of the members of that trace, in the order of
  -- the set, and it passes over the members that are not a trace id and an action id with one ':'
  -- between them.
  pub get_action_ids_by_account_correct :
      (account : String) (s : State) (keys : List String)
      → (r.zrevrange (concat "_aai:" account) s).0 ≡ ok keys
      → (actions : GoMap (List String)) × ((get_action_ids_by_account r account s).0 ≡ ok actions)
        × ((t : String) → Grouped t keys (listed (lookup t actions)))
  unfolding get_action_ids_by_account lookup
  get_action_ids_by_account_correct account s keys e = (
    action_ids keys [],
    rw e refl,
    λ t. subst (Grouped t keys) (sym (action_ids-actions_of t keys [])) (actions_of-Grouped t keys),
  )
