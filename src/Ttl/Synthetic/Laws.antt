-- ===== src/Ttl/Synthetic/Laws.antt =====
-- What SyntheticTracesTracker holds after each of its methods.
use ton_indexer.Prelude.{
  Option, none, some, String, List, [], ◌∷◌, ◌≡◌, refl, sym, ◌∙◌, contains-nil, Bool, true, ◌||◌,
  ◌&&◌, not, false, arith, contains, str_eq, eq_iff, if◌then◌else◌, Option-cases, Bool-cases, inl,
  inr, ◌==◌, length,
}
use ton_indexer.Prelude.GoMap.{GoMap, lookup, lookup-insert, lookup-delete, IsUnique}
use ton_indexer.MapSet.{MapSet}
use ton_indexer.Ttl.Synthetic.{
  set_or_new, add_synthetic_trace, clear_synthetic_traces, remove_trace,
}

module _ (sets : MapSet) where
  open sets use {Carrier, new_set, add, remove, contains_one, cardinality, iter}

  abbrev has : Option Carrier → String → Bool
  has none t = false
  has (some s) t = contains_one s t

  -- The trace is in the set of the account.
  abbrev pub holds : GoMap Carrier → String → String → Bool
  holds m account trace_id = has (lookup account m) trace_id

  contains-set_or_new :
      (o : Option Carrier) (t : String) → contains_one (set_or_new sets o) t ≡ has o t
  unfolding set_or_new
  contains-set_or_new none t = sets.contains-new_set t
  contains-set_or_new (some s) t = refl

  -- AddSyntheticTrace adds the trace to the set of its account, and changes nothing else.
  pub holds-add_synthetic_trace :
      (m : GoMap Carrier) (account trace_id a t : String)
      → holds (add_synthetic_trace sets m account trace_id) a t
        ≡ ((str_eq account a && str_eq trace_id t) || holds m a t)
  unfolding add_synthetic_trace
  holds-add_synthetic_trace m account trace_id a t = ground (
    arith,
    lookup-insert account a (add (set_or_new sets (lookup account m)) trace_id) m,
    sets.contains-add (set_or_new sets (lookup account m)) trace_id t,
    contains-set_or_new (lookup account m) t,
    eq_iff account a,
  )

  pub record Cleared (m : GoMap Carrier) (account : String) (r : GoMap Carrier × List String)
      : Type 0 where
    pub returned : (t : String) → contains r.1 t ≡ holds m account t
    pub left : (a t : String) → holds r.0 a t ≡ (if str_eq account a then false else holds m a t)

  -- ClearSyntheticTraces returns exactly the traces of the account, and forgets them; the other
  -- accounts keep theirs.
  pub clear_synthetic_traces_correct :
      (m : GoMap Carrier) (account : String)
      → Cleared m account (clear_synthetic_traces sets m account)
  unfolding clear_synthetic_traces contains
  clear_synthetic_traces_correct m account = elim (Option-cases (lookup account m)) [
    | inl e ↦
        rw (e, clear_synthetic_traces)
          (record { returned = λ t. rw e; left = λ a t. ground (arith, eq_iff account a) })
    | inr (s, e) ↦
        rw (e, clear_synthetic_traces)
          (record {
            returned = λ t. rw e (sets.contains-iter s t);
            left = λ a t. ground (arith, lookup-delete account a m);
          })
  ]

  no_elements : (s : Carrier) (u : String) → cardinality s ≡ 0 → contains_one s u ≡ false
  no_elements s u e = go (iter s) (sets.contains-iter s u) (omega (arith, sets.length-iter s))
    where
      go :
          (l : List String)
          → contains l u ≡ contains_one s u
          → length l ≡ 0
          → contains_one s u ≡ false
      go [] c z = sym c ∙ contains-nil u
      go (x ∷ l) c z = absurd (omega arith)

  -- No two accounts have the trace.
  abbrev pub IsSole : GoMap Carrier → String → Type 0
  IsSole m t = (a b : String) → holds m a t ≡ true → holds m b t ≡ true → a ≡ b

  holds-cons :
      (account : String) (s : Carrier) (m : GoMap Carrier) (a t : String)
      → holds ((account, s) ∷ m) a t ≡ (if str_eq account a then contains_one s t else holds m a t)
  unfolding lookup
  holds-cons account s m a t = ground arith

  tail-IsSole :
      (account : String) (s : Carrier) (m : GoMap Carrier) (t : String)
      → lookup account m ≡ none
      → IsSole ((account, s) ∷ m) t
      → IsSole m t
  tail-IsSole account s m t new f a b p q =
      f a b (ground (arith, holds-cons account s m a t, eq_iff account a))
        (ground (arith, holds-cons account s m b t, eq_iff account b))

  holds-nil : (a t : String) → holds [] a t ≡ false
  unfolding lookup
  holds-nil a t = refl

  -- If no two accounts have the trace, RemoveTrace takes it out of every set, and changes nothing
  -- else.
  pub holds-remove_trace :
      (m : GoMap Carrier) (trace_id : String)
      → IsUnique m
      → IsSole m trace_id
      → (a t : String)
      → holds (remove_trace sets m trace_id) a t ≡ (not (str_eq trace_id t) && holds m a t)
  unfolding remove_trace
  holds-remove_trace [] trace_id u f a t = ground (arith, holds-nil a t)
  holds-remove_trace ((account, s) ∷ m) trace_id u f a t =
      elim (Bool-cases (contains_one s trace_id)) [
        | inl here ↦
            let s' = remove s trace_id in
            rw here (elim (Bool-cases (cardinality s' == 0)) [
              | inl last ↦ rw last (
                  ground (
                    arith,
                    eq_iff account a,
                    eq_iff trace_id t,
                    holds-cons account s m a t,
                    holds-cons account s m account trace_id,
                    holds-cons account s m a trace_id,
                    no_elements s' t,
                    sets.contains-remove s trace_id t,
                    f a account,
                    eq_iff account account,
                  ))
              | inr more ↦ rw more (
                  ground (
                    arith,
                    eq_iff account a,
                    eq_iff trace_id t,
                    holds-cons account s m a t,
                    holds-cons account s' m a t,
                    holds-cons account s m a trace_id,
                    holds-cons account s m account trace_id,
                    sets.contains-remove s trace_id t,
                    f a account,
                    eq_iff account account,
                  ))
            ])
        | inr not_here ↦ rw not_here (
            ground (
              arith,
              eq_iff account a,
              eq_iff trace_id t,
              holds-cons account s m a t,
              holds-cons account s (remove_trace sets m trace_id) a t,
              holds-remove_trace m trace_id u.1 (tail-IsSole account s m trace_id u.0 f) a t,
            ))
      ]

  lookup-remove_trace :
      (m : GoMap Carrier) (trace_id a : String)
      → lookup a m ≡ none
      → lookup a (remove_trace sets m trace_id) ≡ none
  unfolding remove_trace lookup
  lookup-remove_trace [] trace_id a e = refl
  lookup-remove_trace ((account, s) ∷ m) trace_id a e =
      ground (arith, lookup-remove_trace m trace_id a)

  pub remove_trace-IsUnique :
      (m : GoMap Carrier) (trace_id : String) → IsUnique m → IsUnique (remove_trace sets m trace_id)
  unfolding remove_trace
  remove_trace-IsUnique [] trace_id u = tt
  remove_trace-IsUnique ((account, s) ∷ m) trace_id u =
      elim (Bool-cases (contains_one s trace_id)) [
        | inl here ↦ rw here (elim (Bool-cases (cardinality (remove s trace_id) == 0)) [
          | inl last ↦ rw last u.1
          | inr more ↦ rw more u
        ])
        | inr other ↦
            rw other
              (lookup-remove_trace m trace_id account u.0, remove_trace-IsUnique m trace_id u.1)
      ]
