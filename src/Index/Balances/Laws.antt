-- ===== src/Index/Balances/Laws.antt =====
-- BalanceChanges of ton-index-go/index/balances.go: what merge and the summary give.
use ton_indexer.Prelude.{
  ℕ, ◌+◌, ◌-◌, ◌%◌, ◌≡◌, refl, sym, ap, ◌∙◌, String, Bool, true, false, none, [], ◌∷◌, ◌&&◌,
  if◌then◌else◌, str_eq, eq_iff, arith, Bool-cases, inl, inr,
}
use ton_indexer.Prelude.Int.{ℤ, ◌+ℤ◌, ◌-ℤ◌}
use ton_indexer.Prelude.GoMap.{GoMap, lookup, insert, lookup-insert, IsUnique}
use ton_indexer.Index.Balances.{
  jettons_or_empty, amount_or_0, modulus, add_int64, sub_int64, BalanceChanges, value_or_0, get,
  add_to, merge_into, merge, jetton_of, set_jetton, add_jetton, copy_values, take_fees,
  get_summarized_balance_changes,
}

get-insert :
    (k addr : String) (v : ℕ) (m : GoMap ℕ)
    → get k (insert addr v m) ≡ (if str_eq addr k then v else get k m)
get-insert k addr v m =
    ap value_or_0 (lookup-insert addr k v m)
    ∙ elim (Bool-cases (str_eq addr k)) [ inl e ↦ rw e refl | inr e ↦ rw e refl ]

get-cons :
    (k addr : String) (v : ℕ) (m : GoMap ℕ)
    → get k ((addr, v) ∷ m) ≡ (if str_eq addr k then v else get k m)
unfolding lookup
get-cons k addr v m = elim (Bool-cases (str_eq addr k)) [
  | inl e ↦ rw (e, get) refl
  | inr e ↦ rw (e, get) refl
]

module _ (k addr : String) (v : ℕ) (m : GoMap ℕ) where
  put-hit : str_eq addr k ≡ true → get k (insert addr v m) ≡ v
  put-hit e = get-insert k addr v m ∙ ap (λ b. if b then v else get k m) e

  put-miss : str_eq addr k ≡ false → get k (insert addr v m) ≡ get k m
  put-miss e = get-insert k addr v m ∙ ap (λ b. if b then v else get k m) e

  cons-hit : str_eq addr k ≡ true → get k ((addr, v) ∷ m) ≡ v
  cons-hit e = get-cons k addr v m ∙ ap (λ b. if b then v else get k m) e

  cons-miss : str_eq addr k ≡ false → get k ((addr, v) ∷ m) ≡ get k m
  cons-miss e = get-cons k addr v m ∙ ap (λ b. if b then v else get k m) e

  same-key : str_eq addr k ≡ true → get addr m ≡ get k m
  same-key e = ap (λ j. get j m) ((eq_iff addr k).0 e)

hit :
    (k addr : String) (v : ℕ) (m : GoMap ℕ)
    → str_eq addr k ≡ true
    → lookup k ((addr, v) ∷ m) ≡ none
    → ⊥
unfolding lookup
hit k addr v m e h = absurd (ground (arith, rw e at h))

missed :
    (k addr : String) (v : ℕ) (m : GoMap ℕ)
    → str_eq addr k ≡ false
    → lookup k ((addr, v) ∷ m) ≡ none
    → lookup k m ≡ none
unfolding lookup
missed k addr v m e h = rw e at h

get-nil : (k : String) → get k [] ≡ 0
unfolding lookup
get-nil k = refl

-- A first key is not there again.
get-first :
    (k addr : String) (v : ℕ) (m : GoMap ℕ)
    → IsUnique ((addr, v) ∷ m)
    → str_eq addr k ≡ true
    → get k m ≡ 0
get-first k addr v m u e = ap get_at (sym ((eq_iff addr k).0 e)) ∙ ap value_or_0 u.0
  where
    get_at : String → ℕ
    get_at j = get j m

merge_into-get :
    (k : String) (other m : GoMap ℕ)
    → IsUnique other
    → get k (merge_into other m) % modulus ≡ (get k m + get k other) % modulus
unfolding merge_into add_to add_int64
merge_into-get k [] m u = omega (arith, get-nil k)
merge_into-get k ((addr, v) ∷ other) m u =
    let sum = (get addr m + v) % modulus in
    let ih = merge_into-get k other (add_to addr v m) u.1 in
    elim (Bool-cases (str_eq addr k)) [
      | inl e ↦ omega (
        arith,
        ih,
        put-hit k addr sum m e,
        cons-hit k addr v other e,
        same-key k addr v m e,
        get-first k addr v other u e,
      )
      | inr e ↦ omega (arith, ih, put-miss k addr sum m e, cons-miss k addr v other e)
    ]

-- The sums of two changes, address by address.
pub record IsSum (a b r : BalanceChanges) : Type 0 where
  pub value : (k : String) → get k r.value % modulus ≡ (get k a.value + get k b.value) % modulus
  pub fees : (k : String) → get k r.fees % modulus ≡ (get k a.fees + get k b.fees) % modulus

-- When the other changes have one entry to an address, merge gives for each address the sum of the
-- two values and the sum of the two fees, modulo 2^64.
pub merge-IsSum :
    (v other : BalanceChanges)
    → IsUnique other.value
    → IsUnique other.fees
    → IsSum v other (merge v other)
unfolding merge
merge-IsSum v other a b = record {
  value = λ k. merge_into-get k other.value v.value a;
  fees = λ k. merge_into-get k other.fees v.fees b;
}

gone :
    (k addr : String) (v : ℕ) (m : GoMap ℕ)
    → IsUnique ((addr, v) ∷ m)
    → str_eq addr k ≡ true
    → lookup k m ≡ none
gone k addr v m u e = ap (λ j. lookup j m) (sym ((eq_iff addr k).0 e)) ∙ u.0

copy_values-stay :
    (k : String) (values balances : GoMap ℕ)
    → lookup k values ≡ none
    → get k (copy_values values balances) ≡ get k balances
unfolding copy_values
copy_values-stay k [] balances h = refl
copy_values-stay k ((addr, v) ∷ values) balances h = elim (Bool-cases (str_eq addr k)) [
  | inl e ↦ absurd (hit k addr v values e h)
  | inr e ↦
      copy_values-stay k values (insert addr v balances) (missed k addr v values e h)
      ∙ put-miss k addr v balances e
]

copy_values-get :
    (k : String) (values balances : GoMap ℕ)
    → IsUnique values
    → get k balances ≡ 0
    → get k (copy_values values balances) ≡ get k values
unfolding copy_values
copy_values-get k [] balances u empty = empty ∙ sym (get-nil k)
copy_values-get k ((addr, v) ∷ values) balances u empty = elim (Bool-cases (str_eq addr k)) [
  | inl e ↦
      copy_values-stay k values (insert addr v balances) (gone k addr v values u e)
      ∙ put-hit k addr v balances e
      ∙ sym (cons-hit k addr v values e)
  | inr e ↦
      copy_values-get k values (insert addr v balances) u.1 (put-miss k addr v balances e ∙ empty)
      ∙ sym (cons-miss k addr v values e)
]

take_fees-get :
    (k : String) (fees balances : GoMap ℕ)
    → IsUnique fees
    → (get k (take_fees fees balances) + get k fees) % modulus ≡ get k balances % modulus
unfolding take_fees sub_int64
take_fees-get k [] balances u = omega (arith, get-nil k)
take_fees-get k ((addr, v) ∷ fees) balances u =
    let rest = (get addr balances + (modulus - v % modulus)) % modulus in
    let ih = take_fees-get k fees (insert addr rest balances) u.1 in
    elim (Bool-cases (str_eq addr k)) [
      | inl e ↦ omega (
        arith,
        ih,
        put-hit k addr rest balances e,
        cons-hit k addr v fees e,
        same-key k addr v balances e,
        get-first k addr v fees u e,
      )
      | inr e ↦ omega (arith, ih, put-miss k addr rest balances e, cons-miss k addr v fees e)
    ]

-- When the values and the fees have one entry to an address, the summarized balance change of an
-- address and its fees add up to its value, modulo 2^64.
pub get_summarized_balance_changes_correct :
    (v : BalanceChanges) (k : String)
    → IsUnique v.value
    → IsUnique v.fees
    → (get k (get_summarized_balance_changes v) + get k v.fees) % modulus ≡ get k v.value % modulus
unfolding get_summarized_balance_changes
get_summarized_balance_changes_correct v k a b =
    take_fees-get k v.fees (copy_values v.value []) b
    ∙ ap (λ x. x % modulus) (copy_values-get k v.value [] a (get-nil k))

jetton_of-set_jetton :
    (a j addr jetton : String) (amount : ℤ) (m : GoMap (GoMap ℤ))
    → jetton_of a j (set_jetton addr jetton amount m)
      ≡ (if str_eq addr a && str_eq jetton j then amount else jetton_of a j m)
unfolding set_jetton
jetton_of-set_jetton a j addr jetton amount m =
    ap (λ o. amount_or_0 (lookup j (jettons_or_empty o))) (lookup-insert addr a _ m)
    ∙ elim (Bool-cases (str_eq addr a)) [
      | inl e ↦ rw e (
          ap amount_or_0 (lookup-insert jetton j amount (jettons_or_empty (lookup addr m)))
          ∙ elim (Bool-cases (str_eq jetton j)) [
            | inl f ↦ rw f refl
            | inr f ↦ rw f (ap (λ b. jetton_of b j m) ((eq_iff addr a).0 e))
          ])
      | inr e ↦ rw e refl
    ]

-- add_jetton changes the amount of that jetton of that address, by the value or by its opposite,
-- and no other amount.
pub add_jetton_correct :
    (v : BalanceChanges) (addr jetton : String) (value : ℤ) (negate : Bool) (a j : String)
    → jetton_of a j (add_jetton addr jetton value negate v).jettons ≡ (
        if str_eq addr a && str_eq jetton j
        then (if negate then jetton_of a j v.jettons -ℤ value else jetton_of a j v.jettons +ℤ value)
        else jetton_of a j v.jettons)
unfolding add_jetton
add_jetton_correct v addr jetton value negate a j =
    jetton_of-set_jetton a j addr jetton _ v.jettons ∙ elim (Bool-cases (str_eq addr a)) [
      | inl e ↦ elim (Bool-cases (str_eq jetton j)) [
        | inl f ↦ rw e (
            rw f (
              ap (λ b. moved negate (jetton_of b jetton v.jettons) value) ((eq_iff addr a).0 e)
              ∙ ap (λ i. moved negate (jetton_of a i v.jettons) value) ((eq_iff jetton j).0 f)))
        | inr f ↦ rw e (rw f refl)
      ]
      | inr e ↦ rw e refl
    ]
  where
    moved : Bool → ℤ → ℤ → ℤ
    moved b old x = if b then old -ℤ x else old +ℤ x
