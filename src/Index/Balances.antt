-- ===== src/Index/Balances.antt =====
-- BalanceChanges of ton-index-go/index/balances.go. An int64 is its residue modulo 2^64, which sums
-- and differences go by; a big.Int is an integer.
pub mod Laws
pub mod Messages
pub mod Nodes
pub mod Walk
pub mod Visit
pub mod Transfers
pub mod Calculate
pub mod JettonSums
pub mod Sums
pub mod Conserved
pub mod Kept
pub mod Ended
pub mod Shape
pub mod Tree
pub mod Built
pub mod Correct
use ton_indexer.Prelude.{
  ℕ, ◌+◌, ◌-◌, ◌%◌, ◌^◌, String, Bool, Option, none, some, List, [], ◌∷◌, if◌then◌else◌,
}
use ton_indexer.Prelude.Int.{ℤ, pos, ◌+ℤ◌, ◌-ℤ◌}
use ton_indexer.Prelude.GoMap.{GoMap, lookup, insert}

abbrev pub modulus : ℕ
modulus = 2 ^ 64

unfoldable pub add_int64 : ℕ → ℕ → ℕ
add_int64 a b = (a + b) % modulus

unfoldable pub sub_int64 : ℕ → ℕ → ℕ
sub_int64 a b = (a + (modulus - b % modulus)) % modulus

pub record BalanceChanges : Type 0 where
  pub value : GoMap ℕ
  pub fees : GoMap ℕ
  pub jettons : GoMap (GoMap ℤ)

-- The value of a key, 0 when it is new.
abbrev pub value_or_0 : Option ℕ → ℕ
value_or_0 none = 0
value_or_0 (some v) = v

abbrev pub get : String → GoMap ℕ → ℕ
get addr m = value_or_0 (lookup addr m)

-- if _, ok := m[addr]; !ok { m[addr] = 0 }; m[addr] += value
unfoldable pub add_to : String → ℕ → GoMap ℕ → GoMap ℕ
add_to addr value m = insert addr (add_int64 (get addr m) value) m

unfoldable pub add_value : String → ℕ → BalanceChanges → BalanceChanges
add_value addr value v = record v { value = add_to addr value v.value }

unfoldable pub add_fees : String → ℕ → BalanceChanges → BalanceChanges
add_fees addr value v = record v { fees = add_to addr value v.fees }

-- for addr, value := range other { m[addr] += value }
unfoldable pub merge_into : GoMap ℕ → GoMap ℕ → GoMap ℕ
merge_into [] m = m
merge_into ((addr, value) ∷ other) m = merge_into other (add_to addr value m)

abbrev pub jettons_or_empty : Option (GoMap ℤ) → GoMap ℤ
jettons_or_empty none = []
jettons_or_empty (some m) = m

abbrev pub amount_or_0 : Option ℤ → ℤ
amount_or_0 none = pos 0
amount_or_0 (some v) = v

-- The amount of a jetton of an address, 0 when there is none.
abbrev pub jetton_of : String → String → GoMap (GoMap ℤ) → ℤ
jetton_of addr jetton m = amount_or_0 (lookup jetton (jettons_or_empty (lookup addr m)))

unfoldable pub set_jetton : String → String → ℤ → GoMap (GoMap ℤ) → GoMap (GoMap ℤ)
set_jetton addr jetton amount m =
    insert addr (insert jetton amount (jettons_or_empty (lookup addr m))) m

unfoldable pub add_jetton : String → String → ℤ → Bool → BalanceChanges → BalanceChanges
add_jetton addr jetton value negate v =
    let old = jetton_of addr jetton v.jettons in
    record v {
      jettons = set_jetton addr jetton (if negate then old -ℤ value else old +ℤ value) v.jettons;
    }

unfoldable pub merge_amounts : String → GoMap ℤ → GoMap (GoMap ℤ) → GoMap (GoMap ℤ)
merge_amounts addr [] m = m
merge_amounts addr ((jetton, value) ∷ amounts) m =
    merge_amounts addr amounts (set_jetton addr jetton (jetton_of addr jetton m +ℤ value) m)

-- An address of the other changes is there even when it has no jettons.
unfoldable pub merge_jettons : GoMap (GoMap ℤ) → GoMap (GoMap ℤ) → GoMap (GoMap ℤ)
merge_jettons [] m = m
merge_jettons ((addr, amounts) ∷ other) m =
    merge_jettons other
      (merge_amounts addr amounts (insert addr (jettons_or_empty (lookup addr m)) m))

unfoldable pub merge : BalanceChanges → BalanceChanges → BalanceChanges
merge v other_changes = record {
  value = merge_into other_changes.value v.value;
  fees = merge_into other_changes.fees v.fees;
  jettons = merge_jettons other_changes.jettons v.jettons;
}

-- balances[addr] = value
unfoldable pub copy_values : GoMap ℕ → GoMap ℕ → GoMap ℕ
copy_values [] balances = balances
copy_values ((addr, value) ∷ values) balances = copy_values values (insert addr value balances)

unfoldable pub take_fees : GoMap ℕ → GoMap ℕ → GoMap ℕ
take_fees [] balances = balances
take_fees ((addr, value) ∷ fees) balances =
    take_fees fees (insert addr (sub_int64 (get addr balances) value) balances)

unfoldable pub get_summarized_balance_changes : BalanceChanges → GoMap ℕ
get_summarized_balance_changes v = take_fees v.fees (copy_values v.value [])
