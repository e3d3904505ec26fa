-- ===== src/Index/Balances/Sums.antt =====
-- The sum of the values in a BalanceChanges of ton-index-go/index/balances.go, modulo 2^64, and those
-- of its jettons.
use ton_indexer.Prelude.{
  ℕ, ◌+◌, ◌-◌, ◌%◌, ◌≡◌, refl, subst, String, Bool, true, false, Option, none, some, [], ◌∷◌,
  if◌then◌else◌, str_eq, arith, Bool-cases, inl, inr, ◌>>=◌,
}
use ton_indexer.Prelude.Int.{ℤ, pos}
use ton_indexer.Prelude.GoMap.{GoMap, lookup, insert}
use ton_indexer.Index.Balances.{
  modulus, add_int64, sub_int64, BalanceChanges, get, add_to, add_value, add_fees, merge_into,
  merge, add_jetton,
}
use ton_indexer.Index.Balances.JettonSums.{sum_jettons, moved, merge_jettons-zero, add_jetton-zero}

abbrev pub sum_values : GoMap ℕ → ℕ
sum_values [] = 0
sum_values ((addr, value) ∷ m) = value + sum_values m

-- What one address gains another one loses.
pub record IsZero (changes : BalanceChanges) : Type 0 where
  pub sum_is_zero : sum_values changes.value % modulus ≡ 0
  pub jettons_are_zero : (jetton : String) → sum_jettons jetton changes.jettons ≡ pos 0

sum-insert :
    (k : String) (v : ℕ) (m : GoMap ℕ) → sum_values (insert k v m) + get k m ≡ sum_values m + v
unfolding insert lookup
sum-insert k v [] = omega arith
sum-insert k v ((name, old) ∷ m) = elim (Bool-cases (str_eq name k)) [
  | inl e ↦ rw e (omega arith)
  | inr e ↦ rw e (omega (arith, sum-insert k v m))
]

sum-add_to :
    (k : String) (v : ℕ) (m : GoMap ℕ)
    → sum_values (add_to k v m) % modulus ≡ (sum_values m + v) % modulus
unfolding add_to add_int64
sum-add_to k v m = omega (arith, sum-insert k ((get k m + v) % modulus) m)

sum-merge_into :
    (other m : GoMap ℕ)
    → sum_values (merge_into other m) % modulus ≡ (sum_values m + sum_values other) % modulus
unfolding merge_into
sum-merge_into [] m = omega arith
sum-merge_into ((k, v) ∷ other) m =
    omega (arith, sum-merge_into other (add_to k v m), sum-add_to k v m)

pub add_value-IsZero :
    (source destination : String) (v : ℕ) (changes : BalanceChanges)
    → IsZero changes
    → IsZero (add_value destination v (add_value source (sub_int64 0 v) changes))
unfolding add_value sub_int64
add_value-IsZero source destination v changes z =
    let lost = (0 + (modulus - v % modulus)) % modulus in
    record {
      sum_is_zero = omega (
        arith,
        z.sum_is_zero,
        sum-add_to destination v (add_to source lost changes.value),
        sum-add_to source lost changes.value,
      );
      jettons_are_zero = z.jettons_are_zero;
    }

pub merge-IsZero :
    (total changes : BalanceChanges) → IsZero total → IsZero changes → IsZero (merge total changes)
unfolding merge
merge-IsZero total changes a b = record {
  sum_is_zero =
      omega (arith, a.sum_is_zero, b.sum_is_zero, sum-merge_into changes.value total.value);
  jettons_are_zero = λ j.
      merge_jettons-zero j changes.jettons total.jettons (b.jettons_are_zero j)
        (a.jettons_are_zero j);
}

pub add_fees-IsZero :
    (addr : String) (fee : ℕ) (changes : BalanceChanges)
    → IsZero changes
    → IsZero (add_fees addr fee changes)
unfolding add_fees
add_fees-IsZero addr fee changes z = record {
  sum_is_zero = z.sum_is_zero;
  jettons_are_zero = z.jettons_are_zero;
}

pub add_jetton-IsZero :
    (sender receiver jetton : String) (amount : ℤ) (changes : BalanceChanges)
    → IsZero changes
    → IsZero (moved sender receiver jetton amount changes)
unfolding add_jetton
add_jetton-IsZero sender receiver jetton amount changes z = record {
  sum_is_zero = z.sum_is_zero;
  jettons_are_zero =
      λ j. add_jetton-zero j sender receiver jetton amount changes (z.jettons_are_zero j);
}

-- What holds of a value, if the code has not panicked.
pub data IfSome {A : Type 0} (P : A → Type 0) : Option A → Type 0 where
  value : {a : A} → P a → IfSome P (some a)
  no_value : IfSome P none

module _ {A : Type 0} {P : A → Type 0} where
  pub IfSome-bind :
      {B : Type 0} {Q : B → Type 0} {r : Option A} {f : A → Option B}
      → IfSome P r
      → ((a : A) → P a → IfSome Q (f a))
      → IfSome Q (r >>= f)
  IfSome-bind (value p) k = k _ p
  IfSome-bind no_value k = no_value

  pub IfSome-map : {Q : A → Type 0} {r : Option A} → IfSome P r → ((a : A) → P a → Q a) → IfSome Q r
  IfSome-map (value p) k = value (k _ p)
  IfSome-map no_value k = no_value

  pub IfSome-inv : {o : Option A} (a : A) → IfSome P o → o ≡ some a → P a
  IfSome-inv b (value {a} p) e = subst P (cc e) p
  IfSome-inv b no_value e = absurd (ground arith)

  pub IfSome-if :
      {x y : Option A} (b : Bool) → IfSome P x → IfSome P y → IfSome P (if b then x else y)
  IfSome-if true p q = p
  IfSome-if false p q = q

  pub IfSome-option :
      {B : Type 0} {x : Option A} {f : B → Option A} (o : Option B)
      → IfSome P x
      → ((b : B) → IfSome P (f b))
      → IfSome P (elim o [ none ↦ x | some b ↦ f b ])
  IfSome-option none p q = p
  IfSome-option (some b) p q = q b

pub IfSome-any :
    {A B : Type 0} {Q : B → Type 0} (r : Option A) {f : A → Option B}
    → ((a : A) → IfSome Q (f a))
    → IfSome Q (r >>= f)
IfSome-any none k = no_value
IfSome-any (some a) k = k a

pub IfSome-known :
    {A B : Type 0} {Q : B → Type 0} (r : Option A) {f : A → Option B}
    → ((a : A) → r ≡ some a → IfSome Q (f a))
    → IfSome Q (r >>= f)
IfSome-known none k = no_value
IfSome-known (some a) k = k a refl
