-- ===== src/Prelude/Partial.antt =====
-- Code that may panic returns an `Option`; `none` is a panic of the Go run time, or a loop of the
-- model that ran out of fuel. `Yields P r` says that `r` is a value that satisfies `P`.
use mathlib.Core.Path.{◌≡◌, refl}
use mathlib.Core.Logic.{◌⊎◌, inl, inr}
use mathlib.Core.Bool.{Bool, true, false}
use mathlib.Core.Option.{Option, none, some}
use ton_indexer.Prelude.Tests.{if◌then◌else◌}

infixl 5 ◌>>=◌
abbrev pub ◌>>=◌ {ℓ κ} : {A : Type ℓ} {B : Type κ} → Option A → (A → Option B) → Option B
none >>= f = none
some a >>= f = f a

pub data Yields {ℓ κ} {A : Type ℓ} (P : A → Type κ) : Option A → Type (ℓ ⊔ κ) where
  yields : {a : A} → P a → Yields P (some a)

module _ {ℓ κ} {A : Type ℓ} {P : A → Type κ} where
  pub Yields-bind {ℓ' κ'} :
      {B : Type ℓ'} {Q : B → Type κ'} {r : Option A} {f : A → Option B}
      → Yields P r
      → ((a : A) → P a → Yields Q (f a))
      → Yields Q (r >>= f)
  Yields-bind (yields p) k = k _ p

  pub Yields-map {κ'} :
      {Q : A → Type κ'} {r : Option A} → Yields P r → ((a : A) → P a → Q a) → Yields Q r
  Yields-map (yields p) k = yields (k _ p)

  pub Yields-if :
      {x y : Option A} (b : Bool)
      → (b ≡ true → Yields P x)
      → (b ≡ false → Yields P y)
      → Yields P (if b then x else y)
  Yields-if true p q = p refl
  Yields-if false p q = q refl

-- A value and a nil error, or an error.
pub data Result (E A : Type 0) : Type 0 where
  ok : A → Result E A
  err : E → Result E A

pub Result-cases :
    {E A : Type 0} (r : Result E A) → ((e : E) × (r ≡ err e)) ⊎ ((a : A) × (r ≡ ok a))
Result-cases (ok a) = inr (a, refl)
Result-cases (err e) = inl (e, refl)

-- The code after a call that may fail: an error is passed on.
abbrev pub and_then :
    {E A B : Type 0} → Result E A → (A → Option (Result E B)) → Option (Result E B)
and_then (err e) f = some (err e)
and_then (ok a) f = f a

pub data IsOk {E A : Type 0} (P : A → Type 0) : Result E A → Type 0 where
  is_ok : {a : A} → P a → IsOk P (ok a)

pub Yields-and_then :
    {E A B : Type 0} {P : A → Type 0} {Q : Result E B → Type 0} {r : Option (Result E A)}
    {f : A → Option (Result E B)}
    → Yields (IsOk P) r
    → ((a : A) → P a → Yields Q (f a))
    → Yields Q (r >>= λ x. and_then x f)
Yields-and_then (yields (is_ok p)) k = k _ p

pub Yields-at {ℓ κ ℓ'} :
    {A : Type ℓ} {B : Type κ} {Q : B → Type ℓ'} {r : Option A} {a : A} (f : A → Option B)
    → r ≡ some a
    → Yields Q (f a)
    → Yields Q (r >>= f)
Yields-at f e q = rw e q

-- What holds of a value, when there is no error.
abbrev pub IfOk {ℓ} : {E A : Type 0} → (A → Type ℓ) → Result E A → Type ℓ
IfOk P (ok a) = P a
IfOk P (err e) = Unit

pub IfOk-then {ℓ κ} :
    {E A B : Type 0} {P : A → Type κ} {Q : B → Type ℓ} (r : Result E A)
    {f : A → Option (Result E B)}
    → IfOk P r
    → ((a : A) → P a → Yields (IfOk Q) (f a))
    → Yields (IfOk Q) (and_then r f)
IfOk-then (ok a) p k = k a p
IfOk-then (err e) p k = yields tt

pub IfOk-and_then {ℓ} :
    {E A B : Type 0} {Q : B → Type ℓ} (r : Result E A) {f : A → Option (Result E B)}
    → ((a : A) → Yields (IfOk Q) (f a))
    → Yields (IfOk Q) (and_then r f)
IfOk-and_then (ok a) k = k a
IfOk-and_then (err e) k = yields tt

pub IfOk-bind {ℓ κ} :
    {E A B : Type 0} {P : A → Type κ} {Q : B → Type ℓ} {r : Option (Result E A)}
    {f : A → Option (Result E B)}
    → Yields (IfOk P) r
    → ((a : A) → P a → Yields (IfOk Q) (f a))
    → Yields (IfOk Q) (r >>= λ x. and_then x f)
IfOk-bind y k = Yields-bind y λ x p. IfOk-then x p k
