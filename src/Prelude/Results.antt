-- ===== src/Prelude/Results.antt =====
-- What a call returns. `Result` is Rust's type with a panic beside it; `Outcome` is a call through
-- `&mut self`, which leaves a state also when it returns an error.
use mathlib.Core.Option.{Option, none, some}
use mathlib.Core.Bool.{Bool, true, false}

pub data Result {ℓ κ} (E : Type ℓ) (A : Type κ) : Type (ℓ ⊔ κ) where
  ok : A → Result E A
  err : E → Result E A
  panic : Result E A

pub data Outcome (S E A : Type 0) : Type 0 where
  ret : A → S → Outcome S E A
  fail : E → S → Outcome S E A
  abort : Outcome S E A

-- `none` is a panic of the value, and so of the call.
abbrev pub or_panic {ℓ κ μ} :
    {E : Type ℓ} {A : Type κ} {B : Type μ} → Option A → (A → Result E B) → Result E B
or_panic none f = panic
or_panic (some a) f = f a

abbrev pub or_abort : {S E A B : Type 0} → Option A → (A → Outcome S E B) → Outcome S E B
or_abort none f = abort
or_abort (some a) f = f a

infixl 5 ◌>>=◌
abbrev pub ◌>>=◌ {ℓ κ μ} :
    {E : Type ℓ} {A : Type κ} {B : Type μ} → Result E A → (A → Result E B) → Result E B
ok a >>= f = f a
err e >>= f = err e
panic >>= f = panic

abbrev pub map_err {ℓ κ μ} :
    {E : Type ℓ} {F : Type κ} {A : Type μ} → (E → F) → Result E A → Result F A
map_err f (ok a) = ok a
map_err f (err e) = err (f e)
map_err f panic = panic

abbrev pub map_fail : {S E F A : Type 0} → (E → F) → Outcome S E A → Outcome S F A
map_fail f (ret a s) = ret a s
map_fail f (fail e s) = fail (f e) s
map_fail f abort = abort

-- A call on a part of the state: `put` sets the part in the whole.
abbrev pub within : {S T E A : Type 0} → (S → T) → Outcome S E A → Outcome T E A
within put (ret a s) = ret a (put s)
within put (fail e s) = fail e (put s)
within put abort = abort

-- `Option::and_then`: for a computation that can only panic, the chain of its steps.
abbrev pub and_then {ℓ κ} : {A : Type ℓ} {B : Type κ} → Option A → (A → Option B) → Option B
and_then none f = none
and_then (some a) f = f a

-- `assert!`
abbrev pub assert {ℓ} : {A : Type ℓ} → Bool → Option A → Option A
assert true a = a
assert false a = none

-- a result that is not a panic
abbrev pub IsNoPanic {ℓ κ} : {E : Type ℓ} {A : Type κ} → Result E A → Type 0
IsNoPanic (ok a) = Unit
IsNoPanic (err e) = Unit
IsNoPanic panic = ⊥
