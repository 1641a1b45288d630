-- ===== src/Prelude/Result.antt =====
-- The outcome of a C routine that may return NULL or -1, run on fuel.
use mathlib.Core.Path.{◌≡◌, refl}
use mathlib.Core.Bool.{Bool, true, false}
use instagram_on_nt.Prelude.Tests.{if◌then◌else◌}
use mathlib.Core.Option.{Option, none, some}

-- `failed` is the NULL or -1 that the routine returns; `out_of_fuel` has no counterpart in it.
pub data Result {ℓ} (A : Type ℓ) : Type ℓ where
  ok : A → Result A
  failed out_of_fuel : Result A

infixl 5 ◌>>=◌
abbrev pub ◌>>=◌ {ℓ κ} : {A : Type ℓ} {B : Type κ} → Result A → (A → Result B) → Result B
ok a >>= f = f a
failed >>= f = failed
out_of_fuel >>= f = out_of_fuel

abbrev pub from_option {ℓ} : {A : Type ℓ} → Option A → Result A
from_option none = failed
from_option (some a) = ok a

-- The run ends within its fuel, and `P` holds of what it returns, if it returns a value.
abbrev pub Ensures {ℓ} : {A : Type ℓ} → (A → Type 0) → Result A → Type 0
Ensures P (ok a) = P a
Ensures P failed = Unit {0}
Ensures P out_of_fuel = ⊥

pub Ensures-bind {ℓ κ} :
    {A : Type ℓ} {B : Type κ} (P : A → Type 0) (Q : B → Type 0) (r : Result A) (f : A → Result B)
    → Ensures P r
    → ((a : A) → P a → Ensures Q (f a))
    → Ensures Q (r >>= f)
Ensures-bind P Q (ok a) f h k = k a h
Ensures-bind P Q failed f h k = tt
Ensures-bind P Q out_of_fuel f h k = absurd h

pub Ensures-if {ℓ} :
    {A : Type ℓ} (Q : A → Type 0) (b : Bool) (x y : Result A)
    → (b ≡ true → Ensures Q x)
    → (b ≡ false → Ensures Q y)
    → Ensures Q (if b then x else y)
Ensures-if Q true x y hx hy = hx refl
Ensures-if Q false x y hx hy = hy refl

pub Ensures-map {ℓ} :
    {A : Type ℓ} {P Q : A → Type 0} (r : Result A)
    → Ensures P r
    → ((a : A) → P a → Q a)
    → Ensures Q r
Ensures-map (ok a) h k = k a h
Ensures-map failed h k = tt
Ensures-map out_of_fuel h k = absurd h

-- To read a value off a run that ends well.
pub Ensures-ok {ℓ} :
    {A : Type ℓ} (P : A → Type 0) (r : Result A) (a : A) → Ensures P r → r ≡ ok a → P a
Ensures-ok P r a h e = rw e at h

-- `P` holds of the value that the run returns, if it returns one.
abbrev pub IfOk {ℓ} : {A : Type ℓ} → (A → Type 0) → Result A → Type 0
IfOk P (ok a) = P a
IfOk P failed = Unit {0}
IfOk P out_of_fuel = Unit {0}

pub IfOk-bind {ℓ κ} :
    {A : Type ℓ} {B : Type κ} (P : A → Type 0) (Q : B → Type 0) (r : Result A) (f : A → Result B)
    → IfOk P r
    → ((a : A) → P a → IfOk Q (f a))
    → IfOk Q (r >>= f)
IfOk-bind P Q (ok a) f h k = k a h
IfOk-bind P Q failed f h k = tt
IfOk-bind P Q out_of_fuel f h k = tt

pub IfOk-if {ℓ} :
    {A : Type ℓ} (Q : A → Type 0) (b : Bool) (x y : Result A)
    → (b ≡ true → IfOk Q x)
    → (b ≡ false → IfOk Q y)
    → IfOk Q (if b then x else y)
IfOk-if Q true x y hx hy = hx refl
IfOk-if Q false x y hx hy = hy refl

pub IfOk-any {ℓ} : {A : Type ℓ} (r : Result A) → IfOk (λ _. Unit {0}) r
IfOk-any (ok a) = tt
IfOk-any failed = tt
IfOk-any out_of_fuel = tt

pub IfOk-ok {ℓ} : {A : Type ℓ} (P : A → Type 0) (r : Result A) (a : A) → IfOk P r → r ≡ ok a → P a
IfOk-ok P r a h e = rw e at h
