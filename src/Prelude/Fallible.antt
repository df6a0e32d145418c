-- ===== src/Prelude/Fallible.antt =====
-- Steps that may fail: `none` stands for what C leaves undefined (an access outside a buffer)
-- and for `abort`.
use mathlib.Core.Path.{◌≡◌, refl}
use mathlib.Core.Option.{Option, none, some}
use mathlib.Core.Bool.{Bool, true, false}
use alacrity_adios.Prelude.Tests.{if◌then◌else◌}

infixl 5 ◌>>=◌ ◌>>◌
abbrev pub ◌>>=◌ {ℓ κ} : {A : Type ℓ} {B : Type κ} → Option A → (A → Option B) → Option B
none >>= f = none
some a >>= f = f a

abbrev pub ◌>>◌ {ℓ} : {B : Type ℓ} → Option (Unit {0}) → Option B → Option B
m >> k = m >>= λ _. k

pub >>=_assoc {ℓ κ μ} :
    {A : Type ℓ} {B : Type κ} {C : Type μ} (m : Option A) (f : A → Option B) (g : B → Option C)
    → ((m >>= f) >>= g) ≡ (m >>= λ a. f a >>= g)
>>=_assoc none f g = refl
>>=_assoc (some a) f g = refl

-- What a chain of steps that succeeded went through.
pub some_bind {ℓ κ} :
    {A : Type ℓ} {B : Type κ} (m : Option A) (f : A → Option B) {b : B}
    → (m >>= f) ≡ some b
    → (a : A) × (m ≡ some a) × (f a ≡ some b)
some_bind none f h = cc
some_bind (some a) f h = (a, refl, h)

pub some_if {ℓ} :
    {A : Type ℓ} (t : Bool) (m : Option A) {b : A}
    → (if t then m else none) ≡ some b
    → (t ≡ true) × (m ≡ some b)
some_if true m h = (refl, h)
some_if false m h = cc
