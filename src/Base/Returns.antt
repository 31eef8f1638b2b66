-- ===== src/Base/Returns.antt =====
-- Early returns, and what holds of a value that they compute, case by case.
use mathlib.Core.Path.{◌≡◌, refl}
use mathlib.Core.Bool.{Bool, true, false}
use mathlib.Core.Option.{Option, none, some}
use titan_explorer.Base.Tests.{if◌then◌else◌}

-- `if err != nil { return b }` after a call that gives an `A` or an error.
abbrev pub or_return {ℓ κ} : {A : Type ℓ} {B : Type κ} → Option A → B → (A → B) → B
or_return none b f = b
or_return (some a) b f = f a

pub or_return-holds {ℓ κ μ} :
    {A : Type ℓ} {B : Type κ} (P : B → Type μ) (o : Option A) (b : B) (f : A → B)
    → P b
    → ((a : A) → o ≡ some a → P (f a))
    → P (or_return o b f)
or_return-holds P none b f p q = p
or_return-holds P (some a) b f p q = q a refl

pub if-holds {κ μ} :
    {B : Type κ} (P : B → Type μ) (c : Bool) (x y : B)
    → (c ≡ true → P x)
    → (c ≡ false → P y)
    → P (if c then x else y)
if-holds P true x y p q = p refl
if-holds P false x y p q = q refl
