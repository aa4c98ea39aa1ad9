-- ===== src/Session/Branches.antt =====
-- Predicates that hold of the result of a session's operation on every branch, where it returns.
use fountainer_client_framew.Common.{
  ◌≡◌, refl, Bool, true, false, Option, none, some, if◌then◌else◌,
}
use fountainer_client_framew.Auth.{◌>>=◌}

-- `P` holds of what the option holds, if anything.
abbrev pub Each {ℓ κ} : {A : Type ℓ} → (A → Type κ) → Option A → Type κ
Each P none = Unit
Each P (some a) = P a

pub Each-bind {ℓ κ λ'} :
    {A : Type ℓ} {B : Type κ} (P : B → Type λ') (o : Option A) (f : A → Option B)
    → ((a : A) → o ≡ some a → Each P (f a))
    → Each P (o >>= f)
Each-bind P none f h = tt
Each-bind P (some a) f h = h a refl

pub Each-if {ℓ κ} :
    {A : Type ℓ} (P : A → Type κ) (b : Bool) (x y : Option A)
    → Each P x
    → Each P y
    → Each P (if b then x else y)
Each-if P true x y hx hy = hx
Each-if P false x y hx hy = hy

pub if-lem {ℓ κ} :
    {A : Type ℓ} (P : A → Type κ) (b : Bool) (x y : A) → P x → P y → P (if b then x else y)
if-lem P true x y hx hy = hx
if-lem P false x y hx hy = hy

pub Each-weaken {ℓ κ λ'} :
    {A : Type ℓ} (P : A → Type κ) (Q : A → Type λ') (o : Option A)
    → ((a : A) → P a → Q a)
    → Each P o
    → Each Q o
Each-weaken P Q none f h = tt
Each-weaken P Q (some a) f h = f a h
