-- ===== src/Base/Outcome.antt =====
-- The result of code over memory: a value, a refusal, or an access outside of a buffer.
use Prim.Native.Nat.{ℕ, ◌+◌, ◌≤◌}
use mathlib.Core.Path.{◌≡◌, refl, fun_ext}
use mathlib.Core.Bool.{Bool, true, false}
use mathlib.Core.List.{List}
use mathlib.Core.Option.{Option, none, some}
use package.livox_sdk.Base.Tests.{if◌then◌else◌}
use package.livox_sdk.Base.Lists.{length}
use package.livox_sdk.Base.Memory.{read_at, read_at_total}

pub data Outcome {ℓ} (A : Type ℓ) : Type ℓ where
  fault : Outcome A
  reject : Outcome A
  ok : A → Outcome A

infixl 5 ◌>>=◌
abbrev pub ◌>>=◌ {ℓ κ} : {A : Type ℓ} {B : Type κ} → Outcome A → (A → Outcome B) → Outcome B
fault >>= f = fault
reject >>= f = reject
ok a >>= f = f a

abbrev pub lift {ℓ} : {A : Type ℓ} → Option A → Outcome A
lift none = fault
lift (some a) = ok a

-- The code stays inside its buffers, and a value that it returns has the property.
abbrev pub Safe {ℓ} : {A : Type ℓ} → (A → Type 0) → Outcome A → Type 0
Safe P fault = ⊥
Safe P reject = Unit {0}
Safe P (ok a) = P a

pub Safe-bind {ℓ κ} :
    {A : Type ℓ} {B : Type κ} (P : A → Type 0) (Q : B → Type 0) (m : Outcome A) (f : A → Outcome B)
    → Safe P m
    → ((a : A) → P a → Safe Q (f a))
    → Safe Q (m >>= f)
Safe-bind P Q fault f h k = h
Safe-bind P Q reject f h k = tt
Safe-bind P Q (ok a) f h k = k a h

-- A refused test ends in `reject`; behind it the test is known to fail.
pub Safe-unless {ℓ} :
    {A : Type ℓ} (P : A → Type 0) (b : Bool) (m : Outcome A)
    → (b ≡ false → Safe P m)
    → Safe P (if b then reject else m)
Safe-unless P true m k = tt
Safe-unless P false m k = k refl

pub Safe-read {ℓ} :
    {A : Type ℓ} (P : A → Type 0) (o n : ℕ) (d : List ℕ) (f : List ℕ → Outcome A)
    → o + n ≤ length d
    → ((bs : List ℕ) → length bs ≡ n → Safe P (f bs))
    → Safe P (lift (read_at o n d) >>= f)
Safe-read P o n d f inside k = let (bs, e, l) = read_at_total o n d inside in rw e (k bs l)

pub bind_cong {ℓ κ} :
    {A : Type ℓ} {B : Type κ} (m n : Outcome A) (f g : A → Outcome B)
    → m ≡ n
    → ((a : A) → f a ≡ g a)
    → (m >>= f) ≡ (n >>= g)
bind_cong m n f g e h = rw (e, fun_ext h)

-- Inversion of a bind that returns.
pub bind-eq-ok {ℓ κ} :
    {A : Type ℓ} {B : Type κ} (m : Outcome A) (f : A → Outcome B) {b : B}
    → (m >>= f) ≡ ok b
    → (a : A) × (m ≡ ok a) × (f a ≡ ok b)
bind-eq-ok fault f h = cc
bind-eq-ok reject f h = cc
bind-eq-ok (ok a) f h = (a, refl, h)

pub ok-injective {ℓ} : {A : Type ℓ} {a b : A} → ok a ≡ ok b → a ≡ b
ok-injective h = cc
