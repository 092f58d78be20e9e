-- ===== src/Common/Tests.antt =====
-- Boolean tests on the native numbers, the conditional, and the chain of checks that may fail.
use Prim.Native.Nat.{ℕ, ◌≤◌, ◌<◌, compare, Ordering}
use mathlib.Core.Path.{◌≡◌, refl, subst}
use mathlib.Core.Logic.{◌⊎◌, inl, inr, ◌≢◌}
use mathlib.Core.Bool.{Bool, true, false}
use mathlib.Core.Option.{Option, none, some}
use native.Mathlib.Omega.{arith}

abbrev pub ltb : ℕ → ℕ → Bool
ltb a b = elim (compare a b) [ Ordering.lt ↦ true | _ ↦ false ]

abbrev pub leb : ℕ → ℕ → Bool
leb a b = elim (compare a b) [ Ordering.gt ↦ false | _ ↦ true ]

infix 50 ◌==◌ ◌!=◌
abbrev pub ◌==◌ : ℕ → ℕ → Bool
a == b = elim (compare a b) [ Ordering.eq ↦ true | _ ↦ false ]

abbrev pub ◌!=◌ : ℕ → ℕ → Bool
a != b = elim (compare a b) [ Ordering.eq ↦ false | _ ↦ true ]

infix 1 if◌then◌else◌
abbrev pub if◌then◌else◌ {ℓ} : {A : Type ℓ} → Bool → A → A → A
if true then x else y = x
if false then x else y = y

-- A failed `REQUIRE` stops the kernel: `none`.
infixl 5 ◌>>=◌ ◌>>◌
abbrev pub ◌>>=◌ {ℓ κ} : {A : Type ℓ} {B : Type κ} → Option A → (A → Option B) → Option B
none >>= f = none
some a >>= f = f a

abbrev pub ◌>>◌ {ℓ} : {B : Type ℓ} → Option (Unit {0}) → Option B → Option B
m >> k = m >>= λ _. k

abbrev pub require : Bool → Option (Unit {0})
require true = some tt
require false = none

pub Bool-cases : (b : Bool) → (b ≡ true) ⊎ (b ≡ false)
Bool-cases true = inl refl
Bool-cases false = inr refl

pub Option-cases {ℓ} : {A : Type ℓ} (o : Option A) → (o ≡ none) ⊎ ((a : A) × (o ≡ some a))
Option-cases none = inl refl
Option-cases (some a) = inr (a, refl)

pub ==→eq : (a b : ℕ) → (a == b) ≡ true → a ≡ b
==→eq a b h = ground arith

pub eq→== : (a b : ℕ) → a ≡ b → (a == b) ≡ true
eq→== a b h = ground arith

pub ne→== : (a b : ℕ) → a ≢ b → (a == b) ≡ false
ne→== a b h = ground arith

pub ne→!= : (a b : ℕ) → a ≢ b → (a != b) ≡ true
ne→!= a b h = ground arith

pub ltb→lt : (a b : ℕ) → ltb a b ≡ true → a < b
ltb→lt a b h = ground arith

pub lt→ltb : (a b : ℕ) → a < b → ltb a b ≡ true
lt→ltb a b h = ground arith

pub le→ltb : (a b : ℕ) → b ≤ a → ltb a b ≡ false
le→ltb a b h = ground arith

pub ltb→le : (a b : ℕ) → ltb a b ≡ false → b ≤ a
ltb→le a b h = ground arith

pub leb→le : (a b : ℕ) → leb a b ≡ true → a ≤ b
leb→le a b h = ground arith

pub le→leb : (a b : ℕ) → a ≤ b → leb a b ≡ true
le→leb a b h = ground arith

-- A chain that ends well has come through its first step, and through its check.
pub bind-some {ℓ κ} :
    {A : Type ℓ} {B : Type κ} (o : Option A) (f : A → Option B) (b : B)
    → (o >>= f) ≡ some b
    → (a : A) × (o ≡ some a) × (f a ≡ some b)
bind-some none f b e = absurd cc
bind-some (some a) f b e = (a, refl, e)

-- The other way: a chain of steps that have results.
pub bind_runs {ℓ κ} :
    {A : Type ℓ} {B : Type κ} (o : Option A) (f : A → Option B) (a : A) (b : B)
    → o ≡ some a
    → f a ≡ some b
    → (o >>= f) ≡ some b
bind_runs none f a b e es = absurd cc
bind_runs (some x) f a b e es = let same : a ≡ x = cc in subst (λ y. f y ≡ some b) same es

pub require_runs {ℓ} :
    {B : Type ℓ} (c : Bool) (k : Option B) (b : B)
    → c ≡ true
    → k ≡ some b
    → (require c >> k) ≡ some b
require_runs true k b e es = es
require_runs false k b e es = absurd cc

pub require-some {ℓ} :
    {B : Type ℓ} (c : Bool) (k : Option B) (b : B)
    → (require c >> k) ≡ some b
    → (c ≡ true) × (k ≡ some b)
require-some true k b e = (refl, e)
require-some false k b e = absurd cc

-- The branch that a test takes, in an equation.
pub if-true {ℓ} : {A : Type ℓ} (c : Bool) (a b r : A) → c ≡ true → (if c then a else b) ≡ r → a ≡ r
if-true true a b r c e = e
if-true false a b r c e = absurd cc

pub if-false {ℓ} :
    {A : Type ℓ} (c : Bool) (a b r : A) → c ≡ false → (if c then a else b) ≡ r → b ≡ r
if-false true a b r c e = absurd cc
if-false false a b r c e = e

unfoldable pub is_none {ℓ} : {A : Type ℓ} → Option A → Bool
is_none none = true
is_none (some a) = false

pub is_none-none {ℓ} : {A : Type ℓ} (o : Option A) → is_none o ≡ true → o ≡ none
unfolding is_none
is_none-none none e = refl
is_none-none (some a) e = absurd cc

pub is_none-some {ℓ} : {A : Type ℓ} (o : Option A) → is_none o ≡ false → (a : A) × (o ≡ some a)
unfolding is_none
is_none-some none e = absurd cc
is_none-some (some a) e = (a, refl)
