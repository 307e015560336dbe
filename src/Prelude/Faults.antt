-- ===== src/Prelude/Faults.antt =====
-- Results of code that may stop the process: a NULL pointer or an element past the end of an array that
-- is read, or an `assert` or `bug`
-- that fires.
use mathlib.Core.Bool.{Bool, true, false}
use mathlib.Core.Path.{◌≡◌, refl, subst, sym}
use mathlib.Core.Option.{Option, none, some, some-injective}

pub data Fault : Type 0 where
  null_deref assert_failed out_of_bounds : Fault

pub data Run {κ} (X : Type κ) : Type κ where
  fault : Fault → Run X
  ok : X → Run X

infixl 5 ◌>>=◌
abbrev pub ◌>>=◌ {κ ℓ} : {X : Type κ} {Y : Type ℓ} → Run X → (X → Run Y) → Run Y
fault stop >>= next = fault stop
ok x >>= next = next x

-- The code returns, and what it returns has the property.
abbrev pub Returns {ℓ} : {X : Type ℓ} → (X → Type 0) → Run X → Type 0
Returns P (ok x) = P x
Returns P (fault stop) = ⊥

pub Returns-bind :
    {X Y : Type 0} (P : X → Type 0) (Q : Y → Type 0) (r : Run X) (next : X → Run Y)
    → Returns P r
    → ((x : X) → P x → Returns Q (next x))
    → Returns Q (r >>= next)
Returns-bind P Q (ok x) next h k = k x h
Returns-bind P Q (fault stop) next h k = absurd h

-- A test: each branch returns where it is taken.
pub Returns-test :
    {X : Type 0} (Q : X → Type 0) (b : Bool) (next other : Run X)
    → (b ≡ true → Returns Q next)
    → (b ≡ false → Returns Q other)
    → Returns Q (elim b [ true ↦ next | false ↦ other ])
Returns-test Q true next other h k = h refl
Returns-test Q false next other h k = k refl

pub Returns-weaken :
    {X : Type 0} (P Q : X → Type 0) (r : Run X) → ((x : X) → P x → Q x) → Returns P r → Returns Q r
Returns-weaken P Q (ok x) f h = f x h
Returns-weaken P Q (fault stop) f h = h

pub Returns-some :
    {A X : Type 0} (Q : X → Type 0) (o : Option A) (a : A) (next : Run X) (f : A → Run X)
    → o ≡ some a
    → Returns Q (f a)
    → Returns Q (elim o [ none ↦ next | some b ↦ f b ])
Returns-some Q none a next f e h = absurd (cc e)
Returns-some Q (some b) a next f e h = subst (λ c. Returns Q (f c)) (sym (some-injective _ _ e)) h

-- A test for NULL: each branch returns where it is taken.
pub Returns-option :
    {A X : Type 0} (Q : X → Type 0) (o : Option A) (next : Run X) (f : A → Run X)
    → (o ≡ none → Returns Q next)
    → ((a : A) → o ≡ some a → Returns Q (f a))
    → Returns Q (elim o [ none ↦ next | some a ↦ f a ])
Returns-option Q none next f h k = h refl
Returns-option Q (some a) next f h k = k a refl
