-- ===== src/Common/Results.antt =====
-- A computation that may throw, and the actions of an `async` function over a state.
use Prim.Native.String.{String}
use mathlib.Core.Path.{◌≡◌, refl, ap, subst}
use mathlib.Core.Bool.{Bool, true, false}
use mathlib.Core.Option.{Option, none, some}
use native.Mathlib.Omega.{arith}
use wtr.Common.Cases.{if◌then◌else◌}

-- `Error`: its name and its message.
pub record Failure : Type 0 where
  pub name : String
  pub message : String

abbrev pub error : String → Failure
error message = record { name = "Error"; message = message }

pub data Result {ℓ} (A : Type ℓ) : Type ℓ where
  ok : A → Result A
  err : Failure → Result A

-- What follows a step that may throw.
infixl 10 ◌>>=◌
abbrev pub ◌>>=◌ {ℓ κ} : {A : Type ℓ} {B : Type κ} → Result A → (A → Result B) → Result B
ok a >>= f = f a
err failure >>= f = err failure

module _ {ℓ κ} {A : Type ℓ} {B : Type κ} where
  -- A chain that gives a result went through a result of its first step.
  pub >>=-ok :
      (r : Result A) (f : A → Result B) {b : B}
      → (r >>= f) ≡ ok b
      → (a : A) × (r ≡ ok a) × (f a ≡ ok b)
  >>=-ok (ok a) f e = (a, refl, e)
  >>=-ok (err failure) f e = ground arith

-- What a computation gives satisfies `P`, unless it throws; what an option holds satisfies it.
pub record Gives {ℓ κ} {A : Type ℓ} (P : A → Type κ) (r : Result A) : Type (ℓ ⊔ κ) where
  pub gives : (a : A) → r ≡ ok a → P a

pub record Holds {ℓ κ} {A : Type ℓ} (P : A → Type κ) (o : Option A) : Type (ℓ ⊔ κ) where
  pub holds : (a : A) → o ≡ some a → P a

module _ {ℓ κ} {A : Type ℓ} (P : A → Type κ) where
  pub ok-Gives : (a : A) → P a → Gives P (ok a)
  ok-Gives a p = record { gives = λ b e. subst P (ap (λ r. elim r [ ok c ↦ c | err f ↦ a ]) e) p }

  pub err-Gives : (f : Failure) → Gives P (err f)
  err-Gives f = record { gives = λ b e. ground arith }

  pub some-Holds : (a : A) → P a → Holds P (some a)
  some-Holds a p = record {
    holds = λ b e. subst P (ap (λ o. elim o [ some c ↦ c | none ↦ a ]) e) p;
  }

  pub none-Holds : Holds P none
  none-Holds = record { holds = λ b e. ground arith }

  -- A test, with what it says in each branch.
  pub if_Gives :
      (b : Bool) (x y : Result A)
      → (b ≡ true → Gives P x)
      → (b ≡ false → Gives P y)
      → Gives P (if b then x else y)
  if_Gives true x y g h = g refl
  if_Gives false x y g h = h refl

  pub if_Holds :
      (b : Bool) (x y : Option A)
      → (b ≡ true → Holds P x)
      → (b ≡ false → Holds P y)
      → Holds P (if b then x else y)
  if_Holds true x y g h = g refl
  if_Holds false x y g h = h refl

pub >>=-Gives {ℓ κ μ ν} :
    {A : Type ℓ} {B : Type κ} (Q : A → Type μ) (P : B → Type ν) (r : Result A) (f : A → Result B)
    → Gives Q r
    → ((a : A) → Q a → Gives P (f a))
    → Gives P (r >>= f)
>>=-Gives Q P (ok a) f q g = g a (q.gives a refl)
>>=-Gives Q P (err failure) f q g = err-Gives P failure

pub always_Gives {ℓ κ μ} :
    {A : Type ℓ} {B : Type κ} (P : B → Type μ) (r : Result A) (f : A → Result B)
    → ((a : A) → Gives P (f a))
    → Gives P (r >>= f)
always_Gives P (ok a) f g = g a
always_Gives P (err failure) f g = err-Gives P failure
