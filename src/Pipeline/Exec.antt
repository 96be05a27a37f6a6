-- ===== src/Pipeline/Exec.antt =====
-- The `async` functions of the stage handlers: actions that change the store and the outside world
-- and may throw. What was done before an exception stays done.
pub mod Hoare
pub mod Total
use wtr.Common.{
  String, List, [], push, Result, ok, err, Failure, Option, none, some, error, template,
}
use wtr.Pipeline.Store.{Store}
use wtr.Pipeline.Ports.{Port}

-- `performed` and `subStep` are the handlers' own variables, which their `catch` blocks read.
pub record Run (W : Type 0) : Type 0 where
  pub store : Store
  pub world : W
  pub performed : List String
  pub sub_step : String

abbrev pub Exec : Type 0 → Type 0 → Type 0
Exec W A = Run W → Result A × Run W

module _ {W : Type 0} where
  abbrev continue : {A B : Type 0} → Result A → (A → Exec W B) → Exec W B
  continue (ok a) f r = f a r
  continue (err failure) f r = (err failure, r)

  infixl 10 ◌>>=◌ ◌>>◌
  unfoldable pub ◌>>=◌ : {A B : Type 0} → Exec W A → (A → Exec W B) → Exec W B
  ◌>>=◌ m f r = let (answer, r') = m r in continue answer f r'

  abbrev pub ◌>>◌ : {A B : Type 0} → Exec W A → Exec W B → Exec W B
  m >> n = m >>= λ _. n

  unfoldable pub pure : {A : Type 0} → A → Exec W A
  pure a r = (ok a, r)

  unfoldable pub throw : {A : Type 0} → Failure → Exec W A
  throw failure r = (err failure, r)

  abbrev recover : {A : Type 0} → Result A → (Failure → Exec W A) → Exec W A
  recover (ok a) handler r = (ok a, r)
  recover (err failure) handler r = handler failure r

  -- `try { … } catch (error) { … }`
  unfoldable pub attempt : {A : Type 0} → Exec W A → (Failure → Exec W A) → Exec W A
  attempt m handler r = let (answer, r') = m r in recover answer handler r'

  -- A read of the store.
  unfoldable pub reads : {A : Type 0} → (Store → A) → Exec W A
  reads f r = (ok (f r.store), r)

  -- A write to the store.
  unfoldable pub writes : (Store → Store) → Exec W (Unit {0})
  writes f r = (ok tt, record r { store = f r.store })

  -- A write that returns the row that it made.
  unfoldable pub makes : {A : Type 0} → (Store → A × Store) → Exec W A
  makes f r = let (a, s) = f r.store in (ok a, record r { store = s })

  -- A call that goes out.
  unfoldable pub calls : {Request Answer : Type 0} → Port W Request Answer → Request → Exec W Answer
  calls port request r = let (answer, w) = port request r.world in (answer, record r { world = w })

  unfoldable pub asks : {A : Type 0} → (W → A × W) → Exec W A
  asks f r = let (a, w) = f r.world in (ok a, record r { world = w })

  unfoldable pub lift : {A : Type 0} → Result A → Exec W A
  lift answer r = (answer, r)

  -- `const performed = []; let subStep = "3a"`
  unfoldable pub begins : Exec W (Unit {0})
  begins r = (ok tt, record r { performed = []; sub_step = "3a" })

  -- `performed.push(step)`
  unfoldable pub performs : String → Exec W (Unit {0})
  performs step r = (ok tt, record r { performed = push r.performed step })

  -- `subStep = step`
  unfoldable pub enters : String → Exec W (Unit {0})
  enters step r = (ok tt, record r { sub_step = step })

  unfoldable pub performed_so_far : Exec W (List String)
  performed_so_far r = (ok r.performed, r)

  unfoldable pub current_sub_step : Exec W String
  current_sub_step r = (ok r.sub_step, r)

  -- `if (value === null) throw new Error(message)`
  unfoldable pub need : {A : Type 0} → Option A → List String → Exec W A
  unfolding throw pure
  need none message = throw (error (template message))
  need (some a) message = pure a
