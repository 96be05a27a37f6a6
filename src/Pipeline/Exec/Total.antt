-- ===== src/Pipeline/Exec/Total.antt =====
-- Actions that return whatever state they are run in: those that throw nothing, and those that catch.
use wtr.Common.{Bool, true, false, Result, ok, err, Failure, if◌then◌else◌}
use wtr.Pipeline.Store.{Store}
use wtr.Pipeline.Exec.{
  Run, Exec, ◌>>=◌, pure, attempt, reads, writes, begins, performed_so_far, current_sub_step,
}

-- The answer is a value, not an exception.
pub data IsReturned {A : Type 0} : Result A → Type 0 where
  returns : (a : A) → IsReturned (ok a)

pub record Total {W A : Type 0} (m : Exec W A) : Type 0 where
  pub at : (r : Run W) → IsReturned (m r).0

module _ {W A : Type 0} where
  pub pure-Total : (a : A) → Total (pure {W = W} a)
  unfolding pure
  pure-Total a = record { at = λ r. returns a }

  pub reads-Total : (f : Store → A) → Total (reads {W = W} f)
  unfolding reads
  reads-Total f = record { at = λ r. returns (f r.store) }

  pub if_Total : (b : Bool) (m n : Exec W A) → Total m → Total n → Total (if b then m else n)
  if_Total true m n km kn = km
  if_Total false m n km kn = kn

  -- A `try` whose handler throws nothing.
  pub attempt-Total :
      (m : Exec W A) (handler : Failure → Exec W A)
      → ((failure : Failure) → Total (handler failure))
      → Total (attempt m handler)
  unfolding attempt
  attempt-Total m handler k = record { at = λ r. after (m r).0 (m r).1 }
    where
      after : (answer : Result A) (r : Run W) → IsReturned (attempt (λ _. (answer, r)) handler r).0
      after (ok a) r = returns a
      after (err failure) r = (k failure).at r

module _ {W A B : Type 0} where
  pub bind-Total :
      (m : Exec W A) (f : A → Exec W B) → Total m → ((a : A) → Total (f a)) → Total (m >>= f)
  unfolding ◌>>=◌
  bind-Total m f km kf = record { at = λ r. after (m r).0 (m r).1 (km.at r) }
    where
      after :
          (answer : Result A) (r : Run W)
          → IsReturned answer
          → IsReturned (((λ _. (answer, r)) >>= f) r).0
      after (ok a) r h = (kf a).at r
      after (err failure) r h = elim h [ ]

module _ {W : Type 0} where
  pub writes-Total : (f : Store → Store) → Total (writes {W = W} f)
  unfolding writes
  writes-Total f = record { at = λ r. returns tt }

  pub begins-Total : Total (begins {W = W})
  unfolding begins
  begins-Total = record { at = λ r. returns tt }

  pub performed-Total : Total (performed_so_far {W = W})
  unfolding performed_so_far
  performed-Total = record { at = λ r. returns r.performed }

  pub sub_step-Total : Total (current_sub_step {W = W})
  unfolding current_sub_step
  sub_step-Total = record { at = λ r. returns r.sub_step }

pub ruleset total_rules = (
  pure-Total, reads-Total, if_Total, attempt-Total, bind-Total, writes-Total, begins-Total,
  performed-Total, sub_step-Total,
)
