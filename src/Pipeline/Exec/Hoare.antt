-- ===== src/Pipeline/Exec/Hoare.antt =====
-- What an action makes of the event log: a postcondition where it returns, another where it throws.
use wtr.Common.{
  String, List, Bool, true, false, Option, none, some, Result, ok, err, Failure, if◌then◌else◌, ◌≡◌,
  refl,
}
use wtr.Pipeline.Types.{AssetEvent}
use wtr.Pipeline.Store.{Store}
use wtr.Pipeline.Ports.{Port}
use wtr.Pipeline.Exec.{
  Run, Exec, ◌>>=◌, pure, throw, attempt, reads, writes, makes, calls, asks, lift, begins, performs,
  enters, performed_so_far, current_sub_step, need,
}

abbrev pub Log : Type 0
Log = List AssetEvent

abbrev pub Outcome {ℓ} :
    {A : Type 0} → (A → Log → Type ℓ) → (Log → Type ℓ) → Result A → Log → Type ℓ
Outcome Q E (ok a) log = Q a log
Outcome Q E (err failure) log = E log

pub record Ensures {ℓ} {W A : Type 0} (P : Log → Type ℓ) (m : Exec W A) (Q : A → Log → Type ℓ)
    (E : Log → Type ℓ) : Type ℓ where
  pub at : (r : Run W) → P r.store.events → Outcome Q E (m r).0 (m r).1.store.events

-- `m` keeps `P`, whether it returns or throws.
abbrev pub Keeps {ℓ} : {W A : Type 0} → (Log → Type ℓ) → Exec W A → Type ℓ
Keeps P m = Ensures P m (λ _. P) P

quiet {ℓ} :
    {A : Type 0} {P E : Log → Type ℓ}
    → ((log : Log) → P log → E log)
    → (answer : Result A) (log : Log) → P log
    → Outcome {A = A} (λ _. P) E answer log
quiet weaker (ok a) log h = h
quiet weaker (err failure) log h = weaker log h

module _ {ℓ} {W A : Type 0} {P : Log → Type ℓ} {E : Log → Type ℓ}
    (weaker : (log : Log) → P log → E log) where
  pub pure_rule : (a : A) → Ensures P (pure {W = W} a) (λ _. P) E
  unfolding pure
  pure_rule a = record { at = λ r h. h }

  pub throw_rule : (failure : Failure) → Ensures P (throw {W = W} {A = A} failure) (λ _. P) E
  unfolding throw
  throw_rule failure = record { at = λ r h. weaker _ h }

  pub reads_rule : (f : Store → A) → Ensures P (reads {W = W} f) (λ _. P) E
  unfolding reads
  reads_rule f = record { at = λ r h. h }

  pub asks_rule : (f : W → A × W) → Ensures P (asks f) (λ _. P) E
  unfolding asks
  asks_rule f = record { at = λ r h. h }

  pub lift_rule : (answer : Result A) → Ensures P (lift {W = W} answer) (λ _. P) E
  unfolding lift
  lift_rule answer = record { at = λ r h. quiet weaker answer _ h }

  pub need_rule :
      (o : Option A) (message : List String) → Ensures P (need {W = W} o message) (λ _. P) E
  unfolding need
  need_rule none message = record { at = λ r h. weaker _ h }
  need_rule (some a) message = record { at = λ r h. h }

  pub calls_rule :
      {Request : Type 0} (port : Port W Request A) (request : Request)
      → Ensures P (calls port request) (λ _. P) E
  unfolding calls
  calls_rule port request = record { at = λ r h. quiet weaker (port request r.world).0 _ h }

module _ {ℓ} {W A : Type 0} {P : Log → Type ℓ} {E : Log → Type ℓ} where
  pub if_rule :
      {Q : A → Log → Type ℓ} (b : Bool) (m n : Exec W A)
      → (b ≡ true → Ensures P m Q E)
      → (b ≡ false → Ensures P n Q E)
      → Ensures P (if b then m else n) Q E
  if_rule true m n km kn = km refl
  if_rule false m n km kn = kn refl

module _ {ℓ} {W : Type 0} {P : Log → Type ℓ} {E : Log → Type ℓ} where
  pub performs_rule : (step : String) → Ensures P (performs {W = W} step) (λ _. P) E
  unfolding performs
  performs_rule step = record { at = λ r h. h }

  pub enters_rule : (step : String) → Ensures P (enters {W = W} step) (λ _. P) E
  unfolding enters
  enters_rule step = record { at = λ r h. h }

  pub begins_rule : Ensures P (begins {W = W}) (λ _. P) E
  unfolding begins
  begins_rule = record { at = λ r h. h }

  pub performed_rule : Ensures P (performed_so_far {W = W}) (λ _. P) E
  unfolding performed_so_far
  performed_rule = record { at = λ r h. h }

  pub sub_step_rule : Ensures P (current_sub_step {W = W}) (λ _. P) E
  unfolding current_sub_step
  sub_step_rule = record { at = λ r h. h }

  pub writes_rule :
      {Q : Log → Type ℓ} (f : Store → Store)
      → ((s : Store) → P s.events → Q (f s).events)
      → Ensures P (writes {W = W} f) (λ _. Q) E
  unfolding writes
  writes_rule f h = record { at = λ r p. h r.store p }

module _ {ℓ} {W A : Type 0} {P : Log → Type ℓ} {E : Log → Type ℓ} where
  pub makes_rule :
      (f : Store → A × Store)
      → ((s : Store) → (f s).1.events ≡ s.events)
      → Ensures P (makes {W = W} f) (λ _. P) E
  unfolding makes
  makes_rule f same = record { at = λ r h. rw (same r.store) h }

  pub attempt_rule :
      {Q : A → Log → Type ℓ} {F : Log → Type ℓ} (m : Exec W A) (handler : Failure → Exec W A)
      → Ensures P m Q F
      → ((failure : Failure) → Ensures F (handler failure) Q E)
      → Ensures P (attempt m handler) Q E
  unfolding attempt
  attempt_rule {Q} {F} m handler km kh = record { at = λ r h. after (m r).0 (m r).1 (km.at r h) }
    where
      after :
          (answer : Result A) (r : Run W)
          → Outcome Q F answer r.store.events
          → Outcome Q E
              (attempt (λ _. (answer, r)) handler r).0
              (attempt (λ _. (answer, r)) handler r).1.store.events
      after (ok a) r h = h
      after (err failure) r h = (kh failure).at r h

  pub weaken_rule :
      {P' : Log → Type ℓ} {Q Q' : A → Log → Type ℓ} {E' : Log → Type ℓ} {m : Exec W A}
      → Ensures P m Q E
      → ((log : Log) → P' log → P log)
      → ((a : A) (log : Log) → Q a log → Q' a log)
      → ((log : Log) → E log → E' log)
      → Ensures P' m Q' E'
  weaken_rule {Q} {Q'} {E'} {m} k p q e = record { at = λ r h. shift (m r).0 _ (k.at r (p _ h)) }
    where
      shift : (answer : Result A) (log : Log) → Outcome Q E answer log → Outcome Q' E' answer log
      shift (ok a) log h = q a log h
      shift (err failure) log h = e log h

module _ {ℓ} {W A B : Type 0} {P : Log → Type ℓ} {E : Log → Type ℓ} where
  pub bind_rule :
      {Q : A → Log → Type ℓ} {R : B → Log → Type ℓ} (m : Exec W A) (f : A → Exec W B)
      → Ensures P m Q E
      → ((a : A) → Ensures (Q a) (f a) R E)
      → Ensures P (m >>= f) R E
  unfolding ◌>>=◌
  bind_rule {Q} {R} m f km kf = record { at = λ r h. after (m r).0 (m r).1 (km.at r h) }
    where
      after :
          (answer : Result A) (r : Run W)
          → Outcome Q E answer r.store.events
          → Outcome R E
              (((λ _. (answer, r)) >>= f) r).0
              (((λ _. (answer, r)) >>= f) r).1.store.events
      after (ok a) r h = (kf a).at r h
      after (err failure) r h = h

pub same {ℓ} : (P : Log → Type ℓ) (log : Log) → P log → P log
same P log h = h

pub ruleset quiet_rules = (
  same, pure_rule, throw_rule, reads_rule, asks_rule, lift_rule, need_rule, calls_rule,
  performs_rule, enters_rule, begins_rule, performed_rule, sub_step_rule,
)

module _ {ℓ} {W A B : Type 0} {P : Log → Type ℓ} {E : Log → Type ℓ} where
  -- The first action leaves the precondition as it was.
  pub then_rule :
      {R : B → Log → Type ℓ} (m : Exec W A) (f : A → Exec W B)
      → Ensures P m (λ _. P) E
      → ((a : A) → Ensures P (f a) R E)
      → Ensures P (m >>= f) R E
  then_rule m f km kf = bind_rule {Q = λ _. P} m f km kf

module _ {ℓ} {W A : Type 0} {P : Log → Type ℓ} {E : Log → Type ℓ} where
  -- A `try` whose body throws into the handler with the same condition.
  pub try_rule :
      {Q : A → Log → Type ℓ} (m : Exec W A) (handler : Failure → Exec W A)
      → Ensures P m Q E
      → ((failure : Failure) → Ensures E (handler failure) Q E)
      → Ensures P (attempt m handler) Q E
  try_rule m handler km kh = attempt_rule {F = E} m handler km kh
