-- ===== src/Requests/Funding.antt =====
-- lib/requests/service.ts: a brief shows no funding that its amounts do not back.
use wtr.Common.{
  ℕ, ◌/◌, ◌≤◌, ◌<◌, ◌≡◌, sym, ap, String, Bool, true, false, not, ◌||◌, [], ◌∷◌, All, All-append,
  Option, none, some, Gives, err-Gives, ok-Gives, if_Gives, >>=-Gives, always_Gives, ◌==◌, leb, ltb,
  nat_eq, leb→le, ltb→lt, nat_eq→eq, arith, eq_iff,
}
use wtr.Requests.{
  RequestRow, NewRequest, Tables, Clock, require, optional_or, check_names, check_form,
  check_deposit, check_paid, check_deadline, new_row, create_request,
}

-- The amounts of a brief back its funding mode.
pub record IsFunded (mode : String) (budget paid : ℕ) (deposit : Option ℕ) : Type 0 where
  pub positive : 0 < budget
  pub in_full : mode ≡ "full" → paid ≡ budget
  pub unfunded : mode ≡ "none" → paid ≡ 0
  pub deposited : mode ≡ "deposit" → (deposit ≡ some paid) × (budget / 10 ≤ paid) × (paid ≤ budget)

abbrev pub IsFundedRow : RequestRow → Type 0
IsFundedRow r = IsFunded r.funding_mode r.budget_wei r.amount_paid_wei r.deposit_wei

-- What a check lets through.
pub require-Gives :
    (test : Bool) (message : String) → Gives (λ _. test ≡ true) (require test message)
require-Gives test message = if_Gives _ test _ _ (λ e. ok-Gives _ tt e) (λ _. err-Gives _ _)

check_deposit-Gives :
    (input : NewRequest)
    → Gives
        (λ _.
          input.funding_mode ≡ "deposit"
          → (input.deposit_wei ≡ some input.amount_paid_wei)
            × (input.budget_wei / 10 ≤ input.amount_paid_wei)
            × (input.amount_paid_wei ≤ input.budget_wei))
        (check_deposit input)
unfolding check_deposit
check_deposit-Gives input =
    if_Gives _ (input.funding_mode == "deposit") _ _
      (λ _.
        >>=-Gives (λ _. enough input.deposit_wei ≡ true) _ _ _ (require-Gives _ _)
          (λ _ low.
            >>=-Gives (λ _. within input.deposit_wei ≡ true) _ _ _ (require-Gives _ _)
              (λ _ high. record {
                gives = λ u e _. facts input.deposit_wei low high ((require-Gives _ _).gives u e);
              })))
      (λ other.
        ok-Gives _ tt (λ e. let hit = (eq_iff input.funding_mode "deposit").1 e in absurd cc))
  where
    enough : Option ℕ → Bool
    enough o = optional_or (λ d. leb (input.budget_wei / 10) d) false o

    within : Option ℕ → Bool
    within o = optional_or (λ d. leb d input.budget_wei) false o

    exact : Option ℕ → Bool
    exact o = optional_or (λ d. nat_eq input.amount_paid_wei d) false o

    facts :
        (o : Option ℕ)
        → enough o ≡ true
        → within o ≡ true
        → exact o ≡ true
        → (o ≡ some input.amount_paid_wei)
          × (input.budget_wei / 10 ≤ input.amount_paid_wei)
          × (input.amount_paid_wei ≤ input.budget_wei)
    facts none low high same = absurd cc
    facts (some d) low high same =
        let e : input.amount_paid_wei ≡ d = nat_eq→eq _ _ same in
        (ap some (sym e), omega (arith, leb→le _ _ low), omega (arith, leb→le _ _ high))

check_paid-Gives :
    (input : NewRequest)
    → Gives
        (λ _.
          (input.funding_mode ≡ "full" → input.amount_paid_wei ≡ input.budget_wei)
          × (input.funding_mode ≡ "none" → input.amount_paid_wei ≡ 0))
        (check_paid input)
unfolding check_paid
check_paid-Gives input =
    >>=-Gives
      (λ _.
        (not (input.funding_mode == "full") || nat_eq input.amount_paid_wei input.budget_wei)
        ≡ true)
      _ _ _ (require-Gives _ _)
      (λ _ full. record {
        gives = λ u e.
            let unpaid = (require-Gives _ _).gives u e in
            (
              λ f. let hit = (eq_iff input.funding_mode "full").1 f in ground arith,
              λ n. let hit = (eq_iff input.funding_mode "none").1 n in ground arith,
            );
      })

check_form-Gives : (input : NewRequest) → Gives (λ _. 0 < input.budget_wei) (check_form input)
unfolding check_form
check_form-Gives input = always_Gives _ (check_names input) _ (λ _.
    >>=-Gives (λ _. ltb 0 input.budget_wei ≡ true) _
      (require (ltb 0 input.budget_wei) "budget must be positive") _ (require-Gives _ _)
      (λ _ positive. record { gives = λ u e. ltb→lt _ _ positive }))

pub create_request-IsFunded :
    (clock : Clock) (requester anon : String) (input : NewRequest) (db : Tables)
    → All IsFundedRow db.requests
    → Gives
        (λ (id, next). All IsFundedRow next.requests)
        (create_request clock requester anon input db)
unfolding create_request
create_request-IsFunded clock requester anon input db h =
    >>=-Gives _ _ (check_form input) _ (check_form-Gives input) (λ _ positive.
      >>=-Gives _ _ (check_deposit input) _ (check_deposit-Gives input) (λ _ deposited.
        >>=-Gives _ _ (check_paid input) _ (check_paid-Gives input) (λ _ (full, unpaid).
          always_Gives _ (check_deadline clock input.deadline) _ (λ deadline.
            always_Gives _ _ _ (λ _. ok-Gives _ _ (
              All-append IsFundedRow db.requests
                (new_row requester anon input deadline db.counter ∷ []) h
                (
                  record {
                    positive = positive;
                    in_full = full;
                    unfunded = unpaid;
                    deposited = deposited;
                  },
                  tt,
                )))))))
