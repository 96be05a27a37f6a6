-- ===== src/Requests/Recorded.antt =====
-- lib/requests/service.ts: what its operations keep, and the theorems on their histories.
use wtr.Common.{
  ℕ, ◌+◌, ◌≤◌, ◌≡◌, refl, sym, ap, ◌∙◌, subst, String, Bool, true, false, not, ◌||◌, List, [], ◌∷◌,
  push, keep, keep-append, length, length-append, find, any, All, All-append, IsIn, IsIn-append, ok,
  Gives, ok-Gives, ◌>>=◌, >>=-Gives, always_Gives, if◌then◌else◌, if_yes, if_no, Bool-cases, inl,
  inr, arith, eq_iff, nat_eq, nat_eq→eq, ltb,
}
use mathlib.Core.Bool.{and-eq-true_iff}
use wtr.Common.Value.{end}
use wtr.Pipeline.Types.{AssetEvent, submitted_to_request}
use wtr.Pipeline.Rows.{AppendEventInput}
use wtr.Pipeline.PgLog.{insert_event, insert_row, insert_event-Gives}
use wtr.Pipeline.Log.Kinds.{clashes}
use wtr.Requests.{
  SubmissionRow, Tables, Clock, NewRequest, pending, closed, require, optional_or, check_form,
  check_deposit, check_paid, check_deadline, create_request,
}
use wtr.Requests.Steps.{
  is_pending, is_opened, submits, row_or, submission_event, Decision, decided, reviewable,
  review_submission, closable, close_request, is_kyc_verified, is_eligible, submit_asset, removable,
  withdraw_submission, Step, created, submitted, withdrawn, reviewed, request_closed, elsewhere,
  logged, History, start, step,
}
use wtr.Requests.Funding.{IsFundedRow, create_request-IsFunded, require-Gives}
use wtr.Requests.Final.{
  HasUniquePairs, HasEvent, IsRecorded, HasSubmitKinds, FitsSubmit, HasEvent-IsRecorded,
  IsRecorded-HasEvent, other-FitsSubmit, insert_row-HasSubmitKinds, update_rows-mem,
  update_rows-All, update_rows-keep, keep-mem, keep-All, keep_fewer, keep_none, All_map,
  insert_row-any, insert_row-replay,
}

-- What an operation keeps.
record Keeps (db next : Tables) : Type 0 where
  funded : All IsFundedRow db.requests → All IsFundedRow next.requests
  decided :
      (s : SubmissionRow)
      → is_pending s.status ≡ false
      → IsIn s db.submissions
      → IsIn s next.submissions
  unique : HasUniquePairs db.submissions → HasUniquePairs next.submissions
  recorded : All (HasEvent db.log) db.submissions → All (HasEvent next.log) next.submissions
  kinds : HasSubmitKinds db.log → HasSubmitKinds next.log

create_request-same :
    (clock : Clock) (requester anon : String) (input : NewRequest) (db : Tables)
    → Gives
        (λ (id, next). (next.submissions ≡ db.submissions) × (next.log ≡ db.log))
        (create_request clock requester anon input db)
unfolding create_request
create_request-same clock requester anon input db = always_Gives _ (check_form input) _ (λ _.
    always_Gives _ (check_deposit input) _ (λ _. always_Gives _ (check_paid input) _ (λ _.
      always_Gives _ (check_deadline clock input.deadline) _
        (λ _. always_Gives _ _ _ (λ _. ok-Gives _ _ (refl, refl))))))

created-Keeps :
    (clock : Clock) (requester anon : String) (input : NewRequest) (db next : Tables) (id : ℕ)
    → create_request clock requester anon input db ≡ ok (id, next)
    → Keeps db next
created-Keeps clock requester anon input db next id e =
    let (rows, log) = (create_request-same clock requester anon input db).gives (id, next) e in
    record {
      funded = λ h. (create_request-IsFunded clock requester anon input db h).gives (id, next) e;
      decided = λ s d m. subst (IsIn s) (sym rows) m;
      unique = λ h. subst HasUniquePairs (sym rows) h;
      recorded = λ h.
          subst (λ l. All (HasEvent l) next.submissions) (sym log)
            (subst (All (HasEvent db.log)) (sym rows) h);
      kinds = λ h. subst HasSubmitKinds (sym log) h;
    }

close_request-Keeps :
    (creator : String) (id : ℕ) (db : Tables) → Gives (Keeps db) (close_request creator id db)
unfolding close_request
close_request-Keeps creator id db =
    always_Gives _ (row_or _ (find (closable creator id) db.requests)) _ (λ _.
      ok-Gives _ _ (record {
        funded = λ h.
            update_rows-All (closable creator id) (λ r. record r { status = closed }) IsFundedRow
              db.requests (λ r f. f) h;
        decided = λ s d m. m;
        unique = λ h. h;
        recorded = λ h. h;
        kinds = λ h. h;
      }))

-- A row that is kept apart from its status stays recorded as the log grows.
HasEvent-insert :
    (clock : Clock) (input : AppendEventInput) (log next : List AssetEvent)
    (rows : List SubmissionRow)
    → next ≡ insert_row clock.serial clock.moment input log
    → All (HasEvent log) rows
    → All (HasEvent next) rows
HasEvent-insert clock input log next rows same h =
    subst (λ l. All (HasEvent l) rows) (sym same)
      (All_map (HasEvent log) (HasEvent _) rows
        (λ s r. insert_row-any clock.serial clock.moment input log _ r) h)

HasSubmitKinds-insert :
    (clock : Clock) (input : AppendEventInput) (log next : List AssetEvent)
    → next ≡ insert_row clock.serial clock.moment input log
    → FitsSubmit input.idempotency_key input.event_type
    → HasSubmitKinds log
    → HasSubmitKinds next
HasSubmitKinds-insert clock input log next same fits h =
    subst HasSubmitKinds (sym same)
      (insert_row-HasSubmitKinds clock.serial clock.moment input log fits h)

-- What holds of the tables with every log that the statement can leave.
inserted :
    (P : Tables → Type 0) (clock : Clock) (input : AppendEventInput) (log : List AssetEvent)
    (tables : List AssetEvent → Tables)
    → ((next : List AssetEvent)
        → next ≡ insert_row clock.serial clock.moment input log
        → P (tables next))
    → Gives P (insert_event clock.serial clock.moment input log >>= λ next. ok (tables next))
inserted P clock input log tables f =
    >>=-Gives (λ next. next ≡ insert_row clock.serial clock.moment input log) _ _ _
      (insert_event-Gives clock.serial clock.moment input log)
      (λ next same. ok-Gives _ _ (f next same))

not_reviewable :
    (creator : String) (id : ℕ) (db : Tables) (s : SubmissionRow)
    → is_pending s.status ≡ false
    → reviewable creator id db s ≡ false
not_reviewable creator id db s e = ground arith

review_submission-Keeps :
    (clock : Clock) (creator : String) (id : ℕ) (decision : Decision) (db : Tables)
    → Gives (Keeps db) (review_submission clock creator id decision db)
unfolding review_submission clashes
review_submission-Keeps clock creator id decision db =
    always_Gives _ (row_or _ (find (reviewable creator id db) db.submissions)) _ (λ s.
      inserted _ clock _ db.log _ (λ next same. record {
        funded = λ h. h;
        decided = λ r d m.
            update_rows-mem test change r db.submissions (not_reviewable creator id db r d) m;
        unique = λ h request asset.
            subst (λ n. n ≤ 1)
              (sym
                (update_rows-keep test change (submits request asset) db.submissions (λ r. refl)))
              (h request asset);
        recorded = λ h.
            HasEvent-insert clock _ db.log next _ same
              (update_rows-All test change (HasEvent db.log) db.submissions (λ r f. f) h);
        kinds =
            HasSubmitKinds-insert clock _ db.log next same (other-FitsSubmit "review:" s.id _ refl);
      }))
  where
    test : SubmissionRow → Bool
    test = reviewable creator id db

    change : SubmissionRow → SubmissionRow
    change r = record r { status = decided decision }

not-removable :
    (creator : String) (request : ℕ) (asset : String) (db : Tables) (s : SubmissionRow)
    → is_pending s.status ≡ false
    → not (removable creator request asset db s) ≡ true
not-removable creator request asset db s e = ground arith

withdraw_submission-Keeps :
    (clock : Clock) (creator : String) (request : ℕ) (asset : String) (db : Tables)
    → Gives (Keeps db) (withdraw_submission clock creator request asset db)
unfolding withdraw_submission clashes
withdraw_submission-Keeps clock creator request asset db =
    always_Gives _ (row_or _ (find (removable creator request asset db) db.submissions)) _ (λ s.
      inserted _ clock _ db.log _ (λ next same. record {
        funded = λ h. h;
        decided =
            λ r d m. keep-mem stays r db.submissions (not-removable creator request asset db r d) m;
        unique = λ h other a.
            omega (arith, keep_fewer (submits other a) stays db.submissions, h other a);
        recorded = λ h.
            HasEvent-insert clock _ db.log next _ same
              (keep-All (HasEvent db.log) stays db.submissions h);
        kinds =
            HasSubmitKinds-insert clock _ db.log next same
              (other-FitsSubmit "submit-withdraw:" s.id _ refl);
      }))
  where
    stays : SubmissionRow → Bool
    stays r = not (removable creator request asset db r)

-- A pair that was not submitted gets its first row.
push-HasUniquePairs :
    (rows : List SubmissionRow) (s : SubmissionRow)
    → any (submits s.data_request_id s.asset_id) rows ≡ false
    → HasUniquePairs rows
    → HasUniquePairs (push rows s)
push-HasUniquePairs rows s new h request asset = elim (Bool-cases (submits request asset s)) [
  | inl hit ↦
      let (same_request, same_asset) = (and-eq-true_iff _ _).0 hit in
      let none_yet : length (keep (submits request asset) rows) ≡ 0 =
        keep_none (submits request asset) rows (
          subst (λ r. any (submits r asset) rows ≡ false) (nat_eq→eq _ _ same_request)
            (subst (λ a. any (submits s.data_request_id a) rows ≡ false) ((eq_iff _ _).0 same_asset)
              new)) in
      omega (arith, parts, ap length (if_yes (s ∷ []) [] hit), none_yet)
  | inr miss ↦ omega (arith, parts, ap length (if_no (s ∷ []) [] miss), h request asset)
]
  where
    parts :
        length (keep (submits request asset) (push rows s))
        ≡ length (keep (submits request asset) rows)
          + length (if submits request asset s then s ∷ [] else [])
    parts =
        ap length (keep-append (submits request asset) rows (s ∷ []))
        ∙ length-append (keep (submits request asset) rows) _

submit_asset-Keeps :
    (clock : Clock) (creator : String) (request : ℕ) (asset : String) (db : Tables)
    → Gives (Keeps db) (submit_asset clock creator request asset db)
unfolding submit_asset
submit_asset-Keeps clock creator request asset db =
    always_Gives _ (row_or _ (find (λ r. nat_eq r.id request) db.requests)) _ (λ r.
      always_Gives _ (require (is_opened r.status) _) _ (λ _.
        always_Gives _ (require (optional_or (λ t. ltb clock.milliseconds t) true r.deadline) _) _
          (λ _.
            always_Gives _ (require (not r.kyc_required || is_kyc_verified creator db.creators) _) _
              (λ _.
                always_Gives _ (require (is_eligible creator asset r.license_preset db) _) _ (λ _.
                  >>=-Gives (λ _. not (any (submits request asset) db.submissions) ≡ true) _ _ _
                    (require-Gives _ _)
                    (λ _ new. inserted _ clock _ db.log _ (λ next same. record {
                      funded = λ h. h;
                      decided = λ s d m. IsIn-append (row ∷ []) m;
                      unique = push-HasUniquePairs db.submissions row (ground arith);
                      recorded = λ h.
                          All-append (HasEvent next) db.submissions (row ∷ [])
                            (HasEvent-insert clock event db.log next db.submissions same h)
                            (HasEvent-insert_row next same, tt);
                      kinds = HasSubmitKinds-insert clock event db.log next same (λ id e. refl);
                    })))))))
  where
    row : SubmissionRow
    row = record { id = db.counter; data_request_id = request; asset_id = asset; status = pending }

    event : AppendEventInput
    event = submission_event submitted_to_request "submit:" row end

    HasEvent-insert_row :
        (next : List AssetEvent)
        → next ≡ insert_row clock.serial clock.moment event db.log
        → HasEvent next row
    HasEvent-insert_row next same =
        subst (λ l. HasEvent l row) (sym same)
          (insert_row-replay clock.serial clock.moment event _ db.log refl)

Step-Keeps : (db next : Tables) → Step db next → Keeps db next
Step-Keeps db next (created clock requester anon input {id} e) =
    created-Keeps clock requester anon input db next id e
Step-Keeps db next (submitted clock creator request asset e) =
    (submit_asset-Keeps clock creator request asset db).gives next e
Step-Keeps db next (withdrawn clock creator request asset e) =
    (withdraw_submission-Keeps clock creator request asset db).gives next e
Step-Keeps db next (reviewed clock creator id decision e) =
    (review_submission-Keeps clock creator id decision db).gives next e
Step-Keeps db next (request_closed creator id e) = (close_request-Keeps creator id db).gives next e
Step-Keeps db next (elsewhere assets listings creators) = record {
  funded = λ h. h;
  decided = λ s d m. m;
  unique = λ h. h;
  recorded = λ h. h;
  kinds = λ h. h;
}
Step-Keeps db next (logged clock input {log} foreign e) = record {
  funded = λ h. h;
  decided = λ s d m. m;
  unique = λ h. h;
  recorded = HasEvent-insert clock input db.log log db.submissions same;
  kinds = HasSubmitKinds-insert clock input db.log log same (λ id key. absurd (foreign id key));
}
  where
    same : log ≡ insert_row clock.serial clock.moment input db.log
    same = (insert_event-Gives clock.serial clock.moment input db.log).gives log e

-- From briefs whose amounts back their funding mode, any sequence of createRequest, submitAsset,
-- withdrawSubmission, reviewSubmission and closeRequest leaves only such briefs: a positive budget, paid in
-- full where the mode is full, nothing paid where it is none, and where it is deposit a paid amount that is
-- the deposit, at least the tenth of the budget rounded down to a whole number, which is less than a tenth for
-- a budget that ten does not divide, and at most the budget.
pub history-IsFundedRow :
    (db next : Tables)
    → History db next
    → All IsFundedRow db.requests
    → All IsFundedRow next.requests
history-IsFundedRow db next start h = h
history-IsFundedRow db next (step {later} before last) h =
    (Step-Keeps later next last).funded (history-IsFundedRow db later before h)

-- A decision is final: a submission that is accepted or rejected stands unchanged after any sequence of
-- operations.
pub history-decided :
    (db next : Tables) (s : SubmissionRow)
    → History db next
    → is_pending s.status ≡ false
    → IsIn s db.submissions
    → IsIn s next.submissions
history-decided db next s start d m = m
history-decided db next s (step {later} before last) d m =
    (Step-Keeps later next last).decided s d (history-decided db later s before d m)

-- From tables where it holds, after any sequence of operations no asset stands twice among the submissions
-- of one request.
pub history-HasUniquePairs :
    (db next : Tables)
    → History db next
    → HasUniquePairs db.submissions
    → HasUniquePairs next.submissions
history-HasUniquePairs db next start h = h
history-HasUniquePairs db next (step {later} before last) h =
    (Step-Keeps later next last).unique (history-HasUniquePairs db later before h)

history-HasEvent :
    (db next : Tables)
    → History db next
    → HasSubmitKinds db.log
    → All (HasEvent db.log) db.submissions
    → HasSubmitKinds next.log × All (HasEvent next.log) next.submissions
history-HasEvent db next start k h = (k, h)
history-HasEvent db next (step {later} before last) k h =
    let (kinds, events) = history-HasEvent db later before k h in
    ((Step-Keeps later next last).kinds kinds, (Step-Keeps later next last).recorded events)

-- From tables where it holds, and whose log has the keys of submissions on `submitted_to_request` events only,
-- after any sequence of operations the log of the asset of each submission has the `submitted_to_request` that
-- recorded it, under the key of its id; other code may append any event under other keys.
pub history-IsRecorded :
    (db next : Tables)
    → History db next
    → HasSubmitKinds db.log
    → All (IsRecorded db.log) db.submissions
    → All (IsRecorded next.log) next.submissions
history-IsRecorded db next history k h =
    let (kinds, events) = history-HasEvent db next history k (
      All_map (IsRecorded db.log) (HasEvent db.log) db.submissions
        (λ s r. IsRecorded-HasEvent db.log s r) h) in
    All_map (HasEvent next.log) (IsRecorded next.log) next.submissions
      (λ s e. HasEvent-IsRecorded next.log s kinds e) events
