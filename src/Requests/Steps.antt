-- ===== src/Requests/Steps.antt =====
-- lib/requests/service.ts: submitting, withdrawing, reviewing and closing, and their histories.
use wtr.Common.{
  ℕ, suc, ◌≡◌, ◌≢◌, String, Bool, true, false, not, ◌&&◌, ◌||◌, List, [], ◌∷◌, push, any, find,
  keep, Option, none, some, Result, ok, err, ◌>>=◌, ◌==◌, template, decimal, ltb, nat_eq,
  if◌then◌else◌,
}
use wtr.Common.Value.{Fields, str, num, end, field}
use wtr.Pipeline.Types.{
  EventType, submitted_to_request, submission_withdrawn, submission_accepted, submission_rejected,
  AssetEvent,
}
use wtr.Pipeline.Rows.{AppendEventInput}
use wtr.Pipeline.PgLog.{insert_event}
use wtr.Requests.{
  RequestRow, SubmissionRow, AssetOwner, ActiveListing, Poster, Tables, Clock, RequestStatus,
  opened, closed, SubmissionStatus, pending, accepted, rejected, NewRequest, request_error, require,
  optional_or, create_request,
}

abbrev pub is_opened : RequestStatus → Bool
is_opened opened = true
is_opened _ = false

abbrev pub is_pending : SubmissionStatus → Bool
is_pending pending = true
is_pending _ = false

-- The request with an id is owned by a creator.
abbrev pub owns : String → ℕ → List RequestRow → Bool
owns creator id requests =
    any (λ r. nat_eq r.id id && optional_or (λ c. c == creator) false r.requester_creator_id)
      requests

-- A row, or the error.
abbrev pub row_or : {A : Type 0} → String → Option A → Result A
row_or message none = err (request_error message)
row_or message (some a) = ok a

-- The event that the service appends for a submission, under a key of this beginning.
abbrev pub submission_event : EventType → String → SubmissionRow → Fields → AppendEventInput
submission_event event_type key s more = record {
  asset_id = s.asset_id;
  event_type = event_type;
  payload = field "dataRequestId" (num s.data_request_id) (field "submissionId" (num s.id) more);
  idempotency_key = some (template (key ∷ decimal s.id ∷ []));
  promoted_to_trace = false;
  trace_seq = none;
}

abbrev pub Decision : Type 0
Decision = Bool

abbrev pub decided : Decision → SubmissionStatus
decided true = accepted
decided false = rejected

abbrev pub decision_event : Decision → EventType
decision_event true = submission_accepted
decision_event false = submission_rejected

abbrev pub decision_text : Decision → String
decision_text true = "accepted"
decision_text false = "rejected"

-- The rows that the statement of `reviewSubmission` updates.
abbrev pub reviewable : String → ℕ → Tables → SubmissionRow → Bool
reviewable creator id db s =
    nat_eq s.id id && (owns creator s.data_request_id db.requests && is_pending s.status)

abbrev pub update_rows : {A : Type 0} → (A → Bool) → (A → A) → List A → List A
update_rows test change [] = []
update_rows test change (row ∷ rows) =
    let rest = update_rows test change rows in if test row then change row ∷ rest else row ∷ rest

-- `reviewSubmission`
unfoldable pub review_submission : Clock → String → ℕ → Decision → Tables → Result Tables
review_submission clock creator id decision db = do
  s ←
      row_or "no pending submission to review — decisions are final"
        (find (reviewable creator id db) db.submissions)
  let event =
      submission_event (decision_event decision) "review:" s
        (field "decision" (str (decision_text decision)) end)
  log ← insert_event clock.serial clock.moment event db.log
  ok (record db {
    submissions =
        update_rows (reviewable creator id db) (λ s. record s { status = decided decision })
          db.submissions;
    log = log;
  })

abbrev pub closable : String → ℕ → RequestRow → Bool
closable creator id r =
    nat_eq r.id id
    && (optional_or (λ c. c == creator) false r.requester_creator_id && is_opened r.status)

-- `closeRequest`
unfoldable pub close_request : String → ℕ → Tables → Result Tables
close_request creator id db = do
  _ ← row_or "no open request of yours to close" (find (closable creator id) db.requests)
  ok (record db {
    requests = update_rows (closable creator id) (λ r. record r { status = closed }) db.requests;
  })

abbrev pub is_kyc_verified : String → List Poster → Bool
is_kyc_verified id creators =
    optional_or (λ c. c.kyc_verified) false (find (λ c. c.id == id) creators)

-- The asset is the creator's and has an active listing under the preset.
abbrev pub is_eligible : String → String → String → Tables → Bool
is_eligible creator asset preset db =
    any (λ a. a.id == asset && a.creator_id == creator) db.assets
    && any (λ l. l.asset_id == asset && l.license_preset == preset) db.listings

-- The row that `submission_unique` names.
abbrev pub submits : ℕ → String → SubmissionRow → Bool
submits request asset s = nat_eq s.data_request_id request && s.asset_id == asset

-- `submitAsset`
unfoldable pub submit_asset : Clock → String → ℕ → String → Tables → Result Tables
submit_asset clock creator request asset db = do
  r ← row_or "request not found" (find (λ r. nat_eq r.id request) db.requests)
  _ ← require (is_opened r.status) "this request is no longer accepting submissions"
  _ ←
      require (optional_or (λ t. ltb clock.milliseconds t) true r.deadline)
        "this request's deadline has passed"
  _ ←
      require (not r.kyc_required || is_kyc_verified creator db.creators)
        "this request requires KYC-verified creators"
  _ ←
      require (is_eligible creator asset r.license_preset db)
        "this asset has no active listing under the request's license terms"
  _ ← require (not (any (submits request asset) db.submissions)) "this asset is already submitted"
  let row : SubmissionRow = record {
    id = db.counter;
    data_request_id = request;
    asset_id = asset;
    status = pending;
  }
  log ←
      insert_event clock.serial clock.moment
        (submission_event submitted_to_request "submit:" row end) db.log
  ok (record db { submissions = push db.submissions row; log = log; counter = suc db.counter })

-- The rows that the statement of `withdrawSubmission` deletes.
abbrev pub removable : String → ℕ → String → Tables → SubmissionRow → Bool
removable creator request asset db s =
    submits request asset s
    && (any (λ a. a.id == asset && a.creator_id == creator) db.assets && is_pending s.status)

-- `withdrawSubmission`
unfoldable pub withdraw_submission : Clock → String → ℕ → String → Tables → Result Tables
withdraw_submission clock creator request asset db = do
  s ←
      row_or "no pending submission to withdraw — accepted ones are final"
        (find (removable creator request asset db) db.submissions)
  log ←
      insert_event clock.serial clock.moment
        (submission_event submission_withdrawn "submit-withdraw:" s end) db.log
  ok (record db {
    submissions = keep (λ s. not (removable creator request asset db s)) db.submissions;
    log = log;
  })

-- The key of the event that records a submission.
abbrev pub submit_key : ℕ → String
submit_key id = template ("submit:" ∷ decimal id ∷ [])

-- What the service changes the tables by; in between, what it does not write may change, and any event may be
-- appended under a key that is no submission's: no other code writes such keys.
pub data Step (db : Tables) : Tables → Type 0 where
  created :
      (clock : Clock) (requester anon : String) (input : NewRequest) {id : ℕ} {next : Tables}
      → create_request clock requester anon input db ≡ ok (id, next)
      → Step db next
  submitted :
      (clock : Clock) (creator : String) (request : ℕ) (asset : String) {next : Tables}
      → submit_asset clock creator request asset db ≡ ok next
      → Step db next
  withdrawn :
      (clock : Clock) (creator : String) (request : ℕ) (asset : String) {next : Tables}
      → withdraw_submission clock creator request asset db ≡ ok next
      → Step db next
  reviewed :
      (clock : Clock) (creator : String) (id : ℕ) (decision : Decision) {next : Tables}
      → review_submission clock creator id decision db ≡ ok next
      → Step db next
  request_closed :
      (creator : String) (id : ℕ) {next : Tables}
      → close_request creator id db ≡ ok next
      → Step db next
  elsewhere :
      (assets : List AssetOwner) (listings : List ActiveListing) (creators : List Poster)
      → Step db (record db { assets = assets; listings = listings; creators = creators })
  logged :
      (clock : Clock) (input : AppendEventInput) {log : List AssetEvent}
      → ((id : ℕ) → input.idempotency_key ≢ some (submit_key id))
      → insert_event clock.serial clock.moment input db.log ≡ ok log
      → Step db (record db { log = log })

-- Any sequence of steps.
pub data History (db : Tables) : Tables → Type 0 where
  start : History db db
  step : {later next : Tables} → History db later → Step later next → History db next
