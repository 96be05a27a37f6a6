-- ===== src/Requests/Tests.antt =====
-- A brief with a deposit, its one submission and the review of it, and the theorems on them.
use wtr.Common.{
  ◌≡◌, refl, String, true, false, [], ◌∷◌, All, IsIn, at_head, Option, none, some, Result, Bool,
  err, ok, decimal, arith, trim,
}
use wtr.Common.Value.{str, num, end, field, obj}
use wtr.Pipeline.Types.{AssetEvent, submitted_to_request, submission_accepted}
use wtr.Pipeline.Rows.{AppendEventInput}
use wtr.Pipeline.PgLog.{insert_event, insert_row}
use wtr.Requests.{
  RequestRow, SubmissionRow, Tables, Clock, NewRequest, pending, accepted, opened, closed,
  no_deadline, check_names, check_deposit, check_paid, check_form, check_deadline, create_request,
}
use wtr.Requests.Steps.{
  submit_asset, review_submission, close_request, created, submitted, reviewed, request_closed,
  History, start, step,
}
use wtr.Requests.Funding.{IsFundedRow}
use wtr.Requests.Final.{HasUniquePairs, IsRecorded}
use wtr.Requests.Recorded.{
  history-IsFundedRow, history-decided, history-HasUniquePairs, history-IsRecorded,
}

abbrev clock : Clock
clock = record { milliseconds = 1000; moment = "2026-01-01T00:00:00.000Z"; serial = 9 }

abbrev brief : NewRequest
brief = record {
  title = "Street sounds";
  modality = "audio";
  notes = "";
  license_preset = "WTR-NO-TRAIN";
  budget_wei = 100;
  unit_price_wei = none;
  kyc_required = false;
  deadline = no_deadline;
  funding_mode = "deposit";
  deposit_wei = some 20;
  amount_paid_wei = 20;
  data_shape = none;
  special_instructions = none;
}

abbrev before : Tables
before = record {
  requests = [];
  submissions = [];
  assets = record { id = "asset"; creator_id = "maker" } ∷ [];
  listings = record { asset_id = "asset"; license_preset = "WTR-NO-TRAIN" } ∷ [];
  creators = record { id = "lab"; lab_verified = true; kyc_verified = false } ∷ [];
  log = [];
  counter = 1;
}

abbrev lab_brief : RequestRow
lab_brief = record {
  id = 1;
  requester_anon_id = "anon";
  requester_creator_id = some "lab";
  title = "Street sounds";
  spec = obj (field "modality" (str "audio") (field "notes" (str "") end));
  license_preset = "WTR-NO-TRAIN";
  budget_wei = 100;
  unit_price_wei = none;
  kyc_required = false;
  deadline = none;
  funding_mode = "deposit";
  deposit_wei = some 20;
  amount_paid_wei = 20;
  data_shape = none;
  special_instructions = none;
  status = opened;
}

abbrev posted : Tables
posted = record before { requests = lab_brief ∷ []; counter = 2 }

abbrev submission : SubmissionRow
submission = record { id = 2; data_request_id = 1; asset_id = "asset"; status = pending }

abbrev submit_event : AssetEvent
submit_event = record {
  id = 9;
  asset_id = "asset";
  seq = 1;
  event_type = submitted_to_request;
  payload = field "dataRequestId" (num 1) (field "submissionId" (num 2) end);
  idempotency_key = some "submit:2";
  promoted_to_trace = false;
  trace_seq = none;
  created_at = "2026-01-01T00:00:00.000Z";
}

abbrev answered : Tables
answered = record posted { submissions = submission ∷ []; log = submit_event ∷ []; counter = 3 }

abbrev review_event : AssetEvent
review_event = record {
  id = 9;
  asset_id = "asset";
  seq = 2;
  event_type = submission_accepted;
  payload =
      field "dataRequestId" (num 1)
        (field "submissionId" (num 2) (field "decision" (str "accepted") end));
  idempotency_key = some "review:2";
  promoted_to_trace = false;
  trace_seq = none;
  created_at = "2026-01-01T00:00:00.000Z";
}

abbrev decided_row : SubmissionRow
decided_row = record submission { status = accepted }

abbrev settled : Tables
settled = record answered { submissions = decided_row ∷ []; log = submit_event ∷ review_event ∷ [] }

abbrev ended : Tables
ended = record settled { requests = record lab_brief { status = closed } ∷ [] }

posts : create_request clock "lab" "anon" brief before ≡ ok (1, posted)
unfolding create_request check_names check_deposit check_paid check_form check_deadline trim
posts = refl

submits_it : submit_asset clock "maker" 1 "asset" posted ≡ ok answered
unfolding submit_asset insert_event insert_row decimal
submits_it = refl

reviews_it : review_submission clock "lab" 2 true answered ≡ ok settled
unfolding review_submission insert_event insert_row decimal
reviews_it = refl

closes_it : close_request "lab" 1 settled ≡ ok ended
unfolding close_request
closes_it = refl

all_steps : History before ended
all_steps =
    step
      (step
        (step (step start (created clock "lab" "anon" brief posts))
          (submitted clock "maker" 1 "asset" submits_it))
        (reviewed clock "lab" 2 true reviews_it))
      (request_closed "lab" 1 closes_it)

history-IsFundedRow_example : All IsFundedRow ended.requests
history-IsFundedRow_example = history-IsFundedRow before ended all_steps tt

history-decided_example : IsIn decided_row ended.submissions
history-decided_example =
    history-decided settled ended decided_row (step start (request_closed "lab" 1 closes_it)) refl
      (at_head refl)

history-HasUniquePairs_example : HasUniquePairs ended.submissions
history-HasUniquePairs_example =
    history-HasUniquePairs before ended all_steps (λ request asset. omega arith)

history-IsRecorded_example : All (IsRecorded ended.log) ended.submissions
history-IsRecorded_example = history-IsRecorded before ended all_steps tt tt

abbrev second_input : AppendEventInput
second_input = record {
  asset_id = "asset";
  event_type = submitted_to_request;
  payload = end;
  idempotency_key = some "submit:3";
  promoted_to_trace = false;
  trace_seq = none;
}

is_ok : {A : Type 0} → Result A → Bool
is_ok (ok a) = true
is_ok (err failure) = false

key_of : Option String → String
key_of none = ""
key_of (some key) = key

-- A number for Trace without a promotion makes the statement throw.
check_test : is_ok (insert_event 5 "t" (record second_input { trace_seq = some 1 }) []) ≡ false
unfolding insert_event is_ok
check_test = refl

-- A budget of 9 needs no deposit, since the tenth is rounded down.
rounded_deposit_test :
    check_deposit (record brief { budget_wei = 9; deposit_wei = some 0; amount_paid_wei = 0 })
    ≡ ok tt
unfolding check_deposit
rounded_deposit_test = refl
