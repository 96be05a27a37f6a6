-- ===== src/Requests.antt =====
-- lib/requests/service.ts: briefs, submissions and their review, on the rows of the tables that its SQL
-- reads and writes. A transaction that throws leaves the tables as they were.
pub mod Steps
pub mod Funding
pub mod Final
pub mod Recorded
mod Tests
use wtr.Common.{
  ℕ, suc, ◌+◌, ◌/◌, String, Bool, true, false, not, ◌&&◌, ◌||◌, List, [], ◌∷◌, map, push, any, find,
  keep, Option, none, some, Result, ok, err, error, Failure, ◌>>=◌, ◌==◌, includes, template,
  decimal, trim, codes, units, slice_units, is_none, leb, ltb, nat_eq, otherwise, length,
  if◌then◌else◌,
}
use wtr.Common.Value.{Value, Fields, str, num, end, field, obj}
use wtr.Pipeline.Types.{
  Moment, EventType, submitted_to_request, submission_withdrawn, submission_accepted,
  submission_rejected, AssetEvent,
}
use wtr.Pipeline.Rows.{AppendEventInput}
use wtr.Pipeline.Store.{is_replay}

pub data RequestStatus : Type 0 where
  opened closed cancelled : RequestStatus

pub data SubmissionStatus : Type 0 where
  pending accepted rejected : SubmissionStatus

-- A row of `data_request`; ids count up, amounts are natural, moments are milliseconds.
pub record RequestRow : Type 0 where
  pub id : ℕ
  pub requester_anon_id : String
  pub requester_creator_id : Option String
  pub title : String
  pub spec : Value
  pub license_preset : String
  pub budget_wei : ℕ
  pub unit_price_wei : Option ℕ
  pub kyc_required : Bool
  pub deadline : Option ℕ
  pub funding_mode : String
  pub deposit_wei : Option ℕ
  pub amount_paid_wei : ℕ
  pub data_shape : Option Value
  pub special_instructions : Option String
  pub status : RequestStatus

pub record SubmissionRow : Type 0 where
  pub id : ℕ
  pub data_request_id : ℕ
  pub asset_id : String
  pub status : SubmissionStatus

pub record AssetOwner : Type 0 where
  pub id : String
  pub creator_id : String

pub record ActiveListing : Type 0 where
  pub asset_id : String
  pub license_preset : String

pub record Poster : Type 0 where
  pub id : String
  pub lab_verified : Bool
  pub kyc_verified : Bool

-- The tables: `listings` has the active rows of `listing`, `creators` what the service reads of `creator`.
pub record Tables : Type 0 where
  pub requests : List RequestRow
  pub submissions : List SubmissionRow
  pub assets : List AssetOwner
  pub listings : List ActiveListing
  pub creators : List Poster
  pub log : List AssetEvent
  pub counter : ℕ

-- `Date.now()`, the text of `now()` and the next value of the sequence of the events' ids.
pub record Clock : Type 0 where
  pub milliseconds : ℕ
  pub moment : Moment
  pub serial : ℕ

-- The deadline of a form: a date that may be invalid.
pub data DeadlineInput : Type 0 where
  no_deadline invalid_date : DeadlineInput
  at_time : ℕ → DeadlineInput

pub record NewRequest : Type 0 where
  pub title : String
  pub modality : String
  pub notes : String
  pub license_preset : String
  pub budget_wei : ℕ
  pub unit_price_wei : Option ℕ
  pub kyc_required : Bool
  pub deadline : DeadlineInput
  pub funding_mode : String
  pub deposit_wei : Option ℕ
  pub amount_paid_wei : ℕ
  pub data_shape : Option Value
  pub special_instructions : Option String

abbrev pub request_error : String → Failure
request_error message = error message

-- `if (!test) throw new RequestError(message)`
abbrev pub require : Bool → String → Result (Unit {0})
require test message = if test then ok tt else err (request_error message)

abbrev modalities : List String
modalities = "any" ∷ "audio" ∷ "image" ∷ "video" ∷ "3d" ∷ "motion" ∷ "agenttrace" ∷ []

abbrev license_presets : List String
license_presets = "WTR-TRAIN-EXCLUSIVE" ∷ "WTR-TRAIN-NONEXCLUSIVE" ∷ "WTR-NO-TRAIN" ∷ []

abbrev funding_modes : List String
funding_modes = "none" ∷ "deposit" ∷ "full" ∷ []

abbrev optional_or : {A : Type 0} → (A → Bool) → Bool → Option A → Bool
optional_or test other none = other
optional_or test other (some a) = test a

-- The rules of a deposit, where the mode is one.
unfoldable pub check_deposit : NewRequest → Result (Unit {0})
check_deposit input =
    if input.funding_mode == "deposit"
    then (require (optional_or (λ d. leb (input.budget_wei / 10) d) false input.deposit_wei)
          "a deposit must be at least 10% of the budget"
        >>= λ _.
            require (optional_or (λ d. leb d input.budget_wei) false input.deposit_wei)
              "a deposit cannot exceed the budget"
            >>= λ _.
                require (optional_or (λ d. nat_eq input.amount_paid_wei d) false input.deposit_wei)
                  "the paid amount must equal the deposit")
    else ok tt

-- The rest of the funding rules.
unfoldable pub check_paid : NewRequest → Result (Unit {0})
check_paid input =
    require (not (input.funding_mode == "full") || nat_eq input.amount_paid_wei input.budget_wei)
      "paying in full means paying exactly the budget"
    >>= λ _.
        require (not (input.funding_mode == "none") || nat_eq input.amount_paid_wei 0)
          "an unfunded request cannot carry a paid amount"

unfoldable pub check_deadline : Clock → DeadlineInput → Result (Option ℕ)
check_deadline clock no_deadline = ok none
check_deadline clock invalid_date = err (request_error "enter a valid deadline")
check_deadline clock (at_time t) =
    if leb t clock.milliseconds
    then err (request_error "the deadline must be in the future")
    else ok (some t)

-- The checks of the form before its funding.
unfoldable pub check_names : NewRequest → Result (Unit {0})
check_names input = do
  _ ←
      require (not (trim input.title == "") && leb (units (codes (trim input.title))) 200)
        "give the request a title (at most 200 characters)"
  _ ←
      require (includes modalities input.modality)
        "modality must be one of: any, audio, image, video, 3d, motion, agenttrace"
  require (includes license_presets input.license_preset) "choose one of the three license presets"

abbrev pub check_mode : NewRequest → Result (Unit {0})
check_mode input = do
  _ ←
      require (optional_or (λ p. ltb 0 p) true input.unit_price_wei)
        "per-item price must be positive when set"
  require (includes funding_modes input.funding_mode) "choose how the request is funded"

unfoldable pub check_form : NewRequest → Result (Unit {0})
unfolding check_names
check_form input = do
  _ ← check_names input
  _ ← require (ltb 0 input.budget_wei) "budget must be positive"
  check_mode input

-- `text?.trim().slice(0, 2000) || null`
abbrev clamped : Option String → Option String
clamped none = none
clamped (some s) = let t = slice_units 2000 (trim s) in if t == "" then none else some t

abbrev pub new_row : String → String → NewRequest → Option ℕ → ℕ → RequestRow
new_row requester_id anon_id input deadline id = record {
  id = id;
  requester_anon_id = anon_id;
  requester_creator_id = some requester_id;
  title = trim input.title;
  spec = obj (
      field "modality" (str input.modality)
        (field "notes" (str (slice_units 2000 (trim input.notes))) end));
  license_preset = input.license_preset;
  budget_wei = input.budget_wei;
  unit_price_wei = input.unit_price_wei;
  kyc_required = input.kyc_required;
  deadline = deadline;
  funding_mode = input.funding_mode;
  deposit_wei = input.deposit_wei;
  amount_paid_wei = input.amount_paid_wei;
  data_shape = input.data_shape;
  special_instructions = clamped input.special_instructions;
  status = opened;
}

abbrev is_lab : String → List Poster → Bool
is_lab id creators = optional_or (λ c. c.lab_verified) false (find (λ c. c.id == id) creators)

-- `createRequest`
unfoldable pub create_request : Clock → String → String → NewRequest → Tables → Result (ℕ × Tables)
create_request clock requester_id anon_id input db = do
  _ ← check_form input
  _ ← check_deposit input
  _ ← check_paid input
  deadline ← check_deadline clock input.deadline
  _ ← require (is_lab requester_id db.creators) "only verified labs can post data requests"
  let row = new_row requester_id anon_id input deadline db.counter
  ok (db.counter, record db { requests = push db.requests row; counter = suc db.counter })
