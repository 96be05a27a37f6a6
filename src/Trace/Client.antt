-- ===== src/Trace/Client.antt =====
-- lib/trace/client.ts: the client of the Trace audit API and its retries.
-- `fetch`, `sleep` and `Math.random` are parameters; a body is the JSON value that is printed or
-- parsed.
pub mod Attempts
pub mod Guards
use wtr.Common.{
  ℕ, zero, suc, ◌+◌, ◌-◌, ◌*◌, String, Bool, true, false, ◌&&◌, ◌||◌, List, [], ◌∷◌, Option, none,
  some, any, leb, nat_eq, Failure, Result, ok, err, error, template, decimal, slice_to, ◌==◌,
  if◌then◌else◌,
}
use wtr.Common.Value.{Value, Items, Fields, str, num, arr, obj, item, nil, field, end, get}
use wtr.Crypto.{Platform, sha256_canonical, strip_hex_prefix}
use wtr.Trace.Schema.{TraceDocument, metadata_root}
use wtr.Trace.Pii.{assert_no_pii}

unfoldable pub stable_batch_id : Platform → Fields → String
stable_batch_id platform parts =
    slice_to 32 (strip_hex_prefix (sha256_canonical platform (obj parts)))

-- `MAX_TRACE_UPDATES_PER_DATA_ID`
abbrev pub max_updates : ℕ
max_updates = 100

pub record HttpRequest : Type 0 where
  pub method : String
  pub path : String
  pub provider : String
  -- `X-Batch-Id`
  pub batch_id : String
  pub body : Option Value

-- A response with its body, none where the text is empty; reading or parsing it may fail.
pub data Answer : Type 0 where
  broken : Failure → Answer
  answered : ℕ → Result (Option Value) → Answer

pub record ClientConfig (W : Type 0) : Type 0 where
  pub platform : Platform
  pub provider : String
  pub fetch : HttpRequest → W → Answer × W
  pub sleep : ℕ → W → W
  -- `Math.floor(random() * backoff)`
  pub jitter : ℕ → W → ℕ × W
  pub max_attempts : ℕ
  pub base_delay_ms : ℕ

abbrev pub http_error : ℕ → Failure
http_error status = record {
  name = "TraceHttpError";
  message = template ("Trace responded " ∷ decimal status ∷ []);
}

abbrev pub conflict_error : String → Failure
conflict_error id = record {
  name = "TraceConflictError";
  message = template (
      "Trace rejected " ∷ id ∷ " as a conflict: the same source_record_id "
      ∷ "already exists with different metadata" ∷ []);
}

abbrev pub cap_error : String → Failure
cap_error data_id = record {
  name = "TraceUpdateCapError";
  message =
      template
        ("Trace update cap of " ∷ decimal max_updates ∷ " reached for data_id " ∷ data_id ∷ []);
}

-- `RETRYABLE_STATUS.has(status) || status >= 500`
abbrev pub is_retryable : ℕ → Bool
is_retryable status = any (nat_eq status) (429 ∷ 502 ∷ 503 ∷ 504 ∷ []) || leb 500 status

-- `response.ok || acceptStatuses?.includes(response.status)`
abbrev pub is_accepted : List ℕ → ℕ → Bool
is_accepted accept status = leb 200 status && leb status 299 || any (nat_eq status) accept

-- How one turn of the loop ends: with a value, with an error that is thrown at once, or with
-- `lastError`.
pub data Turn : Type 0 where
  returned : Value → Turn
  thrown last_error : Failure → Turn

abbrev read_body : Result (Option Value) → Turn
read_body (ok none) = returned (obj end)
read_body (ok (some v)) = returned v
read_body (err failure) = last_error failure

unfoldable pub turn : List ℕ → Answer → Turn
turn accept (broken failure) = last_error failure
turn accept (answered status body) =
    if is_accepted accept status
    then read_body body
    else if is_retryable status
    then last_error (http_error status)
    else thrown (http_error status)

abbrev pub two_to : ℕ → ℕ
two_to zero = 1
two_to (suc n) = 2 * two_to n

pub record RegisterResult : Type 0 where
  pub data_id : String
  pub initial_metadata_root : String
  pub status : String

pub record UpdateResult : Type 0 where
  pub data_id : String
  pub prev_metadata_root : String
  pub metadata_root : String
  pub update_count : ℕ

-- `response.items?.find(it => it[key] === id)`
abbrev find_item : String → String → Items → Option Fields
find_item key id nil = none
find_item key id (item (obj fs) vs) =
    let rest = find_item key id vs in
    elim (get key fs) [ str s ↦ if s == id then some fs else rest | _ ↦ rest ]
find_item key id (item _ vs) = find_item key id vs

abbrev pub response_item : String → String → Value → Option Fields
response_item key id (obj fs) = elim (get "items" fs) [ arr vs ↦ find_item key id vs | _ ↦ none ]
response_item key id _ = none

-- A text of a field, where it has one.
abbrev pub text_of : String → Fields → Option String
text_of key fs = elim (get key fs) [ str s ↦ some s | _ ↦ none ]

abbrev pub is_status : String → Fields → Bool
is_status status fs = elim (text_of "status" fs) [ some s ↦ s == status | none ↦ false ]

-- What `registerData` makes of the response.
unfoldable pub read_registered : String → String → Value → Result RegisterResult
read_registered source_record_id root response =
    elim (response_item "source_record_id" source_record_id response) [
      | none ↦ err (error "Trace register response did not contain a data_id")
      | some it ↦
          if is_status "conflict" it
          then err (conflict_error source_record_id)
          else elim (text_of "data_id" it) [
            | none ↦ err (error "Trace register response did not contain a data_id")
            | some data_id ↦
                if data_id == ""
                then err (error "Trace register response did not contain a data_id")
                else ok (record {
                  data_id = data_id;
                  initial_metadata_root = root;
                  status = if is_status "duplicate" it then "duplicate" else "accepted";
                })
          ]
    ]

-- What `updateMetadata` makes of the response.
unfoldable pub read_updated : String → String → String → ℕ → Value → Result UpdateResult
read_updated data_id prev root update_count response =
    elim (response_item "data_id" data_id response) [
      | none ↦ err (error "Trace update response did not contain a matching item")
      | some it ↦
          if is_status "conflict" it
          then err (conflict_error data_id)
          else ok (record {
            data_id = data_id;
            prev_metadata_root = prev;
            metadata_root = root;
            update_count = update_count + 1;
          })
    ]

pub record Registration : Type 0 where
  pub document : TraceDocument
  pub source_record_id : String
  pub occurred_at : String
  pub batch_id : String

pub record Update : Type 0 where
  pub data_id : String
  pub document : TraceDocument
  pub prev_metadata_root : String
  pub update_count : ℕ
  pub occurred_at : String
  pub batch_id : String

-- The rest of a call, where the response came.
abbrev pub reading : {W A : Type 0} → (Value → Result A) → Result Value × W → Result A × W
reading read (ok response, w) = (read response, w)
reading read (err failure, w) = (err failure, w)

module _ {W : Type 0} (config : ClientConfig W) where
  -- The pause before the next attempt; there is none after the last.
  abbrev pub pause : ℕ → ℕ → W → W
  pause zero attempt w = w
  pause (suc left) attempt w =
      let backoff = config.base_delay_ms * two_to (attempt - 1) in
      let (jitter, w') = config.jitter backoff w in config.sleep (backoff + jitter) w'

  -- The loop of `request`, with as many attempts left; `attempt` is the next one's number.
  unfoldable pub attempts : List ℕ → HttpRequest → ℕ → ℕ → Failure → W → Result Value × W
  attempts accept request zero attempt failure w = (err failure, w)
  attempts accept request (suc left) attempt failure w =
      let (answer, w') = config.fetch request w in
      elim (turn accept answer) [
        | returned v ↦ (ok v, w')
        | thrown e ↦ (err e, w')
        | last_error e ↦ attempts accept request left (attempt + 1) e (pause left attempt w')
      ]

  unfoldable pub request : String → String → String → Option Value → List ℕ → W → Result Value × W
  request method path batch_id body accept =
      attempts accept
        (record {
          method = method;
          path = path;
          provider = config.provider;
          batch_id = batch_id;
          body = body;
        })
        config.max_attempts 1 (error "undefined")

  unfoldable pub register_data : Registration → W → Result RegisterResult × W
  register_data params w =
      let root = metadata_root config.platform params.document in
      elim (assert_no_pii params.document) [
        | err failure ↦ (err failure, w)
        | ok _ ↦ reading (read_registered params.source_record_id root) (
            request "POST" "/webhook/v1/data-audit/records:batch" params.batch_id
              (some (
                arr (
                  item
                    (obj (
                      field "source_record_id" (str params.source_record_id) (
                        field "initial_metadata_root" (str root) (
                          field "initial_metadata_json" (obj params.document)
                            (field "occurred_at" (str params.occurred_at) end)))))
                    nil)))
              (409 ∷ []) w)
      ]

  unfoldable pub update_metadata : Update → W → Result UpdateResult × W
  update_metadata params w =
      let root = metadata_root config.platform params.document in
      if leb max_updates params.update_count
      then (err (cap_error params.data_id), w)
      else elim (assert_no_pii params.document) [
        | err failure ↦ (err failure, w)
        | ok _ ↦
            reading (read_updated params.data_id params.prev_metadata_root root params.update_count)
              (request "POST" "/webhook/v1/data-audit/metadata-updates:batch" params.batch_id
                (some (
                  arr (
                    item
                      (obj (
                        field "data_id" (str params.data_id) (
                          field "seq" (num (params.update_count + 1)) (
                            field "prev_metadata_root" (str params.prev_metadata_root) (
                              field "metadata_root" (str root) (
                                field "metadata_json" (obj params.document)
                                  (field "occurred_at" (str params.occurred_at) end)))))))
                      nil)))
                (409 ∷ []) w)
      ]

  unfoldable pub push_provider_policy : Value → String → W → Result (Unit {0}) × W
  push_provider_policy policy batch_id w =
      reading (λ _. ok tt)
        (request "PUT" "/webhook/v1/data-audit/provider-policy" batch_id (some policy) [] w)
