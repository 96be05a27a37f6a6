-- ===== src/Traces/Redact.antt =====
-- lib/traces/redact.ts: the structure of a trace, its redacted preview and the check of a preview that a
-- client sent. The engine that runs the regular expressions is a parameter.
pub mod Bounds
pub mod Preview
pub mod Structure
mod Tests
use wtr.Common.{
  ℕ, zero, suc, ◌+◌, ◌-◌, String, Bool, true, false, ◌||◌, List, [], ◌∷◌, ◌++◌, map, length, take,
  drop, keep, Option, none, some, Result, ok, err, error, Failure, ◌>>=◌, ◌==◌, includes, codes,
  units, slice_units, leb, ltb, if◌then◌else◌,
}
use wtr.Common.Value.{
  Value, Fields, Items, undefined, null, bool, num, bigint, real, str, arr, obj, get, elements,
  is_text,
}
use wtr.Crypto.{before}
use wtr.Traces.Parse.{
  TraceFormat, TraceRole, system, user, assistant, tool, TraceOutcome, success, failure, unknown,
  CanonicalToolCall, CanonicalMessage, CanonicalTrace, max_model_chars, max_tool_name_chars,
  format_name,
}

-- `value.replace(pattern, marker)` for a pattern and its flags, and the whole part of a number that is no
-- natural one, 0 for a negative one.
pub record Engine : Type 0 where
  pub replace : String → String → String → String
  pub whole_part : String → ℕ

pub record TraceStructure : Type 0 where
  pub format : TraceFormat
  pub model : Option String
  pub turn_count : ℕ
  pub tool_calls_count : ℕ
  pub tool_names : List String
  pub failed_tool_calls : ℕ
  pub outcome : TraceOutcome
  pub message_count : ℕ

pub record RedactedMessage : Type 0 where
  pub role : TraceRole
  pub text : String
  pub original_chars : ℕ
  pub tool_names : List String

pub record RedactedTrace : Type 0 where
  pub format : String
  pub model : Option String
  pub turn_count : ℕ
  pub tool_calls_count : ℕ
  pub outcome : TraceOutcome
  pub truncated : Bool
  pub messages : List RedactedMessage

abbrev pub max_preview_messages : ℕ
max_preview_messages = 40

abbrev pub max_preview_chars : ℕ
max_preview_chars = 400

abbrev pub max_tool_names : ℕ
max_tool_names = 64

-- `SCRUBBERS`: the patterns with their flags, and the markers.
abbrev pub scrubbers : List (String × String)
scrubbers =
    ("/[\\w.+-]+@[\\w-]+\\.[\\w.-]+/g", "[redacted:email]")
    ∷ ("/\\b(?:https?|ftp|s3|file):\\/\\/\\S+/gi", "[redacted:url]")
    ∷ ("/-----BEGIN[\\s\\S]*?END[^-]*-----/g", "[redacted:key]")
    ∷ ("/\\b(?:0x)?[0-9a-fA-F]{32,}\\b/g", "[redacted:hex]")
    ∷ ("/\\beyJ[A-Za-z0-9_-]{5,}\\.[A-Za-z0-9_-]{5,}(?:\\.[A-Za-z0-9_-]+)?/g", "[redacted:token]")
    ∷ ("/\\b[A-Za-z0-9_-]{40,}\\b/g", "[redacted:token]")
    ∷ ("/(?:\\/[\\w.-]+){2,}/g", "[redacted:path]")
    ∷ ("/\\b(?:\\d[ -]?){13,19}\\b/g", "[redacted:number]")
    ∷ ("/\\b\\d{1,3}(?:\\.\\d{1,3}){3}\\b/g", "[redacted:ip]")
    ∷ []

abbrev scrub : Engine → List (String × String) → String → String
scrub engine [] value = value
scrub engine ((pattern, marker) ∷ rest) value =
    scrub engine rest (engine.replace pattern marker value)

-- `redactText`
unfoldable pub redact_text : Engine → String → String
redact_text engine value = scrub engine scrubbers value

abbrev redaction_error : String → Failure
redaction_error message = error message

-- `Math.max(0, Math.trunc(value))` of a number, the other value where it is none.
abbrev pub whole_or : Engine → ℕ → Value → ℕ
whole_or engine other (num n) = n
whole_or engine other (real t) = engine.whole_part t
whole_or engine other _ = other

abbrev pub text_or : String → Value → String
text_or other (str s) = s
text_or other _ = other

-- The elements that are strings.
abbrev pub only_texts : List Value → List String
only_texts [] = []
only_texts (str s ∷ vs) = s ∷ only_texts vs
only_texts (v ∷ vs) = only_texts vs

-- `toolNames` of a message
abbrev pub clean_tool_names : Engine → Value → List String
clean_tool_names engine (arr items) =
    map (λ name. slice_units max_tool_name_chars (redact_text engine name))
      (take max_tool_names (only_texts (elements items)))
clean_tool_names engine _ = []

-- The check of `role`
abbrev pub preview_role : Value → Result TraceRole
preview_role role =
    if is_text role "system"
    then ok system
    else if is_text role "user"
    then ok user
    else if is_text role "assistant"
    then ok assistant
    else if is_text role "tool"
    then ok tool
    else err (redaction_error "redacted preview message has an unknown role")

abbrev pub clean_fields : Engine → Fields → TraceRole → RedactedMessage
clean_fields engine message role =
    let body = text_or "" (get "text" message) in
    record {
      role = role;
      text = slice_units max_preview_chars (redact_text engine body);
      original_chars = whole_or engine (units (codes body)) (get "originalChars" message);
      tool_names = clean_tool_names engine (get "toolNames" message);
    }

-- The callback of `messages.map`; an array has no `role`.
unfoldable pub clean_message : Engine → Value → Result RedactedMessage
clean_message engine (obj message) =
    preview_role (get "role" message) >>= λ role. ok (clean_fields engine message role)
clean_message engine (arr items) =
    err (redaction_error "redacted preview message has an unknown role")
clean_message engine _ = err (redaction_error "redacted preview message is not an object")

abbrev pub clean_messages : Engine → List Value → Result (List RedactedMessage)
clean_messages engine [] = ok []
clean_messages engine (v ∷ vs) =
    clean_message engine v >>= λ m. clean_messages engine vs >>= λ ms. ok (m ∷ ms)

abbrev pub preview_outcome : Value → TraceOutcome
preview_outcome v =
    if is_text v "success" then success else if is_text v "failure" then failure else unknown

abbrev is_true : Value → Bool
is_true (bool b) = b
is_true _ = false

abbrev pub preview_format : Engine → Value → String
preview_format engine (str s) = slice_units 64 (redact_text engine s)
preview_format engine _ = "unknown"

abbrev pub preview_model : Engine → Value → Option String
preview_model engine (str s) = some (slice_units max_model_chars (redact_text engine s))
preview_model engine _ = none

abbrev pub clean_trace : Engine → Fields → List RedactedMessage → RedactedTrace
clean_trace engine r clean = record {
  format = preview_format engine (get "format" r);
  model = preview_model engine (get "model" r);
  turn_count = whole_or engine 0 (get "turnCount" r);
  tool_calls_count = whole_or engine 0 (get "toolCallsCount" r);
  outcome = preview_outcome (get "outcome" r);
  truncated = is_true (get "truncated" r);
  messages = clean;
}

abbrev no_messages : Failure
no_messages = redaction_error "redacted preview has no messages"

-- The messages of a preview, with the checks on their number.
abbrev pub preview_messages : Value → Result (List Value)
preview_messages (arr Items.nil) = err no_messages
preview_messages (arr (Items.item v items)) =
    if ltb max_preview_messages (length (v ∷ elements items))
    then err (redaction_error "redacted preview has too many messages")
    else ok (v ∷ elements items)
preview_messages _ = err no_messages

-- `validateRedactedTrace`
unfoldable pub validate_redacted_trace : Engine → Value → Result RedactedTrace
validate_redacted_trace engine (obj r) = preview_messages (get "messages" r) >>= λ messages.
    clean_messages engine messages >>= λ clean. ok (clean_trace engine r clean)
validate_redacted_trace engine _ = err (redaction_error "expected a redacted trace preview")

-- `names.add(name)` while the set is not full, the set in the order of insertion.
unfoldable pub add_name : List String → String → List String
add_name names name =
    if ltb (length names) max_tool_names
    then (if includes names name then names else (names ++ (name ∷ [])))
    else names

-- `[...names].sort()`: an insertion sort by UTF-16 units.
abbrev pub insert_name : String → List String → List String
insert_name name [] = name ∷ []
insert_name name (other ∷ names) =
    if before other name then other ∷ insert_name name names else name ∷ other ∷ names

abbrev pub sort_names : List String → List String
sort_names [] = []
sort_names (name ∷ names) = insert_name name (sort_names names)

-- The loop of `traceStructure` over the calls of a message, and over the messages.
abbrev pub count_call : List String × ℕ → CanonicalToolCall → List String × ℕ
count_call (names, failed) call = (
  add_name names call.name,
  elim call.ok [ some b ↦ if b then failed else suc failed | none ↦ failed ],
)

abbrev pub count_calls : List String × ℕ → List CanonicalToolCall → List String × ℕ
count_calls at [] = at
count_calls at (call ∷ calls) = count_calls (count_call at call) calls

abbrev pub count_messages : List String × ℕ → List CanonicalMessage → List String × ℕ
count_messages at [] = at
count_messages at (m ∷ ms) = count_messages (count_calls at m.tool_calls) ms

abbrev clamp_model : Option String → Option String
clamp_model none = none
clamp_model (some model) = some (slice_units max_model_chars model)

-- `traceStructure`
unfoldable pub trace_structure : CanonicalTrace → TraceStructure
trace_structure trace =
    let (names, failed) = count_messages ([], 0) trace.messages in
    record {
      format = trace.format;
      model = clamp_model trace.model;
      turn_count = trace.turn_count;
      tool_calls_count = trace.tool_calls_count;
      tool_names = sort_names names;
      failed_tool_calls = failed;
      outcome = trace.outcome;
      message_count = length trace.messages;
    }

-- The messages that a preview keeps: all, or the first and the last twenty.
unfoldable pub kept_messages : List CanonicalMessage → List CanonicalMessage
kept_messages all =
    if ltb max_preview_messages (length all)
    then take 20 all ++ drop (length all - (max_preview_messages - 20)) all
    else all

abbrev pub redact_message : Engine → CanonicalMessage → RedactedMessage
redact_message engine m = record {
  role = m.role;
  text = slice_units max_preview_chars (redact_text engine m.text);
  original_chars = units (codes m.text);
  tool_names = map (λ call. call.name) m.tool_calls;
}

-- `redactTrace`
unfoldable pub redact_trace : Engine → CanonicalTrace → RedactedTrace
redact_trace engine trace = record {
  format = format_name trace.format;
  model = trace.model;
  turn_count = trace.turn_count;
  tool_calls_count = trace.tool_calls_count;
  outcome = trace.outcome;
  truncated = ltb max_preview_messages (length trace.messages);
  messages = map (redact_message engine) (kept_messages trace.messages);
}
