-- ===== src/Traces/Parse/Formats.antt =====
-- lib/traces/parse.ts: the four normalizers and what they share.
use wtr.Common.{
  ℕ, ◌+◌, String, Bool, true, false, List, [], ◌∷◌, map, length, push, any, Option, none, some,
  Result, ok, err, ◌>>=◌, ◌==◌, includes, is_none, otherwise, ltb, nat_eq, keep, if◌then◌else◌,
}
use wtr.Common.Value.{
  Value, Fields, bool, str, get, as_object, is_text, is_undefined, truthy, first_of,
}
use wtr.Traces.Parse.{
  Builtins, TraceFormat, openclaw, codex, TraceRole, assistant, tool, TraceOutcome, success,
  failure, unknown, CanonicalToolCall, CanonicalMessage, CanonicalTrace, max_messages,
  normalize_role, get_in, text, tool_name, trace_parse_error, too_many,
}

abbrev pub is_assistant : TraceRole → Bool
is_assistant assistant = true
is_assistant _ = false

abbrev pub unresolved : String → CanonicalToolCall
unresolved name = record { name = name; ok = none }

-- `attachToolCall` where some message is an assistant's: the last one gets the call.
abbrev pub add_to_last : CanonicalToolCall → List CanonicalMessage → List CanonicalMessage
add_to_last call [] = []
add_to_last call (m ∷ ms) =
    let later = m ∷ add_to_last call ms in
    if any (λ m. is_assistant m.role) ms
    then later
    else (record m { tool_calls = push m.tool_calls call } ∷ ms)

-- `attachToolCall`
unfoldable pub attach_tool_call : List CanonicalMessage → CanonicalToolCall → List CanonicalMessage
attach_tool_call messages call =
    if any (λ m. is_assistant m.role) messages
    then add_to_last call messages
    else push messages (record { role = assistant; text = ""; tool_calls = call ∷ [] })

-- `calls[call] = { ...calls[call], ok }` for the last call without a result, where there is one.
abbrev pub mark_calls : Bool → List CanonicalToolCall → Option (List CanonicalToolCall)
mark_calls b [] = none
mark_calls b (c ∷ cs) = elim (mark_calls b cs) [
  | some marked ↦ some (c ∷ marked)
  | none ↦ if is_none c.ok then some (record c { ok = some b } ∷ cs) else none
]

abbrev pub mark_messages : Bool → List CanonicalMessage → Option (List CanonicalMessage)
mark_messages b [] = none
mark_messages b (m ∷ ms) = elim (mark_messages b ms) [
  | some marked ↦ some (m ∷ marked)
  | none ↦ elim (mark_calls b m.tool_calls) [
    | some calls ↦ some (record m { tool_calls = calls } ∷ ms)
    | none ↦ none
  ]
]

-- `markLastToolCall`
unfoldable pub mark_last_tool_call : List CanonicalMessage → Bool → List CanonicalMessage
mark_last_tool_call messages b = elim (mark_messages b messages) [
  | some marked ↦ marked
  | none ↦ messages
]

-- `outcomeOf`
unfoldable pub outcome_of : Builtins → Value → TraceOutcome
outcome_of js (bool b) = if b then success else failure
outcome_of js (str s) =
    let normalized = js.to_lower_case s in
    if includes ("success" ∷ "succeeded" ∷ "ok" ∷ "completed" ∷ "done" ∷ "pass" ∷ []) normalized
    then success
    else if includes
        ("failure" ∷ "failed" ∷ "error" ∷ "aborted" ∷ "cancelled" ∷ "canceled" ∷ "timeout" ∷ [])
        normalized
    then failure
    else unknown
outcome_of js _ = unknown

abbrev pub sum : List ℕ → ℕ
sum [] = 0
sum (n ∷ ns) = n + sum ns

-- `finalize`
unfoldable pub finalize :
    TraceFormat → Option String → List CanonicalMessage → TraceOutcome → Result CanonicalTrace
finalize format model messages outcome =
    if nat_eq (length messages) 0
    then err (trace_parse_error "trace contains no messages")
    else if ltb max_messages (length messages)
    then err (too_many " messages")
    else ok (record {
      format = format;
      model = model;
      messages = messages;
      turn_count = length (keep (λ m. is_assistant m.role) messages);
      tool_calls_count = sum (map (λ m. length m.tool_calls) messages);
      outcome = outcome;
    })

-- What the loops over records keep.
pub record Progress : Type 0 where
  pub messages : List CanonicalMessage
  pub model : Option String
  pub outcome : TraceOutcome

abbrev pub start : Progress
start = record { messages = []; model = none; outcome = unknown }

-- A loop whose rounds may throw.
abbrev pub each : (Progress → Fields → Result Progress) → Progress → List Fields → Result Progress
each step at [] = ok at
each step at (r ∷ rs) = step at r >>= λ next. each step next rs

-- `if (typeof record.model === "string" && !model) model = record.model`
abbrev pub keep_model : Value → Progress → Progress
keep_model (str s) at = if otherwise at.model "" == "" then record at { model = some s } else at
keep_model _ at = at

abbrev pub role_or : String → Option TraceRole → Result TraceRole
role_or message none = err (trace_parse_error message)
role_or message (some role) = ok role

abbrev pub name_or : String → Option String → Result String
name_or message none = err (trace_parse_error message)
name_or message (some name) = ok name

abbrev pub push_message : TraceRole → String → List CanonicalToolCall → Progress → Progress
push_message role body calls at = record at {
  messages = push at.messages (record { role = role; text = body; tool_calls = calls });
}

abbrev pub attach : String → Progress → Progress
attach name at = record at { messages = attach_tool_call at.messages (unresolved name) }

abbrev pub mark : Bool → Progress → Progress
mark b at = record at { messages = mark_last_tool_call at.messages b }

abbrev pub finished_as : TraceFormat → Progress → Result CanonicalTrace
finished_as format at = finalize format at.model at.messages at.outcome

-- A round of the loop of `fromOpenClaw`
unfoldable pub open_claw_step : Builtins → Progress → Fields → Result Progress
open_claw_step js before r =
    let at = keep_model (get "model" r) before in
    let event = get "event" r in
    let result_ok =
      if truthy (get "error" r)
      then false
      else if is_undefined (get "status" r)
      then true
      else is_text (get "status" r) "ok" in
    if is_text event "message"
    then (role_or "openclaw message event has no usable role" (normalize_role js (get "role" r))
        >>= λ role. ok (push_message role (text (get "content" r)) [] at))
    else if is_text event "tool_call"
    then (name_or "openclaw tool_call event has no tool name"
          (tool_name (first_of (get "tool" r) (get "name" r)))
        >>= λ name. ok (attach name at))
    else if is_text event "tool_result"
    then ok (push_message tool (text (get "content" r)) [] (mark result_ok at))
    else if is_text event "run_end"
    then ok (record at { outcome = outcome_of js (first_of (get "status" r) (get "outcome" r)) })
    else ok at

-- `fromOpenClaw`
unfoldable pub from_open_claw : Builtins → List Fields → Result CanonicalTrace
from_open_claw js records = each (open_claw_step js) start records >>= finished_as openclaw

-- `output ? output.success !== false : true`
abbrev output_ok : Option Fields → Bool
output_ok none = true
output_ok (some output) = elim (get "success" output) [ bool b ↦ b | _ ↦ true ]

-- A round of the loop of `fromCodex`, on the payload of the record
unfoldable pub codex_payload : Builtins → Progress → Fields → Result Progress
codex_payload js before payload =
    let at = keep_model (get "model" payload) before in
    let kind = get "type" payload in
    let output = as_object (get "output" payload) in
    let body = text (first_of (get_in "content" output) (get "output" payload)) in
    if is_text kind "message"
    then (role_or "codex message has no usable role" (normalize_role js (get "role" payload))
        >>= λ role. ok (push_message role (text (get "content" payload)) [] at))
    else if is_text kind "function_call"
    then (name_or "codex function_call has no name" (tool_name (get "name" payload)) >>= λ name.
        ok (attach name at))
    else if is_text kind "function_call_output"
    then ok (push_message tool body [] (mark (output_ok output) at))
    else if is_text kind "task_complete"
    then ok
        (record at { outcome = outcome_of js (first_of (get "status" payload) (str "success")) })
    else ok at

abbrev pub codex_step : Builtins → Progress → Fields → Result Progress
codex_step js at r = elim (as_object (get "payload" r)) [
  | none ↦ ok at
  | some payload ↦ codex_payload js at payload
]

-- `fromCodex`
unfoldable pub from_codex : Builtins → List Fields → Result CanonicalTrace
from_codex js records = each (codex_step js) start records >>= finished_as codex
