-- ===== src/Traces/Parse/Whole.antt =====
-- lib/traces/parse.ts: the normalizers of Hermes and Claude Code, and `parseTrace`.
use wtr.Common.{
  ℕ, suc, String, Bool, true, not, List, [], ◌∷◌, ◌++◌, map, Option, none, some, Result, ok, err,
  ◌>>=◌, ◌==◌, trim, after_prefix, codes, units, ltb, if◌then◌else◌, length, push, zero,
}
use wtr.Common.Value.{
  Value, Fields, bool, str, arr, obj, get, elements, as_object, is_text, first_of,
}
use wtr.Traces.Parse.{
  Builtins, TraceFormat, hermes, codex, claude_code, TraceOutcome, failure, CanonicalToolCall,
  CanonicalMessage, CanonicalTrace, max_bytes, normalize_role, get_in, text, tool_name,
  trace_parse_error, parse_lines, parse_sourced_lines, assert_single_format, detect_trace_format,
}
use wtr.Traces.Parse.Formats.{
  Progress, start, each, keep_model, role_or, name_or, push_message, mark, finished_as, unresolved,
  outcome_of, finalize, from_open_claw, from_codex,
}

-- The text before the first `</tool_call>` and the text after it.
unfoldable pub up_to_end : String → Option (String × String)
up_to_end String.[] = none
up_to_end (String.◌∷◌ c s) =
    let longer : Option (String × String) = elim (up_to_end s) [
      | none ↦ none
      | some (inner, rest) ↦ some (String.◌∷◌ c inner, rest)
    ] in
    elim (after_prefix "</tool_call>" (String.◌∷◌ c s)) [
      | none ↦ longer
      | some rest ↦ some ("", rest)
    ]

-- The matches of `HERMES_TOOL_CALL`, each `match[1].trim()`. A match takes characters off, so as many
-- rounds as there are characters are enough.
unfoldable pub embedded_calls : ℕ → String → List String
embedded_calls zero s = []
embedded_calls (suc fuel) String.[] = []
embedded_calls (suc fuel) (String.◌∷◌ c s) = elim (after_prefix "<tool_call>" (String.◌∷◌ c s)) [
  | none ↦ embedded_calls fuel s
  | some inside ↦ elim (up_to_end inside) [
    | none ↦ embedded_calls fuel s
    | some (inner, rest) ↦ trim inner ∷ embedded_calls fuel rest
  ]
]

abbrev pub named : Option String → List CanonicalToolCall
named none = []
named (some name) = unresolved name ∷ []

-- The calls that `item.tool_calls` declares.
abbrev pub declared_calls : List Value → List CanonicalToolCall
declared_calls [] = []
declared_calls (v ∷ vs) =
    let call = as_object v in
    named (
      tool_name
        (first_of (get_in "name" call) (get_in "name" (as_object (get_in "function" call)))))
    ++ declared_calls vs

-- The loop over the blocks of a body.
unfoldable pub body_calls : Builtins → List String → Result (List CanonicalToolCall)
body_calls js [] = ok []
body_calls js (inner ∷ inners) = elim (js.parse_json inner) [
  | none ↦ err (trace_parse_error "hermes <tool_call> block is not valid JSON")
  | some embedded ↦ body_calls js inners >>= λ calls.
      ok (named (tool_name (get_in "name" (as_object embedded))) ++ calls)
]

abbrev pub items_of : Value → List Value
items_of (arr items) = elements items
items_of _ = []

-- The loop of `fromHermes` over the turns.
unfoldable pub hermes_turn : Builtins → Value → Result CanonicalMessage
hermes_turn js (obj item) = do
  role ← role_or "hermes turn has an unknown 'from' value" (normalize_role js (get "from" item))
  let body = text (get "value" item)
  embedded ← body_calls js (embedded_calls (length (codes body)) body)
  ok (record {
    role = role;
    text = body;
    tool_calls = declared_calls (items_of (get "tool_calls" item)) ++ embedded;
  })
hermes_turn js _ = err (trace_parse_error "hermes conversation turn is not an object")

unfoldable pub hermes_turns : Builtins → List Value → Result (List CanonicalMessage)
hermes_turns js [] = ok []
hermes_turns js (turn ∷ turns) = do
  message ← hermes_turn js turn
  messages ← hermes_turns js turns
  ok (message ∷ messages)

-- `typeof value === "string" ? value : null`
abbrev pub text_or_null : Value → Option String
text_or_null (str s) = some s
text_or_null _ = none

abbrev pub conversations : Value → Result (Fields × List Value)
conversations (obj r) = elim (get "conversations" r) [
  | arr turns ↦ ok (r, elements turns)
  | _ ↦ err (trace_parse_error "hermes trace has no conversations")
]
conversations _ = err (trace_parse_error "hermes trace has no conversations")

-- `parseLines(raw)[0]`
abbrev first_line : List Fields → Value
first_line [] = Value.undefined
first_line (r ∷ rs) = obj r

abbrev pub hermes_document : Builtins → String → Result Value
hermes_document js raw = elim (js.parse_json (trim raw)) [
  | some v ↦ ok v
  | none ↦ parse_lines js raw >>= λ rs. ok (first_line rs)
]

abbrev pub from_turns : Builtins → Fields × List Value → Result CanonicalTrace
from_turns js (r, turns) = do
  messages ← hermes_turns js turns
  finalize hermes (text_or_null (get "model" r)) messages (outcome_of js (get "outcome" r))

-- `fromHermes`
unfoldable pub from_hermes : Builtins → String → Result CanonicalTrace
from_hermes js raw = do
  document ← hermes_document js raw
  found ← conversations document
  from_turns js found

-- `value !== true`
abbrev pub not_true : Value → Bool
not_true (bool b) = not b
not_true _ = true

-- A round of the loop over the blocks of a message, on the messages before it and its own calls.
unfoldable pub claude_block :
    Progress × List CanonicalToolCall → Value → Result (Progress × List CanonicalToolCall)
claude_block (at, calls) (obj item) =
    if is_text (get "type" item) "tool_use"
    then (name_or "claude code tool_use block has no name" (tool_name (get "name" item)) >>= λ name.
        ok (at, push calls (unresolved name)))
    else if is_text (get "type" item) "tool_result"
    then ok (mark (not_true (get "is_error" item)) at, calls)
    else ok (at, calls)
claude_block (at, calls) _ = ok (at, calls)

unfoldable pub claude_blocks :
    Progress × List CanonicalToolCall → List Value → Result (Progress × List CanonicalToolCall)
claude_blocks at [] = ok at
claude_blocks at (block ∷ blocks) = claude_block at block >>= λ next. claude_blocks next blocks

-- A round of the loop of `fromClaudeCode` on an entry with a message.
unfoldable pub claude_message : Builtins → Progress → Fields → Fields → Result Progress
claude_message js before r message = do
  let at = keep_model (get "model" message) before
  role ←
      role_or "claude code entry has no usable role"
        (normalize_role js (first_of (get "role" message) (get "type" r)))
  (marked, calls) ← claude_blocks (at, []) (items_of (get "content" message))
  ok (push_message role (text (get "content" message)) calls marked)

abbrev result_outcome : Builtins → Fields → TraceOutcome
result_outcome js r =
    if not_true (get "is_error" r)
    then outcome_of js (first_of (get "subtype" r) (str "success"))
    else failure

abbrev pub claude_step : Builtins → Progress → Fields → Result Progress
claude_step js at r =
    let entry : Result Progress = elim (as_object (get "message" r)) [
      | none ↦ ok at
      | some message ↦ claude_message js at r message
    ] in
    if is_text (get "type" r) "result"
    then ok (record at { outcome = result_outcome js r })
    else entry

-- `fromClaudeCode`
unfoldable pub from_claude_code : Builtins → List Fields → Result CanonicalTrace
from_claude_code js records = each (claude_step js) start records >>= finished_as claude_code

-- The normalizer of a format of JSON lines.
abbrev pub from_records : Builtins → TraceFormat → List Fields → Result CanonicalTrace
from_records js claude_code records = from_claude_code js records
from_records js codex records = from_codex js records
from_records js _ records = from_open_claw js records

abbrev pub from_lines : Builtins → String → TraceFormat → Result CanonicalTrace
from_lines js raw format = do
  sourced ← parse_sourced_lines js raw
  checked ← assert_single_format format sourced
  from_records js format (map (λ r. r.record_of) checked)

abbrev pub from_format : Builtins → String → TraceFormat → Result CanonicalTrace
from_format js raw hermes = from_hermes js raw
from_format js raw format = from_lines js raw format

-- `parseTrace`
unfoldable pub parse_trace : Builtins → String → Result CanonicalTrace
parse_trace js raw =
    if trim raw == ""
    then err (trace_parse_error "trace is empty")
    else if ltb max_bytes (units (codes raw))
    then err (trace_parse_error "trace is larger than 8MB")
    else (detect_trace_format js raw >>= from_format js raw)
