-- ===== src/Traces/Parse.antt =====
-- lib/traces/parse.ts: the canonical trace, the reader of JSON lines and the detection of the format.
-- A text is counted in UTF-16 units, as the source counts it.
pub mod Formats
pub mod Whole
pub mod Calls
pub mod Canonical
pub mod Steps
pub mod Counted
pub mod Sound
pub mod Single
mod Tests
use wtr.Common.{
  ℕ, ◌+◌, ◌*◌, String, Bool, true, false, not, ◌&&◌, ◌||◌, List, [], ◌∷◌, map, length, all, any,
  keep, Option, none, some, Result, ok, err, error, Failure, ◌>>=◌, ◌==◌, includes, template,
  decimal, trim, split, join, codes, units, slice_units, last_code, after_prefix, is_none, ltb,
  nat_eq, if◌then◌else◌,
}
use wtr.Common.Value.{
  Value, Fields, Items, undefined, null, bool, num, bigint, real, str, arr, obj, get, has_key,
  elements, as_object, is_string,
}

-- JavaScript's `toLowerCase`, and `JSON.parse`, which gives nothing where it throws.
pub record Builtins : Type 0 where
  pub to_lower_case : String → String
  pub parse_json : String → Option Value

pub data TraceFormat : Type 0 where
  hermes openclaw codex claude_code : TraceFormat

-- `TraceRole`; `inherited` is what `ROLE_ALIASES` has from `Object.prototype` under a name.
pub data TraceRole : Type 0 where
  system user assistant tool : TraceRole
  inherited : String → TraceRole

pub data TraceOutcome : Type 0 where
  success failure unknown : TraceOutcome

pub record CanonicalToolCall : Type 0 where
  pub name : String
  pub ok : Option Bool

pub record CanonicalMessage : Type 0 where
  pub role : TraceRole
  pub text : String
  pub tool_calls : List CanonicalToolCall

pub record CanonicalTrace : Type 0 where
  pub format : TraceFormat
  pub model : Option String
  pub messages : List CanonicalMessage
  pub turn_count : ℕ
  pub tool_calls_count : ℕ
  pub outcome : TraceOutcome

abbrev pub max_bytes : ℕ
max_bytes = 8 * 1024 * 1024

abbrev pub max_messages : ℕ
max_messages = 20000

abbrev pub max_text_chars : ℕ
max_text_chars = 100000

abbrev pub max_tool_name_chars : ℕ
max_tool_name_chars = 128

abbrev pub max_model_chars : ℕ
max_model_chars = 128

-- `ROLE_ALIASES[name]`; the names of `Object.prototype` without capitals are found too.
abbrev pub role_alias : String → Option TraceRole
role_alias name =
    if name == "system"
    then some system
    else if includes ("user" ∷ "human" ∷ []) name
    then some user
    else if includes ("assistant" ∷ "gpt" ∷ "model" ∷ []) name
    then some assistant
    else if includes ("tool" ∷ "function" ∷ "observation" ∷ "tool_result" ∷ []) name
    then some tool
    else if includes ("constructor" ∷ "__proto__" ∷ []) name
    then some (inherited name)
    else none

abbrev pub normalize_role : Builtins → Value → Option TraceRole
normalize_role js (str s) = role_alias (js.to_lower_case s)
normalize_role js _ = none

-- `value?.key`
abbrev pub get_in : String → Option Fields → Value
get_in k none = undefined
get_in k (some fs) = get k fs

-- A value that is a string, as a text; the empty text otherwise.
abbrev pub or_empty : Value → String
or_empty (str s) = s
or_empty _ = ""

-- What a block of a content array adds to its text.
abbrev block_text : Value → String
block_text (obj fs) = or_empty (get "text" fs)
block_text block = or_empty block

-- `text`
unfoldable pub text : Value → String
text (str s) = slice_units max_text_chars s
text (arr items) =
    slice_units max_text_chars
      (join "\n" (keep (λ t. not (t == "")) (map block_text (elements items))))
text _ = ""

-- `toolName`
unfoldable pub tool_name : Value → Option String
tool_name (str s) =
    let name = trim s in
    if name == "" || ltb max_tool_name_chars (units (codes name)) then none else some name
tool_name _ = none

-- `TraceParseError`
abbrev pub trace_parse_error : String → Failure
trace_parse_error message = error message

pub record SourcedRecord : Type 0 where
  pub record_of : Fields
  pub line : ℕ

-- A line of the file at an index: nothing when it is blank.
unfoldable pub line_record : Builtins → String → ℕ → Result (Option Fields)
line_record js raw index =
    let line = trim raw in
    let not_json = trace_parse_error (
      template
        ("malformed JSON on line " ∷ decimal (index + 1) ∷ " — the trace may be truncated" ∷ [])) in
    let not_object =
      trace_parse_error (template ("line " ∷ decimal (index + 1) ∷ " is not a JSON object" ∷ [])) in
    let parsed : Result (Option Fields) = elim (js.parse_json line) [
      | none ↦ err not_json
      | some v ↦ elim (as_object v) [ none ↦ err not_object | some fs ↦ ok (some fs) ]
    ] in
    if line == "" then ok none else parsed

abbrev pub too_many : String → Failure
too_many what =
    trace_parse_error (template ("trace has more than " ∷ decimal max_messages ∷ what ∷ []))

-- The loop of `parseSourcedLines`, from an index, with the records that were read so far.
unfoldable pub lines_from : Builtins → List String → ℕ → ℕ → Result (List SourcedRecord)
lines_from js [] index n = ok []
lines_from js (l ∷ lines) index n = line_record js l index >>= λ o. elim o [
  | none ↦ lines_from js lines (index + 1) n
  | some fs ↦
      let rest = lines_from js lines (index + 1) (n + 1) in
      if ltb max_messages (n + 1)
      then err (too_many " records")
      else (rest >>= λ records. ok (record { record_of = fs; line = index + 1 } ∷ records))
]

abbrev not_empty : List SourcedRecord → Result (List SourcedRecord)
not_empty [] = err (trace_parse_error "trace contains no records")
not_empty (r ∷ rs) = ok (r ∷ rs)

-- `parseSourcedLines` and `parseLines`
unfoldable pub parse_sourced_lines : Builtins → String → Result (List SourcedRecord)
unfolding lines_from
parse_sourced_lines js raw = lines_from js (split 10 raw) 0 0 >>= not_empty

abbrev pub parse_lines : Builtins → String → Result (List Fields)
parse_lines js raw = parse_sourced_lines js raw >>= λ rs. ok (map (λ r. r.record_of) rs)

abbrev turn_fits : Value → Bool
turn_fits turn = elim (as_object turn) [
  | none ↦ false
  | some item ↦ is_string (get "from" item) && has_key "value" item
]

-- `isHermes`, `isClaudeCode`, `isCodex` and `isOpenClaw`
unfoldable pub is_hermes : Value → Bool
is_hermes document = elim (get_in "conversations" (as_object document)) [
  | arr (Items.item turn turns) ↦ all turn_fits (turn ∷ elements turns)
  | _ ↦ false
]

-- A key of a record holds an object.
abbrev pub holds : String → Fields → Bool
holds k r = not (is_none (as_object (get k r)))

abbrev pub typed : Fields → Bool
typed r = is_string (get "type" r)

abbrev pub is_claude_code : List Fields → Bool
is_claude_code records = any (λ r. typed r && holds "message" r) records

abbrev pub is_codex : List Fields → Bool
is_codex records = any (λ r. typed r && holds "payload" r) records

abbrev pub is_open_claw : List Fields → Bool
is_open_claw records = any (λ r. is_string (get "event" r)) records

-- `recordFormat`
unfoldable pub record_format : Fields → Option TraceFormat
record_format r =
    if typed r && holds "message" r
    then some claude_code
    else if typed r && holds "payload" r
    then some codex
    else if is_string (get "event" r)
    then some openclaw
    else none

abbrev pub format_name : TraceFormat → String
format_name hermes = "hermes"
format_name openclaw = "openclaw"
format_name codex = "codex"
format_name claude_code = "claude_code"

-- `assertSingleFormat`
unfoldable pub assert_single_format : TraceFormat → List SourcedRecord → Result (List SourcedRecord)
assert_single_format format [] = ok []
assert_single_format format (r ∷ rs) =
    let rest = assert_single_format format rs >>= λ checked. ok (r ∷ checked) in
    elim (record_format r.record_of) [
      | none ↦ rest
      | some found ↦
          if format_name found == format_name format
          then rest
          else err (
              trace_parse_error (
                template (
                  "trace mixes formats: line "
                  ∷ decimal r.line
                  ∷ " looks like "
                  ∷ format_name found
                  ∷ ", not "
                  ∷ format_name format
                  ∷ [])))
    ]

-- The document that `detectTraceFormat` tries first.
abbrev whole_document : Builtins → String → Option Value
whole_document js trimmed =
    if not (is_none (after_prefix "{" trimmed)) && nat_eq (last_code trimmed) 125
    then js.parse_json trimmed
    else none

abbrev format_of_records : List Fields → Result TraceFormat
format_of_records [] = err (trace_parse_error "unrecognized trace format")
format_of_records (r ∷ rs) =
    let records = r ∷ rs in
    if is_claude_code records
    then ok claude_code
    else if is_codex records
    then ok codex
    else if is_open_claw records
    then ok openclaw
    else if is_hermes (obj r)
    then ok hermes
    else err (trace_parse_error "unrecognized trace format")

-- `detectTraceFormat`
unfoldable pub detect_trace_format : Builtins → String → Result TraceFormat
detect_trace_format js raw =
    let lines = parse_lines js raw >>= format_of_records in
    let whole : Bool = elim (whole_document js (trim raw)) [
      | none ↦ false
      | some document ↦ is_hermes document
    ] in
    if trim raw == ""
    then err (trace_parse_error "trace is empty")
    else if whole
    then ok hermes
    else lines
