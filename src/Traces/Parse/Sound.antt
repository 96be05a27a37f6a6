-- ===== src/Traces/Parse/Sound.antt =====
-- lib/traces/parse.ts: what `parseTrace` gives.
use wtr.Common.{
  ℕ, ◌+◌, ◌≤◌, ◌≡◌, refl, ap, ◌∙◌, String, List, [], ◌∷◌, ◌++◌, map, length, keep, All, All-append,
  Option, none, some, ok, err, ◌>>=◌, Gives, Holds, err-Gives, ok-Gives, if_Gives, >>=-Gives,
  always_Gives, ltb, nat_eq, if◌then◌else◌, arith, codes,
}
use wtr.Common.Value.{
  Value, Fields, undefined, null, bool, num, bigint, real, str, arr, obj, get, as_object, first_of,
}
use wtr.Traces.Parse.{
  Builtins, TraceFormat, hermes, openclaw, codex, claude_code, TraceRole, TraceOutcome,
  CanonicalMessage, CanonicalTrace, max_messages, get_in, normalize_role, text, tool_name,
  trace_parse_error,
}
use wtr.Traces.Parse.Formats.{
  start, each, is_assistant, finalize, finished_as, sum, role_or, from_open_claw, from_codex,
  outcome_of,
}
use wtr.Traces.Parse.Whole.{
  named, declared_calls, body_calls, embedded_calls, items_of, hermes_turn, hermes_turns,
  from_hermes, from_turns, text_or_null, hermes_document, conversations, from_claude_code,
  from_records,
}
use wtr.Traces.Parse.Canonical.{IsToolName, IsCall, IsMessage, text-bound, tool_name-IsToolName}
use wtr.Traces.Parse.Calls.{calls_of, calls_of-sum}
use wtr.Traces.Parse.Steps.{Advances}
use wtr.Traces.Parse.Counted.{record_calls, step_of, loop-Advances}

-- The messages of an assistant.
abbrev pub responses : List CanonicalMessage → ℕ
responses [] = 0
responses (m ∷ ms) = (if is_assistant m.role then 1 else 0) + responses ms

responses-keep :
    (ms : List CanonicalMessage) → length (keep (λ m. is_assistant m.role) ms) ≡ responses ms
responses-keep [] = refl
responses-keep (m ∷ ms) = ground (arith, responses-keep ms)

-- A trace in the canonical schema.
pub record IsCanonical (t : CanonicalTrace) : Type 0 where
  pub not_empty : 1 ≤ length t.messages
  pub bounded : length t.messages ≤ max_messages
  pub messages : All IsMessage t.messages
  pub turns : t.turn_count ≡ responses t.messages
  pub calls : t.tool_calls_count ≡ calls_of t.messages

finalize-IsCanonical :
    (format : TraceFormat) (model : Option String) (ms : List CanonicalMessage)
    (outcome : TraceOutcome)
    → All IsMessage ms
    → Gives
        (λ t. IsCanonical t × (t.format ≡ format) × (t.messages ≡ ms))
        (finalize format model ms outcome)
unfolding finalize
finalize-IsCanonical format model ms outcome h =
    if_Gives _ (nat_eq (length ms) 0) _ _ (λ _. err-Gives _ _)
      (λ some_ms.
        if_Gives _ (ltb max_messages (length ms)) _ _ (λ _. err-Gives _ _)
          (λ few. ok-Gives _ _ (
            record {
              not_empty = ground arith;
              bounded = ground arith;
              messages = h;
              turns = responses-keep ms;
              calls = calls_of-sum ms;
            },
            refl,
            refl,
          )))

named-IsCall : (o : Option String) → Holds IsToolName o → All IsCall (named o)
named-IsCall none h = tt
named-IsCall (some name) h = (h.holds name refl, tt)

declared_calls-IsCall : (vs : List Value) → All IsCall (declared_calls vs)
declared_calls-IsCall [] = tt
declared_calls-IsCall (v ∷ vs) =
    All-append IsCall _ (declared_calls vs)
      (named-IsCall _ (tool_name-IsToolName (name_of (as_object v)))) (declared_calls-IsCall vs)
  where
    name_of : Option Fields → Value
    name_of call =
        first_of (get_in "name" call) (get_in "name" (as_object (get_in "function" call)))

body_calls-IsCall :
    (js : Builtins) (inners : List String) → Gives (All IsCall) (body_calls js inners)
unfolding body_calls
body_calls-IsCall js [] = ok-Gives _ [] tt
body_calls-IsCall js (inner ∷ inners) = parsed (js.parse_json inner) (body_calls-IsCall js inners)
  where
    parsed :
        (o : Option Value)
        → Gives (All IsCall) (body_calls js inners)
        → Gives (All IsCall) (elim o [
          | none ↦ err (trace_parse_error "hermes <tool_call> block is not valid JSON")
          | some embedded ↦ body_calls js inners >>= λ calls.
              ok (named (tool_name (get_in "name" (as_object embedded))) ++ calls)
        ])
    parsed none later = err-Gives _ _
    parsed (some embedded) later =
        >>=-Gives (All IsCall) _ (body_calls js inners) _ later (λ calls h. ok-Gives _ _ (
          All-append IsCall _ calls
            (named-IsCall _ (tool_name-IsToolName (get_in "name" (as_object embedded)))) h))

hermes_turn-IsMessage : (js : Builtins) (turn : Value) → Gives IsMessage (hermes_turn js turn)
unfolding hermes_turn
hermes_turn-IsMessage js (obj item) = turned (normalize_role js (get "from" item))
  where
    body : String
    body = text (get "value" item)

    turned :
        (o : Option TraceRole)
        → Gives IsMessage (
            role_or "hermes turn has an unknown 'from' value" o >>= λ role.
            body_calls js (embedded_calls (length (codes body)) body) >>= λ embedded. ok (record {
              role = role;
              text = body;
              tool_calls = declared_calls (items_of (get "tool_calls" item)) ++ embedded;
            }))
    turned none = err-Gives _ _
    turned (some role) =
        >>=-Gives (All IsCall) _ (body_calls js (embedded_calls (length (codes body)) body)) _
          (body_calls-IsCall js _)
          (λ calls h. ok-Gives _ _ (record {
            short = text-bound (get "value" item);
            calls =
                All-append IsCall _ calls (declared_calls-IsCall (items_of (get "tool_calls" item)))
                  h;
          }))
hermes_turn-IsMessage js (arr items) = err-Gives _ _
hermes_turn-IsMessage js undefined = err-Gives _ _
hermes_turn-IsMessage js null = err-Gives _ _
hermes_turn-IsMessage js (bool b) = err-Gives _ _
hermes_turn-IsMessage js (num n) = err-Gives _ _
hermes_turn-IsMessage js (bigint n) = err-Gives _ _
hermes_turn-IsMessage js (real t) = err-Gives _ _
hermes_turn-IsMessage js (str s) = err-Gives _ _

hermes_turns-IsMessage :
    (js : Builtins) (turns : List Value) → Gives (All IsMessage) (hermes_turns js turns)
unfolding hermes_turns
hermes_turns-IsMessage js [] = ok-Gives _ [] tt
hermes_turns-IsMessage js (turn ∷ turns) =
    >>=-Gives IsMessage _ (hermes_turn js turn) _ (hermes_turn-IsMessage js turn) (λ m h.
      >>=-Gives (All IsMessage) _ (hermes_turns js turns) _ (hermes_turns-IsMessage js turns)
        (λ ms hs. ok-Gives _ (m ∷ ms) (h, hs)))

-- A trace in the canonical schema, of a format.
abbrev pub IsTraceOf : TraceFormat → CanonicalTrace → Type 0
IsTraceOf format t = IsCanonical t × (t.format ≡ format)

from_turns-IsTraceOf :
    (js : Builtins) (found : Fields × List Value) → Gives (IsTraceOf hermes) (from_turns js found)
from_turns-IsTraceOf js (r, turns) =
    >>=-Gives (All IsMessage) _ (hermes_turns js turns) _ (hermes_turns-IsMessage js turns)
      (λ ms hs. record {
        gives = λ t e.
            let h =
              (finalize-IsCanonical hermes (text_or_null (get "model" r)) ms
                  (outcome_of js (get "outcome" r)) hs).gives
                t e in
            (h.0, h.1);
      })

pub from_hermes-IsTraceOf :
    (js : Builtins) (raw : String) → Gives (IsTraceOf hermes) (from_hermes js raw)
unfolding from_hermes
from_hermes-IsTraceOf js raw =
    always_Gives _ (hermes_document js raw) _
      (λ document. always_Gives _ (conversations document) _ (from_turns-IsTraceOf js))

-- The format that `fromClaudeCode`, `fromCodex` and `fromOpenClaw` write: Hermes is not JSON lines.
abbrev pub lines_format : TraceFormat → TraceFormat
lines_format hermes = openclaw
lines_format format = format

-- A trace of a format of JSON lines with the calls that its records make.
abbrev pub IsTraceFrom : TraceFormat → List Fields → CanonicalTrace → Type 0
IsTraceFrom format records t =
    IsTraceOf (lines_format format) t
    × (t.tool_calls_count ≡ sum (map (record_calls format) records))

loop-IsTraceFrom :
    (js : Builtins) (format : TraceFormat) (records : List Fields)
    → Gives
        (IsTraceFrom format records)
        (each (step_of js format) start records >>= finished_as (lines_format format))
loop-IsTraceFrom js format records =
    >>=-Gives (Advances start (sum (map (record_calls format) records))) _
      (each (step_of js format) start records) _ (loop-Advances js format records)
      (λ final h. record {
        gives = λ t e.
            let g =
              (finalize-IsCanonical (lines_format format) final.model final.messages final.outcome
                  (h.kept tt)).gives
                t e in
            ((g.0, g.1), g.0.calls ∙ ap calls_of g.2 ∙ h.counted ∙ omega arith);
      })

pub from_records-IsTraceFrom :
    (js : Builtins) (format : TraceFormat) (records : List Fields)
    → Gives (IsTraceFrom format records) (from_records js format records)
unfolding from_claude_code from_codex from_open_claw
from_records-IsTraceFrom js claude_code records = loop-IsTraceFrom js claude_code records
from_records-IsTraceFrom js codex records = loop-IsTraceFrom js codex records
from_records-IsTraceFrom js openclaw records = loop-IsTraceFrom js openclaw records
from_records-IsTraceFrom js hermes records = loop-IsTraceFrom js hermes records
