-- ===== src/Traces/Parse/Tests.antt =====
-- An OpenClaw trace of four events, and the theorems on it.
use wtr.Common.{
  String, true, false, List, [], ◌∷◌, Option, none, some, ok, trim, after_prefix, split, Bool, ◌==◌,
  if◌then◌else◌, ◌≡◌, ◌⊎◌, refl,
}
use wtr.Common.Value.{Value, end, field, str, obj}
use wtr.Traces.Parse.{
  Builtins, hermes, openclaw, assistant, tool, success, CanonicalTrace, CanonicalMessage,
  CanonicalToolCall, detect_trace_format, parse_sourced_lines, line_record, lines_from,
  record_format, assert_single_format, text, tool_name, is_hermes,
}
use wtr.Traces.Parse.Formats.{
  attach_tool_call, mark_last_tool_call, outcome_of, finalize, open_claw_step, from_open_claw,
}
use wtr.Traces.Parse.Whole.{parse_trace, embedded_calls, up_to_end}
use wtr.Traces.Parse.Calls.{all_calls, IsMarked, mark_last_tool_call-last}
use wtr.Traces.Parse.Single.{IsReadFrom, parse_trace-IsCanonical, parse_trace-IsReadFrom}
use wtr.Traces.Parse.Sound.{IsCanonical}

abbrev call_line : String
call_line = "{\"event\":\"tool_call\",\"tool\":\" grep \"}"

abbrev result_line : String
result_line = "{\"event\":\"tool_result\",\"content\":\"none\",\"error\":\"no match\"}"

abbrev say_line : String
say_line = "{\"event\":\"message\",\"role\":\"assistant\",\"content\":\"nothing\"}"

abbrev end_line : String
end_line = "{\"event\":\"run_end\",\"status\":\"done\"}"

-- `JSON.parse` of these lines.
abbrev read_line : String → Option Value
read_line s =
    if s == call_line
    then some (obj (field "event" (str "tool_call") (field "tool" (str " grep ") end)))
    else if s == result_line
    then some (
        obj (
          field "event" (str "tool_result")
            (field "content" (str "none") (field "error" (str "no match") end))))
    else if s == say_line
    then some (
        obj (
          field "event" (str "message")
            (field "role" (str "assistant") (field "content" (str "nothing") end))))
    else if s == end_line
    then some (obj (field "event" (str "run_end") (field "status" (str "done") end)))
    else none

abbrev js : Builtins
js = record { to_lower_case = λ s. s; parse_json = read_line }

abbrev raw : String
raw =
    "{\"event\":\"tool_call\",\"tool\":\" grep \"}\n\n{\"event\":\"tool_result\",\"content\":\"none\",\"error\":\"no match\"}\n{\"event\":\"message\",\"role\":\"assistant\",\"content\":\"nothing\"}\n{\"event\":\"run_end\",\"status\":\"done\"}\n"

abbrev grep : Option Bool → CanonicalToolCall
grep result = record { name = "grep"; ok = result }

abbrev trace : CanonicalTrace
trace = record {
  format = openclaw;
  model = none;
  messages =
      record { role = assistant; text = ""; tool_calls = grep (some false) ∷ [] }
      ∷ record { role = tool; text = "none"; tool_calls = [] }
      ∷ record { role = assistant; text = "nothing"; tool_calls = [] }
      ∷ [];
  turn_count = 2;
  tool_calls_count = 1;
  outcome = success;
}

parse_trace-raw : parse_trace js raw ≡ ok trace
unfolding parse_trace detect_trace_format parse_sourced_lines lines_from line_record record_format
    assert_single_format text tool_name trim after_prefix split is_hermes attach_tool_call
    mark_last_tool_call outcome_of finalize open_claw_step from_open_claw
parse_trace-raw = refl

parse_trace-IsCanonical_example : IsCanonical trace
parse_trace-IsCanonical_example = parse_trace-IsCanonical js raw trace parse_trace-raw

parse_trace-IsReadFrom_example : (openclaw ≡ hermes) ⊎ IsReadFrom js raw trace
parse_trace-IsReadFrom_example = parse_trace-IsReadFrom js raw trace parse_trace-raw

embedded_calls_test :
    embedded_calls 60 "a<tool_call> {x} </tool_call><tool_call>y</tool_call><tool_call>"
    ≡ "{x}" ∷ "y" ∷ []
unfolding embedded_calls up_to_end trim after_prefix
embedded_calls_test = refl

-- Two messages, each with a call that has no result yet.
abbrev waiting : List CanonicalMessage
waiting =
    record { role = assistant; text = "a"; tool_calls = grep none ∷ [] }
    ∷ record { role = assistant; text = "b"; tool_calls = grep none ∷ grep (some true) ∷ [] }
    ∷ []

mark_last_tool_call-last_example :
    IsMarked false (all_calls waiting) (all_calls (mark_last_tool_call waiting false))
mark_last_tool_call-last_example = mark_last_tool_call-last waiting false
