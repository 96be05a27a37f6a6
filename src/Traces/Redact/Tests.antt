-- ===== src/Traces/Redact/Tests.antt =====
-- A small preview, and the theorems on it.
use wtr.Common.{
  ◌≤◌, ◌≡◌, refl, String, true, false, [], ◌∷◌, length, none, some, ok, arith, trim, ◌≢◌, ◌==◌,
  eq_iff,
}
use wtr.Common.Value.{Value, end, field, str, obj, arr, nil, item}
use wtr.Traces.Parse.{openclaw, user, assistant, success, unknown, CanonicalTrace}
use wtr.Traces.Parse.Calls.{all_calls}
use wtr.Traces.Parse.Sound.{IsCanonical}
use wtr.Traces.Redact.{
  Engine, RedactedTrace, max_tool_names, redact_text, clean_message, validate_redacted_trace,
  trace_structure,
}
use wtr.Traces.Redact.Bounds.{IsSafePreview, validate_redacted_trace-IsSafePreview}
use wtr.Traces.Redact.Preview.{IsAccepted, redact_trace-IsAccepted}
use wtr.Traces.Redact.Structure.{failed_calls, trace_structure-failed}

-- An engine that finds nothing to replace.
abbrev engine : Engine
engine = record { replace = λ pattern marker s. s; whole_part = λ t. 0 }

abbrev payload : Value
payload = obj (
    field "format" (str "openclaw") (
      field "messages"
        (arr (
          item
            (obj (
              field "role" (str "user")
                (field "text" (str "hi") (field "toolNames" (arr nil) end))))
            nil))
        end))

abbrev preview : RedactedTrace
preview = record {
  format = "openclaw";
  model = none;
  turn_count = 0;
  tool_calls_count = 0;
  outcome = unknown;
  truncated = false;
  messages = record { role = user; text = "hi"; original_chars = 2; tool_names = [] } ∷ [];
}

validated : validate_redacted_trace engine payload ≡ ok preview
unfolding validate_redacted_trace redact_text clean_message
validated = refl

validate_redacted_trace-IsSafePreview_example : IsSafePreview engine preview
validate_redacted_trace-IsSafePreview_example =
    validate_redacted_trace-IsSafePreview engine payload preview validated

abbrev trace : CanonicalTrace
trace = record {
  format = openclaw;
  model = none;
  messages =
      record { role = user; text = "go"; tool_calls = [] }
      ∷ record {
        role = assistant;
        text = "no";
        tool_calls = record { name = "grep"; ok = some false } ∷ [];
      }
      ∷ [];
  turn_count = 1;
  tool_calls_count = 1;
  outcome = success;
}

redact_trace-IsAccepted_example : IsAccepted engine trace
redact_trace-IsAccepted_example = redact_trace-IsAccepted engine trace (omega arith) (tt, (tt, tt))

abbrev grep : String
grep = "grep"

not_empty_name : grep ≢ ""
not_empty_name e = let hit : (grep == "") ≡ true = (eq_iff grep "").1 e in cc

trace-IsCanonical : IsCanonical trace
unfolding trim
trace-IsCanonical = record {
  not_empty = omega arith;
  bounded = omega arith;
  messages = (
    record { short = omega arith; calls = tt },
    (
      record {
        short = omega arith;
        calls = (
          record {
            raw = "grep";
            trimmed = refl;
            not_empty = not_empty_name;
            bounded = omega arith;
          },
          tt,
        );
      },
      tt,
    ),
  );
  turns = refl;
  calls = refl;
}

trace_structure-failed_example :
    (length (trace_structure trace).tool_names ≤ max_tool_names)
    × ((trace_structure trace).failed_tool_calls ≡ failed_calls (all_calls trace.messages))
    × ((trace_structure trace).failed_tool_calls ≤ (trace_structure trace).tool_calls_count)
trace_structure-failed_example = trace_structure-failed trace trace-IsCanonical
