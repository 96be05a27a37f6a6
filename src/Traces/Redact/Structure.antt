-- ===== src/Traces/Redact/Structure.antt =====
-- lib/traces/redact.ts: what `traceStructure` counts.
use wtr.Common.{
  ℕ, suc, ◌+◌, ◌≤◌, ◌<◌, ◌≡◌, refl, ap, ◌∙◌, String, Bool, true, false, List, [], ◌∷◌, ◌++◌, length,
  length-append, includes, Option, none, some, ltb, ltb→lt, if◌then◌else◌, if_yes, if_no,
  Bool-cases, inl, inr, arith,
}
use wtr.Crypto.{before}
use wtr.Traces.Parse.{CanonicalToolCall, CanonicalMessage, CanonicalTrace}
use wtr.Traces.Parse.Calls.{all_calls}
use wtr.Traces.Parse.Sound.{IsCanonical}
use wtr.Traces.Redact.{
  max_tool_names, add_name, insert_name, sort_names, count_call, count_calls, count_messages,
  trace_structure,
}

-- The calls whose result reported an error.
abbrev pub failed_calls : List CanonicalToolCall → ℕ
failed_calls [] = 0
failed_calls (call ∷ calls) =
    (elim call.ok as (λ _. ℕ) [ some b ↦ if b then 0 else 1 | none ↦ 0 ]) + failed_calls calls

add_name-bound :
    (names : List String) (name : String)
    → length names ≤ max_tool_names
    → length (add_name names name) ≤ max_tool_names
unfolding add_name
add_name-bound names name h =
    step (ltb (length names) max_tool_names) (includes names name)
      (ltb→lt (length names) max_tool_names)
  where
    step :
        (room known : Bool)
        → (room ≡ true → length names < max_tool_names)
        → length (if room then (if known then names else (names ++ (name ∷ []))) else names)
          ≤ max_tool_names
    step false known below = h
    step true true below = h
    step true false below = omega (arith, below refl, length-append names (name ∷ []))

-- From one state of the loop to a later one, the set stays within its limit and `n` calls are found failed.
record Counts (from : List String × ℕ) (n : ℕ) (to : List String × ℕ) : Type 0 where
  few : length from.0 ≤ max_tool_names → length to.0 ≤ max_tool_names
  failed : to.1 ≡ from.1 + n

count_calls-Counts :
    (at : List String × ℕ) (calls : List CanonicalToolCall)
    → Counts at (failed_calls calls) (count_calls at calls)
count_calls-Counts at [] = record { few = λ h. h; failed = omega arith }
count_calls-Counts at (call ∷ calls) =
    let later = count_calls-Counts (count_call at call) calls in
    record {
      few = λ h. later.few (add_name-bound at.0 call.name h);
      failed = later.failed ∙ step call.ok;
    }
  where
    step :
        (o : Option Bool)
        → (elim o [ some b ↦ if b then at.1 else suc at.1 | none ↦ at.1 ]) + failed_calls calls
          ≡ at.1
            + ((elim o as (λ _. ℕ) [ some b ↦ if b then 0 else 1 | none ↦ 0 ]) + failed_calls calls)
    step none = omega arith
    step (some true) = omega arith
    step (some false) = omega arith

failed_calls-append :
    (a b : List CanonicalToolCall) → failed_calls (a ++ b) ≡ failed_calls a + failed_calls b
failed_calls-append [] b = omega arith
failed_calls-append (call ∷ a) b = omega (arith, failed_calls-append a b)

count_messages-Counts :
    (at : List String × ℕ) (ms : List CanonicalMessage)
    → Counts at (failed_calls (all_calls ms)) (count_messages at ms)
count_messages-Counts at [] = record { few = λ h. h; failed = omega arith }
count_messages-Counts at (m ∷ ms) =
    let first = count_calls-Counts at m.tool_calls in
    let later = count_messages-Counts (count_calls at m.tool_calls) ms in
    record {
      few = λ h. later.few (first.few h);
      failed =
          omega
            (arith, first.failed, later.failed, failed_calls-append m.tool_calls (all_calls ms));
    }

length-insert_name :
    (name : String) (names : List String) → length (insert_name name names) ≡ suc (length names)
length-insert_name name [] = refl
length-insert_name name (other ∷ names) = elim (Bool-cases (before other name)) [
  | inl e ↦ ap length (if_yes _ _ e) ∙ ap suc (length-insert_name name names)
  | inr e ↦ ap length (if_no _ _ e)
]

length-sort_names : (names : List String) → length (sort_names names) ≡ length names
length-sort_names [] = refl
length-sort_names (name ∷ names) =
    length-insert_name name (sort_names names) ∙ ap suc (length-sort_names names)

failed_calls-bound : (calls : List CanonicalToolCall) → failed_calls calls ≤ length calls
failed_calls-bound [] = omega arith
failed_calls-bound (call ∷ calls) = step call.ok (failed_calls-bound calls)
  where
    step :
        (o : Option Bool)
        → failed_calls calls ≤ length calls
        → (elim o as (λ _. ℕ) [ some b ↦ if b then 0 else 1 | none ↦ 0 ]) + failed_calls calls
          ≤ suc (length calls)
    step none h = omega arith
    step (some true) h = omega arith
    step (some false) h = omega arith

-- The structure of a trace in the canonical schema has at most 64 tool names; it counts as failed exactly
-- the calls of all messages whose result reported an error, which are no more than its calls.
pub trace_structure-failed :
    (t : CanonicalTrace)
    → IsCanonical t
    → (length (trace_structure t).tool_names ≤ max_tool_names)
      × ((trace_structure t).failed_tool_calls ≡ failed_calls (all_calls t.messages))
      × ((trace_structure t).failed_tool_calls ≤ (trace_structure t).tool_calls_count)
unfolding trace_structure
trace_structure-failed t c =
    let counted = count_messages-Counts ([], 0) t.messages in
    (
      omega (
        arith,
        length-sort_names (count_messages ([], 0) t.messages).0,
        counted.few (omega arith),
      ),
      counted.failed ∙ omega arith,
      omega (arith, counted.failed, failed_calls-bound (all_calls t.messages), c.calls),
    )
