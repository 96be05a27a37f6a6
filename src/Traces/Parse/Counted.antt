-- ===== src/Traces/Parse/Counted.antt =====
-- lib/traces/parse.ts: the calls of a trace are those that its records make.
use wtr.Common.{
  ℕ, ◌+◌, ◌≡◌, refl, sym, ap, ◌∙◌, String, Bool, true, false, List, [], ◌∷◌, length, length-append,
  All, All-append, Option, none, some, Result, ok, Gives, ok-Gives, if_Gives, >>=-Gives,
  if◌then◌else◌, if_yes, if_no, arith, ◌==◌, map,
}
use wtr.Common.Value.{
  Value, Fields, undefined, null, bool, num, bigint, real, str, arr, obj, get, as_object, is_text,
  first_of,
}
use wtr.Traces.Parse.{
  Builtins, TraceFormat, hermes, openclaw, codex, claude_code, TraceRole, TraceOutcome, tool,
  CanonicalToolCall, normalize_role, text, tool_name,
}
use wtr.Traces.Parse.Formats.{
  Progress, start, keep_model, push_message, name_or, unresolved, open_claw_step, codex_step,
  codex_payload, sum, each,
}
use wtr.Traces.Parse.Whole.{claude_step, claude_message, claude_blocks, claude_block, items_of}
use wtr.Traces.Parse.Canonical.{IsToolName, IsCall, tool_name-IsToolName, name_or-Gives}
use wtr.Traces.Parse.Steps.{
  Advances, Advances-refl, Advances-trans, keep_model-Advances, attach-Advances, mark-Advances,
  push_message-Advances, outcome-Advances, each-Advances, is_text_apart, role_Gives, name_Gives,
}

-- The calls that a record of OpenClaw makes.
abbrev pub open_claw_calls : Fields → ℕ
open_claw_calls r = if is_text (get "event" r) "tool_call" then 1 else 0

open_claw_step-Advances :
    (js : Builtins) (before : Progress) (r : Fields)
    → Gives (Advances before (open_claw_calls r)) (open_claw_step js before r)
unfolding open_claw_step
open_claw_step-Advances js before r =
    if_Gives P _ _ _
      (λ e.
        role_Gives "openclaw message event has no usable role" (normalize_role js (get "role" r)) _
          P
          (λ role. ok-Gives P _ (
            Advances-trans model (push_message-Advances role (get "content" r) [] at tt)
              (none_of "message" e refl))))
      (λ _.
        if_Gives P _ _ _
          (λ e.
            name_Gives "openclaw tool_call event has no tool name"
              (first_of (get "tool" r) (get "name" r)) _ P
              (λ name h.
                ok-Gives P _ (Advances-trans model (attach-Advances name at h) (if_yes 1 0 e))))
          (λ other.
            if_Gives P (is_text (get "event" r) "tool_result") _ _
              (λ e. ok-Gives P _ (
                Advances-trans model
                  (Advances-trans (mark-Advances _ at)
                    (push_message-Advances tool (get "content" r) [] _ tt) refl)
                  (if_no 1 0 other)))
              (λ _.
                if_Gives P (is_text (get "event" r) "run_end") _ _
                  (λ e.
                    ok-Gives P _ (Advances-trans model (outcome-Advances _ at) (if_no 1 0 other)))
                  (λ _. ok-Gives P _ (Advances-trans model (Advances-refl at) (if_no 1 0 other))))))
  where
    at : Progress
    at = keep_model (get "model" r) before

    P : Progress → Type 0
    P = Advances before (open_claw_calls r)

    model : Advances before 0 at
    model = keep_model-Advances (get "model" r) before

    none_of :
        (s : String)
        → is_text (get "event" r) s ≡ true
        → (s == "tool_call") ≡ false
        → open_claw_calls r ≡ 0 + 0
    none_of s e n = if_no 1 0 (is_text_apart (get "event" r) s "tool_call" e n)

-- The calls that a record of Codex makes.
abbrev payload_calls : Fields → ℕ
payload_calls payload = if is_text (get "type" payload) "function_call" then 1 else 0

abbrev pub codex_calls : Fields → ℕ
codex_calls r = elim (as_object (get "payload" r)) [
  | none ↦ 0
  | some payload ↦ payload_calls payload
]

codex_payload-Advances :
    (js : Builtins) (before : Progress) (r : Fields)
    → Gives (Advances before (payload_calls r)) (codex_payload js before r)
unfolding codex_payload
codex_payload-Advances js before r =
    if_Gives P _ _ _
      (λ e.
        role_Gives "codex message has no usable role" (normalize_role js (get "role" r)) _ P
          (λ role. ok-Gives P _ (
            Advances-trans model (push_message-Advances role (get "content" r) [] at tt)
              (none_of "message" e refl))))
      (λ _.
        if_Gives P _ _ _
          (λ e. name_Gives "codex function_call has no name" (get "name" r) _ P (λ name h.
            ok-Gives P _ (Advances-trans model (attach-Advances name at h) (if_yes 1 0 e))))
          (λ other.
            if_Gives P (is_text (get "type" r) "function_call_output") _ _
              (λ e. ok-Gives P _ (
                Advances-trans model
                  (Advances-trans (mark-Advances _ at) (push_message-Advances tool _ [] _ tt) refl)
                  (if_no 1 0 other)))
              (λ _.
                if_Gives P (is_text (get "type" r) "task_complete") _ _
                  (λ e.
                    ok-Gives P _ (Advances-trans model (outcome-Advances _ at) (if_no 1 0 other)))
                  (λ _. ok-Gives P _ (Advances-trans model (Advances-refl at) (if_no 1 0 other))))))
  where
    at : Progress
    at = keep_model (get "model" r) before

    P : Progress → Type 0
    P = Advances before (payload_calls r)

    model : Advances before 0 at
    model = keep_model-Advances (get "model" r) before

    none_of :
        (s : String)
        → is_text (get "type" r) s ≡ true
        → (s == "function_call") ≡ false
        → payload_calls r ≡ 0 + 0
    none_of s e n = if_no 1 0 (is_text_apart (get "type" r) s "function_call" e n)

codex_step-Advances :
    (js : Builtins) (at : Progress) (r : Fields)
    → Gives (Advances at (codex_calls r)) (codex_step js at r)
codex_step-Advances js at r = step (as_object (get "payload" r))
  where
    step :
        (o : Option Fields)
        → Gives
            (Advances at (elim o [ none ↦ 0 | some payload ↦ payload_calls payload ]))
            (elim o [ none ↦ ok at | some payload ↦ codex_payload js at payload ])
    step none = ok-Gives _ at (Advances-refl at)
    step (some payload) = codex_payload-Advances js at payload

-- The calls that a block of a Claude Code message makes, and those of a record.
abbrev block_calls : Value → ℕ
block_calls (obj item) = if is_text (get "type" item) "tool_use" then 1 else 0
block_calls _ = 0

abbrev pub claude_calls : Fields → ℕ
claude_calls r =
    let entry : ℕ = elim (as_object (get "message" r)) [
      | none ↦ 0
      | some message ↦ sum (map block_calls (items_of (get "content" message)))
    ] in
    if is_text (get "type" r) "result" then 0 else entry

-- From the messages and own calls of a message to later ones, `n` calls of its own are added.
record Reads (from : Progress × List CanonicalToolCall) (n : ℕ)
    (to : Progress × List CanonicalToolCall) : Type 0 where
  marked : Advances from.0 0 to.0
  named : All IsCall from.1 → All IsCall to.1
  own : length to.1 ≡ length from.1 + n

Reads-refl : (at : Progress × List CanonicalToolCall) → Reads at 0 at
Reads-refl at = record { marked = Advances-refl at.0; named = λ h. h; own = omega arith }

claude_block-Reads :
    (at : Progress × List CanonicalToolCall) (block : Value)
    → Gives (Reads at (block_calls block)) (claude_block at block)
unfolding claude_block
claude_block-Reads (at, calls) (obj item) =
    if_Gives P _ _ _
      (λ e.
        >>=-Gives IsToolName P
          (name_or "claude code tool_use block has no name" (tool_name (get "name" item))) _
          (name_or-Gives _ _ (tool_name-IsToolName (get "name" item)))
          (λ name h. ok-Gives P _ (record {
            marked = Advances-refl at;
            named = λ hs. All-append IsCall calls (unresolved name ∷ []) hs (h, tt);
            own =
                length-append calls (unresolved name ∷ [])
                ∙ ap (λ n. length calls + n) (sym (if_yes 1 0 e));
          })))
      (λ other.
        if_Gives P (is_text (get "type" item) "tool_result") _ _
          (λ e.
            ok-Gives P _
              (record { marked = mark-Advances _ at; named = λ hs. hs; own = same other }))
          (λ _.
            ok-Gives P _
              (record { marked = Advances-refl at; named = λ hs. hs; own = same other })))
  where
    P : Progress × List CanonicalToolCall → Type 0
    P = Reads (at, calls) (block_calls (obj item))

    same :
        is_text (get "type" item) "tool_use" ≡ false
        → length calls ≡ length calls + block_calls (obj item)
    same other = omega (arith, if_no {A = ℕ} 1 0 other)
claude_block-Reads at (arr items) = ok-Gives _ at (Reads-refl at)
claude_block-Reads at undefined = ok-Gives _ at (Reads-refl at)
claude_block-Reads at null = ok-Gives _ at (Reads-refl at)
claude_block-Reads at (bool b) = ok-Gives _ at (Reads-refl at)
claude_block-Reads at (num n) = ok-Gives _ at (Reads-refl at)
claude_block-Reads at (bigint n) = ok-Gives _ at (Reads-refl at)
claude_block-Reads at (real t) = ok-Gives _ at (Reads-refl at)
claude_block-Reads at (str s) = ok-Gives _ at (Reads-refl at)

Reads-trans :
    {a b c : Progress × List CanonicalToolCall} {n m k : ℕ}
    → Reads a n b
    → Reads b m c
    → k ≡ n + m
    → Reads a k c
Reads-trans {n} p q e = record {
  marked = Advances-trans p.marked q.marked refl;
  named = λ h. q.named (p.named h);
  own = omega (arith, p.own, q.own, e);
}

claude_blocks-Reads :
    (at : Progress × List CanonicalToolCall) (blocks : List Value)
    → Gives (Reads at (sum (map block_calls blocks))) (claude_blocks at blocks)
unfolding claude_blocks
claude_blocks-Reads at [] = ok-Gives _ at (Reads-refl at)
claude_blocks-Reads at (block ∷ blocks) =
    >>=-Gives (Reads at (block_calls block)) _ (claude_block at block)
      (λ next. claude_blocks next blocks) (claude_block-Reads at block)
      (λ next a. record {
        gives = λ final e. Reads-trans a ((claude_blocks-Reads next blocks).gives final e) refl;
      })

claude_message-Advances :
    (js : Builtins) (before : Progress) (r message : Fields)
    → Gives
        (Advances before (sum (map block_calls (items_of (get "content" message)))))
        (claude_message js before r message)
unfolding claude_message
claude_message-Advances js before r message =
    role_Gives "claude code entry has no usable role"
      (normalize_role js (first_of (get "role" message) (get "type" r))) _ P
      (λ role.
        >>=-Gives (Reads (at, []) n) P (claude_blocks (at, []) blocks) _
          (claude_blocks-Reads (at, []) blocks)
          (λ (marked, calls) h. ok-Gives P _ (pushed role marked calls h)))
  where
    at : Progress
    at = keep_model (get "model" message) before

    blocks : List Value
    blocks = items_of (get "content" message)

    n : ℕ
    n = sum (map block_calls blocks)

    P : Progress → Type 0
    P = Advances before n

    pushed :
        (role : TraceRole) (marked : Progress) (calls : List CanonicalToolCall)
        → Reads (at, []) n (marked, calls)
        → Advances before n (push_message role (text (get "content" message)) calls marked)
    pushed role marked calls h =
        Advances-trans
          (Advances-trans {k = 0} (keep_model-Advances (get "model" message) before) h.marked
            (omega arith))
          (push_message-Advances role (get "content" message) calls marked (h.named tt))
          (omega (arith, h.own))

claude_step-Advances :
    (js : Builtins) (at : Progress) (r : Fields)
    → Gives (Advances at (claude_calls r)) (claude_step js at r)
claude_step-Advances js at r =
    chosen (is_text (get "type" r) "result") (as_object (get "message" r)) _
  where
    chosen :
        (result : Bool) (o : Option Fields) (outcome : TraceOutcome)
        → Gives
            (Advances at (
              if result then 0 else (elim o as (λ _. ℕ) [
                | none ↦ 0
                | some message ↦ sum (map block_calls (items_of (get "content" message)))
              ])))
            (if result
              then ok (record at { outcome = outcome })
              else (elim o as (λ _. Result Progress) [
                | none ↦ ok at
                | some message ↦ claude_message js at r message
              ]))
    chosen true o outcome = ok-Gives _ _ (outcome-Advances outcome at)
    chosen false none outcome = ok-Gives _ at (Advances-refl at)
    chosen false (some message) outcome = claude_message-Advances js at r message

-- The calls that a record makes in a format of JSON lines.
abbrev pub record_calls : TraceFormat → Fields → ℕ
record_calls claude_code = claude_calls
record_calls codex = codex_calls
record_calls _ = open_claw_calls

abbrev pub step_of : Builtins → TraceFormat → Progress → Fields → Result Progress
step_of js claude_code = claude_step js
step_of js codex = codex_step js
step_of js _ = open_claw_step js

step_of-Advances :
    (js : Builtins) (format : TraceFormat) (at : Progress) (r : Fields)
    → Gives (Advances at (record_calls format r)) (step_of js format at r)
step_of-Advances js claude_code = claude_step-Advances js
step_of-Advances js codex = codex_step-Advances js
step_of-Advances js openclaw = open_claw_step-Advances js
step_of-Advances js hermes = open_claw_step-Advances js

pub loop-Advances :
    (js : Builtins) (format : TraceFormat) (records : List Fields)
    → Gives
        (Advances start (sum (map (record_calls format) records)))
        (each (step_of js format) start records)
loop-Advances js format =
    each-Advances (step_of js format) (record_calls format) (step_of-Advances js format) start
