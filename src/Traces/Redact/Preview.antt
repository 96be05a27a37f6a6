-- ===== src/Traces/Redact/Preview.antt =====
-- lib/traces/redact.ts: the preview that the browser builds is one that the server accepts.
use Prim.Native.Nat.{min}
use wtr.Common.{
  ℕ, zero, suc, ◌-◌, ◌≤◌, ◌≡◌, refl, sym, ap, ◌∙◌, subst, String, List, [], ◌∷◌, map, length,
  length-append, take, drop, length-take, length-drop, All, All-append, Option, none, some, Result,
  ok, ◌>>=◌, ltb, ltb→lt, ltb→ge, ltb-ge, if_yes, if_no, Bool-cases, inl, inr, arith,
}
use wtr.Common.Value.{
  Value, Fields, Items, nil, item, undefined, null, bool, num, str, arr, obj, end, field, elements,
  texts,
}
use wtr.Traces.Parse.{
  TraceRole, system, user, assistant, tool, inherited, TraceOutcome, success, failure, unknown,
  CanonicalMessage, CanonicalTrace,
}
use wtr.Traces.Redact.{
  Engine, RedactedMessage, RedactedTrace, max_preview_messages, redact_message, redact_trace,
  kept_messages, clean_fields, clean_message, clean_messages, clean_trace, preview_messages,
  preview_role, preview_outcome, validate_redacted_trace,
}
use wtr.Traces.Redact.Bounds.{IsPlain, length-map}

-- The preview as the request's body carries it: JSON has no text for an inherited role.
abbrev role_value : TraceRole → Value
role_value system = str "system"
role_value user = str "user"
role_value assistant = str "assistant"
role_value tool = str "tool"
role_value (inherited s) = undefined

abbrev wire_fields : RedactedMessage → Fields
wire_fields m = field "role" (role_value m.role) (
    field "text" (str m.text) (
      field "originalChars" (num m.original_chars)
        (field "toolNames" (arr (texts m.tool_names)) end)))

abbrev wire_items : List RedactedMessage → Items
wire_items [] = nil
wire_items (m ∷ ms) = item (obj (wire_fields m)) (wire_items ms)

abbrev outcome_value : TraceOutcome → Value
outcome_value success = str "success"
outcome_value failure = str "failure"
outcome_value unknown = str "unknown"

abbrev model_value : Option String → Value
model_value none = null
model_value (some s) = str s

abbrev pub wire_trace : RedactedTrace → Fields
wire_trace t = field "format" (str t.format) (
    field "model" (model_value t.model) (
      field "turnCount" (num t.turn_count) (
        field "toolCallsCount" (num t.tool_calls_count) (
          field "outcome" (outcome_value t.outcome) (
            field "truncated" (bool t.truncated)
              (field "messages" (arr (wire_items t.messages)) end))))))

preview_outcome_value : (o : TraceOutcome) → preview_outcome (outcome_value o) ≡ o
preview_outcome_value success = refl
preview_outcome_value failure = refl
preview_outcome_value unknown = refl

preview_role_value : (r : TraceRole) → IsPlain r → preview_role (role_value r) ≡ ok r
preview_role_value system p = refl
preview_role_value user p = refl
preview_role_value assistant p = refl
preview_role_value tool p = refl
preview_role_value (inherited _) p = elim p [ ]

clean_message_wire :
    (engine : Engine) (m : RedactedMessage)
    → IsPlain m.role
    → clean_message engine (obj (wire_fields m)) ≡ ok (clean_fields engine (wire_fields m) m.role)
unfolding clean_message
clean_message_wire engine m p =
    ap (λ r. r >>= λ role. ok (clean_fields engine (wire_fields m) role))
      (preview_role_value m.role p)

cleaned : Engine → List RedactedMessage → List RedactedMessage
cleaned engine ms = map (λ m. clean_fields engine (wire_fields m) m.role) ms

clean_messages_wire :
    (engine : Engine) (ms : List RedactedMessage)
    → All (λ m. IsPlain m.role) ms
    → clean_messages engine (elements (wire_items ms)) ≡ ok (cleaned engine ms)
unfolding cleaned
clean_messages_wire engine [] _ = refl
clean_messages_wire engine (m ∷ ms) (p, ps) =
    ap (λ r. r >>= λ c. clean_messages engine (elements (wire_items ms)) >>= λ cs. ok (c ∷ cs))
      (clean_message_wire engine m p)
    ∙ ap (λ r. r >>= λ cs. ok (clean_fields engine (wire_fields m) m.role ∷ cs))
        (clean_messages_wire engine ms ps)

length-wire_items : (ms : List RedactedMessage) → length (elements (wire_items ms)) ≡ length ms
length-wire_items [] = refl
length-wire_items (m ∷ ms) = ap suc (length-wire_items ms)

preview_messages_wire :
    (ms : List RedactedMessage)
    → 1 ≤ length ms
    → length ms ≤ max_preview_messages
    → preview_messages (arr (wire_items ms)) ≡ ok (elements (wire_items ms))
preview_messages_wire [] some_ms few = absurd (omega arith)
preview_messages_wire (m ∷ ms) some_ms few = if_no _ _ (
    ltb-ge max_preview_messages (length (obj (wire_fields m) ∷ elements (wire_items ms)))
      (omega (arith, length-wire_items ms)))

kept_length :
    (ms : List CanonicalMessage) → length (kept_messages ms) ≡ min max_preview_messages (length ms)
unfolding kept_messages
kept_length ms = elim (Bool-cases (ltb max_preview_messages (length ms))) [
  | inl long ↦
      ap length (if_yes _ _ long)
      ∙ length-append (take 20 ms) (drop (length ms - (max_preview_messages - 20)) ms)
      ∙ omega (
        arith,
        ltb→lt _ _ long,
        length-take 20 ms,
        length-drop (length ms - (max_preview_messages - 20)) ms,
      )
  | inr short ↦ ap length (if_no _ _ short) ∙ omega (arith, ltb→ge _ _ short)
]

All-take : {A : Type 0} (P : A → Type 0) (n : ℕ) (xs : List A) → All P xs → All P (take n xs)
All-take P zero xs h = tt
All-take P (suc n) [] h = tt
All-take P (suc n) (x ∷ xs) (h, hs) = (h, All-take P n xs hs)

All-drop : {A : Type 0} (P : A → Type 0) (n : ℕ) (xs : List A) → All P xs → All P (drop n xs)
All-drop P zero xs h = h
All-drop P (suc n) [] h = tt
All-drop P (suc n) (x ∷ xs) (h, hs) = All-drop P n xs hs

abbrev pub HasPlainRoles : List CanonicalMessage → Type 0
HasPlainRoles ms = All (λ m. IsPlain m.role) ms

kept_HasPlainRoles :
    (ms : List CanonicalMessage) → HasPlainRoles ms → HasPlainRoles (kept_messages ms)
unfolding kept_messages
kept_HasPlainRoles ms h = elim (Bool-cases (ltb max_preview_messages (length ms))) [
  | inl long ↦ subst HasPlainRoles (sym (if_yes _ _ long)) (
      All-append _ (take 20 ms) _ (All-take _ 20 ms h)
        (All-drop _ (length ms - (max_preview_messages - 20)) ms h))
  | inr short ↦ subst HasPlainRoles (sym (if_no _ _ short)) h
]

redacted-IsPlain :
    (engine : Engine) (ms : List CanonicalMessage)
    → HasPlainRoles ms
    → All (λ m. IsPlain m.role) (map (redact_message engine) ms)
redacted-IsPlain engine [] _ = tt
redacted-IsPlain engine (m ∷ ms) (p, ps) = (p, redacted-IsPlain engine ms ps)

-- What the server makes of a preview that the browser built.
pub record IsAccepted (engine : Engine) (t : CanonicalTrace) : Type 0 where
  pub preview : RedactedTrace
  pub validated :
      validate_redacted_trace engine (obj (wire_trace (redact_trace engine t))) ≡ ok preview
  pub messages : length preview.messages ≡ min max_preview_messages (length t.messages)
  pub turns : preview.turn_count ≡ t.turn_count
  pub calls : preview.tool_calls_count ≡ t.tool_calls_count
  pub outcome : preview.outcome ≡ t.outcome

-- For a trace with at least one message, and with a role of the four for each of its messages, the preview
-- that redactTrace builds, sent as JSON, is accepted by validateRedactedTrace, and what that returns has the
-- trace's turn count, call count and outcome, and the smaller of 40 and the trace's number of messages.
pub redact_trace-IsAccepted :
    (engine : Engine) (t : CanonicalTrace)
    → 1 ≤ length t.messages
    → HasPlainRoles t.messages
    → IsAccepted engine t
unfolding validate_redacted_trace redact_trace cleaned
redact_trace-IsAccepted engine t some_messages plain = record {
  preview = clean_trace engine (wire_trace (redact_trace engine t)) (cleaned engine ms);
  validated =
      ap (λ r. r >>= λ vs. clean_messages engine vs >>= finish)
        (preview_messages_wire ms (omega (arith, sized)) (omega (arith, sized)))
      ∙ ap (λ r. r >>= finish)
          (clean_messages_wire engine ms (
            redacted-IsPlain engine (kept_messages t.messages)
              (kept_HasPlainRoles t.messages plain)));
  messages = length-map _ ms ∙ sized;
  turns = refl;
  calls = refl;
  outcome = preview_outcome_value t.outcome;
}
  where
    ms : List RedactedMessage
    ms = map (redact_message engine) (kept_messages t.messages)

    finish : List RedactedMessage → Result RedactedTrace
    finish clean = ok (clean_trace engine (wire_trace (redact_trace engine t)) clean)

    sized : length ms ≡ min max_preview_messages (length t.messages)
    sized = length-map (redact_message engine) (kept_messages t.messages) ∙ kept_length t.messages
