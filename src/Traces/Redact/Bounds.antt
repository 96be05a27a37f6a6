-- ===== src/Traces/Redact/Bounds.antt =====
-- lib/traces/redact.ts: a preview that the server accepts is scrubbed and within the limits.
use wtr.Common.{
  ℕ, suc, ◌≤◌, ◌≡◌, refl, ap, String, List, [], ◌∷◌, map, length, take, length-take, All, ok, Gives,
  Holds, err-Gives, ok-Gives, if_Gives, >>=-Gives, some-Holds, none-Holds, units, codes,
  slice_units, slice_units-bound, ltb, arith,
}
use wtr.Common.Value.{
  Value, Items, undefined, null, bool, num, bigint, real, str, arr, obj, get, elements, is_text,
}
use wtr.Traces.Parse.{
  TraceRole, system, user, assistant, tool, max_model_chars, max_tool_name_chars,
}
use wtr.Traces.Redact.{
  Engine, RedactedMessage, RedactedTrace, max_preview_messages, max_preview_chars, max_tool_names,
  redact_text, only_texts, clean_tool_names, preview_role, clean_fields, clean_message,
  clean_messages, preview_format, preview_model, preview_messages, clean_trace,
  validate_redacted_trace,
}

-- A text that is the first `n` units of a scrubbed one.
pub record IsScrubbed (engine : Engine) (n : ℕ) (text : String) : Type 0 where
  pub original : String
  pub scrubbed : text ≡ slice_units n (redact_text engine original)
  pub bounded : units (codes text) ≤ n

scrubbed_slice :
    (engine : Engine) (n : ℕ) (s : String)
    → IsScrubbed engine n (slice_units n (redact_text engine s))
scrubbed_slice engine n s = record {
  original = s;
  scrubbed = refl;
  bounded = slice_units-bound n (redact_text engine s);
}

-- One of the four roles.
abbrev pub IsPlain : TraceRole → Type 0
IsPlain (TraceRole.inherited s) = ⊥
IsPlain _ = Unit

pub record IsSafe (engine : Engine) (m : RedactedMessage) : Type 0 where
  pub plain : IsPlain m.role
  pub text : IsScrubbed engine max_preview_chars m.text
  pub few : length m.tool_names ≤ max_tool_names
  pub names : All (IsScrubbed engine max_tool_name_chars) m.tool_names

pub length-map : {A B : Type 0} (f : A → B) (xs : List A) → length (map f xs) ≡ length xs
length-map f [] = refl
length-map f (x ∷ xs) = ap suc (length-map f xs)

names-IsScrubbed :
    (engine : Engine) (names : List String)
    → All
        (IsScrubbed engine max_tool_name_chars)
        (map (λ name. slice_units max_tool_name_chars (redact_text engine name)) names)
names-IsScrubbed engine [] = tt
names-IsScrubbed engine (name ∷ names) =
    (scrubbed_slice engine max_tool_name_chars name, names-IsScrubbed engine names)

clean_tool_names-few :
    (engine : Engine) (v : Value) → length (clean_tool_names engine v) ≤ max_tool_names
clean_tool_names-few engine (arr items) = omega (
  arith,
  length-take max_tool_names (only_texts (elements items)),
  length-map (λ name. slice_units max_tool_name_chars (redact_text engine name))
      (take max_tool_names (only_texts (elements items))),
)
clean_tool_names-few engine undefined = omega arith
clean_tool_names-few engine null = omega arith
clean_tool_names-few engine (bool b) = omega arith
clean_tool_names-few engine (num n) = omega arith
clean_tool_names-few engine (bigint n) = omega arith
clean_tool_names-few engine (real t) = omega arith
clean_tool_names-few engine (str s) = omega arith
clean_tool_names-few engine (obj fs) = omega arith

clean_tool_names-IsScrubbed :
    (engine : Engine) (v : Value)
    → All (IsScrubbed engine max_tool_name_chars) (clean_tool_names engine v)
clean_tool_names-IsScrubbed engine (arr items) =
    names-IsScrubbed engine (take max_tool_names (only_texts (elements items)))
clean_tool_names-IsScrubbed engine undefined = tt
clean_tool_names-IsScrubbed engine null = tt
clean_tool_names-IsScrubbed engine (bool b) = tt
clean_tool_names-IsScrubbed engine (num n) = tt
clean_tool_names-IsScrubbed engine (bigint n) = tt
clean_tool_names-IsScrubbed engine (real t) = tt
clean_tool_names-IsScrubbed engine (str s) = tt
clean_tool_names-IsScrubbed engine (obj fs) = tt

preview_role-IsPlain : (v : Value) → Gives IsPlain (preview_role v)
preview_role-IsPlain v =
    if_Gives IsPlain (is_text v "system") _ _ (λ _. ok-Gives IsPlain system tt)
      (λ _.
        if_Gives IsPlain (is_text v "user") _ _ (λ _. ok-Gives IsPlain user tt)
          (λ _.
            if_Gives IsPlain (is_text v "assistant") _ _ (λ _. ok-Gives IsPlain assistant tt)
              (λ _.
                if_Gives IsPlain (is_text v "tool") _ _ (λ _. ok-Gives IsPlain tool tt)
                  (λ _. err-Gives IsPlain _))))

clean_message-IsSafe :
    (engine : Engine) (v : Value) → Gives (IsSafe engine) (clean_message engine v)
unfolding clean_message
clean_message-IsSafe engine (obj message) =
    >>=-Gives IsPlain _ (preview_role (get "role" message)) _
      (preview_role-IsPlain (get "role" message))
      (λ role h. ok-Gives _ (clean_fields engine message role) (record {
        plain = h;
        text = scrubbed_slice engine max_preview_chars _;
        few = clean_tool_names-few engine (get "toolNames" message);
        names = clean_tool_names-IsScrubbed engine (get "toolNames" message);
      }))
clean_message-IsSafe engine (arr items) = err-Gives _ _
clean_message-IsSafe engine undefined = err-Gives _ _
clean_message-IsSafe engine null = err-Gives _ _
clean_message-IsSafe engine (bool b) = err-Gives _ _
clean_message-IsSafe engine (num n) = err-Gives _ _
clean_message-IsSafe engine (bigint n) = err-Gives _ _
clean_message-IsSafe engine (real t) = err-Gives _ _
clean_message-IsSafe engine (str s) = err-Gives _ _

clean_messages-IsSafe :
    (engine : Engine) (vs : List Value)
    → Gives (λ ms. All (IsSafe engine) ms × (length ms ≡ length vs)) (clean_messages engine vs)
clean_messages-IsSafe engine [] = ok-Gives _ [] (tt, refl)
clean_messages-IsSafe engine (v ∷ vs) =
    >>=-Gives (IsSafe engine) _ (clean_message engine v) _ (clean_message-IsSafe engine v) (λ m h.
      >>=-Gives (λ ms. All (IsSafe engine) ms × (length ms ≡ length vs)) _
        (clean_messages engine vs) _ (clean_messages-IsSafe engine vs)
        (λ ms (hs, e). ok-Gives _ (m ∷ ms) ((h, hs), ap suc e)))

preview_messages-bound :
    (v : Value)
    → Gives (λ vs. (1 ≤ length vs) × (length vs ≤ max_preview_messages)) (preview_messages v)
preview_messages-bound (arr Items.nil) = err-Gives _ _
preview_messages-bound (arr (Items.item v items)) =
    if_Gives _ (ltb max_preview_messages (length (v ∷ elements items))) _ _ (λ _. err-Gives _ _)
      (λ few. ok-Gives _ (v ∷ elements items) (omega arith, ground arith))
preview_messages-bound undefined = err-Gives _ _
preview_messages-bound null = err-Gives _ _
preview_messages-bound (bool b) = err-Gives _ _
preview_messages-bound (num n) = err-Gives _ _
preview_messages-bound (bigint n) = err-Gives _ _
preview_messages-bound (real t) = err-Gives _ _
preview_messages-bound (str s) = err-Gives _ _
preview_messages-bound (obj fs) = err-Gives _ _

pub record IsSafePreview (engine : Engine) (t : RedactedTrace) : Type 0 where
  pub not_empty : 1 ≤ length t.messages
  pub few : length t.messages ≤ max_preview_messages
  pub messages : All (IsSafe engine) t.messages
  pub format : units (codes t.format) ≤ 64
  pub model : Holds (IsScrubbed engine max_model_chars) t.model

format_bound : (engine : Engine) (v : Value) → units (codes (preview_format engine v)) ≤ 64
format_bound engine (str s) = slice_units-bound 64 (redact_text engine s)
format_bound engine undefined = omega arith
format_bound engine null = omega arith
format_bound engine (bool b) = omega arith
format_bound engine (num n) = omega arith
format_bound engine (bigint n) = omega arith
format_bound engine (real t) = omega arith
format_bound engine (arr items) = omega arith
format_bound engine (obj fs) = omega arith

model-IsScrubbed :
    (engine : Engine) (v : Value)
    → Holds (IsScrubbed engine max_model_chars) (preview_model engine v)
model-IsScrubbed engine (str s) = some-Holds _ _ (scrubbed_slice engine max_model_chars s)
model-IsScrubbed engine undefined = none-Holds _
model-IsScrubbed engine null = none-Holds _
model-IsScrubbed engine (bool b) = none-Holds _
model-IsScrubbed engine (num n) = none-Holds _
model-IsScrubbed engine (bigint n) = none-Holds _
model-IsScrubbed engine (real t) = none-Holds _
model-IsScrubbed engine (arr items) = none-Holds _
model-IsScrubbed engine (obj fs) = none-Holds _

validated :
    (engine : Engine) (payload : Value)
    → Gives (IsSafePreview engine) (validate_redacted_trace engine payload)
unfolding validate_redacted_trace
validated engine (obj r) =
    >>=-Gives _ _ (preview_messages (get "messages" r)) _
      (preview_messages-bound (get "messages" r))
      (λ vs (some_vs, few).
        >>=-Gives (λ ms. All (IsSafe engine) ms × (length ms ≡ length vs)) _
          (clean_messages engine vs) _ (clean_messages-IsSafe engine vs)
          (λ ms (safe, e). ok-Gives _ (clean_trace engine r ms) (record {
            not_empty = omega arith;
            few = omega arith;
            messages = safe;
            format = format_bound engine (get "format" r);
            model = model-IsScrubbed engine (get "model" r);
          })))
validated engine (arr items) = err-Gives _ _
validated engine undefined = err-Gives _ _
validated engine null = err-Gives _ _
validated engine (bool b) = err-Gives _ _
validated engine (num n) = err-Gives _ _
validated engine (bigint n) = err-Gives _ _
validated engine (real t) = err-Gives _ _
validated engine (str s) = err-Gives _ _

-- Whatever a client sends, a preview that validateRedactedTrace returns has between 1 and 40 messages, each
-- in one of the four roles and with a text that is the first 400 units of a text that redactText scrubbed,
-- and with at most 64 tool names, each the first 128 units of a scrubbed text; its model, if any, is the
-- first 128 units of a scrubbed text, and its format has at most 64 units.
pub validate_redacted_trace-IsSafePreview :
    (engine : Engine) (payload : Value) (t : RedactedTrace)
    → validate_redacted_trace engine payload ≡ ok t
    → IsSafePreview engine t
validate_redacted_trace-IsSafePreview engine payload t e = (validated engine payload).gives t e
