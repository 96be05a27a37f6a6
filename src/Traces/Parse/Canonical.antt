-- ===== src/Traces/Parse/Canonical.antt =====
-- lib/traces/parse.ts: what every trace that the normalizers give is made of.
use wtr.Common.{
  not, map, join, keep, ◌≤◌, ◌≡◌, ◌≢◌, refl, String, Bool, true, false, ◌||◌, List, [], ◌∷◌, push,
  any, All, All-append, Option, none, some, Gives, Holds, err-Gives, ok-Gives, some-Holds,
  none-Holds, if_Holds, ◌==◌, trim, units, codes, slice_units-bound, ltb, is_none, if◌then◌else◌,
  arith, eq_iff,
}
use wtr.Common.Value.{Value, undefined, null, bool, num, bigint, real, str, arr, obj, elements}
use wtr.Traces.Parse.{
  assistant, CanonicalToolCall, CanonicalMessage, block_text, max_text_chars, max_tool_name_chars,
  text, tool_name,
}
use wtr.Traces.Parse.Formats.{
  is_assistant, attach_tool_call, add_to_last, mark_calls, mark_messages, mark_last_tool_call,
  name_or,
}

-- A tool's name: trimmed, not empty, and not too long.
pub record IsToolName (name : String) : Type 0 where
  pub raw : String
  pub trimmed : name ≡ trim raw
  pub not_empty : name ≢ ""
  pub bounded : units (codes name) ≤ max_tool_name_chars

abbrev pub IsCall : CanonicalToolCall → Type 0
IsCall call = IsToolName call.name

pub record IsMessage (m : CanonicalMessage) : Type 0 where
  pub short : units (codes m.text) ≤ max_text_chars
  pub calls : All IsCall m.tool_calls

pub text-bound : (v : Value) → units (codes (text v)) ≤ max_text_chars
unfolding text
text-bound (str s) = slice_units-bound max_text_chars s
text-bound (arr items) =
    slice_units-bound max_text_chars
      (join "\n" (keep (λ t. not (t == "")) (map block_text (elements items))))
text-bound undefined = omega arith
text-bound null = omega arith
text-bound (bool b) = omega arith
text-bound (num n) = omega arith
text-bound (bigint n) = omega arith
text-bound (real t) = omega arith
text-bound (obj fs) = omega arith

IsToolName-fits :
    (s : String)
    → (trim s == "" || ltb max_tool_name_chars (units (codes (trim s)))) ≡ false
    → IsToolName (trim s)
IsToolName-fits s e = record {
  raw = s;
  trimmed = refl;
  not_empty = λ z. nonempty z;
  bounded = ground arith;
}
  where
    nonempty : trim s ≢ ""
    nonempty z = ground (arith, eq_iff (trim s) "")

pub tool_name-IsToolName : (v : Value) → Holds IsToolName (tool_name v)
unfolding tool_name
tool_name-IsToolName (str s) =
    if_Holds IsToolName _ _ _ (λ _. none-Holds IsToolName)
      (λ e. some-Holds IsToolName (trim s) (IsToolName-fits s e))
tool_name-IsToolName (arr items) = none-Holds IsToolName
tool_name-IsToolName undefined = none-Holds IsToolName
tool_name-IsToolName null = none-Holds IsToolName
tool_name-IsToolName (bool b) = none-Holds IsToolName
tool_name-IsToolName (num n) = none-Holds IsToolName
tool_name-IsToolName (bigint n) = none-Holds IsToolName
tool_name-IsToolName (real t) = none-Holds IsToolName
tool_name-IsToolName (obj fs) = none-Holds IsToolName

pub name_or-Gives :
    (message : String) (o : Option String)
    → Holds IsToolName o
    → Gives IsToolName (name_or message o)
name_or-Gives message none h = err-Gives IsToolName _
name_or-Gives message (some name) h = ok-Gives IsToolName name (h.holds name refl)

if_All :
    {A : Type 0} (P : A → Type 0) (b : Bool) (xs ys : List A)
    → All P xs
    → All P ys
    → All P (if b then xs else ys)
if_All P true xs ys g h = g
if_All P false xs ys g h = h

add_to_last-IsMessage :
    (call : CanonicalToolCall) (ms : List CanonicalMessage)
    → IsCall call
    → All IsMessage ms
    → All IsMessage (add_to_last call ms)
add_to_last-IsMessage call [] c h = tt
add_to_last-IsMessage call (m ∷ ms) c (h, hs) =
    if_All IsMessage (any (λ m. is_assistant m.role) ms) (m ∷ add_to_last call ms)
      (record m { tool_calls = push m.tool_calls call } ∷ ms)
      (h, add_to_last-IsMessage call ms c hs)
      (
        record {
          short = h.short;
          calls = All-append IsCall m.tool_calls (call ∷ []) h.calls (c, tt);
        },
        hs,
      )

pub attach_tool_call-IsMessage :
    (ms : List CanonicalMessage) (call : CanonicalToolCall)
    → IsCall call
    → All IsMessage ms
    → All IsMessage (attach_tool_call ms call)
unfolding attach_tool_call
attach_tool_call-IsMessage ms call c h =
    if_All IsMessage (any (λ m. is_assistant m.role) ms) (add_to_last call ms)
      (push ms (record { role = assistant; text = ""; tool_calls = call ∷ [] }))
      (add_to_last-IsMessage call ms c h)
      (All-append IsMessage ms _ h (record { short = omega arith; calls = (c, tt) }, tt))

mark_calls-IsCall :
    (b : Bool) (cs : List CanonicalToolCall) → All IsCall cs → Holds (All IsCall) (mark_calls b cs)
mark_calls-IsCall b [] h = none-Holds (All IsCall)
mark_calls-IsCall b (c ∷ cs) (h, hs) = marked (mark_calls b cs) (mark_calls-IsCall b cs hs)
  where
    marked :
        (o : Option (List CanonicalToolCall))
        → Holds (All IsCall) o
        → Holds (All IsCall) (elim o [
          | some marked ↦ some (c ∷ marked)
          | none ↦ if is_none c.ok then some (record c { ok = some b } ∷ cs) else none
        ])
    marked (some later) g = some-Holds (All IsCall) (c ∷ later) (h, g.holds later refl)
    marked none g =
        if_Holds (All IsCall) _ _ _
          (λ _. some-Holds (All IsCall) (record c { ok = some b } ∷ cs) (h, hs))
          (λ _. none-Holds (All IsCall))

mark_messages-IsMessage :
    (b : Bool) (ms : List CanonicalMessage)
    → All IsMessage ms
    → Holds (All IsMessage) (mark_messages b ms)
mark_messages-IsMessage b [] h = none-Holds (All IsMessage)
mark_messages-IsMessage b (m ∷ ms) (h, hs) =
    marked (mark_messages b ms) (mark_calls b m.tool_calls) (mark_messages-IsMessage b ms hs)
      (mark_calls-IsCall b m.tool_calls h.calls)
  where
    marked :
        (o : Option (List CanonicalMessage)) (cs : Option (List CanonicalToolCall))
        → Holds (All IsMessage) o
        → Holds (All IsCall) cs
        → Holds (All IsMessage) (elim o [
          | some marked ↦ some (m ∷ marked)
          | none ↦ elim cs [
            | some calls ↦ some (record m { tool_calls = calls } ∷ ms)
            | none ↦ none
          ]
        ])
    marked (some later) cs g k = some-Holds (All IsMessage) (m ∷ later) (h, g.holds later refl)
    marked none (some calls) g k =
        some-Holds (All IsMessage) (record m { tool_calls = calls } ∷ ms)
          (record { short = h.short; calls = k.holds calls refl }, hs)
    marked none none g k = none-Holds (All IsMessage)

pub mark_last_tool_call-IsMessage :
    (ms : List CanonicalMessage) (b : Bool)
    → All IsMessage ms
    → All IsMessage (mark_last_tool_call ms b)
unfolding mark_last_tool_call
mark_last_tool_call-IsMessage ms b h = chosen (mark_messages b ms) (mark_messages-IsMessage b ms h)
  where
    chosen :
        (o : Option (List CanonicalMessage))
        → Holds (All IsMessage) o
        → All IsMessage (elim o [ some marked ↦ marked | none ↦ ms ])
    chosen (some marked) g = g.holds marked refl
    chosen none g = h
