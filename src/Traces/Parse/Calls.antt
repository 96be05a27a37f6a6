-- ===== src/Traces/Parse/Calls.antt =====
-- lib/traces/parse.ts: how many calls the loops over records attach, and that their messages stay
-- well-formed on the way.
use wtr.Common.{
  ℕ, suc, ◌+◌, ◌≡◌, refl, sym, ap, ◌∙◌, Bool, true, false, List, [], ◌∷◌, ◌++◌, map, length,
  length-append, push, any, Option, none, some, Holds, some-Holds, none-Holds, if_Holds, is_none,
  Bool-cases, All, subst, inl, inr, if◌then◌else◌, if_yes, if_no, arith, otherwise,
}
use wtr.Traces.Parse.{assistant, CanonicalToolCall, CanonicalMessage}
use wtr.Traces.Parse.Formats.{
  is_assistant, attach_tool_call, add_to_last, mark_calls, mark_messages, mark_last_tool_call, sum,
}

-- The calls of all messages, in order.
abbrev pub all_calls : List CanonicalMessage → List CanonicalToolCall
all_calls [] = []
all_calls (m ∷ ms) = m.tool_calls ++ all_calls ms

abbrev pub calls_of : List CanonicalMessage → ℕ
calls_of ms = length (all_calls ms)

pub all_calls-append :
    (ms ns : List CanonicalMessage) → calls_of (ms ++ ns) ≡ calls_of ms + calls_of ns
all_calls-append [] ns = omega arith
all_calls-append (m ∷ ms) ns = omega (
  arith,
  all_calls-append ms ns,
  length-append m.tool_calls (all_calls (ms ++ ns)),
  length-append m.tool_calls (all_calls ms),
)

pub calls_of-sum :
    (ms : List CanonicalMessage) → sum (map (λ m. length m.tool_calls) ms) ≡ calls_of ms
calls_of-sum [] = refl
calls_of-sum (m ∷ ms) = omega (arith, calls_of-sum ms, length-append m.tool_calls (all_calls ms))

some_call :
    (call : CanonicalToolCall) (ms : List CanonicalMessage)
    → any (λ m. is_assistant m.role) ms ≡ true
    → calls_of (add_to_last call ms) ≡ suc (calls_of ms)
some_call call [] e = ground arith
some_call call (m ∷ ms) e = elim (Bool-cases (any (λ m. is_assistant m.role) ms)) [
  | inl later ↦
      ap calls_of (if_yes _ _ later)
      ∙ omega (
        arith,
        some_call call ms later,
        length-append m.tool_calls (all_calls (add_to_last call ms)),
        length-append m.tool_calls (all_calls ms),
      )
  | inr last ↦
      ap calls_of (if_no _ _ last)
      ∙ omega (
        arith,
        length-append (push m.tool_calls call) (all_calls ms),
        length-append m.tool_calls (call ∷ []),
        length-append m.tool_calls (all_calls ms),
      )
]

pub attach_tool_call-calls :
    (ms : List CanonicalMessage) (call : CanonicalToolCall)
    → calls_of (attach_tool_call ms call) ≡ suc (calls_of ms)
unfolding attach_tool_call
attach_tool_call-calls ms call = elim (Bool-cases (any (λ m. is_assistant m.role) ms)) [
  | inl e ↦ ap calls_of (if_yes _ _ e) ∙ some_call call ms e
  | inr e ↦
      ap calls_of (if_no _ _ e)
      ∙ omega (
        arith,
        all_calls-append ms (record { role = assistant; text = ""; tool_calls = call ∷ [] } ∷ []),
      )
]

-- The last call without a result in a list of calls gets one; without any, the list stays.
abbrev pub mark_last : Bool → List CanonicalToolCall → List CanonicalToolCall
mark_last b calls = otherwise (mark_calls b calls) calls

-- What marking makes of two lists, one after the other, from what it makes of each.
abbrev marked_append :
    List CanonicalToolCall
    → List CanonicalToolCall
    → Option (List CanonicalToolCall)
    → Option (List CanonicalToolCall)
    → Option (List CanonicalToolCall)
marked_append cs ds first (some marked) = some (cs ++ marked)
marked_append cs ds (some marked) none = some (marked ++ ds)
marked_append cs ds none none = none

mark_calls-append :
    (b : Bool) (cs ds : List CanonicalToolCall)
    → mark_calls b (cs ++ ds) ≡ marked_append cs ds (mark_calls b cs) (mark_calls b ds)
mark_calls-append b [] ds = ground arith
mark_calls-append b (c ∷ cs) ds =
    ap (after (cs ++ ds)) (mark_calls-append b cs ds) ∙ step (mark_calls b cs) (mark_calls b ds)
  where
    here : Bool → List CanonicalToolCall → Option (List CanonicalToolCall)
    here x rest = if x then some (record c { ok = some b } ∷ rest) else none

    after :
        List CanonicalToolCall → Option (List CanonicalToolCall) → Option (List CanonicalToolCall)
    after rest (some marked) = some (c ∷ marked)
    after rest none = here (is_none c.ok) rest

    at_head : (x : Bool) → here x (cs ++ ds) ≡ marked_append (c ∷ cs) ds (here x cs) none
    at_head true = refl
    at_head false = refl

    step :
        (first later : Option (List CanonicalToolCall))
        → after (cs ++ ds) (marked_append cs ds first later)
          ≡ marked_append (c ∷ cs) ds (after cs first) later
    step first (some marked) = refl
    step (some marked) none = refl
    step none none = at_head (is_none c.ok)

flattened : Option (List CanonicalMessage) → Option (List CanonicalToolCall)
flattened none = none
flattened (some ms) = some (all_calls ms)

mark_messages-calls :
    (b : Bool) (ms : List CanonicalMessage)
    → flattened (mark_messages b ms) ≡ mark_calls b (all_calls ms)
unfolding flattened
mark_messages-calls b [] = refl
mark_messages-calls b (m ∷ ms) =
    step (mark_messages b ms) (mark_calls b m.tool_calls)
    ∙ ap (λ later. marked_append m.tool_calls (all_calls ms) (mark_calls b m.tool_calls) later)
        (mark_messages-calls b ms)
    ∙ sym (mark_calls-append b m.tool_calls (all_calls ms))
  where
    step :
        (later : Option (List CanonicalMessage)) (first : Option (List CanonicalToolCall))
        → flattened (elim later [
          | some marked ↦ some (m ∷ marked)
          | none ↦ elim first [
            | some calls ↦ some (record m { tool_calls = calls } ∷ ms)
            | none ↦ none
          ]
        ])
          ≡ marked_append m.tool_calls (all_calls ms) first (flattened later)
    step (some marked) first = refl
    step none (some calls) = refl
    step none none = refl

abbrev HasResult : CanonicalToolCall → Type 0
HasResult call = is_none call.ok ≡ false

-- Calls, and what they are once the last one without a result has got it; where each has one, they stay.
pub data IsMarked (b : Bool) : List CanonicalToolCall → List CanonicalToolCall → Type 0 where
  unmarked : (calls : List CanonicalToolCall) → All HasResult calls → IsMarked b calls calls
  last_marked :
      (older : List CanonicalToolCall) (call : CanonicalToolCall) (newer : List CanonicalToolCall)
      → is_none call.ok ≡ true
      → All HasResult newer
      → IsMarked b (older ++ call ∷ newer) (older ++ record call { ok = some b } ∷ newer)

-- What marking gives, if anything.
Marks : Bool → List CanonicalToolCall → Option (List CanonicalToolCall) → Type 0
Marks b calls none = All HasResult calls
Marks b calls (some new) =
    (older : List CanonicalToolCall) × (call : CanonicalToolCall) × (newer : List CanonicalToolCall)
    × (is_none call.ok ≡ true)
    × All HasResult newer
    × (calls ≡ older ++ call ∷ newer)
    × (new ≡ older ++ record call { ok = some b } ∷ newer)

mark_calls-Marks : (b : Bool) (calls : List CanonicalToolCall) → Marks b calls (mark_calls b calls)
unfolding Marks
mark_calls-Marks b [] = tt
mark_calls-Marks b (c ∷ cs) = step (mark_calls b cs) (mark_calls-Marks b cs) (is_none c.ok) refl
  where
    step :
        (rest : Option (List CanonicalToolCall))
        → Marks b cs rest
        → (x : Bool) → is_none c.ok ≡ x
        → Marks b (c ∷ cs) (elim rest [
          | some new ↦ some (c ∷ new)
          | none ↦ if x then some (record c { ok = some b } ∷ cs) else none
        ])
    step (some new) (older, call, newer, waits, answered, before, after) x e =
        (c ∷ older, call, newer, waits, answered, ap (λ l. c ∷ l) before, ap (λ l. c ∷ l) after)
    step none answered true e = ([], c, cs, e, answered, refl, refl)
    step none answered false e = (e, answered)

mark_last-IsMarked :
    (b : Bool) (calls : List CanonicalToolCall) → IsMarked b calls (mark_last b calls)
unfolding Marks
mark_last-IsMarked b calls = step (mark_calls b calls) (mark_calls-Marks b calls)
  where
    step :
        (rest : Option (List CanonicalToolCall))
        → Marks b calls rest
        → IsMarked b calls (otherwise rest calls)
    step none answered = unmarked calls answered
    step (some new) (older, call, newer, waits, answered, before, after) =
        subst (λ old. IsMarked b old new) (sym before)
          (subst (λ now. IsMarked b (older ++ call ∷ newer) now) (sym after)
            (last_marked older call newer waits answered))

pub mark_last_tool_call-calls :
    (ms : List CanonicalMessage) (b : Bool)
    → all_calls (mark_last_tool_call ms b) ≡ mark_last b (all_calls ms)
unfolding mark_last_tool_call flattened
mark_last_tool_call-calls ms b =
    chosen (mark_messages b ms) ∙ ap (λ o. otherwise o (all_calls ms)) (mark_messages-calls b ms)
  where
    chosen :
        (o : Option (List CanonicalMessage))
        → all_calls (elim o [ some marked ↦ marked | none ↦ ms ])
          ≡ otherwise (flattened o) (all_calls ms)
    chosen (some marked) = refl
    chosen none = refl

-- Among the calls of all messages in order, markLastToolCall gives the result to the last call that has none
-- and leaves every other call as it is; where every call has a result nothing changes.
pub mark_last_tool_call-last :
    (ms : List CanonicalMessage) (b : Bool)
    → IsMarked b (all_calls ms) (all_calls (mark_last_tool_call ms b))
mark_last_tool_call-last ms b =
    subst (IsMarked b (all_calls ms)) (sym (mark_last_tool_call-calls ms b))
      (mark_last-IsMarked b (all_calls ms))

length-mark_calls :
    (b : Bool) (cs : List CanonicalToolCall) → Holds (λ ds. length ds ≡ length cs) (mark_calls b cs)
length-mark_calls b [] = none-Holds _
length-mark_calls b (c ∷ cs) = step (mark_calls b cs) (length-mark_calls b cs)
  where
    step :
        (o : Option (List CanonicalToolCall))
        → Holds (λ ds. length ds ≡ length cs) o
        → Holds
            (λ ds. length ds ≡ suc (length cs))
            (elim o [
              | some marked ↦ some (c ∷ marked)
              | none ↦ if is_none c.ok then some (record c { ok = some b } ∷ cs) else none
            ])
    step (some marked) h = some-Holds _ (c ∷ marked) (omega (arith, h.holds marked refl))
    step none h =
        if_Holds _ _ _ _ (λ _. some-Holds _ (record c { ok = some b } ∷ cs) (omega arith))
          (λ _. none-Holds _)

pub length-mark_last :
    (b : Bool) (cs : List CanonicalToolCall) → length (mark_last b cs) ≡ length cs
length-mark_last b cs = step (mark_calls b cs) (length-mark_calls b cs)
  where
    step :
        (o : Option (List CanonicalToolCall))
        → Holds (λ ds. length ds ≡ length cs) o
        → length (otherwise o cs) ≡ length cs
    step (some marked) h = h.holds marked refl
    step none h = refl
