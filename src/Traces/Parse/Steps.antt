-- ===== src/Traces/Parse/Steps.antt =====
-- lib/traces/parse.ts: each round of the loops over records attaches the calls that its record makes.
use wtr.Common.{
  ℕ, ◌+◌, ◌≡◌, refl, ap, ◌∙◌, String, Bool, true, false, List, [], ◌∷◌, map, length, length-append,
  All, All-append, Option, none, some, Result, ◌>>=◌, Gives, err-Gives, ok-Gives, >>=-Gives,
  if◌then◌else◌, arith, ◌==◌, eq_iff, otherwise,
}
use wtr.Common.Value.{
  Value, Fields, undefined, null, bool, num, bigint, real, str, arr, obj, is_text,
}
use wtr.Traces.Parse.{TraceRole, TraceOutcome, CanonicalToolCall, CanonicalMessage, text, tool_name}
use wtr.Traces.Parse.Formats.{
  Progress, sum, each, keep_model, push_message, attach, mark, name_or, role_or, unresolved,
}
use wtr.Traces.Parse.Canonical.{
  IsToolName, IsCall, IsMessage, text-bound, tool_name-IsToolName, name_or-Gives,
  attach_tool_call-IsMessage, mark_last_tool_call-IsMessage,
}
use wtr.Traces.Parse.Calls.{
  all_calls, calls_of, all_calls-append, attach_tool_call-calls, mark_last_tool_call-calls,
  length-mark_last,
}

-- From one state of a loop to a later one `n` calls are added, and the messages stay well-formed.
pub record Advances (at : Progress) (n : ℕ) (next : Progress) : Type 0 where
  pub kept : All IsMessage at.messages → All IsMessage next.messages
  pub counted : calls_of next.messages ≡ calls_of at.messages + n

pub Advances-refl : (at : Progress) → Advances at 0 at
Advances-refl at = record { kept = λ h. h; counted = omega arith }

pub Advances-trans :
    {a b c : Progress} {n m k : ℕ} → Advances a n b → Advances b m c → k ≡ n + m → Advances a k c
Advances-trans {n} p q e = record {
  kept = λ h. q.kept (p.kept h);
  counted = omega (arith, p.counted, q.counted, e);
}

pub keep_model-Advances : (v : Value) (at : Progress) → Advances at 0 (keep_model v at)
keep_model-Advances (str s) at = if_model (otherwise at.model "" == "")
  where
    if_model : (b : Bool) → Advances at 0 (if b then record at { model = some s } else at)
    if_model true = record { kept = λ h. h; counted = omega arith }
    if_model false = Advances-refl at
keep_model-Advances (arr items) at = Advances-refl at
keep_model-Advances undefined at = Advances-refl at
keep_model-Advances null at = Advances-refl at
keep_model-Advances (bool b) at = Advances-refl at
keep_model-Advances (num n) at = Advances-refl at
keep_model-Advances (bigint n) at = Advances-refl at
keep_model-Advances (real t) at = Advances-refl at
keep_model-Advances (obj fs) at = Advances-refl at

pub attach-Advances :
    (name : String) (at : Progress) → IsToolName name → Advances at 1 (attach name at)
attach-Advances name at h = record {
  kept = attach_tool_call-IsMessage at.messages (unresolved name) h;
  counted = omega (arith, attach_tool_call-calls at.messages (unresolved name));
}

pub mark-Advances : (b : Bool) (at : Progress) → Advances at 0 (mark b at)
mark-Advances b at = record {
  kept = mark_last_tool_call-IsMessage at.messages b;
  counted =
      ap length (mark_last_tool_call-calls at.messages b)
      ∙ length-mark_last b (all_calls at.messages)
      ∙ omega arith;
}

pub outcome-Advances :
    (o : TraceOutcome) (at : Progress) → Advances at 0 (record at { outcome = o })
outcome-Advances o at = record { kept = λ h. h; counted = omega arith }

pub push_message-Advances :
    (role : TraceRole) (v : Value) (calls : List CanonicalToolCall) (at : Progress)
    → All IsCall calls
    → Advances at (length calls) (push_message role (text v) calls at)
push_message-Advances role v calls at h =
    let m : CanonicalMessage = record { role = role; text = text v; tool_calls = calls } in
    record {
      kept = λ hs.
          All-append IsMessage at.messages (m ∷ []) hs
            (record { short = text-bound v; calls = h }, tt);
      counted = omega (arith, all_calls-append at.messages (m ∷ []), length-append calls []);
    }

pub each-Advances :
    (step : Progress → Fields → Result Progress) (added : Fields → ℕ)
    → ((at : Progress) (r : Fields) → Gives (Advances at (added r)) (step at r))
    → (at : Progress) (rs : List Fields)
    → Gives (Advances at (sum (map added rs))) (each step at rs)
each-Advances step added h at [] = ok-Gives _ at (Advances-refl at)
each-Advances step added h at (r ∷ rs) =
    >>=-Gives (Advances at (added r)) _ (step at r) (λ next. each step next rs) (h at r)
      (λ next a. record {
        gives =
            λ final e. Advances-trans a ((each-Advances step added h next rs).gives final e) refl;
      })

-- A step that may throw, and what it gives.
pub then_Gives :
    {at : Progress} {n : ℕ} (r : Result Progress) {m k : ℕ} {next : Progress}
    → Advances at n next
    → Gives (Advances next m) r
    → k ≡ n + m
    → Gives (Advances at k) r
then_Gives r a g e = record { gives = λ final h. Advances-trans a (g.gives final h) e }

pub is_text-eq : (v : Value) (t : String) → is_text v t ≡ true → v ≡ str t
is_text-eq (str s) t e = ap str ((eq_iff s t).0 e)
is_text-eq (arr items) t e = ground arith
is_text-eq undefined t e = ground arith
is_text-eq null t e = ground arith
is_text-eq (bool b) t e = ground arith
is_text-eq (num n) t e = ground arith
is_text-eq (bigint n) t e = ground arith
is_text-eq (real s) t e = ground arith
is_text-eq (obj fs) t e = ground arith

-- A value that is one text is no other.
pub is_text_apart :
    (v : Value) (s t : String) → is_text v s ≡ true → (s == t) ≡ false → is_text v t ≡ false
is_text_apart v s t e n = ap (λ w. is_text w t) (is_text-eq v s e) ∙ n

pub role_Gives :
    (message : String) (o : Option TraceRole) (f : TraceRole → Result Progress)
    (P : Progress → Type 0)
    → ((role : TraceRole) → Gives P (f role))
    → Gives P (role_or message o >>= f)
role_Gives message none f P h = err-Gives P _
role_Gives message (some role) f P h = h role

pub name_Gives :
    (message : String) (v : Value) (f : String → Result Progress) (P : Progress → Type 0)
    → ((name : String) → IsToolName name → Gives P (f name))
    → Gives P (name_or message (tool_name v) >>= f)
name_Gives message v f P h =
    >>=-Gives IsToolName P (name_or message (tool_name v)) f
      (name_or-Gives message (tool_name v) (tool_name-IsToolName v)) h
