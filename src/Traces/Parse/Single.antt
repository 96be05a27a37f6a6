-- ===== src/Traces/Parse/Single.antt =====
-- lib/traces/parse.ts: the theorems on `parseTrace` as a whole.
use wtr.Common.{
  ◌≡◌, ◌⊎◌, inl, inr, refl, sym, ap, ◌∙◌, subst, String, true, List, [], ◌∷◌, map, All, Option,
  none, some, Result, template, decimal, ok, err, ◌>>=◌, Gives, err-Gives, ok-Gives, if_Gives,
  >>=-Gives, always_Gives, ltb, if◌then◌else◌, ◌==◌, trim, units, codes,
}
use wtr.Traces.Parse.{
  Builtins, TraceFormat, hermes, openclaw, codex, claude_code, CanonicalTrace, SourcedRecord,
  max_bytes, trace_parse_error, format_name, record_format, parse_sourced_lines,
  assert_single_format, detect_trace_format,
}
use wtr.Traces.Parse.Formats.{sum}
use wtr.Traces.Parse.Whole.{from_lines, from_format, parse_trace}
use wtr.Traces.Parse.Counted.{record_calls}
use wtr.Traces.Parse.Sound.{
  IsCanonical, IsTraceFrom, lines_format, from_hermes-IsTraceOf, from_records-IsTraceFrom,
}

format_name-eq : (a b : TraceFormat) → (format_name a == format_name b) ≡ true → a ≡ b
format_name-eq hermes hermes e = refl
format_name-eq hermes openclaw e = absurd cc
format_name-eq hermes codex e = absurd cc
format_name-eq hermes claude_code e = absurd cc
format_name-eq openclaw hermes e = absurd cc
format_name-eq openclaw openclaw e = refl
format_name-eq openclaw codex e = absurd cc
format_name-eq openclaw claude_code e = absurd cc
format_name-eq codex hermes e = absurd cc
format_name-eq codex openclaw e = absurd cc
format_name-eq codex codex e = refl
format_name-eq codex claude_code e = absurd cc
format_name-eq claude_code hermes e = absurd cc
format_name-eq claude_code openclaw e = absurd cc
format_name-eq claude_code codex e = absurd cc
format_name-eq claude_code claude_code e = refl

-- A record that no other format claims.
abbrev pub IsOwn : TraceFormat → SourcedRecord → Type 0
IsOwn format r = (record_format r.record_of ≡ none) ⊎ (record_format r.record_of ≡ some format)

assert_single_format-IsOwn :
    (format : TraceFormat) (rs : List SourcedRecord)
    → Gives (λ checked. (checked ≡ rs) × All (IsOwn format) rs) (assert_single_format format rs)
unfolding assert_single_format
assert_single_format-IsOwn format [] = ok-Gives _ [] (refl, tt)
assert_single_format-IsOwn format (r ∷ rs) =
    found (record_format r.record_of) refl (assert_single_format-IsOwn format rs)
  where
    Checked : List SourcedRecord → List SourcedRecord → Type 0
    Checked sourced checked = (checked ≡ sourced) × All (IsOwn format) sourced

    rest : Result (List SourcedRecord)
    rest = assert_single_format format rs >>= λ checked. ok (r ∷ checked)

    later :
        IsOwn format r
        → Gives (Checked rs) (assert_single_format format rs)
        → Gives (Checked (r ∷ rs)) rest
    later own h =
        >>=-Gives (Checked rs) _ (assert_single_format format rs) _ h
          (λ checked (e, all). ok-Gives _ _ (ap (λ xs. r ∷ xs) e, (own, all)))

    found :
        (o : Option TraceFormat)
        → record_format r.record_of ≡ o
        → Gives (Checked rs) (assert_single_format format rs)
        → Gives (Checked (r ∷ rs)) (elim o [
          | none ↦ rest
          | some other ↦
              if format_name other == format_name format
              then rest
              else err (
                  trace_parse_error (
                    template (
                      "trace mixes formats: line "
                      ∷ decimal r.line
                      ∷ " looks like "
                      ∷ format_name other
                      ∷ ", not "
                      ∷ format_name format
                      ∷ [])))
        ])
    found none e h = later (inl e) h
    found (some other) e h =
        if_Gives _ (format_name other == format_name format) _ _
          (λ same. later (inr (e ∙ ap some (format_name-eq other format same))) h)
          (λ _. err-Gives _ _)

-- The records of the lines of a trace that is not Hermes's, none of them another format's.
pub record IsReadFrom (js : Builtins) (raw : String) (t : CanonicalTrace) : Type 0 where
  pub records : List SourcedRecord
  pub read : parse_sourced_lines js raw ≡ ok records
  pub own : All (IsOwn t.format) records
  pub calls :
      t.tool_calls_count ≡ sum (map (record_calls t.format) (map (λ r. r.record_of) records))

abbrev IsParsed : Builtins → String → CanonicalTrace → Type 0
IsParsed js raw t = IsCanonical t × ((t.format ≡ hermes) ⊎ IsReadFrom js raw t)

from_lines-IsParsed :
    (js : Builtins) (raw : String) (format : TraceFormat)
    → lines_format format ≡ format
    → Gives (IsParsed js raw) (from_lines js raw format)
from_lines-IsParsed js raw format f =
    >>=-Gives (λ rs. parse_sourced_lines js raw ≡ ok rs) _ (parse_sourced_lines js raw) _
      (record { gives = λ rs e. e })
      (λ rs e.
        >>=-Gives (λ checked. (checked ≡ rs) × All (IsOwn format) rs) _
          (assert_single_format format rs) _ (assert_single_format-IsOwn format rs)
          (λ checked (same, own). record {
            gives = λ t h.
                parsed rs e checked same own t
                  ((from_records-IsTraceFrom js format (map (λ r. r.record_of) checked)).gives t h);
          }))
  where
    parsed :
        (rs : List SourcedRecord)
        → parse_sourced_lines js raw ≡ ok rs
        → (checked : List SourcedRecord) → checked ≡ rs
        → All (IsOwn format) rs
        → (t : CanonicalTrace) → IsTraceFrom format (map (λ r. r.record_of) checked) t
        → IsParsed js raw t
    parsed rs e checked same own t (of, calls) =
        let named : format ≡ t.format = sym f ∙ sym of.1 in
        (
          of.0,
          inr (record {
            records = rs;
            read = e;
            own = subst (λ g. All (IsOwn g) rs) named own;
            calls =
                calls
                ∙ ap (λ xs. sum (map (record_calls format) (map (λ r. r.record_of) xs))) same
                ∙ ap (λ g. sum (map (record_calls g) (map (λ r. r.record_of) rs))) named;
          }),
        )

from_format-IsParsed :
    (js : Builtins) (raw : String) (format : TraceFormat)
    → Gives (IsParsed js raw) (from_format js raw format)
from_format-IsParsed js raw hermes = record {
  gives = λ t e.
      let (canonical, format) = (from_hermes-IsTraceOf js raw).gives t e in (canonical, inl format);
}
from_format-IsParsed js raw openclaw = from_lines-IsParsed js raw openclaw refl
from_format-IsParsed js raw codex = from_lines-IsParsed js raw codex refl
from_format-IsParsed js raw claude_code = from_lines-IsParsed js raw claude_code refl

parse_trace-IsParsed : (js : Builtins) (raw : String) → Gives (IsParsed js raw) (parse_trace js raw)
unfolding parse_trace
parse_trace-IsParsed js raw =
    if_Gives _ (trim raw == "") _ _ (λ _. err-Gives _ _)
      (λ _.
        if_Gives _ (ltb max_bytes (units (codes raw))) _ _ (λ _. err-Gives _ _)
          (λ _. always_Gives _ (detect_trace_format js raw) _ (from_format-IsParsed js raw)))

-- A trace that parseTrace returns has between 1 and 20000 messages, each of at most 100000 UTF-16 units and
-- with tool names that are trimmed, not empty and at most 128 units long; its turn count is the number of
-- its assistant messages and its call count the number of the calls in all its messages.
pub parse_trace-IsCanonical :
    (js : Builtins) (raw : String) (t : CanonicalTrace) → parse_trace js raw ≡ ok t → IsCanonical t
parse_trace-IsCanonical js raw t e = ((parse_trace-IsParsed js raw).gives t e).0

-- A trace that parseTrace returns is a Hermes trace, or every record that the reader of JSON lines finds
-- has the marker of the trace's own format or no marker, and the call count is the number of tool calls
-- that these records make, each calling record counted once wherever its call was attached.
pub parse_trace-IsReadFrom :
    (js : Builtins) (raw : String) (t : CanonicalTrace)
    → parse_trace js raw ≡ ok t
    → (t.format ≡ hermes) ⊎ IsReadFrom js raw t
parse_trace-IsReadFrom js raw t e = ((parse_trace-IsParsed js raw).gives t e).1
