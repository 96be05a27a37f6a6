-- ===== src/Labels/Preference.antt =====
-- lib/labels/preference.ts: pairwise preferences, judged by a panel of models.
-- The jurors' API is a parameter, and so are the doubles that confidences are. The panel judges
-- concurrently, each juror in a world of its own. Rows that are read and written by SQL are left out.
pub mod Jury
pub mod Tally
pub mod Votes
pub mod Spec
pub mod Valid
mod Tests
use wtr.Common.{
  ℕ, zero, suc, ◌+◌, ◌*◌, String, Bool, true, false, not, ◌&&◌, List, [], ◌∷◌, map, Option, none,
  some, keep, any, length, units, ◌>>=◌, leb, ltb, nat_eq, codes, trim, includes, after_prefix,
  Failure, Result, ok, err, error, template, decimal, slice_to, ◌==◌, if◌then◌else◌,
}
use wtr.Common.Value.{
  Value, Fields, Items, undefined, null, bool, num, bigint, real, str, arr, obj, item, nil, field,
  end, get, first_of, texts,
}
use wtr.Crypto.{Platform, sha256_canonical, strip_hex_prefix, before}

pub data Winner : Type 0 where
  a_wins b_wins tied : Winner

-- `SWAP`
abbrev pub swap : Winner → Winner
swap a_wins = b_wins
swap b_wins = a_wins
swap tied = tied

abbrev pub same_winner : Winner → Winner → Bool
same_winner a_wins a_wins = true
same_winner b_wins b_wins = true
same_winner tied tied = true
same_winner _ _ = false

-- JavaScript's numbers, as confidences use them.
pub record Doubles (D : Type 0) : Type 0 where
  -- the number that a JSON value is, if it is a finite one from 0 to 1
  pub in_unit : Value → Option D
  pub nought : D
  pub add : D → D → D
  pub over : D → ℕ → D

pub record Verdict (D : Type 0) : Type 0 where
  pub winner : Winner
  pub confidence : D
  pub reason : Option String

pub record Juror : Type 0 where
  pub family : String
  pub model : String

pub record JurorVote (D : Type 0) : Type 0 where
  pub juror : String
  pub family : String
  pub winner : Winner
  pub confidence : D
  pub forward : Winner
  pub reverse : Winner
  pub reason : Option String

-- `agreement` is the quotient of `agreeing` by `cast`.
pub record Aggregate (D : Type 0) : Type 0 where
  pub winner : Winner
  pub agreeing : ℕ
  pub cast : ℕ
  pub confidence : D
  pub accepted : Bool

pub record JuryResult (D : Type 0) : Type 0 where
  pub aggregate : Aggregate D
  pub votes : List (JurorVote D)
  pub recused : List String

pub record PreferenceSpec : Type 0 where
  pub prompt : String
  pub a : String
  pub b : String
  pub source_family : Option String
  pub trace_asset_id : Option String

abbrev pub max_chars : ℕ
max_chars = 8000

abbrev pub juror_attempts : ℕ
juror_attempts = 4

abbrev missing : String → Failure
missing name = error (template ("preference spec is missing '" ∷ name ∷ "'" ∷ []))

-- `text(value, field, max)`
unfoldable pub text : Value → String → ℕ → Result String
text (str s) name max =
    if trim s == ""
    then err (missing name)
    else if ltb max (units (codes s))
    then err (
        error
          (template ("preference spec '" ∷ name ∷ "' exceeds " ∷ decimal max ∷ " characters" ∷ [])))
    else ok s
text _ name max = err (missing name)

-- `optionalText(value, field)`
unfoldable pub optional_text : Value → String → Result (Option String)
optional_text undefined name = ok none
optional_text null name = ok none
optional_text (str s) name = ok (if s == "" then none else some s)
optional_text _ name =
    err (error (template ("preference spec '" ∷ name ∷ "' must be a string" ∷ [])))

abbrev pub distinct : PreferenceSpec → Result PreferenceSpec
distinct spec =
    if spec.a == spec.b then err (error "preference spec candidates are identical") else ok spec

-- `validatePreferenceSpec`
unfoldable pub validate_preference_spec : Value → Result PreferenceSpec
validate_preference_spec (obj raw) = do
  prompt ← text (get "prompt" raw) "prompt" max_chars
  a ← text (get "a" raw) "a" max_chars
  b ← text (get "b" raw) "b" max_chars
  source ←
      optional_text (first_of (get "sourceFamily" raw) (get "source_family" raw)) "sourceFamily"
  trace ←
      optional_text (first_of (get "traceAssetId" raw) (get "trace_asset_id" raw)) "traceAssetId"
  distinct
      (record { prompt = prompt; a = a; b = b; source_family = source; trace_asset_id = trace })
validate_preference_spec _ = err (error "preference spec must be an object")

-- `configuredJurors`, for one entry: the text before the first `:` and the text behind it.
abbrev split_colon : String → Option (String × String)
split_colon String.[] = none
split_colon (String.◌∷◌ c s) =
    let rest = split_colon s in
    if String.◌∷◌ c String.[] == ":"
    then some ("", s)
    else elim rest [ none ↦ none | some (family, model) ↦ some (String.◌∷◌ c family, model) ]

unfoldable pub configured_juror : String → Juror
configured_juror entry = elim (split_colon entry) [
  | none ↦ record { family = entry; model = entry }
  | some (family, model) ↦ record { family = family; model = model }
]

abbrev pub winner_of : Value → Option Winner
winner_of (str s) =
    if s == "a"
    then some a_wins
    else if s == "b"
    then some b_wins
    else if s == "tie"
    then some tied
    else none
winner_of _ = none

abbrev pub reason_of : Value → Option String
reason_of (str s) = if s == "" then none else some (slice_to 400 s)
reason_of _ = none

-- Jurors of the family that wrote the candidates.
abbrev pub has_family : Option String → Juror → Bool
has_family none juror = false
has_family (some family) juror = juror.family == family

-- The chosen and the rejected text of `persistPreferencePair`.
unfoldable pub chosen_and_rejected : Winner → PreferenceSpec → Result (String × String)
chosen_and_rejected tied spec = err (error "cannot persist a tied preference pair")
chosen_and_rejected a_wins spec = ok (spec.a, spec.b)
chosen_and_rejected b_wins spec = ok (spec.b, spec.a)

-- `[a, b].sort()`
abbrev pub sort_two : String → String → List String
sort_two a b = if before b a then b ∷ a ∷ [] else a ∷ b ∷ []

unfoldable pub preference_fingerprint : Platform → PreferenceSpec → String
preference_fingerprint platform spec = strip_hex_prefix (
    sha256_canonical platform (
      obj (
        field "prompt" (str spec.prompt)
          (field "candidates" (arr (texts (sort_two spec.a spec.b))) end))))
