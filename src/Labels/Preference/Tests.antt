-- ===== src/Labels/Preference/Tests.antt =====
-- A panel of two jurors on a sample pair.
use wtr.Common.{
  ℕ, ◌+◌, ◌/◌, ◌*◌, ◌==◌, if◌then◌else◌, String, true, List, [], ◌∷◌, none, some, All, Result, ok,
  trim, ◌≡◌, ◌≢◌, refl,
}
use wtr.Common.Value.{Value, num, str, obj, field, end}
use wtr.Labels.Preference.{
  Winner, a_wins, b_wins, Doubles, Verdict, Juror, JurorVote, Aggregate, JuryResult, PreferenceSpec,
  configured_juror, validate_preference_spec, text, optional_text,
}
use wtr.Labels.Preference.Jury.{
  vote_of, aggregate_votes, run_jury, ask_juror, asks_left, judge_with_juror,
}
use wtr.Labels.Preference.Votes.{IsJudged, judge_with_juror-winner, Counts, aggregate_votes-winner}
use wtr.Labels.Preference.Valid.{IsValid, validate_preference_spec-IsValid}
use wtr.Labels.Preference.Spec.{judged, run_jury-recuses}

-- Confidences in hundredths.
abbrev doubles : Doubles ℕ
doubles = record {
  in_unit = λ v. elim v [ num n ↦ some (100 * n) | _ ↦ none ];
  nought = 0;
  add = λ x y. x + y;
  over = λ x n. x / n;
}

-- A juror who prefers the answer `good`, whichever way round it sees the pair.
abbrev call_juror : String → String → String → String → Unit {0} → Result (Verdict ℕ) × Unit {0}
call_juror model prompt first second w = (
  ok (record {
    winner = if first == "good" then a_wins else b_wins;
    confidence = 80;
    reason = none;
  }),
  w,
)

abbrev spec : PreferenceSpec
spec = record {
  prompt = "p";
  a = "good";
  b = "bad";
  source_family = some "f1";
  trace_asset_id = none;
}

abbrev jurors : List Juror
jurors = record { family = "f1"; model = "m1" } ∷ record { family = "f2"; model = "m2" } ∷ []

abbrev vote : JurorVote ℕ
vote = record {
  juror = "m2";
  family = "f2";
  winner = a_wins;
  confidence = 80;
  forward = a_wins;
  reverse = b_wins;
  reason = none;
}

abbrev aggregate : Aggregate ℕ
aggregate = record { winner = a_wins; agreeing = 1; cast = 1; confidence = 80; accepted = true }

abbrev result : JuryResult ℕ
result = record { aggregate = aggregate; votes = vote ∷ []; recused = "f1" ∷ [] }

jury_test :
    run_jury doubles (judged doubles call_juror (λ ms w. w) (λ _. tt)) jurors spec ≡ ok result
unfolding run_jury judge_with_juror ask_juror asks_left vote_of aggregate_votes
jury_test = refl

configured_juror_test : configured_juror "f1:m:1" ≡ record { family = "f1"; model = "m:1" }
unfolding configured_juror
configured_juror_test = refl

aggregate_test : aggregate_votes doubles (vote ∷ []) ≡ ok aggregate
unfolding aggregate_votes
aggregate_test = refl

abbrev verdict : Winner → Verdict ℕ
verdict w = record { winner = w; confidence = 80; reason = none }

judged_test :
    (judge_with_juror doubles call_juror
      (λ ms w. w)
      (record { family = "f2"; model = "m2" })
      spec
      tt).0
    ≡ ok vote
unfolding judge_with_juror ask_juror asks_left vote_of
judged_test = refl

judge_with_juror-winner_example :
    IsJudged
      (ask_juror doubles call_juror (λ ms w. w) "m2" "p" "good" "bad" tt).0
      (ask_juror doubles call_juror
        (λ ms w. w)
        "m2"
        "p"
        "bad"
        "good"
        (ask_juror doubles call_juror (λ ms w. w) "m2" "p" "good" "bad" tt).1).0
      vote
judge_with_juror-winner_example =
    judge_with_juror-winner doubles call_juror (λ ms w. w) (record { family = "f2"; model = "m2" })
      spec tt vote judged_test

aggregate_votes-winner_example : Counts (vote ∷ []) aggregate
aggregate_votes-winner_example = aggregate_votes-winner doubles (vote ∷ []) aggregate aggregate_test

run_jury-recuses_example : All (λ (vote : JurorVote ℕ). some "f1" ≢ some vote.family) (vote ∷ [])
run_jury-recuses_example =
    run_jury-recuses doubles call_juror (λ ms w. w) (λ _. tt) jurors spec result jury_test

abbrev raw : Value
raw = obj (
    field "prompt" (str "p")
      (field "a" (str "good") (field "b" (str "bad") (field "source_family" (str "f1") end))))

spec_test : validate_preference_spec raw ≡ ok spec
unfolding validate_preference_spec text optional_text trim
spec_test = refl

validate_preference_spec-IsValid_example : IsValid spec
validate_preference_spec-IsValid_example = validate_preference_spec-IsValid raw spec spec_test
