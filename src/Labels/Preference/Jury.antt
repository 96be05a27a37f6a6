-- ===== src/Labels/Preference/Jury.antt =====
-- lib/labels/preference.ts: the jurors' verdicts, the panel and its votes.
use wtr.Common.{
  ℕ, zero, suc, ◌+◌, ◌*◌, String, not, ◌&&◌, List, [], ◌∷◌, map, Option, none, some, keep, length,
  leb, ltb, nat_eq, includes, Failure, Result, ok, err, error, template, if◌then◌else◌,
}
use wtr.Common.Value.{Value, arr, obj, get}
use wtr.Labels.Preference.{
  Aggregate, Doubles, Juror, JurorVote, JuryResult, PreferenceSpec, Verdict, Winner, has_family,
  juror_attempts, same_winner, swap, tied, winner_of, reason_of,
}

module _ {D : Type 0} (doubles : Doubles D) where
  -- `parseVerdict`, on the JSON value, if the text was one.
  unfoldable pub parse_verdict : Option Value → Result (Verdict D)
  parse_verdict (some (obj fs)) = elim (winner_of (get "winner" fs)) [
    | none ↦ err (error "juror voted for unknown candidate")
    | some winner ↦ elim (doubles.in_unit (get "confidence" fs)) [
      | none ↦ err (error "juror returned an out-of-range confidence")
      | some confidence ↦ ok (record {
        winner = winner;
        confidence = confidence;
        reason = reason_of (get "reason" fs);
      })
    ]
  ]
  parse_verdict (some (arr vs)) = err (error "juror voted for unknown candidate")
  parse_verdict _ = err (error "juror returned invalid JSON")

  -- The vote that the two orderings make.
  unfoldable pub vote_of : Juror → Verdict D → Verdict D → JurorVote D
  vote_of juror forward reverse = record {
    juror = juror.model;
    family = juror.family;
    winner = if same_winner forward.winner (swap reverse.winner) then forward.winner else tied;
    confidence = doubles.over (doubles.add forward.confidence reverse.confidence) 2;
    forward = forward.winner;
    reverse = reverse.winner;
    reason = forward.reason;
  }

  abbrev pub both_orderings : Juror → Result (Verdict D) → Result (Verdict D) → Result (JurorVote D)
  both_orderings juror (ok f) (ok r) = ok (vote_of juror f r)
  both_orderings juror (ok f) (err e) = err e
  both_orderings juror (err e) r = err e

  module _ {W : Type 0}
      (call_juror : String → String → String → String → W → Result (Verdict D) × W)
      (sleep : ℕ → W → W) where
    abbrev pause : ℕ → ℕ → W → W
    pause zero ms w = w
    pause (suc left) ms w = sleep ms w

    -- The loop of `askJuror`, with as many attempts left and the next pause.
    unfoldable pub asks_left :
        String → String → String → String → ℕ → ℕ → Failure → W → Result (Verdict D) × W
    asks_left model prompt first second zero ms failure w = (err failure, w)
    asks_left model prompt first second (suc left) ms failure w =
        let (answer, w') = call_juror model prompt first second w in
        elim answer [
          | ok verdict ↦ (ok verdict, w')
          | err e ↦ asks_left model prompt first second left (2 * ms) e (pause left ms w')
        ]

    unfoldable pub ask_juror : String → String → String → String → W → Result (Verdict D) × W
    ask_juror model prompt first second =
        asks_left model prompt first second juror_attempts 1000
          (error (template ("juror " ∷ model ∷ " would not produce a valid verdict" ∷ [])))

    unfoldable pub judge_with_juror : Juror → PreferenceSpec → W → Result (JurorVote D) × W
    judge_with_juror juror spec w =
        let (forward, w') = ask_juror juror.model spec.prompt spec.a spec.b w in
        let (reverse, w'') = ask_juror juror.model spec.prompt spec.b spec.a w' in
        (both_orderings juror forward reverse, elim forward [ err e ↦ w' | ok f ↦ w'' ])

  -- `counts.set(winner, (counts.get(winner) ?? 0) + 1)`
  abbrev pub count_one : Winner → List (Winner × ℕ) → List (Winner × ℕ)
  count_one w [] = (w, 1) ∷ []
  count_one w ((v, n) ∷ counts) =
      if same_winner v w then (v, n + 1) ∷ counts else (v, n) ∷ count_one w counts

  abbrev pub tally : List (Winner × ℕ) → List (JurorVote D) → List (Winner × ℕ)
  tally counts [] = counts
  tally counts (vote ∷ votes) = tally (count_one vote.winner counts) votes

  -- The loop over `counts`; none for the count of -1 that it starts with.
  abbrev pub most : Option (Winner × ℕ) → List (Winner × ℕ) → Option (Winner × ℕ)
  most best [] = best
  most none ((v, n) ∷ counts) = most (some (v, n)) counts
  most (some (w, m)) ((v, n) ∷ counts) = most (if ltb m n then some (v, n) else some (w, m)) counts

  abbrev pub total : D → List (JurorVote D) → D
  total sum [] = sum
  total sum (vote ∷ votes) = total (doubles.add sum vote.confidence) votes

  unfoldable pub aggregate_votes : List (JurorVote D) → Result (Aggregate D)
  aggregate_votes votes = elim (most none (tally [] votes)) [
    | none ↦ err (error "no juror produced a verdict")
    | some (winner, count) ↦ ok (record {
      winner = winner;
      agreeing = count;
      cast = length votes;
      confidence = doubles.over (total doubles.nought votes) (length votes);
      accepted = not (same_winner winner tied) && leb (3 * length votes) (4 * count);
    })
  ]

  abbrev pub fulfilled : List (Result (JurorVote D)) → List (JurorVote D)
  fulfilled [] = []
  fulfilled (ok vote ∷ outcomes) = vote ∷ fulfilled outcomes
  fulfilled (err failure ∷ outcomes) = fulfilled outcomes

  -- `{ ...aggregateVotes(votes), votes, recused }`
  abbrev pub with_votes :
      List (JurorVote D) → List String → Result (Aggregate D) → Result (JuryResult D)
  with_votes votes recused (ok aggregate) =
      ok (record { aggregate = aggregate; votes = votes; recused = recused })
  with_votes votes recused (err failure) = err failure

  -- `runJury`, for a configured panel; `judge` is what each juror's double judgement comes to.
  unfoldable pub run_jury :
      (Juror → PreferenceSpec → Result (JurorVote D))
      → List Juror
      → PreferenceSpec
      → Result (JuryResult D)
  run_jury judge panel spec =
      let recused =
        map (λ (juror : Juror). juror.family) (keep (has_family spec.source_family) panel) in
      let sitting = keep (λ (juror : Juror). not (includes recused juror.family)) panel in
      let votes = fulfilled (map (λ juror. judge juror spec) sitting) in
      if nat_eq (length sitting) 0
      then err (error "every juror recused itself from this pair")
      else with_votes votes recused (aggregate_votes votes)
