-- ===== src/Labels/Preference/Votes.antt =====
-- lib/labels/preference.ts: the votes of a juror and of the panel.
use wtr.Common.{
  ℕ, arith, String, ◌≤◌, not, ◌≢◌, ◌↔◌, List, [], none, length, leb, ◌*◌, ◌&&◌, Result, ok, err,
  Option-cases, inl, inr, ◌≡◌, refl, sym, subst, ap, ◌∙◌, if◌then◌else◌,
}
use wtr.Labels.Preference.Tally.{votes_for, counted_all, Distinct-tally, tally_cases}
use wtr.Labels.Preference.{
  Winner, a_wins, b_wins, tied, swap, same_winner, Doubles, Verdict, Juror, JurorVote, Aggregate,
  PreferenceSpec,
}
use wtr.Labels.Preference.Jury.{
  vote_of, both_orderings, ask_juror, judge_with_juror, tally, most, aggregate_votes, total,
}

-- The winner that two verdicts make, and when it is a candidate.
agreed :
    (f r c : Winner)
    → c ≢ tied
    → ((if same_winner f (swap r) then f else tied) ≡ c) ↔ ((f ≡ c) × (r ≡ swap c))
agreed a_wins b_wins c n = (λ e. (e, ap swap e), λ h. h.0)
agreed b_wins a_wins c n = (λ e. (e, ap swap e), λ h. h.0)
agreed tied tied c n = (λ e. absurd (n (sym e)), λ h. h.0)
agreed a_wins a_wins c n = (
  λ e. absurd (n (sym e)),
  λ h. let apart : a_wins ≡ b_wins = h.1 ∙ sym (ap swap h.0) in absurd cc,
)
agreed a_wins tied c n =
    (λ e. absurd (n (sym e)), λ h. let apart : tied ≡ b_wins = h.1 ∙ sym (ap swap h.0) in absurd cc)
agreed b_wins b_wins c n = (
  λ e. absurd (n (sym e)),
  λ h. let apart : b_wins ≡ a_wins = h.1 ∙ sym (ap swap h.0) in absurd cc,
)
agreed b_wins tied c n =
    (λ e. absurd (n (sym e)), λ h. let apart : tied ≡ a_wins = h.1 ∙ sym (ap swap h.0) in absurd cc)
agreed tied a_wins c n =
    (λ e. absurd (n (sym e)), λ h. let apart : a_wins ≡ tied = h.1 ∙ sym (ap swap h.0) in absurd cc)
agreed tied b_wins c n =
    (λ e. absurd (n (sym e)), λ h. let apart : b_wins ≡ tied = h.1 ∙ sym (ap swap h.0) in absurd cc)

-- The verdicts behind a vote: its winner is a candidate exactly if both orderings prefer that one.
pub record IsJudged {D : Type 0} (forward reverse : Result (Verdict D)) (vote : JurorVote D)
    : Type 0 where
  pub seen_first : Verdict D
  pub seen_second : Verdict D
  pub first_answer : forward ≡ ok seen_first
  pub second_answer : reverse ≡ ok seen_second
  pub winner :
      (c : Winner)
      → c ≢ tied
      → (vote.winner ≡ c) ↔ ((seen_first.winner ≡ c) × (seen_second.winner ≡ swap c))

module _ {D : Type 0} (doubles : Doubles D) (juror : Juror) (vote : JurorVote D) where
  winner_or : Result (JurorVote D) → Winner
  winner_or (ok v) = v.winner
  winner_or (err failure) = tied

  both_orderings-IsJudged :
      (forward reverse : Result (Verdict D))
      → both_orderings doubles juror forward reverse ≡ ok vote
      → IsJudged forward reverse vote
  unfolding vote_of winner_or
  both_orderings-IsJudged (ok f) (ok r) e = record {
    seen_first = f;
    seen_second = r;
    first_answer = refl;
    second_answer = refl;
    winner = λ c n.
        subst (λ w. (w ≡ c) ↔ ((f.winner ≡ c) × (r.winner ≡ swap c))) (ap winner_or e)
          (agreed f.winner r.winner c n);
  }
  both_orderings-IsJudged (ok f) (err failure) e = absurd (ground arith)
  both_orderings-IsJudged (err failure) reverse e = absurd (ground arith)

-- Where judgeWithJuror returns a vote, the juror was asked about the pair in its order and then in the
-- opposite one, and the vote is for a candidate exactly if both verdicts prefer that candidate: the first by
-- its place, the second by the other one. In all other cases it is a tie.
pub judge_with_juror-winner :
    {D W : Type 0} (doubles : Doubles D)
    (call_juror : String → String → String → String → W → Result (Verdict D) × W)
    (sleep : ℕ → W → W) (juror : Juror) (spec : PreferenceSpec) (w : W) (vote : JurorVote D)
    → (judge_with_juror doubles call_juror sleep juror spec w).0 ≡ ok vote
    → let first = ask_juror doubles call_juror sleep juror.model spec.prompt spec.a spec.b w in
      IsJudged first.0
        (ask_juror doubles call_juror sleep juror.model spec.prompt spec.b spec.a first.1).0
        vote
unfolding judge_with_juror
judge_with_juror-winner doubles call_juror sleep juror spec w vote e =
    both_orderings-IsJudged doubles juror vote _ _ e

module _ {D : Type 0} where
  abbrev result_or : Aggregate D → Result (Aggregate D) → Aggregate D
  result_or other (ok a) = a
  result_or other (err failure) = other

-- What an aggregate has to say of the votes.
abbrev pub Counts : {D : Type 0} → List (JurorVote D) → Aggregate D → Type 0
Counts votes result =
    (result.agreeing ≡ votes_for result.winner votes)
    × ((w : Winner) → votes_for w votes ≤ result.agreeing)
    × (result.cast ≡ length votes)
    × (result.accepted
        ≡ (not (same_winner result.winner tied) && leb (3 * length votes) (4 * result.agreeing)))

-- The winner of a panel has the most votes: where `aggregateVotes` returns, its count is the number of
-- votes for the winner, no candidate has more, all votes are counted as cast, and the result is accepted
-- exactly if the winner is no tie and has at least three quarters of the votes.
pub aggregate_votes-winner :
    {D : Type 0} (doubles : Doubles D) (votes : List (JurorVote D)) (result : Aggregate D)
    → aggregate_votes doubles votes ≡ ok result
    → Counts votes result
unfolding aggregate_votes
aggregate_votes-winner doubles votes result returned =
    elim (Option-cases (most doubles none (tally doubles [] votes))) [
      | inl nothing ↦
          let failed : err _ ≡ ok result = rw (nothing, aggregate_votes) at returned in absurd cc
      | inr ((w, n), found) ↦
          let best =
            tally_cases doubles (tally doubles [] votes) (Distinct-tally doubles [] votes tt) w n
              found in
          let made : ok (record {
            winner = w;
            agreeing = n;
            cast = length votes;
            confidence = doubles.over (total doubles doubles.nought votes) (length votes);
            accepted = not (same_winner w tied) && leb (3 * length votes) (4 * n);
          })
              ≡ ok result =
            rw (found, aggregate_votes) at returned in
          subst (λ (r : Aggregate _). Counts votes r) (ap (result_or result) made)
            (
              sym best.0 ∙ counted_all doubles w votes,
              λ u. rw (← counted_all doubles u votes) (best.1 u),
              refl,
              refl,
            )
    ]
