-- ===== src/Labels/Preference/Spec.antt =====
-- lib/labels/preference.ts: what a valid specification is, and who sits on the panel.
use wtr.Common.{
  ℕ, String, Bool, true, false, not, List, [], ◌∷◌, Option, none, some, map, keep, includes, All,
  Failure, Result, ok, err, Bool-cases, inl, inr, ◌==◌, eq_iff, eq_refl, ◌≡◌, ◌≢◌, refl, sym, subst,
  ap, ◌∙◌, arith, if◌then◌else◌,
}
use mathlib.Core.Option.{some-injective}
use wtr.Labels.Preference.{
  Doubles, Verdict, Juror, JurorVote, JuryResult, Aggregate, PreferenceSpec, has_family,
}
use wtr.Labels.Preference.Jury.{
  with_votes, both_orderings, vote_of, judge_with_juror, run_jury, fulfilled,
}

All-weaken :
    {A : Type 0} {P Q : A → Type 0} → ((a : A) → P a → Q a) → (xs : List A) → All P xs → All Q xs
All-weaken f [] h = tt
All-weaken f (x ∷ xs) (h, hs) = (f x h, All-weaken f xs hs)

abbrev families : List Juror → List String
families panel = map (λ (juror : Juror). juror.family) panel

includes-skip :
    (s t : String) (ss : List String) → includes ss t ≡ true → includes (s ∷ ss) t ≡ true
includes-skip s t ss h = ground (arith, h)

-- The family of every juror that has to recuse itself is listed.
recused_listed :
    (source : Option String) (panel : List Juror)
    → All
        (λ (juror : Juror).
          has_family source juror ≡ true
          → includes (families (keep (has_family source) panel)) juror.family ≡ true)
        panel
recused_listed source [] = tt
recused_listed source (juror ∷ panel) = elim (Bool-cases (has_family source juror)) [
  | inl mine ↦ (
    λ _. rw mine (rw (eq_refl juror.family) refl),
    All-weaken (λ other h m. rw mine (includes-skip juror.family other.family _ (h m))) panel
        (recused_listed source panel),
  )
  | inr apart ↦
      (λ h. absurd cc, All-weaken (λ other h m. rw apart (h m)) panel (recused_listed source panel))
]

All-keep :
    {A : Type 0} (P : A → Type 0) (test : A → Bool) (xs : List A)
    → All P xs
    → All (λ x. P x × (test x ≡ true)) (keep test xs)
All-keep P test [] h = tt
All-keep P test (x ∷ xs) (h, hs) = elim (Bool-cases (test x)) [
  | inl kept ↦ rw kept ((h, kept), All-keep P test xs hs)
  | inr dropped ↦ rw dropped (All-keep P test xs hs)
]

not_both : (mine listed : Bool) → (mine ≡ true → listed ≡ true) → not listed ≡ true → mine ≡ false
not_both false listed h k = refl
not_both true listed h k = let e = h refl in cc

sitting : (source : Option String) (panel : List Juror) → List Juror
sitting source panel =
    keep
      (λ (juror : Juror). not (includes (families (keep (has_family source) panel)) juror.family))
      panel

-- Nobody who sits on the panel is of the family that wrote the candidates.
sitting_apart :
    (source : Option String) (panel : List Juror)
    → All (λ (juror : Juror). has_family source juror ≡ false) (sitting source panel)
unfolding sitting
sitting_apart source panel =
    All-weaken (λ juror (h, k). not_both _ _ h k) _
      (All-keep _ _ panel (recused_listed source panel))

module _ {D W : Type 0} (doubles : Doubles D)
    (call_juror : String → String → String → String → W → Result (Verdict D) × W)
    (sleep : ℕ → W → W) (worlds : Juror → W) where
  -- What the double judgement of a juror comes to, in its own world.
  abbrev pub judged : Juror → PreferenceSpec → Result (JurorVote D)
  judged juror spec = (judge_with_juror doubles call_juror sleep juror spec (worlds juror)).0

  abbrev family_or : String → Result (JurorVote D) → String
  family_or other (ok vote) = vote.family
  family_or other (err e) = other

  both_orderings-family :
      (juror : Juror) (f r : Result (Verdict D)) (vote : JurorVote D)
      → both_orderings doubles juror f r ≡ ok vote
      → vote.family ≡ juror.family
  unfolding vote_of
  both_orderings-family juror (ok f) (ok r) vote h = sym (ap (family_or juror.family) h)
  both_orderings-family juror (ok f) (err e) vote h = cc
  both_orderings-family juror (err e) r vote h = cc

  apart_vote :
      (source : Option String) (juror : Juror) (vote : JurorVote D)
      → has_family source juror ≡ false
      → vote.family ≡ juror.family
      → source ≢ some vote.family
  apart_vote none juror vote h e same = cc
  apart_vote (some family) juror vote h e same =
      let hit : (juror.family == family) ≡ true =
        (eq_iff juror.family family).1 (sym e ∙ sym (some-injective _ _ same)) in
      cc

  fulfilled_apart :
      (source : Option String) (spec : PreferenceSpec) (jurors : List Juror)
      → All (λ (juror : Juror). has_family source juror ≡ false) jurors
      → All
          (λ (vote : JurorVote D). source ≢ some vote.family)
          (fulfilled doubles (map (λ juror. judged juror spec) jurors))
  unfolding judge_with_juror
  fulfilled_apart source spec [] h = tt
  fulfilled_apart source spec (juror ∷ jurors) (h, hs) =
      add (judged juror spec) refl (fulfilled_apart source spec jurors hs)
    where
      add :
          (answer : Result (JurorVote D))
          → judged juror spec ≡ answer
          → All
              (λ (vote : JurorVote D). source ≢ some vote.family)
              (fulfilled doubles (map (λ juror. judged juror spec) jurors))
          → All
              (λ (vote : JurorVote D). source ≢ some vote.family)
              (fulfilled doubles (answer ∷ map (λ juror. judged juror spec) jurors))
      add (ok vote) e rest =
          (apart_vote source juror vote h (both_orderings-family juror _ _ vote e), rest)
      add (err failure) e rest = rest

  abbrev votes_or : List (JurorVote D) → Result (JuryResult D) → List (JurorVote D)
  votes_or other (ok result) = result.votes
  votes_or other (err e) = other

  with_votes-votes :
      (b : Bool) (e : Failure) (votes : List (JurorVote D)) (recused : List String)
      (aggregate : Result (Aggregate D)) (result : JuryResult D)
      → (if b then err e else with_votes doubles votes recused aggregate) ≡ ok result
      → votes ≡ result.votes
  with_votes-votes false e votes recused (ok aggregate) result h = ap (votes_or votes) h
  with_votes-votes false e votes recused (err failure) result h = cc
  with_votes-votes true e votes recused aggregate result h = cc

  -- No juror of the family that wrote the candidates votes: whatever the jurors answer, each vote of a
  -- panel's result is by a juror of another family.
  pub run_jury-recuses :
      (panel : List Juror) (spec : PreferenceSpec) (result : JuryResult D)
      → run_jury doubles judged panel spec ≡ ok result
      → All (λ (vote : JurorVote D). spec.source_family ≢ some vote.family) result.votes
  unfolding run_jury sitting
  run_jury-recuses panel spec result returned =
      subst (λ votes. All (λ (vote : JurorVote D). spec.source_family ≢ some vote.family) votes)
        (with_votes-votes _ _ _ _ _ result returned)
        (fulfilled_apart spec.source_family spec _ (sitting_apart spec.source_family panel))
