-- ===== src/Labels/Preference/Tally.antt =====
-- lib/labels/preference.ts: what `aggregateVotes` counts.
use wtr.Common.{
  ℕ, ◌+◌, ◌≤◌, Bool, true, false, ◌||◌, List, [], ◌∷◌, none, some, keep, any, length, ltb,
  Bool-cases, ◌⊎◌, inl, inr, ◌≡◌, refl, sym, subst, ltb→lt, ap, ◌∙◌, arith, if◌then◌else◌,
}
use mathlib.Core.Option.{some-injective}
use wtr.Labels.Preference.{Winner, a_wins, b_wins, tied, same_winner, Doubles, JurorVote}
use wtr.Labels.Preference.Jury.{count_one, tally, most}

same_winner_refl : (w : Winner) → same_winner w w ≡ true
same_winner_refl a_wins = refl
same_winner_refl b_wins = refl
same_winner_refl tied = refl

same_winner_eq : (v w : Winner) → same_winner v w ≡ true → v ≡ w
same_winner_eq a_wins a_wins h = refl
same_winner_eq b_wins b_wins h = refl
same_winner_eq tied tied h = refl
same_winner_eq a_wins b_wins h = cc
same_winner_eq a_wins tied h = cc
same_winner_eq b_wins a_wins h = cc
same_winner_eq b_wins tied h = cc
same_winner_eq tied a_wins h = cc
same_winner_eq tied b_wins h = cc

-- How many of the votes are for a candidate.
abbrev pub votes_for : {D : Type 0} → Winner → List (JurorVote D) → ℕ
votes_for w votes = length (keep (λ vote. same_winner vote.winner w) votes)

-- What a tally says of a candidate.
abbrev pub counted : Winner → List (Winner × ℕ) → ℕ
counted w [] = 0
counted w ((v, n) ∷ counts) = if same_winner v w then n else counted w counts

abbrev one_if : Bool → ℕ
one_if b = if b then 1 else 0

module _ {D : Type 0} (doubles : Doubles D) where
  counted-count_one :
      (w v : Winner) (counts : List (Winner × ℕ))
      → counted w (count_one doubles v counts) ≡ counted w counts + one_if (same_winner v w)
  counted-count_one w v [] = ground arith
  counted-count_one w v ((u, n) ∷ counts) = elim (Bool-cases (same_winner u v)) [
    | inl same ↦ let e = same_winner_eq u v same in rw (same, ← e) (ground arith)
    | inr other ↦ rw other (ground (arith, counted-count_one w v counts))
  ]

  counted-tally :
      (w : Winner) (counts : List (Winner × ℕ)) (votes : List (JurorVote D))
      → counted w (tally doubles counts votes) ≡ counted w counts + votes_for w votes
  counted-tally w counts [] = omega arith
  counted-tally w counts (vote ∷ votes) =
      let step = counted-count_one w vote.winner counts in
      rw (counted-tally w (count_one doubles vote.winner counts) votes, step) (ground arith)

  pub counted_all :
      (w : Winner) (votes : List (JurorVote D))
      → counted w (tally doubles [] votes) ≡ votes_for w votes
  counted_all w votes = let h = counted-tally w [] votes in omega arith

  abbrev present : Winner → List (Winner × ℕ) → Bool
  present w counts = any (λ entry. same_winner entry.0 w) counts

  present-count_one :
      (u w : Winner) (counts : List (Winner × ℕ))
      → present u (count_one doubles w counts) ≡ (present u counts || same_winner w u)
  present-count_one u w [] = ground arith
  present-count_one u w ((v, n) ∷ counts) = elim (Bool-cases (same_winner v w)) [
    | inl same ↦ rw (same, ← same_winner_eq v w same) (ground arith)
    | inr other ↦ rw (other, present-count_one u w counts) (ground arith)
  ]

  abbrev Distinct : List (Winner × ℕ) → Type 0
  Distinct [] = Unit {0}
  Distinct ((v, n) ∷ counts) = (present v counts ≡ false) × Distinct counts

  Distinct-count_one :
      (w : Winner) (counts : List (Winner × ℕ))
      → Distinct counts
      → Distinct (count_one doubles w counts)
  Distinct-count_one w [] h = (refl, tt)
  Distinct-count_one w ((v, n) ∷ counts) (new, h) = elim (Bool-cases (same_winner v w)) [
    | inl same ↦ rw same (new, h)
    | inr other ↦
        rw other
          (rw (present-count_one v w counts, new) (apart v w other), Distinct-count_one w counts h)
  ]
    where
      apart : (v w : Winner) → same_winner v w ≡ false → same_winner w v ≡ false
      apart v w h = elim (Bool-cases (same_winner w v)) [
        | inl same ↦
            let back : same_winner v w ≡ true =
              subst (λ x. same_winner x w ≡ true) (same_winner_eq w v same) (same_winner_refl w) in
            absurd cc
        | inr other ↦ other
      ]

  pub Distinct-tally :
      (counts : List (Winner × ℕ)) (votes : List (JurorVote D))
      → Distinct counts
      → Distinct (tally doubles counts votes)
  Distinct-tally counts [] h = h
  Distinct-tally counts (vote ∷ votes) h =
      Distinct-tally (count_one doubles vote.winner counts) votes
        (Distinct-count_one vote.winner counts h)

  -- What the loop over the counts ends with.
  record Best (best : Winner × ℕ) (counts : List (Winner × ℕ)) : Type 0 where
    result : Winner × ℕ
    found : most doubles (some best) counts ≡ some result
    over : best.1 ≤ result.1
    all : (w : Winner) → counted w counts ≤ result.1
    from :
        ((result.0 ≡ best.0) × (result.1 ≡ best.1))
        ⊎ ((counted result.0 counts ≡ result.1) × (present result.0 counts ≡ true))

  -- An entry behind the first one is read past it.
  here_after :
      (v : Winner) (n : ℕ) (u : Winner) (k : ℕ) (counts : List (Winner × ℕ))
      → present v counts ≡ false
      → counted u counts ≡ k
      → present u counts ≡ true
      → (counted u ((v, n) ∷ counts) ≡ k) × (present u ((v, n) ∷ counts) ≡ true)
  here_after v n u k counts new e p = elim (Bool-cases (same_winner v u)) [
    | inl same ↦
        let clash : present v counts ≡ true =
          subst (λ x. present x counts ≡ true) (sym (same_winner_eq v u same)) p in
        absurd cc
    | inr other ↦ (rw other e, rw (other, p) refl)
  ]

  most-Best : (best : Winner × ℕ) (counts : List (Winner × ℕ)) → Distinct counts → Best best counts
  most-Best best [] h = record {
    result = best;
    found = refl;
    over = omega arith;
    all = λ w. omega arith;
    from = inl (refl, refl);
  }
  most-Best (w, m) ((v, n) ∷ counts) (new, h) = elim (Bool-cases (ltb m n)) [
    | inl more ↦
        let ih = most-Best (v, n) counts h in
        let lt = ltb→lt m n more in
        let le = ih.over in
        record {
          result = ih.result;
          found = rw more ih.found;
          over = omega arith;
          all = λ u. elim (Bool-cases (same_winner v u)) [
            | inl same ↦ rw same le
            | inr other ↦ rw other (ih.all u)
          ];
          from = elim ih.from [
            | inl (e, k) ↦ inr (rw (e, same_winner_refl v) (sym k), rw (e, same_winner_refl v) refl)
            | inr (k, p) ↦ inr (here_after v n ih.result.0 ih.result.1 counts new k p)
          ];
        }
    | inr less ↦
        let ih = most-Best (w, m) counts h in
        let le = ih.over in
        record {
          result = ih.result;
          found = rw less ih.found;
          over = le;
          all = λ u. elim (Bool-cases (same_winner v u)) [
            | inl same ↦ rw same (not_more m n ih.result.1 less le)
            | inr other ↦ rw other (ih.all u)
          ];
          from = elim ih.from [
            | inl (e, k) ↦ inl (e, k)
            | inr (k, p) ↦ inr (here_after v n ih.result.0 ih.result.1 counts new k p)
          ];
        }
  ]
    where
      not_more : (m n k : ℕ) → ltb m n ≡ false → m ≤ k → n ≤ k
      not_more m n k less le = ground arith

  -- The whole tally, read as the loop reads it.
  pub tally_cases :
      (counts : List (Winner × ℕ))
      → Distinct counts
      → (w : Winner) (n : ℕ) → most doubles none counts ≡ some (w, n)
      → (counted w counts ≡ n) × ((u : Winner) → counted u counts ≤ n)
  tally_cases [] h w n e = cc
  tally_cases ((v, m) ∷ counts) (new, h) w n e =
      let best = most-Best (v, m) counts h in
      let same : best.result ≡ (w, n) = some-injective _ _ (sym best.found ∙ e) in
      let winner : best.result.0 ≡ w = ap (λ p. p.0) same in
      let count : best.result.1 ≡ n = ap (λ p. p.1) same in
      let le = best.over in
      (
        elim best.from [
          | inl (a, b) ↦ rw (← winner, a, same_winner_refl v) (sym b ∙ count)
          | inr (k, p) ↦
              subst (λ x. counted x ((v, m) ∷ counts) ≡ n) winner
                ((here_after v m best.result.0 best.result.1 counts new k p).0 ∙ count)
        ],
        λ u. elim (Bool-cases (same_winner v u)) [
          | inl same ↦ rw (same, ← count) le
          | inr other ↦ rw (other, ← count) (best.all u)
        ],
      )
