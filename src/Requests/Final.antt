-- ===== src/Requests/Final.antt =====
-- lib/requests/service.ts: the lemmas on rows and on the log behind Requests/Recorded.
use wtr.Common.{
  ℕ, suc, ◌≤◌, ◌≡◌, refl, sym, ap, ◌∙◌, subst, String, Bool, true, false, ◌&&◌, ◌||◌, List, [], ◌∷◌,
  push, keep, length, any, any-append, All, All-append, after_prefix, Option, IsIn, at_head,
  further, none, some, ◌==◌, template, decimal, if◌then◌else◌, if_yes, if_no, Bool-cases, inl, inr,
  arith, eq_refl,
}
use wtr.Pipeline.Types.{Moment, AssetEvent, EventType, same_type, submitted_to_request}
use wtr.Pipeline.Rows.{AppendEventInput}
use wtr.Pipeline.Store.{is_replay, has_key}
use wtr.Pipeline.PgLog.{insert_row, inserted_event, conflicts}
use mathlib.Core.Bool.{and-eq-true_iff}
use wtr.Pipeline.Log.Kinds.{clashes, clashes-after_prefix, after_prefix-append}
use wtr.Pipeline.Log.Numbering.{has_key-eq}
use wtr.Requests.{SubmissionRow}
use wtr.Requests.Steps.{update_rows, submits, submit_key}

-- Per request and asset there is at most one submission.
abbrev pub HasUniquePairs : List SubmissionRow → Type 0
HasUniquePairs rows =
    (request : ℕ) (asset : String) → length (keep (submits request asset) rows) ≤ 1

-- The log of a submission's asset has an event under the key that records it.
abbrev pub HasEvent : List AssetEvent → SubmissionRow → Type 0
HasEvent log s = any (is_replay s.asset_id (submit_key s.id)) log ≡ true

-- It is a `submitted_to_request`.
abbrev pub IsRecorded : List AssetEvent → SubmissionRow → Type 0
IsRecorded log s =
    any
      (λ e. is_replay s.asset_id (submit_key s.id) e && same_type e.event_type submitted_to_request)
      log
    ≡ true

-- A key that records a submission is that of a `submitted_to_request`.
abbrev pub FitsSubmit : Option String → EventType → Type 0
FitsSubmit key event_type =
    (id : ℕ) → key ≡ some (submit_key id) → event_type ≡ submitted_to_request

abbrev pub HasSubmitKinds : List AssetEvent → Type 0
HasSubmitKinds log = All (λ e. FitsSubmit e.idempotency_key e.event_type) log

after_submit : Option String → Option String
after_submit none = none
after_submit (some key) = after_prefix "submit:" key

-- Another beginning makes no submission's key.
pub other-FitsSubmit :
    (start : String) (id : ℕ) (event_type : EventType)
    → clashes "submit:" start ≡ true
    → FitsSubmit (some (template (start ∷ decimal id ∷ []))) event_type
unfolding after_submit
other-FitsSubmit start id event_type apart other same =
    let none_follows : after_prefix "submit:" (template (start ∷ decimal id ∷ [])) ≡ none =
      clashes-after_prefix "submit:" start (template (decimal id ∷ [])) apart in
    let some_follows : after_prefix "submit:" (submit_key other)
        ≡ some (template (decimal other ∷ [])) =
      after_prefix-append "submit:" (template (decimal other ∷ [])) in
    let both = sym none_follows ∙ ap after_submit same ∙ some_follows in absurd cc

-- The event under the key is the one that recorded the submission, and the other way round.
pub HasEvent-IsRecorded :
    (log : List AssetEvent) (s : SubmissionRow)
    → HasSubmitKinds log
    → HasEvent log s
    → IsRecorded log s
HasEvent-IsRecorded [] s kinds h = h
HasEvent-IsRecorded (e ∷ log) s (fits, kinds) h =
    elim (Bool-cases (is_replay s.asset_id (submit_key s.id) e)) [
      | inl hit ↦
          let key : e.idempotency_key ≡ some (submit_key s.id) =
            has_key-eq e.idempotency_key _ ((and-eq-true_iff _ _).0 hit).1 in
          let kind : same_type e.event_type submitted_to_request ≡ true =
            ap (λ t. same_type t submitted_to_request) (fits s.id key) ∙ refl in
          ground (arith, hit, kind)
      | inr miss ↦ ground (arith, miss, HasEvent-IsRecorded log s kinds (ground (arith, h, miss)))
    ]

pub IsRecorded-HasEvent :
    (log : List AssetEvent) (s : SubmissionRow) → IsRecorded log s → HasEvent log s
IsRecorded-HasEvent [] s h = h
IsRecorded-HasEvent (e ∷ log) s h = elim (Bool-cases (is_replay s.asset_id (submit_key s.id) e)) [
  | inl hit ↦ ground (arith, hit)
  | inr miss ↦ ground (arith, miss, IsRecorded-HasEvent log s (ground (arith, h, miss)))
]

-- The log of an input with a fitting key keeps its kinds.
pub insert_row-HasSubmitKinds :
    (id : ℕ) (now : Moment) (input : AppendEventInput) (log : List AssetEvent)
    → FitsSubmit input.idempotency_key input.event_type
    → HasSubmitKinds log
    → HasSubmitKinds (insert_row id now input log)
unfolding insert_row
insert_row-HasSubmitKinds id now input log fits h = step (conflicts input log)
  where
    step :
        (b : Bool) → HasSubmitKinds (if b then log else push log (inserted_event id now input log))
    step true = h
    step false = All-append _ log (inserted_event id now input log ∷ []) h (fits, tt)

module _ {A : Type 0} (test : A → Bool) (change : A → A) where
  pub update_rows-mem :
      (a : A) (rows : List A) → test a ≡ false → IsIn a rows → IsIn a (update_rows test change rows)
  update_rows-mem a [] e m = elim m [ ]
  update_rows-mem a (row ∷ rows) e (at_head same) = elim (Bool-cases (test row)) [
    | inl hit ↦ absurd (let miss : test row ≡ false = ap test (sym same) ∙ e in cc)
    | inr miss ↦ subst (IsIn a) (sym (if_no _ _ miss)) (at_head same)
  ]
  update_rows-mem a (row ∷ rows) e (further m) = front (test row) (update_rows-mem a rows e m)
    where
      front :
          (b : Bool)
          → IsIn a (update_rows test change rows)
          → IsIn a (
              if b
              then change row ∷ update_rows test change rows
              else row ∷ update_rows test change rows)
      front true h = further h
      front false h = further h

  pub update_rows-All :
      (P : A → Type 0) (rows : List A)
      → ((a : A) → P a → P (change a))
      → All P rows
      → All P (update_rows test change rows)
  update_rows-All P [] f h = tt
  update_rows-All P (row ∷ rows) f (h, hs) = front (test row) (update_rows-All P rows f hs)
    where
      front :
          (b : Bool)
          → All P (update_rows test change rows)
          → All P (
              if b
              then change row ∷ update_rows test change rows
              else row ∷ update_rows test change rows)
      front true g = (f row h, g)
      front false g = (h, g)

  pub update_rows-keep :
      (other : A → Bool) (rows : List A)
      → ((a : A) → other (change a) ≡ other a)
      → length (keep other (update_rows test change rows)) ≡ length (keep other rows)
  update_rows-keep other [] f = refl
  update_rows-keep other (row ∷ rows) f = front (test row) (update_rows-keep other rows f)
    where
      counted : Bool → ℕ → ℕ
      counted b n = if b then suc n else n

      keep_counted :
          (x : A) (xs : List A)
          → length (keep other (x ∷ xs)) ≡ counted (other x) (length (keep other xs))
      keep_counted x xs = ground arith

      front :
          (b : Bool)
          → length (keep other (update_rows test change rows)) ≡ length (keep other rows)
          → length (
              keep other (
                if b
                then change row ∷ update_rows test change rows
                else row ∷ update_rows test change rows))
            ≡ length (keep other (row ∷ rows))
      front true h =
          keep_counted (change row) (update_rows test change rows)
          ∙ ap (counted (other (change row))) h
          ∙ ap (λ b. counted b (length (keep other rows))) (f row)
          ∙ sym (keep_counted row rows)
      front false h =
          keep_counted row (update_rows test change rows)
          ∙ ap (counted (other row)) h
          ∙ sym (keep_counted row rows)

pub keep-mem :
    {A : Type 0} (test : A → Bool) (a : A) (rows : List A)
    → test a ≡ true
    → IsIn a rows
    → IsIn a (keep test rows)
keep-mem test a [] e m = elim m [ ]
keep-mem test a (row ∷ rows) e (at_head same) =
    subst (IsIn a) (sym (if_yes _ _ (ap test (sym same) ∙ e))) (at_head same)
keep-mem test a (row ∷ rows) e (further m) = front (test row) (keep-mem test a rows e m)
  where
    front :
        (b : Bool)
        → IsIn a (keep test rows)
        → IsIn a (if b then row ∷ keep test rows else keep test rows)
    front true h = further h
    front false h = h

pub keep-All :
    {A : Type 0} (P : A → Type 0) (test : A → Bool) (rows : List A)
    → All P rows
    → All P (keep test rows)
keep-All P test [] h = tt
keep-All P test (row ∷ rows) (h, hs) = front (test row) (keep-All P test rows hs)
  where
    front :
        (b : Bool)
        → All P (keep test rows)
        → All P (if b then row ∷ keep test rows else keep test rows)
    front true g = (h, g)
    front false g = g

pub keep_fewer :
    {A : Type 0} (other test : A → Bool) (rows : List A)
    → length (keep other (keep test rows)) ≤ length (keep other rows)
keep_fewer other test [] = omega arith
keep_fewer other test (row ∷ rows) = ground (arith, keep_fewer other test rows)

pub keep_none :
    {A : Type 0} (test : A → Bool) (rows : List A)
    → any test rows ≡ false
    → length (keep test rows) ≡ 0
keep_none test [] e = refl
keep_none test (row ∷ rows) e = ground (arith, keep_none test rows)

pub All_map :
    {A : Type 0} (P Q : A → Type 0) (rows : List A)
    → ((a : A) → P a → Q a)
    → All P rows
    → All Q rows
All_map P Q [] f h = tt
All_map P Q (row ∷ rows) f (h, hs) = (f row h, All_map P Q rows f hs)

-- The log grows, and the event of an input is in it afterwards.
pub insert_row-any :
    (id : ℕ) (now : Moment) (input : AppendEventInput) (log : List AssetEvent)
    (test : AssetEvent → Bool)
    → any test log ≡ true
    → any test (insert_row id now input log) ≡ true
unfolding insert_row
insert_row-any id now input log test h = step (conflicts input log)
  where
    step :
        (b : Bool) → any test (if b then log else push log (inserted_event id now input log)) ≡ true
    step true = h
    step false = any-append test log (inserted_event id now input log ∷ []) ∙ ground arith

pub insert_row-replay :
    (id : ℕ) (now : Moment) (input : AppendEventInput) (key : String) (log : List AssetEvent)
    → input.idempotency_key ≡ some key
    → any (is_replay input.asset_id key) (insert_row id now input log) ≡ true
unfolding insert_row
insert_row-replay id now input key log e = elim (Bool-cases (conflicts input log)) [
  | inl old ↦ ap (λ rows. any (is_replay input.asset_id key) rows) (if_yes _ _ old) ∙ sym same ∙ old
  | inr new ↦
      ap (λ rows. any (is_replay input.asset_id key) rows) (if_no _ _ new)
      ∙ any-append (is_replay input.asset_id key) log (inserted_event id now input log ∷ [])
      ∙ ap (λ b. any (is_replay input.asset_id key) log || (b || false)) found
      ∙ ground arith
]
  where
    same : conflicts input log ≡ any (is_replay input.asset_id key) log
    same =
        ap
          (λ o. elim o as (λ _. Bool) [
            | none ↦ false
            | some k ↦ any (is_replay input.asset_id k) log
          ])
          e

    found : is_replay input.asset_id key (inserted_event id now input log) ≡ true
    found =
        ap (λ o. (input.asset_id == input.asset_id) && has_key o key) e
        ∙ ap (λ b. (input.asset_id == input.asset_id) && b) (eq_refl key)
        ∙ ap (λ b. b && true) (eq_refl input.asset_id)
