-- ===== src/Pipeline/PgLog.antt =====
-- lib/pipeline/pg-store.ts: `appendEvent`, the statement that writes the log in the database.
use Prim.Native.Nat.{max}
use wtr.Common.{
  ℕ, ◌+◌, ◌≡◌, refl, Bool, false, not, List, [], ◌∷◌, push, map, keep, any, none, some, is_none,
  if◌then◌else◌, ◌&&◌, nat_eq, Result, ok, err, error, Gives, ok-Gives, err-Gives, if_Gives,
}
use wtr.Pipeline.Types.{Moment, AssetEvent}
use wtr.Pipeline.Rows.{AppendEventInput}
use wtr.Pipeline.Store.{new_event, replayed, is_replay, is_of}

abbrev max_of : List ℕ → ℕ
max_of [] = 0
max_of (n ∷ ns) = max n (max_of ns)

-- `COALESCE(MAX(seq), 0)` of some rows
abbrev pub max_seq : List AssetEvent → ℕ
max_seq es = max_of (map (λ e. e.seq) es)

-- The row that the statement inserts at a time, with the next value of the sequence of ids, which may skip
-- some.
abbrev pub inserted_event : ℕ → Moment → AppendEventInput → List AssetEvent → AssetEvent
inserted_event id now input log = record {
  id = id;
  asset_id = input.asset_id;
  seq = max_seq (keep (is_of input.asset_id) log) + 1;
  event_type = input.event_type;
  payload = input.payload;
  idempotency_key = input.idempotency_key;
  promoted_to_trace = input.promoted_to_trace;
  trace_seq = input.trace_seq;
  created_at = now;
}

-- A row of the asset has the key; no key conflicts with none.
abbrev pub conflicts : AppendEventInput → List AssetEvent → Bool
conflicts input log = elim input.idempotency_key [
  | none ↦ false
  | some key ↦ any (is_replay input.asset_id key) log
]

-- `asset_event_trace_seq_requires_promotion`
abbrev pub meets_check : AppendEventInput → Bool
meets_check input =
    if input.promoted_to_trace then not (is_none input.trace_seq) else is_none input.trace_seq

abbrev has_trace_seq : ℕ → AssetEvent → Bool
has_trace_seq n e = elim e.trace_seq [ none ↦ false | some m ↦ nat_eq m n ]

-- `asset_event_trace_seq_unique`: a row of the asset has the number; no number conflicts with none.
abbrev pub trace_seq_taken : AppendEventInput → List AssetEvent → Bool
trace_seq_taken input log = elim input.trace_seq [
  | none ↦ false
  | some n ↦ any (λ e. is_of input.asset_id e && has_trace_seq n e) log
]

-- What the statement leaves where the constraints let it.
unfoldable pub insert_row : ℕ → Moment → AppendEventInput → List AssetEvent → List AssetEvent
insert_row id now input log =
    if conflicts input log then log else push log (inserted_event id now input log)

-- `appendEvent` for an asset that exists: `ON CONFLICT (asset_id, idempotency_key) DO NOTHING`, which passes
-- over neither the check nor the other unique constraints. `seq` is free, being above all others.
unfoldable pub insert_event :
    ℕ → Moment → AppendEventInput → List AssetEvent → Result (List AssetEvent)
insert_event id now input log =
    if meets_check input
    then (if not (conflicts input log) && trace_seq_taken input log
        then err (
            error "duplicate key value violates unique constraint \"asset_event_trace_seq_unique\"")
        else ok (insert_row id now input log))
    else err (
        error
          "new row for relation \"asset_event\" violates check constraint \"asset_event_trace_seq_requires_promotion\"")

-- `appendEvent` of the in-memory store, with the id and the moment of a new event.
abbrev pub append_at : ℕ → Moment → AppendEventInput → List AssetEvent → List AssetEvent
append_at id now input log =
    if is_none (replayed input log)
    then push log (record (new_event input log) { id = id; created_at = now })
    else log

-- Where the statement does not throw, it leaves that.
pub insert_event-Gives :
    (id : ℕ) (now : Moment) (input : AppendEventInput) (log : List AssetEvent)
    → Gives (λ next. next ≡ insert_row id now input log) (insert_event id now input log)
unfolding insert_event
insert_event-Gives id now input log =
    if_Gives _ (meets_check input) _ _
      (λ _.
        if_Gives _ (not (conflicts input log) && trace_seq_taken input log) _ _ (λ _. err-Gives _ _)
          (λ _. ok-Gives _ _ refl))
      (λ _. err-Gives _ _)
