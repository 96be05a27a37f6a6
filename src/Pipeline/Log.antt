-- ===== src/Pipeline/Log.antt =====
-- The event log of lib/pipeline/testing/memory-store.ts: what `appendEvent` keeps.
pub mod Kinds
pub mod Numbering
pub mod Spine
use wtr.Common.{
  String, Bool, true, false, ◌||◌, List, ◌++◌, push, keep, find, any, is_none, if◌then◌else◌,
  IsPrefix, IsPrefix-refl, IsPrefix-push, any-IsPrefix, any-append, keep-append, Bool-cases,
  followed_by, inl, inr, ◌≡◌, refl, arith, append-nil, [], ◌∷◌,
}
use wtr.Pipeline.Types.{AssetEvent, EventType, same_type}
use wtr.Pipeline.Rows.{AppendEventInput, has_event}
use wtr.Pipeline.Store.{append_to_log, new_event, replayed, is_of}
use wtr.Pipeline.Exec.Hoare.{Log}

pub append_to_log_cases {ℓ} :
    (P : Log → Type ℓ) (input : AppendEventInput) (log : Log)
    → P log
    → (is_none (replayed input log) ≡ true → P (push log (new_event input log)))
    → P (append_to_log input log)
unfolding append_to_log
append_to_log_cases P input log old new = elim (Bool-cases (is_none (replayed input log))) [
  | inl fresh ↦ rw (fresh, append_to_log) (new fresh)
  | inr replay ↦ rw (replay, append_to_log) old
]

-- `appendEvent` only ever adds to the end of the log.
pub append_to_log-IsPrefix :
    (input : AppendEventInput) (log : Log) → IsPrefix log (append_to_log input log)
append_to_log-IsPrefix input log =
    append_to_log_cases (IsPrefix log) input log (IsPrefix-refl log) (λ _. IsPrefix-push log _)

pub keep-push :
    (test : AssetEvent → Bool) (log : Log) (e : AssetEvent)
    → keep test (push log e) ≡ (if test e then push (keep test log) e else keep test log)
keep-push test log e = rw keep-append (ground (arith, append-nil (keep test log)))

-- Whether the log of an asset has an event of a type.
abbrev pub has : String → Log → EventType → Bool
has asset_id log event_type = has_event (keep (is_of asset_id) log) event_type

pub has-IsPrefix :
    (asset_id : String) (event_type : EventType) {old new : Log}
    → IsPrefix old new
    → has asset_id old event_type ≡ true
    → has asset_id new event_type ≡ true
has-IsPrefix asset_id event_type {old} (followed_by more e) h =
    rw (e, keep-append (is_of asset_id) old more, any-append, h) refl

pub has-append_to_log :
    (asset_id : String) (event_type : EventType) (input : AppendEventInput) (log : Log)
    → has asset_id log event_type ≡ true
    → has asset_id (append_to_log input log) event_type ≡ true
has-append_to_log asset_id event_type input log h =
    has-IsPrefix asset_id event_type (append_to_log-IsPrefix input log) h
