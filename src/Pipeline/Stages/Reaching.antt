-- ===== src/Pipeline/Stages/Reaching.antt =====
-- How far each stage handler takes the log of its asset: what a result that is no failure says.
pub mod Early
pub mod Registering
pub mod Settling
use wtr.Common.{
  ℕ, String, List, [], ◌∷◌, Option, none, some, Bool, true, false, not, Failure, includes, template,
  keep, if◌then◌else◌, ◌≡◌, refl, arith,
}
use wtr.Common.Value.{Fields}
use wtr.Pipeline.Types.{EventType, AssetRow, AssetEvent, StageResult, StageStatus, is_failed}
use wtr.Pipeline.Rows.{
  AppendEventInput, LabelInput, ListingRow, LicensePresetRow, SaleRow, has_event,
}
use wtr.Pipeline.Store.{append_to_log, is_of, list_events}
use wtr.Pipeline.Ports.{StageDeps}
use wtr.Pipeline.Exec.{Exec, ◌>>=◌, pure, attempt, reads}
use wtr.Pipeline.Exec.Hoare.{
  Log, Ensures, Keeps, bind_rule, then_rule, try_rule, if_rule, quiet_rules, same, weaken_rule,
}
use wtr.Pipeline.Log.{has}
use wtr.Pipeline.Log.Kinds.{kind_of, kind_of-template, kind_of_start, stage_keys}
use wtr.Pipeline.Log.Spine.{
  before, IsSound, Reached, AreDone, append_to_log-IsSound, append_to_log-Reached,
  append_to_log-Reached_first, append_to_log-Reached_aside,
}
use wtr.Pipeline.Actions.{keyed_event, appends, log_of}
use wtr.Pipeline.Stages.Rules.{appends_rule, store_rules}

-- The log is sound, and unless the result is a failure it has the event of the stage.
pub record Finished (a : String) (t : EventType) (result : StageResult) (log : Log) : Type 0 where
  pub sound : IsSound log
  pub there : is_failed result.status ≡ false → has a log t ≡ true

pub record KnownLog (P : Log → Type 0) (a : String) (events : List AssetEvent) (log : Log)
    : Type 0 where
  pub holds : P log
  pub known : events ≡ keep (is_of a) log

module _ {W : Type 0} where
  pub returns_rule :
      {A : Type 0} {P E : Log → Type 0} {Q : A → Log → Type 0} (a : A)
      → ((log : Log) → P log → Q a log)
      → Ensures P (pure {W = W} a) Q E
  unfolding pure
  returns_rule a h = record { at = λ r p. h _ p }

  pub log_rule :
      {P E : Log → Type 0} (asset_id : String)
      → Ensures P (log_of {W = W} asset_id) (KnownLog P asset_id) E
  unfolding log_of reads
  log_rule asset_id = record { at = λ r p. record { holds = p; known = refl } }

  -- An append of an event that nothing must precede.
  pub free_rule :
      (asset_id : String) (event_type : EventType) (start : String) (parts : List String)
      (payload : Fields)
      → kind_of_start stage_keys start ≡ some event_type
      → before event_type ≡ none
      → Keeps {W = W} IsSound
          (appends (keyed_event asset_id event_type (template (start ∷ parts)) payload))
  free_rule asset_id event_type start parts payload k free =
      appends_rule (keyed_event asset_id event_type (template (start ∷ parts)) payload) (λ log.
        append_to_log-IsSound _ (template (start ∷ parts)) log refl
          (kind_of-template start (template parts) event_type k) (λ u e. cc))

  pub first_rule :
      (asset_id : String) (event_type : EventType) (start : String) (parts : List String)
      (payload : Fields)
      → kind_of_start stage_keys start ≡ some event_type
      → before event_type ≡ none
      → Ensures {W = W} IsSound
          (appends (keyed_event asset_id event_type (template (start ∷ parts)) payload))
          (λ _. Reached asset_id [] [] event_type)
          IsSound
  first_rule asset_id event_type start parts payload k free =
      appends_rule (keyed_event asset_id event_type (template (start ∷ parts)) payload) (λ log.
        append_to_log-Reached_first _ (template (start ∷ parts)) log refl
          (kind_of-template start (template parts) event_type k) free)

  pub aside_rule :
      (already : List String) (table : List (String × EventType)) (t : EventType)
      (asset_id : String) (event_type : EventType) (start : String) (parts : List String)
      (payload : Fields)
      → kind_of_start stage_keys start ≡ some event_type
      → before event_type ≡ none
      → Ensures {W = W}
          (Reached asset_id already table t)
          (appends (keyed_event asset_id event_type (template (start ∷ parts)) payload))
          (λ _. Reached asset_id already table t)
          IsSound
  aside_rule already table t asset_id event_type start parts payload k free =
      appends_rule (keyed_event asset_id event_type (template (start ∷ parts)) payload) (λ log.
        append_to_log-Reached_aside asset_id already table t _ (template (start ∷ parts)) log refl
          (kind_of-template start (template parts) event_type k) free)

  -- The append of a stage's event.
  pub stage_rule :
      (already : List String) (table : List (String × EventType)) (t : EventType)
      (asset_id : String) (event_type : EventType) (start : String) (parts : List String)
      (payload : Fields)
      → kind_of_start stage_keys start ≡ some event_type
      → before event_type ≡ some t
      → Ensures {W = W}
          (Reached asset_id already table t)
          (appends (keyed_event asset_id event_type (template (start ∷ parts)) payload))
          (λ _. Reached asset_id already table event_type)
          IsSound
  stage_rule already table t asset_id event_type start parts payload k pre =
      appends_rule (keyed_event asset_id event_type (template (start ∷ parts)) payload) (λ log.
        append_to_log-Reached already table t _ (template (start ∷ parts)) log refl
          (kind_of-template start (template parts) event_type k) pre)

-- A handler of a failure may start from any sound log.
pub sound_of :
    (a : String) (already : List String) (table : List (String × EventType)) (t : EventType)
    (log : Log)
    → Reached a already table t log
    → IsSound log
sound_of a already table t log r = r.sound

pub complete_of :
    (a : String) (already : List String) (table : List (String × EventType)) (t : EventType)
    (result : StageResult) (log : Log)
    → Reached a already table t log
    → Finished a t result log
complete_of a already table t result log r = record { sound = r.sound; there = λ _. r.there }

pub fails_of :
    (a : String) (t : EventType) (result : StageResult)
    → is_failed result.status ≡ true
    → (log : Log) → IsSound log
    → Finished a t result log
fails_of a t result bad log s = record { sound = s; there = λ good. cc }

-- What the log showed when the handler read it.
pub starts_at :
    (a : String) (t : EventType) (events : List AssetEvent)
    → has_event events t ≡ true
    → (log : Log) → KnownLog IsSound a events log
    → Reached a [] [] t log
starts_at a t events h log k = record { sound = k.holds; there = rw (← k.known) h; done = tt }

pub complete_before :
    (a : String) (t : EventType) (events : List AssetEvent) (result : StageResult)
    → has_event events t ≡ true
    → (log : Log) → KnownLog IsSound a events log
    → Finished a t result log
complete_before a t events result h log k = record {
  sound = k.holds;
  there = λ _. rw (← k.known) h;
}

pub fails_early :
    (a : String) (t : EventType) (events : List AssetEvent) (result : StageResult)
    → is_failed result.status ≡ true
    → (log : Log) → KnownLog IsSound a events log
    → Finished a t result log
fails_early a t events result bad log k = fails_of a t result bad log k.holds
