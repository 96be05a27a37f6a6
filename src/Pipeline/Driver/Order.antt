-- ===== src/Pipeline/Driver/Order.antt =====
-- lib/pipeline/index.ts: the order of the events, and what a call that does not fail has recorded.
use wtr.Common.{String, List, [], ◌∷◌, Bool, true, false, any, All, Result, ok, err, ◌≡◌, subst}
use wtr.Pipeline.Types.{EventType, StageResult, is_failed}
use wtr.Pipeline.Ports.{StageDeps}
use wtr.Pipeline.Exec.{Run, Exec}
use wtr.Pipeline.Exec.Hoare.{Log, Ensures, Keeps, Outcome, bind_rule, if_rule, weaken_rule}
use wtr.Pipeline.Log.{has, has-append_to_log}
use wtr.Pipeline.Log.Spine.{IsSound}
use wtr.Pipeline.Stages.Reaching.{Finished, returns_rule}
use wtr.Pipeline.Stages.Reaching.Early.{ingest_rule, label_rule, list_rule}
use wtr.Pipeline.Stages.Reaching.Registering.{register_rule}
use wtr.Pipeline.Stages.Reaching.Settling.{settle_rule}
use wtr.Pipeline.Driver.{
  StageName, ingest_stage, label_stage, register_stage, list_stage, settle_stage, stage_order,
  stage_handler, run_stages, run_pipeline,
}
use wtr.Pipeline.Driver.History.{after, after_history, IsClosed, stage_handler-Keeps}

-- The event that a stage ends with.
abbrev pub goal : StageName → EventType
goal ingest_stage = EventType.ingested
goal label_stage = EventType.labeled
goal register_stage = EventType.cdr_vault_allocated
goal list_stage = EventType.listed
goal settle_stage = EventType.settled

abbrev pub any_failed : List StageResult → Bool
any_failed results = any (λ result. is_failed result.status) results

-- Each of the stages has recorded its event.
abbrev pub AllRecorded : String → List StageName → Log → Type 0
AllRecorded asset_id names log = All (λ name. has asset_id log (goal name) ≡ true) names

both_outcomes :
    {A : Type 0} (Q : A → Log → Type 0) (E J : Log → Type 0) (answer : Result A) (log : Log)
    → Outcome Q E answer log
    → Outcome {A = A} (λ _. J) J answer log
    → Outcome (λ a log. Q a log × J log) (λ log. E log × J log) answer log
both_outcomes Q E J (ok a) log q j = (q, j)
both_outcomes Q E J (err failure) log e j = (e, j)

-- An action that ensures one thing and keeps another.
and_keeps :
    {W A : Type 0} {P E J : Log → Type 0} {Q : A → Log → Type 0} (m : Exec W A)
    → Ensures P m Q E
    → Keeps J m
    → Ensures (λ log. P log × J log) m (λ a log. Q a log × J log) (λ log. E log × J log)
and_keeps m k j = record { at = λ r (p, h). both_outcomes _ _ _ (m r).0 _ (k.at r p) (j.at r h) }

has_closed :
    (asset_id : String) (t : EventType) (J : Log → Type 0)
    → IsClosed J
    → IsClosed (λ log. J log × (has asset_id log t ≡ true))
has_closed asset_id t J closed input key with_key kind log (j, h) =
    (closed input key with_key kind log j, has-append_to_log asset_id t input log h)

module _ {W : Type 0} (deps : StageDeps W) where
  pub stage_handler_rule :
      (name : StageName) (asset_id : String)
      → Ensures IsSound (stage_handler deps name asset_id) (Finished asset_id (goal name)) IsSound
  unfolding stage_handler
  stage_handler_rule ingest_stage asset_id = ingest_rule deps asset_id
  stage_handler_rule label_stage asset_id = label_rule deps asset_id
  stage_handler_rule register_stage asset_id = register_rule deps asset_id
  stage_handler_rule list_stage asset_id = list_rule deps asset_id
  stage_handler_rule settle_stage asset_id = settle_rule deps asset_id

  run_stages_rule :
      (names : List StageName) (asset_id : String) (J : Log → Type 0)
      → IsClosed J
      → Ensures
          (λ log. IsSound log × J log)
          (run_stages deps names asset_id)
          (λ results log.
            (IsSound log × J log) × (any_failed results ≡ false → AllRecorded asset_id names log))
          (λ log. IsSound log × J log)
  unfolding run_stages
  run_stages_rule [] asset_id J closed = returns_rule [] (λ log h. (h, λ _. tt))
  run_stages_rule (name ∷ names) asset_id J closed =
      bind_rule _ _
        (and_keeps _ (stage_handler_rule name asset_id)
          (stage_handler-Keeps deps closed name asset_id))
        (λ result.
          if_rule (is_failed result.status) _ _
            (λ bad. returns_rule _ (λ log (f, j). ((f.sound, j), λ good. cc)))
            (λ good.
              weaken_rule
                (bind_rule _ _
                  (run_stages_rule names asset_id
                    (λ log. J log × (has asset_id log (goal name) ≡ true))
                    (has_closed asset_id (goal name) J closed))
                  (λ results. returns_rule (result ∷ results) (λ log ((sound, (j, there)), rest).
                    ((sound, j), λ none_failed. (there, rest (rw good at none_failed))))))
                (λ log (f, j). (f.sound, (j, f.there good))) (λ answer log h. h)
                (λ log (sound, (j, there)). (sound, j))))

sound_after :
    (a : String) (t : EventType) (answer : Result StageResult) (log : Log)
    → Outcome (Finished a t) IsSound answer log
    → IsSound log
sound_after a t (ok result) log f = f.sound
sound_after a t (err failure) log s = s

-- After any sequence of handler calls from a sound log, however the ports answer, fail or throw, the
-- log is sound: every event has its key's kind, and stands behind the event of its asset that its stage
-- needs, from `asset.labeled` after `asset.ingested` to `asset.settled` after `asset.payout_credited`.
pub after_history-IsSound :
    {W : Type 0} (deps : StageDeps W) (calls : List (StageName × String)) (r : Run W)
    → IsSound r.store.events
    → IsSound (after_history deps calls r).store.events
unfolding after_history
after_history-IsSound deps [] r h = h
after_history-IsSound deps ((name, asset_id) ∷ calls) r h = after_history-IsSound deps calls _ (
    sound_after asset_id (goal name) (stage_handler deps name asset_id r).0 _
      ((stage_handler_rule deps name asset_id).at r h))

-- From a sound log, a handler call that returns a result that is no failure has left in the log the
-- event of its stage, whether the call recorded it or found it there.
pub stage_handler-Finished :
    {W : Type 0} (deps : StageDeps W) (name : StageName) (asset_id : String) (r : Run W)
    (result : StageResult)
    → IsSound r.store.events
    → (stage_handler deps name asset_id r).0 ≡ ok result
    → is_failed result.status ≡ false
    → has asset_id (after (stage_handler deps name asset_id) r).store.events (goal name) ≡ true
stage_handler-Finished deps name asset_id r result h returned good =
    (subst
        (λ answer.
          Outcome (Finished asset_id (goal name)) IsSound answer
            (after (stage_handler deps name asset_id) r).store.events)
        returned ((stage_handler_rule deps name asset_id).at r h)).there
      good

-- From a sound log, a `runPipeline` that returns without a failed result has taken the asset all the
-- way: the events of the five stages are in the log.
pub run_pipeline-AllRecorded :
    {W : Type 0} (deps : StageDeps W) (asset_id : String) (r : Run W) (results : List StageResult)
    → IsSound r.store.events
    → (run_pipeline deps asset_id r).0 ≡ ok results
    → any_failed results ≡ false
    → AllRecorded asset_id stage_order (after (run_pipeline deps asset_id) r).store.events
unfolding run_pipeline
run_pipeline-AllRecorded deps asset_id r results h returned good =
    (subst
        (λ answer.
          Outcome
            (λ results log.
              (IsSound log × Unit {0})
              × (any_failed results ≡ false → AllRecorded asset_id stage_order log))
            (λ log. IsSound log × Unit {0}) answer
            (after (run_stages deps stage_order asset_id) r).store.events)
        returned
        ((run_stages_rule deps stage_order asset_id (λ _. Unit {0}) (λ _ _ _ _ _ j. j)).at r
          (h, tt))).1
      good
