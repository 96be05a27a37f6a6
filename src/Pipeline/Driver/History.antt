-- ===== src/Pipeline/Driver/History.antt =====
-- What holds of the event log after any sequence of handler calls, retries and calls that throw
-- included, for any behaviour of the ports.
use wtr.Common.{
  String, List, [], ◌∷◌, some, Result, ok, err, IsPrefix, IsPrefix-refl, IsPrefix-trans, ◌≡◌,
}
use wtr.Pipeline.Types.{is_failed}
use wtr.Pipeline.Rows.{AppendEventInput}
use wtr.Pipeline.Store.{append_to_log}
use wtr.Pipeline.Ports.{StageDeps}
use wtr.Pipeline.Exec.{Run, Exec}
use wtr.Pipeline.Exec.Hoare.{Log, Keeps, Outcome, then_rule, if_rule, quiet_rules}
use wtr.Pipeline.Log.{append_to_log-IsPrefix}
use wtr.Pipeline.Log.Numbering.{
  IsNumbered, append_to_log-IsNumbered, HasUniqueKeys, append_to_log-HasUniqueKeys,
}
use wtr.Pipeline.Stages.Keeps.{
  IsStageKey, ingest-Keeps, label-Keeps, register-Keeps, list-Keeps, settle-Keeps,
}
use wtr.Pipeline.Driver.{
  StageName, ingest_stage, label_stage, register_stage, list_stage, settle_stage, stage_handler,
  run_stages, run_pipeline,
}

-- The state after a call, whether it returned or threw.
abbrev pub after : {W A : Type 0} → Exec W A → Run W → Run W
after m r = (m r).1

unfoldable pub after_history :
    {W : Type 0} → StageDeps W → List (StageName × String) → Run W → Run W
after_history deps [] r = r
after_history deps ((name, asset_id) ∷ calls) r =
    after_history deps calls (after (stage_handler deps name asset_id) r)

-- What an append under a stage's key keeps.
abbrev pub IsClosed : (Log → Type 0) → Type 0
IsClosed J =
    (input : AppendEventInput) (key : String)
    → input.idempotency_key ≡ some key
    → IsStageKey key input.event_type
    → (log : Log) → J log
    → J (append_to_log input log)

module _ {W : Type 0} (deps : StageDeps W) {J : Log → Type 0} (closed : IsClosed J) where
  pub stage_handler-Keeps :
      (name : StageName) (asset_id : String) → Keeps J (stage_handler deps name asset_id)
  unfolding stage_handler
  stage_handler-Keeps ingest_stage asset_id = ingest-Keeps deps closed asset_id
  stage_handler-Keeps label_stage asset_id = label-Keeps deps closed asset_id
  stage_handler-Keeps register_stage asset_id = register-Keeps deps closed asset_id
  stage_handler-Keeps list_stage asset_id = list-Keeps deps closed asset_id
  stage_handler-Keeps settle_stage asset_id = settle-Keeps deps closed asset_id

  run_stages-Keeps :
      (names : List StageName) (asset_id : String) → Keeps J (run_stages deps names asset_id)
  unfolding run_stages
  run_stages-Keeps [] asset_id = search quiet_rules
  run_stages-Keeps (name ∷ names) asset_id =
      then_rule _ _ (stage_handler-Keeps name asset_id) (λ result.
        if_rule (is_failed result.status) _ _ (λ _. search quiet_rules)
          (λ _. then_rule _ _ (run_stages-Keeps names asset_id) (λ results. search quiet_rules)))

  pub run_pipeline-Keeps : (asset_id : String) → Keeps J (run_pipeline deps asset_id)
  unfolding run_pipeline
  run_pipeline-Keeps asset_id = run_stages-Keeps _ asset_id

either_outcome :
    {A : Type 0} (J : Log → Type 0) (answer : Result A) (log : Log)
    → Outcome {A = A} (λ _. J) J answer log
    → J log
either_outcome J (ok a) log h = h
either_outcome J (err failure) log h = h

-- Both outcomes of a call that keeps `J` satisfy it.
pub after-Keeps :
    {W A : Type 0} {J : Log → Type 0} (m : Exec W A)
    → Keeps J m
    → (r : Run W) → J r.store.events
    → J (after m r).store.events
after-Keeps {J} m k r h = either_outcome J (m r).0 _ (k.at r h)

after_history-Keeps :
    {W : Type 0} (deps : StageDeps W) {J : Log → Type 0}
    → IsClosed J
    → (calls : List (StageName × String)) (r : Run W) → J r.store.events
    → J (after_history deps calls r).store.events
unfolding after_history
after_history-Keeps deps closed [] r h = h
after_history-Keeps deps closed ((name, asset_id) ∷ calls) r h =
    after_history-Keeps deps closed calls _ (
      after-Keeps (stage_handler deps name asset_id) (stage_handler-Keeps deps closed name asset_id)
        r h)

-- The event log is append-only: whatever sequence of handler calls is made, and however the ports
-- answer or fail, the log before is the beginning of the log after.
pub after_history-IsPrefix :
    {W : Type 0} (deps : StageDeps W) (calls : List (StageName × String)) (r : Run W)
    → IsPrefix r.store.events (after_history deps calls r).store.events
after_history-IsPrefix deps calls r =
    after_history-Keeps deps {J = IsPrefix r.store.events}
      (λ input key _ _ log h. IsPrefix-trans h (append_to_log-IsPrefix input log)) calls r
      (IsPrefix-refl r.store.events)

-- After any sequence of handler calls from a log whose events are numbered without gaps and whose
-- idempotency keys are unique within each asset, both still hold.
pub after_history-IsNumbered :
    {W : Type 0} (deps : StageDeps W) (calls : List (StageName × String)) (r : Run W)
    → IsNumbered r.store.events
    → HasUniqueKeys r.store.events
    → IsNumbered (after_history deps calls r).store.events
      × HasUniqueKeys (after_history deps calls r).store.events
after_history-IsNumbered deps calls r numbered unique =
    after_history-Keeps deps {J = λ log. IsNumbered log × HasUniqueKeys log}
      (λ input key _ _ log h.
        (append_to_log-IsNumbered input log h.0, append_to_log-HasUniqueKeys input log h.1))
      calls r (numbered, unique)
