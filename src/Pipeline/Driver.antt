-- ===== src/Pipeline/Driver.antt =====
-- lib/pipeline/index.ts: the five handlers and the driver that stops at the first failure.
pub mod History
pub mod Order
pub mod Retry
pub mod Total
mod Tests
use wtr.Common.{String, List, [], ◌∷◌, Bool, true, false, if◌then◌else◌}
use wtr.Pipeline.Types.{StageResult, is_failed}
use wtr.Pipeline.Ports.{StageDeps}
use wtr.Pipeline.Exec.{Exec, ◌>>=◌, pure}
use wtr.Pipeline.Stages.Ingest.{ingest}
use wtr.Pipeline.Stages.Label.{label}
use wtr.Pipeline.Stages.Register.{register}
use wtr.Pipeline.Stages.ListStage.{list}
use wtr.Pipeline.Stages.Settle.{settle}

pub data StageName : Type 0 where
  ingest_stage label_stage register_stage list_stage settle_stage : StageName

-- `STAGE_ORDER`
abbrev pub stage_order : List StageName
stage_order = ingest_stage ∷ label_stage ∷ register_stage ∷ list_stage ∷ settle_stage ∷ []

module _ {W : Type 0} (deps : StageDeps W) where
  -- `handlers[name]` of `createStageHandlers(deps)`
  unfoldable pub stage_handler : StageName → String → Exec W StageResult
  stage_handler ingest_stage = ingest deps
  stage_handler label_stage = label deps
  stage_handler register_stage = register deps
  stage_handler list_stage = list deps
  stage_handler settle_stage = settle deps

  -- The loop of `runPipeline`.
  unfoldable pub run_stages : List StageName → String → Exec W (List StageResult)
  run_stages [] asset_id = pure []
  run_stages (name ∷ names) asset_id = do
    result ← stage_handler name asset_id
    if is_failed result.status
        then pure (result ∷ [])
        else (do results ← run_stages names asset_id; pure (result ∷ results))

  unfoldable pub run_pipeline : String → Exec W (List StageResult)
  run_pipeline asset_id = run_stages stage_order asset_id
