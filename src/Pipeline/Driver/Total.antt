-- ===== src/Pipeline/Driver/Total.antt =====
-- lib/pipeline/stages: no port can make a handler throw.
use wtr.Common.{String, some, ◌≡◌}
use wtr.Pipeline.Types.{AssetRow, StageResult}
use wtr.Pipeline.Store.{get_asset}
use wtr.Pipeline.Ports.{StageDeps}
use wtr.Pipeline.Exec.{Run, Exec, ◌>>=◌, reads, need, pure}
use wtr.Pipeline.Exec.Total.{IsReturned, Total, total_rules}
use wtr.Pipeline.Actions.{known_asset, log_of, appends, moves_to}
use wtr.Pipeline.Stages.Ingest.{ingest}
use wtr.Pipeline.Stages.Label.{label}
use wtr.Pipeline.Stages.Register.{register, register_fails}
use wtr.Pipeline.Stages.ListStage.{list, preset_in_use}
use wtr.Pipeline.Stages.Settle.{settle, settle_fails}
use wtr.Pipeline.Driver.{
  StageName, ingest_stage, label_stage, register_stage, list_stage, settle_stage, stage_handler,
}

module _ {W : Type 0} (deps : StageDeps W) (asset_id : String) (r : Run W) (asset : AssetRow) where
  -- A handler reads the asset first; where it is known, the rest of the handler runs.
  known-Total :
      (f : AssetRow → Exec W StageResult)
      → get_asset asset_id r.store ≡ some asset
      → Total (f asset)
      → IsReturned ((known_asset asset_id >>= f) r).0
  unfolding known_asset reads need ◌>>=◌ pure
  known-Total f known total = rw known (total.at r)

  -- Whatever the ports answer, and however they fail: for an asset that the store knows, every stage
  -- handler returns a result and never throws.
  pub stage_handler-IsReturned :
      (name : StageName)
      → get_asset asset_id r.store ≡ some asset
      → IsReturned (stage_handler deps name asset_id r).0
  unfolding stage_handler ingest label register list settle log_of appends moves_to preset_in_use
      register_fails settle_fails
  stage_handler-IsReturned ingest_stage known = known-Total _ known (search total_rules)
  stage_handler-IsReturned label_stage known = known-Total _ known (search total_rules)
  stage_handler-IsReturned register_stage known = known-Total _ known (search total_rules depth 14)
  stage_handler-IsReturned list_stage known = known-Total _ known (search total_rules)
  stage_handler-IsReturned settle_stage known = known-Total _ known (search total_rules depth 10)
