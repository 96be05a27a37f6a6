-- ===== src/Pipeline/Stages/Label.antt =====
-- lib/pipeline/stages/label.ts: stage 2.
use wtr.Common.{String, List, [], ◌∷◌, map, template, length, if◌then◌else◌}
use wtr.Common.Value.{num, arr, texts, end, field}
use wtr.Pipeline.Types.{AssetStage, EventType, AssetRow, StageResult}
use wtr.Pipeline.Rows.{has_event, LabelInput}
use wtr.Pipeline.Store.{put_labels}
use wtr.Pipeline.Ports.{StageDeps}
use wtr.Pipeline.Exec.{Exec, ◌>>=◌, ◌>>◌, pure, attempt, calls, writes}
use wtr.Pipeline.Actions.{
  keyed_event, known_asset, log_of, appends, moves_to, done, skip, fail, out_of_order,
}

abbrev pub label_name : LabelInput → String
label_name entry = template (entry.namespace ∷ ":" ∷ entry.key ∷ [])

module _ {W : Type 0} (deps : StageDeps W) where
  unfoldable pub label_event : String → List LabelInput → Exec W (Unit {0})
  label_event asset_id labels = appends (
      keyed_event asset_id EventType.labeled (template ("label:" ∷ asset_id ∷ [])) (
        field "count" (num (length labels))
          (field "keys" (arr (texts (map label_name labels))) end)))

  unfoldable pub label_steps : String → AssetRow → Exec W StageResult
  label_steps asset_id asset = do
    labels ← calls deps.propose_labels (asset_id, asset.media_type, asset.filename)
    writes (put_labels labels)
    label_event asset_id labels
    moves_to asset_id AssetStage.labeled
    pure (done AssetStage.labeled ("label" ∷ []) [] asset_id)

  unfoldable pub label : String → Exec W StageResult
  label asset_id = do
    asset ← known_asset asset_id
    events ← log_of asset_id
    if has_event events EventType.labeled
        then pure (skip AssetStage.labeled ("label" ∷ []) asset_id)
        else if has_event events EventType.ingested
        then attempt (label_steps asset_id asset)
            (λ failure. pure (fail AssetStage.labeled [] [] asset_id failure))
        else pure
            (fail AssetStage.labeled [] [] asset_id (out_of_order "asset has not been ingested"))
