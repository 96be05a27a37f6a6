-- ===== src/Pipeline/Actions.antt =====
-- The calls of the store and the results that the stage handlers share.
use wtr.Common.{String, false, List, [], ◌∷◌, none, some, Failure, otherwise}
use wtr.Common.Value.{Fields}
use wtr.Pipeline.Types.{
  AssetStage, EventType, AssetEvent, AssetRow, StageResult, completed, skipped, failed,
}
use wtr.Pipeline.Rows.{AppendEventInput}
use wtr.Pipeline.Store.{get_asset, list_events, append_event, set_stage, update_asset_projection}
use wtr.Pipeline.Exec.{Exec, reads, writes, need, ◌>>=◌}

abbrev pub keyed_event : String → EventType → String → Fields → AppendEventInput
keyed_event asset_id event_type key payload = record {
  asset_id = asset_id;
  event_type = event_type;
  payload = payload;
  idempotency_key = some key;
  promoted_to_trace = false;
  trace_seq = none;
}

module _ {W : Type 0} where
  -- `getAsset`, and the exception where there is no such asset
  unfoldable pub known_asset : String → Exec W AssetRow
  known_asset asset_id = do
    found ← reads (get_asset asset_id)
    need found ("Unknown asset " ∷ asset_id ∷ [])

  unfoldable pub log_of : String → Exec W (List AssetEvent)
  log_of asset_id = reads (list_events asset_id)

  unfoldable pub appends : AppendEventInput → Exec W (Unit {0})
  appends input = writes (append_event input)

  unfoldable pub moves_to : String → AssetStage → Exec W (Unit {0})
  moves_to asset_id stage = writes (set_stage asset_id stage)

  unfoldable pub patches : String → (AssetRow → AssetRow) → Exec W (Unit {0})
  patches asset_id patch = writes (update_asset_projection asset_id patch)

abbrev pub done : AssetStage → List String → List String → String → StageResult
done stage performed already asset_id = record {
  stage = stage;
  status = completed;
  performed = performed;
  already_done = already;
  asset_id = asset_id;
  error = none;
}

abbrev pub skip : AssetStage → List String → String → StageResult
skip stage already asset_id = record {
  stage = stage;
  status = skipped;
  performed = [];
  already_done = already;
  asset_id = asset_id;
  error = none;
}

abbrev pub fail : AssetStage → List String → List String → String → Failure → StageResult
fail stage performed already asset_id failure = record {
  stage = stage;
  status = failed;
  performed = performed;
  already_done = already;
  asset_id = asset_id;
  error = some failure;
}

abbrev pub out_of_order : String → Failure
out_of_order message = record { name = "StageOrderError"; message = message }

-- `asset.filename ?? assetId`
abbrev pub file_name : AssetRow → String → String
file_name asset asset_id = otherwise asset.filename asset_id
