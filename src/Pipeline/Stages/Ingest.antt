-- ===== src/Pipeline/Stages/Ingest.antt =====
-- lib/pipeline/stages/ingest.ts: stage 1.
use wtr.Common.{String, [], ◌∷◌, some, template, error, length, ◌==◌, if◌then◌else◌}
use wtr.Common.Value.{num, str, end, field}
use wtr.Crypto.{sha256_bytes, strip_hex_prefix}
use wtr.Pipeline.Types.{AssetStage, EventType, AssetRow, StageResult}
use wtr.Pipeline.Rows.{has_event}
use wtr.Pipeline.Ports.{Bytes, StageDeps}
use wtr.Pipeline.Exec.{Exec, ◌>>=◌, ◌>>◌, pure, throw, attempt, calls}
use wtr.Pipeline.Actions.{
  keyed_event, known_asset, log_of, appends, moves_to, patches, done, skip, fail, file_name,
}

module _ {W : Type 0} (deps : StageDeps W) where
  unfoldable pub ingest_event : String → AssetRow → String → Bytes → Exec W (Unit {0})
  ingest_event asset_id asset digest plaintext = appends (
      keyed_event asset_id EventType.ingested (template ("ingest:" ∷ asset_id ∷ [])) (
        field "content_sha256" (str digest) (
          field "byte_size" (num (length plaintext))
            (field "media_type" (str asset.media_type) end))))

  unfoldable pub flag_duplicate : String → AssetRow → String → Exec W (Unit {0})
  flag_duplicate asset_id asset digest =
      if asset.duplicate_claim_flag
      then appends (
          keyed_event asset_id EventType.duplicate_claim_flagged
            (template ("duplicate-claim:" ∷ asset_id ∷ []))
            (field "content_sha256" (str digest)
              (field "resolution" (str "pending_human_review") end)))
      else pure tt

  unfoldable pub matching_digest : AssetRow → String → Exec W (Unit {0})
  matching_digest asset digest =
      if digest == asset.content_sha256
      then pure tt
      else throw (
          error (
            template (
              "content_sha256 mismatch: asset claims " ∷ asset.content_sha256 ∷ ", bytes hash to "
              ∷ digest ∷ [])))

  unfoldable pub ingest_steps : String → AssetRow → Exec W StageResult
  ingest_steps asset_id asset = do
    plaintext ← calls deps.ports.read_plaintext (asset_id, file_name asset asset_id)
    let digest = strip_hex_prefix (sha256_bytes deps.environment.platform plaintext)
    matching_digest asset digest
    ingest_event asset_id asset digest plaintext
    flag_duplicate asset_id asset digest
    patches asset_id (λ row. record row { byte_size = some (length plaintext) })
    moves_to asset_id AssetStage.in_tray
    pure (done AssetStage.in_tray ("ingest" ∷ []) [] asset_id)

  unfoldable pub ingest : String → Exec W StageResult
  ingest asset_id = do
    asset ← known_asset asset_id
    events ← log_of asset_id
    if has_event events EventType.ingested
        then pure (skip AssetStage.in_tray ("ingest" ∷ []) asset_id)
        else attempt (ingest_steps asset_id asset)
            (λ failure. pure (fail AssetStage.in_tray [] [] asset_id failure))
