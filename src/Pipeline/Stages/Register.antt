-- ===== src/Pipeline/Stages/Register.antt =====
-- lib/pipeline/stages/register.ts: stage 3, its four sub-steps in their order.
use wtr.Common.{
  ℕ, String, Bool, true, List, [], ◌∷◌, ◌++◌, Option, none, some, Failure, template, decimal,
  otherwise, includes, length, nat_eq, keep, not, ◌==◌, if◌then◌else◌,
}
use wtr.Common.Value.{Fields, bool, num, str, arr, obj, texts, end, field, or_null, json_stringify}
use wtr.Crypto.{sha256_bytes, strip_hex_prefix}
use wtr.Story.{build_ip_metadata_document, build_nft_metadata_document}
use wtr.Trace.Client.{stable_batch_id}
use wtr.Pipeline.Types.{AssetStage, EventType, AssetEvent, AssetRow, StageResult}
use wtr.Pipeline.Rows.{has_event, last_event, LicensePresetRow}
use wtr.Pipeline.Store.{get_creator, get_license_preset}
use wtr.Pipeline.TraceDocument.{build_trace_document}
use wtr.Pipeline.Ports.{StageDeps}
use wtr.Pipeline.Exec.{
  Exec, ◌>>=◌, ◌>>◌, pure, attempt, calls, asks, reads, lift, need, performs, begins, enters,
  performed_so_far, current_sub_step,
}
use wtr.Pipeline.Actions.{
  keyed_event, known_asset, log_of, appends, moves_to, patches, done, skip, fail, out_of_order,
  file_name,
}
use wtr.Pipeline.Stages.ListStage.{preset_in_use}

abbrev pub register_sub_steps : List String
register_sub_steps = "3a" ∷ "3b" ∷ "3c" ∷ "3d" ∷ []

abbrev pub step_if : Bool → String → List String
step_if b step = if b then step ∷ [] else []

-- `alreadyDone`
abbrev pub steps_done : List AssetEvent → List String
steps_done events =
    step_if (has_event events EventType.media_encrypted_uploaded) "3a"
    ++ (step_if (has_event events EventType.trace_registered) "3b"
        ++ (step_if (has_event events EventType.ip_registered) "3c"
            ++ step_if (has_event events EventType.cdr_vault_allocated) "3d"))

-- `ipfs://${cid}`: a missing cid is printed as `null`.
abbrev pub media_url : Option String → String
media_url cid = template ("ipfs://" ∷ otherwise cid "null" ∷ [])

-- A text that JavaScript counts as true.
abbrev pub non_empty : Option String → Option String
non_empty none = none
non_empty (some s) = if s == "" then none else some s

module _ {W : Type 0} (deps : StageDeps W) where
  unfoldable pub step_3a : String → AssetRow → List String → Exec W (Option String × Option ℕ)
  step_3a asset_id asset already =
      if includes already "3a" then pure (asset.ipfs_cid, asset.media_vault_uuid) else do
        plaintext ← calls deps.ports.read_plaintext (asset_id, file_name asset asset_id)
        upload ← calls deps.ports.upload_encrypted (plaintext, deps.owner)
        appends (
            keyed_event asset_id EventType.media_encrypted_uploaded
              (template ("3a:" ∷ asset_id ∷ []))
              (field "cid" (str upload.cid) (
                field "media_vault_uuid" (num upload.vault_uuid) (
                  field "allocate_tx" (str upload.allocate_tx_hash)
                    (field "write_tx" (str upload.write_tx_hash) end)))))
        patches asset_id (λ row. record row {
          ipfs_cid = some upload.cid;
          media_vault_uuid = some upload.vault_uuid;
        })
        performs "3a"
        pure (some upload.cid, some upload.vault_uuid)

  abbrev pub mock_mark : Fields
  mock_mark = if deps.ports.trace_mock then field "trace_mock" (bool true) end else end

  unfoldable pub step_3b : String → String → Option String → List String → Exec W (Unit {0})
  step_3b asset_id preset cid already = if includes already "3b" then pure tt else do
    built ← reads (
        build_trace_document deps.environment asset_id (record {
          license_preset = some preset;
          payment_credited_at = none;
          provider_payload = field "stage" (str "REGISTERED") (field "ipfs_cid" (or_null cid) end);
        }))
    document ← lift built
    let batch_id =
        stable_batch_id deps.environment.platform
          (field "action" (str "trace.register") (field "assetId" (str asset_id) end))
    now ← asks deps.now
    registered ← calls deps.ports.register_data (record {
      document = document;
      source_record_id = asset_id;
      occurred_at = now;
      batch_id = batch_id;
    })
    appends (
        keyed_event asset_id EventType.trace_registered (template ("3b:" ∷ asset_id ∷ [])) (
          field "data_id" (str registered.0) (
            field "initial_metadata_root" (str registered.1)
              (field "batch_id" (str batch_id) mock_mark))))
    patches asset_id (λ row. record row {
      trace_data_id = some registered.0;
      trace_metadata_root = some registered.1;
    })
    performs "3b"

  unfoldable pub step_3c :
      String
      → AssetRow
      → String
      → LicensePresetRow
      → String
      → Option String
      → List String
      → Exec W (Option String)
  step_3c asset_id asset preset row spg cid already =
      if includes already "3c" then pure asset.ip_id else do
        found ← reads (get_creator asset.creator_id)
        creator ← need found ("Unknown creator " ∷ asset.creator_id ∷ [])
        now ← asks deps.now
        let title = otherwise asset.filename asset.id
        let description = template ("WTR asset " ∷ asset.id ∷ [])
        let ip_body = json_stringify (
            obj (
              build_ip_metadata_document (record {
                title = title;
                description = description;
                media_type = asset.media_type;
                content_sha256 = asset.content_sha256;
                encrypted_media_url = media_url cid;
                creator_anon_id = creator.anon_id;
                license_preset = preset;
                created_at = now;
              })))
        let nft_body = json_stringify (
            obj (
              build_nft_metadata_document title description (media_url cid) preset
                asset.content_sha256))
        let platform = deps.environment.platform
        let ip_hash = sha256_bytes platform (platform.encode ip_body)
        let nft_hash = sha256_bytes platform (platform.encode nft_body)
        ip_uri ← calls deps.ports.publish_document (ip_body, strip_hex_prefix ip_hash)
        nft_uri ← calls deps.ports.publish_document (nft_body, strip_hex_prefix nft_hash)
        registered ← calls deps.ports.register_ip_asset (record {
          spg_nft_contract = spg;
          license_terms_id = row.license_terms_id;
          license_preset = preset;
          ip_metadata_uri = ip_uri;
          ip_metadata_hash = ip_hash;
          nft_metadata_uri = nft_uri;
          nft_metadata_hash = nft_hash;
        })
        appends (
            keyed_event asset_id EventType.ip_registered (template ("3c:" ∷ asset_id ∷ [])) (
              field "ip_id" (str registered.ip_id) (
                field "token_id" (str (decimal registered.token_id)) (
                  field "spg_nft_contract" (str spg) (
                    field "license_terms_id" (str (decimal row.license_terms_id)) (
                      field "tx_hash" (str registered.tx_hash)
                        (field "ip_metadata_uri" (str ip_uri) end)))))))
        patches asset_id (λ old. record old {
          ip_id = some registered.ip_id;
          nft_token_id = some registered.token_id;
          spg_nft_contract = some spg;
          license_terms_id = some row.license_terms_id;
        })
        performs "3c"
        pure (some registered.ip_id)

  unfoldable pub step_3d : String → Option String → Option ℕ → List String → Exec W (Unit {0})
  step_3d asset_id ip_id media_vault already = if includes already "3d" then pure tt else do
    ip ← need (non_empty ip_id) ("3d requires the ipId produced by 3c" ∷ [])
    media ← need media_vault ("3d requires the media vault from 3a" ∷ [])
    payload ← calls deps.ports.read_owner_vault media
    vault ←
        calls deps.ports.allocate_license_vault
          (record { ip_id = ip; owner = deps.owner; payload = payload })
    appends (
        keyed_event asset_id EventType.cdr_vault_allocated (template ("3d:" ∷ asset_id ∷ [])) (
          field "cdr_vault_uuid" (num vault.vault_uuid) (
            field "ip_id" (str ip) (
              field "allocate_tx" (str vault.allocate_tx_hash)
                (field "write_tx" (str vault.write_tx_hash) end)))))
    patches asset_id (λ row. record row { cdr_vault_uuid = some vault.vault_uuid })
    performs "3d"

  unfoldable pub register_steps : String → AssetRow → List String → String → Exec W StageResult
  register_steps asset_id asset already preset = do
    found ← reads (get_license_preset preset)
    row ←
        need found
          ("License preset " ∷ preset ∷ " is not registered — run scripts/bootstrap.ts" ∷ [])
    contract ← reads (λ s. s.spg_nft_contract)
    spg ← need contract ("No WTR SPG collection recorded — run scripts/bootstrap.ts" ∷ [])
    enters "3a"
    media ← step_3a asset_id asset already
    enters "3b"
    step_3b asset_id preset media.0 already
    enters "3c"
    ip_id ← step_3c asset_id asset preset row spg media.0 already
    enters "3d"
    step_3d asset_id ip_id media.1 already
    moves_to asset_id AssetStage.registered
    performed ← performed_so_far
    pure (done AssetStage.registered performed already asset_id)

  unfoldable pub register_fails : String → List String → Failure → Exec W StageResult
  register_fails asset_id already failure = do
    events ← log_of asset_id
    performed ← performed_so_far
    sub_step ← current_sub_step
    appends (
        keyed_event asset_id EventType.register_failed
          (template ("register-failed:" ∷ sub_step ∷ ":" ∷ decimal (length events) ∷ []))
          (field "sub_step" (str sub_step) (
            field "completed_sub_steps" (arr (texts (already ++ performed))) (
              field "error_name" (str failure.name)
                (field "error_message" (str failure.message) end)))))
    moves_to asset_id AssetStage.failed_register
    pure (fail AssetStage.failed_register performed already asset_id failure)

  unfoldable pub register : String → Exec W StageResult
  register asset_id = do
    asset ← known_asset asset_id
    events ← log_of asset_id
    if not (has_event events EventType.labeled)
        then pure (
            fail AssetStage.failed_register [] [] asset_id
              (out_of_order "asset has not been labeled"))
        else do
          let already = steps_done events
          if nat_eq (length already) (length register_sub_steps)
              then (do
                moves_to asset_id AssetStage.registered
                pure (skip AssetStage.registered already asset_id))
              else do
                preset ← preset_in_use deps
                begins
                attempt (register_steps asset_id asset already preset)
                    (register_fails asset_id already)

-- `outstandingSubSteps`
unfoldable pub outstanding_sub_steps : List String → List String
outstanding_sub_steps completed = keep (λ step. not (includes completed step)) register_sub_steps

-- `lastFailure`
unfoldable pub last_failure : List AssetEvent → Option AssetEvent
last_failure events = last_event events EventType.register_failed
