-- ===== src/Pipeline/Driver/Tests.antt =====
-- The handlers on a sample asset: a first registration that fails, its retry, and the rest of the way.
use wtr.Common.{
  String, List, [], ◌∷◌, some, Bool, true, false, ok, map, ◌≡◌, refl, after_prefix, decimal, arith,
  IsPrefix,
}
use wtr.Common.Value.{json_stringify, quote, join_commas}
use wtr.Crypto.{sha256_bytes, sha256_canonical}
use wtr.Story.{build_ip_metadata_document, build_nft_metadata_document}
use wtr.Trace.Client.{stable_batch_id}
use wtr.Trace.Schema.{to_sha256_ref}
use wtr.Pipeline.Types.{AssetStage, EventType, AssetEvent, event_name, StageResult}
use wtr.Pipeline.Exec.{Run}
use wtr.Pipeline.Log.{has}
use wtr.Pipeline.Log.Spine.{IsSound}
use wtr.Pipeline.Log.Numbering.{IsNumbered, HasUniqueKeys}
use wtr.Pipeline.Actions.{done}
use wtr.Pipeline.Driver.{stage_order}
use wtr.Pipeline.Driver.History.{after_history-IsPrefix, after_history-IsNumbered}
use wtr.Pipeline.Driver.Order.{
  AllRecorded, after_history-IsSound, stage_handler-Finished, run_pipeline-AllRecorded,
}
use wtr.Pipeline.Driver.Total.{stage_handler-IsReturned}
use wtr.Pipeline.Exec.Total.{IsReturned}
use wtr.Pipeline.Driver.Retry.{skipped, untouched, stage_handler-skips}
use wtr.Pipeline.Rows.{last_trace_seq}
use wtr.Pipeline.Store.{
  get_asset, get_creator, get_license_preset, put_labels, get_listing, create_listing, record_sale,
  get_sale, credit_payout, append_to_log, append_event, update_asset_projection, set_stage,
}
use wtr.Pipeline.TraceDocument.{build_trace_document}
use wtr.Pipeline.Exec.{
  ◌>>=◌, pure, throw, attempt, reads, writes, makes, calls, asks, lift, begins, performs, enters,
  performed_so_far, current_sub_step, need,
}
use wtr.Pipeline.Actions.{known_asset, log_of, appends, moves_to, patches}
use wtr.Pipeline.Stages.Ingest.{ingest, ingest_steps, ingest_event, flag_duplicate, matching_digest}
use wtr.Pipeline.Stages.Label.{label, label_steps, label_event}
use wtr.Pipeline.Stages.Register.{
  register, register_steps, register_fails, step_3a, step_3b, step_3c, step_3d,
}
use wtr.Pipeline.Stages.ListStage.{list, list_steps, list_event, existing_or_new, preset_in_use}
use wtr.Pipeline.Stages.Settle.{settle, settle_steps, settle_fails, sale_step, payout_step}
use wtr.Pipeline.Driver.{
  StageName, ingest_stage, label_stage, register_stage, list_stage, settle_stage, stage_handler,
  run_stages, run_pipeline,
}
use wtr.Pipeline.Driver.History.{after, after_history}
use wtr.Pipeline.Sample.{deps, fresh}

abbrev calls_made : List (StageName × String)
calls_made =
    (ingest_stage, "a1")
    ∷ (label_stage, "a1")
    ∷ (register_stage, "a1")
    ∷ (register_stage, "a1")
    ∷ (list_stage, "a1")
    ∷ (settle_stage, "a1")
    ∷ []

history_test :
    map
      (λ (e : AssetEvent). event_name e.event_type)
      (after_history deps calls_made fresh).store.events
    ≡ "asset.ingested" ∷ "asset.duplicate_claim_flagged" ∷ "asset.labeled"
      ∷ "asset.media_encrypted_uploaded" ∷ "asset.trace_registered" ∷ "asset.register_failed"
      ∷ "asset.ip_registered" ∷ "asset.cdr_vault_allocated" ∷ "asset.listed" ∷ "asset.sold"
      ∷ "asset.payout_credited" ∷ "asset.settled" ∷ []
unfolding after_history run_pipeline run_stages after_prefix decimal stage_handler ingest
    ingest_steps ingest_event flag_duplicate matching_digest label label_steps label_event register
    register_steps register_fails step_3a step_3b step_3c step_3d list list_steps list_event
    existing_or_new preset_in_use settle settle_steps settle_fails sale_step payout_step known_asset
    log_of appends moves_to patches ◌>>=◌ pure throw attempt reads writes makes calls asks lift
    begins performs enters performed_so_far current_sub_step need get_asset get_creator
    get_license_preset put_labels get_listing create_listing record_sale get_sale credit_payout
    append_to_log append_event update_asset_projection set_stage build_trace_document json_stringify
    quote join_commas sha256_bytes sha256_canonical build_ip_metadata_document
    build_nft_metadata_document stable_batch_id to_sha256_ref last_trace_seq
history_test = refl

empty-IsSound : IsSound []
empty-IsSound = record { keys = tt; order = tt }

abbrev settled : Run Bool
settled = after_history deps calls_made fresh

settled-IsSound : IsSound settled.store.events
settled-IsSound = after_history-IsSound deps calls_made fresh empty-IsSound

-- Story answers at once.
abbrev up : Run Bool
up = record fresh { world = false }

abbrev results_up : List StageResult
results_up =
    done AssetStage.in_tray ("ingest" ∷ []) [] "a1"
    ∷ done AssetStage.labeled ("label" ∷ []) [] "a1"
    ∷ done AssetStage.registered ("3a" ∷ "3b" ∷ "3c" ∷ "3d" ∷ []) [] "a1"
    ∷ done AssetStage.listed ("list" ∷ []) [] "a1"
    ∷ done AssetStage.settled ("sale" ∷ "payout" ∷ "settle" ∷ []) [] "a1"
    ∷ []

pipeline_test : (run_pipeline deps "a1" up).0 ≡ ok results_up
unfolding after_history run_pipeline run_stages after_prefix decimal stage_handler ingest
    ingest_steps ingest_event flag_duplicate matching_digest label label_steps label_event register
    register_steps register_fails step_3a step_3b step_3c step_3d list list_steps list_event
    existing_or_new preset_in_use settle settle_steps settle_fails sale_step payout_step known_asset
    log_of appends moves_to patches ◌>>=◌ pure throw attempt reads writes makes calls asks lift
    begins performs enters performed_so_far current_sub_step need get_asset get_creator
    get_license_preset put_labels get_listing create_listing record_sale get_sale credit_payout
    append_to_log append_event update_asset_projection set_stage build_trace_document json_stringify
    quote join_commas sha256_bytes sha256_canonical build_ip_metadata_document
    build_nft_metadata_document stable_batch_id to_sha256_ref last_trace_seq
pipeline_test = refl

ingest_test :
    (stage_handler deps ingest_stage "a1" fresh).0
    ≡ ok (done AssetStage.in_tray ("ingest" ∷ []) [] "a1")
unfolding after_history run_pipeline run_stages after_prefix decimal stage_handler ingest
    ingest_steps ingest_event flag_duplicate matching_digest label label_steps label_event register
    register_steps register_fails step_3a step_3b step_3c step_3d list list_steps list_event
    existing_or_new preset_in_use settle settle_steps settle_fails sale_step payout_step known_asset
    log_of appends moves_to patches ◌>>=◌ pure throw attempt reads writes makes calls asks lift
    begins performs enters performed_so_far current_sub_step need get_asset get_creator
    get_license_preset put_labels get_listing create_listing record_sale get_sale credit_payout
    append_to_log append_event update_asset_projection set_stage build_trace_document json_stringify
    quote join_commas sha256_bytes sha256_canonical build_ip_metadata_document
    build_nft_metadata_document stable_batch_id to_sha256_ref last_trace_seq
ingest_test = refl

settled_test :
    (get_asset "a1" settled.store ≡ some settled.store.asset)
    × (has "a1" settled.store.events EventType.cdr_vault_allocated ≡ true)
unfolding after_history run_pipeline run_stages after_prefix decimal stage_handler ingest
    ingest_steps ingest_event flag_duplicate matching_digest label label_steps label_event register
    register_steps register_fails step_3a step_3b step_3c step_3d list list_steps list_event
    existing_or_new preset_in_use settle settle_steps settle_fails sale_step payout_step known_asset
    log_of appends moves_to patches ◌>>=◌ pure throw attempt reads writes makes calls asks lift
    begins performs enters performed_so_far current_sub_step need get_asset get_creator
    get_license_preset put_labels get_listing create_listing record_sale get_sale credit_payout
    append_to_log append_event update_asset_projection set_stage build_trace_document json_stringify
    quote join_commas sha256_bytes sha256_canonical build_ip_metadata_document
    build_nft_metadata_document stable_batch_id to_sha256_ref last_trace_seq
settled_test = (refl, refl)

after_history-IsPrefix_example : IsPrefix fresh.store.events settled.store.events
after_history-IsPrefix_example = after_history-IsPrefix deps calls_made fresh

after_history-IsNumbered_example :
    IsNumbered settled.store.events × HasUniqueKeys settled.store.events
after_history-IsNumbered_example =
    after_history-IsNumbered deps calls_made fresh (λ a. refl) (λ a key ne. omega arith)

after_history-IsSound_example : IsSound settled.store.events
after_history-IsSound_example = after_history-IsSound deps calls_made fresh empty-IsSound

stage_handler-Finished_example :
    has "a1" (after (stage_handler deps ingest_stage "a1") fresh).store.events EventType.ingested
    ≡ true
stage_handler-Finished_example =
    stage_handler-Finished deps ingest_stage "a1" fresh
      (done AssetStage.in_tray ("ingest" ∷ []) [] "a1") empty-IsSound ingest_test refl

run_pipeline-AllRecorded_example :
    AllRecorded "a1" stage_order (after (run_pipeline deps "a1") up).store.events
run_pipeline-AllRecorded_example =
    run_pipeline-AllRecorded deps "a1" up results_up empty-IsSound pipeline_test refl

stage_handler-skips_example :
    stage_handler deps register_stage "a1" settled
    ≡ (ok (skipped register_stage "a1"), untouched register_stage "a1" settled)
stage_handler-skips_example =
    stage_handler-skips deps register_stage "a1" settled settled.store.asset settled_test.0
      settled-IsSound settled_test.1

fresh_test : get_asset "a1" fresh.store ≡ some fresh.store.asset
unfolding get_asset
fresh_test = refl

stage_handler-IsReturned_example : IsReturned (stage_handler deps register_stage "a1" fresh).0
stage_handler-IsReturned_example =
    stage_handler-IsReturned deps "a1" fresh fresh.store.asset register_stage fresh_test
