-- ===== src/Pipeline/Driver/Retry.antt =====
-- lib/pipeline/index.ts: a call for a stage that is done already.
use wtr.Common.{String, [], ◌∷◌, some, true, ok, ◌≡◌, refl}
use wtr.Pipeline.Types.{AssetStage, EventType, AssetRow, StageResult}
use wtr.Pipeline.Store.{get_asset, set_stage}
use wtr.Pipeline.Ports.{StageDeps}
use wtr.Pipeline.Exec.{Run, ◌>>=◌, pure, reads, writes, need}
use wtr.Pipeline.Log.{has}
use wtr.Pipeline.Log.Spine.{IsSound, IsOrdered-HasNeeds, before}
use wtr.Pipeline.Actions.{known_asset, log_of, moves_to, skip}
use wtr.Pipeline.Stages.Ingest.{ingest}
use wtr.Pipeline.Stages.Label.{label}
use wtr.Pipeline.Stages.Register.{register}
use wtr.Pipeline.Stages.ListStage.{list}
use wtr.Pipeline.Stages.Settle.{settle}
use wtr.Pipeline.Driver.{
  StageName, ingest_stage, label_stage, register_stage, list_stage, settle_stage, stage_handler,
}
use wtr.Pipeline.Driver.Order.{goal}

-- The stage and the steps that a skipped call reports.
abbrev pub skipped : StageName → String → StageResult
skipped ingest_stage = skip AssetStage.in_tray ("ingest" ∷ [])
skipped label_stage = skip AssetStage.labeled ("label" ∷ [])
skipped register_stage = skip AssetStage.registered ("3a" ∷ "3b" ∷ "3c" ∷ "3d" ∷ [])
skipped list_stage = skip AssetStage.listed ("list" ∷ [])
skipped settle_stage = skip AssetStage.settled ("sale" ∷ "payout" ∷ "settle" ∷ [])

-- Registering writes the stage again; the others write nothing.
abbrev pub untouched : {W : Type 0} → StageName → String → Run W → Run W
untouched register_stage asset_id r = record r {
  store = set_stage asset_id AssetStage.registered r.store;
}
untouched _ asset_id r = r

module _ {W : Type 0} (deps : StageDeps W) (asset_id : String) (r : Run W) (asset : AssetRow) where
  ingest-skips :
      get_asset asset_id r.store ≡ some asset
      → has asset_id r.store.events EventType.ingested ≡ true
      → ingest deps asset_id r ≡ (ok (skipped ingest_stage asset_id), r)
  unfolding ingest known_asset log_of reads need ◌>>=◌ pure
  ingest-skips known there = rw (known, there)

  label-skips :
      get_asset asset_id r.store ≡ some asset
      → has asset_id r.store.events EventType.labeled ≡ true
      → label deps asset_id r ≡ (ok (skipped label_stage asset_id), r)
  unfolding label known_asset log_of reads need ◌>>=◌ pure
  label-skips known there = rw (known, there)

  list-skips :
      get_asset asset_id r.store ≡ some asset
      → has asset_id r.store.events EventType.listed ≡ true
      → list deps asset_id r ≡ (ok (skipped list_stage asset_id), r)
  unfolding list known_asset log_of reads need ◌>>=◌ pure
  list-skips known there = rw (known, there)

  settle-skips :
      get_asset asset_id r.store ≡ some asset
      → has asset_id r.store.events EventType.settled ≡ true
      → settle deps asset_id r ≡ (ok (skipped settle_stage asset_id), r)
  unfolding settle known_asset log_of reads need ◌>>=◌ pure
  settle-skips known there = rw (known, there)

  register-skips :
      get_asset asset_id r.store ≡ some asset
      → has asset_id r.store.events EventType.labeled ≡ true
      → has asset_id r.store.events EventType.media_encrypted_uploaded ≡ true
      → has asset_id r.store.events EventType.trace_registered ≡ true
      → has asset_id r.store.events EventType.ip_registered ≡ true
      → has asset_id r.store.events EventType.cdr_vault_allocated ≡ true
      → register deps asset_id r
        ≡ (ok (skipped register_stage asset_id), untouched register_stage asset_id r)
  unfolding register known_asset log_of reads need ◌>>=◌ pure moves_to writes
  register-skips known labeled a b c d = rw (known, labeled, a, b, c, d)

-- A retry is idempotent: from a sound log that has the event of a stage, the stage's handler answers
-- `skipped` with all its steps as already done, calls no port, appends no event, and changes nothing
-- but the projected stage, which the handler of registering writes again.
pub stage_handler-skips :
    {W : Type 0} (deps : StageDeps W) (name : StageName) (asset_id : String) (r : Run W)
    (asset : AssetRow)
    → get_asset asset_id r.store ≡ some asset
    → IsSound r.store.events
    → has asset_id r.store.events (goal name) ≡ true
    → stage_handler deps name asset_id r ≡ (ok (skipped name asset_id), untouched name asset_id r)
unfolding stage_handler before
stage_handler-skips deps ingest_stage asset_id r asset known sound there =
    ingest-skips deps asset_id r asset known there
stage_handler-skips deps label_stage asset_id r asset known sound there =
    label-skips deps asset_id r asset known there
stage_handler-skips deps list_stage asset_id r asset known sound there =
    list-skips deps asset_id r asset known there
stage_handler-skips deps settle_stage asset_id r asset known sound there =
    settle-skips deps asset_id r asset known there
stage_handler-skips deps register_stage asset_id r asset known sound there =
    let needs = IsOrdered-HasNeeds r.store.events sound.order in
    let c = needs asset_id EventType.cdr_vault_allocated EventType.ip_registered refl there in
    let b = needs asset_id EventType.ip_registered EventType.trace_registered refl c in
    let a = needs asset_id EventType.trace_registered EventType.media_encrypted_uploaded refl b in
    let labeled = needs asset_id EventType.media_encrypted_uploaded EventType.labeled refl a in
    register-skips deps asset_id r asset known labeled a b c there
