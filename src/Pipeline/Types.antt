-- ===== src/Pipeline/Types.antt =====
-- lib/pipeline/types.ts: stages, events, the projected asset row and the result of a stage.
use wtr.Common.{ℕ, String, Bool, true, false, List, Option, Failure, ◌==◌}
use wtr.Common.Value.{Fields}

pub data AssetStage : Type 0 where
  in_tray labeled registered listed sold settled failed_register : AssetStage

pub data EventType : Type 0 where
  ingested labeled media_encrypted_uploaded trace_registered ip_registered : EventType
  cdr_vault_allocated register_failed listed sold payout_credited settled : EventType
  consent_changed kyc_changed license_changed takedown duplicate_claim_flagged : EventType
  submitted_to_request submission_withdrawn submission_accepted submission_rejected : EventType

-- The texts of `EVENT`.
abbrev pub event_name : EventType → String
event_name ingested = "asset.ingested"
event_name labeled = "asset.labeled"
event_name media_encrypted_uploaded = "asset.media_encrypted_uploaded"
event_name trace_registered = "asset.trace_registered"
event_name ip_registered = "asset.ip_registered"
event_name cdr_vault_allocated = "asset.cdr_vault_allocated"
event_name register_failed = "asset.register_failed"
event_name listed = "asset.listed"
event_name sold = "asset.sold"
event_name payout_credited = "asset.payout_credited"
event_name settled = "asset.settled"
event_name consent_changed = "creator.consent_changed"
event_name kyc_changed = "creator.kyc_changed"
event_name license_changed = "asset.license_changed"
event_name takedown = "asset.takedown"
event_name duplicate_claim_flagged = "asset.duplicate_claim_flagged"
event_name submitted_to_request = "asset.submitted_to_request"
event_name submission_withdrawn = "asset.submission_withdrawn"
event_name submission_accepted = "asset.submission_accepted"
event_name submission_rejected = "asset.submission_rejected"

-- `a === b` on event types
abbrev pub same_type : EventType → EventType → Bool
same_type a b = event_name a == event_name b

-- A moment is its text by `toISOString`.
abbrev pub Moment : Type 0
Moment = String

pub record AssetEvent : Type 0 where
  pub id : ℕ
  pub asset_id : String
  pub seq : ℕ
  pub event_type : EventType
  pub payload : Fields
  pub idempotency_key : Option String
  pub promoted_to_trace : Bool
  pub trace_seq : Option ℕ
  pub created_at : Moment

pub record AssetRow : Type 0 where
  pub id : String
  pub creator_id : String
  pub stage : AssetStage
  pub media_type : String
  pub filename : Option String
  pub byte_size : Option ℕ
  pub content_sha256 : String
  pub duplicate_claim_flag : Bool
  pub ipfs_cid : Option String
  pub media_vault_uuid : Option ℕ
  pub trace_data_id : Option String
  pub trace_metadata_root : Option String
  pub trace_update_count : ℕ
  pub ip_id : Option String
  pub spg_nft_contract : Option String
  pub nft_token_id : Option ℕ
  pub license_terms_id : Option ℕ
  pub cdr_vault_uuid : Option ℕ

pub data StageStatus : Type 0 where
  completed skipped failed : StageStatus

pub record StageResult : Type 0 where
  pub stage : AssetStage
  pub status : StageStatus
  pub performed : List String
  pub already_done : List String
  pub asset_id : String
  pub error : Option Failure

-- `status === "failed"`
abbrev pub is_failed : StageStatus → Bool
is_failed failed = true
is_failed _ = false
