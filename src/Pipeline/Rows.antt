-- ===== src/Pipeline/Rows.antt =====
-- lib/pipeline/store.ts: the rows that the store holds, and the reads of an event log.
use Prim.Native.Nat.{max}
use wtr.Common.{ℕ, String, Bool, List, [], ◌∷◌, Option, none, some, any, find_last}
use wtr.Common.Value.{Value, Fields}
use wtr.Pipeline.Types.{EventType, same_type, Moment, AssetEvent}

-- `payload`, `idempotencyKey`, `promotedToTrace` and `traceSeq` are optional.
pub record AppendEventInput : Type 0 where
  pub asset_id : String
  pub event_type : EventType
  pub payload : Fields
  pub idempotency_key : Option String
  pub promoted_to_trace : Bool
  pub trace_seq : Option ℕ

pub record LicensePresetRow : Type 0 where
  pub preset : String
  pub license_terms_id : ℕ
  pub terms_uri : String
  pub terms_sha256 : String
  pub ai_learning_models : Bool

-- `kycStatus` and `taxStatus` by their texts
pub record CreatorRow : Type 0 where
  pub id : String
  pub anon_id : String
  pub kyc_status : String
  pub kyc_country : Option String
  pub tax_status : Option String
  pub wallet_verified : Option Bool

pub record ConsentRow : Type 0 where
  pub document_version : String
  pub document_sha256 : String
  pub document_uri : Option String
  pub privacy_version : Option String
  pub privacy_sha256 : Option String
  pub privacy_uri : Option String
  pub scopes : Fields
  pub accepted_at : Moment

pub record LabelInput : Type 0 where
  pub namespace : String
  pub key : String
  pub value : Value
  pub source : String
  pub confidence : Option String
  pub model_id : Option String

pub record ListingRow : Type 0 where
  pub id : String
  pub asset_id : String
  pub license_preset : String
  pub license_terms_id : ℕ
  pub price_wei : ℕ
  pub currency_address : String
  pub status : String

pub record SaleRow : Type 0 where
  pub id : String
  pub asset_id : String
  pub listing_id : Option String
  pub buyer_anon_id : String
  pub license_terms_id : ℕ
  pub license_token_ids : List ℕ
  pub amount_wei : ℕ
  pub currency_address : String
  pub tx_hash : Option String

pub record PayoutRow : Type 0 where
  pub id : String
  pub sale_id : String
  pub creator_id : String
  pub amount_wei : ℕ
  pub currency_address : String
  pub status : String
  pub payment_credited_at : Option Moment

-- `hasEvent`
abbrev pub has_event : List AssetEvent → EventType → Bool
has_event events event_type = any (λ e. same_type e.event_type event_type) events

-- `lastEvent`
abbrev pub last_event : List AssetEvent → EventType → Option AssetEvent
last_event events event_type = find_last (λ e. same_type e.event_type event_type) events

abbrev trace_seq_or_zero : Option ℕ → ℕ
trace_seq_or_zero none = 0
trace_seq_or_zero (some n) = n

-- The loop of `lastTraceSeq`.
max_trace_seq : ℕ → List AssetEvent → ℕ
max_trace_seq seen [] = seen
max_trace_seq seen (e ∷ events) = max_trace_seq (max seen (trace_seq_or_zero e.trace_seq)) events

-- `lastTraceSeq`
unfoldable pub last_trace_seq : List AssetEvent → ℕ
unfolding max_trace_seq
last_trace_seq events = max_trace_seq 0 events
