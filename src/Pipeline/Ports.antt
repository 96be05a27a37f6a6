-- ===== src/Pipeline/Ports.antt =====
-- lib/pipeline/ports.ts and lib/pipeline/deps.ts: what lies outside the program, as parameters.
-- `W` is the state of the outside world. A port may fail, and whatever it answers, it may answer
-- otherwise the next time.
use wtr.Common.{ℕ, String, Bool, List, Option, Result}
use wtr.Pipeline.Types.{Moment}
use wtr.Pipeline.Rows.{LabelInput}
use wtr.Trace.Schema.{TraceDocument}
use wtr.Pipeline.TraceDocument.{Environment}

abbrev pub Port : Type 0 → Type 0 → Type 0 → Type 0
Port W Request Answer = Request → W → Result Answer × W

abbrev pub Bytes : Type 0
Bytes = List ℕ

pub record Upload : Type 0 where
  pub cid : String
  pub vault_uuid : ℕ
  pub allocate_tx_hash : String
  pub write_tx_hash : String

pub record RegisterRequest : Type 0 where
  pub document : TraceDocument
  pub source_record_id : String
  pub occurred_at : Moment
  pub batch_id : String

pub record UpdateRequest : Type 0 where
  pub data_id : String
  pub document : TraceDocument
  pub prev_metadata_root : String
  pub update_count : ℕ
  pub occurred_at : Moment
  pub batch_id : String

pub record IpRequest : Type 0 where
  pub spg_nft_contract : String
  pub license_terms_id : ℕ
  pub license_preset : String
  pub ip_metadata_uri : String
  pub ip_metadata_hash : String
  pub nft_metadata_uri : String
  pub nft_metadata_hash : String

pub record IpAnswer : Type 0 where
  pub ip_id : String
  pub token_id : ℕ
  pub tx_hash : String

pub record VaultRequest : Type 0 where
  pub ip_id : String
  pub owner : String
  pub payload : Bytes

pub record VaultAnswer : Type 0 where
  pub vault_uuid : ℕ
  pub allocate_tx_hash : String
  pub write_tx_hash : String

pub record MintRequest : Type 0 where
  pub ip_id : String
  pub license_terms_id : ℕ
  pub amount : ℕ
  pub max_minting_fee_wei : ℕ
  pub receiver : Option String

pub record MintAnswer : Type 0 where
  pub license_token_ids : List ℕ
  pub tx_hash : String

pub record Ports (W : Type 0) : Type 0 where
  -- asset id and file name
  pub read_plaintext : Port W (String × String) Bytes
  -- content and owner
  pub upload_encrypted : Port W (Bytes × String) Upload
  pub trace_mock : Bool
  -- `data_id` and `initial_metadata_root`
  pub register_data : Port W RegisterRequest (String × String)
  -- `metadata_root` and the new count of updates
  pub update_metadata : Port W UpdateRequest (String × ℕ)
  pub register_ip_asset : Port W IpRequest IpAnswer
  -- a body and its hash; the document's address
  pub publish_document : Port W (String × String) String
  pub read_owner_vault : Port W ℕ Bytes
  pub allocate_license_vault : Port W VaultRequest VaultAnswer
  -- ip id and license terms
  pub predict_minting_fee_wei : Port W (String × ℕ) ℕ
  pub mint_license_tokens : Port W MintRequest MintAnswer

pub record StageDeps (W : Type 0) : Type 0 where
  pub ports : Ports W
  pub owner : String
  pub now : W → Moment × W
  -- asset id, media type and file name
  pub propose_labels : Port W (String × String × Option String) (List LabelInput)
  -- asset id and preset
  pub quote_price_wei : Port W (String × String) ℕ
  pub buyer_anon_id : String
  pub buyer_receiver : Option String
  pub default_license_preset : String
  -- `WIP_TOKEN_ADDRESS` of the SDK
  pub wip_token_address : String
  pub environment : Environment
