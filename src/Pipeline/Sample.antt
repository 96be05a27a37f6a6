-- ===== src/Pipeline/Sample.antt =====
-- A sample asset, its store, and ports that answer at once; registering on Story fails the first time.
use wtr.Common.{String, [], ◌∷◌, none, some, Bool, true, false, ok, err, error, codes}
use wtr.Common.Value.{end}
use wtr.Pipeline.Types.{AssetStage, AssetRow}
use wtr.Pipeline.Rows.{CreatorRow, LicensePresetRow}
use wtr.Pipeline.Store.{Store}
use wtr.Pipeline.TraceDocument.{Environment}
use wtr.Pipeline.Ports.{Port, Ports, StageDeps, IpRequest, IpAnswer}
use wtr.Pipeline.Exec.{Run}

abbrev pub digest : String
digest = "0123456789abcdef0123456789abcdef0123456789abcdef0123456789abcdef"

abbrev pub environment : Environment
environment = record {
  platform = record { encode = codes; digest_hex = λ _. digest };
  to_upper = λ s. s;
  parse_date = λ s. some s;
  legal_entity = "wtr";
  signer = none;
  today = "2026-01-01T00:00:00.000Z";
}

-- The world is whether Story is down; it is up again after the first call.
abbrev pub register_ip : Port Bool IpRequest IpAnswer
register_ip request true = (err (error "Story is down"), false)
register_ip request false = (ok (record { ip_id = "0xip"; token_id = 7; tx_hash = "0xtx" }), false)

abbrev pub always : {Request Answer : Type 0} → Answer → Port Bool Request Answer
always answer request w = (ok answer, w)

abbrev pub ports : Ports Bool
ports = record {
  read_plaintext = always (1 ∷ 2 ∷ 3 ∷ []);
  upload_encrypted =
      always
        (record { cid = "bafy"; vault_uuid = 5; allocate_tx_hash = "0xa"; write_tx_hash = "0xw" });
  trace_mock = true;
  register_data = always ("data-1", digest);
  update_metadata = always (digest, 1);
  register_ip_asset = register_ip;
  publish_document = always "ipfs://doc";
  read_owner_vault = always (9 ∷ []);
  allocate_license_vault =
      always (record { vault_uuid = 6; allocate_tx_hash = "0xa"; write_tx_hash = "0xw" });
  predict_minting_fee_wei = always 10;
  mint_license_tokens = always (record { license_token_ids = 3 ∷ []; tx_hash = "0xm" });
}

abbrev pub deps : StageDeps Bool
deps = record {
  ports = ports;
  owner = "0xowner";
  now = λ w. ("2026-01-02T00:00:00.000Z", w);
  propose_labels = always [];
  quote_price_wei = always 12;
  buyer_anon_id = "buyer-1";
  buyer_receiver = none;
  default_license_preset = "train";
  wip_token_address = "0xwip";
  environment = environment;
}

abbrev pub asset : AssetRow
asset = record {
  id = "a1";
  creator_id = "c1";
  stage = AssetStage.in_tray;
  media_type = "video/mp4";
  filename = none;
  byte_size = none;
  content_sha256 = digest;
  duplicate_claim_flag = true;
  ipfs_cid = none;
  media_vault_uuid = none;
  trace_data_id = none;
  trace_metadata_root = none;
  trace_update_count = 0;
  ip_id = none;
  spg_nft_contract = none;
  nft_token_id = none;
  license_terms_id = none;
  cdr_vault_uuid = none;
}

abbrev pub creator : CreatorRow
creator = record {
  id = "c1";
  anon_id = "anon-1";
  kyc_status = "verified";
  kyc_country = some "DE";
  tax_status = none;
  wallet_verified = some true;
}

abbrev pub preset : LicensePresetRow
preset = record {
  preset = "train";
  license_terms_id = 4;
  terms_uri = "ipfs://terms";
  terms_sha256 = digest;
  ai_learning_models = true;
}

abbrev pub store : Store
store = record {
  events = [];
  labels = end;
  listings = [];
  sales = [];
  payouts = [];
  asset = asset;
  creator = creator;
  consent = none;
  presets = preset ∷ [];
  spg_nft_contract = some "0xspg";
  counter = 0;
}

-- The state before any call.
abbrev pub fresh : Run Bool
fresh = record { store = store; world = true; performed = []; sub_step = "3a" }
