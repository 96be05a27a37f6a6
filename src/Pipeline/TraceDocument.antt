-- ===== src/Pipeline/TraceDocument.antt =====
-- lib/pipeline/trace-document.ts: the full-state trace-v1.0 document of an asset.
-- A moment is its text by `toISOString`; `new Date(text)` and Unicode upper case are the
-- platform's, in `Environment`.
use Prim.Native.String
use text.Mathlib.Text
use wtr.Common.{
  ℕ, String, Bool, true, false, ◌&&◌, List, [], ◌∷◌, Option, none, some, Result, ok, err, error,
  template, trim, codes, length, all, find, leb, nat_eq, otherwise, or_else, decimal, ◌==◌,
  if◌then◌else◌,
}
use wtr.Common.Value.{
  Value, Items, Fields, null, bool, num, str, arr, obj, nil, item, end, field, spread, get,
  when_text, or_null, num_or_null, texts,
}
use wtr.Crypto.{Platform}
use wtr.Trace.Schema.{
  TraceDocument, Signer, to_sha256_ref, is_hex_of, media_category, attest_document,
}
use wtr.Pipeline.Types.{same_type, Moment, AssetEvent, AssetRow}
use wtr.Pipeline.Types.{EventType}
use wtr.Pipeline.Rows.{LicensePresetRow, CreatorRow, ConsentRow, SaleRow}
use wtr.Pipeline.Store.{
  Store, get_asset, get_creator, get_sale, get_payout, list_events, get_license_preset,
}

pub record Environment : Type 0 where
  pub platform : Platform
  -- `text.toUpperCase()`
  pub to_upper : String → String
  -- `new Date(text)`, where it is a valid date
  pub parse_date : String → Option Moment
  -- `TRACE_LEGAL_ENTITY()`
  pub legal_entity : String
  -- `configuredAttestationSigner()`
  pub signer : Option Signer
  -- `new Date()`, read where the log has no ingest event
  pub today : Moment

infixl 5 ◌>>=◌
abbrev pub ◌>>=◌ {ℓ κ} : {A : Type ℓ} {B : Type κ} → Result A → (A → Result B) → Result B
ok a >>= f = f a
err failure >>= f = err failure

abbrev pub is_upper : ℕ → Bool
is_upper c = leb 65 c && leb c 90

-- `/^[A-Z]{2}$/`
abbrev pub is_country : String → Bool
is_country s = nat_eq (length (codes s)) 2 && all is_upper (codes s)

unfoldable pub country_code : (String → String) → Option String → Option String
country_code to_upper none = none
country_code to_upper (some value) =
    let upper = to_upper (trim value) in
    if value == "" then none else if is_country upper then some upper else none

-- `hash64`
abbrev pub hash64 : Value → Option String
hash64 (str s) = if is_hex_of 16 s then some s else none
hash64 _ = none

frames : Items → List String
frames nil = []
frames (item v vs) = elim (hash64 v) [ none ↦ frames vs | some s ↦ s ∷ frames vs ]

abbrev keyframes : Value → Fields
unfolding frames
keyframes (arr vs) = elim (frames vs) [
  | [] ↦ end
  | s ∷ ss ↦ field "keyframe_phashes" (arr (texts (s ∷ ss))) end
]
keyframes _ = end

unfoldable pub file_hashes : Fields → Fields
unfolding keyframes is_hex_of
file_hashes labels = spread (when_text "phash64" (hash64 (get "wtr:phash64" labels))) (
    spread (when_text "dhash64" (hash64 (get "wtr:dhash64" labels))) (
      spread (when_text "ahash64" (hash64 (get "wtr:ahash64" labels)))
        (keyframes (get "wtr:keyframe_phashes" labels))))

-- `a <= b` on texts
abbrev pub at_most : String → String → Bool
at_most a b = Text.is_le (String.compare a b)

abbrev not_after : Moment → Option Moment → Option Moment
not_after uploaded none = none
not_after uploaded (some moment) = if at_most moment uploaded then some moment else none

unfoldable pub captured_at : (String → Option Moment) → Value → Moment → Option Moment
captured_at parse_date (str s) uploaded = not_after uploaded (parse_date s)
captured_at parse_date _ uploaded = none

-- `text ? toSha256Ref(text) : undefined`
abbrev optional_ref : Option String → Result (Option String)
optional_ref none = ok none
optional_ref (some s) = if s == "" then ok none else (do r ← to_sha256_ref s; ok (some r))

unfoldable pub contributor_consent : Option ConsentRow → Result Value
contributor_consent none = ok null
contributor_consent (some consent) = do
  privacy ← optional_ref consent.privacy_sha256
  tos ← to_sha256_ref consent.document_sha256
  ok (
      obj (
        field "tos_version" (str consent.document_version) (
          field "tos_hash" (str tos) (
            spread (when_text "tos_uri" consent.document_uri) (
              spread (when_text "privacy_policy_version" consent.privacy_version) (
                spread (when_text "privacy_policy_hash" privacy)
                  (when_text "privacy_policy_uri" consent.privacy_uri)))))))

abbrev contributor_geo : Option String → Fields
contributor_geo none = end
contributor_geo (some country) =
    field "kyc_country" (str country) (field "geo_region" (str country) end)

abbrev verification : Option Bool → Fields
verification none = end
verification (some true) = field "account_verification_status" (str "wallet_verified") end
verification (some false) = field "account_verification_status" (str "unverified") end

pub record Timestamps : Type 0 where
  pub originated_at : Moment
  pub captured_at : Option Moment
  pub uploaded_at : Moment
  pub payment_credited_at : Option Moment

abbrev timestamp_fields : Timestamps → Fields
timestamp_fields t = field "originated_at" (str t.originated_at) (
    spread (when_text "captured_at" t.captured_at) (
      field "uploaded_at" (str t.uploaded_at)
        (when_text "payment_credited_at" t.payment_credited_at)))

abbrev pub later_of : Moment → Option Moment → Moment
later_of a none = a
later_of a (some b) = if at_most a b then b else a

-- `latestStateAt`: the last of the sorted moments.
unfoldable pub latest_state_at : Timestamps → Moment
latest_state_at t =
    later_of (later_of (later_of t.originated_at t.captured_at) (some t.uploaded_at))
      t.payment_credited_at

-- The overrides that the stage handlers give: the preset, the moment of the payment and the
-- provider's own fields.
pub record Overrides : Type 0 where
  pub license_preset : Option String
  pub payment_credited_at : Option Moment
  pub provider_payload : Fields

-- `labels["wtr:license_preset"] as LicensePreset | undefined`
abbrev pub preset_label : Fields → Option String
preset_label labels = elim (get "wtr:license_preset" labels) [ str s ↦ some s | _ ↦ none ]

-- `{ ...first, ...second }`: a key of `second` takes its place in `first`, or comes behind.
override_field : String → Value → Fields → Fields
override_field k v end = field k v end
override_field k v (field j w fs) =
    if j == k then field k v fs else field j w (override_field k v fs)

unfoldable pub override_all : Fields → Fields → Fields
unfolding override_field
override_all fs end = fs
override_all fs (field k v more) = override_all (override_field k v fs) more

abbrev license_value : Option String → Option LicensePresetRow → Value
license_value (some preset) (some row) = obj (
    field "preset" (str preset) (
      field "license_terms_id" (str (decimal row.license_terms_id)) (
        field "terms_uri" (str row.terms_uri) (
          field "terms_sha256" (str row.terms_sha256)
            (field "ai_learning_models" (bool row.ai_learning_models) end)))))
license_value _ _ = null

abbrev scopes_value : Option ConsentRow → Value
scopes_value none = null
scopes_value (some consent) = obj consent.scopes

abbrev accepted_value : Option ConsentRow → Value
accepted_value none = null
accepted_value (some consent) = str consent.accepted_at

abbrev preset_row : Option String → Store → Option LicensePresetRow
preset_row none s = none
preset_row (some preset) s = if preset == "" then none else get_license_preset preset s

abbrev payout_of : Option SaleRow → Store → Option Moment
payout_of none s = none
payout_of (some sale) s = elim (get_payout sale.id s) [
  | none ↦ none
  | some payout ↦ payout.payment_credited_at
]

abbrev created_of : Option AssetEvent → Option Moment
created_of none = none
created_of (some e) = some e.created_at

abbrev customer : Option SaleRow → Fields
customer none = end
customer (some sale) = field "asset" (obj (field "customer_id" (str sale.buyer_anon_id) end)) end

abbrev hashes_field : Fields → Fields
hashes_field end = end
hashes_field (field k v fs) = field "hashes" (obj (field k v fs)) end

-- The moments that the document states.
unfoldable pub timestamps_of : Environment → String → Overrides → Store → Timestamps
unfolding captured_at get_sale get_payout
timestamps_of env asset_id overrides s =
    let ingested = find (λ e. same_type e.event_type EventType.ingested) (list_events asset_id s) in
    let uploaded = otherwise (created_of ingested) env.today in
    record {
      originated_at = uploaded;
      captured_at = captured_at env.parse_date (get "wtr:captured_at" s.labels) uploaded;
      uploaded_at = uploaded;
      payment_credited_at =
          or_else overrides.payment_credited_at (payout_of (get_sale asset_id s) s);
    }

abbrev provider_fields : AssetRow → Option String → Overrides → Store → Fields
provider_fields asset preset overrides s =
    override_all
      (field "asset_ref" (str asset.id) (
        field "ipfs_cid" (or_null asset.ipfs_cid) (
          field "labels" (obj s.labels) (
            field "license" (license_value preset (preset_row preset s)) (
              field "consent_scopes" (scopes_value s.consent) (
                field "consent_accepted_at" (accepted_value s.consent) (
                  field "chain"
                    (obj (
                      field "chain_id" (num 1315) (
                        field "ip_id" (or_null asset.ip_id)
                          (field "cdr_vault_uuid" (num_or_null asset.cdr_vault_uuid) end))))
                    (field "takedown" null end))))))))
      overrides.provider_payload

abbrev contributor_fields : Environment → CreatorRow → Value → Fields
contributor_fields env creator consent = field "anon_id" (str creator.anon_id) (
    field "kyc_status" (str creator.kyc_status) (
      spread (contributor_geo (country_code env.to_upper creator.kyc_country)) (
        spread (when_text "tax_status" creator.tax_status)
          (spread (verification creator.wallet_verified) (field "consent" consent end)))))

abbrev attested : Environment → Fields → Moment → TraceDocument
attested env document signed_at = elim env.signer [
  | none ↦ document
  | some signer ↦
      spread document
        (field "attestation" (obj (attest_document env.platform document signer signed_at)) end)
]

abbrev required {ℓ} : {A : Type ℓ} → Option A → List String → Result A
required none message = err (error (template message))
required (some a) message = ok a

unfoldable pub build_trace_document :
    Environment → String → Overrides → Store → Result TraceDocument
unfolding get_asset get_creator file_hashes contributor_consent timestamps_of override_all
    country_code attest_document to_sha256_ref media_category get_license_preset latest_state_at
build_trace_document env asset_id overrides s = do
  asset ← required (get_asset asset_id s) ("Unknown asset " ∷ asset_id ∷ [])
  creator ← required (get_creator asset.creator_id s) ("Unknown creator " ∷ asset.creator_id ∷ [])
  let preset = or_else overrides.license_preset (preset_label s.labels)
  let times = timestamps_of env asset_id overrides s
  content ← to_sha256_ref asset.content_sha256
  consent ← contributor_consent s.consent
  let document = field "schema_version" (str "trace-v1.0") (
      field "file"
        (obj (
          field "content_sha256" (str content) (
            field "mime_type" (str asset.media_type) (
              field "media_category" (str (media_category asset.media_type)) (
                field "size_bytes" (num_or_null asset.byte_size)
                  (hashes_field (file_hashes s.labels)))))))
        (field "contributor" (obj (contributor_fields env creator consent)) (
          spread (customer (get_sale asset_id s)) (
            field "app"
              (obj (
                field "platform_name" (str "wtr")
                  (field "legal_entity" (str env.legal_entity) end)))
              (field "timestamps" (obj (timestamp_fields times))
                (field "provider_payload" (obj (provider_fields asset preset overrides s)) end))))))
  ok (attested env document (latest_state_at times))
