-- ===== src/Pipeline/Stages/Settle.antt =====
-- lib/pipeline/stages/settle.ts: stage 5, the sale, the payout and the settlement.
use wtr.Common.{
  ℕ, ◌+◌, String, true, ◌||◌, List, [], ◌∷◌, ◌++◌, Option, none, some, Failure, template, decimal,
  includes, map, ◌==◌, if◌then◌else◌, error,
}
use wtr.Common.Value.{Fields, bool, str, arr, texts, end, field}
use wtr.Trace.Schema.{to_sha256_ref}
use wtr.Trace.Client.{stable_batch_id}
use wtr.Pipeline.Types.{AssetStage, EventType, AssetEvent, AssetRow, StageResult}
use wtr.Pipeline.Rows.{has_event, last_trace_seq, ListingRow, SaleRow}
use wtr.Pipeline.Store.{get_listing, get_sale, record_sale, credit_payout}
use wtr.Pipeline.TraceDocument.{build_trace_document}
use wtr.Pipeline.Ports.{StageDeps}
use wtr.Pipeline.Exec.{
  Exec, ◌>>=◌, ◌>>◌, pure, attempt, throw, calls, asks, reads, makes, lift, need, performs, begins,
  performed_so_far,
}
use wtr.Pipeline.Actions.{
  keyed_event, known_asset, log_of, appends, moves_to, patches, done, skip, fail, out_of_order,
}
use wtr.Pipeline.Stages.ListStage.{preset_in_use}
use wtr.Pipeline.Stages.Register.{step_if}

-- `alreadyDone`
abbrev pub settle_steps_done : List AssetEvent → List String
settle_steps_done events =
    step_if (has_event events EventType.sold) "sale"
    ++ step_if (has_event events EventType.payout_credited) "payout"

abbrev pub listing_id : Option ListingRow → Option String
listing_id none = none
listing_id (some listing) = some listing.id

abbrev pub listing_price : Option ListingRow → ℕ → ℕ
listing_price none fee = fee
listing_price (some listing) fee = listing.price_wei

abbrev pub listing_currency : Option ListingRow → String
listing_currency none = "0x"
listing_currency (some listing) = listing.currency_address

module _ {W : Type 0} (deps : StageDeps W) where
  -- The sale sub-step; a sale that was made before is read back.
  unfoldable pub sale_step :
      String
      → String
      → ℕ
      → Option ListingRow
      → List String
      → Option SaleRow
      → Exec W (Option SaleRow)
  sale_step asset_id ip_id terms listing already before =
      if includes already "sale" then pure before else do
        fee ← calls deps.ports.predict_minting_fee_wei (ip_id, terms)
        minted ← calls deps.ports.mint_license_tokens (record {
          ip_id = ip_id;
          license_terms_id = terms;
          amount = 1;
          max_minting_fee_wei = fee;
          receiver = deps.buyer_receiver;
        })
        sale ← makes (
            record_sale (record {
              asset_id = asset_id;
              listing_id = listing_id listing;
              buyer_anon_id = deps.buyer_anon_id;
              license_terms_id = terms;
              license_token_ids = minted.license_token_ids;
              amount_wei = listing_price listing fee;
              currency_address = listing_currency listing;
              tx_hash = some minted.tx_hash;
            }))
        appends (
            keyed_event asset_id EventType.sold (template ("sale:" ∷ asset_id ∷ [])) (
              field "sale_id" (str sale.id) (
                field "license_token_ids" (arr (texts (map decimal minted.license_token_ids))) (
                  field "minting_fee_wei" (str (decimal fee)) (
                    field "amount_wei" (str (decimal sale.amount_wei))
                      (field "tx_hash" (str minted.tx_hash) end))))))
        moves_to asset_id AssetStage.sold
        performs "sale"
        pure (some sale)

  abbrev pub mock_mark : Fields
  mock_mark = if deps.ports.trace_mock then field "trace_mock" (bool true) end else end

  -- `!asset.traceDataId || !asset.traceMetadataRoot`
  abbrev pub registered_trace : Option String → Option String → Exec W (String × String)
  registered_trace (some data_id) (some root) =
      if data_id == "" || root == ""
      then throw (error "cannot promote to Trace before stage 3b registered a data_id")
      else pure (data_id, root)
  registered_trace _ _ =
      throw (error "cannot promote to Trace before stage 3b registered a data_id")

  unfoldable pub payout_step :
      String → AssetRow → SaleRow → List AssetEvent → List String → Exec W (Unit {0})
  payout_step asset_id asset sale events already = if includes already "payout" then pure tt else do
    credited_at ← asks deps.now
    payout ← makes (
        credit_payout (record {
          sale_id = sale.id;
          creator_id = asset.creator_id;
          amount_wei = sale.amount_wei;
          currency_address = sale.currency_address;
          payment_credited_at = credited_at;
        }))
    built ← reads (
        build_trace_document deps.environment asset_id (record {
          license_preset = none;
          payment_credited_at = some credited_at;
          provider_payload = field "stage" (str "SETTLED") (field "sale_ref" (str sale.id) end);
        }))
    document ← lift built
    trace ← registered_trace asset.trace_data_id asset.trace_metadata_root
    let batch_id = stable_batch_id deps.environment.platform (
        field "action" (str "trace.payment_credited")
          (field "assetId" (str asset_id) (field "saleId" (str sale.id) end)))
    prev ← lift (to_sha256_ref trace.1)
    updated ← calls deps.ports.update_metadata (record {
      data_id = trace.0;
      document = document;
      prev_metadata_root = prev;
      update_count = asset.trace_update_count;
      occurred_at = credited_at;
      batch_id = batch_id;
    })
    appends (record {
      asset_id = asset_id;
      event_type = EventType.payout_credited;
      idempotency_key = some (template ("payout:" ∷ asset_id ∷ ":" ∷ sale.id ∷ []));
      promoted_to_trace = true;
      trace_seq = some (last_trace_seq events + 1);
      payload = field "payout_id" (str payout.id) (
          field "amount_wei" (str (decimal payout.amount_wei)) (
            field "payment_credited_at" (str credited_at) (
              field "prev_metadata_root" (str prev) (
                field "metadata_root" (str updated.0)
                  (field "batch_id" (str batch_id) mock_mark)))));
    })
    patches asset_id
        (λ row. record row { trace_metadata_root = some updated.0; trace_update_count = updated.1 })
    performs "payout"

  abbrev pub sold_asset : Option String → Option ℕ → Exec W (String × ℕ)
  sold_asset (some ip_id) (some terms) = pure (ip_id, terms)
  sold_asset _ _ = throw (error "asset is missing ipId / licenseTermsId")

  unfoldable pub settle_steps :
      String → AssetRow → List AssetEvent → List String → Exec W StageResult
  settle_steps asset_id asset events already = do
    ids ← sold_asset asset.ip_id asset.license_terms_id
    preset ← preset_in_use deps
    listing ← reads (get_listing asset_id preset)
    before ← reads (get_sale asset_id)
    sold ← sale_step asset_id ids.0 ids.1 listing already before
    sale ← need sold ("sale row missing after sale sub-step" ∷ [])
    payout_step asset_id asset sale events already
    appends (
        keyed_event asset_id EventType.settled (template ("settle:" ∷ asset_id ∷ []))
          (field "sale_id" (str sale.id) end))
    moves_to asset_id AssetStage.settled
    performs "settle"
    performed ← performed_so_far
    pure (done AssetStage.settled performed already asset_id)

  unfoldable pub settle_fails : String → List String → Failure → Exec W StageResult
  settle_fails asset_id already failure = do
    performed ← performed_so_far
    pure (
        fail
          (if includes performed "sale" || includes already "sale"
            then AssetStage.sold
            else AssetStage.listed)
          performed already asset_id failure)

  unfoldable pub settle : String → Exec W StageResult
  settle asset_id = do
    asset ← known_asset asset_id
    events ← log_of asset_id
    if has_event events EventType.settled
        then pure (skip AssetStage.settled ("sale" ∷ "payout" ∷ "settle" ∷ []) asset_id)
        else if has_event events EventType.listed
        then (do
          begins
          attempt (settle_steps asset_id asset events (settle_steps_done events))
              (settle_fails asset_id (settle_steps_done events)))
        else pure (fail AssetStage.sold [] [] asset_id (out_of_order "asset is not listed"))
