-- ===== src/Pipeline/Stages/ListStage.antt =====
-- lib/pipeline/stages/list.ts: stage 4.
use wtr.Common.{ℕ, String, [], ◌∷◌, Option, none, some, template, decimal, otherwise, if◌then◌else◌}
use wtr.Common.Value.{str, end, field}
use wtr.Pipeline.Types.{AssetStage, EventType, AssetRow, StageResult}
use wtr.Pipeline.Rows.{has_event, ListingRow}
use wtr.Pipeline.Store.{get_listing, create_listing}
use wtr.Pipeline.TraceDocument.{preset_label}
use wtr.Pipeline.Ports.{StageDeps}
use wtr.Pipeline.Exec.{Exec, ◌>>=◌, ◌>>◌, pure, attempt, calls, reads, makes, need}
use wtr.Pipeline.Actions.{
  keyed_event, known_asset, log_of, appends, moves_to, done, skip, fail, out_of_order,
}

module _ {W : Type 0} (deps : StageDeps W) where
  -- The preset of the label, or the default.
  unfoldable pub preset_in_use : Exec W String
  preset_in_use = reads (λ s. otherwise (preset_label s.labels) deps.default_license_preset)

  unfoldable pub existing_or_new : String → String → ℕ → ℕ → Option ListingRow → Exec W ListingRow
  existing_or_new asset_id preset terms price (some listing) = pure listing
  existing_or_new asset_id preset terms price none = makes (
      create_listing (record {
        asset_id = asset_id;
        license_preset = preset;
        license_terms_id = terms;
        price_wei = price;
        currency_address = deps.wip_token_address;
      }))

  unfoldable pub list_event : String → String → ℕ → ListingRow → Exec W (Unit {0})
  list_event asset_id preset terms listing = appends (
      keyed_event asset_id EventType.listed (template ("list:" ∷ asset_id ∷ ":" ∷ preset ∷ [])) (
        field "listing_id" (str listing.id) (
          field "license_preset" (str preset) (
            field "license_terms_id" (str (decimal terms)) (
              field "price_wei" (str (decimal listing.price_wei))
                (field "currency" (str listing.currency_address) end))))))

  unfoldable pub list_steps : String → AssetRow → Exec W StageResult
  list_steps asset_id asset = do
    preset ← preset_in_use
    terms ←
        need asset.license_terms_id ("asset has no licenseTermsId — stage 3c did not complete" ∷ [])
    existing ← reads (get_listing asset_id preset)
    price ← calls deps.quote_price_wei (asset_id, preset)
    listing ← existing_or_new asset_id preset terms price existing
    list_event asset_id preset terms listing
    moves_to asset_id AssetStage.listed
    pure (done AssetStage.listed ("list" ∷ []) [] asset_id)

  unfoldable pub list : String → Exec W StageResult
  list asset_id = do
    asset ← known_asset asset_id
    events ← log_of asset_id
    if has_event events EventType.listed
        then pure (skip AssetStage.listed ("list" ∷ []) asset_id)
        else if has_event events EventType.cdr_vault_allocated
        then attempt (list_steps asset_id asset)
            (λ failure. pure (fail AssetStage.listed [] [] asset_id failure))
        else pure (
            fail AssetStage.listed [] [] asset_id
              (out_of_order "asset is not fully registered (stage 3d missing)"))
