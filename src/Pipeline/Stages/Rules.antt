-- ===== src/Pipeline/Stages/Rules.antt =====
-- What the store calls of the stage handlers make of the event log.
use wtr.Common.{String, List, otherwise, ◌≡◌, refl, arith, [], ◌∷◌}
use wtr.Pipeline.Types.{AssetStage, AssetRow}
use wtr.Pipeline.Rows.{AppendEventInput, LabelInput}
use wtr.Pipeline.Store.{
  Store, append_event, append_to_log, set_stage, update_asset_projection, put_labels,
  create_listing, ListingInput, record_sale, SaleInput, credit_payout, PayoutInput, get_asset,
  list_events,
}
use wtr.Pipeline.TraceDocument.{preset_label}
use wtr.Pipeline.Ports.{StageDeps}
use wtr.Pipeline.Exec.{writes, makes}
use wtr.Pipeline.Exec.Hoare.{
  Log, Ensures, writes_rule, makes_rule, reads_rule, need_rule, bind_rule,
}
use wtr.Pipeline.Actions.{appends, moves_to, patches, known_asset, log_of}
use wtr.Pipeline.Stages.ListStage.{preset_in_use}

events-put_labels : (labels : List LabelInput) (s : Store) → (put_labels labels s).events ≡ s.events
unfolding put_labels
events-put_labels labels s = refl

events-set_stage :
    (asset_id : String) (stage : AssetStage) (s : Store)
    → (set_stage asset_id stage s).events ≡ s.events
unfolding set_stage
events-set_stage asset_id stage s = ground arith

events-patch :
    (asset_id : String) (patch : AssetRow → AssetRow) (s : Store)
    → (update_asset_projection asset_id patch s).events ≡ s.events
unfolding update_asset_projection
events-patch asset_id patch s = ground arith

pub events-create_listing :
    (input : ListingInput) (s : Store) → (create_listing input s).1.events ≡ s.events
unfolding create_listing
events-create_listing input s = ground arith

pub events-record_sale : (input : SaleInput) (s : Store) → (record_sale input s).1.events ≡ s.events
unfolding record_sale
events-record_sale input s = refl

pub events-credit_payout :
    (input : PayoutInput) (s : Store) → (credit_payout input s).1.events ≡ s.events
unfolding credit_payout
events-credit_payout input s = refl

module _ {ℓ} {W : Type 0} {P E : Log → Type ℓ} where
  pub appends_rule :
      {Q : Log → Type ℓ} (input : AppendEventInput)
      → ((log : Log) → P log → Q (append_to_log input log))
      → Ensures P (appends {W = W} input) (λ _. Q) E
  unfolding appends append_event
  appends_rule {Q} input h = writes_rule {Q = Q} (append_event input) (λ s p. h s.events p)

  pub moves_rule :
      (asset_id : String) (stage : AssetStage)
      → Ensures P (moves_to {W = W} asset_id stage) (λ _. P) E
  unfolding moves_to
  moves_rule asset_id stage =
      writes_rule {Q = P} (set_stage asset_id stage) (λ s p. rw events-set_stage p)

  pub patches_rule :
      (asset_id : String) (patch : AssetRow → AssetRow)
      → Ensures P (patches {W = W} asset_id patch) (λ _. P) E
  unfolding patches
  patches_rule asset_id patch =
      writes_rule {Q = P} (update_asset_projection asset_id patch) (λ s p. rw events-patch p)

  pub labels_rule :
      (labels : List LabelInput) → Ensures P (writes {W = W} (put_labels labels)) (λ _. P) E
  labels_rule labels = writes_rule {Q = P} (put_labels labels) (λ s p. rw events-put_labels p)

  pub listing_rule :
      (input : ListingInput) → Ensures P (makes {W = W} (create_listing input)) (λ _. P) E
  listing_rule input = makes_rule (create_listing input) (events-create_listing input)

  pub sale_rule : (input : SaleInput) → Ensures P (makes {W = W} (record_sale input)) (λ _. P) E
  sale_rule input = makes_rule (record_sale input) (events-record_sale input)

  pub payout_rule :
      (input : PayoutInput) → Ensures P (makes {W = W} (credit_payout input)) (λ _. P) E
  payout_rule input = makes_rule (credit_payout input) (events-credit_payout input)

module _ {ℓ} {W : Type 0} {P E : Log → Type ℓ} (weaker : (log : Log) → P log → E log) where
  pub known_asset_rule : (asset_id : String) → Ensures P (known_asset {W = W} asset_id) (λ _. P) E
  unfolding known_asset
  known_asset_rule asset_id =
      bind_rule {Q = λ _. P} _ _ (reads_rule weaker (get_asset asset_id))
        (λ found. need_rule weaker found ("Unknown asset " ∷ asset_id ∷ []))

  pub log_of_rule : (asset_id : String) → Ensures P (log_of {W = W} asset_id) (λ _. P) E
  unfolding log_of
  log_of_rule asset_id = reads_rule weaker (list_events asset_id)

  pub preset_rule : (deps : StageDeps W) → Ensures P (preset_in_use deps) (λ _. P) E
  unfolding preset_in_use
  preset_rule deps =
      reads_rule weaker (λ s. otherwise (preset_label s.labels) deps.default_license_preset)

pub ruleset store_rules = (
  moves_rule, patches_rule, labels_rule, listing_rule, sale_rule, payout_rule, known_asset_rule,
  log_of_rule, preset_rule,
)
