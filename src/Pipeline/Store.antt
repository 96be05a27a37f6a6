-- ===== src/Pipeline/Store.antt =====
-- lib/pipeline/testing/memory-store.ts: the in-memory store that the failure-path tests drive the
-- handlers against.
use wtr.Common.{
  ℕ, ◌+◌, String, Bool, false, ◌&&◌, List, [], ◌∷◌, Option, none, some, decimal, template, length,
  push, find, find_last, keep, is_none, ◌==◌, if◌then◌else◌,
}
use wtr.Common.Value.{Value, Fields, end, field}
use wtr.Pipeline.Types.{AssetStage, Moment, AssetEvent, AssetRow}
use wtr.Pipeline.Rows.{
  AppendEventInput, LicensePresetRow, CreatorRow, ConsentRow, LabelInput, ListingRow, SaleRow,
  PayoutRow,
}

-- `MemoryAssetStore`: its fields.
pub record Store : Type 0 where
  pub events : List AssetEvent
  pub labels : Fields
  pub listings : List ListingRow
  pub sales : List SaleRow
  pub payouts : List PayoutRow
  pub asset : AssetRow
  pub creator : CreatorRow
  pub consent : Option ConsentRow
  pub presets : List LicensePresetRow
  pub spg_nft_contract : Option String
  pub counter : ℕ

unfoldable pub get_asset : String → Store → Option AssetRow
get_asset asset_id s = if s.asset.id == asset_id then some s.asset else none

unfoldable pub get_creator : String → Store → Option CreatorRow
get_creator creator_id s = if s.creator.id == creator_id then some s.creator else none

-- `Map.set`: a key that is there keeps its place.
unfoldable pub set_label : String → Value → Fields → Fields
set_label k v end = field k v end
set_label k v (field j w fs) = if j == k then field k v fs else field j w (set_label k v fs)

label_all : List LabelInput → Fields → Fields
unfolding set_label
label_all [] labels = labels
label_all (l ∷ ls) labels =
    label_all ls (set_label (template (l.namespace ∷ ":" ∷ l.key ∷ [])) l.value labels)

unfoldable pub put_labels : List LabelInput → Store → Store
unfolding label_all
put_labels ls s = record s { labels = label_all ls s.labels }

abbrev pub is_listing : String → String → ListingRow → Bool
is_listing asset_id preset l = l.asset_id == asset_id && l.license_preset == preset

unfoldable pub get_listing : String → String → Store → Option ListingRow
get_listing asset_id preset s = find (is_listing asset_id preset) s.listings

abbrev pub next_id : String → Store → String
next_id kind s = template (kind ∷ "-" ∷ decimal (s.counter + 1) ∷ [])

pub record ListingInput : Type 0 where
  pub asset_id : String
  pub license_preset : String
  pub license_terms_id : ℕ
  pub price_wei : ℕ
  pub currency_address : String

abbrev new_listing : ListingInput → Store → ListingRow
new_listing input s = record {
  id = next_id "listing" s;
  asset_id = input.asset_id;
  license_preset = input.license_preset;
  license_terms_id = input.license_terms_id;
  price_wei = input.price_wei;
  currency_address = input.currency_address;
  status = "active";
}

unfoldable pub create_listing : ListingInput → Store → ListingRow × Store
unfolding get_listing
create_listing input s = elim (get_listing input.asset_id input.license_preset s) [
  | some existing ↦ (existing, s)
  | none ↦ (
    new_listing input s,
    record s { listings = push s.listings (new_listing input s); counter = s.counter + 1 },
  )
]

pub record SaleInput : Type 0 where
  pub asset_id : String
  pub listing_id : Option String
  pub buyer_anon_id : String
  pub license_terms_id : ℕ
  pub license_token_ids : List ℕ
  pub amount_wei : ℕ
  pub currency_address : String
  pub tx_hash : Option String

abbrev pub new_sale : SaleInput → Store → SaleRow
new_sale input s = record {
  id = next_id "sale" s;
  asset_id = input.asset_id;
  listing_id = input.listing_id;
  buyer_anon_id = input.buyer_anon_id;
  license_terms_id = input.license_terms_id;
  license_token_ids = input.license_token_ids;
  amount_wei = input.amount_wei;
  currency_address = input.currency_address;
  tx_hash = input.tx_hash;
}

unfoldable pub record_sale : SaleInput → Store → SaleRow × Store
record_sale input s = (
  new_sale input s,
  record s { sales = push s.sales (new_sale input s); counter = s.counter + 1 },
)

unfoldable pub get_sale : String → Store → Option SaleRow
get_sale asset_id s = find_last (λ sale. sale.asset_id == asset_id) s.sales

pub record PayoutInput : Type 0 where
  pub sale_id : String
  pub creator_id : String
  pub amount_wei : ℕ
  pub currency_address : String
  pub payment_credited_at : Moment

abbrev pub new_payout : PayoutInput → Store → PayoutRow
new_payout input s = record {
  id = next_id "payout" s;
  sale_id = input.sale_id;
  creator_id = input.creator_id;
  amount_wei = input.amount_wei;
  currency_address = input.currency_address;
  status = "credited";
  payment_credited_at = some input.payment_credited_at;
}

unfoldable pub credit_payout : PayoutInput → Store → PayoutRow × Store
credit_payout input s = (
  new_payout input s,
  record s { payouts = push s.payouts (new_payout input s); counter = s.counter + 1 },
)

unfoldable pub get_payout : String → Store → Option PayoutRow
get_payout sale_id s = find_last (λ payout. payout.sale_id == sale_id) s.payouts

abbrev pub is_of : String → AssetEvent → Bool
is_of asset_id e = e.asset_id == asset_id

-- `listEvents`
abbrev pub list_events : String → Store → List AssetEvent
list_events asset_id s = keep (is_of asset_id) s.events

abbrev pub has_key : Option String → String → Bool
has_key none key = false
has_key (some k) key = k == key

abbrev pub is_replay : String → String → AssetEvent → Bool
is_replay asset_id key e = is_of asset_id e && has_key e.idempotency_key key

-- The epoch, at which the in-memory store dates its events.
abbrev pub epoch : Moment
epoch = "1970-01-01T00:00:00.000Z"

abbrev pub new_event : AppendEventInput → List AssetEvent → AssetEvent
new_event input events = record {
  id = length events + 1;
  asset_id = input.asset_id;
  seq = length (keep (is_of input.asset_id) events) + 1;
  event_type = input.event_type;
  payload = input.payload;
  idempotency_key = input.idempotency_key;
  promoted_to_trace = input.promoted_to_trace;
  trace_seq = input.trace_seq;
  created_at = epoch;
}

-- The event that an input replays: none without a key, and the empty key is no key.
abbrev pub replayed : AppendEventInput → List AssetEvent → Option AssetEvent
replayed input events = elim input.idempotency_key [
  | none ↦ none
  | some key ↦ if key == "" then none else find (is_replay input.asset_id key) events
]

-- `appendEvent`, on the log alone.
unfoldable pub append_to_log : AppendEventInput → List AssetEvent → List AssetEvent
append_to_log input events =
    if is_none (replayed input events) then push events (new_event input events) else events

unfoldable pub append_event : AppendEventInput → Store → Store
unfolding append_to_log
append_event input s = record s { events = append_to_log input s.events }

-- `updateAssetProjection`: the patch is the change that it makes to the row.
unfoldable pub update_asset_projection : String → (AssetRow → AssetRow) → Store → Store
update_asset_projection asset_id patch s =
    if s.asset.id == asset_id then record s { asset = patch s.asset } else s

unfoldable pub set_stage : String → AssetStage → Store → Store
set_stage asset_id stage s =
    if s.asset.id == asset_id then record s { asset = record (s.asset) { stage = stage } } else s

unfoldable pub get_license_preset : String → Store → Option LicensePresetRow
get_license_preset preset s = find_last (λ row. row.preset == preset) s.presets
