-- ===== src/Pipeline/Stages/Keeps.antt =====
-- Whatever an append of a stage event keeps, the stage handlers keep, however the ports behave.
use wtr.Common.{ℕ, String, List, Option, none, some, ◌≡◌, refl, template, [], ◌∷◌, Failure}
use wtr.Common.Value.{Fields}
use wtr.Pipeline.Types.{EventType, AssetRow}
use wtr.Pipeline.Rows.{AppendEventInput, LabelInput, ListingRow, LicensePresetRow, SaleRow}
use wtr.Pipeline.Store.{append_to_log}
use wtr.Pipeline.Ports.{StageDeps}
use wtr.Pipeline.Exec.Hoare.{Log, Keeps, then_rule, try_rule, if_rule, quiet_rules}
use wtr.Pipeline.Log.Kinds.{kind_of, kind_of-template, kind_of_start, stage_keys}
use wtr.Pipeline.Actions.{keyed_event, appends}
use wtr.Pipeline.Stages.Rules.{appends_rule, store_rules}
use wtr.Pipeline.Stages.Label.{label, label_steps, label_event}
use wtr.Pipeline.Stages.ListStage.{list, list_steps, list_event, existing_or_new}
use wtr.Pipeline.Stages.Register.{
  register, register_steps, register_fails, step_3a, step_3b, step_3c, step_3d,
}
use wtr.Pipeline.Stages.Settle.{
  settle, settle_steps, settle_fails, sale_step, payout_step, registered_trace, sold_asset,
}
use wtr.Pipeline.Stages.Ingest.{ingest, ingest_steps, ingest_event, flag_duplicate, matching_digest}

ruleset walk = (then_rule, if_rule, try_rule, quiet_rules, store_rules)

-- A key that the stage handlers write for an event of the type.
abbrev pub IsStageKey : String → EventType → Type 0
IsStageKey key event_type = kind_of key ≡ some event_type

module _ {W : Type 0} (deps : StageDeps W) {J : Log → Type 0}
    (closed : (input : AppendEventInput) (key : String)
      → input.idempotency_key ≡ some key
      → IsStageKey key input.event_type
      → (log : Log) → J log
      → J (append_to_log input log)) where
  keyed_rule :
      (asset_id : String) (event_type : EventType) (start : String) (parts : List String)
      (payload : Fields)
      → kind_of_start stage_keys start ≡ some event_type
      → Keeps {W = W} J
          (appends (keyed_event asset_id event_type (template (start ∷ parts)) payload))
  keyed_rule asset_id event_type start parts payload k =
      appends_rule (keyed_event asset_id event_type (template (start ∷ parts)) payload) (
        closed _ (template (start ∷ parts)) refl
          (kind_of-template start (template parts) event_type k))

  matching_digest-Keeps :
      (asset : AssetRow) (digest : String) → Keeps J (matching_digest deps asset digest)
  unfolding matching_digest
  matching_digest-Keeps asset digest = search (if_rule, quiet_rules)

  flag_duplicate-Keeps :
      (asset_id : String) (asset : AssetRow) (digest : String)
      → Keeps J (flag_duplicate deps asset_id asset digest)
  unfolding flag_duplicate kind_of_start
  flag_duplicate-Keeps asset_id asset digest = search (
    walk,
    λ (payload : Fields).
        keyed_rule asset_id EventType.duplicate_claim_flagged "duplicate-claim:" (asset_id ∷ [])
          payload refl,
  )

  ingest_event-Keeps :
      (asset_id : String) (asset : AssetRow) (digest : String) (bytes : List ℕ)
      → Keeps J (ingest_event deps asset_id asset digest bytes)
  unfolding ingest_event kind_of_start
  ingest_event-Keeps asset_id asset digest bytes =
      keyed_rule asset_id _ "ingest:" (asset_id ∷ []) _ refl

  ingest_steps-Keeps :
      (asset_id : String) (asset : AssetRow) → Keeps J (ingest_steps deps asset_id asset)
  unfolding ingest_steps
  ingest_steps-Keeps asset_id asset =
      search (walk, matching_digest-Keeps, flag_duplicate-Keeps, ingest_event-Keeps) depth 12

  pub ingest-Keeps : (asset_id : String) → Keeps J (ingest deps asset_id)
  unfolding ingest
  ingest-Keeps asset_id = search (walk, ingest_steps-Keeps) depth 12

  label_event-Keeps :
      (asset_id : String) (labels : List LabelInput) → Keeps J (label_event deps asset_id labels)
  unfolding label_event kind_of_start
  label_event-Keeps asset_id labels = keyed_rule asset_id _ "label:" (asset_id ∷ []) _ refl

  label_steps-Keeps :
      (asset_id : String) (asset : AssetRow) → Keeps J (label_steps deps asset_id asset)
  unfolding label_steps
  label_steps-Keeps asset_id asset = search (walk, label_event-Keeps) depth 12

  pub label-Keeps : (asset_id : String) → Keeps J (label deps asset_id)
  unfolding label
  label-Keeps asset_id = search (walk, label_steps-Keeps) depth 12

  list_event-Keeps :
      (asset_id preset : String) (terms : ℕ) (listing : ListingRow)
      → Keeps J (list_event deps asset_id preset terms listing)
  unfolding list_event kind_of_start
  list_event-Keeps asset_id preset terms listing =
      keyed_rule asset_id _ "list:" (asset_id ∷ ":" ∷ preset ∷ []) _ refl

  existing-Keeps :
      (asset_id preset : String) (terms price : ℕ) (existing : Option ListingRow)
      → Keeps J (existing_or_new deps asset_id preset terms price existing)
  unfolding existing_or_new
  existing-Keeps asset_id preset terms price (some listing) = search walk
  existing-Keeps asset_id preset terms price none = search walk

  list_steps-Keeps :
      (asset_id : String) (asset : AssetRow) → Keeps J (list_steps deps asset_id asset)
  unfolding list_steps
  list_steps-Keeps asset_id asset = search (walk, list_event-Keeps, existing-Keeps) depth 12

  pub list-Keeps : (asset_id : String) → Keeps J (list deps asset_id)
  unfolding list
  list-Keeps asset_id = search (walk, list_steps-Keeps) depth 12

  step_3a-Keeps :
      (asset_id : String) (asset : AssetRow) (already : List String)
      → Keeps J (step_3a deps asset_id asset already)
  unfolding step_3a kind_of_start
  step_3a-Keeps asset_id asset already =
      search
        (
          walk,
          λ (payload : Fields).
              keyed_rule asset_id EventType.media_encrypted_uploaded "3a:" (asset_id ∷ []) payload
                refl,
        )
        depth 14

  step_3b-Keeps :
      (asset_id preset : String) (cid : Option String) (already : List String)
      → Keeps J (step_3b deps asset_id preset cid already)
  unfolding step_3b kind_of_start
  step_3b-Keeps asset_id preset cid already =
      search
        (
          walk,
          λ (payload : Fields).
              keyed_rule asset_id EventType.trace_registered "3b:" (asset_id ∷ []) payload refl,
        )
        depth 14

  step_3c-Keeps :
      (asset_id : String) (asset : AssetRow) (preset : String) (row : LicensePresetRow)
      (spg : String) (cid : Option String) (already : List String)
      → Keeps J (step_3c deps asset_id asset preset row spg cid already)
  unfolding step_3c kind_of_start
  step_3c-Keeps asset_id asset preset row spg cid already =
      search
        (
          walk,
          λ (payload : Fields).
              keyed_rule asset_id EventType.ip_registered "3c:" (asset_id ∷ []) payload refl,
        )
        depth 16

  step_3d-Keeps :
      (asset_id : String) (ip_id : Option String) (media : Option ℕ) (already : List String)
      → Keeps J (step_3d deps asset_id ip_id media already)
  unfolding step_3d kind_of_start
  step_3d-Keeps asset_id ip_id media already =
      search
        (
          walk,
          λ (payload : Fields).
              keyed_rule asset_id EventType.cdr_vault_allocated "3d:" (asset_id ∷ []) payload refl,
        )
        depth 14

  register_steps-Keeps :
      (asset_id : String) (asset : AssetRow) (already : List String) (preset : String)
      → Keeps J (register_steps deps asset_id asset already preset)
  unfolding register_steps
  register_steps-Keeps asset_id asset already preset =
      search (walk, step_3a-Keeps, step_3b-Keeps, step_3c-Keeps, step_3d-Keeps) depth 18

  register_fails-Keeps :
      (asset_id : String) (already : List String) (failure : Failure)
      → Keeps J (register_fails deps asset_id already failure)
  unfolding register_fails kind_of_start
  register_fails-Keeps asset_id already failure =
      search
        (
          walk,
          λ (parts : List String) (payload : Fields).
              keyed_rule asset_id EventType.register_failed "register-failed:" parts payload refl,
        )
        depth 14

  pub register-Keeps : (asset_id : String) → Keeps J (register deps asset_id)
  unfolding register
  register-Keeps asset_id = search (walk, register_steps-Keeps, register_fails-Keeps) depth 14

  sale_step-Keeps :
      (asset_id ip_id : String) (terms : ℕ) (listing : Option ListingRow) (already : List String)
      (before : Option SaleRow)
      → Keeps J (sale_step deps asset_id ip_id terms listing already before)
  unfolding sale_step kind_of_start
  sale_step-Keeps asset_id ip_id terms listing already before =
      search
        (
          walk,
          λ (payload : Fields).
              keyed_rule asset_id EventType.sold "sale:" (asset_id ∷ []) payload refl,
        )
        depth 14

  registered_trace-Keeps :
      (data_id root : Option String) → Keeps J (registered_trace deps data_id root)
  registered_trace-Keeps (some data_id) (some root) = search walk
  registered_trace-Keeps none root = search walk
  registered_trace-Keeps (some data_id) none = search walk

  payout_rule' :
      (input : AppendEventInput) (parts : List String)
      → input.idempotency_key ≡ some (template ("payout:" ∷ parts))
      → input.event_type ≡ EventType.payout_credited
      → Keeps {W = W} J (appends input)
  unfolding kind_of_start
  payout_rule' input parts key kind = appends_rule input (
      closed input (template ("payout:" ∷ parts)) key
        (rw kind (kind_of-template "payout:" (template parts) EventType.payout_credited refl)))

  payout_step-Keeps :
      (asset_id : String) (asset : AssetRow) (sale : SaleRow) (events : Log) (already : List String)
      → Keeps J (payout_step deps asset_id asset sale events already)
  unfolding payout_step
  payout_step-Keeps asset_id asset sale events already =
      search
        (
          walk,
          registered_trace-Keeps,
          λ (input : AppendEventInput). payout_rule' input (asset_id ∷ ":" ∷ sale.id ∷ []),
        )
        depth 18

  sold_asset-Keeps :
      (ip_id : Option String) (terms : Option ℕ) → Keeps J (sold_asset deps ip_id terms)
  sold_asset-Keeps (some ip_id) (some terms) = search walk
  sold_asset-Keeps none terms = search walk
  sold_asset-Keeps (some ip_id) none = search walk

  settle_steps-Keeps :
      (asset_id : String) (asset : AssetRow) (events : Log) (already : List String)
      → Keeps J (settle_steps deps asset_id asset events already)
  unfolding settle_steps kind_of_start
  settle_steps-Keeps asset_id asset events already =
      search
        (
          walk,
          sold_asset-Keeps,
          sale_step-Keeps,
          payout_step-Keeps,
          λ (payload : Fields).
              keyed_rule asset_id EventType.settled "settle:" (asset_id ∷ []) payload refl,
        )
        depth 18

  pub settle-Keeps : (asset_id : String) → Keeps J (settle deps asset_id)
  unfolding settle settle_fails
  settle-Keeps asset_id = search (walk, settle_steps-Keeps) depth 14
