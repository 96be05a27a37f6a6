-- ===== src/Pipeline/Stages/Reaching/Early.antt =====
-- Ingesting, labelling and listing: what a result that is no failure says.
use wtr.Common.{ℕ, String, List, [], ◌∷◌, Option, none, some, refl}
use wtr.Pipeline.Types.{EventType, AssetRow}
use wtr.Pipeline.Rows.{LabelInput, ListingRow}
use wtr.Pipeline.Ports.{StageDeps}
use wtr.Pipeline.Exec.Hoare.{
  calls_rule, need_rule, reads_rule, Ensures, Keeps, bind_rule, then_rule, try_rule, if_rule,
  quiet_rules, same, weaken_rule,
}
use wtr.Pipeline.Log.Kinds.{kind_of_start}
use wtr.Pipeline.Log.Spine.{before, IsSound, Reached}
use wtr.Pipeline.Stages.Rules.{
  store_rules, patches_rule, moves_rule, labels_rule, preset_rule, listing_rule, known_asset_rule,
}
use wtr.Pipeline.Stages.Reaching.{
  Finished, returns_rule, log_rule, first_rule, aside_rule, stage_rule, sound_of, complete_of,
  fails_of, starts_at, complete_before, fails_early,
}
use wtr.Pipeline.Stages.Ingest.{ingest, ingest_steps, ingest_event, flag_duplicate, matching_digest}
use wtr.Pipeline.Stages.ListStage.{list, list_steps, list_event, existing_or_new}
use wtr.Pipeline.Stages.Label.{label, label_steps, label_event}

ruleset walk = (then_rule, if_rule, quiet_rules, store_rules)

module _ {W : Type 0} (deps : StageDeps W) where
  ingest_event_rule :
      (asset_id : String) (asset : AssetRow) (digest : String) (bytes : List ℕ)
      → Ensures IsSound
          (ingest_event deps asset_id asset digest bytes)
          (λ _. Reached asset_id [] [] EventType.ingested)
          IsSound
  unfolding ingest_event kind_of_start before
  ingest_event_rule asset_id asset digest bytes =
      first_rule asset_id EventType.ingested "ingest:" (asset_id ∷ []) _ refl refl

  flag_duplicate_rule :
      (asset_id : String) (asset : AssetRow) (digest : String)
      → Ensures
          (Reached asset_id [] [] EventType.ingested)
          (flag_duplicate deps asset_id asset digest)
          (λ _. Reached asset_id [] [] EventType.ingested)
          IsSound
  unfolding flag_duplicate kind_of_start before
  flag_duplicate_rule asset_id asset digest =
      if_rule asset.duplicate_claim_flag _ _
        (λ _.
          aside_rule [] [] EventType.ingested asset_id EventType.duplicate_claim_flagged
            "duplicate-claim:" (asset_id ∷ []) _ refl refl)
        (λ _. returns_rule tt (λ log r. r))

  matching_rule :
      (asset : AssetRow) (digest : String) → Keeps IsSound (matching_digest deps asset digest)
  unfolding matching_digest
  matching_rule asset digest = search walk

  ingest_steps_rule :
      (asset_id : String) (asset : AssetRow)
      → Ensures IsSound
          (ingest_steps deps asset_id asset)
          (Finished asset_id EventType.ingested)
          IsSound
  unfolding ingest_steps
  ingest_steps_rule asset_id asset = then_rule _ _ (calls_rule (same _) _ _) λ plaintext.
      then_rule _ _ (matching_rule asset _) λ _.
        bind_rule _ _ (ingest_event_rule asset_id asset _ plaintext) λ _.
          then_rule _ _ (flag_duplicate_rule asset_id asset _) λ _.
            then_rule _ _ (patches_rule asset_id _) λ _.
              then_rule _ _ (moves_rule asset_id _)
                λ _. returns_rule _ (complete_of asset_id [] [] EventType.ingested _)

  pub ingest_rule :
      (asset_id : String)
      → Ensures IsSound (ingest deps asset_id) (Finished asset_id EventType.ingested) IsSound
  unfolding ingest
  ingest_rule asset_id = then_rule _ _ (known_asset_rule (same _) asset_id) λ asset.
      bind_rule _ _ (log_rule asset_id) λ events.
        if_rule _ _ _
          (λ old. returns_rule _ (complete_before asset_id EventType.ingested events _ old))
          (λ _.
            weaken_rule
              (try_rule _ _ (ingest_steps_rule asset_id asset)
                (λ failure. returns_rule _ (fails_of asset_id EventType.ingested _ refl)))
              (λ log k. k.holds) (λ result log f. f) (λ log s. s))

  label_event_rule :
      (asset_id : String) (labels : List LabelInput)
      → Ensures
          (Reached asset_id [] [] EventType.ingested)
          (label_event deps asset_id labels)
          (λ _. Reached asset_id [] [] EventType.labeled)
          IsSound
  unfolding label_event kind_of_start before
  label_event_rule asset_id labels =
      stage_rule [] [] EventType.ingested asset_id EventType.labeled "label:" (asset_id ∷ []) _ refl
        refl

  label_steps_rule :
      (asset_id : String) (asset : AssetRow)
      → Ensures
          (Reached asset_id [] [] EventType.ingested)
          (label_steps deps asset_id asset)
          (Finished asset_id EventType.labeled)
          IsSound
  unfolding label_steps
  label_steps_rule asset_id asset =
      then_rule _ _ (calls_rule (sound_of asset_id [] [] EventType.ingested) _ _) λ labels.
        then_rule _ _ (labels_rule labels) λ _.
          bind_rule _ _ (label_event_rule asset_id labels) λ _.
            then_rule _ _ (moves_rule asset_id _)
              λ _. returns_rule _ (complete_of asset_id [] [] EventType.labeled _)

  pub label_rule :
      (asset_id : String)
      → Ensures IsSound (label deps asset_id) (Finished asset_id EventType.labeled) IsSound
  unfolding label
  label_rule asset_id = then_rule _ _ (known_asset_rule (same _) asset_id) λ asset.
      bind_rule _ _ (log_rule asset_id) λ events.
        if_rule _ _ _
          (λ old. returns_rule _ (complete_before asset_id EventType.labeled events _ old))
          (λ _.
            if_rule _ _ _
              (λ ready.
                weaken_rule
                  (try_rule _ _ (label_steps_rule asset_id asset)
                    (λ failure. returns_rule _ (fails_of asset_id EventType.labeled _ refl)))
                  (starts_at asset_id EventType.ingested events ready) (λ result log f. f)
                  (λ log s. s))
              (λ _. returns_rule _ (fails_early asset_id EventType.labeled events _ refl)))

  list_event_rule :
      (asset_id preset : String) (terms : ℕ) (listing : ListingRow)
      → Ensures
          (Reached asset_id [] [] EventType.cdr_vault_allocated)
          (list_event deps asset_id preset terms listing)
          (λ _. Reached asset_id [] [] EventType.listed)
          IsSound
  unfolding list_event kind_of_start before
  list_event_rule asset_id preset terms listing =
      stage_rule [] [] EventType.cdr_vault_allocated asset_id EventType.listed "list:"
        (asset_id ∷ ":" ∷ preset ∷ []) _ refl refl

  existing_rule :
      (a asset_id preset : String) (terms price : ℕ) (existing : Option ListingRow)
      → Ensures
          (Reached a [] [] EventType.cdr_vault_allocated)
          (existing_or_new deps asset_id preset terms price existing)
          (λ _. Reached a [] [] EventType.cdr_vault_allocated)
          IsSound
  unfolding existing_or_new
  existing_rule a asset_id preset terms price (some listing) = returns_rule listing (λ log r. r)
  existing_rule a asset_id preset terms price none = listing_rule _

  list_steps_rule :
      (asset_id : String) (asset : AssetRow)
      → Ensures
          (Reached asset_id [] [] EventType.cdr_vault_allocated)
          (list_steps deps asset_id asset)
          (Finished asset_id EventType.listed)
          IsSound
  unfolding list_steps
  list_steps_rule asset_id asset =
      let weaker = sound_of asset_id [] [] EventType.cdr_vault_allocated in
      then_rule _ _ (preset_rule weaker deps) λ preset.
        then_rule _ _ (need_rule weaker asset.license_terms_id _) λ terms.
          then_rule _ _ (reads_rule weaker _) λ existing.
            then_rule _ _ (calls_rule weaker _ _) λ price.
              then_rule _ _ (existing_rule asset_id asset_id preset terms price existing) λ listing.
                bind_rule _ _ (list_event_rule asset_id preset terms listing) λ _.
                  then_rule _ _ (moves_rule asset_id _)
                    λ _. returns_rule _ (complete_of asset_id [] [] EventType.listed _)

  pub list_rule :
      (asset_id : String)
      → Ensures IsSound (list deps asset_id) (Finished asset_id EventType.listed) IsSound
  unfolding list
  list_rule asset_id = then_rule _ _ (known_asset_rule (same _) asset_id) λ asset.
      bind_rule _ _ (log_rule asset_id) λ events.
        if_rule _ _ _
          (λ old. returns_rule _ (complete_before asset_id EventType.listed events _ old))
          (λ _.
            if_rule _ _ _
              (λ ready.
                weaken_rule
                  (try_rule _ _ (list_steps_rule asset_id asset)
                    (λ failure. returns_rule _ (fails_of asset_id EventType.listed _ refl)))
                  (starts_at asset_id EventType.cdr_vault_allocated events ready)
                  (λ result log f. f) (λ log s. s))
              (λ _. returns_rule _ (fails_early asset_id EventType.listed events _ refl)))
