-- ===== src/Pipeline/Stages/Reaching/Settling.antt =====
-- Settling: the sale, the payout and the settlement each take the log one event further.
use wtr.Common.{
  ℕ, String, List, [], ◌∷◌, ◌++◌, Option, none, some, Bool, true, ◌||◌, ◌==◌, Failure, includes,
  template, ◌≡◌, refl, subst, arith,
}
use wtr.Pipeline.Types.{EventType, AssetRow, AssetEvent}
use wtr.Pipeline.Rows.{AppendEventInput, ListingRow, SaleRow, has_event}
use wtr.Pipeline.Store.{append_to_log}
use wtr.Pipeline.Ports.{StageDeps}
use wtr.Pipeline.Exec.Hoare.{
  Log, Ensures, bind_rule, then_rule, attempt_rule, if_rule, same, calls_rule, need_rule,
  reads_rule, asks_rule, lift_rule, performs_rule, begins_rule, performed_rule, weaken_rule,
  throw_rule, pure_rule,
}
use wtr.Pipeline.Log.Kinds.{kind_of-template, kind_of_start}
use wtr.Pipeline.Log.Spine.{before, IsSound, Reached, Reached-already, append_to_log-Reached}
use wtr.Pipeline.Actions.{appends}
use wtr.Pipeline.Stages.Rules.{
  known_asset_rule, patches_rule, moves_rule, preset_rule, sale_rule, payout_rule, appends_rule,
}
use wtr.Pipeline.Stages.Reaching.{
  Finished, KnownLog, returns_rule, log_rule, stage_rule, sound_of, complete_of, fails_of,
  fails_early, complete_before,
}
use wtr.Pipeline.Stages.Register.{step_if}
use wtr.Pipeline.Stages.Settle.{
  settle, settle_steps, settle_fails, settle_steps_done, sale_step, payout_step, registered_trace,
  sold_asset,
}

abbrev sub_steps : List (String × EventType)
sub_steps = ("sale", EventType.sold) ∷ ("payout", EventType.payout_credited) ∷ []

found_steps :
    (a b : Bool)
    → (includes (step_if a "sale" ++ step_if b "payout") "sale" ≡ true → a ≡ true)
      × (includes (step_if a "sale" ++ step_if b "payout") "payout" ≡ true → b ≡ true)
found_steps a b = (λ h. ground arith, λ h. ground arith)

module _ {W : Type 0} (deps : StageDeps W) (asset_id : String) (already : List String) where
  abbrev At : EventType → Log → Type 0
  At t = Reached asset_id already sub_steps t

  abbrev weaker : (t : EventType) (log : Log) → At t log → IsSound log
  weaker t = sound_of asset_id already sub_steps t

  sale_step_rule :
      (ip_id : String) (terms : ℕ) (listing : Option ListingRow) (past : Option SaleRow)
      → Ensures
          (At EventType.listed)
          (sale_step deps asset_id ip_id terms listing already past)
          (λ _. At EventType.sold)
          IsSound
  unfolding sale_step kind_of_start before
  sale_step_rule ip_id terms listing past =
      let w = weaker EventType.listed in
      if_rule (includes already "sale") _ _
        (λ old.
          returns_rule _
            (λ log r. Reached-already asset_id already sub_steps _ _ log r (r.done.0 old)))
        (λ _. then_rule _ _ (calls_rule w _ _) λ fee. then_rule _ _ (calls_rule w _ _) λ minted.
          then_rule _ _ (sale_rule _) λ sale.
            bind_rule _ _
              (stage_rule already sub_steps EventType.listed asset_id EventType.sold "sale:"
                (asset_id ∷ []) _ refl refl)
              λ _.
                then_rule _ _ (moves_rule asset_id _)
                  λ _. then_rule _ _ (performs_rule _) λ _. returns_rule _ (λ log r. r))

  registered_trace_rule :
      (data_id root : Option String)
      → Ensures
          (At EventType.sold)
          (registered_trace deps data_id root)
          (λ _. At EventType.sold)
          IsSound
  registered_trace_rule (some data_id) (some root) =
      if_rule (data_id == "" || root == "") _ _ (λ _. throw_rule (weaker EventType.sold) _)
        (λ _. returns_rule _ (λ log r. r))
  registered_trace_rule none root = throw_rule (weaker EventType.sold) _
  registered_trace_rule (some data_id) none = throw_rule (weaker EventType.sold) _

  payout_event_rule :
      (input : AppendEventInput) (sale_id : String)
      → input.asset_id ≡ asset_id
      → input.idempotency_key ≡ some (template ("payout:" ∷ asset_id ∷ ":" ∷ sale_id ∷ []))
      → input.event_type ≡ EventType.payout_credited
      → Ensures {W = W}
          (At EventType.sold)
          (appends input)
          (λ _. At EventType.payout_credited)
          IsSound
  unfolding kind_of_start before
  payout_event_rule input sale_id owner key kind = appends_rule input λ log r.
      subst (λ t. Reached asset_id already sub_steps t (append_to_log input log)) kind
        (subst (λ a. Reached a already sub_steps input.event_type (append_to_log input log)) owner
          (append_to_log-Reached already sub_steps EventType.sold input
            (template ("payout:" ∷ asset_id ∷ ":" ∷ sale_id ∷ [])) log key
            (rw kind (
              kind_of-template "payout:" (template (asset_id ∷ ":" ∷ sale_id ∷ []))
                EventType.payout_credited refl))
            (rw kind refl) (rw owner r)))

  payout_step_rule :
      (asset : AssetRow) (sale : SaleRow) (events : List AssetEvent)
      → Ensures
          (At EventType.sold)
          (payout_step deps asset_id asset sale events already)
          (λ _. At EventType.payout_credited)
          IsSound
  unfolding payout_step
  payout_step_rule asset sale events =
      let w = weaker EventType.sold in
      if_rule (includes already "payout") _ _
        (λ old.
          returns_rule _
            (λ log r. Reached-already asset_id already sub_steps _ _ log r (r.done.1.0 old)))
        (λ _. then_rule _ _ (asks_rule w _) λ credited_at. then_rule _ _ (payout_rule _) λ payout.
          then_rule _ _ (reads_rule w _) λ built. then_rule _ _ (lift_rule w _) λ document.
            then_rule _ _ (registered_trace_rule asset.trace_data_id asset.trace_metadata_root)
              λ trace. then_rule _ _ (lift_rule w _) λ prev.
                then_rule _ _ (calls_rule w _ _) λ updated.
                  bind_rule _ _ (payout_event_rule _ sale.id refl refl refl)
                    λ _. then_rule _ _ (patches_rule asset_id _) λ _. performs_rule _)

  sold_asset_rule :
      (ip_id : Option String) (terms : Option ℕ)
      → Ensures
          (At EventType.listed)
          (sold_asset deps ip_id terms)
          (λ _. At EventType.listed)
          IsSound
  sold_asset_rule (some ip_id) (some terms) = pure_rule (weaker EventType.listed) _
  sold_asset_rule none terms = throw_rule (weaker EventType.listed) _
  sold_asset_rule (some ip_id) none = throw_rule (weaker EventType.listed) _

  settle_steps_rule :
      (asset : AssetRow) (events : List AssetEvent)
      → Ensures
          (At EventType.listed)
          (settle_steps deps asset_id asset events already)
          (Finished asset_id EventType.settled)
          IsSound
  unfolding settle_steps kind_of_start before
  settle_steps_rule asset events =
      let w = weaker EventType.listed in
      then_rule _ _ (sold_asset_rule asset.ip_id asset.license_terms_id) λ ids.
        then_rule _ _ (preset_rule w deps) λ preset. then_rule _ _ (reads_rule w _) λ listing.
          then_rule _ _ (reads_rule w _) λ past.
            bind_rule _ _ (sale_step_rule ids.0 ids.1 listing past) λ sold.
              then_rule _ _ (need_rule (weaker EventType.sold) sold _) λ sale.
                bind_rule _ _ (payout_step_rule asset sale events) λ _.
                  bind_rule _ _
                    (stage_rule already sub_steps EventType.payout_credited asset_id
                      EventType.settled "settle:" (asset_id ∷ []) _ refl refl)
                    λ _. then_rule _ _ (moves_rule asset_id _) λ _.
                      then_rule _ _ (performs_rule _) λ _. then_rule _ _ performed_rule λ performed.
                        returns_rule _ (complete_of asset_id already sub_steps EventType.settled _)

  settle_fails_rule :
      (failure : Failure)
      → Ensures IsSound
          (settle_fails deps asset_id already failure)
          (Finished asset_id EventType.settled)
          IsSound
  unfolding settle_fails
  settle_fails_rule failure =
      then_rule _ _ performed_rule
        λ performed. returns_rule _ (fails_of asset_id EventType.settled _ refl)

begin_at :
    (a : String) (events : List AssetEvent)
    → has_event events EventType.listed ≡ true
    → (log : Log) → KnownLog IsSound a events log
    → Reached a (settle_steps_done events) sub_steps EventType.listed log
begin_at a events listed log k =
    let found =
      found_steps (has_event events EventType.sold) (has_event events EventType.payout_credited) in
    record {
      sound = k.holds;
      there = rw (← k.known) listed;
      done = (λ h. rw (← k.known) (found.0 h), (λ h. rw (← k.known) (found.1 h), tt));
    }

module _ {W : Type 0} (deps : StageDeps W) where
  pub settle_rule :
      (asset_id : String)
      → Ensures IsSound (settle deps asset_id) (Finished asset_id EventType.settled) IsSound
  unfolding settle
  settle_rule asset_id = then_rule _ _ (known_asset_rule (same _) asset_id) λ asset.
      bind_rule _ _ (log_rule asset_id) λ events.
        if_rule _ _ _
          (λ old. returns_rule _ (complete_before asset_id EventType.settled events _ old))
          (λ _.
            if_rule _ _ _
              (λ listed.
                weaken_rule
                  (then_rule _ _ begins_rule λ _.
                    attempt_rule {F = IsSound} _ _
                      (settle_steps_rule deps asset_id (settle_steps_done events) asset events)
                      (settle_fails_rule deps asset_id (settle_steps_done events)))
                  (begin_at asset_id events listed) (λ result log f. f) (λ log s. s))
              (λ _. returns_rule _ (fails_early asset_id EventType.settled events _ refl)))
