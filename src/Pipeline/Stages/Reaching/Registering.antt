-- ===== src/Pipeline/Stages/Reaching/Registering.antt =====
-- Registering: each sub-step takes the log one event further, or finds its event there.
use wtr.Common.{
  ℕ, String, List, [], ◌∷◌, ◌++◌, Option, Bool, true, false, not, Failure, includes, length, nat_eq,
  decimal, ◌≡◌, refl, arith,
}
use wtr.Pipeline.Types.{EventType, AssetRow, AssetEvent}
use wtr.Pipeline.Rows.{LicensePresetRow, has_event}
use wtr.Pipeline.Ports.{StageDeps}
use wtr.Pipeline.Exec.Hoare.{
  Log, Ensures, bind_rule, then_rule, attempt_rule, if_rule, same, calls_rule, need_rule,
  reads_rule, asks_rule, lift_rule, performs_rule, enters_rule, begins_rule, performed_rule,
  sub_step_rule, weaken_rule,
}
use wtr.Pipeline.Log.Kinds.{kind_of_start}
use wtr.Pipeline.Log.Spine.{before, IsSound, Reached, Reached-already}
use wtr.Pipeline.Stages.Rules.{known_asset_rule, patches_rule, moves_rule, preset_rule, log_of_rule}
use wtr.Pipeline.Stages.Reaching.{
  Finished, KnownLog, returns_rule, log_rule, free_rule, stage_rule, sound_of, complete_of,
  fails_of, fails_early, complete_before,
}
use wtr.Pipeline.Stages.Register.{
  register, register_steps, register_fails, step_3a, step_3b, step_3c, step_3d, steps_done, step_if,
}

abbrev sub_steps : List (String × EventType)
sub_steps =
    ("3a", EventType.media_encrypted_uploaded)
    ∷ ("3b", EventType.trace_registered)
    ∷ ("3c", EventType.ip_registered)
    ∷ ("3d", EventType.cdr_vault_allocated)
    ∷ []

abbrev four : Bool → Bool → Bool → Bool → List String
four a b c d = step_if a "3a" ++ (step_if b "3b" ++ (step_if c "3c" ++ step_if d "3d"))

found_steps :
    (a b c d : Bool)
    → (includes (four a b c d) "3a" ≡ true → a ≡ true)
      × (includes (four a b c d) "3b" ≡ true → b ≡ true)
      × (includes (four a b c d) "3c" ≡ true → c ≡ true)
      × (includes (four a b c d) "3d" ≡ true → d ≡ true)
found_steps a b c d = (λ h. ground arith, λ h. ground arith, λ h. ground arith, λ h. ground arith)

four_all : (a b c d : Bool) → nat_eq (length (four a b c d)) 4 ≡ true → d ≡ true
four_all a b c d h = ground arith

module _ {W : Type 0} (deps : StageDeps W) (asset_id : String) (already : List String) where
  abbrev At : EventType → Log → Type 0
  At t = Reached asset_id already sub_steps t

  abbrev weaker : (t : EventType) (log : Log) → At t log → IsSound log
  weaker t = sound_of asset_id already sub_steps t

  step_3a_rule :
      (asset : AssetRow)
      → Ensures
          (At EventType.labeled)
          (step_3a deps asset_id asset already)
          (λ _. At EventType.media_encrypted_uploaded)
          IsSound
  unfolding step_3a kind_of_start before
  step_3a_rule asset =
      if_rule (includes already "3a") _ _
        (λ old.
          returns_rule _
            (λ log r. Reached-already asset_id already sub_steps _ _ log r (r.done.0 old)))
        (λ _. then_rule _ _ (calls_rule (weaker EventType.labeled) _ _) λ plaintext.
          then_rule _ _ (calls_rule (weaker EventType.labeled) _ _) λ upload.
            bind_rule _ _
              (stage_rule already sub_steps EventType.labeled asset_id
                EventType.media_encrypted_uploaded "3a:" (asset_id ∷ []) _ refl refl)
              λ _.
                then_rule _ _ (patches_rule asset_id _)
                  λ _. then_rule _ _ (performs_rule _) λ _. returns_rule _ (λ log r. r))

  step_3b_rule :
      (preset : String) (cid : Option String)
      → Ensures
          (At EventType.media_encrypted_uploaded)
          (step_3b deps asset_id preset cid already)
          (λ _. At EventType.trace_registered)
          IsSound
  unfolding step_3b kind_of_start before
  step_3b_rule preset cid =
      let w = weaker EventType.media_encrypted_uploaded in
      if_rule (includes already "3b") _ _
        (λ old.
          returns_rule _
            (λ log r. Reached-already asset_id already sub_steps _ _ log r (r.done.1.0 old)))
        (λ _. then_rule _ _ (reads_rule w _) λ built. then_rule _ _ (lift_rule w _) λ document.
          then_rule _ _ (asks_rule w _) λ now. then_rule _ _ (calls_rule w _ _) λ registered.
            bind_rule _ _
              (stage_rule already sub_steps EventType.media_encrypted_uploaded asset_id
                EventType.trace_registered "3b:" (asset_id ∷ []) _ refl refl)
              λ _. then_rule _ _ (patches_rule asset_id _) λ _. performs_rule _)

  step_3c_rule :
      (asset : AssetRow) (preset : String) (row : LicensePresetRow) (spg : String)
      (cid : Option String)
      → Ensures
          (At EventType.trace_registered)
          (step_3c deps asset_id asset preset row spg cid already)
          (λ _. At EventType.ip_registered)
          IsSound
  unfolding step_3c kind_of_start before
  step_3c_rule asset preset row spg cid =
      let w = weaker EventType.trace_registered in
      if_rule (includes already "3c") _ _
        (λ old.
          returns_rule _
            (λ log r. Reached-already asset_id already sub_steps _ _ log r (r.done.1.1.0 old)))
        (λ _. then_rule _ _ (reads_rule w _) λ found. then_rule _ _ (need_rule w found _) λ creator.
          then_rule _ _ (asks_rule w _) λ now. then_rule _ _ (calls_rule w _ _) λ ip_uri.
            then_rule _ _ (calls_rule w _ _) λ nft_uri.
              then_rule _ _ (calls_rule w _ _) λ registered.
                bind_rule _ _
                  (stage_rule already sub_steps EventType.trace_registered asset_id
                    EventType.ip_registered "3c:" (asset_id ∷ []) _ refl refl)
                  λ _.
                    then_rule _ _ (patches_rule asset_id _)
                      λ _. then_rule _ _ (performs_rule _) λ _. returns_rule _ (λ log r. r))

  step_3d_rule :
      (ip_id : Option String) (media : Option ℕ)
      → Ensures
          (At EventType.ip_registered)
          (step_3d deps asset_id ip_id media already)
          (λ _. At EventType.cdr_vault_allocated)
          IsSound
  unfolding step_3d kind_of_start before
  step_3d_rule ip_id media =
      let w = weaker EventType.ip_registered in
      if_rule (includes already "3d") _ _
        (λ old.
          returns_rule _
            (λ log r. Reached-already asset_id already sub_steps _ _ log r (r.done.1.1.1.0 old)))
        (λ _. then_rule _ _ (need_rule w _ _) λ ip. then_rule _ _ (need_rule w _ _) λ vault_uuid.
          then_rule _ _ (calls_rule w _ _) λ payload. then_rule _ _ (calls_rule w _ _) λ vault.
            bind_rule _ _
              (stage_rule already sub_steps EventType.ip_registered asset_id
                EventType.cdr_vault_allocated "3d:" (asset_id ∷ []) _ refl refl)
              λ _. then_rule _ _ (patches_rule asset_id _) λ _. performs_rule _)

  register_steps_rule :
      (asset : AssetRow) (preset : String)
      → Ensures
          (At EventType.labeled)
          (register_steps deps asset_id asset already preset)
          (Finished asset_id EventType.cdr_vault_allocated)
          IsSound
  unfolding register_steps
  register_steps_rule asset preset =
      let w = weaker EventType.labeled in
      then_rule _ _ (reads_rule w _) λ found. then_rule _ _ (need_rule w found _) λ row.
        then_rule _ _ (reads_rule w _) λ contract. then_rule _ _ (need_rule w contract _) λ spg.
          then_rule _ _ (enters_rule "3a") λ _. bind_rule _ _ (step_3a_rule asset) λ media.
            then_rule _ _ (enters_rule "3b") λ _. bind_rule _ _ (step_3b_rule preset media.0) λ _.
              then_rule _ _ (enters_rule "3c") λ _.
                bind_rule _ _ (step_3c_rule asset preset row spg media.0) λ ip_id.
                  then_rule _ _ (enters_rule "3d") λ _.
                    bind_rule _ _ (step_3d_rule ip_id media.1) λ _.
                      then_rule _ _ (moves_rule asset_id _) λ _.
                        then_rule _ _ performed_rule λ performed.
                          returns_rule _
                            (complete_of asset_id already sub_steps EventType.cdr_vault_allocated _)

  register_fails_rule :
      (failure : Failure)
      → Ensures IsSound
          (register_fails deps asset_id already failure)
          (Finished asset_id EventType.cdr_vault_allocated)
          IsSound
  unfolding register_fails kind_of_start before
  register_fails_rule failure = then_rule _ _ (log_of_rule (same _) asset_id) λ events.
      then_rule _ _ performed_rule λ performed. then_rule _ _ sub_step_rule λ sub_step.
        then_rule _ _
          (free_rule asset_id EventType.register_failed "register-failed:"
            (sub_step ∷ ":" ∷ decimal (length events) ∷ []) _ refl refl)
          λ _.
            then_rule _ _ (moves_rule asset_id _)
              λ _. returns_rule _ (fails_of asset_id EventType.cdr_vault_allocated _ refl)

-- Where the log is labelled, the sub-steps that were read off it are in it.
begin_at :
    (a : String) (events : List AssetEvent)
    → not (has_event events EventType.labeled) ≡ false
    → (log : Log) → KnownLog IsSound a events log
    → Reached a (steps_done events) sub_steps EventType.labeled log
begin_at a events labelled log k =
    let found =
      found_steps (has_event events EventType.media_encrypted_uploaded)
        (has_event events EventType.trace_registered) (has_event events EventType.ip_registered)
        (has_event events EventType.cdr_vault_allocated) in
    record {
      sound = k.holds;
      there = rw (← k.known) (ground arith);
      done = (
        λ h. rw (← k.known) (found.0 h),
        (
          λ h. rw (← k.known) (found.1 h),
          (λ h. rw (← k.known) (found.2 h), (λ h. rw (← k.known) (found.3 h), tt)),
        ),
      );
    }

module _ {W : Type 0} (deps : StageDeps W) where
  pub register_rule :
      (asset_id : String)
      → Ensures IsSound
          (register deps asset_id)
          (Finished asset_id EventType.cdr_vault_allocated)
          IsSound
  unfolding register
  register_rule asset_id = then_rule _ _ (known_asset_rule (same _) asset_id) λ asset.
      bind_rule _ _ (log_rule asset_id) λ events.
        if_rule _ _ _
          (λ _. returns_rule _ (fails_early asset_id EventType.cdr_vault_allocated events _ refl))
          (λ labelled.
            if_rule _ _ _
              (λ complete. then_rule _ _ (moves_rule asset_id _) λ _. returns_rule _ (
                complete_before asset_id EventType.cdr_vault_allocated events _ (
                  four_all (has_event events EventType.media_encrypted_uploaded)
                    (has_event events EventType.trace_registered)
                    (has_event events EventType.ip_registered)
                    (has_event events EventType.cdr_vault_allocated) complete)))
              (λ _.
                weaken_rule
                  (then_rule _ _
                    (preset_rule (sound_of asset_id (steps_done events) sub_steps EventType.labeled)
                      deps)
                    λ preset. then_rule _ _ begins_rule λ _.
                      attempt_rule {F = IsSound} _ _
                        (register_steps_rule deps asset_id (steps_done events) asset preset)
                        (register_fails_rule deps asset_id (steps_done events)))
                  (begin_at asset_id events labelled) (λ result log f. f) (λ log s. s)))
