-- ===== src/Labels/Registry/Tests.antt =====
-- Two runs for one queued job, and the theorem on them.
use wtr.Common.{length, true, false, [], ◌∷◌, none, some, ok, err, error, ◌≡◌, refl, arith}
use wtr.Common.Value.{null}
use wtr.Labels.Registry.{
  Job, JobType, Queue, queued, failed, claimable, claim, finish, run_job, Steps, nothing, claimed,
  selected, written, write_job, unfinished, Pending, enqueue_as, awaiting_model, finished,
}
use wtr.Labels.Registry.Claims.{HasDistinct, steps-HasDistinct}

abbrev vision : JobType
vision = record {
  name = "vision";
  tier = 2;
  is_configured = true;
  model_id = some "m";
  run = λ job. err (error "no image");
}

abbrev empty : Queue
empty = record { jobs = []; counter = 1 }

abbrev job : Job
job = record {
  id = 1;
  asset_id = "a";
  tier = 2;
  job_type = "vision";
  state = queued;
  spec = null;
  model_id = none;
  error_message = none;
  created_at = 5;
}

abbrev waiting : Queue
waiting = record { jobs = job ∷ []; counter = 2 }

-- A run that throws marks the job failed with the message.
run_test :
    run_job (vision ∷ []) "a" "vision" waiting
    ≡ ok (record waiting {
      jobs =
          record job { state = failed; model_id = some "m"; error_message = some "no image" } ∷ [];
    })
unfolding run_job claimable
run_test = refl

-- An unfinished job is reused, and a type without a model is parked.
enqueue_test :
    (enqueue_as 6 "a" vision null waiting ≡ (queued, waiting))
    × ((enqueue_as 6 "a" (record vision { is_configured = false }) null empty).0 ≡ awaiting_model)
unfolding enqueue_as write_job
enqueue_test = (refl, refl)

-- Two calls whose SELECTs both come before the first INSERT insert a job each.
twice_test :
    length
      (write_job 6 "a" vision null
        (unfinished "a" "vision" empty.jobs)
        (write_job 6 "a" vision null (unfinished "a" "vision" empty.jobs) empty)).jobs
    ≡ 2
unfolding write_job
twice_test = refl

claims_it : claimable "a" "vision" waiting.jobs ≡ some job
unfolding claimable
claims_it = refl

-- A second call while the first is running finds nothing to claim.
second_test : claimable "a" "vision" (claim (some "m") job waiting).jobs ≡ none
unfolding claimable
second_test = refl

-- The run is claimed between the SELECT of a call of enqueueJob and its next statement.
abbrev call : Pending
call = record { asset_id = "a"; job_type = vision; found = 1 ∷ [] }

abbrev ended : Queue
unfolding write_job
ended = finish 1 (ok tt) (write_job 6 "a" vision null (1 ∷ []) (claim (some "m") job waiting))

all-Steps : Steps waiting [] (1 ∷ []) ended
unfolding write_job
all-Steps =
    finished 1 (ok tt)
      (written [] [] call 6 null (claimed "a" vision job claims_it (selected "a" vision nothing)))

steps-HasDistinct_example : HasDistinct (1 ∷ [])
steps-HasDistinct_example = steps-HasDistinct waiting ended [] (1 ∷ []) (omega arith, tt) all-Steps
