-- ===== src/Labels/Registry.antt =====
-- lib/labels/registry.ts: the registry of job types and the queue `label_job`. Every statement of
-- `enqueueJob` and `runJob` is a step of its own, since several calls may be under way at once.
pub mod Claims
mod Tests
use wtr.Common.{
  ◌++◌, ℕ, suc, ◌+◌, ◌<◌, ◌≡◌, String, Bool, true, false, not, ◌&&◌, ◌||◌, List, [], ◌∷◌, map, push,
  any, find, keep, Option, none, some, Result, ok, err, error, Failure, ◌>>=◌, ◌==◌, template,
  is_none, leb, ltb, nat_eq, length, if◌then◌else◌,
}
use wtr.Common.Value.{Value}

pub data JobState : Type 0 where
  awaiting_model queued running done failed : JobState

-- A row of `label_job`; its id, a fresh uuid in the database, is the next number here.
pub record Job : Type 0 where
  pub id : ℕ
  pub asset_id : String
  pub tier : ℕ
  pub job_type : String
  pub state : JobState
  pub spec : Value
  pub model_id : Option String
  pub error_message : Option String
  pub created_at : ℕ

pub record JobType : Type 0 where
  pub name : String
  pub tier : ℕ
  pub is_configured : Bool
  pub model_id : Option String
  pub run : Job → Result (Unit {0})

abbrev pub Registry : Type 0
Registry = List JobType

pub record Queue : Type 0 where
  pub jobs : List Job
  pub counter : ℕ

-- `getJobType`
abbrev pub get_job_type : String → Registry → Option JobType
get_job_type name registry = find (λ t. t.name == name) registry

-- `registerJobType`
unfoldable pub register_job_type : JobType → Registry → Result Registry
register_job_type t registry =
    if is_none (get_job_type t.name registry)
    then ok (push registry t)
    else err (error (template ("job type '" ∷ t.name ∷ "' is already registered" ∷ [])))

-- `requireJobType`
abbrev pub require_job_type : String → Registry → Result JobType
require_job_type name registry = elim (get_job_type name registry) [
  | none ↦ err (error (template ("unknown job type '" ∷ name ∷ "'" ∷ [])))
  | some t ↦ ok t
]

-- `unregisterJobType`
abbrev pub unregister_job_type : String → Registry → Registry
unregister_job_type name registry = keep (λ t. not (t.name == name)) registry

abbrev pub is_unfinished : JobState → Bool
is_unfinished awaiting_model = true
is_unfinished queued = true
is_unfinished running = true
is_unfinished _ = false

abbrev pub is_queued : JobState → Bool
is_queued queued = true
is_queued _ = false

abbrev pub is_awaiting : JobState → Bool
is_awaiting awaiting_model = true
is_awaiting _ = false

-- A row of an asset and a type.
abbrev pub is_for : String → String → Job → Bool
is_for asset_id name j = j.asset_id == asset_id && j.job_type == name

-- `UPDATE label_job SET .. WHERE ..`
abbrev pub update_jobs : (Job → Bool) → (Job → Job) → List Job → List Job
update_jobs test change [] = []
update_jobs test change (j ∷ jobs) = (if test j then change j else j) ∷ update_jobs test change jobs

abbrev pub promote : Job → Job
promote j = record j { state = queued }

-- The `SELECT` of `enqueueJob`: the ids of the unfinished jobs of an asset and a type.
abbrev pub unfinished : String → String → List Job → List ℕ
unfinished asset_id name jobs =
    map (λ j. j.id) (keep (λ j. is_for asset_id name j && is_unfinished j.state) jobs)

-- The state that `enqueueJob` asks for, and answers.
abbrev pub wanted : JobType → JobState
wanted t = if t.is_configured then queued else awaiting_model

-- The statement of `enqueueJob` after the `SELECT`, by the ids that this gave.
unfoldable pub write_job : ℕ → String → JobType → Value → List ℕ → Queue → Queue
write_job now asset_id t spec [] q =
    let row : Job = record {
      id = q.counter;
      asset_id = asset_id;
      tier = t.tier;
      job_type = t.name;
      state = wanted t;
      spec = spec;
      model_id = none;
      error_message = none;
      created_at = now;
    } in
    record { jobs = push q.jobs row; counter = suc q.counter }
write_job now asset_id t spec (id ∷ ids) q =
    if t.is_configured
    then record q {
      jobs = update_jobs (λ j. is_for asset_id t.name j && is_awaiting j.state) promote q.jobs;
    }
    else q

-- `enqueueJob` once the type is known, undisturbed: the two statements, and the state that it answers.
unfoldable pub enqueue_as : ℕ → String → JobType → Value → Queue → JobState × Queue
enqueue_as now asset_id t spec q =
    (wanted t, write_job now asset_id t spec (unfinished asset_id t.name q.jobs) q)

-- `enqueueJob`
unfoldable pub enqueue_job :
    ℕ → Registry → String → String → Value → Queue → Result (JobState × Queue)
enqueue_job now registry asset_id name spec q =
    require_job_type name registry >>= λ t. ok (enqueue_as now asset_id t spec q)

-- The oldest of some jobs.
abbrev oldest : List Job → Option Job
oldest [] = none
oldest (j ∷ jobs) = elim (oldest jobs) [
  | none ↦ some j
  | some k ↦ if leb j.created_at k.created_at then some j else some k
]

-- The job that the statement of `runJob` picks.
unfoldable pub claimable : String → String → List Job → Option Job
claimable asset_id name jobs = oldest (keep (λ j. is_for asset_id name j && is_queued j.state) jobs)

-- The claim: the row is running, under the model of its type.
abbrev pub claim : Option String → Job → Queue → Queue
claim model_id j q = record q {
  jobs =
      update_jobs (λ k. nat_eq k.id j.id) (λ k. record k { state = running; model_id = model_id })
        q.jobs;
}

-- `finish`
abbrev pub finish : ℕ → Result (Unit {0}) → Queue → Queue
finish id (ok u) q = record q {
  jobs =
      update_jobs (λ k. nat_eq k.id id) (λ k. record k { state = done; error_message = none })
        q.jobs;
}
finish id (err failure) q = record q {
  jobs =
      update_jobs (λ k. nat_eq k.id id)
        (λ k. record k { state = failed; error_message = some failure.message }) q.jobs;
}

-- `runJob`, undisturbed
unfoldable pub run_job : Registry → String → String → Queue → Result Queue
unfolding claimable
run_job registry asset_id name q = require_job_type name registry >>= λ t.
    ok (elim (claimable asset_id name q.jobs) [
      | none ↦ q
      | some j ↦
          finish j.id (t.run (record j { state = running; model_id = t.model_id }))
            (claim t.model_id j q)
    ])

-- The statements of the calls, in any order, with what each call knows from its earlier ones: the answer of a
-- `SELECT` that is still to be acted on, and the ids of the jobs that were claimed, the last in front. Between a
-- call's `SELECT` and its next statement, as between a claim and the end of the run, any others may stand.
pub record Pending : Type 0 where
  pub asset_id : String
  pub job_type : JobType
  pub found : List ℕ

pub data Steps (start : Queue) : List Pending → List ℕ → Queue → Type 0 where
  nothing : Steps start [] [] start
  selected :
      {calls : List Pending} {claims : List ℕ} {q : Queue} (asset_id : String) (t : JobType)
      → Steps start calls claims q
      → Steps start
          (record { asset_id = asset_id; job_type = t; found = unfinished asset_id t.name q.jobs }
            ∷ calls)
          claims
          q
  written :
      {claims : List ℕ} {q : Queue} (before after : List Pending) (call : Pending) (now : ℕ)
      (spec : Value)
      → Steps start (before ++ call ∷ after) claims q
      → Steps start
          (before ++ after)
          claims
          (write_job now call.asset_id call.job_type spec call.found q)
  claimed :
      {calls : List Pending} {claims : List ℕ} {q : Queue} (asset_id : String) (t : JobType)
      (j : Job)
      → claimable asset_id t.name q.jobs ≡ some j
      → Steps start calls claims q
      → Steps start calls (j.id ∷ claims) (claim t.model_id j q)
  finished :
      {calls : List Pending} {claims : List ℕ} {q : Queue} (id : ℕ) (outcome : Result (Unit {0}))
      → Steps start calls claims q
      → Steps start calls claims (finish id outcome q)
