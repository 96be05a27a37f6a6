-- ===== src/Labels/Registry/Claims.antt =====
-- lib/labels/registry.ts: no job is claimed twice.
use wtr.Common.{
  ℕ, suc, ◌<◌, ◌≡◌, refl, String, Bool, true, false, ◌&&◌, List, [], ◌∷◌, ◌++◌, push, keep, All,
  All-append, IsIn, at_head, further, Option, none, some, Holds, some-Holds, none-Holds, if_Holds,
  Result, ok, err, leb, nat_eq, if◌then◌else◌, arith,
}
use wtr.Common.Value.{Value}
use wtr.Labels.Registry.{
  JobState, awaiting_model, queued, running, done, failed, Job, JobType, Queue, is_for, is_queued,
  is_awaiting, update_jobs, promote, write_job, Pending, oldest, claimable, claim, finish, Steps,
  nothing, selected, written, claimed, finished,
}

-- A job that no run was begun for.
abbrev waits : JobState → Bool
waits queued = true
waits awaiting_model = true
waits _ = false

abbrev pub HasDistinct : List ℕ → Type 0
HasDistinct [] = Unit
HasDistinct (id ∷ ids) = (IsIn id ids → ⊥) × HasDistinct ids

-- A row has an id below the counter, and waits only while it was not claimed.
record IsKnown (claims : List ℕ) (counter : ℕ) (j : Job) : Type 0 where
  below : j.id < counter
  begun : IsIn j.id claims → waits j.state ≡ false

record IsSound (claims : List ℕ) (q : Queue) : Type 0 where
  known : All (IsKnown claims q.counter) q.jobs
  issued : All (λ id. id < q.counter) claims
  distinct : HasDistinct claims

update_jobs-All :
    (P Q : Job → Type 0) (test : Job → Bool) (change : Job → Job) (jobs : List Job)
    → ((j : Job) → P j → test j ≡ true → Q (change j))
    → ((j : Job) → P j → test j ≡ false → Q j)
    → All P jobs
    → All Q (update_jobs test change jobs)
update_jobs-All P Q test change [] f g h = tt
update_jobs-All P Q test change (j ∷ jobs) f g (h, hs) =
    (front (test j) (f j h) (g j h), update_jobs-All P Q test change jobs f g hs)
  where
    front :
        (b : Bool) → (b ≡ true → Q (change j)) → (b ≡ false → Q j) → Q (if b then change j else j)
    front true f g = f refl
    front false f g = g refl

keep-tested :
    (P : Job → Type 0) (test : Job → Bool) (jobs : List Job)
    → All P jobs
    → All (λ j. P j × (test j ≡ true)) (keep test jobs)
keep-tested P test [] h = tt
keep-tested P test (j ∷ jobs) (h, hs) = front (test j) (λ e. (h, e)) (keep-tested P test jobs hs)
  where
    Q : Job → Type 0
    Q k = P k × (test k ≡ true)

    front :
        (b : Bool)
        → (b ≡ true → Q j)
        → All Q (keep test jobs)
        → All Q (if b then j ∷ keep test jobs else keep test jobs)
    front true f g = (f refl, g)
    front false f g = g

oldest-Holds : (P : Job → Type 0) (jobs : List Job) → All P jobs → Holds P (oldest jobs)
oldest-Holds P [] h = none-Holds P
oldest-Holds P (j ∷ jobs) (h, hs) = step (oldest jobs) (oldest-Holds P jobs hs)
  where
    step :
        (o : Option Job)
        → Holds P o
        → Holds P (elim o [
          | none ↦ some j
          | some k ↦ if leb j.created_at k.created_at then some j else some k
        ])
    step none g = some-Holds P j h
    step (some k) g =
        if_Holds P (leb j.created_at k.created_at) _ _ (λ _. some-Holds P j h)
          (λ _. some-Holds P k (g.holds k refl))

-- The claimed row is a known one that is queued.
claimable-IsKnown :
    (claims : List ℕ) (q : Queue) (asset_id name : String) (j : Job)
    → All (IsKnown claims q.counter) q.jobs
    → claimable asset_id name q.jobs ≡ some j
    → IsKnown claims q.counter j × ((is_for asset_id name j && is_queued j.state) ≡ true)
unfolding claimable
claimable-IsKnown claims q asset_id name j h e =
    (oldest-Holds _ (keep (λ j. is_for asset_id name j && is_queued j.state) q.jobs) (
        keep-tested (IsKnown claims q.counter) (λ j. is_for asset_id name j && is_queued j.state)
          q.jobs h)).holds
      j e

queued_waits : (s : JobState) (b : Bool) → (b && is_queued s) ≡ true → waits s ≡ true
queued_waits queued b e = refl
queued_waits awaiting_model b e = refl
queued_waits running b e = absurd (ground arith)
queued_waits done b e = absurd (ground arith)
queued_waits failed b e = absurd (ground arith)

awaiting_waits : (s : JobState) (b : Bool) → (b && is_awaiting s) ≡ true → waits s ≡ true
awaiting_waits queued b e = refl
awaiting_waits awaiting_model b e = refl
awaiting_waits running b e = absurd (ground arith)
awaiting_waits done b e = absurd (ground arith)
awaiting_waits failed b e = absurd (ground arith)

not_claimed :
    (claims : List ℕ) (counter : ℕ) (j : Job)
    → IsKnown claims counter j
    → waits j.state ≡ true
    → IsIn j.id claims
    → ⊥
not_claimed claims counter j k w m = let began = k.begun m in cc

claim-IsSound :
    (claims : List ℕ) (q : Queue) (asset_id : String) (t : JobType) (j : Job)
    → claimable asset_id t.name q.jobs ≡ some j
    → IsSound claims q
    → IsSound (j.id ∷ claims) (claim t.model_id j q)
claim-IsSound claims q asset_id t j e s =
    let (known, hit) = claimable-IsKnown claims q asset_id t.name j s.known e in
    record {
      known =
          update_jobs-All (IsKnown claims q.counter) (IsKnown (j.id ∷ claims) q.counter) _ _ q.jobs
            (λ k h _. record { below = h.below; begun = λ _. refl })
            (λ k h other. record { below = h.below; begun = λ m. elsewhere k h other m }) s.known;
      issued = (known.below, s.issued);
      distinct = (not_claimed claims q.counter j known (queued_waits j.state _ hit), s.distinct);
    }
  where
    elsewhere :
        (k : Job)
        → IsKnown claims q.counter k
        → nat_eq k.id j.id ≡ false
        → IsIn k.id (j.id ∷ claims)
        → waits k.state ≡ false
    elsewhere k h other (at_head same) = absurd (ground arith)
    elsewhere k h other (further m) = h.begun m

finish-IsSound :
    (claims : List ℕ) (q : Queue) (id : ℕ) (outcome : Result (Unit {0}))
    → IsSound claims q
    → IsSound claims (finish id outcome q)
finish-IsSound claims q id (ok u) s = record {
  known =
      update_jobs-All (IsKnown claims q.counter) (IsKnown claims q.counter) _ _ q.jobs
        (λ k h _. record { below = h.below; begun = λ _. refl }) (λ k h _. h) s.known;
  issued = s.issued;
  distinct = s.distinct;
}
finish-IsSound claims q id (err failure) s = record {
  known =
      update_jobs-All (IsKnown claims q.counter) (IsKnown claims q.counter) _ _ q.jobs
        (λ k h _. record { below = h.below; begun = λ _. refl }) (λ k h _. h) s.known;
  issued = s.issued;
  distinct = s.distinct;
}

issued_below : (claims : List ℕ) (n id : ℕ) → All (λ id. id < n) claims → IsIn id claims → id < n
issued_below [] n id h m = elim m [ ]
issued_below (c ∷ claims) n id (h, hs) (at_head same) = omega (arith, same)
issued_below (c ∷ claims) n id (h, hs) (further m) = issued_below claims n id hs m

issued_later : (claims : List ℕ) (n : ℕ) → All (λ id. id < n) claims → All (λ id. id < suc n) claims
issued_later [] n h = tt
issued_later (c ∷ claims) n (h, hs) = (omega arith, issued_later claims n hs)

IsKnown-later :
    (claims : List ℕ) (n : ℕ) (jobs : List Job)
    → All (IsKnown claims n) jobs
    → All (IsKnown claims (suc n)) jobs
IsKnown-later claims n [] h = tt
IsKnown-later claims n (j ∷ jobs) (h, hs) =
    (record { below = omega (arith, h.below); begun = h.begun }, IsKnown-later claims n jobs hs)

insert-IsSound :
    (claims : List ℕ) (q : Queue) (row : Job)
    → row.id ≡ q.counter
    → IsSound claims q
    → IsSound claims (record { jobs = push q.jobs row; counter = suc q.counter })
insert-IsSound claims q row e s = record {
  known =
      All-append (IsKnown claims (suc q.counter)) q.jobs (row ∷ [])
        (IsKnown-later claims q.counter q.jobs s.known)
        (
          record {
            below = omega (arith, e);
            begun = λ m. absurd (omega (arith, e, issued_below claims q.counter row.id s.issued m));
          },
          tt,
        );
  issued = issued_later claims q.counter s.issued;
  distinct = s.distinct;
}

promote-IsSound :
    (claims : List ℕ) (q : Queue) (asset_id name : String)
    → IsSound claims q
    → IsSound claims (record q {
      jobs = update_jobs (λ j. is_for asset_id name j && is_awaiting j.state) promote q.jobs;
    })
promote-IsSound claims q asset_id name s = record {
  known =
      update_jobs-All (IsKnown claims q.counter) (IsKnown claims q.counter) _ _ q.jobs
        (λ k h hit. record {
          below = h.below;
          begun = λ m. absurd (not_claimed claims q.counter k h (awaiting_waits k.state _ hit) m);
        })
        (λ k h _. h) s.known;
  issued = s.issued;
  distinct = s.distinct;
}

write_job-IsSound :
    (claims : List ℕ) (q : Queue) (now : ℕ) (asset_id : String) (t : JobType) (spec : Value)
    (found : List ℕ)
    → IsSound claims q
    → IsSound claims (write_job now asset_id t spec found q)
unfolding write_job
write_job-IsSound claims q now asset_id t spec [] s = insert-IsSound claims q _ refl s
write_job-IsSound claims q now asset_id t spec (id ∷ ids) s = chosen t.is_configured
  where
    promoted : Queue
    promoted = record q {
      jobs = update_jobs (λ j. is_for asset_id t.name j && is_awaiting j.state) promote q.jobs;
    }

    chosen : (configured : Bool) → IsSound claims (if configured then promoted else q)
    chosen true = promote-IsSound claims q asset_id t.name s
    chosen false = s

Steps-IsSound :
    (from : Queue)
    → IsSound [] from
    → (calls : List Pending) (claims : List ℕ) (q : Queue) → Steps from calls claims q
    → IsSound claims q
Steps-IsSound from s _ _ _ nothing = s
Steps-IsSound from s _ claims q (selected {calls} asset_id t before) =
    Steps-IsSound from s calls claims q before
Steps-IsSound from s _ claims _ (written {q = q} before after call now spec earlier) =
    write_job-IsSound claims q now call.asset_id call.job_type spec call.found
      (Steps-IsSound from s (before ++ call ∷ after) claims q earlier)
Steps-IsSound from s calls _ _ (claimed {claims = claims} {q} asset_id t j e before) =
    claim-IsSound claims q asset_id t j e (Steps-IsSound from s calls claims q before)
Steps-IsSound from s calls claims _ (finished {q = q} id outcome before) =
    finish-IsSound claims q id outcome (Steps-IsSound from s calls claims q before)

nothing_claimed : (q : Queue) → All (λ j. j.id < q.counter) q.jobs → IsSound [] q
nothing_claimed q h = record { known = known q.jobs h; issued = tt; distinct = tt }
  where
    known : (jobs : List Job) → All (λ j. j.id < q.counter) jobs → All (IsKnown [] q.counter) jobs
    known [] h = tt
    known (j ∷ jobs) (h, hs) = (record { below = h; begun = λ m. elim m [ ] }, known jobs hs)

-- From a queue whose ids are below the next one, however the statements of any number of calls of enqueueJob
-- and runJob interleave, those of one call after its SELECT included, no job is claimed by two runs.
pub steps-HasDistinct :
    (from q : Queue) (calls : List Pending) (claims : List ℕ)
    → All (λ j. j.id < from.counter) from.jobs
    → Steps from calls claims q
    → HasDistinct claims
steps-HasDistinct from q calls claims h steps =
    (Steps-IsSound from (nothing_claimed from h) calls claims q steps).distinct
