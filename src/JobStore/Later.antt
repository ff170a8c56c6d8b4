-- ===== src/JobStore/Later.antt =====
-- How the job table changes while no job is claimed: rows stay, requests to cancel stay, and no job
-- starts to run.
use yonwork_benchmark.JobStore.Create.Laws.{create_job_adds, create_plan_ok, PlanRows}
use yonwork_benchmark.JobStore.Create.{create_job, create_plan, Stamp, PlanMode, NewJob, NewPlan}
use yonwork_benchmark.Prelude.{
  ltb, ◌&&◌, suc, ap, ℕ, inr, arith, inl, ◌++◌, str_eq, false, Bool-cases, Option-cases, [], refl,
  All, ◌∷◌, some, true, List, Bool, String, ◌≡◌, ◌∙◌,
}
use yonwork_benchmark.JobStore.Queue.{
  has_changed, is_active, cancel, append_event, plan_jobs, request_cancel, cancel_each, cancel_plan,
  is_cancel_requested,
}
use yonwork_benchmark.JobStore.Table.{
  count_where, has_id, done, is_running, Db, Job, update_where, find_job,
}
use mathlib.Core.Option.{some-injective}

pub record IsLater (j k : Job) : Type 0 where
  pub same_id : k.job_id ≡ j.job_id
  pub keeps_cancel : j.cancel_requested ≡ true → k.cancel_requested ≡ true
  pub no_start : is_running k.status ≡ true → is_running j.status ≡ true

-- Row by row, and the new rows do not run.
abbrev pub IsLaterTable : List Job → List Job → Type 0
IsLaterTable [] ks = All (λ k. is_running k.status ≡ false) ks
IsLaterTable (j ∷ js) [] = ⊥
IsLaterTable (j ∷ js) (k ∷ ks) = IsLater j k × IsLaterTable js ks

pub IsLater-refl : (j : Job) → IsLater j j
IsLater-refl j = record { same_id = refl; keeps_cancel = λ h. h; no_start = λ h. h }

IsLater-trans : {i j k : Job} → IsLater i j → IsLater j k → IsLater i k
IsLater-trans a b = record {
  same_id = b.same_id ∙ a.same_id;
  keeps_cancel = λ h. b.keeps_cancel (a.keeps_cancel h);
  no_start = λ h. a.no_start (b.no_start h);
}

pub IsLaterTable-refl : (js : List Job) → IsLaterTable js js
IsLaterTable-refl [] = tt
IsLaterTable-refl (j ∷ js) = (IsLater-refl j, IsLaterTable-refl js)

pub idle-IsLaterTable :
    (js ks : List Job)
    → All (λ j. is_running j.status ≡ false) js
    → IsLaterTable js ks
    → All (λ k. is_running k.status ≡ false) ks
idle-IsLaterTable [] ks h l = l
idle-IsLaterTable (j ∷ js) [] h l = elim l [ ]
idle-IsLaterTable (j ∷ js) (k ∷ ks) h l =
    (ground (arith, h.0, l.0.no_start), idle-IsLaterTable js ks h.1 l.1)

pub IsLaterTable-trans :
    (is js ks : List Job) → IsLaterTable is js → IsLaterTable js ks → IsLaterTable is ks
IsLaterTable-trans [] js ks a b = idle-IsLaterTable js ks a b
IsLaterTable-trans (i ∷ is) [] ks a b = elim a [ ]
IsLaterTable-trans (i ∷ is) (j ∷ js) [] a b = elim b [ ]
IsLaterTable-trans (i ∷ is) (j ∷ js) (k ∷ ks) a b =
    (IsLater-trans a.0 b.0, IsLaterTable-trans is js ks a.1 b.1)

pub IsLaterTable-update_where :
    (p : Job → Bool) (f : Job → Job) (js : List Job)
    → ((j : Job) → IsLater j (f j))
    → IsLaterTable js (update_where p f js)
unfolding update_where
IsLaterTable-update_where p f [] h = tt
IsLaterTable-update_where p f (j ∷ js) h = elim (Bool-cases (p j)) [
  | inl e ↦ rw e (h j, IsLaterTable-update_where p f js h)
  | inr e ↦ rw e (IsLater-refl j, IsLaterTable-update_where p f js h)
]

pub IsLaterTable-append :
    (js rows : List Job)
    → All (λ k. is_running k.status ≡ false) rows
    → IsLaterTable js (js ++ rows)
IsLaterTable-append [] rows h = h
IsLaterTable-append (j ∷ js) rows h = (IsLater-refl j, IsLaterTable-append js rows h)

-- The row that has an id is still found, and is later than it was.
pub find_job-IsLater :
    (id : String) (js ks : List Job) (j : Job)
    → IsLaterTable js ks
    → find_job id js ≡ some j
    → (k : Job) × (find_job id ks ≡ some k) × IsLater j k
unfolding find_job
find_job-IsLater id [] ks j l h = absurd (cc (h))
find_job-IsLater id (i ∷ is) [] j l h = elim l [ ]
find_job-IsLater id (i ∷ is) (k ∷ ks) j l h = elim (Bool-cases (str_eq i.job_id id)) [
  | inl e ↦
      let same : i ≡ j = some-injective _ _ (rw e at h) in
      simp (l.0.same_id, e) (rw (← same) (k, refl, l.0))
  | inr e ↦ rw l.0.same_id (rw e (find_job-IsLater id is ks j l.1 (rw e at h)))
]

pub only-IsLaterTable :
    (id : String) (js ks : List Job)
    → IsLaterTable js ks
    → All (λ j. is_running j.status ≡ true → j.job_id ≡ id) js
    → All (λ k. is_running k.status ≡ true → k.job_id ≡ id) ks
only-IsLaterTable id [] ks l h = idle_only ks l
  where
    idle_only :
        (ks : List Job)
        → All (λ k. is_running k.status ≡ false) ks
        → All (λ k. is_running k.status ≡ true → k.job_id ≡ id) ks
    idle_only [] i = tt
    idle_only (k ∷ ks) i = (λ r. absurd (cc (r, i.0)), idle_only ks i.1)
only-IsLaterTable id (j ∷ js) [] l h = elim l [ ]
only-IsLaterTable id (j ∷ js) (k ∷ ks) l h =
    (λ r. l.0.same_id ∙ h.0 (l.0.no_start r), only-IsLaterTable id js ks l.1 h.1)

-- A request to cancel is never taken back.
pub is_cancel_requested_later :
    (id : String) (a b : Db)
    → IsLaterTable a.jobs b.jobs
    → is_cancel_requested id a ≡ true
    → is_cancel_requested id b ≡ true
unfolding is_cancel_requested
is_cancel_requested_later id a b l h = elim (Option-cases (find_job id a.jobs)) [
  | inl e ↦ absurd (cc (rw (e, is_cancel_requested) at h))
  | inr (j, e) ↦
      let (k, found, later) = find_job-IsLater id a.jobs b.jobs j l e in
      rw (found, is_cancel_requested) (later.keeps_cancel (rw (e, is_cancel_requested) at h))
]

-- Every transaction of the web server gives a later table.
pub request_cancel-IsLaterTable :
    (id : String) (now : ℕ) (db : Db) → IsLaterTable db.jobs (request_cancel id now db).1.jobs
unfolding request_cancel append_event
request_cancel-IsLaterTable id now db =
    let chosen : Job → Bool = λ j. has_id id j && is_active j in
    let after = IsLaterTable-update_where chosen (cancel now) db.jobs (cancelled now) in
    elim (Bool-cases (ltb 0 (count_where (λ (j : Job). chosen j && has_changed now j) db.jobs))) [
      | inl e ↦ rw e after
      | inr e ↦ rw e after
    ]
  where
    cancelled : (now : ℕ) (j : Job) → IsLater j (cancel now j)
    cancelled now j = record {
      same_id = refl;
      keeps_cancel = λ h. refl;
      no_start = λ h. ground arith;
    }

cancel_each-IsLaterTable :
    (js : List Job) (now : ℕ) (db : Db) → IsLaterTable db.jobs (cancel_each js now db).1.jobs
unfolding cancel_each
cancel_each-IsLaterTable [] now db = IsLaterTable-refl db.jobs
cancel_each-IsLaterTable (j ∷ js) now db =
    let db' = (request_cancel j.job_id now db).1 in
    IsLaterTable-trans db.jobs db'.jobs (cancel_each js now db').1.jobs
      (request_cancel-IsLaterTable j.job_id now db) (cancel_each-IsLaterTable js now db')

pub cancel_plan-IsLaterTable :
    (id : String) (now : ℕ) (db : Db) → IsLaterTable db.jobs (cancel_plan id now db).1.jobs
unfolding cancel_plan
cancel_plan-IsLaterTable id now db = cancel_each-IsLaterTable (plan_jobs id db) now db

pub create_job-IsLaterTable :
    (spec : NewJob) (uuid : String) (stamp : Stamp) (db db' : Db) (job : Job)
    → create_job spec uuid stamp db ≡ done (job, db')
    → IsLaterTable db.jobs db'.jobs
create_job-IsLaterTable spec uuid stamp db db' job h =
    let (row, e, queued) = create_job_adds spec uuid stamp db db' job h in
    rw e (IsLaterTable-append db.jobs (row ∷ []) (ap is_running queued, tt))

idle_of_plan :
    (plan : String) (time n : ℕ) (ms : List PlanMode) (rows : List Job)
    → PlanRows plan time n ms rows
    → All (λ k. is_running k.status ≡ false) rows
idle_of_plan plan time n ms [] h = tt
idle_of_plan plan time n [] (row ∷ rows) h = absurd h
idle_of_plan plan time n (m ∷ ms) (row ∷ rows) (a, b, c, d, queued, e, rest) =
    (ap is_running queued, idle_of_plan plan time (suc n) ms rows rest)

pub create_plan-IsLaterTable :
    (spec : NewPlan) (plan : String) (uuids : ℕ → String) (stamp : Stamp) (db db' : Db)
    → create_plan spec plan uuids stamp db ≡ done db'
    → IsLaterTable db.jobs db'.jobs
create_plan-IsLaterTable spec plan uuids stamp db db' h =
    let (nonempty, distinct, (rows, e, p), w) = create_plan_ok spec plan uuids stamp db db' h in
    rw e (IsLaterTable-append db.jobs rows (idle_of_plan plan stamp.time 0 spec.modes rows p))
