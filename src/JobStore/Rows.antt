-- ===== src/JobStore/Rows.antt =====
-- What happens to one row over any transactions: the row stays, and it moves in one direction.
use yonwork_benchmark.JobStore.Steps.{
  recover, finish_one, log, progress, total, cancel_all, cancel_job, claim, plan, here, create,
  next, Step, Reach,
}
use yonwork_benchmark.JobStore.Create.Laws.{create_job_adds, create_plan_ok}
use yonwork_benchmark.JobStore.Table.{
  is_running, done, Db, Job, Status, is_queued, is_terminal, update_where, count_where, has_id,
}
use yonwork_benchmark.JobStore.Queue.{
  claim_row, claim_next_job, first_where, is_claimable, is_chosen, start, request_cancel, cancel,
  is_active, has_changed, append_event, cancel_each, cancel_plan, plan_jobs, set_total_runs,
  set_completed_runs, finish_job, finish, fail_running_jobs, abandon,
}
use yonwork_benchmark.Prelude.{
  Option, some, none, List, [], ◌∷◌, ◌++◌, ℕ, String, Bool, Bool-cases, true, inl, inr, ◌≡◌, refl,
  ◌∙◌, arith, ◌==◌, ◌&&◌, ltb,
}

-- The row is that of the same job and plan position; it does not go back to the queue, and a request
-- to cancel stays.
pub record Continues (j k : Job) : Type 0 where
  pub same_id : k.job_id ≡ j.job_id
  pub same_batch : k.batch_id ≡ j.batch_id
  pub same_plan : (k.plan_id ≡ j.plan_id) × (k.plan_position ≡ j.plan_position)
  pub same_start : k.created_at ≡ j.created_at
  pub leaves_queue : is_queued k.status ≡ true → is_queued j.status ≡ true
  pub keeps_cancel : j.cancel_requested ≡ true → k.cancel_requested ≡ true

abbrev pub Persists : List Job → List Job → Type 0
Persists [] ks = Unit
Persists (j ∷ js) [] = ⊥
Persists (j ∷ js) (k ∷ ks) = Continues j k × Persists js ks

Continues-refl : (j : Job) → Continues j j
Continues-refl j = record {
  same_id = refl;
  same_batch = refl;
  same_plan = (refl, refl);
  same_start = refl;
  leaves_queue = λ h. h;
  keeps_cancel = λ h. h;
}

Continues-trans : {i j k : Job} → Continues i j → Continues j k → Continues i k
Continues-trans a b = record {
  same_id = b.same_id ∙ a.same_id;
  same_batch = b.same_batch ∙ a.same_batch;
  same_plan = (b.same_plan.0 ∙ a.same_plan.0, b.same_plan.1 ∙ a.same_plan.1);
  same_start = b.same_start ∙ a.same_start;
  leaves_queue = λ h. a.leaves_queue (b.leaves_queue h);
  keeps_cancel = λ h. b.keeps_cancel (a.keeps_cancel h);
}

Persists-refl : (js : List Job) → Persists js js
Persists-refl [] = tt
Persists-refl (j ∷ js) = (Continues-refl j, Persists-refl js)

Persists-trans : (is js ks : List Job) → Persists is js → Persists js ks → Persists is ks
Persists-trans [] js ks a b = tt
Persists-trans (i ∷ is) [] ks a b = elim a [ ]
Persists-trans (i ∷ is) (j ∷ js) [] a b = elim b [ ]
Persists-trans (i ∷ is) (j ∷ js) (k ∷ ks) a b =
    (Continues-trans a.0 b.0, Persists-trans is js ks a.1 b.1)

Persists-append : (js rows : List Job) → Persists js (js ++ rows)
Persists-append [] rows = tt
Persists-append (j ∷ js) rows = (Continues-refl j, Persists-append js rows)

Persists-update_where :
    (p : Job → Bool) (f : Job → Job) (js : List Job)
    → ((j : Job) → Continues j (f j))
    → Persists js (update_where p f js)
unfolding update_where
Persists-update_where p f [] h = tt
Persists-update_where p f (j ∷ js) h = elim (Bool-cases (p j)) [
  | inl e ↦ rw e (h j, Persists-update_where p f js h)
  | inr e ↦ rw e (Continues-refl j, Persists-update_where p f js h)
]

-- A change of the status to one that is not queued.
Continues-start : (worker : String) (now : ℕ) (j : Job) → Continues j (start worker now j)
Continues-start worker now j = record {
  same_id = refl;
  same_batch = refl;
  same_plan = (refl, refl);
  same_start = refl;
  leaves_queue = λ h. absurd (cc (h));
  keeps_cancel = λ h. h;
}

Continues-cancel : (now : ℕ) (j : Job) → Continues j (cancel now j)
Continues-cancel now j = record {
  same_id = refl;
  same_batch = refl;
  same_plan = (refl, refl);
  same_start = refl;
  leaves_queue = λ h. ground arith;
  keeps_cancel = λ h. refl;
}

Continues-finish :
    (status : Status) (suite path : Option String) (error : String) (now : ℕ) (j : Job)
    → is_terminal status ≡ true
    → Continues j (finish status suite path error now j)
Continues-finish status suite path error now j ends = record {
  same_id = refl;
  same_batch = refl;
  same_plan = (refl, refl);
  same_start = refl;
  leaves_queue = λ h. ground arith;
  keeps_cancel = λ h. h;
}

Continues-abandon : (reason : String) (now : ℕ) (j : Job) → Continues j (abandon reason now j)
Continues-abandon reason now j = record {
  same_id = refl;
  same_batch = refl;
  same_plan = (refl, refl);
  same_start = refl;
  leaves_queue = λ h. absurd (cc (h));
  keeps_cancel = λ h. h;
}

claim_row-Persists :
    (worker : String) (now : ℕ) (db : Db) (o : Option Job)
    → Persists db.jobs (claim_row worker now db o).1.jobs
unfolding claim_row
claim_row-Persists worker now db none = Persists-refl db.jobs
claim_row-Persists worker now db (some job) =
    let after =
      Persists-update_where (is_chosen job) (start worker now) db.jobs
        (Continues-start worker now) in
    elim (Bool-cases (count_where (is_chosen job) db.jobs == 1)) [
      | inl e ↦ rw e after
      | inr e ↦ rw e after
    ]

request_cancel-Persists :
    (id : String) (now : ℕ) (db : Db) → Persists db.jobs (request_cancel id now db).1.jobs
unfolding request_cancel append_event
request_cancel-Persists id now db =
    let chosen : Job → Bool = λ j. has_id id j && is_active j in
    let after = Persists-update_where chosen (cancel now) db.jobs (Continues-cancel now) in
    elim (Bool-cases (ltb 0 (count_where (λ (j : Job). chosen j && has_changed now j) db.jobs))) [
      | inl e ↦ rw e after
      | inr e ↦ rw e after
    ]

cancel_each-Persists :
    (js : List Job) (now : ℕ) (db : Db) → Persists db.jobs (cancel_each js now db).1.jobs
unfolding cancel_each
cancel_each-Persists [] now db = Persists-refl db.jobs
cancel_each-Persists (j ∷ js) now db =
    let db' = (request_cancel j.job_id now db).1 in
    Persists-trans db.jobs db'.jobs (cancel_each js now db').1.jobs
      (request_cancel-Persists j.job_id now db) (cancel_each-Persists js now db')

finish_job-Persists :
    (id : String) (status : Status) (suite path : Option String) (error : String) (now : ℕ)
    (db db' : Db)
    → finish_job id status suite path error now db ≡ done db'
    → Persists db.jobs db'.jobs
unfolding finish_job
finish_job-Persists id status suite path error now db db' e =
    elim (Bool-cases (is_terminal status)) [
      | inr open_status ↦ absurd (ground arith)
      | inl ends ↦
          let same : db' ≡ record db {
            jobs = update_where (has_id id) (finish status suite path error now) db.jobs;
          } =
            ground arith in
          rw same (
            Persists-update_where (has_id id) (finish status suite path error now) db.jobs
              (λ j. Continues-finish status suite path error now j ends))
    ]

Step-Persists : {a b : Db} → Step a b → Persists a.jobs b.jobs
unfolding claim_next_job cancel_plan set_total_runs set_completed_runs append_event
    fail_running_jobs
Step-Persists (create spec uuid stamp db db' job e) =
    rw (create_job_adds spec uuid stamp db db' job e).1 (Persists-append db.jobs _)
Step-Persists (plan spec id uuids stamp db db' e) =
    rw (create_plan_ok spec id uuids stamp db db' e).2.1 (Persists-append db.jobs _)
Step-Persists (claim worker now db) =
    claim_row-Persists worker now db (first_where is_claimable db.jobs)
Step-Persists (cancel_job id now db) = request_cancel-Persists id now db
Step-Persists (cancel_all id now db) = cancel_each-Persists (plan_jobs id db) now db
Step-Persists (total id n now db) =
    Persists-update_where (has_id id) (λ j. record j { total_runs = n; updated_at = now }) db.jobs
      (λ j. record {
        same_id = refl;
        same_batch = refl;
        same_plan = (refl, refl);
        same_start = refl;
        leaves_queue = λ h. h;
        keeps_cancel = λ h. h;
      })
Step-Persists (progress id n now db) =
    Persists-update_where (has_id id) (λ j. record j { completed_runs = n; updated_at = now })
      db.jobs
      (λ j. record {
        same_id = refl;
        same_batch = refl;
        same_plan = (refl, refl);
        same_start = refl;
        leaves_queue = λ h. h;
        keeps_cancel = λ h. h;
      })
Step-Persists (log id level now db) = Persists-refl db.jobs
Step-Persists (finish_one id s u p e now db db' q) = finish_job-Persists id s u p e now db db' q
Step-Persists (recover reason now db) =
    Persists-update_where (λ j. is_running j.status) (abandon reason now) db.jobs
      (Continues-abandon reason now)

-- Over any transactions, every row stays in its place with its job id, batch, plan, position and
-- time of creation; a row that has left the queue never comes back to it, and a request to cancel is
-- never taken back.
pub Reach-Persists : {a b : Db} → Reach a b → Persists a.jobs b.jobs
Reach-Persists {a} here = Persists-refl a.jobs
Reach-Persists {a} {b = z} (next {b = m} r s) =
    Persists-trans a.jobs m.jobs z.jobs (Reach-Persists r) (Step-Persists s)
