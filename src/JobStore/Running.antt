-- ===== src/JobStore/Running.antt =====
-- Which jobs run: what a claim starts, and what `finish_job` and the recovery end.
use mathlib.Core.Option
use mathlib.Core.Option.{some-injective}
use yonwork_benchmark.Prelude.{
  Option, some, none, List, [], ◌∷◌, ℕ, String, Bool-cases, true, false, inl, inr, ◌≡◌, refl, ap,
  ◌∙◌, str_eq, eq_iff, All, arith, ◌==◌,
}
use yonwork_benchmark.JobStore.Table.{
  Db, Job, is_running, is_queued, find_job, update_where, count_where, has_id,
}
use yonwork_benchmark.JobStore.Claim.{IsKeyed, IsBest, first_where-IsBest, claim_row_best}
use yonwork_benchmark.JobStore.Queue.{
  claim_next_job, claim_row, first_where, is_claimable, is_chosen, start, abandon,
}

abbrev pub IsIdle : Db → Type 0
IsIdle db = All (λ j. is_running j.status ≡ false) db.jobs

pub update_where_only :
    (job : Job) (f : Job → Job) (js : List Job)
    → ((j : Job) → (f j).job_id ≡ j.job_id)
    → All (λ j. is_running j.status ≡ false) js
    → All
        (λ j. is_running j.status ≡ true → j.job_id ≡ job.job_id)
        (update_where (is_chosen job) f js)
unfolding update_where
update_where_only job f [] same h = tt
update_where_only job f (j ∷ js) same h = elim (Bool-cases (is_chosen job j)) [
  | inl e ↦ rw e (
    λ r. same j ∙ ground (arith, e, eq_iff j.job_id job.job_id),
    update_where_only job f js same h.1,
  )
  | inr e ↦ rw e (λ r. absurd (cc (r, h.0)), update_where_only job f js same h.1)
]

pub chosen_found :
    (job : Job) (f : Job → Job) (js : List Job)
    → ((j : Job) → (f j).job_id ≡ j.job_id)
    → (count_where (is_chosen job) js == 1) ≡ true
    → (k : Job) × (find_job job.job_id (update_where (is_chosen job) f js) ≡ some k)
unfolding find_job update_where count_where
chosen_found job f [] same h = absurd (ground arith)
chosen_found job f (j ∷ js) same h = elim (Bool-cases (str_eq j.job_id job.job_id)) [
  | inl e ↦ elim (Bool-cases (is_queued j.status)) [
    | inl q ↦ (f j, simp (e, q, same j))
    | inr q ↦ (j, simp (e, q))
  ]
  | inr e ↦ let (k, found) = chosen_found job f js same (simp e at h) in (k, simp e found)
]

-- In a table in which no job runs, a claim starts the job that it answers, and only that one.
pub claim_row_only :
    (worker : String) (now : ℕ) (db : Db) (o : Option Job)
    → IsIdle db
    → (job : Job) → (claim_row worker now db o).0 ≡ some job
    → All
        (λ j. is_running j.status ≡ true → j.job_id ≡ job.job_id)
        (claim_row worker now db o).1.jobs
      × ((k : Job) × (find_job job.job_id (claim_row worker now db o).1.jobs ≡ some k))
unfolding claim_row
claim_row_only worker now db none h job e = absurd (cc (e))
claim_row_only worker now db (some j) h job e =
    elim (Bool-cases (count_where (is_chosen j) db.jobs == 1)) [
      | inl c ↦
          let same : start worker now j ≡ job = some-injective _ _ (rw (c, claim_row) at e) in
          rw (c, claim_row)
            (rw (← same) (
              update_where_only j (start worker now) db.jobs (λ i. refl) h,
              chosen_found j (start worker now) db.jobs (λ i. refl) c,
            ))
      | inr c ↦ absurd (cc (rw (c, claim_row) at e))
    ]

-- A claim that answers nothing changes nothing, where job ids are unique.
pub claim_none :
    (worker : String) (now : ℕ) (db : Db) (o : Option Job)
    → IsKeyed db.jobs
    → IsBest is_claimable db.jobs o
    → (claim_row worker now db o).0 ≡ none
    → (claim_row worker now db o).1 ≡ db
unfolding claim_row
claim_none worker now db none k best h = refl
claim_none worker now db (some j) k best h =
    absurd (cc (claim_row_best worker now db (some j) k best, h))

pub claim_next_none :
    (worker : String) (now : ℕ) (db : Db)
    → IsKeyed db.jobs
    → IsIdle db
    → (claim_next_job worker now db).0 ≡ none
    → IsIdle (claim_next_job worker now db).1
unfolding claim_next_job
claim_next_none worker now db k idle n =
    rw
      (claim_none worker now db (first_where is_claimable db.jobs) k
        (first_where-IsBest is_claimable db.jobs) n)
      idle

pub claim_next_only :
    (worker : String) (now : ℕ) (db : Db)
    → IsIdle db
    → (job : Job) → (claim_next_job worker now db).0 ≡ some job
    → All
        (λ j. is_running j.status ≡ true → j.job_id ≡ job.job_id)
        (claim_next_job worker now db).1.jobs
      × ((k : Job) × (find_job job.job_id (claim_next_job worker now db).1.jobs ≡ some k))
unfolding claim_next_job
claim_next_only worker now db = claim_row_only worker now db (first_where is_claimable db.jobs)

pub abandoned :
    (reason : String) (now : ℕ) (js : List Job)
    → All
        (λ j. is_running j.status ≡ false)
        (update_where (λ j. is_running j.status) (abandon reason now) js)
unfolding update_where
abandoned reason now [] = tt
abandoned reason now (j ∷ js) = elim (Bool-cases (is_running j.status)) [
  | inl e ↦ rw e (refl, abandoned reason now js)
  | inr e ↦ simp e (refl, abandoned reason now js)
]

pub find_job-update_where :
    (id : String) (f : Job → Job) (js : List Job) (j : Job)
    → ((j : Job) → (f j).job_id ≡ j.job_id)
    → find_job id js ≡ some j
    → find_job id (update_where (has_id id) f js) ≡ some (f j)
unfolding find_job update_where
find_job-update_where id f [] j same h = absurd (cc (h))
find_job-update_where id f (i ∷ is) j same h = elim (Bool-cases (str_eq i.job_id id)) [
  | inl e ↦ simp (e, same i) (ap (Option.map f) (rw e at h))
  | inr e ↦ simp e (find_job-update_where id f is j same (rw e at h))
]

-- If no job but `id` runs, none runs once that row is final.
pub update_where_idle :
    (id : String) (f : Job → Job) (js : List Job)
    → ((j : Job) → is_running (f j).status ≡ false)
    → All (λ j. is_running j.status ≡ true → j.job_id ≡ id) js
    → All (λ j. is_running j.status ≡ false) (update_where (has_id id) f js)
unfolding update_where
update_where_idle id f [] ends h = tt
update_where_idle id f (j ∷ js) ends h = elim (Bool-cases (str_eq j.job_id id)) [
  | inl e ↦ rw e (ends j, update_where_idle id f js ends h.1)
  | inr e ↦ rw e (ground (arith, h.0, eq_iff j.job_id id), update_where_idle id f js ends h.1)
]
