-- ===== src/JobStore/Invariant.antt =====
-- What holds of the job table between any two transactions.
use yonwork_benchmark.JobStore.Queue.{
  has_changed, is_chosen, claim_row, request_cancel, start, cancel, finish, is_active, abandon,
}
use yonwork_benchmark.JobStore.Claim.{IsKeyed}
use yonwork_benchmark.JobStore.Table.{
  count_where, has_id, is_running, is_terminal, is_queued, Job, Db, update_where, Status,
}
use yonwork_benchmark.Prelude.{
  ◌==◌, refl, ltb, ◌&&◌, some, [], is_some, inr, inl, none, Bool-cases, false, ◌∷◌, str_eq, true,
  All, List, arith, Bool, Option, ℕ, String, ◌≡◌,
}

-- A row in its life: a queued row has not been touched, a running row has a worker and a start, and
-- exactly the rows in a final status have an end.
pub record IsSound (j : Job) : Type 0 where
  pub queued_untouched :
      is_queued j.status ≡ true
      → (j.cancel_requested ≡ false) × (j.started_at ≡ none) × (j.worker_id ≡ none)
  pub running_owned :
      is_running j.status ≡ true → (is_some j.started_at ≡ true) × (is_some j.worker_id ≡ true)
  pub finished_terminal : is_some j.finished_at ≡ is_terminal j.status

pub record IsWellFormed (db : Db) : Type 0 where
  pub keyed : IsKeyed db.jobs
  pub sound : All IsSound db.jobs

update_where-IsSound :
    (p : Job → Bool) (f : Job → Job) (js : List Job)
    → ((j : Job) → p j ≡ true → IsSound j → IsSound (f j))
    → All IsSound js
    → All IsSound (update_where p f js)
unfolding update_where
update_where-IsSound p f [] keeps h = tt
update_where-IsSound p f (j ∷ js) keeps h = elim (Bool-cases (p j)) [
  | inl e ↦ rw e (keeps j e h.0, update_where-IsSound p f js keeps h.1)
  | inr e ↦ rw e (h.0, update_where-IsSound p f js keeps h.1)
]

update_where-differs :
    (p : Job → Bool) (f : Job → Job) (id : String) (js : List Job)
    → ((j : Job) → (f j).job_id ≡ j.job_id)
    → All (λ k. str_eq k.job_id id ≡ false) js
    → All (λ k. str_eq k.job_id id ≡ false) (update_where p f js)
unfolding update_where
update_where-differs p f id [] same h = tt
update_where-differs p f id (j ∷ js) same h = elim (Bool-cases (p j)) [
  | inl e ↦ rw e (rw (same j) h.0, update_where-differs p f id js same h.1)
  | inr e ↦ rw e (h.0, update_where-differs p f id js same h.1)
]

update_where-IsKeyed :
    (p : Job → Bool) (f : Job → Job) (js : List Job)
    → ((j : Job) → (f j).job_id ≡ j.job_id)
    → IsKeyed js
    → IsKeyed (update_where p f js)
unfolding update_where
update_where-IsKeyed p f [] same h = tt
update_where-IsKeyed p f (j ∷ js) same h = elim (Bool-cases (p j)) [
  | inl e ↦ rw e (
    rw (same j) (update_where-differs p f j.job_id js same h.0),
    update_where-IsKeyed p f js same h.1,
  )
  | inr e ↦
      rw e (update_where-differs p f j.job_id js same h.0, update_where-IsKeyed p f js same h.1)
]

-- Any update that keeps ids and sound rows keeps a well-formed table.
pub update-IsWellFormed :
    (p : Job → Bool) (f : Job → Job) (db : Db)
    → ((j : Job) → (f j).job_id ≡ j.job_id)
    → ((j : Job) → p j ≡ true → IsSound j → IsSound (f j))
    → IsWellFormed db
    → IsWellFormed (record db { jobs = update_where p f db.jobs })
update-IsWellFormed p f db same keeps h = record {
  keyed = update_where-IsKeyed p f db.jobs same h.keyed;
  sound = update_where-IsSound p f db.jobs keeps h.sound;
}

pub start-IsSound :
    (worker : String) (now : ℕ) (j : Job)
    → is_queued j.status ≡ true
    → IsSound j
    → IsSound (start worker now j)
start-IsSound worker now j q h = ground arith

pub cancel-IsSound : (now : ℕ) (j : Job) → is_active j ≡ true → IsSound j → IsSound (cancel now j)
cancel-IsSound now j a h = ground arith

pub finish-IsSound :
    (status : Status) (suite path : Option String) (error : String) (now : ℕ) (j : Job)
    → is_terminal status ≡ true
    → IsSound j
    → IsSound (finish status suite path error now j)
finish-IsSound status suite path error now j t h = ground arith

pub abandon-IsSound :
    (reason : String) (now : ℕ) (j : Job) → IsSound j → IsSound (abandon reason now j)
abandon-IsSound reason now j h = ground arith

pub claim_row-IsWellFormed :
    (worker : String) (now : ℕ) (db : Db) (o : Option Job)
    → IsWellFormed db
    → IsWellFormed (claim_row worker now db o).1
unfolding claim_row
claim_row-IsWellFormed worker now db none h = h
claim_row-IsWellFormed worker now db (some job) h =
    let after =
      update-IsWellFormed (is_chosen job) (start worker now) db (λ j. refl)
        (λ j c s. start-IsSound worker now j (ground arith) s) h in
    elim (Bool-cases (count_where (is_chosen job) db.jobs == 1)) [
      | inl e ↦ rw e after
      | inr e ↦ rw e after
    ]

pub request_cancel-IsWellFormed :
    (id : String) (now : ℕ) (db : Db) → IsWellFormed db → IsWellFormed (request_cancel id now db).1
unfolding request_cancel
request_cancel-IsWellFormed id now db h =
    let chosen : Job → Bool = λ j. has_id id j && is_active j in
    let after =
      update-IsWellFormed chosen (cancel now) db (λ j. refl)
        (λ j c s. cancel-IsSound now j (ground arith) s) h in
    elim (Bool-cases (ltb 0 (count_where (λ (j : Job). chosen j && has_changed now j) db.jobs))) [
      | inl e ↦ rw e (record { keyed = after.keyed; sound = after.sound })
      | inr e ↦ rw e after
    ]
