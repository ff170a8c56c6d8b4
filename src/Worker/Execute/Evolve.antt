-- ===== src/Worker/Execute/Evolve.antt =====
-- What a job that runs does to the tables before its end: no row goes away, no request to cancel
-- and no signal to stop is forgotten, and no other job starts.
use yonwork_benchmark.Prelude.{List, [], ◌∷◌, ℕ, String, true, ◌≡◌, refl}
use yonwork_benchmark.JobStore.Later.{
  IsLaterTable, IsLaterTable-refl, IsLaterTable-trans, IsLaterTable-update_where,
  request_cancel-IsLaterTable, cancel_plan-IsLaterTable, create_job-IsLaterTable,
  create_plan-IsLaterTable,
}
use yonwork_benchmark.JobStore.Invariant.{IsWellFormed, request_cancel-IsWellFormed}
use yonwork_benchmark.JobStore.Steps.{cancel_plan-IsWellFormed}
use yonwork_benchmark.JobStore.Create.Laws.{create_job-IsWellFormed, create_plan_ok}
use yonwork_benchmark.JobStore.Table.{Db, Job, Attempt, done, refused}
use yonwork_benchmark.JobStore.Create.{create_job, create_plan}
use yonwork_benchmark.JobStore.Queue.{set_total_runs, set_completed_runs}
use yonwork_benchmark.Worker.World.{
  World, Site, Effect, value, raised, Request, serve, serve_all, settle,
}
use yonwork_benchmark.Worker.Execute.{Stage, continue, ◌>>=◌}

pub record IsLaterWorld {E : Type 0} (v w : World E) : Type 0 where
  pub jobs : IsLaterTable v.db.jobs w.db.jobs
  pub stays : v.stopping ≡ true → w.stopping ≡ true
  pub well : IsWellFormed v.db → IsWellFormed w.db

pub later_same : {E : Type 0} (w : World E) → IsLaterWorld w w
later_same w = record { jobs = IsLaterTable-refl w.db.jobs; stays = λ h. h; well = λ h. h }

pub later_trans :
    {E : Type 0} (u v w : World E) → IsLaterWorld u v → IsLaterWorld v w → IsLaterWorld u w
later_trans u v w a b = record {
  jobs = IsLaterTable-trans u.db.jobs v.db.jobs w.db.jobs a.jobs b.jobs;
  stays = λ h. b.stays (a.stays h);
  well = λ h. b.well (a.well h);
}

serve-IsLaterTable : (r : Request) (db : Db) → IsLaterTable db.jobs (serve r db).jobs
unfolding serve
serve-IsLaterTable (Request.submit spec uuid stamp) db = from (create_job spec uuid stamp db) refl
  where
    from :
        (a : Attempt (Job × Db))
        → create_job spec uuid stamp db ≡ a
        → IsLaterTable db.jobs (elim a as (λ x. Db) [ done made ↦ made.1 | refused e ↦ db ]).jobs
    from (done (job, db')) e = create_job-IsLaterTable spec uuid stamp db db' job e
    from (refused x) e = IsLaterTable-refl db.jobs
serve-IsLaterTable (Request.submit_plan spec plan uuids stamp) db =
    from (create_plan spec plan uuids stamp db) refl
  where
    from :
        (a : Attempt Db)
        → create_plan spec plan uuids stamp db ≡ a
        → IsLaterTable db.jobs (elim a as (λ x. Db) [ done db' ↦ db' | refused e ↦ db ]).jobs
    from (done db') e = create_plan-IsLaterTable spec plan uuids stamp db db' e
    from (refused x) e = IsLaterTable-refl db.jobs
serve-IsLaterTable (Request.stop id now) db = request_cancel-IsLaterTable id now db
serve-IsLaterTable (Request.stop_plan plan now) db = cancel_plan-IsLaterTable plan now db

serve_all-IsLaterTable : (rs : List Request) (db : Db) → IsLaterTable db.jobs (serve_all rs db).jobs
unfolding serve_all
serve_all-IsLaterTable [] db = IsLaterTable-refl db.jobs
serve_all-IsLaterTable (r ∷ rs) db =
    IsLaterTable-trans db.jobs (serve r db).jobs (serve_all rs (serve r db)).jobs
      (serve-IsLaterTable r db) (serve_all-IsLaterTable rs (serve r db))

serve-IsWellFormed : (r : Request) (db : Db) → IsWellFormed db → IsWellFormed (serve r db)
unfolding serve
serve-IsWellFormed (Request.submit spec uuid stamp) db h = from (create_job spec uuid stamp db) refl
  where
    from :
        (a : Attempt (Job × Db))
        → create_job spec uuid stamp db ≡ a
        → IsWellFormed (elim a as (λ x. Db) [ done made ↦ made.1 | refused e ↦ db ])
    from (done (job, db')) e = create_job-IsWellFormed spec uuid stamp db db' job e h
    from (refused x) e = h
serve-IsWellFormed (Request.submit_plan spec plan uuids stamp) db h =
    from (create_plan spec plan uuids stamp db) refl
  where
    from :
        (a : Attempt Db)
        → create_plan spec plan uuids stamp db ≡ a
        → IsWellFormed (elim a as (λ x. Db) [ done db' ↦ db' | refused e ↦ db ])
    from (done db') e = (create_plan_ok spec plan uuids stamp db db' e).3 h
    from (refused x) e = h
serve-IsWellFormed (Request.stop id now) db h = request_cancel-IsWellFormed id now db h
serve-IsWellFormed (Request.stop_plan plan now) db h = cancel_plan-IsWellFormed plan now db h

serve_all-IsWellFormed :
    (rs : List Request) (db : Db) → IsWellFormed db → IsWellFormed (serve_all rs db)
unfolding serve_all
serve_all-IsWellFormed [] db h = h
serve_all-IsWellFormed (r ∷ rs) db h =
    serve_all-IsWellFormed rs (serve r db) (serve-IsWellFormed r db h)

pub settle-IsLaterWorld :
    {E : Type 0} (site : Site E) (e : E) (w : World E) → IsLaterWorld w (settle site e w)
unfolding settle
settle-IsLaterWorld site e w = record {
  jobs = serve_all-IsLaterTable (site.requests e) w.db;
  stays = λ h. rw h refl;
  well = serve_all-IsWellFormed (site.requests e) w.db;
}

pub set_total_runs-IsLaterTable :
    (id : String) (n now : ℕ) (db : Db) → IsLaterTable db.jobs (set_total_runs id n now db).jobs
unfolding set_total_runs
set_total_runs-IsLaterTable id n now db =
    IsLaterTable-update_where _ _ db.jobs
      (λ j. record { same_id = refl; keeps_cancel = λ h. h; no_start = λ h. h })

pub set_completed_runs-IsLaterTable :
    (id : String) (n now : ℕ) (db : Db) → IsLaterTable db.jobs (set_completed_runs id n now db).jobs
unfolding set_completed_runs
set_completed_runs-IsLaterTable id n now db =
    IsLaterTable-update_where _ _ db.jobs
      (λ j. record { same_id = refl; keeps_cancel = λ h. h; no_start = λ h. h })

-- Each stage leaves a later world, however it ends.
abbrev pub Evolves : {E A : Type 0} → Stage E A → Type 0
Evolves {E} stage = (w : World E) → IsLaterWorld w (stage w).1

pub chain-Evolves :
    {E A B : Type 0} (stage : Stage E A) (next : A → Stage E B)
    → Evolves stage
    → ((a : A) → Evolves (next a))
    → Evolves (stage >>= next)
unfolding ◌>>=◌
chain-Evolves {E} {A} {B} stage next h k w = from (stage w) (h w)
  where
    from : (r : Effect A × World E) → IsLaterWorld w r.1 → IsLaterWorld w (continue r next).1
    from (raised thrown, w') l = l
    from (value a, w') l = later_trans w w' _ l (k a w')

-- What the value of a stage and the world after it satisfy, if the stage does not raise.
abbrev pub Gives : {E A : Type 0} → (A → World E → Type 0) → Effect A × World E → Type 0
Gives {A = A} Q r = (a : A) → r.0 ≡ value a → Q a r.1

pub chain-Gives :
    {E A B : Type 0} (P : A → World E → Type 0) (Q : B → World E → Type 0) (stage : Stage E A)
    (next : A → Stage E B) (w : World E)
    → Gives P (stage w)
    → ((a : A) (w' : World E) → P a w' → Gives Q (next a w'))
    → Gives Q ((stage >>= next) w)
unfolding ◌>>=◌
chain-Gives {E} {A} {B} P Q stage next w h k = from (stage w) h
  where
    from : (r : Effect A × World E) → Gives P r → Gives Q (continue r next)
    from (raised thrown, w') g b e = absurd (cc (e))
    from (value a, w') g b e = k a w' (g a refl) b e

-- What holds after a stage because it held before.
pub chain_keeps :
    {E A B : Type 0} (P : World E → Type 0) (Q : B → World E → Type 0) (stage : Stage E A)
    (next : A → Stage E B) (w : World E)
    → ((w : World E) → P w → P (stage w).1)
    → P w
    → ((a : A) (w' : World E) → P w' → Gives Q (next a w'))
    → Gives Q ((stage >>= next) w)
chain_keeps P Q stage next w h p k = chain-Gives (λ a w. P w) Q stage next w (λ a e. h w p) k

pub chain_after :
    {E A B : Type 0} (Q : B → World E → Type 0) (stage : Stage E A) (next : A → Stage E B)
    (w : World E)
    → ((a : A) (w' : World E) → Gives Q (next a w'))
    → Gives Q ((stage >>= next) w)
chain_after Q stage next w k =
    chain-Gives (λ a w. Unit {0}) Q stage next w (λ a e. tt) (λ a w' p. k a w')
