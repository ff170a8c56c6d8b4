-- ===== src/JobStore/Create/Laws.antt =====
-- What a submission adds to the tables.
use mathlib.Core.List.{append_assoc, append-nil}
use yonwork_benchmark.JobStore.Invariant.{IsSound, IsWellFormed}
use yonwork_benchmark.JobStore.Claim.{IsKeyed}
use yonwork_benchmark.Prelude.{
  if◌then◌else◌, refl, ◌∙◌, ◌||◌, sym, ap, ◌≢◌, inr, inl, eq_iff, Bool-cases, All-append, arith,
  ◌++◌, All, ℕ, String, ◌≡◌, suc, [], ◌∷◌,
}
use yonwork_benchmark.JobStore.Create.{
  JobError, is_empty, refused, find_job, Status, ◌>>=◌, strip, Bool, Attempt, none, some, any,
  str_eq, false, done, List, Db, Job, Option, PlanMode, NewJob, NewPlan, Stamp, same_key, validate,
  new_row, clashes, insert_job, create_job, check_modes, mode_job, insert_modes, create_plan, title,
}

fresh_of_clashes :
    (row : Job) (js : List Job)
    → clashes row js ≡ false
    → All (λ k. str_eq k.job_id row.job_id ≡ false) js
unfolding clashes
fresh_of_clashes row [] h = tt
fresh_of_clashes row (j ∷ js) h = (ground arith, fresh_of_clashes row js (ground arith))

IsKeyed-snoc :
    (row : Job) (js : List Job)
    → All (λ k. str_eq k.job_id row.job_id ≡ false) js
    → IsKeyed js
    → IsKeyed (js ++ row ∷ [])
IsKeyed-snoc row [] h k = (tt, tt)
IsKeyed-snoc row (j ∷ js) h k = (
  All-append (λ i. str_eq i.job_id j.job_id ≡ false) js (row ∷ []) k.0
      (ground (arith, h.0, eq_iff j.job_id row.job_id, eq_iff row.job_id j.job_id), tt),
  IsKeyed-snoc row js h.1 k.1,
)

insert_job_ok :
    (spec : NewJob) (name : String) (stamp : Stamp) (plan : Option String) (position : ℕ)
    (label id : String) (db db' : Db)
    → insert_job spec name stamp plan position label id db ≡ done db'
    → (clashes (new_row spec name stamp plan position label id) db.jobs ≡ false)
      × (db'.jobs ≡ db.jobs ++ new_row spec name stamp plan position label id ∷ [])
unfolding insert_job
insert_job_ok spec name stamp plan position label id db db' h =
    elim (Bool-cases (clashes (new_row spec name stamp plan position label id) db.jobs)) [
      | inl e ↦ absurd (ground arith)
      | inr e ↦ (e, ground arith)
    ]

IsSound-new_row :
    (spec : NewJob) (name : String) (stamp : Stamp) (plan : Option String) (position : ℕ)
    (label id : String)
    → IsSound (new_row spec name stamp plan position label id)
unfolding new_row
IsSound-new_row spec name stamp plan position label id = ground arith

IsWellFormed-snoc :
    (row : Job) (db db' : Db)
    → clashes row db.jobs ≡ false
    → IsSound row
    → db'.jobs ≡ db.jobs ++ row ∷ []
    → IsWellFormed db
    → IsWellFormed db'
IsWellFormed-snoc row db db' fresh sound e h = record {
  keyed = rw e (IsKeyed-snoc row db.jobs (fresh_of_clashes row db.jobs fresh) h.keyed);
  sound = rw e (All-append IsSound db.jobs (row ∷ []) h.sound (sound, tt));
}

insert_job-IsWellFormed :
    (spec : NewJob) (name : String) (stamp : Stamp) (plan : Option String) (position : ℕ)
    (label id : String) (db db' : Db)
    → insert_job spec name stamp plan position label id db ≡ done db'
    → IsWellFormed db
    → IsWellFormed db'
insert_job-IsWellFormed spec name stamp plan position label id db db' h =
    let (fresh, e) = insert_job_ok spec name stamp plan position label id db db' h in
    IsWellFormed-snoc (new_row spec name stamp plan position label id) db db' fresh
      (IsSound-new_row spec name stamp plan position label id) e

-- A chain that succeeds has a first step that succeeds, and a rest that does.
first_of_chain {ℓ κ} :
    {Value : Type ℓ} {Next : Type κ} {first : Attempt Value} {rest : Value → Attempt Next}
    (last : Next)
    → (first >>= rest) ≡ done last
    → (v : Value) × (first ≡ done v) × (rest v ≡ done last)
first_of_chain {first = refused e} last h = absurd (cc)
first_of_chain {first = done v} last h = (v, refl, h)

-- The insert of `create_job`, whose table it returns.
insert_of_create :
    (spec : NewJob) (uuid : String) (stamp : Stamp) (db db' : Db) (job : Job)
    → create_job spec uuid stamp db ≡ done (job, db')
    → (name : String) × (insert_job spec name stamp none 0 "" uuid db ≡ done db')
unfolding create_job
insert_of_create spec uuid stamp db db' job h =
    let (name, v, h₁) =
      first_of_chain {first = (validate spec.experiment_name spec.timeout_seconds spec.limit_runs)}
        _ h in
    let (db₁, i, h₂) =
      first_of_chain {first = (insert_job spec name stamp none 0 "" uuid db)} _ h₁ in
    (name, i ∙ ap done (read_back (find_job uuid db₁.jobs) db₁ h₂))
  where
    read_back :
        {job : Job} {db' : Db} (found : Option Job) (db₁ : Db)
        → ◌≡◌ {A = Attempt (Job × Db)}
            (elim found [ none ↦ refused JobError.unreadable | some job ↦ done (job, db₁) ])
            (done (job, db'))
        → db₁ ≡ db'
    read_back none db₁ h = absurd (cc)
    read_back (some j) db₁ h = cc (h)

pub create_job-IsWellFormed :
    (spec : NewJob) (uuid : String) (stamp : Stamp) (db db' : Db) (job : Job)
    → create_job spec uuid stamp db ≡ done (job, db')
    → IsWellFormed db
    → IsWellFormed db'
create_job-IsWellFormed spec uuid stamp db db' job h w =
    let (name, i) = insert_of_create spec uuid stamp db db' job h in
    insert_job-IsWellFormed spec name stamp none 0 "" uuid db db' i w

pub create_job_adds :
    (spec : NewJob) (uuid : String) (stamp : Stamp) (db db' : Db) (job : Job)
    → create_job spec uuid stamp db ≡ done (job, db')
    → (row : Job) × (db'.jobs ≡ db.jobs ++ row ∷ []) × (row.status ≡ Status.queued)
create_job_adds spec uuid stamp db db' job h =
    let (name, i) = insert_of_create spec uuid stamp db db' job h in
    (
      new_row spec name stamp none 0 "" uuid,
      (insert_job_ok spec name stamp none 0 "" uuid db db' i).1,
      unfold new_row in refl,
    )

-- The rows of a plan: one for each mode, in the order of the modes, numbered from `n`.
abbrev pub PlanRows : String → ℕ → ℕ → List PlanMode → List Job → Type 0
PlanRows plan time n [] [] = Unit
PlanRows plan time n (m ∷ ms) (r ∷ rs) =
    (r.plan_id ≡ some plan)
    × (r.plan_position ≡ n)
    × (r.product ≡ m.product)
    × (r.model_query ≡ strip m.model_query)
    × (r.status ≡ Status.queued)
    × (r.created_at ≡ time)
    × PlanRows plan time (suc n) ms rs
PlanRows plan time n _ _ = ⊥

insert_modes_ok :
    (spec : NewPlan) (name : String) (stamp : Stamp) (plan : String) (uuids : ℕ → String) (n : ℕ)
    (ms : List PlanMode) (db db' : Db)
    → insert_modes spec name stamp plan uuids n ms db ≡ done db'
    → (rows : List Job) × (db'.jobs ≡ db.jobs ++ rows)
      × PlanRows plan stamp.time n ms rows
      × (IsWellFormed db → IsWellFormed db')
unfolding insert_modes
insert_modes_ok spec name stamp plan uuids n [] db db' h =
    let e : db ≡ db' = ground arith in
    ([], ap (λ (d : Db). d.jobs) (sym e) ∙ sym (append-nil _), tt, λ w. rw (← e) w)
insert_modes_ok spec name stamp plan uuids n (m ∷ ms) db db' h =
    let (db₁, i, k) =
      first_of_chain
        {first = (insert_job (mode_job spec name m) name stamp (some plan) n (title m) (uuids n)
          db)}
        _ h in
    let (rows, e, p, w) = insert_modes_ok spec name stamp plan uuids (suc n) ms db₁ db' k in
    let row = new_row (mode_job spec name m) name stamp (some plan) n (title m) (uuids n) in
    let (fresh, e₁) =
      insert_job_ok (mode_job spec name m) name stamp (some plan) n (title m) (uuids n) db db₁ i in
    (
      row ∷ rows,
      e ∙ (ap (λ js. js ++ rows) e₁ ∙ append_assoc db.jobs (row ∷ []) rows),
      unfold new_row mode_job in (refl, refl, refl, refl, refl, refl, p),
      λ wf. w (
          insert_job-IsWellFormed (mode_job spec name m) name stamp (some plan) n (title m)
            (uuids n) db db₁ i wf),
    )

-- No two modes have the same product and the same model, spaces at its ends aside.
abbrev pub AreDistinct : List PlanMode → Type 0
AreDistinct [] = Unit
AreDistinct (m ∷ ms) = All (λ k. same_key k m ≡ false) ms × AreDistinct ms

split_seen :
    (m : PlanMode) (seen ms : List PlanMode)
    → All (λ k. any (same_key k) (m ∷ seen) ≡ false) ms
    → All (λ k. same_key k m ≡ false) ms × All (λ k. any (same_key k) seen ≡ false) ms
split_seen m seen [] h = (tt, tt)
split_seen m seen (k ∷ ks) h =
    let rest = split_seen m seen ks h.1 in
    let here = or_false (same_key k m) (any (same_key k) seen) h.0 in
    ((here.0, rest.0), (here.1, rest.1))
  where
    or_false : (a b : Bool) → (a || b) ≡ false → (a ≡ false) × (b ≡ false)
    or_false a b e = ground arith

check_modes_ok :
    (seen ms : List PlanMode)
    → check_modes seen ms ≡ done tt
    → All (λ k. any (same_key k) seen ≡ false) ms × AreDistinct ms
unfolding check_modes
check_modes_ok seen [] h = (tt, tt)
check_modes_ok seen (m ∷ ms) h = elim (Bool-cases (any (same_key m) seen)) [
  | inl e ↦ absurd (cc (rw e at h))
  | inr e ↦
      let rest = check_modes_ok (m ∷ seen) ms (rw e at h) in
      let s = split_seen m seen ms rest.0 in ((e, s.1), (s.0, rest.1))
]

-- A plan that is accepted has at least one mode and no mode twice, and it adds one queued row for
-- each mode, all of one plan and one creation time, numbered from 0 in the order of the modes, and
-- nothing else to the jobs; the table stays well-formed.
pub create_plan_ok :
    (spec : NewPlan) (plan : String) (uuids : ℕ → String) (stamp : Stamp) (db db' : Db)
    → create_plan spec plan uuids stamp db ≡ done db'
    → (spec.modes ≢ [])
      × AreDistinct spec.modes
      × ((rows : List Job) × (db'.jobs ≡ db.jobs ++ rows)
          × PlanRows plan stamp.time 0 spec.modes rows)
      × (IsWellFormed db → IsWellFormed db')
unfolding create_plan
create_plan_ok spec plan uuids stamp db db' h =
    let (name, v, h₁) =
      first_of_chain {first = (validate spec.experiment_name spec.timeout_seconds spec.limit_runs)}
        _ h in
    let (u, c, h₂) =
      first_of_chain
        {first = (if is_empty spec.modes
          then refused JobError.no_modes
          else check_modes [] spec.modes)}
        _ h₁ in
    let (rows, e, p, w) = insert_modes_ok spec name stamp plan uuids 0 spec.modes db db' h₂ in
    let (nonempty, checked) = accepted spec.modes c in
    (nonempty, (check_modes_ok [] spec.modes checked).1, (rows, e, p), w)
  where
    accepted :
        (ms : List PlanMode)
        → (if is_empty ms then refused JobError.no_modes else check_modes [] ms) ≡ done tt
        → (ms ≢ []) × (check_modes [] ms ≡ done tt)
    accepted [] k = absurd (cc)
    accepted (m ∷ ms) k = (λ n. cc, k)
