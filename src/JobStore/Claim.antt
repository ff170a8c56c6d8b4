-- ===== src/JobStore/Claim.antt =====
-- Which job a worker claims.
use yonwork_benchmark.JobStore.Table.{is_queued, has_id, Db, count_where, Job}
use yonwork_benchmark.JobStore.Queue.{
  claim_row, start, is_claimable, better, is_before, first_where,
}
use mathlib.Core.Option
use yonwork_benchmark.Prelude.{
  eq_refl, ◌&&◌, eq_iff, All-Any, refl, Option, str_eq, inr, Any, [], text_le_total, text_le_trans,
  inl, All, ◌∷◌, none, some, arith, Bool-cases, List, false, true, Bool, ℕ, String, ◌≡◌,
}

is_before_total : (a b : Job) → is_before a b ≡ false → is_before b a ≡ true
unfolding is_before
is_before_total a b h = ground (arith, text_le_total a.job_id b.job_id)

is_before_trans : (a b c : Job) → is_before a b ≡ true → is_before b c ≡ true → is_before a c ≡ true
unfolding is_before
is_before_trans a b c h k = ground (arith, text_le_trans a.job_id b.job_id c.job_id)

is_before_refl : (a : Job) → is_before a a ≡ true
is_before_refl a = elim (Bool-cases (is_before a a)) [ inl e ↦ e | inr e ↦ is_before_total a a e ]

-- Nothing that satisfies `p` comes before `j`.
abbrev pub IsFirst : (Job → Bool) → Job → List Job → Type 0
IsFirst p j js = All (λ k. p k ≡ true → is_before j k ≡ true) js

IsFirst-trans :
    (p : Job → Bool) (i j : Job) (js : List Job)
    → is_before i j ≡ true
    → IsFirst p j js
    → IsFirst p i js
IsFirst-trans p i j [] h k = tt
IsFirst-trans p i j (x ∷ xs) h k =
    (λ px. is_before_trans i j x h (k.0 px), IsFirst-trans p i j xs h k.1)

-- What the answer of `first_where` means.
abbrev pub IsBest : (Job → Bool) → List Job → Option Job → Type 0
IsBest p js none = All (λ j. p j ≡ false) js
IsBest p js (some j) = (p j ≡ true) × Any (λ k. k ≡ j) js × IsFirst p j js

IsFirst-of_none :
    (p : Job → Bool) (j : Job) (js : List Job) → All (λ k. p k ≡ false) js → IsFirst p j js
IsFirst-of_none p j [] h = tt
IsFirst-of_none p j (x ∷ xs) h = (λ px. cc (h.0), IsFirst-of_none p j xs h.1)

IsBest-better :
    (p : Job → Bool) (x : Job) (xs : List Job) (o : Option Job)
    → IsBest p xs o
    → IsBest p (x ∷ xs) (better p x o)
unfolding better
IsBest-better p x xs none h = elim (Bool-cases (p x)) [
  | inl e ↦ rw e (e, inl refl, (λ px. is_before_refl x, IsFirst-of_none p x xs h))
  | inr e ↦ rw e (e, h)
]
IsBest-better p x xs (some b) h = elim (Bool-cases (p x)) [
  | inl e ↦ elim (Bool-cases (is_before x b)) [
    | inl first ↦
        rw (e, first) (e, inl refl, (λ px. is_before_refl x, IsFirst-trans p x b xs first h.2))
    | inr later ↦ rw (e, later) (h.0, inr h.1, (λ px. is_before_total x b later, h.2))
  ]
  | inr e ↦ rw e (h.0, inr h.1, (λ px. cc (e), h.2))
]

pub first_where-IsBest : (p : Job → Bool) (js : List Job) → IsBest p js (first_where p js)
unfolding first_where
first_where-IsBest p [] = tt
first_where-IsBest p (x ∷ xs) = IsBest-better p x xs (first_where p xs) (first_where-IsBest p xs)

-- No two rows have the same job id: the primary key of the table.
abbrev pub IsKeyed : List Job → Type 0
IsKeyed [] = Unit
IsKeyed (j ∷ js) = All (λ k. str_eq k.job_id j.job_id ≡ false) js × IsKeyed js

count_absent :
    (id : String) (q : Job → Bool) (js : List Job)
    → All (λ k. str_eq k.job_id id ≡ false) js
    → count_where (λ k. has_id id k && q k) js ≡ 0
unfolding count_where
count_absent id q [] h = refl
count_absent id q (x ∷ xs) h = simp (h.0) (count_absent id q xs h.1)

differs_of_mem :
    (id : String) (j : Job) (js : List Job)
    → All (λ k. str_eq k.job_id id ≡ false) js
    → Any (λ k. k ≡ j) js
    → str_eq id j.job_id ≡ false
differs_of_mem id j js h m = ground (
  arith,
  All-Any (λ k. str_eq k.job_id id ≡ false) js h m,
  eq_iff id j.job_id,
  eq_iff j.job_id id,
)

count_one :
    (j : Job) (q : Job → Bool) (js : List Job)
    → IsKeyed js
    → Any (λ k. k ≡ j) js
    → q j ≡ true
    → count_where (λ k. has_id j.job_id k && q k) js ≡ 1
unfolding count_where
count_one j q [] k m h = absurd m
count_one j q (x ∷ xs) k (inl e) h =
    ground (arith, count_absent j.job_id q xs (rw (← e) k.0), eq_refl j.job_id)
count_one j q (x ∷ xs) k (inr m) h =
    simp (differs_of_mem x.job_id j xs k.0 m) (count_one j q xs k.1 m h)

pub claim_row_best :
    (worker : String) (now : ℕ) (db : Db) (o : Option Job)
    → IsKeyed db.jobs
    → IsBest is_claimable db.jobs o
    → (claim_row worker now db o).0 ≡ Option.map (start worker now) o
unfolding claim_row
claim_row_best worker now db none k h = refl
claim_row_best worker now db (some j) k h =
    rw (count_one j (λ i. is_queued i.status) db.jobs k h.1 (ground (arith, h.0))) refl

pub better_same :
    (p q : Job → Bool) (j : Job) (o : Option Job) → p j ≡ q j → better p j o ≡ better q j o
unfolding better
better_same p q j none h = rw h
better_same p q j (some b) h = rw h
