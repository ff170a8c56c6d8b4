-- ===== src/NewApi/Match/Laws.antt =====
-- The number of logs that `match_logs` puts into rounds or hands back.
use yonwork_benchmark.Prelude.{
  ℕ, suc, Option, some, List, [], ◌∷◌, ◌++◌, Bool, true, if◌then◌else◌, length, keep, keep_yes,
  keep_no, keep-append, length-append, ◌≡◌, refl, Bool-cases, Option-cases, inl, inr, ◌∙◌, ap, sym,
  arith, ◌+◌, ◌||◌, String, str_eq,
}
use mathlib.Core.Option.{some-injective}
use yonwork_benchmark.Json.{Fields, Json, get}
use yonwork_benchmark.NewApi.Match.Answers.{
  calls_in, nothing, match_logs-Answer, sample_of-IsSampleOf,
}
use yonwork_benchmark.NewApi.Match.{
  is_num, place_in, Window, Run, windows_of, is_call, has_type, type_consume, type_error,
  window_for, Bucket, Sorted, add_row, place_log, place_logs,
}
use yonwork_benchmark.NewApi.Match.Samples.{BackendSample, sample_of, samples_of, match_logs}

length-keep_snoc :
    (p : Fields → Bool) (xs : List Fields) (x : Fields)
    → length (keep p (xs ++ x ∷ [])) ≡ length (keep p xs) + (if p x then 1 else 0)
length-keep_snoc p xs x =
    ap length (keep-append p xs (x ∷ []))
    ∙ length-append (keep p xs) (keep p (x ∷ []))
    ∙ ap (λ n. length (keep p xs) + n) (one p x)
  where
    one : (p : Fields → Bool) (x : Fields) → length (keep p (x ∷ [])) ≡ (if p x then 1 else 0)
    one p x = elim (Bool-cases (p x)) [
      | inl e ↦ rw (keep_yes p x [] e, e) refl
      | inr e ↦ rw (keep_no p x [] e, e) refl
    ]

-- A log of a call has one of the two types.
one_num :
    (v : Json)
    → (is_num type_consume v || is_num type_error v) ≡ true
    → (if is_num type_consume v then 1 else 0) + (if is_num type_error v then 1 else 0) ≡ 1
one_num Json.null h = absurd (cc (h))
one_num (Json.bool b) h = absurd (cc (h))
one_num (Json.text b) h = absurd (cc (h))
one_num (Json.arr b) h = absurd (cc (h))
one_num (Json.obj b) h = absurd (cc (h))
one_num (Json.num n) h = ground arith

one_type :
    (log : Fields)
    → is_call log ≡ true
    → (if has_type type_consume log then 1 else 0) + (if has_type type_error log then 1 else 0) ≡ 1
unfolding is_call has_type
one_type log h = one_num (get "type" log) h

calls_snoc :
    (rows : List Fields) (log : Fields)
    → is_call log ≡ true
    → calls_in (rows ++ log ∷ []) ≡ suc (calls_in rows)
unfolding calls_in
calls_snoc rows log h = omega (
  arith,
  length-keep_snoc (has_type type_consume) rows log,
  length-keep_snoc (has_type type_error) rows log,
  one_type log h,
)

calls_total : List Bucket → ℕ
calls_total [] = 0
calls_total (b ∷ bs) = calls_in b.rows + calls_total bs

calls_total-add_row :
    (id : String) (log : Fields) (bs : List Bucket)
    → is_call log ≡ true
    → calls_total (add_row id log bs) ≡ suc (calls_total bs)
unfolding calls_total add_row calls_in
calls_total-add_row id log [] h = omega (arith, calls_snoc [] log h)
calls_total-add_row id log (b ∷ bs) h = elim (Bool-cases (str_eq b.benchmark_id id)) [
  | inl e ↦ rw e (omega (arith, calls_snoc b.rows log h))
  | inr e ↦ rw e (omega (arith, calls_total-add_row id log bs h))
]

place_log_counts :
    (windows : List Window) (s : Sorted) (log : Fields)
    → calls_total (place_log windows s log).buckets + length (place_log windows s log).unmatched
      ≡ calls_total s.buckets + length s.unmatched + (if is_call log then 1 else 0)
unfolding place_log place_in
place_log_counts windows s log = elim (Bool-cases (is_call log)) [
  | inr e ↦ rw e (omega arith)
  | inl e ↦ elim (Option-cases (window_for windows log)) [
    | inl f ↦ rw (e, f) (omega (arith, length-append {A = Fields} s.unmatched (log ∷ [])))
    | inr (w, f) ↦ rw (e, f) (omega (arith, calls_total-add_row w.benchmark_id log s.buckets e))
  ]
]

place_logs_counts :
    (windows : List Window) (s : Sorted) (logs : List Fields)
    → calls_total (place_logs windows s logs).buckets + length (place_logs windows s logs).unmatched
      ≡ calls_total s.buckets + length s.unmatched + length (keep is_call logs)
unfolding place_logs
place_logs_counts windows s [] = omega arith
place_logs_counts windows s (log ∷ logs) = omega (
  arith,
  place_logs_counts windows (place_log windows s log) logs,
  place_log_counts windows s log,
  length_keep log logs,
)
  where
    length_keep :
        (x : Fields) (xs : List Fields)
        → length (keep is_call (x ∷ xs)) ≡ length (keep is_call xs) + (if is_call x then 1 else 0)
    length_keep x xs = elim (Bool-cases (is_call x)) [
      | inl e ↦ rw (keep_yes is_call x xs e, e) (omega arith)
      | inr e ↦ rw (keep_no is_call x xs e, e) (omega arith)
    ]

unfoldable pub sum_calls : List BackendSample → ℕ
sum_calls [] = 0
sum_calls (s ∷ ss) = s.api_calls + sum_calls ss

sum_calls-samples_of :
    (read_int : String → Option ℕ) (bs : List Bucket) (samples : List BackendSample)
    → samples_of read_int bs ≡ some samples
    → sum_calls samples ≡ calls_total bs
unfolding samples_of sum_calls calls_total calls_in
sum_calls-samples_of read_int [] samples h = rw (sym (some-injective _ _ h)) refl
sum_calls-samples_of read_int (b ∷ bs) samples h = elim (Option-cases (sample_of read_int b)) [
  | inl e ↦ absurd (cc (rw (e, samples_of) at h))
  | inr (s, e) ↦ elim (Option-cases (samples_of read_int bs)) [
    | inl f ↦ absurd (cc (rw (e, f, samples_of) at h))
    | inr (ss, f) ↦
        let c = sample_of-IsSampleOf read_int b s e in
        rw
          (
            sym (some-injective _ _ (rw (e, f, samples_of) at h)),
            c.counted,
            sum_calls-samples_of read_int bs ss f,
          )
          refl
  ]
]

-- When match_logs answers, the calls of all samples and the logs handed back are together as many
-- as the logs of calls that it was given.
pub match_logs_conserves :
    (read_int : String → Option ℕ) (logs : List Fields) (runs : List Run)
    (samples : List BackendSample) (stray : List Fields)
    → match_logs read_int logs runs ≡ some (samples, stray)
    → sum_calls samples + length stray ≡ length (keep is_call logs)
unfolding calls_total
match_logs_conserves read_int logs runs samples stray h =
    let a = match_logs-Answer read_int logs runs samples stray h in
    omega (
      arith,
      sum_calls-samples_of read_int _ samples a.sampled,
      ap (length {A = Fields}) a.left,
      place_logs_counts (windows_of runs) nothing logs,
    )
