-- ===== src/NewApi/Match/Reference.antt =====
-- The buckets of the loop: each holds the logs whose window is its round's, in order.
use yonwork_benchmark.Prelude.{
  keep_yes, keep_no, keep-append, Option, none, some, List, [], ◌∷◌, ◌++◌, Bool, true, false,
  if◌then◌else◌, ◌&&◌, String, str_eq, keep, ◌≡◌, refl, Bool-cases, Option-cases, inl, inr, ◌∙◌, ap,
  sym, eq_iff, arith, is_some, not,
}
use mathlib.Core.Option.{some-injective}
use mathlib.Core.List.{append-nil, append_assoc}
use yonwork_benchmark.Json.{Fields}
use yonwork_benchmark.NewApi.Match.Choice.{IsPlaced, window_for-IsPlaced}
use yonwork_benchmark.Prelude.{◌↔◌, ◌⊎◌, ◌==◌}
use yonwork_benchmark.Json.{Json, get}
use yonwork_benchmark.NewApi.Match.{is_num, has_type}
use yonwork_benchmark.NewApi.Match.Answers.{nothing, match_logs-Answer, sample_of-IsSampleOf}
use yonwork_benchmark.NewApi.Match.{
  windows_of, Run, ℕ, place_in, Window, is_call, window_for, Bucket, Sorted, add_row, place_log,
  place_logs,
}
use yonwork_benchmark.NewApi.Match.Samples.{samples_of, match_logs, sample_of, BackendSample}

-- A log of a model call that is put into the round `id`; one that fits no round.
abbrev is_for : String → Option Window → Bool
is_for id none = false
is_for id (some w) = str_eq w.benchmark_id id

unfoldable pub goes_to : List Window → String → Fields → Bool
goes_to windows id log = is_call log && is_for id (window_for windows log)

unfoldable pub is_stray : List Window → Fields → Bool
is_stray windows log = is_call log && not (is_some (window_for windows log))

unfoldable pub rows_in : String → List Bucket → List Fields
rows_in id [] = []
rows_in id (b ∷ bs) = let rest = rows_in id bs in if str_eq b.benchmark_id id then b.rows else rest

unfoldable pub rows_of : String → List BackendSample → List Fields
rows_of id [] = []
rows_of id (s ∷ ss) = let rest = rows_of id ss in if str_eq s.benchmark_id id then s.raw else rest

same_key : (a b c : String) → str_eq a b ≡ true → str_eq b c ≡ str_eq a c
same_key a b c e = ap (λ x. str_eq x c) (sym ((eq_iff a b).0 e))

other_key : (a b c : String) → str_eq a b ≡ false → str_eq a c ≡ true → str_eq b c ≡ false
other_key a b c e f = ground (arith, eq_iff a b, eq_iff a c, eq_iff b c)

rows_in-add_row :
    (id : String) (log : Fields) (bs : List Bucket) (other : String)
    → rows_in other (add_row id log bs)
      ≡ rows_in other bs ++ (if str_eq id other then log ∷ [] else [])
unfolding rows_in add_row
rows_in-add_row id log [] other = elim (Bool-cases (str_eq id other)) [
  | inl e ↦ rw e refl
  | inr e ↦ rw e refl
]
rows_in-add_row id log (b ∷ bs) other = elim (Bool-cases (str_eq b.benchmark_id id)) [
  | inl e ↦ elim (Bool-cases (str_eq b.benchmark_id other)) [
    | inl f ↦ simp (e, same_key b.benchmark_id id other e, f)
    | inr f ↦ simp (e, same_key b.benchmark_id id other e, f, append-nil)
  ]
  | inr e ↦ elim (Bool-cases (str_eq b.benchmark_id other)) [
    | inl f ↦ simp (e, f, other_key b.benchmark_id id other e f, append-nil)
    | inr f ↦ rw e (rw f (rows_in-add_row id log bs other))
  ]
]

kept_if :
    (p : Fields → Bool) (x : Fields) (b : Bool)
    → p x ≡ b
    → (if b then x ∷ [] else []) ≡ keep p (x ∷ [])
kept_if p x true e = sym (keep_yes p x [] e)
kept_if p x false e = sym (keep_no p x [] e)

rows_in-place_log :
    (windows : List Window) (id : String) (s : Sorted) (log : Fields)
    → rows_in id (place_log windows s log).buckets
      ≡ rows_in id s.buckets ++ keep (goes_to windows id) (log ∷ [])
unfolding place_log goes_to place_in
rows_in-place_log windows id s log = elim (Bool-cases (is_call log)) [
  | inr e ↦
      rw (e, keep_no (goes_to windows id) log [] (rw e refl))
        (sym (append-nil (rows_in id s.buckets)))
  | inl e ↦ elim (Option-cases (window_for windows log)) [
    | inl f ↦
        rw (e, f, keep_no (goes_to windows id) log [] (rw (e, f) refl))
          (sym (append-nil (rows_in id s.buckets)))
    | inr (w, f) ↦
        rw (e, f)
          (rows_in-add_row w.benchmark_id log s.buckets id
            ∙ ap (λ r. rows_in id s.buckets ++ r)
                (kept_if (goes_to windows id) log (str_eq w.benchmark_id id) (rw (e, f) refl)))
  ]
]

rows_in-place_logs :
    (windows : List Window) (id : String) (s : Sorted) (logs : List Fields)
    → rows_in id (place_logs windows s logs).buckets
      ≡ rows_in id s.buckets ++ keep (goes_to windows id) logs
unfolding place_logs
rows_in-place_logs windows id s [] = sym (append-nil (rows_in id s.buckets))
rows_in-place_logs windows id s (log ∷ logs) =
    rows_in-place_logs windows id (place_log windows s log) logs
    ∙ ap (λ r. r ++ keep (goes_to windows id) logs) (rows_in-place_log windows id s log)
    ∙ append_assoc (rows_in id s.buckets) (keep (goes_to windows id) (log ∷ []))
        (keep (goes_to windows id) logs)
    ∙ ap (λ r. rows_in id s.buckets ++ r) (sym (keep-append (goes_to windows id) (log ∷ []) logs))

unmatched-place_log :
    (windows : List Window) (s : Sorted) (log : Fields)
    → (place_log windows s log).unmatched ≡ s.unmatched ++ keep (is_stray windows) (log ∷ [])
unfolding place_log is_stray place_in
unmatched-place_log windows s log = elim (Bool-cases (is_call log)) [
  | inr e ↦ rw (e, keep_no (is_stray windows) log [] (rw e refl)) (sym (append-nil s.unmatched))
  | inl e ↦ elim (Option-cases (window_for windows log)) [
    | inl f ↦ rw (e, f, keep_yes (is_stray windows) log [] (rw (e, f) refl)) refl
    | inr (w, f) ↦
        rw (e, f, keep_no (is_stray windows) log [] (rw (e, f) refl)) (sym (append-nil s.unmatched))
  ]
]

unmatched-place_logs :
    (windows : List Window) (s : Sorted) (logs : List Fields)
    → (place_logs windows s logs).unmatched ≡ s.unmatched ++ keep (is_stray windows) logs
unfolding place_logs
unmatched-place_logs windows s [] = sym (append-nil s.unmatched)
unmatched-place_logs windows s (log ∷ logs) =
    unmatched-place_logs windows (place_log windows s log) logs
    ∙ ap (λ r. r ++ keep (is_stray windows) logs) (unmatched-place_log windows s log)
    ∙ append_assoc s.unmatched (keep (is_stray windows) (log ∷ [])) (keep (is_stray windows) logs)
    ∙ ap (λ r. s.unmatched ++ r) (sym (keep-append (is_stray windows) (log ∷ []) logs))

rows_of-samples_of :
    (read_int : String → Option ℕ) (bs : List Bucket) (samples : List BackendSample) (id : String)
    → samples_of read_int bs ≡ some samples
    → rows_of id samples ≡ rows_in id bs
unfolding samples_of rows_of rows_in
rows_of-samples_of read_int [] samples id h = rw (sym (some-injective _ _ h)) refl
rows_of-samples_of read_int (b ∷ bs) samples id h = elim (Option-cases (sample_of read_int b)) [
  | inl e ↦ absurd (cc (rw (e, samples_of) at h))
  | inr (s, e) ↦ elim (Option-cases (samples_of read_int bs)) [
    | inl f ↦ absurd (cc (rw (e, f, samples_of) at h))
    | inr (ss, f) ↦
        let c = sample_of-IsSampleOf read_int b s e in
        rw
          (
            sym (some-injective _ _ (rw (e, f, samples_of) at h)),
            c.same_id,
            c.same_rows,
            rows_of-samples_of read_int bs ss id f,
          )
          refl
  ]
]

pub IsCall : Fields → Type 0
IsCall log = (get "type" log ≡ Json.num 2) ⊎ (get "type" log ≡ Json.num 4)

is_num-num : (n : ℕ) (v : Json) → (is_num n v ≡ true) ↔ (v ≡ Json.num n)
is_num-num n (Json.num m) = (λ h. ap Json.num (ground (arith, h)), λ h. same m (number h))
  where
    number : {m : ℕ} → Json.num m ≡ Json.num n → m ≡ n
    number h = cc (h)

    same : (m : ℕ) → m ≡ n → (m == n) ≡ true
    same m h = ground (arith, h)
is_num-num n Json.null = (λ h. absurd (cc (h)), λ h. absurd (cc (h)))
is_num-num n (Json.bool b) = (λ h. absurd (cc (h)), λ h. absurd (cc (h)))
is_num-num n (Json.text s) = (λ h. absurd (cc (h)), λ h. absurd (cc (h)))
is_num-num n (Json.arr xs) = (λ h. absurd (cc (h)), λ h. absurd (cc (h)))
is_num-num n (Json.obj fs) = (λ h. absurd (cc (h)), λ h. absurd (cc (h)))

is_call-IsCall : (log : Fields) → (is_call log ≡ true) ↔ IsCall log
unfolding is_call has_type IsCall
is_call-IsCall log =
    let consume = is_num-num 2 (get "type" log) in
    let error = is_num-num 4 (get "type" log) in
    elim (Bool-cases (is_num 2 (get "type" log))) [
      | inl e ↦ (λ h. inl (consume.0 e), λ h. rw e refl)
      | inr e ↦ (
        λ h. inr (error.0 (rw e at h)),
        λ h. elim h [ inl k ↦ absurd (cc (consume.1 k, e)) | inr k ↦ rw e (error.1 k) ],
      )
    ]

-- When match_logs answers, the rows of the sample of a round are the logs of calls whose window is
-- that round's, in order, and the logs handed back are the logs of calls that have no window. A
-- log of a call is one of type 2 or 4. The window of a log is the first one, in the order of the
-- rounds, whose end is nearest to the stamp, on either side, among those that contain the stamp when
-- they are extended by 15 seconds at both ends; a log has no window exactly if it has no stamp or
-- none contains it.
pub match_logs_places :
    (read_int : String → Option ℕ) (logs : List Fields) (runs : List Run)
    (samples : List BackendSample) (stray : List Fields)
    → match_logs read_int logs runs ≡ some (samples, stray)
    → ((id : String) → rows_of id samples ≡ keep (goes_to (windows_of runs) id) logs)
      × (stray ≡ keep (is_stray (windows_of runs)) logs)
      × ((log : Fields) → IsPlaced (windows_of runs) log (window_for (windows_of runs) log))
      × ((log : Fields) → (is_call log ≡ true) ↔ IsCall log)
unfolding rows_in
match_logs_places read_int logs runs samples stray h =
    let a = match_logs-Answer read_int logs runs samples stray h in
    (
      λ id.
          rows_of-samples_of read_int _ samples id a.sampled
          ∙ rows_in-place_logs (windows_of runs) id nothing logs,
      a.left ∙ unmatched-place_logs (windows_of runs) nothing logs,
      window_for-IsPlaced (windows_of runs),
      is_call-IsCall,
    )
