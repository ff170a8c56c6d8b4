-- ===== src/NewApi/Match/Samples.antt =====
-- The samples that `match_logs` makes of its buckets.
use yonwork_benchmark.Json.{Json, Fields, get, is_truthy}
use yonwork_benchmark.Prelude.{
  ℕ, Option, none, some, List, [], ◌∷◌, leb, is_empty, length, if◌then◌else◌, String, keep, ◌+◌,
}
use yonwork_benchmark.NewApi.Match.{
  type_consume, type_error, has_type, stamp_of, Bucket, place_logs, windows_of, Run,
}

pub record BackendSample : Type 0 where
  pub benchmark_id : String
  pub input_tokens : ℕ
  pub output_tokens : ℕ
  pub total_tokens : ℕ
  pub model : Json
  pub api_calls : ℕ
  pub error_calls : ℕ
  pub use_time : Option ℕ
  pub sampled_at : ℕ
  pub raw : List Fields

-- The values of `use_time` that are not null.
unfoldable pub use_times : List Fields → List Json
unfolding get
use_times [] = []
use_times (row ∷ rows) =
    let rest = use_times rows in elim (get "use_time" row) [ Json.null ↦ rest | v ↦ v ∷ rest ]

-- The first truthy `model_name`, null if there is none.
unfoldable pub first_model : List Fields → Json
unfolding get is_truthy
first_model [] = Json.null
first_model (row ∷ rows) =
    let rest = first_model rows in
    if is_truthy (get "model_name" row) then get "model_name" row else rest

-- `max` over `created_at`; rows in a bucket have a stamp.
unfoldable pub latest : List Fields → ℕ
unfolding stamp_of
latest [] = 0
latest (row ∷ rows) =
    let rest = latest rows in
    elim (stamp_of row) [ none ↦ rest | some n ↦ if leb rest n then n else rest ]

-- `read_int` is `int` of a text, `none` where it raises.
module _ (read_int : String → Option ℕ) where
  -- `int(v)`
  unfoldable pub int_of : Json → Option ℕ
  int_of (Json.num n) = some n
  int_of (Json.bool b) = some (if b then 1 else 0)
  int_of (Json.text s) = read_int s
  int_of _ = none

  -- `int(v or 0)`
  unfoldable pub int_or_zero : Json → Option ℕ
  unfolding int_of is_truthy
  int_or_zero v = if is_truthy v then int_of v else some 0

  unfoldable pub sum_field : String → List Fields → Option ℕ
  sum_field key [] = some 0
  sum_field key (row ∷ rows) = elim (int_or_zero (get key row)) [
    | none ↦ none
    | some n ↦ elim (sum_field key rows) [ none ↦ none | some m ↦ some (n + m) ]
  ]

  unfoldable pub sum_values : List Json → Option ℕ
  unfolding int_of
  sum_values [] = some 0
  sum_values (v ∷ vs) = elim (int_of v) [
    | none ↦ none
    | some n ↦ elim (sum_values vs) [ none ↦ none | some m ↦ some (n + m) ]
  ]

  -- `none` where `int` raises.
  unfoldable pub sample_of : Bucket → Option BackendSample
  sample_of b =
      let consume = keep (has_type type_consume) b.rows in
      let errors = keep (has_type type_error) b.rows in
      elim (sum_field "prompt_tokens" consume) [
        | none ↦ none
        | some input ↦ elim (sum_field "completion_tokens" consume) [
          | none ↦ none
          | some output ↦ elim (sum_values (use_times consume)) [
            | none ↦ none
            | some seconds ↦ some (record {
              benchmark_id = b.benchmark_id;
              input_tokens = input;
              output_tokens = output;
              total_tokens = input + output;
              model = first_model consume;
              api_calls = length consume + length errors;
              error_calls = length errors;
              use_time = if is_empty (use_times consume) then none else some seconds;
              sampled_at = latest b.rows;
              raw = b.rows;
            })
          ]
        ]
      ]

  unfoldable pub samples_of : List Bucket → Option (List BackendSample)
  samples_of [] = some []
  samples_of (b ∷ bs) = elim (sample_of b) [
    | none ↦ none
    | some s ↦ elim (samples_of bs) [ none ↦ none | some ss ↦ some (s ∷ ss) ]
  ]

  -- The samples and the logs that fit no window.
  unfoldable pub match_logs : List Fields → List Run → Option (List BackendSample × List Fields)
  match_logs logs runs =
      let s = place_logs (windows_of runs) (record { buckets = []; unmatched = [] }) logs in
      elim (samples_of s.buckets) [ none ↦ none | some samples ↦ some (samples, s.unmatched) ]
