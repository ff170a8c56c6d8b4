-- ===== src/NewApi/Turn.antt =====
-- `collect_turn_logs` of runner/newapi.py: the logs of one round, read before it is judged.
pub mod Rows
pub mod Laws
use Prim.Native.Nat.{◌*◌}
use yonwork_benchmark.Prelude.{
  ℕ, suc, zero, ◌+◌, String, Bool, true, false, Option, none, some, List, [], ◌∷◌, ◌++◌, str_eq,
  is_blank, leb, ltb, if◌then◌else◌, ◌&&◌, ◌||◌, not, map,
}
use yonwork_benchmark.Json.{Json, Fields, get, as_text}
use yonwork_benchmark.Models.Records.{UsageSample}
use yonwork_benchmark.NewApi.Fetch.{Fetched, fetch_logs}
use yonwork_benchmark.NewApi.Match.{Run, is_call, stamp_of}
use yonwork_benchmark.NewApi.Match.Samples.{BackendSample, match_logs}

-- A round with both times and a requested model.
pub record Turn : Type 0 where
  pub benchmark_id : String
  pub started_at : ℕ
  pub ended_at : ℕ
  pub requested_model : String
  pub token_name : String

unfoldable pub is_text : String → Json → Bool
is_text s (Json.text t) = str_eq t s
is_text s _ = false

-- `low <= stamp <= high`: the times of the round are cut to whole seconds, as stamps are.
unfoldable pub in_turn : Turn → ℕ → Bool
in_turn t stamp = ltb t.started_at (stamp + 1000) && leb stamp t.ended_at

-- The tests on the time, the model and the token of a log.
unfoldable pub belongs : Turn → ℕ → Fields → Bool
unfolding in_turn is_text get
belongs t stamp row =
    in_turn t stamp
    && (is_text t.requested_model (get "model_name" row)
        && (is_blank t.token_name || is_text t.token_name (get "token_name" row)))

-- The body of the loop over the logs: what it does with one, `none` where it raises.
unfoldable pub takes_row : Turn → Fields → Option Bool
unfolding belongs stamp_of is_call
takes_row t row =
    if is_call row
    then elim (stamp_of row) [ none ↦ none | some stamp ↦ some (belongs t stamp row) ]
    else some false

abbrev pub take_if : Bool → Fields → List Fields → List Fields
take_if true row rows = row ∷ rows
take_if false row rows = rows

-- The rows of one attempt.
unfoldable pub rows_of_turn : Turn → List Fields → Option (List Fields)
unfolding takes_row
rows_of_turn t [] = some []
rows_of_turn t (row ∷ rows) = elim (takes_row t row) [
  | none ↦ none
  | some taken ↦ elim (rows_of_turn t rows) [
    | none ↦ none
    | some rest ↦ some (take_if taken row rest)
  ]
]

-- One attempt, over what the gateway replies to its pages.
unfoldable pub attempt : Turn → (ℕ → Option Json) → Option (List Fields)
unfolding rows_of_turn fetch_logs
attempt t reply = elim (fetch_logs reply) [
  | none ↦ none
  | some result ↦ elim result [
    | Fetched.fetched logs ↦ rows_of_turn t logs
    | Fetched.failed e ↦ none
  ]
]

-- The attempts after the first, `n` more: each replaces the rows of the one before it.
unfoldable pub attempts_from :
    Turn → (ℕ → ℕ → Option Json) → ℕ → ℕ → List Fields → Option (List Fields)
unfolding attempt
attempts_from t replies zero k rows = some rows
attempts_from t replies (suc n) k rows = elim (attempt t (replies k)) [
  | none ↦ none
  | some fresh ↦ attempts_from t replies n (suc k) fresh
]

-- `range(max(1, attempts))`
abbrev pub at_least_one : ℕ → ℕ
at_least_one zero = 1
at_least_one (suc n) = suc n

unfoldable pub gather : Turn → (ℕ → ℕ → Option Json) → ℕ → Option (List Fields)
unfolding attempts_from
gather t replies attempts = attempts_from t replies (at_least_one attempts) 0 []

abbrev copy_key : String → Fields → Fields → Fields
copy_key key row rest = Fields.field key (get key row) rest

-- What is kept of a log as evidence.
abbrev pub entry_of : Fields → Fields
entry_of row = copy_key "created_at" row (
    copy_key "type" row (
      copy_key "model_name" row
        (copy_key "prompt_tokens" row (copy_key "completion_tokens" row Fields.end))))

abbrev pub run_of : Turn → Run
run_of t = record {
  benchmark_id = t.benchmark_id;
  started_at = some t.started_at;
  ended_at = some t.ended_at;
}

-- `iso_of` writes a time.
module _ (read_int : String → Option ℕ) (iso_of : ℕ → String) where
  abbrev pub usage_of : List Fields → BackendSample → UsageSample
  usage_of rows s = record {
    source = "newapi";
    input_tokens = some s.input_tokens;
    output_tokens = some s.output_tokens;
    total_tokens = some s.total_tokens;
    cache_read_tokens = none;
    cache_write_tokens = none;
    cost_usd = none;
    model = as_text s.model;
    provider = none;
    session_id = none;
    timestamp = some (iso_of s.sampled_at);
    match = "time-window+model";
    api_calls = some s.api_calls;
    error_calls = some s.error_calls;
    log_entries = map entry_of rows;
  }

  -- `samples[0]`
  abbrev pub first_sample : List Fields → List BackendSample → Option UsageSample
  first_sample rows [] = none
  first_sample rows (s ∷ rest) = some (usage_of rows s)

  -- What is made of the rows; `some none` is the answer None.
  unfoldable pub sample_rows : Turn → List Fields → Option (Option UsageSample)
  unfolding match_logs
  sample_rows t [] = some none
  sample_rows t (row ∷ rows) = elim (match_logs read_int (row ∷ rows) (run_of t ∷ [])) [
    | none ↦ none
    | some (samples, stray) ↦ elim (first_sample (row ∷ rows) samples) [
      | none ↦ none
      | some usage ↦ some (some usage)
    ]
  ]

  -- The checks on the round: `none` where one fails or something else raises.
  unfoldable pub collect_turn_logs : Turn → (ℕ → ℕ → Option Json) → ℕ → Option (Option UsageSample)
  unfolding gather sample_rows
  collect_turn_logs t replies attempts =
      if ltb t.ended_at t.started_at || is_blank t.requested_model
      then none
      else elim (gather t replies attempts) [ none ↦ none | some rows ↦ sample_rows t rows ]
