-- ===== src/Models/Records.antt =====
-- `ChatTurn`, `UsageSample`, `LogStats`, `ModelCallCollection`, `Check` and `RunRecord` of
-- runner/models.py, with `observed_tool_count` and the choice of a round's usage sample.
use yonwork_benchmark.Prelude.{
  ◌≡◌, Given, ℕ, suc, String, Bool, false, ◌||◌, Option, none, some, List, [], ◌∷◌, str_eq,
  find_first, if◌then◌else◌, is_some,
}
use yonwork_benchmark.Json.{Json, Fields, Items, arr, text, nil, cons, get, is_truthy}
use yonwork_benchmark.Models.Severity.{Verdict}

pub data Layer : Type 0 where
  completion artifact log content cost : Layer

-- Seconds are counted in milliseconds, the precision to which the clients round them.
pub record ChatTurn : Type 0 where
  pub benchmark_id : String
  pub session_key : String
  pub prompt : String
  pub started_at : String
  pub ended_at : String
  pub duration_seconds : ℕ
  pub run_id : Option String
  pub answer : Option String
  pub first_delta_seconds : Option ℕ
  pub engine_seconds : Option ℕ
  pub terminated_by : Option String
  pub stop_reason : Option String
  pub final_state : Option String
  pub event_counts : List (String × ℕ)
  pub tool_calls : List String
  pub tool_calls_status : String
  pub tool_calls_source : String
  pub tool_calls_detail : String
  pub requested_model : Option String
  pub requested_model_label : Option String
  pub requested_provider : Option String
  pub tools_enabled : Option Bool
  pub stream_error : Option Fields
  pub http_status : Option ℕ
  pub transcript_path : Option String

-- `cost_usd` is never read by the code modelled here: its presence is kept, as a count of
-- millionths.
pub record UsageSample : Type 0 where
  pub source : String
  pub input_tokens : Option ℕ
  pub output_tokens : Option ℕ
  pub total_tokens : Option ℕ
  pub cache_read_tokens : Option ℕ
  pub cache_write_tokens : Option ℕ
  pub cost_usd : Option ℕ
  pub model : Option String
  pub provider : Option String
  pub session_id : Option String
  pub timestamp : Option String
  pub match : String
  pub api_calls : Option ℕ
  pub error_calls : Option ℕ
  pub log_entries : List Fields

abbrev pub default_usage : UsageSample
default_usage = record {
  source = "device-api";
  input_tokens = none;
  output_tokens = none;
  total_tokens = none;
  cache_read_tokens = none;
  cache_write_tokens = none;
  cost_usd = none;
  model = none;
  provider = none;
  session_id = none;
  timestamp = none;
  match = "none";
  api_calls = none;
  error_calls = none;
  log_entries = [];
}

pub record LogStats : Type 0 where
  pub api_calls : Option ℕ
  pub error_calls : Option ℕ
  pub source : String

pub data CollectionStatus : Type 0 where
  disabled observed unavailable : CollectionStatus

-- `none` is Python's `None`: the check was not executed.
pub record Check : Type 0 where
  pub layer : Layer
  pub name : String
  pub verdict : Option Verdict

abbrev pub skipped : Layer → String → Check
skipped layer name = record { layer = layer; name = name; verdict = none }

abbrev pub executed : Check → Bool
executed check = is_some check.verdict

abbrev pub judged : Layer → String → Verdict → Check
judged layer name verdict = record { layer = layer; name = name; verdict = some verdict }

-- A check that passed or was not executed.
abbrev pub IsClean : Check → Type 0
IsClean check = Given (λ v. v ≡ Verdict.pass) check.verdict

pub length_items : Items → ℕ
length_items nil = 0
length_items (cons x xs) = suc (length_items xs)

is_observed : Json → Bool
is_observed (text status) = str_eq status "observed"
is_observed _ = false

count_calls : Json → Json → Option ℕ
unfolding length_items is_observed
count_calls (arr calls) status =
    if is_truthy (arr calls) || is_observed status then some (length_items calls) else none
count_calls _ status = none

-- `turn` is a recorded round as JSON. An empty list of calls counts as 0 only if the calls were
-- fully observed.
unfoldable pub observed_tool_count : Fields → Option ℕ
unfolding count_calls
observed_tool_count turn = count_calls (get "tool_calls" turn) (get "tool_calls_status" turn)

abbrev pub usage_sources : List String
usage_sources = "device-api" ∷ "session-jsonl" ∷ "workbuddy-cli" ∷ "newapi" ∷ []

-- The first sample of one source.
abbrev pub sample_from : String → List UsageSample → Option UsageSample
sample_from source samples = find_first (λ s. str_eq s.source source) samples

-- `RunRecord.usage`: the two nested loops, with the early return from the inner one.
unfoldable pub usage_by : List String → List UsageSample → Option UsageSample
usage_by [] samples = none
usage_by (source ∷ sources) samples = elim (sample_from source samples) [
  | some sample ↦ some sample
  | none ↦ usage_by sources samples
]
