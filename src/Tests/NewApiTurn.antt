-- ===== src/Tests/NewApiTurn.antt =====
-- A round of which the gateway's last answer shows one more log than the one before.
use yonwork_benchmark.Prelude.{
  ◌==◌, if◌then◌else◌, Option, some, none, [], ◌∷◌, ℕ, String, ◌≡◌, refl, true,
}
use yonwork_benchmark.Json.{Json, Fields, Items}
use yonwork_benchmark.Models.Records.{UsageSample}
use yonwork_benchmark.NewApi.Turn.{Turn, collect_turn_logs, entry_of}

abbrev log : ℕ → String → ℕ → Fields
log type model stamp = Fields.field "type" (Json.num type) (
    Fields.field "created_at" (Json.num stamp) (
      Fields.field "model_name" (Json.text model)
        (Fields.field "prompt_tokens" (Json.num 5) Fields.end)))

abbrev body : ℕ → Items → Option Json
body total items = some (
    Json.obj (
      Fields.field "success" (Json.bool true) (
        Fields.field "data"
          (Json.obj (
            Fields.field "items" (Json.arr items)
              (Fields.field "total" (Json.num total) Fields.end)))
          Fields.end)))

abbrev replies : ℕ → ℕ → Option Json
replies attempt page =
    if attempt == 0
    then body 0 Items.nil
    else body 2 (
        Items.cons (Json.obj (log 2 "m" 100)) (Items.cons (Json.obj (log 2 "other" 100)) Items.nil))

abbrev turn : Turn
turn = record {
  benchmark_id = "bench-1";
  started_at = 100500;
  ended_at = 104000;
  requested_model = "m";
  token_name = "";
}

abbrev no_int : String → Option ℕ
no_int s = none

abbrev no_iso : ℕ → String
no_iso n = "then"

abbrev usage : UsageSample
usage = record {
  source = "newapi";
  input_tokens = some 5;
  output_tokens = some 0;
  total_tokens = some 5;
  cache_read_tokens = none;
  cache_write_tokens = none;
  cost_usd = none;
  model = some "m";
  provider = none;
  session_id = none;
  timestamp = some "then";
  match = "time-window+model";
  api_calls = some 1;
  error_calls = some 0;
  log_entries = entry_of (log 2 "m" 100) ∷ [];
}

nothing_yet : collect_turn_logs no_int no_iso turn replies 1 ≡ some none
unfolding collect_turn_logs
nothing_yet = refl
