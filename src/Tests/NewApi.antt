-- ===== src/Tests/NewApi.antt =====
-- A log of three entries on two pages, and two rounds.
use yonwork_benchmark.Prelude.{
  ◌==◌, if◌then◌else◌, Option, some, none, List, [], ◌∷◌, ℕ, String, ◌≡◌, refl, true, keep, length,
  is_some, ◌+◌,
}
use yonwork_benchmark.Json.{Json, Fields, Items, get, is_truthy}
use yonwork_benchmark.NewApi.Fetch.{fetch_logs, fetched}
use yonwork_benchmark.NewApi.Fetch.Laws.{fetch_logs_ends}
use yonwork_benchmark.NewApi.Fetch.Snapshot.{Snapshot, fetch_logs-Snapshot}
use yonwork_benchmark.NewApi.Match.{
  in_window, nearest, stamp_of, place_logs, Run, Window, windows_of, window_for, is_call,
}
use yonwork_benchmark.NewApi.Match.Choice.{IsPlaced}
use yonwork_benchmark.Prelude.{◌↔◌}
use yonwork_benchmark.NewApi.Match.Reference.{IsCall}
use yonwork_benchmark.NewApi.Match.Samples.{
  latest, first_model, use_times, sum_values, int_or_zero, sum_field, sample_of, samples_of,
  match_logs, BackendSample,
}
use yonwork_benchmark.NewApi.Match.Reference.{match_logs_places, goes_to, is_stray, rows_of}
use yonwork_benchmark.NewApi.Match.Laws.{match_logs_conserves, sum_calls}

abbrev entry : ℕ → ℕ → Fields
entry type stamp = Fields.field "type" (Json.num type) (
    Fields.field "created_at" (Json.num stamp)
      (Fields.field "prompt_tokens" (Json.num 5) Fields.end))

abbrev body : Items → Option Json
body items = some (
    Json.obj (
      Fields.field "success" (Json.bool true) (
        Fields.field "data"
          (Json.obj
            (Fields.field "items" (Json.arr items) (Fields.field "total" (Json.num 3) Fields.end)))
          Fields.end)))

abbrev reply : ℕ → Option Json
reply p =
    if p == 1
    then body (Items.cons (Json.obj (entry 2 100)) (Items.cons (Json.obj (entry 4 130)) Items.nil))
    else body (Items.cons (Json.obj (entry 2 900)) Items.nil)

abbrev logs : List Fields
logs = entry 2 100 ∷ entry 4 130 ∷ entry 2 900 ∷ []

read : fetch_logs reply ≡ some (fetched logs)
unfolding fetch_logs get is_truthy
read = refl

fetch_logs_ends_example : is_some (fetch_logs reply) ≡ true
fetch_logs_ends_example = fetch_logs_ends reply

fetch_logs-Snapshot_example : Snapshot reply 1 none [] logs
fetch_logs-Snapshot_example = fetch_logs-Snapshot reply logs read

abbrev first : Window
first = record { benchmark_id = "a"; started_at = 95000; ended_at = 105000 }

abbrev runs : List Run
runs =
    record { benchmark_id = "a"; started_at = some 95000; ended_at = some 105000 }
    ∷ record { benchmark_id = "b"; started_at = some 112000; ended_at = some 131000 }
    ∷ []

abbrev no_int : String → Option ℕ
no_int s = none

abbrev sample : String → ℕ → ℕ → Fields → BackendSample
sample id tokens errors row = record {
  benchmark_id = id;
  input_tokens = tokens;
  output_tokens = 0;
  total_tokens = tokens;
  model = Json.null;
  api_calls = 1;
  error_calls = errors;
  use_time = none;
  sampled_at = 0;
  raw = row ∷ [];
}

abbrev samples : List BackendSample
samples =
    record (sample "a" 5 0 (entry 2 100)) { sampled_at = 100000 }
    ∷ record (sample "b" 0 1 (entry 4 130)) { sampled_at = 130000 }
    ∷ []

matched : match_logs no_int logs runs ≡ some (samples, entry 2 900 ∷ [])
unfolding match_logs get is_truthy samples_of place_logs is_call window_for stamp_of nearest
    windows_of in_window sample_of sum_field int_or_zero sum_values use_times first_model latest
matched = refl

match_logs_places_example :
    ((id : String) → rows_of id samples ≡ keep (goes_to (windows_of runs) id) logs)
    × (entry 2 900 ∷ [] ≡ keep (is_stray (windows_of runs)) logs)
    × ((log : Fields) → IsPlaced (windows_of runs) log (window_for (windows_of runs) log))
    × ((log : Fields) → (is_call log ≡ true) ↔ IsCall log)
match_logs_places_example = match_logs_places no_int logs runs samples (entry 2 900 ∷ []) matched

match_logs_conserves_example : sum_calls samples + 1 ≡ length (keep is_call logs)
match_logs_conserves_example =
    match_logs_conserves no_int logs runs samples (entry 2 900 ∷ []) matched

placed : window_for (windows_of runs) (entry 2 100) ≡ some first
unfolding window_for windows_of get stamp_of nearest in_window
placed = refl
