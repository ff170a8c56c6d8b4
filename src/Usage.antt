-- ===== src/Usage.antt =====
-- runner/usage.py: matching the product's usage rows to a round, and the counts for the log layer.
pub mod Matching
use yonwork_benchmark.Assertions.Artifacts.{answer_text}
use yonwork_benchmark.Models.Records.{default_usage, UsageSample, ChatTurn, LogStats}
use yonwork_benchmark.Json.{bool, get, text, num, as_text, Json, Fields}
use yonwork_benchmark.Prelude.{
  true, [], has_part, false, strip, ◌&&◌, str_eq, not, is_blank, ◌+◌, if◌then◌else◌, leb, ◌∷◌,
  find_first, or_else, Bool, some, List, none, Option, ℕ, String,
}

-- Rows that are JSON objects; `_as_int` and the type tests of `_sample`.
as_int : Json → Option ℕ
as_int (num n) = some n
as_int _ = none

-- `isinstance(v, (int, float))`, which a Boolean satisfies too.
as_cost : Json → Option ℕ
as_cost (num n) = some n
as_cost (bool true) = some 1
as_cost (bool false) = some 0
as_cost _ = none

unfoldable pub sample : Fields → String → UsageSample
unfolding as_int as_cost
sample row match = record default_usage {
  input_tokens = as_int (get "inputTokens" row);
  output_tokens = as_int (get "outputTokens" row);
  total_tokens = as_int (get "totalTokens" row);
  cache_read_tokens = as_int (get "cacheReadTokens" row);
  cache_write_tokens = as_int (get "cacheWriteTokens" row);
  cost_usd = as_cost (get "costUsd" row);
  model = as_text (get "model" row);
  provider = as_text (get "provider" row);
  session_id = as_text (get "sessionId" row);
  timestamp = as_text (get "timestamp" row);
  match = match;
}

abbrev pub match_slack : ℕ
match_slack = 15000

unfoldable pub has_run_id : String → Fields → Bool
has_run_id benchmark_id row = elim (get "runId" row) [
  | text r ↦ str_eq r benchmark_id
  | other ↦ false
]

-- `content.strip() and content.strip() in answer`
unfoldable pub matches_answer : String → Fields → Bool
matches_answer answer row = elim (get "content" row) [
  | text content ↦ not (is_blank (strip content)) && has_part answer (strip content)
  | other ↦ false
]

-- `datetime.fromisoformat` of the text with `Z` for `+00:00`, made aware, as milliseconds since the
-- epoch: `none` where it raises.
module _ (from_iso : String → Option ℕ) where
  parse_text : Option String → Option ℕ
  parse_text none = none
  parse_text (some s) = if is_blank s then none else from_iso s

  unfoldable pub parse_time : Json → Option ℕ
  unfolding parse_text
  parse_time value = parse_text (as_text value)

  -- `low <= stamp <= high`, with the slack on the other side where `-` would stop at 0.
  abbrev pub in_window : ℕ → ℕ → ℕ → Bool
  in_window started ended stamp =
      leb started (stamp + match_slack) && leb stamp (ended + match_slack)

  candidates_in : ℕ → ℕ → List Fields → List (ℕ × Fields)
  unfolding parse_time
  candidates_in started ended [] = []
  candidates_in started ended (row ∷ rows) =
      let rest = candidates_in started ended rows in
      elim (parse_time (get "timestamp" row)) [
        | some stamp ↦ if in_window started ended stamp then (stamp, row) ∷ rest else rest
        | none ↦ rest
      ]

  -- The last element after a stable sort by time: a later element replaces it unless it is older.
  latest : ℕ × Fields → List (ℕ × Fields) → ℕ × Fields
  latest best [] = best
  latest best (c ∷ cs) = latest (if leb best.0 c.0 then c else best) cs

  by_window : String → List (ℕ × Fields) → Option UsageSample
  unfolding sample latest matches_answer
  by_window answer [] = none
  by_window answer (c ∷ cs) =
      elim (if is_blank answer
        then none
        else find_first (λ k. matches_answer answer k.1) (c ∷ cs)) [
          | some k ↦ some (sample k.1 "time-window+content")
          | none ↦ some (sample (latest c cs).1 "time-window")
        ]

  match_rows : List Fields → String → String → ℕ → ℕ → Option UsageSample
  unfolding has_run_id sample candidates_in by_window
  match_rows rows benchmark_id answer started ended =
      elim (find_first (has_run_id benchmark_id) rows) [
        | some row ↦ some (sample row "run-id")
        | none ↦ by_window answer (candidates_in started ended rows)
      ]

  unfoldable pub match_usage : List Fields → ChatTurn → Option UsageSample
  unfolding match_rows parse_time answer_text
  match_usage rows turn = elim (parse_time (text turn.started_at)) [
    | none ↦ none
    | some started ↦ elim (parse_time (text turn.ended_at)) [
      | none ↦ none
      | some ended ↦ match_rows rows turn.benchmark_id (answer_text turn) started ended
    ]
  ]

abbrev pub no_stats : LogStats
no_stats = record { api_calls = none; error_calls = none; source = "unavailable" }

-- `turn.run_id` as a condition.
stats_of_turn : Option ChatTurn → LogStats
stats_of_turn none = no_stats
stats_of_turn (some turn) =
    if not (is_blank (or_else turn.run_id ""))
    then record { api_calls = some 1; error_calls = none; source = "sse:run-id" }
    else record { api_calls = some 0; error_calls = none; source = "sse:no-run-id" }

unfoldable pub log_stats_from_usage : Option UsageSample → Option ChatTurn → LogStats
unfolding stats_of_turn
log_stats_from_usage (some u) turn = record {
  api_calls = some (or_else u.api_calls 1);
  error_calls = u.error_calls;
  source = u.source;
}
log_stats_from_usage none turn = stats_of_turn turn
