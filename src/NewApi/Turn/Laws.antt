-- ===== src/NewApi/Turn/Laws.antt =====
-- What a sample that `collect_turn_logs` gives rests on.
use yonwork_benchmark.Prelude.{ℕ, suc, zero, String, Option, some, List, ◌≡◌, keep, length, map}
use yonwork_benchmark.Json.{Json, Fields}
use yonwork_benchmark.Models.Records.{UsageSample}
use yonwork_benchmark.NewApi.Fetch.{Fetched, fetch_logs}
use yonwork_benchmark.NewApi.Turn.{Turn, entry_of}
use yonwork_benchmark.NewApi.Turn.Rows.{is_row}

-- The number of the last attempt, counted from 0.
abbrev pub last_attempt : ℕ → ℕ
last_attempt zero = 0
last_attempt (suc n) = n

-- The rows of one attempt and the logs they come from.
record IsAttempt (t : Turn) (reply : ℕ → Option Json) (rows : List Fields) : Type 0 where
  pub logs : List Fields
  pub read : fetch_logs reply ≡ some (Fetched.fetched logs)
  pub kept : rows ≡ keep (is_row t) logs

-- A sample of some rows that counts each of them and keeps the evidence of each.
pub record IsSampleOfRows (rows : List Fields) (u : UsageSample) : Type 0 where
  pub counted : u.api_calls ≡ some (length rows)
  pub entries : u.log_entries ≡ map entry_of rows

module _ (read_int : String → Option ℕ) (iso_of : ℕ → String) where
  -- The logs that the last attempt read, of which the sample is made.
  pub record IsEvidence (t : Turn) (reply : ℕ → Option Json) (u : UsageSample) : Type 0 where
    pub logs : List Fields
    pub read : fetch_logs reply ≡ some (Fetched.fetched logs)
    pub sampled : IsSampleOfRows (keep (is_row t) logs) u
