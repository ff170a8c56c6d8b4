-- ===== src/Tests/Usage.antt =====
-- A round whose usage row has no run id and is found by its time.
use yonwork_benchmark.Prelude.{
  Option, some, none, List, [], ◌∷◌, ℕ, String, if◌then◌else◌, str_eq, ◌≡◌, refl, strip, has_part,
}
use yonwork_benchmark.Json.{Json, Fields, get, as_text}
use yonwork_benchmark.Usage.{match_usage, sample}
use yonwork_benchmark.Usage.Matching.{match_usage-Origin, Origin}
use yonwork_benchmark.Tests.Data.{turn}

abbrev from_iso : String → Option ℕ
from_iso s =
    if str_eq s "10:00" then some 36000000 else if str_eq s "10:01" then some 36060000 else none

abbrev near_row : Fields
near_row = Fields.field "timestamp" (Json.text "10:01") (
    Fields.field "inputTokens" (Json.num 12) (Fields.field "content" (Json.text " hi ") Fields.end))

abbrev rows : List Fields
rows = near_row ∷ []

found : match_usage from_iso rows turn ≡ some (sample near_row "time-window+content")
unfolding match_usage get strip has_part as_text
found = refl

match_usage-Origin_example : Origin from_iso rows turn (sample near_row "time-window+content")
match_usage-Origin_example =
    match_usage-Origin from_iso rows turn (sample near_row "time-window+content") found
