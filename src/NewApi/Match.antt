-- ===== src/NewApi/Match.antt =====
-- `match_logs` of runner/newapi.py: each log is put into the round whose time window it falls into.
pub mod Samples
pub mod Answers
pub mod Laws
pub mod Choice
pub mod Reference
use yonwork_benchmark.Json.{Json, Fields, Items, get, is_truthy, as_text}
use Prim.Native.Nat.{◌*◌}
use yonwork_benchmark.Prelude.{
  ℕ, suc, Option, none, some, List, [], ◌∷◌, ◌++◌, Bool, true, false, ◌==◌, leb, ltb, is_empty,
  length, if◌then◌else◌, ◌&&◌, ◌||◌, not, String, str_eq, keep, ◌+◌, ◌-◌,
}

abbrev pub type_consume : ℕ
type_consume = 2

abbrev pub type_error : ℕ
type_error = 4

-- A round's `started_at` and `ended_at` are milliseconds since the epoch; `MATCH_SLACK_SECONDS`.
abbrev pub match_slack : ℕ
match_slack = 15000

pub record Run : Type 0 where
  pub benchmark_id : String
  pub started_at : Option ℕ
  pub ended_at : Option ℕ

-- A round that has both times; the slack is added where the window is tested.
pub record Window : Type 0 where
  pub benchmark_id : String
  pub started_at : ℕ
  pub ended_at : ℕ

unfoldable pub window_of : Run → Option Window
window_of r = elim r.started_at [
  | none ↦ none
  | some started ↦ elim r.ended_at [
    | none ↦ none
    | some ended ↦
        some (record { benchmark_id = r.benchmark_id; started_at = started; ended_at = ended })
  ]
]

unfoldable pub windows_of : List Run → List Window
unfolding window_of
windows_of [] = []
windows_of (r ∷ runs) =
    let rest = windows_of runs in elim (window_of r) [ none ↦ rest | some w ↦ w ∷ rest ]

-- `v == n`, but for a Boolean, which equals neither type.
abbrev pub is_num : ℕ → Json → Bool
is_num n (Json.num m) = m == n
is_num n _ = false

-- `log.get("type") == t`
unfoldable pub has_type : ℕ → Fields → Bool
unfolding get
has_type t log = is_num t (get "type" log)

unfoldable pub is_call : Fields → Bool
unfolding has_type
is_call log = has_type type_consume log || has_type type_error log

-- `created_at` where it is a number, as milliseconds; a Boolean is the number 0 or 1.
unfoldable pub stamp_of : Fields → Option ℕ
unfolding get
stamp_of log = elim (get "created_at" log) [
  | Json.num n ↦ some (n * 1000)
  | Json.bool true ↦ some 1000
  | Json.bool false ↦ some 0
  | _ ↦ none
]

unfoldable pub in_window : ℕ → Window → Bool
in_window stamp w = leb w.started_at (stamp + match_slack) && leb stamp (w.ended_at + match_slack)

-- `abs(ended_at - stamp)`
unfoldable pub distance : ℕ → Window → ℕ
distance stamp w = if leb w.ended_at stamp then stamp - w.ended_at else w.ended_at - stamp

-- `min` keeps the first of the nearest.
unfoldable pub nearest : ℕ → List Window → Option Window
unfolding distance
nearest stamp [] = none
nearest stamp (w ∷ ws) = elim (nearest stamp ws) [
  | none ↦ some w
  | some b ↦ if leb (distance stamp w) (distance stamp b) then some w else some b
]

-- The window that a log is put into.
unfoldable pub window_for : List Window → Fields → Option Window
window_for windows log = elim (stamp_of log) [
  | none ↦ none
  | some stamp ↦ nearest stamp (keep (in_window stamp) windows)
]

-- One entry of the dictionary `buckets`, whose keys keep the order of their first insertion.
pub record Bucket : Type 0 where
  pub benchmark_id : String
  pub rows : List Fields

-- `buckets.setdefault(id, []).append(log)`
unfoldable pub add_row : String → Fields → List Bucket → List Bucket
add_row id log [] = (record { benchmark_id = id; rows = log ∷ [] }) ∷ []
add_row id log (b ∷ bs) =
    let rest = add_row id log bs in
    if str_eq b.benchmark_id id then record b { rows = b.rows ++ log ∷ [] } ∷ bs else b ∷ rest

pub record Sorted : Type 0 where
  pub buckets : List Bucket
  pub unmatched : List Fields

unfoldable pub place_in : Option Window → Sorted → Fields → Sorted
unfolding add_row
place_in none s log = record s { unmatched = s.unmatched ++ log ∷ [] }
place_in (some w) s log = record s { buckets = add_row w.benchmark_id log s.buckets }

-- The body of the loop over the logs.
unfoldable pub place_log : List Window → Sorted → Fields → Sorted
unfolding place_in
place_log windows s log = if is_call log then place_in (window_for windows log) s log else s

unfoldable pub place_logs : List Window → Sorted → List Fields → Sorted
unfolding place_log
place_logs windows s [] = s
place_logs windows s (log ∷ logs) = place_logs windows (place_log windows s log) logs
