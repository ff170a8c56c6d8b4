-- ===== src/NewApi/Turn/Rows.antt =====
-- The rows of a round, and the one bucket that they are put into.
use mathlib.Core.Option.{some-injective}
use mathlib.Core.List.{append-nil, append_assoc}
use yonwork_benchmark.Prelude.{
  keep_no, keep_yes, ℕ, ◌+◌, String, Bool, true, false, Option, none, some, List, [], ◌∷◌, ◌++◌,
  leb, ltb, ◌≡◌, refl, ap, sym, ◌∙◌, ◌&&◌, All, keep, Bool-cases, Option-cases, inl, inr, arith,
  eq_refl,
}
use yonwork_benchmark.Json.{Fields}
use yonwork_benchmark.NewApi.Match.{
  Window, windows_of, window_of, is_call, stamp_of, window_for, nearest, in_window, Sorted, add_row,
  place_in, place_log, place_logs,
}
use yonwork_benchmark.NewApi.Match.Answers.{nothing}
use yonwork_benchmark.NewApi.Turn.{Turn, takes_row, rows_of_turn, take_if, belongs, in_turn, run_of}

abbrev pub stamp_belongs : Turn → Fields → Option ℕ → Bool
stamp_belongs t row none = false
stamp_belongs t row (some stamp) = belongs t stamp row

-- A log of a call whose stamp, model and token are those of the round.
unfoldable pub is_row : Turn → Fields → Bool
is_row t row = is_call row && stamp_belongs t row (stamp_of row)

takes_row-is_row :
    (t : Turn) (row : Fields) (b : Bool) → takes_row t row ≡ some b → b ≡ is_row t row
unfolding takes_row is_row
takes_row-is_row t row b h = elim (Bool-cases (is_call row)) [
  | inl e ↦ elim (Option-cases (stamp_of row)) [
    | inl f ↦ absurd (cc (rw (e, f, takes_row) at h))
    | inr (stamp, f) ↦
        let k = some-injective _ b (rw (e, f, takes_row) at h) in rw (e, f, is_row) (sym k)
  ]
  | inr e ↦ let k = some-injective false b (rw (e, takes_row) at h) in rw (e, is_row) (sym k)
]

take_if-keep :
    (t : Turn) (row : Fields) (rows : List Fields)
    → take_if (is_row t row) row (keep (is_row t) rows) ≡ keep (is_row t) (row ∷ rows)
take_if-keep t row rows = elim (Bool-cases (is_row t row)) [
  | inl e ↦ rw (keep_yes (is_row t) row rows e, e) refl
  | inr e ↦ rw (keep_no (is_row t) row rows e, e) refl
]

-- The rows that a round takes of some logs, if nothing raises.
pub rows_of_turn-keep :
    (t : Turn) (logs rows : List Fields)
    → rows_of_turn t logs ≡ some rows
    → rows ≡ keep (is_row t) logs
unfolding rows_of_turn
rows_of_turn-keep t [] rows h = sym (some-injective [] rows h)
rows_of_turn-keep t (log ∷ logs) rows h = elim (Option-cases (takes_row t log)) [
  | inl e ↦ absurd (cc (rw (e, rows_of_turn) at h))
  | inr (b, e) ↦ elim (Option-cases (rows_of_turn t logs)) [
    | inl f ↦ absurd (cc (rw (e, f, rows_of_turn) at h))
    | inr (rest, f) ↦
        let k = some-injective (take_if b log rest) rows (rw (e, f, rows_of_turn) at h) in
        sym k
        ∙ ap (λ c. take_if c log rest) (takes_row-is_row t log b e)
        ∙ ap (take_if (is_row t log) log) (rows_of_turn-keep t logs rest f)
        ∙ take_if-keep t log logs
  ]
]

abbrev pub AreRows : Turn → List Fields → Type 0
AreRows t = All (λ row. is_row t row ≡ true)

pub keep-AreRows : (t : Turn) (logs : List Fields) → AreRows t (keep (is_row t) logs)
keep-AreRows t [] = tt
keep-AreRows t (log ∷ logs) = elim (Bool-cases (is_row t log)) [
  | inl e ↦ rw (e, keep) (e, keep-AreRows t logs)
  | inr e ↦ rw (e, keep) (keep-AreRows t logs)
]

abbrev turn_window : Turn → Window
turn_window t = record {
  benchmark_id = t.benchmark_id;
  started_at = t.started_at;
  ended_at = t.ended_at;
}

pub and_true : (a b : Bool) → (a && b) ≡ true → (a ≡ true) × (b ≡ true)
and_true true b h = (refl, h)
and_true false b h = absurd (cc (h))

belongs-in_window :
    (t : Turn) (row : Fields) (stamp : ℕ)
    → belongs t stamp row ≡ true
    → in_window stamp (turn_window t) ≡ true
unfolding belongs in_turn in_window
belongs-in_window t row stamp h =
    let inside = (and_true (in_turn t stamp) _ h).0 in
    let (low, high) = and_true (ltb t.started_at (stamp + 1000)) (leb stamp t.ended_at) inside in
    ground (arith, low, high)

-- A row of a round is put into the window of the round.
window_for-is_row :
    (t : Turn) (row : Fields)
    → is_row t row ≡ true
    → window_for (turn_window t ∷ []) row ≡ some (turn_window t)
unfolding is_row window_for nearest
window_for-is_row t row h = elim (Option-cases (stamp_of row)) [
  | inl e ↦ absurd (cc (e, (and_true (is_call row) (stamp_belongs t row (stamp_of row)) h).1))
  | inr (stamp, e) ↦
      let b = (and_true (is_call row) (stamp_belongs t row (stamp_of row)) h).1 in
      let w = belongs-in_window t row stamp (ap (stamp_belongs t row) (sym e) ∙ b) in
      rw (e, window_for, keep_yes (in_window stamp) (turn_window t) [] w) refl
]

unfoldable pub one_bucket : Turn → List Fields → Sorted
one_bucket t rows = record {
  buckets = record { benchmark_id = t.benchmark_id; rows = rows } ∷ [];
  unmatched = [];
}

add_row_again :
    (id : String) (rows : List Fields) (row : Fields)
    → add_row id row (record { benchmark_id = id; rows = rows } ∷ [])
      ≡ record { benchmark_id = id; rows = rows ++ row ∷ [] } ∷ []
unfolding add_row
add_row_again id rows row = rw (eq_refl id) refl

place_log-row :
    (t : Turn) (s : Sorted) (row : Fields)
    → is_row t row ≡ true
    → place_log (turn_window t ∷ []) s row ≡ place_in (some (turn_window t)) s row
unfolding place_log is_row
place_log-row t s row h =
    rw ((and_true (is_call row) (stamp_belongs t row (stamp_of row)) h).0, place_log)
      (ap (λ w. place_in w s row) (window_for-is_row t row h))

place_log-again :
    (t : Turn) (taken : List Fields) (row : Fields)
    → is_row t row ≡ true
    → place_log (turn_window t ∷ []) (one_bucket t taken) row ≡ one_bucket t (taken ++ row ∷ [])
unfolding one_bucket place_in
place_log-again t taken row h =
    place_log-row t (one_bucket t taken) row h
    ∙ ap (λ b. record { buckets = b; unmatched = [] }) (add_row_again t.benchmark_id taken row)

place_logs-AreRows :
    (t : Turn) (taken rows : List Fields)
    → AreRows t rows
    → place_logs (turn_window t ∷ []) (one_bucket t taken) rows ≡ one_bucket t (taken ++ rows)
unfolding place_logs one_bucket
place_logs-AreRows t taken [] h = ap (one_bucket t) (sym (append-nil taken))
place_logs-AreRows t taken (row ∷ rows) h =
    ap (λ s. place_logs (turn_window t ∷ []) s rows) (place_log-again t taken row h.0)
    ∙ place_logs-AreRows t (taken ++ row ∷ []) rows h.1
    ∙ ap (one_bucket t) (append_assoc taken (row ∷ []) rows)

-- The rows of a round, at least one, are put into one bucket, and none is left.
pub place_logs-one_bucket :
    (t : Turn) (row : Fields) (rows : List Fields)
    → AreRows t (row ∷ rows)
    → place_logs (windows_of (run_of t ∷ [])) nothing (row ∷ rows) ≡ one_bucket t (row ∷ rows)
unfolding place_logs one_bucket windows_of window_of place_in add_row
place_logs-one_bucket t row rows h =
    ap (λ s. place_logs (turn_window t ∷ []) s rows) (place_log-row t nothing row h.0)
    ∙ place_logs-AreRows t (row ∷ []) rows h.1
