-- ===== src/Collector/Ledger.antt =====
-- runner/modelproxy/ledger.py: the record of one model request, and the replay of a ledger file.
pub mod Entries
pub mod Replay
pub mod Summary
use yonwork_benchmark.Json.{Fields, Json}
use yonwork_benchmark.Prelude.{
  text_le, not, sort_by, leb, ◌++◌, false, str_eq, map, true, ◌∷◌, none, some, [], Option, Bool,
  List, if◌then◌else◌, ℕ, String,
}

pub data Attribution : Type 0 where
  attributed late unattributed rejected : Attribution

pub data Termination : Type 0 where
  completed stream_truncated upstream_error client_disconnected transport_error timeout refused
        incomplete :
      Termination

pub data RecordStatus : Type 0 where
  open_status closed_status incomplete_status : RecordStatus

-- `requested_model` and `stream` are whatever JSON the product sent.
pub record ModelRequestRecord : Type 0 where
  pub request_id : String
  pub proxy_id : String
  pub sequence : ℕ
  pub received_at : String
  pub path : String
  pub protocol : String
  pub run_id : Option String
  pub product : Option String
  pub attribution : Attribution
  pub attribution_source : String
  pub requested_model : Json
  pub response_model : Json
  pub stream : Json
  pub message_count : Option ℕ
  pub header_names : List String
  pub traceparent : Option String
  pub http_status : Option ℕ
  pub termination : Option Termination
  pub first_output_seconds : Option ℕ
  pub duration_seconds : Option ℕ
  pub ended_at : Option String
  pub usage : Option Fields
  pub usage_observed : Bool
  pub sse_done : Option Bool
  pub output_events : ℕ
  pub error_kind : String
  pub error_detail : String
  pub upstream_request_id : Option String
  pub upstream_attempts : Option ℕ
  pub record_status : RecordStatus

abbrev pub is_closed : RecordStatus → Bool
is_closed RecordStatus.closed_status = true
is_closed _ = false

-- `record.attribution in (ATTRIBUTED, LATE)`
abbrev pub is_counted : Attribution → Bool
is_counted Attribution.attributed = true
is_counted Attribution.late = true
is_counted _ = false

-- One line of a ledger file, as far as `load_ledger` tells lines apart: `no_request_id` is no object
-- with a request id, and `bad_record` is one of which `from_json` makes no record.
pub data Line : Type 0 where
  blank not_json no_request_id bad_record : Line
  entry : ModelRequestRecord → Line

-- Python's dict keeps the place of a key whose value is replaced.
unfoldable pub replace_at :
    String → ModelRequestRecord → List ModelRequestRecord → List ModelRequestRecord
replace_at id r [] = []
replace_at id r (x ∷ xs) = if str_eq x.request_id id then r ∷ xs else x ∷ replace_at id r xs

unfoldable pub find_record : String → List ModelRequestRecord → Option ModelRequestRecord
find_record id [] = none
find_record id (x ∷ xs) = if str_eq x.request_id id then some x else find_record id xs

unfoldable pub merge : List ModelRequestRecord → ModelRequestRecord → List ModelRequestRecord
unfolding replace_at find_record
merge merged r = elim (find_record r.request_id merged) [
  | none ↦ merged ++ r ∷ []
  | some previous ↦ if is_closed r.record_status then replace_at r.request_id r merged else merged
]

-- `none` is an exception: a `LedgerError`, or for `bad_record` the `TypeError` of `from_json`.
unfoldable pub merge_lines : List ModelRequestRecord → List Line → Option (List ModelRequestRecord)
unfolding merge
merge_lines merged [] = some merged
merge_lines merged (Line.blank ∷ lines) = merge_lines merged lines
merge_lines merged (Line.not_json ∷ lines) = none
merge_lines merged (Line.no_request_id ∷ lines) = none
merge_lines merged (Line.bad_record ∷ lines) = none
merge_lines merged (Line.entry r ∷ lines) = merge_lines (merge merged r) lines

unfoldable pub settle : ModelRequestRecord → ModelRequestRecord
settle r = if is_closed r.record_status then r else record r {
  termination = some Termination.incomplete;
  ended_at = none;
  record_status = RecordStatus.incomplete_status;
}

-- The order of `sorted` by `(proxy_id, sequence)`.
unfoldable pub before : ModelRequestRecord → ModelRequestRecord → Bool
before a b =
    if not (text_le a.proxy_id b.proxy_id)
    then false
    else if not (text_le b.proxy_id a.proxy_id)
    then true
    else leb a.sequence b.sequence

-- The lines of the file, `none` where there is no file, which is a `LedgerError` too.
unfoldable pub load_ledger : Option (List Line) → Option (List ModelRequestRecord)
unfolding merge_lines settle before sort_by
load_ledger none = none
load_ledger (some lines) = elim (merge_lines [] lines) [
  | none ↦ none
  | some merged ↦ some (sort_by before (map settle merged))
]
