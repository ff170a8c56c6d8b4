-- ===== src/Tests/Collector.antt =====
-- A ledger file of a collector that stopped in the middle of a request.
use mathlib.Core.Option
use yonwork_benchmark.Prelude.{◌+◌}
use yonwork_benchmark.Collector.Ledger.Summary.{summarize, summarize_counts}
use yonwork_benchmark.Json.{Json}
use yonwork_benchmark.Prelude.{text_le, sort_by, insert_sorted}
use yonwork_benchmark.Prelude.{some, none, List, [], ◌∷◌, ◌++◌, String, false, ◌≡◌, refl}
use yonwork_benchmark.Collector.Ledger.{
  ModelRequestRecord, Line, merge_lines, merge, replace_at, before, RecordStatus, Attribution,
  Termination, load_ledger, find_record, settle,
}
use yonwork_benchmark.Collector.Ledger.Entries.{AreKeyed, first_some, last_closed, first_entry}
use yonwork_benchmark.Collector.Ledger.Replay.{load_ledger_replays, load_ledger_twice}

abbrev request : String → RecordStatus → ModelRequestRecord
request id status = record {
  request_id = id;
  proxy_id = "p";
  sequence = 1;
  received_at = "10:00";
  path = "/v1/chat/completions";
  protocol = "openai-completions";
  run_id = none;
  product = none;
  attribution = Attribution.unattributed;
  attribution_source = "";
  requested_model = Json.null;
  response_model = Json.null;
  stream = Json.null;
  message_count = none;
  header_names = [];
  traceparent = none;
  http_status = none;
  termination = none;
  first_output_seconds = none;
  duration_seconds = none;
  ended_at = none;
  usage = none;
  usage_observed = false;
  sse_done = none;
  output_events = 0;
  error_kind = "";
  error_detail = "";
  upstream_request_id = none;
  upstream_attempts = none;
  record_status = status;
}

abbrev file : List Line
file =
    Line.entry (request "a" RecordStatus.open_status)
    ∷ Line.entry (request "b" RecordStatus.open_status)
    ∷ Line.entry (request "a" RecordStatus.closed_status)
    ∷ []

abbrev replayed : List ModelRequestRecord
replayed =
    request "a" RecordStatus.closed_status
    ∷ record (request "b" RecordStatus.incomplete_status) {
      termination = some Termination.incomplete;
    }
    ∷ []

loads : load_ledger (some file) ≡ some replayed
unfolding load_ledger merge_lines merge replace_at find_record settle before text_le sort_by
    insert_sorted
loads = refl

loads_twice : load_ledger (some (file ++ file)) ≡ some replayed
unfolding load_ledger merge_lines merge replace_at find_record settle before text_le sort_by
    insert_sorted
loads_twice = refl

load_ledger_replays_example :
    AreKeyed replayed
    × ((id : String)
        → find_record id replayed
          ≡ Option.map settle (first_some (last_closed id file) (first_entry id file)))
load_ledger_replays_example = load_ledger_replays file replayed loads

load_ledger_twice_example :
    AreKeyed replayed × ((id : String) → find_record id replayed ≡ find_record id replayed)
load_ledger_twice_example = load_ledger_twice file replayed replayed loads loads_twice

no_file : load_ledger none ≡ none
unfolding load_ledger
no_file = refl

half_record : load_ledger (some (Line.bad_record ∷ file)) ≡ none
unfolding load_ledger
half_record = refl

counts : (summarize replayed).unattributed ≡ 2
unfolding summarize
counts = refl

summarize_counts_example :
    ((summarize replayed).attributed
        + ((summarize replayed).late
            + ((summarize replayed).unattributed + (summarize replayed).rejected))
      ≡ (summarize replayed).requests)
    × ((summarize replayed).usage_observed + (summarize replayed).usage_missing
        ≡ (summarize replayed).attributed + (summarize replayed).late)
summarize_counts_example = summarize_counts replayed
