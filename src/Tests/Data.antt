-- ===== src/Tests/Data.antt =====
-- Data that the tests share.
use yonwork_benchmark.Models.Cases.{default_expectations, CaseDefinition}
use yonwork_benchmark.Models.Records.{ChatTurn}
use yonwork_benchmark.Assertions.Content.{JsonReader}
use Prim.Native.Char.{Char}
use yonwork_benchmark.Prelude.{String, [], none, some, true, false}

abbrev pub fold : Char → String
fold c = String.◌∷◌ c ""

abbrev pub reader : JsonReader
reader = record { fenced = λ s. none; parsable = λ s. true }

abbrev pub turn : ChatTurn
turn = record {
  benchmark_id = "bench-hello-r1-1a";
  session_key = "agent:main:bench-hello-r1-1a";
  prompt = "hello";
  started_at = "10:00";
  ended_at = "10:01";
  duration_seconds = 60000;
  run_id = some "bench-hello-r1-1a";
  answer = some " hi ";
  first_delta_seconds = none;
  engine_seconds = none;
  terminated_by = some "chat.complete";
  stop_reason = some "stop";
  final_state = none;
  event_counts = [];
  tool_calls = [];
  tool_calls_status = "observed";
  tool_calls_source = "session";
  tool_calls_detail = "";
  requested_model = none;
  requested_model_label = none;
  requested_provider = none;
  tools_enabled = none;
  stream_error = none;
  http_status = some 200;
  transcript_path = none;
}

abbrev pub hello : CaseDefinition
hello = record {
  case_name = "hello";
  prompt = "hello";
  runs = 2;
  enabled = true;
  expectations = default_expectations;
}

abbrev pub skipped_case : CaseDefinition
skipped_case = record hello { case_name = "off"; enabled = false }
