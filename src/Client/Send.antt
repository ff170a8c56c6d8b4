-- ===== src/Client/Send.antt =====
-- `ChatClient.send` of runner/client.py, over what the server answers.
use Prim.Native.Char.{Char}
use yonwork_benchmark.Prelude.{
  ℕ, String, false, Option, none, some, List, is_blank, or_else, if◌then◌else◌, concat,
}
use yonwork_benchmark.Json.{Json, Fields}
use yonwork_benchmark.Models.Records.{ChatTurn}
use yonwork_benchmark.Client.Events.{start}
use yonwork_benchmark.Client.Keys.{session_key_for, claim_session_key}
use yonwork_benchmark.Client.Turn.{TurnState, initial}
use yonwork_benchmark.Client.Turn.Loop.{
  Ending, StampedLine, Reading, finished, timed_out, interrupted, raised, read_lines,
}

-- `ModelChoice` of runner/catalog.py, as far as `send` reads it.
pub record ModelChoice : Type 0 where
  pub provider_account_id : String
  pub model_id : String
  pub display_name : String

unfoldable pub selection : ModelChoice → Fields
selection m =
    Fields.field "providerAccountId" (Json.text m.provider_account_id)
      (Fields.field "modelId" (Json.text m.model_id) Fields.end)

-- `transcript_for` is the path of the transcript of a round, if transcripts are kept.
pub record ChatClient : Type 0 where
  pub agent_id : String
  pub timeout_seconds : ℕ
  pub transcript_for : String → Option String
  pub model_choice : Option ModelChoice
  pub used_session_keys : List String

-- What the server does with the request, and when `send` starts and ends.
pub data Response : Type 0 where
  request_failed : Option ℕ → Response
  opened : Option ℕ → List StampedLine → Ending → Response

pub record Times : Type 0 where
  pub started_at : String
  pub ended_at : String
  pub duration_seconds : ℕ

pub data Sent : Type 0 where
  answered chat_timeout chat_error : ChatTurn → Sent
  key_reused uncaught : Sent

abbrev model_label : ModelChoice → String
model_label m = if is_blank m.display_name then m.model_id else m.display_name

abbrev map_choice : (ModelChoice → String) → Option ModelChoice → Option String
map_choice f none = none
map_choice f (some m) = some (f m)

-- The body of the request.
unfoldable pub request_payload : ChatClient → String → String → String → Fields
unfolding concat selection
request_payload c benchmark_id prompt session_key =
    Fields.field "sessionKey" (Json.text session_key) (
      Fields.field "message" (Json.text prompt) (
        Fields.field "deliver" (Json.bool false) (
          Fields.field "idempotencyKey" (Json.text benchmark_id) (
            Fields.field "clientMessageId" (Json.text (concat "cm-" benchmark_id))
              (elim c.model_choice [
                | none ↦ Fields.end
                | some m ↦ Fields.field "modelSelection" (Json.obj (selection m)) Fields.end
              ])))))

-- `_TurnState.build`
unfoldable pub build :
    ChatClient → String → String → String → Times → Option ℕ → TurnState → ChatTurn
build c benchmark_id session_key prompt times status s = record {
  benchmark_id = benchmark_id;
  session_key = session_key;
  prompt = prompt;
  started_at = times.started_at;
  ended_at = times.ended_at;
  duration_seconds = times.duration_seconds;
  run_id = s.run_id;
  answer = s.answer;
  first_delta_seconds = s.first_delta_seconds;
  engine_seconds = none;
  terminated_by = s.terminated_by;
  stop_reason = s.stop_reason;
  final_state = s.final_state;
  event_counts = s.counts;
  tool_calls = s.tool_calls;
  tool_calls_status = "unavailable";
  tool_calls_source = "unavailable";
  tool_calls_detail = "";
  requested_model = map_choice (λ m. m.model_id) c.model_choice;
  requested_model_label = map_choice model_label c.model_choice;
  requested_provider = map_choice (λ m. m.provider_account_id) c.model_choice;
  tools_enabled = none;
  stream_error = s.stream_error;
  http_status = status;
  transcript_path = c.transcript_for benchmark_id;
}

unfoldable pub after_reading : (TurnState → ChatTurn) → Reading → Sent
after_reading turn (finished s) = answered (turn s)
after_reading turn (timed_out s) = chat_timeout (turn s)
after_reading turn (interrupted s) = chat_error (turn s)
after_reading turn raised = uncaught

module _ (lower_char : Char → String) (read_json : String → Option Json) where
  unfoldable pub exchange : ChatClient → String → String → String → Times → Response → Sent
  unfolding build after_reading
  exchange c benchmark_id prompt key times (request_failed status) =
      chat_error (build c benchmark_id key prompt times status initial)
  exchange c benchmark_id prompt key times (opened status lines ending) =
      after_reading (build c benchmark_id key prompt times status)
        (read_lines read_json c.timeout_seconds ending 0 lines start initial)

  -- `session_key` is empty or missing where the client makes its own.
  unfoldable pub send :
      ChatClient → String → String → Option String → Times → Response → Sent × ChatClient
  unfolding session_key_for claim_session_key exchange
  send c benchmark_id prompt session_key times response =
      let given = or_else session_key "" in
      let key =
        if is_blank given then session_key_for lower_char benchmark_id c.agent_id else given in
      elim (claim_session_key lower_char key c.used_session_keys) [
        | none ↦ (key_reused, c)
        | some used ↦ (
          exchange c benchmark_id prompt key times response,
          record c { used_session_keys = used },
        )
      ]
