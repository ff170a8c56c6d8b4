-- ===== src/Client/Turn.antt =====
-- The state of a round, `_consume`, and the loop of `ChatClient.send` over the lines of the response,
-- with the deadline of `_timed_lines`.
pub mod Loop
pub mod Signals
use yonwork_benchmark.Prelude.{
  ℕ, suc, String, Bool, true, false, Option, none, some, List, [], ◌∷◌, ◌++◌, str_eq, is_blank,
  if◌then◌else◌, strip, is_some, or_else, not,
}
use yonwork_benchmark.Json.{Json, Fields, get, is_truthy, as_text}
use yonwork_benchmark.Client.Events.{SseEvent}
use yonwork_benchmark.Client.Messages.{
  is_terminal_message, message_body, extract_text, extract_tool_names,
}

-- What `_TurnState` gathers from the events; the rest of it is fixed before.
pub record TurnState : Type 0 where
  pub run_id : Option String
  pub answer : Option String
  pub first_delta_seconds : Option ℕ
  pub terminated_by : Option String
  pub stop_reason : Option String
  pub final_state : Option String
  pub stream_error : Option Fields
  pub counts : List (String × ℕ)
  pub tool_calls : List String

abbrev pub initial : TurnState
initial = record {
  run_id = none;
  answer = none;
  first_delta_seconds = none;
  terminated_by = none;
  stop_reason = none;
  final_state = none;
  stream_error = none;
  counts = [];
  tool_calls = [];
}

-- `state.counts[name] += 1`
unfoldable pub count_event : String → List (String × ℕ) → List (String × ℕ)
count_event name [] = (name, 1) ∷ []
count_event name ((k, n) ∷ rest) =
    let others = count_event name rest in
    if str_eq k name then (k, suc n) ∷ rest else (k, n) ∷ others

-- `state.terminated_by or signal`; no signal is empty.
abbrev pub terminate : String → TurnState → TurnState
terminate signal s = record s { terminated_by = some (or_else s.terminated_by signal) }

abbrev pub set_run_id : Json → TurnState → TurnState
set_run_id (Json.text id) s = record s { run_id = some id }
set_run_id _ s = s

-- The answer of a final frame, if its message has text.
abbrev pub set_answer : Json → TurnState → TurnState
set_answer (Json.obj inner) s =
    if is_blank (extract_text inner) then s else record s { answer = some (extract_text inner) }
set_answer _ s = s

abbrev pub add_tools : Json → TurnState → TurnState
add_tools (Json.obj inner) s = record s { tool_calls = s.tool_calls ++ extract_tool_names inner }
add_tools _ s = s

abbrev pub mark_delta : ℕ → Fields → TurnState → TurnState
mark_delta elapsed body s =
    if not (is_some s.first_delta_seconds)
    then if is_truthy (get "deltaText" body)
      then record s { first_delta_seconds = some elapsed }
      else s
    else s

abbrev pub final_frame : Fields → TurnState → TurnState
final_frame body s = terminate "chat.message:final" (
    set_answer (get "message" body) (record s {
      final_state = as_text (get "state" body);
      stop_reason = as_text (get "stopReason" body);
    }))

-- A `chat.message`: `none` where `is_terminal_message` raises.
unfoldable pub consume_message : ℕ → Fields → TurnState → Option TurnState
consume_message elapsed body s = elim (is_terminal_message body) [
  | none ↦ none
  | some true ↦ some (final_frame body (add_tools (get "message" body) (mark_delta elapsed body s)))
  | some false ↦ some (add_tools (get "message" body) (mark_delta elapsed body s))
]

-- The state, and whether the loop over the events is left.
abbrev pub go_on : Option TurnState → Option (TurnState × Bool)
go_on none = none
go_on (some s) = some (s, false)

-- The names that `_consume` tells apart.
pub data Kind : Type 0 where
  run_id_event error_event complete_event message_event other_event : Kind

unfoldable pub kind_of : String → Kind
kind_of name =
    if str_eq name "chat.run-id"
    then Kind.run_id_event
    else if str_eq name "chat.error"
    then Kind.error_event
    else if str_eq name "chat.complete"
    then Kind.complete_event
    else if str_eq name "chat.message"
    then Kind.message_event
    else Kind.other_event

unfoldable pub consume_payload : Kind → ℕ → Fields → TurnState → Option (TurnState × Bool)
consume_payload Kind.run_id_event elapsed payload s =
    some (set_run_id (get "runId" payload) s, false)
consume_payload Kind.error_event elapsed payload s =
    some (record s { stream_error = some payload }, true)
consume_payload Kind.complete_event elapsed payload s =
    some (terminate "chat.complete" (set_run_id (get "runId" payload) s), true)
consume_payload Kind.message_event elapsed payload s =
    go_on (consume_message elapsed (message_body payload) s)
consume_payload Kind.other_event elapsed payload s = some (s, false)

-- `read_json` is `json.loads`, `none` where it raises.
module _ (read_json : String → Option Json) where
  -- `SseEvent.json`
  unfoldable pub event_json : SseEvent → Option Fields
  event_json e =
      if is_blank (strip e.payload)
      then none
      else elim (read_json e.payload) [ some (Json.obj f) ↦ some f | _ ↦ none ]

  -- `_consume`, `elapsed` after the start of the round: `none` where it raises.
  unfoldable pub consume : SseEvent → ℕ → TurnState → Option (TurnState × Bool)
  unfolding count_event
  consume e elapsed s =
      let counted = record s { counts = count_event e.name s.counts } in
      elim (event_json e) [
        | none ↦ some (counted, false)
        | some payload ↦ consume_payload (kind_of e.name) elapsed payload counted
      ]
