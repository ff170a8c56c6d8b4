-- ===== src/Tests/Client.antt =====
-- A round whose final frame comes before `chat.complete`.
use yonwork_benchmark.Client.Messages.{message_body, is_terminal_message}
use Prim.Native.Char.{Char}
use yonwork_benchmark.Prelude.{
  Option, some, List, [], ◌∷◌, String, ◌≡◌, refl, map, str_eq, if◌then◌else◌, strip, AreDistinct,
}
use yonwork_benchmark.Json.{Json, Fields, is_truthy, as_text}
use yonwork_benchmark.Client.Events.{feed, iter_sse_events, start}
use yonwork_benchmark.Client.Events.RoundTrip.{
  Message, lines_of_all, event_of, iter_sse_events-lines_of_all,
}
use yonwork_benchmark.Client.Turn.{
  consume_message, kind_of, consume_payload, event_json, consume, TurnState, initial,
}
use yonwork_benchmark.Client.Turn.Loop.{read_lines, StampedLine, Ending, finished}
use yonwork_benchmark.Client.Turn.Signals.{first_signal}
use yonwork_benchmark.Client.Turn.Signals.Theorem.{read_lines-first_signal, text_of_line}
use yonwork_benchmark.Client.Keys.{claim_session_key, claim_all, lowered, claim_all_refuses}
use yonwork_benchmark.Prelude.{is_some, ◌↔◌, true}

abbrev messages : List Message
messages =
    record { name = "chat.message"; lines = "final" ∷ [] }
    ∷ record { name = "chat.complete"; lines = "{" ∷ "}" ∷ [] }
    ∷ []

iter_sse_events-lines_of_all_example :
    iter_sse_events (lines_of_all messages) ≡ map event_of messages
iter_sse_events-lines_of_all_example = iter_sse_events-lines_of_all messages (
  (
    refl,
    (
      (
        refl,
        (refl, (refl, (refl, (refl, (refl, (refl, (refl, (refl, (refl, (refl, (refl, tt))))))))))),
      ),
      ((refl, (refl, (refl, (refl, (refl, tt))))), tt),
    ),
  ),
  (
    (
      refl,
      (
        (
          refl,
          (
            refl,
            (
              refl,
              (refl, (refl, (refl, (refl, (refl, (refl, (refl, (refl, (refl, (refl, tt)))))))))),
            ),
          ),
        ),
        ((refl, tt), ((refl, tt), tt)),
      ),
    ),
    tt,
  ),
)

abbrev reader : String → Option Json
reader s =
    if str_eq s "final"
    then some (Json.obj (Fields.field "state" (Json.text "final") Fields.end))
    else some (Json.obj Fields.end)

abbrev lines : List StampedLine
lines =
    record { line = "event: chat.message\n"; elapsed = 10 }
    ∷ record { line = "data: final\n"; elapsed = 20 }
    ∷ record { line = "\n"; elapsed = 30 }
    ∷ record { line = ": ping\n"; elapsed = 40 }
    ∷ record { line = "event: chat.complete\n"; elapsed = 50 }
    ∷ record { line = "data: {}\n"; elapsed = 60 }
    ∷ record { line = "\n"; elapsed = 70 }
    ∷ []

abbrev final : TurnState
final = record initial {
  terminated_by = some "chat.message:final";
  final_state = some "final";
  counts = ("chat.message", 1) ∷ ("chat.complete", 1) ∷ [];
}

read : read_lines reader 1000 Ending.read_timeout 0 lines start initial ≡ finished final
unfolding read_lines feed consume event_json strip consume_payload kind_of consume_message
    is_terminal_message message_body is_truthy as_text
read = refl

read_lines-first_signal_example :
    some "chat.message:final" ≡ first_signal reader (iter_sse_events (map text_of_line lines))
read_lines-first_signal_example =
    read_lines-first_signal reader 1000 Ending.read_timeout 0 lines final read

abbrev keys : List String
keys = "a" ∷ "b" ∷ []

abbrev fold : Char → String
fold c = String.◌∷◌ c ""

claimed : is_some (claim_all fold keys []) ≡ true
unfolding claim_all claim_session_key
claimed = refl

claim_all_refuses_example :
    (is_some (claim_all fold keys []) ≡ true) ↔ AreDistinct (lowered fold keys)
claim_all_refuses_example = claim_all_refuses fold keys
