-- ===== src/Client/Turn/Signals.antt =====
-- Which signal a round is said to end with: what each event does to it.
pub mod Theorem
use mathlib.Core.Path.{subst}
use mathlib.Core.Option.{some-injective}
use yonwork_benchmark.Prelude.{
  sym, ℕ, String, Bool, true, false, Option, none, some, List, [], ◌∷◌, str_eq, if◌then◌else◌, ◌≡◌,
  refl, Bool-cases, Option-cases, inl, inr, ap, ◌∙◌, ◌||◌, or_else,
}
use yonwork_benchmark.Json.{Json, Fields, get}
use yonwork_benchmark.Client.Events.{SseEvent}
use yonwork_benchmark.Client.Messages.{extract_text, is_terminal_message, message_body}
use yonwork_benchmark.Client.Turn.{
  Kind, kind_of, consume, consume_message, consume_payload, is_truthy, is_blank, TurnState,
  event_json, terminate, set_run_id, set_answer, add_tools, mark_delta, final_frame,
}

abbrev or_first : Option String → Option String → Option String
or_first none y = y
or_first (some x) y = some x

unfoldable pub payload_stops : Kind → Bool
payload_stops Kind.error_event = true
payload_stops Kind.complete_event = true
payload_stops _ = false

-- A `chat.message` frame: it ends the round or not.
unfoldable pub message_signal : Option Bool → Option String
message_signal (some true) = some "chat.message:final"
message_signal _ = none

-- The signal of an event with its payload.
unfoldable pub payload_signal : Kind → Fields → Option String
payload_signal Kind.complete_event payload = some "chat.complete"
payload_signal Kind.message_event payload =
    message_signal (is_terminal_message (message_body payload))
payload_signal _ payload = none

module _ (read_json : String → Option Json) where
  unfoldable pub stops : SseEvent → Bool
  stops e = elim (event_json read_json e) [
    | none ↦ false
    | some payload ↦ payload_stops (kind_of e.name)
  ]

  unfoldable pub signal : SseEvent → Option String
  signal e = elim (event_json read_json e) [
    | none ↦ none
    | some payload ↦ payload_signal (kind_of e.name) payload
  ]

  -- The first signal of a stream; after an event that stops the round, nothing is read.
  unfoldable pub first_signal : List SseEvent → Option String
  first_signal [] = none
  first_signal (e ∷ es) = or_first (signal e) (if stops e then none else first_signal es)

-- A state after an event, and the flag: the flag is `stop`, and `signal` counts if there was none.
pub record Signals (s : TurnState) (stop : Bool) (sig : Option String) (after : TurnState × Bool)
    : Type 0 where
  pub stopped : after.1 ≡ stop
  pub ended : after.0.terminated_by ≡ or_first s.terminated_by sig

unsignalled : (o : Option String) → o ≡ or_first o none
unsignalled none = refl
unsignalled (some x) = refl

terminate-ended :
    (x : String) (s : TurnState) (t : Option String)
    → s.terminated_by ≡ t
    → (terminate x s).terminated_by ≡ or_first t (some x)
terminate-ended x s none h = ap (λ o. some (or_else o x)) h
terminate-ended x s (some y) h = ap (λ o. some (or_else o x)) h

set_run_id-ended : (j : Json) (s : TurnState) → (set_run_id j s).terminated_by ≡ s.terminated_by
set_run_id-ended Json.null s = refl
set_run_id-ended (Json.bool b) s = refl
set_run_id-ended (Json.num n) s = refl
set_run_id-ended (Json.text x) s = refl
set_run_id-ended (Json.arr x) s = refl
set_run_id-ended (Json.obj x) s = refl

add_tools-ended : (j : Json) (s : TurnState) → (add_tools j s).terminated_by ≡ s.terminated_by
add_tools-ended Json.null s = refl
add_tools-ended (Json.bool b) s = refl
add_tools-ended (Json.num n) s = refl
add_tools-ended (Json.text x) s = refl
add_tools-ended (Json.arr x) s = refl
add_tools-ended (Json.obj x) s = refl

mark_delta-ended :
    (t : ℕ) (f : Fields) (s : TurnState) → (mark_delta t f s).terminated_by ≡ s.terminated_by
mark_delta-ended t f s = elim (Option-cases s.first_delta_seconds) [
  | inr (n, e) ↦ rw e refl
  | inl e ↦ elim (Bool-cases (is_truthy (get "deltaText" f))) [
    | inl g ↦ rw (e, g) refl
    | inr g ↦ rw (e, g) refl
  ]
]

set_answer-ended : (j : Json) (s : TurnState) → (set_answer j s).terminated_by ≡ s.terminated_by
set_answer-ended Json.null s = refl
set_answer-ended (Json.bool b) s = refl
set_answer-ended (Json.num n) s = refl
set_answer-ended (Json.text x) s = refl
set_answer-ended (Json.arr x) s = refl
set_answer-ended (Json.obj x) s = elim (Bool-cases (is_blank (extract_text x))) [
  | inl e ↦ rw e refl
  | inr e ↦ rw e refl
]

gathered-ended :
    (t : ℕ) (body : Fields) (s : TurnState)
    → (add_tools (get "message" body) (mark_delta t body s)).terminated_by ≡ s.terminated_by
gathered-ended t body s =
    add_tools-ended (get "message" body) (mark_delta t body s) ∙ mark_delta-ended t body s

final_frame-ended :
    (body : Fields) (s : TurnState)
    → (final_frame body s).terminated_by ≡ or_first s.terminated_by (some "chat.message:final")
final_frame-ended body s =
    terminate-ended "chat.message:final" (set_answer (get "message" body) _) s.terminated_by
      (set_answer-ended (get "message" body) _)

consume_message-ended :
    (t : ℕ) (body : Fields) (s after : TurnState)
    → consume_message t body s ≡ some after
    → after.terminated_by ≡ or_first s.terminated_by (message_signal (is_terminal_message body))
unfolding consume_message message_signal
consume_message-ended t body s after h = elim (Option-cases (is_terminal_message body)) [
  | inl e ↦ absurd (cc (rw (e, consume_message) at h))
  | inr (true, e) ↦
      ap (λ z. z.terminated_by) (sym (some-injective _ _ (rw (e, consume_message) at h)))
      ∙ final_frame-ended body (add_tools (get "message" body) (mark_delta t body s))
      ∙ ap (λ o. or_first o (some "chat.message:final")) (gathered-ended t body s)
      ∙ ap (λ o. or_first s.terminated_by (message_signal o)) (sym e)
  | inr (false, e) ↦
      ap (λ z. z.terminated_by) (sym (some-injective _ _ (rw (e, consume_message) at h)))
      ∙ gathered-ended t body s
      ∙ unsignalled s.terminated_by
      ∙ ap (λ o. or_first s.terminated_by (message_signal o)) (sym e)
]

pub consume_payload-Signals :
    (kind : Kind) (t : ℕ) (payload : Fields) (s : TurnState) (after : TurnState × Bool)
    → consume_payload kind t payload s ≡ some after
    → Signals s (payload_stops kind) (payload_signal kind payload) after
unfolding consume_payload payload_stops payload_signal
consume_payload-Signals Kind.run_id_event t payload s after h =
    subst (Signals s false none) (some-injective _ _ h) (record {
      stopped = refl;
      ended = set_run_id-ended (get "runId" payload) s ∙ unsignalled s.terminated_by;
    })
consume_payload-Signals Kind.error_event t payload s after h =
    subst (Signals s true none) (some-injective _ _ h)
      (record { stopped = refl; ended = unsignalled s.terminated_by })
consume_payload-Signals Kind.complete_event t payload s after h =
    subst (Signals s true (some "chat.complete")) (some-injective _ _ h) (record {
      stopped = refl;
      ended =
          terminate-ended "chat.complete" (set_run_id (get "runId" payload) s) s.terminated_by
            (set_run_id-ended (get "runId" payload) s);
    })
consume_payload-Signals Kind.other_event t payload s after h =
    subst (Signals s false none) (some-injective _ _ h)
      (record { stopped = refl; ended = unsignalled s.terminated_by })
consume_payload-Signals Kind.message_event t payload s after h =
    elim (Option-cases (consume_message t (message_body payload) s)) [
      | inl e ↦ absurd (cc (rw e at h))
      | inr (s', e) ↦
          subst (Signals s false (message_signal (is_terminal_message (message_body payload))))
            (some-injective _ _ (rw e at h))
            (record {
              stopped = refl;
              ended = consume_message-ended t (message_body payload) s s' e;
            })
    ]

pub consume-Signals :
    (read_json : String → Option Json) (e : SseEvent) (t : ℕ) (s : TurnState)
    (after : TurnState × Bool)
    → consume read_json e t s ≡ some after
    → Signals s (stops read_json e) (signal read_json e) after
unfolding consume stops signal
consume-Signals read_json e t s after h = elim (Option-cases (event_json read_json e)) [
  | inl f ↦
      rw (f, stops, signal)
        (subst (Signals s false none) (some-injective _ _ (rw (f, consume) at h))
          (record { stopped = refl; ended = unsignalled s.terminated_by }))
  | inr (payload, f) ↦
      rw (f, stops, signal)
        (let k =
            consume_payload-Signals (kind_of e.name) t payload _ after (rw (f, consume) at h) in
          record { stopped = k.stopped; ended = k.ended })
]
