-- ===== src/Client/Turn/Loop.antt =====
-- The loop of `ChatClient.send` over the lines of the response.
use yonwork_benchmark.Prelude.{
  ℕ, String, Bool, true, false, Option, none, some, List, [], ◌∷◌, if◌then◌else◌, ltb,
}
use yonwork_benchmark.Json.{Json}
use yonwork_benchmark.Client.Events.{Parser, feed, flush}
use yonwork_benchmark.Client.Turn.{TurnState, consume}

-- How the response ends: closed by the server, a read that times out, or another `OSError`.
pub data Ending : Type 0 where
  closed read_timeout broken : Ending

-- A line, and the time after the start at which the client is done with it.
pub record StampedLine : Type 0 where
  pub line : String
  pub elapsed : ℕ

-- `finished` goes on to return the round; `timed_out` is a `ChatTimeout` and `interrupted` a
-- `ChatError`, both with the half-finished round; `raised` is an exception that `send` does not catch.
pub data Reading : Type 0 where
  finished timed_out interrupted : TurnState → Reading
  raised : Reading

abbrev pub at_end : Ending → TurnState → Reading
at_end Ending.closed s = finished s
at_end Ending.read_timeout s = timed_out s
at_end Ending.broken s = interrupted s

abbrev pub leave : Option (TurnState × Bool) → Reading
leave none = raised
leave (some (s, stop)) = finished s

module _ (read_json : String → Option Json) (deadline : ℕ) where
  -- At the end of a closed stream, what is left over is an event too.
  unfoldable pub read_end : Ending → ℕ → Parser → TurnState → Reading
  read_end Ending.closed elapsed p s = elim (flush p) [
    | none ↦ finished s
    | some e ↦ leave (consume read_json e elapsed s)
  ]
  read_end ending elapsed p s = at_end ending s

  -- `last` is the time of the line before.
  unfoldable pub read_lines : Ending → ℕ → List StampedLine → Parser → TurnState → Reading
  read_lines ending last [] p s = read_end ending last p s
  read_lines ending last (l ∷ ls) p s = elim (feed l.line p).1 [
    | none ↦
        if ltb deadline l.elapsed
        then timed_out s
        else read_lines ending l.elapsed ls (feed l.line p).0 s
    | some e ↦ elim (consume read_json e l.elapsed s) [
      | none ↦ raised
      | some (s', true) ↦ finished s'
      | some (s', false) ↦
          if ltb deadline l.elapsed
          then timed_out s'
          else read_lines ending l.elapsed ls (feed l.line p).0 s'
    ]
  ]
