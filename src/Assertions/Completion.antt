-- ===== src/Assertions/Completion.antt =====
-- runner/assertions/completion.py: did the round run to its end?
use Prim.Native.Char.{Char}
use yonwork_benchmark.Prelude.{
  false, Bool, true, ◌≡◌, All, Given, ◌≢◌, ◌↔◌, ◌<◌, arith, ℕ, String, Option, none, some, List, [],
  ◌∷◌, ◌++◌, leb, elem, casefold, if◌then◌else◌,
}
use yonwork_benchmark.Json.{Fields}
use yonwork_benchmark.Models.Severity.{Verdict}
use yonwork_benchmark.Models.Records.{IsClean, Layer, ChatTurn, Check, skipped, judged}

-- The exception that ended a round, by the classes that the code tells apart.
pub data Failure : Type 0 where
  chat_timeout chat_error transport_error unexpected : Failure

-- `isinstance(failure, ChatTimeout)`
abbrev pub is_timeout : Failure → Bool
is_timeout Failure.chat_timeout = true
is_timeout _ = false

abbrev pub normal_stop_reasons : List String
normal_stop_reasons = "stop" ∷ "end_turn" ∷ "endturn" ∷ "complete" ∷ "completed" ∷ "success" ∷ []

-- `ChatTimeout` is a subclass of `ChatError` and is tested first.
failure_checks : Failure → List Check
failure_checks Failure.chat_timeout = judged Layer.completion "turn-completed" Verdict.timeout ∷ []
failure_checks Failure.chat_error = judged Layer.completion "turn-completed" Verdict.error ∷ []
failure_checks Failure.transport_error = judged Layer.completion "turn-completed" Verdict.error ∷ []
failure_checks Failure.unexpected = judged Layer.completion "turn-completed" Verdict.error ∷ []

http_check : Option ℕ → Check
http_check none = judged Layer.completion "http-status" Verdict.pass
http_check (some status) =
    if leb 500 status
    then judged Layer.completion "http-status" Verdict.fail
    else if leb 400 status
    then judged Layer.completion "http-status" Verdict.error
    else judged Layer.completion "http-status" Verdict.pass

stream_checks : Option Fields → List Check
stream_checks none = []
stream_checks (some e) = judged Layer.completion "stream-error" Verdict.fail ∷ []

end_check : Option String → Check
end_check none = judged Layer.completion "turn-completed" Verdict.fail
end_check (some by) = judged Layer.completion "turn-completed" Verdict.pass

module _ (fold : Char → String) where
  stop_check : Option String → Check
  stop_check none = skipped Layer.completion "stop-reason"
  stop_check (some reason) =
      if elem (casefold fold reason) normal_stop_reasons
      then judged Layer.completion "stop-reason" Verdict.pass
      else judged Layer.completion "stop-reason" Verdict.fail

  -- The checks on a round that returned.
  turn_checks : ChatTurn → List Check
  unfolding http_check stream_checks end_check stop_check
  turn_checks turn =
      http_check turn.http_status
      ∷ (stream_checks turn.stream_error
          ++ (end_check turn.terminated_by ∷ stop_check turn.stop_reason ∷ []))

  unfoldable pub check_completion : Option ChatTurn → Option Failure → List Check
  unfolding failure_checks turn_checks
  check_completion turn (some failure) = failure_checks failure
  check_completion none none = judged Layer.completion "turn-completed" Verdict.error ∷ []
  check_completion (some turn) none = turn_checks turn

-- What makes a returned round complete, said without the checks.
abbrev pub IsComplete : (Char → String) → ChatTurn → Type 0
IsComplete fold turn =
    Given (λ status. status < 400) turn.http_status
    × (turn.stream_error ≡ none)
    × (turn.terminated_by ≢ none)
    × Given (λ reason. elem (casefold fold reason) normal_stop_reasons ≡ true) turn.stop_reason

pub check_completion-IsClean :
    (fold : Char → String) (turn : ChatTurn)
    → All IsClean (check_completion fold (some turn) none) ↔ IsComplete fold turn
unfolding check_completion
check_completion-IsClean fold turn = ground arith

-- No round that ended in an exception, or that left nothing, has a clean completion layer.
pub check_completion_unclean :
    (fold : Char → String) (turn : Option ChatTurn) (failure : Failure)
    → ¬ All IsClean (check_completion fold turn (some failure))
unfolding check_completion
check_completion_unclean fold turn failure h = ground arith

pub check_completion_empty :
    (fold : Char → String) → ¬ All IsClean (check_completion fold none none)
unfolding check_completion
check_completion_empty fold h = ground arith
