-- ===== src/Client/Turn/Signals/Theorem.antt =====
-- The signal that a round is said to end with is the first of its stream.
use yonwork_benchmark.Prelude.{
  ℕ, String, Bool, true, false, Option, none, some, List, [], ◌∷◌, if◌then◌else◌, ltb, ◌≡◌, refl,
  Bool-cases, Option-cases, inl, inr, ap, sym, ◌∙◌, map,
}
use yonwork_benchmark.Json.{Json}
use yonwork_benchmark.Client.Events.{
  SseEvent, Parser, start, feed, flush, events_from, iter_sse_events,
}
use yonwork_benchmark.Client.Turn.{TurnState, initial, consume}
use yonwork_benchmark.Client.Turn.Loop.{Ending, StampedLine, finished, read_lines, read_end}
use yonwork_benchmark.Client.Turn.Signals.{
  first_signal, signal, stops, or_first, consume-Signals, Signals,
}

abbrev pub text_of_line : StampedLine → String
text_of_line l = l.line

or_first_assoc : (a b c : Option String) → or_first (or_first a b) c ≡ or_first a (or_first b c)
or_first_assoc none b c = refl
or_first_assoc (some x) b c = refl

or_first-none : (a : Option String) → or_first a none ≡ a
or_first-none none = refl
or_first-none (some x) = refl

finished-injective : {a b : TurnState} → finished a ≡ finished b → a ≡ b
finished-injective h = cc

module _ (read_json : String → Option Json) (deadline : ℕ) where
  -- One more event is consumed, and the loop is left.
  left_here :
      (e : SseEvent) (es : List SseEvent) (s after : TurnState)
      → Signals s (stops read_json e) (signal read_json e) (after, true)
      → after.terminated_by ≡ or_first s.terminated_by (first_signal read_json (e ∷ es))
  unfolding first_signal
  left_here e es s after k =
      k.ended
      ∙ ap (or_first s.terminated_by) (
          sym (or_first-none (signal read_json e))
          ∙ ap (λ b. or_first (signal read_json e) (if b then none else first_signal read_json es))
              k.stopped)

  -- One more event is consumed, and the loop goes on.
  goes_on :
      (e : SseEvent) (es : List SseEvent) (s next after : TurnState)
      → Signals s (stops read_json e) (signal read_json e) (next, false)
      → after.terminated_by ≡ or_first next.terminated_by (first_signal read_json es)
      → after.terminated_by ≡ or_first s.terminated_by (first_signal read_json (e ∷ es))
  unfolding first_signal
  goes_on e es s next after k h =
      h
      ∙ ap (λ o. or_first o (first_signal read_json es)) k.ended
      ∙ or_first_assoc s.terminated_by (signal read_json e) (first_signal read_json es)
      ∙ ap
          (λ b.
            or_first s.terminated_by
              (or_first (signal read_json e) (if b then none else first_signal read_json es)))
          k.stopped

  -- The last event, whether it stops the loop or not.
  consumed_last :
      (e : SseEvent) (t : ℕ) (s next : TurnState) (stop : Bool)
      → consume read_json e t s ≡ some (next, stop)
      → next.terminated_by ≡ or_first s.terminated_by (first_signal read_json (e ∷ []))
  unfolding first_signal
  consumed_last e t s next true h =
      left_here e [] s next (consume-Signals read_json e t s (next, true) h)
  consumed_last e t s next false h =
      goes_on e [] s next next (consume-Signals read_json e t s (next, false) h)
        (sym (or_first-none next.terminated_by))

  read_end-signal :
      (ending : Ending) (t : ℕ) (p : Parser) (s after : TurnState)
      → read_end read_json deadline ending t p s ≡ finished after
      → after.terminated_by ≡ or_first s.terminated_by (first_signal read_json (events_from p []))
  unfolding read_end events_from first_signal
  read_end-signal Ending.read_timeout t p s after h = absurd (cc (h))
  read_end-signal Ending.broken t p s after h = absurd (cc (h))
  read_end-signal Ending.closed t p s after h = elim (Option-cases (flush p)) [
    | inl e ↦ rw e (
        ap (λ z. z.terminated_by) (sym (finished-injective (rw (e, read_end) at h)))
        ∙ sym (or_first-none s.terminated_by))
    | inr (event, e) ↦ elim (Option-cases (consume read_json event t s)) [
      | inl f ↦ absurd (cc (rw (e, f, read_end) at h))
      | inr ((next, stop), f) ↦ rw e (
          ap (λ z. z.terminated_by) (sym (finished-injective (rw (e, f, read_end) at h)))
          ∙ consumed_last event t s next stop f)
    ]
  ]

  read_lines-signal :
      (ending : Ending) (t : ℕ) (ls : List StampedLine) (p : Parser) (s after : TurnState)
      → read_lines read_json deadline ending t ls p s ≡ finished after
      → after.terminated_by
        ≡ or_first s.terminated_by (first_signal read_json (events_from p (map text_of_line ls)))
  unfolding read_lines events_from
  read_lines-signal ending t [] p s after h = read_end-signal ending t p s after h
  read_lines-signal ending t (l ∷ ls) p s after h = elim (Option-cases (feed l.line p).1) [
    | inl e ↦ elim (Bool-cases (ltb deadline l.elapsed)) [
      | inl late ↦ absurd (cc (rw (e, late, read_lines) at h))
      | inr late ↦ rw e (
          read_lines-signal ending l.elapsed ls (feed l.line p).0 s after
            (rw (e, late, read_lines) at h))
    ]
    | inr (event, e) ↦ elim (Option-cases (consume read_json event l.elapsed s)) [
      | inl f ↦ absurd (cc (rw (e, f, read_lines) at h))
      | inr ((next, true), f) ↦ rw e (
          ap (λ z. z.terminated_by) (sym (finished-injective (rw (e, f, read_lines) at h)))
          ∙ left_here event (events_from (feed l.line p).0 (map text_of_line ls)) s next
              (consume-Signals read_json event l.elapsed s (next, true) f))
      | inr ((next, false), f) ↦ elim (Bool-cases (ltb deadline l.elapsed)) [
        | inl late ↦ absurd (cc (rw (e, f, late, read_lines) at h))
        | inr late ↦ rw e (
            goes_on event (events_from (feed l.line p).0 (map text_of_line ls)) s next after
              (consume-Signals read_json event l.elapsed s (next, false) f)
              (read_lines-signal ending l.elapsed ls (feed l.line p).0 next after
                (rw (e, f, late, read_lines) at h)))
      ]
    ]
  ]

  -- A round whose response is read to its end, or to an event that stops it, is said to end with the
  -- first signal of the events of the response up to there, and with none if there is none.
  pub read_lines-first_signal :
      (ending : Ending) (t : ℕ) (ls : List StampedLine) (after : TurnState)
      → read_lines read_json deadline ending t ls start initial ≡ finished after
      → after.terminated_by ≡ first_signal read_json (iter_sse_events (map text_of_line ls))
  unfolding iter_sse_events
  read_lines-first_signal ending t ls after h = read_lines-signal ending t ls start initial after h
