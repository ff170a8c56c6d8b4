-- ===== src/Client/Events/RoundTrip.antt =====
-- Events as a server writes them are read as they were meant.
use Prim.Native.Char.{code}
use yonwork_benchmark.Prelude.{
  String, Bool, true, false, none, List, [], ◌∷◌, ◌++◌, is_blank, if◌then◌else◌, ◌&&◌, concat, ◌≡◌,
  refl, map, All, ap, ◌∙◌, sym, ap,
}
use mathlib.Core.List.{append-nil, append_assoc}
use yonwork_benchmark.Client.Events.{
  SseEvent, Parser, start, flush, feed, feed_line, events_from, iter_sse_events, rstrip_newline,
  is_newline, join_lines, with_event, set_field, partition_colon,
}

-- No character ends a line.
abbrev pub IsOneLine : String → Type 0
IsOneLine String.[] = Unit
IsOneLine (String.◌∷◌ c s) = (is_newline (code c) ≡ false) × IsOneLine s

-- An event to be written: its name and the lines of its data.
pub record Message : Type 0 where
  pub name : String
  pub lines : List String

abbrev pub IsWritable : Message → Type 0
IsWritable m = (is_blank m.name ≡ false) × (IsOneLine m.name × All IsOneLine m.lines)

abbrev pub event_of : Message → SseEvent
event_of m = record { name = m.name; payload = join_lines m.lines }

unfoldable pub data_lines : List String → List String
unfolding concat
data_lines [] = []
data_lines (l ∷ ls) = concat "data: " (concat l "\n") ∷ data_lines ls

-- The lines of an event in the format of server-sent events.
unfoldable pub lines_of : Message → List String
unfolding data_lines concat
lines_of m = concat "event: " (concat m.name "\n") ∷ (data_lines m.lines ++ "\n" ∷ [])

unfoldable pub lines_of_all : List Message → List String
unfolding lines_of
lines_of_all [] = []
lines_of_all (m ∷ ms) = lines_of m ++ lines_of_all ms

rstrip_newline-line : (s : String) → IsOneLine s → rstrip_newline (concat s "\n") ≡ s
unfolding rstrip_newline concat
rstrip_newline-line String.[] h = refl
rstrip_newline-line (String.◌∷◌ c s) h =
    rw (rstrip_newline-line s h.1, h.0) (kept (is_blank s) (String.◌∷◌ c s))
  where
    kept : (b : Bool) (t : String) → (if b && false then "" else t) ≡ t
    kept true t = refl
    kept false t = refl

feed-name :
    (name : String) (p : Parser)
    → IsOneLine name
    → feed (concat "event: " (concat name "\n")) p ≡ (record p { name = name }, none)
unfolding feed concat set_field partition_colon feed_line
feed-name name p h =
    ap (λ l. feed_line l p)
      (rstrip_newline-line (concat "event: " name)
        (refl, (refl, (refl, (refl, (refl, (refl, (refl, h))))))))

feed-data :
    (l : String) (p : Parser)
    → IsOneLine l
    → feed (concat "data: " (concat l "\n")) p ≡ (record p { parts = p.parts ++ l ∷ [] }, none)
unfolding feed concat set_field partition_colon feed_line
feed-data l p h =
    ap (λ l. feed_line l p)
      (rstrip_newline-line (concat "data: " l) (refl, (refl, (refl, (refl, (refl, (refl, h)))))))

events_from-data :
    (ls rest : List String) (p : Parser)
    → All IsOneLine ls
    → events_from p (data_lines ls ++ rest) ≡ events_from (record p { parts = p.parts ++ ls }) rest
unfolding events_from data_lines
events_from-data [] rest p h =
    ap (λ parts. events_from (record p { parts = parts }) rest) (sym (append-nil p.parts))
events_from-data (l ∷ ls) rest p h =
    ap (λ r. with_event r.1 (events_from r.0 (data_lines ls ++ rest))) (feed-data l p h.0)
    ∙ events_from-data ls rest (record p { parts = p.parts ++ l ∷ [] }) h.1
    ∙ ap (λ parts. events_from (record p { parts = parts }) rest) (append_assoc p.parts (l ∷ []) ls)

events_from-message :
    (m : Message) (rest : List String)
    → IsWritable m
    → events_from start (lines_of m ++ rest) ≡ event_of m ∷ events_from start rest
unfolding events_from lines_of feed feed_line flush rstrip_newline
events_from-message m rest h =
    ap (λ r. with_event r.1 (events_from r.0 ((data_lines m.lines ++ "\n" ∷ []) ++ rest)))
      (feed-name m.name start h.1.0)
    ∙ ap (events_from (record start { name = m.name }))
        (append_assoc (data_lines m.lines) ("\n" ∷ []) rest)
    ∙ events_from-data m.lines ("\n" ∷ rest) (record start { name = m.name }) h.1.1
    ∙ rw h.0 refl

-- Reading back a sequence of events that a server writes, each with a name and data of any number of
-- lines, gives these events, if no line of theirs holds the end of a line.
pub iter_sse_events-lines_of_all :
    (ms : List Message) → All IsWritable ms → iter_sse_events (lines_of_all ms) ≡ map event_of ms
unfolding iter_sse_events lines_of_all events_from flush
iter_sse_events-lines_of_all [] h = refl
iter_sse_events-lines_of_all (m ∷ ms) h =
    events_from-message m (lines_of_all ms) h.0
    ∙ ap (λ es. event_of m ∷ es) (iter_sse_events-lines_of_all ms h.1)
