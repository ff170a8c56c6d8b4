-- ===== src/Client/Events.antt =====
-- `iter_sse_events` of runner/client.py: lines of text to events.
pub mod RoundTrip
use Prim.Native.Char.{Char, code}
use yonwork_benchmark.Prelude.{
  ℕ, String, Bool, true, false, Option, none, some, List, [], ◌∷◌, ◌++◌, str_eq, is_blank, is_empty,
  if◌then◌else◌, ◌&&◌, ◌||◌, ◌==◌, concat, not,
}

pub record SseEvent : Type 0 where
  pub name : String
  pub payload : String

abbrev pub is_newline : ℕ → Bool
is_newline c = c == 10 || c == 13

-- `line.rstrip("\r\n")`
unfoldable pub rstrip_newline : String → String
rstrip_newline String.[] = ""
rstrip_newline (String.◌∷◌ c s) =
    let rest = rstrip_newline s in
    if is_blank rest && is_newline (code c) then "" else String.◌∷◌ c rest

abbrev pub cons_first : Char → String × String → String × String
cons_first c parts = (String.◌∷◌ c parts.0, parts.1)

-- `line.partition(":")`, without the separator.
unfoldable pub partition_colon : String → String × String
partition_colon String.[] = ("", "")
partition_colon (String.◌∷◌ c s) =
    let rest = partition_colon s in if code c == 58 then ("", s) else cons_first c rest

-- `value[1:] if value.startswith(" ") else value`
abbrev pub drop_space : String → String
drop_space String.[] = ""
drop_space (String.◌∷◌ c s) = if code c == 32 then s else String.◌∷◌ c s

abbrev pub is_comment : String → Bool
is_comment String.[] = false
is_comment (String.◌∷◌ c s) = code c == 58

-- `"\n".join(parts)`
unfoldable pub join_lines : List String → String
unfolding concat
join_lines [] = ""
join_lines (x ∷ []) = x
join_lines (x ∷ y ∷ ys) = concat x (concat "\n" (join_lines (y ∷ ys)))

-- The loop's variables `name` and `data`.
pub record Parser : Type 0 where
  pub name : String
  pub parts : List String

abbrev pub start : Parser
start = record { name = ""; parts = [] }

abbrev pub or_message : String → String
or_message name = if is_blank name then "message" else name

-- The event that an empty line or the end of the stream gives, if anything was read.
unfoldable pub flush : Parser → Option SseEvent
unfolding join_lines
flush p =
    if not (is_blank p.name) || not (is_empty p.parts)
    then some (record { name = or_message p.name; payload = join_lines p.parts })
    else none

unfoldable pub set_field : String → String → Parser → Parser
set_field name value p =
    if str_eq name "event"
    then record p { name = value }
    else if str_eq name "data"
    then record p { parts = p.parts ++ value ∷ [] }
    else p

-- One line without its end: the parser after it, and the event that it completes.
unfoldable pub feed_line : String → Parser → Parser × Option SseEvent
unfolding flush set_field partition_colon
feed_line line p =
    if is_blank line
    then (start, flush p)
    else if is_comment line
    then (p, none)
    else (set_field (partition_colon line).0 (drop_space (partition_colon line).1) p, none)

unfoldable pub feed : String → Parser → Parser × Option SseEvent
unfolding feed_line rstrip_newline
feed raw p = feed_line (rstrip_newline raw) p

abbrev pub with_event : Option SseEvent → List SseEvent → List SseEvent
with_event none events = events
with_event (some e) events = e ∷ events

unfoldable pub events_from : Parser → List String → List SseEvent
unfolding feed flush
events_from p [] = with_event (flush p) []
events_from p (raw ∷ lines) = with_event (feed raw p).1 (events_from (feed raw p).0 lines)

-- Lines are given decoded, with their ends.
unfoldable pub iter_sse_events : List String → List SseEvent
unfolding events_from
iter_sse_events lines = events_from start lines
