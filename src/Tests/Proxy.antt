-- ===== src/Tests/Proxy.antt =====
-- A request of a trace that a hook reports, and a round that is registered and closed.
use yonwork_benchmark.Collector.Relay.Chunks.{scan_all-join_chunks, join_chunks}
use yonwork_benchmark.Json.{Json}
use yonwork_benchmark.Collector.Relay.{scan_line, scan, scan_all}
use yonwork_benchmark.Collector.Ledger.{ModelRequestRecord}
use Prim.Native.Char.{Char}
use yonwork_benchmark.Prelude.{
  Option, str_eq, some, none, [], ◌∷◌, String, ◌≡◌, refl, true, false, length, ◌≤◌, All, elem,
}
use yonwork_benchmark.Collector.Proxy.{Proxy, Registration, find_run}
use yonwork_benchmark.Collector.Proxy.Runs.{register, records_for}
use yonwork_benchmark.Collector.Proxy.Trace.{Key, parse_traceparent, resolve_hook_run, find_binding}
use yonwork_benchmark.Collector.Proxy.Bind.{bind_key}
use yonwork_benchmark.Collector.Proxy.Requests.{Request, arrive, draft, request_id}
use yonwork_benchmark.Collector.Proxy.Numbers.{read_sequence, read_sequence-request_id}
use yonwork_benchmark.Collector.Proxy.Attributions.{is_for}
use yonwork_benchmark.Collector.Proxy.Invariant.{ids, IsConsistent}
use yonwork_benchmark.Collector.Proxy.Steps.{System, Step, Reach, fresh}
use yonwork_benchmark.Collector.Proxy.Sound.Theorems.{Reach-IsConsistent, Reach_bounded}
use yonwork_benchmark.Collector.Proxy.Sound.Answers.{records_for_exact}
use yonwork_benchmark.Collector.Proxy.Order.{Meet, bind_either_order}

abbrev same_char : Char → String
same_char c = String.◌∷◌ c ""

abbrev trace : String
trace = "0123456789abcdef0123456789abcdef"

abbrev span : String
span = "0123456789abcdef"

abbrev traceparent : String
traceparent = "00-0123456789abcdef0123456789abcdef-0123456789abcdef-01"

abbrev request : Request
request = record {
  path = "/v1/chat/completions";
  header = λ name. elim (str_eq name "traceparent") [ true ↦ some traceparent | false ↦ none ];
  header_names = "traceparent" ∷ [];
  body = none;
}

abbrev empty : Proxy
empty = (fresh "p" "t" "a.jsonl").proxy

abbrev round : Registration
round = record {
  run_id = "bench-1";
  product = "yonwork";
  closed = false;
  requests = [];
  closed_after_sequence = none;
  ledger = "a.jsonl";
}

abbrev open_proxy : Proxy
open_proxy = record empty { runs = round ∷ [] }

registered : register "bench-1" "yonwork" empty ≡ some open_proxy
unfolding register
registered = refl

abbrev key : Key
key = (trace, span)

parsed : parse_traceparent same_char (some traceparent) ≡ some key
unfolding parse_traceparent
parsed = refl

resolves : resolve_hook_run "bench-1" open_proxy.runs ≡ some "bench-1"
unfolding resolve_hook_run
resolves = refl

finds : find_run "bench-1" open_proxy.runs ≡ some round
unfolding find_run
finds = refl

unbound : find_binding key [] ≡ none
unfolding find_binding
unbound = refl

abbrev meeting : Meet same_char key "bench-1" request 1 round open_proxy
meeting = record {
  traced = parsed;
  resolved = resolves;
  found = finds;
  unbound = unbound;
  unseen = tt;
  timed = refl;
}

bind_either_order_example :
    arrive same_char none
      (draft same_char "p" 1 "10:00" request)
      (bind_key same_char key "bench-1" "hook" open_proxy).1
    ≡ (bind_key same_char key "bench-1" "hook"
        (arrive same_char none (draft same_char "p" 1 "10:00" request) open_proxy)).1
bind_either_order_example =
    bind_either_order same_char key "bench-1" "hook" "10:00" request 1 round open_proxy meeting

abbrev reached : System
reached = record {
  proxy =
      arrive same_char none (draft same_char "p" 1 "10:00" request)
        (record open_proxy { sequence = 1 });
  pending = [];
}

run : Reach same_char (fresh "p" "t" "a.jsonl") reached
run =
    Reach.after
      (Reach.after (Reach.after Reach.here (Step.registers "bench-1" "yonwork" registered))
        Step.takes)
      (Step.arrives 1 "10:00" request none refl)

Reach-IsConsistent_example : IsConsistent reached.proxy.records reached.proxy.runs
Reach-IsConsistent_example = Reach-IsConsistent same_char "p" "t" "a.jsonl" reached run

Reach_bounded_example : length reached.proxy.bindings ≤ 4096
Reach_bounded_example = Reach_bounded same_char "p" "t" "a.jsonl" reached run

records_for_exact_example :
    All
      (λ r.
        (id : String) → elem r.request_id (ids (records_for id reached.proxy)) ≡ is_for id r.run_id)
      reached.proxy.records
records_for_exact_example = records_for_exact same_char "p" "t" "a.jsonl" reached run

padded : request_id "p" 12 ≡ "p-00012"
unfolding request_id
padded = refl

read_sequence-request_id_example : read_sequence "p" (request_id "p" 123456) ≡ 123456
read_sequence-request_id_example = read_sequence-request_id "p" 123456

abbrev entry : ModelRequestRecord
entry = draft same_char "p" 1 "10:00" request

abbrev no_json : String → Option Json
no_json s = none

scan_all-join_chunks_example :
    scan_all no_json 5 ("data: [DO" ∷ "NE]\n" ∷ []) (record { entry = entry; pending = "" })
    ≡ scan no_json 5
        (join_chunks ("data: [DO" ∷ "NE]\n" ∷ []))
        (record { entry = entry; pending = "" })
scan_all-join_chunks_example =
    scan_all-join_chunks no_json 5 ("data: [DO" ∷ "NE]\n" ∷ [])
      (record { entry = entry; pending = "" })

scanned :
    scan_all no_json 5 ("data: [DO" ∷ "NE]\n" ∷ []) (record { entry = entry; pending = "" })
    ≡ some (record { entry = record entry { sse_done = some true }; pending = "" })
unfolding scan_all scan_line
scanned = refl
