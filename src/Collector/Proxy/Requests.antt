-- ===== src/Collector/Proxy/Requests.antt =====
-- `begin`, `finish` and `upstream_for` of `CollectorProxy`. A request passes the steps of `begin`
-- one after the other; what other threads do in between is in Steps.
use yonwork_benchmark.Prelude.{
  ℕ, suc, String, Bool, true, false, Option, none, some, List, [], ◌∷◌, ◌++◌, is_some, str_eq,
  if◌then◌else◌, concat, strip, lower, elem, or_else, is_blank, sort_by, text_le, has_part, not,
  map, count_chars, ◌&&◌, has_prefix,
}
use Prim.Native.Char.{Char}
use yonwork_benchmark.Json.{Json, Fields, get}
use yonwork_benchmark.Models.Ids.{decimal}
use yonwork_benchmark.Models.Records.{length_items}
use yonwork_benchmark.Collector.Ledger.{
  ModelRequestRecord, Attribution, Termination, RecordStatus, find_record,
}
use yonwork_benchmark.Collector.Proxy.{
  Registration, Proxy, TraceBinding, find_run, update_run, update_record, write,
}
use yonwork_benchmark.Collector.Proxy.Trace.{
  parse_traceparent, find_binding, conflict_source, add_request,
}

-- A request of a product: the value of a header, by its name in lower case, the names of all
-- headers, and what the JSON reader makes of the body, `none` where it raises.
pub record Request : Type 0 where
  pub path : String
  pub header : String → Option String
  pub header_names : List String
  pub body : Option Json

abbrev pub correlation_headers : List String
correlation_headers =
    "x-yonwork-run-id" ∷ "x-yonclaw-run-id" ∷ "x-conversation-id" ∷ "x-benchmark-run-id" ∷ []

-- `n` with zeros in front, to five characters.
abbrev pub zeros : ℕ → String
zeros ℕ.zero = "00000"
zeros (suc ℕ.zero) = "0000"
zeros (suc (suc ℕ.zero)) = "000"
zeros (suc (suc (suc ℕ.zero))) = "00"
zeros (suc (suc (suc (suc ℕ.zero)))) = "0"
zeros _ = ""

unfoldable pub request_id : String → ℕ → String
unfolding decimal concat count_chars
request_id proxy_id sequence =
    concat proxy_id
      (concat "-" (concat (zeros (count_chars (decimal sequence))) (decimal sequence)))

-- A set of texts, as a list without repetition.
unfoldable pub distinct : List String → List String
unfolding elem
distinct [] = []
distinct (x ∷ xs) = let rest = distinct xs in if elem x rest then rest else x ∷ rest

unfoldable pub count_messages : Json → Option ℕ
count_messages (Json.arr items) = some (length_items items)
count_messages _ = none

abbrev pub payload_field : String → Option Json → Json
payload_field key (some (Json.obj payload)) = get key payload
payload_field key _ = Json.null

-- The record of a request that has its number, before it is attributed.
unfoldable pub draft : (Char → String) → String → ℕ → String → Request → ModelRequestRecord
unfolding request_id distinct count_messages sort_by text_le lower get
draft lower_char proxy_id sequence now q = record {
  request_id = request_id proxy_id sequence;
  proxy_id = proxy_id;
  sequence = sequence;
  received_at = now;
  path = q.path;
  protocol = "openai-completions";
  run_id = none;
  product = none;
  attribution = Attribution.unattributed;
  attribution_source = "";
  requested_model = payload_field "model" q.body;
  response_model = Json.null;
  stream = payload_field "stream" q.body;
  message_count = count_messages (payload_field "messages" q.body);
  header_names = sort_by text_le (distinct (map (lower lower_char) q.header_names));
  traceparent = q.header "traceparent";
  http_status = none;
  termination = none;
  first_output_seconds = none;
  duration_seconds = none;
  ended_at = none;
  usage = none;
  usage_observed = false;
  sse_done = none;
  output_events = 0;
  error_kind = if is_some q.body then "" else "request-not-json";
  error_detail = "";
  upstream_request_id = none;
  upstream_attempts = none;
  record_status = RecordStatus.open_status;
}

-- The lock around the sequence number.
abbrev pub take_sequence : Proxy → Proxy
take_sequence p = record p { sequence = suc p.sequence }

-- `_correlate`: the first header whose value is a registered round, and its name.
unfoldable pub correlate_by :
    (String → Option String) → List String → List Registration → Option (String × String)
unfolding find_run strip
correlate_by header [] runs = none
correlate_by header (name ∷ names) runs =
    let rest = correlate_by header names runs in
    let value = strip (or_else (header name) "") in
    if not (is_blank value) && is_some (find_run value runs) then some (value, name) else rest

unfoldable pub correlate : (String → Option String) → List Registration → Option (String × String)
unfolding correlate_by
correlate header runs = correlate_by header correlation_headers runs

-- Where a request comes from: the round it is claimed for with the source of the claim, nothing,
-- or two claims that differ.
pub data Claim : Type 0 where
  claimed : String → String → Claim
  unclaimed in_conflict : Claim

-- The header's claim first, then the binding of the trace.
unfoldable pub combine : Option (String × String) → Option TraceBinding → Claim
unfolding concat
combine none none = Claim.unclaimed
combine (some (run_id, source)) none = Claim.claimed run_id source
combine correlated (some b) = elim b.run_id [
  | none ↦ Claim.in_conflict
  | some bound ↦ elim correlated [
    | none ↦ Claim.claimed bound (concat "traceparent+" b.source)
    | some (run_id, source) ↦
        if str_eq run_id bound then Claim.claimed run_id source else Claim.in_conflict
  ]
]

-- `self._runs.get(run_id or "")`, and the record in that round.
unfoldable pub attribute_in :
    String
    → Option Registration
    → List Registration
    → ModelRequestRecord
    → ModelRequestRecord × List Registration
unfolding update_run
attribute_in source none runs r = (record r { attribution_source = "" }, runs)
attribute_in source (some registration) runs r = (
  record r {
    run_id = some registration.run_id;
    product = some registration.product;
    attribution = if registration.closed then Attribution.late else Attribution.attributed;
    attribution_source = source;
  },
  update_run registration.run_id (add_request r.request_id) runs,
)

unfoldable pub attribute :
    Claim → List Registration → ModelRequestRecord → ModelRequestRecord × List Registration
unfolding attribute_in find_run
attribute Claim.unclaimed runs r = (record r { attribution_source = "" }, runs)
attribute Claim.in_conflict runs r = (record r { attribution_source = conflict_source }, runs)
attribute (Claim.claimed run_id source) runs r = attribute_in source (find_run run_id runs) runs r

abbrev pub find_key : Option (String × String) → List TraceBinding → Option TraceBinding
find_key none bs = none
find_key (some key) bs = find_binding key bs

abbrev pub store : ModelRequestRecord × List Registration → Proxy → Proxy
store attributed p = record p { records = p.records ++ attributed.0 ∷ []; runs = attributed.1 }

-- The second lock of `begin`: the record is attributed and stored.
unfoldable pub arrive :
    (Char → String) → Option (String × String) → ModelRequestRecord → Proxy → Proxy
arrive lower_char correlated r p =
    let binding = find_key (parse_traceparent lower_char r.traceparent) p.bindings in
    store (attribute (combine correlated binding) p.runs r) p

abbrev pub is_authorized : String → Request → Bool
is_authorized token q = str_eq (or_else (q.header "authorization") "") (concat "Bearer " token)

abbrev pub refuse : ℕ → String → ModelRequestRecord → ModelRequestRecord
refuse status detail r = record r {
  attribution = Attribution.rejected;
  termination = some Termination.refused;
  http_status = some status;
  error_detail = detail;
}

-- A request with a wrong credential, or to an unknown path, is refused.
unfoldable pub screen : String → Request → ModelRequestRecord → ModelRequestRecord
unfolding has_part concat
screen token q r =
    if not (is_authorized token q)
    then refuse 401 "凭据不匹配" r
    else if not (has_part q.path "/v1/")
    then refuse 404 "未知路径" r
    else r

abbrev pub write_stored : String → Proxy → Proxy
write_stored id p = elim (find_record id p.records) [ none ↦ p | some r ↦ write r p ]

abbrev pub change_stored : String → (ModelRequestRecord → ModelRequestRecord) → Proxy → Proxy
change_stored id f p = record p { records = update_record id f p.records }

-- `begin`, where nothing else happens in between: the number of the request and the state.
unfoldable pub begin : (Char → String) → String → Request → Proxy → String × Proxy
unfolding draft correlate arrive screen write find_record update_record
begin lower_char now q p =
    let p₁ = take_sequence p in
    let r = draft lower_char p.proxy_id p₁.sequence now q in
    let p₂ = arrive lower_char (correlate q.header p₁.runs) r p₁ in
    (
      r.request_id,
      write_stored r.request_id (change_stored r.request_id (screen p.client_token q) p₂),
    )

abbrev pub close_record : Option ℕ → String → ModelRequestRecord → ModelRequestRecord
close_record duration now r = record r {
  duration_seconds = if is_some duration then duration else r.duration_seconds;
  ended_at = some now;
  usage_observed = elim r.usage [ none ↦ false | some Fields.end ↦ false | some _ ↦ true ];
  record_status = RecordStatus.closed_status;
}

unfoldable pub finish : String → Option ℕ → String → Proxy → Proxy
unfolding write find_record update_record
finish id duration now p = write_stored id (change_stored id (close_record duration now) p)

-- The part of `path` from "/v1/" on.
unfoldable pub from_marker : String → Option String
unfolding has_prefix
from_marker String.[] = none
from_marker (String.◌∷◌ c s) =
    let rest = from_marker s in
    if has_prefix (String.◌∷◌ c s) "/v1/" then some (String.◌∷◌ c s) else rest

unfoldable pub upstream_for : String → String → String
unfolding from_marker concat
upstream_for base path = concat base (or_else (from_marker path) "/v1/chat/completions")
