-- ===== src/Collector/Relay.antt =====
-- The handler of runner/modelproxy/proxy.py: what is taken from a response that is passed on to the
-- product, piece by piece, and how a request ends.
pub mod Chunks
use Prim.Native.Char.{Char, code}
use yonwork_benchmark.Prelude.{
  ◌&&◌, ℕ, suc, String, Bool, true, false, Option, none, some, List, [], ◌∷◌, ◌++◌, str_eq,
  is_blank, if◌then◌else◌, strip, has_prefix, drop_chars, is_some, concat, count_chars, or_else,
  leb, not, ◌==◌, ltb, ◌+◌,
}
use yonwork_benchmark.Json.{Json, Fields, Items, get, is_truthy}
use yonwork_benchmark.Collector.Ledger.{ModelRequestRecord, Termination, Attribution}

abbrev choice_part : Json → Json → Json
choice_part delta message =
    if is_truthy delta then delta else if is_truthy message then message else Json.obj Fields.end

-- A delta or a message with content, reasoning or tool calls.
unfoldable pub part_has_output : Json → Bool
unfolding get is_truthy
part_has_output (Json.obj part) =
    if is_truthy (get "content" part)
    then true
    else if is_truthy (get "reasoning_content" part)
    then true
    else is_truthy (get "tool_calls" part)
part_has_output _ = false

unfoldable pub choices_have_output : Items → Bool
unfolding part_has_output get is_truthy
choices_have_output Items.nil = false
choices_have_output (Items.cons (Json.obj choice) rest) =
    let others = choices_have_output rest in
    if part_has_output (choice_part (get "delta" choice) (get "message" choice))
    then true
    else others
choices_have_output (Items.cons _ rest) = choices_have_output rest

-- `for choice in payload.get("choices") or ()`: a text or the keys of an object hold no choice that
-- is an object. `none` is the `TypeError` of what cannot be gone through.
unfoldable pub has_output : Json → Option Bool
unfolding choices_have_output is_truthy
has_output (Json.arr choices) = some (choices_have_output choices)
has_output (Json.num n) = if n == 0 then some false else none
has_output (Json.bool b) = if b then none else some false
has_output _ = some false

-- `bytes.strip()`: ASCII white space only.
abbrev is_ascii_space : ℕ → Bool
is_ascii_space c = if leb 9 c then if leb c 13 then true else c == 32 else false

unfoldable pub lstrip_bytes : String → String
lstrip_bytes String.[] = ""
lstrip_bytes (String.◌∷◌ c s) =
    let rest = lstrip_bytes s in if is_ascii_space (code c) then rest else String.◌∷◌ c s

unfoldable pub rstrip_bytes : String → String
rstrip_bytes String.[] = ""
rstrip_bytes (String.◌∷◌ c s) =
    let rest = rstrip_bytes s in
    if is_blank rest
    then if is_ascii_space (code c) then "" else String.◌∷◌ c rest
    else String.◌∷◌ c rest

-- What `_absorb_payload` may change, `started` seconds after the start.
abbrev set_usage : Json → ModelRequestRecord → ModelRequestRecord
set_usage (Json.obj usage) r = record r { usage = some usage }
set_usage _ r = r

abbrev set_model : Json → ModelRequestRecord → ModelRequestRecord
set_model model r = if is_truthy model then record r { response_model = model } else r

abbrev set_output : ℕ → Bool → ModelRequestRecord → ModelRequestRecord
set_output elapsed false r = r
set_output elapsed true r = record r {
  output_events = suc r.output_events;
  first_output_seconds = some (or_else r.first_output_seconds elapsed);
}

abbrev finish_payload : ℕ → Option Bool → ModelRequestRecord → Option ModelRequestRecord
finish_payload elapsed none r = none
finish_payload elapsed (some output) r = some (set_output elapsed output r)

-- `_absorb_payload`; `none` where it raises.
unfoldable pub absorb_payload : ℕ → Json → ModelRequestRecord → Option ModelRequestRecord
unfolding has_output get
absorb_payload elapsed (Json.obj payload) r =
    finish_payload elapsed (has_output (get "choices" payload))
      (set_model (get "model" payload) (set_usage (get "usage" payload) r))
absorb_payload elapsed _ r = some r

-- `record.error_kind = record.error_kind or kind`
abbrev note_error : String → ModelRequestRecord → ModelRequestRecord
note_error kind r = record r { error_kind = if is_blank r.error_kind then kind else r.error_kind }

-- The record, and the part of a line that waits for the rest of it.
pub record Scan : Type 0 where
  pub entry : ModelRequestRecord
  pub pending : String

-- Bytes are given as characters. `read_json` is `json.loads`, `none` where the text is no JSON.
module _ (read_json : String → Option Json) where
  unfoldable pub absorb_text : String → ℕ → String → ModelRequestRecord → Option ModelRequestRecord
  unfolding absorb_payload
  absorb_text kind elapsed text r = elim (read_json text) [
    | none ↦ some (note_error kind r)
    | some payload ↦ absorb_payload elapsed payload r
  ]

  -- `_absorb`
  unfoldable pub absorb : ℕ → String → ModelRequestRecord → Option ModelRequestRecord
  unfolding absorb_text
  absorb = absorb_text "response-not-json"

  unfoldable pub scan_value : ℕ → String → ModelRequestRecord → Option ModelRequestRecord
  unfolding absorb_text
  scan_value elapsed value r =
      if str_eq value "[DONE]"
      then some (record r { sse_done = some true })
      else absorb_text "sse-parse" elapsed value r

  -- One line of a stream, without its end.
  unfoldable pub scan_line : ℕ → String → ModelRequestRecord → Option ModelRequestRecord
  unfolding scan_value has_prefix lstrip_bytes rstrip_bytes drop_chars
  scan_line elapsed line r =
      if has_prefix line "data:"
      then scan_value elapsed (rstrip_bytes (lstrip_bytes (drop_chars 5 line))) r
      else some r

  -- `_scan`: `line` is what was read of the current line, `rest` the bytes after it.
  unfoldable pub scan_from : ℕ → String → String → ModelRequestRecord → Option Scan
  unfolding concat
  scan_from elapsed line String.[] r = some (record { entry = r; pending = line })
  scan_from elapsed line (String.◌∷◌ c rest) r =
      let longer = scan_from elapsed (concat line (String.◌∷◌ c "")) rest r in
      if code c == 10
      then elim (scan_line elapsed line r) [ none ↦ none | some r' ↦ scan_from elapsed "" rest r' ]
      else longer

  -- `pending = self._scan(record, pending + chunk, started)`: what waits holds no end of a line, so
  -- that the search goes on after it.
  unfoldable pub scan : ℕ → String → Scan → Option Scan
  unfolding scan_from
  scan elapsed chunk s = scan_from elapsed s.pending chunk s.entry

  unfoldable pub scan_all : ℕ → List String → Scan → Option Scan
  unfolding scan
  scan_all elapsed [] s = some s
  scan_all elapsed (chunk ∷ chunks) s = elim (scan elapsed chunk s) [
    | none ↦ none
    | some next ↦ scan_all elapsed chunks next
  ]

-- How the loop over the chunks ends: at the end of the response, by an error of the upstream, or
-- because the product has gone.
pub data RelayEnd : Type 0 where
  ended read_timeout truncated client_gone : RelayEnd

abbrev at_least_400 : Option ℕ → Bool
at_least_400 none = false
at_least_400 (some status) = leb 400 status

-- The termination after a response was passed on, `set` being what was set before.
unfoldable pub ending_of :
    Option Termination → RelayEnd → Bool → Option Bool → Option ℕ → Termination
ending_of set RelayEnd.read_timeout streaming sse status = Termination.timeout
ending_of set RelayEnd.truncated streaming sse status = Termination.stream_truncated
ending_of set RelayEnd.client_gone streaming sse status = Termination.client_disconnected
ending_of (some t) RelayEnd.ended streaming sse status = t
ending_of none RelayEnd.ended streaming sse status =
    if not (or_else sse false) && streaming
    then Termination.stream_truncated
    else if at_least_400 status
    then Termination.upstream_error
    else Termination.completed

abbrev pub max_buffered_body : ℕ
max_buffered_body = 1048576

-- `buffered += chunk`, as long as the buffer is below the limit.
unfoldable pub buffer_chunks : List String → String → String
unfolding count_chars concat
buffer_chunks [] buffered = buffered
buffer_chunks (chunk ∷ chunks) buffered =
    let more = buffer_chunks chunks (concat buffered chunk) in
    let full = buffer_chunks chunks buffered in
    if ltb (count_chars buffered) max_buffered_body then more else full

-- A response of the upstream: `chunks` were passed on to the product. `failed_status` holds where
-- the upstream answered with an error status.
pub record UpstreamResponse : Type 0 where
  pub http_status : ℕ
  pub upstream_request_id : Option String
  pub failed_status : Bool
  pub streaming : Bool
  pub chunks : List String
  pub relay_end : RelayEnd
  pub error_kind : String

abbrev pub start_response : UpstreamResponse → ModelRequestRecord → ModelRequestRecord
start_response u r = record r {
  http_status = some u.http_status;
  upstream_request_id = u.upstream_request_id;
  termination = if u.failed_status then some Termination.upstream_error else r.termination;
}

abbrev is_ended : RelayEnd → Bool
is_ended RelayEnd.ended = true
is_ended _ = false

abbrev pub end_response : UpstreamResponse → ModelRequestRecord → ModelRequestRecord
end_response u r = record r {
  termination = some (ending_of r.termination u.relay_end u.streaming r.sse_done r.http_status);
  error_kind = if is_ended u.relay_end then r.error_kind else u.error_kind;
}

module _ (read_json : String → Option Json) (elapsed : ℕ) where
  -- What is read of the response, as a stream or at its end.
  unfoldable pub read_response : UpstreamResponse → ModelRequestRecord → Option ModelRequestRecord
  unfolding scan_all absorb buffer_chunks
  read_response u r =
      if u.streaming
      then elim (scan_all read_json elapsed u.chunks (record { entry = r; pending = "" })) [
        | none ↦ none
        | some s ↦ some s.entry
      ]
      else let body = buffer_chunks u.chunks "" in
        if is_blank body then some r else absorb read_json elapsed body r

  -- `_forward` from the response on, up to `finish`; `none` where it raises.
  unfoldable pub forward_response :
      UpstreamResponse → ModelRequestRecord → Option ModelRequestRecord
  unfolding read_response ending_of
  forward_response u r = elim (read_response u (start_response u r)) [
    | none ↦ none
    | some r' ↦ some (end_response u r')
  ]

-- A body in chunks is refused by the handler.
abbrev pub refuse_chunked : ModelRequestRecord → ModelRequestRecord
refuse_chunked r = record r {
  attribution = Attribution.rejected;
  termination = some Termination.refused;
  http_status = some 501;
  error_kind = "chunked-request-body";
  error_detail = "请求体是 chunked 编码，采集代理未实现解码";
}

-- The upstream could not be reached: the record before `finish`.
abbrev pub fail_request : Bool → Bool → String → ModelRequestRecord → ModelRequestRecord
fail_request timed_out gone kind r = record r {
  termination = some (
      if gone
      then Termination.client_disconnected
      else if timed_out
      then Termination.timeout
      else Termination.transport_error);
  error_kind = kind;
}
