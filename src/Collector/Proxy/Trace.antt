-- ===== src/Collector/Proxy/Trace.antt =====
-- `parse_traceparent` and the trace bindings of `CollectorProxy`.
use yonwork_benchmark.Prelude.{
  ℕ, String, Bool, true, false, Option, none, some, List, [], ◌∷◌, ◌++◌, is_blank, is_some, str_eq,
  if◌then◌else◌, ◌&&◌, ◌||◌, leb, ◌==◌, strip, lower, split_on, count_chars, concat, or_else, elem,
  has_prefix, not, ltb,
}
use Prim.Native.Char.{Char, code}
use yonwork_benchmark.Collector.Ledger.{ModelRequestRecord, Attribution, is_closed}
use yonwork_benchmark.Collector.Proxy.{Registration, TraceBinding, find_run, update_run}

-- A trace id and a span id.
abbrev pub Key : Type 0
Key = String × String

abbrev is_hex : ℕ → Bool
is_hex c = (leb 48 c && leb c 57) || (leb 97 c && leb c 102)

unfoldable pub all_hex : String → Bool
all_hex String.[] = true
all_hex (String.◌∷◌ c s) = is_hex (code c) && all_hex s

unfoldable pub key_of_parts : List String → Option Key
unfolding all_hex count_chars
key_of_parts (a ∷ trace ∷ span ∷ d ∷ []) =
    if count_chars trace == 32 && count_chars span == 16
    then if all_hex trace && all_hex span then some (trace, span) else none
    else none
key_of_parts _ = none

-- `lower_char` is the Unicode table of `str.lower`.
unfoldable pub parse_traceparent : (Char → String) → Option String → Option Key
unfolding key_of_parts strip lower split_on
parse_traceparent lower_char value =
    key_of_parts (split_on 45 (lower lower_char (strip (or_else value ""))))

abbrev pub is_key : Key → TraceBinding → Bool
is_key key b = str_eq b.trace_id key.0 && str_eq b.span_id key.1

abbrev pub same_key : Key → Option Key → Bool
same_key key none = false
same_key key (some k) = str_eq k.0 key.0 && str_eq k.1 key.1

unfoldable pub find_binding : Key → List TraceBinding → Option TraceBinding
find_binding key [] = none
find_binding key (b ∷ bs) = let rest = find_binding key bs in if is_key key b then some b else rest

unfoldable pub replace_binding : Key → TraceBinding → List TraceBinding → List TraceBinding
replace_binding key new [] = []
replace_binding key new (b ∷ bs) =
    let rest = replace_binding key new bs in if is_key key b then new ∷ bs else b ∷ rest

-- The part of a text before the first `marker`, if the marker occurs.
unfoldable pub before_marker : String → String → Option String
unfolding has_prefix
before_marker marker String.[] = if is_blank marker then some "" else none
before_marker marker (String.◌∷◌ c s) =
    let rest = before_marker marker s in
    if has_prefix (String.◌∷◌ c s) marker
    then some ""
    else elim rest [ none ↦ none | some head ↦ some (String.◌∷◌ c head) ]

-- `_resolve_hook_run`
unfoldable pub resolve_hook_run : String → List Registration → Option String
unfolding find_run before_marker
resolve_hook_run run_id runs =
    if is_some (find_run run_id runs)
    then some run_id
    else elim (before_marker ":compaction:" run_id) [
      | none ↦ none
      | some head ↦ if is_some (find_run head runs) then some head else none
    ]

abbrev pub max_trace_bindings : ℕ
max_trace_bindings = 4096

abbrev pub conflict_source : String
conflict_source = "conflict"

-- `list.remove`, for a text that occurs.
unfoldable pub remove_text : String → List String → List String
remove_text t [] = []
remove_text t (x ∷ xs) = let rest = remove_text t xs in if str_eq x t then xs else x ∷ rest

abbrev pub drop_request : String → Registration → Registration
drop_request id r = record r {
  requests = if elem id r.requests then remove_text id r.requests else r.requests;
}

abbrev pub add_request : String → Registration → Registration
add_request id r = record r { requests = r.requests ++ id ∷ [] }

-- `registration.closed_after_sequence is not None and record.sequence > …`
abbrev pub is_late : Registration → ℕ → Bool
is_late r sequence = elim r.closed_after_sequence [ none ↦ false | some n ↦ ltb n sequence ]

abbrev pub same_run : Option String → Option String → Bool
same_run none none = true
same_run none (some b) = false
same_run (some a) none = false
same_run (some a) (some b) = str_eq a b

-- A record and the rounds after a binding is applied to it.
abbrev pub Applied : Type 0
Applied = ModelRequestRecord × List Registration

unfoldable pub put_in_conflict : ModelRequestRecord → List Registration → Applied
unfolding update_run elem remove_text
put_in_conflict r runs = (
  record r {
    run_id = none;
    product = none;
    attribution = Attribution.unattributed;
    attribution_source = conflict_source;
  },
  update_run (or_else r.run_id "") (drop_request r.request_id) runs,
)

unfoldable pub put_in_run : ModelRequestRecord → String → Registration → List Registration → Applied
unfolding update_run concat
put_in_run r source registration runs = (
  record r {
    run_id = some registration.run_id;
    product = some registration.product;
    attribution =
        if is_late registration r.sequence then Attribution.late else Attribution.attributed;
    attribution_source = concat "traceparent+" source;
  },
  update_run registration.run_id (add_request r.request_id) runs,
)

unfoldable pub put_if_found :
    String → Option Registration → ModelRequestRecord → List Registration → Option Applied
put_if_found source none r runs = none
put_if_found source (some registration) r runs = some (put_in_run r source registration runs)

-- The round that the record is in, and that of the binding. A binding names a registered round, so
-- the lookup does not fail.
unfoldable pub apply_to :
    String → Option String → Option String → ModelRequestRecord → List Registration → Option Applied
apply_to source (some held) target r runs = some (put_in_conflict r runs)
apply_to source none none r runs = some (put_in_conflict r runs)
apply_to source none (some id) r runs = put_if_found source (find_run id runs) r runs

-- `_apply_binding`: `none` where the record stays as it is.
unfoldable pub apply_binding :
    TraceBinding → ModelRequestRecord → List Registration → Option Applied
apply_binding b r runs =
    if str_eq r.attribution_source conflict_source || same_run r.run_id b.run_id
    then none
    else apply_to b.source r.run_id b.run_id r runs

abbrev pub is_rejected : Attribution → Bool
is_rejected Attribution.rejected = true
is_rejected _ = false

-- What the loop of `bind_trace` over the records has done: the records, the rounds, and the records
-- whose closed line is to be written again.
pub record Bound : Type 0 where
  pub records : List ModelRequestRecord
  pub runs : List Registration
  pub rewrite : List ModelRequestRecord

unfoldable pub keep_record : ModelRequestRecord → Bound → Bound
keep_record r rest = record rest { records = r ∷ rest.records }

unfoldable pub change_record : ModelRequestRecord → Bound → Bound
change_record r rest = record rest {
  records = r ∷ rest.records;
  rewrite = if is_closed r.record_status then r ∷ rest.rewrite else rest.rewrite;
}

module _ (lower_char : Char → String) where
  -- `record.attribution != REJECTED and parse_traceparent(record.traceparent) == key`
  unfoldable pub carries : Key → ModelRequestRecord → Bool
  unfolding parse_traceparent
  carries key r =
      not (is_rejected r.attribution) && same_key key (parse_traceparent lower_char r.traceparent)

  unfoldable pub bind_records :
      Key → TraceBinding → List ModelRequestRecord → List Registration → Bound
  unfolding keep_record change_record
  bind_records key b [] runs = record { records = []; runs = runs; rewrite = [] }
  bind_records key b (r ∷ rs) runs =
      let unchanged = bind_records key b rs runs in
      if carries key r
      then elim (apply_binding b r runs) [
        | none ↦ keep_record r unchanged
        | some (changed, runs') ↦ change_record changed (bind_records key b rs runs')
      ]
      else keep_record r unchanged
