-- ===== src/Collector/Proxy/Bind.antt =====
-- `bind_trace` of `CollectorProxy`.
use yonwork_benchmark.Prelude.{
  String, Option, none, some, List, [], ◌∷◌, ◌++◌, is_some, if◌then◌else◌, leb, concat, length,
}
use Prim.Native.Char.{Char}
use yonwork_benchmark.Collector.Proxy.{Proxy, TraceBinding, write_all}
use yonwork_benchmark.Collector.Proxy.Trace.{
  Key, parse_traceparent, find_binding, replace_binding, max_trace_bindings, resolve_hook_run,
  Bound, bind_records, same_run,
}

pub data BindStatus : Type 0 where
  bound conflict unregistered : BindStatus

abbrev pub drop_oldest {ℓ} : {A : Type ℓ} → List A → List A
drop_oldest [] = []
drop_oldest (x ∷ xs) = xs

-- A new binding; the oldest goes when there are too many.
unfoldable pub insert_binding : TraceBinding → List TraceBinding → List TraceBinding
insert_binding b bs = (if leb max_trace_bindings (length bs) then drop_oldest bs else bs) ++ b ∷ []

abbrev pub new_binding : Key → String → String → TraceBinding
new_binding key resolved source = record {
  trace_id = key.0;
  span_id = key.1;
  run_id = some resolved;
  source = source;
}

-- The binding of the key from now on, and the table of bindings.
unfoldable pub settle_binding :
    Key → String → String → List TraceBinding → TraceBinding × List TraceBinding
unfolding find_binding insert_binding replace_binding
settle_binding key resolved source bs = elim (find_binding key bs) [
  | none ↦ (new_binding key resolved source, insert_binding (new_binding key resolved source) bs)
  | some b ↦
      if same_run b.run_id (some resolved)
      then (b, bs)
      else (record b { run_id = none }, replace_binding key (record b { run_id = none }) bs)
]

-- The state after the loop over the records, and after the writes.
unfoldable pub after_binding : Bound → List TraceBinding → Proxy → Proxy
unfolding write_all
after_binding done bs p =
    write_all done.rewrite (record p { records = done.records; runs = done.runs; bindings = bs })

module _ (lower_char : Char → String) where
  unfoldable pub bind_key : Key → String → String → Proxy → BindStatus × Proxy
  bind_key key run_id source p = elim (resolve_hook_run run_id p.runs) [
    | none ↦ (BindStatus.unregistered, p)
    | some resolved ↦
        let (b, bs) = settle_binding key resolved source p.bindings in
        (
          if is_some b.run_id then BindStatus.bound else BindStatus.conflict,
          after_binding (bind_records lower_char key b p.records p.runs) bs p,
        )
  ]

  -- `none` is a `ProxyError`.
  unfoldable pub bind_trace :
      String → String → String → String → Proxy → Option (BindStatus × Proxy)
  bind_trace trace_id span_id run_id source p =
      elim (parse_traceparent lower_char
        (some (concat "00-" (concat trace_id (concat "-" (concat span_id "-01")))))) [
          | none ↦ none
          | some key ↦ some (bind_key key run_id source p)
        ]
