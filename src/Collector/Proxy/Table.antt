-- ===== src/Collector/Proxy/Table.antt =====
-- The size of the table of trace bindings.
use yonwork_benchmark.Prelude.{
  String, none, some, List, [], ◌∷◌, ◌≡◌, refl, ◌≤◌, arith, length, length-append, leb, Bool-cases,
  Option-cases, inl, inr,
}
use yonwork_benchmark.Collector.Proxy.{TraceBinding}
use yonwork_benchmark.Collector.Proxy.Trace.{
  Key, find_binding, replace_binding, max_trace_bindings, is_key, same_run,
}
use yonwork_benchmark.Collector.Proxy.Bind.{insert_binding, settle_binding, new_binding}

length-insert_binding :
    (b : TraceBinding) (bs : List TraceBinding)
    → length bs ≤ max_trace_bindings
    → length (insert_binding b bs) ≤ max_trace_bindings
unfolding insert_binding
length-insert_binding b [] h = omega arith
length-insert_binding b (x ∷ xs) h = elim (Bool-cases (leb max_trace_bindings (length (x ∷ xs)))) [
  | inl e ↦ rw e (omega (arith, h, length-append {A = TraceBinding} xs (b ∷ [])))
  | inr e ↦ rw e (ground (arith, e, length-append {A = TraceBinding} xs (b ∷ [])))
]

length-replace_binding :
    (key : Key) (b : TraceBinding) (bs : List TraceBinding)
    → length (replace_binding key b bs) ≡ length bs
unfolding replace_binding
length-replace_binding key b [] = refl
length-replace_binding key b (x ∷ xs) = elim (Bool-cases (is_key key x)) [
  | inl e ↦ rw e refl
  | inr e ↦ rw e (omega (arith, length-replace_binding key b xs))
]

pub length-settle_binding :
    (key : Key) (resolved source : String) (bs : List TraceBinding)
    → length bs ≤ max_trace_bindings
    → length (settle_binding key resolved source bs).1 ≤ max_trace_bindings
unfolding settle_binding
length-settle_binding key resolved source bs h = elim (Option-cases (find_binding key bs)) [
  | inl e ↦ rw (e, settle_binding) (length-insert_binding (new_binding key resolved source) bs h)
  | inr (b, e) ↦ elim (Bool-cases (same_run b.run_id (some resolved))) [
    | inl f ↦ rw (e, f, settle_binding) h
    | inr f ↦
        rw (e, f, settle_binding)
          (omega (arith, h, length-replace_binding key (record b { run_id = none }) bs))
  ]
]
