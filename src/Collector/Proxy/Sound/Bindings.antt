-- ===== src/Collector/Proxy/Sound/Bindings.antt =====
-- A trace binding keeps the invariant.
use yonwork_benchmark.Collector.Proxy.Table.{length-settle_binding}
use Prim.Native.Char.{Char}
use yonwork_benchmark.Collector.Proxy.Bind.{
  settle_binding, BindStatus, after_binding, bind_key, bind_trace,
}
use mathlib.Core.Path.{subst, subst⁻¹}
use mathlib.Core.Option.{some-injective}
use yonwork_benchmark.Prelude.{
  concat, Option-cases, ◌∙◌, ℕ, String, some, List, [], ◌∷◌, ◌≡◌, refl, inl, inr,
}
use yonwork_benchmark.Collector.Ledger.{ModelRequestRecord}
use yonwork_benchmark.Collector.Proxy.{write, write_all, Proxy}
use yonwork_benchmark.Collector.Proxy.Trace.{resolve_hook_run, parse_traceparent, bind_records, Key}
use yonwork_benchmark.Collector.Proxy.Invariant.{bind_records-IsConsistent, bind_records-ids}
use yonwork_benchmark.Collector.Proxy.Sound.{core, IsSoundCore}
use yonwork_benchmark.Collector.Proxy.Sound.Kept.{with_same_ids}

pub core-write : (r : ModelRequestRecord) (p : Proxy) → core (write r p) ≡ core p
unfolding core write
core-write r p = refl

core-write_all : (rs : List ModelRequestRecord) (p : Proxy) → core (write_all rs p) ≡ core p
unfolding write_all
core-write_all [] p = refl
core-write_all (r ∷ rs) p = core-write_all rs (write r p) ∙ core-write r p

bind_key-IsSoundCore :
    (lower_char : Char → String) (key : Key) (run_id source : String) (p : Proxy) (ns : List ℕ)
    → IsSoundCore (core p) ns
    → IsSoundCore (core (bind_key lower_char key run_id source p).1) ns
unfolding bind_key after_binding core
bind_key-IsSoundCore lower_char key run_id source p ns s =
    elim (Option-cases (resolve_hook_run run_id p.runs)) [
      | inl e ↦ rw (e, bind_key) s
      | inr (resolved, e) ↦
          rw (e, bind_key)
            (subst⁻¹ (λ c. IsSoundCore c ns)
              (core-write_all
                (bind_records lower_char key (settle_binding key resolved source p.bindings).0
                  p.records p.runs).rewrite
                _)
              (settled resolved))
    ]
  where
    settled :
        (resolved : String)
        → IsSoundCore
            (core (record p {
              records =
                  (bind_records lower_char key
                    (settle_binding key resolved source p.bindings).0
                    p.records
                    p.runs).records;
              runs =
                  (bind_records lower_char key
                    (settle_binding key resolved source p.bindings).0
                    p.records
                    p.runs).runs;
              bindings = (settle_binding key resolved source p.bindings).1;
            }))
            ns
    settled resolved =
        with_same_ids (core p) ns _ _ _
          (bind_records-ids lower_char key (settle_binding key resolved source p.bindings).0
            p.records p.runs s.consistent)
          (bind_records-IsConsistent lower_char key
            (settle_binding key resolved source p.bindings).0 p.records p.runs s.consistent)
          (length-settle_binding key resolved source p.bindings s.bounded) s

pub bind_trace-IsSoundCore :
    (lower_char : Char → String) (trace_id span_id run_id source : String) (p q : Proxy)
    (status : BindStatus) (ns : List ℕ)
    → bind_trace lower_char trace_id span_id run_id source p ≡ some (status, q)
    → IsSoundCore (core p) ns
    → IsSoundCore (core q) ns
unfolding bind_trace
bind_trace-IsSoundCore lower_char trace_id span_id run_id source p q status ns h s =
    elim (Option-cases (
      parse_traceparent lower_char
        (some (concat "00-" (concat trace_id (concat "-" (concat span_id "-01"))))))) [
          | inl e ↦ absurd (cc (rw (e, bind_trace) at h))
          | inr (key, e) ↦
              subst (λ z. IsSoundCore (core z.1) ns) (some-injective _ _ (rw (e, bind_trace) at h))
                (bind_key-IsSoundCore lower_char key run_id source p ns s)
        ]
