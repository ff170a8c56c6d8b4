-- ===== src/Collector/Proxy/Sound/Arrivals.antt =====
-- An arriving request keeps the invariant.
use Prim.Native.Char.{Char}
use mathlib.Core.Path.{ap, subst⁻¹}
use mathlib.Core.Option.{none, Option}
use yonwork_benchmark.Prelude.{
  All-append, ◌∙◌, ◌++◌, ℕ, String, false, List, [], ◌∷◌, ◌≡◌, ◌≢◌, ◌≤◌, arith, elem, All,
}
use yonwork_benchmark.Collector.Ledger.{ModelRequestRecord}
use yonwork_benchmark.Collector.Proxy.{str_eq, true, Registration, Proxy}
use yonwork_benchmark.Collector.Proxy.Trace.{parse_traceparent}
use yonwork_benchmark.Collector.Proxy.Requests.{attribute, find_key, combine, arrive, request_id}
use yonwork_benchmark.Collector.Proxy.Numbers.{read_sequence-request_id, read_sequence}
use yonwork_benchmark.Collector.Proxy.Invariant.{ids, IsConsistent}
use yonwork_benchmark.Collector.Proxy.Storing.{
  ids-snoc, attribute-IsConsistent, attribute-id, elem-snoc,
}
use yonwork_benchmark.Collector.Proxy.Sound.{
  AreApart-drop_number, drop_number-differs, All-drop_number, pending-All, request_id-differs,
  drop_number, is_pending, Core, core, IsSoundCore,
}

arrived :
    (c : Core) (ns : List ℕ) (n : ℕ) (a : ModelRequestRecord) (runs : List Registration)
    → IsSoundCore c ns
    → is_pending n ns ≡ true
    → a.request_id ≡ request_id c.proxy_id n
    → IsConsistent (c.records ++ a ∷ []) runs
    → IsSoundCore (record c { records = c.records ++ a ∷ []; runs = runs }) (drop_number n ns)
arrived c ns n a runs s p e k = record {
  consistent = k;
  numbered = subst⁻¹ (All (λ id. read_sequence c.proxy_id id ≤ c.sequence)) (ids-snoc c.records a) (
      All-append (λ id. read_sequence c.proxy_id id ≤ c.sequence) (ids c.records)
        (a.request_id ∷ []) s.numbered
        (
          omega (
            arith,
            ap (read_sequence c.proxy_id) e,
            read_sequence-request_id c.proxy_id n,
            pending-All (λ m. m ≤ c.sequence) n ns p s.waiting.taken,
          ),
          tt,
        ));
  waiting = record {
    taken = All-drop_number (λ m. m ≤ c.sequence) n ns s.waiting.taken;
    unused =
        subst⁻¹ (λ xs. All (λ m. elem (request_id c.proxy_id m) xs ≡ false) (drop_number n ns))
          (ids-snoc c.records a)
          (still (drop_number n ns)
            (All-drop_number (λ m. elem (request_id c.proxy_id m) (ids c.records) ≡ false) n ns
              s.waiting.unused)
            (drop_number-differs n ns s.waiting.apart p));
    apart = AreApart-drop_number n ns s.waiting.apart;
  };
  bounded = s.bounded;
}
  where
    still :
        (ms : List ℕ)
        → All (λ m. elem (request_id c.proxy_id m) (ids c.records) ≡ false) ms
        → All (λ m. m ≢ n) ms
        → All (λ m. elem (request_id c.proxy_id m) (ids c.records ++ a.request_id ∷ []) ≡ false) ms
    still [] h d = tt
    still (m ∷ ms) h d = (
      elem-snoc (request_id c.proxy_id m) a.request_id (ids c.records) h.0
          (ap (str_eq (request_id c.proxy_id m)) e ∙ request_id-differs c.proxy_id m n d.0),
      still ms h.1 d.1,
    )

pub arrive-IsSoundCore :
    (lower_char : Char → String) (correlated : Option (String × String)) (r : ModelRequestRecord)
    (p : Proxy) (ns : List ℕ) (n : ℕ)
    → IsSoundCore (core p) ns
    → is_pending n ns ≡ true
    → r.request_id ≡ request_id p.proxy_id n
    → r.run_id ≡ none
    → IsSoundCore (core (arrive lower_char correlated r p)) (drop_number n ns)
unfolding arrive core
arrive-IsSoundCore lower_char correlated r p ns n s i e k =
    let c = combine correlated (find_key (parse_traceparent lower_char r.traceparent) p.bindings) in
    arrived (core p) ns n (attribute c p.runs r).0 (attribute c p.runs r).1 s i
      (attribute-id c p.runs r ∙ e)
      (attribute-IsConsistent c p.records p.runs r s.consistent
        (ap (λ x. elem x (ids p.records)) e
          ∙ pending-All (λ m. elem (request_id p.proxy_id m) (ids p.records) ≡ false) n ns i
              s.waiting.unused)
        k)
