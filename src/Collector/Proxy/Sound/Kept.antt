-- ===== src/Collector/Proxy/Sound/Kept.antt =====
-- Each step of the proxy's threads keeps the invariant.
use mathlib.Core.Path.{subst, subst⁻¹}
use mathlib.Core.Option.{some-injective}
use yonwork_benchmark.Prelude.{
  ℕ, suc, String, false, some, List, [], ◌∷◌, ◌≡◌, ◌≢◌, refl, ◌≤◌, arith, length, Bool-cases, inl,
  inr, elem, All, is_blank, is_some,
}
use yonwork_benchmark.Collector.Ledger.{ModelRequestRecord}
use yonwork_benchmark.Collector.Proxy.{Registration, TraceBinding, Proxy, find_run}
use yonwork_benchmark.Collector.Proxy.Runs.{register, close_run, close_at}
use yonwork_benchmark.Collector.Proxy.Trace.{max_trace_bindings}
use yonwork_benchmark.Collector.Proxy.Requests.{request_id, change_stored}
use yonwork_benchmark.Collector.Proxy.Numbers.{read_sequence}
use yonwork_benchmark.Collector.Proxy.Listing.{listed, listed-snoc, listed-update_run}
use yonwork_benchmark.Collector.Proxy.Invariant.{ids, IsConsistent, IsConsistent-runs}
use yonwork_benchmark.Collector.Proxy.Storing.{update_record-IsConsistent, Keeps, ids-update_record}
use yonwork_benchmark.Collector.Proxy.Sound.{Core, core, IsSoundCore, above-unused}

-- Records and rounds change, the ids of the records do not.
pub with_same_ids :
    (c : Core) (ns : List ℕ) (rs : List ModelRequestRecord) (runs : List Registration)
    (bs : List TraceBinding)
    → ids rs ≡ ids c.records
    → IsConsistent rs runs
    → length bs ≤ max_trace_bindings
    → IsSoundCore c ns
    → IsSoundCore (record c { records = rs; runs = runs; bindings = bs }) ns
with_same_ids c ns rs runs bs e k b s = record {
  consistent = k;
  numbered = subst⁻¹ (All (λ id. read_sequence c.proxy_id id ≤ c.sequence)) e s.numbered;
  waiting = record {
    taken = s.waiting.taken;
    unused =
        subst⁻¹ (λ xs. All (λ n. elem (request_id c.proxy_id n) xs ≡ false) ns) e s.waiting.unused;
    apart = s.waiting.apart;
  };
  bounded = b;
}

with_runs :
    (c : Core) (ns : List ℕ) (runs : List Registration)
    → ((run id : String) → listed run id runs ≡ listed run id c.runs)
    → IsSoundCore c ns
    → IsSoundCore (record c { runs = runs }) ns
with_runs c ns runs e s =
    with_same_ids c ns c.records runs c.bindings refl
      (IsConsistent-runs c.records c.runs runs e s.consistent) s.bounded s

pub register-IsSoundCore :
    (run_id product : String) (p q : Proxy) (ns : List ℕ)
    → register run_id product p ≡ some q
    → IsSoundCore (core p) ns
    → IsSoundCore (core q) ns
unfolding register core
register-IsSoundCore run_id product p q ns h s = elim (Bool-cases (is_blank run_id)) [
  | inl e ↦ absurd (cc (rw (e, register) at h))
  | inr e ↦ elim (Bool-cases (is_some (find_run run_id p.runs))) [
    | inl f ↦ absurd (cc (rw (e, f, register) at h))
    | inr f ↦
        subst (λ z. IsSoundCore (core z) ns) (some-injective _ _ (rw (e, f, register) at h))
          (with_runs (core p) ns _ (λ run id. listed-snoc run id p.runs _ refl) s)
  ]
]

pub close_run-IsSoundCore :
    (run_id : String) (p : Proxy) (ns : List ℕ)
    → IsSoundCore (core p) ns
    → IsSoundCore (core (close_run run_id p)) ns
unfolding close_run core
close_run-IsSoundCore run_id p ns s =
    with_runs (core p) ns _
      (λ run id. listed-update_run (close_at p.sequence) run_id run id p.runs same_id same_requests)
      s
  where
    same_id : (r : Registration) → (close_at p.sequence r).run_id ≡ r.run_id
    same_id r = elim (Bool-cases r.closed) [ inl e ↦ rw e refl | inr e ↦ rw e refl ]

    same_requests : (r : Registration) → (close_at p.sequence r).requests ≡ r.requests
    same_requests r = elim (Bool-cases r.closed) [ inl e ↦ rw e refl | inr e ↦ rw e refl ]

pub change_stored-IsSoundCore :
    (id : String) (f : ModelRequestRecord → ModelRequestRecord) (p : Proxy) (ns : List ℕ)
    → Keeps f
    → IsSoundCore (core p) ns
    → IsSoundCore (core (change_stored id f p)) ns
unfolding core
change_stored-IsSoundCore id f p ns k s =
    with_same_ids (core p) ns _ p.runs p.bindings (ids-update_record id f p.records k)
      (update_record-IsConsistent id f p.records p.runs k s.consistent) s.bounded s

pub take-IsSoundCore :
    (c : Core) (ns : List ℕ)
    → IsSoundCore c ns
    → IsSoundCore (record c { sequence = suc c.sequence }) (suc c.sequence ∷ ns)
take-IsSoundCore c ns s = record {
  consistent = s.consistent;
  numbered = weaken (ids c.records) s.numbered;
  waiting = record {
    taken = (omega arith, later ns s.waiting.taken);
    unused = (
      above-unused c.proxy_id (suc c.sequence) c.sequence (ids c.records) (omega arith) s.numbered,
      s.waiting.unused,
    );
    apart = (new ns s.waiting.taken, s.waiting.apart);
  };
  bounded = s.bounded;
}
  where
    weaken :
        (xs : List String)
        → All (λ id. read_sequence c.proxy_id id ≤ c.sequence) xs
        → All (λ id. read_sequence c.proxy_id id ≤ suc c.sequence) xs
    weaken [] h = tt
    weaken (x ∷ xs) h = (omega (arith, h.0), weaken xs h.1)

    later : (ms : List ℕ) → All (λ n. n ≤ c.sequence) ms → All (λ n. n ≤ suc c.sequence) ms
    later [] h = tt
    later (m ∷ ms) h = (omega (arith, h.0), later ms h.1)

    new : (ms : List ℕ) → All (λ n. n ≤ c.sequence) ms → All (λ n. n ≢ suc c.sequence) ms
    new [] h = tt
    new (m ∷ ms) h = (λ e. omega (arith, h.0, e), new ms h.1)
