-- ===== src/Collector/Proxy/Steps.antt =====
-- What the threads of the proxy do to its state, in any order. A thread that handles a request takes
-- a number, looks at the rounds, and then stores the record and changes it; other threads may do
-- anything in between.
use yonwork_benchmark.Prelude.{
  ℕ, suc, String, Bool, true, false, Option, some, List, [], ◌∷◌, ◌≡◌, ◌==◌, if◌then◌else◌,
}
use Prim.Native.Char.{Char}
use yonwork_benchmark.Collector.Ledger.{ModelRequestRecord}
use yonwork_benchmark.Collector.Proxy.{Proxy, write, use_ledger}
use yonwork_benchmark.Collector.Proxy.Runs.{register, close_run}
use yonwork_benchmark.Collector.Proxy.Bind.{bind_trace, BindStatus}
use yonwork_benchmark.Collector.Proxy.Requests.{
  arrive, draft, Request, take_sequence, change_stored,
}
use yonwork_benchmark.Collector.Proxy.Storing.{Keeps}

-- The state, and the numbers that were taken for requests that are not stored yet.
pub record System : Type 0 where
  pub proxy : Proxy
  pub pending : List ℕ

abbrev pub drop_number : ℕ → List ℕ → List ℕ
drop_number n [] = []
drop_number n (m ∷ ms) = let rest = drop_number n ms in if m == n then ms else m ∷ rest

abbrev pub is_pending : ℕ → List ℕ → Bool
is_pending n [] = false
is_pending n (m ∷ ms) = let rest = is_pending n ms in if m == n then true else rest

module _ (lower_char : Char → String) where
  -- `correlated` is what the headers said when the thread looked at the rounds.
  pub data Step : System → System → Type 0 where
    registers :
        {s : System} {p : Proxy} (run_id product : String)
        → register run_id product s.proxy ≡ some p
        → Step s (record s { proxy = p })
    closes : {s : System} (run_id : String) → Step s (record s { proxy = close_run run_id s.proxy })
    switches : {s : System} (path : String) → Step s (record s { proxy = use_ledger path s.proxy })
    binds :
        {s : System} {p : Proxy} {status : BindStatus} (trace_id span_id run_id source : String)
        → bind_trace lower_char trace_id span_id run_id source s.proxy ≡ some (status, p)
        → Step s (record s { proxy = p })
    takes :
        {s : System}
        → Step s
            (record { proxy = take_sequence s.proxy; pending = suc s.proxy.sequence ∷ s.pending })
    arrives :
        {s : System} (n : ℕ) (now : String) (q : Request) (correlated : Option (String × String))
        → is_pending n s.pending ≡ true
        → Step s (record {
          proxy = arrive lower_char correlated (draft lower_char s.proxy.proxy_id n now q) s.proxy;
          pending = drop_number n s.pending;
        })
    changes :
        {s : System} (id : String) (f : ModelRequestRecord → ModelRequestRecord)
        → Keeps f
        → Step s (record s { proxy = change_stored id f s.proxy })
    writes : {s : System} (r : ModelRequestRecord) → Step s (record s { proxy = write r s.proxy })

  pub data Reach : System → System → Type 0 where
    here : {s : System} → Reach s s
    after : {s t u : System} → Reach s t → Step t u → Reach s u

-- A proxy that has just been made.
abbrev pub fresh : String → String → String → System
fresh proxy_id token ledger = record {
  proxy = record {
    proxy_id = proxy_id;
    client_token = token;
    sequence = 0;
    ledger = ledger;
    runs = [];
    records = [];
    bindings = [];
    targets = [];
    written = [];
  };
  pending = [];
}
