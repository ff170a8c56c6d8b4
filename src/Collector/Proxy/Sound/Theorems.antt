-- ===== src/Collector/Proxy/Sound/Theorems.antt =====
-- The invariant of every state that the threads of the proxy reach.
use yonwork_benchmark.Prelude.{String, refl, ◌≤◌, arith, length}
use Prim.Native.Char.{Char}
use yonwork_benchmark.Collector.Proxy.{write}
use yonwork_benchmark.Collector.Proxy.Runs.{requests_of}
use yonwork_benchmark.Collector.Proxy.Requests.{draft}
use yonwork_benchmark.Collector.Proxy.Listing.{count_text, listed}
use yonwork_benchmark.Collector.Proxy.Invariant.{IsConsistent}
use yonwork_benchmark.Collector.Proxy.Steps.{
  takes, writes, changes, arrives, binds, switches, closes, here, registers, after, System, Step,
  Reach, fresh,
}
use yonwork_benchmark.Collector.Proxy.Sound.{core, IsSoundCore}
use yonwork_benchmark.Collector.Proxy.Sound.Kept.{
  register-IsSoundCore, close_run-IsSoundCore, change_stored-IsSoundCore, take-IsSoundCore,
}
use yonwork_benchmark.Collector.Proxy.Sound.Arrivals.{arrive-IsSoundCore}
use yonwork_benchmark.Collector.Proxy.Sound.Bindings.{bind_trace-IsSoundCore}

IsSound : System → Type 0
IsSound s = IsSoundCore (core s.proxy) s.pending

Step-IsSound :
    (lower_char : Char → String) (s t : System) → Step lower_char s t → IsSound s → IsSound t
unfolding IsSound core draft write
Step-IsSound lower_char s t (registers run_id product h) i =
    register-IsSoundCore run_id product s.proxy _ s.pending h i
Step-IsSound lower_char s t (closes run_id) i = close_run-IsSoundCore run_id s.proxy s.pending i
Step-IsSound lower_char s t (switches path) i = i
Step-IsSound lower_char s t (binds {status = status} trace_id span_id run_id source h) i =
    bind_trace-IsSoundCore lower_char trace_id span_id run_id source s.proxy _ status s.pending h i
Step-IsSound lower_char s t takes i = take-IsSoundCore (core s.proxy) s.pending i
Step-IsSound lower_char s t (arrives n now q correlated h) i =
    arrive-IsSoundCore lower_char correlated (draft lower_char s.proxy.proxy_id n now q) s.proxy
      s.pending n i h refl refl
Step-IsSound lower_char s t (changes id f k) i =
    change_stored-IsSoundCore id f s.proxy s.pending k i
Step-IsSound lower_char s t (writes r) i = i

fresh-IsSound : (proxy_id token ledger : String) → IsSound (fresh proxy_id token ledger)
unfolding IsSound core listed requests_of count_text
fresh-IsSound proxy_id token ledger = record {
  consistent = record { distinct_ids = tt; right = tt; unknown = λ id run h. refl };
  numbered = tt;
  waiting = record { taken = tt; unused = tt; apart = tt };
  bounded = omega arith;
}

Reach-IsSound :
    (lower_char : Char → String) (s t : System) → Reach lower_char s t → IsSound s → IsSound t
Reach-IsSound lower_char s t here i = i
Reach-IsSound lower_char s t (after {t = u} r k) i =
    Step-IsSound lower_char u t k (Reach-IsSound lower_char s u r i)

-- In every state that the threads of a new proxy reach, no two stored requests have the same id,
-- each is listed once with the round that its record names and not with any other round, and no
-- other id is listed with a round.
pub Reach-IsConsistent :
    (lower_char : Char → String) (proxy_id token ledger : String) (s : System)
    → Reach lower_char (fresh proxy_id token ledger) s
    → IsConsistent s.proxy.records s.proxy.runs
unfolding IsSound core
Reach-IsConsistent lower_char proxy_id token ledger s r =
    (Reach-IsSound lower_char (fresh proxy_id token ledger) s r
      (fresh-IsSound proxy_id token ledger)).consistent

-- In every state that the threads of a new proxy reach, it holds at most 4096 trace bindings.
pub Reach_bounded :
    (lower_char : Char → String) (proxy_id token ledger : String) (s : System)
    → Reach lower_char (fresh proxy_id token ledger) s
    → length s.proxy.bindings ≤ 4096
unfolding IsSound core
Reach_bounded lower_char proxy_id token ledger s r =
    (Reach-IsSound lower_char (fresh proxy_id token ledger) s r
      (fresh-IsSound proxy_id token ledger)).bounded
