-- ===== src/Collector/Proxy/Runs.antt =====
-- `register`, `close_run` and `records_for` of `CollectorProxy`.
use yonwork_benchmark.Prelude.{
  ℕ, String, true, false, Option, none, some, List, [], ◌∷◌, ◌++◌, is_blank, is_some, if◌then◌else◌,
}
use yonwork_benchmark.Collector.Ledger.{ModelRequestRecord, find_record}
use yonwork_benchmark.Collector.Proxy.{Registration, Proxy, find_run, update_run}

-- `none` is a `ProxyError`.
unfoldable pub register : String → String → Proxy → Option Proxy
unfolding find_run
register run_id product p =
    if is_blank run_id
    then none
    else if is_some (find_run run_id p.runs)
    then none
    else some (record p {
      runs =
          p.runs
          ++ (record {
            run_id = run_id;
            product = product;
            closed = false;
            requests = [];
            closed_after_sequence = none;
            ledger = p.ledger;
          })
            ∷ [];
    })

unfoldable pub close_at : ℕ → Registration → Registration
close_at sequence r =
    if r.closed then r else record r { closed = true; closed_after_sequence = some sequence }

unfoldable pub close_run : String → Proxy → Proxy
unfolding close_at update_run
close_run run_id p = record p { runs = update_run run_id (close_at p.sequence) p.runs }

abbrev pub requests_in : Option Registration → List String
requests_in none = []
requests_in (some r) = r.requests

-- The requests listed with a round, none if it is not registered.
unfoldable pub requests_of : String → List Registration → List String
unfolding find_run
requests_of run_id runs = requests_in (find_run run_id runs)

-- `self._records[key] for key in ids if key in self._records`
unfoldable pub records_in : List ModelRequestRecord → List String → List ModelRequestRecord
unfolding find_record
records_in records [] = []
records_in records (id ∷ ids) =
    let rest = records_in records ids in
    elim (find_record id records) [ none ↦ rest | some r ↦ r ∷ rest ]

unfoldable pub records_for : String → Proxy → List ModelRequestRecord
unfolding requests_of records_in
records_for run_id p = records_in p.records (requests_of run_id p.runs)
