-- ===== src/Collector/Proxy.antt =====
-- The state of `CollectorProxy` of runner/modelproxy/proxy.py: registered rounds, observed requests,
-- trace bindings, and what was written to ledger files.
pub mod Trace
pub mod Runs
pub mod Order
pub mod Storing
pub mod Invariant
pub mod Attributions
pub mod Numbers
pub mod Listing
pub mod Steps
pub mod Table
pub mod Sound
pub mod Bind
pub mod Requests
use yonwork_benchmark.Prelude.{
  ℕ, String, Bool, true, false, Option, none, some, List, [], ◌∷◌, ◌++◌, str_eq, elem, or_else,
  if◌then◌else◌, is_empty,
}
use yonwork_benchmark.Collector.Ledger.{
  ModelRequestRecord, find_record, Attribution, Termination, RecordStatus,
}

-- `ledger` is the path of the ledger file of the round's batch.
pub record Registration : Type 0 where
  pub run_id : String
  pub product : String
  pub closed : Bool
  pub requests : List String
  pub closed_after_sequence : Option ℕ
  pub ledger : String

-- An entry of `_trace_bindings`, with its key; no `run_id` is a conflict.
pub record TraceBinding : Type 0 where
  pub trace_id : String
  pub span_id : String
  pub run_id : Option String
  pub source : String

-- An entry of `_record_ledgers`: the files that a request was written to.
pub record Targets : Type 0 where
  pub request_id : String
  pub paths : List String

-- One line of a ledger file.
pub record Written : Type 0 where
  pub path : String
  pub entry : ModelRequestRecord

pub record Proxy : Type 0 where
  pub proxy_id : String
  pub client_token : String
  pub sequence : ℕ
  pub ledger : String
  pub runs : List Registration
  pub records : List ModelRequestRecord
  pub bindings : List TraceBinding
  pub targets : List Targets
  pub written : List Written

-- `self._runs.get(run_id)`
unfoldable pub find_run : String → List Registration → Option Registration
find_run id [] = none
find_run id (r ∷ rs) = let rest = find_run id rs in if str_eq r.run_id id then some r else rest

-- A change of the registered round `id`, if there is one.
unfoldable pub update_run :
    String → (Registration → Registration) → List Registration → List Registration
update_run id f [] = []
update_run id f (r ∷ rs) =
    let rest = update_run id f rs in if str_eq r.run_id id then f r ∷ rs else r ∷ rest

-- A change of the observed request `id`.
unfoldable pub update_record :
    String
    → (ModelRequestRecord → ModelRequestRecord)
    → List ModelRequestRecord
    → List ModelRequestRecord
update_record id f [] = []
update_record id f (r ∷ rs) =
    let rest = update_record id f rs in if str_eq r.request_id id then f r ∷ rs else r ∷ rest

-- `_record_ledgers.setdefault(request_id, {})`
unfoldable pub paths_of : String → List Targets → List String
paths_of id [] = []
paths_of id (t ∷ ts) = let rest = paths_of id ts in if str_eq t.request_id id then t.paths else rest

unfoldable pub set_paths : String → List String → List Targets → List Targets
set_paths id paths [] = (record { request_id = id; paths = paths }) ∷ []
set_paths id paths (t ∷ ts) =
    let rest = set_paths id paths ts in
    if str_eq t.request_id id then record t { paths = paths } ∷ ts else t ∷ rest

abbrev add_path : String → List String → List String
add_path path paths = if elem path paths then paths else paths ++ path ∷ []

abbrev with_owner : Option Registration → List String → List String
with_owner none paths = paths
with_owner (some r) paths = add_path r.ledger paths

abbrev or_current : String → List String → List String
or_current ledger [] = ledger ∷ []
or_current ledger (path ∷ paths) = path ∷ paths

-- The files that `_write` writes a record to.
unfoldable pub targets_of : Proxy → ModelRequestRecord → List String
unfolding find_run paths_of
targets_of p r =
    or_current p.ledger
      (with_owner (find_run (or_else r.run_id "") p.runs) (paths_of r.request_id p.targets))

abbrev lines_for : ModelRequestRecord → List String → List Written
lines_for r [] = []
lines_for r (path ∷ paths) = record { path = path; entry = r } ∷ lines_for r paths

-- `_write`
unfoldable pub write : ModelRequestRecord → Proxy → Proxy
unfolding targets_of set_paths
write r p = record p {
  targets = set_paths r.request_id (targets_of p r) p.targets;
  written = p.written ++ lines_for r (targets_of p r);
}

unfoldable pub write_all : List ModelRequestRecord → Proxy → Proxy
unfolding write
write_all [] p = p
write_all (r ∷ rs) p = write_all rs (write r p)

-- `use_ledger`
abbrev pub use_ledger : String → Proxy → Proxy
use_ledger path p = record p { ledger = path }
