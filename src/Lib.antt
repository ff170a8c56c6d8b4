-- ===== src/Lib.antt =====
-- Verification of the benchmark tool chain: the runner that puts the cases of a catalog to a
-- desktop product round by round, judges every round, and keeps jobs in a database queue.
--
-- A job of the queue (runner/job_store.py) is a set of cases for one product and model. Its cases
-- are expanded to rounds (runner/models.py); the batch (runner/batch.py) runs each round through a
-- driver, between registration and closing at the request collector (runner/modelproxy), gathers
-- the usage samples, hands the evidence to the five layers of checks (runner/assertions) and
-- appends one record for each round to the results file.
--
-- Models: runner/models.py. Verdicts and their severity, cases and expansion, the records of
--   evidence, round ids.
-- Assertions: runner/assertions. One file for each layer, `evaluate` in Evaluate; Accept says
--   without the checks when a round passes, Verdicts what single pieces of evidence lead to.
-- Usage: runner/usage.py. The match of a round with usage rows, and the log statistics; Matching says
--   where a matched sample comes from.
-- Collector: runner/modelproxy/ledger.py. The record of a request and the replay of a ledger, whose
--   lines are merged request by request (Entries) and then sorted (Replay), and its Summary.
--   Collector/Proxy is the state of the proxy: Runs, Bind and Requests hold its operations, Trace the
--   attribution of a request by the trace of a hook, Steps what its threads do in any order, Sound
--   and its children what holds then. Order is about reports that come before or after a request.
--   Collector/Relay is the handler of a request on its way through the upstream: the scan of a stream
--   chunk by chunk, a buffered body, and the termination. Chunks is about the cuts between chunks.
-- Catalog: runner/case_catalog.py. Load is `load_catalog` as a chain of checks, each of which may
--   refuse, Values the checks on single values; Valid and Accepted say what an accepted catalog is
--   like. Resolve is about the environment references of prompts: Laws and Names say which texts
--   they are, Filled what resolving makes of them.
-- Client: runner/client.py. Events reads the stream, Messages the frames, Turn and Turn/Loop the
--   state of a round and the loop over the lines, Send the whole call, Keys the session keys.
-- NewApi: runner/newapi.py. Fetch is the paging loop, Match puts logs into rounds (Choice
--   says which), and Turn takes the logs of one round from the last of several attempts.
-- Batch: runner/batch.py and runner/drivers/base.py. Interfaces holds the driver, the collector and
--   the clock as records of operations on a state `W` of the outside world; Round is `run_one` in
--   the stages of its source, Loop is `run_batch` and the exit code.
-- JobStore: runner/job_store.py. Table holds the rows, Create the submissions, Queue the other
--   transactions, Invariant and Steps the tables that transactions in any order reach, Rows what
--   happens to one row, Later and Running what changes while a job runs.
-- Worker: runner/worker.py. World is the state of a worker, with the calls that leave the modelled
--   files as an interface, Execute is `execute_job`, Loop is `run_worker`. After every call the
--   requests that reached the web server in the meantime are applied to the tables, and a signal to
--   stop is handled. A batch that raises ends with an exception of any class and text. The loop runs
--   for a number of turns, and what is proved holds for all.
-- Prelude holds the shared helpers, Json the values that `json.loads` returns, Tests the examples.
--
-- Conventions. Seconds are whole milliseconds. A text is a string of code points; case folding is a
-- function of one character, a parameter. The readers of JSON and of times are parameters too. An
-- exception is a value: `Outcome`, `Enrichment`, an `Option` of the result, or `Attempt`. A database
-- function is one transaction on the two tables, given the time and the fresh id it uses; in the
-- worker these transactions are taken to succeed. A `uuid4` is a parameter, and an insert that
-- meets a key that is in use is refused. The decimal text of a number has the number itself, plus
-- one, as fuel: a division by ten makes a positive number smaller.
--
-- The paging loop has the total of the first page, plus one, as fuel: a page after which it goes on
-- has an item and announces the same total. In the proxy, a lock is one step. `str.lower` is a
-- function of one character, a parameter.
--
-- Left out: the texts of details, reports and events, except where the code tests them; the calls
-- of `report`, which write only the log; the schema and its migration; the files, sockets and
-- processes behind the drivers, the collector and the web pages. A write to the results file is
-- taken to succeed.
pub mod NewApi
pub mod Catalog
pub mod Client
pub mod Prelude
pub mod Json
pub mod Models
pub mod Assertions
pub mod Usage
pub mod Collector
pub mod Batch
pub mod JobStore
pub mod Worker
mod Tests
