-- ===== src/JobStore.antt =====
-- runner/job_store.py: the persistent queue of jobs, with its MySQL tables as lists of rows.
-- Every function runs in one transaction, so it is one step on the tables; an error rolls it back.
pub mod Table
pub mod Create
pub mod Queue
pub mod Claim
pub mod Invariant
pub mod Later
pub mod Running
pub mod Rows
pub mod Steps
