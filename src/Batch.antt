-- ===== src/Batch.antt =====
-- runner/batch.py: running a batch of rounds, each isolated from the others.
pub mod Interfaces
pub mod Round
pub mod Loop
