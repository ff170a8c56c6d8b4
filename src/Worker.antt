-- ===== src/Worker.antt =====
-- runner/worker.py: the worker that claims the jobs of the queue and runs them, one at a time.
pub mod World
pub mod Execute
pub mod Loop
