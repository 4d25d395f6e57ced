-- ===== src/Worker.antt =====
-- worker/: what happens to a job between the queue and its result.
pub mod Types
pub mod Consume
pub mod Execute
pub mod Finalize
pub mod Job
pub mod Failed
pub mod Concurrency
pub mod Preflight
pub mod Lifecycle
