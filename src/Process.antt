-- ===== src/Process.antt =====
-- process: what services, executors, schedulers and processors do.
pub mod Service
pub mod Executor
pub mod Processor
pub mod Table
pub mod Channel
pub mod Tests
