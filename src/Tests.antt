-- ===== src/Tests.antt =====
-- Runs of the model on small concrete memories and queues: tests of the definitions, and instances
-- of the theorems.
pub mod Futures
pub mod Threads
pub mod Combined
pub mod Queues
pub mod Io
pub mod Lio
pub mod Manager
