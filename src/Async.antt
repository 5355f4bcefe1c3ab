-- ===== src/Async.antt =====
-- DuckDB/async_duckdb.hpp and async_duckdb.cpp: proxies that marshal every call of the engine to one
-- worker thread. The engine, DuckDB, is a parameter.
pub mod Task
pub mod Dispatch
pub mod Checked
pub mod Engine
pub mod Proxy
pub mod Sequential
pub mod Sync
pub mod Answer
pub mod Unserved
pub mod Future
pub mod Lifecycle
mod Tests
