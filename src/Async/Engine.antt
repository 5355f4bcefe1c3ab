-- ===== src/Async/Engine.antt =====
-- DuckDB as DuckDB/async_duckdb.cpp uses it: the classes of duckdb.hpp, which the build downloads.
-- Every call works on the engine's state, and returns or throws; nothing is assumed of what it does.
-- Texts are lists of bytes.
use async_duck_db.Common.{ℕ, Bool, List, Option}
use async_duck_db.Async.Task.{Outcome}

-- `duckdb::QueryResultType`, as far as the code tells its values apart
pub data ResultType : Type 0 where
  stream materialized : ResultType

pub record Engine : Type 1 where
  pub State : Type 0
  pub Value : Type 0
  pub Database : Type 0
  pub Connection : Type 0
  pub Statement : Type 0
  pub Appender : Type 0
  pub QueryResult : Type 0
  -- `Value()`, which `params.resize` fills with
  pub null_value : Value
  pub result_type : QueryResult → ResultType
  pub has_error : QueryResult → Bool
  -- the number of the exception of `ThrowError`
  pub error_code : QueryResult → ℕ
  pub materialize : QueryResult → State → Outcome (Option QueryResult) × State
  -- `make_shared<DuckDB>`; `none` is the null path, a database in memory
  pub open_database : Option (List ℕ) → State → Outcome Database × State
  pub close_database : Database → State → State
  pub connect : Database → State → Outcome Connection × State
  pub disconnect : Connection → State → State
  pub query : Connection → List ℕ → State → Outcome (Option QueryResult) × State
  pub prepare : Connection → List ℕ → State → Outcome Statement × State
  pub success : Statement → Bool
  pub prepare_error : Statement → ℕ
  pub parameter_count : Statement → ℕ
  pub execute : Statement → List Value → State → Outcome (Option QueryResult) × State
  pub release_statement : Statement → State → State
  pub open_appender : Connection → List ℕ → State → Outcome Appender × State
  pub begin_row : Appender → State → Outcome (Unit {0}) × State
  pub append : Appender → Value → State → Outcome (Unit {0}) × State
  pub end_row : Appender → State → Outcome (Unit {0}) × State
  pub flush : Appender → State → Outcome (Unit {0}) × State
  pub close : Appender → State → Outcome (Unit {0}) × State
  pub release_appender : Appender → State → State
  pub begin_transaction : Connection → State → Outcome (Unit {0}) × State
  pub commit : Connection → State → Outcome (Unit {0}) × State
  pub rollback : Connection → State → Outcome (Unit {0}) × State
