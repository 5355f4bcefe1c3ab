-- ===== src/Async/Proxy/Appending.antt =====
-- The rows of an `Appender` (DuckDB/async_duckdb.cpp): `BeginRow`, `Append` and `EndRow`.
use async_duck_db.Common.{ℕ, List, [], ◌∷◌, Option}
use async_duck_db.Async.Dispatch.{Env}
use async_duck_db.Async.Engine.{Engine}
use async_duck_db.Async.Proxy.{Store, Reply}
use async_duck_db.Async.Proxy.Objects.{AppenderProxy, append_value}

module _ (E : Engine) (caller : Option ℕ) (env : Env (Store E) (Reply E)) where
  -- `Append` for each value of a row
  abbrev pub append_values : List E.Value → AppenderProxy E → AppenderProxy E
  append_values [] a = a
  append_values (v ∷ vs) a = append_values vs (append_value E caller env v a)
