-- ===== src/Async/Proxy/Laws.antt =====
-- Results that the proxies of DuckDB/async_duckdb.hpp return.
use async_duck_db.Common.{subst, ℕ, ◌≡◌, refl, ◌∙◌, ap, false, List, Option, none, some, arith}
use async_duck_db.Async.Task.{Outcome, value, thrown, crashed, World}
use async_duck_db.Async.Dispatch.{Env, on_worker}
use async_duck_db.Async.Checked.{run_sync-checked}
use async_duck_db.Async.Engine.{Engine, ResultType, stream, materialized}
use async_duck_db.Async.Proxy.{
  and_then, materialize_type, Store, Reply, done, result, database, connection, statement, appender,
  count, Io, ◌>>=◌, deref, call, pure, ensure_materialized, query_task, execute_task,
}
use async_duck_db.Async.Proxy.Objects.{check_result, sync, query}

module _ (E : Engine) where
  check_result-error :
      (x : Reply E) (r : E.QueryResult)
      → check_result E x ≡ value (result (some r))
      → E.has_error r ≡ false
  check_result-error done r h = cc
  check_result-error (result none) r h = cc
  check_result-error (result (some q)) r h = ground arith
  check_result-error (database d) r h = cc
  check_result-error (connection d) r h = cc
  check_result-error (statement d) r h = cc
  check_result-error (appender d) r h = cc
  check_result-error (count d) r h = cc

  -- No synchronous call of a proxy from another thread returns a query result with an error,
  -- whatever the worker and the engine do: such a result becomes an exception.
  pub sync-no_error :
      (caller : Option ℕ) (env : Env (Store E) (Reply E)) (body : Io E (Reply E))
      (w : World (Store E) (Reply E)) (r : E.QueryResult)
      → on_worker caller w ≡ false
      → (sync E caller env body w).0 ≡ value (result (some r))
      → E.has_error r ≡ false
  sync-no_error caller env body w r off h =
      let (x, e) = run_sync-checked (check_result E) (result (some r)) caller env body w off h in
      check_result-error x r e

  -- inversion of a successful step
  >>=-eq-value :
      {A B : Type 0} (m : Io E A) (f : A → Io E B) (s : Store E) (b : B)
      → ((m >>= f) s).0 ≡ value b
      → (a : A) × ((m s).0 ≡ value a) × ((f a (m s).1).0 ≡ value b)
  >>=-eq-value {A} m f s b h = cases (m s) h
    where
      cases :
          (o : Outcome A × Store E)
          → (and_then f o).0 ≡ value b
          → (a : A) × (o.0 ≡ value a) × ((f a o.1).0 ≡ value b)
      cases (value a, s') h = (a, refl, h)
      cases (thrown e, s') h = cc
      cases (crashed, s') h = cc

  -- `Materialize` answers a `MaterializedQueryResult`, whose type is not the stream's.
  abbrev pub Materializes : Type 0
  Materializes =
      (r q : E.QueryResult) (s : E.State)
      → (E.materialize r s).0 ≡ value (some q)
      → E.result_type q ≡ materialized

  abbrev pub IsMaterialized : Outcome (Reply E) → Type 0
  IsMaterialized o =
      (q : E.QueryResult) → o ≡ value (result (some q)) → E.result_type q ≡ materialized

  same_result :
      {a b : E.QueryResult}
      → ◌≡◌ {A = Outcome (Option E.QueryResult)} (value (some a)) (value (some b))
      → a ≡ b
  same_result h = cc

  ensure_materialized_lem :
      Materializes
      → (r : Option E.QueryResult) (s : Store E) (q : E.QueryResult)
      → (ensure_materialized E r s).0 ≡ value (some q)
      → E.result_type q ≡ materialized
  unfolding ensure_materialized
  ensure_materialized_lem mat none s q h = cc
  ensure_materialized_lem mat (some r) s q h = by_type (E.result_type r) refl h
    where
      by_type :
          (t : ResultType)
          → E.result_type r ≡ t
          → (materialize_type E t r s).0 ≡ value (some q)
          → E.result_type q ≡ materialized
      by_type stream e g = mat r q s.engine g
      by_type materialized e g = subst (λ x. E.result_type x ≡ materialized) (same_result g) e

  abbrev pub results : Option E.QueryResult → Io E (Reply E)
  results r = ensure_materialized E r >>= λ m. pure E (result m)

  results-IsMaterialized :
      Materializes → (r : Option E.QueryResult) (s : Store E) → IsMaterialized (results r s).0
  results-IsMaterialized mat r s q h =
      let (m, e, f) =
        >>=-eq-value (ensure_materialized E r) (λ m. pure E (result m)) s (result (some q)) h in
      ensure_materialized_lem mat r s q (e ∙ ap value (result-injective f))
    where
      result-injective :
          {a b : Option E.QueryResult}
          → ◌≡◌ {A = Outcome (Reply E)} (value (result a)) (value (result b))
          → a ≡ b
      result-injective g = cc

  query_task-IsMaterialized :
      Materializes
      → (conn : Option E.Connection) (sql : List ℕ) (s : Store E)
      → IsMaterialized (query_task E conn sql s).0
  unfolding query_task
  query_task-IsMaterialized mat none sql s q h = cc
  query_task-IsMaterialized mat (some c) sql s q h =
      let (r, e, f) =
        >>=-eq-value (call E (E.query c sql))
          (λ r. ensure_materialized E r >>= λ m. pure E (result m)) s (result (some q)) h in
      results-IsMaterialized mat r (call E (E.query c sql) s).1 q f

  execute_task-IsMaterialized :
      Materializes → (i : ℕ) (s : Store E) → IsMaterialized (execute_task E i s).0
  unfolding execute_task
  execute_task-IsMaterialized mat i s q h = by_stmt (s.statements i).stmt h
    where
      by_stmt :
          (stmt : Option E.Statement)
          → ((deref E stmt >>= λ raw.
                call E (E.execute raw (s.statements i).params) >>= λ r. results r)
              s).0
            ≡ value (result (some q))
          → E.result_type q ≡ materialized
      by_stmt none g = cc
      by_stmt (some raw) g =
          let (r, e, f) =
            >>=-eq-value (call E (E.execute raw (s.statements i).params)) results s
              (result (some q)) g in
          results-IsMaterialized mat r (call E (E.execute raw (s.statements i).params) s).1 q f

  -- If `Materialize` answers only materialized results, then no query and no execution of a
  -- prepared statement on the worker hands out a stream, which only the worker may read.
  pub no_stream :
      Materializes
      → (conn : Option E.Connection) (sql : List ℕ) (i : ℕ) (s : Store E)
      → IsMaterialized (query_task E conn sql s).0 × IsMaterialized (execute_task E i s).0
  no_stream mat conn sql i s =
      (query_task-IsMaterialized mat conn sql s, execute_task-IsMaterialized mat i s)
