-- ===== src/Async/Proxy.antt =====
-- The functions that the proxies of DuckDB/async_duckdb.hpp hand to the worker (the lambdas `task` of
-- async_duckdb.cpp), in the monad of the worker's state: they return, throw or crash.
pub mod Objects
pub mod Laws
pub mod Appending
pub mod Binding
mod Tests
use async_duck_db.Common.{
  ℕ, suc, ◌-◌, Bool, true, false, List, [], ◌∷◌, ◌++◌, Option, none, some, update, if◌then◌else◌,
  ltb, length, set, replicate,
}
use async_duck_db.Async.Engine.{Engine, ResultType, stream, materialized}
use async_duck_db.Async.Task.{Outcome, value, thrown, crashed, Exn, engine_error}

-- `PreparedStatement::State`
pub record StatementState (E : Engine) : Type 0 where
  pub stmt : Option E.Statement
  pub params : List E.Value

-- What the worker works on: the engine, and the states that the `PreparedStatement`s share with it.
pub record Store (E : Engine) : Type 0 where
  pub engine : E.State
  pub statements : ℕ → StatementState E
  pub next_statement : ℕ

-- What a function returns: nothing, a `unique_ptr<QueryResult>`, a handle, or a count.
pub data Reply (E : Engine) : Type 0 where
  done : Reply E
  result : Option E.QueryResult → Reply E
  database : E.Database → Reply E
  connection : E.Connection → Reply E
  statement : ℕ → Reply E
  appender : E.Appender → Reply E
  count : ℕ → Reply E

abbrev pub Io : Engine → Type 0 → Type 0
Io E A = Store E → Outcome A × Store E

abbrev pub and_then :
    {E : Engine} {A B : Type 0} → (A → Io E B) → Outcome A × Store E → Outcome B × Store E
and_then f (value a, s) = f a s
and_then f (thrown e, s) = (thrown e, s)
and_then f (crashed, s) = (crashed, s)

infixl 5 ◌>>=◌ ◌>>◌
abbrev pub ◌>>=◌ : {E : Engine} {A B : Type 0} → Io E A → (A → Io E B) → Io E B
◌>>=◌ m f s = and_then f (m s)

abbrev pub ◌>>◌ : {E : Engine} {A B : Type 0} → Io E A → Io E B → Io E B
m >> k = m >>= λ _. k

module _ (E : Engine) where
  abbrev pub pure : {A : Type 0} → A → Io E A
  pure a s = (value a, s)

  -- a call of the engine
  abbrev pub call : {A : Type 0} → (E.State → Outcome A × E.State) → Io E A
  call f s = ((f s.engine).0, record s { engine = (f s.engine).1 })

  -- a destructor of the engine, which does not throw
  abbrev pub drop : (E.State → E.State) → Io E (Reply E)
  drop f s = (value done, record s { engine = f s.engine })

  -- a pointer that is followed
  abbrev pub deref : {A : Type 0} → Option A → Io E A
  deref none s = (crashed, s)
  deref (some a) s = (value a, s)

  abbrev pub throw : {A : Type 0} → Exn → Io E A
  throw e s = (thrown e, s)

  -- `EnsureMaterialized`
  abbrev pub materialize_type : ResultType → E.QueryResult → Io E (Option E.QueryResult)
  materialize_type stream r = call (E.materialize r)
  materialize_type materialized r = pure (some r)

  unfoldable pub ensure_materialized : Option E.QueryResult → Io E (Option E.QueryResult)
  ensure_materialized none = pure none
  ensure_materialized (some r) = materialize_type (E.result_type r) r

  -- the path of the constructor of `Database`: no path and the empty one are the null path
  abbrev pub database_path : Option (List ℕ) → Option (List ℕ)
  database_path none = none
  database_path (some []) = none
  database_path (some (c ∷ cs)) = some (c ∷ cs)

  unfoldable pub open_database_task : Option (List ℕ) → Io E (Reply E)
  open_database_task path = do d ← call (E.open_database (database_path path)); pure (database d)

  unfoldable pub connect_task : Option E.Database → Io E (Reply E)
  connect_task db = do d ← deref db; c ← call (E.connect d); pure (connection c)

  unfoldable pub query_task : Option E.Connection → List ℕ → Io E (Reply E)
  query_task conn sql = do
    c ← deref conn
    r ← call (E.query c sql)
    m ← ensure_materialized r
    pure (result m)

  -- `make_unique<PreparedStatement>(shared_stmt)`
  abbrev pub new_statement : E.Statement → Io E (Reply E)
  new_statement raw s = (
    value (statement s.next_statement),
    record s {
      statements = update s.statements s.next_statement (record { stmt = some raw; params = [] });
      next_statement = suc s.next_statement;
    },
  )

  -- the test of `raw_stmt->success`; `error.Throw()` destroys the statement on its way
  abbrev pub check_prepared : E.Statement → Io E (Reply E)
  check_prepared raw =
      if E.success raw
      then new_statement raw
      else drop (E.release_statement raw) >> throw (engine_error (E.prepare_error raw))

  unfoldable pub prepare_task : Option E.Connection → List ℕ → Io E (Reply E)
  prepare_task conn sql = do c ← deref conn; raw ← call (E.prepare c sql); check_prepared raw

  unfoldable pub create_appender_task : Option E.Connection → List ℕ → Io E (Reply E)
  create_appender_task conn table = do
    c ← deref conn
    a ← call (E.open_appender c table)
    pure (appender a)

  -- `params.resize(index)` if it is shorter, and `params[index - 1] = v`
  abbrev pub bind_param : ℕ → E.Value → List E.Value → List E.Value
  bind_param index v params =
      set (params ++ replicate (index - length params) E.null_value) (index - 1) v

  abbrev pub bind_state : ℕ → E.Value → StatementState E → StatementState E
  bind_state index v st = elim st.stmt [
    | none ↦ st
    | some raw ↦ if E.success raw then record st { params = bind_param index v st.params } else st
  ]

  unfoldable pub bind_task : ℕ → ℕ → E.Value → Io E (Reply E)
  bind_task i index v s = (
    value done,
    record s { statements = update s.statements i (bind_state index v (s.statements i)) },
  )

  unfoldable pub execute_task : ℕ → Io E (Reply E)
  execute_task i s =
      (do
        raw ← deref (s.statements i).stmt
        r ← call (E.execute raw (s.statements i).params)
        m ← ensure_materialized r
        pure (result m))
        s

  unfoldable pub n_param_task : ℕ → Io E (Reply E)
  n_param_task i s = elim (s.statements i).stmt [
    | none ↦ (value (count 0), s)
    | some raw ↦ (value (count (if E.success raw then E.parameter_count raw else 0)), s)
  ]

  unfoldable pub append_all : E.Appender → List E.Value → Io E (Unit {0})
  append_all app [] = pure tt
  append_all app (v ∷ row) = call (E.append app v) >> append_all app row

  unfoldable pub end_row_task : E.Appender → List E.Value → Io E (Reply E)
  end_row_task app row = do
    _ ← call (E.begin_row app)
    _ ← append_all app row
    _ ← call (E.end_row app)
    pure done

  unfoldable pub flush_task : E.Appender → Io E (Reply E)
  flush_task app = do _ ← call (E.flush app); pure done

  unfoldable pub close_task : E.Appender → Io E (Reply E)
  close_task app = do _ ← call (E.close app); pure done

  -- `catch (...) {}`
  abbrev pub swallow : Io E (Reply E) → Io E (Reply E)
  swallow m s = elim (m s).0 [ value r ↦ m s | thrown e ↦ (value done, (m s).1) | crashed ↦ m s ]

  -- the task of the destructor of `Appender`, and the end of the closure that owns it
  unfoldable pub destroy_appender_task : E.Appender → Io E (Reply E)
  destroy_appender_task app =
      swallow (flush_task app >> close_task app) >> drop (E.release_appender app)

  unfoldable pub begin_transaction_task : Option E.Connection → Io E (Reply E)
  begin_transaction_task conn = do c ← deref conn; _ ← call (E.begin_transaction c); pure done

  unfoldable pub commit_task : Option E.Connection → Io E (Reply E)
  commit_task conn = do c ← deref conn; _ ← call (E.commit c); pure done

  unfoldable pub rollback_task : Option E.Connection → Io E (Reply E)
  rollback_task conn = do c ← deref conn; _ ← call (E.rollback c); pure done
