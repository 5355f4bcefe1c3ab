-- ===== src/Async/Proxy/Objects.antt =====
-- The classes of DuckDB/async_duckdb.hpp: `Database`, `Connection`, `PreparedStatement` and
-- `Appender`. An object is the pointer that it holds, `none` once it is moved away; `caller` is the
-- thread that calls and `env` what happens meanwhile. Constructors and factories answer the handle.
use async_duck_db.Common.{
  ℕ, Bool, true, false, List, [], ◌∷◌, ◌++◌, Option, none, some, ◌==◌, ltb, if◌then◌else◌,
}
use async_duck_db.Async.Task.{
  Outcome, value, thrown, crashed, index_too_low, index_too_high, detached, World, engine_error,
}
use async_duck_db.Async.Dispatch.{Env, run_sync, run_async, dispatch_task}
use async_duck_db.Async.Engine.{Engine}
use async_duck_db.Async.Proxy.{
  Store, Reply, done, result, Io, drop, open_database_task, connect_task, query_task, prepare_task,
  create_appender_task, bind_task, execute_task, n_param_task, end_row_task, flush_task, close_task,
  destroy_appender_task, begin_transaction_task, commit_task, rollback_task,
}

-- `Appender`: `m_appender` and `m_pending_row`
pub record AppenderProxy (E : Engine) : Type 0 where
  pub held : Option E.Appender
  pub pending_row : List E.Value

module _ (E : Engine) where
  -- `if (res && res->HasError()) res->ThrowError();` for a result that points to a `QueryResult`
  abbrev pub check_result : Reply E → Outcome (Reply E)
  check_result (result (some r)) =
      if E.has_error r then thrown (engine_error (E.error_code r)) else value (result (some r))
  check_result r = value r

  module _ (caller : Option ℕ) (env : Env (Store E) (Reply E)) where
    abbrev pub sync :
        Io E (Reply E) → World (Store E) (Reply E) → Outcome (Reply E) × World (Store E) (Reply E)
    sync = run_sync caller env check_result

    -- the constructors of `Database` and `Connection`
    unfoldable pub open_database :
        Option (List ℕ) → World (Store E) (Reply E) → Outcome (Reply E) × World (Store E) (Reply E)
    open_database path = sync (open_database_task E path)

    unfoldable pub connect :
        Option E.Database
        → World (Store E) (Reply E)
        → Outcome (Reply E) × World (Store E) (Reply E)
    connect db = sync (connect_task E db)

    -- A task that is not queued is destroyed where it is, with the pointer that it captured; an
    -- exception out of the destructor ends the process.
    abbrev pub run_dropped :
        Io E (Reply E)
        → Outcome Bool × World (Store E) (Reply E)
        → Outcome (Reply E) × World (Store E) (Reply E)
    run_dropped release (value true, w) = (value done, w)
    run_dropped release (value false, w) =
        (value done, record w { shared = record w.shared { store = (release w.shared.store).1 } })
    run_dropped release (thrown e, w) = (crashed, w)
    run_dropped release (crashed, w) = (crashed, w)

    abbrev pub hand_over :
        Io E (Reply E)
        → Io E (Reply E)
        → World (Store E) (Reply E)
        → Outcome (Reply E) × World (Store E) (Reply E)
    hand_over task release w =
        run_dropped release (dispatch_task env (record { sink = detached; body = task }) w)

    -- the destructors
    unfoldable pub destroy_database :
        Option E.Database
        → World (Store E) (Reply E)
        → Outcome (Reply E) × World (Store E) (Reply E)
    destroy_database none w = (value done, w)
    destroy_database (some d) w =
        hand_over (drop E (E.close_database d)) (drop E (E.close_database d)) w

    unfoldable pub destroy_connection :
        Option E.Connection
        → World (Store E) (Reply E)
        → Outcome (Reply E) × World (Store E) (Reply E)
    destroy_connection none w = (value done, w)
    destroy_connection (some c) w = hand_over (drop E (E.disconnect c)) (drop E (E.disconnect c)) w

    -- the statement that a `State` owns is released with it
    abbrev pub release_state : ℕ → Io E (Reply E)
    release_state i s = elim (s.statements i).stmt [
      | none ↦ (value done, s)
      | some raw ↦ drop E (E.release_statement raw) s
    ]

    unfoldable pub destroy_statement :
        Option ℕ → World (Store E) (Reply E) → Outcome (Reply E) × World (Store E) (Reply E)
    destroy_statement none w = (value done, w)
    destroy_statement (some i) w = hand_over (release_state i) (release_state i) w

    unfoldable pub destroy_appender :
        AppenderProxy E → World (Store E) (Reply E) → Outcome (Reply E) × World (Store E) (Reply E)
    destroy_appender a w = elim a.held [
      | none ↦ (value done, w)
      | some app ↦ hand_over (destroy_appender_task E app) (drop E (E.release_appender app)) w
    ]

    -- `Connection`
    unfoldable pub query :
        Option E.Connection
        → List ℕ
        → World (Store E) (Reply E)
        → Outcome (Reply E) × World (Store E) (Reply E)
    query conn sql = sync (query_task E conn sql)

    unfoldable pub query_future :
        Option E.Connection
        → List ℕ
        → World (Store E) (Reply E)
        → Outcome ℕ × World (Store E) (Reply E)
    query_future conn sql = run_async env (query_task E conn sql)

    unfoldable pub prepare :
        Option E.Connection
        → List ℕ
        → World (Store E) (Reply E)
        → Outcome (Reply E) × World (Store E) (Reply E)
    prepare conn sql = sync (prepare_task E conn sql)

    unfoldable pub create_appender :
        Option E.Connection
        → List ℕ
        → World (Store E) (Reply E)
        → Outcome (Reply E) × World (Store E) (Reply E)
    create_appender conn table = sync (create_appender_task E conn table)

    unfoldable pub begin_transaction :
        Option E.Connection
        → World (Store E) (Reply E)
        → Outcome (Reply E) × World (Store E) (Reply E)
    begin_transaction conn = sync (begin_transaction_task E conn)

    unfoldable pub commit :
        Option E.Connection
        → World (Store E) (Reply E)
        → Outcome (Reply E) × World (Store E) (Reply E)
    commit conn = sync (commit_task E conn)

    unfoldable pub rollback :
        Option E.Connection
        → World (Store E) (Reply E)
        → Outcome (Reply E) × World (Store E) (Reply E)
    rollback conn = sync (rollback_task E conn)

    -- `PreparedStatement`, with its state's number
    unfoldable pub bind_value :
        ℕ → ℕ → E.Value → World (Store E) (Reply E) → Outcome (Reply E) × World (Store E) (Reply E)
    bind_value i index v w =
        if index == 0
        then (thrown index_too_low, w)
        else if ltb 1000 index
        then (thrown index_too_high, w)
        else sync (bind_task E i index v) w

    unfoldable pub execute :
        ℕ → World (Store E) (Reply E) → Outcome (Reply E) × World (Store E) (Reply E)
    execute i = sync (execute_task E i)

    unfoldable pub execute_future :
        ℕ → World (Store E) (Reply E) → Outcome ℕ × World (Store E) (Reply E)
    execute_future i = run_async env (execute_task E i)

    unfoldable pub n_param :
        ℕ → World (Store E) (Reply E) → Outcome (Reply E) × World (Store E) (Reply E)
    n_param i = sync (n_param_task E i)

    -- `Appender`. `EndRow` moves the pending row into its task, which leaves it empty.
    unfoldable pub begin_row : AppenderProxy E → AppenderProxy E
    begin_row a = elim a.held [ none ↦ a | some app ↦ record a { pending_row = [] } ]

    unfoldable pub append_value : E.Value → AppenderProxy E → AppenderProxy E
    append_value v a = record a { pending_row = a.pending_row ++ (v ∷ []) }

    unfoldable pub end_row :
        AppenderProxy E
        → World (Store E) (Reply E)
        → (Outcome (Reply E) × World (Store E) (Reply E)) × AppenderProxy E
    end_row a w = elim a.held [
      | none ↦ ((value done, w), a)
      | some app ↦ (sync (end_row_task E app a.pending_row) w, record a { pending_row = [] })
    ]

    unfoldable pub flush :
        AppenderProxy E → World (Store E) (Reply E) → Outcome (Reply E) × World (Store E) (Reply E)
    flush a w = elim a.held [ none ↦ (value done, w) | some app ↦ sync (flush_task E app) w ]

    unfoldable pub close :
        AppenderProxy E → World (Store E) (Reply E) → Outcome (Reply E) × World (Store E) (Reply E)
    close a w = elim a.held [ none ↦ (value done, w) | some app ↦ sync (close_task E app) w ]
