-- ===== src/Async/Proxy/Tests.antt =====
-- Tests of the proxies of DuckDB/async_duckdb.hpp, with an engine that counts its calls: the result of
-- a query is the length of its text, the result 7 is an error, and 5 is a stream.
use async_duck_db.Common.{
  ℕ, suc, ◌≡◌, refl, subst, true, false, ◌==◌, if◌then◌else◌, [], ◌∷◌, Option, none, some, length,
}
use async_duck_db.Semaphore.{wait}
use async_duck_db.Thread.{new_thread, fault, dispatch_delegate}
use async_duck_db.Async.Task.{Outcome, value, World, pending, empty_slot}
use async_duck_db.Async.Dispatch.{Env, run_sync, run_remote, dispatch_task}
use async_duck_db.Async.Engine.{Engine, ResultType, stream, materialized}
use async_duck_db.Async.Proxy.{Store, Reply, result, query_task}
use async_duck_db.Async.Proxy.Objects.{query, begin_row, end_row}
use async_duck_db.Async.Proxy.Laws.{sync-no_error, Materializes}

abbrev counted : {A : Type 0} → A → ℕ → Outcome A × ℕ
counted a s = (value a, suc s)

abbrev type_of : ℕ → ResultType
type_of r = if r == 5 then stream else materialized

abbrev counting : Engine
counting = record {
  State = ℕ;
  Value = ℕ;
  Database = ℕ;
  Connection = ℕ;
  Statement = ℕ;
  Appender = ℕ;
  QueryResult = ℕ;
  null_value = 0;
  result_type = type_of;
  has_error = λ r. r == 7;
  error_code = λ r. r;
  materialize = λ r s. (value (some 8), suc s);
  open_database = λ path. counted 1;
  close_database = λ d s. suc s;
  connect = λ d. counted 2;
  disconnect = λ c s. suc s;
  query = λ c sql. counted (some (length sql));
  prepare = λ c sql. counted 3;
  success = λ x. true;
  prepare_error = λ x. 0;
  parameter_count = λ x. 2;
  execute = λ x vs. counted (some (length vs));
  release_statement = λ x s. suc s;
  open_appender = λ c table. counted 4;
  begin_row = λ a. counted tt;
  append = λ a v. counted tt;
  end_row = λ a. counted tt;
  flush = λ a. counted tt;
  close = λ a. counted tt;
  release_appender = λ a s. suc s;
  begin_transaction = λ c. counted tt;
  commit = λ c. counted tt;
  rollback = λ c. counted tt;
}

abbrev idle : World (Store counting) (Reply counting)
idle = record {
  shared = record {
    store = record {
      engine = 0;
      statements = λ i. record { stmt = some 3; params = [] };
      next_statement = 0;
    };
    slots = λ i. empty_slot;
    promises = λ i. pending;
  };
  central = some 0;
  threads = λ i. record (new_thread 0 fault) { created = true };
  next_slot = 0;
  next_promise = 0;
}

abbrev finished : World (Store counting) (Reply counting) → World (Store counting) (Reply counting)
finished w = record w {
  shared = record w.shared {
    slots = λ i. record {
      sema = record { signaled = true };
      ex = none;
      result = some (result (some 6));
    };
  };
}

-- The worker answers 6 while the caller waits.
abbrev answering : Env (Store counting) (Reply counting)
answering = record { room = λ t. t; meanwhile = finished }

sync-no_error_example : (6 == 7) ≡ false
unfolding run_sync run_remote dispatch_task dispatch_delegate wait
sync-no_error_example =
    sync-no_error counting none answering (query_task counting (some 2) (1 ∷ [])) idle 6 refl refl

counting-Materializes : Materializes counting
counting-Materializes r q s h = subst (λ x. type_of x ≡ materialized) (same h) refl
  where
    same : ◌≡◌ {A = Outcome (Option ℕ)} (value (some 8)) (value (some q)) → 8 ≡ q
    same e = cc

abbrev index : ℕ
index = 1001
