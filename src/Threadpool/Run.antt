-- ===== src/Threadpool/Run.antt =====
-- The runs of a pool of source/common/threadpool.c: what its threads do, one after the other, since
-- each does it under the mutex.
use libclogger.Prelude.{◌≡◌, ◌≢◌, List, [], ◌∷◌, ◌++◌}
use libclogger.Threadpool.{
  Task, PoolError, success, Pool, add, waits, leaves, works, take_task, begin_shutdown,
}

-- the pool, the tasks that `threadpool_add` accepted, and those that the workers took, in order
pub record World : Type 0 where
  pub pool : Pool
  pub accepted : List Task
  pub taken : List Task

-- One thread under the mutex: a caller of `threadpool_add` or `threadpool_destroy`, or a worker.
pub data Step : World → World → Type 0 where
  adds :
      {w : World} {pool : Pool} (task : Task)
      → add w.pool task ≡ (success, pool)
      → Step w (record w { pool = pool; accepted = w.accepted ++ (task ∷ []) })
  refuses :
      {w : World} {pool : Pool} {err : PoolError} (task : Task)
      → err ≢ success
      → add w.pool task ≡ (err, pool)
      → Step w (record w { pool = pool })
  takes :
      {w : World} {pool : Pool} {task : Task}
      → take_task w.pool ≡ (works task, pool)
      → Step w (record w { pool = pool; taken = w.taken ++ (task ∷ []) })
  stays :
      {w : World} {pool : Pool}
      → take_task w.pool ≡ (waits, pool)
      → Step w (record w { pool = pool })
  goes :
      {w : World} {pool : Pool}
      → take_task w.pool ≡ (leaves, pool)
      → Step w (record w { pool = pool })
  stops :
      {w : World} {pool : Pool} {err : PoolError}
      → begin_shutdown w.pool ≡ (err, pool)
      → Step w (record w { pool = pool })

pub data Run : World → World → Type 0 where
  rest : {w : World} → Run w w
  more : {w w' w'' : World} → Step w w' → Run w' w'' → Run w w''
