-- ===== src/Threadpool.antt =====
-- source/common/threadpool.c: a circular queue of tasks under one mutex, and the workers that empty it.
pub mod Queue
pub mod Run
pub mod Order
pub mod Shutdown
mod Tests
use libclogger.Prelude.{
  ℕ, ◌+◌, ◌-◌, Bool, true, false, ◌&&◌, ◌||◌, Option, none, some, List, [], length, ltb, ◌==◌,
  if◌then◌else◌,
}

-- `threadpool_task_t`; a function or an argument is a pointer, `task_arg` has `arg_size` bytes.
pub record Task : Type 0 where
  pub function : ℕ
  pub flags : ℕ
  pub argument : ℕ
  pub task_arg : List ℕ

-- `threadpool_error_t`
pub data PoolError : Type 0 where
  success invalid lock_failure queue_full shutting_down run_failure out_memory : PoolError
  task_arg_overflow : PoolError

-- `threadpool_t` without the mutex, the condition and the threads; `shutdown` is 0 or 1.
pub record Pool : Type 0 where
  pub thread_count : ℕ
  pub queue_size : ℕ
  pub task_arg_size : ℕ
  pub head : ℕ
  pub tail : ℕ
  pub count : ℕ
  pub shutdown : ℕ
  pub started : ℕ
  pub queues : ℕ → Task

-- the limits of `threadpool_create`, 0 standing for the default
abbrev pub limit_or_default : ℕ → ℕ → ℕ → Option ℕ
limit_or_default most default n = if ltb most n then none else some (if n == 0 then default else n)

-- the fields that `threadpool_create` sets, when each of its threads started
abbrev pub fresh_pool : ℕ → ℕ → ℕ → Pool
fresh_pool thread_count queue_size task_arg_size = record {
  thread_count = thread_count;
  queue_size = queue_size;
  task_arg_size = task_arg_size;
  head = 0;
  tail = 0;
  count = 0;
  shutdown = 0;
  started = thread_count;
  queues = λ _. record { function = 0; flags = 0; argument = 0; task_arg = [] };
}

-- The pool for the limits found, none for one that is out of range.
unfoldable pub create_with : Option ℕ → Option ℕ → ℕ → Option Pool
create_with none tasks task_arg_size = none
create_with (some threads) none task_arg_size = none
create_with (some threads) (some tasks) task_arg_size =
    if ltb 16384 task_arg_size then none else some (fresh_pool threads tasks task_arg_size)

-- `threadpool_create` where no call of the operating system fails: none for NULL. What `malloc` leaves
-- in the queue is zero here.
unfoldable pub create : ℕ → ℕ → ℕ → Option Pool
unfolding create_with
create thread_count queue_size task_arg_size =
    create_with (limit_or_default 16384 16 thread_count) (limit_or_default 131072 256 queue_size)
      task_arg_size

-- `(i == size) ? 0 : i` of the next index
abbrev pub next_index : ℕ → ℕ → ℕ
next_index i size = if i + 1 == size then 0 else i + 1

abbrev pub set_task : (ℕ → Task) → ℕ → Task → ℕ → Task
set_task queues i task j = if j == i then task else queues j

-- `threadpool_add` on a pool that is not NULL; the calls on the mutex and the condition succeed.
unfoldable pub add : Pool → Task → PoolError × Pool
add pool task =
    if task.function == 0
    then (invalid, pool)
    else if ltb pool.task_arg_size (length task.task_arg)
    then (task_arg_overflow, pool)
    else if pool.shutdown == 0
    then if pool.count == pool.queue_size then (queue_full, pool) else (
      success,
      record pool {
        queues = set_task pool.queues pool.tail task;
        tail = next_index pool.tail pool.queue_size;
        count = pool.count + 1;
      },
    )
    else (shutting_down, pool)

-- `threadpool_unused_queues` on a pool that is not NULL: none for `threadpool_invalid`
unfoldable pub unused_queues : Pool → Option ℕ
unused_queues pool = if pool.shutdown == 0 then some (pool.queue_size - pool.count) else none

-- What a worker of `threadpool_run` does when it has the mutex: it waits, leaves its loop, or works.
pub data WorkerTurn : Type 0 where
  waits leaves : WorkerTurn
  works : Task → WorkerTurn

-- the part of the loop of `threadpool_run` under the mutex
unfoldable pub take_task : Pool → WorkerTurn × Pool
take_task pool =
    if pool.count == 0 && pool.shutdown == 0
    then (waits, pool)
    else if pool.shutdown == 0
    then (
      works (pool.queues pool.head),
      record pool { head = next_index pool.head pool.queue_size; count = pool.count - 1 },
    )
    else (leaves, record pool { started = pool.started - 1 })

-- the part of `threadpool_destroy` under the mutex; the workers are joined behind it
unfoldable pub begin_shutdown : Pool → PoolError × Pool
begin_shutdown pool =
    if pool.shutdown == 0 then (success, record pool { shutdown = 1 }) else (shutting_down, pool)
