-- ===== src/Threadpool/Tests.antt =====
-- Runs of the pool of source/common/threadpool.c, and its theorems at concrete inputs.
use libclogger.Prelude.{◌≤◌, ◌≡◌, ◌≢◌, refl, some, List, [], ◌∷◌, ◌++◌, arith, length}
use libclogger.Threadpool.{
  Task, Pool, create, create_with, fresh_pool, add, take_task, begin_shutdown,
}
use libclogger.Threadpool.Queue.{Queued, Added, add-Added}
use libclogger.Threadpool.Run.{World, adds, takes, goes, Run, rest, more}
use libclogger.Threadpool.Order.{world, Run-order}
use libclogger.Threadpool.Shutdown.{Run-shutdown}

abbrev job : Task
job = record { function = 1; flags = 2; argument = 3; task_arg = 4 ∷ [] }

abbrev made : Pool
made = fresh_pool 1 2 8

created : create 1 2 8 ≡ some made
unfolding create create_with
created = refl

abbrev queued_one : Pool
queued_one = (add made job).1

abbrev after_add : World
after_add = record { pool = queued_one; accepted = job ∷ []; taken = [] }

abbrev after_take : World
after_take = record { pool = (take_task queued_one).1; accepted = job ∷ []; taken = job ∷ [] }

one_job : Run (world made) after_take
unfolding add take_task
one_job = more (adds job refl) (more (takes refl) rest)

Run-order_example :
    (q : List Task) × (after_take.accepted ≡ after_take.taken ++ q)
    × (length q ≡ after_take.pool.count)
    × (length q ≤ after_take.pool.queue_size)
Run-order_example = Run-order 1 2 8 made after_take created one_job

abbrev stopped : World
stopped = record after_add { pool = (begin_shutdown queued_one).1 }

abbrev left : World
left = record stopped { pool = (take_task stopped.pool).1 }

worker_leaves : Run stopped left
unfolding add take_task begin_shutdown
worker_leaves = more (goes refl) rest

Run-shutdown_example :
    (left.accepted ≡ stopped.accepted) × (left.taken ≡ stopped.taken) × (left.pool.shutdown ≢ 0)
unfolding add begin_shutdown
Run-shutdown_example = Run-shutdown worker_leaves (λ e. absurd (omega (arith, e)))

made-Queued : Queued made []
made-Queued = record {
  counted = refl;
  most = omega arith;
  head_lt = omega arith;
  tail_at = refl;
  content = λ i lt. absurd (omega arith);
}

add-Added_example : Added made [] job (add made job)
add-Added_example = add-Added made [] job made-Queued
