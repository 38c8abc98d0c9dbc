-- ===== src/Threadpool/Shutdown.antt =====
-- A pool of source/common/threadpool.c that shuts down accepts nothing and hands out nothing.
use libclogger.Prelude.{
  ◌≡◌, ◌≢◌, refl, sym, ap, ◌∙◌, false, arith, length, ltb, ◌==◌, Bool-cases, inl, inr, if_elim,
}
use libclogger.Threadpool.{Task, PoolError, success, Pool, add, leaves, take_task, begin_shutdown}
use libclogger.Threadpool.Run.{
  World, Step, adds, refuses, takes, stays, goes, stops, Run, rest, more,
}

-- What a pool that shuts down returns and leaves.
add-down :
    (pool : Pool) (task : Task)
    → pool.shutdown ≢ 0
    → ((add pool task).0 ≢ success) × ((add pool task).1.shutdown ≡ pool.shutdown)
unfolding add
add-down pool task down =
    let closed : (pool.shutdown == 0) ≡ false = ground (arith, down) in
    rw closed (
      if_elim (λ (out : PoolError × Pool). (out.0 ≢ success) × (out.1.shutdown ≡ pool.shutdown))
        (task.function == 0) (cc, refl)
        (if_elim (λ (out : PoolError × Pool). (out.0 ≢ success) × (out.1.shutdown ≡ pool.shutdown))
          (ltb pool.task_arg_size (length task.task_arg)) (cc, refl) (cc, refl)))

take_task-down : (pool : Pool) → pool.shutdown ≢ 0 → (take_task pool).0 ≡ leaves
unfolding take_task
take_task-down pool down =
    let closed : (pool.shutdown == 0) ≡ false = ground (arith, down) in
    rw closed (elim (Bool-cases (pool.count == 0)) [
      | inl none_there ↦ rw none_there refl
      | inr some_there ↦ rw some_there refl
    ])

shutdown-take_task : (pool : Pool) → (take_task pool).1.shutdown ≡ pool.shutdown
unfolding take_task
shutdown-take_task pool = ground arith

shutdown-begin_shutdown : (pool : Pool) → (begin_shutdown pool).1.shutdown ≢ 0
unfolding begin_shutdown
shutdown-begin_shutdown pool = ground arith

-- A world where nothing was accepted or taken since another one, and that still shuts down.
record Closed (w w' : World) : Type 0 where
  pub accepted : w'.accepted ≡ w.accepted
  pub taken : w'.taken ≡ w.taken
  pub down : w'.pool.shutdown ≢ 0

Step-Closed : {w w' : World} → Step w w' → w.pool.shutdown ≢ 0 → Closed w w'
Step-Closed {w} (adds task e) down = absurd ((add-down w.pool task down).0 (ap (λ o. o.0) e))
Step-Closed {w} (refuses task ne e) down = record {
  accepted = refl;
  taken = refl;
  down = λ z. down (sym (add-down w.pool task down).1 ∙ ap (λ o. o.1.shutdown) e ∙ z);
}
Step-Closed {w} (takes e) down = cc (take_task-down w.pool down, ap (λ o. o.0) e)
Step-Closed {w} (stays e) down = cc (take_task-down w.pool down, ap (λ o. o.0) e)
Step-Closed {w} (goes e) down = record {
  accepted = refl;
  taken = refl;
  down = λ z. down (sym (shutdown-take_task w.pool) ∙ ap (λ o. o.1.shutdown) e ∙ z);
}
Step-Closed {w} (stops e) down = record {
  accepted = refl;
  taken = refl;
  down = λ z. shutdown-begin_shutdown w.pool (ap (λ o. o.1.shutdown) e ∙ z);
}

-- Once `threadpool_destroy` set `shutdown`, whatever the threads do, no task is accepted and none is
-- taken, and the pool stays shut down.
pub Run-shutdown :
    {w w' : World}
    → Run w w'
    → w.pool.shutdown ≢ 0
    → (w'.accepted ≡ w.accepted) × (w'.taken ≡ w.taken) × (w'.pool.shutdown ≢ 0)
Run-shutdown rest down = (refl, refl, down)
Run-shutdown (more step steps) down =
    let first = Step-Closed step down in
    let later = Run-shutdown steps first.down in
    (later.0 ∙ first.accepted, later.1 ∙ first.taken, later.2)
