-- ===== src/Threadpool/Order.antt =====
-- The tasks of a pool of source/common/threadpool.c are taken in the order in which they were accepted,
-- and none is taken once it shuts down.
use libclogger.Prelude.{
  ℕ, ◌≤◌, ◌<◌, ◌≡◌, ◌≢◌, refl, sym, ap, ◌∙◌, Option, none, some, List, [], ◌∷◌, ◌++◌, arith, length,
  ltb, ◌==◌, Bool-cases, inl, inr,
}
use mathlib.Core.Path.{subst}
use mathlib.Core.List.{append_assoc}
use libclogger.Threadpool.{
  Task, PoolError, success, invalid, lock_failure, queue_full, shutting_down, run_failure,
  out_memory, task_arg_overflow, Pool, waits, leaves, works, begin_shutdown, create, create_with,
  fresh_pool, limit_or_default,
}
use libclogger.Threadpool.Queue.{Queued, Added, add-Added, Taken, take_task-Taken}
use libclogger.Threadpool.Run.{
  World, Step, adds, refuses, takes, stays, goes, stops, Run, rest, more,
}

-- The queue of the pool is what was accepted and not taken.
record Ordered (w : World) (q : List Task) : Type 0 where
  pub queued : Queued w.pool q
  pub history : w.accepted ≡ w.taken ++ q

Added-refused :
    (pool pool' : Pool) (q : List Task) (task : Task) (err : PoolError)
    → err ≢ success
    → Added pool q task (err, pool')
    → pool' ≡ pool
Added-refused pool pool' q task success ne a = absurd (ne refl)
Added-refused pool pool' q task invalid ne a = a.1
Added-refused pool pool' q task lock_failure ne a = absurd a
Added-refused pool pool' q task queue_full ne a = a.3
Added-refused pool pool' q task shutting_down ne a = a.2
Added-refused pool pool' q task run_failure ne a = absurd a
Added-refused pool pool' q task out_memory ne a = absurd a
Added-refused pool pool' q task task_arg_overflow ne a = a.2

takes-Ordered :
    (w : World) (q : List Task) (pool : Pool) (task : Task)
    → Ordered w q
    → Taken w.pool q (works task, pool)
    → (q' : List Task) × Ordered (record w { pool = pool; taken = w.taken ++ (task ∷ []) }) q'
takes-Ordered w [] pool task h t = absurd t
takes-Ordered w (x ∷ q) pool task h t = (
  q,
  record {
    queued = t.2;
    history =
        h.history
        ∙ sym (append_assoc w.taken (x ∷ []) q)
        ∙ ap (λ y. (w.taken ++ (y ∷ [])) ++ q) (sym t.1);
  },
)

stays-Ordered :
    (w : World) (q : List Task) (pool : Pool)
    → Ordered w q
    → Taken w.pool q (waits, pool)
    → Ordered (record w { pool = pool }) q
stays-Ordered w [] pool h t = record {
  queued = subst (λ p. Queued p []) (sym t.1) h.queued;
  history = h.history;
}
stays-Ordered w (x ∷ q) pool h t = absurd t

goes-Queued :
    (pool pool' : Pool) (q : List Task)
    → Queued pool q
    → Taken pool q (leaves, pool')
    → Queued pool' q
goes-Queued pool pool' [] h t =
    subst (λ p. Queued p []) (sym t.1)
      (record {
        counted = h.counted;
        most = h.most;
        head_lt = h.head_lt;
        tail_at = h.tail_at;
        content = h.content;
      })
goes-Queued pool pool' (x ∷ q) h t =
    subst (λ p. Queued p (x ∷ q)) (sym t.1)
      (record {
        counted = h.counted;
        most = h.most;
        head_lt = h.head_lt;
        tail_at = h.tail_at;
        content = h.content;
      })

begin_shutdown-Queued :
    (pool : Pool) (q : List Task) → Queued pool q → Queued (begin_shutdown pool).1 q
unfolding begin_shutdown
begin_shutdown-Queued pool q h = elim (Bool-cases (pool.shutdown == 0)) [
  | inl up ↦ rw up (record {
    counted = h.counted;
    most = h.most;
    head_lt = h.head_lt;
    tail_at = h.tail_at;
    content = h.content;
  })
  | inr down ↦ rw down h
]

Step-Ordered :
    {w w' : World} (q : List Task) → Step w w' → Ordered w q → (q' : List Task) × Ordered w' q'
Step-Ordered {w} q (adds task e) h =
    let added = subst (Added w.pool q task) e (add-Added w.pool q task h.queued) in
    (
      q ++ (task ∷ []),
      record {
        queued = added.3;
        history = ap (λ t. t ++ (task ∷ [])) h.history ∙ append_assoc w.taken q (task ∷ []);
      },
    )
Step-Ordered {w} q (refuses {pool = pool} {err = err} task ne e) h =
    let same =
      Added-refused w.pool pool q task err ne
        (subst (Added w.pool q task) e (add-Added w.pool q task h.queued)) in
    (q, record { queued = subst (λ p. Queued p q) (sym same) h.queued; history = h.history })
Step-Ordered {w} q (takes {pool = pool} {task = task} e) h =
    takes-Ordered w q pool task h (subst (Taken w.pool q) e (take_task-Taken w.pool q h.queued))
Step-Ordered {w} q (stays {pool = pool} e) h =
    (q, stays-Ordered w q pool h (subst (Taken w.pool q) e (take_task-Taken w.pool q h.queued)))
Step-Ordered {w} q (goes {pool = pool} e) h =
    let left =
      goes-Queued w.pool pool q h.queued
        (subst (Taken w.pool q) e (take_task-Taken w.pool q h.queued)) in
    (q, record { queued = left; history = h.history })
Step-Ordered {w} q (stops {pool = pool} e) h =
    let stopped = begin_shutdown-Queued w.pool q h.queued in
    (q, record { queued = subst (λ out. Queued out.1 q) e stopped; history = h.history })

Run-Ordered :
    {w w' : World} (q : List Task) → Run w w' → Ordered w q → (q' : List Task) × Ordered w' q'
Run-Ordered q rest h = (q, h)
Run-Ordered q (more step steps) h =
    let next = Step-Ordered q step h in Run-Ordered next.0 steps next.1

-- a pool just made
abbrev pub world : Pool → World
world pool = record { pool = pool; accepted = []; taken = [] }

limit_pos : (most default n m : ℕ) → 0 < default → limit_or_default most default n ≡ some m → 0 < m
limit_pos most default n m pos e = ground (arith, e)

fresh-Ordered :
    (threads tasks size : ℕ) → 0 < tasks → Ordered (world (fresh_pool threads tasks size)) []
fresh-Ordered threads tasks size pos = record {
  queued = record {
    counted = refl;
    most = omega arith;
    head_lt = pos;
    tail_at = ground arith;
    content = λ i lt. absurd (omega arith);
  };
  history = refl;
}

create-Ordered :
    (threads tasks : Option ℕ) (size : ℕ) (pool : Pool)
    → ((n : ℕ) → tasks ≡ some n → 0 < n)
    → create_with threads tasks size ≡ some pool
    → Ordered (world pool) []
unfolding create_with
create-Ordered none tasks size pool pos e = cc
create-Ordered (some threads) none size pool pos e = cc
create-Ordered (some threads) (some tasks) size pool pos e = elim (Bool-cases (ltb 16384 size)) [
  | inl large ↦ cc (rw large at e)
  | inr fits ↦
      let made : some (fresh_pool threads tasks size) ≡ some pool = rw fits at e in
      subst (λ p. Ordered (world p) []) (cc made)
        (fresh-Ordered threads tasks size (pos tasks refl))
]

-- A pool that `threadpool_create` made, after any run of its threads: the tasks that `threadpool_add`
-- accepted are those that the workers took, in that order, and behind them those in the queue, as
-- many as `count` says and at most `queue_size`.
pub Run-order :
    (thread_count queue_size task_arg_size : ℕ) (pool : Pool) (w : World)
    → create thread_count queue_size task_arg_size ≡ some pool
    → Run (world pool) w
    → (q : List Task) × (w.accepted ≡ w.taken ++ q)
      × (length q ≡ w.pool.count)
      × (length q ≤ w.pool.queue_size)
unfolding create
Run-order thread_count queue_size task_arg_size pool w made run =
    let start =
      create-Ordered _ _ task_arg_size pool
        (λ n e. limit_pos 131072 256 queue_size n (omega arith) e) made in
    let out = Run-Ordered [] run start in
    (
      out.0,
      out.1.history,
      out.1.queued.counted,
      omega (arith, out.1.queued.counted, out.1.queued.most),
    )
