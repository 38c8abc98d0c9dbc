-- ===== src/Threadpool/Queue.antt =====
-- The circular queue of source/common/threadpool.c.
use libclogger.Prelude.{
  ℕ, suc, ◌+◌, ◌-◌, ◌≤◌, ◌<◌, ◌≡◌, ◌≢◌, refl, sym, ap, ◌∙◌, true, false, some, List, [], ◌∷◌, ◌++◌,
  arith, length, length-append, get_elem?, ltb, ltb→lt, ◌==◌, Bool-cases, inl, inr,
}
use mathlib.Core.Path.{subst}
use libclogger.Ringbuf.Distance.{slot_at, slot_at-injective, slot_at-slot_at}
use libclogger.Ringbuf.Invariant.{get_elem?_append_left, get_elem?_append_end}
use libclogger.Threadpool.{
  Task, PoolError, success, invalid, lock_failure, queue_full, shutting_down, run_failure,
  out_memory, task_arg_overflow, Pool, next_index, set_task, add, WorkerTurn, waits, leaves, works,
  take_task,
}

-- The pool's queue holds `q`, the oldest task at `head`.
pub record Queued (pool : Pool) (q : List Task) : Type 0 where
  pub counted : length q ≡ pool.count
  pub most : pool.count ≤ pool.queue_size
  pub head_lt : pool.head < pool.queue_size
  pub tail_at : pool.tail ≡ slot_at pool.queue_size pool.head pool.count
  pub content :
      (i : ℕ)
      → i < length q
      → some (pool.queues (slot_at pool.queue_size pool.head i)) ≡ get_elem? q i

next_index-slot_at :
    (l r i : ℕ) → r < l → i < l → next_index (slot_at l r i) l ≡ slot_at l r (i + 1)
next_index-slot_at l r i h k = ground arith

-- A task with a function, and with an argument that the pool has room for.
abbrev pub Valid : Pool → Task → Type 0
Valid pool task = (task.function ≢ 0) × (length task.task_arg ≤ pool.task_arg_size)

-- What `threadpool_add` does to a queue `q`, for each value that it returns.
abbrev pub Added : Pool → List Task → Task → PoolError × Pool → Type 0
Added pool q task (success, pool') =
    Valid pool task
    × (pool.shutdown ≡ 0)
    × (length q < pool.queue_size)
    × Queued pool' (q ++ (task ∷ []))
    × (pool'.shutdown ≡ 0)
    × (pool'.queue_size ≡ pool.queue_size)
Added pool q task (invalid, pool') = (task.function ≡ 0) × (pool' ≡ pool)
Added pool q task (queue_full, pool') =
    Valid pool task × (pool.shutdown ≡ 0) × (length q ≡ pool.queue_size) × (pool' ≡ pool)
Added pool q task (shutting_down, pool') = Valid pool task × (pool.shutdown ≢ 0) × (pool' ≡ pool)
Added pool q task (task_arg_overflow, pool') =
    (task.function ≢ 0) × (pool.task_arg_size < length task.task_arg) × (pool' ≡ pool)
Added pool q task (lock_failure, pool') = ⊥
Added pool q task (run_failure, pool') = ⊥
Added pool q task (out_memory, pool') = ⊥

enqueue-Queued :
    (pool : Pool) (q : List Task) (task : Task)
    → Queued pool q
    → length q < pool.queue_size
    → Queued
        (record pool {
          queues = set_task pool.queues pool.tail task;
          tail = next_index pool.tail pool.queue_size;
          count = pool.count + 1;
        })
        (q ++ (task ∷ []))
enqueue-Queued pool q task h room = record {
  counted = omega (arith, length-append q (task ∷ []), h.counted);
  most = omega (arith, h.counted);
  head_lt = h.head_lt;
  tail_at =
      ap (λ t. next_index t pool.queue_size) h.tail_at
      ∙ next_index-slot_at pool.queue_size pool.head pool.count h.head_lt
          (omega (arith, h.counted));
  content = content;
}
  where
    at_tail : slot_at pool.queue_size pool.head (length q) ≡ pool.tail
    at_tail = ap (slot_at pool.queue_size pool.head) h.counted ∙ sym h.tail_at

    content :
        (i : ℕ)
        → i < length (q ++ (task ∷ []))
        → some (set_task pool.queues pool.tail task (slot_at pool.queue_size pool.head i))
          ≡ get_elem? (q ++ (task ∷ [])) i
    content i lt = elim (Bool-cases (ltb i (length q))) [
      | inl older ↦
          let below = ltb→lt _ _ older in
          let other : (slot_at pool.queue_size pool.head i == pool.tail) ≡ false = ground (
            arith,
            λ (e : slot_at pool.queue_size pool.head i ≡ pool.tail).
                slot_at-injective pool.queue_size pool.head i (length q) h.head_lt (omega arith)
                  room (e ∙ sym at_tail),
          ) in
          rw other (h.content i below) ∙ sym (get_elem?_append_left q task i below)
      | inr last ↦
          let end : length q ≡ i = ground (arith, length-append q (task ∷ [])) in
          subst
            (λ k.
              some (set_task pool.queues pool.tail task (slot_at pool.queue_size pool.head k))
              ≡ get_elem? (q ++ (task ∷ [])) k)
            end (rw at_tail (ground arith) ∙ sym (get_elem?_append_end q task))
    ]

-- `threadpool_add` on a pool whose queue is `q`: it returns 0 if the task has a function, its
-- argument fits, the pool is not shut down and the queue is not full, and then the task is behind the
-- others; else it returns the error for the first of these four that fails, the ones before it being
-- true, and nothing changes.
pub add-Added :
    (pool : Pool) (q : List Task) (task : Task) → Queued pool q → Added pool q task (add pool task)
unfolding add
add-Added pool q task h = elim (Bool-cases (task.function == 0)) [
  | inl null ↦ rw null (ground arith, refl)
  | inr fine ↦ rw fine (elim (Bool-cases (ltb pool.task_arg_size (length task.task_arg))) [
    | inl large ↦ rw large (ground arith, ltb→lt _ _ large, refl)
    | inr fits ↦ rw fits (elim (Bool-cases (pool.shutdown == 0)) [
      | inr down ↦ rw down ((ground arith, ground arith), ground arith, refl)
      | inl up ↦ rw up (elim (Bool-cases (pool.count == pool.queue_size)) [
        | inl full ↦
            rw full ((ground arith, ground arith), ground arith, ground (arith, h.counted), refl)
        | inr room ↦
            let below : length q < pool.queue_size = ground (arith, h.counted, h.most) in
            rw room (
              (ground arith, ground arith),
              ground arith,
              below,
              enqueue-Queued pool q task h below,
              ground arith,
              refl,
            )
      ])
    ])
  ])
]

-- What a worker finds in a queue `q`, under the mutex.
abbrev pub Taken : Pool → List Task → WorkerTurn × Pool → Type 0
Taken pool [] (waits, pool') = (pool.shutdown ≡ 0) × (pool' ≡ pool)
Taken pool (task ∷ q) (works t, pool') = (pool.shutdown ≡ 0) × (t ≡ task) × Queued pool' q
Taken pool q (leaves, pool') =
    (pool.shutdown ≢ 0) × (pool' ≡ record pool { started = pool.started - 1 })
Taken pool q _ = ⊥

dequeue-Queued :
    (pool : Pool) (task : Task) (q : List Task)
    → Queued pool (task ∷ q)
    → Queued (record pool { head = next_index pool.head pool.queue_size; count = pool.count - 1 }) q
dequeue-Queued pool task q h =
    let head' : next_index pool.head pool.queue_size ≡ slot_at pool.queue_size pool.head 1 =
      ground (arith, h.head_lt) in
    record {
      counted = omega (arith, h.counted);
      most = omega (arith, h.most);
      head_lt = ground (arith, h.head_lt);
      tail_at = ground (arith, h.tail_at, h.head_lt, h.counted, h.most);
      content = λ i lt.
          ap (λ k. some (pool.queues (slot_at pool.queue_size k i))) head'
          ∙ ap (λ k. some (pool.queues k))
              (slot_at-slot_at pool.queue_size pool.head i h.head_lt
                (omega (arith, h.counted, h.most)) (omega (arith, h.head_lt)))
          ∙ h.content (suc i) (omega arith);
    }

-- A worker of `threadpool_run` that has the mutex of a pool whose queue is `q`: it waits exactly if
-- there is no task and no shutdown; it takes the oldest task if there is one and no shutdown; it
-- leaves, and nothing but the number of workers changes, exactly if there is a shutdown.
pub take_task-Taken : (pool : Pool) (q : List Task) → Queued pool q → Taken pool q (take_task pool)
unfolding take_task
take_task-Taken pool [] h = elim (Bool-cases (pool.shutdown == 0)) [
  | inl up ↦
      let none_there : (pool.count == 0) ≡ true = ground (arith, h.counted) in
      rw (none_there, up) (ground arith, refl)
  | inr down ↦
      let none_there : (pool.count == 0) ≡ true = ground (arith, h.counted) in
      rw (none_there, down) (ground arith, refl)
]
take_task-Taken pool (task ∷ q) h =
    let some_there : (pool.count == 0) ≡ false = ground (arith, h.counted) in
    elim (Bool-cases (pool.shutdown == 0)) [
      | inl up ↦
          let oldest : some (pool.queues pool.head) ≡ some task =
            ap (λ k. some (pool.queues k)) (ground (arith, h.head_lt))
            ∙ h.content 0 (omega arith) in
          rw (some_there, up) (ground arith, cc oldest, dequeue-Queued pool task q h)
      | inr down ↦ rw (some_there, down) (ground arith, refl)
    ]
