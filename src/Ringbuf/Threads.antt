-- ===== src/Ringbuf/Threads.antt =====
-- The functions of source/common/ringbuf.h cut at their atomic accesses, for threads that run them
-- in any interleaving. A thread that finds a lock held gets 0 at once, so that at most one thread is
-- inside `ringbuf_push` and one inside `ringbuf_pop`.
use libclogger.Prelude.{ℕ, ◌+◌, ◌%◌, Option, none, some, List, [], ◌∷◌, ◌++◌, ◌==◌, if◌then◌else◌}
use libclogger.Ringbuf.{Ringbuf, fold_offset, writable, readable, assign}

-- where the holder of `WLock` is: nowhere; with the lock; with `Ro`; with `B[W]` set; with `W` set
pub data Writer (A : Type 0) : Type 0 where
  w_idle : Writer A
  w_locked : A → Writer A
  w_loaded : A → ℕ → Writer A
  w_stored : A → Writer A
  w_moved : Writer A

-- where the holder of `RLock` is: nowhere; with the lock; with `Wo`; with `*eltp`; with `B[R]`
-- cleared; with `R` set
pub data Reader (A : Type 0) : Type 0 where
  r_idle : Reader A
  r_locked : Reader A
  r_loaded : ℕ → Reader A
  r_taken : Option A → Reader A
  r_cleared : Option A → Reader A
  r_moved : Reader A

-- `pushed` and `popped` are what the calls put in and gave back so far, in the order of the moves of
-- the offsets.
pub record System (A : Type 0) : Type 0 where
  pub ring : Ringbuf A
  pub writer : Writer A
  pub reader : Reader A
  pub pushed : List A
  pub popped : List (Option A)

-- A thread calls `ringbuf_push` or `ringbuf_pop`, or the one inside goes on.
pub data Turn (A : Type 0) : Type 0 where
  call_push : A → Turn A
  go_push : Turn A
  call_pop : Turn A
  go_pop : Turn A

module _ {A : Type 0} where
  -- `ringbuf_push` from where its thread is
  unfoldable pub step_push : Writer A → System A → System A
  step_push w_idle s = s
  step_push (w_locked elt) s = record s { writer = w_loaded elt s.ring.roffset }
  step_push (w_loaded elt ro) s =
      let rb = s.ring in
      if writable rb.len ro rb.woffset
      then record s {
        ring = record rb { buffer = assign rb.buffer (rb.woffset % rb.len) (some elt) };
        writer = w_stored elt;
      }
      else record s { ring = record rb { wlock = 0 }; writer = w_idle }
  step_push (w_stored elt) s =
      let rb = s.ring in
      record s {
        ring = record rb { woffset = fold_offset (rb.woffset + 1) rb.len };
        writer = w_moved;
        pushed = s.pushed ++ (elt ∷ []);
      }
  step_push w_moved s = record s { ring = record s.ring { wlock = 0 }; writer = w_idle }

  -- `ringbuf_pop` from where its thread is
  unfoldable pub step_pop : Reader A → System A → System A
  step_pop r_idle s = s
  step_pop r_locked s = record s { reader = r_loaded s.ring.woffset }
  step_pop (r_loaded wo) s =
      let rb = s.ring in
      if readable rb.len rb.roffset wo
      then record s { reader = r_taken (rb.buffer (rb.roffset % rb.len)) }
      else record s { ring = record rb { rlock = 0 }; reader = r_idle }
  step_pop (r_taken elt) s =
      let rb = s.ring in
      record s {
        ring = record rb { buffer = assign rb.buffer (rb.roffset % rb.len) none };
        reader = r_cleared elt;
      }
  step_pop (r_cleared elt) s =
      let rb = s.ring in
      record s {
        ring = record rb { roffset = fold_offset (rb.roffset + 1) rb.len };
        reader = r_moved;
        popped = s.popped ++ (elt ∷ []);
      }
  step_pop r_moved s = record s { ring = record s.ring { rlock = 0 }; reader = r_idle }

  -- the exchange of the lock, which fails if it is held
  unfoldable pub step : Turn A → System A → System A
  unfolding step_push step_pop
  step (call_push elt) s =
      if s.ring.wlock == 0
      then record s { ring = record s.ring { wlock = 1 }; writer = w_locked elt }
      else s
  step go_push s = step_push s.writer s
  step call_pop s =
      if s.ring.rlock == 0
      then record s { ring = record s.ring { rlock = 1 }; reader = r_locked }
      else s
  step go_pop s = step_pop s.reader s

  -- an interleaving, given by whose turn it is
  unfoldable pub schedule : List (Turn A) → System A → System A
  unfolding step
  schedule [] s = s
  schedule (t ∷ ts) s = schedule ts (step t s)
