-- ===== src/Ringbuf/Linear.antt =====
-- Whatever the interleaving of the threads that share a ring of source/common/ringbuf.h, it is a queue.
use libclogger.Prelude.{
  ℕ, ◌≤◌, ◌<◌, ◌≡◌, refl, some, List, [], ◌∷◌, ◌++◌, map, arith, length, ◌==◌, Bool-cases, inl, inr,
}
use libclogger.Ring.Offsets.{At}
use libclogger.Ringbuf.{init, limit_length}
use libclogger.Ringbuf.Threads.{
  Writer, w_idle, w_locked, w_loaded, w_stored, w_moved, Reader, r_idle, r_locked, r_loaded,
  r_taken, r_cleared, r_moved, System, Turn, call_push, go_push, call_pop, go_pop, step, schedule,
}
use libclogger.Ringbuf.Invariant.{WriterOk, ReaderOk, cleared, Sound}
use libclogger.Ringbuf.StepPush.{step_push-Sound}
use libclogger.Ringbuf.StepPop.{step_pop-Sound}

limit_length_pos : (n : ℕ) → 0 < limit_length n
unfolding limit_length
limit_length_pos n = ground arith

at_front : (l : ℕ) → 0 < l → At l 0 0 0
at_front l pos = record {
  pos_lt = pos;
  lap_lt = omega arith;
  offset = omega arith;
  quotient = grind arith;
  remainder = grind arith;
}

module _ {A : Type 0} where
  -- a ring just made, with no thread inside
  abbrev pub start : ℕ → System A
  start length = record {
    ring = init length;
    writer = w_idle;
    reader = r_idle;
    pushed = [];
    popped = [];
  }

  pub start-Sound : (n : ℕ) → Sound (start n) []
  unfolding init
  start-Sound n =
      let front = at_front (limit_length n) (limit_length_pos n) in
      record {
        writer_ok = refl;
        reader_ok = refl;
        apart = record {
          lap_r = 0;
          lap_w = 0;
          r = 0;
          w = 0;
          read_at = front;
          write_at = front;
          most = omega arith;
          span = inl (refl, refl);
        };
        content = λ i _ lt. absurd (omega arith);
        history = refl;
      }

  call_push-Sound :
      (elt : A) (s : System A) (q : List A) → Sound s q → Sound (step (call_push elt) s) q
  unfolding step
  call_push-Sound elt s q h = elim (Bool-cases (s.ring.wlock == 0)) [
    | inl free ↦ rw free (record {
      writer_ok = refl;
      reader_ok = same s.reader h.reader_ok;
      apart = h.apart;
      content = h.content;
      history = h.history;
    })
    | inr held ↦ rw held h
  ]
    where
      same : (r : Reader A) → ReaderOk s.ring q r → ReaderOk (record s.ring { wlock = 1 }) q r
      same r_idle ok = ok
      same r_locked ok = ok
      same (r_loaded wo) ok = ok
      same (r_taken e) ok = ok
      same (r_cleared e) ok = ok
      same r_moved ok = ok

  call_pop-Sound : (s : System A) (q : List A) → Sound s q → Sound (step call_pop s) q
  unfolding step
  call_pop-Sound s q h = elim (Bool-cases (s.ring.rlock == 0)) [
    | inl free ↦ rw free (record {
      writer_ok = same s.writer h.writer_ok;
      reader_ok = refl;
      apart = h.apart;
      content = λ i _ lt. h.content i (outside s.reader (ground arith) h.reader_ok i) lt;
      history = h.history;
    })
    | inr held ↦ rw held h
  ]
    where
      same :
          (w : Writer A)
          → WriterOk s.ring (length q) w
          → WriterOk (record s.ring { rlock = 1 }) (length q) w
      same w_idle ok = ok
      same (w_locked x) ok = ok
      same (w_loaded x ro) ok = ok
      same (w_stored x) ok = ok
      same w_moved ok = ok

      outside : (r : Reader A) → s.ring.rlock ≡ 0 → ReaderOk s.ring q r → (i : ℕ) → cleared r ≤ i
      outside r_idle free ok i = omega arith
      outside r_locked free ok i = omega arith
      outside (r_loaded wo) free ok i = omega arith
      outside (r_taken e) free ok i = omega arith
      outside (r_cleared e) free ok i = absurd (omega (arith, free, ok.0))
      outside r_moved free ok i = omega arith

  pub step-Sound :
      (t : Turn A) (s : System A) (q : List A) → Sound s q → (q' : List A) × Sound (step t s) q'
  unfolding step
  step-Sound (call_push elt) s q h = (q, call_push-Sound elt s q h)
  step-Sound go_push s q h = step_push-Sound s.writer s q refl h.writer_ok h
  step-Sound call_pop s q h = (q, call_pop-Sound s q h)
  step-Sound go_pop s q h = step_pop-Sound s.reader s q refl h.reader_ok h

  pub schedule-Sound :
      (ts : List (Turn A)) (s : System A) (q : List A)
      → Sound s q
      → (q' : List A) × Sound (schedule ts s) q'
  unfolding schedule
  schedule-Sound [] s q h = (q, h)
  schedule-Sound (t ∷ ts) s q h =
      let next = step-Sound t s q h in schedule-Sound ts (step t s) next.0 next.1

  -- A ring that `ringbuf_init` made, after any interleaving of calls of `ringbuf_push` and
  -- `ringbuf_pop`, cut at their atomic accesses: what the calls popped is a first part of what they
  -- pushed, in that order and never a null pointer; the rest, at most as many elements as the ring
  -- has slots, stands in the ring's slots from the read offset on, the offsets are apart by its
  -- length, and only a pop that is about to move the read offset has emptied the first of them.
  pub schedule-Fifo :
      (length' : ℕ) (ts : List (Turn A))
      → let s = schedule ts (start length') in
        (q : List A) × (map some s.pushed ≡ s.popped ++ map some q)
        × (length q ≤ s.ring.len)
        × Sound s q
  schedule-Fifo length' ts =
      let out = schedule-Sound ts (start length') [] (start-Sound length') in
      (out.0, out.1.history, out.1.apart.most, out.1)
