-- ===== src/Ringbuf/Tests.antt =====
-- Runs of the ring of source/common/ringbuf.h, and its theorems at concrete inputs.
use libclogger.Prelude.{
  ℕ, suc, ◌≤◌, ◌≡◌, refl, ◌++◌, map, none, some, List, [], ◌∷◌, arith, length, zero, ◌<◌, ◌%◌, inr,
  get_elem?,
}
use libclogger.Ringbuf.Distance.{slot_at}
use libclogger.Ringbuf.{Ringbuf, init, limit_length, push, pop, assign}
use libclogger.Ringbuf.Threads.{Turn, call_push, go_push, call_pop, go_pop, schedule}
use libclogger.Ringbuf.Invariant.{Sound}
use libclogger.Ringbuf.Linear.{start, schedule-Fifo}
use libclogger.Ringbuf.Queue.{Quiet, Pushed, Popped, push-Pushed, pop-Popped}

-- The reader loads `W` before the writer publishes it, and finds nothing; a second call finds 7.
abbrev turns : List (Turn ℕ)
turns =
    call_push 7
    ∷ go_push
    ∷ go_push
    ∷ call_pop
    ∷ go_pop
    ∷ call_push 8
    ∷ go_push
    ∷ go_pop
    ∷ go_push
    ∷ call_pop
    ∷ go_pop
    ∷ go_pop
    ∷ go_pop
    ∷ go_pop
    ∷ go_pop
    ∷ []

schedule_pushed : (schedule turns (start 2)).pushed ≡ 7 ∷ []
unfolding schedule init limit_length
schedule_pushed = refl

schedule_popped : (schedule turns (start 2)).popped ≡ some 7 ∷ []
unfolding schedule init limit_length
schedule_popped = refl

schedule-Fifo_example :
    let s = schedule turns (start 2) in
    (q : List ℕ) × (map some s.pushed ≡ s.popped ++ map some q)
    × (length q ≤ s.ring.len)
    × Sound s q
schedule-Fifo_example = schedule-Fifo 2 turns

-- two slots, one element in the second
abbrev one_left : Ringbuf ℕ
one_left = record {
  rlock = 0;
  wlock = 0;
  woffset = 2;
  roffset = 1;
  len = 2;
  buffer = assign (λ _. none) 1 (some 5);
}

one_left-Quiet : Quiet one_left (5 ∷ [])
one_left-Quiet = record {
  write_free = refl;
  read_free = refl;
  apart = record {
    lap_r = 0;
    lap_w = 1;
    r = 1;
    w = 0;
    read_at = omega arith;
    write_at = omega arith;
    most = omega arith;
    span = inr (refl, refl);
  };
  content = λ i lt. first i lt;
}
  where
    first :
        (i : ℕ)
        → i < 1
        → one_left.buffer (slot_at 2 (one_left.roffset % 2) i) ≡ get_elem? (5 ∷ []) i
    first zero lt = refl
    first (suc i) lt = absurd (omega arith)

push_around : (push one_left 6).1.woffset ≡ 3
unfolding push
push_around = refl

push-Pushed_example : Pushed one_left (5 ∷ []) 6 (push one_left 6)
push-Pushed_example = push-Pushed one_left (5 ∷ []) 6 one_left-Quiet

pop-Popped_example : Popped one_left (5 ∷ []) (pop one_left)
pop-Popped_example = pop-Popped one_left (5 ∷ []) one_left-Quiet
