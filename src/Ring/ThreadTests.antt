-- ===== src/Ring/ThreadTests.antt =====
-- Interleavings of the threads at the ring of source/common/ringbufst.h, and their theorems at concrete inputs.
use libclogger.Prelude.{◌≡◌, ◌≢◌, refl, List, [], ◌∷◌, ◌++◌, arith}
use libclogger.Memory.{store, load, store_word, load_word, to_bytes, from_bytes, bzero}
use libclogger.Ring.Content.{Message}
use libclogger.Ring.Holds.{Holds}
use libclogger.Ring.Write.{choose_slot}
use libclogger.Ring.Read.{find_entry}
use libclogger.Ring.Threads.{
  r_failed, Turn, call_write, go_write, call_read, go_read, schedule, step, step_write, step_read,
  begin_entry, on_entry, next_woffset,
}
use libclogger.Ring.Tests.{empty, hello, empty-Holds}
use libclogger.Ring.Interleave.{at_rest, schedule-Holds}

-- The reader comes in while the writer zeroes the tail, sees nothing, comes again before the writer leaves, and
-- skips the tail while a second write waits for the lock.
abbrev mixed : List Turn
mixed =
    call_write hello
    ∷ go_write
    ∷ go_write
    ∷ call_read 64
    ∷ go_read
    ∷ go_write
    ∷ go_read
    ∷ go_write
    ∷ go_write
    ∷ call_read 64
    ∷ go_read
    ∷ call_write hello
    ∷ go_read
    ∷ go_write
    ∷ go_read
    ∷ go_read
    ∷ call_read 64
    ∷ go_read
    ∷ go_read
    ∷ go_read
    ∷ go_read
    ∷ []

mixed_copied : (schedule mixed (at_rest empty)).copied ≡ hello ∷ []
unfolding schedule step step_write step_read begin_entry on_entry next_woffset choose_slot
    find_entry store load store_word load_word to_bytes from_bytes bzero
mixed_copied = refl

schedule-Holds_example :
    let s = schedule mixed (at_rest empty) in
    (q : List Message) × Holds s.ring q × ([] ++ s.written ≡ s.copied ++ q) × (s.reader ≢ r_failed)
schedule-Holds_example =
    schedule-Holds mixed empty [] ((omega arith, omega arith), ((omega arith, omega arith), tt))
      empty-Holds
