-- ===== src/Ring/Interleave.antt =====
-- Threads that call `ringbufst_write` and `ringbufst_read_copy` of source/common/ringbufst.h in any interleaving
-- of their accesses of the ring.
use libclogger.Prelude.{
  ℕ, ◌-◌, ◌^◌, ◌≡◌, ◌≢◌, refl, inl, inr, List, [], ◌∷◌, ◌++◌, arith, length, Bool-cases, ◌||◌, ◌==◌,
}
use mathlib.Core.List.{append-nil}
use libclogger.Ring.{Ring, align_entrysize}
use libclogger.Ring.Content.{Message}
use libclogger.Ring.Holds.{Holds}
use libclogger.Ring.Write.{oversized}
use libclogger.Ring.Threads.{
  Writer, w_idle, w_locked, w_loaded, w_cleared, w_sized, w_stored, w_moved, r_idle, r_locked,
  r_failed, System, Turn, call_write, go_write, call_read, go_read, step, schedule,
}
use libclogger.Ring.Sound.{AllSendable, Sendable, WriterLocks, Sound}
use libclogger.Ring.Sound.Writing.{writer_steps, step_write-Sound}
use libclogger.Ring.Sound.Reading.{reader_steps, buffer-Holds, step_read-Sound}

-- no thread inside, nothing written or copied yet
abbrev pub at_rest : Ring → System
at_rest rb = record { ring = rb; writer = w_idle; reader = r_idle; written = []; copied = [] }

at_rest-Sound : (rb : Ring) (q : List Message) → Holds rb q → Sound q (at_rest rb)
at_rest-Sound rb q h = record {
  base = rb.buffer;
  queue = q;
  holds = h;
  writer_ok = refl;
  reader_ok = tt;
  writer_locks = tt;
  reader_locks = tt;
  history = append-nil q;
}

-- A free lock has nobody behind it.
free-WriterOk : (w : Writer) (lock : ℕ) → WriterLocks w lock → lock ≡ 0 → w ≡ w_idle
free-WriterOk w_idle lock h e = refl
free-WriterOk (w_locked x) lock h e = absurd (omega (arith, h, e))
free-WriterOk (w_loaded x ro) lock h e = absurd (omega (arith, h, e))
free-WriterOk (w_cleared x wo') lock h e = absurd (omega (arith, h, e))
free-WriterOk (w_sized x at wo') lock h e = absurd (omega (arith, h, e))
free-WriterOk (w_stored x wo') lock h e = absurd (omega (arith, h, e))
free-WriterOk w_moved lock h e = absurd (omega (arith, h, e))

module _ (first : List Message) (s : System) (sound : Sound first s) where
  call_write-Sound : (x : Message) → Sendable x → Sound first (step (call_write x) s)
  unfolding step
  call_write-Sound x ok =
      let a = align_entrysize (length x) in
      elim (Bool-cases (a == 0 || (a == 2 ^ 64 - 1 || oversized a s.ring.len))) [
        | inl refused ↦ rw refused sound
        | inr taken ↦ rw taken (elim (Bool-cases (s.ring.wlock == 0)) [
          | inl free ↦
              let outside : s.writer ≡ w_idle =
                free-WriterOk s.writer s.ring.wlock sound.writer_locks (ground arith) in
              rw free (
                writer_steps first s sound s.ring.buffer 1 (w_locked x)
                  (ok, rw outside at sound.writer_ok) refl)
          | inr held ↦ rw held sound
        ])
      ]

  call_read-Sound : (n : ℕ) → Sound first (step (call_read n) s)
  unfolding step
  call_read-Sound n = elim (Bool-cases (s.ring.rlock == 0)) [
    | inl free ↦ rw free (reader_steps first s sound 1 (r_locked n) tt refl)
    | inr held ↦ rw held sound
  ]

pub schedule-Sound :
    (ts : List Turn) (first : List Message) (s : System)
    → AllSendable ts
    → Sound first s
    → Sound first (schedule ts s)
unfolding schedule step
schedule-Sound [] first s ok sound = sound
schedule-Sound (call_write x ∷ ts) first s ok sound =
    schedule-Sound ts first (step (call_write x) s) ok.1 (call_write-Sound first s sound x ok.0)
schedule-Sound (go_write ∷ ts) first s ok sound =
    schedule-Sound ts first (step go_write s) ok (step_write-Sound first s sound)
schedule-Sound (call_read n ∷ ts) first s ok sound =
    schedule-Sound ts first (step (call_read n) s) ok (call_read-Sound first s sound n)
schedule-Sound (go_read ∷ ts) first s ok sound =
    schedule-Sound ts first (step go_read s) ok (step_read-Sound first s sound)

Sound-ne_failed : (first : List Message) (s : System) → Sound first s → s.reader ≢ r_failed
Sound-ne_failed first s sound e = rw e at sound.reader_ok

-- A ring that holds `first`, no thread inside, on which threads call `ringbufst_write` with messages that are not
-- empty and of less than 2 ^ 62 bytes, and `ringbufst_read_copy`: after any interleaving of the accesses
-- of one writer and one reader at a time, the ring holds a queue `q`, also while both are inside, such that what
-- it held at first and was written since is what was copied since and then `q`; no message is lost,
-- copied twice, torn or overtaken. No reader finds a broken entry.
pub schedule-Holds :
    (ts : List Turn) (rb : Ring) (first : List Message)
    → AllSendable ts
    → Holds rb first
    → let s = schedule ts (at_rest rb) in
      (q : List Message) × Holds s.ring q
      × (first ++ s.written ≡ s.copied ++ q)
      × (s.reader ≢ r_failed)
schedule-Holds ts rb first ok h =
    let s = schedule ts (at_rest rb) in
    let sound : Sound first s =
      schedule-Sound ts first (at_rest rb) ok (at_rest-Sound rb first h) in
    (sound.queue, buffer-Holds first s sound, sound.history, Sound-ne_failed first s sound)
