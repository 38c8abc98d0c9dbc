-- ===== src/Ring/Alone.antt =====
-- `ringbufst_write` and `ringbufst_read_copy` of source/common/ringbufst.h cut at their accesses of the ring, when
-- nothing comes in between, against the two functions in one piece.
use libclogger.Prelude.{
  ◌-◌, ◌^◌, ◌≡◌, refl, inl, inr, List, [], ◌∷◌, ◌++◌, arith, length, Bool-cases, true, false, ◌||◌,
  ◌==◌, leb,
}
use mathlib.Core.List.{append-nil}
use libclogger.Ring.{Ring, align_entrysize}
use libclogger.Ring.Offsets.{align_entrysize_bounds}
use libclogger.Ring.Content.{Message}
use libclogger.Ring.Write.{
  WriteStatus, Slot, behind, front, nowhere, place, store_entry, write, oversized,
}
use libclogger.Ring.Threads.{
  w_idle, w_loaded, Reader, System, Turn, call_write, go_write, step, schedule, step_write,
  begin_entry, next_woffset,
}
use libclogger.Ring.Sound.{Sendable}

-- a call of `ringbufst_write` and all of its accesses; one that has ended does nothing
abbrev pub write_turns : Message → List Turn
write_turns x = call_write x ∷ go_write ∷ go_write ∷ go_write ∷ go_write ∷ go_write ∷ go_write ∷ []

abbrev pub sent : WriteStatus → Message → List Message
sent WriteStatus.written x = x ∷ []
sent _ x = []

-- the stores from the choice of the slot on
slot_alone :
    (rb : Ring) (rd : Reader) (ws cs : List Message) (x : Message) (slot : Slot)
    → rb.wlock ≡ 0
    → let a = align_entrysize (length x) in
      let inside : System = record {
        ring = record rb { wlock = 1 };
        writer = w_loaded x rb.roffset;
        reader = rd;
        written = ws;
        copied = cs;
      } in
      schedule
        (go_write ∷ go_write ∷ go_write ∷ go_write ∷ [])
        (begin_entry x (next_woffset rb.len rb.roffset rb.woffset a slot) inside slot)
      ≡ record {
        ring = (place rb slot a (length x) x).1;
        writer = w_idle;
        reader = rd;
        written = ws ++ sent (place rb slot a (length x) x).0 x;
        copied = cs;
      }
unfolding schedule step step_write begin_entry next_woffset place store_entry
slot_alone rb rd ws cs x behind lock = rw lock refl
slot_alone rb rd ws cs x front lock = rw lock refl
slot_alone rb rd ws cs x nowhere lock = rw (lock, append-nil) refl

-- A call of `ringbufst_write` with a message that is not empty and of less than 2 ^ 62 bytes, on any ring with the
-- write lock free, also with a thread inside the reader: if no other thread comes in between, its accesses do
-- what the function in one piece does, the ring and its result included, and leave the lock free.
pub write-alone :
    (rb : Ring) (rd : Reader) (ws cs : List Message) (x : Message)
    → rb.wlock ≡ 0
    → Sendable x
    → schedule
        (write_turns x)
        (record { ring = rb; writer = w_idle; reader = rd; written = ws; copied = cs })
      ≡ record {
        ring = (write rb (length x) x).1;
        writer = w_idle;
        reader = rd;
        written = ws ++ sent (write rb (length x) x).0 x;
        copied = cs;
      }
unfolding schedule step step_write write
write-alone rb rd ws cs x lock ok =
    let a = align_entrysize (length x) in
    let bounds = align_entrysize_bounds (length x) ok.1 in
    let positive : leb (2 ^ 63) a ≡ false = ground arith in
    let free : (rb.wlock == 0) ≡ true = ground arith in
    rw (positive, free)
      (elim (Bool-cases (a == 0 || (a == 2 ^ 64 - 1 || oversized a rb.len))) [
        | inl refused ↦ rw (refused, append-nil) refl
        | inr taken ↦ rw taken (rw slot_alone refl)
      ])
