-- ===== src/Ring/Threads.antt =====
-- `ringbufst_write` and `ringbufst_read_copy` of source/common/ringbufst.h cut at their accesses of the ring, for
-- threads that run them in any interleaving. A thread that finds a lock held gets 0 at once, so that at
-- most one thread is inside the writer and one inside the reader. An offset that its own lock guards is
-- read where it is used; the tests of a call are one turn, and so is the copy of an entry.
use libclogger.Prelude.{
  ℕ, ◌+◌, ◌-◌, ◌*◌, ◌/◌, ◌%◌, ◌^◌, ◌||◌, List, [], ◌∷◌, ◌++◌, length, ◌==◌, if◌then◌else◌,
}
use libclogger.Memory.{load, store, store_word, bzero}
use libclogger.Ring.{Ring, entry_hdrsize, align_entrysize, normalize_offset, int_cast}
use libclogger.Ring.Content.{Message}
use libclogger.Ring.Write.{Slot, behind, front, nowhere, choose_slot, oversized}
use libclogger.Ring.Read.{exceeds, Found, entry, skip, nothing, broken, fault, find_entry}

-- Where the holder of `WLock` is: nowhere; with the lock; with `Ro`; with the tail zeroed; with the entry's size
-- stored; with its bytes stored; with `WOffset` set. From the test on, it has the new offset.
pub data Writer : Type 0 where
  w_idle : Writer
  w_locked : Message → Writer
  w_loaded : Message → ℕ → Writer
  w_cleared : Message → ℕ → Writer
  w_sized : Message → ℕ → ℕ → Writer
  w_stored : Message → ℕ → Writer
  w_moved : Writer

-- Where the holder of `RLock` is, with the size of its `rdbuf`: nowhere; with the lock; with `Wo`; with the
-- address and size of an entry that fits, and the offset behind it; with the entry copied and the offset behind it; before the skip of a tail; with `ROffset` set; at the -1.
pub data Reader : Type 0 where
  r_idle : Reader
  r_locked : ℕ → Reader
  r_loaded : ℕ → ℕ → Reader
  r_found : (at size next : ℕ) → Reader
  r_copied : Message → ℕ → Reader
  r_skipping : ℕ → Reader
  r_moved : Reader
  r_failed : Reader

-- `written` and `copied` are the messages so far, in the order of the moves of the offsets.
pub record System : Type 0 where
  pub ring : Ring
  pub writer : Writer
  pub reader : Reader
  pub written : List Message
  pub copied : List Message

-- A thread calls `ringbufst_write`, or `ringbufst_read_copy` with a size of `rdbuf`, or the one inside goes
-- on. The call of the latter to itself is a call like any other.
pub data Turn : Type 0 where
  call_write : Message → Turn
  go_write : Turn
  call_read : ℕ → Turn
  go_read : Turn

-- the new write offset, from the `Ro` that was loaded
unfoldable pub next_woffset : ℕ → ℕ → ℕ → ℕ → Slot → ℕ
next_woffset l ro wo a behind = int_cast (normalize_offset (wo + a) l)
next_woffset l ro wo a front = int_cast (a + (1 - ro / l) * l)
next_woffset l ro wo a nowhere = wo

-- the first store into the slot
unfoldable pub begin_entry : Message → ℕ → System → Slot → System
begin_entry x wo' s behind =
    let rb = s.ring in
    let w = rb.woffset % rb.len in
    record s {
      ring = record rb { buffer = store_word rb.buffer w (length x) };
      writer = w_sized x w wo';
    }
begin_entry x wo' s front =
    let rb = s.ring in
    let w = rb.woffset % rb.len in
    record s {
      ring = record rb { buffer = bzero rb.buffer w (rb.len - w) };
      writer = w_cleared x wo';
    }
begin_entry x wo' s nowhere = record s { ring = record s.ring { wlock = 0 }; writer = w_idle }

-- `ringbufst_write` from where its thread is
unfoldable pub step_write : Writer → System → System
step_write w_idle s = s
step_write (w_locked x) s = record s { writer = w_loaded x s.ring.roffset }
step_write (w_loaded x ro) s =
    let rb = s.ring in
    let a = align_entrysize (length x) in
    let slot = choose_slot rb.len ro rb.woffset a in
    begin_entry x (next_woffset rb.len ro rb.woffset a slot) s slot
step_write (w_cleared x wo') s =
    let rb = s.ring in
    record s {
      ring = record rb { buffer = store_word rb.buffer 0 (length x) };
      writer = w_sized x 0 wo';
    }
step_write (w_sized x at wo') s =
    let rb = s.ring in
    record s {
      ring = record rb { buffer = store rb.buffer (at + entry_hdrsize) x };
      writer = w_stored x wo';
    }
step_write (w_stored x wo') s = record s {
  ring = record s.ring { woffset = wo' };
  writer = w_moved;
  written = s.written ++ (x ∷ []);
}
step_write w_moved s = record s { ring = record s.ring { wlock = 0 }; writer = w_idle }

-- behind the reader's tests
unfoldable pub on_entry : ℕ → ℕ → System → Found → System
on_entry n wo s (entry at size next) =
    if exceeds size n
    then record s { ring = record s.ring { rlock = 0 }; reader = r_idle }
    else record s { reader = r_found at size next }
on_entry n wo s skip = record s { reader = r_skipping (int_cast (wo / s.ring.len * s.ring.len)) }
on_entry n wo s nothing = record s { ring = record s.ring { rlock = 0 }; reader = r_idle }
on_entry n wo s broken = record s { reader = r_failed }
on_entry n wo s fault = record s { reader = r_failed }

-- `ringbufst_read_copy` from where its thread is
unfoldable pub step_read : Reader → System → System
step_read r_idle s = s
step_read (r_locked n) s = record s { reader = r_loaded n s.ring.woffset }
step_read (r_loaded n wo) s =
    let rb = s.ring in on_entry n wo s (find_entry rb.buffer rb.len rb.roffset wo)
step_read (r_found at size next) s = record s {
  reader = r_copied (load s.ring.buffer (at + entry_hdrsize) size) next;
}
step_read (r_copied x next) s = record s {
  ring = record s.ring { roffset = next };
  reader = r_moved;
  copied = s.copied ++ (x ∷ []);
}
step_read (r_skipping next) s = record s {
  ring = record s.ring { roffset = next };
  reader = r_moved;
}
step_read r_moved s = record s { ring = record s.ring { rlock = 0 }; reader = r_idle }
step_read r_failed s = record s { ring = record s.ring { rlock = 0 }; reader = r_idle }

-- A call with the exchange of the lock, which fails if it is held; the entries that the guards of
-- `ringbufst_write` refuse are refused before.
unfoldable pub step : Turn → System → System
step (call_write x) s =
    let a = align_entrysize (length x) in
    if a == 0 || (a == 2 ^ 64 - 1 || oversized a s.ring.len)
    then s
    else if s.ring.wlock == 0
    then record s { ring = record s.ring { wlock = 1 }; writer = w_locked x }
    else s
step go_write s = step_write s.writer s
step (call_read n) s =
    if s.ring.rlock == 0
    then record s { ring = record s.ring { rlock = 1 }; reader = r_locked n }
    else s
step go_read s = step_read s.reader s

-- an interleaving, given by whose turn it is
unfoldable pub schedule : List Turn → System → System
schedule [] s = s
schedule (t ∷ ts) s = schedule ts (step t s)
