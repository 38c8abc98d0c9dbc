-- ===== src/SharedRing.antt =====
-- source/common/shmmbuf.h: the ring buffer in shared memory between the processes that log and the one that
-- writes. Its ring is laid out as that of source/common/ringbufst.h, and its macros for entries and laps are those
-- of Ring; its offsets are `size_t` and not cast.
--
-- Whether `pthread_mutex_trylock` of a call gives the lock is an argument. The state locks of the two
-- offsets are taken to succeed, as `shmmbuf_state_get` ends the process otherwise.
pub mod Offset
pub mod Queue
pub mod Fifo
pub mod Batch
pub mod Create
pub mod Token
pub mod Reopen
mod Tests
use libclogger.Prelude.{
  ◌⊎◌, inl, inr, ◌≤◌, ◌<◌, ℕ, zero, suc, ◌+◌, ◌-◌, ◌*◌, ◌/◌, ◌%◌, ◌^◌, Bool, ◌||◌, List, ltb, leb,
  ◌==◌, if◌then◌else◌,
}
use libclogger.Memory.{Mem, load, load_word, bzero}
use libclogger.Ring.{entry_hdrsize, align_entrysize, restore_wrap, normalize_offset}
use libclogger.Ring.Write.{
  WriteStatus, fatal, again, written, fault, Slot, behind, front, nowhere, choose_slot, store_entry,
  oversized,
}
use libclogger.Ring.Read.{
  exceeds, Found, entry, skip, nothing, broken, fault as found_fault, check_entry, CopyStatus,
  ReadStatus,
}

-- The ring of `shmmap_buffer_t`, without its locks.
pub record SharedRing : Type 0 where
  pub woffset : ℕ
  pub roffset : ℕ
  pub len : ℕ
  pub buffer : Mem

-- The body under the write lock.
unfoldable pub place : SharedRing → Slot → ℕ → ℕ → List ℕ → WriteStatus × SharedRing
place sb behind a chunksz chunk = (
  written,
  record sb {
    buffer = store_entry sb.buffer (sb.woffset % sb.len) chunksz chunk;
    woffset = normalize_offset (sb.woffset + a) sb.len;
  },
)
place sb front a chunksz chunk =
    let w = sb.woffset % sb.len in
    (
      written,
      record sb {
        buffer = store_entry (bzero sb.buffer w (sb.len - w)) 0 chunksz chunk;
        woffset = a + (1 - sb.roffset / sb.len) * sb.len;
      },
    )
place sb nowhere a chunksz chunk = (again, sb)

-- `shmmap_buffer_write`; `taken`: the write lock is given.
unfoldable pub write : Bool → SharedRing → ℕ → List ℕ → WriteStatus × SharedRing
write taken sb chunksz chunk =
    let a = align_entrysize chunksz in
    if a == 0 || (a == 2 ^ 64 - 1 || oversized a sb.len)
    then (fatal, sb)
    else if taken
    then if leb (2 ^ 63) a
      then (fault, sb)
      else place sb (choose_slot sb.len sb.roffset sb.woffset a) a chunksz chunk
    else (again, sb)

-- The tests that the readers share, at the offsets that they loaded.
unfoldable pub find_entry : Mem → ℕ → ℕ → ℕ → Found
find_entry m l ro wo =
    let wrap = restore_wrap ro wo l in
    let r = ro % l in
    let w = wo % l in
    let hentsz = align_entrysize 0 in
    let size_r = load_word m r in
    let size_0 = load_word m 0 in
    let next = normalize_offset (ro + align_entrysize size_r) l in
    let next_0 = align_entrysize size_0 + wo / l * l in
    if ltb (hentsz + r) (wrap * l + w)
    then if wrap == 1
      then if ltb (hentsz + r) l
        then if size_r == 0 then skip else check_entry r size_r r l next
        else if ltb hentsz w
        then if size_0 == 0 then broken else check_entry 0 size_0 0 w next_0
        else nothing
      else if size_r == 0
      then broken
      else check_entry r size_r r w next
    else nothing

abbrev pub skip_offset : SharedRing → ℕ
skip_offset sb = sb.woffset / sb.len * sb.len

-- The branches of `shmmap_buffer_read_copy` under the lock; `rest` is its call to itself at a zeroed tail.
unfoldable pub copy_found :
    SharedRing → ℕ → CopyStatus × SharedRing → Found → CopyStatus × SharedRing
copy_found sb rdbufsz rest (entry at size next) =
    if exceeds size rdbufsz then (CopyStatus.too_small size, sb) else (
      CopyStatus.copied (load sb.buffer (at + entry_hdrsize) size),
      record sb { roffset = next },
    )
copy_found sb rdbufsz rest skip = rest
copy_found sb rdbufsz rest nothing = (CopyStatus.again, sb)
copy_found sb rdbufsz rest broken = (CopyStatus.fatal, sb)
copy_found sb rdbufsz rest found_fault = (CopyStatus.fault, sb)

-- `taken n`: the read lock is given to the call that has `n` calls to itself left.
unfoldable pub read_copy_fuel : ℕ → (ℕ → Bool) → SharedRing → ℕ → CopyStatus × SharedRing
unfolding copy_found
read_copy_fuel zero taken sb rdbufsz = (CopyStatus.stuck, sb)
read_copy_fuel (suc fuel) taken sb rdbufsz =
    let rest = read_copy_fuel fuel taken (record sb { roffset = skip_offset sb }) rdbufsz in
    if taken fuel
    then copy_found sb rdbufsz rest (find_entry sb.buffer sb.len sb.roffset sb.woffset)
    else (CopyStatus.again, sb)

-- `shmmap_buffer_read_copy`: two calls are enough, a skip leaves both offsets on one lap.
unfoldable pub read_copy : (ℕ → Bool) → SharedRing → ℕ → CopyStatus × SharedRing
unfolding read_copy_fuel
read_copy taken sb rdbufsz = read_copy_fuel 2 taken sb rdbufsz

-- `nextentry_cb` with its `arg`: the entry's bytes to whether it was taken and the new `arg`.
module _ {S : Type 0} (cb : S → List ℕ → Bool × S) where
  -- `__shmmap_buffer_read_internal` behind its tests. At a zeroed tail it calls `shmmap_buffer_read_next`,
  -- whose `pthread_mutex_trylock` finds the lock held by its own thread: 0.
  unfoldable pub read_found : SharedRing → S → Found → ReadStatus × SharedRing × S
  read_found sb s (entry at size next) =
      let (took, s') = cb s (load sb.buffer (at + entry_hdrsize) size) in
      if took
      then (ReadStatus.done, record sb { roffset = next }, s')
      else (ReadStatus.again, sb, s')
  read_found sb s skip = (ReadStatus.again, record sb { roffset = skip_offset sb }, s)
  read_found sb s nothing = (ReadStatus.again, sb, s)
  read_found sb s broken = (ReadStatus.fatal, sb, s)
  read_found sb s found_fault = (ReadStatus.fault, sb, s)

  unfoldable pub read_internal : SharedRing → S → ReadStatus × SharedRing × S
  unfolding read_found
  read_internal sb s = read_found sb s (find_entry sb.buffer sb.len sb.roffset sb.woffset)

  -- `shmmap_buffer_read_next`
  unfoldable pub read_next : Bool → SharedRing → S → ReadStatus × SharedRing × S
  unfolding read_internal
  read_next taken sb s = if taken then read_internal sb s else (ReadStatus.again, sb, s)

  -- the tests on `ret` in the loop of `shmmap_buffer_read_next_batch`; `next_round` is `continue`
  unfoldable pub batch_round :
      (SharedRing → S → ReadStatus × ℕ × SharedRing × S)
      → ℕ
      → ReadStatus × SharedRing × S
      → ReadStatus × ℕ × SharedRing × S
  batch_round next_round num (ReadStatus.done, sb, s) = next_round sb s
  batch_round next_round num (ReadStatus.again, sb, s) = (ReadStatus.done, num, sb, s)
  batch_round next_round num (ReadStatus.fatal, sb, s) = (ReadStatus.fatal, num, sb, s)
  batch_round next_round num (ReadStatus.fault, sb, s) = (ReadStatus.fault, num, sb, s)
  batch_round next_round num (ReadStatus.stuck, sb, s) = (ReadStatus.stuck, num, sb, s)

  -- that loop with `batch` rounds left and `num` entries read, under the lock
  unfoldable pub batch_loop : ℕ → ℕ → SharedRing → S → ReadStatus × ℕ × SharedRing × S
  unfolding batch_round read_internal
  batch_loop zero num sb s = (ReadStatus.done, num, sb, s)
  batch_loop (suc batch) num sb s =
      batch_round (batch_loop batch (num + 1)) num (read_internal sb s)

  -- `done` returns `num`, `fatal` returns -1.
  unfoldable pub read_next_batch : Bool → SharedRing → S → ℕ → ReadStatus × ℕ × SharedRing × S
  unfolding batch_loop
  read_next_batch taken sb s batch =
      if taken then batch_loop batch 0 sb s else (ReadStatus.done, 0, sb, s)
