-- ===== src/Ring/Write.antt =====
-- `ringbufst_write` of source/common/ringbufst.h.
use libclogger.Prelude.{
  ℕ, ◌+◌, ◌-◌, ◌*◌, ◌/◌, ◌%◌, ◌^◌, Bool, ◌||◌, ◌&&◌, List, ltb, leb, ◌==◌, if◌then◌else◌,
}
use libclogger.Memory.{Mem, store, store_word, bzero}
use libclogger.Ring.{Ring, entry_hdrsize, align_entrysize, restore_wrap, normalize_offset, int_cast}

-- The `int` that is returned: -1, 0 or 1. `fault` stands for a run on a negative entry size, which
-- the first guard lets through; the model does not follow such a run.
pub data WriteStatus : Type 0 where
  fatal again written fault : WriteStatus

-- where the entry goes: behind the last one, at the buffer's start, or nowhere
pub data Slot : Type 0 where
  behind front nowhere : Slot

-- The tests on the offsets, `a` the aligned size of the entry. A difference of the source is
-- written as a sum on the other side: its `ssize_t` may be negative.
unfoldable pub choose_slot : ℕ → ℕ → ℕ → ℕ → Slot
choose_slot l ro wo a =
    let wrap = restore_wrap ro wo l in
    let r = ro % l in
    let w = wo % l in
    if leb (a + (wrap * l + w)) (l + r)
    then if wrap == 1
      then behind
      else if leb (a + w) l
      then behind
      else if leb a r
      then front
      else nowhere
    else nowhere

-- `entry->size = chunksz; write_cb(entry->chunk, …)`: the callback stores the bytes `chunk`.
unfoldable pub store_entry : Mem → ℕ → ℕ → List ℕ → Mem
store_entry m at chunksz chunk = store (store_word m at chunksz) (at + entry_hdrsize) chunk

-- The body under the write lock, and the new write offset. The lap of the read offset is 0 or 1.
unfoldable pub place : Ring → Slot → ℕ → ℕ → List ℕ → WriteStatus × Ring
place rb behind a chunksz chunk = (
  written,
  record rb {
    buffer = store_entry rb.buffer (rb.woffset % rb.len) chunksz chunk;
    woffset = int_cast (normalize_offset (rb.woffset + a) rb.len);
  },
)
place rb front a chunksz chunk =
    let w = rb.woffset % rb.len in
    (
      written,
      record rb {
        buffer = store_entry (bzero rb.buffer w (rb.len - w)) 0 chunksz chunk;
        woffset = int_cast (a + (1 - rb.roffset / rb.len) * rb.len);
      },
    )
place rb nowhere a chunksz chunk = (again, rb)

-- `AENTSZ > L / HDRSIZE`, where `AENTSZ` is a `size_t` read as `ssize_t`
abbrev pub oversized : ℕ → ℕ → Bool
oversized a l = ltb a (2 ^ 63) && ltb (l / entry_hdrsize) a

-- The lock is taken and left within the call: a held lock turns the call away.
unfoldable pub write : Ring → ℕ → List ℕ → WriteStatus × Ring
write rb chunksz chunk =
    let a = align_entrysize chunksz in
    if a == 0 || (a == 2 ^ 64 - 1 || oversized a rb.len)
    then (fatal, rb)
    else if rb.wlock == 0
    then if leb (2 ^ 63) a
      then (fault, rb)
      else place rb (choose_slot rb.len rb.roffset rb.woffset a) a chunksz chunk
    else (again, rb)
