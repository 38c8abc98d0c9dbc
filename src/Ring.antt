-- ===== src/Ring.antt =====
-- source/common/ringbufst.h: the ring buffer in static memory between the threads that log and the
-- thread that writes. Offsets run over two laps of the buffer, so that equal positions on different
-- laps tell a full buffer from an empty one.
--
-- A macro or function of the file is the definition of the same name here. `int` offsets are
-- naturals below 2 ^ 31; the casts to `int` keep the low 32 bits.
pub mod Write
pub mod Read
pub mod Offsets
pub mod Content
pub mod Holds
pub mod Enqueue
pub mod Dequeue
pub mod ReadCopy
pub mod ReadNext
pub mod ReadBatch
pub mod Capacity
pub mod Fifo
pub mod Threads
pub mod Views
pub mod Stale
pub mod Used
pub mod Sound
pub mod Interleave
pub mod Alone
pub mod AloneRead
mod Tests
mod ThreadTests
use libclogger.Prelude.{
  ℕ, ◌+◌, ◌-◌, ◌*◌, ◌/◌, ◌%◌, ◌^◌, Option, none, some, ltb, ◌==◌, if◌then◌else◌,
}
use libclogger.Memory.{Mem}

-- `ring_buffer_st`: the locks are 0 or 1, `buffer` is `Buffer[0 .. length)`.
pub record Ring : Type 0 where
  pub rlock : ℕ
  pub wlock : ℕ
  pub woffset : ℕ
  pub roffset : ℕ
  pub len : ℕ
  pub buffer : Mem

abbrev pub length_min : ℕ
length_min = 2

abbrev pub length_max : ℕ
length_max = 0x01FFFF

abbrev pub page_size : ℕ
page_size = 4096

-- `sizeof(ringbuf_entry_st)`, one `size_t`
abbrev pub entry_hdrsize : ℕ
entry_hdrsize = 8

-- `memapi_align_bsize`, in `size_t` arithmetic
abbrev pub align_bsize : ℕ → ℕ → ℕ
align_bsize bsz alignsize = (bsz + alignsize - 1) % 2 ^ 64 / alignsize * alignsize

abbrev pub align_pagesize : ℕ → ℕ
align_pagesize fsz = align_bsize fsz page_size

abbrev pub align_entrysize : ℕ → ℕ
align_entrysize chunksz = align_bsize ((chunksz + entry_hdrsize) % 2 ^ 64) entry_hdrsize

-- 0 if both offsets are on one lap, else 1
abbrev pub restore_wrap : ℕ → ℕ → ℕ → ℕ
restore_wrap ro wo l = if ro / l == wo / l then 0 else 1

abbrev pub normalize_offset : ℕ → ℕ → ℕ
normalize_offset ao l = ao / l % 2 * l + ao % l

-- `(int) offset`
abbrev pub int_cast : ℕ → ℕ
int_cast offset = offset % 2 ^ 32

pub clamp_length : ℕ → ℕ
clamp_length length =
    let low = if ltb length length_min then length_min else length in
    if ltb length_max low then length_max else low

-- `none`: the product `eltsizemax * length` of two `int`s overflows, which C leaves undefined.
-- The memory is zeroed by `mem_alloc_zero`. A negative `length` acts as 0 does.
unfoldable pub init : ℕ → ℕ → Option Ring
unfolding clamp_length
init length eltsizemax =
    let bytes = eltsizemax * clamp_length length in
    if ltb (2 ^ 31 - 1) bytes
    then none
    else some (record {
      rlock = 0;
      wlock = 0;
      woffset = 0;
      roffset = 0;
      len = align_pagesize bytes;
      buffer = λ _. 0;
    })
