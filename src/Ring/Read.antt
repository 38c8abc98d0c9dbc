-- ===== src/Ring/Read.antt =====
-- The readers of source/common/ringbufst.h: `ringbufst_read_copy`, `ringbufst_read_next`,
-- `__ringbufst_read_internal` and `ringbufst_read_next_batch`.
use libclogger.Prelude.{
  ℕ, zero, suc, ◌+◌, ◌*◌, ◌/◌, ◌%◌, ◌^◌, Bool, ◌||◌, List, ltb, leb, ◌==◌, if◌then◌else◌,
}
use libclogger.Memory.{Mem, load, load_word}
use libclogger.Ring.{Ring, entry_hdrsize, align_entrysize, restore_wrap, normalize_offset, int_cast}

-- What the tests on the offsets and on the entry's header find: an entry at `at` of `size` bytes
-- with the read offset behind it, a zeroed tail to skip, nothing to read, a broken entry (-1), or a
-- negative entry size (the model does not follow such a run).
pub data Found : Type 0 where
  entry : (at size next : ℕ) → Found
  skip nothing broken fault : Found

-- The entry at `at`, where `room` bytes hold data from `pos` to `limit`.
abbrev pub check_entry : ℕ → ℕ → ℕ → ℕ → ℕ → Found
check_entry at size pos limit next =
    let a = align_entrysize size in
    if leb (2 ^ 63) a then fault else if leb (a + pos) limit then entry at size next else broken

-- The tests that the two readers share, at the offsets that they loaded.
unfoldable pub find_entry : Mem → ℕ → ℕ → ℕ → Found
find_entry m l ro wo =
    let wrap = restore_wrap ro wo l in
    let r = ro % l in
    let w = wo % l in
    let hentsz = align_entrysize 0 in
    let size_r = load_word m r in
    let size_0 = load_word m 0 in
    let next = int_cast (normalize_offset (ro + align_entrysize size_r) l) in
    let next_0 = int_cast (align_entrysize size_0 + wo / l * l) in
    if ltb (hentsz + r) (wrap * l + w)
    then if wrap == 1
      then if ltb (hentsz + r) l
        then if size_r == 0 then skip else check_entry r size_r r l next
        else if ltb hentsz w
        then if size_0 == 0 then broken else check_entry 0 size_0 0 w next_0
        else nothing
      else if size_r == 0
      then broken
      else check_entry r size_r r w next
    else nothing

-- the read offset that skips the tail: the start of the writer's lap
abbrev pub skip_offset : Ring → ℕ
skip_offset rb = int_cast (rb.woffset / rb.len * rb.len)

-- `ringbufst_read_copy`: the size returned with what is in `rdbuf`, 0, or `(size_t)(-1)`.
-- `too_small` returns the size and leaves the entry. `stuck`: the recursion's fuel ran out.
pub data CopyStatus : Type 0 where
  copied : List ℕ → CopyStatus
  too_small : ℕ → CopyStatus
  again fatal fault stuck : CopyStatus

-- `entsize > (ssize_t) rdbufsz`: a `size_t` of 2 ^ 63 or more is negative there, and every entry is larger.
abbrev pub exceeds : ℕ → ℕ → Bool
exceeds size rdbufsz = leb (2 ^ 63) rdbufsz || ltb rdbufsz size

-- The branches under the lock; `rest` is the recursive call at a zeroed tail, made after the lock is
-- left, with the new read offset.
unfoldable pub copy_found : Ring → ℕ → CopyStatus × Ring → Found → CopyStatus × Ring
copy_found rb rdbufsz rest (entry at size next) =
    if exceeds size rdbufsz
    then (too_small size, rb)
    else (copied (load rb.buffer (at + entry_hdrsize) size), record rb { roffset = next })
copy_found rb rdbufsz rest skip = rest
copy_found rb rdbufsz rest nothing = (again, rb)
copy_found rb rdbufsz rest broken = (fatal, rb)
copy_found rb rdbufsz rest fault = (fault, rb)

unfoldable pub read_copy_fuel : ℕ → Ring → ℕ → CopyStatus × Ring
unfolding copy_found
read_copy_fuel zero rb rdbufsz = (stuck, rb)
read_copy_fuel (suc fuel) rb rdbufsz =
    let rest = read_copy_fuel fuel (record rb { roffset = skip_offset rb }) rdbufsz in
    if rb.rlock == 0
    then copy_found rb rdbufsz rest (find_entry rb.buffer rb.len rb.roffset rb.woffset)
    else (again, rb)

-- Two calls are enough: a skip leaves both offsets on one lap.
unfoldable pub read_copy : Ring → ℕ → CopyStatus × Ring
unfolding read_copy_fuel
read_copy rb rdbufsz = read_copy_fuel 2 rb rdbufsz

-- `int`: 1, 0 or -1
pub data ReadStatus : Type 0 where
  done again fatal fault stuck : ReadStatus

-- `nextentry_cb` with its `arg`: the entry's bytes to whether it was taken and the new `arg`.
module _ {S : Type 0} (cb : S → List ℕ → Bool × S) where
  -- The branches behind the tests. `again_read` is the call of `ringbufst_read_next` at a zeroed tail.
  unfoldable pub read_found :
      (Ring → S → ReadStatus × Ring × S) → Ring → S → Found → ReadStatus × Ring × S
  read_found again_read rb s (entry at size next) =
      let (took, s') = cb s (load rb.buffer (at + entry_hdrsize) size) in
      if took then (done, record rb { roffset = next }, s') else (again, rb, s')
  read_found again_read rb s skip = again_read (record rb { roffset = skip_offset rb }) s
  read_found again_read rb s nothing = (again, rb, s)
  read_found again_read rb s broken = (fatal, rb, s)
  read_found again_read rb s fault = (fault, rb, s)

  unfoldable pub read_internal :
      (Ring → S → ReadStatus × Ring × S) → Ring → S → ReadStatus × Ring × S
  unfolding read_found
  read_internal again_read rb s =
      read_found again_read rb s (find_entry rb.buffer rb.len rb.roffset rb.woffset)

  abbrev pub release_rlock : ReadStatus × Ring × S → ReadStatus × Ring × S
  release_rlock (st, rb, s) = (st, record rb { rlock = 0 }, s)

  unfoldable pub read_next_fuel : ℕ → Ring → S → ReadStatus × Ring × S
  unfolding read_internal
  read_next_fuel zero rb s = (stuck, rb, s)
  read_next_fuel (suc fuel) rb s =
      if rb.rlock == 0
      then release_rlock (read_internal (read_next_fuel fuel) (record rb { rlock = 1 }) s)
      else (again, rb, s)

  -- The inner call finds the lock taken by the outer one, so it does not go deeper.
  unfoldable pub read_next : Ring → S → ReadStatus × Ring × S
  unfolding read_next_fuel
  read_next rb s = read_next_fuel 2 rb s

  -- the tests on `ret` in the loop of `ringbufst_read_next_batch`; `next_round` is `continue`
  unfoldable pub batch_round :
      (Ring → S → ReadStatus × ℕ × Ring × S) → ℕ → ReadStatus × Ring × S → ReadStatus × ℕ × Ring × S
  batch_round next_round num (done, rb, s) = next_round rb s
  batch_round next_round num (again, rb, s) = (done, num, rb, s)
  batch_round next_round num (fatal, rb, s) = (fatal, num, rb, s)
  batch_round next_round num (fault, rb, s) = (fault, num, rb, s)
  batch_round next_round num (stuck, rb, s) = (stuck, num, rb, s)

  -- that loop with `batch` rounds left and `num` entries read, under the lock
  unfoldable pub batch_loop : ℕ → ℕ → Ring → S → ReadStatus × ℕ × Ring × S
  unfolding batch_round read_internal read_next_fuel
  batch_loop zero num rb s = (done, num, rb, s)
  batch_loop (suc batch) num rb s =
      batch_round (batch_loop batch (num + 1)) num (read_internal (read_next_fuel 1) rb s)

  -- `done` returns `num`, `fatal` returns -1.
  unfoldable pub read_next_batch : Ring → S → ℕ → ReadStatus × ℕ × Ring × S
  unfolding batch_loop
  read_next_batch rb s batch =
      let (st, num, rb', s') = batch_loop batch 0 (record rb { rlock = 1 }) s in
      if rb.rlock == 0 then (st, num, record rb' { rlock = 0 }, s') else (done, 0, rb, s)
