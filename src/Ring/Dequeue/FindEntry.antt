-- ===== src/Ring/Dequeue/FindEntry.antt =====
-- The tests of the readers of source/common/ringbufst.h, at the positions that they tell apart.
use libclogger.Prelude.{ℕ, ◌+◌, ◌-◌, ◌*◌, ◌%◌, ◌^◌, ◌≤◌, ◌<◌, ◌≡◌, arith, length}
use libclogger.Memory.{Mem, load_word}
use libclogger.Ring.{align_entrysize, normalize_offset, int_cast}
use libclogger.Ring.Offsets.{align_entrysize_bounds, restore_wrap_same, restore_wrap_other}
use libclogger.Ring.Content.{Message, IsEntry}
use libclogger.Ring.Holds.{Frame}
use libclogger.Ring.Read.{entry, skip, nothing, check_entry, find_entry}

check_entry-IsEntry :
    (m : Mem) (at pos limit next : ℕ) (x : Message)
    → IsEntry m at x
    → pos + align_entrysize (length x) ≤ limit
    → limit < 2 ^ 63
    → check_entry at (load_word m at) pos limit next ≡ entry at (length x) next
check_entry-IsEntry m at pos limit next x e fits small =
    rw e.size (ground (arith, align_entrysize_bounds (length x) e.short))

-- The tests on one lap: nothing between equal positions, else the entry at `r`.
module _ (m : Mem) (l ro wo : ℕ) {lap r w : ℕ} (fr : Frame l ro wo lap r lap w) where
  pub find_entry_flat_empty : r ≡ w → find_entry m l ro wo ≡ nothing
  unfolding find_entry
  find_entry_flat_empty h =
      ground (
        arith,
        restore_wrap_same fr.read_at fr.write_at,
        fr.read_at.remainder,
        fr.write_at.remainder,
      )

  pub find_entry_flat :
      (x : Message)
      → IsEntry m r x
      → r + align_entrysize (length x) ≤ w
      → find_entry m l ro wo
        ≡ entry r (length x) (int_cast (normalize_offset (ro + align_entrysize (length x)) l))
  unfolding find_entry
  find_entry_flat x e h =
      let size : load_word m (ro % l) ≡ length x = rw fr.read_at.remainder e.size in
      rw (size, fr.read_at.remainder, fr.write_at.remainder)
        (ground (
          arith,
          restore_wrap_same fr.read_at fr.write_at,
          align_entrysize_bounds (length x) e.short,
          e.nonempty,
          fr.write_at.pos_lt,
          fr.small,
        ))

-- On two laps: the entry at `r`, or what stands at the buffer's start.
module _ (m : Mem) (l ro wo : ℕ) {lap r w : ℕ} (fr : Frame l ro wo (1 - lap) r lap w) where
  pub find_entry_wrapped :
      (x : Message)
      → IsEntry m r x
      → r + align_entrysize (length x) ≤ l
      → find_entry m l ro wo
        ≡ entry r (length x) (int_cast (normalize_offset (ro + align_entrysize (length x)) l))
  unfolding find_entry
  find_entry_wrapped x e h =
      let size : load_word m (ro % l) ≡ length x = rw fr.read_at.remainder e.size in
      rw (size, fr.read_at.remainder, fr.write_at.remainder)
        (ground (
          arith,
          restore_wrap_other fr.read_at fr.write_at,
          align_entrysize_bounds (length x) e.short,
          e.nonempty,
          fr.read_at.pos_lt,
          fr.small,
        ))

  pub find_entry_skip : load_word m r ≡ 0 → r + 8 < l → find_entry m l ro wo ≡ skip
  unfolding find_entry
  find_entry_skip z h =
      let size : load_word m (ro % l) ≡ 0 = rw fr.read_at.remainder z in
      rw (size, fr.read_at.remainder, fr.write_at.remainder)
        (ground (arith, restore_wrap_other fr.read_at fr.write_at))

  pub find_entry_start :
      (x : Message)
      → IsEntry m 0 x
      → r + 8 ≡ l
      → align_entrysize (length x) ≤ w
      → find_entry m l ro wo ≡ entry 0 (length x) (int_cast (align_entrysize (length x) + lap * l))
  unfolding find_entry
  find_entry_start x e h k =
      rw (e.size, fr.read_at.remainder, fr.write_at.remainder)
        (ground (
          arith,
          restore_wrap_other fr.read_at fr.write_at,
          align_entrysize_bounds (length x) e.short,
          e.nonempty,
          fr.write_at.pos_lt,
          fr.write_at.quotient,
          fr.small,
        ))

  pub find_entry_start_empty : w ≡ 0 → r + 8 ≡ l → find_entry m l ro wo ≡ nothing
  unfolding find_entry
  find_entry_start_empty z h = ground (
    arith,
    restore_wrap_other fr.read_at fr.write_at,
    fr.read_at.remainder,
    fr.write_at.remainder,
  )
