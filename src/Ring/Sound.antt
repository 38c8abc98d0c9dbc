-- ===== src/Ring/Sound.antt =====
-- What holds of the ring of source/common/ringbufst.h whenever a thread stands between two accesses of it, with
-- one thread inside the writer and one inside the reader at most.
pub mod Place
pub mod Publish
pub mod Writing
pub mod Reading
pub mod Views
use libclogger.Prelude.{
  ℕ, ◌+◌, ◌-◌, ◌*◌, ◌/◌, ◌%◌, ◌^◌, ◌≤◌, ◌<◌, ◌≡◌, ◌⊎◌, List, [], ◌∷◌, ◌++◌, arith, length,
}
use libclogger.Memory.{load, Mem, store_word, bzero}
use libclogger.Ring.{Ring, align_entrysize}
use libclogger.Ring.Content.{Message}
use libclogger.Ring.Holds.{InUse, HoldsAt, Advanced}
use libclogger.Ring.Write.{Slot, behind, front, nowhere, choose_slot, store_entry}
use libclogger.Ring.Threads.{
  Writer, w_idle, w_locked, w_loaded, w_cleared, w_sized, w_stored, w_moved, Reader, r_idle,
  r_locked, r_loaded, r_found, r_copied, r_skipping, r_moved, r_failed, System, Turn, call_write,
  go_write, call_read, go_read, next_woffset,
}

-- A message that is not empty and of less than 2 ^ 62 bytes.
abbrev pub Sendable : Message → Type 0
Sendable x = (0 < length x) × (length x < 2 ^ 62)

abbrev pub AllSendable : List Turn → Type 0
AllSendable [] = Unit {0}
AllSendable (call_write x ∷ ts) = Sendable x × AllSendable ts
AllSendable (go_write ∷ ts) = AllSendable ts
AllSendable (call_read n ∷ ts) = AllSendable ts
AllSendable (go_read ∷ ts) = AllSendable ts

-- the memory before the entry's own stores
abbrev pub prepared : Mem → (l wo : ℕ) → Slot → Mem
prepared m l wo behind = m
prepared m l wo front = bzero m (wo % l) (l - wo % l)
prepared m l wo nowhere = m

abbrev pub slot_address : (l wo : ℕ) → Slot → ℕ
slot_address l wo behind = wo % l
slot_address l wo front = 0
slot_address l wo nowhere = 0

abbrev pub Placed : Slot → Type 0
Placed behind = Unit {0}
Placed front = Unit {0}
Placed nowhere = ⊥

-- The tests on the current offsets choose this slot and the write offset `wo'` behind it.
pub record Chosen (l ro wo : ℕ) (x : Message) (slot : Slot) (wo' : ℕ) : Type 0 where
  pub choice : choose_slot l ro wo (align_entrysize (length x)) ≡ slot
  pub found : Placed slot
  pub offset : wo' ≡ next_woffset l ro wo (align_entrysize (length x)) slot

-- The memory `m` is `base`, as the writer last left it, with the stores made since. The read offset that the
-- writer loaded is behind the current one.
abbrev pub WriterOk : Mem → (l ro wo : ℕ) → Mem → Writer → Type 0
WriterOk base l ro wo m w_idle = m ≡ base
WriterOk base l ro wo m (w_locked x) = Sendable x × (m ≡ base)
WriterOk base l ro wo m (w_loaded x ro_old) =
    Sendable x × (ro_old < 2 * l) × Advanced l wo ro_old ro × (m ≡ base)
WriterOk base l ro wo m (w_cleared x wo') =
    Sendable x × Chosen l ro wo x front wo' × (m ≡ prepared base l wo front)
WriterOk base l ro wo m (w_sized x at wo') =
    (slot : Slot) × Sendable x
    × Chosen l ro wo x slot wo'
    × (at ≡ slot_address l wo slot)
    × (m ≡ store_word (prepared base l wo slot) (slot_address l wo slot) (length x))
WriterOk base l ro wo m (w_stored x wo') =
    (slot : Slot) × Sendable x
    × Chosen l ro wo x slot wo'
    × (m ≡ store_entry (prepared base l wo slot) (slot_address l wo slot) (length x) x)
WriterOk base l ro wo m w_moved = m ≡ base

-- The reader has a view of the first messages of the queue, or has found or copied the first one, or is before a skip that
-- leaves the queue.
abbrev pub ReaderOk : Mem → (l ro wo : ℕ) → List Message → Reader → Type 0
ReaderOk base l ro wo q r_idle = Unit {0}
ReaderOk base l ro wo q (r_locked n) = Unit {0}
ReaderOk base l ro wo q (r_loaded n wo_old) =
    (seen : List Message) × (rest : List Message) × (q ≡ seen ++ rest)
    × HoldsAt base l ro wo_old seen
ReaderOk base l ro wo q (r_found at size next) =
    (rest : List Message) × (q ≡ load base (at + 8) size ∷ rest)
    × HoldsAt base l next wo rest
    × Advanced l wo ro next
    × InUse l ro wo at size
ReaderOk base l ro wo q (r_copied x next) =
    (rest : List Message) × (q ≡ x ∷ rest) × HoldsAt base l next wo rest × Advanced l wo ro next
ReaderOk base l ro wo q (r_skipping next) = HoldsAt base l next wo q × Advanced l wo ro next
ReaderOk base l ro wo q r_moved = Unit {0}
ReaderOk base l ro wo q r_failed = ⊥

-- A thread that is inside has the lock.
abbrev pub WriterLocks : Writer → ℕ → Type 0
WriterLocks w_idle lock = Unit {0}
WriterLocks _ lock = lock ≡ 1

abbrev pub ReaderLocks : Reader → ℕ → Type 0
ReaderLocks r_idle lock = Unit {0}
ReaderLocks _ lock = lock ≡ 1

-- Memory as the writer last left it holds the queue; what was there at the start and what was written is what
-- was copied and, behind it, the queue.
pub record Sound (first : List Message) (s : System) : Type 0 where
  pub base : Mem
  pub queue : List Message
  pub holds : HoldsAt base s.ring.len s.ring.roffset s.ring.woffset queue
  pub writer_ok : WriterOk base s.ring.len s.ring.roffset s.ring.woffset s.ring.buffer s.writer
  pub reader_ok : ReaderOk base s.ring.len s.ring.roffset s.ring.woffset queue s.reader
  pub writer_locks : WriterLocks s.writer s.ring.wlock
  pub reader_locks : ReaderLocks s.reader s.ring.rlock
  pub history : first ++ s.written ≡ s.copied ++ queue
