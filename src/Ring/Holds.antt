-- ===== src/Ring/Holds.antt =====
-- The messages that a ring of source/common/ringbufst.h holds, oldest first: the abstract view.
use libclogger.Prelude.{arith, ◌+◌, ℕ, ◌-◌, ◌*◌, ◌/◌, ◌%◌, ◌^◌, ◌≤◌, ◌<◌, ◌≡◌, ◌≢◌, ◌⊎◌, List, ◌++◌}
use libclogger.Memory.{Mem, load_word}
use libclogger.Ring.{Ring}
use libclogger.Ring.Offsets.{At}
use libclogger.Ring.Content.{Message, Segment}

-- The offsets `ro` and `wo` stand at the positions `r` and `w` of their laps, all in steps of eight
-- bytes, and two laps fit in an `int`.
pub record Frame (l ro wo rlap r wlap w : ℕ) : Type 0 where
  pub read_at : At l ro rlap r
  pub write_at : At l wo wlap w
  pub small : 2 * l ≤ 2 ^ 31
  pub len_eight : l % 8 ≡ 0
  pub r_eight : r % 8 ≡ 0
  pub w_eight : w % 8 ≡ 0

-- On one lap the entries stand between the offsets. On two, the older ones stand from `r` to `b`,
-- the newer ones from 0 to `w`; `b` is the buffer's end, or a zeroed size marks it and there is a
-- newer one.
pub data HoldsAt (m : Mem) (l ro wo : ℕ) (q : List Message) : Type 0 where
  flat : {lap r w : ℕ} → Frame l ro wo lap r lap w → Segment m r w q → HoldsAt m l ro wo q
  wrapped :
      {lap r w : ℕ} (b : ℕ) (xs ys : List Message)
      → Frame l ro wo (1 - lap) r lap w
      → w ≤ r
      → b ≤ l
      → (b ≡ l) ⊎ ((load_word m b ≡ 0) × (0 < w))
      → b % 8 ≡ 0
      → Segment m r b xs
      → Segment m 0 w ys
      → q ≡ xs ++ ys
      → HoldsAt m l ro wo q

-- The ring holds the messages `q`, whoever has its locks.
abbrev pub Holds : Ring → List Message → Type 0
Holds rb q = HoldsAt rb.buffer rb.len rb.roffset rb.woffset q

-- A reader moved its offset from `ro` to `ro'`: on the lap where it was, or over to the writer's.
abbrev pub Advanced : (l wo ro ro' : ℕ) → Type 0
Advanced l wo ro ro' =
    ((ro / l ≡ ro' / l) × (ro % l ≤ ro' % l)) ⊎ ((ro / l ≢ wo / l) × (ro' / l ≡ wo / l))

-- The bytes that hold messages, told by the offsets:
-- on one lap from the read offset to the write offset, on two to the buffer's end and from its start
abbrev pub Used : (l ro wo i : ℕ) → Type 0
Used l ro wo i =
    ((ro / l ≡ wo / l) × (ro % l ≤ i) × (i < wo % l))
    ⊎ ((ro / l ≢ wo / l) × ((ro % l ≤ i) ⊎ (i < wo % l)))

-- The bytes of an entry of `size` bytes at the address `at` are among them.
abbrev pub InUse : (l ro wo at size : ℕ) → Type 0
InUse l ro wo at size = (i : ℕ) → at ≤ i → i < at + 8 + size → (i < l) × Used l ro wo i

pub apart_laps : {l ro wo lap r w : ℕ} → Frame l ro wo (1 - lap) r lap w → ro / l ≢ wo / l
apart_laps fr e = omega (arith, e, fr.read_at.quotient, fr.write_at.quotient, fr.write_at.lap_lt)
