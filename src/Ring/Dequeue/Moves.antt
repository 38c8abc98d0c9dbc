-- ===== src/Ring/Dequeue/Moves.antt =====
-- What a reader of source/common/ringbufst.h finds, told by the offsets: where its move goes, and that the entry
-- stands in the bytes in use.
use libclogger.Prelude.{◌≡◌, ℕ, ◌+◌, ◌-◌, ◌^◌, ◌≤◌, ◌<◌, inl, inr, arith, length}
use libclogger.Ring.{align_entrysize, restore_wrap}
use libclogger.Ring.Offsets.{At, align_entrysize_bounds}
use libclogger.Ring.Content.{Message}
use libclogger.Ring.Holds.{Frame, Advanced, InUse, apart_laps}

-- The offset moved on within its lap, or to the writer's.
pub within_lap :
    (wo : ℕ) {l ro ro' lap r r' : ℕ}
    → At l ro lap r
    → At l ro' lap r'
    → r ≤ r'
    → Advanced l wo ro ro'
within_lap wo at at' h =
    inl (omega (arith, at.quotient, at'.quotient), omega (arith, at.remainder, at'.remainder))

pub over_lap :
    {l ro wo ro' lap r w p : ℕ}
    → Frame l ro wo (1 - lap) r lap w
    → At l ro' lap p
    → Advanced l wo ro ro'
over_lap fr at = inr (
  λ e. omega (arith, e, fr.read_at.quotient, fr.write_at.quotient, fr.write_at.lap_lt),
  omega (arith, at.quotient, fr.write_at.quotient),
)

pub flat-InUse :
    {l ro wo lap r w : ℕ} (x : Message)
    → Frame l ro wo lap r lap w
    → length x < 2 ^ 62
    → r + align_entrysize (length x) ≤ w
    → InUse l ro wo r (length x)
flat-InUse x fr short room i h k =
    let bounds = align_entrysize_bounds (length x) short in
    (
      omega (arith, k, room, bounds, fr.write_at.pos_lt),
      inl (
        omega (arith, fr.read_at.quotient, fr.write_at.quotient),
        omega (arith, h, fr.read_at.remainder),
        omega (arith, k, room, bounds, fr.write_at.remainder),
      ),
    )

pub older-InUse :
    {l ro wo lap r w : ℕ} (x : Message)
    → Frame l ro wo (1 - lap) r lap w
    → length x < 2 ^ 62
    → r + align_entrysize (length x) ≤ l
    → InUse l ro wo r (length x)
older-InUse x fr short room i h k = (
  omega (arith, k, room, align_entrysize_bounds (length x) short),
  inr (apart_laps fr, inl (omega (arith, h, fr.read_at.remainder))),
)

pub newer-InUse :
    {l ro wo lap r w : ℕ} (x : Message)
    → Frame l ro wo (1 - lap) r lap w
    → length x < 2 ^ 62
    → align_entrysize (length x) ≤ w
    → InUse l ro wo 0 (length x)
newer-InUse x fr short room i h k =
    let bounds = align_entrysize_bounds (length x) short in
    (
      omega (arith, k, room, bounds, fr.write_at.pos_lt),
      inr (apart_laps fr, inr (omega (arith, k, room, bounds, fr.write_at.remainder))),
    )

pub Advanced-wrap :
    (l wo ro ro' : ℕ) → Advanced l wo ro ro' → restore_wrap ro' wo l ≡ 1 → restore_wrap ro wo l ≡ 1
Advanced-wrap l wo ro ro' (inl (e, h)) w = ground (arith, e, w)
Advanced-wrap l wo ro ro' (inr (e, h)) w = ground (arith, h, w)
