-- ===== src/Ring/Sound/Views.antt =====
-- What the invariant of the threads at source/common/ringbufst.h tells a reader: the bytes in use are those that the
-- writer last left, and a skip goes to the writer's lap.
use libclogger.Prelude.{ℕ, ◌*◌, ◌/◌, ◌<◌, ◌≡◌, ◌≢◌, sym, ap, ◌∙◌, inr, List, arith}
use libclogger.Memory.{Mem}
use libclogger.Ring.{restore_wrap, int_cast}
use libclogger.Ring.Content.{Message}
use libclogger.Ring.Holds.{HoldsAt, flat, wrapped, Advanced}
use libclogger.Ring.Write.{front}
use libclogger.Ring.Read.{skip, find_entry}
use libclogger.Ring.Dequeue.{Finds-skip, HoldsAt-Finds}
use libclogger.Ring.Threads.{
  Writer, w_idle, w_locked, w_loaded, w_cleared, w_sized, w_stored, w_moved,
}
use libclogger.Ring.Used.{AgreeUsed}
use libclogger.Ring.Sound.{WriterOk}
use libclogger.Ring.Sound.Place.{prepared-Agree, sized-Agree, stored-Agree}

-- Wherever the writer is, the bytes in used are those that it last left.
pub WriterOk-Agree :
    (base m : Mem) (l ro wo : ℕ) (q : List Message) (w : Writer)
    → HoldsAt base l ro wo q
    → WriterOk base l ro wo m w
    → AgreeUsed base m l ro wo
WriterOk-Agree base m l ro wo q w_idle held e i h u = ap (λ m. m i) (sym e)
WriterOk-Agree base m l ro wo q (w_locked x) held (ok, e) i h u = ap (λ m. m i) (sym e)
WriterOk-Agree base m l ro wo q (w_loaded x ro_old) held (ok, below, adv, e) i h u =
    ap (λ m. m i) (sym e)
WriterOk-Agree base m l ro wo q (w_cleared x wo') held (ok, c, e) i h u =
    prepared-Agree base l ro wo q held x ok front wo' c i h u ∙ ap (λ m. m i) (sym e)
WriterOk-Agree base m l ro wo q (w_sized x at wo') held (slot, ok, c, p, e) i h u =
    sized-Agree base l ro wo q held x ok slot wo' c i h u ∙ ap (λ m. m i) (sym e)
WriterOk-Agree base m l ro wo q (w_stored x wo') held (slot, ok, c, e) i h u =
    stored-Agree base l ro wo q held x ok slot wo' c i h u ∙ ap (λ m. m i) (sym e)
WriterOk-Agree base m l ro wo q w_moved held e i h u = ap (λ m. m i) (sym e)

laps_lt :
    (m : Mem) (l ro wo : ℕ) (q : List Message) → HoldsAt m l ro wo q → (ro / l < 2) × (wo / l < 2)
laps_lt m l ro wo q (flat fr s) = (
  omega (arith, fr.read_at.quotient, fr.read_at.lap_lt),
  omega (arith, fr.write_at.quotient, fr.write_at.lap_lt),
)
laps_lt m l ro wo q (wrapped b xs ys fr h bound gap eight older newer e) = (
  omega (arith, fr.read_at.quotient, fr.read_at.lap_lt),
  omega (arith, fr.write_at.quotient, fr.write_at.lap_lt),
)

-- A tail to skip tells the lap of the write offset, at an old one as at the current one.
pub skip_lap :
    (m : Mem) (l ro wo_old wo : ℕ) (seen q : List Message)
    → HoldsAt m l ro wo_old seen
    → HoldsAt m l ro wo q
    → find_entry m l ro wo_old ≡ skip
    → find_entry m l ro wo ≡ skip
    → wo_old / l ≡ wo / l
skip_lap m l ro wo_old wo seen q old now e f =
    let wrap_old : restore_wrap ro wo_old l ≡ 1 =
      (Finds-skip m l ro wo_old seen (rw e at (HoldsAt-Finds m l ro wo_old seen old))).1 in
    let wrap_now : restore_wrap ro wo l ≡ 1 =
      (Finds-skip m l ro wo q (rw f at (HoldsAt-Finds m l ro wo q now))).1 in
    let below_old = laps_lt m l ro wo_old seen old in
    let below_now = laps_lt m l ro wo q now in
    ground (arith, wrap_old, wrap_now, below_old, below_now)

pub skip-Advanced :
    (l ro wo : ℕ)
    → let ro' = int_cast (wo / l * l) in
      restore_wrap ro wo l ≡ 1 → restore_wrap ro' wo l ≡ 0 → Advanced l wo ro ro'
skip-Advanced l ro wo h k = inr (apart, ground (arith, k))
  where
    apart : ro / l ≢ wo / l
    apart e = ground (arith, e, h)
