-- ===== src/Ringbuf.antt =====
-- source/common/ringbuf.h: the ring of pointers that many threads share.
pub mod Distance
pub mod Threads
pub mod Invariant
pub mod StepPush
pub mod StepPop
pub mod Linear
pub mod Queue
mod Tests
use libclogger.Prelude.{
  ℕ, ◌+◌, ◌*◌, ◌/◌, ◌%◌, Bool, true, false, Option, none, some, ltb, ◌==◌, if◌then◌else◌,
}

-- `ringbuf_t` with elements of `A`: a null pointer is none, `buffer` is `B[0 .. len)`.
pub record Ringbuf (A : Type 0) : Type 0 where
  pub rlock : ℕ
  pub wlock : ℕ
  pub woffset : ℕ
  pub roffset : ℕ
  pub len : ℕ
  pub buffer : ℕ → Option A

-- `wrap` of `RINGBUF_RESTORE_STATE`
abbrev pub state_wrap : ℕ → ℕ → ℕ → ℕ
state_wrap ro wo l = if ro / l == wo / l then 0 else 1

-- `RINGBUF_NORMALIZE_OFFSET`, below `2 * l`: an `int` for every length
abbrev pub fold_offset : ℕ → ℕ → ℕ
fold_offset ao l = ao / l % 2 * l + ao % l

-- `length` between `RINGBUF_LENGTH_MIN` and `RINGBUF_LENGTH_MAX`; a negative one acts as 0 does.
unfoldable pub limit_length : ℕ → ℕ
limit_length length =
    let low = if ltb length 2 then 2 else length in if ltb 0x01FFFF low then 0x01FFFF else low

-- `L + R - wrap*L - W > 0`
abbrev pub writable : ℕ → ℕ → ℕ → Bool
writable l ro wo = ltb (state_wrap ro wo l * l + wo % l) (l + ro % l)

-- `wrap*L + W - R > 0`
abbrev pub readable : ℕ → ℕ → ℕ → Bool
readable l ro wo = ltb (ro % l) (state_wrap ro wo l * l + wo % l)

module _ {A : Type 0} where
  -- `B[i] = elt`
  abbrev pub assign : (ℕ → Option A) → ℕ → Option A → ℕ → Option A
  assign b i elt j = if j == i then elt else b j

  unfoldable pub init : ℕ → Ringbuf A
  unfolding limit_length
  init length = record {
    rlock = 0;
    wlock = 0;
    woffset = 0;
    roffset = 0;
    len = limit_length length;
    buffer = λ _. none;
  }

  -- `ringbuf_push`: whether it returned 1
  unfoldable pub push : Ringbuf A → A → Bool × Ringbuf A
  push rb elt =
      if rb.wlock == 0
      then if writable rb.len rb.roffset rb.woffset
        then (
          true,
          record rb {
            buffer = assign rb.buffer (rb.woffset % rb.len) (some elt);
            woffset = fold_offset (rb.woffset + 1) rb.len;
          },
        )
        else (false, rb)
      else (false, rb)

  -- `ringbuf_pop`: `*eltp` if it returned 1
  unfoldable pub pop : Ringbuf A → Option (Option A) × Ringbuf A
  pop rb =
      if rb.rlock == 0
      then if readable rb.len rb.roffset rb.woffset
        then (
          some (rb.buffer (rb.roffset % rb.len)),
          record rb {
            buffer = assign rb.buffer (rb.roffset % rb.len) none;
            roffset = fold_offset (rb.roffset + 1) rb.len;
          },
        )
        else (none, rb)
      else (none, rb)
