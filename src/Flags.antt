-- ===== src/Flags.antt =====
-- source/common/ffs64.h: the bits of 64-bit flags, and runs of set bits in an array of flags. Offsets of
-- bits that the source counts from 1 are counted from 1 here.
pub mod Next
pub mod Runs
pub mod Round
pub mod Find
pub mod Mask
pub mod Splice
pub mod Fallback
mod Tests
use libclogger.Prelude.{
  ℕ, zero, suc, ◌+◌, ◌-◌, ◌*◌, ◌/◌, ◌%◌, ◌^◌, Bool, true, false, Option, none, some, List, [], ◌∷◌,
  length, ltb, leb, ◌==◌, if◌then◌else◌,
}
use libclogger.Bits.{shr, shl, bit_and, bit_or}

-- `FFS64_MAX`
abbrev pub flag_max : ℕ
flag_max = 2 ^ 64 - 1

-- `FFS64_masks_table`
unfoldable pub masks_table : List ℕ
masks_table =
    0x0 ∷ 0x1 ∷ 0x3 ∷ 0x7 ∷ 0xF ∷ 0x1F ∷ 0x3F ∷ 0x7F ∷ 0xFF ∷ 0x1FF ∷ 0x3FF ∷ 0x7FF ∷ 0xFFF ∷ 0x1FFF
    ∷ 0x3FFF ∷ 0x7FFF ∷ 0xFFFF ∷ 0x1FFFF ∷ 0x3FFFF ∷ 0x7FFFF ∷ 0xFFFFF ∷ 0x1FFFFF ∷ 0x3FFFFF
    ∷ 0x7FFFFF ∷ 0xFFFFFF ∷ 0x1FFFFFF ∷ 0x3FFFFFF ∷ 0x7FFFFFF ∷ 0xFFFFFFF ∷ 0x1FFFFFFF ∷ 0x3FFFFFFF
    ∷ 0x7FFFFFFF ∷ 0xFFFFFFFF ∷ 0x1FFFFFFFF ∷ 0x3FFFFFFFF ∷ 0x7FFFFFFFF ∷ 0xFFFFFFFFF ∷ 0x1FFFFFFFFF
    ∷ 0x3FFFFFFFFF ∷ 0x7FFFFFFFFF ∷ 0xFFFFFFFFFF ∷ 0x1FFFFFFFFFF ∷ 0x3FFFFFFFFFF ∷ 0x7FFFFFFFFFF
    ∷ 0xFFFFFFFFFFF ∷ 0x1FFFFFFFFFFF ∷ 0x3FFFFFFFFFFF ∷ 0x7FFFFFFFFFFF ∷ 0xFFFFFFFFFFFF
    ∷ 0x1FFFFFFFFFFFF ∷ 0x3FFFFFFFFFFFF ∷ 0x7FFFFFFFFFFFF ∷ 0xFFFFFFFFFFFFF ∷ 0x1FFFFFFFFFFFFF
    ∷ 0x3FFFFFFFFFFFFF ∷ 0x7FFFFFFFFFFFFF ∷ 0xFFFFFFFFFFFFFF ∷ 0x1FFFFFFFFFFFFFF ∷ 0x3FFFFFFFFFFFFFF
    ∷ 0x7FFFFFFFFFFFFFF ∷ 0xFFFFFFFFFFFFFFF ∷ 0x1FFFFFFFFFFFFFFF ∷ 0x3FFFFFFFFFFFFFFF
    ∷ 0x7FFFFFFFFFFFFFFF ∷ 0xFFFFFFFFFFFFFFFF ∷ []

-- the entry of a table, 0 behind its end
unfoldable pub entry_at : List ℕ → ℕ → ℕ
entry_at [] i = 0
entry_at (x ∷ xs) zero = x
entry_at (x ∷ xs) (suc i) = entry_at xs i

-- `FFS64_LeftMask`
unfoldable pub left_mask : ℕ → ℕ → ℕ
left_mask offset start = shl (entry_at masks_table offset) start % 2 ^ 64

-- the table that finds the place of a single bit, for compilers that have no such instruction
unfoldable pub debruijn64_table : List ℕ
debruijn64_table =
    0 ∷ 1 ∷ 48 ∷ 2 ∷ 57 ∷ 49 ∷ 28 ∷ 3 ∷ 61 ∷ 58 ∷ 50 ∷ 42 ∷ 38 ∷ 29 ∷ 17 ∷ 4 ∷ 62 ∷ 55 ∷ 59 ∷ 36
    ∷ 53 ∷ 51 ∷ 43 ∷ 22 ∷ 45 ∷ 39 ∷ 33 ∷ 30 ∷ 24 ∷ 18 ∷ 12 ∷ 5 ∷ 63 ∷ 47 ∷ 56 ∷ 27 ∷ 60 ∷ 41 ∷ 37
    ∷ 16 ∷ 54 ∷ 35 ∷ 52 ∷ 21 ∷ 44 ∷ 32 ∷ 23 ∷ 11 ∷ 46 ∷ 26 ∷ 40 ∷ 15 ∷ 34 ∷ 20 ∷ 31 ∷ 10 ∷ 25 ∷ 14
    ∷ 19 ∷ 9 ∷ 13 ∷ 8 ∷ 7 ∷ 6 ∷ []

-- the index of the table for a single bit
unfoldable pub debruijn_index : ℕ → ℕ
debruijn_index lowest = lowest * 0x03F79D71B4CB0A89 % 2 ^ 64 / 2 ^ 58

-- the last branch of `FFS64_first_setbit`: `flag & (~flag + 1)` keeps the lowest bit
unfoldable pub first_setbit_fallback : ℕ → ℕ
unfolding debruijn_index
first_setbit_fallback flag =
    let lowest = bit_and flag ((flag_max - flag + 1) % 2 ^ 64) in
    entry_at debruijn64_table (debruijn_index lowest) + 1

-- what the loop of `FFS64_flags_find_setbits` returns: the flag's index and the bit's offset in it, or 0.
-- `stuck`: the loop's fuel ran out.
pub data Search : Type 0 where
  found : ℕ → ℕ → Search
  absent stuck : Search

-- One round of that loop: it returns; it goes to the next flag, with the bits that remain and the
-- start of the run; or it stays and goes on at a bit.
pub data Outcome : Type 0 where
  halt : Search → Outcome
  next_flag : ℕ → Option (ℕ × ℕ) → Outcome
  stay : ℕ → ℕ → Option (ℕ × ℕ) → Outcome

-- `__builtin_ffsll`, the place of the lowest set bit
module _ (ffsll : ℕ → ℕ) where
  unfoldable pub first_setbit : ℕ → ℕ
  first_setbit flag = if flag == 0 then 0 else if flag == flag_max then 1 else ffsll flag

  unfoldable pub next_setbit : ℕ → ℕ → ℕ
  next_setbit flag startbit =
      let start0 = startbit - 1 in
      let pos = first_setbit (shr flag start0) in
      if flag == 0
      then 0
      else if flag == flag_max
      then startbit
      else if pos == 0
      then 0
      else pos + start0

  unfoldable pub next_unsetbit : ℕ → ℕ → ℕ
  next_unsetbit flag startbit =
      let start0 = startbit - 1 in
      let inverted = flag_max - flag in
      let pos = first_setbit (shr inverted start0) in
      if flag == flag_max then 0 else if pos == 0 then 0 else pos + start0

-- The bits that remain and the start of the run, at a set bit `s` of flag `k`: a run that does not go
-- on at the first bit starts anew.
unfoldable pub start_run : ℕ → ℕ → ℕ → ℕ → Option (ℕ × ℕ) → ℕ × ℕ × ℕ
start_run bits_count k s remaining none = (bits_count, k, s)
start_run bits_count k s remaining (some (fk, fo)) =
    if s == 1 then (remaining, fk, fo) else (bits_count, k, s)

-- the tests behind the start of the run, at the clear bit `e` or with none behind `s`
unfoldable pub extend_run : ℕ → ℕ → ℕ → ℕ × ℕ × ℕ → Outcome
extend_run bits_count s e (remaining, fk, fo) =
    let available = if e == 0 then 64 - s + 1 else e - s in
    if remaining == 1
    then halt (found fk fo)
    else if s == 64
    then next_flag (remaining - 1) (some (fk, fo))
    else if leb remaining available
    then halt (found fk fo)
    else if e == 0
    then next_flag (remaining - available) (some (fk, fo))
    else stay e bits_count none

unfoldable pub follow :
    (ℕ → Option (ℕ × ℕ) → Search) → (ℕ → ℕ → Option (ℕ × ℕ) → Search) → Outcome → Search
follow on_next on_stay (halt result) = result
follow on_next on_stay (next_flag remaining first) = on_next remaining first
follow on_next on_stay (stay start remaining first) = on_stay start remaining first

module _ (ffsll : ℕ → ℕ) where
  unfoldable pub search_round : ℕ → ℕ → ℕ → ℕ → ℕ → Option (ℕ × ℕ) → Outcome
  search_round bits_count flag k start remaining first =
      let s = next_setbit ffsll flag start in
      if s == 0
      then next_flag bits_count none
      else extend_run bits_count s (next_unsetbit ffsll flag (s + 1))
          (start_run bits_count k s remaining first)

  -- the loop, at bit `start` of the flag `k`, the first of the flags that are left
  unfoldable pub find_loop : ℕ → ℕ → List ℕ → ℕ → ℕ → ℕ → Option (ℕ × ℕ) → Search
  find_loop zero bits_count flags k start remaining first = stuck
  find_loop (suc fuel) bits_count [] k start remaining first = absent
  find_loop (suc fuel) bits_count (flag ∷ flags) k start remaining first =
      let rest =
        follow (find_loop fuel bits_count flags (k + 1) 1)
          (find_loop fuel bits_count (flag ∷ flags) k)
          (search_round bits_count flag k start remaining first) in
      if remaining == 0 then absent else rest

  -- `FFS64_flags_find_setbits`: a round goes to a later bit or to the next flag.
  unfoldable pub find_setbits : List ℕ → ℕ → Search
  find_setbits flags bits_count =
      find_loop (65 * length flags + 1) bits_count flags 0 1 bits_count none

-- the word that one round of `FFS64_flags_mask_bits` writes
unfoldable pub mask_word : Bool → ℕ → ℕ → ℕ → ℕ
mask_word true flag bit_offset start = bit_or flag (left_mask bit_offset start)
mask_word false flag bit_offset start = bit_and flag (flag_max - left_mask bit_offset start)

-- `FFS64_flags_mask_bits`, from the flag that it is given. Behind the flags there is nothing to write.
unfoldable pub mask_bits : List ℕ → ℕ → ℕ → Bool → List ℕ
mask_bits [] start bit_count is_set = []
mask_bits (flag ∷ flags) start bit_count is_set =
    let bit_offset = if ltb bit_count (64 - start) then bit_count else 64 - start in
    let rest = mask_bits flags 0 (bit_count - bit_offset) is_set in
    if bit_count == 0
    then flag ∷ flags
    else if bit_count - bit_offset == 0
    then mask_word is_set flag bit_offset start ∷ flags
    else mask_word is_set flag bit_offset start ∷ rest
