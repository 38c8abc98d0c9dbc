-- ===== src/Flags/Tests.antt =====
-- Runs of source/common/ffs64.h on small arrays of flags, and its theorems at concrete inputs.
use libclogger.Prelude.{◌≡◌, refl, [], ◌∷◌, arith}
use libclogger.Bits.{shr}
use libclogger.Flags.{
  first_setbit, next_setbit, next_unsetbit, first_setbit_fallback, found, absent, find_setbits,
  start_run, extend_run, follow, search_round, find_loop, debruijn_index, debruijn64_table,
  entry_at,
}
use libclogger.Flags.Next.{Lowest}
use libclogger.Flags.Round.{FirstRun}
use libclogger.Flags.Find.{bit_at, find_setbits-FirstRun}
use libclogger.Flags.Fallback.{first_setbit_fallback-Lowest}

-- the example of the source's comment: 4 + 8 bits that go on over a border, and 3 that do not
run_over_border :
    find_setbits first_setbit_fallback (0xF000000000000000 ∷ 0xFF ∷ 0x7 ∷ []) 12 ≡ found 0 61
unfolding find_setbits find_loop search_round follow start_run extend_run next_setbit next_unsetbit
    first_setbit first_setbit_fallback shr debruijn_index debruijn64_table entry_at
run_over_border = refl

no_run : find_setbits first_setbit_fallback (0xF000000000000000 ∷ 0xFF ∷ 0x7 ∷ []) 13 ≡ absent
unfolding find_setbits find_loop search_round follow start_run extend_run next_setbit next_unsetbit
    first_setbit first_setbit_fallback shr debruijn_index debruijn64_table entry_at
no_run = refl

first_setbit_fallback-Lowest_example : Lowest 40 (first_setbit_fallback 40)
first_setbit_fallback-Lowest_example = first_setbit_fallback-Lowest 40 (omega arith) (omega arith)

find_setbits-FirstRun_example :
    FirstRun
      (bit_at (0xF000000000000000 ∷ 0xFF ∷ []))
      12
      (find_setbits first_setbit_fallback (0xF000000000000000 ∷ 0xFF ∷ []) 12)
find_setbits-FirstRun_example =
    find_setbits-FirstRun first_setbit_fallback first_setbit_fallback-Lowest
      (0xF000000000000000 ∷ 0xFF ∷ []) 12 (omega arith) (omega arith, (omega arith, tt))
