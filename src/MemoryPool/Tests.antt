-- ===== src/MemoryPool/Tests.antt =====
-- Pools of source/common/membuff.c in use, and the theorems on them at concrete inputs.
use mathlib.Core.Path.{subst}
use libclogger.Prelude.{ℕ, ◌+◌, ◌*◌, ◌≤◌, ◌≡◌, refl, true, Option, none, some, [], ◌∷◌, arith}
use libclogger.Bits.{ones, shr}
use libclogger.Flags.{
  first_setbit_fallback, find_setbits, find_loop, search_round, follow, start_run, extend_run,
  next_setbit, next_unsetbit, first_setbit, debruijn_index, debruijn64_table, entry_at,
}
use libclogger.Flags.Fallback.{first_setbit_fallback-Lowest}
use libclogger.MemoryPool.{
  Pool, header_size, align_up, new_pool, pool_create, needed_blocks, take_blocks, alloc, free,
}
use libclogger.MemoryPool.Live.{here}
use libclogger.MemoryPool.Held.{Held, free-Removed}
use libclogger.MemoryPool.Alloc.{Allocated, alloc-Allocated}
use libclogger.MemoryPool.Room.{pool_create-Created, alloc-fits}

-- a pool of 64 blocks of 256 bytes at the address 1
abbrev pool : Pool
pool = new_pool 1 256 1

made : pool_create 1 200 10 ≡ some pool
unfolding pool_create align_up
made = refl

pool-Held : Held pool []
unfolding pool_create align_up
pool-Held = (pool_create-Created 1 200 10 (omega arith) (omega arith)).0

-- the pool after a buffer of 500 bytes was returned
abbrev one_given : Pool
one_given = (alloc first_setbit_fallback pool 500).1

-- 500 bytes and the header are three blocks of 256 bytes
three_blocks : needed_blocks pool 500 ≡ 3
unfolding needed_blocks align_up
three_blocks = refl

alloc-Allocated_example :
    Allocated pool [] (needed_blocks pool 500) (alloc first_setbit_fallback pool 500)
alloc-Allocated_example =
    alloc-Allocated first_setbit_fallback first_setbit_fallback-Lowest pool [] 500 pool-Held

first_block : (alloc first_setbit_fallback pool 500).0 ≡ some 0
unfolding alloc take_blocks needed_blocks align_up find_setbits find_loop search_round follow
    start_run extend_run next_setbit next_unsetbit first_setbit first_setbit_fallback shr
    debruijn_index debruijn64_table entry_at
first_block = refl

-- the allocation as it is computed
one_given-Held : Held one_given ((0, 3) ∷ [])
one_given-Held = held (alloc first_setbit_fallback pool 500) alloc-Allocated_example first_block
  where
    held :
        (result : Option ℕ × Pool)
        → Allocated pool [] (needed_blocks pool 500) result
        → result.0 ≡ some 0
        → Held result.1 ((0, 3) ∷ [])
    held (none, pool') h e = cc
    held (some b, pool') h e =
        let at : b ≡ 0 = cc in
        let pair : Path (ℕ × ℕ) (b, needed_blocks pool 500) (0, 3) = λ i. (at i, three_blocks i) in
        subst (λ p. Held pool' (p ∷ [])) pair h.0

free-Removed_example :
    ((free one_given one_given.self 0).0 ≡ true) × Held (free one_given one_given.self 0).1 []
free-Removed_example = free-Removed one_given ((0, 3) ∷ []) [] 0 3 one_given-Held here

power_of_two : pool.buff_size ≡ ones 8 + 1
unfolding ones
power_of_two = refl

alloc-fits_example : 0 * 256 + header_size + 500 ≤ pool.pool_size
alloc-fits_example =
    alloc-fits first_setbit_fallback first_setbit_fallback-Lowest pool [] 8 500 0 pool-Held
      (omega arith) (omega arith) power_of_two (omega arith) first_block

-- Blocks of 384 bytes, which is not a power of two: 400 bytes with the header get a single block.
abbrev odd_pool : Pool
odd_pool = new_pool 1 384 1

odd_made : pool_create 1 300 10 ≡ some odd_pool
unfolding pool_create align_up
odd_made = refl

too_small : needed_blocks odd_pool 384 ≡ 1
unfolding needed_blocks align_up
too_small = refl
