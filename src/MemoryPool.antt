-- ===== src/MemoryPool.antt =====
-- source/common/membuff.c: a pool of memory blocks of one size, with a bit for each block that is 1 if
-- it is free. The flags are those of 64-bit platforms, and a block is its index in the pool.
pub mod Live
pub mod Held
pub mod Alloc
pub mod Room
mod Tests
use libclogger.Prelude.{
  ℕ, zero, suc, ◌+◌, ◌-◌, ◌*◌, ◌/◌, ◌%◌, ◌^◌, Bool, true, false, ◌&&◌, ◌||◌, Option, none, some,
  List, [], ◌∷◌, ◌++◌, take, drop, replicate, ltb, leb, ◌==◌, if◌then◌else◌,
}
use libclogger.Bits.{bit_and}
use libclogger.Flags.{flag_max, Search, found, absent, stuck, find_setbits, mask_bits}

-- `membuff_t`, in front of a buffer; `owner_pool` is a pool's address.
pub record Header : Type 0 where
  pub owner_pool : ℕ
  pub flag_offset : ℕ
  pub bit_offset : ℕ
  pub bit_count : ℕ

-- `membuff_pool_t` at the address `self`. `headers` has the header that stands at each block.
pub record Pool : Type 0 where
  pub self : ℕ
  pub buff_size : ℕ
  pub flags_count : ℕ
  pub unused_bits : ℕ
  pub pool_size : ℕ
  pub flags : List ℕ
  pub headers : ℕ → Header

-- `sizeof(membuff_t)`
abbrev pub header_size : ℕ
header_size = 16

-- `MBUF_AlignUpSize`, in 64-bit words
unfoldable pub align_up : ℕ → ℕ → ℕ
align_up size m = if size == 0 then m else bit_and ((size + m - 1) % 2 ^ 64) (flag_max - (m - 1))

abbrev pub new_pool : ℕ → ℕ → ℕ → Pool
new_pool self size num_flags = record {
  self = self;
  buff_size = size;
  flags_count = num_flags;
  unused_bits = 64 * num_flags;
  pool_size = size * (64 * num_flags);
  flags = replicate num_flags flag_max;
  headers = λ _. record { owner_pool = 0; flag_offset = 0; bit_offset = 0; bit_count = 0 };
}

-- `membuff_pool_create` at the address that `malloc` gave; its assertions hold, or it aborts: none, as
-- for NULL.
unfoldable pub pool_create : ℕ → ℕ → ℕ → Option Pool
pool_create self buff_size_bytes buffs_count =
    let buff_size = align_up buff_size_bytes 128 in
    let num_flags = align_up buffs_count 64 % 2 ^ 32 / 64 in
    if ltb 4096 buff_size_bytes || ltb 4096 buffs_count
    then none
    else if ltb 4096 buff_size
    then none
    else if num_flags == 0 || ltb 4096 num_flags
    then none
    else if ltb (4096 * 4096 * 64) (buff_size * (64 * num_flags))
    then none
    else some (new_pool self buff_size num_flags)

-- the blocks that `size_bytes` take with the header, as an `int`
unfoldable pub needed_blocks : Pool → ℕ → ℕ
needed_blocks pool size_bytes =
    align_up ((size_bytes + header_size) % 2 ^ 64) pool.buff_size / pool.buff_size % 2 ^ 32

abbrev pub write_header : (ℕ → Header) → ℕ → Header → ℕ → Header
write_header headers block header j = if j == block then header else headers j

-- the part of `membuff_alloc` behind the search, under the spin lock
unfoldable pub take_blocks : Pool → ℕ → Search → Option ℕ × Pool
take_blocks pool count (found k off) =
    let start = off - 1 in
    let block = k * 64 + start in
    (
      some block,
      record pool {
        headers = write_header pool.headers block (record {
          owner_pool = pool.self;
          flag_offset = k;
          bit_offset = start % 2 ^ 16;
          bit_count = count % 2 ^ 16;
        });
        flags = take k pool.flags ++ mask_bits (drop k pool.flags) start count false;
        unused_bits = pool.unused_bits - count;
      },
    )
take_blocks pool count absent = (none, pool)
take_blocks pool count stuck = (none, pool)

-- `membuff_alloc`, with `__builtin_ffsll`: the block whose buffer is returned, none for NULL. A count
-- that is negative as an `int` is refused by the search.
unfoldable pub alloc : (ℕ → ℕ) → Pool → ℕ → Option ℕ × Pool
alloc ffsll pool size_bytes =
    let count = needed_blocks pool size_bytes in
    if leb (2 ^ 31) count || (count == 0 || ltb (64 * pool.flags_count) count)
    then (none, pool)
    else if ltb pool.unused_bits count
    then (none, pool)
    else take_blocks pool count (find_setbits ffsll pool.flags count)

-- `membuff_calloc`: the same, as many bytes as it sets to 0
unfoldable pub calloc : (ℕ → ℕ) → Pool → ℕ → ℕ → (Option ℕ × Pool) × ℕ
calloc ffsll pool elements_count element_size =
    let align_size = align_up (elements_count * element_size % 2 ^ 64) 64 in
    (alloc ffsll pool align_size, align_size)

-- `membuff_free` of the buffer at a block: whether it was freed
unfoldable pub free : Pool → ℕ → ℕ → Bool × Pool
free pool owner block =
    let header = pool.headers block in
    if header.owner_pool == owner
    then if leb (block * pool.buff_size + pool.buff_size * header.bit_count) pool.pool_size
      then (
        true,
        record pool {
          flags =
              take header.flag_offset pool.flags
              ++ mask_bits (drop header.flag_offset pool.flags) header.bit_offset header.bit_count
                  true;
          unused_bits = pool.unused_bits + header.bit_count;
        },
      )
      else (false, pool)
    else (false, pool)

-- the count that `membuff_pool_stat` returns
pub pool_stat : Pool → ℕ
pool_stat pool = pool.unused_bits
