-- ===== src/MemoryPool/Room.antt =====
-- The sizes of source/common/membuff.c: `MBUF_AlignUpSize`, the pools that are made, and the room of a buffer.
use libclogger.Prelude.{
  ℕ, zero, suc, ◌+◌, ◌-◌, ◌*◌, ◌/◌, ◌%◌, ◌^◌, ◌≤◌, ◌<◌, ◌≡◌, refl, sym, ap, ◌∙◌, true, false, ◌||◌,
  Option, none, some, [], replicate, arith, ltb, ◌==◌, Bool-cases, inl, inr, length-replicate,
}
use native.Mathlib.Nat.{mul-div_cancel}
use libclogger.Bits.{bit, ones, ones-word, bit-ones, ones_mono, round_down}
use libclogger.Flags.{flag_max}
use libclogger.Flags.Next.{Lowest}
use libclogger.Flags.Find.{bit_at, AllWords}
use libclogger.MemoryPool.{Pool, header_size, align_up, pool_create, new_pool, needed_blocks, alloc}
use libclogger.MemoryPool.Live.{Buffers, taken, total}
use libclogger.MemoryPool.Held.{Held, product_mono, product_le}
use libclogger.MemoryPool.Alloc.{Allocated, alloc-Allocated}

-- `MBUF_AlignUpSize` with a power of two is the next multiple of it.
pub align_up-ones :
    (m size : ℕ)
    → m ≤ 64
    → 0 < size
    → size + ones m < 2 ^ 64
    → let f = align_up size (ones m + 1) in
      (size ≤ f) × (f ≤ size + ones m) × (q : ℕ) × (f ≡ q * (ones m + 1))
unfolding align_up
align_up-ones m size le pos fits =
    let some_bytes : (size == 0) ≡ false = ground arith in
    let word : (size + (ones m + 1) - 1) % 2 ^ 64 ≡ size + ones m = omega arith in
    let mask : flag_max - (ones m + 1 - 1) ≡ ones 64 - ones m = omega (arith, ones-word) in
    let r = round_down 64 m (size + ones m) le (omega (arith, ones-word)) in
    rw (some_bytes, word, mask) (omega (arith, r.1), r.0, r.2, r.3)

-- the 7 and 6 digits of 127 and 63
ones_7 : ones 7 ≡ 127
unfolding ones
ones_7 = refl

ones_6 : ones 6 ≡ 63
unfolding ones
ones_6 = refl

align_up-zero : (m : ℕ) → align_up 0 m ≡ m
unfolding align_up
align_up-zero m = refl

align_up_128 :
    (size : ℕ)
    → size ≤ 4096
    → let f = align_up size 128 in (0 < f) × (size ≤ f) × (f ≤ 4096) × (f % 128 ≡ 0)
align_up_128 size le = elim (Bool-cases (size == 0)) [
  | inl nothing ↦
      let is_zero : size ≡ 0 = ground arith in
      rw (is_zero, align_up-zero 128) (omega arith, omega arith, omega arith, omega arith)
  | inr some_bytes ↦
      let pos : 0 < size = ground arith in
      let m : ones 7 + 1 ≡ 128 = omega (arith, ones_7) in
      let r = align_up-ones 7 size (omega arith) pos (omega (arith, ones_7)) in
      let whole : align_up size 128 ≡ r.2 * 128 =
        ap (align_up size) (sym m) ∙ r.3 ∙ ap (λ n. r.2 * n) m in
      let low : size ≤ align_up size 128 = omega (arith, r.0, ap (align_up size) m) in
      let high : align_up size 128 ≤ size + 127 =
        omega (arith, r.1, ap (align_up size) m, ones_7) in
      (omega arith, low, omega (arith, whole), omega (arith, whole))
]

align_up_64 :
    (size : ℕ)
    → size ≤ 4096
    → let f = align_up size 64 in (64 ≤ f) × (size ≤ f) × (f ≤ 4096) × (f % 64 ≡ 0)
align_up_64 size le = elim (Bool-cases (size == 0)) [
  | inl nothing ↦
      let is_zero : size ≡ 0 = ground arith in
      rw (is_zero, align_up-zero 64) (omega arith, omega arith, omega arith, omega arith)
  | inr some_bytes ↦
      let pos : 0 < size = ground arith in
      let m : ones 6 + 1 ≡ 64 = omega (arith, ones_6) in
      let r = align_up-ones 6 size (omega arith) pos (omega (arith, ones_6)) in
      let whole : align_up size 64 ≡ r.2 * 64 =
        ap (align_up size) (sym m) ∙ r.3 ∙ ap (λ n. r.2 * n) m in
      let low : size ≤ align_up size 64 = omega (arith, r.0, ap (align_up size) m) in
      let high : align_up size 64 ≤ size + 63 = omega (arith, r.1, ap (align_up size) m, ones_6) in
      (omega (arith, whole, low, pos), low, omega (arith, whole, high), omega (arith, whole))
]

-- a pool whose blocks are all free
bit_at-replicate : (n j : ℕ) → j < 64 * n → bit_at (replicate n flag_max) j ≡ true
unfolding bit_at
bit_at-replicate zero j lt = absurd (omega arith)
bit_at-replicate (suc n) j lt = elim (Bool-cases (ltb j 64)) [
  | inl first ↦ rw first (ap (λ f. bit f j) (sym ones-word) ∙ bit-ones 64 j ∙ first)
  | inr later ↦ rw later (bit_at-replicate n (j - 64) (ground arith))
]

AllWords-replicate : (n : ℕ) → AllWords (replicate n flag_max)
AllWords-replicate zero = tt
AllWords-replicate (suc n) = (omega arith, AllWords-replicate n)

new_pool-Held : (self size n : ℕ) → n ≤ 64 → Held (new_pool self size n) []
unfolding taken total
new_pool-Held self size n le = record {
  words = AllWords-replicate n;
  len = length-replicate n flag_max;
  small = omega arith;
  size = refl;
  covers = λ j lt. bit_at-replicate n j lt;
  apart = tt;
  headed = tt;
  counted = omega arith;
}

-- A pool for blocks of `bytes` bytes and at least `count` of them, all free.
abbrev pub Created : ℕ → ℕ → Option Pool → Type 0
Created bytes count none = ⊥
Created bytes count (some pool) =
    Held pool []
    × (bytes ≤ pool.buff_size)
    × (pool.buff_size % 128 ≡ 0)
    × (0 < pool.buff_size)
    × (pool.buff_size ≤ 4096)
    × (count ≤ pool.unused_bits)
    × (pool.unused_bits ≤ 4096)

-- `membuff_pool_create`, for sizes and counts up to 4096, makes a pool whose blocks are all free, as
-- many as are asked for at least, each as large as asked and a positive multiple of 128 bytes.
pub pool_create-Created :
    (self bytes count : ℕ)
    → bytes ≤ 4096
    → count ≤ 4096
    → Created bytes count (pool_create self bytes count)
unfolding pool_create
pool_create-Created self bytes count bytes_le count_le =
    let b = align_up_128 bytes bytes_le in
    let n = align_up_64 count count_le in
    let flags : align_up count 64 % 2 ^ 32 / 64 ≡ align_up count 64 / 64 = omega (arith, n.2) in
    let small : (ltb 4096 bytes || ltb 4096 count) ≡ false = ground arith in
    let block : ltb 4096 (align_up bytes 128) ≡ false = ground (arith, b.2) in
    let some_flags : (align_up count 64 / 64 == 0 || ltb 4096 (align_up count 64 / 64)) ≡ false =
      ground (arith, n.0, n.2) in
    let bound = product_mono (align_up bytes 128) 4096 (64 * (align_up count 64 / 64)) b.2 in
    let fits : ltb (4096 * 4096 * 64) (align_up bytes 128 * (64 * (align_up count 64 / 64)))
        ≡ false =
      ground (arith, bound, n.2) in
    rw (flags, small, block, some_flags, fits)
      (
        new_pool-Held self (align_up bytes 128) (align_up count 64 / 64) (omega (arith, n.2)),
        b.1,
        b.3,
        b.0,
        b.2,
        omega (arith, n.1, n.3),
        omega (arith, n.2),
      )

-- the buffer that an allocation returns lies in the pool
Allocated-fits :
    (pool : Pool) (live : Buffers) (c block : ℕ) (result : Option ℕ × Pool)
    → Allocated pool live c result
    → result.0 ≡ some block
    → block + c ≤ 64 * pool.flags_count
Allocated-fits pool live c block (none, pool') h e = cc
Allocated-fits pool live c block (some b, pool') h e =
    let at : b ≡ block = cc in omega (arith, h.0.headed.0.fits, h.1, at)

-- the blocks that a size needs, for blocks of a power of two
needed_blocks-ones :
    (pool : Pool) (m size_bytes : ℕ)
    → 7 ≤ m
    → m ≤ 12
    → pool.buff_size ≡ ones m + 1
    → size_bytes < 2 ^ 32
    → size_bytes + header_size ≤ needed_blocks pool size_bytes * pool.buff_size
unfolding needed_blocks
needed_blocks-ones pool m size_bytes lo hi power small =
    let upper = ones_mono m 12 hi in
    let lower = ones_mono 7 m lo in
    let top : ones 12 ≡ 4095 = unfold ones in refl in
    let word : (size_bytes + header_size) % 2 ^ 64 ≡ size_bytes + header_size = omega arith in
    let r =
      align_up-ones m (size_bytes + header_size) (omega arith) (omega arith)
        (omega (arith, upper, top)) in
    rw (word, power, r.3)
      (quotient r.2 (ones m) (size_bytes + header_size) (omega (arith, lower, ones_7))
        (omega (arith, upper, top)) (omega arith) (omega (arith, r.0, r.3))
        (omega (arith, r.1, r.3)))
  where
    wide : (q n : ℕ) → 127 ≤ n → q * 128 ≤ q * (n + 1)
    wide q n h = grind arith

    quotient :
        (q n size : ℕ)
        → 127 ≤ n
        → n ≤ 4095
        → size < 2 ^ 32 + 16
        → size ≤ q * (n + 1)
        → q * (n + 1) ≤ size + n
        → size ≤ q * (n + 1) / (n + 1) % 2 ^ 32 * (n + 1)
    quotient q n size lo hi bound low high =
        let no_wrap : q % 2 ^ 32 ≡ q = omega (arith, wide q n lo) in
        rw (mul-div_cancel q {n = n + 1} (omega arith), no_wrap) low

-- A buffer that `membuff_alloc` returns holds what was asked for: behind its header of 16 bytes there
-- are `size_bytes` bytes inside the pool, if the size of the blocks is a power of two from 128 to 4096
-- and less than 4 GB are asked for. `__builtin_ffsll` is taken to find the lowest bit.
pub alloc-fits :
    (ffsll : ℕ → ℕ)
    → ((n : ℕ) → 0 < n → n ≤ flag_max → Lowest n (ffsll n))
    → (pool : Pool) (live : Buffers) (m size_bytes block : ℕ) → Held pool live
    → 7 ≤ m
    → m ≤ 12
    → pool.buff_size ≡ ones m + 1
    → size_bytes < 2 ^ 32
    → (alloc ffsll pool size_bytes).0 ≡ some block
    → block * pool.buff_size + header_size + size_bytes ≤ pool.pool_size
alloc-fits ffsll law pool live m size_bytes block h lo hi power small result =
    let c = needed_blocks pool size_bytes in
    let below =
      Allocated-fits pool live c block (alloc ffsll pool size_bytes)
        (alloc-Allocated ffsll law pool live size_bytes h) result in
    omega (
      arith,
      needed_blocks-ones pool m size_bytes lo hi power small,
      product_le block c pool.buff_size (64 * pool.flags_count) below,
      h.size,
    )
