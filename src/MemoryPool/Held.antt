-- ===== src/MemoryPool/Held.antt =====
-- What a pool of source/common/membuff.c keeps, and `membuff_free`.
use libclogger.Prelude.{
  ℕ, ◌+◌, ◌*◌, ◌^◌, ◌≤◌, ◌<◌, ◌≡◌, ◌≢◌, refl, ap, ◌∙◌, true, false, not, length, arith, leb, ◌==◌,
  if◌then◌else◌,
}
use libclogger.Flags.Find.{bit_at, AllWords}
use libclogger.Flags.Mask.{inside}
use libclogger.Flags.Splice.{splice, AllWords-splice, length-splice, bit_at-range}
use libclogger.MemoryPool.{Pool, free}
use libclogger.MemoryPool.Live.{
  Buffers, taken, total, Disjoint, Each, Removed, Each-map, taken-Removed, total-Removed,
  Each-Removed, Disjoint-Removed,
}

-- The buffer of `c` blocks at `s` lies in the pool, and its header says so.
pub record Headed (pool : Pool) (s c : ℕ) : Type 0 where
  pub some_blocks : 0 < c
  pub fits : s + c ≤ 64 * pool.flags_count
  pub owner : (pool.headers s).owner_pool ≡ pool.self
  pub place : (pool.headers s).flag_offset * 64 + (pool.headers s).bit_offset ≡ s
  pub low : (pool.headers s).bit_offset < 64
  pub counted : (pool.headers s).bit_count ≡ c

-- The pool has given away the buffers `live`: they are apart, the set bits are the other blocks, and
-- `unused_bits` counts these.
pub record Held (pool : Pool) (live : Buffers) : Type 0 where
  pub words : AllWords pool.flags
  pub len : length pool.flags ≡ pool.flags_count
  pub small : 64 * pool.flags_count < 2 ^ 16
  pub size : pool.pool_size ≡ pool.buff_size * (64 * pool.flags_count)
  pub covers : (j : ℕ) → j < 64 * pool.flags_count → bit_at pool.flags j ≡ not (taken live j)
  pub apart : Disjoint live
  pub headed : Each (Headed pool) live
  pub counted : pool.unused_bits + total live ≡ 64 * pool.flags_count

pub product_mono : (x y m : ℕ) → x ≤ y → x * m ≤ y * m
product_mono x y m h = grind arith

pub product_le : (a b m n : ℕ) → a + b ≤ n → a * m + m * b ≤ m * n
product_le a b m n h = omega (arith, product_mono (a + b) n m h)

free-Held :
    (pool : Pool) (live live' : Buffers) (s c : ℕ)
    → Held pool live
    → Removed s c live live'
    → Headed pool s c
    → let header = pool.headers s in
      Held
        (record pool {
          flags = splice pool.flags header.flag_offset header.bit_offset header.bit_count true;
          unused_bits = pool.unused_bits + header.bit_count;
        })
        live'
free-Held pool live live' s c h r head =
    let header = pool.headers s in
    let apart = Disjoint-Removed r h.apart in
    let in_flags : header.flag_offset ≤ length pool.flags =
      omega (arith, head.place, head.fits, h.len) in
    let range : header.flag_offset * 64 + header.bit_offset + header.bit_count
        ≤ 64 * length pool.flags =
      omega (arith, head.place, head.fits, head.counted, h.len) in
    record {
      words =
          AllWords-splice pool.flags header.flag_offset header.bit_offset header.bit_count true
            head.low h.words;
      len =
          length-splice pool.flags header.flag_offset header.bit_offset header.bit_count true
            head.low in_flags
          ∙ h.len;
      small = h.small;
      size = h.size;
      covers = λ j lt.
          bit_at-range pool.flags header.flag_offset header.bit_offset header.bit_count true
            head.low j in_flags range
          ∙ ap (λ n. if inside n header.bit_count j then true else bit_at pool.flags j) head.place
          ∙ ap (λ n. if inside s n j then true else bit_at pool.flags j) head.counted
          ∙ ground (arith, h.covers j lt, taken-Removed j r, apart.0 j);
      apart = apart.1;
      headed =
          Each-map (Headed pool) _ live'
            (λ t d p inner. record {
              some_blocks = p.some_blocks;
              fits = p.fits;
              owner = p.owner;
              place = p.place;
              low = p.low;
              counted = p.counted;
            })
            (Each-Removed (Headed pool) r h.headed).1;
      counted = omega (arith, h.counted, total-Removed r, head.counted);
    }

-- `membuff_free` of a buffer that the pool gave away takes it back: the pool then holds the others.
pub free-Removed :
    (pool : Pool) (live live' : Buffers) (s c : ℕ)
    → Held pool live
    → Removed s c live live'
    → ((free pool pool.self s).0 ≡ true) × Held (free pool pool.self s).1 live'
unfolding free
free-Removed pool live live' s c h r =
    let head = (Each-Removed (Headed pool) r h.headed).0 in
    let header = pool.headers s in
    let mine : (header.owner_pool == pool.self) ≡ true = ground (arith, head.owner) in
    let bound =
      product_le s header.bit_count pool.buff_size (64 * pool.flags_count)
        (omega (arith, head.fits, head.counted)) in
    let within : leb (s * pool.buff_size + pool.buff_size * header.bit_count) pool.pool_size
        ≡ true =
      ground (arith, h.size, bound) in
    rw (mine, within) (refl, free-Held pool live live' s c h r head)

-- `membuff_free` of a buffer of another pool changes nothing.
pub free-foreign :
    (pool : Pool) (owner s : ℕ)
    → (pool.headers s).owner_pool ≢ owner
    → free pool owner s ≡ (false, pool)
unfolding free
free-foreign pool owner s other =
    let not_mine : ((pool.headers s).owner_pool == owner) ≡ false = ground (arith, other) in
    rw not_mine refl
