-- ===== src/MemoryPool/Alloc.antt =====
-- `membuff_alloc` of source/common/membuff.c.
use libclogger.Prelude.{
  ℕ, ◌+◌, ◌-◌, ◌*◌, ◌%◌, ◌^◌, ◌≤◌, ◌<◌, ◌≡◌, refl, sym, ap, ◌∙◌, Bool, true, false, not, ◌||◌,
  Option, none, some, ◌∷◌, length, arith, ltb, leb, ltb→lt, ◌==◌, if◌then◌else◌, Bool-cases, inl,
  inr, ◌⊎◌,
}
use mathlib.Core.Path.{subst}
use libclogger.Flags.{flag_max, Search, found, absent, stuck, find_setbits}
use libclogger.Flags.Next.{Lowest}
use libclogger.Flags.Runs.{IsRun, place}
use libclogger.Flags.Round.{FirstRun}
use libclogger.Flags.Find.{bit_at, find_setbits-FirstRun}
use libclogger.Flags.Mask.{inside}
use libclogger.Flags.Splice.{AllWords-splice, length-splice, bit_at-range, bit_at-below}
use libclogger.MemoryPool.{Pool, alloc, take_blocks, needed_blocks}
use libclogger.MemoryPool.Live.{Buffers, taken, Each-map, total_le, total_cons}
use libclogger.MemoryPool.Held.{Headed, Held}

-- no `c` blocks in a row are free
abbrev pub Crowded : Pool → ℕ → Type 0
Crowded pool c = (j : ℕ) → ¬ IsRun (bit_at pool.flags) c j

-- What `membuff_alloc` does to a pool that has given away `live`, for a request of `c` blocks.
abbrev pub Allocated : Pool → Buffers → ℕ → Option ℕ × Pool → Type 0
Allocated pool live c (some block, pool') =
    Held pool' ((block, c) ∷ live) × (pool'.flags_count ≡ pool.flags_count)
Allocated pool live c (none, pool') = (pool' ≡ pool) × ((c ≡ 0) ⊎ Crowded pool c)

-- a run of set bits lies in the flags, and no buffer has a block of it
module _ (pool : Pool) (live : Buffers) (h : Held pool live) (c s : ℕ)
    (run : IsRun (bit_at pool.flags) c s) where
  run_below : 0 < c → s + c ≤ 64 * pool.flags_count
  run_below pos =
      omega
        (arith, bit_at-below pool.flags (s + (c - 1)) h.words (run (c - 1) (omega arith)), h.len)

  run_free : 0 < c → (j : ℕ) → inside s c j ≡ true → taken live j ≡ false
  run_free pos j within =
      let at : s + (j - s) ≡ j = ground arith in
      let set : bit_at pool.flags j ≡ true =
        ap (bit_at pool.flags) (sym at) ∙ run (j - s) (ground arith) in
      let below : j < 64 * pool.flags_count = ground (arith, run_below pos) in
      unnot (taken live j) (sym (h.covers j below) ∙ set)
    where
      unnot : (v : Bool) → not v ≡ true → v ≡ false
      unnot true e = cc
      unnot false e = refl

  -- so there are as many free blocks
  run_unused : 0 < c → c ≤ pool.unused_bits
  run_unused pos = omega (
    arith,
    total_le (64 * pool.flags_count) ((s, c) ∷ live) (run_free pos, h.apart)
        (
          run_below pos,
          Each-map (Headed pool) (λ s c. s + c ≤ 64 * pool.flags_count) live (λ t d p _. p.fits)
              h.headed,
        ),
    h.counted,
    total_cons s c live,
  )

head_taken : (c : ℕ) → 0 < c → (s : ℕ) → inside s c s ≡ true
head_taken c pos s = ground arith

cover : (x b t : Bool) → b ≡ not t → (if x then false else b) ≡ not (x || t)
cover true b t e = refl
cover false b t e = e

-- a block of a buffer is not the first of a free run
not_there :
    (live : Buffers) (t block c : ℕ)
    → 0 < c
    → (inside block c t ≡ true → taken live t ≡ false)
    → taken live t ≡ true
    → (t == block) ≡ false
not_there live t block c pos free_there busy = elim (Bool-cases (t == block)) [
  | inl same ↦
      let at : t ≡ block = ground arith in
      cc (free_there (ap (inside block c) at ∙ head_taken c pos block), busy)
  | inr other ↦ other
]

take_blocks-Allocated :
    (pool : Pool) (live : Buffers) (c : ℕ) (result : Search)
    → Held pool live
    → 0 < c
    → FirstRun (bit_at pool.flags) c result
    → Allocated pool live c (take_blocks pool c result)
unfolding take_blocks
take_blocks-Allocated pool live c absent h pos r = (refl, inr r)
take_blocks-Allocated pool live c stuck h pos r = absurd r
take_blocks-Allocated pool live c (found k off) h pos (off_pos, off_le, run, first) =
    let start = off - 1 in
    let block = k * 64 + start in
    let at : place k off ≡ block = omega arith in
    let set : IsRun (bit_at pool.flags) c block = subst (IsRun (bit_at pool.flags) c) at run in
    let below = run_below pool live h c block set pos in
    let free_there = run_free pool live h c block set pos in
    let unused = run_unused pool live h c block set pos in
    let in_flags : k ≤ length pool.flags = omega (arith, h.len) in
    let low : start < 64 = omega arith in
    let mine : (block == block) ≡ true = ground arith in
    let word_start : start % 2 ^ 16 ≡ start = omega arith in
    let word_count : c % 2 ^ 16 ≡ c = omega (arith, h.small) in
    (
      record {
        words = AllWords-splice pool.flags k start c false low h.words;
        len = length-splice pool.flags k start c false low in_flags ∙ h.len;
        small = h.small;
        size = h.size;
        covers = λ j lt.
            bit_at-range pool.flags k start c false low j in_flags (omega (arith, h.len))
            ∙ cover (inside block c j) (bit_at pool.flags j) (taken live j) (h.covers j lt)
            ∙ ap not (unfold taken in refl);
        apart = (free_there, h.apart);
        headed = (
          record {
            some_blocks = pos;
            fits = below;
            owner = rw mine refl;
            place = rw (mine, word_start) refl;
            low = rw (mine, word_start) low;
            counted = rw (mine, word_count) refl;
          },
          Each-map (Headed pool) _ live
              (λ t d p inner.
                let other : (t == block) ≡ false =
                  not_there live t block c pos (free_there t)
                    (inner t (head_taken d p.some_blocks t)) in
                record {
                  some_blocks = p.some_blocks;
                  fits = p.fits;
                  owner = rw other p.owner;
                  place = rw other p.place;
                  low = rw other p.low;
                  counted = rw other p.counted;
                })
              h.headed,
        );
        counted = omega (arith, h.counted, total_cons block c live, unused);
      },
      refl,
    )

-- `membuff_alloc` on a pool that has given away the buffers `live`, and where `__builtin_ffsll` finds
-- the lowest bit: a buffer that it returns has the blocks that are needed, lies in the pool, and is
-- apart from all others that are given away; it returns NULL only if no blocks are needed, by a wrap
-- of the size, or if there is no run of that many free blocks, and then nothing changes.
pub alloc-Allocated :
    (ffsll : ℕ → ℕ)
    → ((n : ℕ) → 0 < n → n ≤ flag_max → Lowest n (ffsll n))
    → (pool : Pool) (live : Buffers) (size_bytes : ℕ) → Held pool live
    → Allocated pool live (needed_blocks pool size_bytes) (alloc ffsll pool size_bytes)
unfolding alloc
alloc-Allocated ffsll law pool live size_bytes h = go (needed_blocks pool size_bytes)
  where
    go :
        (c : ℕ)
        → Allocated pool live c (
            if leb (2 ^ 31) c || (c == 0 || ltb (64 * pool.flags_count) c)
            then (none, pool)
            else if ltb pool.unused_bits c
            then (none, pool)
            else take_blocks pool c (find_setbits ffsll pool.flags c))
    go c = elim (Bool-cases (c == 0)) [
      | inl nothing ↦
          let is_zero : c ≡ 0 = ground arith in
          let refused : (leb (2 ^ 31) c || (c == 0 || ltb (64 * pool.flags_count) c)) ≡ true =
            ground arith in
          rw refused (refl, inl is_zero)
      | inr wanted ↦
          let pos : 0 < c = ground arith in
          elim (Bool-cases (leb (2 ^ 31) c || (c == 0 || ltb (64 * pool.flags_count) c))) [
            | inl refused ↦
                let large : 64 * pool.flags_count < c = ground (arith, h.small) in
                rw refused (
                  refl,
                  inr (λ j run. absurd (omega (arith, run_below pool live h c j run pos, large))),
                )
            | inr tried ↦ rw tried (elim (Bool-cases (ltb pool.unused_bits c)) [
              | inl short ↦ rw short (
                refl,
                inr (λ j run.
                    absurd (omega (arith, run_unused pool live h c j run pos, ltb→lt _ _ short))),
              )
              | inr enough ↦ rw enough (
                  take_blocks-Allocated pool live c (find_setbits ffsll pool.flags c) h pos
                    (find_setbits-FirstRun ffsll law pool.flags c pos h.words))
            ])
          ]
    ]
