-- ===== src/Flags/Mask.antt =====
-- `FFS64_flags_mask_bits` of source/common/ffs64.h sets or clears a range of bits and no other.
use libclogger.Prelude.{
  ℕ, zero, suc, ◌+◌, ◌-◌, ◌*◌, ◌≤◌, ◌<◌, ◌≡◌, refl, sym, ap, ◌∙◌, Bool, true, false, ◌&&◌, ◌||◌,
  not, List, [], ◌∷◌, length, arith, ltb, leb, Bool-cases, inl, inr, ltb→lt, ◌==◌, ==_iff,
  if◌then◌else◌,
}
use libclogger.Bits.{
  bit, shl, ones, ones-word, bit-bit_and, bit-bit_or, bit-ones, bit-not, bit-shl, shl-ones,
  ones_mono, bit_and-le, bit_or-le,
}
use libclogger.Flags.{flag_max, masks_table, entry_at, left_mask, mask_word, mask_bits}
use libclogger.Flags.Find.{bit_at, AllWords}

unfoldable pub holds_upto : (ℕ → Bool) → ℕ → Bool
holds_upto test zero = true
holds_upto test (suc last) = test last && holds_upto test last

pub test-holds :
    (test : ℕ → Bool) (bound i : ℕ) → i < bound → holds_upto test bound ≡ true → test i ≡ true
unfolding holds_upto
test-holds test zero i lt all = absurd (omega arith)
test-holds test (suc last) i lt all = elim (Bool-cases (i == last)) [
  | inl same ↦ let at : i ≡ last = ground arith in ground (arith, ap test at)
  | inr before ↦ test-holds test last i (ground arith) (ground arith)
]

masks_checked : holds_upto (λ i. entry_at masks_table i == ones i) 65 ≡ true
unfolding holds_upto entry_at masks_table ones
masks_checked = refl

-- The table holds what its comment says: the entry `i` has `i` ones.
pub masks_table-ones : (i : ℕ) → i ≤ 64 → entry_at masks_table i ≡ ones i
masks_table-ones i h =
    (==_iff _ _).0
      (test-holds (λ i. entry_at masks_table i == ones i) 65 i (omega arith) masks_checked)

left_mask-shl :
    (offset start : ℕ) → start + offset ≤ 64 → left_mask offset start ≡ shl (ones offset) start
unfolding left_mask
left_mask-shl offset start h =
    let entry = masks_table-ones offset (omega arith) in
    let bound = shl-ones offset start in
    let word = ones_mono (start + offset) 64 h in rw entry (omega (arith, bound, word, ones-word))

left_mask-le : (offset start : ℕ) → start + offset ≤ 64 → left_mask offset start ≤ flag_max
left_mask-le offset start h = omega (
  arith,
  left_mask-shl offset start h,
  shl-ones offset start,
  ones_mono (start + offset) 64 h,
  ones-word,
)

-- whether `i` is one of `count` places from `start` on
abbrev pub inside : ℕ → ℕ → ℕ → Bool
inside start count i = leb start i && ltb i (start + count)

bit-left_mask :
    (offset start i : ℕ)
    → start + offset ≤ 64
    → bit (left_mask offset start) i ≡ inside start offset i
bit-left_mask offset start i h =
    ap (λ m. bit m i) (left_mask-shl offset start h)
    ∙ bit-shl (ones offset) start i
    ∙ ap (λ v. leb start i && v) (bit-ones offset (i - start))
    ∙ ground arith

-- one word
pub bit-mask_word :
    (is_set : Bool) (flag offset start i : ℕ)
    → start + offset ≤ 64
    → i < 64
    → bit (mask_word is_set flag offset start) i
      ≡ (if inside start offset i then is_set else bit flag i)
unfolding mask_word
bit-mask_word true flag offset start i h lt =
    bit-bit_or i flag (left_mask offset start)
    ∙ ap (λ v. bit flag i || v) (bit-left_mask offset start i h)
    ∙ ground arith
bit-mask_word false flag offset start i h lt =
    bit-bit_and i flag (flag_max - left_mask offset start)
    ∙ ap (λ v. bit flag i && v)
        (ap (λ m. bit (m - left_mask offset start) i) (sym ones-word)
          ∙ bit-not 64 (left_mask offset start) i
              (omega (arith, left_mask-le offset start h, ones-word)) lt
          ∙ ap not (bit-left_mask offset start i h))
    ∙ ground arith

mask_word-le :
    (is_set : Bool) (flag offset start : ℕ)
    → start + offset ≤ 64
    → flag ≤ flag_max
    → mask_word is_set flag offset start ≤ flag_max
unfolding mask_word
mask_word-le true flag offset start h small = omega (
  arith,
  bit_or-le 64 flag (left_mask offset start) (omega (arith, ones-word))
      (omega (arith, left_mask-le offset start h, ones-word)),
  ones-word,
)
mask_word-le false flag offset start h small = omega (
  arith,
  bit_and-le 64 flag (flag_max - left_mask offset start) (omega (arith, ones-word)),
  ones-word,
)

bit_at-word :
    (flag : ℕ) (flags : List ℕ) (j : ℕ)
    → bit_at (flag ∷ flags) j ≡ (if ltb j 64 then bit flag j else bit_at flags (j - 64))
unfolding bit_at
bit_at-word flag flags j = refl

-- `FFS64_flags_mask_bits`, for a range that lies in the flags: the bits of the range become what is
-- asked, and all others stay.
pub bit_at-mask_bits :
    (flags : List ℕ) (start bit_count : ℕ) (is_set : Bool) (j : ℕ)
    → start < 64
    → start + bit_count ≤ 64 * length flags
    → bit_at (mask_bits flags start bit_count is_set) j
      ≡ (if inside start bit_count j then is_set else bit_at flags j)
unfolding mask_bits
bit_at-mask_bits [] start bit_count is_set j lt fits = ground arith
bit_at-mask_bits (flag ∷ flags) start bit_count is_set j lt fits =
    elim (Bool-cases (bit_count == 0)) [
      | inl none_wanted ↦ rw none_wanted (ground arith)
      | inr wanted ↦ rw wanted (elim (Bool-cases (ltb bit_count (64 - start))) [
        | inl short ↦
            let left : (bit_count - bit_count == 0) ≡ true = ground arith in
            rw (short, left) (last bit_count (ground arith) (ground arith))
        | inr long ↦ rw long (elim (Bool-cases (bit_count - (64 - start) == 0)) [
          | inl exact ↦
              let same : 64 - start ≡ bit_count = ground arith in
              rw exact (last (64 - start) (omega arith) same)
          | inr more ↦ rw more (
              first (ground arith) (λ from.
                bit_at-mask_bits flags 0 (bit_count - (64 - start)) is_set (j - 64) (omega arith)
                  (omega arith)))
        ])
      ])
    ]
  where
    last :
        (offset : ℕ)
        → start + offset ≤ 64
        → offset ≡ bit_count
        → bit_at (mask_word is_set flag offset start ∷ flags) j
          ≡ (if inside start bit_count j then is_set else bit_at (flag ∷ flags) j)
    last offset le same =
        bit_at-word (mask_word is_set flag offset start) flags j ∙ (elim (Bool-cases (ltb j 64)) [
          | inl here ↦
              rw (bit_at-word flag flags j, here)
                (bit-mask_word is_set flag offset start j le (ltb→lt _ _ here)
                  ∙ ground (arith, same))
          | inr beyond ↦ rw (bit_at-word flag flags j, beyond) (ground (arith, same))
        ])

    first :
        64 - start < bit_count
        → (64 ≤ j
            → bit_at (mask_bits flags 0 (bit_count - (64 - start)) is_set) (j - 64) ≡ (
                if inside 0 (bit_count - (64 - start)) (j - 64)
                then is_set
                else bit_at flags (j - 64)))
        → bit_at
            (mask_word is_set flag (64 - start) start
              ∷ mask_bits flags 0 (bit_count - (64 - start)) is_set)
            j
          ≡ (if inside start bit_count j then is_set else bit_at (flag ∷ flags) j)
    first more rest =
        bit_at-word (mask_word is_set flag (64 - start) start)
          (mask_bits flags 0 (bit_count - (64 - start)) is_set) j
        ∙ (elim (Bool-cases (ltb j 64)) [
          | inl here ↦
              rw (bit_at-word flag flags j, here)
                (bit-mask_word is_set flag (64 - start) start j (omega arith) (ltb→lt _ _ here)
                  ∙ ground arith)
          | inr beyond ↦ rw (bit_at-word flag flags j, beyond) (rest (ground arith) ∙ ground arith)
        ])

pub AllWords-mask_bits :
    (flags : List ℕ) (start bit_count : ℕ) (is_set : Bool)
    → start < 64
    → AllWords flags
    → AllWords (mask_bits flags start bit_count is_set)
unfolding mask_bits
AllWords-mask_bits [] start bit_count is_set lt words = tt
AllWords-mask_bits (flag ∷ flags) start bit_count is_set lt words =
    let offset = if ltb bit_count (64 - start) then bit_count else 64 - start in
    let word = mask_word-le is_set flag offset start (ground arith) words.0 in
    elim (Bool-cases (bit_count == 0)) [
      | inl none_wanted ↦ rw none_wanted words
      | inr wanted ↦ rw wanted (elim (Bool-cases (bit_count - offset == 0)) [
        | inl exact ↦ rw exact (word, words.1)
        | inr more ↦
            rw more
              (word, AllWords-mask_bits flags 0 (bit_count - offset) is_set (omega arith) words.1)
      ])
    ]

pub length-mask_bits :
    (flags : List ℕ) (start bit_count : ℕ) (is_set : Bool)
    → length (mask_bits flags start bit_count is_set) ≡ length flags
unfolding mask_bits
length-mask_bits [] start bit_count is_set = refl
length-mask_bits (flag ∷ flags) start bit_count is_set = ground (
  arith,
  length-mask_bits flags 0
      (bit_count - (if ltb bit_count (64 - start) then bit_count else 64 - start)) is_set,
)
