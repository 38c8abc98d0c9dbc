-- ===== src/Flags/Fallback.antt =====
-- The branch of `FFS64_first_setbit` in source/common/ffs64.h for compilers with no instruction for it.
use libclogger.Prelude.{
  ℕ, zero, suc, ◌+◌, ◌-◌, ◌*◌, ◌/◌, ◌%◌, ◌^◌, ◌≤◌, ◌<◌, ◌≡◌, refl, sym, ap, ◌∙◌, true, false, arith,
  ◌==◌, ==_iff, if◌then◌else◌, Bool-cases, inl, inr,
}
use mathlib.Core.Path.{subst}
use libclogger.Bits.{bit, bit_and, ones, ones-word, bit_and_halves, zero-bit_and}
use libclogger.Flags.{flag_max, entry_at, debruijn64_table, debruijn_index, first_setbit_fallback}
use libclogger.Flags.Next.{Lowest}
use libclogger.Flags.Mask.{holds_upto, test-holds}

-- the place of the lowest set bit, counted from 0, in words of `k` digits
trailing : ℕ → ℕ → ℕ
trailing zero n = 0
trailing (suc k) n = let rest = trailing k (n / 2) in if n % 2 == 1 then 0 else suc rest

power : ℕ → ℕ
power zero = 1
power (suc i) = 2 * power i

trailing-Lowest : (k n : ℕ) → 0 < n → n ≤ ones k → Lowest n (trailing k n + 1) × (trailing k n < k)
unfolding trailing bit ones
trailing-Lowest zero n pos h = absurd (omega arith)
trailing-Lowest (suc k) n pos h = elim (Bool-cases (n % 2 == 1)) [
  | inl odd ↦ rw odd ((omega arith, odd, λ i lt. absurd (omega arith)), omega arith)
  | inr even ↦
      let rest = trailing-Lowest k (n / 2) (ground arith) (omega arith) in
      let at : suc (trailing k (n / 2)) + 1 - 1 ≡ suc (trailing k (n / 2)) = omega arith in
      let at' : trailing k (n / 2) + 1 - 1 ≡ trailing k (n / 2) = omega arith in
      rw even (
        (omega arith, rw at (ap (bit (n / 2)) (sym at') ∙ rest.0.1), below k n even rest.0.2),
        omega (arith, rest.1),
      )
]
  where
    below :
        (k n : ℕ)
        → (n % 2 == 1) ≡ false
        → ((i : ℕ) → i + 1 < trailing k (n / 2) + 1 → bit (n / 2) i ≡ false)
        → (i : ℕ) → i + 1 < suc (trailing k (n / 2)) + 1
        → bit n i ≡ false
    below k n even rest zero lt = even
    below k n even rest (suc i) lt = rest i (omega arith)

-- a word and its complement share no bit
apart : (k a : ℕ) → a ≤ ones k → bit_and a (ones k - a) ≡ 0
unfolding ones
apart zero a h = let nothing : a ≡ 0 = omega arith in rw nothing (omega (arith, zero-bit_and 0))
apart (suc k) a h =
    let half : (2 * ones k + 1 - a) / 2 ≡ ones k - a / 2 = omega arith in
    bit_and_halves a (2 * ones k + 1 - a) ∙ rw half (omega (arith, apart k (a / 2) (omega arith)))

-- `n & -n` is the lowest set bit
lowest_bit : (k n : ℕ) → 0 < n → n ≤ ones k → bit_and n (ones k + 1 - n) ≡ power (trailing k n)
unfolding ones trailing power
lowest_bit zero n pos h = absurd (omega arith)
lowest_bit (suc k) n pos h = elim (Bool-cases (n % 2 == 1)) [
  | inl odd ↦
      let half : (2 * ones k + 1 + 1 - n) / 2 ≡ ones k - n / 2 = ground arith in
      rw odd (
        bit_and_halves n (2 * ones k + 1 + 1 - n)
        ∙ rw half (ground (arith, apart k (n / 2) (omega arith))))
  | inr even ↦
      let half : (2 * ones k + 1 + 1 - n) / 2 ≡ ones k + 1 - n / 2 = ground arith in
      rw even (
        bit_and_halves n (2 * ones k + 1 + 1 - n)
        ∙ rw half (ground (arith, lowest_bit k (n / 2) (ground arith) (omega arith))))
]

table_checked :
    holds_upto (λ i. entry_at debruijn64_table (debruijn_index (power i)) == i) 64 ≡ true
unfolding holds_upto entry_at debruijn64_table debruijn_index power
table_checked = refl

-- The fallback finds the lowest set bit of every word that is not 0, as `__builtin_ffsll` does.
pub first_setbit_fallback-Lowest :
    (flag : ℕ) → 0 < flag → flag ≤ flag_max → Lowest flag (first_setbit_fallback flag)
unfolding first_setbit_fallback
first_setbit_fallback-Lowest flag pos h =
    let word : flag ≤ ones 64 = omega (arith, ones-word) in
    let low = trailing-Lowest 64 flag pos word in
    let negated : (flag_max - flag + 1) % 2 ^ 64 ≡ ones 64 + 1 - flag = omega (arith, ones-word) in
    let lowest : bit_and flag ((flag_max - flag + 1) % 2 ^ 64) ≡ power (trailing 64 flag) =
      ap (bit_and flag) negated ∙ lowest_bit 64 flag pos word in
    let entry : entry_at debruijn64_table (debruijn_index (power (trailing 64 flag)))
        ≡ trailing 64 flag =
      (==_iff _ _).0 (
        test-holds (λ i. entry_at debruijn64_table (debruijn_index (power i)) == i) 64
          (trailing 64 flag) low.1 table_checked) in
    subst (Lowest flag)
      (sym
        (ap (λ b. entry_at debruijn64_table (debruijn_index b) + 1) lowest ∙ ap (λ e. e + 1) entry))
      low.0
