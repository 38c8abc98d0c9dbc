-- ===== src/Bits.antt =====
-- The binary digits of machine words: shifts, masks, and the native `bit_and` and `bit_or`.
pub use Prim.Native.Nat.{bit_and, bit_or}
use Prim.Native.Nat.{digits, bit_and-bitwise, bit_or-bitwise, min, max}
use libclogger.Prelude.{
  ℕ, zero, suc, ◌+◌, ◌-◌, ◌*◌, ◌/◌, ◌%◌, ◌^◌, ◌≤◌, ◌<◌, ◌≡◌, refl, ◌∙◌, Bool, false, ◌&&◌, ◌||◌,
  not, arith, ltb, leb, ◌==◌,
}

-- the digit `i` of `n`, from the lowest
unfoldable pub bit : ℕ → ℕ → Bool
bit n zero = n % 2 == 1
bit n (suc i) = bit (n / 2) i

-- `n >> s`
unfoldable pub shr : ℕ → ℕ → ℕ
shr n zero = n
shr n (suc s) = shr (n / 2) s

-- `n << s`, with no digit lost
unfoldable pub shl : ℕ → ℕ → ℕ
shl n zero = n
shl n (suc s) = 2 * shl n s

-- `k` ones
unfoldable pub ones : ℕ → ℕ
ones zero = 0
ones (suc k) = 2 * ones k + 1

pub ones-word : ones 64 ≡ 2 ^ 64 - 1
unfolding ones
ones-word = refl

and_fuel :
    (n m a b : ℕ) → a ≤ n → a ≤ m → digits (λ b. zero) min n a b ≡ digits (λ b. zero) min m a b
and_fuel zero zero a b p q = refl
and_fuel zero (suc m) zero b p q = refl
and_fuel zero (suc m) (suc a) b p q = absurd (omega arith)
and_fuel (suc n) zero zero b p q = refl
and_fuel (suc n) zero (suc a) b p q = absurd (omega arith)
and_fuel (suc n) (suc m) zero b p q = refl
and_fuel (suc n) (suc m) (suc a) b p q =
    omega (arith, and_fuel n m (suc a / 2) (b / 2) (omega arith) (omega arith))

or_fuel : (n m a b : ℕ) → a ≤ n → a ≤ m → digits (λ b. b) max n a b ≡ digits (λ b. b) max m a b
or_fuel zero zero a b p q = refl
or_fuel zero (suc m) zero b p q = refl
or_fuel zero (suc m) (suc a) b p q = absurd (omega arith)
or_fuel (suc n) zero zero b p q = refl
or_fuel (suc n) zero (suc a) b p q = absurd (omega arith)
or_fuel (suc n) (suc m) zero b p q = refl
or_fuel (suc n) (suc m) (suc a) b p q =
    omega (arith, or_fuel n m (suc a / 2) (b / 2) (omega arith) (omega arith))

pub zero-bit_and : (b : ℕ) → bit_and 0 b ≡ 0
zero-bit_and b = bit_and-bitwise 0 b

zero-bit_or : (b : ℕ) → bit_or 0 b ≡ b
zero-bit_or b = bit_or-bitwise 0 b

-- one digit and the rest, of a number that is not 0
and_digits :
    (k b : ℕ) → let n = suc k in min (n % 2) (b % 2) + 2 * bit_and (n / 2) (b / 2) ≡ bit_and n b
and_digits k b =
    let n = suc k in
    let enough = and_fuel k (n / 2) (n / 2) (b / 2) (omega arith) (omega arith) in
    omega (arith, enough, bit_and-bitwise (n / 2) (b / 2), bit_and-bitwise n b)

pub bit_and_halves : (x y : ℕ) → bit_and x y ≡ 2 * bit_and (x / 2) (y / 2) + min (x % 2) (y % 2)
bit_and_halves zero y = omega (arith, zero-bit_and (y / 2), zero-bit_and y)
bit_and_halves (suc k) y = omega (arith, and_digits k y)

-- one digit and the rest, of a number that is not 0
or_digits :
    (k b : ℕ) → let n = suc k in max (n % 2) (b % 2) + 2 * bit_or (n / 2) (b / 2) ≡ bit_or n b
or_digits k b =
    let n = suc k in
    let enough = or_fuel k (n / 2) (n / 2) (b / 2) (omega arith) (omega arith) in
    omega (arith, enough, bit_or-bitwise (n / 2) (b / 2), bit_or-bitwise n b)

pub bit_or_halves : (x y : ℕ) → bit_or x y ≡ 2 * bit_or (x / 2) (y / 2) + max (x % 2) (y % 2)
bit_or_halves zero y = omega (arith, zero-bit_or (y / 2), zero-bit_or y)
bit_or_halves (suc k) y = omega (arith, or_digits k y)

half_and : (a b : ℕ) → bit_and a b / 2 ≡ bit_and (a / 2) (b / 2)
half_and a b = omega (arith, bit_and_halves a b)

half_or : (a b : ℕ) → bit_or a b / 2 ≡ bit_or (a / 2) (b / 2)
half_or a b = omega (arith, bit_or_halves a b)

pub bit-bit_and : (i a b : ℕ) → bit (bit_and a b) i ≡ (bit a i && bit b i)
unfolding bit
bit-bit_and zero a b = ground (arith, bit_and_halves a b)
bit-bit_and (suc i) a b = rw half_and (bit-bit_and i (a / 2) (b / 2))

pub bit-bit_or : (i a b : ℕ) → bit (bit_or a b) i ≡ (bit a i || bit b i)
unfolding bit
bit-bit_or zero a b = ground (arith, bit_or_halves a b)
bit-bit_or (suc i) a b = rw half_or (bit-bit_or i (a / 2) (b / 2))

pub bit-shr : (n s i : ℕ) → bit (shr n s) i ≡ bit n (s + i)
unfolding bit shr
bit-shr n zero i = let same : 0 + i ≡ i = omega arith in rw same refl
bit-shr n (suc s) i =
    let sum : suc s + i ≡ suc (s + i) = omega arith in rw sum (bit-shr (n / 2) s i)

pub bit-ones : (k i : ℕ) → bit (ones k) i ≡ ltb i k
unfolding bit ones
bit-ones zero zero = ground arith
bit-ones zero (suc i) = bit-ones zero i ∙ ground arith
bit-ones (suc k) zero = ground arith
bit-ones (suc k) (suc i) =
    let half : (2 * ones k + 1) / 2 ≡ ones k = omega arith in rw half (bit-ones k i ∙ ground arith)

-- `~m` in words of `k` digits
pub bit-not : (k m i : ℕ) → m ≤ ones k → i < k → bit (ones k - m) i ≡ not (bit m i)
unfolding bit ones
bit-not zero m i h lt = absurd (omega arith)
bit-not (suc k) m zero h lt = ground arith
bit-not (suc k) m (suc i) h lt =
    let half : (2 * ones k + 1 - m) / 2 ≡ ones k - m / 2 = omega arith in
    rw half (bit-not k (m / 2) i (omega arith) (omega arith))

pub bit-large : (k n i : ℕ) → n ≤ ones k → k ≤ i → bit n i ≡ false
unfolding bit ones
bit-large zero n zero h le = ground arith
bit-large zero n (suc i) h le = bit-large zero (n / 2) i (omega arith) (omega arith)
bit-large (suc k) n zero h le = absurd (omega arith)
bit-large (suc k) n (suc i) h le = bit-large k (n / 2) i (omega arith) (omega arith)

pub bit-shl : (m s i : ℕ) → bit (shl m s) i ≡ (leb s i && bit m (i - s))
unfolding bit shl
bit-shl m zero i = let same : i - 0 ≡ i = omega arith in rw same (ground arith)
bit-shl m (suc s) zero = ground arith
bit-shl m (suc s) (suc i) =
    let half : (2 * shl m s) / 2 ≡ shl m s = omega arith in
    let less : suc i - suc s ≡ i - s = omega arith in rw (half, less) (bit-shl m s i ∙ ground arith)

pub shl-ones : (c s : ℕ) → shl (ones c) s ≤ ones (s + c)
unfolding shl ones
shl-ones c zero = let same : 0 + c ≡ c = omega arith in rw same (omega arith)
shl-ones c (suc s) =
    let sum : suc s + c ≡ suc (s + c) = omega arith in rw sum (omega (arith, shl-ones c s))

pub ones_mono : (k m : ℕ) → k ≤ m → ones k ≤ ones m
unfolding ones
ones_mono zero m h = omega arith
ones_mono (suc k) zero h = absurd (omega arith)
ones_mono (suc k) (suc m) h = omega (arith, ones_mono k m (omega arith))

pub shr-le : (n s : ℕ) → shr n s ≤ n
unfolding shr
shr-le n zero = omega arith
shr-le n (suc s) = omega (arith, shr-le (n / 2) s)

pub bit-zero : (i : ℕ) → bit 0 i ≡ false
unfolding ones
bit-zero i = bit-large 0 0 i (omega arith) (omega arith)

pub bit_and-le : (k a b : ℕ) → a ≤ ones k → bit_and a b ≤ ones k
unfolding ones
bit_and-le zero a b h =
    let nothing : a ≡ 0 = omega arith in rw nothing (omega (arith, zero-bit_and b))
bit_and-le (suc k) a b h =
    omega (arith, bit_and_halves a b, bit_and-le k (a / 2) (b / 2) (omega arith))

pub bit_or-le : (k a b : ℕ) → a ≤ ones k → b ≤ ones k → bit_or a b ≤ ones k
unfolding ones
bit_or-le zero a b h g =
    let nothing : a ≡ 0 = omega arith in rw nothing (omega (arith, zero-bit_or b))
bit_or-le (suc k) a b h g =
    omega (arith, bit_or_halves a b, bit_or-le k (a / 2) (b / 2) (omega arith) (omega arith))

-- `x & ~(m ones)` in words of `k` digits rounds down to a multiple of `ones m + 1`.
pub round_down :
    (k m x : ℕ)
    → m ≤ k
    → x ≤ ones k
    → let f = bit_and x (ones k - ones m) in
      (f ≤ x) × (x ≤ f + ones m) × (q : ℕ) × (f ≡ q * (ones m + 1))
unfolding ones
round_down zero zero x h small =
    let nothing : x ≡ 0 = omega arith in
    rw nothing (omega (arith, zero-bit_and 0), omega arith, 0, omega (arith, zero-bit_and 0))
round_down zero (suc m) x h small = absurd (omega arith)
round_down (suc k) zero x h small =
    let rest = round_down k zero (x / 2) (omega arith) (omega arith) in
    let mask : (2 * ones k + 1 - 0) / 2 ≡ ones k - 0 = omega arith in
    let odd : (2 * ones k + 1 - 0) % 2 ≡ 1 = omega arith in
    let whole : bit_and x (2 * ones k + 1 - 0) ≡ x =
      bit_and_halves x (2 * ones k + 1 - 0) ∙ rw (mask, odd) (omega (arith, rest.0, rest.1)) in
    rw whole (omega arith, omega arith, x, omega arith)
round_down (suc k) (suc m) x h small =
    let rest = round_down k m (x / 2) (omega arith) (omega arith) in
    let below = ones_mono m k (omega arith) in
    let mask : (2 * ones k + 1 - (2 * ones m + 1)) / 2 ≡ ones k - ones m = omega arith in
    let even : (2 * ones k + 1 - (2 * ones m + 1)) % 2 ≡ 0 = omega arith in
    let halves : bit_and x (2 * ones k + 1 - (2 * ones m + 1))
        ≡ 2 * bit_and (x / 2) (ones k - ones m) =
      bit_and_halves x (2 * ones k + 1 - (2 * ones m + 1)) ∙ rw (mask, even) (omega arith) in
    rw halves (omega (arith, rest.0), omega (arith, rest.1), rest.2, rw (rest.3) (omega arith))
