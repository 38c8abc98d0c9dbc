-- ===== src/Flags/Splice.antt =====
-- The flags of source/common/membuff.c with a range of bits set or cleared from one flag on.
use libclogger.Prelude.{
  ℕ, zero, suc, ◌+◌, ◌-◌, ◌*◌, ◌≤◌, ◌<◌, ◌≡◌, refl, ap, ◌∙◌, Bool, true, false, List, [], ◌∷◌, ◌++◌,
  take, drop, length, arith, ltb, Bool-cases, inl, inr, ltb→lt, if◌then◌else◌, length-append,
}
use libclogger.Flags.{mask_bits}
use libclogger.Flags.Find.{bit_at, AllWords}
use libclogger.Flags.Mask.{inside, bit_at-mask_bits, AllWords-mask_bits, length-mask_bits}

-- `flags` with the range of `count` bits from bit `start` of flag `k` on made `is_set`
abbrev pub splice : List ℕ → ℕ → ℕ → ℕ → Bool → List ℕ
splice flags k start count is_set = take k flags ++ mask_bits (drop k flags) start count is_set

bit_at-drop : (k i : ℕ) (flags : List ℕ) → bit_at (drop k flags) i ≡ bit_at flags (k * 64 + i)
unfolding bit_at
bit_at-drop zero i flags = let same : 0 * 64 + i ≡ i = omega arith in rw same refl
bit_at-drop (suc k) i [] = refl
bit_at-drop (suc k) i (flag ∷ flags) =
    let beyond : ltb (suc k * 64 + i) 64 ≡ false = ground arith in
    let rest : suc k * 64 + i - 64 ≡ k * 64 + i = omega arith in
    rw (beyond, rest) (bit_at-drop k i flags)

bit_at-splice :
    (k j : ℕ) (flags ys : List ℕ)
    → k ≤ length flags
    → bit_at (take k flags ++ ys) j
      ≡ (if ltb j (k * 64) then bit_at flags j else bit_at ys (j - k * 64))
unfolding bit_at
bit_at-splice zero j flags ys h = let same : j - 0 * 64 ≡ j = omega arith in rw same (ground arith)
bit_at-splice (suc k) j [] ys h = absurd (omega arith)
bit_at-splice (suc k) j (flag ∷ flags) ys h = elim (Bool-cases (ltb j 64)) [
  | inl here ↦ let low : ltb j (suc k * 64) ≡ true = ground arith in rw (here, low) refl
  | inr beyond ↦
      let shift : ltb j (suc k * 64) ≡ ltb (j - 64) (k * 64) = ground arith in
      let rest : j - 64 - k * 64 ≡ j - suc k * 64 = omega arith in
      rw (beyond, shift) (bit_at-splice k (j - 64) flags ys (omega arith) ∙ rw rest refl)
]

length-take-drop :
    (k : ℕ) (flags : List ℕ)
    → k ≤ length flags
    → length (take k flags) + length (drop k flags) ≡ length flags
length-take-drop zero flags h = omega arith
length-take-drop (suc k) [] h = refl
length-take-drop (suc k) (flag ∷ flags) h = omega (arith, length-take-drop k flags (omega arith))

length-drop : (k : ℕ) (flags : List ℕ) → k ≤ length flags → length (drop k flags) + k ≡ length flags
length-drop zero flags h = omega arith
length-drop (suc k) [] h = absurd (omega arith)
length-drop (suc k) (flag ∷ flags) h = omega (arith, length-drop k flags (omega arith))

AllWords-append : (xs ys : List ℕ) → AllWords xs → AllWords ys → AllWords (xs ++ ys)
AllWords-append [] ys h g = g
AllWords-append (x ∷ xs) ys h g = (h.0, AllWords-append xs ys h.1 g)

AllWords-take : (k : ℕ) (xs : List ℕ) → AllWords xs → AllWords (take k xs)
AllWords-take zero xs h = tt
AllWords-take (suc k) [] h = tt
AllWords-take (suc k) (x ∷ xs) h = (h.0, AllWords-take k xs h.1)

AllWords-drop : (k : ℕ) (xs : List ℕ) → AllWords xs → AllWords (drop k xs)
AllWords-drop zero xs h = h
AllWords-drop (suc k) [] h = tt
AllWords-drop (suc k) (x ∷ xs) h = AllWords-drop k xs h.1

module _ (flags : List ℕ) (k start count : ℕ) (is_set : Bool) (low : start < 64) where
  pub AllWords-splice : AllWords flags → AllWords (splice flags k start count is_set)
  AllWords-splice words =
      AllWords-append (take k flags) (mask_bits (drop k flags) start count is_set)
        (AllWords-take k flags words)
        (AllWords-mask_bits (drop k flags) start count is_set low (AllWords-drop k flags words))

  pub length-splice : k ≤ length flags → length (splice flags k start count is_set) ≡ length flags
  length-splice h = omega (
    arith,
    length-append (take k flags) (mask_bits (drop k flags) start count is_set),
    length-mask_bits (drop k flags) start count is_set,
    length-take-drop k flags h,
  )

  -- the range becomes what is asked, and all other bits stay
  pub bit_at-range :
      (j : ℕ)
      → k ≤ length flags
      → k * 64 + start + count ≤ 64 * length flags
      → bit_at (splice flags k start count is_set) j
        ≡ (if inside (k * 64 + start) count j then is_set else bit_at flags j)
  bit_at-range j h fits =
      bit_at-splice k j flags (mask_bits (drop k flags) start count is_set) h
      ∙ (elim (Bool-cases (ltb j (k * 64))) [
        | inl before ↦ rw before (ground arith)
        | inr behind ↦
            let at : k * 64 + (j - k * 64) ≡ j = ground arith in
            rw behind (
              bit_at-mask_bits (drop k flags) start count is_set (j - k * 64) low
                (omega (arith, length-drop k flags h))
              ∙ ap (λ v. if inside start count (j - k * 64) then is_set else v)
                  (bit_at-drop k (j - k * 64) flags ∙ ap (bit_at flags) at)
              ∙ ground arith)
      ])

-- a set bit is in a flag
pub bit_at-below :
    (flags : List ℕ) (j : ℕ) → AllWords flags → bit_at flags j ≡ true → j < 64 * length flags
unfolding bit_at
bit_at-below [] j words set = cc
bit_at-below (flag ∷ flags) j words set = elim (Bool-cases (ltb j 64)) [
  | inl here ↦ omega (arith, ltb→lt _ _ here)
  | inr beyond ↦
      let later : bit_at flags (j - 64) ≡ true = rw beyond at set in
      ground (arith, bit_at-below flags (j - 64) words.1 later)
]
