-- ===== src/Flags/Next.antt =====
-- `FFS64_next_setbit` and `FFS64_next_unsetbit` of source/common/ffs64.h find the first bit of a kind.
use libclogger.Prelude.{
  ℕ, ◌+◌, ◌-◌, ◌≤◌, ◌<◌, ◌≡◌, refl, sym, ap, ◌∙◌, Bool, true, false, not, arith, ltb, ◌==◌,
  if◌then◌else◌, Bool-cases, inl, inr, ◌⊎◌, ltb→lt,
}
use libclogger.Bits.{bit, shr, ones-word, bit-shr, bit-ones, bit-not, bit-large, shr-le, bit-zero}
use libclogger.Flags.{flag_max, first_setbit, next_setbit, next_unsetbit}

-- `r` is one more than the place of the lowest set bit of `n`: what `__builtin_ffsll` is documented to
-- return for `n` that is not 0.
abbrev pub Lowest : ℕ → ℕ → Type 0
Lowest n r = (0 < r) × (bit n (r - 1) ≡ true) × ((i : ℕ) → i + 1 < r → bit n i ≡ false)

-- `r` is the first place from `lo` on where `p` holds, counted from 1, or 0 if it holds nowhere.
abbrev pub FirstIn : (ℕ → Bool) → ℕ → ℕ → Type 0
FirstIn p lo r =
    ((r ≡ 0) × ((i : ℕ) → lo ≤ i → i < 64 → p i ≡ false))
    ⊎ ((lo < r) × (r ≤ 64) × (p (r - 1) ≡ true) × ((i : ℕ) → lo ≤ i → i + 1 < r → p i ≡ false))

pub bit-below : (n i : ℕ) → n ≤ flag_max → bit n i ≡ true → i < 64
bit-below n i h set = elim (Bool-cases (ltb i 64)) [
  | inl below ↦ ltb→lt _ _ below
  | inr beyond ↦
      let clear : bit n i ≡ false = bit-large 64 n i (omega (arith, ones-word)) (ground arith) in
      cc (set, clear)
]

module _ (ffsll : ℕ → ℕ) (law : (n : ℕ) → 0 < n → n ≤ flag_max → Lowest n (ffsll n)) where
  first_setbit-Lowest : (n : ℕ) → 0 < n → n ≤ flag_max → Lowest n (first_setbit ffsll n)
  unfolding first_setbit bit
  first_setbit-Lowest n pos h =
      let some_bit : (n == 0) ≡ false = ground arith in
      rw some_bit (elim (Bool-cases (n == flag_max)) [
        | inl all ↦ rw all (omega arith, ground arith, λ i lt. absurd (omega arith))
        | inr others ↦ rw others (law n pos h)
      ])

  first_setbit-zero : first_setbit ffsll 0 ≡ 0
  unfolding first_setbit
  first_setbit-zero = refl

  shifted-FirstIn :
      (n lo : ℕ)
      → n ≤ flag_max
      → let pos = first_setbit ffsll (shr n lo) in
        FirstIn (bit n) lo (if pos == 0 then 0 else pos + lo)
  shifted-FirstIn n lo h = elim (Bool-cases (shr n lo == 0)) [
    | inl empty ↦
        let nothing : shr n lo ≡ 0 = ground arith in
        let out : first_setbit ffsll (shr n lo) ≡ 0 =
          ap (first_setbit ffsll) nothing ∙ first_setbit-zero in
        rw out (
          inl (
            refl,
            λ i le lt.
                let place : lo + (i - lo) ≡ i = omega arith in
                ap (bit n) (sym place)
                ∙ sym (bit-shr n lo (i - lo))
                ∙ ap (λ m. bit m (i - lo)) nothing
                ∙ bit-zero (i - lo),
          ))
    | inr some_left ↦
        let pos = first_setbit ffsll (shr n lo) in
        let low = first_setbit-Lowest (shr n lo) (ground arith) (omega (arith, shr-le n lo)) in
        let there : (pos == 0) ≡ false = ground (arith, low.0) in
        let place : lo + (pos - 1) ≡ pos + lo - 1 = omega (arith, low.0) in
        let set : bit n (pos + lo - 1) ≡ true =
          ap (bit n) (sym place) ∙ sym (bit-shr n lo (pos - 1)) ∙ low.1 in
        rw there (
          inr (
            omega (arith, low.0),
            omega (arith, bit-below n (pos + lo - 1) h set, low.0),
            set,
            λ i le lt.
                let at : lo + (i - lo) ≡ i = omega arith in
                ap (bit n) (sym at) ∙ sym (bit-shr n lo (i - lo)) ∙ low.2 (i - lo) (omega arith),
          ))
  ]

  bit-flag_max : (i : ℕ) → i < 64 → bit flag_max i ≡ true
  bit-flag_max i lt = ap (λ n. bit n i) (sym ones-word) ∙ bit-ones 64 i ∙ ground arith

  -- `FFS64_next_setbit` returns the first set bit of the flag from `startbit` on, and 0 exactly if there
  -- is none, given that `__builtin_ffsll` finds the lowest bit.
  pub next_setbit-FirstIn :
      (flag startbit : ℕ)
      → flag ≤ flag_max
      → 1 ≤ startbit
      → startbit ≤ 64
      → FirstIn (bit flag) (startbit - 1) (next_setbit ffsll flag startbit)
  unfolding next_setbit
  next_setbit-FirstIn flag startbit h lo hi = elim (Bool-cases (flag == 0)) [
    | inl empty ↦
        let nothing : flag ≡ 0 = ground arith in
        rw empty (inl (refl, λ i le lt. ap (λ n. bit n i) nothing ∙ bit-zero i))
    | inr some_bit ↦ rw some_bit (elim (Bool-cases (flag == flag_max)) [
      | inl all ↦
          let same : flag ≡ flag_max = ground arith in
          rw all (
            inr (
              omega arith,
              hi,
              ap (λ n. bit n (startbit - 1)) same ∙ bit-flag_max (startbit - 1) (omega arith),
              λ i le lt. absurd (omega arith),
            ))
      | inr others ↦ rw others (shifted-FirstIn flag (startbit - 1) h)
    ])
  ]

  invert-FirstIn :
      (flag lo r : ℕ)
      → flag ≤ flag_max
      → FirstIn (bit (flag_max - flag)) lo r
      → FirstIn (λ i. not (bit flag i)) lo r
  invert-FirstIn flag lo r h first = elim first [
    | inl nowhere ↦ inl (nowhere.0, λ i le lt. sym (inverted i lt) ∙ nowhere.1 i le lt)
    | inr there ↦ inr (
      there.0,
      there.1,
      sym (inverted (r - 1) (omega (arith, there.0, there.1))) ∙ there.2,
      λ i le lt. sym (inverted i (omega (arith, there.1))) ∙ there.3 i le lt,
    )
  ]
    where
      inverted : (i : ℕ) → i < 64 → bit (flag_max - flag) i ≡ not (bit flag i)
      inverted i lt =
          ap (λ m. bit (m - flag) i) (sym ones-word)
          ∙ bit-not 64 flag i (omega (arith, ones-word)) lt

  -- `FFS64_next_unsetbit` returns the first clear bit of the flag from `startbit` on, and 0 exactly if
  -- there is none.
  pub next_unsetbit-FirstIn :
      (flag startbit : ℕ)
      → flag ≤ flag_max
      → 1 ≤ startbit
      → startbit ≤ 64
      → FirstIn (λ i. not (bit flag i)) (startbit - 1) (next_unsetbit ffsll flag startbit)
  unfolding next_unsetbit
  next_unsetbit-FirstIn flag startbit h lo hi = elim (Bool-cases (flag == flag_max)) [
    | inl all ↦
        let same : flag ≡ flag_max = ground arith in
        rw all (inl (refl, λ i le lt. ap (λ n. not (bit n i)) same ∙ ap not (bit-flag_max i lt)))
    | inr others ↦ rw others (
        invert-FirstIn flag (startbit - 1) _ h
          (shifted-FirstIn (flag_max - flag) (startbit - 1) (omega arith)))
  ]
