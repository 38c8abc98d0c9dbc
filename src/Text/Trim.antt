-- ===== src/Text/Trim.antt =====
-- The functions of source/common/cstrbuf.h that cut characters off the ends of a string.
use libclogger.Prelude.{
  ℕ, zero, suc, ◌+◌, ◌-◌, ◌≤◌, ◌<◌, ◌≡◌, ◌≢◌, refl, sym, ap, ◌∙◌, Bool, true, false, List, [], ◌∷◌,
  ◌++◌, length, take, drop, replicate, arith, length-append, length-replicate, leb, ◌==◌,
  if◌then◌else◌, Bool-cases, inl, inr, ◌⊎◌,
}
use mathlib.Core.Path.{subst}
use mathlib.Core.List.{append-nil, append_assoc}
use libclogger.Text.{
  byte_at, last_other, rtrim_chr, ltrim_whitespace, rtrim_whitespace, lrtrim_whitespace,
}

length-take : (n : ℕ) (str : List ℕ) → n ≤ length str → length (take n str) ≡ n
length-take zero str h = refl
length-take (suc n) [] h = absurd (omega arith)
length-take (suc n) (c ∷ str) h = ap suc (length-take n str (omega arith))

pub take-append : (xs ys : List ℕ) → take (length xs) (xs ++ ys) ≡ xs
take-append [] ys = refl
take-append (x ∷ xs) ys = ap (λ t. x ∷ t) (take-append xs ys)

-- a string ends with its last byte
append-last : (n : ℕ) (str : List ℕ) → length str ≡ suc n → str ≡ take n str ++ byte_at str n ∷ []
unfolding byte_at
append-last n [] h = absurd (omega arith)
append-last zero (c ∷ []) h = refl
append-last zero (c ∷ d ∷ str) h = absurd (omega arith)
append-last (suc n) (c ∷ str) h = ap (λ t. c ∷ t) (append-last n str (omega arith))

pub byte_at-append : (xs ys : List ℕ) → 0 < length xs → byte_at (xs ++ ys) 0 ≡ byte_at xs 0
unfolding byte_at
byte_at-append [] ys h = absurd (omega arith)
byte_at-append (x ∷ xs) ys h = refl

pub last_of_tail :
    (b : ℕ) (u : List ℕ) → 0 < length u → byte_at (b ∷ u) (length u) ≡ byte_at u (length u - 1)
unfolding byte_at
last_of_tail b [] h = absurd (omega arith)
last_of_tail b (c ∷ u) h =
    let at : suc (length u) - 1 ≡ length u = omega arith in ap (byte_at (c ∷ u)) (sym at)

module _ (isspace : ℕ → Bool) where
  -- all bytes are white space
  abbrev pub Blank : List ℕ → Type 0
  Blank [] = Unit {0}
  Blank (b ∷ str) = (isspace b ≡ true) × Blank str

  Blank-append : (xs ys : List ℕ) → Blank xs → Blank ys → Blank (xs ++ ys)
  Blank-append [] ys h k = k
  Blank-append (x ∷ xs) ys h k = (h.0, Blank-append xs ys h.1 k)

  -- `r` is what is left of `str` between the white space at its ends.
  abbrev pub Trimmed : List ℕ → List ℕ → Type 0
  Trimmed str r =
      (a : List ℕ) × (b : List ℕ) × (str ≡ a ++ (r ++ b))
      × Blank a
      × Blank b
      × ((r ≡ [])
          ⊎ ((isspace (byte_at r 0) ≡ false) × (isspace (byte_at r (length r - 1)) ≡ false)))

  ltrimmed :
      (str : List ℕ)
      → let p = ltrim_whitespace isspace str in
        (a : List ℕ) × (str ≡ a ++ p) × Blank a × ((p ≡ []) ⊎ (isspace (byte_at p 0) ≡ false))
  unfolding ltrim_whitespace byte_at
  ltrimmed [] = ([], refl, tt, inl refl)
  ltrimmed (c ∷ str) = elim (Bool-cases (isspace c)) [
    | inl white ↦
        let (a, e, blank, first) = ltrimmed str in
        rw white (c ∷ a, ap (λ t. c ∷ t) e, (white, blank), first)
    | inr other ↦ rw other ([], refl, tt, inr other)
  ]

  rtrimmed :
      (len : ℕ) (str : List ℕ)
      → length str ≡ len
      → let r = (rtrim_whitespace isspace str len).0 in
        (b : List ℕ) × (str ≡ r ++ b)
        × Blank b
        × ((r ≡ []) ⊎ ((0 < length r) × (isspace (byte_at r (length r - 1)) ≡ false)))
  unfolding rtrim_whitespace
  rtrimmed zero [] h = ([], refl, tt, inl refl)
  rtrimmed zero (c ∷ str) h = absurd (omega arith)
  rtrimmed (suc n) str h = elim (Bool-cases (isspace (byte_at str n))) [
    | inl white ↦
        let r = (rtrim_whitespace isspace (take n str) n).0 in
        let (b, e, blank, last) = rtrimmed n (take n str) (length-take n str (omega (arith, h))) in
        rw white (
          b ++ byte_at str n ∷ [],
          append-last n str h
              ∙ ap (λ t. t ++ byte_at str n ∷ []) e
              ∙ append_assoc r b (byte_at str n ∷ []),
          Blank-append b (byte_at str n ∷ []) blank (white, tt),
          last,
        )
    | inr other ↦
        let at : length str - 1 ≡ n = omega (arith, h) in
        rw other (
          [],
          sym (append-nil str),
          tt,
          inr (omega (arith, h), ap (λ i. isspace (byte_at str i)) at ∙ other),
        )
  ]

  -- `cstr_LRtrim_whitespace` leaves out the white space at both ends and nothing else.
  pub lrtrim_whitespace-Trimmed : (str : List ℕ) → Trimmed str (lrtrim_whitespace isspace str)
  unfolding lrtrim_whitespace
  lrtrim_whitespace-Trimmed str =
      let p = ltrim_whitespace isspace str in
      let r = (rtrim_whitespace isspace p (length p)).0 in
      let (a, e, blank_a, first) = ltrimmed str in
      let (b, f, blank_b, last) = rtrimmed (length p) p refl in
      (
        a,
        b,
        e ∙ ap (λ t. a ++ t) f,
        blank_a,
        blank_b,
        elim last [
          | inl nothing ↦ inl nothing
          | inr (some_bytes, other) ↦ inr (begins p r b f some_bytes first, other)
        ],
      )
    where
      begins :
          (p r b : List ℕ)
          → p ≡ r ++ b
          → 0 < length r
          → (p ≡ []) ⊎ (isspace (byte_at p 0) ≡ false)
          → isspace (byte_at r 0) ≡ false
      begins p r b f pos (inl nothing) =
          absurd (omega (arith, ap length f, ap length nothing, length-append r b))
      begins p r b f pos (inr other) =
          ap isspace (sym (ap (λ t. byte_at t 0) f ∙ byte_at-append r b pos)) ∙ other

-- The string ends behind `u`, whose last byte is another one, and goes on with `ch` only.
record EndsIn (str : List ℕ) (ch stop : ℕ) : Type 0 where
  kept : List ℕ
  cut : ℕ
  whole : str ≡ kept ++ replicate cut ch
  ends : length kept ≡ stop
  some_bytes : 0 < stop
  other : byte_at kept (stop - 1) ≢ ch

longer : (b : ℕ) {str : List ℕ} {ch stop : ℕ} → EndsIn str ch stop → EndsIn (b ∷ str) ch (suc stop)
longer b {str} {ch} {stop} e =
    let pos : 0 < length e.kept = omega (arith, e.ends, e.some_bytes) in
    let back : length e.kept - 1 ≡ stop - 1 = omega (arith, e.ends) in
    let at : suc stop - 1 ≡ length e.kept = omega (arith, e.ends) in
    let step : byte_at (b ∷ e.kept) (suc stop - 1) ≡ byte_at e.kept (stop - 1) =
      ap (byte_at (b ∷ e.kept)) at ∙ last_of_tail b e.kept pos ∙ ap (byte_at e.kept) back in
    record {
      kept = b ∷ e.kept;
      cut = e.cut;
      whole = ap (λ t. b ∷ t) e.whole;
      ends = ap suc e.ends;
      some_bytes = omega arith;
      other = λ same. e.other (sym step ∙ same);
    }

alone : (b ch n : ℕ) → (b == ch) ≡ false → EndsIn (b ∷ replicate n ch) ch 1
unfolding byte_at
alone b ch n differs = record {
  kept = b ∷ [];
  cut = n;
  whole = refl;
  ends = refl;
  some_bytes = omega arith;
  other = λ e. ground arith;
}

-- Where the loop of `cstr_Rtrim_chr` finds the last other byte: nowhere, or at a place.
last_other-found :
    (str : List ℕ) (ch p q : ℕ)
    → let q' = last_other str ch p q in
      ((q' ≡ q) × (str ≡ replicate (length str) ch))
      ⊎ ((stop : ℕ) × (q' + 1 ≡ p + stop) × EndsIn str ch stop)
unfolding last_other
last_other-found [] ch p q = inl (refl, refl)
last_other-found (b ∷ str) ch p q = elim (Bool-cases (b == ch)) [
  | inl same ↦
      let at : b ≡ ch = ground arith in
      rw same (elim (last_other-found str ch (p + 1) q) [
        | inl (e, all) ↦ inl (e, λ i. at i ∷ all i)
        | inr (stop, place, ends) ↦ inr (suc stop, omega (arith, place), longer b ends)
      ])
  | inr differs ↦ rw differs (elim (last_other-found str ch (p + 1) p) [
    | inl (e, all) ↦ inr (
      1,
      omega (arith, e),
      subst (λ t. EndsIn (b ∷ t) ch 1) (sym all) (alone b ch (length str) differs),
    )
    | inr (stop, place, ends) ↦ inr (suc stop, omega (arith, place), longer b ends)
  ])
]

-- What `cstr_Rtrim_chr` leaves of `str`, and the length that it writes.
abbrev pub Rtrimmed : List ℕ → ℕ → List ℕ × ℕ → Type 0
Rtrimmed str ch (r, len) =
    (len ≡ length r)
    × (cut : ℕ) × (str ≡ r ++ replicate cut ch)
    × ((str ≡ []) ⊎ ((0 < len) × ((byte_at r (len - 1) ≢ ch) ⊎ (r ≡ ch ∷ []))))

-- `cstr_Rtrim_chr` cuts off nothing but the character, and all of it at the end of a string that has
-- others; of a string with no other byte it keeps one.
pub rtrim_chr-Rtrimmed : (str : List ℕ) (ch : ℕ) → Rtrimmed str ch (rtrim_chr str ch)
unfolding rtrim_chr byte_at
rtrim_chr-Rtrimmed str ch = elim (last_other-found str ch 0 0) [
  | inl (none_other, all) ↦ only (length str) str none_other all
  | inr (stop, place, ends) ↦
      let at : last_other str ch 0 0 + 1 ≡ stop = omega (arith, place) in
      let total : length str ≡ stop + ends.cut = omega (
        arith,
        ap length ends.whole,
        length-append ends.kept (replicate ends.cut ch),
        length-replicate ends.cut ch,
        ends.ends,
      ) in
      let fits : leb stop (length str) ≡ true = ground (arith, total) in
      let kept : take stop str ≡ ends.kept =
        ap (take stop) ends.whole
        ∙ ap (λ n. take n (ends.kept ++ replicate ends.cut ch)) (sym ends.ends)
        ∙ take-append ends.kept (replicate ends.cut ch) in
      rw (at, fits, kept)
        (sym ends.ends, ends.cut, ends.whole, inr (ends.some_bytes, inl ends.other))
]
  where
    only :
        (n : ℕ) (s : List ℕ)
        → last_other s ch 0 0 ≡ 0
        → s ≡ replicate n ch
        → Rtrimmed s ch
            (let q = last_other s ch 0 0 + 1 in if leb q (length s) then (take q s, q) else (s, 0))
    only n [] at all =
        let q : last_other [] ch 0 0 + 1 ≡ 1 = omega (arith, at) in rw q (refl, 0, refl, inl refl)
    only zero (c ∷ s) at all = absurd (omega (arith, ap length all))
    only (suc n) (c ∷ s) at all =
        let q : last_other (c ∷ s) ch 0 0 + 1 ≡ 1 = omega (arith, at) in
        let fits : leb 1 (suc (length s)) ≡ true = ground arith in
        let same : c ≡ ch = ap (λ t. byte_at t 0) all in
        rw (q, fits)
          (refl, n, ap (λ t. c ∷ drop 1 t) all, inr (omega arith, inr (λ i. same i ∷ [])))
