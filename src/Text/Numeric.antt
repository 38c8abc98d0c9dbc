-- ===== src/Text/Numeric.antt =====
-- `cstr_isnumeric` of source/common/cstrbuf.h.
use libclogger.Prelude.{
  ℕ, ◌+◌, ◌≤◌, ◌<◌, ◌≡◌, refl, sym, ap, ◌∙◌, Bool, true, false, ◌&&◌, ◌||◌, Option, List, [], ◌∷◌,
  ◌++◌, length, take, drop, arith, ltb, leb, ◌==◌, if◌then◌else◌, Bool-cases, inl, inr, ◌⊎◌, ◌↔◌,
}
use mathlib.Core.Path.{subst}
use libclogger.Text.{byte_at, on_place, lrtrim_whitespace, numeric_loop, skip_sign, isnumeric}

-- the digits of the C locale
abbrev pub is_digit : ℕ → Bool
is_digit c = leb b'0' c && leb c b'9'

-- nothing but digits
abbrev pub Digits : List ℕ → Type 0
Digits [] = Unit {0}
Digits (c ∷ str) = (is_digit c ≡ true) × Digits str

-- digits, or digits with a dot between, in front or behind
abbrev pub Decimal : List ℕ → Type 0
Decimal str =
    Digits str ⊎ ((a : List ℕ) × (b : List ℕ) × (str ≡ a ++ b'.' ∷ b) × Digits a × Digits b)

-- a decimal with a sign or without
abbrev pub Numeral : List ℕ → Type 0
Numeral str =
    Decimal str ⊎ ((body : List ℕ) × ((str ≡ b'+' ∷ body) ⊎ (str ≡ b'-' ∷ body)) × Decimal body)

-- a decimal begins with a digit or with its dot
Decimal-head :
    (c : ℕ) (str : List ℕ) → Decimal (c ∷ str) → (is_digit c ≡ true) ⊎ ((c ≡ b'.') × Digits str)
unfolding byte_at
Decimal-head c str (inl all) = inl all.0
Decimal-head c str (inr ([], b, e, da, db)) =
    inr (ap (λ t. byte_at t 0) e, subst Digits (ap (λ t. drop 1 t) (sym e)) db)
Decimal-head c str (inr (x ∷ a, b, e, da, db)) = inl (ap (λ t. is_digit (byte_at t 0)) e ∙ da.0)

signed : (str : List ℕ) → Decimal (skip_sign str) ↔ Numeral str
unfolding skip_sign byte_at
signed [] = (
  λ h. inl h,
  λ h. elim h [
    | inl d ↦ d
    | inr (body, sign, d) ↦ elim sign [ inl e ↦ absurd (cc e) | inr e ↦ absurd (cc e) ]
  ],
)
signed (c ∷ str) = elim (Bool-cases (c == b'+' || c == b'-')) [
  | inl sign ↦ rw sign (λ d. inr (str, which c str sign, d), λ h. unsign c str sign h)
  | inr no_sign ↦ rw no_sign (
    λ d. inl d,
    λ h. elim h [
      | inl d ↦ d
      | inr (body, inl e, d) ↦ absurd (ground (arith, no_sign, ap (λ t. byte_at t 0) e))
      | inr (body, inr e, d) ↦ absurd (ground (arith, no_sign, ap (λ t. byte_at t 0) e))
    ],
  )
]
  where
    which :
        (c : ℕ) (str : List ℕ)
        → (c == b'+' || c == b'-') ≡ true
        → (c ∷ str ≡ b'+' ∷ str) ⊎ (c ∷ str ≡ b'-' ∷ str)
    which c str sign = elim (Bool-cases (c == b'+')) [
      | inl plus ↦ let at : c ≡ b'+' = ground arith in inl (ap (λ b. b ∷ str) at)
      | inr other ↦ let at : c ≡ b'-' = ground arith in inr (ap (λ b. b ∷ str) at)
    ]

    unsign :
        (c : ℕ) (str : List ℕ) → (c == b'+' || c == b'-') ≡ true → Numeral (c ∷ str) → Decimal str
    unsign c str sign (inl d) = elim (Decimal-head c str d) [
      | inl digit ↦ absurd (ground (arith, digit, sign))
      | inr (at, digits) ↦ absurd (ground (arith, at, sign))
    ]
    unsign c str sign (inr (body, inl e, d)) = subst Decimal (ap (λ t. drop 1 t) (sym e)) d
    unsign c str sign (inr (body, inr e, d)) = subst Decimal (ap (λ t. drop 1 t) (sym e)) d

digit_in_front : (c : ℕ) (str : List ℕ) → is_digit c ≡ true → Decimal (c ∷ str) ↔ Decimal str
unfolding byte_at
digit_in_front c str digit = (strip, add)
  where
    dot_is_none : c ≡ b'.' → ⊥
    dot_is_none at = cc (digit, ap is_digit at)

    strip : Decimal (c ∷ str) → Decimal str
    strip (inl all) = inl (all.1)
    strip (inr ([], b, e, da, db)) = absurd (dot_is_none (ap (λ t. byte_at t 0) e))
    strip (inr (x ∷ a, b, e, da, db)) = inr (a, b, ap (λ t. drop 1 t) e, da.1, db)

    add : Decimal str → Decimal (c ∷ str)
    add (inl all) = inl (digit, all)
    add (inr (a, b, e, da, db)) = inr (c ∷ a, b, ap (λ t. c ∷ t) e, (digit, da), db)

module _ (isdigit : ℕ → Bool) (law : (c : ℕ) → isdigit c ≡ is_digit c) where
  Digits-loop : (str : List ℕ) → (numeric_loop isdigit 1 str ≡ true) ↔ Digits str
  unfolding numeric_loop
  Digits-loop [] = (λ h. tt, λ h. refl)
  Digits-loop (c ∷ str) =
      let rest = Digits-loop str in
      let two : ltb 1 (1 + 1) ≡ true = ground arith in
      rw (law c, two)
        (elim (Bool-cases (is_digit c)) [
          | inl digit ↦ rw digit (λ h. (refl, rest.0 h), λ h. rest.1 h.1)
          | inr other ↦ rw other (elim (Bool-cases (c == b'.')) [
            | inl dot ↦ rw dot (λ h. cc, λ h. cc (h.0))
            | inr strange ↦ rw strange (λ h. cc, λ h. cc (h.0))
          ])
        ])

  module _ (c : ℕ) (str : List ℕ) where
    loop_digit : is_digit c ≡ true → numeric_loop isdigit 0 (c ∷ str) ≡ numeric_loop isdigit 0 str
    unfolding numeric_loop
    loop_digit digit = rw (law c, digit) refl

    loop_dot :
        is_digit c ≡ false
        → c ≡ b'.'
        → numeric_loop isdigit 0 (c ∷ str) ≡ numeric_loop isdigit 1 str
    unfolding numeric_loop
    loop_dot other at =
        let dot : (c == b'.') ≡ true = ground (arith, at) in rw (law c, other, dot) refl

    loop_strange :
        is_digit c ≡ false → (c == b'.') ≡ false → numeric_loop isdigit 0 (c ∷ str) ≡ false
    unfolding numeric_loop
    loop_strange other strange = rw (law c, other, strange) refl

  Decimal-loop : (str : List ℕ) → (numeric_loop isdigit 0 str ≡ true) ↔ Decimal str
  unfolding numeric_loop
  Decimal-loop [] = (λ h. inl tt, λ h. refl)
  Decimal-loop (c ∷ str) =
      let rest = Decimal-loop str in
      elim (Bool-cases (is_digit c)) [
        | inl digit ↦
            let more = digit_in_front c str digit in
            let same = loop_digit c str digit in
            (λ h. more.1 (rest.0 (sym same ∙ h)), λ h. same ∙ rest.1 (more.0 h))
        | inr other ↦ elim (Bool-cases (c == b'.')) [
          | inl dot ↦
              let at : c ≡ b'.' = ground arith in
              let same = loop_dot c str other at in
              (
                λ h. inr ([], str, ap (λ b. b ∷ str) at, tt, (Digits-loop str).0 (sym same ∙ h)),
                λ h. elim (Decimal-head c str h) [
                  | inl digit ↦ absurd (cc (digit, other))
                  | inr (at', digits) ↦ same ∙ (Digits-loop str).1 digits
                ],
              )
          | inr strange ↦ (
            λ h. absurd (cc (h, loop_strange c str other strange)),
            λ h. elim (Decimal-head c str h) [
              | inl digit ↦ absurd (cc (digit, other))
              | inr (at', digits) ↦ absurd (ground (arith, at', strange))
            ],
          )
        ]
      ]

  -- `cstr_isnumeric`, with the digits of the C locale: the string without the white space at its ends, cut to
  -- the length, has 1 to 40 bytes, and is an optional sign and a decimal: digits with at most one dot.
  pub isnumeric_iff :
      (isspace : ℕ → Bool) (numeric : List ℕ) (len : Option ℕ)
      → let trimmed = lrtrim_whitespace isspace numeric in
        let str = on_place trimmed (λ n. take n trimmed) len in
        (isnumeric isspace isdigit numeric len ≡ true)
        ↔ ((0 < length str) × (length str ≤ 40) × Numeral str)
  unfolding isnumeric
  isnumeric_iff isspace numeric len =
      let trimmed = lrtrim_whitespace isspace numeric in
      go (on_place trimmed (λ n. take n trimmed) len)
    where
      go :
          (str : List ℕ)
          → ((if ltb (length str) 1 || ltb 40 (length str)
                then false
                else numeric_loop isdigit 0 (skip_sign str))
              ≡ true)
            ↔ ((0 < length str) × (length str ≤ 40) × Numeral str)
      go str = elim (Bool-cases (ltb (length str) 1 || ltb 40 (length str))) [
        | inl outside ↦ rw outside (λ h. cc, λ h. absurd (ground (arith, outside, h.0, h.1)))
        | inr inside ↦ rw inside (
          λ h. (
            ground (arith, inside),
            ground (arith, inside),
            (signed str).0 ((Decimal-loop (skip_sign str)).0 h),
          ),
          λ h. (Decimal-loop (skip_sign str)).1 ((signed str).1 h.2),
        )
      ]
