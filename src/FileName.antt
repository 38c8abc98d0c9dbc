-- ===== src/FileName.antt =====
-- The names of rolled files, `"%.*s.%d"` in source/clogger/rollingfile.c.
use mathlib.Core.List.{reverse, reverse-reverse}
use libclogger.Prelude.{
  ℕ, zero, suc, ◌+◌, ◌-◌, ◌*◌, ltb→lt, ◌/◌, ◌%◌, ◌<◌, ◌≡◌, refl, sym, ap, ◌∙◌, List, [], ◌∷◌, ◌++◌,
  arith, length, length-append, ltb, if◌then◌else◌, Bool-cases, inl, inr,
}
use libclogger.FileSystem.{FileName}

-- `%d` of a number that is not negative, its digits from the last to the first
digits_fuel : ℕ → ℕ → List ℕ
digits_fuel zero n = []
digits_fuel (suc fuel) n =
    let rest = digits_fuel fuel (n / 10) in if ltb n 10 then (48 + n) ∷ [] else (48 + n % 10) ∷ rest

unfoldable pub decimal : ℕ → List ℕ
unfolding digits_fuel
decimal n = reverse (digits_fuel (n + 1) n)

-- the number that such digits show
value : List ℕ → ℕ
value [] = 0
value (d ∷ ds) = (d - 48) + 10 * value ds

value-digits_fuel : (fuel n : ℕ) → n < fuel → value (digits_fuel fuel n) ≡ n
unfolding value digits_fuel
value-digits_fuel zero n h = absurd (omega arith)
value-digits_fuel (suc fuel) n h = elim (Bool-cases (ltb n 10)) [
  | inl small ↦ rw small (omega (arith, ltb→lt n 10 small))
  | inr large ↦ rw large (ground (arith, value-digits_fuel fuel (n / 10)))
]

pub decimal-injective : (m n : ℕ) → decimal m ≡ decimal n → m ≡ n
unfolding decimal
decimal-injective m n e =
    let same : digits_fuel (m + 1) m ≡ digits_fuel (n + 1) n =
      sym (reverse-reverse _) ∙ ap reverse e ∙ reverse-reverse _ in
    sym (value-digits_fuel (m + 1) m (omega arith))
    ∙ ap value same
    ∙ value-digits_fuel (n + 1) n (omega arith)

-- The name with the number 0 is the file that is written to.
unfoldable pub numbered : FileName → ℕ → FileName
numbered base zero = base
numbered base (suc i) = base ++ (b'.' ∷ decimal (suc i))

append_cancel : (base xs ys : List ℕ) → base ++ xs ≡ base ++ ys → xs ≡ ys
append_cancel [] xs ys e = e
append_cancel (b ∷ base) xs ys e = append_cancel base xs ys (cc)

pub numbered-injective : (base : FileName) (i j : ℕ) → numbered base i ≡ numbered base j → i ≡ j
unfolding numbered
numbered-injective base zero zero e = refl
numbered-injective base zero (suc j) e =
    absurd (omega (arith, ap length e, length-append base (b'.' ∷ decimal (suc j))))
numbered-injective base (suc i) zero e =
    absurd (omega (arith, ap length e, length-append base (b'.' ∷ decimal (suc i))))
numbered-injective base (suc i) (suc j) e =
    let tail = append_cancel base _ _ e in decimal-injective (suc i) (suc j) (cc tail)

pub numbered-zero : (base : FileName) → numbered base 0 ≡ base
unfolding numbered
numbered-zero base = refl
