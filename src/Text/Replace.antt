-- ===== src/Text/Replace.antt =====
-- `cstr_replace_new` of source/common/cstrbuf.h.
use libclogger.Prelude.{
  ℕ, zero, suc, ◌+◌, ◌-◌, ◌*◌, ◌/◌, ◌%◌, ◌^◌, ◌≤◌, ◌<◌, ◌≡◌, refl, sym, ap, ◌∙◌, Option, none, some,
  List, [], ◌∷◌, ◌++◌, length, take, drop, arith, length-append, ◌==◌, Bool-cases, inl, inr,
}
use mathlib.Core.List.{append_assoc}
use mathlib.Core.Option
use libclogger.Text.{on_place, count_pattern, copy_replaced, replaced_length, replace_new}
use libclogger.Text.Trim.{take-append}

-- The pattern stands in the string behind `k` bytes, and nowhere before.
abbrev pub FirstMatch : List ℕ → List ℕ → ℕ → Type 0
FirstMatch str pattern k =
    ((pre : List ℕ) × (rest : List ℕ) × (str ≡ pre ++ (pattern ++ rest)) × (length pre ≡ k))
    × ((pre rest : List ℕ) → str ≡ pre ++ (pattern ++ rest) → k ≤ length pre)

-- what `strstr` is documented to return
abbrev pub Located : List ℕ → List ℕ → Option ℕ → Type 0
Located str pattern none = (pre rest : List ℕ) → str ≡ pre ++ (pattern ++ rest) → ⊥
Located str pattern (some k) = FirstMatch str pattern k

-- The string with each match, from the left, replaced: the new string and how many there were.
pub data Replaced (pattern replacement : List ℕ) : List ℕ → List ℕ → ℕ → Type 0 where
  no_match : {str : List ℕ} → Located str pattern none → Replaced pattern replacement str str 0
  one_match :
      {str result : List ℕ} {n : ℕ} (pre rest : List ℕ)
      → str ≡ pre ++ (pattern ++ rest)
      → FirstMatch str pattern (length pre)
      → Replaced pattern replacement rest result n
      → Replaced pattern replacement str (pre ++ replacement ++ result) (suc n)

drop-append : (xs ys : List ℕ) → drop (length xs) (xs ++ ys) ≡ ys
drop-append [] ys = refl
drop-append (x ∷ xs) ys = drop-append xs ys

drop_both : (xs ys zs : List ℕ) → drop (length xs + length ys) (xs ++ (ys ++ zs)) ≡ zs
drop_both xs ys zs =
    ap (λ n. drop n (xs ++ (ys ++ zs))) (sym (length-append xs ys))
    ∙ ap (drop (length (xs ++ ys))) (sym (append_assoc xs ys zs))
    ∙ drop-append (xs ++ ys) zs

one_more : (n l : ℕ) → suc n * l ≡ n * l + l
one_more n l = grind arith

module _ (strstr : List ℕ → List ℕ → Option ℕ)
    (law : (str pattern : List ℕ) → Located str pattern (strstr str pattern))
    (pattern replacement : List ℕ) (some_bytes : 0 < length pattern) where
  -- Both loops end, and see the same matches.
  abbrev Both : ℕ → List ℕ → Type 0
  Both fuel str =
      (n : ℕ) × (result : List ℕ) × (count_pattern strstr pattern replacement fuel str ≡ some n)
      × (copy_replaced strstr pattern replacement fuel str ≡ some result)
      × Replaced pattern replacement str result n

  both : (fuel : ℕ) (str : List ℕ) → length str < fuel → Both fuel str
  unfolding count_pattern copy_replaced on_place
  both zero str h = absurd (omega arith)
  both (suc fuel) str h = go (λ rest lt. both fuel rest lt) (strstr str pattern) (law str pattern)
    where
      go :
          ((rest : List ℕ) → length rest < fuel → Both fuel rest)
          → (place : Option ℕ) → Located str pattern place
          → (n : ℕ) × (result : List ℕ) × (on_place
                (some 0)
                (λ k.
                  Option.map suc
                    (count_pattern strstr pattern replacement fuel (drop (k + length pattern) str)))
                place
              ≡ some n)
            × (on_place
                  (some str)
                  (λ k.
                    Option.map
                      (λ rest. take k str ++ replacement ++ rest)
                      (copy_replaced strstr pattern replacement fuel
                        (drop (k + length pattern) str)))
                  place
                ≡ some result)
            × Replaced pattern replacement str result n
      go again none l = (0, str, refl, refl, no_match l)
      go again (some k) ((pre, rest, e, at), first) =
          let behind : drop (k + length pattern) str ≡ rest =
            ap (λ n. drop (n + length pattern) str) (sym at)
            ∙ ap (drop (length pre + length pattern)) e
            ∙ drop_both pre pattern rest in
          let before : take k str ≡ pre =
            ap (λ n. take n str) (sym at)
            ∙ ap (take (length pre)) e
            ∙ take-append pre (pattern ++ rest) in
          let shorter : length rest < fuel =
            omega (
              arith,
              ap length e,
              length-append pre (pattern ++ rest),
              length-append pattern rest,
            ) in
          let (n, result, counted, copied, replaced) = again rest shorter in
          (
            suc n,
            pre ++ replacement ++ result,
            ap (λ s. Option.map suc (count_pattern strstr pattern replacement fuel s)) behind
                ∙ ap (Option.map suc) counted,
            ap
                  (λ s.
                    Option.map (λ t. take k str ++ replacement ++ t)
                      (copy_replaced strstr pattern replacement fuel s))
                  behind
                ∙ ap (Option.map (λ t. take k str ++ replacement ++ t)) copied
                ∙ ap (λ p. some (p ++ replacement ++ result)) before,
            one_match pre rest e ((pre, rest, e, refl), λ p q w. omega (arith, first p q w, at))
                replaced,
          )

-- the length of what is written, without subtraction
length-Replaced :
    (pattern replacement : List ℕ) {str result : List ℕ} {n : ℕ}
    → Replaced pattern replacement str result n
    → length result + n * length pattern ≡ length str + n * length replacement
length-Replaced pattern replacement (no_match l) = omega arith
length-Replaced pattern replacement (one_match {str} {result} {n} pre rest e f r) = omega (
  arith,
  length-Replaced pattern replacement r,
  ap length e,
  length-append pre (pattern ++ rest),
  length-append pattern rest,
  length-append (pre ++ replacement) result,
  length-append pre replacement,
  one_more n (length pattern),
  one_more n (length replacement),
)

-- the product of `replaced_length`, up to multiples of the word's size
scaled :
    (n d p q r : ℕ)
    → d + p + q * 2 ^ 64 ≡ r + 2 ^ 64
    → n * d + n * p + n * q * 2 ^ 64 ≡ n * r + n * 2 ^ 64
scaled zero d p q r h = omega arith
scaled (suc n) d p q r h =
    omega (arith, scaled n d p q r h, h, one_more n d, one_more n p, one_more n q, one_more n r)

replaced_length-Replaced :
    (strstr : List ℕ → List ℕ → Option ℕ) (pattern replacement str result : List ℕ) (n : ℕ)
    → length pattern < 2 ^ 64
    → Replaced pattern replacement str result n
    → replaced_length strstr pattern replacement (length str) n ≡ length result % 2 ^ 64
unfolding replaced_length
replaced_length-Replaced strstr pattern replacement str result n small r =
    let x = length replacement + 2 ^ 64 - length pattern in
    let parts : x % 2 ^ 64 + length pattern + x / 2 ^ 64 * 2 ^ 64 ≡ length replacement + 2 ^ 64 =
      omega arith in
    omega (
      arith,
      scaled n (x % 2 ^ 64) (length pattern) (x / 2 ^ 64) (length replacement) parts,
      length-Replaced pattern replacement r,
    )

-- What `cstr_replace_new` gives back: no string if the pattern is not there, and else the string with
-- the matches replaced, and its length as a `size_t`.
abbrev pub Renewed : List ℕ → List ℕ → List ℕ → Option (Option (List ℕ) × ℕ) → Type 0
Renewed pattern replacement original none = ⊥
Renewed pattern replacement original (some (none, len)) = (len ≡ 0) × Located original pattern none
Renewed pattern replacement original (some (some result, len)) =
    (len ≡ length result % 2 ^ 64)
    × (n : ℕ) × (0 < n)
    × Replaced pattern replacement original result n

-- `cstr_replace_new` with a pattern that is not empty ends: it replaces each match from the left, and
-- the length that it allocates is that of the string that it writes, up to the word's size; without a
-- match it makes no string. `strstr` is taken to find the first match.
pub replace_new-Renewed :
    (strstr : List ℕ → List ℕ → Option ℕ)
    → ((str pattern : List ℕ) → Located str pattern (strstr str pattern))
    → (pattern replacement original : List ℕ) → 0 < length pattern
    → length pattern < 2 ^ 64
    → Renewed pattern replacement original
        (replace_new strstr pattern replacement (length original + 1) original)
unfolding replace_new on_place
replace_new-Renewed strstr law pattern replacement original pos small =
    let (n, result, counted, copied, r) =
      both strstr law pattern replacement pos (length original + 1) original (omega arith) in
    rw (counted, copied)
      (elim (Bool-cases (n == 0)) [
        | inl nothing ↦ rw nothing (refl, unmatched (ground arith) r)
        | inr matches ↦ rw matches (
          replaced_length-Replaced strstr pattern replacement original result n small r,
          n,
          ground arith,
          r,
        )
      ])
  where
    unmatched :
        {result : List ℕ} {n : ℕ}
        → n ≡ 0
        → Replaced pattern replacement original result n
        → Located original pattern none
    unmatched at (no_match l) = l
    unmatched at (one_match {str} {result} {n} pre rest e f r) = absurd (omega (arith, at))
