-- ===== src/Text/Tests.antt =====
-- Runs of source/common/cstrbuf.h, and the theorems on its strings at concrete inputs.
use mathlib.Core.Option
use libclogger.Prelude.{
  ℕ, suc, ◌+◌, ◌≤◌, ◌<◌, ◌≡◌, refl, ap, Bool, true, false, ◌&&◌, ◌||◌, Option, none, some, List, [],
  ◌∷◌, ◌++◌, length, take, arith, leb, ◌==◌, if◌then◌else◌, Bool-cases, Option-cases, drop, inl,
  inr, ◌↔◌,
}
use libclogger.Text.{
  byte_at, on_place, any_chr, last_other, rtrim_chr, lrtrim_whitespace, isnumeric, last_piece,
  split_from, split_chr, replace_new,
}
use libclogger.Text.Trim.{Trimmed, lrtrim_whitespace-Trimmed}
use libclogger.Text.Split.{occurrences, Joins, AllPieces, split_chr-joined}
use libclogger.Text.Numeric.{is_digit, Numeral, isnumeric_iff}
use libclogger.Text.Replace.{Located, Renewed, replace_new-Renewed}

-- the white space of the C locale
abbrev is_space : ℕ → Bool
is_space c = c == 32 || leb 9 c && leb c 13

-- " 4.5 "
abbrev padded : List ℕ
padded = 32 ∷ b'4' ∷ b'.' ∷ b'5' ∷ 32 ∷ []

lrtrim_whitespace-Trimmed_example : Trimmed is_space padded (lrtrim_whitespace is_space padded)
lrtrim_whitespace-Trimmed_example = lrtrim_whitespace-Trimmed is_space padded

-- of a string that is trimmed all through, one character is kept
one_kept : rtrim_chr (32 ∷ 32 ∷ 32 ∷ []) 32 ≡ (32 ∷ [], 1)
unfolding rtrim_chr last_other
one_kept = refl

isnumeric_iff_example :
    let trimmed = lrtrim_whitespace is_space padded in
    let str = on_place trimmed (λ n. take n trimmed) none in
    (isnumeric is_space is_digit padded none ≡ true)
    ↔ ((0 < length str) × (length str ≤ 40) × Numeral str)
isnumeric_iff_example = isnumeric_iff is_digit (λ c. refl) is_space padded none

-- "a,bc,"
abbrev fields : List ℕ
fields = b'a' ∷ b',' ∷ b'b' ∷ b'c' ∷ b',' ∷ []

split_chr-joined_example :
    AllPieces (λ p. any_chr p b',' ≡ false) (split_chr fields b',' 3)
    × Joins b',' fields (split_chr fields b',' 3)
split_chr-joined_example = split_chr-joined fields b',' 3 no_nul few
  where
    no_nul : any_chr fields 0 ≡ false
    no_nul = unfold any_chr in refl

    few : occurrences b',' fields < 3
    few = unfold occurrences in omega arith

-- two pieces where there is room for one
too_many : split_chr fields b',' 1 ≡ (b'a' ∷ []) ∷ [] ∷ []
unfolding split_chr split_from last_piece byte_at
too_many = refl

-- what is left of a string behind a word at its front
strip : List ℕ → List ℕ → Option (List ℕ)
strip [] str = some str
strip (c ∷ word) [] = none
strip (c ∷ word) (b ∷ str) = let rest = strip word str in if c == b then rest else none

strip-append : (word rest : List ℕ) → strip word (word ++ rest) ≡ some rest
unfolding strip
strip-append [] rest = refl
strip-append (c ∷ word) rest =
    let same : (c == c) ≡ true = ground arith in rw same (strip-append word rest)

strip-some : (word str rest : List ℕ) → strip word str ≡ some rest → str ≡ word ++ rest
unfolding strip
strip-some [] str rest e = cc
strip-some (c ∷ word) [] rest e = cc
strip-some (c ∷ word) (b ∷ str) rest e = elim (Bool-cases (c == b)) [
  | inl same ↦
      let at : b ≡ c = ground arith in
      let e' : strip word str ≡ some rest = rw same at e in
      (λ i. at i ∷ strip-some word str rest e' i)
  | inr other ↦ let e' : none ≡ some rest = rw other at e in cc
]

-- a search as `strstr` is documented, from what is left at the front and from the search behind it
at_front : Option (List ℕ) → Option ℕ → Option ℕ
at_front none later = Option.map suc later
at_front (some rest) later = some 0

search : List ℕ → List ℕ → Option ℕ
search [] word = at_front (strip word []) none
search (b ∷ str) word = at_front (strip word (b ∷ str)) (search str word)

-- a word that is not at the front is not behind nothing
not_empty : (str word rest : List ℕ) → strip word str ≡ none → str ≡ word ++ rest → ⊥
not_empty str word rest e at = cc (e, ap (strip word) at, strip-append word rest)

at_front-Located : (str word rest : List ℕ) → strip word str ≡ some rest → Located str word (some 0)
at_front-Located str word rest e =
    (([], rest, strip-some word str rest e, refl), λ pre rest' at. omega arith)

later-Located :
    (b : ℕ) (str word : List ℕ) (later : Option ℕ)
    → strip word (b ∷ str) ≡ none
    → Located str word later
    → Located (b ∷ str) word (Option.map suc later)
later-Located b str word none e h = go
  where
    go : (pre rest : List ℕ) → b ∷ str ≡ pre ++ (word ++ rest) → ⊥
    go [] rest at = not_empty (b ∷ str) word rest e at
    go (x ∷ pre) rest at = h pre rest (ap (λ t. drop 1 t) at)
later-Located b str word (some k) e ((pre, rest, at, place), first) =
    ((b ∷ pre, rest, ap (λ t. b ∷ t) at, ap suc place), go)
  where
    go : (pre rest : List ℕ) → b ∷ str ≡ pre ++ (word ++ rest) → suc k ≤ length pre
    go [] rest at = absurd (not_empty (b ∷ str) word rest e at)
    go (x ∷ pre) rest at = omega (arith, first pre rest (ap (λ t. drop 1 t) at))

search-Located : (str word : List ℕ) → Located str word (search str word)
unfolding search at_front
search-Located [] word = elim (Option-cases (strip word [])) [
  | inl missing ↦ rw missing (nothing missing)
  | inr (rest, e) ↦ rw e (at_front-Located [] word rest e)
]
  where
    nothing : strip word [] ≡ none → (pre rest : List ℕ) → [] ≡ pre ++ (word ++ rest) → ⊥
    nothing missing [] rest at = not_empty [] word rest missing at
    nothing missing (x ∷ pre) rest at = cc at
search-Located (b ∷ str) word = elim (Option-cases (strip word (b ∷ str))) [
  | inl missing ↦
      rw missing (later-Located b str word (search str word) missing (search-Located str word))
  | inr (rest, e) ↦ rw e (at_front-Located (b ∷ str) word rest e)
]

replace_new-Renewed_example :
    Renewed
      (b',' ∷ [])
      (b';' ∷ b' ' ∷ [])
      fields
      (replace_new search (b',' ∷ []) (b';' ∷ b' ' ∷ []) (length fields + 1) fields)
replace_new-Renewed_example =
    replace_new-Renewed search search-Located (b',' ∷ []) (b';' ∷ b' ' ∷ []) fields (omega arith)
      (omega arith)
