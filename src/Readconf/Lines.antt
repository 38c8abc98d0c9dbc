-- ===== src/Readconf/Lines.antt =====
-- Lines of a configuration file: what `readln` and the trimming of source/common/readconf.c make of them.
use libclogger.Prelude.{
  ℕ, zero, suc, ◌+◌, ◌-◌, ◌<◌, ◌≡◌, refl, sym, ap, ◌∙◌, Bool, true, false, ◌||◌, some, List, [],
  ◌∷◌, ◌++◌, length, take, arith, length-append, ◌==◌, if◌then◌else◌, Bool-cases, inl, inr,
}
use mathlib.Core.List.{append-nil, append_assoc}
use libclogger.Text.{byte_at, any_chr}
use libclogger.Text.Trim.{last_of_tail}
use libclogger.Readconf.{
  linesize_max, ltrim, behind_last, rtrim, dtrim, line, read_from, readln, split_at,
}

-- a byte that ends a line or is skipped
abbrev pub ends_line : ℕ → Bool
ends_line c = c == 0 || (c == 10 || (c == 12 || (c == 13 || c == 0x1A)))

abbrev pub Plain : List ℕ → Type 0
Plain [] = Unit {0}
Plain (c ∷ text) = (ends_line c ≡ false) × Plain text

-- the string has bytes, and neither the first nor the last of them is `c`
abbrev pub Tight : ℕ → List ℕ → Type 0
Tight c str =
    (0 < length str)
    × ((byte_at str 0 == c) ≡ false)
    × ((byte_at str (length str - 1) == c) ≡ false)

pub Plain-append : (xs ys : List ℕ) → Plain xs → Plain ys → Plain (xs ++ ys)
Plain-append [] ys h k = k
Plain-append (x ∷ xs) ys h k = (h.0, Plain-append xs ys h.1 k)

pub byte_at-behind :
    (xs ys : List ℕ)
    → 0 < length ys
    → byte_at (xs ++ ys) (length (xs ++ ys) - 1) ≡ byte_at ys (length ys - 1)
byte_at-behind [] ys h = refl
byte_at-behind (x ∷ xs) ys h =
    let pos : 0 < length (xs ++ ys) = omega (arith, length-append xs ys) in
    let at : suc (length (xs ++ ys)) - 1 ≡ length (xs ++ ys) = omega arith in
    ap (byte_at (x ∷ xs ++ ys)) at ∙ last_of_tail x (xs ++ ys) pos ∙ byte_at-behind xs ys h

take-all : (str : List ℕ) → take (length str) str ≡ str
take-all [] = refl
take-all (c ∷ str) = ap (λ t. c ∷ t) (take-all str)

behind_last-Tight :
    (str : List ℕ) (c p q : ℕ)
    → 0 < length str
    → (byte_at str (length str - 1) == c) ≡ false
    → behind_last str c p q ≡ p + length str
unfolding behind_last byte_at
behind_last-Tight [] c p q pos h = absurd (omega arith)
behind_last-Tight (b ∷ []) c p q pos h = rw h (omega arith)
behind_last-Tight (b ∷ d ∷ str) c p q pos h =
    let at : suc (suc (length str)) - 1 ≡ suc (length str) = omega arith in
    let h' : (byte_at (d ∷ str) (length (d ∷ str) - 1) == c) ≡ false =
      ap (λ v. v == c)
        (sym (ap (byte_at (b ∷ d ∷ str)) at ∙ last_of_tail b (d ∷ str) (omega arith)))
      ∙ h in
    omega
      (arith, behind_last-Tight (d ∷ str) c (p + 1) (if b == c then q else p + 1) (omega arith) h')

-- `dtrim` leaves such a string as it is.
pub dtrim-Tight : (str : List ℕ) (c : ℕ) → Tight c str → dtrim str c ≡ str
unfolding dtrim ltrim rtrim byte_at
dtrim-Tight [] c (pos, first, last) = absurd (omega arith)
dtrim-Tight (b ∷ str) c (pos, first, last) =
    let q : behind_last (b ∷ str) c 0 0 ≡ length (b ∷ str) =
      behind_last-Tight (b ∷ str) c 0 0 pos last ∙ omega arith in
    let some_bytes : (suc (length str) == 0) ≡ false = ground arith in
    rw (first, q, some_bytes) (take-all (b ∷ str))

read_from-line :
    (fails : Bool) (text : List ℕ) (room : ℕ) (any_read : Bool) (done rest : List ℕ)
    → Plain text
    → length text < room
    → read_from fails room any_read done (text ++ 10 ∷ rest) ≡ line (done ++ text) rest
unfolding read_from
read_from-line fails text zero any_read done rest h lt = absurd (omega arith)
read_from-line fails [] (suc room) any_read done rest h lt =
    ap (λ t. line t rest) (sym (append-nil done))
read_from-line fails (ch ∷ text) (suc room) any_read done rest h lt =
    let ends : (ch == 10 || ch == 0) ≡ false = ground (arith, h.0) in
    let page : (ch == 12 || ch == 0x1A) ≡ false = ground (arith, h.0) in
    let return : (ch == 13) ≡ false = ground (arith, h.0) in
    rw (ends, page, return)
      (read_from-line fails text room true (done ++ ch ∷ []) rest h.1 (omega arith)
        ∙ ap (λ t. line t rest) (append_assoc done (ch ∷ []) text))

-- `readln` of a line of plain bytes, shorter than the buffer, reads it and the byte behind it.
pub readln-line :
    (fails : Bool) (text rest : List ℕ)
    → Plain text
    → length text < linesize_max
    → readln fails (text ++ 10 ∷ rest) ≡ line text rest
unfolding readln
readln-line fails text rest h lt = read_from-line fails text linesize_max false [] rest h lt

-- the first separator is the one behind a string without one
pub split_at-append :
    (sep : ℕ) (xs ys : List ℕ)
    → any_chr xs sep ≡ false
    → split_at sep (xs ++ sep ∷ ys) ≡ (xs, some ys)
unfolding split_at any_chr
split_at-append sep [] ys h = let same : (sep == sep) ≡ true = ground arith in rw same refl
split_at-append sep (x ∷ xs) ys h = elim (Bool-cases (x == sep)) [
  | inl hit ↦ let h' : true ≡ false = rw hit at h in absurd (cc h')
  | inr miss ↦
      let h' : any_chr xs sep ≡ false = rw miss at h in
      rw miss (ap (λ p. (x ∷ p.0, p.1)) (split_at-append sep xs ys h'))
]
