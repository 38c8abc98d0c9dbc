-- ===== src/Text/Split.antt =====
-- `cstr_slpit_chr_nodup` of source/common/cstrbuf.h.
use libclogger.Prelude.{
  ℕ, zero, suc, ◌+◌, ◌<◌, ◌≡◌, refl, sym, ap, ◌∙◌, false, ◌||◌, List, [], ◌∷◌, ◌++◌, arith, ◌==◌,
  if◌then◌else◌, Bool-cases, inl, inr, ◌⊎◌,
}
use mathlib.Core.Path.{subst}
use mathlib.Core.List.{append-nil, append_assoc}
use libclogger.Text.{byte_at, any_chr, last_piece, split_from, split_chr}

-- how often a byte is in a string
unfoldable pub occurrences : ℕ → List ℕ → ℕ
occurrences c [] = 0
occurrences c (b ∷ str) = (if b == c then 1 else 0) + occurrences c str

-- the pieces, with the delimiter behind each
pub joined : ℕ → List (List ℕ) → List ℕ
joined delim [] = []
joined delim (piece ∷ pieces) = piece ++ delim ∷ joined delim pieces

abbrev pub AllPieces : (List ℕ → Type 0) → List (List ℕ) → Type 0
AllPieces P [] = Unit {0}
AllPieces P (piece ∷ pieces) = P piece × AllPieces P pieces

-- the pieces with their delimiters are the string, or it with one more at its end
abbrev pub Joins : ℕ → List ℕ → List (List ℕ) → Type 0
Joins delim str pieces = (joined delim pieces ≡ str) ⊎ (joined delim pieces ≡ str ++ delim ∷ [])

last_piece-Joins :
    (delim : ℕ) (piece : List ℕ)
    → any_chr piece 0 ≡ false
    → Joins delim (piece ++ []) (last_piece piece [])
unfolding last_piece joined byte_at any_chr
last_piece-Joins delim [] h = inl refl
last_piece-Joins delim (b ∷ piece) h =
    let byte : (b == 0) ≡ false = ground arith in
    rw byte (inr (ap (λ t. b ∷ t ++ delim ∷ []) (sym (append-nil piece))))

last_piece-clean :
    (delim : ℕ) (piece rest : List ℕ)
    → any_chr piece delim ≡ false
    → AllPieces (λ p. any_chr p delim ≡ false) (last_piece piece rest)
unfolding last_piece
last_piece-clean delim piece rest h = elim (Bool-cases (byte_at (piece ++ rest) 0 == 0)) [
  | inl stop ↦ rw stop tt
  | inr more ↦ rw more (h, tt)
]

any_chr-append : (c : ℕ) (xs ys : List ℕ) → any_chr (xs ++ ys) c ≡ (any_chr xs c || any_chr ys c)
unfolding any_chr
any_chr-append c [] ys = refl
any_chr-append c (x ∷ xs) ys = ap (λ v. x == c || v) (any_chr-append c xs ys) ∙ ground arith

module _ (delim : ℕ) where
  split_from-Joins :
      (room : ℕ) (piece rest : List ℕ)
      → occurrences delim rest < room
      → any_chr (piece ++ rest) 0 ≡ false
      → Joins delim (piece ++ rest) (split_from delim room piece rest)
  unfolding split_from occurrences joined any_chr
  split_from-Joins zero piece rest fewer h = absurd (omega arith)
  split_from-Joins (suc room) piece [] fewer h =
      last_piece-Joins delim piece (ap (λ t. any_chr t 0) (sym (append-nil piece)) ∙ h)
  split_from-Joins (suc room) piece (b ∷ rest) fewer h = elim (Bool-cases (b == delim)) [
    | inl cut ↦
        let at : b ≡ delim = ground arith in
        let fewer' : occurrences delim rest < room = ground (arith, fewer) in
        let tail : any_chr rest 0 ≡ false = ground (arith, h, any_chr-append 0 piece (b ∷ rest)) in
        rw cut (elim (split_from-Joins room [] rest fewer' tail) [
          | inl e ↦ inl (λ i. piece ++ sym at i ∷ e i)
          | inr e ↦
              inr
                ((λ i. piece ++ sym at i ∷ e i) ∙ sym (append_assoc piece (b ∷ rest) (delim ∷ [])))
        ])
    | inr longer ↦
        let same = append_assoc piece (b ∷ []) rest in
        let fewer' : occurrences delim rest < suc room = ground (arith, fewer) in
        rw longer (
          subst (λ t. Joins delim t (split_from delim (suc room) (piece ++ b ∷ []) rest)) same
            (split_from-Joins (suc room) (piece ++ b ∷ []) rest fewer'
              (ap (λ t. any_chr t 0) same ∙ h)))
  ]

  split_from-clean :
      (room : ℕ) (piece rest : List ℕ)
      → any_chr piece delim ≡ false
      → AllPieces (λ p. any_chr p delim ≡ false) (split_from delim room piece rest)
  unfolding split_from any_chr
  split_from-clean zero piece rest h = last_piece-clean delim piece rest h
  split_from-clean (suc room) piece [] h = last_piece-clean delim piece [] h
  split_from-clean (suc room) piece (b ∷ rest) h = elim (Bool-cases (b == delim)) [
    | inl cut ↦ rw cut (h, split_from-clean room [] rest refl)
    | inr longer ↦ rw longer (
        split_from-clean (suc room) (piece ++ b ∷ []) rest
          (any_chr-append delim piece (b ∷ []) ∙ rw (h, longer) refl))
  ]

-- `cstr_slpit_chr_nodup` of a string with room for more pieces than it has delimiters: no piece has the
-- delimiter in it, and the pieces, with the delimiter behind each, are the string, or it with one more
-- delimiter at its end.
pub split_chr-joined :
    (str : List ℕ) (delim maxoutnum : ℕ)
    → any_chr str 0 ≡ false
    → occurrences delim str < maxoutnum
    → AllPieces (λ p. any_chr p delim ≡ false) (split_chr str delim maxoutnum)
      × Joins delim str (split_chr str delim maxoutnum)
unfolding split_chr any_chr
split_chr-joined str delim maxoutnum h fewer =
    (split_from-clean delim maxoutnum [] str refl, split_from-Joins delim maxoutnum [] str fewer h)
