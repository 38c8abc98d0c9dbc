-- ===== src/Logger/Words.antt =====
-- `cstr_findstr_in` of source/common/cstrbuf.h against the equality of words in lower case.
use mathlib.Core.Option
use libclogger.Prelude.{
  ℕ, zero, suc, ◌<◌, ◌≡◌, ◌≢◌, ◌↔◌, refl, sym, ◌∙◌, ap, ap₂, true, false, Option, none, some, List,
  [], ◌∷◌, map, arith, length, get_elem?, if◌then◌else◌, Bool-cases, inl, inr,
}
use libclogger.Logger.Options.{Compared, compare_bytes, compare_len}
use libclogger.Logger.{lower, same_word, findstr_in}

pub same_word_iff : (xs ys : List ℕ) → (same_word xs ys ≡ true) ↔ (map lower xs ≡ map lower ys)
unfolding same_word
same_word_iff [] [] = (λ _. refl, λ _. refl)
same_word_iff [] (d ∷ ds) = (λ e. cc, λ e. cc)
same_word_iff (c ∷ cs) [] = (λ e. cc, λ e. cc)
same_word_iff (c ∷ cs) (d ∷ ds) = ground (arith, same_word_iff cs ds)

-- What `cstr_findstr_in` returns: the first place whose entry is the word in any case.
abbrev pub FirstPlace : List ℕ → List (Option (List ℕ)) → Option ℕ → Type 0
FirstPlace str dests none =
    (i : ℕ) (d : List ℕ) → get_elem? dests i ≡ some (some d) → map lower str ≢ map lower d
FirstPlace str dests (some at) =
    ((d : List ℕ) × (get_elem? dests at ≡ some (some d)) × (map lower str ≡ map lower d))
    × ((i : ℕ) (d : List ℕ)
        → i < at
        → get_elem? dests i ≡ some (some d)
        → map lower str ≢ map lower d)

later-FirstPlace :
    (str : List ℕ) (dest : Option (List ℕ)) (dests : List (Option (List ℕ))) (out : Option ℕ)
    → ((d : List ℕ) → dest ≡ some d → map lower str ≢ map lower d)
    → FirstPlace str dests out
    → FirstPlace str (dest ∷ dests) (Option.map suc out)
later-FirstPlace str dest dests none not_here h = go
  where
    go :
        (i : ℕ) (d : List ℕ)
        → get_elem? (dest ∷ dests) i ≡ some (some d)
        → map lower str ≢ map lower d
    go zero d e = not_here d (cc e)
    go (suc i) d e = h i d e
later-FirstPlace str dest dests (some at) not_here h = (h.0, go)
  where
    go :
        (i : ℕ) (d : List ℕ)
        → i < suc at
        → get_elem? (dest ∷ dests) i ≡ some (some d)
        → map lower str ≢ map lower d
    go zero d lt e = not_here d (cc e)
    go (suc i) d lt e = h.1 i d (omega arith) e

differs :
    (str dest d : List ℕ) → same_word str dest ≡ false → dest ≡ d → map lower str ≡ map lower d → ⊥
differs str dest d other e k =
    let same : same_word str dest ≡ true =
      (same_word_iff str dest).1 (k ∙ sym (ap (map lower) e)) in
    cc (same, other)

-- `cstr_findstr_in`, the case ignored: it returns the first place whose entry equals the word in lower
-- case, and -1 exactly if there is none.
pub findstr_in-FirstPlace :
    (str : List ℕ) (dests : List (Option (List ℕ))) → FirstPlace str dests (findstr_in str dests)
unfolding findstr_in
findstr_in-FirstPlace str [] = λ i d e. cc
findstr_in-FirstPlace str (none ∷ dests) =
    later-FirstPlace str none dests (findstr_in str dests) (λ d e. cc)
      (findstr_in-FirstPlace str dests)
findstr_in-FirstPlace str (some dest ∷ dests) = elim (Bool-cases (same_word str dest)) [
  | inl same ↦
      rw same ((dest, refl, (same_word_iff str dest).0 same), λ i d lt e. absurd (omega arith))
  | inr other ↦ rw other (
      later-FirstPlace str (some dest) dests (findstr_in str dests)
        (λ d e k. differs str dest d other (cc e) k) (findstr_in-FirstPlace str dests))
]

same_word_cong :
    (xs ys zs : List ℕ) → map lower xs ≡ map lower ys → same_word xs zs ≡ same_word ys zs
same_word_cong xs ys zs e = ground (arith, same_word_iff xs zs, same_word_iff ys zs, e)

pub findstr_in_cong :
    (xs ys : List ℕ) (dests : List (Option (List ℕ)))
    → map lower xs ≡ map lower ys
    → findstr_in xs dests ≡ findstr_in ys dests
unfolding findstr_in
findstr_in_cong xs ys [] e = refl
findstr_in_cong xs ys (none ∷ dests) e = ap (Option.map suc) (findstr_in_cong xs ys dests e)
findstr_in_cong xs ys (some dest ∷ dests) e =
    ap₂ (λ b o. if b then some 0 else Option.map suc o) (same_word_cong xs ys dest e)
      (findstr_in_cong xs ys dests e)

-- The bytes are compared up to the shorter length.
compare_bytes_iff :
    (fold : ℕ → ℕ) (xs ys : List ℕ)
    → length xs ≡ length ys
    → (compare_bytes fold xs ys ≡ Compared.equal) ↔ (map fold xs ≡ map fold ys)
unfolding compare_bytes
compare_bytes_iff fold [] [] e = (λ _. refl, λ _. refl)
compare_bytes_iff fold [] (y ∷ ys) e = absurd (omega (arith, e))
compare_bytes_iff fold (x ∷ xs) [] e = absurd (omega (arith, e))
compare_bytes_iff fold (x ∷ xs) (y ∷ ys) e =
    ground (arith, compare_bytes_iff fold xs ys (omega (arith, e)))

length-map_eq : (xs ys : List ℕ) → map lower xs ≡ map lower ys → length xs ≡ length ys
length-map_eq [] [] e = refl
length-map_eq [] (y ∷ ys) e = cc
length-map_eq (x ∷ xs) [] e = cc
length-map_eq (x ∷ xs) (y ∷ ys) e = ap suc (length-map_eq xs ys (cc e))

-- `cstr_compare_len`, the case ignored, returns 0 exactly for strings that are equal in lower case.
pub compare_len_iff :
    (a b : List ℕ) → (compare_len a b true ≡ Compared.equal) ↔ (map lower a ≡ map lower b)
unfolding compare_len
compare_len_iff a b = ground (arith, compare_bytes_iff lower a b, length-map_eq a b)
