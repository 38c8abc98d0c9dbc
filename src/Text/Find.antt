-- ===== src/Text/Find.antt =====
-- The searches for a character in source/common/cstrbuf.h.
use libclogger.Prelude.{
  ℕ, zero, suc, ◌+◌, ◌<◌, ◌≡◌, ap, ◌∙◌, Bool, true, false, Option, none, some, List, [], ◌∷◌,
  length, arith, ◌==◌, Bool-cases, inl, inr,
}
use mathlib.Core.Path.{subst}
use libclogger.Text.{byte_at, any_chr, find_from, find_chrs, rfind_chr}

-- the first byte of the string, among the first `len`, that passes the test, at `p` more than its place
abbrev FoundFrom : (ℕ → Bool) → List ℕ → ℕ → ℕ → Option ℕ → Type 0
FoundFrom test str len p none = (i : ℕ) → i < len → i < length str → test (byte_at str i) ≡ false
FoundFrom test str len p (some place) =
    (i : ℕ) × (place ≡ p + i)
    × (i < len)
    × (i < length str)
    × (test (byte_at str i) ≡ true)
    × ((j : ℕ) → j < i → test (byte_at str j) ≡ false)

found_later :
    (test : ℕ → Bool) (b : ℕ) (str : List ℕ) (len p : ℕ) (result : Option ℕ)
    → test b ≡ false
    → FoundFrom test str len (p + 1) result
    → FoundFrom test (b ∷ str) (suc len) p result
unfolding byte_at
found_later test b str len p none other h = λ i lt within. at i lt within
  where
    at : (i : ℕ) → i < suc len → i < suc (length str) → test (byte_at (b ∷ str) i) ≡ false
    at zero lt within = other
    at (suc i) lt within = h i (omega arith) (omega arith)
found_later test b str len p (some place) other (i, at, lt, within, hit, first) =
    (suc i, omega (arith, at), omega arith, omega arith, hit, before i first)
  where
    before :
        (i : ℕ)
        → ((j : ℕ) → j < i → test (byte_at str j) ≡ false)
        → (j : ℕ) → j < suc i
        → test (byte_at (b ∷ str) j) ≡ false
    before i first zero lt = other
    before i first (suc j) lt = first j (omega arith)

find_from-FoundFrom :
    (chrs str : List ℕ) (len p : ℕ) → FoundFrom (any_chr chrs) str len p (find_from str len chrs p)
unfolding find_from byte_at
find_from-FoundFrom chrs [] len p = λ i lt within. absurd (omega arith)
find_from-FoundFrom chrs (b ∷ str) zero p = λ i lt within. absurd (omega arith)
find_from-FoundFrom chrs (b ∷ str) (suc len) p = elim (Bool-cases (any_chr chrs b)) [
  | inl hit ↦ rw hit (0, omega arith, omega arith, omega arith, hit, λ j lt. absurd (omega arith))
  | inr miss ↦ rw miss (
      found_later (any_chr chrs) b str len p (find_from str len chrs (p + 1)) miss
        (find_from-FoundFrom chrs str len (p + 1)))
]

-- the place of the first byte of `str`, among the first `len`, that is one of `chrs`
abbrev pub FirstOf : List ℕ → List ℕ → ℕ → Option ℕ → Type 0
FirstOf chrs str len none =
    (i : ℕ) → i < len → i < length str → any_chr chrs (byte_at str i) ≡ false
FirstOf chrs str len (some i) =
    (i < len)
    × (i < length str)
    × (any_chr chrs (byte_at str i) ≡ true)
    × ((j : ℕ) → j < i → any_chr chrs (byte_at str j) ≡ false)

-- `cstr_find_chrs` returns the first place, among the first `len`, of one of the characters, and NULL
-- exactly if there is none.
pub find_chrs-FirstOf :
    (str : List ℕ) (len : ℕ) (chrs : List ℕ) → FirstOf chrs str len (find_chrs str len chrs)
unfolding find_chrs
find_chrs-FirstOf str len chrs = go (find_from str len chrs 0) (find_from-FoundFrom chrs str len 0)
  where
    go :
        (result : Option ℕ)
        → FoundFrom (any_chr chrs) str len 0 result
        → FirstOf chrs str len result
    go none h = h
    go (some place) (i, at, lt, within, hit, first) =
        let same : i ≡ place = omega (arith, at) in
        subst (λ n. FirstOf chrs str len (some n)) same (lt, within, hit, first)

-- the place of the last of the first `len` bytes that is `c`
abbrev pub LastOf : ℕ → List ℕ → ℕ → Option ℕ → Type 0
LastOf c str len none = (i : ℕ) → i < len → (byte_at str i == c) ≡ false
LastOf c str len (some i) =
    (i < len)
    × ((byte_at str i == c) ≡ true)
    × ((j : ℕ) → i < j → j < len → (byte_at str j == c) ≡ false)

-- `cstr_Rfind_chr` returns the last place, and NULL exactly if there is none.
pub rfind_chr-LastOf : (str : List ℕ) (len c : ℕ) → LastOf c str len (rfind_chr str len c)
unfolding rfind_chr
rfind_chr-LastOf str zero c = λ i lt. absurd (omega arith)
rfind_chr-LastOf str (suc len) c = elim (Bool-cases (byte_at str len == c)) [
  | inl hit ↦ rw hit (omega arith, hit, λ j gt lt. absurd (omega arith))
  | inr miss ↦ rw miss (go (rfind_chr str len c) miss (rfind_chr-LastOf str len c))
]
  where
    miss_at :
        (str : List ℕ) (len c : ℕ)
        → (byte_at str len == c) ≡ false
        → (j : ℕ) → j ≡ len
        → (byte_at str j == c) ≡ false
    miss_at str len c miss j at = ap (λ n. byte_at str n == c) at ∙ miss

    go :
        (result : Option ℕ)
        → (byte_at str len == c) ≡ false
        → LastOf c str len result
        → LastOf c str (suc len) result
    go none miss h = λ i lt. elim (Bool-cases (i == len)) [
      | inl same ↦ miss_at str len c miss i (ground arith)
      | inr other ↦ h i (ground arith)
    ]
    go (some i) miss (lt, hit, last) = (
      omega arith,
      hit,
      λ j gt below. elim (Bool-cases (j == len)) [
        | inl same ↦ miss_at str len c miss j (ground arith)
        | inr other ↦ last j gt (ground arith)
      ],
    )
