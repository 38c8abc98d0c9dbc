-- ===== src/MemoryPool/Live.antt =====
-- The buffers that a pool of source/common/membuff.c gave away and did not get back, as (block, count).
use libclogger.Prelude.{
  ℕ, zero, suc, ◌+◌, ◌-◌, ◌≤◌, ◌≡◌, refl, ◌∙◌, ap, Bool, Bool-cases, inl, inr, if◌then◌else◌, true,
  false, ◌||◌, List, [], ◌∷◌, arith,
}
use libclogger.Flags.Mask.{inside}

abbrev pub Buffers : Type 0
Buffers = List (ℕ × ℕ)

-- whether a block belongs to one of them
unfoldable pub taken : Buffers → ℕ → Bool
taken [] j = false
taken ((s, c) ∷ live) j = inside s c j || taken live j

-- the blocks that they take together
unfoldable pub total : Buffers → ℕ
total [] = 0
total ((s, c) ∷ live) = c + total live

pub total_cons : (s c : ℕ) (live : Buffers) → total ((s, c) ∷ live) ≡ c + total live
unfolding total
total_cons s c live = refl

-- no block belongs to two of them
abbrev pub Disjoint : Buffers → Type 0
Disjoint [] = Unit {0}
Disjoint ((s, c) ∷ live) = ((j : ℕ) → inside s c j ≡ true → taken live j ≡ false) × Disjoint live

module _ (P : ℕ → ℕ → Type 0) where
  abbrev pub Each : Buffers → Type 0
  Each [] = Unit {0}
  Each ((s, c) ∷ live) = P s c × Each live

-- the buffers without one of them
pub data Removed (s c : ℕ) : Buffers → Buffers → Type 0 where
  here : {live : Buffers} → Removed s c ((s, c) ∷ live) live
  there :
      {t d : ℕ} {live live' : Buffers}
      → Removed s c live live'
      → Removed s c ((t, d) ∷ live) ((t, d) ∷ live')

-- the number of places below `n` where `p` holds
count : (ℕ → Bool) → ℕ → ℕ
count p zero = 0
count p (suc n) = (if p n then 1 else 0) + count p n

count_le : (p : ℕ → Bool) (n : ℕ) → count p n ≤ n
unfolding count
count_le p zero = omega arith
count_le p (suc n) = ground (arith, count_le p n)

count-inside : (s c n : ℕ) → count (inside s c) n ≡ (n - s) - (n - (s + c))
unfolding count
count-inside s c zero = omega arith
count-inside s c (suc n) = ground (arith, count-inside s c n)

count_or :
    (p q : ℕ → Bool) (n : ℕ)
    → ((j : ℕ) → p j ≡ true → q j ≡ false)
    → count (λ j. p j || q j) n ≡ count p n + count q n
unfolding count
count_or p q zero apart = omega arith
count_or p q (suc n) apart = elim (Bool-cases (p n)) [
  | inl yes_p ↦ rw (yes_p, apart n yes_p) (omega (arith, count_or p q n apart))
  | inr no_p ↦ rw no_p (omega (arith, count_or p q n apart))
]

count_none : (p : ℕ → Bool) (n : ℕ) → ((j : ℕ) → p j ≡ false) → count p n ≡ 0
unfolding count
count_none p zero h = refl
count_none p (suc n) h = rw (h n) (omega (arith, count_none p n h))

-- Buffers that are apart and lie below `n` take as many blocks as there are taken ones.
count-taken :
    (n : ℕ) (live : Buffers)
    → Disjoint live
    → Each (λ s c. s + c ≤ n) live
    → count (taken live) n ≡ total live
unfolding taken total
count-taken n [] apart fits = count_none (λ _. false) n (λ j. refl)
count-taken n ((s, c) ∷ live) apart fits = omega (
  arith,
  count_or (inside s c) (taken live) n apart.0,
  count-inside s c n,
  count-taken n live apart.1 fits.1,
  fits.0,
)

pub total_le :
    (n : ℕ) (live : Buffers) → Disjoint live → Each (λ s c. s + c ≤ n) live → total live ≤ n
total_le n live apart fits = omega (arith, count-taken n live apart fits, count_le (taken live) n)

pub Each-map :
    (P Q : ℕ → ℕ → Type 0) (live : Buffers)
    → ((s c : ℕ) → P s c → ((j : ℕ) → inside s c j ≡ true → taken live j ≡ true) → Q s c)
    → Each P live
    → Each Q live
unfolding taken
Each-map P Q [] f h = tt
Each-map P Q ((s, c) ∷ live) f h = (
  f s c h.0 (λ j e. rw e refl),
  Each-map P Q live (λ t d p inner. f t d p (λ j e. rw (inner j e) (or_true (inside s c j)))) h.1,
)
  where
    or_true : (v : Bool) → (v || true) ≡ true
    or_true true = refl
    or_true false = refl

module _ {s c : ℕ} where
  pub taken-Removed :
      {live live' : Buffers} (j : ℕ)
      → Removed s c live live'
      → taken live j ≡ (inside s c j || taken live' j)
  unfolding taken
  taken-Removed j here = refl
  taken-Removed j (there {t} {d} {live} {live'} r) =
      ap (λ v. inside t d j || v) (taken-Removed j r)
      ∙ swap (inside t d j) (inside s c j) (taken live' j)
    where
      swap : (x y z : Bool) → (x || (y || z)) ≡ (y || (x || z))
      swap true true z = refl
      swap true false z = refl
      swap false y z = refl

  pub total-Removed : {live live' : Buffers} → Removed s c live live' → total live ≡ c + total live'
  unfolding total
  total-Removed here = refl
  total-Removed (there r) = omega (arith, total-Removed r)

  pub Each-Removed :
      (P : ℕ → ℕ → Type 0) {live live' : Buffers}
      → Removed s c live live'
      → Each P live
      → P s c × Each P live'
  Each-Removed P here h = h
  Each-Removed P (there r) h = let rest = Each-Removed P r h.1 in (rest.0, (h.0, rest.1))

  pub Disjoint-Removed :
      {live live' : Buffers}
      → Removed s c live live'
      → Disjoint live
      → ((j : ℕ) → inside s c j ≡ true → taken live' j ≡ false) × Disjoint live'
  unfolding taken
  Disjoint-Removed here h = h
  Disjoint-Removed (there {t} {d} {live} {live'} r) h =
      let rest = Disjoint-Removed r h.1 in
      (
        λ j e. ground (arith, rest.0 j e, h.0 j, taken-Removed j r),
        (λ j e. ground (arith, h.0 j e, taken-Removed j r), rest.1),
      )
