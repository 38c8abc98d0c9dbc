-- ===== src/Flags/Runs.antt =====
-- Runs of set bits, and what the loop of `FFS64_flags_find_setbits` in source/common/ffs64.h knows of them.
use libclogger.Prelude.{
  ℕ, ◌+◌, ◌-◌, ◌*◌, ◌≤◌, ◌<◌, ◌≡◌, ap, Bool, true, false, Option, none, some, arith, ltb,
  Bool-cases, inl, inr, ltb→lt,
}

-- `n` bits from `j` on are set
abbrev pub IsRun : (ℕ → Bool) → ℕ → ℕ → Type 0
IsRun b n j = (i : ℕ) → i < n → b (j + i) ≡ true

-- no run of `n` bits starts below `p`
abbrev pub NoRun : (ℕ → Bool) → ℕ → ℕ → Type 0
NoRun b n p = (j : ℕ) → j < p → ¬ IsRun b n j

-- the place of bit `off`, counted from 1, of flag `k`
abbrev pub place : ℕ → ℕ → ℕ
place k off = k * 64 + off - 1

-- A run was begun at bit `fo` of flag `fk`, its bits are set up to the place `p`, and `remaining` of the
-- `n` are wanted from there on; it is the first that can be.
pub record Begun (b : ℕ → Bool) (n p remaining fk fo : ℕ) : Type 0 where
  pub off_pos : 0 < fo
  pub off_le : fo ≤ 64
  pub wanted : 0 < remaining
  pub spans : place fk fo + n ≡ p + remaining
  pub starts : place fk fo ≤ p
  pub is_set : (j : ℕ) → place fk fo ≤ j → j < p → b j ≡ true
  pub no_earlier : NoRun b n (place fk fo)

-- what holds at the head of the loop, at the place `p`
abbrev pub Sought : (ℕ → Bool) → ℕ → ℕ → ℕ → Option (ℕ × ℕ) → Type 0
Sought b n p remaining none = (remaining ≡ n) × NoRun b n p
Sought b n p remaining (some (fk, fo)) = Begun b n p remaining fk fo

pub NoRun-hit :
    (b : ℕ → Bool) (n f c : ℕ) → NoRun b n f → b c ≡ false → c < f + n → NoRun b n (c + 1)
NoRun-hit b n f c none_below clear reach j lt run = elim (Bool-cases (ltb j f)) [
  | inl below ↦ none_below j (ltb→lt _ _ below) run
  | inr above ↦
      let inside : c - j < n = ground arith in
      let at : j + (c - j) ≡ c = omega arith in cc (run (c - j) inside, ap b at, clear)
]

pub NoRun-clear :
    (b : ℕ → Bool) (n p q : ℕ)
    → 0 < n
    → NoRun b n p
    → ((j : ℕ) → p ≤ j → j < q → b j ≡ false)
    → NoRun b n q
NoRun-clear b n p q pos none_below clear j lt run = elim (Bool-cases (ltb j p)) [
  | inl below ↦ none_below j (ltb→lt _ _ below) run
  | inr above ↦
      let at : j + 0 ≡ j = omega arith in cc (run 0 pos, ap b at, clear j (ground arith) lt)
]

-- A clear bit at the head of the loop: no run starts up to it.
pub NoRun-Sought :
    (b : ℕ → Bool) (n p remaining : ℕ) (first : Option (ℕ × ℕ))
    → 0 < n
    → Sought b n p remaining first
    → b p ≡ false
    → NoRun b n (p + 1)
NoRun-Sought b n p remaining none pos s clear = NoRun-hit b n p p s.1 clear (omega arith)
NoRun-Sought b n p remaining (some (fk, fo)) pos s clear =
    NoRun-hit b n (place fk fo) p s.no_earlier clear (omega (arith, s.spans, s.wanted))

-- and none before the next set bit, if all bits before it are clear
pub NoRun-upto :
    (b : ℕ → Bool) (n p q remaining : ℕ) (first : Option (ℕ × ℕ))
    → 0 < n
    → Sought b n p remaining first
    → p < q
    → ((j : ℕ) → p ≤ j → j < q → b j ≡ false)
    → NoRun b n q
NoRun-upto b n p q remaining first pos s lt clear =
    NoRun-clear b n (p + 1) q pos
      (NoRun-Sought b n p remaining first pos s (clear p (omega arith) lt))
      (λ j le. clear j (omega arith))
