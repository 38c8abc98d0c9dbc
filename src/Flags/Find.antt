-- ===== src/Flags/Find.antt =====
-- `FFS64_flags_find_setbits` of source/common/ffs64.h returns the first run of set bits in its flags.
use libclogger.Prelude.{
  ℕ, zero, suc, ◌+◌, ◌-◌, ◌*◌, ◌≤◌, ◌<◌, ◌≡◌, refl, sym, ap, ◌∙◌, Bool, false, Option, none, List,
  [], ◌∷◌, length, arith, ltb, ◌==◌, if◌then◌else◌,
}
use mathlib.Core.Path.{subst}
use libclogger.Bits.{bit}
use libclogger.Flags.{
  flag_max, Search, found, absent, stuck, Outcome, halt, next_flag, stay, follow, search_round,
  find_loop, find_setbits,
}
use libclogger.Flags.Next.{Lowest}
use libclogger.Flags.Runs.{IsRun, place, Sought, NoRun-upto}
use libclogger.Flags.Round.{FirstRun, Goes, search_round-Goes}

-- bit `j` of an array of flags, clear behind its end
unfoldable pub bit_at : List ℕ → ℕ → Bool
bit_at [] j = false
bit_at (flag ∷ flags) j = if ltb j 64 then bit flag j else bit_at flags (j - 64)

-- every flag is a 64-bit word
abbrev pub AllWords : List ℕ → Type 0
AllWords [] = Unit {0}
AllWords (flag ∷ flags) = (flag ≤ flag_max) × AllWords flags

bit_at-first : (flag : ℕ) (flags : List ℕ) (i : ℕ) → i < 64 → bit_at (flag ∷ flags) i ≡ bit flag i
unfolding bit_at
bit_at-first flag flags i lt = ground arith

bit_at-later : (flag : ℕ) (flags : List ℕ) (i : ℕ) → bit_at (flag ∷ flags) (64 + i) ≡ bit_at flags i
unfolding bit_at
bit_at-later flag flags i =
    let beyond : ltb (64 + i) 64 ≡ false = ground arith in
    let rest : 64 + i - 64 ≡ i = omega arith in rw (beyond, rest) refl

none_left :
    (b : ℕ → Bool) (n p remaining : ℕ) (first : Option (ℕ × ℕ))
    → 0 < n
    → Sought b n p remaining first
    → ((j : ℕ) → p ≤ j → b j ≡ false)
    → (j : ℕ) → ¬ IsRun b n j
none_left b n p remaining first pos sought clear j =
    NoRun-upto b n p (p + suc j) remaining first pos sought (omega arith)
      (λ i from upto. clear i from) j (omega arith)

module _ (ffsll : ℕ → ℕ) (law : (n : ℕ) → 0 < n → n ≤ flag_max → Lowest n (ffsll n)) (b : ℕ → Bool)
    (n : ℕ) (pos : 0 < n) where
  follow-FirstRun :
      (k start : ℕ) (on_next : ℕ → Option (ℕ × ℕ) → Search)
      (on_stay : ℕ → ℕ → Option (ℕ × ℕ) → Search) (out : Outcome)
      → ((r : ℕ) (first : Option (ℕ × ℕ))
          → 0 < r
          → Sought b n ((k + 1) * 64) r first
          → FirstRun b n (on_next r first))
      → ((e r : ℕ) (first : Option (ℕ × ℕ))
          → start < e
          → e ≤ 64
          → 0 < r
          → first ≡ none
          → Sought b n (place k e) r first
          → FirstRun b n (on_stay e r first))
      → Goes b n k start out
      → FirstRun b n (follow on_next on_stay out)
  unfolding follow
  follow-FirstRun k start on_next on_stay (halt (found fk fo)) next more g = g
  follow-FirstRun k start on_next on_stay (halt absent) next more g = absurd g
  follow-FirstRun k start on_next on_stay (halt stuck) next more g = absurd g
  follow-FirstRun k start on_next on_stay (next_flag r first) next more g = next r first g.0 g.1
  follow-FirstRun k start on_next on_stay (stay e r first) next more g =
      more e r first g.0 g.1 g.2 g.3 g.4

  -- the loop, with enough fuel for the bits that are left
  find_loop-FirstRun :
      (fuel : ℕ) (flags : List ℕ) (k start remaining : ℕ) (first : Option (ℕ × ℕ))
      → 65 * length flags + 1 < fuel + start
      → 1 ≤ start
      → start ≤ 64
      → 0 < remaining
      → AllWords flags
      → ((i : ℕ) → b (k * 64 + i) ≡ bit_at flags i)
      → (1 < start → first ≡ none)
      → ((flags ≡ []) → start ≡ 1)
      → Sought b n (place k start) remaining first
      → FirstRun b n (find_loop ffsll fuel n flags k start remaining first)
  unfolding find_loop
  find_loop-FirstRun zero [] k start remaining first enough lo hi want words same free end sought =
      absurd (omega (arith, end refl))
  find_loop-FirstRun zero (flag ∷ flags) k start remaining first enough lo hi want words same free
        end sought =
      absurd (omega arith)
  find_loop-FirstRun (suc fuel) [] k start remaining first enough lo hi want words same free end
        sought =
      none_left b n (place k start) remaining first pos sought
        (λ j from. behind j (omega (arith, end refl)))
    where
      behind : (j : ℕ) → k * 64 ≤ j → b j ≡ false
      behind j from =
          let at : k * 64 + (j - k * 64) ≡ j = omega arith in
          ap b (sym at) ∙ same (j - k * 64) ∙ unfold bit_at in refl
  find_loop-FirstRun (suc fuel) (flag ∷ flags) k start remaining first enough lo hi want words same
        free end sought =
      let some_left : (remaining == 0) ≡ false = ground arith in
      rw some_left (
        follow-FirstRun k start (find_loop ffsll fuel n flags (k + 1) 1)
          (find_loop ffsll fuel n (flag ∷ flags) k)
          (search_round ffsll n flag k start remaining first)
          (λ r first' want' sought'.
            find_loop-FirstRun fuel flags (k + 1) 1 r first' (omega arith) (omega arith)
              (omega arith) want' words.1 later (λ lt. absurd (omega arith)) (λ e. refl)
              (at_next r first' sought'))
          (λ e r first' lt le want' none_yet sought'.
            find_loop-FirstRun fuel (flag ∷ flags) k e r first' (omega arith) (omega arith) le want'
              words same (λ _. none_yet) (λ e. cc) sought')
          (search_round-Goes b flag k (λ i lt. same i ∙ bit_at-first flag flags i lt) ffsll law n
            start remaining first pos lo hi words.0 free sought))
    where
      later : (i : ℕ) → b ((k + 1) * 64 + i) ≡ bit_at flags i
      later i =
          let at : (k + 1) * 64 + i ≡ k * 64 + (64 + i) = omega arith in
          ap b at ∙ same (64 + i) ∙ bit_at-later flag flags i

      at_next :
          (r : ℕ) (first : Option (ℕ × ℕ))
          → Sought b n ((k + 1) * 64) r first
          → Sought b n (place (k + 1) 1) r first
      at_next r first s =
          let at : (k + 1) * 64 ≡ place (k + 1) 1 = omega arith in
          subst (λ p. Sought b n p r first) at s

-- `FFS64_flags_find_setbits` on any array of 64-bit flags, for a positive number of bits: it ends; it
-- returns the place of the first run of that many set bits, across flags too, and 0 exactly if there
-- is no such run. `__builtin_ffsll` is taken to find the lowest bit.
pub find_setbits-FirstRun :
    (ffsll : ℕ → ℕ)
    → ((n : ℕ) → 0 < n → n ≤ flag_max → Lowest n (ffsll n))
    → (flags : List ℕ) (bits_count : ℕ) → 0 < bits_count
    → AllWords flags
    → FirstRun (bit_at flags) bits_count (find_setbits ffsll flags bits_count)
unfolding find_setbits
find_setbits-FirstRun ffsll law flags bits_count pos words =
    find_loop-FirstRun ffsll law (bit_at flags) bits_count pos (65 * length flags + 1) flags 0 1
      bits_count none (omega arith) (omega arith) (omega arith) pos words
      (λ i. ap (bit_at flags) (omega arith)) (λ lt. refl) (λ e. refl)
      (refl, λ j lt. absurd (omega arith))
