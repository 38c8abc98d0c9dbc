-- ===== src/Flags/Round.antt =====
-- One round of the loop of `FFS64_flags_find_setbits` in source/common/ffs64.h.
use libclogger.Prelude.{
  ℕ, ◌+◌, ◌-◌, ◌*◌, ◌≤◌, ◌<◌, ◌≡◌, refl, sym, ap, ◌∙◌, Bool, true, false, not, Option, none, some,
  arith, ltb, leb, Bool-cases, inl, inr, ltb→lt, ◌==◌, if◌then◌else◌,
}
use mathlib.Core.Path.{subst}
use libclogger.Bits.{bit}
use libclogger.Flags.{
  flag_max, next_setbit, next_unsetbit, Search, found, absent, stuck, Outcome, halt, next_flag,
  stay, start_run, extend_run, search_round,
}
use libclogger.Flags.Next.{Lowest, FirstIn, next_setbit-FirstIn, next_unsetbit-FirstIn}
use libclogger.Flags.Runs.{IsRun, NoRun, place, Begun, Sought, NoRun-hit, NoRun-upto}

-- the first run of `n` bits, or that there is none
abbrev pub FirstRun : (ℕ → Bool) → ℕ → Search → Type 0
FirstRun b n (found k off) =
    (0 < off) × (off ≤ 64) × IsRun b n (place k off) × NoRun b n (place k off)
FirstRun b n absent = (j : ℕ) → ¬ IsRun b n j
FirstRun b n stuck = ⊥

-- What a round at bit `start` of flag `k` does: it returns the first run, or goes on further behind.
abbrev pub Goes : (ℕ → Bool) → ℕ → ℕ → ℕ → Outcome → Type 0
Goes b n k start (halt (found fk fo)) = FirstRun b n (found fk fo)
Goes b n k start (halt absent) = ⊥
Goes b n k start (halt stuck) = ⊥
Goes b n k start (next_flag remaining first) =
    (0 < remaining) × Sought b n ((k + 1) * 64) remaining first
Goes b n k start (stay e remaining first) =
    (start < e)
    × (e ≤ 64)
    × (0 < remaining)
    × (first ≡ none)
    × Sought b n (place k e) remaining first

finish_run :
    (b : ℕ → Bool) (n p q remaining fk fo : ℕ)
    → Begun b n p remaining fk fo
    → p + remaining ≤ q
    → ((j : ℕ) → p ≤ j → j < q → b j ≡ true)
    → FirstRun b n (found fk fo)
finish_run b n p q remaining fk fo h reach set = (
  h.off_pos,
  h.off_le,
  λ i lt. elim (Bool-cases (ltb (place fk fo + i) p)) [
    | inl before ↦ h.is_set (place fk fo + i) (omega arith) (ltb→lt _ _ before)
    | inr behind ↦ set (place fk fo + i) (ground arith) (omega (arith, h.spans))
  ],
  h.no_earlier,
)

-- a run that goes on to the place `q`
longer_run :
    (b : ℕ → Bool) (n p q remaining remaining' fk fo : ℕ)
    → Begun b n p remaining fk fo
    → p ≤ q
    → 0 < remaining'
    → p + remaining ≡ q + remaining'
    → ((j : ℕ) → p ≤ j → j < q → b j ≡ true)
    → Begun b n q remaining' fk fo
longer_run b n p q remaining remaining' fk fo h le pos sum set = record {
  off_pos = h.off_pos;
  off_le = h.off_le;
  wanted = pos;
  spans = omega (arith, h.spans);
  starts = omega (arith, h.starts);
  is_set = λ j from upto. elim (Bool-cases (ltb j p)) [
    | inl before ↦ h.is_set j from (ltb→lt _ _ before)
    | inr behind ↦ set j (ground arith) upto
  ];
  no_earlier = h.no_earlier;
}

unnot : (v : Bool) → not v ≡ false → v ≡ true
unnot true e = refl
unnot false e = cc

unclear : (v : Bool) → not v ≡ true → v ≡ false
unclear true e = cc
unclear false e = refl

-- a run that begins at a set bit, behind clear ones
fresh_run :
    (b : ℕ → Bool) (n p remaining : ℕ) (first : Option (ℕ × ℕ)) (k s : ℕ)
    → 0 < n
    → 1 ≤ s
    → s ≤ 64
    → Sought b n p remaining first
    → p ≤ place k s
    → ((j : ℕ) → p ≤ j → j < place k s → b j ≡ false)
    → (p ≡ place k s → first ≡ none)
    → Begun b n (place k s) n k s
fresh_run b n p remaining first k s pos lo hi sought le clear alone = record {
  off_pos = lo;
  off_le = hi;
  wanted = pos;
  spans = refl;
  starts = omega arith;
  is_set = λ j from upto. absurd (omega arith);
  no_earlier = elim (Bool-cases (p == place k s)) [
    | inl here ↦
        let at : p ≡ place k s = ground arith in
        subst (NoRun b n) at (here_none first sought (alone at))
    | inr there ↦ NoRun-upto b n p (place k s) remaining first pos sought (ground arith) clear
  ];
}
  where
    here_none : (first : Option (ℕ × ℕ)) → Sought b n p remaining first → first ≡ none → NoRun b n p
    here_none none h e = h.1
    here_none (some f) h e = cc

module _ (b : ℕ → Bool) (flag k : ℕ) (word : (i : ℕ) → i < 64 → b (k * 64 + i) ≡ bit flag i) where
  in_flag :
      (v : Bool) (lo hi : ℕ)
      → hi ≤ 64
      → ((i : ℕ) → lo ≤ i → i < hi → bit flag i ≡ v)
      → (j : ℕ) → k * 64 + lo ≤ j
      → j < k * 64 + hi
      → b j ≡ v
  in_flag v lo hi le all j from upto =
      let at : k * 64 + (j - k * 64) ≡ j = omega arith in
      ap b (sym at) ∙ word (j - k * 64) (omega arith) ∙ all (j - k * 64) (omega arith) (omega arith)

  -- from a set bit on, up to the next clear one
  run_bits :
      (s hi : ℕ)
      → 1 ≤ s
      → hi ≤ 64
      → bit flag (s - 1) ≡ true
      → ((i : ℕ) → s ≤ i → i < hi → not (bit flag i) ≡ false)
      → (j : ℕ) → place k s ≤ j
      → j < k * 64 + hi
      → b j ≡ true
  run_bits s hi pos le first later j from upto =
      in_flag true (s - 1) hi le
        (λ i above below. elim (Bool-cases (i == s - 1)) [
          | inl here ↦ let at : i ≡ s - 1 = ground arith in ap (bit flag) at ∙ first
          | inr there ↦ unnot (bit flag i) (later i (ground arith) below)
        ])
        j (omega arith) upto

  extend-Goes :
      (n start s e remaining fk fo : ℕ)
      → 0 < n
      → start ≤ s
      → 1 ≤ s
      → s ≤ 64
      → bit flag (s - 1) ≡ true
      → Begun b n (place k s) remaining fk fo
      → (s < 64 → FirstIn (λ i. not (bit flag i)) s e)
      → Goes b n k start (extend_run n s e (remaining, fk, fo))
  unfolding extend_run
  extend-Goes n start s e remaining fk fo pos before lo hi set h clear =
      elim (Bool-cases (remaining == 1)) [
        | inl last ↦
            rw last
              (finish_run b n (place k s) (place k s + 1) remaining fk fo h (ground arith) single)
        | inr more ↦ rw more (elim (Bool-cases (s == 64)) [
          | inl end ↦ rw end (
            ground (arith, h.wanted),
            longer_run b n (place k s) ((k + 1) * 64) remaining (remaining - 1) fk fo h
                (ground arith) (ground (arith, h.wanted)) (ground (arith, h.wanted))
                (λ j from upto. single j from (ground arith)),
          )
          | inr inside ↦ rw inside (extended (clear (ground arith)))
        ])
      ]
    where
      single : (j : ℕ) → place k s ≤ j → j < place k s + 1 → b j ≡ true
      single j from upto =
          run_bits s s lo hi set (λ i above below. absurd (omega arith)) j from (omega arith)

      extended :
          FirstIn (λ i. not (bit flag i)) s e
          → let available = if e == 0 then 64 - s + 1 else e - s in
            Goes b n k start (
              if leb remaining available
              then halt (found fk fo)
              else if e == 0
              then next_flag (remaining - available) (some (fk, fo))
              else stay e n none)
      extended (inl (none_clear, all)) =
          let zero_e : (e == 0) ≡ true = ground arith in
          rw zero_e (elim (Bool-cases (leb remaining (64 - s + 1))) [
            | inl enough ↦ rw enough (
                finish_run b n (place k s) ((k + 1) * 64) remaining fk fo h (ground arith)
                  (λ j from upto. run_bits s 64 lo (omega arith) set all j from (omega arith)))
            | inr short ↦ rw short (
              ground arith,
              longer_run b n (place k s) ((k + 1) * 64) remaining (remaining - (64 - s + 1)) fk fo h
                  (omega arith) (ground arith) (ground arith)
                  (λ j from upto. run_bits s 64 lo (omega arith) set all j from (omega arith)),
            )
          ])
      extended (inr (behind, below, is_clear, all)) =
          let some_e : (e == 0) ≡ false = ground arith in
          rw some_e (elim (Bool-cases (leb remaining (e - s))) [
            | inl enough ↦ rw enough (
                finish_run b n (place k s) (place k e) remaining fk fo h (ground arith)
                  (λ j from upto.
                    run_bits s (e - 1) lo (omega arith) set
                      (λ i above lt. all i above (omega arith)) j from (omega arith)))
            | inr short ↦ rw short (
              omega arith,
              below,
              pos,
              refl,
              (
                refl,
                λ j lt.
                    NoRun-hit b n (place fk fo) (place k e) h.no_earlier
                      (in_flag false (e - 1) e below
                        (λ i above lt.
                          let at : i ≡ e - 1 = omega arith in
                          ap (bit flag) at ∙ unclear (bit flag (e - 1)) is_clear)
                        (place k e) (omega arith) (omega arith))
                      (ground (arith, h.spans)) j (omega arith),
              ),
            )
          ])

  module _ (ffsll : ℕ → ℕ) (law : (n : ℕ) → 0 < n → n ≤ flag_max → Lowest n (ffsll n))
      (n start remaining : ℕ) where
    Begun-at :
        (s : ℕ) (first : Option (ℕ × ℕ))
        → 0 < n
        → 1 ≤ start
        → start ≤ s
        → s ≤ 64
        → Sought b n (place k start) remaining first
        → (1 < start → first ≡ none)
        → ((j : ℕ) → place k start ≤ j → j < place k s → b j ≡ false)
        → let (rem, fk, fo) = start_run n k s remaining first in Begun b n (place k s) rem fk fo
    unfolding start_run
    Begun-at s none pos lo le hi sought free clear =
        fresh_run b n (place k start) remaining none k s pos (omega arith) hi sought (omega arith)
          clear (λ e. refl)
    Begun-at s (some (fk, fo)) pos lo le hi sought free clear = elim (Bool-cases (s == 1)) [
      | inl one ↦
          let at : place k start ≡ place k s = ground arith in
          rw one (subst (λ p. Begun b n p remaining fk fo) at sought)
      | inr other ↦ rw other (
          fresh_run b n (place k start) remaining (some (fk, fo)) k s pos (omega arith) hi sought
            (omega arith) clear (λ e. free (ground arith)))
    ]

    -- A round of the search finds the first run of `n` bits, or goes on behind the bits it has seen.
    pub search_round-Goes :
        (first : Option (ℕ × ℕ))
        → 0 < n
        → 1 ≤ start
        → start ≤ 64
        → flag ≤ flag_max
        → (1 < start → first ≡ none)
        → Sought b n (place k start) remaining first
        → Goes b n k start (search_round ffsll n flag k start remaining first)
    unfolding search_round
    search_round-Goes first pos lo hi small free sought =
        go (next_setbit ffsll flag start) (next_setbit-FirstIn ffsll law flag start small lo hi)
      where
        go :
            (s : ℕ)
            → FirstIn (bit flag) (start - 1) s
            → Goes b n k start (
                if s == 0
                then next_flag n none
                else extend_run n s
                    (next_unsetbit ffsll flag (s + 1))
                    (start_run n k s remaining first))
        go s (inl (nothing, clear)) =
            let zero_s : (s == 0) ≡ true = ground arith in
            rw zero_s (
              pos,
              (
                refl,
                NoRun-upto b n (place k start) ((k + 1) * 64) remaining first pos sought
                    (omega arith)
                    (λ j from upto.
                      in_flag false (start - 1) 64 (omega arith) clear j (omega arith)
                        (omega arith)),
              ),
            )
        go s (inr (behind, below, set, clear)) =
            let some_s : (s == 0) ≡ false = ground arith in
            let begun = Begun-at s first pos lo (omega arith) below sought free (λ j from upto.
              in_flag false (start - 1) (s - 1) (omega arith)
                (λ i above lt. clear i above (omega arith)) j (omega arith) (omega arith)) in
            rw some_s (
              extend-Goes n start s (next_unsetbit ffsll flag (s + 1)) _ _ _ pos (omega arith)
                (omega arith) below set begun
                (λ lt.
                  let at : s + 1 - 1 ≡ s = omega arith in
                  subst
                    (λ from.
                      FirstIn (λ i. not (bit flag i)) from (next_unsetbit ffsll flag (s + 1)))
                    at
                    (next_unsetbit-FirstIn ffsll law flag (s + 1) small (omega arith)
                      (omega arith))))
