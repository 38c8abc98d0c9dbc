-- ===== src/Readconf/Outcomes.antt =====
-- Every outcome of `readln` of source/common/readconf.c, its errors included.
use libclogger.Prelude.{
  ℕ, zero, suc, ◌+◌, ◌<◌, ◌≡◌, refl, sym, ap, ◌∙◌, Bool, true, false, ◌||◌, List, [], ◌∷◌, ◌++◌,
  length, arith, length-append, ◌==◌, if◌then◌else◌, Bool-cases, inl, inr, ◌⊎◌,
}
use mathlib.Core.Path.{subst}
use mathlib.Core.List.{append-nil, append_assoc}
use libclogger.Readconf.{linesize_max, Line, line, end_file, failed, too_long, read_from, readln}

-- the bytes that end a line, and the ends that are a part of it
abbrev pub stops : ℕ → Bool
stops c = (c == 10 || c == 0) || (c == 12 || c == 0x1A)

abbrev pub kept_end : ℕ → List ℕ
kept_end c = if c == 10 || c == 0 then [] else c ∷ []

abbrev pub Running : List ℕ → Type 0
Running [] = Unit {0}
Running (c ∷ text) = (stops c ≡ false) × Running text

-- the bytes without the carriage returns
pub kept : List ℕ → List ℕ
kept [] = []
kept (c ∷ text) = let rest = kept text in if c == 13 then rest else c ∷ rest

-- What `readln` does with the bytes of a file, with room for as many in the buffer and some in it.
abbrev pub Reads : Bool → ℕ → Bool → List ℕ → List ℕ → Line → Type 0
Reads fails room any_read done bytes (line text rest) =
    (before : List ℕ) × Running before
    × (length (kept before) < room)
    × (((bytes ≡ before)
          × (rest ≡ [])
          × (text ≡ done ++ kept before)
          × (fails ≡ false)
          × ((any_read ≡ true) ⊎ (0 < length bytes)))
        ⊎ ((c : ℕ) × (bytes ≡ before ++ c ∷ rest)
            × (stops c ≡ true)
            × (text ≡ done ++ kept before ++ kept_end c)))
Reads fails room any_read done bytes end_file = (bytes ≡ []) × (fails ≡ false) × (any_read ≡ false)
Reads fails room any_read done bytes failed =
    (fails ≡ true) × Running bytes × (length (kept bytes) < room)
Reads fails room any_read done bytes (too_long rest) =
    (before : List ℕ) × Running before × (length (kept before) ≡ room) × (bytes ≡ before ++ rest)

-- one more byte, that does not end the line, in front
further :
    (fails any_read : Bool) (room : ℕ) (done extra bytes : List ℕ) (ch : ℕ) (result : Line)
    → stops ch ≡ false
    → ((text : List ℕ) → kept (ch ∷ text) ≡ extra ++ kept text)
    → Reads fails room true (done ++ extra) bytes result
    → Reads fails (length extra + room) any_read done (ch ∷ bytes) result
further fails any_read room done extra bytes ch (line text rest) run keep
      (before, running, fits, cut) =
    (
      ch ∷ before,
      (run, running),
      omega (arith, ap length (keep before), length-append extra (kept before), fits),
      elim cut [
        | inl (e, r, t, ok, some_bytes) ↦ inl (
          ap (λ b. ch ∷ b) e,
          r,
          t ∙ append_assoc done extra (kept before) ∙ ap (λ k. done ++ k) (sym (keep before)),
          ok,
          inr (omega arith),
        )
        | inr (c, e, s, t) ↦ inr (
          c,
          ap (λ b. ch ∷ b) e,
          s,
          t
              ∙ ap (λ k. k ++ kept_end c)
                  (append_assoc done extra (kept before) ∙ ap (λ k. done ++ k) (sym (keep before))),
        )
      ],
    )
further fails any_read room done extra bytes ch end_file run keep (e, ok, any) = absurd (cc any)
further fails any_read room done extra bytes ch failed run keep (bad, running, fits) = (
  bad,
  (run, running),
  omega (arith, ap length (keep bytes), length-append extra (kept bytes), fits),
)
further fails any_read room done extra bytes ch (too_long rest) run keep
      (before, running, full, e) =
    (
      ch ∷ before,
      (run, running),
      omega (arith, ap length (keep before), length-append extra (kept before), full),
      ap (λ b. ch ∷ b) e,
    )

further_skipped :
    (fails any_read : Bool) (room : ℕ) (done bytes : List ℕ) (ch : ℕ) (result : Line)
    → stops ch ≡ false
    → ((text : List ℕ) → kept (ch ∷ text) ≡ kept text)
    → Reads fails (suc room) true done bytes result
    → Reads fails (suc room) any_read done (ch ∷ bytes) result
further_skipped fails any_read room done bytes ch result run keep h =
    let same : 0 + suc room ≡ suc room = omega arith in
    subst (λ n. Reads fails n any_read done (ch ∷ bytes) result) same
      (further fails any_read (suc room) done [] bytes ch result run keep
        (subst (λ d. Reads fails (suc room) true d bytes result) (sym (append-nil done)) h))

further_kept :
    (fails any_read : Bool) (room : ℕ) (done bytes : List ℕ) (ch : ℕ) (result : Line)
    → stops ch ≡ false
    → ((text : List ℕ) → kept (ch ∷ text) ≡ ch ∷ kept text)
    → Reads fails room true (done ++ ch ∷ []) bytes result
    → Reads fails (suc room) any_read done (ch ∷ bytes) result
further_kept fails any_read room done bytes ch result run keep h =
    let same : 1 + room ≡ suc room = omega arith in
    subst (λ n. Reads fails n any_read done (ch ∷ bytes) result) same
      (further fails any_read room done (ch ∷ []) bytes ch result run keep h)

-- the text of a line behind which nothing was kept
dropped : (done : List ℕ) (c : ℕ) → (c == 10 || c == 0) ≡ true → done ≡ done ++ [] ++ kept_end c
dropped done c ends =
    let e : kept_end c ≡ [] = rw ends refl in
    sym (ap (λ k. done ++ [] ++ k) e ∙ append-nil (done ++ []) ∙ append-nil done)

added :
    (done : List ℕ) (c : ℕ)
    → (c == 10 || c == 0) ≡ false
    → done ++ c ∷ [] ≡ done ++ [] ++ kept_end c
added done c goes =
    let e : kept_end c ≡ c ∷ [] = rw goes refl in
    sym (ap (λ k. done ++ [] ++ k) e ∙ ap (λ d. d ++ c ∷ []) (append-nil done))

read_from-Reads :
    (fails any_read : Bool) (room : ℕ) (done bytes : List ℕ)
    → Reads fails room any_read done bytes (read_from fails room any_read done bytes)
unfolding read_from kept
read_from-Reads fails any_read zero done bytes = ([], tt, refl, refl)
read_from-Reads true any_read (suc room) done [] = (refl, tt, omega arith)
read_from-Reads false true (suc room) done [] =
    ([], tt, omega arith, inl (refl, refl, sym (append-nil done), refl, inl refl))
read_from-Reads false false (suc room) done [] = (refl, refl, refl)
read_from-Reads fails any_read (suc room) done (ch ∷ bytes) =
    let skipped = read_from-Reads fails true (suc room) done bytes in
    let longer = read_from-Reads fails true room (done ++ ch ∷ []) bytes in
    elim (Bool-cases (ch == 10 || ch == 0)) [
      | inl ends ↦
          rw ends ([], tt, omega arith, inr (ch, refl, ground (arith, ends), dropped done ch ends))
      | inr goes ↦ rw goes (elim (Bool-cases (ch == 12 || ch == 0x1A)) [
        | inl page ↦
            rw page ([], tt, omega arith, inr (ch, refl, ground (arith, page), added done ch goes))
        | inr plain ↦ rw plain (
            let run : stops ch ≡ false = ground (arith, goes, plain) in
            elim (Bool-cases (ch == 13)) [
              | inl return ↦ rw return (
                  further_skipped fails any_read room done bytes ch _ run (λ text. rw return refl)
                    skipped)
              | inr other ↦ rw other (
                  further_kept fails any_read room done bytes ch _ run (λ text. rw other refl)
                    longer)
            ])
      ])
    ]

-- What `readln` returns of any file: a line that is ended by a newline, a NUL, a form feed or a
-- substitute, of which the last two are a part of it, or by the end of the file behind some bytes,
-- without its carriage returns; -1 exactly at the end of the file; -2 if the read fails behind
-- bytes that end no line; -3 if as many bytes as the buffer holds end no line.
pub readln-Reads :
    (fails : Bool) (bytes : List ℕ) → Reads fails linesize_max false [] bytes (readln fails bytes)
unfolding readln
readln-Reads fails bytes = read_from-Reads fails false linesize_max [] bytes
