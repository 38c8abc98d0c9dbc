-- ===== src/RollingFile/Rotate/Shift.antt =====
-- The loop of `rollingfile_update` in source/clogger/rollingfile.c over the numbered names.
use libclogger.Prelude.{
  ℕ, zero, suc, ◌+◌, ◌-◌, ◌≡◌, ◌≢◌, refl, ◌∙◌, true, Option, none, some, List, arith, ltb, leb,
  ◌==◌, if◌then◌else◌, Option-cases, Bool-cases, inl, inr,
}
use libclogger.FileSystem.{FileName, FileSystem, Lawful}
use libclogger.FileName.{numbered, numbered-injective}
use libclogger.RollingFile.Update.{shift_file, rotate}

-- the first file if there is one, else the second
abbrev pub or_else {ℓ} : {A : Type ℓ} → Option A → Option A → Option A
or_else none b = b
or_else (some a) b = some a

-- What stands under number `j` after the files below `n` are moved up by one, where `old` tells what
-- stood there: the last one is dropped, but kept if there is none to take its place.
abbrev pub rolled {ℓ} : {A : Type ℓ} → ℕ → (ℕ → Option A) → ℕ → Option A
rolled n old j =
    if leb n j
    then old j
    else if j == 0
    then (if n == 1 then old 0 else none)
    else if j + 1 == n
    then or_else (old (j - 1)) (old j)
    else old (j - 1)

module _ (sys : FileSystem) (laws : Lawful sys) (base : FileName) where
  open sys use {Files, contents, exists, remove, move, create, close}
  open laws use {
    exists_some, exists_none, remove_self, remove_other, move_to, move_from, move_other, create_new,
    create_other, close_same,
  }

  -- what stands under number `j`
  abbrev pub view : Files → ℕ → Option (List ℕ)
  view fs j = contents fs (numbered base j)

  pub numbered-ne : (i j : ℕ) → i ≢ j → numbered base i ≢ numbered base j
  numbered-ne i j h e = h (numbered-injective base i j e)

  -- the removal before the move touches the target alone
  cleared :
      (fs : Files) (to k : FileName)
      → k ≢ to
      → contents (if exists fs to then remove fs to else fs) k ≡ contents fs k
  cleared fs to k ne = elim (Bool-cases (exists fs to)) [
    | inl old ↦ rw old (remove_other fs to k ne)
    | inr new ↦ rw new
  ]

  pred_suc : (i : ℕ) → suc i - 1 ≡ i
  pred_suc i = omega arith

  shift_missing : (i : ℕ) (fs : Files) → view fs i ≡ none → shift_file sys base (suc i) fs ≡ fs
  unfolding shift_file
  shift_missing i fs e = rw (pred_suc i, exists_none fs (numbered base i) e)

  shift_there :
      (i : ℕ) (fs : Files) (c : List ℕ)
      → view fs i ≡ some c
      → shift_file sys base (suc i) fs ≡ (
          let to = numbered base (suc i) in
          move (if exists fs to then remove fs to else fs) (numbered base i) to)
  unfolding shift_file
  shift_there i fs c e = rw (pred_suc i, exists_some fs (numbered base i) c e)

  moved :
      (i : ℕ) (fs : Files) (j : ℕ) (c : List ℕ)
      → view fs i ≡ some c
      → (let to = numbered base (suc i) in
          view (move (if exists fs to then remove fs to else fs) (numbered base i) to) j)
        ≡ (if j == suc i
            then or_else (view fs i) (view fs (suc i))
            else if j == i
            then none
            else view fs j)
  moved i fs j c e =
      let to = numbered base (suc i) in
      let clear = if exists fs to then remove fs to else fs in
      let apart : numbered base i ≢ to = numbered-ne i (suc i) (omega arith) in
      ground (
        arith,
        e,
        move_to clear (numbered base i) to apart,
        move_from clear (numbered base i) to apart,
        move_other clear (numbered base i) to (numbered base j),
        numbered-ne j i,
        numbered-ne j (suc i),
        cleared fs to (numbered base i) apart,
        cleared fs to (numbered base j),
      )

  shift_file-view :
      (i : ℕ) (fs : Files) (j : ℕ)
      → view (shift_file sys base (suc i) fs) j ≡ (
          if j == suc i
          then or_else (view fs i) (view fs (suc i))
          else if j == i
          then none
          else view fs j)
  shift_file-view i fs j = elim (Option-cases (view fs i)) [
    | inl missing ↦ rw (shift_missing i fs missing) (ground (arith, missing))
    | inr there ↦ rw (shift_there i fs there.0 there.1) (moved i fs j there.0 there.1)
  ]

  -- The loop moves every file below `i` up by one.
  pub rotate-rolled :
      (i : ℕ) (fs : Files) (j : ℕ) → view (rotate sys base i fs) j ≡ rolled i (view fs) j
  unfolding rotate
  rotate-rolled zero fs j = ground arith
  rotate-rolled (suc zero) fs j = ground arith
  rotate-rolled (suc (suc i)) fs j =
      let fs' = shift_file sys base (suc i) fs in
      let entered : ltb 1 (suc (suc i)) ≡ true = ground arith in
      rw (entered, rotate-rolled (suc i) fs' j)
        (ground
          (arith, shift_file-view i fs j, shift_file-view i fs (j - 1), shift_file-view i fs 0))

  -- Files of other names are not touched.
  abbrev pub Foreign : FileName → Type 0
  Foreign k = (j : ℕ) → k ≢ numbered base j

  shift_file-other :
      (i : ℕ) (fs : Files) (k : FileName)
      → Foreign k
      → contents (shift_file sys base i fs) k ≡ contents fs k
  unfolding shift_file
  shift_file-other i fs k f =
      let from = numbered base (i - 1) in
      let to = numbered base i in
      elim (Bool-cases (exists fs from)) [
        | inl there ↦ rw there (
            move_other (if exists fs to then remove fs to else fs) from to k (f (i - 1)) (f i)
            ∙ cleared fs to k (f i))
        | inr missing ↦ rw missing
      ]

  pub rotate-other :
      (i : ℕ) (fs : Files) (k : FileName)
      → Foreign k
      → contents (rotate sys base i fs) k ≡ contents fs k
  unfolding rotate
  rotate-other zero fs k f = refl
  rotate-other (suc i) fs k f = elim (Bool-cases (ltb 1 (suc i))) [
    | inl more ↦ rw more (rotate-other i (shift_file sys base i fs) k f ∙ shift_file-other i fs k f)
    | inr done ↦ rw done
  ]
