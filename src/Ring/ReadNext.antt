-- ===== src/Ring/ReadNext.antt =====
-- `ringbufst_read_next` of source/common/ringbufst.h: what it hands over and leaves behind.
use libclogger.Prelude.{
  ℕ, suc, ◌+◌, Bool-cases, ◌≡◌, refl, ◌⊎◌, inl, inr, List, [], ◌∷◌, arith, Bool, true, false, ◌==◌,
  if◌then◌else◌,
}
use libclogger.Memory.{load}
use libclogger.Ring.{Ring, restore_wrap}
use libclogger.Ring.Content.{Message}
use libclogger.Ring.Holds.{Holds}
use libclogger.Ring.Dequeue.{Finds, Finds-skip, HoldsAt-Finds, skip_held}
use libclogger.Ring.Dequeue.Moves.{Advanced-wrap}
use libclogger.Ring.Read.{
  Found, entry, skip, nothing, broken, fault, find_entry, ReadStatus, read_found, read_internal,
  read_next_fuel, read_next, skip_offset, release_rlock,
}

-- A reader that leaves two laps between the offsets found two.
abbrev pub Lapped : Ring → Ring → Type 0
Lapped rb rb' =
    restore_wrap rb'.roffset rb'.woffset rb'.len ≡ 1 → restore_wrap rb.roffset rb.woffset rb.len ≡ 1

-- What `ringbufst_read_next` does to a ring that holds `q`, where `cb` is the callback and `s` its
-- argument: it hands over the oldest message and removes it if the callback takes it; or it calls
-- nothing, since the ring is empty or since it only skipped a tail.
module _ {S : Type 0} (cb : S → List ℕ → Bool × S) where
  abbrev pub Delivers : Ring → List Message → S → ReadStatus × Ring × S → Type 0
  Delivers rb [] s (ReadStatus.again, rb', s') = Holds rb' [] × (s' ≡ s)
  Delivers rb (x ∷ q) s (ReadStatus.done, rb', s') = (cb s x ≡ (true, s')) × Holds rb' q
  Delivers rb (x ∷ q) s (ReadStatus.again, rb', s') =
      Holds rb' (x ∷ q)
      × ((cb s x ≡ (false, s'))
          ⊎ ((s' ≡ s)
              × (restore_wrap rb.roffset rb.woffset rb.len ≡ 1)
              × (restore_wrap rb'.roffset rb'.woffset rb'.len ≡ 0)))
  Delivers rb q s _ = ⊥

  read_answer :
      (rb : Ring) (x : Message) (q : List Message) (s : S) (next : ℕ) (took : Bool) (s' : S)
      → cb s x ≡ (took, s')
      → Holds rb (x ∷ q)
      → Holds (record rb { roffset = next }) q
      → Delivers rb (x ∷ q) s (
          if took
          then (ReadStatus.done, record rb { roffset = next }, s')
          else (ReadStatus.again, rb, s'))
  read_answer rb x q s next true s' e h k = (e, k)
  read_answer rb x q s next false s' e h k = (h, inl e)

  abbrev Again : Type 0
  Again = Ring → S → ReadStatus × Ring × S

  read_found-Delivers :
      (rb : Ring) (q : List Message) (s : S) (again_read : Again) (f : Found)
      → Holds rb q
      → Finds rb.buffer rb.len rb.roffset rb.woffset q f
      → (f ≡ skip → Delivers rb q s (again_read (record rb { roffset = skip_offset rb }) s))
      → Delivers rb q s (read_found cb again_read rb s f)
  unfolding read_found
  read_found-Delivers rb [] s again_read (entry at size next) h f g = absurd f
  read_found-Delivers rb (x ∷ q) s again_read (entry at size next) h f g =
      rw f.1 (read_answer rb x q s next (cb s x).0 (cb s x).1 refl h f.2)
  read_found-Delivers rb q s again_read skip h f g = g refl
  read_found-Delivers rb [] s again_read nothing h f g = (h, refl)
  read_found-Delivers rb (x ∷ q) s again_read nothing h f g = absurd f
  read_found-Delivers rb [] s again_read broken h f g = absurd f
  read_found-Delivers rb (x ∷ q) s again_read broken h f g = absurd f
  read_found-Delivers rb [] s again_read fault h f g = absurd f
  read_found-Delivers rb (x ∷ q) s again_read fault h f g = absurd f

  -- Under the lock the inner `ringbufst_read_next` is turned away.
  skipped-Delivers :
      (rb : Ring) (q : List Message) (s : S)
      → Holds rb q
      → find_entry rb.buffer rb.len rb.roffset rb.woffset ≡ skip
      → Delivers rb q s (ReadStatus.again, record rb { roffset = skip_offset rb }, s)
  skipped-Delivers rb [] s h e = ((skip_held rb [] h e).0, refl)
  skipped-Delivers rb (x ∷ q) s h e =
      let kept = skip_held rb (x ∷ q) h e in (kept.0, inr (refl, kept.1, kept.2))

  -- `__ringbufst_read_internal`, as both its callers run it: with the read lock taken.
  pub read_internal-Delivers :
      (fuel : ℕ) (rb : Ring) (q : List Message) (s : S)
      → rb.rlock ≡ 1
      → Holds rb q
      → Delivers rb q s (read_internal cb (read_next_fuel cb (suc fuel)) rb s)
  unfolding read_internal read_next_fuel
  read_internal-Delivers fuel rb q s lock h =
      read_found-Delivers rb q s (read_next_fuel cb (suc fuel)) _ h
        (HoldsAt-Finds rb.buffer rb.len rb.roffset rb.woffset q h)
        (λ e.
          let held : (rb.rlock == 0) ≡ false = ground arith in
          rw held (skipped-Delivers rb q s h e))

  release-Delivers :
      (rb : Ring) (q : List Message) (s : S) (out : ReadStatus × Ring × S)
      → Delivers rb q s out
      → Delivers rb q s (release_rlock cb out)
  release-Delivers rb [] s (ReadStatus.again, rb', s') d = d
  release-Delivers rb [] s (st, rb', s') d = absurd d
  release-Delivers rb (x ∷ q) s (ReadStatus.done, rb', s') d = d
  release-Delivers rb (x ∷ q) s (ReadStatus.again, rb', s') d = d
  release-Delivers rb (x ∷ q) s (st, rb', s') d = absurd d

  -- `ringbufst_read_next` on a ring whose read lock is free: it hands the oldest message to the
  -- callback, and removes it exactly if the callback takes it. It calls nothing if the ring is empty;
  -- or if the offsets stood on two laps and it only skipped the tail, so that they stand on one
  -- lap. It never finds a broken entry.
  pub read_next-Delivers :
      (rb : Ring) (q : List Message) (s : S)
      → rb.rlock ≡ 0
      → Holds rb q
      → Delivers rb q s (read_next cb rb s)
  unfolding read_next read_next_fuel
  read_next-Delivers rb q s lock h =
      let free : (rb.rlock == 0) ≡ true = ground arith in
      rw free
        (release-Delivers rb q s _ (read_internal-Delivers 0 (record rb { rlock = 1 }) q s refl h))

  -- The read lock is free again.
  pub rlock-read_next : (rb : Ring) (s : S) → rb.rlock ≡ 0 → (read_next cb rb s).1.rlock ≡ 0
  unfolding read_next read_next_fuel
  rlock-read_next rb s lock = let free : (rb.rlock == 0) ≡ true = ground arith in rw free refl

  done_on_one_lap :
      (rb : Ring) (x : Message) (q : List Message) (s s' : S) (out : ReadStatus × Ring × S)
      → Delivers rb (x ∷ q) s out
      → cb s x ≡ (true, s')
      → restore_wrap rb.roffset rb.woffset rb.len ≡ 0
      → out.0 ≡ ReadStatus.done
  done_on_one_lap rb x q s s' (ReadStatus.done, rb', t) d took lap = refl
  done_on_one_lap rb x q s s' (ReadStatus.again, rb', t) d took lap = elim d.1 [
    | inl refused ↦ cc
    | inr skipped ↦ absurd (omega (arith, skipped.1, lap))
  ]
  done_on_one_lap rb x q s s' (st, rb', t) d took lap = absurd d

  -- `ringbufst_read_next`, if the read lock is free, the ring holds messages and the callback would
  -- take the oldest one: it returns 1; or it returns 0 without a call of the callback, and then a
  -- second `ringbufst_read_next` returns 1.
  pub read_next_twice :
      (rb : Ring) (x : Message) (q : List Message) (s s' : S)
      → rb.rlock ≡ 0
      → Holds rb (x ∷ q)
      → cb s x ≡ (true, s')
      → let (st, rb', t) = read_next cb rb s in
        (st ≡ ReadStatus.done)
        ⊎ ((st ≡ ReadStatus.again) × (t ≡ s) × ((read_next cb rb' t).0 ≡ ReadStatus.done))
  read_next_twice rb x q s s' lock h took =
      go (read_next cb rb s) (rlock-read_next rb s lock) (read_next-Delivers rb (x ∷ q) s lock h)
    where
      go :
          (out : ReadStatus × Ring × S)
          → out.1.rlock ≡ 0
          → Delivers rb (x ∷ q) s out
          → (out.0 ≡ ReadStatus.done)
            ⊎ ((out.0 ≡ ReadStatus.again)
                × (out.2 ≡ s)
                × ((read_next cb out.1 out.2).0 ≡ ReadStatus.done))
      go (ReadStatus.done, rb', t) free d = inl refl
      go (ReadStatus.again, rb', t) free d = elim d.1 [
        | inl refused ↦ cc
        | inr skipped ↦
            let again_took : cb t x ≡ (true, s') = rw skipped.0 took in
            inr (
              refl,
              skipped.0,
              done_on_one_lap rb' x q t s' (read_next cb rb' t)
                  (read_next-Delivers rb' (x ∷ q) t free d.0) again_took skipped.2,
            )
      ]
      go (st, rb', t) free d = absurd d

  -- `__ringbufst_read_internal` leaves the lock as it is.
  rlock-read_found :
      (fuel : ℕ) (rb : Ring) (s : S) (f : Found)
      → rb.rlock ≡ 1
      → (read_found cb (read_next_fuel cb (suc fuel)) rb s f).1.rlock ≡ 1
  unfolding read_found read_next_fuel
  rlock-read_found fuel rb s (entry at size next) lock =
      elim (Bool-cases (cb s (load rb.buffer (at + 8) size)).0) [
        | inl took ↦ rw took lock
        | inr left ↦ rw left lock
      ]
  rlock-read_found fuel rb s skip lock =
      let held : (rb.rlock == 0) ≡ false = ground arith in rw held lock
  rlock-read_found fuel rb s nothing lock = lock
  rlock-read_found fuel rb s broken lock = lock
  rlock-read_found fuel rb s fault lock = lock

  pub rlock-read_internal :
      (fuel : ℕ) (rb : Ring) (s : S)
      → rb.rlock ≡ 1
      → (read_internal cb (read_next_fuel cb (suc fuel)) rb s).1.rlock ≡ 1
  unfolding read_internal
  rlock-read_internal fuel rb s lock = rlock-read_found fuel rb s _ lock

  read_found-Lapped :
      (fuel : ℕ) (rb : Ring) (q : List Message) (s : S) (f : Found)
      → rb.rlock ≡ 1
      → Finds rb.buffer rb.len rb.roffset rb.woffset q f
      → Lapped rb (read_found cb (read_next_fuel cb (suc fuel)) rb s f).1
  unfolding read_found read_next_fuel
  read_found-Lapped fuel rb [] s (entry at size next) lock f = absurd f
  read_found-Lapped fuel rb (x ∷ q) s (entry at size next) lock f =
      elim (Bool-cases (cb s (load rb.buffer (at + 8) size)).0) [
        | inl took ↦ rw took (Advanced-wrap rb.len rb.woffset rb.roffset next f.3)
        | inr left ↦ rw left (λ e. e)
      ]
  read_found-Lapped fuel rb q s skip lock f =
      let held : (rb.rlock == 0) ≡ false = ground arith in
      rw held (λ e. (Finds-skip rb.buffer rb.len rb.roffset rb.woffset q f).1)
  read_found-Lapped fuel rb q s nothing lock f = λ e. e
  read_found-Lapped fuel rb q s broken lock f = λ e. e
  read_found-Lapped fuel rb q s fault lock f = λ e. e

  pub Lapped-read_internal :
      (fuel : ℕ) (rb : Ring) (q : List Message) (s : S)
      → rb.rlock ≡ 1
      → Holds rb q
      → Lapped rb (read_internal cb (read_next_fuel cb (suc fuel)) rb s).1
  unfolding read_internal
  Lapped-read_internal fuel rb q s lock h =
      read_found-Lapped fuel rb q s _ lock
        (HoldsAt-Finds rb.buffer rb.len rb.roffset rb.woffset q h)
