-- ===== src/SharedRing/Queue.antt =====
-- `shmmap_buffer_write` and `shmmap_buffer_read_copy` of source/common/shmmbuf.h against a first-in first-out queue,
-- whatever the locks do.
use libclogger.Prelude.{
  ℕ, suc, ◌+◌, ◌/◌, ◌^◌, ◌≤◌, ◌<◌, ◌≡◌, ◌≢◌, refl, sym, ◌∙◌, ◌⊎◌, inl, inr, List, [], ◌∷◌, ◌++◌,
  arith, length, Bool, true, false, Bool-cases, ltb, leb, ltb→lt, if◌then◌else◌,
}
use mathlib.Core.Path.{subst}
use libclogger.Memory.{load}
use libclogger.Ring.{Ring, align_entrysize, restore_wrap, normalize_offset, int_cast}
use libclogger.Ring.Content.{Message}
use libclogger.Ring.Holds.{HoldsAt}
use libclogger.Ring.Offsets.{align_entrysize_bounds}
use libclogger.Ring.Write.{
  WriteStatus, fatal, again, written, fault, Slot, behind, front, nowhere, choose_slot, store_entry,
  oversized,
}
use libclogger.Ring.Read.{exceeds, Found, entry, skip, nothing, broken, CopyStatus}
use libclogger.Ring.Enqueue.{Appends, place-Appends, guard_lem}
use libclogger.Ring.Dequeue.{Finds, Finds-skip, HoldsAt-Finds, find_entry-ne-skip}
use libclogger.SharedRing.{
  SharedRing, place, write, find_entry, skip_offset, copy_found, read_copy_fuel, read_copy,
}
use libclogger.SharedRing.Offset.{
  HoldsAt-Small, normalize_cast, front_cast, find_entry-static, skip_cast,
}
use libclogger.Ring as Static

-- The buffer holds the messages `q`, as a ring of Ring does.
abbrev pub Keeps : SharedRing → List Message → Type 0
Keeps sb q = HoldsAt sb.buffer sb.len sb.roffset sb.woffset q

-- What a write of `x` does, where `taken` tells whether the lock was given.
abbrev pub Adds : Bool → SharedRing → List Message → Message → WriteStatus × SharedRing → Type 0
Adds taken sb q x (written, sb') = (taken ≡ true) × Keeps sb' (q ++ (x ∷ []))
Adds taken sb q x (again, sb') = sb' ≡ sb
Adds taken sb q x (fatal, sb') = (sb' ≡ sb) × (sb.len / 8 < align_entrysize (length x))
Adds taken sb q x (fault, sb') = ⊥

place-Adds :
    (sb : SharedRing) (q : List Message) (x : Message) (slot : Slot)
    → 0 < length x
    → length x < 2 ^ 62
    → Keeps sb q
    → choose_slot sb.len sb.roffset sb.woffset (align_entrysize (length x)) ≡ slot
    → Adds true sb q x (place sb slot (align_entrysize (length x)) (length x) x)
unfolding place Static.Write.place
place-Adds sb q x slot pos short h e = at_slot slot e (
    subst (λ t. Appends rb q x (Static.Write.place rb t (align_entrysize (length x)) (length x) x))
      e (place-Appends rb q x pos short h))
  where
    rb : Ring
    rb = record {
      rlock = 0;
      wlock = 0;
      woffset = sb.woffset;
      roffset = sb.roffset;
      len = sb.len;
      buffer = sb.buffer;
    }

    at_slot :
        (slot : Slot)
        → choose_slot sb.len sb.roffset sb.woffset (align_entrysize (length x)) ≡ slot
        → Appends rb q x (Static.Write.place rb slot (align_entrysize (length x)) (length x) x)
        → Adds true sb q x (place sb slot (align_entrysize (length x)) (length x) x)
    at_slot behind e k =
        let small = HoldsAt-Small sb.buffer sb.len sb.roffset sb.woffset q h in
        (
          refl,
          rw (normalize_cast sb.len sb.woffset (sb.woffset + align_entrysize (length x)) small) at
              k,
        )
    at_slot front e k = (
      refl,
      rw (front_cast sb.buffer sb.len sb.roffset sb.woffset q h (align_entrysize (length x)) e) at
          k,
    )
    at_slot nowhere e k = refl

-- `shmmap_buffer_write` of a non-empty message of less than 2 ^ 62 bytes, on a buffer that holds `q`: if it
-- returns 1, the lock was given and the buffer holds `q` and behind it the message; if it returns 0, nothing
-- changed; if it returns -1, nothing changed and the message's entry is larger than an eighth of the
-- buffer. It does not run on a negative entry size.
pub write-Adds :
    (taken : Bool) (sb : SharedRing) (q : List Message) (x : Message)
    → 0 < length x
    → length x < 2 ^ 62
    → Keeps sb q
    → Adds taken sb q x (write taken sb (length x) x)
unfolding write
write-Adds taken sb q x pos short h =
    let a = align_entrysize (length x) in
    let bounds = align_entrysize_bounds (length x) short in
    let positive : leb (2 ^ 63) a ≡ false = ground arith in
    rw (guard_lem a sb.len (omega arith) (omega arith), positive)
      (elim (Bool-cases (ltb (sb.len / 8) a)) [
        | inl big ↦ rw big (refl, ltb→lt _ _ big)
        | inr fits ↦ rw fits (locked taken)
      ])
  where
    locked :
        (taken : Bool)
        → let a = align_entrysize (length x) in
          Adds taken sb q x (
            if taken
            then if false
              then (fault, sb)
              else place sb (choose_slot sb.len sb.roffset sb.woffset a) a (length x) x
            else (again, sb))
    locked true =
        place-Adds sb q x (choose_slot sb.len sb.roffset sb.woffset (align_entrysize (length x)))
          pos short h refl
    locked false = refl

-- What `shmmap_buffer_read_copy` does: it returns 0 on a buffer with a message only if a lock was refused.
abbrev pub Takes : Type 0 → List Message → ℕ → CopyStatus × SharedRing → Type 0
Takes Refused [] n (CopyStatus.again, sb') = Keeps sb' []
Takes Refused (x ∷ q) n (CopyStatus.again, sb') = Refused × Keeps sb' (x ∷ q)
Takes Refused (x ∷ q) n (CopyStatus.copied y, sb') =
    (y ≡ x) × (length x ≤ n) × (n < 2 ^ 63) × Keeps sb' q
Takes Refused (x ∷ q) n (CopyStatus.too_small k, sb') =
    (k ≡ length x) × ((n < k) ⊎ (2 ^ 63 ≤ n)) × Keeps sb' (x ∷ q)
Takes Refused q n _ = ⊥

module _ (sb : SharedRing) (q : List Message) (n : ℕ) (Refused : Type 0) where
  copy_entry :
      (at size next : ℕ)
      → Keeps sb q
      → Finds sb.buffer sb.len sb.roffset sb.woffset q (entry at size next)
      → Takes Refused q n (
          if exceeds size n
          then (CopyStatus.too_small size, sb)
          else (CopyStatus.copied (load sb.buffer (at + 8) size), record sb { roffset = next }))
  copy_entry at size next h f = go q h f
    where
      go :
          (q : List Message)
          → Keeps sb q
          → Finds sb.buffer sb.len sb.roffset sb.woffset q (entry at size next)
          → Takes Refused q n (
              if exceeds size n
              then (CopyStatus.too_small size, sb)
              else (CopyStatus.copied (load sb.buffer (at + 8) size), record sb { roffset = next }))
      go [] h f = absurd f
      go (x ∷ q) h f = elim (Bool-cases (exceeds size n)) [
        | inl small ↦ rw small (f.0, ground arith, h)
        | inr enough ↦ rw enough (f.1, ground arith, ground arith, f.2)
      ]

  copy_found-Takes :
      (rest : CopyStatus × SharedRing) (f : Found)
      → Keeps sb q
      → Finds sb.buffer sb.len sb.roffset sb.woffset q f
      → (f ≡ skip → Takes Refused q n rest)
      → Takes Refused q n (copy_found sb n rest f)
  unfolding copy_found
  copy_found-Takes rest (entry at size next) h f g = copy_entry at size next h f
  copy_found-Takes rest skip h f g = g refl
  copy_found-Takes rest nothing h f g = empty q h f
    where
      empty :
          (q : List Message)
          → Keeps sb q
          → Finds sb.buffer sb.len sb.roffset sb.woffset q nothing
          → Takes Refused q n (CopyStatus.again, sb)
      empty [] h f = h
      empty (x ∷ q) h f = absurd f
  copy_found-Takes rest broken h f g = absurd (never q f)
    where
      never : (q : List Message) → Finds sb.buffer sb.len sb.roffset sb.woffset q broken → ⊥
      never [] f = f
      never (x ∷ q) f = f
  copy_found-Takes rest Found.fault h f g = absurd (never q f)
    where
      never : (q : List Message) → Finds sb.buffer sb.len sb.roffset sb.woffset q Found.fault → ⊥
      never [] f = f
      never (x ∷ q) f = f

  refused_lock :
      (sb' : SharedRing) → Refused → Keeps sb' q → Takes Refused q n (CopyStatus.again, sb')
  refused_lock sb' r h = go q h
    where
      go : (q : List Message) → Keeps sb' q → Takes Refused q n (CopyStatus.again, sb')
      go [] h = h
      go (x ∷ q) h = (r, h)

-- one call, given what its call to itself does after a skip
read_copy_step :
    (fuel : ℕ) (taken : ℕ → Bool) (sb : SharedRing) (q : List Message) (n : ℕ) (Refused : Type 0)
    → Keeps sb q
    → (taken fuel ≡ false → Refused)
    → (find_entry sb.buffer sb.len sb.roffset sb.woffset ≡ skip
        → Takes Refused q n (read_copy_fuel fuel taken (record sb { roffset = skip_offset sb }) n))
    → Takes Refused q n (read_copy_fuel (suc fuel) taken sb n)
unfolding read_copy_fuel
read_copy_step fuel taken sb q n Refused h refused g =
    let same = find_entry-static sb.buffer sb.len sb.roffset sb.woffset q h in
    elim (Bool-cases (taken fuel)) [
      | inl given ↦ rw given (
          copy_found-Takes sb q n Refused _ _ h
            (rw same (HoldsAt-Finds sb.buffer sb.len sb.roffset sb.woffset q h)) g)
      | inr none_given ↦ rw none_given (refused_lock sb q n Refused sb (refused none_given) h)
    ]

-- a skip leaves what is held, and no tail to skip
pub skipped :
    (sb : SharedRing) (q : List Message)
    → Keeps sb q
    → find_entry sb.buffer sb.len sb.roffset sb.woffset ≡ skip
    → let sb' : SharedRing = record sb { roffset = skip_offset sb } in
      Keeps sb' q
      × (find_entry sb'.buffer sb'.len sb'.roffset sb'.woffset ≢ skip)
      × (restore_wrap sb.roffset sb.woffset sb.len ≡ 1)
      × (restore_wrap sb'.roffset sb'.woffset sb'.len ≡ 0)
skipped sb q h e =
    let same = find_entry-static sb.buffer sb.len sb.roffset sb.woffset q h in
    let found =
      Finds-skip sb.buffer sb.len sb.roffset sb.woffset q
        (rw (sym same ∙ e) at (HoldsAt-Finds sb.buffer sb.len sb.roffset sb.woffset q h)) in
    let cast = skip_cast sb.buffer sb.len sb.roffset sb.woffset q h in
    let held : Keeps (record sb { roffset = skip_offset sb }) q = rw cast at found.0 in
    let wrap : restore_wrap (skip_offset sb) sb.woffset sb.len ≡ 0 = rw cast at found.2 in
    let same' = find_entry-static sb.buffer sb.len (skip_offset sb) sb.woffset q held in
    (
      held,
      λ f. find_entry-ne-skip sb.buffer sb.len (skip_offset sb) sb.woffset wrap (sym same' ∙ f),
      found.1,
      wrap,
    )

-- `shmmap_buffer_read_copy` on a buffer that holds `q`: it copies and removes the oldest message if `rdbuf` is
-- large enough, else it returns the message's size and leaves it; it returns 0 if there is no message or
-- if a lock was refused, its own or that of its call to itself, and leaves `q`. It returns -1 never.
pub read_copy-Takes :
    (taken : ℕ → Bool) (sb : SharedRing) (q : List Message) (n : ℕ)
    → Keeps sb q
    → Takes ((taken 1 ≡ false) ⊎ (taken 0 ≡ false)) q n (read_copy taken sb n)
unfolding read_copy
read_copy-Takes taken sb q n h =
    let Refused : Type 0 = (taken 1 ≡ false) ⊎ (taken 0 ≡ false) in
    read_copy_step 1 taken sb q n Refused h (λ e. inl e)
      (λ e.
        let next = skipped sb q h e in
        read_copy_step 0 taken (record sb { roffset = skip_offset sb }) q n Refused next.0
          (λ e. inr e) (λ f. absurd (next.1 f)))
