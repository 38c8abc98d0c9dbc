-- ===== src/Ring/Capacity.antt =====
-- When `ringbufst_write` of source/common/ringbufst.h finds room.
use libclogger.Prelude.{
  ℕ, ◌+◌, ◌-◌, ◌*◌, ◌/◌, ◌%◌, ◌^◌, ◌≤◌, ◌<◌, ◌≡◌, ◌≢◌, refl, inl, inr, List, [], ◌∷◌, arith, length,
  leb, ltb, ◌==◌, true, false,
}
use libclogger.Ring.{Ring, align_entrysize, restore_wrap}
use libclogger.Ring.Offsets.{align_entrysize_bounds, restore_wrap_same, restore_wrap_other}
use libclogger.Ring.Content.{Message, Segment-le}
use libclogger.Ring.Holds.{Holds, flat, wrapped}
use libclogger.Ring.Write.{written, Slot, behind, front, nowhere, choose_slot, place, write}
use libclogger.Ring.Enqueue.{guard_lem}
use libclogger.Ring.Enqueue.Place.{choose_slot_flat, choose_slot_wrapped}

-- the bytes between the offsets, `wrap*L + W - R` in the source
abbrev pub used : Ring → ℕ
used rb =
    restore_wrap rb.roffset rb.woffset rb.len * rb.len + rb.woffset % rb.len - rb.roffset % rb.len

-- Twice the entry's size is always enough: what the end of the lap wastes is less than one entry.
choose_slot_fits :
    (rb : Ring) (q : List Message) (a : ℕ)
    → Holds rb q
    → used rb + 2 * a ≤ rb.len
    → choose_slot rb.len rb.roffset rb.woffset a ≢ nowhere
choose_slot_fits rb q a (flat {lap} {r} {w} fr s) h =
    let order : r ≤ w = Segment-le rb.buffer r w q s in
    ground (
      arith,
      choose_slot_flat rb.len rb.roffset rb.woffset a lap r w fr.read_at fr.write_at order,
      restore_wrap_same fr.read_at fr.write_at,
      fr.read_at.remainder,
      fr.write_at.remainder,
      fr.write_at.pos_lt,
    )
choose_slot_fits rb q a (wrapped {lap} {r} {w} b xs ys fr le bound gap eight older newer e) h =
    ground (
      arith,
      choose_slot_wrapped rb.len rb.roffset rb.woffset a lap r w fr.read_at fr.write_at,
      restore_wrap_other fr.read_at fr.write_at,
      fr.read_at.remainder,
      fr.write_at.remainder,
      fr.read_at.pos_lt,
    )

place-written :
    (rb : Ring) (slot : Slot) (a n : ℕ) (x : Message)
    → slot ≢ nowhere
    → (place rb slot a n x).0 ≡ written
unfolding place
place-written rb behind a n x h = refl
place-written rb front a n x h = refl
place-written rb nowhere a n x h = absurd (h refl)

-- `ringbufst_write` of a message of less than 2 ^ 62 bytes, on a ring whose write lock is free,
-- returns 1 if the entry takes at most an eighth of the buffer and at most half of the bytes that
-- are free.
pub write-written :
    (rb : Ring) (q : List Message) (x : Message)
    → rb.wlock ≡ 0
    → length x < 2 ^ 62
    → Holds rb q
    → align_entrysize (length x) ≤ rb.len / 8
    → used rb + 2 * align_entrysize (length x) ≤ rb.len
    → (write rb (length x) x).0 ≡ written
unfolding write
write-written rb q x lock k holds eighth fits =
    let a = align_entrysize (length x) in
    let bounds = align_entrysize_bounds (length x) k in
    let positive : leb (2 ^ 63) a ≡ false = ground arith in
    let free : (rb.wlock == 0) ≡ true = ground arith in
    let small : ltb (rb.len / 8) a ≡ false = ground arith in
    rw (guard_lem a rb.len (omega arith) (omega arith), small, positive, free)
      (place-written rb _ a (length x) x (choose_slot_fits rb q a holds fits))

used-nil : (rb : Ring) → Holds rb [] → used rb ≡ 0
used-nil rb (flat fr s) =
    ground
      (arith, restore_wrap_same fr.read_at fr.write_at, fr.read_at.remainder, fr.write_at.remainder)
used-nil rb (wrapped b [] [] fr le bound gap eight older newer e) = elim gap [
  | inl at_end ↦ absurd (omega (arith, fr.read_at.pos_lt, older))
  | inr marked ↦ absurd (omega (arith, marked.1, newer))
]
used-nil rb (wrapped b [] (y ∷ ys) fr le bound gap eight older newer e) = cc
used-nil rb (wrapped b (x ∷ xs) ys fr le bound gap eight older newer e) = cc

-- An empty ring whose write lock is free takes every message of less than 2 ^ 62 bytes whose entry
-- is at most an eighth of the buffer, wherever its offsets stand.
pub write-written_empty :
    (rb : Ring) (x : Message)
    → rb.wlock ≡ 0
    → length x < 2 ^ 62
    → Holds rb []
    → align_entrysize (length x) ≤ rb.len / 8
    → (write rb (length x) x).0 ≡ written
write-written_empty rb x lock k holds eighth =
    write-written rb [] x lock k holds eighth (omega (arith, used-nil rb holds))
