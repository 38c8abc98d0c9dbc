-- ===== src/Ring/Enqueue.antt =====
-- `ringbufst_write` of source/common/ringbufst.h appends to the queue that the ring holds.
pub mod Place
use libclogger.Prelude.{
  ℕ, zero, suc, ◌+◌, ◌-◌, ◌*◌, ◌/◌, ◌%◌, ◌^◌, ◌≤◌, ◌<◌, ◌≡◌, refl, sym, ◌∙◌, ◌⊎◌, inl, inr, List,
  [], ◌∷◌, ◌++◌, arith, Bool-cases, leb→le, ltb→lt, ◌||◌, false, true, length, leb, ltb, ◌==◌,
  if◌then◌else◌,
}
use native.Mathlib.Nat.{le_refl}
use mathlib.Core.List.{append-nil, append_assoc}
use native.Mathlib.Decide.{dec_lt}
use libclogger.Memory.{
  Mem, Agree, load_word, bzero, load_word-congr, load_word-bzero, bzero-outside,
}
use libclogger.Ring.{Ring, align_entrysize, restore_wrap, normalize_offset, int_cast}
use libclogger.Ring.Offsets.{
  align_entrysize_bounds, restore_wrap_same, restore_wrap_other, At, normalize-At, normalize-At_end,
  lap-At,
}
use libclogger.Ring.Content.{
  Message, Segment, Segment-le, Segment-congr, Segment-snoc, store_entry-IsEntry,
  store_entry-outside,
}
use libclogger.Ring.Holds.{Frame, Holds, flat, wrapped}
use libclogger.Ring.Write.{
  WriteStatus, fatal, again, written, fault, Slot, behind, front, nowhere, choose_slot, store_entry,
  place, write, oversized,
}
use libclogger.Ring.Enqueue.Place.{
  choose_slot_flat, choose_slot_wrapped, place_flat, place_flat_end, place_front, place_wrapped,
}

-- What a write of `x` does to a ring that holds `q`, for each value that it returns.
abbrev pub Appends : Ring → List Message → Message → WriteStatus × Ring → Type 0
Appends rb q x (written, rb') = Holds rb' (q ++ (x ∷ []))
Appends rb q x (again, rb') = rb' ≡ rb
Appends rb q x (fatal, rb') = (rb' ≡ rb) × (rb.len / 8 < align_entrysize (length x))
Appends rb q x (fault, rb') = ⊥

pub place-Appends :
    (rb : Ring) (q : List Message) (x : Message)
    → 0 < length x
    → length x < 2 ^ 62
    → Holds rb q
    → let a = align_entrysize (length x) in
      Appends rb q x (place rb (choose_slot rb.len rb.roffset rb.woffset a) a (length x) x)
unfolding place
place-Appends rb q x h k (flat {lap} {r} {w} fr s) =
    let a = align_entrysize (length x) in
    rw (choose_slot_flat rb.len rb.roffset rb.woffset a lap r w fr.read_at fr.write_at order)
      (elim (Bool-cases (leb (a + w) rb.len)) [
        | inl fits ↦ rw fits (at_end (leb→le _ _ fits))
        | inr full ↦ rw full (elim (Bool-cases (leb a r)) [
          | inl fits ↦ rw fits (place_front x h k rb q fr s (ground arith) (leb→le _ _ fits))
          | inr full' ↦ rw full' refl
        ])
      ])
  where
    order : r ≤ w
    order = Segment-le rb.buffer r w q s

    at_end :
        let a = align_entrysize (length x) in
        a + w ≤ rb.len → Appends rb q x (place rb behind a (length x) x)
    at_end fits = elim (dec_lt (w + align_entrysize (length x)) rb.len) [
      | yes inside ↦ place_flat x h k rb q fr s inside
      | no end ↦ place_flat_end x h k rb q fr s (omega arith)
    ]
place-Appends rb q x h k (wrapped {lap} {r} {w} m xs ys fr le bound gap eight older newer e) =
    let a = align_entrysize (length x) in
    rw (choose_slot_wrapped rb.len rb.roffset rb.woffset a lap r w fr.read_at fr.write_at)
      (elim (Bool-cases (leb (a + w) r)) [
        | inl fits ↦ rw fits (
            place_wrapped x h k rb q m xs ys fr (omega (arith, leb→le _ _ fits)) bound gap eight
              older newer e)
        | inr full ↦ rw full refl
      ])

-- For a size that a list can have, the first guard asks only for an eighth of the buffer.
pub guard_lem :
    (a l : ℕ) → 0 < a → a < 2 ^ 63 → (a == 0 || (a == 2 ^ 64 - 1 || oversized a l)) ≡ ltb (l / 8) a
guard_lem a l h k = ground arith

-- `ringbufst_write` of a non-empty message of less than 2 ^ 62 bytes, on a ring that holds `q` and
-- whose write lock is free: if it returns 1, the ring holds `q` and behind it the message; if it
-- returns 0, nothing changed; if it returns -1, nothing changed and the message's entry is larger
-- than an eighth of the buffer. It does not run on a negative entry size.
pub write-Appends :
    (rb : Ring) (q : List Message) (x : Message)
    → rb.wlock ≡ 0
    → 0 < length x
    → length x < 2 ^ 62
    → Holds rb q
    → Appends rb q x (write rb (length x) x)
unfolding write
write-Appends rb q x lock h k holds =
    let a = align_entrysize (length x) in
    let bounds = align_entrysize_bounds (length x) k in
    let positive : leb (2 ^ 63) a ≡ false = ground arith in
    let free : (rb.wlock == 0) ≡ true = ground arith in
    rw (guard_lem a rb.len (omega arith) (omega arith), positive, free)
      (elim (Bool-cases (ltb (rb.len / 8) a)) [
        | inl big ↦ rw big (refl, ltb→lt _ _ big)
        | inr fits ↦ rw fits (place-Appends rb q x h k holds)
      ])
