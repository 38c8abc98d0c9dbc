-- ===== src/Ring/Sound/Place.antt =====
-- The stores of a writer of source/common/ringbufst.h that is inside leave the bytes in use alone.
use libclogger.Prelude.{
  ℕ, ◌+◌, ◌-◌, ◌%◌, ◌≤◌, ◌<◌, ◌≡◌, refl, sym, ◌∙◌, ◌⊎◌, inl, inr, List, arith, length, leb, leb→le,
  Bool-cases,
}
use libclogger.Memory.{Mem, store_word, store_word-outside, bzero-outside}
use libclogger.Ring.{align_entrysize}
use libclogger.Ring.Offsets.{align_entrysize_bounds}
use libclogger.Ring.Content.{Message, Segment-le, store_entry-outside}
use libclogger.Ring.Holds.{Used, HoldsAt, flat, wrapped}
use libclogger.Ring.Write.{Slot, behind, front, nowhere, choose_slot, store_entry}
use libclogger.Ring.Enqueue.Place.{choose_slot_flat, choose_slot_wrapped}
use libclogger.Ring.Used.{AgreeUsed}
use libclogger.Ring.Sound.{Sendable, prepared, slot_address, Placed, Chosen}

-- Where the tests on the offsets let a store go, relative to a byte in use.
abbrev Spared : (l wo a i : ℕ) → Slot → Type 0
Spared l wo a i behind = (i < wo % l) ⊎ (wo % l + a ≤ i)
Spared l wo a i front = (i < wo % l) × (a ≤ i)
Spared l wo a i nowhere = Unit {0}

Used-Spared :
    (m : Mem) (l ro wo a i : ℕ) (q : List Message)
    → HoldsAt m l ro wo q
    → Used l ro wo i
    → Spared l wo a i (choose_slot l ro wo a)
Used-Spared m l ro wo a i q (flat {lap} {r} {w} fr s) (inl (e, h, k)) =
    rw (choose_slot_flat l ro wo a lap r w fr.read_at fr.write_at (Segment-le m r w q s))
      (elim (Bool-cases (leb (a + w) l)) [
        | inl fits ↦ rw fits (inl k)
        | inr full ↦ rw full (elim (Bool-cases (leb a r)) [
          | inl fits ↦ rw fits (k, omega (arith, leb→le _ _ fits, h, fr.read_at.remainder))
          | inr full' ↦ rw full' tt
        ])
      ])
Used-Spared m l ro wo a i q (flat {lap} {r} {w} fr s) (inr (e, u)) =
    absurd (e (fr.read_at.quotient ∙ sym fr.write_at.quotient))
Used-Spared m l ro wo a i q (wrapped {lap} {r} {w} b xs ys fr h bound gap eight older newer e)
      (inl (f, u, v)) =
    absurd (omega (arith, f, fr.read_at.quotient, fr.write_at.quotient, fr.write_at.lap_lt))
Used-Spared m l ro wo a i q (wrapped {lap} {r} {w} b xs ys fr h bound gap eight older newer e)
      (inr (f, u)) =
    rw (choose_slot_wrapped l ro wo a lap r w fr.read_at fr.write_at)
      (elim (Bool-cases (leb (a + w) r)) [
        | inl fits ↦
            rw fits (omega (arith, u, leb→le _ _ fits, fr.read_at.remainder, fr.write_at.remainder))
        | inr full ↦ rw full tt
      ])

module _ (base : Mem) (l ro wo : ℕ) (q : List Message) (held : HoldsAt base l ro wo q) where
  -- stores that keep what is spared
  agree_slot :
      (a : ℕ) (slot : Slot) (m : Mem)
      → choose_slot l ro wo a ≡ slot
      → ((i : ℕ) → i < l → Spared l wo a i slot → m i ≡ base i)
      → AgreeUsed base m l ro wo
  agree_slot a slot m choice kept i h u =
      sym (kept i h (rw choice at (Used-Spared base l ro wo a i q held u)))

  prepared-kept :
      (a i : ℕ) (slot : Slot) → i < l → Spared l wo a i slot → prepared base l wo slot i ≡ base i
  prepared-kept a i behind h u = refl
  prepared-kept a i front h u = bzero-outside base (wo % l) (l - wo % l) i (inl u.0)
  prepared-kept a i nowhere h u = refl

  module _ (x : Message) (ok : Sendable x) where
    slot_range :
        (i : ℕ) (slot : Slot)
        → Placed slot
        → Spared l wo (align_entrysize (length x)) i slot
        → (i < slot_address l wo slot) ⊎ (slot_address l wo slot + align_entrysize (length x) ≤ i)
    slot_range i behind f u = u
    slot_range i front f u = inr (omega (arith, u.1))
    slot_range i nowhere f u = absurd f

    module _ (slot : Slot) (wo' : ℕ) (c : Chosen l ro wo x slot wo') where
      pub prepared-Agree : AgreeUsed base (prepared base l wo slot) l ro wo
      prepared-Agree =
          agree_slot (align_entrysize (length x)) slot (prepared base l wo slot) c.choice
            (λ i h u. prepared-kept (align_entrysize (length x)) i slot h u)

      pub sized-Agree :
          AgreeUsed base
            (store_word (prepared base l wo slot) (slot_address l wo slot) (length x))
            l
            ro
            wo
      sized-Agree =
          let a = align_entrysize (length x) in
          let at = slot_address l wo slot in
          let room : 8 ≤ a = omega (arith, align_entrysize_bounds (length x) ok.1) in
          agree_slot a slot _ c.choice (λ i h u.
            store_word-outside (prepared base l wo slot) at (length x) i
              (omega (arith, room, slot_range i slot c.found u))
            ∙ prepared-kept a i slot h u)

      pub stored-Agree :
          AgreeUsed base
            (store_entry (prepared base l wo slot) (slot_address l wo slot) (length x) x)
            l
            ro
            wo
      stored-Agree =
          let a = align_entrysize (length x) in
          agree_slot a slot _ c.choice (λ i h u.
            store_entry-outside (prepared base l wo slot) (slot_address l wo slot) x i ok.1
              (slot_range i slot c.found u)
            ∙ prepared-kept a i slot h u)
