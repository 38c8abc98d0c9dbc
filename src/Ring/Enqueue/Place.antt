-- ===== src/Ring/Enqueue/Place.antt =====
-- The stores of `ringbufst_write` in source/common/ringbufst.h, slot by slot.
use libclogger.Prelude.{
  ℕ, ◌+◌, ◌-◌, ◌/◌, ◌%◌, ◌^◌, ◌≤◌, ◌<◌, ◌≡◌, refl, sym, ◌∙◌, ◌⊎◌, inl, inr, List, [], ◌∷◌, ◌++◌,
  arith, length, leb, if◌then◌else◌,
}
use native.Mathlib.Nat.{le_refl}
use mathlib.Core.List.{append-nil, append_assoc}
use libclogger.Memory.{
  Mem, Agree, load_word, bzero, load_word-congr, load_word-bzero, bzero-outside,
}
use libclogger.Ring.{Ring, align_entrysize}
use libclogger.Ring.Offsets.{
  align_entrysize_bounds, restore_wrap_same, restore_wrap_other, At, normalize-At, normalize-At_end,
  lap-At,
}
use libclogger.Ring.Content.{
  Message, Segment, Segment-le, Segment-congr, Segment-snoc, store_entry-IsEntry,
  store_entry-outside,
}
use libclogger.Ring.Holds.{Frame, Holds, flat, wrapped}
use libclogger.Ring.Write.{behind, front, nowhere, choose_slot, store_entry, place}

-- the tests at offsets on one lap
pub choose_slot_flat :
    (l ro wo a lap r w : ℕ)
    → At l ro lap r
    → At l wo lap w
    → r ≤ w
    → choose_slot l ro wo a ≡ (if leb (a + w) l then behind else if leb a r then front else nowhere)
unfolding choose_slot
choose_slot_flat l ro wo a lap r w at at' h =
    ground (arith, restore_wrap_same at at', at.remainder, at'.remainder)

pub choose_slot_wrapped :
    (l ro wo a lap r w : ℕ)
    → At l ro (1 - lap) r
    → At l wo lap w
    → choose_slot l ro wo a ≡ (if leb (a + w) r then behind else nowhere)
unfolding choose_slot
choose_slot_wrapped l ro wo a lap r w at at' =
    ground (arith, restore_wrap_other at at', at.remainder, at'.remainder)

module _ (x : Message) (nonempty : 0 < length x) (short : length x < 2 ^ 62) where
  abbrev room : ℕ
  room = align_entrysize (length x)

  stored-Agree :
      (m : Mem) (at a b : ℕ)
      → (b ≤ at) ⊎ (at + room ≤ a)
      → Agree m (store_entry m at (length x) x) a b
  stored-Agree m at a b apart i h k = sym (store_entry-outside m at x i short (omega arith))

  -- the new entry behind the entries from `a` to `at`
  stored_behind :
      (m : Mem) (a at : ℕ) (q : List Message)
      → Segment m a at q
      → Segment (store_entry m at (length x) x) a (at + room) (q ++ (x ∷ []))
  stored_behind m a at q s =
      Segment-snoc _ a at (at + room) q x
        (Segment-congr m _ a at q (stored-Agree m at a at (inl (le_refl at))) s)
        (store_entry-IsEntry m at x nonempty short) refl

  -- A zero word that the entry does not reach stays.
  stored-load_word :
      (m : Mem) (at a : ℕ)
      → at + room ≤ a
      → load_word m a ≡ 0
      → load_word (store_entry m at (length x) x) a ≡ 0
  stored-load_word m at a h e =
      sym (load_word-congr m _ a (stored-Agree m at a (a + 8) (inr h))) ∙ e

  stored_apart :
      (m : Mem) (at a b : ℕ) (q : List Message)
      → at + room ≤ a
      → Segment m a b q
      → Segment (store_entry m at (length x) x) a b q
  stored_apart m at a b q h s = Segment-congr m _ a b q (stored-Agree m at a b (inr h)) s

  module _ (rb : Ring) (q : List Message) {lap r w : ℕ} where
    pub place_flat :
        Frame rb.len rb.roffset rb.woffset lap r lap w
        → Segment rb.buffer r w q
        → w + room < rb.len
        → Holds (place rb behind room (length x) x).1 (q ++ (x ∷ []))
    unfolding place
    place_flat fr s h =
        flat
          (record {
            read_at = fr.read_at;
            write_at = normalize-At fr.write_at fr.small room h;
            small = fr.small;
            len_eight = fr.len_eight;
            r_eight = fr.r_eight;
            w_eight = omega (arith, fr.w_eight, align_entrysize_bounds (length x) short);
          })
          (rw fr.write_at.remainder (stored_behind rb.buffer r w q s))

    pub place_flat_end :
        Frame rb.len rb.roffset rb.woffset lap r lap w
        → Segment rb.buffer r w q
        → w + room ≡ rb.len
        → Holds (place rb behind room (length x) x).1 (q ++ (x ∷ []))
    unfolding place
    place_flat_end fr s h =
        wrapped rb.len (q ++ (x ∷ [])) []
          (record {
            read_at =
                let back : lap ≡ 1 - (1 - lap) = omega (arith, fr.read_at.lap_lt) in
                rw (← back) fr.read_at;
            write_at = normalize-At_end fr.write_at fr.small room h;
            small = fr.small;
            len_eight = fr.len_eight;
            r_eight = fr.r_eight;
            w_eight = refl;
          })
          (omega arith) (le_refl _) (inl refl) fr.len_eight
          (rw (fr.write_at.remainder, ← h) (stored_behind rb.buffer r w q s)) refl
          (sym (append-nil _))

    -- The tail behind `w` is zeroed, and the entry starts the other lap.
    pub place_front :
        Frame rb.len rb.roffset rb.woffset lap r lap w
        → Segment rb.buffer r w q
        → rb.len < w + room
        → room ≤ r
        → Holds (place rb front room (length x) x).1 (q ++ (x ∷ []))
    unfolding place
    place_front fr s h k =
        let order : r ≤ w = Segment-le rb.buffer r w q s in
        let bound : w + 8 ≤ rb.len = omega (arith, fr.write_at.pos_lt, fr.len_eight, fr.w_eight) in
        let zeroed : Mem = bzero rb.buffer w (rb.len - w) in
        let other : (1 - rb.roffset / rb.len) ≡ 1 - lap = rw fr.read_at.quotient in
        rw (fr.write_at.remainder, other)
          (wrapped {lap = 1 - lap} w q (x ∷ [])
            (record {
              read_at =
                  let back : lap ≡ 1 - (1 - lap) = omega (arith, fr.read_at.lap_lt) in
                  rw (← back) fr.read_at;
              write_at =
                  lap-At fr.write_at fr.small room (1 - lap) (omega (arith, fr.read_at.pos_lt))
                    (omega arith);
              small = fr.small;
              len_eight = fr.len_eight;
              r_eight = fr.r_eight;
              w_eight = (align_entrysize_bounds (length x) short).2;
            })
            k (omega arith)
            (inr (
              stored-load_word zeroed 0 w (omega arith)
                  (load_word-bzero rb.buffer w (rb.len - w) (omega arith)),
              omega (arith, align_entrysize_bounds (length x) short),
            ))
            fr.w_eight
            (stored_apart zeroed 0 r w q (omega arith) (
              Segment-congr rb.buffer zeroed r w q
                (λ i p h. sym (bzero-outside rb.buffer w (rb.len - w) i (inl h))) s))
            ((stored_behind zeroed 0 0 [] refl).0, omega arith) refl)

    pub place_wrapped :
        (m : ℕ) (xs ys : List Message)
        → Frame rb.len rb.roffset rb.woffset (1 - lap) r lap w
        → w + room ≤ r
        → m ≤ rb.len
        → (m ≡ rb.len) ⊎ ((load_word rb.buffer m ≡ 0) × (0 < w))
        → m % 8 ≡ 0
        → Segment rb.buffer r m xs
        → Segment rb.buffer 0 w ys
        → q ≡ xs ++ ys
        → Holds (place rb behind room (length x) x).1 (q ++ (x ∷ []))
    unfolding place
    place_wrapped m xs ys fr h bound gap eight older newer e =
        wrapped m xs (ys ++ (x ∷ []))
          (record {
            read_at = fr.read_at;
            write_at = normalize-At fr.write_at fr.small room (omega (arith, fr.read_at.pos_lt));
            small = fr.small;
            len_eight = fr.len_eight;
            r_eight = fr.r_eight;
            w_eight = omega (arith, fr.w_eight, align_entrysize_bounds (length x) short);
          })
          h bound (rw fr.write_at.remainder (keep gap)) eight
          (rw fr.write_at.remainder (stored_apart rb.buffer w r m xs h older))
          (rw fr.write_at.remainder (stored_behind rb.buffer 0 w ys newer))
          (rw e (append_assoc xs ys (x ∷ [])))
      where
        keep :
            (m ≡ rb.len) ⊎ ((load_word rb.buffer m ≡ 0) × (0 < w))
            → (m ≡ rb.len)
              ⊎ ((load_word (store_entry rb.buffer w (length x) x) m ≡ 0) × (0 < w + room))
        keep (inl p) = inl p
        keep (inr p) = inr (
          stored-load_word rb.buffer w m (omega (arith, Segment-le rb.buffer r m xs older)) p.0,
          omega (arith, p.1),
        )
