-- ===== src/Ring/Sound/Publish.antt =====
-- The two stores of an offset in source/common/ringbufst.h: what one side publishes leaves the other side, wherever
-- it stands, with what it knew.
use libclogger.Prelude.{
  ℕ, ◌+◌, ◌-◌, ◌*◌, ◌/◌, ◌<◌, ◌≡◌, sym, ap, ◌∙◌, inl, inr, List, [], ◌∷◌, ◌++◌, arith, length, leb,
  leb→le, Bool-cases,
}
use mathlib.Core.Path.{subst}
use mathlib.Core.List.{append_assoc}
use libclogger.Memory.{Mem, load, load-congr}
use libclogger.Ring.{Ring, align_entrysize, int_cast, normalize_offset}
use libclogger.Ring.Offsets.{At, normalize-At}
use libclogger.Ring.Content.{Message}
use libclogger.Ring.Holds.{InUse, HoldsAt, flat, wrapped, Advanced}
use libclogger.Ring.Write.{Slot, behind, front, nowhere, choose_slot, store_entry, place}
use libclogger.Ring.Enqueue.{Appends, place-Appends}
use libclogger.Ring.Enqueue.Place.{choose_slot_wrapped}
use libclogger.Ring.Threads.{
  Writer, w_idle, w_locked, w_loaded, w_cleared, w_sized, w_stored, w_moved, Reader, r_idle,
  r_locked, r_loaded, r_found, r_copied, r_skipping, r_moved, r_failed, next_woffset,
}
use libclogger.Ring.Views.{Advanced-trans, choose_slot-SameSlot}
use libclogger.Ring.Used.{HoldsAt-congr_old, HoldsAt-congr, HoldsAt-Used}
use libclogger.Ring.Sound.{Sendable, prepared, slot_address, Placed, Chosen, WriterOk, ReaderOk}
use libclogger.Ring.Sound.Place.{stored-Agree}

two_laps : (l o lap p : ℕ) → lap < 2 → p < l → o ≡ lap * l + p → o < 2 * l
two_laps l o lap p h k e = grind arith

pub roffset_lt : (m : Mem) (l ro wo : ℕ) (q : List Message) → HoldsAt m l ro wo q → ro < 2 * l
roffset_lt m l ro wo q (flat {lap} fr s) =
    two_laps l ro lap _ fr.read_at.lap_lt fr.read_at.pos_lt fr.read_at.offset
roffset_lt m l ro wo q (wrapped {lap} b xs ys fr h bound gap eight older newer e) =
    two_laps l ro (1 - lap) _ fr.read_at.lap_lt fr.read_at.pos_lt fr.read_at.offset

-- The entry with the offset behind it is the next of the queue.
publish-HoldsAt :
    (base : Mem) (l ro wo : ℕ) (q : List Message) (x : Message) (slot : Slot) (wo' : ℕ)
    → Sendable x
    → Chosen l ro wo x slot wo'
    → HoldsAt base l ro wo q
    → HoldsAt
        (store_entry (prepared base l wo slot) (slot_address l wo slot) (length x) x)
        l
        ro
        wo'
        (q ++ (x ∷ []))
unfolding place next_woffset
publish-HoldsAt base l ro wo q x slot wo' ok c held = at_slot slot c.found c.offset (
    subst (λ s. Appends rb q x (place rb s (align_entrysize (length x)) (length x) x)) c.choice
      (place-Appends rb q x ok.0 ok.1 held))
  where
    rb : Ring
    rb = record { rlock = 0; wlock = 0; woffset = wo; roffset = ro; len = l; buffer = base }

    at_slot :
        (slot : Slot)
        → Placed slot
        → wo' ≡ next_woffset l ro wo (align_entrysize (length x)) slot
        → Appends rb q x (place rb slot (align_entrysize (length x)) (length x) x)
        → HoldsAt
            (store_entry (prepared base l wo slot) (slot_address l wo slot) (length x) x)
            l
            ro
            wo'
            (q ++ (x ∷ []))
    at_slot behind f e h = rw e h
    at_slot front f e h = rw e h
    at_slot nowhere f e h = absurd f

-- An entry that the tests placed leaves the lap of the write offset only if it was on the reader's.
Advanced-write :
    (base : Mem) (l ro wo next : ℕ) (q : List Message) (x : Message) (slot : Slot) (wo' : ℕ)
    → Chosen l ro wo x slot wo'
    → HoldsAt base l ro wo q
    → Advanced l wo ro next
    → Advanced l wo' ro next
unfolding next_woffset
Advanced-write base l ro wo next q x slot wo' c held (inl h) = inl h
Advanced-write base l ro wo next q x slot wo' c (flat fr s) (inr h) =
    absurd (h.0 (fr.read_at.quotient ∙ sym fr.write_at.quotient))
Advanced-write base l ro wo next q x slot wo' c
      (wrapped {lap} {r} {w} b xs ys fr h bound gap eight older newer e) (inr (f, g)) =
    at_slot slot c.found c.choice c.offset
  where
    at_slot :
        (slot : Slot)
        → Placed slot
        → choose_slot l ro wo (align_entrysize (length x)) ≡ slot
        → wo' ≡ next_woffset l ro wo (align_entrysize (length x)) slot
        → Advanced l wo' ro next
    at_slot slot p choice offset = elim (Bool-cases (leb (align_entrysize (length x) + w) r)) [
      | inl fits ↦
          let now : behind ≡ slot =
            rw
              (
                choose_slot_wrapped l ro wo (align_entrysize (length x)) lap r w fr.read_at
                    fr.write_at,
                fits,
              )
              at choice in
          let moved : At l (int_cast (normalize_offset (wo + align_entrysize (length x)) l)) lap
              (w + align_entrysize (length x)) =
            normalize-At fr.write_at fr.small (align_entrysize (length x))
              (omega (arith, leb→le _ _ fits, fr.read_at.pos_lt)) in
          let same : wo' ≡ int_cast (normalize_offset (wo + align_entrysize (length x)) l) =
            rw (← now) at offset in
          let lap_same : wo' / l ≡ wo / l =
            ap (λ n. n / l) same ∙ moved.quotient ∙ sym fr.write_at.quotient in
          inr (λ z. f (z ∙ lap_same), g ∙ sym lap_same)
      | inr full ↦
          let now : nowhere ≡ slot =
            rw
              (
                choose_slot_wrapped l ro wo (align_entrysize (length x)) lap r w fr.read_at
                    fr.write_at,
                full,
              )
              at choice in
          absurd (subst Placed (sym now) p)
    ]

-- A reader that went on leaves the writer its slot.
Chosen-Advanced :
    (base : Mem) (l ro ro' wo : ℕ) (q : List Message) (x : Message) (slot : Slot) (wo' : ℕ)
    → ro < 2 * l
    → Advanced l wo ro ro'
    → HoldsAt base l ro' wo q
    → Chosen l ro wo x slot wo'
    → Chosen l ro' wo x slot wo'
Chosen-Advanced base l ro ro' wo q x slot wo' below adv held c =
    elim (choose_slot-SameSlot base l ro ro' wo (align_entrysize (length x)) q below adv held) [
      | inl none_left ↦ absurd (subst Placed (sym c.choice ∙ none_left) c.found)
      | inr same ↦ record {
        choice = sym same.0 ∙ c.choice;
        found = c.found;
        offset = c.offset ∙ (rw c.choice at same.1);
      }
    ]

module _ (base : Mem) (l ro wo : ℕ) (q : List Message) (held : HoldsAt base l ro wo q) where
  -- The writer sets its offset: the queue grows at its end.
  module _ (x : Message) (slot : Slot) (wo' : ℕ) (ok : Sendable x)
      (c : Chosen l ro wo x slot wo') where
    abbrev published : Mem
    published = store_entry (prepared base l wo slot) (slot_address l wo slot) (length x) x

    pub write-HoldsAt : HoldsAt published l ro wo' (q ++ (x ∷ []))
    write-HoldsAt = publish-HoldsAt base l ro wo q x slot wo' ok c held

    -- for a reader on its way to `next`
    write-HoldsAt_next :
        (next : ℕ) (rest : List Message)
        → HoldsAt base l next wo rest
        → Advanced l wo ro next
        → HoldsAt published l next wo' (rest ++ (x ∷ []))
    write-HoldsAt_next next rest h adv =
        publish-HoldsAt base l next wo rest x slot wo' ok
          (Chosen-Advanced base l ro next wo rest x slot wo' (roffset_lt base l ro wo q held) adv h
            c)
          h

    kept : HoldsAt published l ro wo q
    kept =
        HoldsAt-congr base published l ro wo q (stored-Agree base l ro wo q held x ok slot wo' c)
          held

    same_entry :
        (at size : ℕ)
        → InUse l ro wo at size
        → load base (at + 8) size ≡ load published (at + 8) size
    same_entry at size used = load-congr base published (at + 8) size (λ i p k.
        let u = used i (omega (arith, p)) k in
        stored-Agree base l ro wo q held x ok slot wo' c i u.0 u.1)

    pub write-ReaderOk :
        (rd : Reader) → ReaderOk base l ro wo q rd → ReaderOk published l ro wo' (q ++ (x ∷ [])) rd
    write-ReaderOk r_idle h = tt
    write-ReaderOk (r_locked n) h = tt
    write-ReaderOk (r_loaded n wo_old) (seen, rest, e, h) = (
      seen,
      rest ++ (x ∷ []),
      ap (λ t. t ++ (x ∷ [])) e ∙ append_assoc seen rest (x ∷ []),
      HoldsAt-congr_old base published l ro wo_old wo seen rest
          (stored-Agree base l ro wo q held x ok slot wo' c) h
          (subst (HoldsAt base l ro wo) e held),
    )
    write-ReaderOk (r_found at size next) (rest, e, h, adv, used) = (
      rest ++ (x ∷ []),
      ap (λ t. t ++ (x ∷ [])) e ∙ ap (λ y. y ∷ (rest ++ (x ∷ []))) (same_entry at size used),
      write-HoldsAt_next next rest h adv,
      Advanced-write base l ro wo next q x slot wo' c held adv,
      λ i p k.
          let u = used i p k in
          (u.0, HoldsAt-Used published l ro wo wo' i q (x ∷ []) kept write-HoldsAt u.1),
    )
    write-ReaderOk (r_copied y next) (rest, e, h, adv) = (
      rest ++ (x ∷ []),
      ap (λ t. t ++ (x ∷ [])) e,
      write-HoldsAt_next next rest h adv,
      Advanced-write base l ro wo next q x slot wo' c held adv,
    )
    write-ReaderOk (r_skipping next) (h, adv) =
        (write-HoldsAt_next next q h adv, Advanced-write base l ro wo next q x slot wo' c held adv)
    write-ReaderOk r_moved h = tt
    write-ReaderOk r_failed h = h

  -- The reader sets its offset: the writer, wherever it stands, keeps its slot.
  module _ (next : ℕ) (rest : List Message) (adv : Advanced l wo ro next)
      (h : HoldsAt base l next wo rest) where
    read-Chosen :
        (x : Message) (slot : Slot) (wo' : ℕ)
        → Chosen l ro wo x slot wo'
        → Chosen l next wo x slot wo'
    read-Chosen x slot wo' c =
        Chosen-Advanced base l ro next wo rest x slot wo' (roffset_lt base l ro wo q held) adv h c

    pub read-WriterOk :
        (m : Mem) (wr : Writer) → WriterOk base l ro wo m wr → WriterOk base l next wo m wr
    read-WriterOk m w_idle k = k
    read-WriterOk m (w_locked x) k = k
    read-WriterOk m (w_loaded x ro_old) (ok, below, old, e) =
        (ok, below, Advanced-trans l wo ro_old ro next old adv, e)
    read-WriterOk m (w_cleared x wo') (ok, c, e) = (ok, read-Chosen x front wo' c, e)
    read-WriterOk m (w_sized x at wo') (slot, ok, c, p, e) =
        (slot, ok, read-Chosen x slot wo' c, p, e)
    read-WriterOk m (w_stored x wo') (slot, ok, c, e) = (slot, ok, read-Chosen x slot wo' c, e)
    read-WriterOk m w_moved k = k
