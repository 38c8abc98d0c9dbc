-- ===== src/Ring/Stale/Find.antt =====
-- The tests of a reader of source/common/ringbufst.h at a write offset that it loaded earlier, against the tests
-- at the current one.
use libclogger.Prelude.{
  ℕ, ◌+◌, ◌-◌, ◌≤◌, ◌<◌, ◌≡◌, sym, ap, ◌∙◌, ◌⊎◌, inl, inr, List, [], ◌∷◌, ◌++◌, arith, length,
}
use mathlib.Core.Path.{subst}
use mathlib.Core.List.{append_assoc}
use native.Mathlib.Decide.{dec_lt}
use libclogger.Memory.{Mem, load_word}
use libclogger.Ring.{align_entrysize}
use libclogger.Ring.Content.{Message, Segment, Segment-le}
use libclogger.Ring.Holds.{Frame, HoldsAt, flat, wrapped}
use libclogger.Ring.Read.{nothing, find_entry}
use libclogger.Ring.Dequeue.FindEntry.{
  find_entry_flat_empty, find_entry_flat, find_entry_wrapped, find_entry_skip, find_entry_start,
}
use libclogger.Ring.Stale.{Segment-split, no_entry}

-- At the old offset the tests find nothing, or what they find at the current one.
abbrev pub Sees : Mem → (l ro wo_old wo : ℕ) → Type 0
Sees m l ro wo_old wo =
    (find_entry m l ro wo_old ≡ nothing) ⊎ (find_entry m l ro wo_old ≡ find_entry m l ro wo)

-- A lap that the writer left is not one that it only now fills.
pub no_return :
    (m : Mem) (l r b w w' : ℕ) (xs ys zs : List Message)
    → w' < l
    → (b ≡ l) ⊎ ((load_word m b ≡ 0) × (0 < w))
    → Segment m r b xs
    → Segment m 0 w ys
    → Segment m r w' (xs ++ ys ++ zs)
    → ⊥
no_return m l r b w w' xs ys zs inside gap older newer s =
    behind ys gap newer (
      Segment-split m r b w' xs (ys ++ zs) older (subst (Segment m r w') (append_assoc xs ys zs) s))
  where
    behind :
        (ys : List Message)
        → (b ≡ l) ⊎ ((load_word m b ≡ 0) × (0 < w))
        → Segment m 0 w ys
        → Segment m b w' (ys ++ zs)
        → ⊥
    behind ys (inl e) newer t = omega (arith, Segment-le m b w' (ys ++ zs) t)
    behind [] (inr e) newer t = omega (arith, e.1)
    behind (y ∷ ys) (inr e) newer t = no_entry m b y e.0 t.0

module _ (m : Mem) (l ro wo_old wo : ℕ) {lap r : ℕ} where
  flat-Sees :
      (xs ys : List Message) {w w' : ℕ}
      → Frame l ro wo_old lap r lap w
      → Frame l ro wo lap r lap w'
      → Segment m r w xs
      → Segment m r w' (xs ++ ys)
      → Sees m l ro wo_old wo
  flat-Sees [] ys fr fr' s t = inl (find_entry_flat_empty m l ro wo_old fr s)
  flat-Sees (x ∷ xs) ys {w} {w'} fr fr' s t = inr (
      find_entry_flat m l ro wo_old fr x s.0
        (Segment-le m (r + align_entrysize (length x)) w xs s.1)
      ∙ sym (
          find_entry_flat m l ro wo fr' x t.0
            (Segment-le m (r + align_entrysize (length x)) w' (xs ++ ys) t.1)))

  left-Sees :
      (xs : List Message) {w w' : ℕ}
      → Frame l ro wo_old (1 - lap) r (1 - lap) w
      → Frame l ro wo (1 - lap) r lap w'
      → Segment m r w xs
      → Sees m l ro wo_old wo
  left-Sees [] fr fr' s = inl (find_entry_flat_empty m l ro wo_old fr s)
  left-Sees (x ∷ xs) {w} fr fr' s =
      let room = Segment-le m (r + align_entrysize (length x)) w xs s.1 in
      inr (
        find_entry_flat m l ro wo_old fr x s.0 room
        ∙ sym (find_entry_wrapped m l ro wo fr' x s.0 (omega (arith, room, fr.write_at.pos_lt))))

  -- the first newer entry is the first one at the current offset too
  front-Sees :
      (ys xs' ys' zs : List Message) (b : ℕ) {w w' : ℕ}
      → Frame l ro wo_old (1 - lap) r lap w
      → Frame l ro wo (1 - lap) r lap w'
      → load_word m r ≡ 0
      → r + 8 ≡ l
      → 0 < w
      → Segment m 0 w ys
      → Segment m r b xs'
      → Segment m 0 w' ys'
      → ys ++ zs ≡ xs' ++ ys'
      → Sees m l ro wo_old wo
  front-Sees ys (x ∷ xs') ys' zs b fr fr' z end pos s o n e = absurd (no_entry m r x z o.0)
  front-Sees [] [] ys' zs b fr fr' z end pos s o n e = absurd (omega arith)
  front-Sees (y ∷ ys) [] ys' zs b {w} {w'} fr fr' z end pos s o n e =
      let t : Segment m 0 w' (y ∷ ys ++ zs) = subst (Segment m 0 w') (sym e) n in
      let room : align_entrysize (length y) ≤ w =
        omega (arith, Segment-le m (0 + align_entrysize (length y)) w ys s.1) in
      let room' : align_entrysize (length y) ≤ w' =
        omega (arith, Segment-le m (0 + align_entrysize (length y)) w' (ys ++ zs) t.1) in
      inr (
        find_entry_start m l ro wo_old fr y s.0 end room
        ∙ sym (find_entry_start m l ro wo fr' y s.0 end room'))

  wrapped-Sees :
      (xs ys xs' ys' zs : List Message) (b b' : ℕ) {w w' : ℕ}
      → Frame l ro wo_old (1 - lap) r lap w
      → Frame l ro wo (1 - lap) r lap w'
      → b ≤ l
      → (b ≡ l) ⊎ ((load_word m b ≡ 0) × (0 < w))
      → Segment m r b xs
      → Segment m 0 w ys
      → Segment m r b' xs'
      → Segment m 0 w' ys'
      → xs ++ ys ++ zs ≡ xs' ++ ys'
      → Sees m l ro wo_old wo
  wrapped-Sees (x ∷ xs) ys xs' ys' zs b b' fr fr' h gap older newer older' newer' e =
      let room : r + align_entrysize (length x) ≤ l =
        omega (arith, Segment-le m (r + align_entrysize (length x)) b xs older.1) in
      inr (
        find_entry_wrapped m l ro wo_old fr x older.0 room
        ∙ sym (find_entry_wrapped m l ro wo fr' x older.0 room))
  wrapped-Sees [] ys xs' ys' zs b b' fr fr' h (inl end) older newer older' newer' e =
      absurd (omega (arith, fr.read_at.pos_lt))
  wrapped-Sees [] ys xs' ys' zs b b' fr fr' h (inr gap) older newer older' newer' e =
      let z : load_word m r ≡ 0 = subst (λ a. load_word m a ≡ 0) (sym older) gap.0 in
      elim (dec_lt (r + 8) l) [
        | yes room ↦
            inr
              (find_entry_skip m l ro wo_old fr z room ∙ sym (find_entry_skip m l ro wo fr' z room))
        | no full ↦
            let end : r + 8 ≡ l =
              omega (arith, full, fr.read_at.pos_lt, fr.len_eight, fr.r_eight) in
            front-Sees ys xs' ys' zs b' fr fr' z end gap.1 newer older' newer' e
      ]

-- The same of two views of one queue.
module _ (m : Mem) (l ro wo_old wo : ℕ) (q rest : List Message) where
  pub HoldsAt-Sees : HoldsAt m l ro wo_old q → HoldsAt m l ro wo (q ++ rest) → Sees m l ro wo_old wo
  HoldsAt-Sees (flat {lap} {r} {w} fr s) (flat {lap = lap'} {r = r'} {w = w'} fr' s') =
      let pos : r' ≡ r = omega (arith, fr.read_at.remainder, fr'.read_at.remainder) in
      let laps : lap' ≡ lap = omega (arith, fr.read_at.quotient, fr'.read_at.quotient) in
      flat-Sees m l ro wo_old wo q rest fr (rw (laps, pos) at fr') s (rw pos at s')
  HoldsAt-Sees (flat {lap} {r} {w} fr s)
        (wrapped {lap = lap'} {r = r'} {w = w'} b xs ys fr' h bound gap eight older newer e) =
      let pos : r' ≡ r = omega (arith, fr.read_at.remainder, fr'.read_at.remainder) in
      let laps : lap ≡ 1 - lap' = omega (arith, fr.read_at.quotient, fr'.read_at.quotient) in
      left-Sees m l ro wo_old wo q (rw laps at fr) (rw pos at fr') s
  HoldsAt-Sees (wrapped {lap} {r} {w} b xs ys fr h bound gap eight older newer e)
        (flat {lap = lap'} {r = r'} {w = w'} fr' s') =
      let pos : r' ≡ r = omega (arith, fr.read_at.remainder, fr'.read_at.remainder) in
      absurd
        (no_return m l r b w w' xs ys rest fr'.write_at.pos_lt gap older newer (rw (pos, e) at s'))
  HoldsAt-Sees (wrapped {lap} {r} {w} b xs ys fr h bound gap eight older newer e)
        (wrapped {lap = lap'} {r = r'} {w = w'} b' xs' ys' fr' h' bound' gap' eight' older' newer'
          e') =
      let pos : r' ≡ r = omega (arith, fr.read_at.remainder, fr'.read_at.remainder) in
      let laps : lap' ≡ lap = omega (
        arith, fr.read_at.quotient, fr'.read_at.quotient, fr.write_at.lap_lt, fr'.write_at.lap_lt,
      ) in
      wrapped-Sees m l ro wo_old wo xs ys xs' ys' rest b b' fr (rw (laps, pos) at fr') bound gap
        older newer (rw pos at older') newer' (ap (λ t. t ++ rest) (sym e) ∙ e')
