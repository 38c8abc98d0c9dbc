-- ===== src/Ring/Views.antt =====
-- What a thread may conclude from an offset of the other side that it loaded earlier, in the ring of
-- source/common/ringbufst.h: the writer from an old read offset, the reader from an old write offset.
use libclogger.Prelude.{
  ℕ, ◌+◌, ◌-◌, ◌*◌, ◌/◌, ◌%◌, ◌≤◌, ◌<◌, ◌≡◌, ◌≢◌, refl, sym, ap, ◌∙◌, ◌⊎◌, inl, inr, List, arith,
  leb, leb→le, true, Bool-cases,
}
use mathlib.Core.Path.{subst}
use libclogger.Memory.{Mem}
use libclogger.Ring.{int_cast}
use libclogger.Ring.Offsets.{At, At-exists}
use libclogger.Ring.Content.{Message, Segment-le}
use libclogger.Ring.Holds.{HoldsAt, flat, wrapped, Advanced}
use libclogger.Ring.Write.{behind, nowhere, choose_slot}
use libclogger.Ring.Enqueue.Place.{choose_slot_flat, choose_slot_wrapped}
use libclogger.Ring.Threads.{next_woffset}

pub Advanced-refl : (l wo ro : ℕ) → Advanced l wo ro ro
Advanced-refl l wo ro = inl (refl, omega arith)

pub Advanced-trans : (l wo a b c : ℕ) → Advanced l wo a b → Advanced l wo b c → Advanced l wo a c
Advanced-trans l wo a b c (inl (e, h)) (inl (f, k)) = inl (e ∙ f, omega arith)
Advanced-trans l wo a b c (inl (e, h)) (inr (f, k)) = inr (λ g. f (sym e ∙ g), k)
Advanced-trans l wo a b c (inr (e, h)) (inl (f, k)) = inr (e, sym f ∙ h)
Advanced-trans l wo a b c (inr (e, h)) (inr (f, k)) = absurd (f h)

-- The slot that an old read offset leads to is that of the current one, or none.
abbrev pub SameSlot : (l ro ro' wo a : ℕ) → Type 0
SameSlot l ro ro' wo a =
    (choose_slot l ro wo a ≡ nowhere)
    ⊎ ((choose_slot l ro wo a ≡ choose_slot l ro' wo a)
        × (next_woffset l ro wo a (choose_slot l ro wo a)
            ≡ next_woffset l ro' wo a (choose_slot l ro wo a)))

module _ (l ro ro' wo a : ℕ) where
  -- both on the writer's lap
  SameSlot-flat :
      (lap r r' w : ℕ)
      → At l ro lap r
      → At l ro' lap r'
      → At l wo lap w
      → r ≤ r'
      → r' ≤ w
      → SameSlot l ro ro' wo a
  unfolding next_woffset
  SameSlot-flat lap r r' w at at' atw h k =
      rw
        (
          choose_slot_flat l ro wo a lap r w at atw (omega arith),
          choose_slot_flat l ro' wo a lap r' w at' atw k,
        )
        (elim (Bool-cases (leb (a + w) l)) [
          | inl fits ↦ rw fits (inr (refl, refl))
          | inr full ↦ rw full (elim (Bool-cases (leb a r)) [
            | inl fits ↦
                let fits' : leb a r' ≡ true = ground arith in
                let laps : ro / l ≡ ro' / l = omega (arith, at.quotient, at'.quotient) in
                rw (fits, fits') (inr (refl, ap (λ q. int_cast (a + (1 - q) * l)) laps))
            | inr none_left ↦ rw none_left (inl refl)
          ])
        ])

  -- the old one on the other lap
  SameSlot-wrapped :
      (lap r w : ℕ)
      → At l ro (1 - lap) r
      → At l wo lap w
      → (a + w ≤ r → choose_slot l ro' wo a ≡ behind)
      → SameSlot l ro ro' wo a
  unfolding next_woffset
  SameSlot-wrapped lap r w at atw now =
      rw (choose_slot_wrapped l ro wo a lap r w at atw) (elim (Bool-cases (leb (a + w) r)) [
        | inl fits ↦ let e = now (leb→le _ _ fits) in rw (fits, e) (inr (refl, refl))
        | inr full ↦ rw full (inl refl)
      ])

-- A writer that loaded `ro` and a reader that went on to `ro'`: the slot is the same, or there is none.
pub choose_slot-SameSlot :
    (m : Mem) (l ro ro' wo a : ℕ) (q : List Message)
    → ro < 2 * l
    → Advanced l wo ro ro'
    → HoldsAt m l ro' wo q
    → SameSlot l ro ro' wo a
choose_slot-SameSlot m l ro ro' wo a q below (inl (laps, le)) (flat {lap} {r} {w} fr s) =
    let at : At l ro lap (ro % l) =
      subst (λ n. At l ro n (ro % l)) (laps ∙ fr.read_at.quotient) (At-exists l ro below) in
    SameSlot-flat l ro ro' wo a lap (ro % l) r w at fr.read_at fr.write_at
      (omega (arith, le, fr.read_at.remainder)) (Segment-le m r w q s)
choose_slot-SameSlot m l ro ro' wo a q below (inr (apart, over)) (flat {lap} {r} {w} fr s) =
    let here = At-exists l ro below in
    let distinct : ro / l ≢ lap = λ e. apart (e ∙ sym fr.write_at.quotient) in
    let other : ro / l ≡ 1 - lap = omega (arith, here.lap_lt, fr.write_at.lap_lt, distinct) in
    let at : At l ro (1 - lap) (ro % l) = subst (λ n. At l ro n (ro % l)) other here in
    SameSlot-wrapped l ro ro' wo a lap (ro % l) w at fr.write_at (λ fits.
      let fits' : leb (a + w) l ≡ true = ground (arith, fits, at.pos_lt) in
      choose_slot_flat l ro' wo a lap r w fr.read_at fr.write_at (Segment-le m r w q s)
      ∙ rw fits' refl)
choose_slot-SameSlot m l ro ro' wo a q below (inl (laps, le))
      (wrapped {lap} {r} {w} b xs ys fr h bound gap eight older newer e) =
    let at : At l ro (1 - lap) (ro % l) =
      subst (λ n. At l ro n (ro % l)) (laps ∙ fr.read_at.quotient) (At-exists l ro below) in
    SameSlot-wrapped l ro ro' wo a lap (ro % l) w at fr.write_at (λ fits.
      let fits' : leb (a + w) r ≡ true = ground (arith, fits, le, fr.read_at.remainder) in
      choose_slot_wrapped l ro' wo a lap r w fr.read_at fr.write_at ∙ rw fits' refl)
choose_slot-SameSlot m l ro ro' wo a q below (inr (apart, over))
      (wrapped {lap} {r} {w} b xs ys fr h bound gap eight older newer e) =
    absurd (omega (arith, over, fr.read_at.quotient, fr.write_at.quotient, fr.write_at.lap_lt))
