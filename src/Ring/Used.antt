-- ===== src/Ring/Used.antt =====
-- The bytes of the ring of source/common/ringbufst.h that hold messages, told by the offsets alone: a writer that
-- stores elsewhere changes nothing that a reader may read.
use libclogger.Prelude.{ℕ, ◌-◌, ◌≤◌, ◌<◌, ◌≡◌, sym, ap, ◌∙◌, ◌⊎◌, inl, inr, List, ◌++◌, arith}
use mathlib.Core.Path.{subst}
use mathlib.Core.List.{append_assoc}
use native.Mathlib.Decide.{dec_lt}
use libclogger.Memory.{Mem, load_word, load_word-congr}
use libclogger.Ring.Content.{Message, Segment, Segment-le, Segment-congr}
use libclogger.Ring.Holds.{apart_laps, Used, Frame, HoldsAt, flat, wrapped, Advanced}
use libclogger.Ring.Stale.{Segment-split, Segment-unique, append-cancel, marker}
use libclogger.Ring.Stale.Find.{no_return}

-- The memories agree on these bytes.
abbrev pub AgreeUsed : Mem → Mem → (l ro wo : ℕ) → Type 0
AgreeUsed m m' l ro wo = (i : ℕ) → i < l → Used l ro wo i → m i ≡ m' i

pub Used-Advanced : (l ro ro' wo i : ℕ) → Advanced l wo ro ro' → Used l ro' wo i → Used l ro wo i
Used-Advanced l ro ro' wo i (inl (e, h)) (inl (f, g, k)) = inl (e ∙ f, omega arith, k)
Used-Advanced l ro ro' wo i (inl (e, h)) (inr (f, inl g)) =
    inr (λ z. f (sym e ∙ z), inl (omega arith))
Used-Advanced l ro ro' wo i (inl (e, h)) (inr (f, inr g)) = inr (λ z. f (sym e ∙ z), inr g)
Used-Advanced l ro ro' wo i (inr (e, h)) (inl (f, g, k)) = inr (e, inr k)
Used-Advanced l ro ro' wo i (inr (e, h)) (inr (f, g)) = absurd (f h)

module _ {l ro wo lap r w : ℕ} where
  one_lap : (i : ℕ) → Frame l ro wo lap r lap w → r ≤ i → i < w → Used l ro wo i
  one_lap i fr h k = inl (
    omega (arith, fr.read_at.quotient, fr.write_at.quotient),
    omega (arith, fr.read_at.remainder),
    omega (arith, fr.write_at.remainder),
  )

  older_lap : (i : ℕ) → Frame l ro wo (1 - lap) r lap w → r ≤ i → Used l ro wo i
  older_lap i fr h = inr (apart_laps fr, inl (omega (arith, fr.read_at.remainder)))

  newer_lap : (i : ℕ) → Frame l ro wo (1 - lap) r lap w → i < w → Used l ro wo i
  newer_lap i fr h = inr (apart_laps fr, inr (omega (arith, fr.write_at.remainder)))

-- What is held depends on these bytes only.
pub HoldsAt-congr :
    (m m' : Mem) (l ro wo : ℕ) (q : List Message)
    → AgreeUsed m m' l ro wo
    → HoldsAt m l ro wo q
    → HoldsAt m' l ro wo q
HoldsAt-congr m m' l ro wo q same (flat {lap} {r} {w} fr s) = flat fr (
    Segment-congr m m' r w q
      (λ i h k. same i (omega (arith, h, k, fr.write_at.pos_lt)) (one_lap i fr h k)) s)
HoldsAt-congr m m' l ro wo q same
      (wrapped {lap} {r} {w} b xs ys fr h bound gap eight older newer e) =
    wrapped b xs ys fr h bound (keep gap) eight
      (Segment-congr m m' r b xs (λ i p k. same i (omega (arith, p, k, bound)) (older_lap i fr p))
        older)
      (Segment-congr m m' 0 w ys
        (λ i p k. same i (omega (arith, p, k, fr.write_at.pos_lt)) (newer_lap i fr k)) newer)
      e
  where
    past : r ≤ b
    past = Segment-le m r b xs older

    keep : (b ≡ l) ⊎ ((load_word m b ≡ 0) × (0 < w)) → (b ≡ l) ⊎ ((load_word m' b ≡ 0) × (0 < w))
    keep (inl e) = inl e
    keep (inr (z, pos)) = elim (dec_lt b l) [
      | yes inside ↦ inr (
        sym (
              load_word-congr m m' b (λ i p k.
                same i (omega (arith, p, k, inside, eight, fr.len_eight))
                  (older_lap i fr (omega (arith, p, past)))))
            ∙ z,
        pos,
      )
      | no outside ↦ inl (omega arith)
    ]

-- The bytes of an earlier view of a queue are among those of the current one.
pub HoldsAt-Used :
    (m : Mem) (l ro wo_old wo i : ℕ) (q rest : List Message)
    → HoldsAt m l ro wo_old q
    → HoldsAt m l ro wo (q ++ rest)
    → Used l ro wo_old i
    → Used l ro wo i
HoldsAt-Used m l ro wo_old wo i q rest (flat {lap} {r} {w} fr s)
      (flat {lap = lap'} {r = r'} {w = w'} fr' s') u =
    let pos : r' ≡ r = omega (arith, fr.read_at.remainder, fr'.read_at.remainder) in
    let more : w ≤ w' = Segment-le m w w' rest (Segment-split m r w w' q rest s (rw pos at s')) in
    elim u [
      | inl u ↦
          one_lap i fr' (omega (arith, u.1, fr'.read_at.remainder))
            (omega (arith, u.2, more, fr.write_at.remainder))
      | inr u ↦ absurd (u.0 (fr.read_at.quotient ∙ sym fr.write_at.quotient))
    ]
HoldsAt-Used m l ro wo_old wo i q rest (flat {lap} {r} {w} fr s)
      (wrapped {lap = lap'} {r = r'} {w = w'} b xs ys fr' h bound gap eight older newer e) u =
    elim u [
      | inl u ↦ older_lap i fr' (omega (arith, u.1, fr'.read_at.remainder))
      | inr u ↦ absurd (u.0 (fr.read_at.quotient ∙ sym fr.write_at.quotient))
    ]
HoldsAt-Used m l ro wo_old wo i q rest
      (wrapped {lap} {r} {w} b xs ys fr h bound gap eight older newer e)
      (flat {lap = lap'} {r = r'} {w = w'} fr' s') u =
    let pos : r' ≡ r = omega (arith, fr.read_at.remainder, fr'.read_at.remainder) in
    absurd
      (no_return m l r b w w' xs ys rest fr'.write_at.pos_lt gap older newer (rw (pos, e) at s'))
HoldsAt-Used m l ro wo_old wo i q rest
      (wrapped {lap} {r} {w} b xs ys fr h bound gap eight older newer e)
      (wrapped {lap = lap'} {r = r'} {w = w'} b' xs' ys' fr' h' bound' gap' eight' older' newer' e')
      u =
    elim u [
      | inl u ↦ absurd (apart_laps fr u.0)
      | inr u ↦ elim u.1 [
        | inl k ↦ older_lap i fr' (omega (arith, k, fr'.read_at.remainder))
        | inr k ↦ newer_lap i fr' (omega (arith, k, more, fr.write_at.remainder))
      ]
    ]
  where
    pos : r' ≡ r
    pos = omega (arith, fr.read_at.remainder, fr'.read_at.remainder)

    same : xs ≡ xs'
    same =
        Segment-unique m l r b b' xs xs' (marker m l b w bound gap) (marker m l b' w' bound' gap')
          older (rw pos at older')

    split : ys' ≡ ys ++ rest
    split =
        append-cancel xs ys' (ys ++ rest)
          (ap (λ t. t ++ ys') same ∙ sym e' ∙ ap (λ t. t ++ rest) e ∙ append_assoc xs ys rest)

    more : w ≤ w'
    more =
        Segment-le m w w' rest
          (Segment-split m 0 w w' ys rest newer (subst (Segment m 0 w') split newer'))

-- An earlier view stands in any memory that keeps the bytes of the current one.
pub HoldsAt-congr_old :
    (m m' : Mem) (l ro wo_old wo : ℕ) (q rest : List Message)
    → AgreeUsed m m' l ro wo
    → HoldsAt m l ro wo_old q
    → HoldsAt m l ro wo (q ++ rest)
    → HoldsAt m' l ro wo_old q
HoldsAt-congr_old m m' l ro wo_old wo q rest same old now =
    HoldsAt-congr m m' l ro wo_old q
      (λ i h u. same i h (HoldsAt-Used m l ro wo_old wo i q rest old now u)) old
