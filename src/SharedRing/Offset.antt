-- ===== src/SharedRing/Offset.antt =====
-- The offsets of source/common/shmmbuf.h, which are not cast to `int`, against those of source/common/ringbufst.h:
-- on a buffer of at most 2 ^ 30 bytes they are the same.
use libclogger.Prelude.{
  ℕ, ◌+◌, ◌-◌, ◌*◌, ◌/◌, ◌%◌, ◌^◌, ◌≤◌, ◌<◌, ◌≡◌, refl, inl, inr, List, arith, Bool-cases, leb,
  leb→le,
}
use native.Mathlib.Nat.{zero-add}
use libclogger.Memory.{Mem, load_word}
use libclogger.Ring.{Ring, align_entrysize, restore_wrap, normalize_offset, int_cast}
use libclogger.Ring.Content.{Message}
use libclogger.Ring.Holds.{HoldsAt, flat, wrapped}
use libclogger.Ring.Write.{front, choose_slot}
use libclogger.Ring.Read.{Found, check_entry}
use libclogger.SharedRing.{SharedRing}
use libclogger.Ring as Static
use libclogger.SharedRing as Shared

-- Two laps of the buffer fit in an `int`, and the write offset is on one of them.
pub record Small (l wo : ℕ) : Type 0 where
  pub nonempty : 0 < l
  pub small : 2 * l ≤ 2 ^ 31
  pub lap : wo / l < 2

pub HoldsAt-Small : (m : Mem) (l ro wo : ℕ) (q : List Message) → HoldsAt m l ro wo q → Small l wo
HoldsAt-Small m l ro wo q (flat fr s) = record {
  nonempty = omega (arith, fr.read_at.pos_lt);
  small = fr.small;
  lap = omega (arith, fr.write_at.quotient, fr.write_at.lap_lt);
}
HoldsAt-Small m l ro wo q (wrapped b xs ys fr h bound gap eight older newer e) = record {
  nonempty = omega (arith, fr.read_at.pos_lt);
  small = fr.small;
  lap = omega (arith, fr.write_at.quotient, fr.write_at.lap_lt);
}

pub normalize_cast :
    (l wo o : ℕ) → Small l wo → int_cast (normalize_offset o l) ≡ normalize_offset o l
normalize_cast l wo o s =
    let lap : o / l % 2 < 2 = omega arith in
    let pos : o % l < l = omega (arith, s.nonempty) in
    let below : o / l % 2 * l + o % l < 2 ^ 31 = grind (arith, s.small) in omega (arith, below)

lap_cast : (l wo a n : ℕ) → Small l wo → n < 2 → a ≤ l → int_cast (a + n * l) ≡ a + n * l
lap_cast l wo a n s h k =
    let below : a + n * l ≤ 2 ^ 31 = grind (arith, s.small) in omega (arith, below)

-- The tests of the readers come to the same.
pub find_entry-static :
    (m : Mem) (l ro wo : ℕ) (q : List Message)
    → HoldsAt m l ro wo q
    → Shared.find_entry m l ro wo ≡ Static.Read.find_entry m l ro wo
unfolding Shared.find_entry Static.Read.find_entry
find_entry-static m l ro wo q h =
    let s = HoldsAt-Small m l ro wo q h in
    let a = align_entrysize (load_word m 0) in
    let pos : wo % l < l = omega (arith, s.nonempty) in
    rw (normalize_cast l wo (ro + align_entrysize (load_word m (ro % l))) s)
      (elim (Bool-cases (leb (a + 0) (wo % l))) [
        | inl fits ↦
            rw (lap_cast l wo a (wo / l) s s.lap (omega (arith, leb→le _ _ fits, pos))) refl
        | inr none_left ↦ rw none_left refl
      ])

module _ (m : Mem) (l ro wo : ℕ) (q : List Message) (held : HoldsAt m l ro wo q) where
  pub front_cast :
      (a : ℕ)
      → choose_slot l ro wo a ≡ front
      → int_cast (a + (1 - ro / l) * l) ≡ a + (1 - ro / l) * l
  unfolding choose_slot
  front_cast a e =
      let s = HoldsAt-Small m l ro wo q held in
      lap_cast l wo a (1 - ro / l) s (omega arith) (room e)
    where
      room : choose_slot l ro wo a ≡ front → a ≤ l
      room e =
          let s = HoldsAt-Small m l ro wo q held in
          let pos : ro % l < l = omega (arith, s.nonempty) in ground (arith, pos)

  pub skip_cast : int_cast (wo / l * l) ≡ wo / l * l
  skip_cast =
      let s = HoldsAt-Small m l ro wo q held in
      rw zero-add at (lap_cast l wo 0 (wo / l) s s.lap (omega arith))
