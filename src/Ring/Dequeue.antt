-- ===== src/Ring/Dequeue.antt =====
-- The readers of source/common/ringbufst.h take the oldest message of the queue that the ring holds.
pub mod FindEntry
pub mod Moves
use libclogger.Prelude.{
  ℕ, ◌+◌, ◌-◌, ◌*◌, ◌/◌, ◌%◌, ◌^◌, ◌≤◌, ◌<◌, ◌≡◌, ◌≢◌, refl, sym, ◌∙◌, ◌⊎◌, inl, inr, List, [], ◌∷◌,
  ◌++◌, arith, length, leb, ltb, ◌==◌, if◌then◌else◌, true, false, ltb→lt, lt→ltb,
}
use native.Mathlib.Decide.{dec_lt}
use native.Mathlib.Nat.{zero-add}
use libclogger.Memory.{Mem, load, load_word}
use libclogger.Ring.{Ring, Ring, align_entrysize, restore_wrap, normalize_offset, int_cast}
use libclogger.Ring.Offsets.{
  align_entrysize_bounds, restore_wrap_same, restore_wrap_other, At, normalize-At, normalize-At_end,
  lap-At,
}
use libclogger.Ring.Content.{Message, IsEntry, Segment, Segment-le, Segment-nil}
use libclogger.Ring.Holds.{Holds, Frame, HoldsAt, Advanced, InUse, apart_laps, flat, wrapped}
use libclogger.Ring.Read.{
  skip_offset, Found, entry, skip, nothing, broken, fault, check_entry, find_entry, skip_offset,
}
use libclogger.Ring.Dequeue.Moves.{within_lap, over_lap, flat-InUse, older-InUse, newer-InUse}
use libclogger.Ring.Dequeue.FindEntry.{
  find_entry_flat_empty, find_entry_flat, find_entry_wrapped, find_entry_skip, find_entry_start,
  find_entry_start_empty,
}

-- What the tests find in memory that holds `q`: the oldest message, with the others left behind the
-- new offset; nothing, if there is none; or a tail to skip, which leaves `q` on one lap.
abbrev pub Finds : (m : Mem) (l ro wo : ℕ) → List Message → Found → Type 0
Finds m l ro wo [] nothing = Unit {0}
Finds m l ro wo (x ∷ q) (entry at size next) =
    (size ≡ length x)
    × (load m (at + 8) size ≡ x)
    × HoldsAt m l next wo q
    × Advanced l wo ro next
    × InUse l ro wo at size
Finds m l ro wo q skip =
    let ro' = int_cast (wo / l * l) in
    HoldsAt m l ro' wo q × (restore_wrap ro wo l ≡ 1) × (restore_wrap ro' wo l ≡ 0)
Finds m l ro wo q _ = ⊥

module _ (m : Mem) (l ro wo : ℕ) where
  Segment-room :
      (a b : ℕ) (x : Message) (q : List Message)
      → Segment m a b (x ∷ q)
      → a + align_entrysize (length x) ≤ b
  Segment-room a b x q s = Segment-le m (a + align_entrysize (length x)) b q s.1

  flat-Finds :
      (q : List Message) {lap r w : ℕ}
      → Frame l ro wo lap r lap w
      → Segment m r w q
      → Finds m l ro wo q (find_entry m l ro wo)
  flat-Finds [] fr s = rw (find_entry_flat_empty m l ro wo fr s) tt
  flat-Finds (x ∷ q) {lap} {r} {w} fr s =
      let room = Segment-room r w x q s in
      let a = align_entrysize (length x) in
      rw (find_entry_flat m l ro wo fr x s.0 room) (
        refl,
        s.0.chunk,
        flat
            (record {
              read_at = normalize-At fr.read_at fr.small a (omega (arith, fr.write_at.pos_lt));
              write_at = fr.write_at;
              small = fr.small;
              len_eight = fr.len_eight;
              r_eight = omega (arith, fr.r_eight, align_entrysize_bounds (length x) s.0.short);
              w_eight = fr.w_eight;
            })
            s.1,
        within_lap wo fr.read_at
            (normalize-At fr.read_at fr.small a (omega (arith, fr.write_at.pos_lt))) (omega arith),
        flat-InUse x fr s.0.short room,
      )

  -- the offset goes to the writer's lap, at its start or behind the first entry there
  restart-Frame :
      (a : ℕ) {lap r w : ℕ}
      → Frame l ro wo (1 - lap) r lap w
      → a % 8 ≡ 0
      → a < l
      → Frame l (int_cast (a + lap * l)) wo lap a lap w
  restart-Frame a {lap} fr e h = record {
    read_at = lap-At fr.read_at fr.small a lap h fr.write_at.lap_lt;
    write_at = fr.write_at;
    small = fr.small;
    len_eight = fr.len_eight;
    r_eight = e;
    w_eight = fr.w_eight;
  }

  -- the zeroed tail, or its last eight bytes
  tail-Finds :
      (ys : List Message) {lap r w : ℕ}
      → Frame l ro wo (1 - lap) r lap w
      → load_word m r ≡ 0
      → Segment m 0 w ys
      → Finds m l ro wo ys (find_entry m l ro wo)
  tail-Finds ys {lap} {r} {w} fr zero_size newer = elim (dec_lt (r + 8) l) [
    | yes h ↦ rw (find_entry_skip m l ro wo fr zero_size h) (skipped ys newer)
    | no h ↦ at_end ys newer (omega (arith, h, fr.read_at.pos_lt, fr.len_eight, fr.r_eight))
  ]
    where
      start : Frame l (int_cast (wo / l * l)) wo lap 0 lap w
      start =
          rw (fr.write_at.quotient, ← zero-add (lap * l))
            (restart-Frame 0 fr refl (omega (arith, fr.read_at.pos_lt)))

      skipped : (q : List Message) → Segment m 0 w q → Finds m l ro wo q skip
      skipped [] s = (
        flat start s,
        restore_wrap_other fr.read_at fr.write_at,
        restore_wrap_same start.read_at start.write_at,
      )
      skipped (x ∷ q) s = (
        flat start s,
        restore_wrap_other fr.read_at fr.write_at,
        restore_wrap_same start.read_at start.write_at,
      )

      at_end :
          (q : List Message)
          → Segment m 0 w q
          → r + 8 ≡ l
          → Finds m l ro wo q (find_entry m l ro wo)
      at_end [] s h = rw (find_entry_start_empty m l ro wo fr (sym s) h) tt
      at_end (x ∷ q) s h =
          let room = Segment-room 0 w x q s in
          rw (find_entry_start m l ro wo fr x s.0 h (omega arith)) (
            refl,
            s.0.chunk,
            flat
                (restart-Frame (align_entrysize (length x)) fr
                  (align_entrysize_bounds (length x) s.0.short).2
                  (omega (arith, fr.write_at.pos_lt)))
                (rw zero-add at s.1),
            over_lap fr
                (restart-Frame (align_entrysize (length x)) fr
                  (align_entrysize_bounds (length x) s.0.short).2
                  (omega (arith, fr.write_at.pos_lt))).read_at,
            newer-InUse x fr s.0.short (omega (arith, room)),
          )

  wrapped-Finds :
      (b : ℕ) (xs ys : List Message) {lap r w : ℕ}
      → Frame l ro wo (1 - lap) r lap w
      → w ≤ r
      → b ≤ l
      → (b ≡ l) ⊎ ((load_word m b ≡ 0) × (0 < w))
      → b % 8 ≡ 0
      → Segment m r b xs
      → Segment m 0 w ys
      → Finds m l ro wo (xs ++ ys) (find_entry m l ro wo)
  wrapped-Finds b [] ys {lap} {r} {w} fr le bound gap eight older newer = elim gap [
    | inl e ↦ absurd (omega (arith, fr.read_at.pos_lt))
    | inr e ↦ tail-Finds ys fr (rw older e.0) newer
  ]
  wrapped-Finds b (x ∷ xs) ys {lap} {r} {w} fr le bound gap eight older newer =
      let room = Segment-room r b x xs older in
      let a = align_entrysize (length x) in
      rw (find_entry_wrapped m l ro wo fr x older.0 (omega arith)) (
        refl,
        older.0.chunk,
        elim (dec_lt (r + a) l) [
          | yes h ↦
              wrapped b xs ys
                (record {
                  read_at = normalize-At fr.read_at fr.small a h;
                  write_at = fr.write_at;
                  small = fr.small;
                  len_eight = fr.len_eight;
                  r_eight =
                      omega (arith, fr.r_eight, align_entrysize_bounds (length x) older.0.short);
                  w_eight = fr.w_eight;
                })
                (omega arith) bound gap eight older.1 newer refl
          | no h ↦
              let none_left : xs ≡ [] = Segment-nil m (r + a) b xs older.1 (omega arith) in
              let back : 1 - (1 - lap) ≡ lap = omega (arith, fr.write_at.lap_lt) in
              rw none_left (
                flat
                  (record {
                    read_at = rw back at (normalize-At_end fr.read_at fr.small a (omega arith));
                    write_at = fr.write_at;
                    small = fr.small;
                    len_eight = fr.len_eight;
                    r_eight = refl;
                    w_eight = fr.w_eight;
                  })
                  newer)
        ],
        elim (dec_lt (r + a) l) [
          | yes h ↦ within_lap wo fr.read_at (normalize-At fr.read_at fr.small a h) (omega arith)
          | no h ↦
              let back : 1 - (1 - lap) ≡ lap = omega (arith, fr.write_at.lap_lt) in
              over_lap fr (rw back at (normalize-At_end fr.read_at fr.small a (omega arith)))
        ],
        older-InUse x fr older.0.short (omega (arith, room, bound)),
      )

-- What a skip tells, whatever is held.
pub Finds-skip :
    (m : Mem) (l ro wo : ℕ) (q : List Message)
    → Finds m l ro wo q skip
    → let ro' = int_cast (wo / l * l) in
      HoldsAt m l ro' wo q × (restore_wrap ro wo l ≡ 1) × (restore_wrap ro' wo l ≡ 0)
Finds-skip m l ro wo [] f = f
Finds-skip m l ro wo (x ∷ q) f = f

-- In memory that holds `q` the tests find what they should, and never a broken entry.
pub HoldsAt-Finds :
    (m : Mem) (l ro wo : ℕ) (q : List Message)
    → HoldsAt m l ro wo q
    → Finds m l ro wo q (find_entry m l ro wo)
HoldsAt-Finds m l ro wo q (flat fr s) = flat-Finds m l ro wo q fr s
HoldsAt-Finds m l ro wo q (wrapped b xs ys fr le bound gap eight older newer e) =
    rw e (wrapped-Finds m l ro wo b xs ys fr le bound gap eight older newer)

-- With both offsets on one lap there is no tail to skip.
pub find_entry-ne-skip :
    (m : Mem) (l ro wo : ℕ) → restore_wrap ro wo l ≡ 0 → find_entry m l ro wo ≢ skip
unfolding find_entry
find_entry-ne-skip m l ro wo h = ground arith

-- After a skip the offsets stand on one lap, and the ring holds what it held.
pub skip_held :
    (rb : Ring) (q : List Message)
    → Holds rb q
    → find_entry rb.buffer rb.len rb.roffset rb.woffset ≡ skip
    → let rb' : Ring = record rb { roffset = skip_offset rb } in
      Holds rb' q
      × (restore_wrap rb.roffset rb.woffset rb.len ≡ 1)
      × (restore_wrap rb'.roffset rb.woffset rb.len ≡ 0)
skip_held rb q h e =
    Finds-skip rb.buffer rb.len rb.roffset rb.woffset q
      (rw e at (HoldsAt-Finds rb.buffer rb.len rb.roffset rb.woffset q h))
