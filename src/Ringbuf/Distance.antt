-- ===== src/Ringbuf/Distance.antt =====
-- How far the write offset of source/common/ringbuf.h is ahead of the read offset.
use libclogger.Prelude.{
  ℕ, suc, ◌+◌, ◌-◌, ◌*◌, ◌/◌, ◌%◌, ◌≤◌, ◌<◌, ◌≡◌, refl, ◌⊎◌, inl, inr, arith, ltb, if◌then◌else◌,
  Bool-cases, ltb→lt,
}
use libclogger.Ring.Offsets.{At, At-intro}
use libclogger.Ringbuf.{state_wrap, fold_offset, writable, readable}

-- `wo` is `d` slots ahead of `ro`: on the same lap, or on the other one.
pub record Apart (l ro wo d : ℕ) : Type 0 where
  pub lap_r : ℕ
  pub lap_w : ℕ
  pub r : ℕ
  pub w : ℕ
  pub read_at : At l ro lap_r r
  pub write_at : At l wo lap_w w
  pub most : d ≤ l
  pub span : ((lap_r ≡ lap_w) × (w ≡ r + d)) ⊎ ((lap_r ≡ 1 - lap_w) × (w + l ≡ r + d))

-- the slot `i` places behind the slot `r`
abbrev pub slot_at : ℕ → ℕ → ℕ → ℕ
slot_at l r i = if ltb (r + i) l then r + i else r + i - l

pub slot_at-injective :
    (l r i j : ℕ) → r < l → i < l → j < l → slot_at l r i ≡ slot_at l r j → i ≡ j
slot_at-injective l r i j hr hi hj e = ground arith

pub slot_at-slot_at :
    (l r i : ℕ) → r < l → suc i ≤ l → 0 < l → slot_at l (slot_at l r 1) i ≡ slot_at l r (suc i)
slot_at-slot_at l r i hr hi pos = ground arith

fold_lem : (l q p : ℕ) → p < l → fold_offset (q * l + p) l ≡ q % 2 * l + p
fold_lem l q p h =
    let quotient : (q * l + p) / l ≡ q = grind arith in
    let remainder : (q * l + p) % l ≡ p = grind arith in rw (quotient, remainder) refl

module _ {l o lap p : ℕ} (at : At l o lap p) where
  pub fold-At : p + 1 < l → At l (fold_offset (o + 1) l) lap (p + 1)
  fold-At h =
      let sum : o + 1 ≡ lap * l + (p + 1) = omega (arith, at.offset) in
      let same : lap % 2 ≡ lap = omega (arith, at.lap_lt) in
      rw (sum, fold_lem l lap (p + 1) h, same) (At-intro l lap (p + 1) h at.lap_lt)

  pub fold-At_end : p + 1 ≡ l → At l (fold_offset (o + 1) l) (1 - lap) 0
  fold-At_end h =
      let sum : o + 1 ≡ suc lap * l + 0 = omega (arith, at.offset) in
      let other : suc lap % 2 ≡ 1 - lap = omega (arith, at.lap_lt) in
      let inside : 0 < l = omega (arith, at.pos_lt) in
      rw (sum, fold_lem l (suc lap) 0 inside, other) (At-intro l (1 - lap) 0 inside (omega arith))

module _ {l ro wo d : ℕ} (a : Apart l ro wo d) where
  -- `wrap * L + W - R` is the distance.
  span-Apart : state_wrap ro wo l * l + wo % l ≡ ro % l + d
  span-Apart = elim a.span [
    | inl same ↦
        let wrap : state_wrap ro wo l ≡ 0 =
          ground (arith, a.read_at.quotient, a.write_at.quotient, same.0) in
        rw (wrap, a.read_at.remainder, a.write_at.remainder) (omega (arith, same.1))
    | inr other ↦
        let wrap : state_wrap ro wo l ≡ 1 =
          ground (arith, a.read_at.quotient, a.write_at.quotient, other.0, a.write_at.lap_lt) in
        rw (wrap, a.read_at.remainder, a.write_at.remainder) (omega (arith, other.1))
  ]

  pub len_pos : 0 < l
  len_pos = omega (arith, a.read_at.pos_lt)

  pub remainder_lt : ro % l < l
  remainder_lt = omega (arith, a.read_at.pos_lt, a.read_at.remainder)

  pub writable-Apart : writable l ro wo ≡ ltb d l
  writable-Apart = rw span-Apart (ground arith)

  pub readable-Apart : readable l ro wo ≡ ltb 0 d
  readable-Apart = rw span-Apart (ground arith)

  -- the slot that is written next
  pub write_slot : d < l → wo % l ≡ slot_at l (ro % l) d
  write_slot h = elim a.span [
    | inl same ↦
        ground (arith, same.1, a.read_at.remainder, a.write_at.remainder, a.write_at.pos_lt)
    | inr other ↦
        ground (arith, other.1, a.read_at.remainder, a.write_at.remainder, a.write_at.pos_lt)
  ]

  pub Apart-write : d < l → Apart l ro (fold_offset (wo + 1) l) (d + 1)
  Apart-write h = elim (Bool-cases (ltb (a.w + 1) l)) [
    | inl inside ↦ record {
      lap_r = a.lap_r;
      lap_w = a.lap_w;
      r = a.r;
      w = a.w + 1;
      read_at = a.read_at;
      write_at = fold-At a.write_at (ltb→lt _ _ inside);
      most = omega arith;
      span = elim a.span [
        | inl same ↦ inl (same.0, omega (arith, same.1))
        | inr other ↦ inr (other.0, omega (arith, other.1))
      ];
    }
    | inr turn ↦
        let end : a.w + 1 ≡ l = ground (arith, a.write_at.pos_lt) in
        record {
          lap_r = a.lap_r;
          lap_w = 1 - a.lap_w;
          r = a.r;
          w = 0;
          read_at = a.read_at;
          write_at = fold-At_end a.write_at end;
          most = omega arith;
          span = elim a.span [
            | inl same ↦ inr (omega (arith, same.0, a.write_at.lap_lt), omega (arith, same.1))
            | inr other ↦ absurd (omega (arith, other.1, a.read_at.pos_lt))
          ];
        }
  ]

-- the next slot to read, once one is read
pub read_slot :
    {l ro wo d : ℕ} → Apart l ro wo (suc d) → fold_offset (ro + 1) l % l ≡ slot_at l (ro % l) 1
read_slot {l} a = elim (Bool-cases (ltb (a.r + 1) l)) [
  | inl inside ↦
      let moved = fold-At a.read_at (ltb→lt _ _ inside) in
      ground (arith, moved.remainder, a.read_at.remainder, moved.pos_lt)
  | inr turn ↦
      let end : a.r + 1 ≡ l = ground (arith, a.read_at.pos_lt) in
      let moved = fold-At_end a.read_at end in ground (arith, moved.remainder, a.read_at.remainder)
]

pub Apart-read : {l ro wo d : ℕ} → Apart l ro wo (suc d) → Apart l (fold_offset (ro + 1) l) wo d
Apart-read {l} a = elim (Bool-cases (ltb (a.r + 1) l)) [
  | inl inside ↦ record {
    lap_r = a.lap_r;
    lap_w = a.lap_w;
    r = a.r + 1;
    w = a.w;
    read_at = fold-At a.read_at (ltb→lt _ _ inside);
    write_at = a.write_at;
    most = omega (arith, a.most);
    span = elim a.span [
      | inl same ↦ inl (same.0, omega (arith, same.1))
      | inr other ↦ inr (other.0, omega (arith, other.1))
    ];
  }
  | inr turn ↦
      let end : a.r + 1 ≡ l = ground (arith, a.read_at.pos_lt) in
      record {
        lap_r = 1 - a.lap_r;
        lap_w = a.lap_w;
        r = 0;
        w = a.w;
        read_at = fold-At_end a.read_at end;
        write_at = a.write_at;
        most = omega (arith, a.most);
        span = elim a.span [
          | inl same ↦ absurd (omega (arith, same.1, a.write_at.pos_lt))
          | inr other ↦ inl (omega (arith, other.0, a.write_at.lap_lt), omega (arith, other.1))
        ];
      }
]
