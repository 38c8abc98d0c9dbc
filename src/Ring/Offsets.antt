-- ===== src/Ring/Offsets.antt =====
-- The arithmetic of the two-lap offsets of source/common/ringbufst.h.
use libclogger.Prelude.{ℕ, ◌+◌, ◌-◌, ◌*◌, ◌/◌, ◌%◌, ◌^◌, ◌≤◌, ◌<◌, ◌≡◌, refl, suc, arith}
use libclogger.Ring.{align_entrysize, restore_wrap, normalize_offset, int_cast}

-- An entry of `n` bytes takes a multiple of eight, its header included, and wastes at most seven.
pub align_entrysize_bounds :
    (n : ℕ)
    → n < 2 ^ 62
    → (n + 8 ≤ align_entrysize n) × (align_entrysize n ≤ n + 15) × (align_entrysize n % 8 ≡ 0)
align_entrysize_bounds n h = omega arith

-- An offset `o` is on lap 0 or on lap 1, at the position `p`.
pub record At (l o lap p : ℕ) : Type 0 where
  pub pos_lt : p < l
  pub lap_lt : lap < 2
  pub offset : o ≡ lap * l + p
  pub quotient : o / l ≡ lap
  pub remainder : o % l ≡ p

pub At-intro : (l lap p : ℕ) → p < l → lap < 2 → At l (lap * l + p) lap p
At-intro l lap p h k = record {
  pos_lt = h;
  lap_lt = k;
  offset = omega arith;
  quotient = grind arith;
  remainder = grind arith;
}

-- Every offset below two laps is on one of them.
pub At-exists : (l o : ℕ) → o < 2 * l → At l o (o / l) (o % l)
At-exists l o h = record {
  pos_lt = omega arith;
  lap_lt = grind arith;
  offset = grind arith;
  quotient = refl;
  remainder = refl;
}

pub restore_wrap_same :
    {l ro wo lap r w : ℕ} → At l ro lap r → At l wo lap w → restore_wrap ro wo l ≡ 0
restore_wrap_same at at' = ground arith

pub restore_wrap_other :
    {l ro wo lap r w : ℕ} → At l ro (1 - lap) r → At l wo lap w → restore_wrap ro wo l ≡ 1
restore_wrap_other at at' = ground arith

-- Any lap folds onto one of two.
normalize_lem :
    (l q p : ℕ) → p < l → 2 * l ≤ 2 ^ 31 → int_cast (normalize_offset (q * l + p) l) ≡ q % 2 * l + p
normalize_lem l q p h small =
    let quotient : (q * l + p) / l ≡ q = grind arith in
    let remainder : (q * l + p) % l ≡ p = grind arith in
    let parity : q % 2 < 2 = omega arith in
    let below : q % 2 * l + p < 2 ^ 31 = grind arith in rw (quotient, remainder) (omega arith)

module _ {l o lap p : ℕ} (at : At l o lap p) (small : 2 * l ≤ 2 ^ 31) where
  -- Moving on within the lap.
  pub normalize-At : (a : ℕ) → p + a < l → At l (int_cast (normalize_offset (o + a) l)) lap (p + a)
  normalize-At a h =
      let sum : o + a ≡ lap * l + (p + a) = omega (arith, at.offset) in
      let same : lap % 2 ≡ lap = omega (arith, at.lap_lt) in
      rw (sum, normalize_lem l lap (p + a) h small, same) (At-intro l lap (p + a) h at.lap_lt)

  -- Moving on to the end of the lap is the start of the other lap.
  pub normalize-At_end :
      (a : ℕ) → p + a ≡ l → At l (int_cast (normalize_offset (o + a) l)) (1 - lap) 0
  normalize-At_end a h =
      let sum : o + a ≡ suc lap * l + 0 = omega (arith, at.offset) in
      let other : suc lap % 2 ≡ 1 - lap = omega (arith, at.lap_lt) in
      let inside : 0 < l = omega (arith, at.pos_lt) in
      rw (sum, normalize_lem l (suc lap) 0 inside small, other)
        (At-intro l (1 - lap) 0 inside (omega arith))

  -- The offsets that are written without `normalize_offset`: `a` on a lap.
  pub lap-At : (a lap' : ℕ) → a < l → lap' < 2 → At l (int_cast (a + lap' * l)) lap' a
  lap-At a lap' h k =
      let below : a + lap' * l < 2 ^ 31 = grind arith in
      let cast : int_cast (a + lap' * l) ≡ lap' * l + a = omega arith in
      rw cast (At-intro l lap' a h k)
