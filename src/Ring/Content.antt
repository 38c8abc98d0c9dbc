-- ===== src/Ring/Content.antt =====
-- The entries that stand in the memory of the ring buffer of source/common/ringbufst.h, one behind
-- the other, and how the stores of a writer leave them.
use libclogger.Prelude.{
  ℕ, ◌+◌, ◌^◌, ◌≤◌, ◌<◌, ◌≡◌, refl, sym, ◌∙◌, ◌⊎◌, inl, List, [], ◌∷◌, ◌++◌, arith, length,
}
use libclogger.Memory.{
  Mem, Agree, load, store-outside, load-congr, load-store, load_word, store_word, load_word-congr,
  load_word-store_word, store_word-outside,
}
use libclogger.Ring.{align_entrysize}
use libclogger.Ring.Write.{store_entry}
use libclogger.Ring.Offsets.{align_entrysize_bounds}

abbrev pub Message : Type 0
Message = List ℕ

-- A `ringbuf_entry_st` at address `a` that holds the bytes `x`.
pub record IsEntry (m : Mem) (a : ℕ) (x : Message) : Type 0 where
  pub size : load_word m a ≡ length x
  pub chunk : load m (a + 8) (length x) ≡ x
  pub nonempty : 0 < length x
  pub short : length x < 2 ^ 62

-- The entries `xs` fill the bytes from `a` to `b`.
abbrev pub Segment : Mem → ℕ → ℕ → List Message → Type 0
Segment m a b [] = a ≡ b
Segment m a b (x ∷ xs) = IsEntry m a x × Segment m (a + align_entrysize (length x)) b xs

pub Segment-le : (m : Mem) (a b : ℕ) (xs : List Message) → Segment m a b xs → a ≤ b
Segment-le m a b [] s = omega arith
Segment-le m a b (x ∷ xs) s = omega (arith, Segment-le m (a + align_entrysize (length x)) b xs s.1)

-- No entry fits between equal addresses.
pub Segment-nil : (m : Mem) (a b : ℕ) (xs : List Message) → Segment m a b xs → b ≤ a → xs ≡ []
Segment-nil m a b [] s h = refl
Segment-nil m a b (x ∷ xs) s h = absurd (
    omega (
      arith,
      Segment-le m (a + align_entrysize (length x)) b xs s.1,
      align_entrysize_bounds (length x) s.0.short,
    ))

IsEntry-congr :
    (m m' : Mem) (a b : ℕ) (x : Message)
    → a + align_entrysize (length x) ≤ b
    → Agree m m' a b
    → IsEntry m a x
    → IsEntry m' a x
IsEntry-congr m m' a b x fits h e =
    let bounds = align_entrysize_bounds (length x) e.short in
    record {
      size =
          sym (load_word-congr m m' a (λ i p q. h i (omega arith) (omega (arith, bounds))))
          ∙ e.size;
      chunk =
          sym (
            load-congr m m' (a + 8) (length x) (λ i p q. h i (omega arith) (omega (arith, bounds))))
          ∙ e.chunk;
      nonempty = e.nonempty;
      short = e.short;
    }

-- Entries depend on no byte outside of their range.
pub Segment-congr :
    (m m' : Mem) (a b : ℕ) (xs : List Message)
    → Agree m m' a b
    → Segment m a b xs
    → Segment m' a b xs
Segment-congr m m' a b [] h s = s
Segment-congr m m' a b (x ∷ xs) h s =
    let next = a + align_entrysize (length x) in
    (
      IsEntry-congr m m' a b x (Segment-le m next b xs s.1) h s.0,
      Segment-congr m m' next b xs (λ i p q. h i (omega arith) q) s.1,
    )

-- One more entry behind the last.
pub Segment-snoc :
    (m : Mem) (a b c : ℕ) (xs : List Message) (x : Message)
    → Segment m a b xs
    → IsEntry m b x
    → b + align_entrysize (length x) ≡ c
    → Segment m a c (xs ++ (x ∷ []))
Segment-snoc m a b c [] x s e p = (rw s e, rw s p)
Segment-snoc m a b c (y ∷ xs) x s e p =
    (s.0, Segment-snoc m (a + align_entrysize (length y)) b c xs x s.1 e p)

-- What the writer stores is an entry.
pub store_entry-IsEntry :
    (m : Mem) (a : ℕ) (x : Message)
    → 0 < length x
    → length x < 2 ^ 62
    → IsEntry (store_entry m a (length x) x) a x
unfolding store_entry
store_entry-IsEntry m a x h k = record {
  size =
      load_word-congr _ _ a (λ i p q. store-outside (store_word m a (length x)) (a + 8) x i (inl q))
      ∙ load_word-store_word m a (length x) (omega arith);
  chunk = load-store (store_word m a (length x)) (a + 8) x;
  nonempty = h;
  short = k;
}

-- It touches no byte outside of the entry.
pub store_entry-outside :
    (m : Mem) (a : ℕ) (x : Message) (i : ℕ)
    → length x < 2 ^ 62
    → (i < a) ⊎ (a + align_entrysize (length x) ≤ i)
    → store_entry m a (length x) x i ≡ m i
unfolding store_entry
store_entry-outside m a x i k h =
    let bounds = align_entrysize_bounds (length x) k in
    store-outside (store_word m a (length x)) (a + 8) x i (omega (arith, bounds))
    ∙ store_word-outside m a (length x) i (omega (arith, bounds))
