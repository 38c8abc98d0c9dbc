-- ===== src/Ringbuf/Invariant.antt =====
-- What every interleaving of the calls of source/common/ringbuf.h keeps.
use libclogger.Prelude.{
  ℕ, zero, suc, ◌%◌, ◌≤◌, ◌<◌, ◌≡◌, ◌≢◌, refl, sym, ap, ◌∙◌, Option, some, List, [], ◌∷◌, ◌++◌, map,
  arith, length, get_elem?,
}
use mathlib.Core.List.{append_assoc, map-append}
use libclogger.Ringbuf.{Ringbuf, assign}
use libclogger.Ringbuf.Distance.{Apart, slot_at, slot_at-injective, remainder_lt, write_slot}
use libclogger.Ringbuf.Threads.{
  Writer, w_idle, w_locked, w_loaded, w_stored, w_moved, Reader, r_idle, r_locked, r_loaded,
  r_taken, r_cleared, r_moved, System,
}

-- the slot of the next push is not that of an element
pub write_slot_free :
    (l ro wo n i : ℕ) → Apart l ro wo n → n < l → i < n → slot_at l (ro % l) i ≢ wo % l
write_slot_free l ro wo n i a h k e =
    let same : i ≡ n =
      slot_at-injective l (ro % l) i n (remainder_lt a) (omega arith) h (e ∙ write_slot a h) in
    absurd (omega arith)

module _ {A : Type 0} where
  -- What a thread inside `ringbuf_push` knows, `n` the number of elements in the ring: the read offset
  -- that it loaded may be old, which makes the ring look fuller than it is.
  abbrev pub WriterOk : Ringbuf A → ℕ → Writer A → Type 0
  WriterOk rb n w_idle = rb.wlock ≡ 0
  WriterOk rb n (w_locked x) = rb.wlock ≡ 1
  WriterOk rb n (w_loaded x ro) = (rb.wlock ≡ 1) × (d : ℕ) × Apart rb.len ro rb.woffset d × (n ≤ d)
  WriterOk rb n (w_stored x) =
      (rb.wlock ≡ 1) × (n < rb.len) × (rb.buffer (rb.woffset % rb.len) ≡ some x)
  WriterOk rb n w_moved = rb.wlock ≡ 1

  -- what a thread inside `ringbuf_pop` knows
  abbrev pub ReaderOk : Ringbuf A → List A → Reader A → Type 0
  ReaderOk rb q r_idle = rb.rlock ≡ 0
  ReaderOk rb q r_locked = rb.rlock ≡ 1
  ReaderOk rb q (r_loaded wo) =
      (rb.rlock ≡ 1) × (d : ℕ) × Apart rb.len rb.roffset wo d × (d ≤ length q)
  ReaderOk rb q (r_taken e) = (rb.rlock ≡ 1) × (x : A) × (q' : List A) × (q ≡ x ∷ q') × (e ≡ some x)
  ReaderOk rb q (r_cleared e) =
      (rb.rlock ≡ 1) × (x : A) × (q' : List A) × (q ≡ x ∷ q') × (e ≡ some x)
  ReaderOk rb q r_moved = rb.rlock ≡ 1

  -- how many elements of the queue are no longer in their slots
  abbrev pub cleared : Reader A → ℕ
  cleared r_idle = 0
  cleared r_locked = 0
  cleared (r_loaded wo) = 0
  cleared (r_taken e) = 0
  cleared (r_cleared e) = 1
  cleared r_moved = 0

  -- The ring holds `q` between its published offsets, and what was pushed was popped or is in `q`.
  pub record Sound (s : System A) (q : List A) : Type 0 where
    pub writer_ok : WriterOk s.ring (length q) s.writer
    pub reader_ok : ReaderOk s.ring q s.reader
    pub apart : Apart s.ring.len s.ring.roffset s.ring.woffset (length q)
    pub content :
        (i : ℕ)
        → cleared s.reader ≤ i
        → i < length q
        → s.ring.buffer (slot_at s.ring.len (s.ring.roffset % s.ring.len) i) ≡ get_elem? q i
    pub history : map some s.pushed ≡ s.popped ++ map some q

  pub assign_same : (b : ℕ → Option A) (i : ℕ) (e : Option A) → assign b i e i ≡ e
  assign_same b i e = ground arith

  pub assign_other : (b : ℕ → Option A) (i j : ℕ) (e : Option A) → j ≢ i → assign b i e j ≡ b j
  assign_other b i j e ne = ground arith

  pub get_elem?_append_left :
      (q : List A) (x : A) (i : ℕ) → i < length q → get_elem? (q ++ (x ∷ [])) i ≡ get_elem? q i
  get_elem?_append_left [] x i h = absurd (omega arith)
  get_elem?_append_left (y ∷ q) x zero h = refl
  get_elem?_append_left (y ∷ q) x (suc i) h = get_elem?_append_left q x i (omega arith)

  pub get_elem?_append_end : (q : List A) (x : A) → get_elem? (q ++ (x ∷ [])) (length q) ≡ some x
  get_elem?_append_end [] x = refl
  get_elem?_append_end (y ∷ q) x = get_elem?_append_end q x

  pub history_push :
      (pushed : List A) (popped : List (Option A)) (q : List A) (x : A)
      → map some pushed ≡ popped ++ map some q
      → map some (pushed ++ (x ∷ [])) ≡ popped ++ map some (q ++ (x ∷ []))
  history_push pushed popped q x e =
      map-append some pushed (x ∷ [])
      ∙ ap (λ t. t ++ (some x ∷ [])) e
      ∙ append_assoc popped (map some q) (some x ∷ [])
      ∙ ap (λ t. popped ++ t) (sym (map-append some q (x ∷ [])))
