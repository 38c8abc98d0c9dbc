-- ===== src/Ringbuf/StepPop.antt =====
-- Every turn of a thread inside `ringbuf_pop` of source/common/ringbuf.h keeps the invariant.
use libclogger.Prelude.{
  ℕ, suc, ◌+◌, ◌%◌, ◌≤◌, ◌<◌, ◌≡◌, refl, sym, ap, ◌∙◌, Option, none, some, List, [], ◌∷◌, ◌++◌, map,
  arith, true, false, length, get_elem?, ltb, Bool-cases, inl, inr, ltb→lt,
}
use mathlib.Core.Path.{subst}
use mathlib.Core.List.{append_assoc}
use libclogger.Ringbuf.{Ringbuf, assign, readable, fold_offset}
use libclogger.Ringbuf.Distance.{
  Apart, slot_at, slot_at-injective, slot_at-slot_at, len_pos, remainder_lt, readable-Apart,
  Apart-read, read_slot,
}
use libclogger.Ringbuf.Threads.{
  Writer, w_idle, w_locked, w_loaded, w_stored, w_moved, Reader, r_idle, r_locked, r_loaded,
  r_taken, r_cleared, r_moved, System, step_pop,
}
use libclogger.Ringbuf.Invariant.{WriterOk, ReaderOk, cleared, Sound, assign_other, write_slot_free}

module _ {A : Type 0} where
  -- what a writer knows stays true when the reader clears `B[R]`
  WriterOk-clear :
      (writer : Writer A) (rb : Ringbuf A) (n : ℕ)
      → Apart rb.len rb.roffset rb.woffset n
      → 0 < n
      → WriterOk rb n writer
      → WriterOk (record rb { buffer = assign rb.buffer (rb.roffset % rb.len) none }) n writer
  WriterOk-clear w_idle rb n a pos ok = ok
  WriterOk-clear (w_locked x) rb n a pos ok = ok
  WriterOk-clear (w_loaded x ro) rb n a pos ok = ok
  WriterOk-clear (w_stored x) rb n a pos (held, room, stored) = (
    held,
    room,
    assign_other rb.buffer (rb.roffset % rb.len) (rb.woffset % rb.len) none (λ e.
          write_slot_free rb.len rb.roffset rb.woffset n 0 a room pos
            (ground (arith, remainder_lt a)))
        ∙ stored,
  )
  WriterOk-clear w_moved rb n a pos ok = ok

  -- and when it moves on: the queue is shorter
  WriterOk-fewer :
      (writer : Writer A) (rb rb' : Ringbuf A) (n : ℕ)
      → rb'.wlock ≡ rb.wlock
      → rb'.len ≡ rb.len
      → rb'.woffset ≡ rb.woffset
      → rb'.buffer ≡ rb.buffer
      → (n' : ℕ) → n' ≤ n
      → WriterOk rb n writer
      → WriterOk rb' n' writer
  WriterOk-fewer w_idle rb rb' n lock len at buf n' le ok = lock ∙ ok
  WriterOk-fewer (w_locked x) rb rb' n lock len at buf n' le ok = lock ∙ ok
  WriterOk-fewer (w_loaded x ro) rb rb' n lock len at buf n' le (held, d, apart, least) =
      (lock ∙ held, d, rw (len, at) apart, omega arith)
  WriterOk-fewer (w_stored x) rb rb' n lock len at buf n' le (held, room, stored) =
      (lock ∙ held, omega (arith, len), rw (len, at, buf) stored)
  WriterOk-fewer w_moved rb rb' n lock len at buf n' le ok = lock ∙ ok

  pub clear-Sound :
      (s : System A) (x : A) (q : List A) (e : Option A)
      → s.ring.rlock ≡ 1
      → e ≡ some x
      → Sound s (x ∷ q)
      → Sound (step_pop (r_taken e) s) (x ∷ q)
  unfolding step_pop
  clear-Sound s x q e held some_x h =
      let rb = s.ring in
      record {
        writer_ok = WriterOk-clear s.writer rb (suc (length q)) h.apart (omega arith) h.writer_ok;
        reader_ok = (held, x, q, refl, some_x);
        apart = h.apart;
        content = λ i le lt.
            assign_other rb.buffer (rb.roffset % rb.len) _ none (λ same.
              let first : i ≡ 0 =
                slot_at-injective rb.len (rb.roffset % rb.len) i 0 (remainder_lt h.apart)
                  (omega (arith, h.apart.most)) (len_pos h.apart)
                  (ground (arith, same, remainder_lt h.apart)) in
              absurd (omega arith))
            ∙ h.content i (least s.reader i le) lt;
        history = h.history;
      }
    where
      least : (r : Reader A) (i : ℕ) → 1 ≤ i → cleared r ≤ i
      least r_idle i le = omega arith
      least r_locked i le = omega arith
      least (r_loaded wo) i le = omega arith
      least (r_taken e) i le = omega arith
      least (r_cleared e) i le = le
      least r_moved i le = omega arith

  pub move-Sound :
      (s : System A) (x : A) (q : List A) (e : Option A)
      → s.ring.rlock ≡ 1
      → e ≡ some x
      → s.reader ≡ r_cleared e
      → Sound s (x ∷ q)
      → Sound (step_pop (r_cleared e) s) q
  unfolding step_pop
  move-Sound s x q e held some_x reader h =
      let rb = s.ring in
      let rb' = record rb { roffset = fold_offset (rb.roffset + 1) rb.len } in
      record {
        writer_ok =
            WriterOk-fewer s.writer rb rb' (suc (length q)) refl refl refl refl (length q)
              (omega arith) h.writer_ok;
        reader_ok = held;
        apart = Apart-read h.apart;
        content = λ i le lt.
            ap (λ r. rb.buffer (slot_at rb.len r i)) (read_slot h.apart)
            ∙ ap rb.buffer (
                slot_at-slot_at rb.len (rb.roffset % rb.len) i (remainder_lt h.apart)
                  (omega (arith, h.apart.most)) (len_pos h.apart))
            ∙ h.content (suc i) (rw reader (omega arith)) (omega arith);
        history =
            h.history
            ∙ sym (append_assoc s.popped (some x ∷ []) (map some q))
            ∙ ap (λ t. (s.popped ++ (t ∷ [])) ++ map some q) (sym some_x);
      }

  -- What the reader loaded tells it whether there is an element, and which.
  take-Sound :
      (s : System A) (q : List A) (wo d : ℕ)
      → s.ring.rlock ≡ 1
      → s.reader ≡ r_loaded wo
      → Apart s.ring.len s.ring.roffset wo d
      → d ≤ length q
      → Sound s q
      → Sound (step_pop (r_loaded wo) s) q
  unfolding step_pop
  take-Sound s q wo d held reader apart le h = elim (Bool-cases (ltb 0 d)) [
    | inl some_there ↦
        let seen : readable s.ring.len s.ring.roffset wo ≡ true =
          readable-Apart apart ∙ some_there in
        rw seen (record {
          writer_ok = h.writer_ok;
          reader_ok = taken q (ltb→lt _ _ some_there) le h.apart h.content;
          apart = h.apart;
          content = λ i _ lt. h.content i (rw reader (omega arith)) lt;
          history = h.history;
        })
    | inr empty ↦
        let seen : readable s.ring.len s.ring.roffset wo ≡ false = readable-Apart apart ∙ empty in
        rw seen (record {
          writer_ok =
              WriterOk-fewer s.writer s.ring (record s.ring { rlock = 0 }) (length q) refl refl refl
                refl (length q) (omega arith) h.writer_ok;
          reader_ok = refl;
          apart = h.apart;
          content = λ i _ lt. h.content i (rw reader (omega arith)) lt;
          history = h.history;
        })
  ]
    where
      taken :
          (q : List A)
          → 0 < d
          → d ≤ length q
          → Apart s.ring.len s.ring.roffset s.ring.woffset (length q)
          → ((i : ℕ)
              → cleared s.reader ≤ i
              → i < length q
              → s.ring.buffer (slot_at s.ring.len (s.ring.roffset % s.ring.len) i) ≡ get_elem? q i)
          → ReaderOk s.ring q (r_taken (s.ring.buffer (s.ring.roffset % s.ring.len)))
      taken [] pos le a content = absurd (omega arith)
      taken (x ∷ q) pos le a content = (
        held,
        x,
        q,
        refl,
        ap s.ring.buffer (ground (arith, remainder_lt a))
            ∙ content 0 (rw reader (omega arith)) (omega arith),
      )

  -- the holder of the read lock takes a turn
  pub step_pop-Sound :
      (r : Reader A) (s : System A) (q : List A)
      → s.reader ≡ r
      → ReaderOk s.ring q r
      → Sound s q
      → (q' : List A) × Sound (step_pop r s) q'
  unfolding step_pop
  step_pop-Sound r_idle s q e ok h = (q, h)
  step_pop-Sound r_locked s q e ok h = (
    q,
    record {
      writer_ok = h.writer_ok;
      reader_ok = (ok, length q, h.apart, omega arith);
      apart = h.apart;
      content = λ i _ lt. h.content i (rw e (omega arith)) lt;
      history = h.history;
    },
  )
  step_pop-Sound (r_loaded wo) s q e ok h = (q, take-Sound s q wo ok.1 ok.0 e ok.2 ok.3 h)
  step_pop-Sound (r_taken elt) s q e (held, x, q', eq, some_x) h =
      (x ∷ q', clear-Sound s x q' elt held some_x (subst (Sound s) eq h))
  step_pop-Sound (r_cleared elt) s q e (held, x, q', eq, some_x) h =
      (q', move-Sound s x q' elt held some_x e (subst (Sound s) eq h))
  step_pop-Sound r_moved s q e ok h = (
    q,
    record {
      writer_ok =
          WriterOk-fewer s.writer s.ring (record s.ring { rlock = 0 }) (length q) refl refl refl
            refl (length q) (omega arith) h.writer_ok;
      reader_ok = refl;
      apart = h.apart;
      content = λ i _ lt. h.content i (rw e (omega arith)) lt;
      history = h.history;
    },
  )
