-- ===== src/Ringbuf/Queue.antt =====
-- `ringbuf_push` and `ringbuf_pop` of source/common/ringbuf.h as one call each: a bounded queue.
use libclogger.Prelude.{
  ℕ, suc, ◌%◌, ◌<◌, ◌≡◌, refl, ap, ◌∙◌, Bool, Option, none, some, List, [], ◌∷◌, ◌++◌, arith, true,
  false, length, get_elem?, ltb, ltb→lt, lt→ltb, ◌==◌, Bool-cases, inl, inr,
}
use libclogger.Ringbuf.{Ringbuf, push, pop, writable, readable}
use libclogger.Ringbuf.Distance.{Apart, slot_at, remainder_lt, writable-Apart, readable-Apart}
use libclogger.Ringbuf.Threads.{w_idle, w_moved, r_idle, r_taken, r_cleared, System, step_pop}
use libclogger.Ringbuf.Invariant.{Sound}
use libclogger.Ringbuf.StepPush.{store-Sound, publish-Sound}
use libclogger.Ringbuf.StepPop.{clear-Sound, move-Sound}

module _ {A : Type 0} where
  -- no thread is inside, and the ring holds `q`
  pub record Quiet (rb : Ringbuf A) (q : List A) : Type 0 where
    pub write_free : rb.wlock ≡ 0
    pub read_free : rb.rlock ≡ 0
    pub apart : Apart rb.len rb.roffset rb.woffset (length q)
    pub content :
        (i : ℕ) → i < length q → rb.buffer (slot_at rb.len (rb.roffset % rb.len) i) ≡ get_elem? q i

  -- the ring as one that a writer, or a reader, is about to change
  abbrev writing : Ringbuf A → List A → System A
  writing rb q = record {
    ring = record rb { wlock = 1 };
    writer = w_moved;
    reader = r_idle;
    pushed = q;
    popped = [];
  }

  writing-Sound : (rb : Ringbuf A) (q : List A) → Quiet rb q → Sound (writing rb q) q
  writing-Sound rb q h = record {
    writer_ok = refl;
    reader_ok = h.read_free;
    apart = h.apart;
    content = λ i _ lt. h.content i lt;
    history = refl;
  }

  abbrev reading : Ringbuf A → List A → Option A → System A
  reading rb q e = record {
    ring = record rb { rlock = 1 };
    writer = w_idle;
    reader = r_taken e;
    pushed = q;
    popped = [];
  }

  -- What `ringbuf_push` does to a ring that holds `q`: it returns 1 exactly if there is a free slot,
  -- and then the element is behind the others; else nothing changes.
  abbrev pub Pushed : Ringbuf A → List A → A → Bool × Ringbuf A → Type 0
  Pushed rb q x (true, rb') = (length q < rb.len) × Quiet rb' (q ++ (x ∷ []))
  Pushed rb q x (false, rb') = (length q ≡ rb.len) × (rb' ≡ rb)

  -- What `ringbuf_pop` does: it gives the oldest element, and returns 0 exactly if there is none.
  abbrev pub Popped : Ringbuf A → List A → Option (Option A) × Ringbuf A → Type 0
  Popped rb [] (none, rb') = rb' ≡ rb
  Popped rb (x ∷ q) (some e, rb') = (e ≡ some x) × Quiet rb' q
  Popped rb q _ = ⊥

  -- `ringbuf_push` on a ring that holds `q` and whose locks are free: it returns 1 exactly if there
  -- is a free slot, and then the element is behind the others; else nothing changes.
  pub push-Pushed : (rb : Ringbuf A) (q : List A) (x : A) → Quiet rb q → Pushed rb q x (push rb x)
  unfolding push
  push-Pushed rb q x h =
      let free : (rb.wlock == 0) ≡ true = ground (arith, h.write_free) in
      rw free (elim (Bool-cases (ltb (length q) rb.len)) [
        | inl room ↦
            let seen : writable rb.len rb.roffset rb.woffset ≡ true =
              writable-Apart h.apart ∙ room in
            let below = ltb→lt _ _ room in
            let stored = store-Sound (writing rb q) q x refl below (writing-Sound rb q h) in
            let kept = stored.writer_ok in
            let moved = publish-Sound _ q x refl below kept.2 stored in
            rw seen (
              below,
              record {
                write_free = h.write_free;
                read_free = h.read_free;
                apart = moved.apart;
                content = λ i lt. moved.content i (omega arith) lt;
              },
            )
        | inr full ↦
            let seen : writable rb.len rb.roffset rb.woffset ≡ false =
              writable-Apart h.apart ∙ full in
            rw seen (ground (arith, h.apart.most), refl)
      ])

  read-Sound :
      (rb : Ringbuf A) (x : A) (q : List A)
      → Sound (reading rb (x ∷ q) (some x)) (x ∷ q)
      → Sound
          (step_pop
            (r_cleared (some x))
            (step_pop (r_taken (some x)) (reading rb (x ∷ q) (some x))))
          q
  unfolding step_pop
  read-Sound rb x q s =
      let cleared = clear-Sound (reading rb (x ∷ q) (some x)) x q (some x) refl refl s in
      move-Sound _ x q (some x) refl refl refl cleared

  -- `ringbuf_pop` on a ring that holds `q` and whose locks are free: it gives back and removes the
  -- oldest element, and returns 0 exactly if there is none.
  pub pop-Popped : (rb : Ringbuf A) (q : List A) → Quiet rb q → Popped rb q (pop rb)
  unfolding pop step_pop
  pop-Popped rb [] h =
      let free : (rb.rlock == 0) ≡ true = ground (arith, h.read_free) in
      let seen : readable rb.len rb.roffset rb.woffset ≡ false = readable-Apart h.apart in
      rw (free, seen) refl
  pop-Popped rb (x ∷ q) h =
      let free : (rb.rlock == 0) ≡ true = ground (arith, h.read_free) in
      let seen : readable rb.len rb.roffset rb.woffset ≡ true =
        readable-Apart h.apart ∙ lt→ltb 0 (suc (length q)) (omega arith) in
      let oldest : rb.buffer (rb.roffset % rb.len) ≡ some x =
        ap rb.buffer (ground (arith, remainder_lt h.apart)) ∙ h.content 0 (omega arith) in
      let taken : Sound (reading rb (x ∷ q) (some x)) (x ∷ q) = record {
        writer_ok = h.write_free;
        reader_ok = (refl, x, q, refl, refl);
        apart = h.apart;
        content = λ i _ lt. h.content i lt;
        history = refl;
      } in
      let moved = read-Sound rb x q taken in
      rw (free, seen)
        (
          oldest,
          record {
            write_free = h.write_free;
            read_free = h.read_free;
            apart = moved.apart;
            content = λ i lt. moved.content i (omega arith) lt;
          },
        )
