-- ===== src/Ringbuf/StepPush.antt =====
-- Every turn of a thread inside `ringbuf_push` of source/common/ringbuf.h keeps the invariant.
use libclogger.Prelude.{
  ℕ, ◌+◌, ◌%◌, ◌≤◌, ◌<◌, ◌≡◌, refl, sym, ap, ◌∙◌, some, List, [], ◌∷◌, ◌++◌, arith, true, false,
  length, length-append, get_elem?, ltb, Bool-cases, inl, inr, ltb→lt,
}
use mathlib.Core.Path.{subst}
use libclogger.Ringbuf.{Ringbuf, assign, writable, fold_offset}
use libclogger.Ringbuf.Distance.{Apart, slot_at, writable-Apart, write_slot, Apart-write}
use libclogger.Ringbuf.Threads.{
  Writer, w_idle, w_locked, w_loaded, w_stored, w_moved, Reader, r_idle, r_locked, r_loaded,
  r_taken, r_cleared, r_moved, System, step_push,
}
use libclogger.Ringbuf.Invariant.{
  WriterOk, ReaderOk, cleared, Sound, assign_same, assign_other, get_elem?_append_left,
  get_elem?_append_end, history_push, write_slot_free,
}

module _ {A : Type 0} where
  -- what a reader knows stays true when the writer changes `B[W]` and `W` only, and the queue grows
  ReaderOk-push :
      (reader : Reader A) (rb rb' : Ringbuf A) (q : List A) (x : A)
      → rb'.rlock ≡ rb.rlock
      → rb'.len ≡ rb.len
      → rb'.roffset ≡ rb.roffset
      → ReaderOk rb q reader
      → ReaderOk rb' (q ++ (x ∷ [])) reader
  ReaderOk-push r_idle rb rb' q x lock len at ok = lock ∙ ok
  ReaderOk-push r_locked rb rb' q x lock len at ok = lock ∙ ok
  ReaderOk-push (r_loaded wo) rb rb' q x lock len at (held, d, apart, le) =
      (lock ∙ held, d, rw (len, at) apart, omega (arith, le, length-append q (x ∷ [])))
  ReaderOk-push (r_taken e) rb rb' q x lock len at (held, y, q', eq, ok) =
      (lock ∙ held, y, q' ++ (x ∷ []), ap (λ t. t ++ (x ∷ [])) eq, ok)
  ReaderOk-push (r_cleared e) rb rb' q x lock len at (held, y, q', eq, ok) =
      (lock ∙ held, y, q' ++ (x ∷ []), ap (λ t. t ++ (x ∷ [])) eq, ok)
  ReaderOk-push r_moved rb rb' q x lock len at ok = lock ∙ ok

  -- the same when only the lock or the buffer changes
  ReaderOk-same :
      (reader : Reader A) (rb rb' : Ringbuf A) (q : List A)
      → rb'.rlock ≡ rb.rlock
      → rb'.len ≡ rb.len
      → rb'.roffset ≡ rb.roffset
      → ReaderOk rb q reader
      → ReaderOk rb' q reader
  ReaderOk-same r_idle rb rb' q lock len at ok = lock ∙ ok
  ReaderOk-same r_locked rb rb' q lock len at ok = lock ∙ ok
  ReaderOk-same (r_loaded wo) rb rb' q lock len at (held, d, apart, le) =
      (lock ∙ held, d, rw (len, at) apart, le)
  ReaderOk-same (r_taken e) rb rb' q lock len at (held, x, q', eq, ok) =
      (lock ∙ held, x, q', eq, ok)
  ReaderOk-same (r_cleared e) rb rb' q lock len at (held, x, q', eq, ok) =
      (lock ∙ held, x, q', eq, ok)
  ReaderOk-same r_moved rb rb' q lock len at ok = lock ∙ ok

  pub store-Sound :
      (s : System A) (q : List A) (x : A)
      → s.ring.wlock ≡ 1
      → length q < s.ring.len
      → Sound s q
      → let rb = s.ring in
        Sound
          (record s {
            ring = record rb { buffer = assign rb.buffer (rb.woffset % rb.len) (some x) };
            writer = w_stored x;
          })
          q
  store-Sound s q x held room h =
      let rb = s.ring in
      let rb' = record rb { buffer = assign rb.buffer (rb.woffset % rb.len) (some x) } in
      record {
        writer_ok = (held, room, assign_same rb.buffer (rb.woffset % rb.len) (some x));
        reader_ok = ReaderOk-same s.reader rb rb' q refl refl refl h.reader_ok;
        apart = h.apart;
        content = λ i le lt.
            assign_other rb.buffer (rb.woffset % rb.len) _ (some x)
              (write_slot_free rb.len rb.roffset rb.woffset (length q) i h.apart room lt)
            ∙ h.content i le lt;
        history = h.history;
      }

  content_push :
      (rb : Ringbuf A) (q : List A) (x : A) (least : ℕ)
      → Apart rb.len rb.roffset rb.woffset (length q)
      → length q < rb.len
      → rb.buffer (rb.woffset % rb.len) ≡ some x
      → ((i : ℕ)
          → least ≤ i
          → i < length q
          → rb.buffer (slot_at rb.len (rb.roffset % rb.len) i) ≡ get_elem? q i)
      → (i : ℕ) → least ≤ i
      → i < length (q ++ (x ∷ []))
      → rb.buffer (slot_at rb.len (rb.roffset % rb.len) i) ≡ get_elem? (q ++ (x ∷ [])) i
  content_push rb q x least apart room stored content i le lt =
      elim (Bool-cases (ltb i (length q))) [
        | inl older ↦
            let below = ltb→lt _ _ older in
            content i le below ∙ sym (get_elem?_append_left q x i below)
        | inr last ↦
            let end : length q ≡ i = ground (arith, length-append q (x ∷ [])) in
            subst
              (λ k.
                rb.buffer (slot_at rb.len (rb.roffset % rb.len) k) ≡ get_elem? (q ++ (x ∷ [])) k)
              end
              (ap rb.buffer (sym (write_slot apart room)) ∙ stored ∙ sym (get_elem?_append_end q x))
      ]

  pub publish-Sound :
      (s : System A) (q : List A) (x : A)
      → s.ring.wlock ≡ 1
      → length q < s.ring.len
      → s.ring.buffer (s.ring.woffset % s.ring.len) ≡ some x
      → Sound s q
      → let rb = s.ring in
        Sound
          (record s {
            ring = record rb { woffset = fold_offset (rb.woffset + 1) rb.len };
            writer = w_moved;
            pushed = s.pushed ++ (x ∷ []);
          })
          (q ++ (x ∷ []))
  publish-Sound s q x held room stored h =
      let rb = s.ring in
      let rb' = record rb { woffset = fold_offset (rb.woffset + 1) rb.len } in
      record {
        writer_ok = held;
        reader_ok = ReaderOk-push s.reader rb rb' q x refl refl refl h.reader_ok;
        apart =
            subst (Apart rb.len rb.roffset rb'.woffset) (sym (length-append q (x ∷ [])))
              (Apart-write h.apart room);
        content = content_push rb q x (cleared s.reader) h.apart room stored h.content;
        history = history_push s.pushed s.popped q x h.history;
      }

  loaded-Sound :
      (s : System A) (q : List A) (x : A) (ro d : ℕ)
      → s.ring.wlock ≡ 1
      → Apart s.ring.len ro s.ring.woffset d
      → length q ≤ d
      → Sound s q
      → Sound (step_push (w_loaded x ro) s) q
  unfolding step_push
  loaded-Sound s q x ro d held apart le h = elim (Bool-cases (ltb d s.ring.len)) [
    | inl room ↦
        let room_seen : writable s.ring.len ro s.ring.woffset ≡ true =
          writable-Apart apart ∙ room in
        rw room_seen (store-Sound s q x held (omega (arith, ltb→lt _ _ room)) h)
    | inr full ↦
        let full_seen : writable s.ring.len ro s.ring.woffset ≡ false =
          writable-Apart apart ∙ full in
        rw full_seen (record {
          writer_ok = refl;
          reader_ok =
              ReaderOk-same s.reader s.ring (record s.ring { wlock = 0 }) q refl refl refl
                h.reader_ok;
          apart = h.apart;
          content = h.content;
          history = h.history;
        })
  ]

  -- the holder of the write lock takes a turn
  pub step_push-Sound :
      (w : Writer A) (s : System A) (q : List A)
      → s.writer ≡ w
      → WriterOk s.ring (length q) w
      → Sound s q
      → (q' : List A) × Sound (step_push w s) q'
  unfolding step_push
  step_push-Sound w_idle s q e ok h = (q, h)
  step_push-Sound (w_locked x) s q e ok h = (
    q,
    record {
      writer_ok = (ok, length q, h.apart, omega arith);
      reader_ok = h.reader_ok;
      apart = h.apart;
      content = h.content;
      history = h.history;
    },
  )
  step_push-Sound (w_loaded x ro) s q e ok h = (q, loaded-Sound s q x ro ok.1 ok.0 ok.2 ok.3 h)
  step_push-Sound (w_stored x) s q e ok h = (q ++ (x ∷ []), publish-Sound s q x ok.0 ok.1 ok.2 h)
  step_push-Sound w_moved s q e ok h = (
    q,
    record {
      writer_ok = refl;
      reader_ok =
          ReaderOk-same s.reader s.ring (record s.ring { wlock = 0 }) q refl refl refl h.reader_ok;
      apart = h.apart;
      content = h.content;
      history = h.history;
    },
  )
