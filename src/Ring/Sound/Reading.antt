-- ===== src/Ring/Sound/Reading.antt =====
-- Every step of the thread inside `ringbufst_read_copy` of source/common/ringbufst.h keeps the invariant.
use libclogger.Prelude.{
  ℕ, ◌+◌, ◌*◌, ◌/◌, ◌≡◌, refl, sym, ap, ◌∙◌, inl, inr, List, [], ◌∷◌, ◌++◌, arith, Bool-cases,
}
use mathlib.Core.List.{append-nil, append_assoc}
use libclogger.Memory.{load-congr, load}
use libclogger.Ring.{int_cast}
use libclogger.Ring.Content.{Message}
use libclogger.Ring.Holds.{InUse, HoldsAt, Advanced}
use libclogger.Ring.Read.{exceeds, Found, entry, skip, nothing, broken, fault, find_entry}
use libclogger.Ring.Dequeue.{Finds, Finds-skip, HoldsAt-Finds}
use libclogger.Ring.Threads.{
  Reader, r_idle, r_locked, r_loaded, r_found, r_copied, r_skipping, r_moved, r_failed, System,
  on_entry, step_read,
}
use libclogger.Ring.Used.{AgreeUsed, Used-Advanced, HoldsAt-congr, HoldsAt-congr_old}
use libclogger.Ring.Stale.Find.{HoldsAt-Sees}
use libclogger.Ring.Sound.{ReaderOk, ReaderLocks, Sound}
use libclogger.Ring.Sound.Views.{WriterOk-Agree, skip_lap, skip-Advanced}
use libclogger.Ring.Sound.Publish.{read-WriterOk}

module _ (first : List Message) (s : System) (sound : Sound first s) where
  abbrev l : ℕ
  l = s.ring.len

  abbrev ro : ℕ
  ro = s.ring.roffset

  abbrev wo : ℕ
  wo = s.ring.woffset

  -- a step that publishes nothing
  pub reader_steps :
      (lock : ℕ) (r : Reader)
      → ReaderOk sound.base l ro wo sound.queue r
      → ReaderLocks r lock
      → Sound first (record s { ring = record s.ring { rlock = lock }; reader = r })
  reader_steps lock r ok locks = record {
    base = sound.base;
    queue = sound.queue;
    holds = sound.holds;
    writer_ok = sound.writer_ok;
    reader_ok = ok;
    writer_locks = sound.writer_locks;
    reader_locks = locks;
    history = sound.history;
  }

  -- a step that sets the read offset
  publish_step :
      (next : ℕ) (out rest : List Message)
      → HoldsAt sound.base l next wo rest
      → Advanced l wo ro next
      → sound.queue ≡ out ++ rest
      → s.ring.rlock ≡ 1
      → Sound first (record s {
        ring = record s.ring { roffset = next };
        reader = r_moved;
        copied = s.copied ++ out;
      })
  publish_step next out rest h adv e lock = record {
    base = sound.base;
    queue = rest;
    holds = h;
    writer_ok =
        read-WriterOk sound.base l ro wo sound.queue sound.holds next rest adv h s.ring.buffer
          s.writer sound.writer_ok;
    reader_ok = tt;
    writer_locks = sound.writer_locks;
    reader_locks = lock;
    history = sound.history ∙ ap (λ t. s.copied ++ t) e ∙ sym (append_assoc s.copied out rest);
  }

  agree : AgreeUsed sound.base s.ring.buffer l ro wo
  agree =
      WriterOk-Agree sound.base s.ring.buffer l ro wo sound.queue s.writer sound.holds
        sound.writer_ok

  -- What is held behind the reader's move stands in the memory that the writer last left.
  back :
      (next : ℕ) (rest : List Message)
      → Advanced l wo ro next
      → HoldsAt s.ring.buffer l next wo rest
      → HoldsAt sound.base l next wo rest
  back next rest adv h =
      HoldsAt-congr s.ring.buffer sound.base l next wo rest
        (λ i inside u. sym (agree i inside (Used-Advanced l ro next wo i adv u))) h

  pub buffer-Holds : HoldsAt s.ring.buffer l ro wo sound.queue
  buffer-Holds = HoldsAt-congr sound.base s.ring.buffer l ro wo sound.queue agree sound.holds

  same_entry :
      (at size : ℕ)
      → InUse l ro wo at size
      → load s.ring.buffer (at + 8) size ≡ load sound.base (at + 8) size
  same_entry at size used =
      load-congr s.ring.buffer sound.base (at + 8) size
        (λ i p k. let u = used i (omega (arith, p)) k in sym (agree i u.0 u.1))

  on_entry-Sound :
      (n wo_old : ℕ) (q : List Message) (f : Found)
      → s.ring.rlock ≡ 1
      → sound.queue ≡ q
      → Finds s.ring.buffer l ro wo q f
      → (f ≡ skip → wo_old / l ≡ wo / l)
      → Sound first (on_entry n wo_old s f)
  unfolding on_entry
  on_entry-Sound n wo_old [] (entry at size next) lock e h lap = absurd h
  on_entry-Sound n wo_old (x ∷ q) (entry at size next) lock e h lap =
      elim (Bool-cases (exceeds size n)) [
        | inl small ↦ rw small (reader_steps 0 r_idle tt tt)
        | inr enough ↦ rw enough (
            reader_steps s.ring.rlock (r_found at size next)
              (
                q,
                e ∙ ap (λ y. y ∷ q) (sym h.1 ∙ same_entry at size h.4),
                back next q h.3 h.2,
                h.3,
                h.4,
              )
              lock)
      ]
  on_entry-Sound n wo_old q skip lock e h lap =
      let k = Finds-skip s.ring.buffer l ro wo q h in
      let adv : Advanced l wo ro (int_cast (wo / l * l)) = skip-Advanced l ro wo k.1 k.2 in
      rw (lap refl) (
        reader_steps s.ring.rlock (r_skipping (int_cast (wo / l * l)))
          (rw e (back (int_cast (wo / l * l)) q adv k.0), adv) lock)
  on_entry-Sound n wo_old q nothing lock e h lap = reader_steps 0 r_idle tt tt
  on_entry-Sound n wo_old [] broken lock e h lap = absurd h
  on_entry-Sound n wo_old (x ∷ q) broken lock e h lap = absurd h
  on_entry-Sound n wo_old [] fault lock e h lap = absurd h
  on_entry-Sound n wo_old (x ∷ q) fault lock e h lap = absurd h

  loaded_step :
      (n wo_old : ℕ)
      → ReaderOk sound.base l ro wo sound.queue (r_loaded n wo_old)
      → s.ring.rlock ≡ 1
      → Sound first (step_read (r_loaded n wo_old) s)
  unfolding step_read on_entry
  loaded_step n wo_old (seen, rest, e, h) lock =
      let m = s.ring.buffer in
      let held : HoldsAt m l ro wo (seen ++ rest) = rw e at buffer-Holds in
      let old : HoldsAt m l ro wo_old seen =
        HoldsAt-congr_old sound.base m l ro wo_old wo seen rest agree h (rw e at sound.holds) in
      elim (HoldsAt-Sees m l ro wo_old wo seen rest old held) [
        | inl none_left ↦ rw none_left (reader_steps 0 r_idle tt tt)
        | inr same ↦ rw same (
            on_entry-Sound n wo_old sound.queue (find_entry m l ro wo) lock refl
              (HoldsAt-Finds m l ro wo sound.queue buffer-Holds)
              (λ f. skip_lap m l ro wo_old wo seen sound.queue old buffer-Holds (same ∙ f) f))
      ]

  reader-Sound :
      (r : Reader)
      → ReaderOk sound.base l ro wo sound.queue r
      → ReaderLocks r s.ring.rlock
      → Sound first (step_read r s)
  unfolding step_read
  reader-Sound r_idle ok lock = sound
  reader-Sound (r_locked n) ok lock =
      reader_steps s.ring.rlock (r_loaded n wo)
        (sound.queue, [], sym (append-nil sound.queue), sound.holds) lock
  reader-Sound (r_loaded n wo_old) ok lock = loaded_step n wo_old ok lock
  reader-Sound (r_found at size next) (rest, e, h, adv, used) lock =
      reader_steps s.ring.rlock (r_copied (load s.ring.buffer (at + 8) size) next)
        (rest, e ∙ ap (λ y. y ∷ rest) (sym (same_entry at size used)), h, adv) lock
  reader-Sound (r_copied x next) (rest, e, h, adv) lock =
      publish_step next (x ∷ []) rest h adv e lock
  reader-Sound (r_skipping next) (h, adv) lock =
      rw append-nil at (publish_step next [] sound.queue h adv refl lock)
  reader-Sound r_moved ok lock = reader_steps 0 r_idle tt tt
  reader-Sound r_failed ok lock = absurd ok

  pub step_read-Sound : Sound first (step_read s.reader s)
  step_read-Sound = reader-Sound s.reader sound.reader_ok sound.reader_locks
