-- ===== src/Ring/Sound/Writing.antt =====
-- Every step of the thread inside `ringbufst_write` of source/common/ringbufst.h keeps the invariant.
use libclogger.Prelude.{
  ℕ, ◌+◌, ◌-◌, ◌*◌, ◌%◌, ◌<◌, ◌≡◌, refl, sym, ap, ◌∙◌, inl, inr, List, [], ◌∷◌, ◌++◌, length,
}
use mathlib.Core.Path.{subst}
use mathlib.Core.List.{append_assoc}
use libclogger.Memory.{Mem, store, store_word, bzero}
use libclogger.Ring.{align_entrysize}
use libclogger.Ring.Content.{Message}
use libclogger.Ring.Holds.{Advanced}
use libclogger.Ring.Write.{Slot, behind, front, nowhere, choose_slot, store_entry}
use libclogger.Ring.Threads.{
  Writer, w_idle, w_locked, w_loaded, w_cleared, w_sized, w_stored, w_moved, System, next_woffset,
  begin_entry, step_write,
}
use libclogger.Ring.Views.{Advanced-refl, choose_slot-SameSlot}
use libclogger.Ring.Sound.{
  Sendable, prepared, slot_address, Placed, Chosen, WriterOk, WriterLocks, Sound,
}
use libclogger.Ring.Sound.Publish.{roffset_lt, write-HoldsAt, write-ReaderOk}

module _ (first : List Message) (s : System) (sound : Sound first s) where
  abbrev l : ℕ
  l = s.ring.len

  abbrev ro : ℕ
  ro = s.ring.roffset

  abbrev wo : ℕ
  wo = s.ring.woffset

  -- a step that publishes nothing
  pub writer_steps :
      (m : Mem) (lock : ℕ) (w : Writer)
      → WriterOk sound.base l ro wo m w
      → WriterLocks w lock
      → Sound first (record s { ring = record s.ring { buffer = m; wlock = lock }; writer = w })
  writer_steps m lock w ok locks = record {
    base = sound.base;
    queue = sound.queue;
    holds = sound.holds;
    writer_ok = ok;
    reader_ok = sound.reader_ok;
    writer_locks = locks;
    reader_locks = sound.reader_locks;
    history = sound.history;
  }

  begin_entry-Sound :
      (x : Message) (slot : Slot) (wo' : ℕ)
      → Sendable x
      → s.ring.buffer ≡ sound.base
      → s.ring.wlock ≡ 1
      → (Placed slot → Chosen l ro wo x slot wo')
      → Sound first (begin_entry x wo' s slot)
  unfolding begin_entry
  begin_entry-Sound x behind wo' ok e lock c =
      writer_steps (store_word s.ring.buffer (wo % l) (length x)) s.ring.wlock
        (w_sized x (wo % l) wo')
        (behind, ok, c tt, refl, ap (λ m. store_word m (wo % l) (length x)) e) lock
  begin_entry-Sound x front wo' ok e lock c =
      writer_steps (bzero s.ring.buffer (wo % l) (l - wo % l)) s.ring.wlock (w_cleared x wo')
        (ok, c tt, ap (λ m. bzero m (wo % l) (l - wo % l)) e) lock
  begin_entry-Sound x nowhere wo' ok e lock c = writer_steps s.ring.buffer 0 w_idle e tt

  -- The slot that the loaded read offset gave is the one that the current offset gives.
  loaded-Chosen :
      (x : Message) (ro_old : ℕ)
      → ro_old < 2 * l
      → Advanced l wo ro_old ro
      → let a = align_entrysize (length x) in
        let slot = choose_slot l ro_old wo a in
        Placed slot → Chosen l ro wo x slot (next_woffset l ro_old wo a slot)
  loaded-Chosen x ro_old below adv placed =
      let a = align_entrysize (length x) in
      elim (choose_slot-SameSlot sound.base l ro_old ro wo a sound.queue below adv sound.holds) [
        | inl none_left ↦ absurd (subst Placed none_left placed)
        | inr same ↦ record { choice = sym same.0; found = placed; offset = same.1 }
      ]

  stored_step :
      (x : Message) (wo' : ℕ)
      → WriterOk sound.base l ro wo s.ring.buffer (w_stored x wo')
      → s.ring.wlock ≡ 1
      → Sound first (step_write (w_stored x wo') s)
  unfolding step_write
  stored_step x wo' (slot, ok, c, e) lock = record {
    base = store_entry (prepared sound.base l wo slot) (slot_address l wo slot) (length x) x;
    queue = sound.queue ++ (x ∷ []);
    holds = write-HoldsAt sound.base l ro wo sound.queue sound.holds x slot wo' ok c;
    writer_ok = e;
    reader_ok =
        write-ReaderOk sound.base l ro wo sound.queue sound.holds x slot wo' ok c s.reader
          sound.reader_ok;
    writer_locks = lock;
    reader_locks = sound.reader_locks;
    history =
        sym (append_assoc first s.written (x ∷ []))
        ∙ ap (λ t. t ++ (x ∷ [])) sound.history
        ∙ append_assoc s.copied sound.queue (x ∷ []);
  }

  writer-Sound :
      (w : Writer)
      → WriterOk sound.base l ro wo s.ring.buffer w
      → WriterLocks w s.ring.wlock
      → Sound first (step_write w s)
  unfolding step_write store_entry
  writer-Sound w_idle ok lock = sound
  writer-Sound (w_locked x) (ok, e) lock =
      writer_steps s.ring.buffer s.ring.wlock (w_loaded x ro)
        (ok, roffset_lt sound.base l ro wo sound.queue sound.holds, Advanced-refl l wo ro, e) lock
  writer-Sound (w_loaded x ro_old) (ok, below, adv, e) lock =
      let a = align_entrysize (length x) in
      let slot = choose_slot l ro_old wo a in
      begin_entry-Sound x slot (next_woffset l ro_old wo a slot) ok e lock
        (loaded-Chosen x ro_old below adv)
  writer-Sound (w_cleared x wo') (ok, c, e) lock =
      writer_steps (store_word s.ring.buffer 0 (length x)) s.ring.wlock (w_sized x 0 wo')
        (front, ok, c, refl, ap (λ m. store_word m 0 (length x)) e) lock
  writer-Sound (w_sized x at wo') (slot, ok, c, p, e) lock =
      writer_steps (store s.ring.buffer (at + 8) x) s.ring.wlock (w_stored x wo')
        (
          slot,
          ok,
          c,
          ap (λ a. store s.ring.buffer (a + 8) x) p
              ∙ ap (λ m. store m (slot_address l wo slot + 8) x) e,
        )
        lock
  writer-Sound (w_stored x wo') ok lock = stored_step x wo' ok lock
  writer-Sound w_moved e lock = writer_steps s.ring.buffer 0 w_idle e tt

  pub step_write-Sound : Sound first (step_write s.writer s)
  step_write-Sound = writer-Sound s.writer sound.writer_ok sound.writer_locks
