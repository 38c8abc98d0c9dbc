-- ===== src/SharedRing/Batch.antt =====
-- `shmmap_buffer_read_next` and `shmmap_buffer_read_next_batch` of source/common/shmmbuf.h: what they hand over and
-- leave behind.
use libclogger.Prelude.{
  ℕ, ◌+◌, ◌≤◌, ◌≡◌, refl, ◌⊎◌, inl, inr, List, [], ◌∷◌, Bool, true, false, if◌then◌else◌,
}
use libclogger.Ring.{restore_wrap}
use libclogger.Ring.Content.{Message}
use libclogger.Ring.Dequeue.{Finds, HoldsAt-Finds}
use libclogger.Ring.Read.{Found, entry, skip, nothing, broken, ReadStatus}
use libclogger.Ring.ReadBatch.{Ending, Drains}
use libclogger.SharedRing.{SharedRing, find_entry, read_found, read_internal, read_next}
use libclogger.SharedRing.Offset.{find_entry-static}
use libclogger.SharedRing.Queue.{Keeps, skipped}

-- A reader that leaves two laps between the offsets found two.
abbrev Lapped : SharedRing → SharedRing → Type 0
Lapped sb sb' =
    restore_wrap sb'.roffset sb'.woffset sb'.len ≡ 1 → restore_wrap sb.roffset sb.woffset sb.len ≡ 1

module _ {S : Type 0} (cb : S → List ℕ → Bool × S) where
  -- The oldest message is handed over, and removed if it is taken; or nothing is called, since there is no message
  -- or since a tail was skipped, which cannot be so twice.
  abbrev pub Hands : SharedRing → List Message → S → ReadStatus × SharedRing × S → Type 0
  Hands sb [] s (ReadStatus.again, sb', s') = Keeps sb' [] × (s' ≡ s)
  Hands sb (x ∷ q) s (ReadStatus.done, sb', s') = (cb s x ≡ (true, s')) × Keeps sb' q
  Hands sb (x ∷ q) s (ReadStatus.again, sb', s') =
      Keeps sb' (x ∷ q)
      × ((cb s x ≡ (false, s'))
          ⊎ ((s' ≡ s)
              × (restore_wrap sb.roffset sb.woffset sb.len ≡ 1)
              × (restore_wrap sb'.roffset sb'.woffset sb'.len ≡ 0)))
  Hands sb q s _ = ⊥

  read_answer :
      (sb : SharedRing) (x : Message) (q : List Message) (s : S) (next : ℕ) (took : Bool) (s' : S)
      → cb s x ≡ (took, s')
      → Keeps sb (x ∷ q)
      → Keeps (record sb { roffset = next }) q
      → Hands sb (x ∷ q) s (
          if took
          then (ReadStatus.done, record sb { roffset = next }, s')
          else (ReadStatus.again, sb, s'))
  read_answer sb x q s next true s' e h k = (e, k)
  read_answer sb x q s next false s' e h k = (h, inl e)

  read_found-Hands :
      (sb : SharedRing) (q : List Message) (s : S) (f : Found)
      → Keeps sb q
      → Finds sb.buffer sb.len sb.roffset sb.woffset q f
      → (f ≡ skip → find_entry sb.buffer sb.len sb.roffset sb.woffset ≡ skip)
      → Hands sb q s (read_found cb sb s f)
  unfolding read_found
  read_found-Hands sb [] s (entry at size next) h f g = absurd f
  read_found-Hands sb (x ∷ q) s (entry at size next) h f g =
      rw f.1 (read_answer sb x q s next (cb s x).0 (cb s x).1 refl h f.2)
  read_found-Hands sb [] s skip h f g = ((skipped sb [] h (g refl)).0, refl)
  read_found-Hands sb (x ∷ q) s skip h f g =
      let kept = skipped sb (x ∷ q) h (g refl) in (kept.0, inr (refl, kept.2, kept.3))
  read_found-Hands sb [] s nothing h f g = (h, refl)
  read_found-Hands sb (x ∷ q) s nothing h f g = absurd f
  read_found-Hands sb [] s broken h f g = absurd f
  read_found-Hands sb (x ∷ q) s broken h f g = absurd f
  read_found-Hands sb [] s Found.fault h f g = absurd f
  read_found-Hands sb (x ∷ q) s Found.fault h f g = absurd f

  read_internal-Hands :
      (sb : SharedRing) (q : List Message) (s : S)
      → Keeps sb q
      → Hands sb q s (read_internal cb sb s)
  unfolding read_internal
  read_internal-Hands sb q s h =
      let same = find_entry-static sb.buffer sb.len sb.roffset sb.woffset q h in
      read_found-Hands sb q s (find_entry sb.buffer sb.len sb.roffset sb.woffset) h
        (rw same (HoldsAt-Finds sb.buffer sb.len sb.roffset sb.woffset q h)) (λ e. e)

  -- What a batch of at most `batch` rounds returns, with `num` messages counted before.
  abbrev pub Collected :
      ℕ → ℕ → SharedRing → List Message → S → ReadStatus × ℕ × SharedRing × S → Type 0
  Collected batch num sb q s (ReadStatus.done, n, sb', s') =
      (k : ℕ) × (q' : List Message) × (n ≡ num + k)
      × (k ≤ batch)
      × (refused : Bool) × Drains cb refused k q s q' s'
      × Keeps sb' q'
      × Ending batch k q' refused (restore_wrap sb.roffset sb.woffset sb.len)
          (restore_wrap sb'.roffset sb'.woffset sb'.len)
  Collected batch num sb q s _ = ⊥

  -- What a batch does, with the read lock or without it.
  abbrev pub BatchRead :
      Bool → ℕ → SharedRing → List Message → S → ReadStatus × ℕ × SharedRing × S → Type 0
  BatchRead true batch sb q s out = Collected batch 0 sb q s out
  BatchRead false batch sb q s out = out ≡ (ReadStatus.done, 0, sb, s)

  -- `shmmap_buffer_read_next`, which returns 0 if the lock is refused
  pub read_next-Hands :
      (sb : SharedRing) (q : List Message) (s : S)
      → Keeps sb q
      → Hands sb q s (read_next cb true sb s)
  unfolding read_next
  read_next-Hands sb q s h = read_internal-Hands sb q s h
