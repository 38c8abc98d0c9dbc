-- ===== src/Ring/ReadBatch.antt =====
-- `ringbufst_read_next_batch` of source/common/ringbufst.h: the messages that one batch hands over.
use libclogger.Prelude.{false, ap, ℕ, suc, ◌+◌, ◌≤◌, ◌≡◌, List, [], ◌∷◌, Bool, true, false}
use libclogger.Ring.{Ring, restore_wrap}
use libclogger.Ring.Content.{Message}
use libclogger.Ring.Holds.{Holds}
use libclogger.Ring.Read.{ReadStatus}

-- Why a batch that read `k` messages and left `q` ended: its rounds were used up; nothing is left; the callback
-- refused the next one; or a tail was skipped, so that the offsets, on two laps at its start, are on one.
pub data Ending (batch k : ℕ) (q : List Message) (refused : Bool) (wrap wrap' : ℕ) : Type 0 where
  all_rounds : k ≡ batch → Ending batch k q refused wrap wrap'
  all_read : q ≡ [] → Ending batch k q refused wrap wrap'
  was_refused : refused ≡ true → Ending batch k q refused wrap wrap'
  tail_skipped : wrap ≡ 1 → wrap' ≡ 0 → Ending batch k q refused wrap wrap'

pub Ending-suc :
    {batch k : ℕ} {q : List Message} {refused : Bool} {wrap wrap' wrap'' : ℕ}
    → (wrap' ≡ 1 → wrap ≡ 1)
    → Ending batch k q refused wrap' wrap''
    → Ending (suc batch) (suc k) q refused wrap wrap''
Ending-suc lap (all_rounds e) = all_rounds (ap suc e)
Ending-suc lap (all_read e) = all_read e
Ending-suc lap (was_refused e) = was_refused e
Ending-suc lap (tail_skipped e f) = tail_skipped (lap e) f

module _ {S : Type 0} (cb : S → List ℕ → Bool × S) where
  -- The callback ran from `s` to `s'` over the oldest messages of `q`, took `n` of them and left `q'`.
  -- It may have refused the next one at the end.
  pub data Drains : Bool → ℕ → List Message → S → List Message → S → Type 0 where
    stop : {q : List Message} {s : S} → Drains false 0 q s q s
    refuse :
        {x : Message} {q : List Message} {s s' : S}
        → cb s x ≡ (false, s')
        → Drains true 0 (x ∷ q) s (x ∷ q) s'
    take_one :
        {refused : Bool} {n : ℕ} {x : Message} {q q' : List Message} {s t s' : S}
        → cb s x ≡ (true, t)
        → Drains refused n q t q' s'
        → Drains refused (suc n) (x ∷ q) s q' s'

  -- What a batch of at most `batch` rounds returns, with `num` messages counted before.
  abbrev pub Batched : ℕ → ℕ → Ring → List Message → S → ReadStatus × ℕ × Ring × S → Type 0
  Batched batch num rb q s (ReadStatus.done, n, rb', s') =
      (k : ℕ) × (q' : List Message) × (n ≡ num + k)
      × (k ≤ batch)
      × (refused : Bool) × Drains refused k q s q' s'
      × Holds rb' q'
      × Ending batch k q' refused (restore_wrap rb.roffset rb.woffset rb.len)
          (restore_wrap rb'.roffset rb'.woffset rb'.len)
  Batched batch num rb q s _ = ⊥
