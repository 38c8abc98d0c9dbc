-- ===== src/Ring/ReadCopy.antt =====
-- `ringbufst_read_copy` of source/common/ringbufst.h: what it returns and leaves behind.
use libclogger.Prelude.{
  ◌⊎◌, ◌^◌, ℕ, suc, ◌+◌, ◌≤◌, ◌<◌, ◌≡◌, refl, inl, inr, List, [], ◌∷◌, arith, length, true, ◌==◌,
  if◌then◌else◌, Bool-cases,
}
use libclogger.Memory.{load}
use libclogger.Ring.{Ring}
use libclogger.Ring.Content.{Message}
use libclogger.Ring.Holds.{Holds}
use libclogger.Ring.Dequeue.{Finds, HoldsAt-Finds, skip_held, find_entry-ne-skip}
use libclogger.Ring.Read.{
  exceeds, Found, entry, skip, nothing, broken, fault, find_entry, CopyStatus, copy_found,
  read_copy_fuel, read_copy, skip_offset,
}

-- What `ringbufst_read_copy` does to a ring that holds `q`.
abbrev pub Copies : List Message → ℕ → CopyStatus × Ring → Type 0
Copies [] n (CopyStatus.again, rb') = Holds rb' []
Copies (x ∷ q) n (CopyStatus.copied y, rb') = (y ≡ x) × (length x ≤ n) × (n < 2 ^ 63) × Holds rb' q
Copies (x ∷ q) n (CopyStatus.too_small k, rb') =
    (k ≡ length x) × ((n < k) ⊎ (2 ^ 63 ≤ n)) × Holds rb' (x ∷ q)
Copies q n _ = ⊥

copy_entry :
    (rb : Ring) (q : List Message) (n at size next : ℕ)
    → Holds rb q
    → Finds rb.buffer rb.len rb.roffset rb.woffset q (entry at size next)
    → Copies q n (
        if exceeds size n
        then (CopyStatus.too_small size, rb)
        else (CopyStatus.copied (load rb.buffer (at + 8) size), record rb { roffset = next }))
copy_entry rb [] n at size next h f = absurd f
copy_entry rb (x ∷ q) n at size next h f = elim (Bool-cases (exceeds size n)) [
  | inl small ↦ rw small (f.0, ground arith, h)
  | inr enough ↦ rw enough (f.1, ground arith, ground arith, f.2)
]

copy_found-Copies :
    (rb : Ring) (q : List Message) (n : ℕ) (rest : CopyStatus × Ring) (f : Found)
    → Holds rb q
    → Finds rb.buffer rb.len rb.roffset rb.woffset q f
    → (f ≡ skip → Copies q n rest)
    → Copies q n (copy_found rb n rest f)
unfolding copy_found
copy_found-Copies rb q n rest (entry at size next) h f g = copy_entry rb q n at size next h f
copy_found-Copies rb q n rest skip h f g = g refl
copy_found-Copies rb [] n rest nothing h f g = h
copy_found-Copies rb (x ∷ q) n rest nothing h f g = absurd f
copy_found-Copies rb [] n rest broken h f g = absurd f
copy_found-Copies rb (x ∷ q) n rest broken h f g = absurd f
copy_found-Copies rb [] n rest fault h f g = absurd f
copy_found-Copies rb (x ∷ q) n rest fault h f g = absurd f

-- one call with the lock free, given what the recursive call does after a skip
read_copy_step :
    (fuel : ℕ) (rb : Ring) (q : List Message) (n : ℕ)
    → rb.rlock ≡ 0
    → Holds rb q
    → (find_entry rb.buffer rb.len rb.roffset rb.woffset ≡ skip
        → Copies q n (read_copy_fuel fuel (record rb { roffset = skip_offset rb }) n))
    → Copies q n (read_copy_fuel (suc fuel) rb n)
unfolding read_copy_fuel
read_copy_step fuel rb q n lock h g =
    let free : (rb.rlock == 0) ≡ true = ground arith in
    rw free
      (copy_found-Copies rb q n _ _ h (HoldsAt-Finds rb.buffer rb.len rb.roffset rb.woffset q h) g)

-- `ringbufst_read_copy` on a ring whose read lock is free: it copies and removes the oldest message
-- if `rdbuf` is large enough and its size below 2 ^ 63, else it returns the message's size and leaves it; with no message it
-- returns 0. It returns -1 never, and calls itself once at most.
pub read_copy-Copies :
    (rb : Ring) (q : List Message) (n : ℕ) → rb.rlock ≡ 0 → Holds rb q → Copies q n (read_copy rb n)
unfolding read_copy
read_copy-Copies rb q n lock h = read_copy_step 1 rb q n lock h (λ e.
    let kept = skip_held rb q h e in
    read_copy_step 0 (record rb { roffset = skip_offset rb }) q n lock kept.0
      (λ e'. absurd (find_entry-ne-skip _ _ _ _ kept.2 e')))
