-- ===== src/Ring/Fifo.antt =====
-- A ring of source/common/ringbufst.h, from `ringbufst_init` on, against a first-in first-out queue:
-- a client writes with `ringbufst_write` and reads with `ringbufst_read_copy`, in any order.
use libclogger.Prelude.{
  ◌⊎◌, ℕ, ◌+◌, ◌-◌, ◌*◌, ◌^◌, ◌≤◌, ◌<◌, ◌≡◌, refl, List, [], ◌∷◌, ◌++◌, arith, length, some, ◌==◌,
  ltb, Bool-cases, inl, inr, zero, suc, true, false,
}
use libclogger.Ring.{Ring, align_entrysize, init, clamp_length, align_pagesize}
use libclogger.Ring.Content.{Message}
use libclogger.Ring.Holds.{Holds, flat}
use libclogger.Ring.Offsets.{At, At-intro}
use libclogger.Ring.Write.{WriteStatus, Slot, behind, front, nowhere, place, write, choose_slot}
use libclogger.Ring.Read.{
  exceeds, skip_offset, CopyStatus, copy_found, read_copy_fuel, read_copy, Found, entry, skip,
  nothing, broken, fault,
}
use libclogger.Ring.Enqueue.{Appends, write-Appends}
use libclogger.Ring.ReadCopy.{Copies, read_copy-Copies}

-- No call leaves a lock behind.
abbrev pub Unlocked : Ring → Type 0
Unlocked rb = (rb.wlock ≡ 0) × (rb.rlock ≡ 0)

-- What `ringbufst_init` allocates for `bytes` bytes.
allocated : ℕ → Ring
allocated bytes = record {
  rlock = 0;
  wlock = 0;
  woffset = 0;
  roffset = 0;
  len = align_pagesize bytes;
  buffer = λ _. 0;
}

allocated-Holds : (bytes : ℕ) → 0 < bytes → bytes ≤ 2 ^ 30 - 4096 → Holds (allocated bytes) []
unfolding allocated
allocated-Holds bytes h k =
    flat
      (record {
        read_at = start;
        write_at = start;
        small = omega arith;
        len_eight = omega arith;
        r_eight = refl;
        w_eight = refl;
      })
      refl
  where
    start : At (align_pagesize bytes) 0 0 0
    start =
        let origin : 0 * align_pagesize bytes + 0 ≡ 0 = omega arith in
        rw origin at (At-intro (align_pagesize bytes) 0 0 (omega arith) (omega arith))

-- The length that is used is the given one or less, or else the least one.
clamp_product :
    (length eltsizemax bound : ℕ)
    → 0 < eltsizemax
    → eltsizemax * length ≤ bound
    → 2 * eltsizemax ≤ bound
    → (0 < eltsizemax * clamp_length length) × (eltsizemax * clamp_length length ≤ bound)
unfolding clamp_length
clamp_product length eltsizemax bound pos h k = grind arith

-- `ringbufst_init`, if `eltsizemax` is positive and the requested bytes, for at least two entries,
-- are at most 2 ^ 30 less a page: it overflows no `int`, and the ring that it makes is empty, well
-- formed (two laps of the buffer fit in an `int`), and its locks are free.
pub init-Holds :
    (length eltsizemax : ℕ)
    → 0 < eltsizemax
    → eltsizemax * length ≤ 2 ^ 30 - 4096
    → 2 * eltsizemax ≤ 2 ^ 30 - 4096
    → (rb : Ring) × (init length eltsizemax ≡ some rb) × Holds rb [] × Unlocked rb
unfolding init allocated
init-Holds length eltsizemax pos small small' =
    let bounds = clamp_product length eltsizemax (2 ^ 30 - 4096) pos small small' in
    let guard : ltb (2 ^ 31 - 1) (eltsizemax * clamp_length length) ≡ false = ground arith in
    (
      allocated (eltsizemax * clamp_length length),
      rw guard refl,
      allocated-Holds (eltsizemax * clamp_length length) bounds.0 bounds.1,
      (refl, refl),
    )

pub data Op : Type 0 where
  put : Message → Op
  get : ℕ → Op

pub data Reply : Type 0 where
  put_reply : WriteStatus → Reply
  get_reply : CopyStatus → Reply

-- the replies of the calls, made one after the other
unfoldable pub run : Ring → List Op → List Reply
run rb [] = []
run rb (put x ∷ ops) = let (st, rb') = write rb (length x) x in put_reply st ∷ run rb' ops
run rb (get n ∷ ops) = let (st, rb') = read_copy rb n in get_reply st ∷ run rb' ops

-- A queue that holds `q` gives these replies. Whether a message is taken is left to the ring.
abbrev pub Fifo : List Message → List Op → List Reply → Type 0
Fifo q [] [] = Unit {0}
Fifo q (put x ∷ ops) (put_reply WriteStatus.written ∷ rs) = Fifo (q ++ (x ∷ [])) ops rs
Fifo q (put x ∷ ops) (put_reply WriteStatus.again ∷ rs) = Fifo q ops rs
Fifo q (put x ∷ ops) (put_reply WriteStatus.fatal ∷ rs) = Fifo q ops rs
Fifo [] (get n ∷ ops) (get_reply CopyStatus.again ∷ rs) = Fifo [] ops rs
Fifo (x ∷ q) (get n ∷ ops) (get_reply (CopyStatus.copied y) ∷ rs) =
    (y ≡ x) × (length x ≤ n) × (n < 2 ^ 63) × Fifo q ops rs
Fifo (x ∷ q) (get n ∷ ops) (get_reply (CopyStatus.too_small k) ∷ rs) =
    (k ≡ length x) × ((n < k) ⊎ (2 ^ 63 ≤ n)) × Fifo (x ∷ q) ops rs
Fifo q _ _ = ⊥

-- the messages are not empty
abbrev pub Proper : List Op → Type 0
Proper [] = Unit {0}
Proper (put x ∷ ops) = (0 < length x) × (length x < 2 ^ 62) × Proper ops
Proper (get n ∷ ops) = Proper ops

place-Unlocked :
    (rb : Ring) (slot : Slot) (a n : ℕ) (x : Message)
    → Unlocked rb
    → Unlocked (place rb slot a n x).1
unfolding place
place-Unlocked rb behind a n x u = u
place-Unlocked rb front a n x u = u
place-Unlocked rb nowhere a n x u = u

write-Unlocked : (rb : Ring) (n : ℕ) (x : Message) → Unlocked rb → Unlocked (write rb n x).1
unfolding write
write-Unlocked rb n x u = ground (
  arith,
  place-Unlocked rb (choose_slot rb.len rb.roffset rb.woffset (align_entrysize n))
      (align_entrysize n) n x u,
)

copy_found-Unlocked :
    (rb : Ring) (n : ℕ) (rest : CopyStatus × Ring) (f : Found)
    → Unlocked rb
    → Unlocked rest.1
    → Unlocked (copy_found rb n rest f).1
unfolding copy_found
copy_found-Unlocked rb n rest (entry at size next) u v = elim (Bool-cases (exceeds size n)) [
  | inl small ↦ rw small u
  | inr enough ↦ rw enough u
]
copy_found-Unlocked rb n rest skip u v = v
copy_found-Unlocked rb n rest nothing u v = u
copy_found-Unlocked rb n rest broken u v = u
copy_found-Unlocked rb n rest fault u v = u

read_copy_fuel-Unlocked :
    (fuel : ℕ) (rb : Ring) (n : ℕ) → Unlocked rb → Unlocked (read_copy_fuel fuel rb n).1
unfolding read_copy_fuel
read_copy_fuel-Unlocked zero rb n u = u
read_copy_fuel-Unlocked (suc fuel) rb n u =
    let free : (rb.rlock == 0) ≡ true = ground arith in
    rw free (
      copy_found-Unlocked rb n _ _ u
        (read_copy_fuel-Unlocked fuel (record rb { roffset = skip_offset rb }) n u))

read_copy-Unlocked : (rb : Ring) (n : ℕ) → Unlocked rb → Unlocked (read_copy rb n).1
unfolding read_copy
read_copy-Unlocked rb n u = read_copy_fuel-Unlocked 2 rb n u

-- one write, and what follows it
put-Fifo :
    (rb : Ring) (q : List Message) (x : Message) (ops : List Op) (out : WriteStatus × Ring)
    → Holds rb q
    → Appends rb q x out
    → ((q' : List Message) → Holds out.1 q' → Fifo q' ops (run out.1 ops))
    → Fifo q (put x ∷ ops) (put_reply out.0 ∷ run out.1 ops)
put-Fifo rb q x ops (WriteStatus.written, rb') h a ih = ih (q ++ (x ∷ [])) a
put-Fifo rb q x ops (WriteStatus.again, rb') h a ih = ih q (rw a h)
put-Fifo rb q x ops (WriteStatus.fatal, rb') h a ih = ih q (rw a.0 h)
put-Fifo rb q x ops (WriteStatus.fault, rb') h a ih = absurd a

get-Fifo :
    (q : List Message) (n : ℕ) (ops : List Op) (out : CopyStatus × Ring)
    → Copies q n out
    → ((q' : List Message) → Holds out.1 q' → Fifo q' ops (run out.1 ops))
    → Fifo q (get n ∷ ops) (get_reply out.0 ∷ run out.1 ops)
get-Fifo [] n ops (CopyStatus.again, rb') c ih = ih [] c
get-Fifo [] n ops (st, rb') c ih = absurd c
get-Fifo (x ∷ q) n ops (CopyStatus.copied y, rb') c ih = (c.0, c.1, c.2, ih q c.3)
get-Fifo (x ∷ q) n ops (CopyStatus.too_small k, rb') c ih = (c.0, c.1, ih (x ∷ q) c.2)
get-Fifo (x ∷ q) n ops (st, rb') c ih = absurd c

-- Whatever writes of messages that are not empty and have less than 2 ^ 62 bytes, and whatever
-- `ringbufst_read_copy`, a client calls one after the other, a ring that holds `q`, its locks free,
-- answers as the queue `q` does: the messages are read in the order of the writes, each once and
-- with the bytes that were written, and none that was not written or was read before.
pub run-Fifo :
    (ops : List Op) (rb : Ring) (q : List Message)
    → Proper ops
    → Unlocked rb
    → Holds rb q
    → Fifo q ops (run rb ops)
unfolding run
run-Fifo [] rb q proper u h = tt
run-Fifo (put x ∷ ops) rb q proper u h =
    put-Fifo rb q x ops _ h (write-Appends rb q x u.0 proper.0 proper.1 h)
      (λ q' h'. run-Fifo ops _ q' proper.2 (write-Unlocked rb (length x) x u) h')
run-Fifo (get n ∷ ops) rb q proper u h =
    get-Fifo q n ops _ (read_copy-Copies rb q n u.1 h)
      (λ q' h'. run-Fifo ops _ q' proper (read_copy-Unlocked rb n u) h')
