-- ===== src/SharedRing/Fifo.antt =====
-- The processes at a buffer of source/common/shmmbuf.h, which write with `shmmap_buffer_write` and read with
-- `shmmap_buffer_read_copy`, against a first-in first-out queue, whatever the locks do.
use libclogger.Prelude.{
  Option, ℕ, ◌+◌, ◌-◌, ◌*◌, ◌^◌, ◌≤◌, ◌<◌, ◌≡◌, refl, ◌⊎◌, List, [], ◌∷◌, ◌++◌, arith, length, Bool,
  true, false,
}
use libclogger.Ring.{align_pagesize}
use libclogger.Ring.Content.{Message}
use libclogger.Ring.Holds.{flat}
use libclogger.Ring.Offsets.{At, At-intro}
use libclogger.Ring.Write.{WriteStatus}
use libclogger.Ring.Read.{CopyStatus}
use libclogger.SharedRing.{SharedRing, write, read_copy}
use libclogger.SharedRing.Create.{created}
use libclogger.SharedRing.Queue.{Keeps, Adds, write-Adds, Takes, read_copy-Takes}

-- A call, with what its tries for a lock give.
pub data Call : Type 0 where
  put : Bool → Message → Call
  get : (ℕ → Bool) → ℕ → Call

pub data Answer : Type 0 where
  put_answer : WriteStatus → Answer
  get_answer : CopyStatus → Answer

-- the answers of the calls, made one after the other
unfoldable pub run : SharedRing → List Call → List Answer
run sb [] = []
run sb (put taken x ∷ calls) =
    let (st, sb') = write taken sb (length x) x in put_answer st ∷ run sb' calls
run sb (get taken n ∷ calls) = let (st, sb') = read_copy taken sb n in get_answer st ∷ run sb' calls

-- A queue that holds `q` gives these answers. It is left to the buffer whether a message is taken, but not
-- without the lock; with the lock, the oldest message comes out.
abbrev pub Serves : List Message → List Call → List Answer → Type 0
Serves q [] [] = Unit {0}
Serves q (put taken x ∷ calls) (put_answer WriteStatus.written ∷ rs) =
    (taken ≡ true) × Serves (q ++ (x ∷ [])) calls rs
Serves q (put taken x ∷ calls) (put_answer WriteStatus.again ∷ rs) = Serves q calls rs
Serves q (put taken x ∷ calls) (put_answer WriteStatus.fatal ∷ rs) = Serves q calls rs
Serves [] (get taken n ∷ calls) (get_answer CopyStatus.again ∷ rs) = Serves [] calls rs
Serves (x ∷ q) (get taken n ∷ calls) (get_answer CopyStatus.again ∷ rs) =
    ((taken 1 ≡ false) ⊎ (taken 0 ≡ false)) × Serves (x ∷ q) calls rs
Serves (x ∷ q) (get taken n ∷ calls) (get_answer (CopyStatus.copied y) ∷ rs) =
    (y ≡ x) × (length x ≤ n) × (n < 2 ^ 63) × Serves q calls rs
Serves (x ∷ q) (get taken n ∷ calls) (get_answer (CopyStatus.too_small k) ∷ rs) =
    (k ≡ length x) × ((n < k) ⊎ (2 ^ 63 ≤ n)) × Serves (x ∷ q) calls rs
Serves q _ _ = ⊥

-- the messages are not empty
abbrev pub Wellformed : List Call → Type 0
Wellformed [] = Unit {0}
Wellformed (put taken x ∷ calls) = (0 < length x) × (length x < 2 ^ 62) × Wellformed calls
Wellformed (get taken n ∷ calls) = Wellformed calls

put-Serves :
    (taken : Bool) (sb : SharedRing) (q : List Message) (x : Message) (calls : List Call)
    (out : WriteStatus × SharedRing)
    → Keeps sb q
    → Adds taken sb q x out
    → ((q' : List Message) → Keeps out.1 q' → Serves q' calls (run out.1 calls))
    → Serves q (put taken x ∷ calls) (put_answer out.0 ∷ run out.1 calls)
put-Serves taken sb q x calls (WriteStatus.written, sb') h a ih = (a.0, ih (q ++ (x ∷ [])) a.1)
put-Serves taken sb q x calls (WriteStatus.again, sb') h a ih = ih q (rw a h)
put-Serves taken sb q x calls (WriteStatus.fatal, sb') h a ih = ih q (rw a.0 h)
put-Serves taken sb q x calls (WriteStatus.fault, sb') h a ih = absurd a

get-Serves :
    (taken : ℕ → Bool) (q : List Message) (n : ℕ) (calls : List Call)
    (out : CopyStatus × SharedRing)
    → Takes ((taken 1 ≡ false) ⊎ (taken 0 ≡ false)) q n out
    → ((q' : List Message) → Keeps out.1 q' → Serves q' calls (run out.1 calls))
    → Serves q (get taken n ∷ calls) (get_answer out.0 ∷ run out.1 calls)
get-Serves taken [] n calls (CopyStatus.again, sb') t ih = ih [] t
get-Serves taken [] n calls (st, sb') t ih = absurd t
get-Serves taken (x ∷ q) n calls (CopyStatus.again, sb') t ih = (t.0, ih (x ∷ q) t.1)
get-Serves taken (x ∷ q) n calls (CopyStatus.copied y, sb') t ih = (t.0, t.1, t.2, ih q t.3)
get-Serves taken (x ∷ q) n calls (CopyStatus.too_small k, sb') t ih = (t.0, t.1, ih (x ∷ q) t.2)
get-Serves taken (x ∷ q) n calls (st, sb') t ih = absurd t

-- Whatever writes of messages that are not empty and have less than 2 ^ 62 bytes and whatever
-- `shmmap_buffer_read_copy` the processes call, one call at a time, and whichever of their tries for a lock are refused, a
-- buffer that holds `q` answers as the queue `q` does: the messages are read in the order of the
-- writes, each once and with the bytes that were written, and a read that gets the lock finds the oldest one.
pub run-Serves :
    (calls : List Call) (sb : SharedRing) (q : List Message)
    → Wellformed calls
    → Keeps sb q
    → Serves q calls (run sb calls)
unfolding run
run-Serves [] sb q ok h = tt
run-Serves (put taken x ∷ calls) sb q ok h =
    put-Serves taken sb q x calls _ h (write-Adds taken sb q x ok.0 ok.1 h)
      (λ q' h'. run-Serves calls _ q' ok.2 h')
run-Serves (get taken n ∷ calls) sb q ok h =
    get-Serves taken q n calls _ (read_copy-Takes taken sb q n h)
      (λ q' h'. run-Serves calls _ q' ok h')

-- A buffer that `shmmap_buffer_create` made for `filesize` bytes, up to 2 ^ 30 less a page, is empty, and the
-- processes that write and read it with calls as those of `run-Serves` are answered as by an empty queue.
pub created-Serves :
    (struct_size filesize magic : ℕ) (encipher decipher : ℕ → ℕ → ℕ) (token : Option ℕ)
    (calls : List Call)
    → 0 < filesize
    → filesize ≤ 2 ^ 30 - 4096
    → Wellformed calls
    → let sb = created struct_size encipher decipher magic filesize token in
      Keeps sb.ring [] × Serves [] calls (run sb.ring calls)
created-Serves struct_size filesize magic encipher decipher token calls pos below ok = (
  held,
  run-Serves calls (created struct_size encipher decipher magic filesize token).ring [] ok held,
)
  where
    start : At (align_pagesize filesize) 0 0 0
    start =
        let origin : 0 * align_pagesize filesize + 0 ≡ 0 = omega arith in
        rw origin at (At-intro (align_pagesize filesize) 0 0 (omega arith) (omega arith))

    held : Keeps (created struct_size encipher decipher magic filesize token).ring []
    held =
        flat
          (record {
            read_at = start;
            write_at = start;
            small = omega arith;
            len_eight = omega arith;
            r_eight = refl;
            w_eight = refl;
          })
          refl
