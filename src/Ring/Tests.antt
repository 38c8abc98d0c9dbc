-- ===== src/Ring/Tests.antt =====
-- Runs of the ring of source/common/ringbufst.h, and its theorems at concrete inputs.
use libclogger.Prelude.{ℕ, ◌≡◌, refl, ◌⊎◌, List, [], ◌∷◌, ◌++◌, arith, Bool, true, none, some}
use libclogger.Memory.{store, load, store_word, load_word, to_bytes, from_bytes, bzero}
use libclogger.Ring.{Ring, init}
use libclogger.Ring.Offsets.{At}
use libclogger.Ring.Content.{Message}
use libclogger.Ring.Holds.{Holds, flat}
use libclogger.Ring.Write.{WriteStatus, write, place, choose_slot, store_entry}
use libclogger.Ring.Read.{CopyStatus, ReadStatus, read_copy, read_next, find_entry}
use libclogger.Ring.Enqueue.{Appends, write-Appends}
use libclogger.Ring.Capacity.{write-written}
use libclogger.Ring.ReadCopy.{Copies, read_copy-Copies}
use libclogger.Ring.ReadNext.{Delivers, read_next-Delivers, read_next_twice}
use libclogger.Ring.Fifo.{
  Op, put, get, put_reply, get_reply, run, Fifo, init-Holds, run-Fifo, Unlocked,
}

-- 256 bytes, both offsets at 240: an entry of more than eight bytes goes to the front.
abbrev pub empty : Ring
empty = record { rlock = 0; wlock = 0; woffset = 240; roffset = 240; len = 256; buffer = λ _. 7 }

start : At 256 240 0 240
start = omega arith

pub empty-Holds : Holds empty []
empty-Holds =
    flat
      (record {
        read_at = start;
        write_at = start;
        small = omega arith;
        len_eight = refl;
        r_eight = refl;
        w_eight = refl;
      })
      refl

abbrev pub hello : Message
hello = 104 ∷ 101 ∷ 108 ∷ 108 ∷ 111 ∷ 32 ∷ 108 ∷ 111 ∷ 103 ∷ 115 ∷ []

-- The entry of `hello` stands at the front, behind a zeroed tail.
abbrev pub skipping : Ring
skipping = record empty { woffset = 280; buffer = store_entry (bzero (λ _. 7) 240 16) 0 10 hello }

write_front : write empty 10 hello ≡ (WriteStatus.written, skipping)
unfolding write place choose_slot
write_front = refl

init_limits : (init 131072 32640 ≡ none)
unfolding init
init_limits = refl

abbrev calls : List Op
calls = get 16 ∷ put hello ∷ put (1 ∷ []) ∷ get 1 ∷ get 10 ∷ get 9 ∷ get 9 ∷ []

run_test :
    run empty calls
    ≡ get_reply CopyStatus.again
      ∷ put_reply WriteStatus.written
      ∷ put_reply WriteStatus.written
      ∷ get_reply (CopyStatus.too_small 10)
      ∷ get_reply (CopyStatus.copied hello)
      ∷ get_reply (CopyStatus.copied (1 ∷ []))
      ∷ get_reply CopyStatus.again
      ∷ []
unfolding run write read_copy place choose_slot store_entry find_entry store load store_word
    load_word to_bytes from_bytes bzero
run_test = refl

-- A callback that takes every message, with the list of those that it was given.
abbrev collect : List Message → List ℕ → Bool × List Message
collect seen x = (true, seen ++ (x ∷ []))

pub skipping-Holds : Holds skipping (hello ∷ [])
unfolding write place choose_slot
skipping-Holds = write-Appends empty [] hello refl (omega arith) (omega arith) empty-Holds

write-Appends_example : Appends empty [] hello (write empty 10 hello)
write-Appends_example = write-Appends empty [] hello refl (omega arith) (omega arith) empty-Holds

read_copy-Copies_example : Copies (hello ∷ []) 16 (read_copy skipping 16)
read_copy-Copies_example = read_copy-Copies skipping (hello ∷ []) 16 refl skipping-Holds

read_next-Delivers_example :
    Delivers collect skipping (hello ∷ []) [] (read_next collect skipping [])
read_next-Delivers_example = read_next-Delivers collect skipping (hello ∷ []) [] refl skipping-Holds

read_next_twice_example :
    let (st, rb', t) = read_next collect skipping [] in
    (st ≡ ReadStatus.done)
    ⊎ ((st ≡ ReadStatus.again) × (t ≡ []) × ((read_next collect rb' t).0 ≡ ReadStatus.done))
read_next_twice_example =
    read_next_twice collect skipping hello [] [] (hello ∷ []) refl skipping-Holds refl

write-written_example : (write skipping 10 hello).0 ≡ WriteStatus.written
write-written_example =
    write-written skipping (hello ∷ []) hello refl (omega arith) skipping-Holds (omega arith)
      (omega arith)

init-Holds_example : (rb : Ring) × (init 512 4000 ≡ some rb) × Holds rb [] × Unlocked rb
init-Holds_example = init-Holds 512 4000 (omega arith) (omega arith) (omega arith)

run-Fifo_example : Fifo [] calls (run empty calls)
run-Fifo_example = run-Fifo calls empty [] (omega arith) (refl, refl) empty-Holds
