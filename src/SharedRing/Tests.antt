-- ===== src/SharedRing/Tests.antt =====
-- Runs of the buffer of source/common/shmmbuf.h, and its theorems at concrete inputs.
use libclogger.Prelude.{
  ℕ, ◌≡◌, refl, List, [], ◌∷◌, ◌++◌, arith, Bool, true, false, none, some, ◌==◌,
}
use libclogger.Memory.{store, load, store_word, load_word, to_bytes, from_bytes, bzero}
use libclogger.Ring.Content.{Message}
use libclogger.Ring.Holds.{flat}
use libclogger.Ring.Offsets.{At}
use libclogger.Ring.Write.{WriteStatus, choose_slot, store_entry}
use libclogger.Ring.Read.{CopyStatus}
use libclogger.SharedRing.{SharedRing, write, place, read_copy, find_entry}
use libclogger.SharedRing.Queue.{Keeps}
use libclogger.SharedRing.Fifo.{Call, put, get, put_answer, get_answer, run, Serves, run-Serves}
use libclogger.SharedRing.Create.{
  xor_bits, encipher_token, decipher_token, absent, mapped, success, created, create,
}
use libclogger.SharedRing.Reopen.{granted, opened, create-open}

-- 256 bytes, both offsets at 240: an entry of more than eight bytes goes to the front.
abbrev empty : SharedRing
empty = record { woffset = 240; roffset = 240; len = 256; buffer = λ _. 7 }

start : At 256 240 0 240
start = omega arith

empty-Keeps : Keeps empty []
empty-Keeps =
    flat
      (record {
        read_at = start;
        write_at = start;
        small = omega arith;
        len_eight = refl;
        r_eight = refl;
        w_eight = refl;
      })
      refl

abbrev warning : Message
warning = 119 ∷ 97 ∷ 114 ∷ 110 ∷ 105 ∷ 110 ∷ 103 ∷ 33 ∷ 33 ∷ []

-- The second read skips the tail, but is refused the lock when it calls itself.
abbrev calls : List Call
calls =
    put false warning
    ∷ put true warning
    ∷ get (λ n. n == 1) 64
    ∷ get (λ n. true) 4
    ∷ get (λ n. true) 64
    ∷ get (λ n. true) 64
    ∷ []

run_test :
    run empty calls
    ≡ put_answer WriteStatus.again
      ∷ put_answer WriteStatus.written
      ∷ get_answer CopyStatus.again
      ∷ get_answer (CopyStatus.too_small 9)
      ∷ get_answer (CopyStatus.copied warning)
      ∷ get_answer CopyStatus.again
      ∷ []
unfolding run write read_copy place choose_slot store_entry find_entry store load store_word
    load_word to_bytes from_bytes bzero
run_test = refl

run-Serves_example : Serves [] calls (run empty calls)
run-Serves_example = run-Serves calls empty [] (omega arith) empty-Keeps

abbrev collect : List Message → List ℕ → Bool × List Message
collect seen x = (true, seen ++ (x ∷ []))

-- The entry of `warning` stands at the front, behind a zeroed tail.
abbrev skipping : SharedRing
skipping = record empty { woffset = 280; buffer = store_entry (bzero (λ _. 7) 240 16) 0 9 warning }

xor_test : encipher_token 0x0123456789ABCDEF 12345678 ≡ 0x012345678917ACA1
unfolding encipher_token xor_bits
xor_test = refl

create-open_example :
    let sb = created 400 encipher_token decipher_token 0x0123456789ABCDEF 5000 (some 12345678) in
    let open_with = create 400 encipher_token decipher_token (granted 7) (mapped sb) 8192 in
    (create 400 encipher_token decipher_token
        (granted 0x0123456789ABCDEF)
        absent
        5000
        (some 12345678)
      ≡ (success, mapped sb))
    × (open_with (some 12345679) ≡ (opened 5000 8192 (12345679 == 12345678), mapped sb))
    × (open_with none ≡ (opened 5000 8192 false, mapped sb))
create-open_example =
    create-open 400 0x0123456789ABCDEF 12345678 5000 7 8192 12345679 (omega arith) (omega arith)
      (omega arith) (omega arith) (omega arith) (omega arith) (omega arith) (omega arith)
