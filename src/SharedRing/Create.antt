-- ===== src/SharedRing/Create.antt =====
-- `shmmap_buffer_create` of source/common/shmmbuf.h and the tokens of a buffer. What the calls of the operating
-- system return, the random magic number and the size of the structure are arguments.
use libclogger.Prelude.{
  ℕ, zero, suc, ◌+◌, ◌-◌, ◌*◌, ◌/◌, ◌%◌, ◌^◌, Bool, true, false, ◌||◌, Option, none, some, ◌==◌,
  if◌then◌else◌, not,
}
use libclogger.Ring.{align_bsize, align_pagesize, page_size}
use libclogger.SharedRing.{SharedRing}

-- `^` on numbers of `w` bits
unfoldable pub xor_bits : ℕ → ℕ → ℕ → ℕ
xor_bits zero a b = 0
xor_bits (suc w) a b = (a % 2 + b % 2) % 2 + 2 * xor_bits w (a / 2) (b / 2)

-- `shmmbuf_encipher_token`
unfoldable pub encipher_token : ℕ → ℕ → ℕ
encipher_token magic token = xor_bits 64 magic token

-- `shmmbuf_decipher_token`
unfoldable pub decipher_token : ℕ → ℕ → ℕ
decipher_token cipher token = xor_bits 64 cipher token

-- `shmmap_verify_token`, `decipher` the callback or else `decipher_token`
unfoldable pub verify_token : (ℕ → ℕ → ℕ) → ℕ → ℕ → Option ℕ → Bool
verify_token decipher cipher magic none = cipher == 0
verify_token decipher cipher magic (some token) = cipher == 0 || decipher cipher token == magic

-- `shmmap_buffer_t` less its locks and its semaphore
pub record SharedBuffer : Type 0 where
  pub shmfilesize : ℕ
  pub magic : ℕ
  pub cipher : ℕ
  pub ring : SharedRing

-- What the name stands for: nothing; an object without bytes; one with a buffer's bytes.
pub data SharedObject : Type 0 where
  absent blank : SharedObject
  mapped : SharedBuffer → SharedObject

-- `fault` stands for a read behind the end of the object, which ends the process.
pub data CreateStatus : Type 0 where
  success erropen errmmap errsize errtrunc errtoken fault : CreateStatus

-- whether `shm_open` with `O_EXCL` fails because the name is there
unfoldable pub exists : SharedObject → Bool
exists absent = false
exists blank = true
exists (mapped sb) = true

-- The bytes that the mapping of a header has behind it: none in an object without bytes.
unfoldable pub header : SharedObject → Option SharedBuffer
header absent = none
header blank = none
header (mapped sb) = some sb

-- The first read through that mapping; where there are no bytes it is a bus error.
unfoldable pub read_header : Option SharedBuffer → (SharedBuffer → CreateStatus) → CreateStatus
read_header none rest = fault
read_header (some sb) rest = rest sb

-- Whether the calls give what the code takes for success, with the random number.
pub record Outcomes : Type 0 where
  pub shm_open : Bool
  pub mmap_header : Bool
  pub ftruncate : Bool
  pub mmap : Bool
  pub random : ℕ

-- `bzero` of the whole mapping, and what `ftruncate` leaves of a new object
abbrev pub zeroed : SharedBuffer
zeroed = record {
  shmfilesize = 0;
  magic = 0;
  cipher = 0;
  ring = record { woffset = 0; roffset = 0; len = 0; buffer = λ _. 0 };
}

-- `bufferLength` for a `filesize` that is not 0
abbrev pub buffer_length : ℕ → ℕ
buffer_length filesize = align_pagesize filesize

module _ (struct_size : ℕ) (encipher decipher : ℕ → ℕ → ℕ) where
  -- `mapfilesize` for a `filesize` that is not 0
  abbrev pub map_size : ℕ → ℕ
  map_size filesize = (align_bsize struct_size page_size + buffer_length filesize) % 2 ^ 64

  abbrev pub cipher_of : ℕ → Option ℕ → ℕ
  cipher_of magic none = 0
  cipher_of magic (some token) = encipher magic token

  -- the new buffer
  abbrev pub created : ℕ → ℕ → Option ℕ → SharedBuffer
  created magic filesize token = record {
    shmfilesize = map_size filesize;
    magic = magic;
    cipher = cipher_of magic token;
    ring = record { woffset = 0; roffset = 0; len = buffer_length filesize; buffer = λ _. 0 };
  }

  -- The object was not there: `O_CREAT | O_EXCL` made it.
  unfoldable pub create_new : Outcomes → ℕ → Option ℕ → CreateStatus × SharedObject
  create_new out filesize token =
      if filesize == 0
      then (errsize, blank)
      else if map_size filesize == 0
      then (errsize, blank)
      else if not out.ftruncate
      then (errtrunc, blank)
      else if not out.mmap
      then (errmmap, mapped zeroed)
      else let sb = created out.random filesize token in
        if verify_token decipher sb.cipher sb.magic token
        then (success, mapped sb)
        else (errtoken, mapped sb)

  -- It was there, with this header; `ftruncate` sets the size that it has.
  unfoldable pub open_existing : Outcomes → SharedBuffer → ℕ → Option ℕ → CreateStatus
  open_existing out sb filesize token =
      let length = if filesize == 0 then sb.ring.len else buffer_length filesize in
      let size = if filesize == 0 then sb.shmfilesize else map_size filesize in
      if not (size == sb.shmfilesize) || not (length == sb.ring.len)
      then errsize
      else if not (verify_token decipher sb.cipher sb.magic token)
      then errtoken
      else if size == 0
      then errsize
      else if not out.ftruncate
      then errtrunc
      else if not out.mmap
      then errmmap
      else success

  -- `shmmap_buffer_create` and the object that it leaves
  unfoldable pub create : Outcomes → SharedObject → ℕ → Option ℕ → CreateStatus × SharedObject
  create out object filesize token =
      if filesize == 2 ^ 64 - 1
      then (errsize, object)
      else if not out.shm_open
      then (erropen, object)
      else if not (exists object)
      then create_new out filesize token
      else if not out.mmap_header
      then (errmmap, object)
      else (read_header (header object) (λ sb. open_existing out sb filesize token), object)
