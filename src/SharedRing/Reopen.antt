-- ===== src/SharedRing/Reopen.antt =====
-- The processes that open a buffer of source/common/shmmbuf.h after the one that created it.
use libclogger.Prelude.{
  ℕ, ◌-◌, ◌^◌, ◌<◌, ◌≡◌, ◌≢◌, refl, Bool, Bool-cases, inl, inr, ◌||◌, arith, true, false, Option,
  none, some, ◌==◌, if◌then◌else◌,
}
use libclogger.SharedRing.Token.{encipher_ne_zero, verify-token}
use libclogger.SharedRing.Create.{
  encipher_token, decipher_token, verify_token, SharedBuffer, absent, mapped, success, errsize,
  errtoken, Outcomes, CreateStatus, buffer_length, exists, header, read_header, map_size, created,
  create_new, open_existing, create,
}

-- every call of the operating system succeeds
abbrev pub granted : ℕ → Outcomes
granted random = record {
  shm_open = true;
  mmap_header = true;
  ftruncate = true;
  mmap = true;
  random = random;
}

-- Whether a call with the size `size'` finds the sizes of a buffer made with `size`: none is asked for, or
-- one of as many pages.
abbrev pub covers : ℕ → ℕ → Bool
covers size size' = size' == 0 || buffer_length size' == buffer_length size

-- what a call that opens the buffer returns
abbrev pub opened : ℕ → ℕ → Bool → CreateStatus
opened size size' verified =
    if covers size size' then if verified then success else errtoken else errsize

without_token :
    (magic token : ℕ)
    → magic < 2 ^ 64
    → token < 2 ^ 64
    → magic ≢ token
    → verify_token decipher_token (encipher_token magic token) magic none ≡ false
unfolding verify_token
without_token magic token h k apart =
    let enabled : encipher_token magic token ≢ 0 = encipher_ne_zero magic token h k apart in
    ground (arith, enabled)

module _ (struct_size magic token : ℕ) (size : ℕ) where
  abbrev Token : Type 0
  Token = (magic < 2 ^ 64) × (token < 2 ^ 64) × (magic ≢ token)

  abbrev sb : SharedBuffer
  sb = created struct_size encipher_token decipher_token magic size (some token)

  new_buffer :
      0 < size
      → size < 2 ^ 64 - 1
      → 0 < map_size struct_size encipher_token decipher_token size
      → Token
      → create struct_size encipher_token decipher_token (granted magic) absent size (some token)
        ≡ (success, mapped sb)
  unfolding create create_new exists
  new_buffer pos below room ok =
      let valid : (size == 2 ^ 64 - 1) ≡ false = ground arith in
      let given : (size == 0) ≡ false = ground arith in
      let fits : (map_size struct_size encipher_token decipher_token size == 0) ≡ false =
        ground (arith, room) in
      let own : (token == token) ≡ true = ground arith in
      rw (valid, given, fits, verify-token magic token token ok.0 ok.1 ok.1 ok.2, own) refl

  -- a later call with a token or without, and with any size
  open_buffer :
      (other size' : ℕ) (token' : Option ℕ)
      → size < 2 ^ 64 - 1
      → size' < 2 ^ 64 - 1
      → 0 < map_size struct_size encipher_token decipher_token size
      → create struct_size encipher_token decipher_token (granted other) (mapped sb) size' token'
        ≡ (
          opened size size' (verify_token decipher_token (encipher_token magic token) magic token'),
          mapped sb,
        )
  unfolding create open_existing exists header read_header
  open_buffer other size' token' below below' room =
      let n = map_size struct_size encipher_token decipher_token size in
      let valid : (size' == 2 ^ 64 - 1) ≡ false = ground arith in
      let fits : (n == 0) ≡ false = ground (arith, room) in
      elim (Bool-cases (size' == 0)) [
        | inl none_given ↦ rw (valid, none_given) (ground (arith, fits))
        | inr given ↦ elim (Bool-cases (buffer_length size' == buffer_length size)) [
          | inl same ↦
              let equal : buffer_length size' ≡ buffer_length size = ground arith in
              rw (valid, given, equal) (ground (arith, fits))
          | inr differ ↦ rw (valid, given, differ) (ground (arith, fits))
        ]
      ]

-- `shmmap_buffer_create` with a size, a token and the library's own callbacks, where no object has the name and every
-- call of the operating system succeeds: it makes the buffer. A later call, whose calls succeed too,
-- returns SHMMBUF_CREATE_ERRSIZE unless its size is 0 or has as many pages; if it is, it opens the buffer
-- if its token is the same, and else returns SHMMBUF_CREATE_ERRTOKEN, as it does without a token. The buffer
-- stays. Magic number and tokens have 64 bits, the sizes are below the invalid one, the length of the mapping
-- does not wrap to 0, and the random magic number is not the token: the cipher of such a token is 0,
-- which turns the test off.
pub create-open :
    (struct_size magic token size other size' token' : ℕ)
    → 0 < size
    → size < 2 ^ 64 - 1
    → size' < 2 ^ 64 - 1
    → 0 < map_size struct_size encipher_token decipher_token size
    → magic < 2 ^ 64
    → token < 2 ^ 64
    → token' < 2 ^ 64
    → magic ≢ token
    → let sb = created struct_size encipher_token decipher_token magic size (some token) in
      let open_with =
        create struct_size encipher_token decipher_token (granted other) (mapped sb) size' in
      (create struct_size encipher_token decipher_token (granted magic) absent size (some token)
        ≡ (success, mapped sb))
      × (open_with (some token') ≡ (opened size size' (token' == token), mapped sb))
      × (open_with none ≡ (opened size size' false, mapped sb))
create-open struct_size magic token size other size' token' pos below below' room h k k' apart = (
  new_buffer struct_size magic token size pos below room (h, k, apart),
  rw (verify-token magic token token' h k k' apart) at
      (open_buffer struct_size magic token size other size' (some token') below below' room),
  rw refused at (open_buffer struct_size magic token size other size' none below below' room),
)
  where
    refused : verify_token decipher_token (encipher_token magic token) magic none ≡ false
    refused = without_token magic token h k apart
