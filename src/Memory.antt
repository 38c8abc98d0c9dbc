-- ===== src/Memory.antt =====
-- Byte-addressed memory, as the C code sees a `char[]`, and the `size_t` words stored in it.
-- A word is eight bytes, the lowest first, as on the machines that the build files name.
use libclogger.Prelude.{
  ℕ, zero, suc, ◌+◌, ◌*◌, ◌/◌, ◌%◌, ◌^◌, ◌≤◌, ◌<◌, ◌≡◌, refl, ap₂, ◌⊎◌, List, [], ◌∷◌, arith,
  length, replicate, length-replicate, ap, ◌==◌, if◌then◌else◌,
}

abbrev pub Mem : Type 0
Mem = ℕ → ℕ

abbrev update : Mem → ℕ → ℕ → Mem
update m a b i = if i == a then b else m i

-- `memcpy` into the memory, byte after byte
unfoldable pub store : Mem → ℕ → List ℕ → Mem
store m a [] = m
store m a (b ∷ bs) = store (update m a b) (a + 1) bs

-- `memcpy` out of the memory
unfoldable pub load : Mem → ℕ → ℕ → List ℕ
load m a zero = []
load m a (suc n) = m a ∷ load m (a + 1) n

-- A store leaves the bytes outside of its range alone.
pub store-outside :
    (m : Mem) (a : ℕ) (bs : List ℕ) (i : ℕ) → (i < a) ⊎ (a + length bs ≤ i) → store m a bs i ≡ m i
unfolding store
store-outside m a [] i h = refl
store-outside m a (b ∷ bs) i h = ground (arith, store-outside (update m a b) (a + 1) bs i)

pub load-congr :
    (m m' : Mem) (a n : ℕ) → ((i : ℕ) → a ≤ i → i < a + n → m i ≡ m' i) → load m a n ≡ load m' a n
unfolding load
load-congr m m' a zero h = refl
load-congr m m' a (suc n) h =
    ap₂ ◌∷◌ (h a (omega arith) (omega arith))
      (load-congr m m' (a + 1) n (λ i p q. h i (omega arith) (omega arith)))

-- What is stored is what is loaded.
pub load-store : (m : Mem) (a : ℕ) (bs : List ℕ) → load (store m a bs) a (length bs) ≡ bs
unfolding load store
load-store m a [] = refl
load-store m a (b ∷ bs) =
    ap₂ ◌∷◌ (ground (arith, store-outside (update m a b) (a + 1) bs a))
      (load-store (update m a b) (a + 1) bs)

-- `n` as `k` bytes, the lowest first
unfoldable pub to_bytes : ℕ → ℕ → List ℕ
to_bytes zero n = []
to_bytes (suc k) n = n % 256 ∷ to_bytes k (n / 256)

unfoldable pub from_bytes : List ℕ → ℕ
from_bytes [] = 0
from_bytes (b ∷ bs) = b + 256 * from_bytes bs

length-to_bytes : (k n : ℕ) → length (to_bytes k n) ≡ k
unfolding to_bytes
length-to_bytes zero n = refl
length-to_bytes (suc k) n = omega (arith, length-to_bytes k (n / 256))

from_bytes-to_bytes : (n : ℕ) → n < 2 ^ 64 → from_bytes (to_bytes 8 n) ≡ n
unfolding from_bytes to_bytes
from_bytes-to_bytes n h = omega arith

-- The two memories agree from `a` up to `b`.
abbrev pub Agree : Mem → Mem → ℕ → ℕ → Type 0
Agree m m' a b = (i : ℕ) → a ≤ i → i < b → m i ≡ m' i

store-replicate : (m : Mem) (a n b i : ℕ) → a ≤ i → i < a + n → store m a (replicate n b) i ≡ b
unfolding store
store-replicate m a zero b i h k = absurd (omega arith)
store-replicate m a (suc n) b i h k = ground (
  arith,
  store-replicate (update m a b) (a + 1) n b i,
  store-outside (update m a b) (a + 1) (replicate n b) i,
)

-- a `size_t` field at address `a`
unfoldable pub load_word : Mem → ℕ → ℕ
load_word m a = from_bytes (load m a 8)

unfoldable pub store_word : Mem → ℕ → ℕ → Mem
store_word m a n = store m a (to_bytes 8 n)

-- `bzero(&m[a], n)`
unfoldable pub bzero : Mem → ℕ → ℕ → Mem
bzero m a n = store m a (replicate n 0)

pub load_word-congr : (m m' : Mem) (a : ℕ) → Agree m m' a (a + 8) → load_word m a ≡ load_word m' a
unfolding load_word
load_word-congr m m' a h = ap from_bytes (load-congr m m' a 8 h)

pub store_word-outside : (m : Mem) (a n i : ℕ) → (i < a) ⊎ (a + 8 ≤ i) → store_word m a n i ≡ m i
unfolding store_word
store_word-outside m a n i h =
    store-outside m a (to_bytes 8 n) i (omega (arith, length-to_bytes 8 n))

pub load_word-store_word : (m : Mem) (a n : ℕ) → n < 2 ^ 64 → load_word (store_word m a n) a ≡ n
unfolding load_word store_word
load_word-store_word m a n h =
    let bytes = to_bytes 8 n in
    let back : load (store m a bytes) a 8 ≡ bytes =
      rw (length-to_bytes 8 n) at (load-store m a bytes) in
    rw back (from_bytes-to_bytes n h)

pub bzero-outside : (m : Mem) (a n i : ℕ) → (i < a) ⊎ (a + n ≤ i) → bzero m a n i ≡ m i
unfolding bzero
bzero-outside m a n i h = store-outside m a (replicate n 0) i (rw length-replicate h)

zeros : (a : ℕ) → from_bytes (load (λ _. 0) a 8) ≡ 0
unfolding from_bytes load
zeros a = refl

-- A zeroed range reads as the size 0.
pub load_word-bzero : (m : Mem) (a n : ℕ) → 8 ≤ n → load_word (bzero m a n) a ≡ 0
unfolding load_word bzero
load_word-bzero m a n h =
    rw
      (load-congr (store m a (replicate n 0)) (λ _. 0) a 8
        (λ i p q. store-replicate m a n 0 i p (omega arith)))
      (zeros a)
