-- ===== src/SharedRing/Token.antt =====
-- The cipher of a token in source/common/shmmbuf.h: which tokens it accepts.
use libclogger.Prelude.{
  ℕ, zero, suc, ◌+◌, ◌*◌, ◌/◌, ◌%◌, ◌^◌, ◌<◌, ◌≡◌, ◌≢◌, refl, sym, ap, ◌∙◌, inl, inr, arith, true,
  false, Bool-cases, some, ◌==◌,
}
use libclogger.SharedRing.Create.{xor_bits, encipher_token, decipher_token, verify_token}

xor_bits_cancel : (w a b : ℕ) → a < 2 ^ w → xor_bits w (xor_bits w a b) b ≡ a
unfolding xor_bits
xor_bits_cancel zero a b h = omega arith
xor_bits_cancel (suc w) a b h =
    let r = xor_bits w (a / 2) (b / 2) in
    let low : ((a % 2 + b % 2) % 2 + 2 * r) % 2 ≡ (a % 2 + b % 2) % 2 = omega arith in
    let high : ((a % 2 + b % 2) % 2 + 2 * r) / 2 ≡ r = omega arith in
    let ih : xor_bits w r (b / 2) ≡ a / 2 = xor_bits_cancel w (a / 2) (b / 2) (half h) in
    rw (low, high, ih) (omega arith)
  where
    half : a < 2 ^ suc w → a / 2 < 2 ^ w
    half h = grind arith

xor_bits_comm : (w a b : ℕ) → xor_bits w a b ≡ xor_bits w b a
unfolding xor_bits
xor_bits_comm zero a b = refl
xor_bits_comm (suc w) a b = omega (arith, xor_bits_comm w (a / 2) (b / 2))

-- Two tokens that give one magic number are one.
xor_bits_inj : (w c a b : ℕ) → a < 2 ^ w → b < 2 ^ w → xor_bits w c a ≡ xor_bits w c b → a ≡ b
xor_bits_inj w c a b h k e =
    sym (xor_bits_cancel w a c h)
    ∙ ap (λ n. xor_bits w n c) (xor_bits_comm w a c ∙ e ∙ xor_bits_comm w c b)
    ∙ xor_bits_cancel w b c k

xor_bits_self : (w a : ℕ) → xor_bits w a a ≡ 0
unfolding xor_bits
xor_bits_self zero a = refl
xor_bits_self (suc w) a = omega (arith, xor_bits_self w (a / 2))

xor_bits_lt : (w a b : ℕ) → xor_bits w a b < 2 ^ w
unfolding xor_bits
xor_bits_lt zero a b = omega arith
xor_bits_lt (suc w) a b = grind (arith, xor_bits_lt w (a / 2) (b / 2))

-- A cipher is 0 only for the token that is the magic number itself.
pub encipher_ne_zero :
    (magic token : ℕ)
    → magic < 2 ^ 64
    → token < 2 ^ 64
    → magic ≢ token
    → encipher_token magic token ≢ 0
unfolding encipher_token
encipher_ne_zero magic token h k apart e =
    apart (xor_bits_inj 64 magic magic token h k (xor_bits_self 64 magic ∙ sym e))

xor_back :
    (magic token : ℕ) → magic < 2 ^ 64 → decipher_token (encipher_token magic token) token ≡ magic
unfolding encipher_token decipher_token
xor_back magic token h = xor_bits_cancel 64 magic token h

decipher_inj :
    (cipher a b : ℕ)
    → a < 2 ^ 64
    → b < 2 ^ 64
    → decipher_token cipher a ≡ decipher_token cipher b
    → a ≡ b
unfolding decipher_token
decipher_inj cipher a b h k e = xor_bits_inj 64 cipher a b h k e

-- `shmmap_verify_token` with the cipher of a token accepts this token alone.
pub verify-token :
    (magic token token' : ℕ)
    → magic < 2 ^ 64
    → token < 2 ^ 64
    → token' < 2 ^ 64
    → magic ≢ token
    → verify_token decipher_token (encipher_token magic token) magic (some token')
      ≡ (token' == token)
unfolding verify_token
verify-token magic token token' h k k' apart =
    let cipher = encipher_token magic token in
    let enabled : cipher ≢ 0 = encipher_ne_zero magic token h k apart in
    let off : (cipher == 0) ≡ false = ground (arith, enabled) in
    rw off (elim (Bool-cases (token' == token)) [
      | inl same ↦ rw same (accepts (ground arith))
      | inr other ↦ rw other (refuses (λ e. ground (arith, e, other)))
    ])
  where
    back : decipher_token (encipher_token magic token) token ≡ magic
    back = xor_back magic token h

    accepts : token' ≡ token → (decipher_token (encipher_token magic token) token' == magic) ≡ true
    accepts e = rw (e, back) (ground arith)

    refuses : token' ≢ token → (decipher_token (encipher_token magic token) token' == magic) ≡ false
    refuses apart' =
        let differ : decipher_token (encipher_token magic token) token' ≢ magic = λ e.
          apart' (decipher_inj (encipher_token magic token) token' token k' k (e ∙ sym back)) in
        ground (arith, differ)
