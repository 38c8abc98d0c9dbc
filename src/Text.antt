-- ===== src/Text.antt =====
-- source/common/cstrbuf.h: trimming, searching, splitting and replacing in strings. A string is the list of
-- its bytes in front of the NUL; `isspace`, `isdigit` and `strstr` of the C library are arguments.
pub mod Trim
pub mod Find
pub mod Split
pub mod Numeric
pub mod Replace
mod Tests
use mathlib.Core.Option
use libclogger.Prelude.{
  ℕ, zero, suc, ◌+◌, ◌-◌, ◌*◌, ◌%◌, ◌^◌, Bool, true, false, not, ◌&&◌, ◌||◌, Option, none, some,
  List, [], ◌∷◌, ◌++◌, length, take, drop, ltb, leb, ◌==◌, if◌then◌else◌,
}

-- `str[i]`, the NUL behind the end
unfoldable pub byte_at : List ℕ → ℕ → ℕ
byte_at [] i = 0
byte_at (c ∷ str) zero = c
byte_at (c ∷ str) (suc i) = byte_at str i

-- with a number that may be missing: the place that a search found, or a length
unfoldable pub on_place : {B : Type 0} → B → (ℕ → B) → Option ℕ → B
on_place absent present none = absent
on_place absent present (some patloc) = present patloc

-- `cstr_trim_chr`
unfoldable pub trim_chr : List ℕ → ℕ → List ℕ
trim_chr [] c = []
trim_chr (b ∷ str) c = let rest = trim_chr str c in if b == c then rest else b ∷ rest

-- `cstr_trim_chrs`, from the last of the characters on
unfoldable pub trim_chrs : List ℕ → List ℕ → List ℕ
trim_chrs str [] = str
trim_chrs str (c ∷ chrs) = trim_chr (trim_chrs str chrs) c

-- `cstr_Ltrim_chr`
unfoldable pub ltrim_chr : List ℕ → ℕ → List ℕ
ltrim_chr [] ch = []
ltrim_chr (b ∷ str) ch = let rest = ltrim_chr str ch in if b == ch then rest else b ∷ str

-- the loop of `cstr_Rtrim_chr` at the place `p`: the place of the last other character, or `q`
unfoldable pub last_other : List ℕ → ℕ → ℕ → ℕ → ℕ
last_other [] ch p q = q
last_other (b ∷ str) ch p q = last_other str ch (p + 1) (if b == ch then q else p)

-- `cstr_Rtrim_chr`: the string and the length that it writes
unfoldable pub rtrim_chr : List ℕ → ℕ → List ℕ × ℕ
rtrim_chr str ch =
    let q = last_other str ch 0 0 + 1 in if leb q (length str) then (take q str, q) else (str, 0)

-- `cstr_LRtrim_chr`
unfoldable pub lrtrim_chr : List ℕ → ℕ → List ℕ × ℕ
lrtrim_chr str ch = rtrim_chr (ltrim_chr str ch) ch

-- whether one of the characters is the byte
unfoldable pub any_chr : List ℕ → ℕ → Bool
any_chr [] b = false
any_chr (c ∷ chrs) b = c == b || any_chr chrs b

-- the loop of `cstr_find_chrs` at the place `p`, with `len` places left
unfoldable pub find_from : List ℕ → ℕ → List ℕ → ℕ → Option ℕ
find_from [] len chrs p = none
find_from (b ∷ str) zero chrs p = none
find_from (b ∷ str) (suc len) chrs p =
    let later = find_from str len chrs (p + 1) in if any_chr chrs b then some p else later

-- `cstr_find_chrs`, and `cstr_Lfind_chr`, which has one character: the place, none for NULL
unfoldable pub find_chrs : List ℕ → ℕ → List ℕ → Option ℕ
find_chrs str len chrs = find_from str len chrs 0

unfoldable pub lfind_chr : List ℕ → ℕ → ℕ → Option ℕ
lfind_chr str len c = find_from str len (c ∷ []) 0

-- `cstr_Rfind_chr`
unfoldable pub rfind_chr : List ℕ → ℕ → ℕ → Option ℕ
rfind_chr str zero c = none
rfind_chr str (suc len) c =
    let before = rfind_chr str len c in if byte_at str len == c then some len else before

-- `cstr_replace_chr`
unfoldable pub replace_chr : List ℕ → ℕ → ℕ → List ℕ
replace_chr [] ch rpl = []
replace_chr (b ∷ str) ch rpl = (if b == ch then rpl else b) ∷ replace_chr str ch rpl

module _ (isspace : ℕ → Bool) where
  -- `cstr_Ltrim_whitespace`; the NUL is no white space
  unfoldable pub ltrim_whitespace : List ℕ → List ℕ
  ltrim_whitespace [] = []
  ltrim_whitespace (b ∷ str) =
      let rest = ltrim_whitespace str in if isspace b then rest else b ∷ str

  -- `cstr_Rtrim_whitespace`: the string and the length
  unfoldable pub rtrim_whitespace : List ℕ → ℕ → List ℕ × ℕ
  rtrim_whitespace str zero = (str, 0)
  rtrim_whitespace str (suc len) =
      let shorter = rtrim_whitespace (take len str) len in
      if isspace (byte_at str len) then shorter else (str, suc len)

  -- `cstr_LRtrim_whitespace`
  unfoldable pub lrtrim_whitespace : List ℕ → List ℕ
  lrtrim_whitespace str = let p = ltrim_whitespace str in (rtrim_whitespace p (length p)).0

  -- the first loop of `cstr_shrink_whitespace`, with `n` places left in front of the last
  unfoldable pub skip_left : List ℕ → ℕ → ℕ → ℕ
  skip_left str zero s = s
  skip_left str (suc n) s =
      let later = skip_left str n (s + 1) in if isspace (byte_at str s) then later else s

  -- the second loop: where the text ends that starts at `start` and has `n` places
  unfoldable pub skip_right : List ℕ → ℕ → ℕ → ℕ
  skip_right str zero start = start
  skip_right str (suc n) start =
      let earlier = skip_right str n start in
      if isspace (byte_at str (start + n)) then earlier else start + suc n

  -- `cstr_shrink_whitespace`, where `start ≤ end`: the new start, the place behind the new end, and
  -- the length that is returned
  unfoldable pub shrink_whitespace : List ℕ → ℕ → ℕ → ℕ × ℕ × ℕ
  shrink_whitespace str start end =
      let s = skip_left str (end - start) start in
      let stop = skip_right str (end + 1 - s) s in (s, stop, stop - s)

-- the sign that `cstr_isnumeric` skips
unfoldable pub skip_sign : List ℕ → List ℕ
skip_sign [] = []
skip_sign (c ∷ str) = if c == b'+' || c == b'-' then str else c ∷ str

-- its loop, with the dots that were seen
unfoldable pub numeric_loop : (ℕ → Bool) → ℕ → List ℕ → Bool
numeric_loop isdigit dots [] = true
numeric_loop isdigit dots (c ∷ str) =
    let next = numeric_loop isdigit dots str in
    let behind_dot = numeric_loop isdigit (dots + 1) str in
    if isdigit c
    then next
    else if c == b'.'
    then if ltb 1 (dots + 1) then false else behind_dot
    else false

-- `cstr_isnumeric`; `len` is none for -1
unfoldable pub isnumeric : (ℕ → Bool) → (ℕ → Bool) → List ℕ → Option ℕ → Bool
isnumeric isspace isdigit numeric len =
    let trimmed = lrtrim_whitespace isspace numeric in
    let str = on_place trimmed (λ n. take n trimmed) len in
    if ltb (length str) 1 || ltb 40 (length str)
    then false
    else numeric_loop isdigit 0 (skip_sign str)

-- the last piece of `cstr_slpit_chr_nodup`, if the byte at its start is not the NUL
unfoldable pub last_piece : List ℕ → List ℕ → List (List ℕ)
last_piece piece rest = if byte_at (piece ++ rest) 0 == 0 then [] else piece ∷ []

-- its loop, with room for more pieces, the piece that is begun, and the rest of the string
unfoldable pub split_from : ℕ → ℕ → List ℕ → List ℕ → List (List ℕ)
split_from delim zero piece rest = last_piece piece rest
split_from delim (suc room) piece [] = last_piece piece []
split_from delim (suc room) piece (b ∷ rest) =
    let cut = split_from delim room [] rest in
    let longer = split_from delim (suc room) (piece ++ b ∷ []) rest in
    if b == delim then piece ∷ cut else longer

-- `cstr_slpit_chr_nodup` of the whole string: the texts of the pieces
unfoldable pub split_chr : List ℕ → ℕ → ℕ → List (List ℕ)
split_chr str delim maxoutnum = split_from delim maxoutnum [] str

module _ (strstr : List ℕ → List ℕ → Option ℕ) (pattern replacement : List ℕ) where
  -- the first loop of `cstr_replace_new`, none without fuel
  unfoldable pub count_pattern : ℕ → List ℕ → Option ℕ
  count_pattern zero oriptr = none
  count_pattern (suc fuel) oriptr =
      on_place (some 0)
        (λ patloc. Option.map suc (count_pattern fuel (drop (patloc + length pattern) oriptr)))
        (strstr oriptr pattern)

  -- the second loop and the copy of the rest
  unfoldable pub copy_replaced : ℕ → List ℕ → Option (List ℕ)
  copy_replaced zero oriptr = none
  copy_replaced (suc fuel) oriptr =
      on_place (some oriptr)
        (λ patloc.
          Option.map (λ rest. take patloc oriptr ++ replacement ++ rest)
            (copy_replaced fuel (drop (patloc + length pattern) oriptr)))
        (strstr oriptr pattern)

  -- the length of the new string, a `size_t`
  unfoldable pub replaced_length : ℕ → ℕ → ℕ
  replaced_length orilen patcnt =
      (orilen + patcnt * ((length replacement + 2 ^ 64 - length pattern) % 2 ^ 64)) % 2 ^ 64

  -- `cstr_replace_new`: the new string, none if there is no pattern in it, and the length that is
  -- allocated, which the code returns cast to an `int`
  unfoldable pub replace_new : ℕ → List ℕ → Option (Option (List ℕ) × ℕ)
  replace_new fuel original =
      on_place none
        (λ patcnt.
          if patcnt == 0
          then some (none, 0)
          else Option.map (λ result. (some result, replaced_length (length original) patcnt))
              (copy_replaced fuel original))
        (count_pattern fuel original)
