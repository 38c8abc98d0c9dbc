-- ===== src/Logger/Options.antt =====
-- The words of a configuration in source/clogger/clogger.c, and the functions of source/common/cstrbuf.h
-- that read them; strings are given with their lengths and are not NULL.
use libclogger.Prelude.{
  ℕ, zero, suc, ◌+◌, ◌-◌, Bool, true, false, ◌&&◌, Option, none, some, List, [], ◌∷◌, length, ltb,
  leb, ◌==◌, if◌then◌else◌,
}
use libclogger.RollingFile.Names.{starts_with, ends_with, contain_with}
use libclogger.Logger.{lower}

pub data Compared : Type 0 where
  less equal greater : Compared

-- `strncmp` or `strncasecmp` on two strings of one length, each byte seen through `fold`
unfoldable pub compare_bytes : (ℕ → ℕ) → List ℕ → List ℕ → Compared
compare_bytes fold [] ys = equal
compare_bytes fold (x ∷ xs) [] = equal
compare_bytes fold (x ∷ xs) (y ∷ ys) =
    let rest = compare_bytes fold xs ys in
    if ltb (fold x) (fold y) then less else if ltb (fold y) (fold x) then greater else rest

-- `cstr_compare_len`: a shorter string is less.
unfoldable pub compare_len : List ℕ → List ℕ → Bool → Compared
unfolding compare_bytes
compare_len a b caseignore =
    if ltb (length b) (length a)
    then greater
    else if ltb (length a) (length b)
    then less
    else if caseignore
    then compare_bytes lower a b
    else compare_bytes (λ c. c) a b

abbrev pub is_equal : Compared → Bool
is_equal less = false
is_equal equal = true
is_equal greater = false

-- the first word that equals the string, the case ignored, with its value
unfoldable pub find_word : List ℕ → List (List ℕ × ℕ) → Option ℕ
unfolding compare_len
find_word str [] = none
find_word str ((word, value) ∷ words) =
    let later = find_word str words in
    if is_equal (compare_len str word true) then some value else later

-- `clog_layout_from_string`: the layout if it returned 1
unfoldable pub layout_from_string : List ℕ → Option ℕ
unfolding find_word
layout_from_string str =
    find_word str
      ((b'P' ∷ b'L' ∷ b'A' ∷ b'I' ∷ b'N' ∷ [], 0) ∷ (b'D' ∷ b'A' ∷ b'T' ∷ b'E' ∷ b'D' ∷ [], 1) ∷ [])

-- the words of `clog_dateformat_from_string` in its order
abbrev pub dateformats : List (List ℕ × ℕ)
dateformats =
    (b'U' ∷ b'T' ∷ b'C' ∷ [], 3)
    ∷ (b'U' ∷ b'N' ∷ b'I' ∷ b'V' ∷ b'E' ∷ b'R' ∷ b'S' ∷ b'A' ∷ b'L' ∷ [], 3)
    ∷ (b'N' ∷ b'U' ∷ b'M' ∷ b'E' ∷ b'R' ∷ b'I' ∷ b'C' ∷ b'-' ∷ b'1' ∷ [], 5)
    ∷ (b'N' ∷ b'U' ∷ b'M' ∷ b'E' ∷ b'R' ∷ b'I' ∷ b'C' ∷ [], 5)
    ∷ (b'N' ∷ b'U' ∷ b'M' ∷ b'E' ∷ b'R' ∷ b'I' ∷ b'C' ∷ b'-' ∷ b'2' ∷ [], 4)
    ∷ (b'R' ∷ b'F' ∷ b'C' ∷ b'-' ∷ b'3' ∷ b'3' ∷ b'3' ∷ b'9' ∷ [], 0)
    ∷ (b'D' ∷ b'E' ∷ b'F' ∷ b'A' ∷ b'U' ∷ b'L' ∷ b'T' ∷ [], 0)
    ∷ (b'I' ∷ b'S' ∷ b'O' ∷ b'-' ∷ b'8' ∷ b'6' ∷ b'0' ∷ b'1' ∷ [], 1)
    ∷ (b'R' ∷ b'F' ∷ b'C' ∷ b'-' ∷ b'2' ∷ b'8' ∷ b'2' ∷ b'2' ∷ [], 2)
    ∷ []

unfoldable pub dateformat_from_string : List ℕ → Option ℕ
unfolding find_word
dateformat_from_string str = find_word str dateformats

-- `cstr_toupper` and `cstr_tolower`: at most `num` bytes, and none from a 0 on
unfoldable pub fold_bytes : (ℕ → ℕ) → ℕ → List ℕ → List ℕ
fold_bytes fold zero s = s
fold_bytes fold (suc num) [] = []
fold_bytes fold (suc num) (c ∷ s) =
    let rest = fold_bytes fold num s in if c == 0 then c ∷ s else fold c ∷ rest

abbrev pub upper : ℕ → ℕ
upper c = if leb 97 c && leb c 122 then c - 32 else c

abbrev pub toupper : List ℕ → ℕ → List ℕ
toupper s num = fold_bytes upper num s

abbrev pub tolower : List ℕ → ℕ → List ℕ
tolower s num = fold_bytes lower num s

-- the bit of an appender that is named
abbrev pub appender_bit : Option ℕ → ℕ → ℕ
appender_bit none bit = 0
appender_bit (some at) bit = bit

-- `clog_appender_from_string`: the appenders if it returned 1; their bits are different, so that the
-- sum is their union.
unfoldable pub appender_from_string : List ℕ → Option ℕ
unfolding contain_with fold_bytes
appender_from_string str =
    let s = toupper str (length str) in
    let appenders =
      appender_bit (contain_with s (b'S' ∷ b'T' ∷ b'D' ∷ b'O' ∷ b'U' ∷ b'T' ∷ [])) 1
      + appender_bit (contain_with s (b'R' ∷ b'O' ∷ b'F' ∷ b'I' ∷ b'L' ∷ b'E' ∷ [])) 4
      + appender_bit (contain_with s (b'S' ∷ b'Y' ∷ b'S' ∷ b'L' ∷ b'O' ∷ b'G' ∷ [])) 2
      + appender_bit (contain_with s (b'S' ∷ b'H' ∷ b'M' ∷ b'L' ∷ b'O' ∷ b'G' ∷ [])) 8 in
    if appenders == 0 then none else some appenders

-- The loops of the next two functions run from the last string to the first.
abbrev pub or_first : Option ℕ → Bool → Option ℕ
or_first none true = some 0
or_first none false = none
or_first (some i) here = some (suc i)

-- `cstr_startwith_mul`: none for -1; no entry is NULL
unfoldable pub startwith_mul : List ℕ → List (List ℕ) → Option ℕ
unfolding starts_with
startwith_mul str [] = none
startwith_mul str (s ∷ starts) = or_first (startwith_mul str starts) (starts_with str s)

unfoldable pub endwith_mul : List ℕ → List (List ℕ) → Option ℕ
unfolding ends_with
endwith_mul str [] = none
endwith_mul str (s ∷ ends) = or_first (endwith_mul str ends) (ends_with str s)

-- `cstr_isdigit`
unfoldable pub isdigit : List ℕ → Bool
isdigit [] = true
isdigit (c ∷ str) = isdigit str && (leb 48 c && leb c 57)
