-- ===== src/Readconf.antt =====
-- source/common/readconf.c: reading a configuration file line by line, and looking up a key in it. A file is
-- the list of bytes that are still to be read; `fails` says that the read behind them is an error and
-- not the end of the file.
pub mod Lines
pub mod Lookup
pub mod Outcomes
pub mod Copy
pub mod Ends
pub mod ReadValue
mod Tests
use mathlib.Core.Option
use libclogger.Prelude.{
  ℕ, zero, suc, ◌+◌, ◌-◌, Bool, true, false, ◌&&◌, ◌||◌, Option, none, some, List, [], ◌∷◌, ◌++◌,
  length, take, drop, ltb, leb, ◌==◌, if◌then◌else◌,
}
use libclogger.Text.{byte_at}

-- `READCONF_LINESIZE_MAX` and `READCONF_SECNAME_MAX`
abbrev pub linesize_max : ℕ
linesize_max = 4096

abbrev pub secname_max : ℕ
secname_max = 60

-- `ltrim`
unfoldable pub ltrim : List ℕ → ℕ → List ℕ
ltrim [] c = []
ltrim (b ∷ str) c = let rest = ltrim str c in if b == c then rest else b ∷ str

-- the loop of `rtrim` at the place `p`: the place behind the last other byte, or `q`
unfoldable pub behind_last : List ℕ → ℕ → ℕ → ℕ → ℕ
behind_last [] c p q = q
behind_last (b ∷ str) c p q = behind_last str c (p + 1) (if b == c then q else p + 1)

-- `rtrim`, which keeps a string that is all of the byte
unfoldable pub rtrim : List ℕ → ℕ → List ℕ
rtrim str c = let q = behind_last str c 0 0 in if q == 0 then str else take q str

-- `dtrim`
unfoldable pub dtrim : List ℕ → ℕ → List ℕ
unfolding ltrim rtrim
dtrim str c = rtrim (ltrim str c) c

-- What `readln` returns: a line and what is left of the file, or -1, -2 and -3.
pub data Line : Type 0 where
  line : List ℕ → List ℕ → Line
  end_file failed : Line
  too_long : List ℕ → Line

-- the loop of `readln` with room for more bytes, whether a byte was read, and the text so far
unfoldable pub read_from : Bool → ℕ → Bool → List ℕ → List ℕ → Line
read_from fails zero any_read text bytes = too_long bytes
read_from fails (suc room) any_read text [] =
    if fails then failed else if any_read then line text [] else end_file
read_from fails (suc room) any_read text (ch ∷ bytes) =
    let skipped = read_from fails (suc room) true text bytes in
    let longer = read_from fails room true (text ++ ch ∷ []) bytes in
    if ch == 10 || ch == 0
    then line text bytes
    else if ch == 12 || ch == 0x1A
    then line (text ++ ch ∷ []) bytes
    else if ch == 13
    then skipped
    else longer

-- `readln` into the line's buffer
unfoldable pub readln : Bool → List ℕ → Line
readln fails bytes = read_from fails linesize_max false [] bytes

-- the string in front of the first separator and the one behind it
unfoldable pub split_at : ℕ → List ℕ → List ℕ × Option (List ℕ)
split_at sep [] = ([], none)
split_at sep (b ∷ str) =
    let rest = split_at sep str in if b == sep then ([], some str) else (b ∷ rest.0, rest.1)

-- `splitpair` with '=': the key, and the value unless it is NULL. It always returns true.
unfoldable pub splitpair : List ℕ → List ℕ × Option (List ℕ)
splitpair strbuf =
    let parts = split_at b'=' strbuf in
    (dtrim (dtrim parts.0 32) 9, Option.map (λ at. dtrim (dtrim (dtrim at 32) 9) 34) parts.1)

-- What `ConfGetNextPair` returns, with the section and what is left of the file: a pair or NULL.
-- `starved`: the fuel ran out.
pub data Next : Type 0 where
  pair : List ℕ → Option (List ℕ) → List ℕ → List ℕ → Next
  stop : List ℕ → Next
  starved : Next

-- whether a line is a section's, behind the test that it has more than two bytes
unfoldable pub is_section : List ℕ → Bool
is_section start =
    leb (length start) secname_max
    && (byte_at start 0 == b'[' && byte_at start (length start - 1) == b']')

-- one round of the loop of `ConfGetNextPair`, behind the reading of the line
unfoldable pub on_text : (List ℕ → List ℕ → Next) → List ℕ → List ℕ → List ℕ → Next
on_text again secname start rest =
    let parts = splitpair start in
    if byte_at start 0 == b'#'
    then again secname rest
    else if ltb 2 (length start)
    then if is_section start
      then again (take (length start - 2) (drop 1 start)) rest
      else pair parts.0 parts.1 secname rest
    else again secname rest

unfoldable pub on_line : (List ℕ → List ℕ → Next) → List ℕ → Line → Next
on_line again secname (line text rest) = on_text again secname (dtrim (dtrim text 32) 9) rest
on_line again secname end_file = stop secname
on_line again secname failed = stop secname
on_line again secname (too_long rest) = stop secname

-- `ConfGetNextPair` in a section
unfoldable pub next_pair : Bool → ℕ → List ℕ → List ℕ → Next
next_pair fails zero secname bytes = starved
next_pair fails (suc fuel) secname bytes =
    on_line (next_pair fails fuel) secname (readln fails bytes)

-- `strcmp` of two strings, whether it is 0
unfoldable pub same_text : List ℕ → List ℕ → Bool
same_text [] [] = true
same_text [] (d ∷ ds) = false
same_text (c ∷ cs) [] = false
same_text (c ∷ cs) (d ∷ ds) = c == d && same_text cs ds

-- whether a section is the one that is asked for, none for any
unfoldable pub in_section : Option (List ℕ) → List ℕ → Bool
in_section none secname = true
in_section (some wanted) secname = same_text secname wanted

-- What `ConfReadValueRef` returns: true with a pointer, which may be NULL, or false. Before it returns, the
-- line's buffer into which the pointer goes is freed: `freed_value` has the bytes that stood there then.
pub data Value : Type 0 where
  freed_value : Option (List ℕ) → Value
  missing out_of_fuel : Value

unfoldable pub on_next : Option (List ℕ) → List ℕ → (List ℕ → List ℕ → Value) → Next → Value
on_next wanted key again (pair k v secname rest) =
    if in_section wanted secname && same_text k key then freed_value v else again secname rest
on_next wanted key again (stop secname) = missing
on_next wanted key again starved = out_of_fuel

-- the loop of `ConfReadValueRef`
unfoldable pub find_value : Bool → Option (List ℕ) → List ℕ → ℕ → List ℕ → List ℕ → Value
find_value fails wanted key zero secname bytes = out_of_fuel
find_value fails wanted key (suc fuel) secname bytes =
    on_next wanted key (find_value fails wanted key fuel)
      (next_pair fails (length bytes + 1) secname bytes)

-- `ConfReadValueRef` of a file that can be opened
unfoldable pub read_value_ref : Bool → List ℕ → Option (List ℕ) → List ℕ → Value
read_value_ref fails bytes wanted key = find_value fails wanted key (length bytes + 1) [] bytes
