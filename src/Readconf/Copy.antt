-- ===== src/Readconf/Copy.antt =====
-- `ConfReadValue` of source/common/readconf.c, which copies a value, with the lines that go on with it, into a
-- buffer. The buffer is the string in it.
use libclogger.Prelude.{
  ℕ, zero, suc, ◌+◌, ◌-◌, ◌%◌, ◌^◌, Bool, ◌&&◌, Option, none, some, List, [], ◌++◌, length, take,
  drop, ltb, leb, ◌==◌, if◌then◌else◌,
}
use libclogger.Text.{byte_at}
use libclogger.Readconf.{
  dtrim, Line, line, end_file, failed, too_long, readln, Next, pair, stop, starved, next_pair,
  same_text, in_section,
}

-- What is returned: the string in the buffer and the size, or 0. `out_of_bounds`: it goes on in front of
-- the buffer. `no_fuel`: the fuel ran out.
pub data Copied : Type 0 where
  copied : List ℕ → ℕ → Copied
  not_found out_of_bounds no_fuel : Copied

-- `memcpy` of a string to a place of the buffer: behind its NUL it does not show.
unfoldable pub overwrite : List ℕ → ℕ → List ℕ → List ℕ
overwrite valbuf at more = if leb at (length valbuf) then take at valbuf ++ more else valbuf

-- `n < (int) maxbufsize`
unfoldable pub fits_buffer : ℕ → ℕ → Bool
fits_buffer n maxbufsize = ltb (maxbufsize % 2 ^ 32) (2 ^ 31) && ltb n (maxbufsize % 2 ^ 32)

-- one round for a line, trimmed: a note is skipped, a line with a '+' goes on, and any other ends the value
unfoldable pub on_start : (List ℕ → ℕ → List ℕ → Copied) → ℕ → List ℕ → ℕ → List ℕ → List ℕ → Copied
on_start again maxbufsize valbuf valsz start rest =
    let more = dtrim (dtrim (drop 1 start) 32) 9 in
    let nch = length more in
    let written =
      if fits_buffer (valsz - 2 + nch) maxbufsize
      then overwrite valbuf (valsz - 2) more
      else valbuf in
    let next = again written (valsz - 2 + nch + 1) rest in
    if byte_at start 0 == b'#'
    then again valbuf valsz rest
    else if byte_at start 0 == b'+'
    then if ltb 0 nch && byte_at more (nch - 1) == b'\\'
      then next
      else copied written (valsz - 2 + nch + 1)
    else copied (take (valsz - 2) valbuf) (valsz - 1)

unfoldable pub on_more : (List ℕ → ℕ → List ℕ → Copied) → ℕ → List ℕ → ℕ → Line → Copied
on_more again maxbufsize valbuf valsz (line text rest) =
    on_start again maxbufsize valbuf valsz (dtrim (dtrim text 32) 9) rest
on_more again maxbufsize valbuf valsz end_file = copied valbuf valsz
on_more again maxbufsize valbuf valsz failed = copied valbuf valsz
on_more again maxbufsize valbuf valsz (too_long rest) = copied valbuf valsz

-- the loop over the lines that go on with a value
unfoldable pub go_on : Bool → ℕ → ℕ → List ℕ → ℕ → List ℕ → Copied
go_on fails maxbufsize zero valbuf valsz bytes = no_fuel
go_on fails maxbufsize (suc fuel) valbuf valsz bytes =
    on_more (go_on fails maxbufsize fuel) maxbufsize valbuf valsz (readln fails bytes)

-- The copy of a value that was found; `before` is the byte in front of the buffer, which is read for an
-- empty value.
unfoldable pub copy_value : Bool → ℕ → ℕ → Option (List ℕ) → List ℕ → Copied
copy_value fails maxbufsize before none rest = copied [] 1
copy_value fails maxbufsize before (some val) rest =
    let whole = go_on fails maxbufsize (length rest + 1) val (length val + 1) rest in
    if length val == 0
    then if before == b'\\' then out_of_bounds else copied val 1
    else if byte_at val (length val - 1) == b'\\'
    then whole
    else copied val (length val + 1)

module _ (fails : Bool) (maxbufsize before : ℕ) (wanted : Option (List ℕ)) (key : List ℕ) where
  unfoldable pub on_found : (List ℕ → List ℕ → Copied) → Next → Copied
  on_found again (pair k v secname rest) =
      if in_section wanted secname && same_text k key
      then copy_value fails maxbufsize before v rest
      else again secname rest
  on_found again (stop secname) = not_found
  on_found again starved = no_fuel

  -- the loop of `ConfReadValue`
  unfoldable pub copy_loop : ℕ → List ℕ → List ℕ → Copied
  copy_loop zero secname bytes = no_fuel
  copy_loop (suc fuel) secname bytes =
      on_found (copy_loop fuel) (next_pair fails (length bytes + 1) secname bytes)

  -- `ConfReadValue` with a buffer, of a file that can be opened
  unfoldable pub read_value : List ℕ → Copied
  read_value bytes = copy_loop (length bytes + 1) [] bytes
