-- ===== src/Readconf/Tests.antt =====
-- A small configuration file, and what source/common/readconf.c reads from it.
use libclogger.Prelude.{List, [], arith, false, none, refl, some, true, ◌∷◌, ◌≡◌, ◌≢◌}
use libclogger.Text.{byte_at, any_chr}
use libclogger.Readconf.{
  same_text, in_section, read_value_ref, splitpair, split_at, dtrim, ltrim, rtrim, behind_last,
}
use libclogger.Readconf.{linesize_max, line, readln, read_from}
use libclogger.Readconf.Outcomes.{Reads, readln-Reads}
use libclogger.Readconf.{out_of_fuel}
use libclogger.Readconf.Copy.{
  copied, no_fuel, overwrite, on_start, fits_buffer, on_more, go_on, read_value,
}
use libclogger.Readconf.Ends.{read_value-ends}
use libclogger.Readconf.Lookup.{
  Entry, note, section, setting, blank, text_of, print, WellFormed, lookup,
}
use libclogger.Readconf.ReadValue.{copy_of, read_value-lookup}

abbrev file : List Entry
file = note (b'c' ∷ []) ∷ section (b's' ∷ []) ∷ blank ∷ setting (b'k' ∷ []) (b'v' ∷ []) ∷ []

file-WellFormed : WellFormed file
unfolding text_of byte_at any_chr
file-WellFormed = (
  (((omega arith, refl, refl), (omega arith, refl, refl)), (refl, (refl, tt)), omega arith),
  (
    ((omega arith, omega arith), (refl, (refl, (refl, tt))), omega arith),
    (
      (tt, tt, omega arith),
      (
        (
          (
            ((omega arith, refl, refl), (omega arith, refl, refl)),
            ((omega arith, refl, refl), (omega arith, refl, refl)),
            (omega arith, refl, refl),
            refl,
            refl,
            refl,
          ),
          (refl, (refl, (refl, tt))),
          omega arith,
        ),
        tt,
      ),
    ),
  ),
)

read_value-lookup_example :
    read_value true 16 0 (some (b's' ∷ [])) (b'k' ∷ []) (print file)
    ≡ copy_of (lookup (some (b's' ∷ [])) (b'k' ∷ []) [] file)
unfolding byte_at
read_value-lookup_example =
    read_value-lookup true 16 0 (some (b's' ∷ [])) (b'k' ∷ []) file file-WellFormed (refl, tt)

looked_up : lookup (some (b's' ∷ [])) (b'k' ∷ []) [] file ≡ some (b'v' ∷ [])
unfolding lookup in_section same_text
looked_up = refl

-- another section has no such key
elsewhere : lookup (some (b't' ∷ [])) (b'k' ∷ []) [] file ≡ none
unfolding lookup in_section same_text
elsewhere = refl

-- the blanks of both kinds are cut off once each: the space behind the tab stays
mixed_blanks :
    splitpair (b'k' ∷ b'=' ∷ 32 ∷ 9 ∷ 32 ∷ b'v' ∷ []) ≡ (b'k' ∷ [], some (32 ∷ b'v' ∷ []))
unfolding splitpair split_at dtrim ltrim rtrim behind_last
mixed_blanks = refl

-- "k\r\nv"
readln-Reads_example :
    Reads false linesize_max false []
      (b'k' ∷ 13 ∷ 10 ∷ b'v' ∷ [])
      (readln false (b'k' ∷ 13 ∷ 10 ∷ b'v' ∷ []))
readln-Reads_example = readln-Reads false (b'k' ∷ 13 ∷ 10 ∷ b'v' ∷ [])

-- the line is what is in front of the carriage return
carriage_return : readln false (b'k' ∷ 13 ∷ 10 ∷ b'v' ∷ []) ≡ line (b'k' ∷ []) (b'v' ∷ [])
unfolding readln read_from
carriage_return = refl

read_value-ends_example :
    (read_value_ref true (b'k' ∷ b'=' ∷ b'\\' ∷ []) none (b'k' ∷ []) ≢ out_of_fuel)
    × (read_value true 10 0 none (b'k' ∷ []) (b'k' ∷ b'=' ∷ b'\\' ∷ []) ≢ no_fuel)
read_value-ends_example = read_value-ends true 10 0 (b'k' ∷ b'=' ∷ b'\\' ∷ []) none (b'k' ∷ [])

-- a value of two lines, and a line that does not go on with it
two_lines :
    go_on false 10 3 (b'v' ∷ b'\\' ∷ []) 3 (b'+' ∷ 32 ∷ b'w' ∷ 10 ∷ b'x' ∷ 10 ∷ [])
    ≡ copied (b'v' ∷ b'w' ∷ []) 3
unfolding go_on on_more on_start fits_buffer overwrite readln read_from dtrim ltrim rtrim
    behind_last byte_at
two_lines = refl

no_second_line : go_on false 10 3 (b'v' ∷ b'\\' ∷ []) 3 (b'x' ∷ 10 ∷ []) ≡ copied (b'v' ∷ []) 2
unfolding go_on on_more on_start fits_buffer overwrite readln read_from dtrim ltrim rtrim
    behind_last byte_at
no_second_line = refl
