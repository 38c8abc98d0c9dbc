-- ===== src/Logger.antt =====
-- source/clogger/clogger.c: the levels of a logger, and the names that its configuration uses for them,
-- for the layouts and for the rolling times of source/clogger/rollingfile.c.
pub mod Words
pub mod Levels
pub mod Options
mod Tests
use mathlib.Core.Option
use libclogger.Prelude.{
  ℕ, zero, suc, ◌+◌, Bool, true, false, ◌&&◌, ◌||◌, Option, none, some, List, [], ◌∷◌, ltb, leb,
  ◌==◌, if◌then◌else◌,
}
use libclogger.RollingFile.{RollingTime}

-- a letter in lower case, as `strncasecmp` reads it
abbrev pub lower : ℕ → ℕ
lower c = if leb 65 c && leb c 90 then c + 32 else c

-- Two strings of lengths that may differ: whether these and the letters are equal in any case.
unfoldable pub same_word : List ℕ → List ℕ → Bool
same_word [] [] = true
same_word [] (d ∷ ds) = false
same_word (c ∷ cs) [] = false
same_word (c ∷ cs) (d ∷ ds) = lower c == lower d && same_word cs ds

-- `cstr_findstr_in` with `caseignore`, for a string that is not NULL: none for -1. A null entry is none.
unfoldable pub findstr_in : List ℕ → List (Option (List ℕ)) → Option ℕ
unfolding same_word
findstr_in str [] = none
findstr_in str (none ∷ dests) = Option.map suc (findstr_in str dests)
findstr_in str (some dest ∷ dests) =
    let later = Option.map suc (findstr_in str dests) in
    if same_word str dest then some 0 else later

-- `clog_level_strs`
abbrev pub level_strs : List (Option (List ℕ))
level_strs =
    some (b'O' ∷ b'F' ∷ b'F' ∷ [])
    ∷ none
    ∷ none
    ∷ none
    ∷ some (b'F' ∷ b'A' ∷ b'T' ∷ b'A' ∷ b'L' ∷ [])
    ∷ some (b'E' ∷ b'R' ∷ b'R' ∷ b'O' ∷ b'R' ∷ [])
    ∷ some (b'W' ∷ b'A' ∷ b'R' ∷ b'N' ∷ [])
    ∷ some (b'I' ∷ b'N' ∷ b'F' ∷ b'O' ∷ [])
    ∷ some (b'D' ∷ b'E' ∷ b'B' ∷ b'U' ∷ b'G' ∷ [])
    ∷ some (b'T' ∷ b'R' ∷ b'A' ∷ b'C' ∷ b'E' ∷ [])
    ∷ some (b'A' ∷ b'L' ∷ b'L' ∷ [])
    ∷ none
    ∷ []

-- `clog_level_from_string`: the level if it returned 1
unfoldable pub level_from_string : List ℕ → Option ℕ
unfolding findstr_in
level_from_string levelstring = findstr_in levelstring level_strs

abbrev pub level_off : ℕ
level_off = 0

abbrev pub level_all : ℕ
level_all = 10

-- `clog_logger_level_enabled`, for a logger that is not NULL and has the level `own`
unfoldable pub level_enabled : ℕ → ℕ → Bool
level_enabled own level =
    if level == level_off || level == level_all
    then false
    else if own == level_off
    then false
    else own == level_all || leb level own

-- the names of `rollingtime_from_string` with their values
abbrev pub rolling_times : List (List ℕ × RollingTime)
rolling_times =
    (b'm' ∷ b'i' ∷ b'n' ∷ [], RollingTime.min_1)
    ∷ (b'1' ∷ b'm' ∷ b'i' ∷ b'n' ∷ [], RollingTime.min_1)
    ∷ (b'5' ∷ b'm' ∷ [], RollingTime.min_5)
    ∷ (b'5' ∷ b'm' ∷ b'i' ∷ b'n' ∷ [], RollingTime.min_5)
    ∷ (b'1' ∷ b'0' ∷ b'm' ∷ [], RollingTime.min_10)
    ∷ (b'1' ∷ b'0' ∷ b'm' ∷ b'i' ∷ b'n' ∷ [], RollingTime.min_10)
    ∷ (b'3' ∷ b'0' ∷ b'm' ∷ [], RollingTime.min_30)
    ∷ (b'3' ∷ b'0' ∷ b'm' ∷ b'i' ∷ b'n' ∷ [], RollingTime.min_30)
    ∷ (b'h' ∷ b'o' ∷ b'u' ∷ b'r' ∷ [], RollingTime.hour)
    ∷ (b'd' ∷ b'a' ∷ b'y' ∷ [], RollingTime.day)
    ∷ (b'm' ∷ b'o' ∷ b'n' ∷ [], RollingTime.mon)
    ∷ (b'y' ∷ b'e' ∷ b'a' ∷ b'r' ∷ [], RollingTime.year)
    ∷ []

-- the loop of `rollingtime_from_string`
unfoldable pub find_time : List ℕ → List (List ℕ × RollingTime) → Option RollingTime
unfolding same_word
find_time rotstring [] = none
find_time rotstring ((name, rot) ∷ rots) =
    let later = find_time rotstring rots in if same_word rotstring name then some rot else later

-- `rollingtime_from_string`, for a string that is not NULL: the value if it returned 1
unfoldable pub rollingtime_from_string : List ℕ → Option RollingTime
unfolding find_time
rollingtime_from_string rotstring = find_time rotstring rolling_times
