-- ===== src/Logger/Tests.antt =====
-- Runs of the level and name functions of source/clogger, and their theorems at concrete inputs.
use libclogger.Prelude.{ℕ, ◌≡◌, refl, true, none, some, List, [], ◌∷◌}
use libclogger.RollingFile.{RollingTime}
use libclogger.Logger.{
  same_word, findstr_in, level_strs, level_from_string, find_time, rollingtime_from_string,
}
use libclogger.RollingFile.Names.{starts_with, ends_with, contain_with}
use libclogger.Logger.Words.{FirstPlace, findstr_in-FirstPlace}
use libclogger.Logger.Options.{
  compare_bytes, compare_len, find_word, layout_from_string, dateformat_from_string, fold_bytes,
  tolower, appender_from_string, startwith_mul, endwith_mul, isdigit,
}
use libclogger.Logger.Levels.{level_from_string_name}

abbrev warn : List ℕ
warn = b'w' ∷ b'A' ∷ b'r' ∷ b'n' ∷ []

time_5m : rollingtime_from_string (b'5' ∷ b'M' ∷ []) ≡ some RollingTime.min_5
unfolding rollingtime_from_string find_time same_word
time_5m = refl

time_1m : rollingtime_from_string (b'1' ∷ b'm' ∷ []) ≡ none
unfolding rollingtime_from_string find_time same_word
time_1m = refl

findstr_in-FirstPlace_example : FirstPlace warn level_strs (findstr_in warn level_strs)
findstr_in-FirstPlace_example = findstr_in-FirstPlace warn level_strs

level_from_string_name_example : level_from_string warn ≡ some 6
level_from_string_name_example =
    level_from_string_name warn (b'W' ∷ b'A' ∷ b'R' ∷ b'N' ∷ []) 6 refl refl

layout_dated : layout_from_string (b'd' ∷ b'A' ∷ b't' ∷ b'e' ∷ b'd' ∷ []) ≡ some 1
unfolding layout_from_string find_word compare_len compare_bytes
layout_dated = refl

dateformat_utc : dateformat_from_string (b'u' ∷ b't' ∷ b'c' ∷ []) ≡ some 3
unfolding dateformat_from_string find_word compare_len compare_bytes
dateformat_utc = refl

appenders_both :
    appender_from_string (
      b's' ∷ b'h' ∷ b'm' ∷ b'l' ∷ b'o' ∷ b'g' ∷ b',' ∷ b's' ∷ b't' ∷ b'd' ∷ b'o' ∷ b'u' ∷ b't' ∷ [])
    ≡ some 9
unfolding appender_from_string contain_with starts_with fold_bytes
appenders_both = refl

last_start : startwith_mul warn ((b'w' ∷ []) ∷ (b'W' ∷ []) ∷ (b'w' ∷ b'A' ∷ []) ∷ []) ≡ some 2
unfolding startwith_mul starts_with
last_start = refl

last_end : endwith_mul warn ((b'n' ∷ []) ∷ (b'x' ∷ []) ∷ []) ≡ some 0
unfolding endwith_mul ends_with starts_with
last_end = refl

digits : isdigit (b'4' ∷ b'2' ∷ []) ≡ true
unfolding isdigit
digits = refl

lowered : tolower warn 2 ≡ b'w' ∷ b'a' ∷ b'r' ∷ b'n' ∷ []
unfolding fold_bytes
lowered = refl
