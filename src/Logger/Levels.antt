-- ===== src/Logger/Levels.antt =====
-- The levels of source/clogger/clogger.c: their order and their names.
use mathlib.Core.Path.{subst}
use libclogger.Prelude.{
  zero, suc, refl, ◌∙◌, some, List, map, get_elem?, ℕ, ◌≤◌, ◌≡◌, ◌≢◌, true, arith,
}
use libclogger.Logger.Words.{findstr_in_cong}
use libclogger.Logger.{
  same_word, lower, findstr_in, level_strs, level_from_string, level_enabled, level_off, level_all,
}

-- `clog_logger_level_enabled`, for own levels and levels up to ALL: a logger that logs a level logs it
-- also when its own level is higher, and it logs every lower level that is not OFF.
pub level_enabled_mono :
    (own own' level level' : ℕ)
    → own ≤ own'
    → own' ≤ level_all
    → level' ≤ level
    → level' ≢ level_off
    → level ≤ level_all
    → level_enabled own level ≡ true
    → level_enabled own' level' ≡ true
unfolding level_enabled
level_enabled_mono own own' level level' h h' k ne top e = ground arith

named :
    (w d : List ℕ) (l : ℕ)
    → some (some w) ≡ some (some d)
    → findstr_in w level_strs ≡ some l
    → findstr_in d level_strs ≡ some l
named w d l e found = subst (λ x. findstr_in x level_strs ≡ some l) (cc e) found

-- the name at a place of the table is found there
level_strs_found :
    (l : ℕ) (d : List ℕ) → get_elem? level_strs l ≡ some (some d) → findstr_in d level_strs ≡ some l
unfolding findstr_in same_word
level_strs_found zero d e = named _ d 0 e refl
level_strs_found (suc zero) d e = cc
level_strs_found (suc (suc zero)) d e = cc
level_strs_found (suc (suc (suc zero))) d e = cc
level_strs_found (suc (suc (suc (suc zero)))) d e = named _ d 4 e refl
level_strs_found (suc (suc (suc (suc (suc zero))))) d e = named _ d 5 e refl
level_strs_found (suc (suc (suc (suc (suc (suc zero)))))) d e = named _ d 6 e refl
level_strs_found (suc (suc (suc (suc (suc (suc (suc zero))))))) d e = named _ d 7 e refl
level_strs_found (suc (suc (suc (suc (suc (suc (suc (suc zero)))))))) d e = named _ d 8 e refl
level_strs_found (suc (suc (suc (suc (suc (suc (suc (suc (suc zero))))))))) d e = named _ d 9 e refl
level_strs_found (suc (suc (suc (suc (suc (suc (suc (suc (suc (suc zero)))))))))) d e =
    named _ d 10 e refl
level_strs_found (suc (suc (suc (suc (suc (suc (suc (suc (suc (suc (suc zero))))))))))) d e = cc
level_strs_found (suc (suc (suc (suc (suc (suc (suc (suc (suc (suc (suc (suc l)))))))))))) d e = cc

-- `clog_level_from_string` gives a level for each of its names, in any case.
pub level_from_string_name :
    (str d : List ℕ) (l : ℕ)
    → get_elem? level_strs l ≡ some (some d)
    → map lower str ≡ map lower d
    → level_from_string str ≡ some l
unfolding level_from_string
level_from_string_name str d l e k = findstr_in_cong str d level_strs k ∙ level_strs_found l d e
