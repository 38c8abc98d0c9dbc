-- ===== src/RollingFile.antt =====
-- source/clogger/rollingfile.c: the log file that is rolled by its size, and by the date in its name.
-- Strings are lists of bytes without the final 0; a `cstrbuf` that may be NULL is an option.
pub mod Names
pub mod Update
pub mod Rotate
pub mod Policy
mod Tests
use libclogger.Prelude.{
  ℕ, zero, suc, ◌+◌, ◌-◌, ◌%◌, ◌^◌, Bool, true, false, ◌&&◌, not, Option, none, some, List, [], ◌∷◌,
  ◌++◌, length, ltb, leb, ◌==◌, if◌then◌else◌, drop, take,
}
use libclogger.FileSystem.{FileName, FileSystem}

-- `rollingtime_t`
pub data RollingTime : Type 0 where
  null min_1 min_5 min_10 min_30 hour day mon year : RollingTime

-- `rollingfile_t`; `fhlogging` is none for `filehandle_invalid`.
pub record RollingFile : Type 0 where
  pub timepolicy : RollingTime
  pub maxfilesize : ℕ
  pub maxfilecount : ℕ
  pub pathprefix : Option FileName
  pub nameprefix : Option FileName
  pub pathname : FileName
  pub datesuffix : Option FileName
  pub loggingfile : Option FileName
  pub appendfileno : ℕ
  pub fhlogging : Option ℕ
  pub offsetbytes : ℕ
  pub rollingappend : Bool

-- `CHKCONFIG_INT_VALUE` on an unsigned variable of `bits` bits: -1 is the largest value.
unfoldable pub check_config : ℕ → ℕ → ℕ → ℕ → ℕ → ℕ
check_config bits defval minval maxval var =
    if var == 0
    then defval
    else if var == 2 ^ bits - 1
    then maxval
    else if ltb var minval
    then minval
    else if ltb maxval var
    then maxval
    else var

abbrev pub max_file_size : ℕ
max_file_size = 68719476736

abbrev pub max_file_count : ℕ
max_file_count = 1000000

unfoldable pub set_sizepolicy : RollingFile → ℕ → ℕ → Bool → RollingFile
set_sizepolicy rof maxfilesize maxfilecount rollingappend = record rof {
  maxfilesize = check_config 64 10485760 1048576 max_file_size maxfilesize;
  maxfilecount = check_config 32 10 1 max_file_count maxfilecount;
  rollingappend = rollingappend;
  appendfileno = 0;
}

pub set_timepolicy : RollingFile → RollingTime → RollingFile
set_timepolicy rof timepolicy = record rof { timepolicy = timepolicy }
