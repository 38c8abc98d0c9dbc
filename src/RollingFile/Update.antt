-- ===== src/RollingFile/Update.antt =====
-- The operations of source/clogger/rollingfile.c that touch files.
use libclogger.Prelude.{
  take, ◌^◌, ℕ, zero, suc, ◌+◌, ◌-◌, ◌%◌, Bool, true, false, Option, none, some, List, [], length,
  ltb, leb, if◌then◌else◌,
}
use libclogger.FileSystem.{FileName, FileSystem}
use libclogger.FileName.{numbered}
use libclogger.RollingFile.{RollingFile}
use libclogger.RollingFile.Names.{log_path, needs_file}

module _ (sys : FileSystem) where
  open sys use {Files, exists, remove, move, create, close, write as write_bytes}

  abbrev pub State : Type 0
  State = RollingFile × Files

  -- `file_close` of the descriptor given
  unfoldable pub close_handle : Option ℕ → State → State
  close_handle none st = st
  close_handle (some fd) (rof, fs) = (record rof { fhlogging = none }, close fs fd)

  -- `file_close(&rof->fhlogging)`
  unfoldable pub close_logging : State → State
  unfolding close_handle
  close_logging st = close_handle st.0.fhlogging st

  -- `rof->fhlogging = rollingfile_create(name); rof->offsetbytes = 0;`
  unfoldable pub open_logging : FileName → State → State
  open_logging name (rof, fs) =
      let (fd, fs') = create fs name in (record rof { fhlogging = fd; offsetbytes = 0 }, fs')

  -- one round of the loop of `rollingfile_update`: the file of number `i - 1` becomes number `i`
  unfoldable pub shift_file : FileName → ℕ → Files → Files
  shift_file base i fs =
      let from = numbered base (i - 1) in
      let to = numbered base i in
      if exists fs from then move (if exists fs to then remove fs to else fs) from to else fs

  -- `while (i-- > 1)`, entered with `i`
  unfoldable pub rotate : FileName → ℕ → Files → Files
  unfolding shift_file
  rotate base zero fs = fs
  rotate base (suc i) fs = if ltb 1 (suc i) then rotate base i (shift_file base i fs) else fs

  -- the branch of `rollingfile_update` for `rollingappend`
  unfoldable pub append_file : FileName → State → State
  unfolding open_logging
  append_file base (rof, fs) =
      let number = (rof.appendfileno + 1) % rof.maxfilecount in
      open_logging (numbered base number)
        (record rof { appendfileno = number }, remove fs (numbered base number))

  -- `rollingfile_update` behind `file_close`, where `base` is `rof->loggingfile`
  unfoldable pub roll : FileName → State → State
  unfolding open_logging rotate append_file
  roll base (rof, fs) =
      if rof.rollingappend
      then append_file base (rof, fs)
      else open_logging base (rof, remove (rotate base rof.maxfilecount fs) base)

  unfoldable pub update : FileName → State → State
  unfolding close_logging roll
  update base st = roll base (close_logging st)

  -- the file that was written to before, if there is one, is closed
  unfoldable pub close_before : Option FileName → State → State
  close_before none st = st
  close_before (some file) st = close_logging st

  -- `rollingfile_create` refuses a file that exists: it is rolled away.
  unfoldable pub roll_existing : Option ℕ → FileName → State → State
  roll_existing none path st = if exists st.1 path then update path st else st
  roll_existing (some fd) path st = st

  -- the branches of `rollingfile_apply` that set `rof->loggingfile`
  unfoldable pub start_file : FileName → State → State
  unfolding close_before roll_existing open_logging
  start_file path st =
      let (rof, fs) = close_before st.0.loggingfile st in
      let st' = open_logging path (record rof { loggingfile = some path }, fs) in
      roll_existing st'.0.fhlogging path st'

  -- the last test of `rollingfile_apply`
  unfoldable pub check_limit : Option FileName → State → State
  check_limit none st = st
  check_limit (some file) st = if leb st.0.maxfilesize st.0.offsetbytes then update file st else st

  unfoldable pub check_size : State → State
  unfolding check_limit
  check_size st = check_limit st.0.loggingfile st

  -- `rollingfile_apply`; `date` is empty if `datelen` is 0.
  unfoldable pub apply : State → List ℕ → State
  unfolding start_file check_size needs_file log_path
  apply (rof, fs) date =
      check_size
        (if needs_file rof date then start_file (log_path rof date) (rof, fs) else (rof, fs))

  -- `rollingfile_write`: whether it returned 0. `(ub4) msglen` bytes are written, `msglen` are counted.
  unfoldable pub write : State → List ℕ → List ℕ → Bool × State
  unfolding apply
  write st date message =
      let (rof, fs) = apply st date in
      let (fine, fs') = write_bytes fs rof.fhlogging (take (length message % 2 ^ 32) message) in
      if fine
      then (true, (record rof { offsetbytes = rof.offsetbytes + length message }, fs'))
      else (false, (rof, fs'))

  -- `rollingfile_uninit`; the strings are freed (`pathname` is then empty for NULL).
  unfoldable pub uninit : State → State
  unfolding close_logging
  uninit st =
      let (rof, fs) = close_logging st in
      (
        record rof {
          pathprefix = none;
          nameprefix = none;
          datesuffix = none;
          pathname = [];
          loggingfile = none;
        },
        fs,
      )
