-- ===== src/RollingFile/Policy.antt =====
-- When source/clogger/rollingfile.c rolls the file, and which name it writes to.
use libclogger.Prelude.{
  ℕ, ◌≤◌, ◌<◌, ◌≡◌, refl, ◌∙◌, ap₂, Bool, false, Option, none, some, List, [], ◌∷◌, arith, leb,
  if◌then◌else◌, Bool-cases, if_elim, inl, inr,
}
use libclogger.FileSystem.{FileName, FileSystem}
use libclogger.RollingFile.{
  RollingFile, check_config, set_sizepolicy, max_file_size, max_file_count,
}
use libclogger.RollingFile.Names.{
  Dated, other_date-Dated, log_path, other_date, other_date-log_path, needs_file,
}
use libclogger.RollingFile.Update.{
  State, close_handle, close_before, roll_existing, check_limit, close_logging, open_logging,
  append_file, roll, update, start_file, check_size, apply,
}

-- Whatever the configuration says, the limits of a rolling file are in their ranges; a zero stands
-- for the default, all ones for the maximum.
pub set_sizepolicy_bounds :
    (rof : RollingFile) (maxfilesize maxfilecount : ℕ) (rollingappend : Bool)
    → let rof' = set_sizepolicy rof maxfilesize maxfilecount rollingappend in
      (1048576 ≤ rof'.maxfilesize)
      × (rof'.maxfilesize ≤ max_file_size)
      × (1 ≤ rof'.maxfilecount)
      × (rof'.maxfilecount ≤ max_file_count)
      × (rof'.appendfileno < rof'.maxfilecount)
unfolding set_sizepolicy check_config
set_sizepolicy_bounds rof maxfilesize maxfilecount rollingappend = ground arith

module _ (sys : FileSystem) where
  open sys use {Files, contents, exists, remove, move, create, close, write as write_bytes}

  -- what an operation leaves of the settings
  record Keeps (rof rof' : RollingFile) : Type 0 where
    pub size : rof'.maxfilesize ≡ rof.maxfilesize
    pub path : rof'.pathname ≡ rof.pathname
    pub suffix : rof'.datesuffix ≡ rof.datesuffix
    pub file : rof'.loggingfile ≡ rof.loggingfile

  Keeps-refl : (rof : RollingFile) → Keeps rof rof
  Keeps-refl rof = record { size = refl; path = refl; suffix = refl; file = refl }

  Keeps-trans : (a b c : RollingFile) → Keeps a b → Keeps b c → Keeps a c
  Keeps-trans a b c h k = record {
    size = k.size ∙ h.size;
    path = k.path ∙ h.path;
    suffix = k.suffix ∙ h.suffix;
    file = k.file ∙ h.file;
  }

  close_logging-Keeps : (st : State sys) → Keeps st.0 (close_logging sys st).0
  unfolding close_logging
  close_logging-Keeps (rof, fs) = go rof.fhlogging
    where
      go : (handle : Option ℕ) → Keeps rof (close_handle sys handle (rof, fs)).0
      go none = Keeps-refl rof
      go (some fd) = record { size = refl; path = refl; suffix = refl; file = refl }

  roll-Keeps :
      (base : FileName) (st : State sys)
      → Keeps st.0 (roll sys base st).0 × ((roll sys base st).0.offsetbytes ≡ 0)
  unfolding roll append_file open_logging
  roll-Keeps base (rof, fs) =
      if_elim (λ (st : State sys). Keeps rof st.0 × (st.0.offsetbytes ≡ 0)) rof.rollingappend
        (record { size = refl; path = refl; suffix = refl; file = refl }, refl)
        (record { size = refl; path = refl; suffix = refl; file = refl }, refl)

  -- `rollingfile_update` counts the bytes from 0, and changes no setting and no name.
  update-Keeps :
      (base : FileName) (st : State sys)
      → Keeps st.0 (update sys base st).0 × ((update sys base st).0.offsetbytes ≡ 0)
  unfolding update
  update-Keeps base st =
      let closed = close_logging sys st in
      let rolled = roll-Keeps base closed in
      (Keeps-trans st.0 closed.0 (update sys base st).0 (close_logging-Keeps st) rolled.0, rolled.1)

  -- The size test leaves a count below the limit.
  check_limit_below :
      (file : FileName) (st : State sys)
      → 0 < st.0.maxfilesize
      → Keeps st.0 (check_limit sys (some file) st).0
        × ((check_limit sys (some file) st).0.offsetbytes < st.0.maxfilesize)
  unfolding check_limit
  check_limit_below file st pos = elim (Bool-cases (leb st.0.maxfilesize st.0.offsetbytes)) [
    | inl full ↦ let kept = update-Keeps file st in rw full (kept.0, omega (arith, kept.1))
    | inr room ↦ rw room (Keeps-refl st.0, ground arith)
  ]

  -- What an opened file leaves: its name, and the settings.
  record Named (path : FileName) (rof rof' : RollingFile) : Type 0 where
    pub name : rof'.loggingfile ≡ some path
    pub size : rof'.maxfilesize ≡ rof.maxfilesize
    pub pathname : rof'.pathname ≡ rof.pathname
    pub offset : rof'.offsetbytes ≡ 0

  roll_existing-Named :
      (handle : Option ℕ) (path : FileName) (rof : RollingFile) (st : State sys)
      → Named path rof st.0
      → Named path rof (roll_existing sys handle path st).0
  unfolding roll_existing
  roll_existing-Named (some fd) path rof st h = h
  roll_existing-Named none path rof st h =
      let kept = update-Keeps path st in
      if_elim (λ (st' : State sys). Named path rof st'.0) (exists st.1 path)
        (record {
          name = kept.0.file ∙ h.name;
          size = kept.0.size ∙ h.size;
          pathname = kept.0.path ∙ h.pathname;
          offset = kept.1;
        })
        h

  close_before-Keeps :
      (file : Option FileName) (st : State sys) → Keeps st.0 (close_before sys file st).0
  unfolding close_before
  close_before-Keeps none st = Keeps-refl st.0
  close_before-Keeps (some file) st = close_logging-Keeps st

  start_file-Named : (path : FileName) (st : State sys) → Named path st.0 (start_file sys path st).0
  unfolding start_file open_logging
  start_file-Named path st =
      let closed = close_before sys st.0.loggingfile st in
      let kept = close_before-Keeps st.0.loggingfile st in
      let opened =
        open_logging sys path (record (closed.0) { loggingfile = some path }, closed.1) in
      roll_existing-Named opened.0.fhlogging path st.0 opened
        (record { name = refl; size = kept.size; pathname = kept.path; offset = refl })

  -- the state that the size test sees
  record Ready (rof : RollingFile) (date : List ℕ) (st : State sys) : Type 0 where
    pub file : FileName
    pub name : st.0.loggingfile ≡ some file
    pub size : st.0.maxfilesize ≡ rof.maxfilesize
    pub dated : other_date st.0.loggingfile st.0.pathname date ≡ false

  Named-Ready :
      (rof : RollingFile) (date : List ℕ) (st : State sys)
      → Named (log_path rof date) rof st.0
      → Ready rof date st
  unfolding other_date
  Named-Ready rof date st h = record {
    file = log_path rof date;
    name = h.name;
    size = h.size;
    dated = go date h;
  }
    where
      go :
          (date : List ℕ)
          → Named (log_path rof date) rof st.0
          → other_date st.0.loggingfile st.0.pathname date ≡ false
      go [] h = ap₂ (λ file path. other_date file path []) h.name h.pathname
      go (d ∷ date) h =
          ap₂ (λ file path. other_date file path (d ∷ date)) h.name h.pathname
          ∙ other_date-log_path rof d date

  other_date-named :
      (file : Option FileName) (pathname : FileName) (date : List ℕ)
      → other_date file pathname date ≡ false
      → (name : FileName) × (file ≡ some name)
  unfolding other_date
  other_date-named none pathname date e = cc
  other_date-named (some name) pathname date e = (name, refl)

  choose-Ready :
      (rof : RollingFile) (fs : Files) (date : List ℕ)
      → Ready rof date
          (if needs_file rof date then start_file sys (log_path rof date) (rof, fs) else (rof, fs))
  unfolding needs_file
  choose-Ready rof fs date = elim (Bool-cases (needs_file rof date)) [
    | inl new ↦ rw new (Named-Ready rof date _ (start_file-Named (log_path rof date) (rof, fs)))
    | inr old ↦
        let named = other_date-named rof.loggingfile rof.pathname date old in
        rw old (record { file = named.0; name = named.1; size = refl; dated = old })
  ]

  check_size-Ready :
      (rof : RollingFile) (date : List ℕ) (st : State sys)
      → Ready rof date st
      → 0 < rof.maxfilesize
      → ((check_size sys st).0.offsetbytes < rof.maxfilesize)
        × ((check_size sys st).0.maxfilesize ≡ rof.maxfilesize)
        × (needs_file (check_size sys st).0 date ≡ false)
  unfolding check_size needs_file
  check_size-Ready rof date st r pos = go st.0.loggingfile r.name
    where
      go :
          (file : Option FileName)
          → file ≡ some r.file
          → ((check_limit sys file st).0.offsetbytes < rof.maxfilesize)
            × ((check_limit sys file st).0.maxfilesize ≡ rof.maxfilesize)
            × (other_date
                  (check_limit sys file st).0.loggingfile
                  (check_limit sys file st).0.pathname
                  date
                ≡ false)
      go none e = cc
      go (some f) e =
          let limit = check_limit_below f st (omega (arith, r.size)) in
          (
            omega (arith, limit.1, r.size),
            limit.0.size ∙ r.size,
            ap₂ (λ file path. other_date file path date) limit.0.file limit.0.path ∙ r.dated,
          )

  -- `rollingfile_apply`, if `maxfilesize` is positive, whatever the file system answers: fewer bytes
  -- than the limit are counted for the file in use, the limit is unchanged, a file has a name, in which
  -- the bytes of the date, if there is one, stand behind as many bytes as the path has, and applying the
  -- same date again changes to no other file. The file need not be open: the system may refuse that.
  pub apply_ready :
      (rof : RollingFile) (fs : Files) (date : List ℕ)
      → 0 < rof.maxfilesize
      → let rof' = (apply sys (rof, fs) date).0 in
        (rof'.offsetbytes < rof.maxfilesize)
        × (rof'.maxfilesize ≡ rof.maxfilesize)
        × (needs_file rof' date ≡ false)
        × Dated rof'.loggingfile rof'.pathname date
  unfolding apply needs_file
  apply_ready rof fs date pos =
      let ready = check_size-Ready rof date _ (choose-Ready rof fs date) pos in
      let rof' = (apply sys (rof, fs) date).0 in
      (ready.0, ready.1, ready.2, other_date-Dated rof'.loggingfile rof'.pathname date ready.2)
