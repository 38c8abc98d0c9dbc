-- ===== src/RollingFile/Rotate.antt =====
-- What `rollingfile_update` of source/clogger/rollingfile.c leaves under the numbered names.
mod Shift
use libclogger.Prelude.{
  ℕ, zero, suc, ◌+◌, ◌%◌, ◌-◌, ◌≤◌, ◌<◌, ◌≡◌, ◌≢◌, refl, sym, ◌∙◌, ap, Bool, true, false, Option,
  none, some, List, [], arith, ltb, leb, ◌==◌, if◌then◌else◌, Option-cases, Bool-cases, inl, inr,
}
use mathlib.Core.Path.{fun_ext, subst, subst₂}
use native.Mathlib.Decide.{ℕ_discrete}
use libclogger.FileSystem.{FileName, FileSystem, Lawful}
use libclogger.FileName.{numbered, numbered-zero, numbered-injective}
use libclogger.RollingFile.{RollingFile}
use libclogger.RollingFile.Update.{
  State, close_handle, close_logging, open_logging, shift_file, rotate, append_file, roll, update,
}
use libclogger.RollingFile.Rotate.Shift
use libclogger.RollingFile.Rotate.Shift.{rolled}

module _ (sys : FileSystem) (laws : Lawful sys) (base : FileName) where
  open sys use {Files, contents, exists, remove, move, create, close}
  open laws use {
    exists_some, exists_none, remove_self, remove_other, move_to, move_from, move_other, create_new,
    create_other, close_same,
  }

  contents-close_logging :
      (rof : RollingFile) (fs : Files) (k : FileName)
      → contents (close_logging sys (rof, fs)).1 k ≡ contents fs k
  unfolding close_logging
  contents-close_logging rof fs k = go rof.fhlogging
    where
      go : (handle : Option ℕ) → contents (close_handle sys handle (rof, fs)).1 k ≡ contents fs k
      go none = refl
      go (some fd) = close_same fs fd k

  -- What opening a name that is free leaves: an empty file, and nothing else changed.
  pub record Opened (st : State sys) (name : FileName) (st' : State sys) : Type 0 where
    pub handle : (fd : ℕ) × (st'.0.fhlogging ≡ some fd)
    pub offset : st'.0.offsetbytes ≡ 0
    pub fresh : contents st'.1 name ≡ some []
    pub others : (k : FileName) → k ≢ name → contents st'.1 k ≡ contents st.1 k

  open_removed :
      (rof : RollingFile) (fs : Files) (name : FileName)
      → Opened (rof, fs) name (open_logging sys name (rof, remove fs name))
  unfolding open_logging
  open_removed rof fs name =
      let new = create_new (remove fs name) name (remove_self fs name) in
      record {
        handle = (new.0, new.1);
        offset = refl;
        fresh = new.2;
        others = λ k ne. create_other (remove fs name) name k ne ∙ remove_other fs name k ne;
      }

  -- What `rollingfile_update` does when it does not append.
  pub record Rolled (n : ℕ) (st st' : State sys) : Type 0 where
    pub handle : (fd : ℕ) × (st'.0.fhlogging ≡ some fd)
    pub offset : st'.0.offsetbytes ≡ 0
    pub current : Shift.view sys laws base st'.1 0 ≡ some []
    pub older :
        (j : ℕ)
        → Shift.view sys laws base st'.1 (suc j) ≡ rolled n (Shift.view sys laws base st.1) (suc j)
    pub foreign :
        (k : FileName) → Shift.Foreign sys laws base k → contents st'.1 k ≡ contents st.1 k

  close_logging_settings :
      (rof : RollingFile) (fs : Files)
      → let rof' = (close_logging sys (rof, fs)).0 in
        (rof'.rollingappend ≡ rof.rollingappend)
        × (rof'.maxfilecount ≡ rof.maxfilecount)
        × (rof'.appendfileno ≡ rof.appendfileno)
  unfolding close_logging
  close_logging_settings rof fs = go rof.fhlogging
    where
      go :
          (handle : Option ℕ)
          → let rof' = (close_handle sys handle (rof, fs)).0 in
            (rof'.rollingappend ≡ rof.rollingappend)
            × (rof'.maxfilecount ≡ rof.maxfilecount)
            × (rof'.appendfileno ≡ rof.appendfileno)
      go none = (refl, refl, refl)
      go (some fd) = (refl, refl, refl)

  -- With the descriptor closed: rotate, and open the base name anew.
  open_shifted :
      (rof rof' : RollingFile) (fs fs' : Files) (n : ℕ)
      → ((k : FileName) → contents fs' k ≡ contents fs k)
      → Rolled n (rof, fs) (open_logging sys base (rof', remove (rotate sys base n fs') base))
  open_shifted rof rof' fs fs' n same =
      let opened = open_removed rof' (rotate sys base n fs') base in
      record {
        handle = opened.handle;
        offset = opened.offset;
        current = ap (contents _) (numbered-zero base) ∙ opened.fresh;
        older = λ j.
            opened.others (numbered base (suc j)) (λ e. ne_base j e)
            ∙ Shift.rotate-rolled sys laws base n fs' (suc j)
            ∙ ap (λ old. rolled n old (suc j)) (fun_ext (λ i. same (numbered base i)));
        foreign = λ k f.
            opened.others k (λ e. f 0 (e ∙ sym (numbered-zero base)))
            ∙ Shift.rotate-other sys laws base n fs' k f
            ∙ same k;
      }
    where
      ne_base : (j : ℕ) → numbered base (suc j) ≢ base
      ne_base j e =
          Shift.numbered-ne sys laws base (suc j) 0 (omega arith) (e ∙ sym (numbered-zero base))

  roll-Rolled :
      (rof rof' : RollingFile) (fs fs' : Files)
      → rof'.rollingappend ≡ false
      → rof'.maxfilecount ≡ rof.maxfilecount
      → ((k : FileName) → contents fs' k ≡ contents fs k)
      → Rolled rof.maxfilecount (rof, fs) (roll sys base (rof', fs'))
  unfolding roll
  roll-Rolled rof rof' fs fs' mode count same =
      let opened = open_shifted rof rof' fs fs' rof'.maxfilecount same in
      subst
        (λ b.
          Rolled rof.maxfilecount (rof, fs)
            (if b
              then append_file sys base (rof', fs')
              else open_logging sys base
                  (rof', remove (rotate sys base rof'.maxfilecount fs') base)))
        (sym mode)
        (subst
          (λ n.
            Rolled n (rof, fs)
              (open_logging sys base (rof', remove (rotate sys base rof'.maxfilecount fs') base)))
          count opened)

  -- `rollingfile_update`, when it does not append: the files 1 to `maxfilecount - 1` hold what the
  -- files 0 to `maxfilecount - 2` held, the last one keeping its own bytes if there is none to take
  -- its place; the file 0 is new and empty, open, and the written bytes count from 0. No other file
  -- changes.
  pub update-Rolled :
      (rof : RollingFile) (fs : Files)
      → rof.rollingappend ≡ false
      → Rolled rof.maxfilecount (rof, fs) (update sys base (rof, fs))
  unfolding update
  update-Rolled rof fs mode =
      let closed = close_logging sys (rof, fs) in
      let kept = close_logging_settings rof fs in
      roll-Rolled rof closed.0 fs closed.1 (kept.0 ∙ mode) kept.1 (contents-close_logging rof fs)

  -- the next number, as a step of its own, so that the settings can be replaced in it
  abbrev AppendsTo : (fs : Files) (number : ℕ) → RollingFile → State sys → Type 0
  AppendsTo fs number rof st =
      (st.0.appendfileno ≡ number) × Opened (rof, fs) (numbered base number) st

  appendfileno-open_logging :
      (name : FileName) (rof : RollingFile) (fs : Files)
      → (open_logging sys name (rof, fs)).0.appendfileno ≡ rof.appendfileno
  unfolding open_logging
  appendfileno-open_logging name rof fs = refl

  roll-append :
      (rof : RollingFile) (fs : Files)
      → rof.rollingappend ≡ true
      → roll sys base (rof, fs) ≡ append_file sys base (rof, fs)
  unfolding roll
  roll-append rof fs mode =
      ap
        (λ b.
          if b
          then append_file sys base (rof, fs)
          else open_logging sys base (rof, remove (rotate sys base rof.maxfilecount fs) base))
        mode

  append_file-AppendsTo :
      (rof rof' : RollingFile) (fs fs' : Files)
      → rof'.maxfilecount ≡ rof.maxfilecount
      → rof'.appendfileno ≡ rof.appendfileno
      → ((k : FileName) → contents fs' k ≡ contents fs k)
      → AppendsTo fs
          ((rof.appendfileno + 1) % rof.maxfilecount)
          rof
          (append_file sys base (rof', fs'))
  unfolding append_file
  append_file-AppendsTo rof rof' fs fs' count turn same =
      let number = (rof'.appendfileno + 1) % rof'.maxfilecount in
      let opened =
        open_removed (record rof' { appendfileno = number }) fs' (numbered base number) in
      subst₂ (λ n c. AppendsTo fs ((n + 1) % c) rof (append_file sys base (rof', fs'))) turn count
        (
          appendfileno-open_logging (numbered base number) (record rof' { appendfileno = number })
              (remove fs' (numbered base number)),
          record {
            handle = opened.handle;
            offset = opened.offset;
            fresh = opened.fresh;
            others = λ k ne. opened.others k ne ∙ same k;
          },
        )

  -- `rollingfile_update`, when it appends and `maxfilecount` is positive: the next number below
  -- `maxfilecount`, in turn, is a new and empty file, open, and the written bytes count from 0; no
  -- other file changes.
  pub update_append :
      (rof : RollingFile) (fs : Files)
      → rof.rollingappend ≡ true
      → 0 < rof.maxfilecount
      → let number = (rof.appendfileno + 1) % rof.maxfilecount in
        let st = update sys base (rof, fs) in
        (number < rof.maxfilecount)
        × ((st.0.appendfileno ≡ number) × Opened (rof, fs) (numbered base number) st)
  unfolding update
  update_append rof fs mode pos =
      let closed = close_logging sys (rof, fs) in
      let kept = close_logging_settings rof fs in
      let number = (rof.appendfileno + 1) % rof.maxfilecount in
      let appended =
        append_file-AppendsTo rof closed.0 fs closed.1 kept.1 kept.2
          (contents-close_logging rof fs) in
      let taken = roll-append closed.0 closed.1 (kept.0 ∙ mode) in
      (omega arith, subst (AppendsTo fs number rof) (sym taken) appended)
