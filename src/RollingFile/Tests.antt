-- ===== src/RollingFile/Tests.antt =====
-- A directory as a function, and the theorems on source/clogger/rollingfile.c in it.
use libclogger.Prelude.{
  ℕ, ◌<◌, ◌≡◌, ◌≢◌, refl, sym, ◌∙◌, ap, Bool, true, false, Option, none, some, List, [], ◌∷◌, arith,
}
use mathlib.Core.Logic.{ite, if_pos, if_neg}
use mathlib.Core.List.{List-discrete}
use native.Mathlib.Decide.{ℕ_discrete}
use libclogger.FileSystem.{FileName, FileSystem, Lawful}
use libclogger.FileName.{numbered}
use libclogger.RollingFile.{RollingFile}
use libclogger.RollingFile.Names.{Dated, init, needs_file}
use libclogger.RollingFile.Update.{apply, update, uninit}
use libclogger.RollingFile.Rotate.{Rolled, Opened, update-Rolled, update_append}
use libclogger.RollingFile.Policy.{apply_ready}

abbrev Directory : Type 0
Directory = FileName → Option (List ℕ)

same_name : (a b : FileName) → Dec (a ≡ b)
same_name = List-discrete ℕ_discrete

-- the directory with the name `n` bound to `c`
put : Directory → FileName → Option (List ℕ) → Directory
put fs n c k = ite (same_name k n) c (fs k)

put_same : (fs : Directory) (n : FileName) (c : Option (List ℕ)) → put fs n c n ≡ c
unfolding put
put_same fs n c = if_pos (same_name n n) refl c (fs n)

put_other : (fs : Directory) (n k : FileName) (c : Option (List ℕ)) → k ≢ n → put fs n c k ≡ fs k
unfolding put
put_other fs n k c ne = if_neg (same_name k n) ne c (fs k)

abbrev present : Option (List ℕ) → Bool
present none = false
present (some c) = true

abbrev create_in : Option (List ℕ) → Directory → FileName → Option ℕ × Directory
create_in none fs n = (some 3, put fs n (some []))
create_in (some c) fs n = (none, fs)

-- The descriptor is always 3, and a write is not kept: the laws do not speak of it.
abbrev disk : FileSystem
disk = record {
  Files = Directory;
  contents = λ fs n. fs n;
  exists = λ fs n. present (fs n);
  remove = λ fs n. put fs n none;
  move = λ fs a b. put (put fs b (fs a)) a none;
  create = λ fs n. create_in (fs n) fs n;
  close = λ fs fd. fs;
  write = λ fs fd bytes. (present (some bytes), fs);
}

create_in-none :
    (found : Option (List ℕ)) (fs : Directory) (n : FileName)
    → found ≡ none
    → create_in found fs n ≡ (some 3, put fs n (some []))
create_in-none none fs n e = refl
create_in-none (some c) fs n e = cc

create_in-some :
    (found : Option (List ℕ)) (fs : Directory) (n : FileName) (c : List ℕ)
    → found ≡ some c
    → create_in found fs n ≡ (none, fs)
create_in-some none fs n c e = cc
create_in-some (some b) fs n c e = refl

create_in-other :
    (found : Option (List ℕ)) (fs : Directory) (n k : FileName)
    → k ≢ n
    → (create_in found fs n).1 k ≡ fs k
create_in-other none fs n k ne = put_other fs n k (some []) ne
create_in-other (some c) fs n k ne = refl

present-some : (found : Option (List ℕ)) (c : List ℕ) → found ≡ some c → present found ≡ true
present-some none c e = cc
present-some (some b) c e = refl

present-none : (found : Option (List ℕ)) → found ≡ none → present found ≡ false
present-none none e = refl
present-none (some b) e = cc

disk-Lawful : Lawful disk
disk-Lawful = record {
  exists_some = λ fs n c e. present-some (fs n) c e;
  exists_none = λ fs n e. present-none (fs n) e;
  remove_self = λ fs n. put_same fs n none;
  remove_other = λ fs n k ne. put_other fs n k none ne;
  move_to =
      λ fs a b ne. put_other (put fs b (fs a)) a b none (λ e. ne (sym e)) ∙ put_same fs b (fs a);
  move_from = λ fs a b ne. put_same (put fs b (fs a)) a none;
  move_other =
      λ fs a b k from to. put_other (put fs b (fs a)) a k none from ∙ put_other fs b k (fs a) to;
  create_new = λ fs n e.
      let made = create_in-none (fs n) fs n e in
      (3, ap (λ m. m.0) made, ap (λ m. m.1 n) made ∙ put_same fs n (some []));
  create_old = λ fs n c e. create_in-some (fs n) fs n c e;
  create_other = λ fs n k ne. create_in-other (fs n) fs n k ne;
  close_same = λ fs fd k. refl;
}

abbrev log_name : FileName
log_name = b'l' ∷ b'o' ∷ b'g' ∷ []

-- the file `log` in the folder `/`, written to
abbrev rolling : RollingFile
rolling = record (init (b'/' ∷ []) log_name) {
  maxfilesize = 1048576;
  maxfilecount = 3;
  loggingfile = some log_name;
  fhlogging = some 3;
  offsetbytes = 1048576;
}

abbrev appending : RollingFile
appending = record rolling { rollingappend = true; appendfileno = 2 }

abbrev files : Directory
files = put (λ n. none) log_name (some (65 ∷ 66 ∷ []))

abbrev today : List ℕ
today = b'0' ∷ b'1' ∷ []

update-Rolled_example :
    Rolled disk disk-Lawful log_name 3 (rolling, files) (update disk log_name (rolling, files))
unfolding init
update-Rolled_example = update-Rolled disk disk-Lawful log_name rolling files refl

-- After the file 2 comes the file 0 again.
update_append_example :
    (0 < 3)
    × (((update disk log_name (appending, files)).0.appendfileno ≡ 0)
        × Opened disk disk-Lawful log_name
            (appending, files)
            (numbered log_name 0)
            (update disk log_name (appending, files)))
update_append_example = update_append disk disk-Lawful log_name appending files refl (omega arith)

apply_ready_example :
    let rof' = (apply disk (rolling, files) today).0 in
    (rof'.offsetbytes < 1048576)
    × (rof'.maxfilesize ≡ 1048576)
    × (needs_file rof' today ≡ false)
    × Dated rof'.loggingfile rof'.pathname today
unfolding init
apply_ready_example = apply_ready disk rolling files today (omega arith)

module _ (sys : FileSystem) where
  open sys use {Files, close}

  -- Nothing was opened, and the descriptor 0 is closed.
  uninit_unused :
      (fs : Files) (prefix name : FileName) → (uninit sys (init prefix name, fs)).1 ≡ close fs 0
  unfolding uninit init
  uninit_unused fs prefix name = refl
