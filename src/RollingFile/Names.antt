-- ===== src/RollingFile/Names.antt =====
-- The paths that source/clogger/rollingfile.c makes from its two patterns, and the string tests of
-- source/common/cstrbuf.h that it uses.
use mathlib.Core.Option
use libclogger.Prelude.{
  zero, ◌<◌, ap₂, ap, ℕ, suc, ◌+◌, ◌-◌, Bool, true, false, ◌&&◌, Option, none, some, List, [], ◌∷◌,
  ◌++◌, length, leb, ◌==◌, if◌then◌else◌, drop, take, not, arith, ◌≡◌, refl, length-append,
}
use libclogger.FileSystem.{FileName}
use libclogger.RollingFile.{RollingFile, RollingTime}

-- `! memcmp(str, start, startlen)`, with `startlen` at most the length of `str`
unfoldable pub starts_with : List ℕ → List ℕ → Bool
starts_with str [] = true
starts_with [] (c ∷ start) = false
starts_with (b ∷ str) (c ∷ start) = b == c && starts_with str start

-- `cstr_endwith` for two different pointers
unfoldable pub ends_with : List ℕ → List ℕ → Bool
unfolding starts_with
ends_with str end =
    leb (length end) (length str) && starts_with (drop (length str - length end) str) end

-- `cstr_containwith` for two different pointers: the first place, none for -1
unfoldable pub contain_with : List ℕ → List ℕ → Option ℕ
unfolding starts_with
contain_with [] sub = if starts_with [] sub then some 0 else none
contain_with (b ∷ str) sub =
    let later = Option.map suc (contain_with str sub) in
    if starts_with (b ∷ str) sub then some 0 else later

abbrev pub separator : List ℕ
separator = b'/' ∷ []

-- `ROF_DATE_SYMBOL`
abbrev pub date_symbol : List ℕ
date_symbol = b'<' ∷ b'D' ∷ b'A' ∷ b'T' ∷ b'E' ∷ b'>' ∷ []

-- the name and the suffix that `pathname` and `datesuffix` get from `nameprefix`
unfoldable pub split_date : FileName → FileName × Option FileName
unfolding contain_with
split_date name = elim (contain_with name date_symbol) [
  | none ↦ (name, none)
  | some at ↦ (take at name, some (drop (at + length date_symbol) name))
]

-- `rollingfile_init` on a structure that `mem_alloc_zero` made: on Linux, where the separator is a
-- slash. The descriptor of such a structure is 0.
unfoldable pub init : FileName → FileName → RollingFile
unfolding ends_with split_date
init pathprefix nameprefix =
    let prefix = if ends_with pathprefix separator then pathprefix else pathprefix ++ separator in
    let (name, suffix) = split_date nameprefix in
    record {
      timepolicy = RollingTime.null;
      maxfilesize = 0;
      maxfilecount = 0;
      pathprefix = some prefix;
      nameprefix = some nameprefix;
      pathname = prefix ++ name;
      datesuffix = suffix;
      loggingfile = none;
      appendfileno = 0;
      fhlogging = some 0;
      offsetbytes = 0;
      rollingappend = false;
    }

abbrev pub suffix_or_empty : Option FileName → FileName
suffix_or_empty none = []
suffix_or_empty (some suffix) = suffix

-- The full path that `rollingfile_apply` makes. With no date a 0 takes its place, if the pattern has
-- one.
unfoldable pub log_path : RollingFile → List ℕ → FileName
log_path rof [] = elim rof.datesuffix [
  | none ↦ rof.pathname
  | some suffix ↦ rof.pathname ++ (b'0' ∷ suffix)
]
log_path rof (d ∷ date) = rof.pathname ++ ((d ∷ date) ++ suffix_or_empty rof.datesuffix)

-- Whether `rollingfile_apply` opens a file: the first time, or when the name of the file in use does
-- not go on with the date.
unfoldable pub other_date : Option FileName → FileName → List ℕ → Bool
unfolding starts_with
other_date none pathname date = true
other_date (some file) pathname [] = false
other_date (some file) pathname (d ∷ date) = not (
    leb (length (d ∷ date)) (length file - length pathname)
    && starts_with (drop (length pathname) file) (d ∷ date))

unfoldable pub needs_file : RollingFile → List ℕ → Bool
unfolding other_date
needs_file rof date = other_date rof.loggingfile rof.pathname date

drop-append : (xs ys : List ℕ) → drop (length xs) (xs ++ ys) ≡ ys
drop-append [] ys = refl
drop-append (x ∷ xs) ys = drop-append xs ys

starts_with-append : (xs ys : List ℕ) → starts_with (xs ++ ys) xs ≡ true
unfolding starts_with
starts_with-append [] ys = refl
starts_with-append (x ∷ xs) ys = ground (arith, starts_with-append xs ys)

-- The name that `rollingfile_apply` makes for a date has that date.
pub other_date-log_path :
    (rof : RollingFile) (d : ℕ) (date : List ℕ)
    → other_date (some (log_path rof (d ∷ date))) rof.pathname (d ∷ date) ≡ false
unfolding other_date log_path
other_date-log_path rof d date =
    let rest = suffix_or_empty rof.datesuffix in
    rw (drop-append rof.pathname ((d ∷ date) ++ rest), starts_with-append (d ∷ date) rest)
      (ground (arith, length-append rof.pathname ((d ∷ date) ++ rest), length-append date rest))

-- What starts with the bytes has them in front.
starts_with-split :
    (xs ys : List ℕ) → starts_with xs ys ≡ true → (rest : List ℕ) × (xs ≡ ys ++ rest)
unfolding starts_with
starts_with-split xs [] e = (xs, refl)
starts_with-split [] (y ∷ ys) e = cc
starts_with-split (x ∷ xs) (y ∷ ys) e =
    let same : x ≡ y = ground arith in
    let later = starts_with-split xs ys (ground arith) in (later.0, ap₂ ◌∷◌ same later.1)

-- The name has the bytes of the date behind `n` others.
abbrev pub DateAt : ℕ → FileName → List ℕ → Type 0
DateAt n name date =
    (front : FileName) × (rest : FileName) × (name ≡ front ++ (date ++ rest)) × (length front ≡ n)

starts_with-DateAt :
    (n : ℕ) (name date : List ℕ)
    → n < length name
    → starts_with (drop n name) date ≡ true
    → DateAt n name date
starts_with-DateAt zero name date lt e =
    let split = starts_with-split name date e in ([], split.0, split.1, refl)
starts_with-DateAt (suc n) [] date lt e = absurd (omega arith)
starts_with-DateAt (suc n) (c ∷ name) date lt e =
    let later = starts_with-DateAt n name date (omega arith) e in
    (c ∷ later.0, later.1, ap (λ t. c ∷ t) later.2, ap suc later.3)

-- The name of the file that is in use, with the date behind the path if there is a date.
abbrev pub Dated : Option FileName → FileName → List ℕ → Type 0
Dated none pathname date = ⊥
Dated (some name) pathname [] = Unit {0}
Dated (some name) pathname (d ∷ date) = DateAt (length pathname) name (d ∷ date)

pub other_date-Dated :
    (file : Option FileName) (pathname : FileName) (date : List ℕ)
    → other_date file pathname date ≡ false
    → Dated file pathname date
unfolding other_date
other_date-Dated none pathname date e = cc
other_date-Dated (some name) pathname [] e = tt
other_date-Dated (some name) pathname (d ∷ date) e =
    starts_with-DateAt (length pathname) name (d ∷ date) (ground arith) (ground arith)
