-- ===== src/Readconf/Ends.antt =====
-- The loops of source/common/readconf.c end on every file.
use libclogger.Prelude.{
  ℕ, zero, suc, ◌+◌, ◌-◌, ◌<◌, ◌≢◌, ap, Bool, false, ◌&&◌, Option, none, some, List, [], ◌∷◌,
  length, take, drop, arith, length-append, ltb, ◌==◌, Bool-cases, if_elim, inl, inr,
}
use libclogger.Text.{byte_at}
use libclogger.Readconf.{
  linesize_max, dtrim, Line, line, end_file, failed, too_long, readln, Next, pair, stop, starved,
  is_section, on_text, on_line, next_pair, same_text, in_section, out_of_fuel, on_next, find_value,
  read_value_ref,
}
use libclogger.Readconf.Copy.{
  Copied, no_fuel, on_start, on_more, go_on, copy_value, on_found, copy_loop, read_value,
}
use libclogger.Readconf.Outcomes.{Reads, readln-Reads}

-- a line takes bytes out of the file
shorter :
    (fails : Bool) (room : ℕ) (bytes text rest : List ℕ)
    → Reads fails room false [] bytes (line text rest)
    → length rest < length bytes
shorter fails room bytes text rest (before, running, fits, inl (e, nothing, t, ok, inl any)) =
    absurd (cc any)
shorter fails room bytes text rest
      (before, running, fits, inl (e, nothing, t, ok, inr some_bytes)) =
    omega (arith, ap length nothing, some_bytes)
shorter fails room bytes text rest (before, running, fits, inr (c, e, s, t)) =
    omega (arith, ap length e, length-append before (c ∷ rest))

-- the fuel did not run out, and a pair takes bytes out of the file
abbrev EndsIn : List ℕ → Next → Type 0
EndsIn bytes (pair k v secname rest) = length rest < length bytes
EndsIn bytes (stop secname) = Unit {0}
EndsIn bytes starved = ⊥

EndsIn-longer :
    (rest bytes : List ℕ) (next : Next)
    → length rest < length bytes
    → EndsIn rest next
    → EndsIn bytes next
EndsIn-longer rest bytes (pair k v secname left) lt h = omega (arith, h)
EndsIn-longer rest bytes (stop secname) lt h = tt
EndsIn-longer rest bytes starved lt h = absurd h

on_text-EndsIn :
    (again : List ℕ → List ℕ → Next) (secname start rest bytes : List ℕ)
    → length rest < length bytes
    → ((secname' : List ℕ) → EndsIn bytes (again secname' rest))
    → EndsIn bytes (on_text again secname start rest)
unfolding on_text
on_text-EndsIn again secname start rest bytes lt h = elim (Bool-cases (byte_at start 0 == b'#')) [
  | inl remark ↦ rw remark (h secname)
  | inr other ↦ rw other (elim (Bool-cases (ltb 2 (length start))) [
    | inl long ↦ rw long (elim (Bool-cases (is_section start)) [
      | inl section ↦ rw section (h (take (length start - 2) (drop 1 start)))
      | inr setting ↦ rw setting lt
    ])
    | inr short ↦ rw short (h secname)
  ])
]

next_pair-EndsIn :
    (fails : Bool) (fuel : ℕ) (secname bytes : List ℕ)
    → length bytes < fuel
    → EndsIn bytes (next_pair fails fuel secname bytes)
unfolding next_pair on_line
next_pair-EndsIn fails zero secname bytes lt = absurd (omega arith)
next_pair-EndsIn fails (suc fuel) secname bytes lt =
    go (readln fails bytes) (readln-Reads fails bytes) (λ rest secname' less.
      EndsIn-longer rest bytes (next_pair fails fuel secname' rest) less
        (next_pair-EndsIn fails fuel secname' rest (omega arith)))
  where
    go :
        (result : Line)
        → Reads fails linesize_max false [] bytes result
        → ((rest secname' : List ℕ)
            → length rest < length bytes
            → EndsIn bytes (next_pair fails fuel secname' rest))
        → EndsIn bytes (on_line (next_pair fails fuel) secname result)
    go (line text rest) r later =
        let less = shorter fails linesize_max bytes text rest r in
        on_text-EndsIn (next_pair fails fuel) secname (dtrim (dtrim text 32) 9) rest bytes less
          (λ secname'. later rest secname' less)
    go end_file r later = tt
    go failed r later = tt
    go (too_long rest) r later = tt

find_value-ends :
    (fails : Bool) (wanted : Option (List ℕ)) (key : List ℕ) (fuel : ℕ) (secname bytes : List ℕ)
    → length bytes < fuel
    → find_value fails wanted key fuel secname bytes ≢ out_of_fuel
unfolding find_value on_next
find_value-ends fails wanted key zero secname bytes lt = absurd (omega arith)
find_value-ends fails wanted key (suc fuel) secname bytes lt =
    go (next_pair fails (length bytes + 1) secname bytes)
      (next_pair-EndsIn fails (length bytes + 1) secname bytes (omega arith))
      (λ rest secname' less. find_value-ends fails wanted key fuel secname' rest (omega arith))
  where
    go :
        (next : Next)
        → EndsIn bytes next
        → ((rest secname' : List ℕ)
            → length rest < length bytes
            → find_value fails wanted key fuel secname' rest ≢ out_of_fuel)
        → on_next wanted key (find_value fails wanted key fuel) next ≢ out_of_fuel
    go (pair k v secname' rest) less later =
        elim (Bool-cases (in_section wanted secname' && same_text k key)) [
          | inl hit ↦ rw hit (λ e. cc e)
          | inr miss ↦ rw miss (later rest secname' less)
        ]
    go (stop secname') less later = λ e. cc e
    go starved less later = absurd less

-- the loop over the lines that go on with a value
on_start-ends :
    (again : List ℕ → ℕ → List ℕ → Copied) (maxbufsize : ℕ) (valbuf : List ℕ) (valsz : ℕ)
    (start rest : List ℕ)
    → ((valbuf' : List ℕ) (valsz' : ℕ) → again valbuf' valsz' rest ≢ no_fuel)
    → on_start again maxbufsize valbuf valsz start rest ≢ no_fuel
unfolding on_start
on_start-ends again maxbufsize valbuf valsz start rest later =
    let more = dtrim (dtrim (drop 1 start) 32) 9 in
    let goes_on = ltb 0 (length more) && byte_at more (length more - 1) == b'\\' in
    elim (Bool-cases (byte_at start 0 == b'#')) [
      | inl remark ↦ rw remark (later valbuf valsz)
      | inr other ↦ rw other (elim (Bool-cases (byte_at start 0 == b'+')) [
        | inl plus ↦ rw plus (if_elim (λ c. c ≢ no_fuel) goes_on (later _ _) (λ e. cc e))
        | inr ends ↦ rw ends (λ e. cc e)
      ])
    ]

go_on-ends :
    (fails : Bool) (maxbufsize fuel : ℕ) (valbuf : List ℕ) (valsz : ℕ) (bytes : List ℕ)
    → length bytes < fuel
    → go_on fails maxbufsize fuel valbuf valsz bytes ≢ no_fuel
unfolding go_on on_more
go_on-ends fails maxbufsize zero valbuf valsz bytes lt = absurd (omega arith)
go_on-ends fails maxbufsize (suc fuel) valbuf valsz bytes lt =
    go (readln fails bytes) (readln-Reads fails bytes) (λ rest less valbuf' valsz'.
      go_on-ends fails maxbufsize fuel valbuf' valsz' rest (omega arith))
  where
    go :
        (result : Line)
        → Reads fails linesize_max false [] bytes result
        → ((rest : List ℕ)
            → length rest < length bytes
            → (valbuf' : List ℕ) (valsz' : ℕ)
            → go_on fails maxbufsize fuel valbuf' valsz' rest ≢ no_fuel)
        → on_more (go_on fails maxbufsize fuel) maxbufsize valbuf valsz result ≢ no_fuel
    go (line text rest) r later =
        on_start-ends (go_on fails maxbufsize fuel) maxbufsize valbuf valsz
          (dtrim (dtrim text 32) 9) rest (later rest (shorter fails linesize_max bytes text rest r))
    go end_file r later = λ e. cc e
    go failed r later = λ e. cc e
    go (too_long rest) r later = λ e. cc e

copy_value-ends :
    (fails : Bool) (maxbufsize before : ℕ) (v : Option (List ℕ)) (rest : List ℕ)
    → copy_value fails maxbufsize before v rest ≢ no_fuel
unfolding copy_value
copy_value-ends fails maxbufsize before none rest = λ e. cc e
copy_value-ends fails maxbufsize before (some val) rest =
    if_elim (λ c. c ≢ no_fuel) (length val == 0)
      (if_elim (λ c. c ≢ no_fuel) (before == b'\\') (λ e. cc e) (λ e. cc e))
      (if_elim (λ c. c ≢ no_fuel) (byte_at val (length val - 1) == b'\\')
        (go_on-ends fails maxbufsize (length rest + 1) val (length val + 1) rest (omega arith))
        (λ e. cc e))

module _ (fails : Bool) (maxbufsize before : ℕ) (wanted : Option (List ℕ)) (key : List ℕ) where
  copy_loop-ends :
      (fuel : ℕ) (secname bytes : List ℕ)
      → length bytes < fuel
      → copy_loop fails maxbufsize before wanted key fuel secname bytes ≢ no_fuel
  unfolding copy_loop on_found
  copy_loop-ends zero secname bytes lt = absurd (omega arith)
  copy_loop-ends (suc fuel) secname bytes lt =
      go (next_pair fails (length bytes + 1) secname bytes)
        (next_pair-EndsIn fails (length bytes + 1) secname bytes (omega arith))
        (λ rest secname' less. copy_loop-ends fuel secname' rest (omega arith))
    where
      go :
          (next : Next)
          → EndsIn bytes next
          → ((rest secname' : List ℕ)
              → length rest < length bytes
              → copy_loop fails maxbufsize before wanted key fuel secname' rest ≢ no_fuel)
          → on_found fails maxbufsize before wanted key
              (copy_loop fails maxbufsize before wanted key fuel)
              next
            ≢ no_fuel
      go (pair k v secname' rest) less later =
          elim (Bool-cases (in_section wanted secname' && same_text k key)) [
            | inl hit ↦ rw hit (copy_value-ends fails maxbufsize before v rest)
            | inr miss ↦ rw miss (later rest secname' less)
          ]
      go (stop secname') less later = λ e. cc e
      go starved less later = absurd less

-- `ConfReadValueRef` and `ConfReadValue` end on every file, whatever is in it, also where a read fails.
pub read_value-ends :
    (fails : Bool) (maxbufsize before : ℕ) (bytes : List ℕ) (wanted : Option (List ℕ))
    (key : List ℕ)
    → (read_value_ref fails bytes wanted key ≢ out_of_fuel)
      × (read_value fails maxbufsize before wanted key bytes ≢ no_fuel)
unfolding read_value_ref read_value
read_value-ends fails maxbufsize before bytes wanted key = (
  find_value-ends fails wanted key (length bytes + 1) [] bytes (omega arith),
  copy_loop-ends fails maxbufsize before wanted key (length bytes + 1) [] bytes (omega arith),
)
