-- ===== src/Readconf/Lookup.antt =====
-- `ConfGetNextPair` and `ConfReadValueRef` of source/common/readconf.c on a file as it is written.
use libclogger.Prelude.{
  ℕ, zero, suc, ◌+◌, ◌-◌, ◌≤◌, ◌<◌, ◌≡◌, refl, sym, ap, ◌∙◌, Bool, Bool-cases, inl, inr, true,
  false, ◌&&◌, Option, none, some, List, [], ◌∷◌, ◌++◌, length, arith, length-append, ltb, leb,
  lt→ltb, ◌==◌, if◌then◌else◌,
}
use mathlib.Core.List.{append_assoc}
use libclogger.Text.{byte_at, any_chr}
use libclogger.Text.Trim.{take-append, byte_at-append}
use libclogger.Readconf.{
  linesize_max, secname_max, ltrim, rtrim, behind_last, dtrim, line, read_from, readln, splitpair,
  Next, pair, stop, is_section, on_text, on_line, next_pair, same_text, in_section, Value,
  freed_value, missing, on_next, find_value, read_value_ref,
}
use libclogger.Readconf.Lines.{
  Plain, Tight, byte_at-behind, dtrim-Tight, readln-line, split_at-append,
}

-- a line of a configuration file
pub data Entry : Type 0 where
  blank : Entry
  note section : List ℕ → Entry
  setting : List ℕ → List ℕ → Entry

-- its text
unfoldable pub text_of : Entry → List ℕ
text_of blank = []
text_of (note text) = b'#' ∷ text
text_of (section name) = b'[' ∷ name ++ b']' ∷ []
text_of (setting key val) = key ++ b'=' ∷ val

unfoldable pub print : List Entry → List ℕ
print [] = []
print (entry ∷ entries) = text_of entry ++ 10 ∷ print entries

-- no white space at the ends
abbrev pub Trim : List ℕ → Type 0
Trim str = Tight 32 str × Tight 9 str

-- The texts that can be written down as they are: a key is not empty, has no '=', and begins with
-- neither '#' nor '['; a value is not empty and has no quotes at its ends.
abbrev pub Proper : Entry → Type 0
Proper blank = Unit {0}
Proper (note text) = Trim (b'#' ∷ text)
Proper (section name) = (0 < length name) × (length name + 2 ≤ secname_max)
Proper (setting key val) =
    Trim key
    × Trim val
    × Tight 34 val
    × (any_chr key b'=' ≡ false)
    × ((byte_at key 0 == b'#') ≡ false)
    × ((byte_at key 0 == b'[') ≡ false)

-- lines of plain bytes that fit into the buffer
abbrev pub WellFormed : List Entry → Type 0
WellFormed [] = Unit {0}
WellFormed (entry ∷ entries) =
    (Proper entry × Plain (text_of entry) × (length (text_of entry) < linesize_max))
    × WellFormed entries

-- The value of the first setting of a key, in a section if one is given.
unfoldable pub lookup : Option (List ℕ) → List ℕ → List ℕ → List Entry → Option (List ℕ)
lookup wanted key secname [] = none
lookup wanted key secname (blank ∷ entries) = lookup wanted key secname entries
lookup wanted key secname (note text ∷ entries) = lookup wanted key secname entries
lookup wanted key secname (section name ∷ entries) = lookup wanted key name entries
lookup wanted key secname (setting k val ∷ entries) =
    let later = lookup wanted key secname entries in
    if in_section wanted secname && same_text k key then some val else later

-- what `ConfReadValueRef` makes of a value that is looked up
unfoldable pub answer : Option (List ℕ) → Value
answer none = missing
answer (some val) = freed_value (some val)

-- the next pair that is written
unfoldable pub next_setting : List ℕ → List Entry → Next
next_setting secname [] = stop secname
next_setting secname (blank ∷ entries) = next_setting secname entries
next_setting secname (note text ∷ entries) = next_setting secname entries
next_setting secname (section name ∷ entries) = next_setting name entries
next_setting secname (setting key val ∷ entries) = pair key (some val) secname (print entries)

Trim-dtrim : (str : List ℕ) → Trim str → dtrim (dtrim str 32) 9 ≡ str
Trim-dtrim str (spaces, tabs) =
    ap (λ t. dtrim t 9) (dtrim-Tight str 32 spaces) ∙ dtrim-Tight str 9 tabs

-- two strings with a byte between: the ends are those of the two
Tight-between : (c sep : ℕ) (xs ys : List ℕ) → Tight c xs → Tight c ys → Tight c (xs ++ sep ∷ ys)
unfolding byte_at
Tight-between c sep [] ys (pos, first, last) k = absurd (omega arith)
Tight-between c sep (x ∷ xs) ys (pos, first, last) (pos', first', last') = (
  omega arith,
  first,
  ap (λ t. byte_at t (length t - 1) == c) (sym (append_assoc (x ∷ xs) (sep ∷ []) ys))
      ∙ ap (λ b. b == c) (byte_at-behind (x ∷ xs ++ sep ∷ []) ys pos')
      ∙ last',
)

bracketed :
    (c : ℕ) (name : List ℕ)
    → (b'[' == c) ≡ false
    → (b']' == c) ≡ false
    → Tight c (b'[' ∷ name ++ b']' ∷ [])
unfolding byte_at
bracketed c name first last = (
  omega arith,
  first,
  ap (λ b. b == c) (byte_at-behind (b'[' ∷ name) (b']' ∷ []) (omega arith)) ∙ last,
)

no_bracket : (str : List ℕ) → (byte_at str 0 == b'[') ≡ false → is_section str ≡ false
unfolding is_section
no_bracket str h = rw h (and_false (leb (length str) secname_max))
  where
    and_false : (v : Bool) → (v && false) ≡ false
    and_false true = refl
    and_false false = refl

splitpair-setting :
    (key val : List ℕ)
    → Trim key
    → Trim val
    → Tight 34 val
    → any_chr key b'=' ≡ false
    → splitpair (key ++ b'=' ∷ val) ≡ (key, some val)
unfolding splitpair
splitpair-setting key val trim_key trim_val quotes no_sep =
    rw
      (
        split_at-append b'=' key val no_sep,
        Trim-dtrim key trim_key,
        Trim-dtrim val trim_val,
        dtrim-Tight val 34 quotes,
      )
      refl

at_end :
    (fails : Bool) (again : List ℕ → List ℕ → Next) (secname : List ℕ)
    → on_line again secname (readln fails []) ≡ stop secname
unfolding on_line readln read_from
at_end true again secname = refl
at_end false again secname = refl

module _ (again : List ℕ → List ℕ → Next) (secname rest : List ℕ) where
  on_blank : on_line again secname (line [] rest) ≡ again secname rest
  unfolding on_line on_text byte_at dtrim ltrim rtrim behind_last
  on_blank = refl

  on_note : (text : List ℕ) → on_text again secname (b'#' ∷ text) rest ≡ again secname rest
  unfolding on_text byte_at
  on_note text = refl

  on_section :
      (name : List ℕ)
      → 0 < length name
      → length name + 2 ≤ secname_max
      → on_text again secname (b'[' ∷ name ++ b']' ∷ []) rest ≡ again name rest
  unfolding on_text is_section byte_at
  on_section name pos le =
      let total : length (name ++ b']' ∷ []) ≡ length name + 1 = length-append name (b']' ∷ []) in
      let long : ltb 2 (suc (length (name ++ b']' ∷ []))) ≡ true = ground (arith, total) in
      let short : leb (suc (length (name ++ b']' ∷ []))) secname_max ≡ true =
        ground (arith, total) in
      let last : (byte_at (b'[' ∷ name ++ b']' ∷ []) (suc (length (name ++ b']' ∷ [])) - 1) == b']')
          ≡ true =
        ap (λ b. b == b']') (byte_at-behind (b'[' ∷ name) (b']' ∷ []) (omega arith)) in
      let cut : suc (length (name ++ b']' ∷ [])) - 2 ≡ length name = omega (arith, total) in
      rw (long, short, last, cut) (ap (λ n. again n rest) (take-append name (b']' ∷ [])))

  on_setting :
      (key val : List ℕ)
      → Proper (setting key val)
      → on_text again secname (key ++ b'=' ∷ val) rest ≡ pair key (some val) secname rest
  unfolding on_text
  on_setting key val (trim_key, trim_val, quotes, no_sep, no_note, no_section) =
      let front : byte_at (key ++ b'=' ∷ val) 0 ≡ byte_at key 0 =
        byte_at-append key (b'=' ∷ val) trim_key.0.0 in
      let remark : (byte_at (key ++ b'=' ∷ val) 0 == b'#') ≡ false =
        ap (λ b. b == b'#') front ∙ no_note in
      let other = no_bracket (key ++ b'=' ∷ val) (ap (λ b. b == b'[') front ∙ no_section) in
      let long : ltb 2 (length (key ++ b'=' ∷ val)) ≡ true =
        lt→ltb _ _ (omega (arith, length-append key (b'=' ∷ val), trim_key.0.0, trim_val.0.0)) in
      rw (remark, long, other, splitpair-setting key val trim_key trim_val quotes no_sep) refl

pub next_pair-print :
    (fails : Bool) (fuel : ℕ) (secname : List ℕ) (entries : List Entry)
    → WellFormed entries
    → length (print entries) < fuel
    → next_pair fails fuel secname (print entries) ≡ next_setting secname entries
unfolding next_pair next_setting print text_of on_line
next_pair-print fails zero secname entries h lt = absurd (omega arith)
next_pair-print fails (suc fuel) secname [] h lt = at_end fails (next_pair fails fuel) secname
next_pair-print fails (suc fuel) secname (blank ∷ entries) ((p, plain, short), h) lt =
    rw (readln-line fails [] (print entries) plain short) (
      on_blank (next_pair fails fuel) secname (print entries)
      ∙ next_pair-print fails fuel secname entries h (omega arith))
next_pair-print fails (suc fuel) secname (note text ∷ entries) ((p, plain, short), h) lt =
    rw (readln-line fails (b'#' ∷ text) (print entries) plain short) (
      ap (λ t. on_text (next_pair fails fuel) secname t (print entries))
        (Trim-dtrim (b'#' ∷ text) p)
      ∙ on_note (next_pair fails fuel) secname (print entries) text
      ∙ next_pair-print fails fuel secname entries h
          (omega (arith, length-append text (10 ∷ print entries))))
next_pair-print fails (suc fuel) secname (section name ∷ entries) ((p, plain, short), h) lt =
    rw (readln-line fails (b'[' ∷ name ++ b']' ∷ []) (print entries) plain short) (
      ap (λ t. on_text (next_pair fails fuel) secname t (print entries))
        (Trim-dtrim (b'[' ∷ name ++ b']' ∷ [])
          (bracketed 32 name refl refl, bracketed 9 name refl refl))
      ∙ on_section (next_pair fails fuel) secname (print entries) name p.0 p.1
      ∙ next_pair-print fails fuel name entries h
          (omega (arith, length-append (name ++ b']' ∷ []) (10 ∷ print entries))))
next_pair-print fails (suc fuel) secname (setting key val ∷ entries) ((p, plain, short), h) lt =
    rw (readln-line fails (key ++ b'=' ∷ val) (print entries) plain short) (
      ap (λ t. on_text (next_pair fails fuel) secname t (print entries))
        (Trim-dtrim (key ++ b'=' ∷ val)
          (Tight-between 32 b'=' key val p.0.0 p.1.0, Tight-between 9 b'=' key val p.0.1 p.1.1))
      ∙ on_setting (next_pair fails fuel) secname (print entries) key val p)

module _ (wanted : Option (List ℕ)) (key : List ℕ) (again : List ℕ → List ℕ → Value)
    (fuel : ℕ) where
  -- What is found behind the next setting is what is looked up in the lines.
  on_next-lookup :
      ((secname : List ℕ) (entries : List Entry)
        → WellFormed entries
        → length (print entries) < fuel
        → again secname (print entries) ≡ answer (lookup wanted key secname entries))
      → (secname : List ℕ) (entries : List Entry) → WellFormed entries
      → length (print entries) < suc fuel
      → on_next wanted key again (next_setting secname entries)
        ≡ answer (lookup wanted key secname entries)
  unfolding on_next lookup answer next_setting print text_of
  on_next-lookup later secname [] h lt = refl
  on_next-lookup later secname (blank ∷ entries) h lt =
      on_next-lookup later secname entries h.1 (omega arith)
  on_next-lookup later secname (note text ∷ entries) h lt =
      on_next-lookup later secname entries h.1
        (omega (arith, length-append text (10 ∷ print entries)))
  on_next-lookup later secname (section name ∷ entries) h lt =
      on_next-lookup later name entries h.1
        (omega (arith, length-append (name ++ b']' ∷ []) (10 ∷ print entries)))
  on_next-lookup later secname (setting k val ∷ entries) h lt =
      elim (Bool-cases (in_section wanted secname && same_text k key)) [
        | inl hit ↦ rw hit refl
        | inr miss ↦ rw miss (
            later secname entries h.1 (
              omega (
                arith,
                length-append (k ++ b'=' ∷ val) (10 ∷ print entries),
                length-append k (b'=' ∷ val),
              )))
      ]

find_value-lookup :
    (fails : Bool) (wanted : Option (List ℕ)) (key : List ℕ) (fuel : ℕ) (secname : List ℕ)
    (entries : List Entry)
    → WellFormed entries
    → length (print entries) < fuel
    → find_value fails wanted key fuel secname (print entries)
      ≡ answer (lookup wanted key secname entries)
unfolding find_value
find_value-lookup fails wanted key zero secname entries h lt = absurd (omega arith)
find_value-lookup fails wanted key (suc fuel) secname entries h lt =
    ap (on_next wanted key (find_value fails wanted key fuel))
      (next_pair-print fails (length (print entries) + 1) secname entries h (omega arith))
    ∙ on_next-lookup wanted key (find_value fails wanted key fuel) fuel
        (λ secname' entries' h' lt'.
          find_value-lookup fails wanted key fuel secname' entries' h' lt')
        secname entries h lt

-- A file of blank lines, notes, sections and settings that are written down as they are: `ConfReadValueRef`
-- ends and returns true exactly if there is a setting of the key in the section that is asked for, or
-- in any; its pointer goes to where the value of the first one stood when the line's buffer was freed.
read_value_ref-lookup :
    (fails : Bool) (entries : List Entry) (wanted : Option (List ℕ)) (key : List ℕ)
    → WellFormed entries
    → read_value_ref fails (print entries) wanted key ≡ answer (lookup wanted key [] entries)
unfolding read_value_ref
read_value_ref-lookup fails entries wanted key h =
    find_value-lookup fails wanted key (length (print entries) + 1) [] entries h (omega arith)
