-- ===== src/Readconf/ReadValue.antt =====
-- `ConfReadValue` of source/common/readconf.c on a file as it is written.
use libclogger.Prelude.{
  ℕ, zero, suc, ◌+◌, ◌-◌, ◌<◌, ◌≡◌, ◌∙◌, refl, ap, Bool, Bool-cases, inl, inr, false, ◌&&◌, Option,
  none, some, List, [], ◌∷◌, ◌++◌, length, arith, length-append, ◌==◌,
}
use libclogger.Text.{byte_at}
use libclogger.Readconf.{in_section, same_text}
use libclogger.Readconf.Copy.{
  Copied, copied, not_found, copy_value, on_found, copy_loop, read_value,
}
use libclogger.Readconf.Lookup.{
  Entry, blank, note, section, setting, text_of, print, WellFormed, lookup, next_setting,
  next_pair-print,
}

-- no value goes on in the next line
abbrev pub OneLine : List Entry → Type 0
OneLine [] = Unit {0}
OneLine (blank ∷ entries) = OneLine entries
OneLine (note text ∷ entries) = OneLine entries
OneLine (section name ∷ entries) = OneLine entries
OneLine (setting key val ∷ entries) =
    ((byte_at val (length val - 1) == b'\\') ≡ false) × OneLine entries

-- the value in the buffer, and the bytes that it takes with its NUL; 0 for none
unfoldable pub copy_of : Option (List ℕ) → Copied
copy_of none = not_found
copy_of (some val) = copied val (length val + 1)

module _ (fails : Bool) (maxbufsize before : ℕ) (wanted : Option (List ℕ)) (key : List ℕ) where
  copy_value-copied :
      (val rest : List ℕ)
      → 0 < length val
      → (byte_at val (length val - 1) == b'\\') ≡ false
      → copy_value fails maxbufsize before (some val) rest ≡ copied val (length val + 1)
  unfolding copy_value
  copy_value-copied val rest pos ends =
      let some_bytes : (length val == 0) ≡ false = ground (arith, pos) in rw (some_bytes, ends) refl

  -- What is found behind the next setting is what is looked up in the lines.
  on_found-lookup :
      (again : List ℕ → List ℕ → Copied) (fuel : ℕ)
      → ((secname : List ℕ) (entries : List Entry)
          → WellFormed entries
          → OneLine entries
          → length (print entries) < fuel
          → again secname (print entries) ≡ copy_of (lookup wanted key secname entries))
      → (secname : List ℕ) (entries : List Entry) → WellFormed entries
      → OneLine entries
      → length (print entries) < suc fuel
      → on_found fails maxbufsize before wanted key again (next_setting secname entries)
        ≡ copy_of (lookup wanted key secname entries)
  unfolding on_found lookup copy_of next_setting print text_of
  on_found-lookup again fuel later secname [] h w lt = refl
  on_found-lookup again fuel later secname (blank ∷ entries) h w lt =
      on_found-lookup again fuel later secname entries h.1 w (omega arith)
  on_found-lookup again fuel later secname (note text ∷ entries) h w lt =
      on_found-lookup again fuel later secname entries h.1 w
        (omega (arith, length-append text (10 ∷ print entries)))
  on_found-lookup again fuel later secname (section name ∷ entries) h w lt =
      on_found-lookup again fuel later name entries h.1 w
        (omega (arith, length-append (name ++ b']' ∷ []) (10 ∷ print entries)))
  on_found-lookup again fuel later secname (setting k val ∷ entries) ((p, plain, short), h) w lt =
      elim (Bool-cases (in_section wanted secname && same_text k key)) [
        | inl hit ↦ rw hit (copy_value-copied val (print entries) p.1.0.0 w.0)
        | inr miss ↦ rw miss (
            later secname entries h w.1 (
              omega (
                arith,
                length-append (k ++ b'=' ∷ val) (10 ∷ print entries),
                length-append k (b'=' ∷ val),
              )))
      ]

  copy_loop-lookup :
      (fuel : ℕ) (secname : List ℕ) (entries : List Entry)
      → WellFormed entries
      → OneLine entries
      → length (print entries) < fuel
      → copy_loop fails maxbufsize before wanted key fuel secname (print entries)
        ≡ copy_of (lookup wanted key secname entries)
  unfolding copy_loop
  copy_loop-lookup zero secname entries h w lt = absurd (omega arith)
  copy_loop-lookup (suc fuel) secname entries h w lt =
      ap
        (on_found fails maxbufsize before wanted key
          (copy_loop fails maxbufsize before wanted key fuel))
        (next_pair-print fails (length (print entries) + 1) secname entries h (omega arith))
      ∙ on_found-lookup (copy_loop fails maxbufsize before wanted key fuel) fuel
          (copy_loop-lookup fuel) secname entries h w lt

  -- A file of blank lines, notes, sections and settings that are written down as they are, each value in one line:
  -- `ConfReadValue`, with a buffer that has room for the value, ends, and leaves in the buffer the value of the first setting of the
  -- key in the section that is asked for, or in any, and returns its length with the NUL; it returns 0
  -- exactly if there is no such setting. It never reads in front of the buffer.
  pub read_value-lookup :
      (entries : List Entry)
      → WellFormed entries
      → OneLine entries
      → read_value fails maxbufsize before wanted key (print entries)
        ≡ copy_of (lookup wanted key [] entries)
  unfolding read_value
  read_value-lookup entries h w =
      copy_loop-lookup (length (print entries) + 1) [] entries h w (omega arith)
