-- ===== src/Ring/AloneRead.antt =====
-- `ringbufst_read_copy` of source/common/ringbufst.h cut at its accesses of the ring, when nothing comes in between,
-- against the function in one piece.
use libclogger.Prelude.{
  ℕ, suc, ◌≡◌, ◌≢◌, refl, ap, ◌∙◌, ◌⊎◌, inl, inr, List, [], ◌∷◌, ◌++◌, arith, Bool-cases, true,
  ◌==◌,
}
use mathlib.Core.List.{append-nil}
use libclogger.Ring.{Ring}
use libclogger.Ring.Content.{Message}
use libclogger.Ring.Holds.{Holds}
use libclogger.Ring.Read.{
  exceeds, Found, entry, skip, nothing, broken, fault, find_entry, skip_offset, CopyStatus,
  copy_found, read_copy_fuel, read_copy,
}
use libclogger.Ring.Dequeue.{skip_held, find_entry-ne-skip}
use libclogger.Ring.Threads.{
  Writer, r_idle, r_loaded, System, Turn, call_read, go_read, step, schedule, step_read, on_entry,
}

-- one call without the call to itself, with all of its accesses
abbrev pub single_turns : ℕ → List Turn
single_turns n = call_read n ∷ go_read ∷ go_read ∷ go_read ∷ go_read ∷ go_read ∷ []

-- the call of `ringbufst_read_copy` to itself, behind a tail
abbrev pub call_again : ℕ → Found → List Turn
call_again n skip = single_turns n
call_again n _ = []

abbrev pub read_turns : Ring → ℕ → List Turn
read_turns rb n = single_turns n ++ call_again n (find_entry rb.buffer rb.len rb.roffset rb.woffset)

abbrev pub received : CopyStatus → List Message
received (CopyStatus.copied x) = x ∷ []
received _ = []

module _ (wr : Writer) (ws : List Message) where
  abbrev outside : Ring → List Message → System
  outside rb cs = record { ring = rb; writer = wr; reader = r_idle; written = ws; copied = cs }

  -- the accesses behind the tests, by what those find
  found_alone :
      (rb : Ring) (cs : List Message) (n : ℕ) (rest : CopyStatus × Ring) (f : Found)
      → rb.rlock ≡ 0
      → f ≢ skip
      → schedule (go_read ∷ go_read ∷ go_read ∷ []) (
          on_entry n rb.woffset
            (record {
              ring = record rb { rlock = 1 };
              writer = wr;
              reader = r_loaded n rb.woffset;
              written = ws;
              copied = cs;
            })
            f)
        ≡ outside (copy_found rb n rest f).1 (cs ++ received (copy_found rb n rest f).0)
  unfolding schedule step step_read on_entry copy_found
  found_alone rb cs n rest (entry at size next) lock h = elim (Bool-cases (exceeds size n)) [
    | inl small ↦ rw (small, lock, append-nil) refl
    | inr enough ↦ rw (enough, lock) refl
  ]
  found_alone rb cs n rest skip lock h = absurd (h refl)
  found_alone rb cs n rest nothing lock h = rw (lock, append-nil) refl
  found_alone rb cs n rest broken lock h = rw (lock, append-nil) refl
  found_alone rb cs n rest fault lock h = rw (lock, append-nil) refl

  single_alone :
      (fuel : ℕ) (rb : Ring) (cs : List Message) (n : ℕ)
      → rb.rlock ≡ 0
      → find_entry rb.buffer rb.len rb.roffset rb.woffset ≢ skip
      → schedule (single_turns n) (outside rb cs)
        ≡ outside
            (read_copy_fuel (suc fuel) rb n).1
            (cs ++ received (read_copy_fuel (suc fuel) rb n).0)
  unfolding schedule step step_read read_copy_fuel
  single_alone fuel rb cs n lock h =
      let free : (rb.rlock == 0) ≡ true = ground arith in
      rw free (
        found_alone rb cs n (read_copy_fuel fuel (record rb { roffset = skip_offset rb }) n)
          (find_entry rb.buffer rb.len rb.roffset rb.woffset) lock h)

  skip_alone :
      (rb : Ring) (cs : List Message) (n : ℕ)
      → rb.rlock ≡ 0
      → find_entry rb.buffer rb.len rb.roffset rb.woffset ≡ skip
      → schedule (single_turns n) (outside rb cs)
        ≡ outside (record rb { roffset = skip_offset rb }) cs
  unfolding schedule step step_read on_entry
  skip_alone rb cs n lock e =
      let free : (rb.rlock == 0) ≡ true = ground arith in rw (free, e, lock) refl

schedule-append :
    (ts us : List Turn) (s : System) → schedule (ts ++ us) s ≡ schedule us (schedule ts s)
unfolding schedule
schedule-append [] us s = refl
schedule-append (t ∷ ts) us s = schedule-append ts us (step t s)

call_again-none : (n : ℕ) (f : Found) → f ≢ skip → call_again n f ≡ []
call_again-none n (entry at size next) h = refl
call_again-none n skip h = absurd (h refl)
call_again-none n nothing h = refl
call_again-none n broken h = refl
call_again-none n fault h = refl

skip_dec : (f : Found) → (f ≡ skip) ⊎ (f ≢ skip)
skip_dec (entry at size next) = inr (λ e. cc)
skip_dec skip = inl refl
skip_dec nothing = inr (λ e. cc)
skip_dec broken = inr (λ e. cc)
skip_dec fault = inr (λ e. cc)

read_copy_fuel_skip :
    (fuel : ℕ) (rb : Ring) (n : ℕ)
    → (rb.rlock == 0) ≡ true
    → find_entry rb.buffer rb.len rb.roffset rb.woffset ≡ skip
    → read_copy_fuel (suc fuel) rb n
      ≡ read_copy_fuel fuel (record rb { roffset = skip_offset rb }) n
unfolding read_copy_fuel copy_found
read_copy_fuel_skip fuel rb n free e = rw (free, e) refl

-- A call of `ringbufst_read_copy` on a ring that holds `q`, the read lock free, also with a thread inside the
-- writer: if no other thread comes in between, its accesses, those of its call to itself at a zeroed tail
-- included, do what the function in one piece does, the ring and the bytes in `rdbuf` included.
pub read_copy-alone :
    (rb : Ring) (wr : Writer) (ws cs : List Message) (n : ℕ) (q : List Message)
    → rb.rlock ≡ 0
    → Holds rb q
    → schedule
        (read_turns rb n)
        (record { ring = rb; writer = wr; reader = r_idle; written = ws; copied = cs })
      ≡ record {
        ring = (read_copy rb n).1;
        writer = wr;
        reader = r_idle;
        written = ws;
        copied = cs ++ received (read_copy rb n).0;
      }
unfolding read_copy schedule
read_copy-alone rb wr ws cs n q lock h =
    schedule-append (single_turns n)
      (call_again n (find_entry rb.buffer rb.len rb.roffset rb.woffset)) (outside wr ws rb cs)
    ∙ elim (skip_dec (find_entry rb.buffer rb.len rb.roffset rb.woffset)) [
      | inl e ↦
          ap (λ f. schedule (call_again n f) (schedule (single_turns n) (outside wr ws rb cs))) e
          ∙ ap (schedule (single_turns n)) (skip_alone wr ws rb cs n lock e)
          ∙ skipped e
      | inr e ↦
          rw (call_again-none n (find_entry rb.buffer rb.len rb.roffset rb.woffset) e)
            (single_alone wr ws 1 rb cs n lock e)
    ]
  where
    rb' : Ring
    rb' = record rb { roffset = skip_offset rb }

    twice :
        find_entry rb.buffer rb.len rb.roffset rb.woffset ≡ skip
        → read_copy_fuel 2 rb n ≡ read_copy_fuel 1 rb' n
    twice e = let free : (rb.rlock == 0) ≡ true = ground arith in read_copy_fuel_skip 1 rb n free e

    skipped :
        find_entry rb.buffer rb.len rb.roffset rb.woffset ≡ skip
        → schedule (single_turns n) (outside wr ws rb' cs)
          ≡ outside wr ws (read_copy_fuel 2 rb n).1 (cs ++ received (read_copy_fuel 2 rb n).0)
    skipped e = rw (twice e) (
        single_alone wr ws 0 rb' cs n lock
          (find_entry-ne-skip rb.buffer rb.len (skip_offset rb) rb.woffset (skip_held rb q h e).2))
