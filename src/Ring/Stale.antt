-- ===== src/Ring/Stale.antt =====
-- A reader of the ring of source/common/ringbufst.h that loaded the write offset earlier sees the first messages
-- of the queue: it finds nothing, or what stands at the current offsets.
pub mod Find
use libclogger.Prelude.{
  ℕ, ◌+◌, ◌-◌, ◌*◌, ◌/◌, ◌%◌, ◌^◌, ◌≤◌, ◌<◌, ◌≡◌, refl, sym, ap, ◌∙◌, ◌⊎◌, inl, inr, List, [], ◌∷◌,
  ◌++◌, arith, length,
}
use mathlib.Core.Path.{subst}
use mathlib.Core.List.{append_assoc}
use native.Mathlib.Decide.{dec_lt}
use libclogger.Memory.{Mem, load, load_word, load_word-congr}
use libclogger.Ring.{align_entrysize, restore_wrap, int_cast, normalize_offset}
use libclogger.Ring.Offsets.{At, align_entrysize_bounds, restore_wrap_same, restore_wrap_other}
use libclogger.Ring.Content.{Message, IsEntry, Segment, Segment-le, Segment-congr}
use libclogger.Ring.Holds.{Frame, HoldsAt, flat, wrapped}
use libclogger.Ring.Read.{Found, entry, skip, nothing, find_entry}
use libclogger.Ring.Dequeue.FindEntry.{
  find_entry_flat_empty, find_entry_flat, find_entry_wrapped, find_entry_skip, find_entry_start,
}

-- Memory tells which entry stands at an address.
IsEntry-unique : (m : Mem) (a : ℕ) (x y : Message) → IsEntry m a x → IsEntry m a y → x ≡ y
IsEntry-unique m a x y ex ey = sym ex.chunk ∙ ap (load m (a + 8)) (sym ex.size ∙ ey.size) ∙ ey.chunk

pub no_entry : (m : Mem) (a : ℕ) (x : Message) → load_word m a ≡ 0 → IsEntry m a x → ⊥
no_entry m a x zero_size e = omega (arith, zero_size, e.size, e.nonempty)

-- The entries behind the first ones.
pub Segment-split :
    (m : Mem) (a b c : ℕ) (xs ys : List Message)
    → Segment m a b xs
    → Segment m a c (xs ++ ys)
    → Segment m b c ys
Segment-split m a b c [] ys s t = subst (λ p. Segment m p c ys) s t
Segment-split m a b c (x ∷ xs) ys s t =
    Segment-split m (a + align_entrysize (length x)) b c xs ys s.1 t.1

pub append-cancel : (xs ys zs : List Message) → xs ++ ys ≡ xs ++ zs → ys ≡ zs
append-cancel [] ys zs e = e
append-cancel (x ∷ xs) ys zs e = append-cancel xs ys zs (ap tail e)
  where
    tail : List Message → List Message
    tail [] = []
    tail (y ∷ t) = t

-- where the entries of a lap end
abbrev pub EndsLap : Mem → ℕ → ℕ → Type 0
EndsLap m l b = (b ≤ l) × ((b ≡ l) ⊎ (load_word m b ≡ 0))

EndsLap-entry :
    (m : Mem) (l a c : ℕ) (x : Message) (xs : List Message)
    → EndsLap m l a
    → c ≤ l
    → Segment m a c (x ∷ xs)
    → ⊥
EndsLap-entry m l a c x xs (le, inl end) le' s = omega (
  arith,
  Segment-le m (a + align_entrysize (length x)) c xs s.1,
  align_entrysize_bounds (length x) s.0.short,
)
EndsLap-entry m l a c x xs (le, inr zero_size) le' s = no_entry m a x zero_size s.0

-- The rest of a lap is told by memory.
pub Segment-unique :
    (m : Mem) (l a b c : ℕ) (xs ys : List Message)
    → EndsLap m l b
    → EndsLap m l c
    → Segment m a b xs
    → Segment m a c ys
    → xs ≡ ys
Segment-unique m l a b c [] [] hb hc s t = refl
Segment-unique m l a b c [] (y ∷ ys) hb hc s t =
    absurd (EndsLap-entry m l a c y ys (subst (EndsLap m l) (sym s) hb) hc.0 t)
Segment-unique m l a b c (x ∷ xs) [] hb hc s t =
    absurd (EndsLap-entry m l a b x xs (subst (EndsLap m l) (sym t) hc) hb.0 s)
Segment-unique m l a b c (x ∷ xs) (y ∷ ys) hb hc s t =
    let same : x ≡ y = IsEntry-unique m a x y s.0 t.0 in
    let rest : Segment m (a + align_entrysize (length x)) c ys =
      subst (λ z. Segment m (a + align_entrysize (length z)) c ys) (sym same) t.1 in
    (λ i. same i ∷ Segment-unique m l (a + align_entrysize (length x)) b c xs ys hb hc s.1 rest i)

pub marker :
    (m : Mem) (l b w : ℕ) → b ≤ l → (b ≡ l) ⊎ ((load_word m b ≡ 0) × (0 < w)) → EndsLap m l b
marker m l b w le (inl e) = (le, inl e)
marker m l b w le (inr (e, pos)) = (le, inr e)
