-- ===== src/Fs/Bitmap/Bits.antt =====
-- fs/bitmap.c: the bits of a map block, and the search for a clear one.
use neantis.Prelude.{
  ℕ, zero, suc, ◌+◌, ◌*◌, ◌/◌, ◌%◌, ◌≤◌, ◌<◌, ◌≡◌, refl, inl, inr, ap, ap₂, sym, ◌⊎◌, ◌∙◌, Bool,
  true, false, arith, ◌==◌, if◌then◌else◌, none, some, update-ne, ==_refl, Bool-cases, Option-cases,
}
use neantis.Prelude.Bits.{get_bit, put_bit, get_bit-put_bit_self, get_bit-put_bit_ne}
use neantis.Fs.State.{Block}
use neantis.Fs.Bitmap.{
  map_bits, bit_at, with_bit, set_bit, clear_bit, first_clear, zero_loop, find_first_zero,
}

-- Setting or clearing one bit gives that bit and leaves all others of the block as they are.
bit_at-with_bit :
    (b : Bool) (nr j : ℕ) (d : Block)
    → bit_at (with_bit b nr d) j ≡ (if nr == j then b else bit_at d j)
unfolding bit_at with_bit
bit_at-with_bit b nr j d = elim (Bool-cases (nr == j)) [
  | inl same ↦
      let e : nr ≡ j = ground arith in
      rw (same, ← e, ==_refl (nr / 8)) (get_bit-put_bit_self b (nr % 8) (d (nr / 8)))
  | inr other ↦ rw other (elim (Bool-cases (nr / 8 == j / 8)) [
    | inl byte ↦
        let e : j / 8 ≡ nr / 8 = ground arith in
        rw (e, ==_refl (nr / 8))
          (get_bit-put_bit_ne b (nr % 8) (j % 8) (d (nr / 8)) (λ p. absurd (ground arith)))
    | inr far ↦
        ap (get_bit (j % 8))
          (update-ne d (nr / 8) (j / 8) (put_bit b (nr % 8) (d (nr / 8))) (ground arith))
  ])
]

-- The first clear bit of `n` bits from bit `i` on, one bit at a time; `i + n` if there is none.
unfoldable pub first_zero : Block → ℕ → ℕ → ℕ
first_zero d zero i = i
first_zero d (suc n) i = if bit_at d i then first_zero d n (i + 1) else i

first_clear-some :
    (d : Block) (base n j r rest : ℕ)
    → first_clear d base n j ≡ some r
    → first_zero d (n + rest) (base + j) ≡ base + r
unfolding first_clear first_zero
first_clear-some d base zero j r rest e = cc
first_clear-some d base (suc n) j r rest e = elim (Bool-cases (bit_at d (base + j))) [
  | inl set ↦
      ap (λ l. first_zero d l (base + j)) {y = suc (n + rest)} (omega arith)
      ∙ rw set (
          ap (first_zero d (n + rest)) {y = base + (j + 1)} (omega arith)
          ∙ first_clear-some d base n (j + 1) r rest (rw (set, first_clear) at e))
  | inr clear ↦
      ap (λ l. first_zero d l (base + j)) {y = suc (n + rest)} (omega arith)
      ∙ rw clear (ground arith)
]

first_clear-none :
    (d : Block) (base n j rest : ℕ)
    → first_clear d base n j ≡ none
    → first_zero d (n + rest) (base + j) ≡ first_zero d rest (base + j + n)
unfolding first_clear first_zero
first_clear-none d base zero j rest e =
    ap₂ (first_zero d) {x = 0 + rest} {y = rest} {u = base + j} {v = base + j + 0} (omega arith)
      (omega arith)
first_clear-none d base (suc n) j rest e = elim (Bool-cases (bit_at d (base + j))) [
  | inl set ↦
      ap (λ l. first_zero d l (base + j)) {y = suc (n + rest)} (omega arith)
      ∙ rw set (
          ap (first_zero d (n + rest)) {y = base + (j + 1)} (omega arith)
          ∙ first_clear-none d base n (j + 1) rest (rw (set, first_clear) at e)
          ∙ ap (first_zero d rest) (omega arith))
  | inr clear ↦ absurd (ground arith)
]

zero_loop-first_zero : (d : Block) (n ecx : ℕ) → zero_loop d n ecx ≡ first_zero d (32 * n) ecx
unfolding zero_loop
zero_loop-first_zero d zero ecx = unfold first_zero in refl
zero_loop-first_zero d (suc n) ecx = elim (Option-cases (first_clear d ecx 32 0)) [
  | inl full ↦
      rw (full, zero_loop)
        (zero_loop-first_zero d n (ecx + 32)
          ∙ ap (first_zero d (32 * n)) (omega arith)
          ∙ sym (first_clear-none d ecx 32 0 (32 * n) full)
          ∙ ap₂ (first_zero d) (omega arith) (omega arith))
  | inr (r, found) ↦
      rw (found, zero_loop)
        (sym (first_clear-some d ecx 32 0 r (32 * n) found)
          ∙ ap₂ (first_zero d) (omega arith) (omega arith))
]

-- The search by words of 32 bits finds the same bit as one that looks at each bit in turn: the
-- first clear one of the block, or 8192.
pub find_first_zero-first_zero : (d : Block) → find_first_zero d ≡ first_zero d map_bits 0
unfolding find_first_zero
find_first_zero-first_zero d = zero_loop-first_zero d 256 0

first_zero-bounds :
    (d : Block) (n i : ℕ)
    → (i ≤ first_zero d n i)
      × (first_zero d n i ≤ i + n)
      × ((first_zero d n i ≡ i + n) ⊎ (bit_at d (first_zero d n i) ≡ false))
unfolding first_zero
first_zero-bounds d zero i = (omega arith, omega arith, inl (omega arith))
first_zero-bounds d (suc n) i = elim (Bool-cases (bit_at d i)) [
  | inl set ↦ ground (arith, first_zero-bounds d n (i + 1))
  | inr clear ↦ ground arith
]

-- What `find_first_zero` returns is 8192 or the number of a clear bit.
find_first_zero-clear :
    (d : Block) → find_first_zero d < map_bits → bit_at d (find_first_zero d) ≡ false
find_first_zero-clear d h = elim (first_zero-bounds d map_bits 0).2 [
  | inl full ↦ absurd (omega (arith, find_first_zero-first_zero d))
  | inr clear ↦ rw (find_first_zero-first_zero d) clear
]

-- `set_bit` of a clear bit and `clear_bit` of it are inverse: neither finds the bit as it makes it,
-- and no bit of the block is changed in the end.
clear_bit-set_bit :
    (nr j : ℕ) (d : Block)
    → bit_at d nr ≡ false
    → ((set_bit nr d).0 ≡ false)
      × ((clear_bit nr (set_bit nr d).1).0 ≡ false)
      × (bit_at (clear_bit nr (set_bit nr d).1).1 j ≡ bit_at d j)
clear_bit-set_bit nr j d h = ground (
  arith,
  bit_at-with_bit true nr nr d,
  bit_at-with_bit true nr j d,
  bit_at-with_bit false nr j (with_bit true nr d),
)
