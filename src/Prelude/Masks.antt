-- ===== src/Prelude/Masks.antt =====
-- The bits of a mask: `&` bit by bit.
use Prim.Native.Nat.{
  ℕ, zero, suc, ◌+◌, ◌*◌, ◌/◌, ◌%◌, ◌≤◌, ◌<◌, bit_and, bit_and-bitwise, digits, min,
}
use mathlib.Core.Path.{◌≡◌, refl, ap, ◌∙◌}
use mathlib.Core.Bool.{true, false, ◌&&◌}
use mathlib.Core.Logic.{◌↔◌, inl, inr}
use native.Mathlib.Omega.{arith}
use neantis.Prelude.Tests.{◌==◌, ltb, ==_iff, Bool-cases}
use neantis.Prelude.Bits.{get_bit}

get_bit-zero : (j : ℕ) → get_bit j 0 ≡ false
unfolding get_bit
get_bit-zero zero = refl
get_bit-zero (suc j) = get_bit-zero j

get_bit-digits :
    (n j a b : ℕ) → a ≤ n → get_bit j (digits (λ b. 0) min n a b) ≡ (get_bit j a && get_bit j b)
unfolding get_bit
get_bit-digits zero j zero b le = ground (arith, get_bit-zero j)
get_bit-digits zero j (suc a) b le = absurd (omega arith)
get_bit-digits (suc n) j zero b le = ground (arith, get_bit-zero j)
get_bit-digits (suc n) zero (suc a) b le = ground arith
get_bit-digits (suc n) (suc j) (suc a) b le =
    let d = digits (λ b. 0) min n (suc a / 2) (b / 2) in
    ap (get_bit j) {x = (d * 2 + min (suc a % 2) (b % 2)) / 2} {y = d} (omega arith)
    ∙ get_bit-digits n j (suc a / 2) (b / 2) (omega arith)

get_bit-bit_and : (j a b : ℕ) → get_bit j (bit_and a b) ≡ (get_bit j a && get_bit j b)
get_bit-bit_and j a b = ap (get_bit j) (bit_and-bitwise a b) ∙ get_bit-digits a j a b (omega arith)

-- Numbers with the same bits are the same.
same_bits : (n a b : ℕ) → a ≤ n → b ≤ n → ((j : ℕ) → get_bit j a ≡ get_bit j b) → a ≡ b
unfolding get_bit
same_bits zero a b le le' same = omega arith
same_bits (suc n) a b le le' same =
    let half : a / 2 ≡ b / 2 =
      same_bits n (a / 2) (b / 2) (omega arith) (omega arith) (λ j. same (suc j)) in
    let digit : (a % 2 == 1) ≡ (b % 2 == 1) = same 0 in ground (arith, half, digit)

get_bit-ext : (a b : ℕ) → ((j : ℕ) → get_bit j a ≡ get_bit j b) → a ≡ b
get_bit-ext a b same = same_bits (a + b) a b (omega arith) (omega arith) same

pub get_bit-shift : (b v : ℕ) → get_bit (b + 3) v ≡ get_bit b (v / 8)
unfolding get_bit
get_bit-shift b v =
    ap (λ i. get_bit i v) {x = b + 3} {y = suc (suc (suc b))} (omega arith)
    ∙ ap (get_bit b) (omega arith)

high_bit : (j v : ℕ) → v < 8 → 3 ≤ j → get_bit j v ≡ false
unfolding get_bit
high_bit zero v small le = absurd (omega arith)
high_bit (suc zero) v small le = absurd (omega arith)
high_bit (suc (suc zero)) v small le = absurd (omega arith)
high_bit (suc (suc (suc j))) v small le =
    ap (get_bit j) {x = v / 2 / 2 / 2} {y = 0} (omega arith) ∙ get_bit-zero j

low_bit : (j : ℕ) → j < 3 → get_bit j 7 ≡ true
unfolding get_bit
low_bit zero lt = refl
low_bit (suc zero) lt = refl
low_bit (suc (suc zero)) lt = refl
low_bit (suc (suc (suc j))) lt = absurd (omega arith)

-- A mask of three bits passes what is masked with it exactly when each of its bits is set there.
pub bit_and-covers :
    (x mask : ℕ)
    → mask < 8
    → ((bit_and (bit_and x mask) 7 == mask) ≡ true)
      ↔ ((b : ℕ) → b < 3 → get_bit b mask ≡ true → get_bit b x ≡ true)
bit_and-covers x mask small = (
  λ e b lt set. ground (arith, e, set, masked b, ap (get_bit b) ((==_iff _ _).0 e)),
  λ all. ground (arith, get_bit-ext _ mask (λ j. masked j ∙ covered all j)),
)
  where
    masked :
        (j : ℕ)
        → get_bit j (bit_and (bit_and x mask) 7) ≡ ((get_bit j x && get_bit j mask) && get_bit j 7)
    masked j =
        get_bit-bit_and j (bit_and x mask) 7 ∙ ap (λ t. t && get_bit j 7) (get_bit-bit_and j x mask)

    covered :
        ((b : ℕ) → b < 3 → get_bit b mask ≡ true → get_bit b x ≡ true)
        → (j : ℕ) → ((get_bit j x && get_bit j mask) && get_bit j 7) ≡ get_bit j mask
    covered all j = elim (Bool-cases (ltb j 3)) [
      | inl low ↦ elim (Bool-cases (get_bit j mask)) [
        | inl set ↦
            ground (arith, all j (ground (arith, low)) set, low_bit j (ground (arith, low)), set)
        | inr clear ↦ ground (arith, low_bit j (ground (arith, low)), clear)
      ]
      | inr high ↦ ground (arith, high_bit j mask small (ground (arith, high)))
    ]
