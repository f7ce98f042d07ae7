-- ===== src/Prelude/Bits.antt =====
-- One bit of a number: reading it, setting it and clearing it.
use Prim.Native.Nat.{ℕ, zero, suc, ◌+◌, ◌*◌, ◌/◌, ◌%◌}
use mathlib.Core.Path.{◌≡◌, refl, ap}
use mathlib.Core.Logic.{◌≢◌}
use mathlib.Core.Bool.{Bool, true, false}
use native.Mathlib.Omega.{arith}
use neantis.Prelude.Tests.{◌==◌, if◌then◌else◌}

-- bit `k` of `v`
unfoldable pub get_bit : ℕ → ℕ → Bool
get_bit zero v = v % 2 == 1
get_bit (suc k) v = get_bit k (v / 2)

-- `v` with bit `k` made `b`
unfoldable pub put_bit : Bool → ℕ → ℕ → ℕ
put_bit b zero v = v / 2 * 2 + (if b then 1 else 0)
put_bit b (suc k) v = put_bit b k (v / 2) * 2 + v % 2

half_of_double : (x r : ℕ) → (x * 2 + r % 2) / 2 ≡ x
half_of_double x r = omega arith

pub get_bit-put_bit_self : (b : Bool) (k v : ℕ) → get_bit k (put_bit b k v) ≡ b
unfolding get_bit put_bit
get_bit-put_bit_self true zero v = ground arith
get_bit-put_bit_self false zero v = ground arith
get_bit-put_bit_self b (suc k) v =
    ground (arith, half_of_double (put_bit b k (v / 2)) v, get_bit-put_bit_self b k (v / 2))

pub get_bit-put_bit_ne : (b : Bool) (k j v : ℕ) → k ≢ j → get_bit j (put_bit b k v) ≡ get_bit j v
unfolding get_bit put_bit
get_bit-put_bit_ne b zero zero v h = absurd (h refl)
get_bit-put_bit_ne true zero (suc j) v h = ap (get_bit j) (omega arith)
get_bit-put_bit_ne false zero (suc j) v h = ap (get_bit j) (omega arith)
get_bit-put_bit_ne b (suc k) zero v h = ground arith
get_bit-put_bit_ne b (suc k) (suc j) v h = ground (
  arith,
  half_of_double (put_bit b k (v / 2)) v,
  get_bit-put_bit_ne b k j (v / 2) (λ e. h (ap suc e)),
)
