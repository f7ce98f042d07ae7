-- ===== src/Segments/Fields.antt =====
-- include/neantis/sched.h: what is put into a descriptor is what is read from it.
use neantis.Prelude.{
  ℕ, zero, suc, ◌+◌, ◌-◌, ◌*◌, ◌/◌, ◌%◌, ◌^◌, ◌≤◌, ◌<◌, ◌≡◌, refl, arith, Bool, true, ◌&&◌, ◌==◌,
  bit_or,
}
use neantis.Fs.Bytes.{load16, store16}
use neantis.Segments.{Desc, set_base, get_base, set_limit, get_limit}

pub get_base-set_base : (d : Desc) (base : ℕ) → base < 2 ^ 32 → get_base (set_base d base) ≡ base
unfolding get_base set_base load16 store16
get_base-set_base d base h = omega arith

pub get_limit-set_base : (d : Desc) (base : ℕ) → get_limit (set_base d base) ≡ get_limit d
unfolding get_limit set_base load16 store16
get_limit-set_base d base = refl

pub get_base-set_limit : (d : Desc) (limit : ℕ) → get_base (set_limit d limit) ≡ get_base d
unfolding get_base set_limit load16 store16
get_base-set_limit d limit = refl

-- The two halves of a byte.
join_halves : ℕ → ℕ → Bool
join_halves zero y = true
join_halves (suc x) y = bit_or (16 * x) y == 16 * x + y && join_halves x y

join_all : ℕ → Bool
unfolding join_halves
join_all zero = true
join_all (suc y) = join_halves 16 y && join_all y

join_half : (n x y : ℕ) → join_halves n y ≡ true → x < n → bit_or (16 * x) y ≡ 16 * x + y
unfolding join_halves
join_half zero x y checked lt = absurd (omega arith)
join_half (suc n) x y checked lt = ground (arith, join_half n x y)

join_from : (n x y : ℕ) → join_all n ≡ true → x < 16 → y < n → bit_or (16 * x) y ≡ 16 * x + y
unfolding join_all
join_from zero x y checked lt below = absurd (omega arith)
join_from (suc n) x y checked lt below = ground (arith, join_from n x y, join_half 16 x y)

bit_or-halves : (x y : ℕ) → x < 16 → y < 16 → bit_or (16 * x) y ≡ 16 * x + y
unfolding join_all
bit_or-halves x y lt below = join_from 16 x y refl lt below

-- A limit of whole pages is read back, when the descriptor counts in pages.
pub get_limit-set_limit :
    (d : Desc) (pages : ℕ)
    → d 6 < 2 ^ 8
    → 2 ^ 7 ≤ d 6
    → 0 < pages
    → pages < 2 ^ 20
    → get_limit (set_limit d (pages * 2 ^ 12)) ≡ pages * 2 ^ 12
unfolding get_limit set_limit load16 store16
get_limit-set_limit d pages byte granular some small =
    rw
      (bit_or-halves (d 6 / 16 % 16)
        ((pages * 2 ^ 12 + 2 ^ 32 - 1) % 2 ^ 32 / 2 ^ 12 / 2 ^ 16 % 2 ^ 8) (omega arith)
        (omega arith))
      (ground arith)
