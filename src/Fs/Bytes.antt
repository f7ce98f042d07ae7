-- ===== src/Fs/Bytes.antt =====
-- Numbers in memory: `unsigned short` and `unsigned long` at an offset of a block, low byte first.
use neantis.Prelude.{ℕ, ◌+◌, ◌*◌, ◌/◌, ◌%◌, ◌^◌, ◌≡◌, ◌<◌, ◌⊎◌, arith, update}
use neantis.Fs.State.{Block}

unfoldable pub load16 : Block → ℕ → ℕ
load16 d o = d o + 2 ^ 8 * d (o + 1)

unfoldable pub store16 : Block → ℕ → ℕ → Block
store16 d o v = update (update d o (v % 2 ^ 8)) (o + 1) (v / 2 ^ 8 % 2 ^ 8)

unfoldable pub load32 : Block → ℕ → ℕ
unfolding load16
load32 d o = load16 d o + 2 ^ 16 * load16 d (o + 2)

unfoldable pub store32 : Block → ℕ → ℕ → Block
unfolding store16
store32 d o v = store16 (store16 d o (v % 2 ^ 16)) (o + 2) (v / 2 ^ 16)

pub load16-store16 : (d : Block) (o v : ℕ) → v < 2 ^ 16 → load16 (store16 d o v) o ≡ v
unfolding load16 store16
load16-store16 d o v h = ground arith

pub load16-store16_ne :
    (d : Block) (o p v : ℕ) → ((o + 1 < p) ⊎ (p + 1 < o)) → load16 (store16 d o v) p ≡ load16 d p
unfolding load16 store16
load16-store16_ne d o p v h = ground arith

pub load32-store32 : (d : Block) (o v : ℕ) → v < 2 ^ 32 → load32 (store32 d o v) o ≡ v
unfolding load32 store32
load32-store32 d o v h = ground arith
