-- ===== src/Fs/BlockDev.antt =====
-- fs/block_dev.c: the block devices, block by block. A negative `count` is none.
use neantis.Prelude.{
  ℕ, zero, suc, ◌+◌, ◌-◌, ◌/◌, ◌%◌, ◌^◌, true, false, leb, ◌==◌, if◌then◌else◌, List, [], ◌∷◌, min,
}
use neantis.Prelude.Words.{u32}
use neantis.Fs.State.{Ptr, null, block_size}
use neantis.Fs.Run.{ok, out_of_fuel, Cmd, and_then, ◌>>=◌, ◌>>◌, Machine, gets, modify, set_buffer}
use neantis.Fs.Errno.{ℤ, pos, error, eio}
use neantis.Fs.Cache.{brelse}
use neantis.Fs.Buffer.{getblk, breada}
use neantis.Fs.CharDev.{advance}
use neantis.Fs.FileDev.{give_bytes, take_bytes}

-- `*pos >> BLOCK_SIZE_BITS`, of a `long`
abbrev pub block_number : ℕ → ℕ
block_number p = p / block_size + (if leb (2 ^ 31) p then 2 ^ 32 - 2 ^ 22 else 0)

-- The blocks that `breada(dev, block, block+1, block+2, -1)` reads ahead: a negative number ends
-- the list.
unfoldable pub ahead : ℕ → List ℕ
ahead block =
    let first = u32 (block + 1) in
    let second = u32 (block + 2) in
    if leb (2 ^ 31) first
    then []
    else if leb (2 ^ 31) second
    then first ∷ []
    else first ∷ second ∷ []

-- `n?n:-EIO`
abbrev pub or_eio : ℕ → ℤ
or_eio n = if n == 0 then error eio else pos n

module _ ⦃m : Machine⦄ where
  unfoldable pub block_write_loop : ℕ → ℕ → Ptr → ℕ → ℕ → ℕ → ℕ → ℕ → Cmd ℤ
  block_write_loop zero dev f block offset buf count written k = out_of_fuel
  block_write_loop (suc n) dev f block offset buf count written k = elim (count == 0) [
    | true ↦ ok (pos written) k
    | false ↦
        let chars = min (block_size - offset) count in
        and_then
          ((if chars == block_size then getblk dev block else breada dev block (ahead block)) k)
          λ b k₁. elim (b == null) [
            | true ↦ ok (or_eio written) k₁
            | false ↦
                and_then
                  ((do
                    advance f chars
                    take_bytes b offset buf chars
                    set_buffer b λ r. record r { b_dirt = 1 }
                    brelse b)
                    k₁)
                  λ _ k₂.
                    block_write_loop n dev f (u32 (block + 1)) 0 (buf + chars) (count - chars)
                      (written + chars) k₂
          ]
  ]

  unfoldable pub block_write : ℕ → Ptr → ℕ → ℕ → Cmd ℤ
  unfolding block_write_loop ahead getblk breada take_bytes brelse
  block_write dev f buf count = do
    r ← gets λ k. k.file f
    block_write_loop m.rounds dev f (block_number r.f_pos) (r.f_pos % block_size) buf count 0

  unfoldable pub block_read_loop : ℕ → ℕ → Ptr → ℕ → ℕ → ℕ → ℕ → ℕ → Cmd ℤ
  block_read_loop zero dev f block offset buf count read k = out_of_fuel
  block_read_loop (suc n) dev f block offset buf count read k = elim (count == 0) [
    | true ↦ ok (pos read) k
    | false ↦
        let chars = min (block_size - offset) count in
        and_then (breada dev block (ahead block) k) λ b k₁. elim (b == null) [
          | true ↦ ok (or_eio read) k₁
          | false ↦
              and_then ((do advance f chars; modify (give_bytes b offset buf chars); brelse b) k₁)
                λ _ k₂.
                  block_read_loop n dev f (u32 (block + 1)) 0 (buf + chars) (count - chars)
                    (read + chars) k₂
        ]
  ]

  -- Here `*pos` is unsigned.
  unfoldable pub block_read : ℕ → Ptr → ℕ → ℕ → Cmd ℤ
  unfolding block_read_loop ahead breada give_bytes brelse
  block_read dev f buf count = do
    r ← gets λ k. k.file f
    block_read_loop m.rounds dev f (r.f_pos / block_size) (r.f_pos % block_size) buf count 0
