-- ===== src/Fs/Pipe/Rounds.antt =====
-- fs/pipe.c: what one round moves, and the bytes that the pipe holds before and after it.
use neantis.Prelude.{
  ℕ, zero, suc, ◌+◌, ◌-◌, ◌%◌, ◌≤◌, ◌<◌, ◌≡◌, refl, sym, ap, ap₂, subst, ◌∙◌, ltb, leb, ◌&&◌,
  if◌then◌else◌, List, ◌∷◌, ◌++◌, update, update_self, arith,
}
use neantis.Prelude.Ring.{window, window-append, window-mod, window-same}
use neantis.Prelude.Slice.{slice, slice-same}
use neantis.Mm.{page_size}
use neantis.Fs.State.{Ptr, MInode, Kernel}
use neantis.Fs.Pipe.{pipe_size, copy, move, read_round, write_round}

-- Both ends lie in the page.
pub record IsPipe (r : MInode) : Type 0 where
  pub head_in : r.i_zone 0 < page_size
  pub tail_in : r.i_zone 1 < page_size

abbrev pub contents_of : MInode → (ℕ → ℕ) → List ℕ
contents_of r phys = window page_size (λ j. phys (r.i_size + j)) (r.i_zone 1) (pipe_size r)

-- the bytes that the pipe holds, oldest first
abbrev pub contents : Ptr → Kernel → List ℕ
contents i k = contents_of (k.inode i) k.memory.phys

pub copy_lem :
    (n : ℕ) (src : ℕ → ℕ) (from : ℕ) (dst : ℕ → ℕ) (to x : ℕ)
    → copy n src from dst to x
      ≡ (if leb to x && ltb x (to + n) then src (from + (x - to)) else dst x)
unfolding copy
copy_lem zero src from dst to x = ground arith
copy_lem (suc n) src from dst to x =
    ground (arith, copy_lem n src (from + 1) (update dst to (src from)) (to + 1) x)

-- What is copied stands at its target.
pub slice-copy :
    (n : ℕ) (src : ℕ → ℕ) (from : ℕ) (dst : ℕ → ℕ) (to : ℕ)
    → slice (copy n src from dst to) to n ≡ slice src from n
slice-copy n src from dst to =
    slice-same (copy n src from dst to) src to from n
      λ j lt. ground (arith, copy_lem n src from dst to (to + j))

-- A stretch of the page that does not go round its end.
window-slice :
    (m : ℕ → ℕ) (page h n : ℕ)
    → h + n ≤ page_size
    → window page_size (λ j. m (page + j)) h n ≡ slice m (page + h) n
window-slice m page h zero room = refl
window-slice m page h (suc n) room =
    ap₂ ◌∷◌ (ap (λ j. m (page + j)) (omega arith))
      (window-slice m page (h + 1) n (omega arith) ∙ ap (λ a. slice m a n) (omega arith))

next : (a b : ℕ) → a % page_size ≡ b % page_size → (a + 1) % page_size ≡ (b + 1) % page_size
next a b e = omega arith

module _ (i buf chars : ℕ) (k : Kernel) (valid : IsPipe (k.inode i)) where
  abbrev r : MInode
  r = k.inode i

  abbrev after_read : MInode
  after_read = record r { i_zone = update r.i_zone 1 (move (r.i_zone 1) chars) }

  -- A round of `read_pipe` takes the oldest bytes off the pipe, in their order.
  pub contents-read_round :
      chars ≤ pipe_size r
      → r.i_zone 1 + chars ≤ page_size
      → contents i k
        ≡ slice (read_round i buf chars k).fs buf chars ++ contents i (read_round i buf chars k)
  unfolding read_round
  contents-read_round enough inside =
      let m = λ (j : ℕ). k.memory.phys (r.i_size + j) in
      let tail = r.i_zone 1 in
      ap (window page_size m tail) {y = chars + (pipe_size r - chars)} (omega arith)
      ∙ window-append page_size m tail chars (pipe_size r - chars)
      ∙ ap₂ ◌++◌
          (window-slice k.memory.phys r.i_size tail chars inside
            ∙ sym (slice-copy chars k.memory.phys (r.i_size + tail) k.fs buf))
          (window-mod page_size next m (tail + chars) (move tail chars) (pipe_size r - chars)
              (omega arith)
            ∙ ap (window page_size m (move tail chars)) {y = pipe_size after_read} (omega arith)
            ∙ sym (ap (λ r. contents_of r k.memory.phys) (update_self k.inode i after_read)))

  pub read_round-IsPipe : IsPipe ((read_round i buf chars k).inode i)
  unfolding read_round
  read_round-IsPipe =
      subst IsPipe (sym (update_self k.inode i after_read))
        (record { head_in = valid.head_in; tail_in = omega arith })

  abbrev after_write : MInode
  after_write = record r { i_zone = update r.i_zone 0 (move (r.i_zone 0) chars) }

  pub write_round-IsPipe : IsPipe ((write_round i buf chars k).inode i)
  unfolding write_round
  write_round-IsPipe =
      subst IsPipe (sym (update_self k.inode i after_write))
        (record { head_in = omega arith; tail_in = valid.tail_in })

  abbrev written : ℕ → ℕ
  written = copy chars k.fs buf k.memory.phys (r.i_size + r.i_zone 0)

  -- What the pipe held is not overwritten.
  written-same :
      (j : ℕ)
      → chars ≤ page_size - 1 - pipe_size r
      → r.i_zone 0 + chars ≤ page_size
      → j < pipe_size r
      → written (r.i_size + (r.i_zone 1 + j) % page_size)
        ≡ k.memory.phys (r.i_size + (r.i_zone 1 + j) % page_size)
  written-same j room inside lt = ground (
    arith,
    copy_lem chars k.fs buf k.memory.phys (r.i_size + r.i_zone 0)
        (r.i_size + (r.i_zone 1 + j) % page_size),
  )

  -- A round of `write_pipe` appends the bytes of the caller, in their order.
  pub contents-write_round :
      chars ≤ page_size - 1 - pipe_size r
      → r.i_zone 0 + chars ≤ page_size
      → contents i (write_round i buf chars k) ≡ contents i k ++ slice k.fs buf chars
  unfolding write_round
  contents-write_round room inside =
      let m = λ (j : ℕ). written (r.i_size + j) in
      let tail = r.i_zone 1 in
      let head = r.i_zone 0 in
      let size = pipe_size r in
      ap (λ r. contents_of r written) (update_self k.inode i after_write)
      ∙ ap (window page_size m tail) {y = size + chars} (omega arith)
      ∙ window-append page_size m tail size chars
      ∙ ap₂ ◌++◌
          (window-same page_size m (λ j. k.memory.phys (r.i_size + j)) tail size
            λ j lt. written-same j room inside lt)
          (window-mod page_size next m (tail + size) head chars (omega arith)
            ∙ window-slice written r.i_size head chars inside
            ∙ slice-copy chars k.fs buf k.memory.phys (r.i_size + head))

  pub read_round-size :
      chars ≤ pipe_size r → pipe_size ((read_round i buf chars k).inode i) ≡ pipe_size r - chars
  unfolding read_round
  read_round-size enough = ap pipe_size (update_self k.inode i after_read) ∙ omega arith

  pub write_round-size :
      chars ≤ page_size - 1 - pipe_size r
      → pipe_size ((write_round i buf chars k).inode i) ≡ pipe_size r + chars
  unfolding write_round
  write_round-size room = ap pipe_size (update_self k.inode i after_write) ∙ omega arith

  -- A round of `read_pipe` changes no byte of the caller before the place that it fills.
  pub read_round-below : (x : ℕ) → x < buf → (read_round i buf chars k).fs x ≡ k.fs x
  unfolding read_round
  read_round-below x below =
      ground (arith, copy_lem chars k.memory.phys (r.i_size + r.i_zone 1) k.fs buf x)

  pub write_round-fs : (write_round i buf chars k).fs ≡ k.fs
  unfolding write_round
  write_round-fs = refl
