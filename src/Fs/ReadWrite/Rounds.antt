-- ===== src/Fs/ReadWrite/Rounds.antt =====
-- fs/file_dev.c: what the loop of `file_read` has moved when it ends.
use neantis.Prelude.{
  ℕ, zero, suc, ◌+◌, ◌-◌, ◌/◌, ◌%◌, ◌^◌, ◌≤◌, ◌<◌, ◌≡◌, ◌⊎◌, refl, ap, ◌∙◌, arith, not, ltb, leb,
  ◌&&◌, ◌==◌, if◌then◌else◌, min, update, update_self,
}
use neantis.Prelude.Words.{u32}
use neantis.Fs.State.{Ptr, null, block_size, Kernel}
use neantis.Fs.Run.{Machine}
use neantis.Fs.Run.Gives.{Gives, returns, stops, Gives-then, Gives-elim, Gives-branch, Gives-mono}
use neantis.Fs.Run.Keeps.{Keeps, when-Keeps}
use neantis.Fs.Cache.{brelse}
use neantis.Fs.Cache.Keeps.{brelse-Keeps}
use neantis.Fs.Buffer.Loose.{IsLoose, IsLoose-IsStable, bread-IsLoose}
use neantis.Fs.Inode.Keeps.{bmap-Keeps}
use neantis.Fs.Pipe.{copy}
use neantis.Fs.Pipe.Rounds.{copy_lem}
use neantis.Fs.FileDev.{block_of, file_read_loop, give_bytes}

-- The step leaves the user's memory and the position of open file `f` alone.
abbrev pub Spares : Ptr → (Kernel → Kernel) → Type 0
Spares f step = (k : Kernel) → ((step k).fs ≡ k.fs) × (((step k).file f).f_pos ≡ (k.file f).f_pos)

-- Between the states, `n` bytes from `buf` on have been written at most, and the position of open
-- file `f` has moved on by `n`.
abbrev pub HasMoved : Ptr → ℕ → ℕ → Kernel → Kernel → Type 0
HasMoved f buf n k k' =
    ((k'.file f).f_pos ≡ (k.file f).f_pos + n)
    × ((x : ℕ) → ((x < buf) ⊎ (buf + n ≤ x)) → k'.fs x ≡ k.fs x)

-- What `Spares` keeps.
abbrev At : Ptr → (ℕ → ℕ) → ℕ → Kernel → Type 0
At f fs p k = (k.fs ≡ fs) × ((k.file f).f_pos ≡ p)

module _ ⦃m : Machine⦄ (f : Ptr) (sleeps : Spares f m.sleep_on)
    (drives : (rw : ℕ) (b : Ptr) → Spares f (m.ll_rw_block rw b)) where
  loose : (fs : ℕ → ℕ) (p : ℕ) → IsLoose (At f fs p)
  loose fs p = record {
    sleeps = λ k at. ((sleeps k).0 ∙ at.0, (sleeps k).1 ∙ at.1);
    drives = λ rw b k at. ((drives rw b k).0 ∙ at.0, (drives rw b k).1 ∙ at.1);
    cache = λ b h l k at. at;
    inodes = λ t k same at. at;
    memory = λ q k at. at;
  }

  block_of-Keeps :
      (fs : ℕ → ℕ) (p : ℕ) (i : Ptr) (block : ℕ) (k : Kernel)
      → At f fs p k
      → Keeps (At f fs p) (block_of i block k)
  unfolding block_of
  block_of-Keeps fs p i block k at =
      Gives-then _ (bmap-Keeps (loose fs p) i block k at) λ nr k₁ at₁.
        Gives-branch (nr == 0) _ _ k₁ (λ _. returns at₁)
          λ _.
            Gives-then _ (bread-IsLoose (loose fs p) (k₁.inode i).i_dev nr k₁ at₁)
              λ b k₂ at₂. returns at₂

  -- A round that moves `chars` of `left` bytes, and the rounds after it.
  HasMoved-trans :
      (buf left chars r : ℕ) (d : ℕ → ℕ) (nr : ℕ) (k k₁ k₂ k' : Kernel)
      → (k.file f).f_pos + left < 2 ^ 32
      → chars ≤ left
      → r ≤ left - chars
      → At f k.fs (k.file f).f_pos k₁
      → At f (copy chars d nr k₁.fs buf) (u32 ((k₁.file f).f_pos + chars)) k₂
      → HasMoved f (buf + chars) (left - chars - r) k₂ k'
      → HasMoved f buf (left - r) k k'
  HasMoved-trans buf left chars r d nr k k₁ k₂ k' room le below (fs₁, p₁) (fs₂, p₂) (p', fs') = (
    omega (arith, p₁, p₂, p'),
    λ x out.
        fs' x (omega arith)
        ∙ ap (λ g. g x) fs₂
        ∙ copy_lem chars d nr k₁.fs buf x
        ∙ outside x out
        ∙ ap (λ g. g x) fs₁,
  )
    where
      outside :
          (x : ℕ)
          → ((x < buf) ⊎ (buf + (left - r) ≤ x))
          → (if leb buf x && ltb x (buf + chars) then d (nr + (x - buf)) else k₁.fs x) ≡ k₁.fs x
      outside x out = ground arith

  pub file_read_loop-HasMoved :
      (n : ℕ) (i : Ptr) (buf left : ℕ) (k : Kernel)
      → (k.file f).f_pos + left < 2 ^ 32
      → Gives
          (λ r k'. (r ≤ left) × HasMoved f buf (left - r) k k')
          (file_read_loop n i f buf left k)
  unfolding file_read_loop give_bytes
  file_read_loop-HasMoved zero i buf left k room = stops
  file_read_loop-HasMoved (suc n) i buf left k room =
      Gives-elim (left == 0) (λ _. returns (omega arith, (omega arith, λ x out. refl)))
        λ _.
          Gives-then _
            (block_of-Keeps k.fs (k.file f).f_pos i ((k.file f).f_pos / block_size) k (refl, refl))
            λ b k₁ at₁.
              Gives-elim b.1
                (λ _. returns (omega arith, (omega (arith, at₁.1), λ x out. ap (λ g. g x) at₁.0)))
                λ _.
                  let nr = (k₁.file f).f_pos % block_size in
                  let chars = min (block_size - nr) left in
                  let d : ℕ → ℕ = if b.0 == null then (λ p. 0) else (k₁.buffer b.0).b_data in
                  let fs : ℕ → ℕ = copy chars d nr k₁.fs buf in
                  let p = u32 ((k₁.file f).f_pos + chars) in
                  let k₁' : Kernel = record k₁ {
                    file = update k₁.file f (record (k₁.file f) { f_pos = p });
                    fs = fs;
                  } in
                  Gives-then _
                    (when-Keeps (not (b.0 == null)) (brelse b.0) k₁'
                      (brelse-Keeps (IsLoose-IsStable (loose fs p)) b.0 k₁')
                      (
                        refl,
                        ap (λ o. o.f_pos)
                            (update_self k₁.file f (record (k₁.file f) { f_pos = p })),
                      ))
                    λ _ k₂ at₂.
                      Gives-mono
                        (file_read_loop-HasMoved n i (buf + chars) (left - chars) k₂
                          (omega (arith, at₁.1, at₂.1)))
                        λ r k' (below, moved). (
                          omega arith,
                          HasMoved-trans buf left chars r d nr k k₁ k₂ k' room (omega arith) below
                              at₁ at₂ moved,
                        )
