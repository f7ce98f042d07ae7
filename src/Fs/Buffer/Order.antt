-- ===== src/Fs/Buffer/Order.antt =====
-- fs/buffer.c: the free list of the same buffers before and after `getblk`.
use neantis.Prelude.{
  ℕ, suc, ◌+◌, ◌<◌, ◌≡◌, ◌≢◌, sym, ap, ◌∙◌, subst, arith, inl, inr, ◌⊎◌, List, [], ◌∷◌, ◌++◌,
  length, length-append, Memᴰ, Permᴰ,
}
use mathlib.Core.List.Permᴰ.{symm}
use neantis.Prelude.Members.{Memᴰ-split, Permᴰ-Memᴰ, length-Permᴰ, Permᴰ_last}
use neantis.Fs.State.{Ptr, null, Kernel}
use neantis.Fs.Run.{Machine}
use neantis.Fs.Run.Gives.{Gives, Gives-mono}
use neantis.Fs.Run.Does.{Does-Gives}
use neantis.Fs.Run.Keeps.{Keeps, IsStable}
use neantis.Fs.Cache.{pick_from}
use neantis.Fs.Cache.FreeRing.{IsFreeRing}
use neantis.Fs.Cache.Pick.{first-IsPick}
use neantis.Fs.Buffer.{claim, getblk}
use neantis.Fs.Buffer.Get.{getblk-Keeps}
use neantis.Fs.Buffer.Moves.{other-IsFreeRing, claim-IsFreeRing}

-- The free list is a circle of these buffers, in some order.
abbrev pub IsFreeOf : List Ptr → Kernel → Type 0
IsFreeOf ys k = (xs : List Ptr) × Permᴰ xs ys × IsFreeRing xs k

-- The others are some, where there are two.
others_some :
    (b : Ptr) (us vs ys : List Ptr) → Permᴰ (us ++ b ∷ vs) ys → 1 < length ys → us ++ vs ≢ []
others_some b us vs ys p two none_left =
    let same : length (us ++ b ∷ vs) ≡ length ys = length-Permᴰ p in
    let all : length (us ++ b ∷ vs) ≡ length us + suc (length vs) = length-append us (b ∷ vs) in
    let rest : length us + length vs ≡ 0 = sym (length-append us vs) ∙ ap length none_left in
    absurd (omega (arith, same, all, rest, two))

claim-IsFreeOf :
    (dev block : ℕ) (b : Ptr) (ys : List Ptr) (k : Kernel)
    → 1 < length ys
    → Memᴰ b ys
    → IsFreeOf ys k
    → Keeps (IsFreeOf ys) (claim dev block b k)
claim-IsFreeOf dev block b ys k two m (xs, p, ring) =
    let (us, vs, e) = Memᴰ-split xs (Permᴰ-Memᴰ (symm p) m) in
    let p' : Permᴰ (us ++ b ∷ vs) ys = subst (λ l. Permᴰ l ys) e p in
    Does-Gives
      (claim-IsFreeRing dev block b us vs k (others_some b us vs ys p' two)
        (subst (λ l. IsFreeRing l k) e ring))
      (λ _ k' ring'. ((us ++ vs) ++ b ∷ [], Permᴰ.trans (Permᴰ_last b us vs) p', ring'))

module _ ⦃m : Machine⦄ {ys : List Ptr} (two : 1 < length ys)
    (sleeps : (k : Kernel) → IsFreeOf ys k → IsFreeOf ys (m.sleep_on k))
    (drives : (rw : ℕ) (b : Ptr) (k : Kernel)
      → IsFreeOf ys k
      → IsFreeOf ys (m.ll_rw_block rw b k)) where
  pub IsFreeOf-IsStable : IsStable (IsFreeOf ys)
  IsFreeOf-IsStable = record {
    sleeps = sleeps;
    drives = drives;
    heads = λ p h k e e' (xs, same, ring). (xs, same, other-IsFreeRing xs p h k e e' ring);
    inodes = λ t k counts (xs, same, ring).
        (xs, same, record { circle = ring.circle; start = ring.start; some = ring.some });
    memory = λ p k (xs, same, ring).
        (xs, same, record { circle = ring.circle; start = ring.start; some = ring.some });
  }

  -- What the walk gives is one of the buffers, whatever order they are in.
  pick_from-IsFreeOf :
      (k : Kernel)
      → IsFreeOf ys k
      → Gives
          (λ b k'. ((b ≡ null) ⊎ Memᴰ b ys) × IsFreeOf ys k')
          (pick_from m.rounds k.free_list null k)
  pick_from-IsFreeOf k (xs, p, ring) =
      Gives-mono (first-IsPick m.rounds xs k ring)
        λ b k' (found, same). (either b found, subst (IsFreeOf ys) (sym same) (xs, p, ring))
    where
      either : (b : Ptr) → (b ≡ null) ⊎ Memᴰ b xs → (b ≡ null) ⊎ Memᴰ b ys
      either b (inl e) = inl e
      either b (inr m) = inr (Permᴰ-Memᴰ p m)

  pub getblk-IsFreeOf :
      (dev block : ℕ) (k : Kernel) → IsFreeOf ys k → Keeps (IsFreeOf ys) (getblk dev block k)
  getblk-IsFreeOf =
      getblk-Keeps IsFreeOf-IsStable pick_from-IsFreeOf
        λ dev block b k m ring. claim-IsFreeOf dev block b ys k two m ring
