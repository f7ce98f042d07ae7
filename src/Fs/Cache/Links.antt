-- ===== src/Fs/Cache/Links.antt =====
-- fs/buffer.c: the links of the queues, and which block a buffer is for.
use neantis.Prelude.{ℕ, ◌≡◌, refl, arith, ◌==◌}
use neantis.Fs.State.{Ptr, BufferHead, Kernel}
use neantis.Fs.Run.Gives.{Gives, returns, Gives-then, Gives-branch}
use neantis.Fs.Cache.{assign, insert_into_queues}

-- Buffer `b` is for block `n` of device `d`.
abbrev pub IsFor : ℕ → ℕ → Ptr → Kernel → Type 0
IsFor d n b k = ((k.buffer b).b_dev ≡ d) × ((k.buffer b).b_blocknr ≡ n)

module _ {d n : ℕ} {b : Ptr} where
  assign-IsFor :
      (at : Kernel → Ptr) (f : Kernel → BufferHead → BufferHead) (k : Kernel)
      → ((h : BufferHead) → (f k h).b_dev ≡ h.b_dev)
      → ((h : BufferHead) → (f k h).b_blocknr ≡ h.b_blocknr)
      → IsFor d n b k
      → Gives (λ _. IsFor d n b) (assign at f k)
  unfolding assign
  assign-IsFor at f k dev nr is =
      returns (ground (arith, is.0, dev (k.buffer b)), ground (arith, is.1, nr (k.buffer b)))

  pub insert_into_queues-IsFor :
      (p : Ptr) (k : Kernel) → IsFor d n b k → Gives (λ _. IsFor d n b) (insert_into_queues p k)
  unfolding insert_into_queues
  insert_into_queues-IsFor p k is =
      Gives-then _ (assign-IsFor _ _ k (λ h. refl) (λ h. refl) is) λ _ k₁ is₁.
        Gives-then _ (assign-IsFor _ _ k₁ (λ h. refl) (λ h. refl) is₁) λ _ k₂ is₂.
          Gives-then _ (assign-IsFor _ _ k₂ (λ h. refl) (λ h. refl) is₂) λ _ k₃ is₃.
            Gives-then _ (assign-IsFor _ _ k₃ (λ h. refl) (λ h. refl) is₃) λ _ k₄ is₄.
              Gives-then _ (assign-IsFor _ _ k₄ (λ h. refl) (λ h. refl) is₄) λ _ k₅ is₅.
                Gives-then _ (assign-IsFor _ _ k₅ (λ h. refl) (λ h. refl) is₅) λ _ k₆ is₆.
                  Gives-branch ((k₆.buffer p).b_dev == 0) _ _ k₆ (λ _. returns is₆)
                    λ _.
                      Gives-then _ (assign-IsFor _ _ k₆ (λ h. refl) (λ h. refl) is₆)
                        λ _ k₇ is₇. assign-IsFor _ _ _ (λ h. refl) (λ h. refl) is₇
