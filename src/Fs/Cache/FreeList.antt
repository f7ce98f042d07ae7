-- ===== src/Fs/Cache/FreeList.antt =====
-- fs/buffer.c: the free list as the circle of its buffers, in their order.
use neantis.Prelude.{
  ℕ, ◌≡◌, ◌≢◌, refl, ap, ◌∙◌, arith, not, ◌||◌, ◌==◌, if◌then◌else◌, update, update-ne, Bool-cases,
  inl, inr,
}
use neantis.Fs.State.{Ptr, null, BufferHead, Kernel}
use neantis.Fs.Run.Does.{Does, does, Does-then, Does-when, Does-branch}
use neantis.Fs.Cache.{hashfn, assign, remove_from_queues, insert_into_queues}

-- The links of the free list, and its first buffer.
pub record HasLinks (nf pf : ℕ → ℕ) (first : Ptr) (k : Kernel) : Type 0 where
  pub next : (b : Ptr) → (k.buffer b).b_next_free ≡ nf b
  pub prev : (b : Ptr) → (k.buffer b).b_prev_free ≡ pf b
  pub start : k.free_list ≡ first

-- The state with another buffer head at `p`.
abbrev pub with_head : Ptr → BufferHead → Kernel → Kernel
with_head p h k = record k { buffer = update k.buffer p h }

module _ {nf pf : ℕ → ℕ} {first : Ptr} where
  -- The other fields of a buffer head may change.
  pub HasLinks-other :
      (p : Ptr) (h : BufferHead) (k : Kernel)
      → h.b_next_free ≡ (k.buffer p).b_next_free
      → h.b_prev_free ≡ (k.buffer p).b_prev_free
      → HasLinks nf pf first k
      → HasLinks nf pf first (with_head p h k)
  HasLinks-other p h k e e' l = record {
    next = λ b. ground (arith, l.next b);
    prev = λ b. ground (arith, l.prev b);
    start = l.start;
  }

  HasLinks-next :
      (p q v : Ptr) (h : BufferHead) (k : Kernel)
      → p ≡ q
      → h.b_next_free ≡ v
      → h.b_prev_free ≡ (k.buffer p).b_prev_free
      → HasLinks nf pf first k
      → HasLinks (update nf q v) pf first (with_head p h k)
  HasLinks-next p q v h k at e e' l = record {
    next = λ b. ground (arith, l.next b);
    prev = λ b. ground (arith, l.prev b);
    start = l.start;
  }

  HasLinks-prev :
      (p q v : Ptr) (h : BufferHead) (k : Kernel)
      → p ≡ q
      → h.b_prev_free ≡ v
      → h.b_next_free ≡ (k.buffer p).b_next_free
      → HasLinks nf pf first k
      → HasLinks nf (update pf q v) first (with_head p h k)
  HasLinks-prev p q v h k at e e' l = record {
    next = λ b. ground (arith, l.next b);
    prev = λ b. ground (arith, l.prev b);
    start = l.start;
  }

module _ (nf pf : ℕ → ℕ) (first b : Ptr) where
  -- The links when `b` has left.
  abbrev pub next_without : ℕ → ℕ
  next_without = update nf (pf b) (nf b)

  abbrev pub prev_without : ℕ → ℕ
  prev_without = update pf (nf b) (pf b)

  abbrev pub first_without : Ptr
  first_without = if first == b then nf b else first

  pub remove_from_queues-HasLinks :
      (k : Kernel)
      → pf b ≢ null
      → nf b ≢ null
      → HasLinks nf pf first k
      → Does (λ _. HasLinks next_without prev_without first_without) (remove_from_queues b k)
  unfolding remove_from_queues
  remove_from_queues-HasLinks k some_prev some_next l =
      let h = k.buffer b in
      Does-then {Q = λ _. HasLinks nf pf first} _
        (Does-when (not (h.b_next == null)) _ k
          (λ _. does (HasLinks-other h.b_next _ k refl refl l)) (λ _. l))
        λ _ k₁ l₁.
          Does-then {Q = λ _. HasLinks nf pf first} _
            (Does-when (not ((k₁.buffer b).b_prev == null)) _ k₁
              (λ _. does (HasLinks-other (k₁.buffer b).b_prev _ k₁ refl refl l₁)) (λ _. l₁))
            λ _ k₂ l₂.
              Does-then {Q = λ _. HasLinks nf pf first} _
                (Does-when (k₂.hash_table (hashfn (k₂.buffer b).b_dev (k₂.buffer b).b_blocknr) == b)
                  _ k₂ (λ _. does (record { next = l₂.next; prev = l₂.prev; start = l₂.start }))
                  (λ _. l₂))
                λ _ k₃ l₃.
                  let g = k₃.buffer b in
                  Does-branch (g.b_prev_free == null || g.b_next_free == null) _ _ k₃
                    (λ torn. absurd (ground (arith, l₃.prev b, l₃.next b)))
                    λ _.
                      let k₄ =
                        with_head g.b_prev_free
                          (record (k₃.buffer g.b_prev_free) { b_next_free = g.b_next_free }) k₃ in
                      let l₄ =
                        HasLinks-next g.b_prev_free (pf b) (nf b) _ k₃ (l₃.prev b) (l₃.next b) refl
                          l₃ in
                      let h₄ = k₄.buffer b in
                      let at_next : h₄.b_next_free ≡ nf b = l₄.next b ∙ same_next in
                      let k₅ =
                        with_head h₄.b_next_free
                          (record (k₄.buffer h₄.b_next_free) { b_prev_free = h₄.b_prev_free }) k₄ in
                      let l₅ =
                        HasLinks-prev h₄.b_next_free (nf b) (pf b) _ k₄ at_next (l₄.prev b) refl
                          l₄ in
                      does (moved k₅ l₅)
    where
      same_next : next_without b ≡ nf b
      same_next = ground arith

      moved :
          (k : Kernel)
          → HasLinks next_without prev_without first k
          → HasLinks next_without prev_without first_without
              (if k.free_list == b then record k { free_list = (k.buffer b).b_next_free } else k)
      moved k l = elim (Bool-cases (k.free_list == b)) [
        | inl e ↦ rw e (record {
          next = l.next;
          prev = l.prev;
          start = ground (arith, l.start, l.next b, same_next);
        })
        | inr e ↦ rw e (record { next = l.next; prev = l.prev; start = ground (arith, l.start) })
      ]

module _ {nf pf : ℕ → ℕ} {first : Ptr} (at : Kernel → Ptr) (f : Kernel → BufferHead → BufferHead)
    (k : Kernel) where
  assign-next :
      (q v : Ptr)
      → at k ≡ q
      → ((h : BufferHead) → (f k h).b_next_free ≡ v)
      → ((h : BufferHead) → (f k h).b_prev_free ≡ h.b_prev_free)
      → HasLinks nf pf first k
      → Does (λ _. HasLinks (update nf q v) pf first) (assign at f k)
  unfolding assign
  assign-next q v e next prev l = does (HasLinks-next (at k) q v _ k e (next _) (prev _) l)

  assign-prev :
      (q v : Ptr)
      → at k ≡ q
      → ((h : BufferHead) → (f k h).b_prev_free ≡ v)
      → ((h : BufferHead) → (f k h).b_next_free ≡ h.b_next_free)
      → HasLinks nf pf first k
      → Does (λ _. HasLinks nf (update pf q v) first) (assign at f k)
  unfolding assign
  assign-prev q v e prev next l = does (HasLinks-prev (at k) q v _ k e (prev _) (next _) l)

  assign-other :
      ((h : BufferHead) → (f k h).b_next_free ≡ h.b_next_free)
      → ((h : BufferHead) → (f k h).b_prev_free ≡ h.b_prev_free)
      → HasLinks nf pf first k
      → Does (λ _. HasLinks nf pf first) (assign at f k)
  unfolding assign
  assign-other next prev l = does (HasLinks-other (at k) _ k (next _) (prev _) l)

module _ (nf pf : ℕ → ℕ) (first b : Ptr) where
  -- The links when `b` has come in at the end.
  abbrev pub next_with : ℕ → ℕ
  next_with = update (update nf (pf first) b) b first

  abbrev pub prev_with : ℕ → ℕ
  prev_with = update (update pf b (pf first)) first b

  pub insert_into_queues-HasLinks :
      (k : Kernel)
      → b ≢ first
      → b ≢ pf first
      → HasLinks nf pf first k
      → Does (λ _. HasLinks next_with prev_with first) (insert_into_queues b k)
  unfolding insert_into_queues
  insert_into_queues-HasLinks k away away' l =
      Does-then _ (assign-next _ _ k b first refl (λ h. l.start) (λ h. refl) l) λ _ k₁ l₁.
        Does-then _
          (assign-prev _ _ k₁ b (pf first) refl (λ h. l₁.prev k₁.free_list ∙ ap pf l₁.start)
            (λ h. refl) l₁)
          λ _ k₂ l₂.
            Does-then _
              (assign-next _ _ k₂ (pf first) b
                (l₂.prev k₂.free_list
                  ∙ ap (update pf b (pf first)) l₂.start
                  ∙ update-ne pf b first (pf first) away)
                (λ h. refl) (λ h. refl) l₂)
              λ _ k₃ l₃.
                Does-then _ (assign-prev _ _ k₃ first b l₃.start (λ h. refl) (λ h. refl) l₃)
                  λ _ k₄ l₄. Does-then _ (assign-other _ _ k₄ (λ h. refl) (λ h. refl) l₄) λ _ k₅ l₅.
                    Does-then _ (assign-other _ _ k₅ (λ h. refl) (λ h. refl) l₅) λ _ k₆ l₆.
                      let l₇ : HasLinks next_with prev_with first k₆ = record {
                        next = λ x. l₆.next x ∙ swapped x;
                        prev = l₆.prev;
                        start = l₆.start;
                      } in
                      Does-branch ((k₆.buffer b).b_dev == 0) _ _ k₆ (λ _. does l₇)
                        λ _. Does-then _ (assign-other _ _ k₆ (λ h. refl) (λ h. refl) l₇) λ _ k₈ l₈.
                          assign-other _ _ _ (λ h. refl) (λ h. refl)
                            (record { next = l₈.next; prev = l₈.prev; start = l₈.start })
    where
      swapped : (x : ℕ) → update (update nf b first) (pf first) b x ≡ next_with x
      swapped x = ground arith
