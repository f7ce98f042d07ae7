-- ===== src/Fs/Cache/Pick.antt =====
-- fs/buffer.c: the buffers that the walk along the free list picks from.
use neantis.Prelude.{
  ℕ, zero, suc, ◌≡◌, refl, ◌⊎◌, inl, inr, Bool, true, false, ◌&&◌, ◌==◌, if◌then◌else◌, List, [],
  ◌∷◌, Memᴰ,
}
use neantis.Prelude.Chains.{IsCycle, cycle, IsCycle-Memᴰ}
use neantis.Fs.State.{Ptr, null, Kernel}
use neantis.Fs.Run.Gives.{Gives, returns, stops, Gives-elim}
use neantis.Fs.Cache.{is_better, badness, pick_from}
use neantis.Fs.Cache.FreeRing.{first_of, IsFreeRing}

-- No buffer, or one of the list; and the state has not changed.
abbrev pub IsPick : List Ptr → Kernel → Ptr → Kernel → Type 0
IsPick xs k b k' = ((b ≡ null) ⊎ Memᴰ b xs) × (k' ≡ k)

one_of :
    (b : Bool) (xs : List Ptr) (t best : Ptr)
    → Memᴰ t xs
    → (best ≡ null) ⊎ Memᴰ best xs
    → let best' = if b then t else best in (best' ≡ null) ⊎ Memᴰ best' xs
one_of true xs t best m so_far = inr m
one_of false xs t best m so_far = so_far

pick_from-IsPick :
    (f : ℕ) (xs : List Ptr) (t best : Ptr) (k : Kernel)
    → IsCycle (λ b. (k.buffer b).b_next_free) (λ b. (k.buffer b).b_prev_free) xs
    → Memᴰ t xs
    → (best ≡ null) ⊎ Memᴰ best xs
    → Gives (IsPick xs k) (pick_from f t best k)
unfolding pick_from
pick_from-IsPick zero xs t best k circle m so_far = stops
pick_from-IsPick (suc f) xs t best k circle m so_far =
    let best' = if is_better k t best then t else best in
    let next = (k.buffer t).b_next_free in
    let so_far' = one_of (is_better k t best) xs t best m so_far in
    let rest = pick_from-IsPick f xs next best' k circle (IsCycle-Memᴰ t xs circle m) so_far' in
    Gives-elim (is_better k t best && badness (k.buffer t) == 0) (λ _. returns (inr m, refl))
      λ _. Gives-elim (next == k.free_list) (λ _. returns (so_far', refl)) λ _. rest

first-Memᴰ : (xs : List Ptr) (k : Kernel) → IsFreeRing xs k → Memᴰ k.free_list xs
first-Memᴰ xs k ring = member xs ring.circle ring.start
  where
    member :
        (xs : List Ptr)
        → IsCycle (λ b. (k.buffer b).b_next_free) (λ b. (k.buffer b).b_prev_free) xs
        → k.free_list ≡ first_of xs
        → Memᴰ k.free_list xs
    member [] c e = elim c [ ]
    member (x ∷ xs) (cycle ch d) e = Memᴰ.head e

-- The walk from the first buffer picks a buffer of the free list, if any.
pub first-IsPick :
    (f : ℕ) (xs : List Ptr) (k : Kernel)
    → IsFreeRing xs k
    → Gives (IsPick xs k) (pick_from f k.free_list null k)
first-IsPick f xs k ring =
    pick_from-IsPick f xs k.free_list null k ring.circle (first-Memᴰ xs k ring) (inl refl)
