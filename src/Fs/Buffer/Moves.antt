-- ===== src/Fs/Buffer/Moves.antt =====
-- fs/buffer.c: the free list after `getblk` takes a buffer over.
use neantis.Prelude.{ℕ, ◌≡◌, ◌≢◌, refl, sym, List, [], ◌∷◌, ◌++◌}
use neantis.Prelude.Chains.{Avoids, IsCycle-IsDistinct, Avoids-rest, Avoids-middle}
use neantis.Fs.State.{Ptr, null, BufferHead, Kernel}
use neantis.Fs.Run.Does.{Does, Does-then}
use neantis.Fs.Cache.{insert_into_queues}
use neantis.Fs.Cache.FreeList.{with_head, HasLinks-other}
use neantis.Fs.Cache.FreeRing.{
  IsFreeRing, links, HasLinks-IsFreeRing, remove_from_queues-IsFreeRing,
  insert_into_queues-IsFreeRing,
}
use neantis.Fs.Buffer.{claim}

-- The other fields of a buffer head may change.
pub other-IsFreeRing :
    (xs : List Ptr) (p : Ptr) (h : BufferHead) (k : Kernel)
    → h.b_next_free ≡ (k.buffer p).b_next_free
    → h.b_prev_free ≡ (k.buffer p).b_prev_free
    → IsFreeRing xs k
    → IsFreeRing xs (with_head p h k)
other-IsFreeRing xs p h k e e' ring =
    HasLinks-IsFreeRing xs (HasLinks-other p h k e e' (links k _ ring.start)) ring.circle refl
      ring.some

end-IsFreeRing :
    (b : Ptr) (xs : List Ptr) (k : Kernel)
    → xs ≢ []
    → Avoids b xs
    → null ≢ b
    → IsFreeRing xs k
    → Does (λ _. IsFreeRing (xs ++ b ∷ [])) (insert_into_queues b k)
end-IsFreeRing b [] k others away some ring = absurd (others refl)
end-IsFreeRing b (x ∷ xs) k others away some ring =
    insert_into_queues-IsFreeRing b x xs k away some ring

-- When `getblk` takes the buffer `b` over, which is anywhere in the free list and not the only one there, the kernel does not panic, and the
-- free list is again a circle linked both ways, of the same buffers: `b` is the last one now, and the others are in the order that they were in, wherever in the list `b` came from.
pub claim-IsFreeRing :
    (dev block : ℕ) (b : Ptr) (us vs : List Ptr) (k : Kernel)
    → us ++ vs ≢ []
    → IsFreeRing (us ++ b ∷ vs) k
    → Does (λ _. IsFreeRing ((us ++ vs) ++ b ∷ [])) (claim dev block b k)
claim-IsFreeRing dev block b us vs k others ring =
    let away = Avoids-rest b us vs (IsCycle-IsDistinct _ ring.circle) in
    let some = Avoids-middle null b us vs ring.some in
    Does-then _
      (remove_from_queues-IsFreeRing b us vs _ others (other-IsFreeRing _ b _ k refl refl ring))
      λ _ k₁ ring₁.
        end-IsFreeRing b (us ++ vs) _ others away (λ e. some (sym e))
          (other-IsFreeRing _ b _ k₁ refl refl ring₁)
