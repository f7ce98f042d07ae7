-- ===== src/Fs/Cache/FreeRing.antt =====
-- fs/buffer.c: what the queues do to the free list as a circle.
use neantis.Prelude.{
  ℕ, ◌≡◌, ◌≢◌, refl, sym, ◌∙◌, subst, arith, ◌==◌, if◌then◌else◌, List, [], ◌∷◌, ◌++◌, fun_ext,
}
use neantis.Prelude.Chains.{
  Avoids, IsCycle, IsCycle-without, IsCycle-snoc, Avoids-rest, Avoids-without, Avoids-snoc,
  IsCycle-prev, IsCycle-next, IsCycle-second, IsCycle-IsDistinct,
}
use neantis.Fs.State.{Ptr, null, Kernel}
use neantis.Fs.Run.Does.{Does, Does-map}
use neantis.Fs.Cache.{remove_from_queues, insert_into_queues}
use neantis.Fs.Cache.FreeList.{HasLinks, remove_from_queues-HasLinks, insert_into_queues-HasLinks}

abbrev pub first_of : List Ptr → Ptr
first_of [] = null
first_of (x ∷ xs) = x

-- The free list is the circle of these buffers, each of them once, and begins with the first one.
pub record IsFreeRing (xs : List Ptr) (k : Kernel) : Type 0 where
  pub circle : IsCycle (λ b. (k.buffer b).b_next_free) (λ b. (k.buffer b).b_prev_free) xs
  pub start : k.free_list ≡ first_of xs
  pub some : Avoids null xs

pub links :
    (k : Kernel) (first : Ptr)
    → k.free_list ≡ first
    → HasLinks (λ b. (k.buffer b).b_next_free) (λ b. (k.buffer b).b_prev_free) first k
links k first e = record { next = λ b. refl; prev = λ b. refl; start = e }

pub HasLinks-IsFreeRing :
    {nf pf : ℕ → ℕ} {first : Ptr} {k : Kernel} (xs : List Ptr)
    → HasLinks nf pf first k
    → IsCycle nf pf xs
    → first ≡ first_of xs
    → Avoids null xs
    → IsFreeRing xs k
HasLinks-IsFreeRing {nf} {k = k} xs l c e some = record {
  circle =
      subst (λ f. IsCycle f (λ b. (k.buffer b).b_prev_free) xs) (sym (fun_ext l.next))
        (subst (λ f. IsCycle nf f xs) (sym (fun_ext l.prev)) c);
  start = l.start ∙ e;
  some = some;
}

first_left :
    {nf pf : ℕ → ℕ} (b : Ptr) (us vs : List Ptr)
    → IsCycle nf pf (us ++ b ∷ vs)
    → us ++ vs ≢ []
    → (if first_of (us ++ b ∷ vs) == b then nf b else first_of (us ++ b ∷ vs)) ≡ first_of (us ++ vs)
first_left b [] [] c others = absurd (others refl)
first_left b [] (y ∷ ys) c others = ground (arith, IsCycle-second b y ys c)
first_left b (x ∷ us) vs c others = ground (arith, away)
  where
    away : b ≢ x
    away = (Avoids-rest b (x ∷ us) vs (IsCycle-IsDistinct _ c)).0

-- A buffer leaves, and the others stay in their order.
pub remove_from_queues-IsFreeRing :
    (b : Ptr) (us vs : List Ptr) (k : Kernel)
    → us ++ vs ≢ []
    → IsFreeRing (us ++ b ∷ vs) k
    → Does (λ _. IsFreeRing (us ++ vs)) (remove_from_queues b k)
remove_from_queues-IsFreeRing b us vs k others ring =
    Does-map
      (remove_from_queues-HasLinks _ _ _ b k
        (λ e. IsCycle-prev null b us vs ring.circle ring.some (sym e))
        (λ e. IsCycle-next null b us vs ring.circle ring.some (sym e)) (links k _ ring.start))
      λ _ k' l.
        HasLinks-IsFreeRing (us ++ vs) l (IsCycle-without b us vs others ring.circle)
          (first_left b us vs ring.circle others) (Avoids-without null b us vs ring.some)

-- A buffer comes in at the end.
pub insert_into_queues-IsFreeRing :
    (b x : Ptr) (xs : List Ptr) (k : Kernel)
    → Avoids b (x ∷ xs)
    → null ≢ b
    → IsFreeRing (x ∷ xs) k
    → Does (λ _. IsFreeRing (x ∷ xs ++ b ∷ [])) (insert_into_queues b k)
insert_into_queues-IsFreeRing b x xs k away some ring =
    Does-map
      (insert_into_queues-HasLinks _ _ x b k away.0 (IsCycle-prev b x [] xs ring.circle away)
        (links k x ring.start))
      λ _ k' l.
        HasLinks-IsFreeRing (x ∷ xs ++ b ∷ []) l (IsCycle-snoc b x xs away ring.circle) refl
          (Avoids-snoc null b (x ∷ xs) ring.some some)
