-- ===== src/Prelude/Chains.antt =====
-- A list linked both ways by two tables, `nf` forward and `pf` backward.
mod Distinct
unfoldable pub use Distinct.*
use Prim.Native.Nat.{ℕ}
use mathlib.Core.Path.{◌≡◌, refl, sym, ap, ◌∙◌, subst}
use mathlib.Core.Logic.{◌≢◌, ◌⊎◌, inl, inr}
use mathlib.Core.List.{List, [], ◌∷◌, ◌++◌, append-nil, Memᴰ}
use neantis.Prelude.Arrays.{update, update_self, update-ne}

-- From `a` through the entries of the list to `c`.
pub data Chain (nf pf : ℕ → ℕ) : ℕ → List ℕ → ℕ → Type 0 where
  link : {a c : ℕ} → nf a ≡ c → pf c ≡ a → Chain nf pf a [] c
  step :
      {a x c : ℕ} {xs : List ℕ}
      → nf a ≡ x
      → pf x ≡ a
      → Chain nf pf x xs c
      → Chain nf pf a (x ∷ xs) c

module _ {nf pf : ℕ → ℕ} where
  Chain-append :
      {a b c : ℕ} (us vs : List ℕ)
      → Chain nf pf a us b
      → Chain nf pf b vs c
      → Chain nf pf a (us ++ b ∷ vs) c
  Chain-append [] vs (link e e') d = step e e' d
  Chain-append (u ∷ us) vs (step e e' c) d = step e e' (Chain-append us vs c d)

  Chain-split :
      {a c : ℕ} (b : ℕ) (us vs : List ℕ)
      → Chain nf pf a (us ++ b ∷ vs) c
      → Chain nf pf a us b × Chain nf pf b vs c
  Chain-split b [] vs (step e e' d) = (link e e', d)
  Chain-split b (u ∷ us) vs (step e e' d) = let (c, d') = Chain-split b us vs d in (step e e' c, d')

  -- The link back from the end is not one of what the last entry differs from.
  Chain-last : {x c : ℕ} (a : ℕ) (xs : List ℕ) → Chain nf pf x xs c → a ≢ x → Avoids a xs → a ≢ pf c
  Chain-last a [] (link e e') ne av = λ same. ne (same ∙ e')
  Chain-last a (y ∷ ys) (step e e' d) ne (ne', av) = Chain-last a ys d ne' av

  -- A table may change where the chain does not read it.
  Chain-next :
      {a c : ℕ} (z v : ℕ) (xs : List ℕ)
      → Chain nf pf a xs c
      → z ≢ a
      → Avoids z xs
      → Chain (update nf z v) pf a xs c
  Chain-next {a} z v [] (link e e') ne av = link (update-ne nf z a v ne ∙ e) e'
  Chain-next {a} z v (x ∷ xs) (step e e' d) ne (ne', av) =
      step (update-ne nf z a v ne ∙ e) e' (Chain-next z v xs d ne' av)

  Chain-prev :
      {a c : ℕ} (z v : ℕ) (xs : List ℕ)
      → Chain nf pf a xs c
      → z ≢ c
      → Avoids z xs
      → Chain nf (update pf z v) a xs c
  Chain-prev {c = c} z v [] (link e e') ne av = link e (update-ne pf z c v ne ∙ e')
  Chain-prev z v (x ∷ xs) (step e e' d) ne (ne', av) =
      step e (update-ne pf z x v ne' ∙ e') (Chain-prev z v xs d ne av)

  -- The chain ends elsewhere.
  Chain-end :
      {a c : ℕ} (y : ℕ) (zs : List ℕ)
      → Chain nf pf a zs c
      → Avoids a zs
      → IsDistinct zs
      → Avoids y zs
      → Chain (update nf (pf c) y) (update pf y (pf c)) a zs y
  Chain-end {a} {c} y [] (link e e') av d av' =
      link (ap (update nf (pf c) y) (sym e') ∙ update_self nf (pf c) y)
        (update_self pf y (pf c) ∙ e')
  Chain-end {a} {c} y (x ∷ xs) (step e e' ch) (ne, av) (av₁, d) (ne', av') =
      step (update-ne nf (pf c) a y (λ same. Chain-last a xs ch ne av (sym same)) ∙ e)
        (update-ne pf y x (pf c) ne' ∙ e') (Chain-end y xs ch av₁ d av')

  -- What comes later than the chain is not its last entry.
  last-Avoids :
      {x c : ℕ} (b : ℕ) (us vs : List ℕ)
      → Chain nf pf x us c
      → Avoids x (us ++ b ∷ vs)
      → IsDistinct (us ++ b ∷ vs)
      → Avoids (pf c) vs
  last-Avoids b [] vs (link e e') (ne, av) d = subst (λ t. Avoids t vs) (sym e') av
  last-Avoids b (u ∷ us) vs (step e e' ch) (ne, av) (av', d) = last-Avoids b us vs ch av' d

-- The list is a circle, from its first entry round to it.
pub data IsCycle (nf pf : ℕ → ℕ) : List ℕ → Type 0 where
  cycle : {x : ℕ} {xs : List ℕ} → Chain nf pf x xs x → IsDistinct (x ∷ xs) → IsCycle nf pf (x ∷ xs)

module _ {nf pf : ℕ → ℕ} where
  -- An entry is taken out between its neighbours, where there are others.
  pub IsCycle-without :
      (b : ℕ) (us vs : List ℕ)
      → us ++ vs ≢ []
      → IsCycle nf pf (us ++ b ∷ vs)
      → IsCycle (update nf (pf b) (nf b)) (update pf (nf b) (pf b)) (us ++ vs)
  IsCycle-without b [] [] others c = absurd (others refl)
  IsCycle-without b [] (y ∷ ys) others (cycle (step e e' ch) ((_, av), (av', d))) =
      rw e (cycle (Chain-end y ys ch av' d av') (av', d))
  IsCycle-without b (x ∷ us) vs others (cycle ch (av, d)) =
      let (before, after) = Chain-split b us vs ch in
      let dist = IsDistinct-without b (x ∷ us) vs (av, d) in
      cycle (joined vs before after av d) dist
    where
      joined :
          (vs : List ℕ)
          → Chain nf pf x us b
          → Chain nf pf b vs x
          → Avoids x (us ++ b ∷ vs)
          → IsDistinct (us ++ b ∷ vs)
          → Chain (update nf (pf b) (nf b)) (update pf (nf b) (pf b)) x (us ++ vs) x
      joined [] before (link e e') av d =
          rw (append-nil, e)
            (Chain-end x us before (Avoids-left x us (b ∷ []) av) (IsDistinct-left us (b ∷ []) d)
              (Avoids-left x us (b ∷ []) av))
      joined (v ∷ vs) before (step e e' after) av d =
          let away = last-Avoids b us (v ∷ vs) before av d in
          let (ne, away') = Avoids-right x us (b ∷ v ∷ vs) av in
          let (av', d') = IsDistinct-right us (b ∷ v ∷ vs) d in
          rw e (
            Chain-append us vs
              (Chain-end v us before (Avoids-left x us (b ∷ v ∷ vs) av)
                (IsDistinct-left us (b ∷ v ∷ vs) d) (Avoids-over v b us vs d))
              (Chain-prev v (pf b) vs (Chain-next (pf b) v vs after away.0 away.1)
                (λ e. away'.0 (sym e)) d'.0))

  -- An entry comes in before the first one: it is the last one then.
  pub IsCycle-snoc :
      (b x : ℕ) (xs : List ℕ)
      → Avoids b (x ∷ xs)
      → IsCycle nf pf (x ∷ xs)
      → IsCycle
          (update (update nf (pf x) b) b x)
          (update (update pf b (pf x)) x b)
          (x ∷ xs ++ b ∷ [])
  IsCycle-snoc b x xs (ne, away) (cycle ch (av, d)) =
      cycle
        (Chain-append xs []
          (Chain-prev x b xs (Chain-next b x xs (Chain-end b xs ch av d away) ne away)
            (λ e. ne (sym e)) av)
          (link (update_self (update nf (pf x) b) b x) (update_self (update pf b (pf x)) x b)))
        (Avoids-snoc x b xs av (λ e. ne (sym e)), IsDistinct-snoc xs b d away)

  -- The neighbours of an entry are entries.
  pub IsCycle-prev :
      (z b : ℕ) (us vs : List ℕ) → IsCycle nf pf (us ++ b ∷ vs) → Avoids z (us ++ b ∷ vs) → z ≢ pf b
  IsCycle-prev z b [] vs (cycle ch d) (ne, av) = Chain-last z vs ch ne av
  IsCycle-prev z b (x ∷ us) vs (cycle ch d) (ne, av) =
      Chain-last z us (Chain-split b us vs ch).0 ne (Avoids-left z us (b ∷ vs) av)

  Chain-first :
      {a c : ℕ} (z : ℕ) (xs : List ℕ) → Chain nf pf a xs c → z ≢ c → Avoids z xs → z ≢ nf a
  Chain-first z [] (link e e') ne av = λ same. ne (same ∙ e)
  Chain-first z (x ∷ xs) (step e e' ch) ne (ne', av) = λ same. ne' (same ∙ e)

  pub IsCycle-next :
      (z b : ℕ) (us vs : List ℕ) → IsCycle nf pf (us ++ b ∷ vs) → Avoids z (us ++ b ∷ vs) → z ≢ nf b
  IsCycle-next z b [] vs (cycle ch d) (ne, av) = Chain-first z vs ch ne av
  IsCycle-next z b (x ∷ us) vs (cycle ch d) (ne, av) =
      let (ne', av') = Avoids-right z us (b ∷ vs) av in
      Chain-first z vs (Chain-split b us vs ch).1 ne av'

  Chain-Memᴰ :
      {a c : ℕ} (z : ℕ) (xs : List ℕ)
      → Chain nf pf a xs c
      → Memᴰ z (a ∷ xs)
      → (nf z ≡ c) ⊎ Memᴰ (nf z) xs
  Chain-Memᴰ z [] (link e e') (Memᴰ.head same) = inl (ap nf same ∙ e)
  Chain-Memᴰ z [] (link e e') (Memᴰ.tail m) = elim m [ ]
  Chain-Memᴰ z (x ∷ xs) (step e e' ch) (Memᴰ.head same) = inr (Memᴰ.head (ap nf same ∙ e))
  Chain-Memᴰ z (x ∷ xs) (step e e' ch) (Memᴰ.tail m) = elim (Chain-Memᴰ z xs ch m) [
    | inl last ↦ inl last
    | inr m' ↦ inr (Memᴰ.tail m')
  ]

  -- The walk along the circle stays on it.
  pub IsCycle-Memᴰ : (z : ℕ) (xs : List ℕ) → IsCycle nf pf xs → Memᴰ z xs → Memᴰ (nf z) xs
  IsCycle-Memᴰ z [] c m = elim c [ ]
  IsCycle-Memᴰ z (x ∷ xs) (cycle ch d) m = elim (Chain-Memᴰ z xs ch m) [
    | inl last ↦ Memᴰ.head last
    | inr m' ↦ Memᴰ.tail m'
  ]

  -- The entry behind the first one.
  pub IsCycle-second : (b y : ℕ) (ys : List ℕ) → IsCycle nf pf (b ∷ y ∷ ys) → nf b ≡ y
  IsCycle-second b y ys (cycle (step e e' ch) d) = e

  pub IsCycle-IsDistinct : (xs : List ℕ) → IsCycle nf pf xs → IsDistinct xs
  IsCycle-IsDistinct [] c = tt
  IsCycle-IsDistinct (x ∷ xs) (cycle ch d) = d
