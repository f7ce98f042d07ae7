-- ===== src/Prelude/Members.antt =====
-- The members of a list, and lists of the same members.
use Prim.Native.Nat.{suc}
use mathlib.Core.Path.{◌≡◌, refl, sym, ap, ◌∙◌}
use mathlib.Core.List.{List, [], ◌∷◌, ◌++◌, Memᴰ, Permᴰ}
use mathlib.Core.List.Permᴰ.{symm, trans, middle, append_comm}
use mathlib.Core.List.Memᴰ.{head, tail}
use neantis.Prelude.Arrays.{length}

module _ {ℓ} {A : Type ℓ} where
  -- What comes before a member, and what after.
  pub Memᴰ-split : {a : A} (xs : List A) → Memᴰ a xs → (us vs : List A) × (xs ≡ us ++ a ∷ vs)
  Memᴰ-split [] m = elim m [ ]
  Memᴰ-split (x ∷ xs) (head e) = ([], xs, ap (λ y. y ∷ xs) (sym e))
  Memᴰ-split (x ∷ xs) (tail m) =
      let (us, vs, e) = Memᴰ-split xs m in (x ∷ us, vs, ap (λ ys. x ∷ ys) e)

  pub Permᴰ-Memᴰ : {a : A} {xs ys : List A} → Permᴰ xs ys → Memᴰ a xs → Memᴰ a ys
  Permᴰ-Memᴰ Permᴰ.nil m = elim m [ ]
  Permᴰ-Memᴰ (Permᴰ.cons e p) (head e') = head (e' ∙ e)
  Permᴰ-Memᴰ (Permᴰ.cons e p) (tail m) = tail (Permᴰ-Memᴰ p m)
  Permᴰ-Memᴰ (Permᴰ.swap e e') (head e'') = tail (head (e'' ∙ e))
  Permᴰ-Memᴰ (Permᴰ.swap e e') (tail (head e'')) = head (e'' ∙ e')
  Permᴰ-Memᴰ (Permᴰ.swap e e') (tail (tail m)) = tail (tail m)
  Permᴰ-Memᴰ (Permᴰ.trans p q) m = Permᴰ-Memᴰ q (Permᴰ-Memᴰ p m)

  pub length-Permᴰ : {xs ys : List A} → Permᴰ xs ys → length xs ≡ length ys
  length-Permᴰ Permᴰ.nil = refl
  length-Permᴰ (Permᴰ.cons e p) = ap suc (length-Permᴰ p)
  length-Permᴰ (Permᴰ.swap e e') = refl
  length-Permᴰ (Permᴰ.trans p q) = length-Permᴰ p ∙ length-Permᴰ q

  -- A member goes to the end.
  pub Permᴰ_last : (a : A) (us vs : List A) → Permᴰ ((us ++ vs) ++ a ∷ []) (us ++ a ∷ vs)
  Permᴰ_last a us vs = trans (append_comm (us ++ vs) (a ∷ [])) (symm (middle a us vs))
