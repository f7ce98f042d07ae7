-- ===== src/Prelude/Slice.antt =====
-- A stretch of memory as the list of its bytes.
use Prim.Native.Nat.{ℕ, zero, suc, ◌+◌, ◌<◌}
use mathlib.Core.Path.{◌≡◌, refl, ap, ap₂, ◌∙◌}
use mathlib.Core.List.{List, [], ◌∷◌, ◌++◌}
use native.Mathlib.Omega.{arith}
use neantis.Prelude.Arrays.{length}

module _ {ℓ} {A : Type ℓ} where
  -- the `n` entries from `a` on
  abbrev pub slice : (ℕ → A) → ℕ → ℕ → List A
  slice m a zero = []
  slice m a (suc n) = m a ∷ slice m (a + 1) n

  pub length-slice : (m : ℕ → A) (a n : ℕ) → length (slice m a n) ≡ n
  length-slice m a zero = refl
  length-slice m a (suc n) = ap suc (length-slice m (a + 1) n)

  -- Stretches that agree at every place are the same list.
  pub slice-same :
      (f g : ℕ → A) (a b n : ℕ)
      → ((j : ℕ) → j < n → f (a + j) ≡ g (b + j))
      → slice f a n ≡ slice g b n
  slice-same f g a b zero same = refl
  slice-same f g a b (suc n) same =
      ap₂ ◌∷◌ (ap f (omega arith) ∙ same 0 (omega arith) ∙ ap g (omega arith)) (
        slice-same f g (a + 1) (b + 1) n
          λ j lt. ap f (omega arith) ∙ same (suc j) (omega arith) ∙ ap g (omega arith))

  pub slice-append : (m : ℕ → A) (a n l : ℕ) → slice m a (n + l) ≡ slice m a n ++ slice m (a + n) l
  slice-append m a zero l = ap₂ (slice m) (omega arith) (omega arith)
  slice-append m a (suc n) l =
      ap (slice m a) {y = suc (n + l)} (omega arith)
      ∙ ap (λ t. m a ∷ t)
          (slice-append m (a + 1) n l ∙ ap (λ j. slice m (a + 1) n ++ slice m j l) (omega arith))
