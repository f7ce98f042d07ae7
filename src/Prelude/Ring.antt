-- ===== src/Prelude/Ring.antt =====
-- A circular array of `cap` entries read from a position on, as the list of what it holds.
-- A position counts on past the end of the array; the array is read at its remainder by `cap`.
use Prim.Native.Nat.{ℕ, zero, suc, ◌+◌, ◌%◌, ◌<◌}
use mathlib.Core.Path.{◌≡◌, refl, ap, ap₂, ◌∙◌}
use mathlib.Core.Logic.{◌≢◌}
use mathlib.Core.List.{List, [], ◌∷◌, ◌++◌}
use native.Mathlib.Omega.{arith}
use neantis.Prelude.Arrays.{update, update-ne, length}

module _ {ℓ} {A : Type ℓ} (cap : ℕ) where
  abbrev pub window : (ℕ → A) → ℕ → ℕ → List A
  window buf h zero = []
  window buf h (suc n) = buf (h % cap) ∷ window buf (h + 1) n

  pub length-window : (buf : ℕ → A) (h n : ℕ) → length (window buf h n) ≡ n
  length-window buf h zero = refl
  length-window buf h (suc n) = ap suc (length-window buf (h + 1) n)

  -- Entries that agree on the window give the same list.
  pub window-same :
      (f g : ℕ → A) (h n : ℕ)
      → ((k : ℕ) → k < n → f ((h + k) % cap) ≡ g ((h + k) % cap))
      → window f h n ≡ window g h n
  window-same f g h zero same = refl
  window-same f g h (suc n) same =
      ap₂ ◌∷◌
        (ap f (ap (λ j. j % cap) (omega arith))
          ∙ same 0 (omega arith)
          ∙ ap g (ap (λ j. j % cap) (omega arith)))
        (window-same f g (h + 1) n λ k lt.
          ap f (ap (λ j. j % cap) (omega arith))
          ∙ same (suc k) (omega arith)
          ∙ ap g (ap (λ j. j % cap) (omega arith)))

  -- One entry more, at the end.
  pub window-snoc :
      (buf : ℕ → A) (h n : ℕ) → window buf h (suc n) ≡ window buf h n ++ (buf ((h + n) % cap) ∷ [])
  window-snoc buf h zero = ap (λ j. buf (j % cap) ∷ []) (omega arith)
  window-snoc buf h (suc n) =
      ap (λ l. buf (h % cap) ∷ l)
        (window-snoc buf (h + 1) n
          ∙ ap (λ j. window buf (h + 1) n ++ (buf (j % cap) ∷ [])) (omega arith))

  -- A run of `m` entries behind `n`.
  pub window-append :
      (buf : ℕ → A) (h n m : ℕ) → window buf h (n + m) ≡ window buf h n ++ window buf (h + n) m
  window-append buf h zero m = ap₂ (window buf) (omega arith) (omega arith)
  window-append buf h (suc n) m =
      ap (window buf h) {y = suc (n + m)} (omega arith)
      ∙ ap (λ l. buf (h % cap) ∷ l)
          (window-append buf (h + 1) n m
            ∙ ap (λ j. window buf (h + 1) n ++ window buf j m) (omega arith))

  -- Reading from a position or from another with the same remainder is the same.
  pub window-mod :
      ((a b : ℕ) → a % cap ≡ b % cap → (a + 1) % cap ≡ (b + 1) % cap)
      → (buf : ℕ → A) (a b n : ℕ) → a % cap ≡ b % cap
      → window buf a n ≡ window buf b n
  window-mod next buf a b zero e = refl
  window-mod next buf a b (suc n) e =
      ap₂ ◌∷◌ (ap buf e) (window-mod next buf (a + 1) (b + 1) n (next a b e))

  -- Writing just behind a window that does not fill the array extends it by what is written.
  pub window-push :
      ((a b : ℕ) → a < b → b < a + cap → a % cap ≢ b % cap)
      → (buf : ℕ → A) (h n i : ℕ) (x : A) → n < cap
      → i ≡ (h + n) % cap
      → window (update buf i x) h (suc n) ≡ window buf h n ++ (x ∷ [])
  window-push apart buf h n i x lt e =
      window-snoc (update buf i x) h n
      ∙ ap₂ (λ l y. l ++ (y ∷ []))
          (window-same (update buf i x) buf h n λ k k_lt.
            update-ne buf i ((h + k) % cap) x
              λ same. apart (h + k) (h + n) (omega arith) (omega arith) (same_of same e))
          (at_end e)
    where
      same_of : {j k : ℕ} → i ≡ j → i ≡ k → j ≡ k
      same_of p q = omega arith

      at_end : {j : ℕ} → i ≡ j → update buf i x j ≡ x
      at_end p = ground arith
