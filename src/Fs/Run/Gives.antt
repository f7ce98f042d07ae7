-- ===== src/Fs/Run/Gives.antt =====
-- What holds of every value that a command returns.
use neantis.Prelude.{ℕ, zero, suc, Bool, true, false, ◌≡◌, refl, subst, if◌then◌else◌}
use neantis.Fs.State.{Kernel}
use neantis.Fs.Run.{Outcome, ok, panic, out_of_fuel, Cmd, and_then, Machine, wait_while}

-- The postcondition holds if the command returns.
pub data Gives {A : Type 0} (P : A → Kernel → Type 0) : Outcome A → Type 0 where
  returns : {a : A} {k : Kernel} → P a k → Gives P (ok a k)
  panics : {k : Kernel} → Gives P (panic k)
  stops : Gives P out_of_fuel

module _ {A B : Type 0} {P : B → Kernel → Type 0} where
  pub Gives-bind :
      (o : Outcome A) {f : A → Cmd B}
      → ((a : A) (k : Kernel) → Gives P (f a k))
      → Gives P (and_then o f)
  Gives-bind (ok a k) all = all a k
  Gives-bind (panic k) all = panics
  Gives-bind out_of_fuel all = stops

  -- The second command may use what the first one gives.
  pub Gives-then :
      {Q : A → Kernel → Type 0} (o : Outcome A) {f : A → Cmd B}
      → Gives Q o
      → ((a : A) (k : Kernel) → Q a k → Gives P (f a k))
      → Gives P (and_then o f)
  Gives-then _ (returns q) all = all _ _ q
  Gives-then _ panics all = panics
  Gives-then _ stops all = stops

module _ {A : Type 0} {P : A → Kernel → Type 0} where
  pub Gives-elim :
      (b : Bool) {x y : Outcome A}
      → (b ≡ true → Gives P x)
      → (b ≡ false → Gives P y)
      → Gives P (elim b [ true ↦ x | false ↦ y ])
  Gives-elim true hx hy = hx refl
  Gives-elim false hx hy = hy refl

  pub Gives-if :
      (b : Bool) {x y : Outcome A}
      → (b ≡ true → Gives P x)
      → (b ≡ false → Gives P y)
      → Gives P (if b then x else y)
  Gives-if true hx hy = hx refl
  Gives-if false hx hy = hy refl

  -- The same of two commands.
  pub Gives-branch :
      (b : Bool) (x y : Cmd A) (k : Kernel)
      → (b ≡ true → Gives P (x k))
      → (b ≡ false → Gives P (y k))
      → Gives P ((if b then x else y) k)
  Gives-branch true x y k hx hy = hx refl
  Gives-branch false x y k hx hy = hy refl

  Gives-value : {a : A} {k : Kernel} → Gives P (ok a k) → P a k
  Gives-value (returns p) = p

  -- What a command gives holds of the value that it returns.
  pub Gives-ok : {o : Outcome A} {a : A} {k : Kernel} → Gives P o → o ≡ ok a k → P a k
  Gives-ok g e = Gives-value (subst (Gives P) e g)

  pub Gives-mono :
      {Q : A → Kernel → Type 0} {o : Outcome A}
      → Gives Q o
      → ((a : A) (k : Kernel) → Q a k → P a k)
      → Gives P o
  Gives-mono (returns q) weaken = returns (weaken _ _ q)
  Gives-mono panics weaken = panics
  Gives-mono stops weaken = stops

-- A wait that ends leaves nothing busy.
pub wait_while-Gives :
    ⦃m : Machine⦄ (n : ℕ) (busy : Kernel → Bool) (k : Kernel)
    → Gives (λ _ k'. busy k' ≡ false) (wait_while n busy k)
unfolding wait_while
wait_while-Gives zero busy k = stops
wait_while-Gives ⦃m⦄ (suc n) busy k =
    Gives-elim (busy k) (λ _. wait_while-Gives n busy (m.sleep_on k)) (λ free. returns free)
