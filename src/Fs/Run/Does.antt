-- ===== src/Fs/Run/Does.antt =====
-- A command that returns, and what holds then.
use neantis.Prelude.{Bool, true, false, ◌≡◌, refl, if◌then◌else◌}
use neantis.Fs.State.{Kernel}
use neantis.Fs.Run.Gives.{Gives, returns}
use neantis.Fs.Run.{Outcome, ok, Cmd, Proc, and_then, when}

pub data Does {A : Type 0} (P : A → Kernel → Type 0) : Outcome A → Type 0 where
  does : {a : A} {k : Kernel} → P a k → Does P (ok a k)

module _ {A B : Type 0} {P : B → Kernel → Type 0} where
  pub Does-then :
      {Q : A → Kernel → Type 0} (o : Outcome A) {f : A → Cmd B}
      → Does Q o
      → ((a : A) (k : Kernel) → Q a k → Does P (f a k))
      → Does P (and_then o f)
  Does-then _ (does q) all = all _ _ q

module _ {P : Unit {0} → Kernel → Type 0} where
  pub Does-when :
      (b : Bool) (m : Proc) (k : Kernel)
      → (b ≡ true → Does P (m k))
      → (b ≡ false → P tt k)
      → Does P (when b m k)
  Does-when true m k then_does else_holds = then_does refl
  Does-when false m k then_does else_holds = does (else_holds refl)

module _ {A : Type 0} {P : A → Kernel → Type 0} where
  pub Does-branch :
      (b : Bool) (x y : Cmd A) (k : Kernel)
      → (b ≡ true → Does P (x k))
      → (b ≡ false → Does P (y k))
      → Does P ((if b then x else y) k)
  Does-branch true x y k hx hy = hx refl
  Does-branch false x y k hx hy = hy refl

  pub Does-map :
      {Q : A → Kernel → Type 0} {o : Outcome A}
      → Does Q o
      → ((a : A) (k : Kernel) → Q a k → P a k)
      → Does P o
  Does-map (does q) all = does (all _ _ q)

  -- What returns, gives.
  pub Does-Gives :
      {Q : A → Kernel → Type 0} {o : Outcome A}
      → Does Q o
      → ((a : A) (k : Kernel) → Q a k → P a k)
      → Gives P o
  Does-Gives (does q) all = returns (all _ _ q)
