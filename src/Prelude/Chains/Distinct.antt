-- ===== src/Prelude/Chains/Distinct.antt =====
-- Lists of numbers without repetition.
use Prim.Native.Nat.{ℕ}
use mathlib.Core.Path.{sym}
use mathlib.Core.Logic.{◌≢◌}
use mathlib.Core.List.{List, [], ◌∷◌, ◌++◌}

-- `x` is not among the entries.
abbrev pub Avoids : ℕ → List ℕ → Type 0
Avoids x [] = Unit {0}
Avoids x (y ∷ ys) = (x ≢ y) × Avoids x ys

-- No entry comes twice.
abbrev pub IsDistinct : List ℕ → Type 0
IsDistinct [] = Unit {0}
IsDistinct (x ∷ xs) = Avoids x xs × IsDistinct xs

Avoids-append : (x : ℕ) (us vs : List ℕ) → Avoids x us → Avoids x vs → Avoids x (us ++ vs)
Avoids-append x [] vs a b = b
Avoids-append x (u ∷ us) vs (ne, a) b = (ne, Avoids-append x us vs a b)

pub Avoids-left : (x : ℕ) (us vs : List ℕ) → Avoids x (us ++ vs) → Avoids x us
Avoids-left x [] vs a = tt
Avoids-left x (u ∷ us) vs (ne, a) = (ne, Avoids-left x us vs a)

pub Avoids-right : (x : ℕ) (us vs : List ℕ) → Avoids x (us ++ vs) → Avoids x vs
Avoids-right x [] vs a = a
Avoids-right x (u ∷ us) vs (ne, a) = Avoids-right x us vs a

-- Without the entry in the middle.
pub Avoids-without : (x b : ℕ) (us vs : List ℕ) → Avoids x (us ++ b ∷ vs) → Avoids x (us ++ vs)
Avoids-without x b [] vs (ne, a) = a
Avoids-without x b (u ∷ us) vs (ne, a) = (ne, Avoids-without x b us vs a)

pub IsDistinct-without :
    (b : ℕ) (us vs : List ℕ) → IsDistinct (us ++ b ∷ vs) → IsDistinct (us ++ vs)
IsDistinct-without b [] vs (a, d) = d
IsDistinct-without b (u ∷ us) vs (a, d) = (Avoids-without u b us vs a, IsDistinct-without b us vs d)

pub Avoids-middle : (x b : ℕ) (us vs : List ℕ) → Avoids x (us ++ b ∷ vs) → b ≢ x
Avoids-middle x b [] vs (ne, a) = λ e. ne (sym e)
Avoids-middle x b (u ∷ us) vs (ne, a) = Avoids-middle x b us vs a

pub IsDistinct-left : (us vs : List ℕ) → IsDistinct (us ++ vs) → IsDistinct us
IsDistinct-left [] vs d = tt
IsDistinct-left (u ∷ us) vs (a, d) = (Avoids-left u us vs a, IsDistinct-left us vs d)

pub IsDistinct-right : (us vs : List ℕ) → IsDistinct (us ++ vs) → IsDistinct vs
IsDistinct-right [] vs d = d
IsDistinct-right (u ∷ us) vs (a, d) = IsDistinct-right us vs d

-- An entry is not among those before the one before it.
pub Avoids-over : (v b : ℕ) (us vs : List ℕ) → IsDistinct (us ++ b ∷ v ∷ vs) → Avoids v us
Avoids-over v b [] vs d = tt
Avoids-over v b (u ∷ us) vs (a, d) =
    (Avoids-middle u v us vs (Avoids-without u b us (v ∷ vs) a), Avoids-over v b us vs d)

pub Avoids-rest : (b : ℕ) (us vs : List ℕ) → IsDistinct (us ++ b ∷ vs) → Avoids b (us ++ vs)
Avoids-rest b [] vs (a, d) = a
Avoids-rest b (u ∷ us) vs (a, d) = (Avoids-middle u b us vs a, Avoids-rest b us vs d)

pub IsDistinct-snoc :
    (xs : List ℕ) (b : ℕ) → IsDistinct xs → Avoids b xs → IsDistinct (xs ++ b ∷ [])
IsDistinct-snoc [] b d a = (tt, tt)
IsDistinct-snoc (x ∷ xs) b (a', d) (ne, a) =
    (Avoids-append x xs (b ∷ []) a' ((λ e. ne (sym e)), tt), IsDistinct-snoc xs b d a)

pub Avoids-snoc : (x b : ℕ) (xs : List ℕ) → Avoids x xs → x ≢ b → Avoids x (xs ++ b ∷ [])
Avoids-snoc x b xs a ne = Avoids-append x xs (b ∷ []) a (ne, tt)
