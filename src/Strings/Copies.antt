-- ===== src/Strings/Copies.antt =====
-- include/string.h: what the copies and the comparison do to strings as lists of bytes.
use neantis.Prelude.{
  ℕ, zero, suc, ◌+◌, ◌^◌, ◌≤◌, ltb, ◌<◌, ◌≡◌, refl, sym, ap, subst, ◌∙◌, ◌≢◌, ◌⊎◌, inl, inr, arith,
  List, [], ◌∷◌, ◌++◌, length, ◌==◌, if◌then◌else◌, update, update_self, update-ne, ==_ne, some,
  Bool-cases,
}
use neantis.Fs.Errno.{ℤ, pos, negsuc}
use neantis.Strings.{Bytes, strcpy, find_end, strcat, signed_less, differ, strcmp}

-- The bytes from `a` on up to a 0 are those of the list.
pub data IsString (mem : Bytes) : ℕ → List ℕ → Type 0 where
  stop : {a : ℕ} → mem a ≡ 0 → IsString mem a []
  more :
      {a c : ℕ} {xs : List ℕ}
      → mem a ≡ c
      → c ≢ 0
      → IsString mem (a + 1) xs
      → IsString mem a (c ∷ xs)

-- A byte that is not one of the string's may change.
pub IsString-same :
    {mem mem' : Bytes} {a : ℕ} {xs : List ℕ}
    → IsString mem a xs
    → ((x : ℕ) → a ≤ x → x ≤ a + length xs → mem' x ≡ mem x)
    → IsString mem' a xs
IsString-same {a} (stop e) same = stop (same a (omega arith) (omega arith) ∙ e)
IsString-same {a} (more e c s) same =
    more (same a (omega arith) (omega arith) ∙ e) c
      (IsString-same s λ x le lt. same x (omega arith) (omega arith))

-- `strcpy` of a string ends, and there is a copy of it at the target, unless the target lies in the
-- string behind its first byte. What lies before the target and behind the copy is as before.
strcpy-IsString :
    (f dest : ℕ) {mem : Bytes} {src : ℕ} {xs : List ℕ}
    → IsString mem src xs
    → length xs < f
    → ((dest ≤ src) ⊎ (src + length xs < dest))
    → (mem' : Bytes) × (strcpy f mem dest src ≡ some mem')
      × IsString mem' dest xs
      × ((x : ℕ) → ((x < dest) ⊎ (dest + length xs < x)) → mem' x ≡ mem x)
unfolding strcpy
strcpy-IsString zero dest s enough apart = absurd (omega arith)
strcpy-IsString (suc f) dest {mem} {src} (stop e) enough apart = (
  update mem dest (mem src),
  rw (e, strcpy) refl,
  stop (update_self mem dest (mem src) ∙ e),
  λ x away. update-ne mem dest x (mem src) (omega arith),
)
strcpy-IsString (suc f) dest {mem} {src} (more e c s) enough apart =
    let mem₁ = update mem dest (mem src) in
    let s₁ =
      IsString-same {mem' = mem₁} s λ x le lt. update-ne mem dest x (mem src) (omega arith) in
    let (mem', run, copy, same) = strcpy-IsString f (dest + 1) s₁ (omega arith) (omega arith) in
    (
      mem',
      rw (strcpy, ==_ne (mem src) 0 (subst (λ v. v ≢ 0) (sym e) c)) run,
      more (same dest (omega arith) ∙ update_self mem dest (mem src) ∙ e) c copy,
      λ x away. same x (omega arith) ∙ update-ne mem dest x (mem src) (omega arith),
    )

find_end_lem :
    (f : ℕ) {mem : Bytes} {dest : ℕ} {xs : List ℕ}
    → IsString mem dest xs
    → length xs < f
    → find_end f mem dest ≡ some (dest + length xs)
unfolding find_end
find_end_lem zero s enough = absurd (omega arith)
find_end_lem (suc f) {mem} {dest} (stop e) enough =
    rw (e, find_end) (ap some {y = dest + 0} (omega arith))
find_end_lem (suc f) {mem} {dest} (more {xs = xs} e c s) enough =
    rw (find_end, ==_ne (mem dest) 0 (subst (λ v. v ≢ 0) (sym e) c))
      (find_end_lem f s (omega arith) ∙ ap some {y = dest + suc (length xs)} (omega arith))

IsString-append :
    {mem : Bytes} {a : ℕ} {xs ys : List ℕ} (mem' : Bytes)
    → IsString mem a xs
    → ((x : ℕ) → a ≤ x → x < a + length xs → mem' x ≡ mem x)
    → IsString mem' (a + length xs) ys
    → IsString mem' a (xs ++ ys)
IsString-append {a} {ys} mem' (stop e) same t = subst (λ a. IsString mem' a ys) (omega arith) t
IsString-append {a} {ys} mem' (more {xs = xs} e c s) same t =
    more (same a (omega arith) (omega arith) ∙ e) c (
      IsString-append mem' s (λ x le lt. same x (omega arith) (omega arith))
        (subst (λ a. IsString mem' a ys) {y = a + 1 + length xs} (omega arith) t))

-- `strcat` of two strings ends, and the target is the one with the other behind it, if the second
-- string has no byte in the place that the longer one takes.
pub strcat-IsString :
    (f dest src : ℕ) (mem : Bytes) (xs ys : List ℕ)
    → IsString mem dest xs
    → IsString mem src ys
    → length xs < f
    → length ys < f
    → ((src + length ys < dest) ⊎ (dest + length xs + length ys < src))
    → (mem' : Bytes) × (strcat f mem dest src ≡ some mem') × IsString mem' dest (xs ++ ys)
unfolding strcat
strcat-IsString f dest src mem xs ys s t long_enough enough apart =
    let (mem', run, copy, same) = strcpy-IsString f (dest + length xs) t enough (omega arith) in
    (
      mem',
      rw (strcat, find_end_lem f s long_enough) run,
      IsString-append mem' s (λ x le lt. same x (omega arith)) copy,
    )

-- The byte `x`, taken as a signed number, is smaller than the byte `y`: it alone is negative, or both
-- are or neither is, and then it is the smaller number of 8 bits.
pub data SignedBefore (x y : ℕ) : Type 0 where
  negative : 2 ^ 7 ≤ x → y < 2 ^ 7 → SignedBefore x y
  smaller : x < y → ((2 ^ 7 ≤ x) ⊎ (y < 2 ^ 7)) → SignedBefore x y

-- The list `xs` comes before `ys`: at the first place where they differ it has the smaller byte.
pub data Before : List ℕ → List ℕ → Type 0 where
  here : {x y : ℕ} {xs ys : List ℕ} → SignedBefore x y → Before (x ∷ xs) (y ∷ ys)
  later : {x : ℕ} {xs ys : List ℕ} → Before xs ys → Before (x ∷ xs) (x ∷ ys)

-- The bytes of a string with the 0 behind them.
abbrev pub ended : List ℕ → List ℕ
ended xs = xs ++ 0 ∷ []

-- How a result compares two strings.
pub data Compares (xs ys : List ℕ) : ℤ → Type 0 where
  same : xs ≡ ys → Compares xs ys (pos 0)
  before : Before (ended xs) (ended ys) → Compares xs ys (pos 1)
  after : Before (ended ys) (ended xs) → Compares xs ys (negsuc 0)

Compares-cons : {xs ys : List ℕ} {r : ℤ} (x : ℕ) → Compares xs ys r → Compares (x ∷ xs) (x ∷ ys) r
Compares-cons x (same e) = same (ap (λ zs. x ∷ zs) e)
Compares-cons x (before b) = before (later b)
Compares-cons x (after b) = after (later b)

-- Of two bytes that differ, one is the smaller one, and `differ` says which.
differ-SignedBefore :
    (x y : ℕ)
    → x < 2 ^ 8
    → y < 2 ^ 8
    → x ≢ y
    → ((differ x y ≡ pos 1) × SignedBefore x y) ⊎ ((differ x y ≡ negsuc 0) × SignedBefore y x)
differ-SignedBefore x y small small' ne = elim (Bool-cases (signed_less x y)) [
  | inl less ↦ inl (
    ap (λ b. if b then pos 1 else negsuc 0) less,
    elim (Bool-cases (ltb x y)) [
      | inl lt ↦ smaller (ground (arith, lt)) (ground (arith, lt, less))
      | inr ge ↦ negative (ground (arith, ge, less)) (ground (arith, ge, less))
    ],
  )
  | inr not_less ↦ inr (
    ap (λ b. if b then pos 1 else negsuc 0) not_less,
    elim (Bool-cases (ltb y x)) [
      | inl lt ↦ smaller (ground (arith, lt)) (ground (arith, lt, not_less))
      | inr ge ↦ negative (ground (arith, ge, not_less)) (ground (arith, ge, not_less))
    ],
  )
]

-- The strings go on with bytes that differ.
differ-Compares :
    {xs ys xs' ys' : List ℕ} (x y : ℕ)
    → x < 2 ^ 8
    → y < 2 ^ 8
    → x ≢ y
    → ended xs ≡ x ∷ xs'
    → ended ys ≡ y ∷ ys'
    → (r : ℤ) × (some (differ x y) ≡ some r) × Compares xs ys r
differ-Compares {xs} {ys} x y small small' ne e d = elim (differ-SignedBefore x y small small' ne) [
  | inl (r, b) ↦ (pos 1, ap some r, before (rw (e, d) (here b)))
  | inr (r, b) ↦ (negsuc 0, ap some r, after (rw (e, d) (here b)))
]

module _ (mem : Bytes) where
  strcmp-differ :
      (f : ℕ) {cs ct x y : ℕ}
      → mem cs ≡ x
      → mem ct ≡ y
      → x ≢ y
      → strcmp (suc f) mem cs ct ≡ some (differ x y)
  unfolding strcmp
  strcmp-differ f {x = x} {y = y} e d ne = rw (strcmp, e, d, ==_ne x y ne) refl

  strcmp-equal :
      (f : ℕ) {cs ct x : ℕ}
      → mem cs ≡ x
      → mem ct ≡ x
      → x ≢ 0
      → strcmp (suc f) mem cs ct ≡ strcmp f mem (cs + 1) (ct + 1)
  unfolding strcmp
  strcmp-equal f {x = x} e d ne = rw (strcmp, e, d, ==_ne x 0 ne) (ground arith)

module _ {mem : Bytes} (bytes : (p : ℕ) → mem p < 2 ^ 8) where
  -- The comparison ends at this place.
  strcmp-here :
      (f : ℕ) {cs ct : ℕ} {xs ys xs' ys' : List ℕ} (x y : ℕ)
      → mem cs ≡ x
      → mem ct ≡ y
      → x ≢ y
      → ended xs ≡ x ∷ xs'
      → ended ys ≡ y ∷ ys'
      → (r : ℤ) × (strcmp (suc f) mem cs ct ≡ some r) × Compares xs ys r
  strcmp-here f {cs} {ct} x y e d ne e' d' =
      let (r, run, c) =
        differ-Compares x y (omega (arith, bytes cs, e)) (omega (arith, bytes ct, d)) ne e' d' in
      (r, strcmp-differ mem f e d ne ∙ run, c)

  -- `strcmp` of two strings of bytes ends. The result is 0 when they are the same, 1 when the first
  -- one comes before the other, and -1 when the other comes before it, in the order by signed bytes,
  -- the 0 at the end among them.
  pub strcmp-Compares :
      (f : ℕ) {cs ct : ℕ} {xs ys : List ℕ}
      → IsString mem cs xs
      → IsString mem ct ys
      → length xs < f
      → (r : ℤ) × (strcmp f mem cs ct ≡ some r) × Compares xs ys r
  unfolding strcmp
  strcmp-Compares zero s t enough = absurd (omega arith)
  strcmp-Compares (suc f) (stop e) (stop d) enough = (pos 0, rw (strcmp, e, d) refl, same refl)
  strcmp-Compares (suc f) (stop e) (more {c = y} d some_byte t) enough =
      strcmp-here f 0 y e d (omega arith) refl refl
  strcmp-Compares (suc f) (more {c = x} e some_byte s) (stop d) enough =
      strcmp-here f x 0 e d some_byte refl refl
  strcmp-Compares (suc f) (more {c = x} {xs = xs} e some_byte s)
        (more {c = y} {xs = ys} d other_byte t) enough =
      elim (Bool-cases (x == y)) [
        | inl equal ↦
            let at : x ≡ y = ground (arith, equal) in
            let (r, run, c) = strcmp-Compares f s t (omega arith) in
            (
              r,
              strcmp-equal mem f e (d ∙ sym at) some_byte ∙ run,
              subst (λ z. Compares (x ∷ xs) (z ∷ ys) r) at (Compares-cons x c),
            )
        | inr different ↦ strcmp-here f x y e d (ground (arith, different)) refl refl
      ]
