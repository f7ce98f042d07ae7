-- ===== src/Exec/Copies/Arguments.antt =====
-- fs/exec.c: the strings that `copy_strings` leaves.
use neantis.Prelude.{
  ℕ, zero, suc, ◌+◌, ◌-◌, ◌*◌, ◌/◌, ◌^◌, ◌≤◌, ◌<◌, ◌≡◌, refl, sym, ap, subst, ◌∙◌, ◌≢◌, ◌⊎◌, inl,
  inr, arith, List, [], ◌∷◌, ◌++◌, length, ==_ne, ltb, Bool-cases,
}
use neantis.Fs.Bytes.{load32}
use neantis.Strings.{Bytes}
use neantis.Strings.Copies.{IsString, stop, more}
use neantis.Exec.{Args, Copied, copied, no_page, no_argument, out_of_fuel, push_bytes, copy_loop}
use neantis.Exec.Tables.{AreStrings, no_more, next_string, behind_lem}
use neantis.Exec.Copies.{byte_at, IsFull}
use neantis.Exec.Copies.Pushes.{IsStanding, ArePushed, push_bytes-ArePushed}

-- The first `n` strings of an array, and the bytes that they take.
unfoldable pub upto : ℕ → (ℕ → List ℕ) → List (List ℕ)
upto zero strings = []
upto (suc n) strings = upto n strings ++ (strings n ∷ [])

unfoldable pub total : ℕ → (ℕ → List ℕ) → ℕ
total zero strings = 0
total (suc n) strings = total n strings + (length (strings n) + 1)

-- The string has another place.
pub IsString-move :
    {mem mem' : Bytes} {a : ℕ} (b : ℕ) {xs : List ℕ}
    → IsString mem a xs
    → ((j : ℕ) → j ≤ length xs → mem' (b + j) ≡ mem (a + j))
    → IsString mem' b xs
IsString-move {mem} {mem'} {a} b (stop e) same =
    stop
      (ap mem' {y = b + 0} (omega arith) ∙ same 0 (omega arith) ∙ ap mem {y = a} (omega arith) ∙ e)
IsString-move {mem} {mem'} {a} b (more {xs = xs} e c s) same = more (first ∙ e) c (
    IsString-move (b + 1) s λ j le.
      ap mem' {y = b + suc j} (omega arith)
      ∙ same (suc j) (omega arith)
      ∙ ap mem {y = a + 1 + j} (omega arith))
  where
    first : mem' b ≡ mem a
    first = ap mem' {y = b + 0} (omega arith) ∙ same 0 (omega arith) ∙ ap mem {y = a} (omega arith)

-- One string more, at the end.
AreStrings-snoc :
    {f : ℕ} {fs : Bytes} {a q : ℕ} {xss : List (List ℕ)} (xs : List ℕ) (end : ℕ)
    → AreStrings f fs a xss q
    → IsString fs q xs
    → length xs < f
    → end ≡ q + length xs + 1
    → AreStrings f fs a (xss ++ (xs ∷ [])) end
AreStrings-snoc {f} {fs} xs end no_more s short e =
    next_string s short (subst (λ t. AreStrings f fs t [] end) e no_more)
AreStrings-snoc xs end (next_string t short' ts) s short e =
    next_string t short' (AreStrings-snoc xs end ts s short e)

-- The strings that the table at `argv` names.
pub record IsArgument (f : ℕ) (words source : Bytes) (argv i : ℕ) (xs : List ℕ) : Type 0 where
  pub named : load32 words (argv + 4 * i) ≢ 0
  pub spelt : IsString source (load32 words (argv + 4 * i)) xs
  pub short : length xs < f

-- The first `n` strings lie before the place of `a`, in their order, and what lay from there on is
-- kept.
pub record ArePlaced (f n : ℕ) (strings : ℕ → List ℕ) (a b : Args) : Type 0 where
  pub p_is : b.p + total n strings ≡ a.p
  pub spelt : AreStrings f (byte_at b) b.p (upto n strings) a.p
  pub there : (y : ℕ) → b.p ≤ y → y < a.p → b.page (y / 4096) ≢ 0
  pub page_same : (i : ℕ) → a.page i ≢ 0 → b.page i ≡ a.page i
  pub byte_same : (y : ℕ) → a.p ≤ y → a.page (y / 4096) ≢ 0 → byte_at b y ≡ byte_at a y
  pub standing : IsStanding b

-- What the outer loop does with how the inner one ends.
abbrev go_on : ℕ → ℕ → Bytes → Bytes → ℕ → Copied → Copied
go_on f argc words source argv (copied b) = copy_loop f argc words source argv b
go_on f argc words source argv (no_page b) = no_page b
go_on f argc words source argv (no_argument b) = no_argument b
go_on f argc words source argv out_of_fuel = out_of_fuel

copy_loop-suc :
    (f argc : ℕ) (words source : Bytes) (argv : ℕ) {xs : List ℕ} (a : Args)
    → IsArgument f words source argv argc xs
    → let start = load32 words (argv + 4 * argc) in
      copy_loop f (suc argc) words source argv a
      ≡ go_on f argc words source argv
          (push_bytes (length xs + 1) source (start + (length xs + 1)) a)
unfolding copy_loop
copy_loop-suc f argc words source argv {xs} a arg =
    let start = load32 words (argv + 4 * argc) in
    let len = start + length xs + 1 - start in
    rw (copy_loop, ==_ne start 0 arg.named, behind_lem f arg.spelt arg.short)
      (same (push_bytes len source (start + length xs + 1) a)
        ∙ ap (λ n. go_on f argc words source argv (push_bytes n source (start + length xs + 1) a))
            {y = length xs + 1} (omega arith)
        ∙ ap (λ q. go_on f argc words source argv (push_bytes (length xs + 1) source q a))
            {x = start + length xs + 1} (omega arith))
  where
    same :
        (r : Copied)
        → (elim r as (λ _. Copied) [
          | copied b ↦ copy_loop f argc words source argv b
          | no_page b ↦ no_page b
          | no_argument b ↦ no_argument b
          | out_of_fuel ↦ out_of_fuel
        ])
          ≡ go_on f argc words source argv r
    same (copied b) = refl
    same (no_page b) = refl
    same (no_argument b) = refl
    same out_of_fuel = refl

-- What lies at the first place, once more strings have been placed below it.
ArePlaced-suc :
    (f n : ℕ) (strings : ℕ → List ℕ) (source : Bytes) (start : ℕ) (a a₁ b : Args)
    → IsString source start (strings n)
    → length (strings n) < f
    → ArePushed (length (strings n) + 1) source start a a₁
    → ArePlaced f n strings a₁ b
    → ArePlaced f (suc n) strings a b
unfolding upto total
ArePlaced-suc f n strings source start a a₁ b spelt short pushed placed = record {
  p_is = omega (arith, pushed.p_is, placed.p_is);
  spelt =
      AreStrings-snoc (strings n) a.p placed.spelt
        (IsString-move a₁.p spelt λ j le.
          placed.byte_same (a₁.p + j) (omega arith) (pushed.there j (omega arith))
          ∙ pushed.bytes j (omega arith))
        short (omega (arith, pushed.p_is));
  there = λ y from to. elim (Bool-cases (ltb y a₁.p)) [
    | inl low ↦ placed.there y from (ground arith)
    | inr high ↦
        let j = y - a₁.p in
        let e : a₁.p + j ≡ y = ground arith in
        let there : a₁.page (y / 4096) ≢ 0 = λ gone.
          pushed.there j (omega (arith, pushed.p_is, e)) (ap (λ t. a₁.page (t / 4096)) e ∙ gone) in
        λ gone. there (sym (placed.page_same (y / 4096) there) ∙ gone)
  ];
  page_same = λ i there.
      placed.page_same i (λ e. there (sym (pushed.page_same i there) ∙ e))
      ∙ pushed.page_same i there;
  byte_same = λ y le there.
      placed.byte_same y (omega (arith, pushed.p_is))
        (λ e. there (sym (pushed.page_same (y / 4096) there) ∙ e))
      ∙ pushed.byte_same y le there;
  standing = placed.standing;
}

pub copy_loop-ArePlaced :
    (f n : ℕ) (words source : Bytes) (argv : ℕ) (strings : ℕ → List ℕ) (a : Args)
    → ((i : ℕ) → i < n → IsArgument f words source argv i (strings i))
    → IsStanding a
    → total n strings ≤ a.p
    → a.p < 2 ^ 32
    → ((b : Args) × (copy_loop f n words source argv a ≡ no_page b) × IsFull b)
      ⊎ ((b : Args) × (copy_loop f n words source argv a ≡ copied b) × ArePlaced f n strings a b)
unfolding copy_loop upto total
copy_loop-ArePlaced f zero words source argv strings a arg s room small = inr (
  a,
  refl,
  record {
    p_is = omega arith;
    spelt = no_more;
    there = λ y from to. absurd (omega arith);
    page_same = λ i there. refl;
    byte_same = λ y le there. refl;
    standing = s;
  },
)
copy_loop-ArePlaced f (suc n) words source argv strings a arg s room small =
    let xs = strings n in
    let start = load32 words (argv + 4 * n) in
    let last = arg n (omega arith) in
    let one = copy_loop-suc f n words source argv a last in
    elim (push_bytes-ArePushed (length xs + 1) source start a s (omega arith) small) [
      | inl (b, e, full) ↦ inl (b, one ∙ ap (go_on f n words source argv) e, full)
      | inr (a₁, e, pushed) ↦
          elim (copy_loop-ArePlaced f n words source argv strings a₁ (λ i lt. arg i (omega arith))
            pushed.standing (omega (arith, pushed.p_is)) (omega (arith, pushed.p_is))) [
              | inl (b, e', full) ↦ inl (b, one ∙ ap (go_on f n words source argv) e ∙ e', full)
              | inr (b, e', placed) ↦ inr (
                b,
                one ∙ ap (go_on f n words source argv) e ∙ e',
                ArePlaced-suc f n strings source start a a₁ b last.spelt last.short pushed placed,
              )
            ]
    ]
