-- ===== src/Exec/Copies/Calls.antt =====
-- fs/exec.c: a whole call of `copy_strings`.
use neantis.Prelude.{
  ℕ, zero, suc, ◌+◌, ◌^◌, ◌≤◌, ◌<◌, ◌≡◌, refl, ap, subst, ◌∙◌, ◌⊎◌, inl, inr, arith, List, [], ◌∷◌,
  length, length-append, ==_ne,
}
use neantis.Mm.{Memory}
use neantis.Strings.{Bytes}
use neantis.Exec.{Args, copied, no_page, copy_loop, copy_strings}
use neantis.Exec.Tables.{AreStrings, no_more, next_string, AreStrings-end}
use neantis.Exec.Copies.{ArePages, IsFull}
use neantis.Exec.Copies.Arguments.{
  upto, total, IsString-move, IsArgument, ArePlaced, copy_loop-ArePlaced,
}

-- The state with which `copy_strings` begins.
abbrev pub begin : (ℕ → ℕ) → ℕ → Memory → Args
begin page p memory = record { p = p; page = page; pag = 0; offset = 0; memory = memory }

copy_strings-loop :
    (f n argv : ℕ) (fs kernel : Bytes) (page : ℕ → ℕ) (p : ℕ) (memory : Memory)
    → 0 < p
    → copy_strings f 0 n fs kernel argv page p memory
      ≡ copy_loop f n fs fs argv (begin page p memory)
unfolding copy_strings
copy_strings-loop f n argv fs kernel page p memory positive =
    rw (copy_strings, ==_ne p 0 (omega arith)) refl

-- `copy_strings` of `n` strings of the user, from a place that is not 0: a page is missing, or the
-- strings lie before the place.
pub copy_strings-ArePlaced :
    (f n argv : ℕ) (fs kernel : Bytes) (strings : ℕ → List ℕ) (page : ℕ → ℕ) (p : ℕ)
    (memory : Memory)
    → ((i : ℕ) → i < n → IsArgument f fs fs argv i (strings i))
    → ArePages (begin page p memory)
    → 0 < p
    → total n strings ≤ p
    → p < 2 ^ 32
    → ((b : Args) × (copy_strings f 0 n fs kernel argv page p memory ≡ no_page b) × IsFull b)
      ⊎ ((b : Args) × (copy_strings f 0 n fs kernel argv page p memory ≡ copied b)
          × ArePlaced f n strings (begin page p memory) b)
copy_strings-ArePlaced f n argv fs kernel strings page p memory arg pages positive room small =
    let placed =
      copy_loop-ArePlaced f n fs fs argv strings (begin page p memory) arg
        (record { pages = pages; at_place = λ e. absurd (e refl) }) room small in
    let runs = copy_strings-loop f n argv fs kernel page p memory positive in
    elim placed [
      | inl (b, e, full) ↦ inl (b, runs ∙ e, full)
      | inr (b, e, r) ↦ inr (b, runs ∙ e, r)
    ]

pub length-upto : (n : ℕ) (strings : ℕ → List ℕ) → length (upto n strings) ≡ n
unfolding upto
length-upto zero strings = refl
length-upto (suc n) strings =
    length-append (upto n strings) (strings n ∷ []) ∙ omega (arith, length-upto n strings)

-- Strings at a distance from where they were.
pub AreStrings-move :
    {f : ℕ} {mem mem' : Bytes} {a end : ℕ} (d : ℕ) {xss : List (List ℕ)}
    → AreStrings f mem a xss end
    → ((y : ℕ) → a ≤ y → y < end → mem' (d + y) ≡ mem y)
    → AreStrings f mem' (d + a) xss (d + end)
AreStrings-move d no_more same = no_more
AreStrings-move {f} {mem} {mem'} {a} {end} d (next_string {xs = xs} {xss = xss} s short ss) same =
    let bound = AreStrings-end ss in
    next_string
      (IsString-move (d + a) s λ j le.
        ap mem' {y = d + (a + j)} (omega arith) ∙ same (a + j) (omega arith) (omega (arith, bound)))
      short
      (subst (λ t. AreStrings f mem' t xss (d + end)) {x = d + (a + length xs + 1)} (omega arith)
        (AreStrings-move d ss λ y from to. same y (omega arith) to))
