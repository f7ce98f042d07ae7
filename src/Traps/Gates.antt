-- ===== src/Traps/Gates.antt =====
-- kernel/traps.c: the table of interrupts after `trap_init`, read as the processor reads it.
use neantis.Prelude.{
  ℕ, zero, suc, ◌+◌, ◌*◌, ◌/◌, ◌%◌, ◌^◌, ◌≤◌, ◌<◌, ◌≡◌, refl, sym, ap, ◌∙◌, arith, Bool, true,
  subst, ◌&&◌, leb, ltb, ◌==◌, if◌then◌else◌, List, [], ◌∷◌, length, get_or, update, update_self,
  update-ne, Bool-cases, inl, inr,
}
use neantis.Segments.{Gate, set_gate}
use neantis.Traps.{
  Handler, reserved, irq13, parallel_interrupt, Devices, Hardware, trap_gate, set_gates,
  set_trap_gate, reserve, exceptions, trap_init,
}

-- The handler of vector `n` below 48, and who may call it by an instruction.
abbrev pub handler_of : ℕ → Handler
handler_of n =
    if n == 39
    then parallel_interrupt
    else if n == 45
    then irq13
    else (get_or exceptions n (0, reserved)).1

abbrev pub privilege_of : ℕ → ℕ
privilege_of n = if leb 3 n && leb n 5 then 3 else 0

-- A gate as the processor takes it apart: the segment, the entry in it, and the bits that say what it
-- is. `address` is where the handler lies.
pub record Leads (g : Gate) (selector entry type dpl : ℕ) : Type 0 where
  pub segment : g.a / 2 ^ 16 ≡ selector
  pub offset : g.b / 2 ^ 16 * 2 ^ 16 + g.a % 2 ^ 16 ≡ entry
  pub present : g.b / 2 ^ 15 % 2 ≡ 1
  pub privilege : g.b / 2 ^ 13 % 4 ≡ dpl
  pub kind : g.b / 2 ^ 8 % 2 ^ 5 ≡ type

set_gate-Leads :
    (ds type dpl address : ℕ)
    → type < 2 ^ 4
    → dpl < 4
    → address < 2 ^ 32
    → Leads (set_gate ds type dpl address) 8 (address / 2 ^ 16 * 2 ^ 16 + ds % 2 ^ 16) type dpl
unfolding set_gate
set_gate-Leads ds type dpl address small few h = omega arith

-- The privileges of the exceptions, one by one.
privileges : ℕ → Bool
privileges zero = true
privileges (suc n) = (get_or exceptions n (0, reserved)).0 == privilege_of n && privileges n

privileges_sound :
    (m n : ℕ) → n < m → privileges m ≡ true → (get_or exceptions n (0, reserved)).0 ≡ privilege_of n
unfolding privileges
privileges_sound zero n lt checked = absurd (omega arith)
privileges_sound (suc m) n lt checked = elim (Bool-cases (n == m)) [
  | inl same ↦
      subst (λ j. (get_or exceptions j (0, reserved)).0 ≡ privilege_of j) {x = m} {y = n}
        (ground (arith, same)) (ground (arith, checked))
  | inr other ↦ privileges_sound m n (ground (arith, other)) (ground (arith, checked))
]

get_or_above :
    (gates : List (ℕ × Handler)) (n : ℕ) (d : ℕ × Handler) → length gates ≤ n → get_or gates n d ≡ d
get_or_above [] n d h = refl
get_or_above (g ∷ gates) zero d h = absurd (omega arith)
get_or_above (g ∷ gates) (suc n) d h = get_or_above gates n d (omega arith)

module _ ⦃x : Devices⦄ where
  set_gates_below :
      (i : ℕ) (gates : List (ℕ × Handler)) (h : Hardware) (n : ℕ)
      → n < i
      → (set_gates i gates h).idt n ≡ h.idt n
  unfolding set_gates
  set_gates_below i [] h n below = refl
  set_gates_below i ((dpl, handler) ∷ gates) h n below =
      set_gates_below (i + 1) gates (set_trap_gate dpl i handler h) n (omega arith)
      ∙ update-ne h.idt i n _ (omega arith)

  set_gates_at :
      (i : ℕ) (gates : List (ℕ × Handler)) (h : Hardware) (k : ℕ)
      → k < length gates
      → let g = get_or gates k (0, reserved) in
        (set_gates i gates h).idt (i + k) ≡ set_gate x.ds trap_gate g.0 (x.address g.1)
  unfolding set_gates
  set_gates_at i [] h k lt = absurd (omega arith)
  set_gates_at i ((dpl, handler) ∷ gates) h zero lt =
      ap (set_gates i ((dpl, handler) ∷ gates) h).idt {y = i} (omega arith)
      ∙ set_gates_below (i + 1) gates (set_trap_gate dpl i handler h) i (omega arith)
      ∙ update_self h.idt i _
  set_gates_at i ((dpl, handler) ∷ gates) h (suc k) lt =
      ap (set_gates i ((dpl, handler) ∷ gates) h).idt {y = i + 1 + k} (omega arith)
      ∙ set_gates_at (i + 1) gates (set_trap_gate dpl i handler h) k (omega arith)

  idt-reserve :
      (rounds i : ℕ) (h : Hardware) (n : ℕ)
      → (reserve rounds i h).idt n ≡ (
          if leb i n && ltb n (i + rounds)
          then set_gate x.ds trap_gate 0 (x.address reserved)
          else h.idt n)
  unfolding reserve
  idt-reserve zero i h n = ground arith
  idt-reserve (suc rounds) i h n =
      idt-reserve rounds (i + 1) (set_trap_gate 0 i reserved h) n ∙ ground arith

  -- The calls behind those of the exceptions.
  idt-last :
      (h : Hardware) (n : ℕ)
      → n < 48
      → (n < 17
          → h.idt n
            ≡ set_gate x.ds trap_gate
                (privilege_of n)
                (x.address (get_or exceptions n (0, reserved)).1))
      → update
          (update (reserve 31 17 h).idt 45 (set_gate x.ds trap_gate 0 (x.address irq13)))
          39
          (set_gate x.ds trap_gate 0 (x.address parallel_interrupt))
          n
        ≡ set_gate x.ds trap_gate (privilege_of n) (x.address (handler_of n))
  idt-last h n small before = elim (Bool-cases (ltb n 17)) [
    | inl first ↦ ground (arith, idt-reserve 31 17 h n, before (ground (arith, first)))
    | inr later ↦ ground (
      arith,
      idt-reserve 31 17 h n,
      get_or_above exceptions n (0, reserved) (ground (arith, later)),
    )
  ]

  -- The gate of every vector below 48, after all calls.
  idt-trap_init :
      (h : Hardware) (n : ℕ)
      → n < 48
      → (trap_init h).idt n ≡ set_gate x.ds trap_gate (privilege_of n) (x.address (handler_of n))
  unfolding trap_init privileges
  idt-trap_init h n small =
      let h₁ = set_gates 0 exceptions h in
      idt-last h₁ n small (λ first.
        ap h₁.idt {y = 0 + n} (omega arith)
        ∙ set_gates_at 0 exceptions h n first
        ∙ ap (λ d. set_gate x.ds trap_gate d (x.address (get_or exceptions n (0, reserved)).1))
            (privileges_sound 17 n first refl))

  -- After `trap_init` every vector below 48 has a trap gate into the kernel's code segment, which is
  -- present; programs may call those of vectors 3, 4 and 5 only. Its entry has the upper half of the
  -- handler's address, and the selector in `ds` as its lower half.
  pub trap_init-Leads :
      (h : Hardware) (n : ℕ)
      → n < 48
      → x.address (handler_of n) < 2 ^ 32
      → Leads
          ((trap_init h).idt n)
          8
          (x.address (handler_of n) / 2 ^ 16 * 2 ^ 16 + x.ds % 2 ^ 16)
          trap_gate
          (privilege_of n)
  trap_init-Leads h n small low =
      subst
        (λ g.
          Leads g 8 (x.address (handler_of n) / 2 ^ 16 * 2 ^ 16 + x.ds % 2 ^ 16) trap_gate
            (privilege_of n))
        (sym (idt-trap_init h n small))
        (set_gate-Leads x.ds trap_gate (privilege_of n) (x.address (handler_of n)) (omega arith)
          (ground arith) low)
