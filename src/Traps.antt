-- ===== src/Traps.antt =====
-- kernel/traps.c, kernel/chr_drv/serial.c and kernel/blk_drv/ll_rw_blk.c: what the kernel does to the
-- processor's table of interrupts, to the ports and to the requests when it starts.
pub mod Gates
mod Tests
use neantis.Prelude.{ℕ, zero, suc, ◌+◌, ◌-◌, ◌^◌, List, [], ◌∷◌, ◌++◌, update, bit_and}
use neantis.Segments.{Gate, set_gate}

-- The entries of kernel/asm.s and kernel/chr_drv/rs_io.s.
pub data Handler : Type 0 where
  divide_error debug nmi int3 overflow bounds invalid_op device_not_available double_fault : Handler
  coprocessor_segment_overrun invalid_tss segment_not_present stack_segment : Handler
  general_protection page_fault reserved coprocessor_error irq13 parallel_interrupt : Handler
  rs1_interrupt rs2_interrupt : Handler

-- What the linker and the devices give: the selector in `ds`, the address of a handler, and what a
-- port reads after the writes so far, the last one first.
pub record Devices : Type 0 where
  pub ds : ℕ
  pub address : Handler → ℕ
  pub inb : List (ℕ × ℕ) → ℕ → ℕ

pub record Hardware : Type 0 where
  pub idt : ℕ → Gate
  pub written : List (ℕ × ℕ)

abbrev pub interrupt_gate : ℕ
interrupt_gate = 14

abbrev pub trap_gate : ℕ
trap_gate = 15

-- The exceptions of the processor, from vector 0 on.
abbrev pub exceptions : List (ℕ × Handler)
exceptions =
    (0, divide_error)
    ∷ (0, debug)
    ∷ (0, nmi)
    ∷ (3, int3)
    ∷ (3, overflow)
    ∷ (3, bounds)
    ∷ (0, invalid_op)
    ∷ (0, device_not_available)
    ∷ (0, double_fault)
    ∷ (0, coprocessor_segment_overrun)
    ∷ (0, invalid_tss)
    ∷ (0, segment_not_present)
    ∷ (0, stack_segment)
    ∷ (0, general_protection)
    ∷ (0, page_fault)
    ∷ (0, reserved)
    ∷ (0, coprocessor_error)
    ∷ []

module _ ⦃x : Devices⦄ where
  abbrev pub outb : ℕ → ℕ → Hardware → Hardware
  outb value port h = record h { written = (port, value) ∷ h.written }

  abbrev pub set_intr_gate : ℕ → Handler → Hardware → Hardware
  set_intr_gate n handler h = record h {
    idt = update h.idt n (set_gate x.ds interrupt_gate 0 (x.address handler));
  }

  -- `set_trap_gate`, for privilege 0, and `set_system_gate`, for privilege 3.
  abbrev pub set_trap_gate : ℕ → ℕ → Handler → Hardware → Hardware
  set_trap_gate dpl n handler h = record h {
    idt = update h.idt n (set_gate x.ds trap_gate dpl (x.address handler));
  }

  -- The calls of `trap_init` for the vectors from `n` on, as the privilege and the handler of each.
  unfoldable pub set_gates : ℕ → List (ℕ × Handler) → Hardware → Hardware
  set_gates n [] h = h
  set_gates n ((dpl, handler) ∷ gates) h = set_gates (n + 1) gates (set_trap_gate dpl n handler h)

  -- The loop of `trap_init`, with `rounds` left.
  unfoldable pub reserve : ℕ → ℕ → Hardware → Hardware
  reserve zero i h = h
  reserve (suc rounds) i h = reserve rounds (i + 1) (set_trap_gate 0 i reserved h)

  unfoldable pub trap_init : Hardware → Hardware
  trap_init h =
      let h = set_gates 0 exceptions h in
      let h = reserve 31 17 h in
      let h = set_trap_gate 0 45 irq13 h in
      let h = outb (bit_and (x.inb h.written 0x21) 0xfb) 0x21 h in
      let h = outb (bit_and (x.inb h.written 0xa1) 0xdf) 0xa1 h in
      set_trap_gate 0 39 parallel_interrupt h

  -- `init` of kernel/chr_drv/serial.c; what its last read gives is not used.
  unfoldable pub init_line : ℕ → Hardware → Hardware
  init_line port h =
      let h = outb 0x80 (port + 3) h in
      let h = outb 0x30 port h in
      let h = outb 0x00 (port + 1) h in
      let h = outb 0x03 (port + 3) h in let h = outb 0x0b (port + 4) h in outb 0x0d (port + 1) h

  -- `tty_table[1].read_q.data` and `tty_table[2].read_q.data`
  abbrev pub first_port : ℕ
  first_port = 0x3f8

  abbrev pub second_port : ℕ
  second_port = 0x2f8

  unfoldable pub rs_init : Hardware → Hardware
  unfolding init_line
  rs_init h =
      let h = set_intr_gate 0x24 rs1_interrupt h in
      let h = set_intr_gate 0x23 rs2_interrupt h in
      let h = init_line first_port h in
      let h = init_line second_port h in outb (bit_and (x.inb h.written 0x21) 0xe7) 0x21 h

-- `struct request`: the fields that `blk_dev_init` assigns.
pub record Request : Type 0 where
  pub dev : ℕ
  pub next : ℕ

abbrev pub nr_request : ℕ
nr_request = 32

-- The loop of `blk_dev_init`, with `n` rounds left.
unfoldable pub free_requests : ℕ → ℕ → (ℕ → Request) → ℕ → Request
free_requests zero i request = request
free_requests (suc n) i request =
    free_requests n (i + 1) (update request i (record { dev = 2 ^ 32 - 1; next = 0 }))

unfoldable pub blk_dev_init : (ℕ → Request) → ℕ → Request
unfolding free_requests
blk_dev_init = free_requests nr_request 0
