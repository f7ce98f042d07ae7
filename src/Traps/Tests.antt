-- ===== src/Traps/Tests.antt =====
-- A kernel whose handlers lie at 0x12345, and whose ports read 0xff.
use neantis.Prelude.{◌≡◌, refl, arith, [], ◌∷◌}
use neantis.Traps.{Devices, Hardware, trap_init, rs_init, trap_gate}
use neantis.Traps.Gates.{Leads, trap_init-Leads}

instance abbrev devices : Devices
devices = record { ds = 0x10; address = λ h. 0x12345; inb = λ written port. 0xff }

abbrev no_gates : Hardware
no_gates = record { idt = λ n. record { a = 0; b = 0 }; written = [] }

trap_init-Leads_example : Leads ((trap_init no_gates).idt 3) 8 0x10010 trap_gate 3
trap_init-Leads_example = trap_init-Leads no_gates 3 (omega arith) (omega arith)

-- The last port that `rs_init` writes: the lines 3 and 4 are let through.
lines_open :
    (rs_init no_gates).written
    ≡ (0x21, 0xe7)
      ∷ (0x2f9, 0x0d)
      ∷ (0x2fc, 0x0b)
      ∷ (0x2fb, 0x03)
      ∷ (0x2f9, 0x00)
      ∷ (0x2f8, 0x30)
      ∷ (0x2fb, 0x80)
      ∷ (0x3f9, 0x0d)
      ∷ (0x3fc, 0x0b)
      ∷ (0x3fb, 0x03)
      ∷ (0x3f9, 0x00)
      ∷ (0x3f8, 0x30)
      ∷ (0x3fb, 0x80)
      ∷ []
unfolding rs_init
lines_open = refl
