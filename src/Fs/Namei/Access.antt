-- ===== src/Fs/Namei/Access.antt =====
-- fs/namei.c: whom `permission` lets through.
use neantis.Prelude.{
  ℕ, ◌+◌, ◌/◌, ◌<◌, ◌≡◌, ◌≢◌, ◌↔◌, ◌⊎◌, inl, inr, refl, sym, ap, ◌∙◌, arith, Bool, true, false, not,
  ◌&&◌, ◌||◌, ◌==◌, bit_and, if◌then◌else◌, Bool-cases,
}
use neantis.Prelude.Bits.{get_bit}
use neantis.Prelude.Masks.{bit_and-covers, get_bit-shift}
use neantis.Fs.State.{suser, Ptr, Task, MInode, Kernel}
use neantis.Fs.Run.{Machine}
use neantis.Fs.Namei.{mode_for, permission}

-- Where the three bits of the task's class stand in the mode: owner, group, others.
abbrev pub class_shift : Task → MInode → ℕ
class_shift t r = if t.euid == r.i_uid then 6 else if t.egid == r.i_gid then 3 else 0

-- The inode is not one that has been removed from its device, and the task is the super-user's or each bit that is asked for is set for its class.
pub record IsAllowed (k : Kernel) (i : Ptr) (mask : ℕ) : Type 0 where
  pub exists : ((k.inode i).i_dev ≡ 0) ⊎ ((k.inode i).i_nlinks ≢ 0)
  pub granted :
      (k.current.euid ≡ 0)
      ⊎ ((b : ℕ)
          → b < 3
          → get_bit b mask ≡ true
          → get_bit (b + class_shift k.current (k.inode i)) (k.inode i).i_mode ≡ true)

get_bit-mode_for :
    (t : Task) (r : MInode) (b : ℕ)
    → get_bit (b + class_shift t r) r.i_mode ≡ get_bit b (mode_for t r)
get_bit-mode_for t r b = elim (Bool-cases (t.euid == r.i_uid)) [
  | inl own ↦ rw own (
      ap (λ j. get_bit j r.i_mode) {x = b + 6} {y = b + 3 + 3} (omega arith)
      ∙ get_bit-shift (b + 3) r.i_mode
      ∙ get_bit-shift b (r.i_mode / 8)
      ∙ ap (get_bit b) (omega arith))
  | inr other ↦ elim (Bool-cases (t.egid == r.i_gid)) [
    | inl grouped ↦ rw (other, grouped) (get_bit-shift b r.i_mode ∙ ap (get_bit b) (omega arith))
    | inr none ↦ rw (other, none) (ap (λ j. get_bit j r.i_mode) {x = b + 0} {y = b} (omega arith))
  ]
]

passes :
    (gone covered super : Bool)
    → (if gone then false else covered || super) ≡ true
    → (gone ≡ false) × ((super ≡ true) ⊎ (covered ≡ true))
passes true covered super e = absurd (ground (arith, e))
passes false true super e = (refl, inr refl)
passes false false super e = (refl, inl e)

passes_if :
    (gone covered super : Bool)
    → gone ≡ false
    → (super ≡ true) ⊎ (covered ≡ true)
    → (if gone then false else covered || super) ≡ true
passes_if gone covered super e (inl h) = ground (arith, e, h)
passes_if gone covered super e (inr h) = ground (arith, e, h)

stays : (d n : ℕ) → (not (d == 0) && n == 0) ≡ false → (d ≡ 0) ⊎ (n ≢ 0)
stays d n e = elim (Bool-cases (d == 0)) [
  | inl none ↦ inl (ground (arith, none))
  | inr some ↦ inr (ground (arith, e, some))
]

stays_if : (d n : ℕ) → (d ≡ 0) ⊎ (n ≢ 0) → (not (d == 0) && n == 0) ≡ false
stays_if d n (inl none) = ground (arith, none)
stays_if d n (inr some) = ground (arith, some)

module _ ⦃m : Machine⦄ where
  -- `permission`, asked for some of reading, writing and executing, lets the task through exactly when the inode has not been removed from its
  -- device, and the task is the super-user's or every bit that is asked for is set among the three bits of its class: the owner's
  -- three if it has the user of the inode, or else the group's if it has the group, or else those of the others.
  pub permission-IsAllowed :
      (k : Kernel) (i : Ptr) (mask : ℕ)
      → mask < 8
      → (permission k i mask ≡ true) ↔ IsAllowed k i mask
  unfolding permission
  permission-IsAllowed k i mask small = (
    λ e.
        let (left, passed) = passes gone covered super e in
        record {
          exists = stays r.i_dev r.i_nlinks left;
          granted = elim passed [
            | inl by_user ↦ inl (ground (arith, by_user))
            | inr by_class ↦ inr λ b lt set. get_bit-mode_for t r b ∙ covers.0 by_class b lt set
          ];
        },
    λ allowed.
        passes_if gone covered super (stays_if r.i_dev r.i_nlinks allowed.exists)
          (elim allowed.granted [
            | inl user ↦ inl (ground (arith, user))
            | inr all ↦ inr (covers.1 λ b lt set. sym (get_bit-mode_for t r b) ∙ all b lt set)
          ]),
  )
    where
      t : Task
      t = k.current

      r : MInode
      r = k.inode i

      gone : Bool
      gone = not (r.i_dev == 0) && r.i_nlinks == 0

      covered : Bool
      covered = bit_and (bit_and (mode_for t r) mask) 0o7 == mask

      super : Bool
      super = suser t

      covers :
          (covered ≡ true)
          ↔ ((b : ℕ) → b < 3 → get_bit b mask ≡ true → get_bit b (mode_for t r) ≡ true)
      covers = bit_and-covers (mode_for t r) mask small
