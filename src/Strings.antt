-- ===== src/Strings.antt =====
-- include/string.h: strings in memory, up to a 0. The assembly is written out by what it does; `f`
-- bounds the bytes that a loop may look at, and a negative `count` is none.
pub mod Copies
mod Tests
use neantis.Prelude.{
  ℕ, zero, suc, ◌+◌, ◌%◌, ◌^◌, Bool, not, ltb, ◌==◌, if◌then◌else◌, update, Option, some, none,
}
use neantis.Fs.Errno.{ℤ, pos, negsuc}

abbrev pub Bytes : Type 0
Bytes = ℕ → ℕ

-- `rep ; stosb`
unfoldable pub memset : ℕ → Bytes → ℕ → ℕ → Bytes
memset zero mem s c = mem
memset (suc count) mem s c = memset count (update mem s c) (s + 1) c

unfoldable pub strcpy : ℕ → Bytes → ℕ → ℕ → Option Bytes
strcpy zero mem dest src = none
strcpy (suc f) mem dest src =
    let a = mem src in
    let mem = update mem dest a in if a == 0 then some mem else strcpy f mem (dest + 1) (src + 1)

-- `rep ; stosb` behind the loop fills what is left of `count` with the 0 in `al`.
unfoldable pub strncpy : ℕ → Bytes → ℕ → ℕ → Bytes
unfolding memset
strncpy zero mem dest src = mem
strncpy (suc count) mem dest src =
    let a = mem src in
    let mem = update mem dest a in
    if a == 0 then memset count mem (dest + 1) 0 else strncpy count mem (dest + 1) (src + 1)

-- `repne ; scasb` and `decl`: the address of the first 0 from `dest` on.
unfoldable pub find_end : ℕ → Bytes → ℕ → Option ℕ
find_end zero mem dest = none
find_end (suc f) mem dest = if mem dest == 0 then some dest else find_end f mem (dest + 1)

unfoldable pub strcat : ℕ → Bytes → ℕ → ℕ → Option Bytes
unfolding find_end strcpy
strcat f mem dest src = elim (find_end f mem dest) [ none ↦ none | some end ↦ strcpy f mem end src ]

-- The loop of `strncat`, and the `stosb` behind it, which writes a 0 even when one was copied.
unfoldable pub append : ℕ → Bytes → ℕ → ℕ → Bytes
append zero mem dest src = update mem dest 0
append (suc count) mem dest src =
    let a = mem src in
    let mem = update mem dest a in
    if a == 0 then update mem (dest + 1) 0 else append count mem (dest + 1) (src + 1)

unfoldable pub strncat : ℕ → Bytes → ℕ → ℕ → ℕ → Option Bytes
unfolding find_end append
strncat f mem dest src count = elim (find_end f mem dest) [
  | none ↦ none
  | some end ↦ some (append count mem end src)
]

-- `jl` after a comparison of bytes
abbrev pub signed_less : ℕ → ℕ → Bool
signed_less x y = ltb ((x + 2 ^ 7) % 2 ^ 8) ((y + 2 ^ 7) % 2 ^ 8)

-- The result at the first place where the strings differ.
abbrev pub differ : ℕ → ℕ → ℤ
differ x y = if signed_less x y then pos 1 else negsuc 0

unfoldable pub strcmp : ℕ → Bytes → ℕ → ℕ → Option ℤ
strcmp zero mem cs ct = none
strcmp (suc f) mem cs ct =
    let a = mem cs in
    let b = mem ct in
    if not (a == b)
    then some (differ a b)
    else if a == 0
    then some (pos 0)
    else strcmp f mem (cs + 1) (ct + 1)
