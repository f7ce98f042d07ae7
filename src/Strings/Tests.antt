-- ===== src/Strings/Tests.antt =====
-- A memory with the string `ab` at 0 and `b` at 10.
use neantis.Prelude.{◌≡◌, refl, arith, [], ◌∷◌, ◌==◌, if◌then◌else◌, some, update}
use neantis.Fs.Errno.{ℤ, pos}
use neantis.Strings.{Bytes, strncpy, strncat, strcat, strcmp}
use neantis.Strings.Copies.{IsString, stop, more, strcat-IsString, Compares, strcmp-Compares}

abbrev memory : Bytes
memory = λ p. if p == 0 then b'a' else if p == 1 then b'b' else if p == 10 then b'b' else 0

ab-IsString : IsString memory 0 (b'a' ∷ b'b' ∷ [])
ab-IsString = more refl (omega arith) (more refl (omega arith) (stop refl))

b-IsString : IsString memory 10 (b'b' ∷ [])
b-IsString = more refl (omega arith) (stop refl)

strcat-IsString_example :
    (mem' : Bytes) × (strcat 5 memory 0 10 ≡ some mem') × IsString mem' 0 (b'a' ∷ b'b' ∷ b'b' ∷ [])
strcat-IsString_example =
    strcat-IsString 5 0 10 memory (b'a' ∷ b'b' ∷ []) (b'b' ∷ []) ab-IsString b-IsString
      (omega arith) (omega arith) (omega arith)

-- `ab` comes before `b`, and the result is positive.
positive : strcmp 5 memory 0 10 ≡ some (pos 1)
unfolding strcmp
positive = refl

strcmp-Compares_example :
    (r : ℤ) × (strcmp 5 memory 0 10 ≡ some r) × Compares (b'a' ∷ b'b' ∷ []) (b'b' ∷ []) r
strcmp-Compares_example = strcmp-Compares (λ p. ground arith) 5 ab-IsString b-IsString (omega arith)

-- `b` at 10, and no other 0 than its own.
abbrev crowded : Bytes
crowded = λ p. if p == 10 then b'b' else if p == 11 then 0 else 7

-- `strncpy` fills what is left with zeros.
filled : strncpy 3 crowded 20 10 22 ≡ 0
unfolding strncpy
filled = refl

not_filled : strncpy 2 crowded 20 10 22 ≡ 7
unfolding strncpy
not_filled = refl

-- `strncat` ends the string.
ends : strncat 5 memory 0 10 1 ≡ some (update (update memory 2 b'b') 3 0)
unfolding strncat
ends = refl
