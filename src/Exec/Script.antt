-- ===== src/Exec/Script.antt =====
-- fs/exec.c: the first line of a script, `#! interpreter argument`. `buf` is an array of 1023 bytes,
-- whose last one is 0, so that its loops end within it.
use neantis.Prelude.{
  ℕ, zero, suc, ◌+◌, ◌-◌, Bool, true, false, ◌||◌, ◌==◌, if◌then◌else◌, update, Option, some, none,
}
use neantis.Fs.State.{Block}
use neantis.Strings.{Bytes, strncpy}

abbrev pub buf_size : ℕ
buf_size = 1023

-- `strncpy(buf, bh->b_data+2,1022); buf[1022] = '\0';` with `buf` at 0 and the block behind it
unfoldable pub script_line : Block → Bytes
unfolding strncpy
script_line d =
    update (strncpy (buf_size - 1) (λ a. d (a - buf_size)) 0 (buf_size + 2)) (buf_size - 1) 0

abbrev pub is_blank : ℕ → Bool
is_blank c = c == b' ' || c == 9

-- The first byte from `cp` on that is not blank, with `n` rounds left.
unfoldable pub skip_blanks : ℕ → Bytes → ℕ → ℕ
skip_blanks zero buf cp = cp
skip_blanks (suc n) buf cp = elim (is_blank (buf cp)) [
  | true ↦ skip_blanks n buf (cp + 1)
  | false ↦ cp
]

-- The end of the word, and the place behind the last `/` in it.
unfoldable pub word_end : ℕ → Bytes → ℕ → ℕ → ℕ × ℕ
word_end zero buf cp i_name = (cp, i_name)
word_end (suc n) buf cp i_name = elim (buf cp == 0 || is_blank (buf cp)) [
  | true ↦ (cp, i_name)
  | false ↦ word_end n buf (cp + 1) (if buf cp == b'/' then cp + 1 else i_name)
]

-- What the line names, as places in `buf`: the path of the interpreter, its name, and the argument.
pub record Script : Type 0 where
  pub buf : Bytes
  pub interp : ℕ
  pub i_name : ℕ
  pub i_arg : Option ℕ

-- The place of the end of the line is what `strchr` gives. Without one, or on an empty line, there is
-- no interpreter.
unfoldable pub parse_script : (Bytes → ℕ → ℕ → Option ℕ) → Block → Option Script
unfolding script_line skip_blanks word_end
parse_script strchr d =
    let buf = script_line d in
    elim (strchr buf 0 b'\n') [
      | none ↦ none
      | some end ↦
          let buf = update buf end 0 in
          let cp = skip_blanks buf_size buf 0 in
          let word = word_end buf_size buf cp cp in
          if buf cp == 0
          then none
          else some (record {
            buf = if buf word.0 == 0 then buf else update buf word.0 0;
            interp = cp;
            i_name = word.1;
            i_arg = if buf word.0 == 0 then none else some (word.0 + 1);
          })
    ]
