-- ===== src/Exec/Tables.antt =====
-- fs/exec.c: the tables of strings that `create_tables` leaves.
use neantis.Prelude.{
  ℕ, zero, suc, ◌+◌, ◌-◌, ◌*◌, ◌%◌, ◌^◌, ◌≤◌, ◌<◌, ◌≡◌, refl, sym, ap, ap₂, subst, ◌∙◌, ◌≢◌, ◌⊎◌,
  arith, List, [], ◌∷◌, ◌++◌, length, ==_ne, some,
}
use neantis.Prelude.Words.{sub32}
use neantis.Fs.Bytes.{load16, load32, store16, store32, load32-store32}
use neantis.Strings.{Bytes}
use neantis.Strings.Copies.{IsString, stop, more, IsString-same}
use neantis.Exec.{behind, put_table, put_frame, create_tables}

-- Strings that follow each other from an address to another, none longer than `f` allows.
pub data AreStrings (f : ℕ) (fs : Bytes) : ℕ → List (List ℕ) → ℕ → Type 0 where
  no_more : {a : ℕ} → AreStrings f fs a [] a
  next_string :
      {a end : ℕ} {xs : List ℕ} {xss : List (List ℕ)}
      → IsString fs a xs
      → length xs < f
      → AreStrings f fs (a + length xs + 1) xss end
      → AreStrings f fs a (xs ∷ xss) end

-- Where they begin.
unfoldable pub starts : ℕ → List (List ℕ) → List ℕ
starts a [] = []
starts a (xs ∷ xss) = a ∷ starts (a + length xs + 1) xss

-- `n` words from address `a` on.
unfoldable pub words : ℕ → Bytes → ℕ → List ℕ
words zero fs a = []
words (suc n) fs a = load32 fs a ∷ words n fs (a + 4)

-- `fs'` differs from `fs` between `from` and `to` only.
abbrev pub SameOutside : ℕ → ℕ → Bytes → Bytes → Type 0
SameOutside from to fs fs' = (x : ℕ) → ((x < from) ⊎ (to ≤ x)) → fs' x ≡ fs x

store32-SameOutside : (fs : Bytes) (a v : ℕ) → SameOutside a (a + 4) fs (store32 fs a v)
unfolding store32 store16
store32-SameOutside fs a v x away = ground arith

load32-same :
    (fs fs' : Bytes) (a : ℕ)
    → ((x : ℕ) → a ≤ x → x < a + 4 → fs' x ≡ fs x)
    → load32 fs' a ≡ load32 fs a
unfolding load32 load16
load32-same fs fs' a same =
    rw
      (
        same a (omega arith) (omega arith),
        same (a + 1) (omega arith) (omega arith),
        same (a + 2) (omega arith) (omega arith),
        same (a + 2 + 1) (omega arith) (omega arith),
      )
      refl

words-same :
    (n : ℕ) (fs fs' : Bytes) (a : ℕ)
    → ((x : ℕ) → a ≤ x → x < a + 4 * n → fs' x ≡ fs x)
    → words n fs' a ≡ words n fs a
unfolding words
words-same zero fs fs' a same = refl
words-same (suc n) fs fs' a same =
    ap₂ ◌∷◌ (load32-same fs fs' a λ x le lt. same x le (omega arith))
      (words-same n fs fs' (a + 4) λ x le lt. same x (omega arith) (omega arith))

pub AreStrings-same :
    {f : ℕ} {fs fs' : Bytes} {a end : ℕ} {xss : List (List ℕ)}
    → AreStrings f fs a xss end
    → ((x : ℕ) → a ≤ x → fs' x ≡ fs x)
    → AreStrings f fs' a xss end
AreStrings-same no_more same = no_more
AreStrings-same (next_string s short ss) same =
    next_string (IsString-same s λ x le lt. same x le) short
      (AreStrings-same ss λ x le. same x (omega arith))

pub behind_lem :
    (f : ℕ) {fs : Bytes} {a : ℕ} {xs : List ℕ}
    → IsString fs a xs
    → length xs < f
    → behind f fs a ≡ some (a + length xs + 1)
unfolding behind
behind_lem zero s short = absurd (omega arith)
behind_lem (suc f) {a} (stop e) short = rw (e, behind) (ap some {y = a + 0 + 1} (omega arith))
behind_lem (suc f) {fs} {a} (more {xs = xs} e c s) short =
    rw (behind, ==_ne (fs a) 0 (subst (λ v. v ≢ 0) (sym e) c))
      (behind_lem f s (omega arith) ∙ ap some {y = a + suc (length xs) + 1} (omega arith))

-- The end of the strings does not lie before their begin.
pub AreStrings-end :
    {f : ℕ} {fs : Bytes} {a end : ℕ} {xss : List (List ℕ)} → AreStrings f fs a xss end → a ≤ end
AreStrings-end no_more = omega arith
AreStrings-end (next_string s short ss) = omega (arith, AreStrings-end ss)

-- A table below its strings.
put_table_lem :
    (f : ℕ) {fs : Bytes} {p end : ℕ} (xss : List (List ℕ)) (table : ℕ)
    → AreStrings f fs p xss end
    → end < 2 ^ 32
    → table + 4 * suc (length xss) ≤ p
    → (fs' : Bytes) × (put_table f (length xss) fs p table ≡ some (fs', end))
      × (words (suc (length xss)) fs' table ≡ starts p xss ++ 0 ∷ [])
      × SameOutside table (table + 4 * suc (length xss)) fs fs'
unfolding put_table words starts
put_table_lem f {fs} [] table no_more small room = (
  store32 fs table 0,
  refl,
  ap (λ w. w ∷ []) (load32-store32 fs table 0 (omega arith)),
  store32-SameOutside fs table 0,
)
put_table_lem f {fs} {p} (xs ∷ xss) table (next_string s short ss) small room =
    let fs₁ = store32 fs table p in
    let kept : (x : ℕ) → p ≤ x → fs₁ x ≡ fs x =
      λ x le. store32-SameOutside fs table p x (omega arith) in
    let ss₁ = AreStrings-same {fs' = fs₁} ss λ x le. kept x (omega arith) in
    let (fs', run, table_is, same) =
      put_table_lem f {fs = fs₁} xss (table + 4) ss₁ small (omega arith) in
    let bound = AreStrings-end ss in
    (
      fs',
      rw (put_table, behind_lem f (IsString-same {mem' = fs₁} s λ x le lt. kept x le) short) run,
      ap₂ ◌∷◌
          (load32-same fs₁ fs' table (λ x le lt. same x (omega arith))
            ∙ load32-store32 fs table p (omega (arith, bound)))
          table_is,
      λ x away. same x (omega arith) ∙ store32-SameOutside fs table p x (omega arith),
    )

-- What a program finds at its stack pointer `sp`, when its arguments stand at `p` and its environment
-- at `q`.
pub record IsFrame (fs : Bytes) (sp p q : ℕ) (args env : List (List ℕ)) : Type 0 where
  pub argc : load32 fs sp ≡ length args
  pub argv : load32 fs (sp + 4) ≡ sp + 12
  pub envp : load32 fs (sp + 8) ≡ sp + 12 + 4 * suc (length args)
  pub arg_words : words (suc (length args)) fs (sp + 12) ≡ starts p args ++ 0 ∷ []
  pub env_words :
      words (suc (length env)) fs (sp + 12 + 4 * suc (length args)) ≡ starts q env ++ 0 ∷ []

-- The same, with the addresses of the two tables and of the frame below them given.
frame_lem :
    (f : ℕ) (fs : Bytes) (p q end : ℕ) (args env : List (List ℕ)) (sp argv envp : ℕ)
    → argv ≡ sp + 12
    → envp ≡ sp + 12 + 4 * suc (length args)
    → envp + 4 * suc (length env) ≤ p
    → AreStrings f fs p args q
    → AreStrings f fs q env end
    → p ≤ q
    → q ≤ end
    → end < 2 ^ 32
    → (fs₅ : Bytes) × (put_frame f fs p (length args) (length env) sp argv envp ≡ some (sp, fs₅))
      × IsFrame fs₅ sp p q args env
      × ((x : ℕ) → p ≤ x → fs₅ x ≡ fs x)
unfolding put_frame
frame_lem f fs p q end args env sp argv envp argv_at envp_at below ss ts low top small =
    let fs₁ = store32 fs (sp + 8) envp in
    let fs₂ = store32 fs₁ (sp + 4) argv in
    let fs₃ = store32 fs₂ sp (length args) in
    let first : (x : ℕ) → sp + 12 ≤ x → fs₃ x ≡ fs x = λ x le.
      store32-SameOutside fs₂ sp (length args) x (omega arith)
      ∙ store32-SameOutside fs₁ (sp + 4) argv x (omega arith)
      ∙ store32-SameOutside fs (sp + 8) envp x (omega arith) in
    let (fs₄, run₁, words₁, same₁) =
      put_table_lem f args argv (AreStrings-same {fs' = fs₃} ss λ x le. first x (omega arith))
        (omega arith) (omega arith) in
    let second : (x : ℕ) → p ≤ x → fs₄ x ≡ fs x =
      λ x le. same₁ x (omega arith) ∙ first x (omega arith) in
    let (fs₅, run₂, words₂, same₂) =
      put_table_lem f env envp (AreStrings-same {fs' = fs₄} ts λ x le. second x (omega arith)) small
        (omega arith) in
    let lower : (x : ℕ) → x < sp + 12 → fs₅ x ≡ fs₃ x =
      λ x lt. same₂ x (omega arith) ∙ same₁ x (omega arith) in
    (
      fs₅,
      rw (put_frame, run₁, run₂) refl,
      record {
        argc =
            load32-same fs₃ fs₅ sp (λ x le lt. lower x (omega arith))
            ∙ load32-store32 fs₂ sp (length args) (omega arith);
        argv =
            load32-same fs₂ fs₅ (sp + 4) (λ x le lt.
              lower x (omega arith) ∙ store32-SameOutside fs₂ sp (length args) x (omega arith))
            ∙ load32-store32 fs₁ (sp + 4) argv (omega arith)
            ∙ argv_at;
        envp =
            load32-same fs₁ fs₅ (sp + 8) (λ x le lt.
              lower x (omega arith)
              ∙ store32-SameOutside fs₂ sp (length args) x (omega arith)
              ∙ store32-SameOutside fs₁ (sp + 4) argv x (omega arith))
            ∙ load32-store32 fs (sp + 8) envp (omega arith)
            ∙ envp_at;
        arg_words =
            ap (words (suc (length args)) fs₅) (sym argv_at)
            ∙ words-same (suc (length args)) fs₄ fs₅ argv (λ x le lt. same₂ x (omega arith))
            ∙ words₁;
        env_words = ap (words (suc (length env)) fs₅) (sym envp_at) ∙ words₂;
      },
      λ x le. same₂ x (omega arith) ∙ second x le,
    )

-- When the arguments and the environment stand behind each other on the stack, with room below them,
-- `create_tables` ends: at the new stack pointer are the number of arguments, the address of the
-- table of arguments, which lies three words further, and that of the table of the environment,
-- which lies behind it. Each table has the addresses of its strings, in their order, and a 0 behind
-- them. From the strings on nothing has changed.
pub create_tables-IsFrame :
    (f : ℕ) (fs : Bytes) (p q end : ℕ) (args env : List (List ℕ))
    → AreStrings f fs p args q
    → AreStrings f fs q env end
    → end < 2 ^ 32
    → 4 * (length args + length env) + 24 ≤ p
    → (sp : ℕ) × (fs' : Bytes) × (create_tables f fs p (length args) (length env) ≡ some (sp, fs'))
      × IsFrame fs' sp p q args env
      × ((x : ℕ) → p ≤ x → fs' x ≡ fs x)
unfolding create_tables
create_tables-IsFrame f fs p q end args env ss ts small room =
    let low = AreStrings-end ss in
    let top = AreStrings-end ts in
    let envp = sub32 (p - p % 4) (4 * (length env + 1)) in
    let argv = sub32 envp (4 * (length args + 1)) in
    let sp = sub32 argv 12 in
    let (fs₅, run, frame, same) =
      frame_lem f fs p q end args env sp argv envp (omega (arith, low, top))
        (omega (arith, low, top)) (omega (arith, low, top)) ss ts low top small in
    (sp, fs₅, run, frame, same)
