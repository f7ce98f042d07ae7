-- ===== src/Exec/Frames.antt =====
-- fs/exec.c: what a new program finds on its stack, from the calls of `do_execve` that build it.
use neantis.Prelude.{
  ℕ, zero, suc, ◌+◌, ◌-◌, ◌*◌, ◌/◌, ◌%◌, ◌^◌, ◌≤◌, ◌<◌, ◌≡◌, refl, sym, ap, ap₂, ◌∙◌, ◌≢◌, ◌⊎◌, inl,
  inr, arith, List, some, Bool-cases, ltb,
}
use neantis.Prelude.Words.{sub32}
use neantis.Mm.{Memory, page_size}
use neantis.Fs.State.{Kernel}
use neantis.Fs.Run.{ok}
use neantis.Strings.{Bytes}
use neantis.Segments.{get_base}
use neantis.Exec.{Args, copied, no_page, copy_strings, create_tables}
use neantis.Exec.Tables.{
  AreStrings, AreStrings-same, AreStrings-end, IsFrame, create_tables-IsFrame,
}
use neantis.Exec.Ldt.{Mmu, max_arg_page, data_limit, change_ldt}
use neantis.Exec.Pages.{PutsPages, args_at, IsLaidOut, CountsPages, change_ldt-IsLaidOut}
use neantis.Exec.Copies.{byte_at, ArePages, IsFull}
use neantis.Exec.Copies.Arguments.{upto, total, IsArgument, ArePlaced}
use neantis.Exec.Copies.Calls.{begin, copy_strings-ArePlaced, length-upto, AreStrings-move}

-- The place at which the arguments begin to be copied.
abbrev pub top : ℕ
top = page_size * max_arg_page - 4

no_pages : (p : ℕ) (memory : Memory) → ArePages (begin (λ _. 0) p memory)
no_pages p memory = record {
  aligned = λ i there. absurd (there refl);
  in_use = λ i there. absurd (there refl);
  apart = λ i j there. absurd (there refl);
}

-- A new program with the arguments that `b` holds, which lie before place `q`, and the environment,
-- which lies before the top.
pub record IsStarted (f n m text_size : ℕ) (args env : ℕ → List ℕ) (k : Kernel) (b : Args) (q : ℕ)
    ⦃x : Mmu⦄ : Type 0 where
  pub loaded : Kernel
  pub sp : ℕ
  pub fs' : Bytes
  pub changed : change_ldt text_size b.page (record k { memory = b.memory }) ≡ ok data_limit loaded
  pub tabled :
      create_tables f loaded.fs (sub32 (b.p + data_limit) (max_arg_page * page_size)) n m
      ≡ some (sp, fs')
  pub frame : IsFrame fs' sp (args_at + b.p) (args_at + q) (upto n args) (upto m env)
  pub args_spelt : AreStrings f fs' (args_at + b.p) (upto n args) (args_at + q)
  pub env_spelt : AreStrings f fs' (args_at + q) (upto m env) (args_at + top)

-- The argument pages as they are shown behind `change_ldt`.
shown_at :
    (f n m text_size : ℕ) (args env : ℕ → List ℕ) (k k' : Kernel) (a b : Args)
    → ArePlaced f m env (begin (λ _. 0) top k.memory) a
    → ArePlaced f n args (begin a.page a.p a.memory) b
    → IsLaidOut text_size b.page (record k { memory = b.memory }) k'
    → (y : ℕ) → b.p ≤ y
    → y < top
    → k'.fs (args_at + y) ≡ byte_at b y
shown_at f n m text_size args env k k' a b first second laid y from to =
    ap k'.fs {y = args_at + y / 4096 * 4096 + y % 4096} (omega arith)
    ∙ laid.args_shown (y / 4096) (y % 4096) (omega arith) there (omega arith)
  where
    there : b.page (y / 4096) ≢ 0
    there = elim (Bool-cases (ltb y a.p)) [
      | inl low ↦ second.there y from (ground arith)
      | inr high ↦
          let old = first.there y (ground arith) to in
          λ gone. old (sym (second.page_same (y / 4096) old) ∙ gone)
    ]

-- The tables for strings that are shown.
tables_made :
    (f n m p q end : ℕ) (fs : Bytes) (args env : ℕ → List ℕ)
    → AreStrings f fs p (upto n args) q
    → AreStrings f fs q (upto m env) end
    → end < 2 ^ 32
    → 4 * (n + m) + 24 ≤ p
    → (sp : ℕ) × (fs' : Bytes) × (create_tables f fs p n m ≡ some (sp, fs'))
      × IsFrame fs' sp p q (upto n args) (upto m env)
      × ((y : ℕ) → p ≤ y → fs' y ≡ fs y)
tables_made f n m p q end fs args env ss ts small room =
    let (sp, fs', e, frame, same) =
      create_tables-IsFrame f fs p q end (upto n args) (upto m env) ss ts small
        (omega (arith, length-upto n args, length-upto m env)) in
    (
      sp,
      fs',
      ap₂ (create_tables f fs p) (sym (length-upto n args)) (sym (length-upto m env)) ∙ e,
      frame,
      same,
    )

module _ ⦃x : Mmu⦄ where
  IsStarted_lem :
      (f n m text_size : ℕ) (args env : ℕ → List ℕ) (k k' : Kernel) (a b : Args)
      → ArePlaced f m env (begin (λ _. 0) top k.memory) a
      → ArePlaced f n args (begin a.page a.p a.memory) b
      → n + m ≤ 4096 * 32
      → change_ldt text_size b.page (record k { memory = b.memory }) ≡ ok data_limit k'
      → IsLaidOut text_size b.page (record k { memory = b.memory }) k'
      → IsStarted f n m text_size args env k b a.p
  IsStarted_lem f n m text_size args env k k' a b first second few e laid =
      let bound = AreStrings-end first.spelt in
      let bound' = AreStrings-end second.spelt in
      let shown = shown_at f n m text_size args env k k' a b first second laid in
      let ss =
        AreStrings-move {mem' = k'.fs} args_at second.spelt
          λ y from to. shown y from (omega (arith, bound)) in
      let ts = AreStrings-move {mem' = k'.fs} args_at first.spelt λ y from to.
        shown y (omega (arith, bound')) to ∙ second.byte_same y from (first.there y from to) in
      let (sp, fs', made, frame, same) =
        tables_made f n m (args_at + b.p) (args_at + a.p) (args_at + top) k'.fs args env ss ts
          (omega arith) (omega arith) in
      record {
        loaded = k';
        sp = sp;
        fs' = fs';
        changed = e;
        tabled =
            ap (λ p. create_tables f k'.fs p n m) (place b.p (omega (arith, bound, bound'))) ∙ made;
        frame = frame;
        args_spelt = AreStrings-same ss same;
        env_spelt = AreStrings-same ts (λ y le. same y (omega (arith, bound')));
      }
    where
      place : (p : ℕ) → p ≤ top → sub32 (p + data_limit) (max_arg_page * page_size) ≡ args_at + p
      place p le = omega arith

n-total : (n : ℕ) (strings : ℕ → List ℕ) → n ≤ total n strings
unfolding total
n-total zero strings = omega arith
n-total (suc n) strings = omega (arith, n-total n strings)

-- What the call of `copy_strings` for the arguments leads to, behind that for the environment.
abbrev pub HasArguments :
    ⦃x : Mmu⦄
    → (f n m text_size argv : ℕ) → Bytes
    → (args env : ℕ → List ℕ) → Kernel
    → Args
    → Type 0
HasArguments f n m text_size argv kernel args env k a =
    let run = copy_strings f 0 n k.fs kernel argv a.page a.p a.memory in
    ((b : Args) × (run ≡ no_page b) × IsFull b)
    ⊎ ((b : Args) × (run ≡ copied b) × IsStarted f n m text_size args env k b a.p)

module _ ⦃x : Mmu⦄ where
  HasArguments_lem :
      (f n m argv text_size : ℕ) (kernel : Bytes) (args env : ℕ → List ℕ) (k : Kernel) (a : Args)
      → ArePlaced f m env (begin (λ _. 0) top k.memory) a
      → ((i : ℕ) → i < n → IsArgument f k.fs k.fs argv i (args i))
      → total n args + total m env < top
      → ((b : Args)
          → (k' : Kernel) × (change_ldt text_size b.page (record k { memory = b.memory })
              ≡ ok data_limit k')
            × IsLaidOut text_size b.page (record k { memory = b.memory }) k')
      → HasArguments f n m text_size argv kernel args env k a
  HasArguments_lem f n m argv text_size kernel args env k a first is_arg room changes =
      let s = first.standing.pages in
      let pages : ArePages (begin a.page a.p a.memory) = record {
        aligned = s.aligned;
        in_use = s.in_use;
        apart = s.apart;
      } in
      let few : n + m ≤ 4096 * 32 = omega (arith, n-total n args, n-total m env) in
      elim (copy_strings-ArePlaced f n argv k.fs kernel args a.page a.p a.memory is_arg pages
        (omega (arith, first.p_is)) (omega (arith, first.p_is)) (omega (arith, first.p_is))) [
          | inl full ↦ inl full
          | inr (b, e, second) ↦
              let (k', e', laid) = changes b in
              inr (b, e, IsStarted_lem f n m text_size args env k k' a b first second few e' laid)
        ]

  -- A program that is started finds its arguments and its environment. In the calls of `do_execve`
  -- that bring them there, with nothing between them: either a call of `copy_strings` ends without a
  -- page, and then no page of the machine is free; or behind the two calls, `change_ldt` and
  -- `create_tables` there are at the new stack pointer the numbers and the tables that
  -- `create_tables` promises, their words are the addresses of the strings in their order, and there
  -- stand the strings that the caller had named. It is asked that each string has an address that is
  -- not 0 and ends within the bytes that a loop may look at, that the strings fit into the 32 pages,
  -- that `put_page` shows a page where it is told to, that the descriptors count in pages and leave
  -- room for the segment, and that the code is neither empty nor larger than 48 MB.
  pub create_tables-copy_strings :
      (f n m argv envp text_size : ℕ) (kernel : Bytes) (args env : ℕ → List ℕ) (k : Kernel)
      → ((i : ℕ) → i < n → IsArgument f k.fs k.fs argv i (args i))
      → ((i : ℕ) → i < m → IsArgument f k.fs k.fs envp i (env i))
      → total n args + total m env < top
      → ((page : ℕ → ℕ) → PutsPages page)
      → CountsPages (k.current.ldt 1)
      → CountsPages (k.current.ldt 2)
      → get_base (k.current.ldt 1) + data_limit < 2 ^ 32
      → 0 < text_size
      → text_size ≤ 0x3000000
      → ((a : Args) × (copy_strings f 0 m k.fs kernel envp (λ _. 0) top k.memory ≡ no_page a)
          × IsFull a)
        ⊎ ((a : Args) × (copy_strings f 0 m k.fs kernel envp (λ _. 0) top k.memory ≡ copied a)
            × HasArguments f n m text_size argv kernel args env k a)
  create_tables-copy_strings f n m argv envp text_size kernel args env k is_arg is_env room puts
        code pages below some_text small =
      elim (copy_strings-ArePlaced f m envp k.fs kernel env (λ _. 0) top k.memory is_env
        (no_pages top k.memory) (omega arith) (omega arith) (omega arith)) [
          | inl full ↦ inl full
          | inr (a, e, first) ↦ inr (
            a,
            e,
            HasArguments_lem f n m argv text_size kernel args env k a first is_arg room λ b.
                change_ldt-IsLaidOut text_size b.page (record k { memory = b.memory }) (puts b.page)
                  code pages below some_text small,
          )
        ]
