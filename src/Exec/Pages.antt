-- ===== src/Exec/Pages.antt =====
-- fs/exec.c: what the data segment of a new program shows behind `change_ldt`.
use neantis.Prelude.{
  ℕ, zero, suc, ◌+◌, ◌-◌, ◌*◌, ◌/◌, ◌^◌, ◌≤◌, ◌<◌, ◌≡◌, refl, ◌∙◌, sym, ap, arith, true, false,
  ◌==◌, ◌⊎◌, inl, inr, ◌≢◌, Bool-cases,
}
use neantis.Prelude.Words.{u32, sub32}
use neantis.Mm.{page_size}
use neantis.Fs.State.{Kernel}
use neantis.Fs.Run.{ok}
use neantis.Fs.Bytes.{store16}
use neantis.Segments.{Desc, page_align, set_base, get_base, set_limit, get_limit}
use neantis.Segments.Fields.{get_base-set_base, get_base-set_limit, get_limit-set_limit}
use neantis.Exec.Ldt.{Mmu, max_arg_page, data_limit, set_ldt, put_pages, change_ldt}

-- The bytes of the pages are the same.
abbrev pub SamePages : (ℕ → ℕ) → Kernel → Kernel → Type 0
SamePages page k k' =
    (i j : ℕ)
    → i < 32
    → page i ≢ 0
    → j < 4096
    → k'.memory.phys (page i + j) ≡ k.memory.phys (page i + j)

-- Page `p` shows at place `o` of the data segment, and none of the pages has moved.
pub record IsPut (page : ℕ → ℕ) (p o : ℕ) (k k' : Kernel) : Type 0 where
  pub current_same : k'.current ≡ k.current
  pub pages_same : SamePages page k k'
  pub put_at : (j : ℕ) → j < 4096 → k'.fs (o + j) ≡ k.memory.phys (p + j)
  pub fs_same : (y : ℕ) → ((y < o) ⊎ (o + 4096 ≤ y)) → k'.fs y ≡ k.fs y

-- What `put_page` is relied on for.
abbrev pub PutsPages : ⦃x : Mmu⦄ → (ℕ → ℕ) → Type 0
PutsPages ⦃x⦄ page =
    (p o : ℕ) (k : Kernel)
    → o + 4096 ≤ data_limit
    → (k' : Kernel) × (x.put_page p (get_base (k.current.ldt 2) + o) k ≡ ok tt k')
      × IsPut page p o k k'

-- Where the argument pages begin in the data segment.
abbrev pub args_at : ℕ
args_at = data_limit - max_arg_page * page_size

-- The first `n` pages are shown, and what lies behind them is as it was.
pub record AreShown (n : ℕ) (page : ℕ → ℕ) (k k' : Kernel) : Type 0 where
  pub current_same : k'.current ≡ k.current
  pub shown :
      (i j : ℕ)
      → i < n
      → page i ≢ 0
      → j < 4096
      → k'.fs (args_at + i * 4096 + j) ≡ k.memory.phys (page i + j)
  pub behind_same : (y : ℕ) → args_at + n * 4096 ≤ y → k'.fs y ≡ k.fs y

AreShown-skip :
    (n : ℕ) (page : ℕ → ℕ) (k k' : Kernel)
    → page n ≡ 0
    → AreShown n page k k'
    → AreShown (suc n) page k k'
AreShown-skip n page k k' none s = record {
  current_same = s.current_same;
  shown = λ i j lt some small. elim (Bool-cases (i == n)) [
    | inl e ↦ absurd (some (ap page (ground arith) ∙ none))
    | inr e ↦ s.shown i j (ground arith) some small
  ];
  behind_same = λ y le. s.behind_same y (omega arith);
}

AreShown-put :
    (n : ℕ) (page : ℕ → ℕ) (k k₁ k' : Kernel)
    → n < 32
    → IsPut page (page n) (args_at + n * 4096) k k₁
    → AreShown n page k₁ k'
    → AreShown (suc n) page k k'
AreShown-put n page k k₁ k' lt put s = record {
  current_same = s.current_same ∙ put.current_same;
  shown = λ i j i_lt some small. elim (Bool-cases (i == n)) [
    | inl e ↦
        let at_n : i ≡ n = ground arith in
        s.behind_same (args_at + i * 4096 + j) (omega (arith, at_n))
        ∙ ap (λ t. k₁.fs (args_at + t * 4096 + j)) at_n
        ∙ put.put_at j small
        ∙ ap (λ t. k.memory.phys (page t + j)) (sym at_n)
    | inr e ↦ s.shown i j (ground arith) some small ∙ put.pages_same i j (omega arith) some small
  ];
  behind_same = λ y le. s.behind_same y (omega arith) ∙ put.fs_same y (inr (omega arith));
}

module _ ⦃x : Mmu⦄ where
  put_pages-skip :
      (n place : ℕ) (page : ℕ → ℕ) (k : Kernel)
      → (page n == 0) ≡ true
      → put_pages (suc n) page place k ≡ put_pages n page (sub32 place page_size) k
  unfolding put_pages
  put_pages-skip n place page k none = rw (none, put_pages) refl

  put_pages-put :
      (n place there : ℕ) (page : ℕ → ℕ) (k k₁ : Kernel)
      → (page n == 0) ≡ false
      → sub32 place page_size ≡ there
      → x.put_page (page n) there k ≡ ok tt k₁
      → put_pages (suc n) page place k ≡ put_pages n page (sub32 place page_size) k₁
  unfolding put_pages
  put_pages-put n place there page k k₁ some here e = rw (some, here, put_pages) (rw e refl)

  put_pages-AreShown :
      (n base place : ℕ) (page : ℕ → ℕ) (k : Kernel)
      → PutsPages page
      → n ≤ 32
      → base ≡ get_base (k.current.ldt 2)
      → base + data_limit < 2 ^ 32
      → place ≡ base + (args_at + n * 4096)
      → (k' : Kernel) × (put_pages n page place k ≡ ok tt k') × AreShown n page k k'
  unfolding put_pages
  put_pages-AreShown zero base place page k puts le at below e = (
    k,
    refl,
    record {
      current_same = refl;
      shown = λ i j lt some small. absurd (omega arith);
      behind_same = λ y far. refl;
    },
  )
  put_pages-AreShown (suc n) base place page k puts le at below e =
      let here : sub32 place page_size ≡ get_base (k.current.ldt 2) + (args_at + n * 4096) =
        omega arith in
      elim (Bool-cases (page n == 0)) [
        | inl none ↦
            let (k', e', s) =
              put_pages-AreShown n base (sub32 place page_size) page k puts (omega arith) at below
                (omega arith) in
            (
              k',
              put_pages-skip n place page k none ∙ e',
              AreShown-skip n page k k' (ground arith) s,
            )
        | inr some ↦
            let (k₁, e₁, put) = puts (page n) (args_at + n * 4096) k (omega arith) in
            let (k', e', s) =
              put_pages-AreShown n base (sub32 place page_size) page k₁ puts (omega arith)
                (at ∙ ap (λ t. get_base (t.ldt 2)) (sym put.current_same)) below (omega arith) in
            (
              k',
              put_pages-put n place _ page k k₁ some here e₁ ∙ e',
              AreShown-put n page k k₁ k' (omega arith) put s,
            )
      ]

-- The segments of a task with `text_size` bytes of code, and the argument pages at the end of the
-- second one.
pub record IsLaidOut (text_size : ℕ) (page : ℕ → ℕ) (k k' : Kernel) : Type 0 where
  pub code_base : get_base (k'.current.ldt 1) ≡ get_base (k.current.ldt 1)
  pub data_base : get_base (k'.current.ldt 2) ≡ get_base (k.current.ldt 1)
  pub code_size : get_limit (k'.current.ldt 1) ≡ (text_size + 4095) / 4096 * 4096
  pub data_size : get_limit (k'.current.ldt 2) ≡ data_limit
  pub args_shown :
      (i j : ℕ)
      → i < 32
      → page i ≢ 0
      → j < 4096
      → k'.fs (args_at + i * 4096 + j) ≡ k.memory.phys (page i + j)

-- A descriptor that counts in pages, for its byte 6.
abbrev pub CountsPages : Desc → Type 0
CountsPages d = (d 6 < 2 ^ 8) × (2 ^ 7 ≤ d 6)

get_limit_lem :
    (d : Desc) (base pages limit : ℕ)
    → CountsPages d
    → limit ≡ pages * 2 ^ 12
    → 0 < pages
    → pages < 2 ^ 20
    → get_limit (set_limit (set_base d base) limit) ≡ limit
unfolding set_base store16
get_limit_lem d base pages limit granular e some small =
    ap (λ l. get_limit (set_limit (set_base d base) l)) e
    ∙ get_limit-set_limit (set_base d base) pages (omega (arith, granular.0))
        (omega (arith, granular.1)) some small
    ∙ sym e

get_base_lem :
    (d : Desc) (base limit : ℕ)
    → base < 2 ^ 32
    → get_base (set_limit (set_base d base) limit) ≡ base
get_base_lem d base limit small =
    get_base-set_limit (set_base d base) limit ∙ get_base-set_base d base small

-- The task of which `change_ldt` has set the two segments.
abbrev with_segments : ℕ → Kernel → Kernel
with_segments text_size k =
    let base = get_base (k.current.ldt 1) in
    let t = set_ldt 1 (λ d. set_limit (set_base d base) (page_align text_size)) k.current in
    record k { current = set_ldt 2 (λ d. set_limit (set_base d base) data_limit) t }

module _ ⦃x : Mmu⦄ where
  -- `change_ldt` returns, and what it leaves is laid out as it should be: both segments begin where
  -- the code began, the code segment has the bytes of the code, rounded up to pages, the data segment
  -- has 64 MB, and its last 32 pages show the argument pages that have been taken. It is asked that
  -- there is some code and at most 48 MB of it, that both descriptors count in pages, that the
  -- segment of 64 MB ends within the addresses of 32 bits, and that `put_page` shows a page where it
  -- is told to and changes nothing else that the model has.
  pub change_ldt-IsLaidOut :
      (text_size : ℕ) (page : ℕ → ℕ) (k : Kernel)
      → PutsPages page
      → CountsPages (k.current.ldt 1)
      → CountsPages (k.current.ldt 2)
      → get_base (k.current.ldt 1) + data_limit < 2 ^ 32
      → 0 < text_size
      → text_size ≤ 0x3000000
      → (k' : Kernel) × (change_ldt text_size page k ≡ ok data_limit k')
        × IsLaidOut text_size page k k'
  unfolding change_ldt
  change_ldt-IsLaidOut text_size page k puts code pages below some small =
      let base = get_base (k.current.ldt 1) in
      let aligned : page_align text_size ≡ (text_size + 4095) / 4096 * 4096 = omega arith in
      let k₁ = with_segments text_size k in
      let at : base ≡ get_base (k₁.current.ldt 2) =
        sym (get_base_lem (k.current.ldt 2) base data_limit (omega arith)) in
      let (k', e, s) =
        put_pages-AreShown 32 base (u32 (base + data_limit)) page k₁ puts (omega arith) at below
          (omega arith) in
      (
        k',
        rw e refl,
        record {
          code_base =
              ap (λ t. get_base (t.ldt 1)) s.current_same
              ∙ get_base_lem (k.current.ldt 1) base (page_align text_size) (omega arith);
          data_base = ap (λ t. get_base (t.ldt 2)) s.current_same ∙ sym at;
          code_size =
              ap (λ t. get_limit (t.ldt 1)) s.current_same
              ∙ get_limit_lem (k.current.ldt 1) base ((text_size + 4095) / 4096)
                  (page_align text_size) code aligned (omega arith) (omega arith)
              ∙ aligned;
          data_size =
              ap (λ t. get_limit (t.ldt 2)) s.current_same
              ∙ get_limit_lem (k.current.ldt 2) base 16384 data_limit pages refl (omega arith)
                  (omega arith);
          args_shown = s.shown;
        },
      )
