-- ===== src/Exec/Copies/Pushes.antt =====
-- fs/exec.c: the inner loop of `copy_strings`.
use neantis.Prelude.{
  ℕ, zero, suc, ◌+◌, ◌-◌, ◌/◌, ◌%◌, ◌^◌, ◌≤◌, ◌<◌, ◌≡◌, refl, sym, ap, ap₂, ◌∙◌, ◌≢◌, ◌⊎◌, inl, inr,
  arith, ==_ne, ◌==◌, if◌then◌else◌, update, update_self, update-ne, Bool-cases,
}
use neantis.Prelude.Words.{sub32}
use neantis.Mm.{page_of, map_nr}
use neantis.Strings.{Bytes}
use neantis.Exec.{Args, copied, no_page, need_page, push_bytes}
use neantis.Exec.Copies.{byte_at, ArePages, IsCurrent, IsFull, IsReady, need_page-IsReady}

-- The state between two bytes.
pub record IsStanding (a : Args) : Type 0 where
  pub pages : ArePages a
  pub at_place : a.offset ≢ 0 → IsCurrent a

-- The state before a byte is written: `p` has been moved, and its page is at hand unless there is none.
abbrev next_place : Args → Args
next_place a =
    let down = record a { p = sub32 a.p 1 } in
    if a.offset == 0 then need_page down else record down { offset = a.offset - 1 }

within_page :
    (p o : ℕ)
    → o ≡ p % 4096
    → o ≢ 0
    → p < 2 ^ 32
    → (o - 1 ≡ sub32 p 1 % 4096) × (p / 4096 ≡ sub32 p 1 / 4096)
within_page p o e more small = (omega arith, omega arith)

next_place-IsReady :
    (a : Args)
    → IsStanding a
    → a.p < 2 ^ 32
    → ((((next_place a).pag ≡ 0) × IsFull (next_place a))
        ⊎ IsReady (record a { p = sub32 a.p 1 }) (next_place a))
next_place-IsReady a s small = elim (Bool-cases (a.offset == 0)) [
  | inl e ↦ rw e (
      need_page-IsReady (record a { p = sub32 a.p 1 })
        (record { aligned = s.pages.aligned; in_use = s.pages.in_use; apart = s.pages.apart }))
  | inr e ↦
      let more : a.offset ≢ 0 = ground arith in
      let (o, g, h) = s.at_place more in
      let (o', i') = within_page a.p a.offset o more small in
      rw e (
        inr (record {
          p_same = refl;
          at_place = (o', g ∙ ap a.page i', h);
          pages = record {
            aligned = s.pages.aligned;
            in_use = s.pages.in_use;
            apart = s.pages.apart;
          };
          kept = record { page_same = λ i e. refl; byte_same = λ y e. refl };
        }))
]

-- A byte is written at the place.
abbrev put : Args → ℕ → Args
put a c = record a { memory = record a.memory { phys = update a.memory.phys (a.pag + a.offset) c } }

byte_at-put_self : (a : Args) (c : ℕ) → IsCurrent a → byte_at (put a c) a.p ≡ c
byte_at-put_self a c (o, g, h) =
    ap (update a.memory.phys (a.pag + a.offset) c) (ap₂ ◌+◌ (sym g) (sym o))
    ∙ update_self a.memory.phys (a.pag + a.offset) c

apart_lem :
    (g h o o' : ℕ)
    → g ≡ page_of (map_nr g)
    → h ≡ page_of (map_nr h)
    → g ≢ h
    → o < 4096
    → o' < 4096
    → g + o ≢ h + o'
apart_lem g h o o' e e' far lt lt' same = omega arith

same_place : (y p : ℕ) → y / 4096 ≡ p / 4096 → y % 4096 ≡ p % 4096 → y ≡ p
same_place y p e e' = omega arith

byte_at-put :
    (a : Args) (c y : ℕ)
    → ArePages a
    → IsCurrent a
    → y ≢ a.p
    → a.page (y / 4096) ≢ 0
    → byte_at (put a c) y ≡ byte_at a y
byte_at-put a c y pages (o, g, h) away there =
    update-ne a.memory.phys (a.pag + a.offset) (a.page (y / 4096) + y % 4096) c λ same.
      elim (Bool-cases (y / 4096 == a.p / 4096)) [
        | inl e ↦
            let e' : y / 4096 ≡ a.p / 4096 = ground arith in
            away (
              same_place y a.p e' (
                offsets (y % 4096) (a.p % 4096) a.pag a.offset (a.page (y / 4096)) o
                  (ap a.page e' ∙ sym g) same))
        | inr e ↦
            apart_lem (a.page (a.p / 4096)) (a.page (y / 4096)) (a.p % 4096) (y % 4096)
              (pages.aligned (a.p / 4096) (λ e'. h (g ∙ e'))) (pages.aligned (y / 4096) there)
              (pages.apart (a.p / 4096) (y / 4096) (λ e'. h (g ∙ e')) there (ground arith))
              (omega arith) (omega arith) (ap₂ ◌+◌ (sym g) (sym o) ∙ same)
      ]
  where
    offsets : (r s g o h : ℕ) → o ≡ s → h ≡ g → g + o ≡ h + r → r ≡ s
    offsets r s g o h e e' same = omega arith

-- The `len` bytes from `start` on lie before the place of `a`, and what lay from there on is kept.
pub record ArePushed (len : ℕ) (source : Bytes) (start : ℕ) (a b : Args) : Type 0 where
  pub p_is : b.p + len ≡ a.p
  pub bytes : (j : ℕ) → j < len → byte_at b (b.p + j) ≡ source (start + j)
  pub there : (j : ℕ) → j < len → b.page ((b.p + j) / 4096) ≢ 0
  pub page_same : (i : ℕ) → a.page i ≢ 0 → b.page i ≡ a.page i
  pub byte_same : (y : ℕ) → a.p ≤ y → a.page (y / 4096) ≢ 0 → byte_at b y ≡ byte_at a y
  pub standing : IsStanding b

put-IsStanding : {a : Args} (at : Args) (c : ℕ) → IsReady a at → IsStanding (put at c)
put-IsStanding at c ready = record {
  pages = record {
    aligned = ready.pages.aligned;
    in_use = ready.pages.in_use;
    apart = ready.pages.apart;
  };
  at_place = λ _. ready.at_place;
}

down_lem : (p : ℕ) → 0 < p → p < 2 ^ 32 → sub32 p 1 ≡ p - 1
down_lem p more small = omega arith

-- One byte more, before the others.
ArePushed-suc :
    (len : ℕ) (source : Bytes) (start : ℕ) (a at b : Args)
    → 0 < a.p
    → a.p < 2 ^ 32
    → IsReady (record a { p = sub32 a.p 1 }) at
    → ArePushed len source start (put at (source (start + len))) b
    → ArePushed (suc len) source start a b
ArePushed-suc len source start a at b some_place small ready s =
    let c = source (start + len) in
    let at_p : at.p ≡ a.p - 1 = ready.p_same ∙ down_lem a.p some_place small in
    let here : at.page (at.p / 4096) ≢ 0 = λ e. ready.at_place.2 (ready.at_place.1 ∙ e) in
    record {
      p_is = omega (arith, s.p_is);
      bytes = λ j lt. elim (Bool-cases (j == len)) [
        | inl e ↦
            let e' : j ≡ len = ground arith in
            ap (λ t. byte_at b (b.p + t)) e'
            ∙ ap (byte_at b) s.p_is
            ∙ s.byte_same at.p (omega arith) here
            ∙ byte_at-put_self at c ready.at_place
            ∙ ap (λ t. source (start + t)) (sym e')
        | inr e ↦ s.bytes j (ground arith)
      ];
      there = λ j lt. elim (Bool-cases (j == len)) [
        | inl e ↦
            let e' : b.p + j ≡ at.p = ap (λ t. b.p + t) (ground arith) ∙ s.p_is in
            λ gone.
              here
                (sym (s.page_same (at.p / 4096) here) ∙ sym (ap (λ t. b.page (t / 4096)) e') ∙ gone)
        | inr e ↦ s.there j (ground arith)
      ];
      page_same = λ i there.
          s.page_same i (λ e. there (sym (ready.kept.page_same i there) ∙ e))
          ∙ ready.kept.page_same i there;
      byte_same = λ y le there.
          let there' : at.page (y / 4096) ≢ 0 =
            λ e. there (sym (ready.kept.page_same (y / 4096) there) ∙ e) in
          s.byte_same y (omega arith) there'
          ∙ byte_at-put at c y ready.pages ready.at_place
              (λ e. below y at.p a.p e at_p some_place le) there'
          ∙ ready.kept.byte_same y there;
      standing = s.standing;
    }
  where
    below : (y q p : ℕ) → y ≡ q → q ≡ p - 1 → 0 < p → p ≤ y → ⊥
    below y q p e e' more le = omega arith

push_bytes-none :
    (len : ℕ) (source : Bytes) (tmp : ℕ) (a : Args)
    → (next_place a).pag ≡ 0
    → push_bytes (suc len) source tmp a ≡ no_page (next_place a)
unfolding push_bytes
push_bytes-none len source tmp a gone = ground arith

push_bytes-some :
    (len : ℕ) (source : Bytes) (tmp : ℕ) (a : Args)
    → (next_place a).pag ≢ 0
    → push_bytes (suc len) source tmp a
      ≡ push_bytes len source (tmp - 1) (put (next_place a) (source (tmp - 1)))
unfolding push_bytes
push_bytes-some len source tmp a there = rw (push_bytes, ==_ne (next_place a).pag 0 there) refl

-- A number of bytes is pushed to the end, or a page is missing.
pub push_bytes-ArePushed :
    (len : ℕ) (source : Bytes) (start : ℕ) (a : Args)
    → IsStanding a
    → len ≤ a.p
    → a.p < 2 ^ 32
    → ((b : Args) × (push_bytes len source (start + len) a ≡ no_page b) × IsFull b)
      ⊎ ((b : Args) × (push_bytes len source (start + len) a ≡ copied b)
          × ArePushed len source start a b)
unfolding push_bytes
push_bytes-ArePushed zero source start a s room small = inr (
  a,
  refl,
  record {
    p_is = omega arith;
    bytes = λ j lt. absurd (omega arith);
    there = λ j lt. absurd (omega arith);
    page_same = λ i e. refl;
    byte_same = λ y le e. refl;
    standing = s;
  },
)
push_bytes-ArePushed (suc len) source start a s room small =
    let at = next_place a in
    elim (next_place-IsReady a s small) [
      | inl (gone, full) ↦ inl (at, push_bytes-none len source (start + suc len) a gone, full)
      | inr ready ↦
          let c = source (start + len) in
          let back : start + suc len - 1 ≡ start + len = omega arith in
          let one =
            push_bytes-some len source (start + suc len) a ready.at_place.2
            ∙ ap (λ t. push_bytes len source t (put at (source t))) back in
          let at_p : at.p ≡ a.p - 1 = ready.p_same ∙ down_lem a.p (omega arith) small in
          elim (push_bytes-ArePushed len source start (put at c) (put-IsStanding at c ready)
            (omega (arith, at_p)) (omega (arith, at_p))) [
              | inl (b, e, full) ↦ inl (b, one ∙ e, full)
              | inr (b, e, pushed) ↦ inr (
                b,
                one ∙ e,
                ArePushed-suc len source start a at b (omega arith) small ready pushed,
              )
            ]
    ]
