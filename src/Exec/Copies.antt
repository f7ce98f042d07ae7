-- ===== src/Exec/Copies.antt =====
-- fs/exec.c: where `copy_strings` leaves the bytes.
pub mod Pushes
pub mod Arguments
pub mod Calls
use neantis.Prelude.{
  ℕ, ◌+◌, ◌/◌, ◌%◌, ◌<◌, ◌≡◌, refl, sym, ap, ◌∙◌, ◌≢◌, ◌⊎◌, inl, inr, arith, some, none, ◌==◌, leb,
  ltb, ◌&&◌, if◌then◌else◌, update, update_self, update-ne, Bool-cases, Option-cases,
}
use neantis.Mm.{Memory, page_size, get_free_page, scan, page_of, map_nr, paging_pages}
use neantis.Mm.Alloc.{Taken, get_free_page-some, free_pages, scan_total}
use neantis.Exec.{Args, need_page}

-- The byte at place `y` of the argument pages.
abbrev pub byte_at : Args → ℕ → ℕ
byte_at a y = a.memory.phys (a.page (y / 4096) + y % 4096)

-- The pages that are taken for the arguments are pages of the machine, in use, and no two places have
-- the same one.
pub record ArePages (a : Args) : Type 0 where
  pub aligned : (i : ℕ) → a.page i ≢ 0 → a.page i ≡ page_of (map_nr (a.page i))
  pub in_use : (i : ℕ) → a.page i ≢ 0 → a.memory.mem_map (map_nr (a.page i)) ≢ 0
  pub apart : (i j : ℕ) → a.page i ≢ 0 → a.page j ≢ 0 → i ≢ j → a.page i ≢ a.page j

-- `pag` and `offset` are those of place `p`.
abbrev pub IsCurrent : Args → Type 0
IsCurrent a = (a.offset ≡ a.p % 4096) × (a.pag ≡ a.page (a.p / 4096)) × (a.pag ≢ 0)

-- The pages that were there before, and their bytes, are the same.
pub record AreKept (a b : Args) : Type 0 where
  pub page_same : (i : ℕ) → a.page i ≢ 0 → b.page i ≡ a.page i
  pub byte_same : (y : ℕ) → a.page (y / 4096) ≢ 0 → byte_at b y ≡ byte_at a y

page_of-map_nr : (i : ℕ) → map_nr (page_of i) ≡ i
page_of-map_nr i = omega arith

-- A page that is in use is not the one that is taken.
other_page :
    (a : Args) (i n : ℕ)
    → ArePages a
    → a.memory.mem_map n ≡ 0
    → a.page i ≢ 0
    → map_nr (a.page i) ≢ n
other_page a i n pages unused there same = pages.in_use i there (ap a.memory.mem_map same ∙ unused)

outside :
    (address o n : ℕ)
    → address ≡ page_of (map_nr address)
    → map_nr address ≢ n
    → o < 4096
    → (phys : ℕ → ℕ)
    → (if leb (page_of n) (address + o) && ltb (address + o) (page_of n + page_size)
        then 0
        else phys (address + o))
      ≡ phys (address + o)
outside address o n aligned far small phys = ground arith

-- The same, with a new page at place `i`.
taken_lem :
    (a b : Args) (i n : ℕ)
    → ArePages a
    → a.page i ≡ 0
    → Taken a.memory n
    → b.page ≡ update a.page i (page_of n)
    → b.memory ≡ (get_free_page a.memory).1
    → ArePages b × AreKept a b
taken_lem a b i n pages empty t page memory = (
  record {
    aligned = λ j there. elim (Bool-cases (i == j)) [
      | inl e ↦
          new j (ground arith)
          ∙ ap page_of (sym (page_of-map_nr n) ∙ sym (ap map_nr (new j (ground arith))))
      | inr e ↦
          old j (ground arith)
          ∙ pages.aligned j (was j (ground arith) there)
          ∙ ap (λ t. page_of (map_nr t)) (sym (old j (ground arith)))
    ];
    in_use = λ j there unused. elim (Bool-cases (i == j)) [
      | inl e ↦ ground (arith, counted (map_nr (b.page j)), new j (ground arith), page_of-map_nr n)
      | inr e ↦ pages.in_use j (was j (ground arith) there) (
          ground (
            arith,
            counted (map_nr (b.page j)),
            old j (ground arith),
            other_page a j n pages t.was_free (was j (ground arith) there),
          ))
    ];
    apart = λ j l there here other same. elim (Bool-cases (i == j)) [
      | inl e ↦ other_page a l n pages t.was_free (was l (ground arith) here) (
          ap map_nr (sym (old l (ground arith)) ∙ sym same ∙ new j (ground arith))
          ∙ page_of-map_nr n)
      | inr e ↦ elim (Bool-cases (i == l)) [
        | inl e' ↦ other_page a j n pages t.was_free (was j (ground arith) there) (
            ap map_nr (sym (old j (ground arith)) ∙ same ∙ new l (ground arith)) ∙ page_of-map_nr n)
        | inr e' ↦
            pages.apart j l (was j (ground arith) there) (was l (ground arith) here) other
              (sym (old j (ground arith)) ∙ same ∙ old l (ground arith))
      ]
    ];
  },
  record {
    page_same = λ j there. old j (λ e. there (ap a.page (sym e) ∙ empty));
    byte_same = λ y there.
        let j = y / 4096 in
        let o = y % 4096 in
        let same : b.page j ≡ a.page j = old j (λ e. there (ap a.page (sym e) ∙ empty)) in
        let far = other_page a j n pages t.was_free there in
        ap (λ m. m.phys (b.page j + o)) memory
        ∙ ap (λ t. (get_free_page a.memory).1.phys (t + o)) same
        ∙ t.zeroed (a.page j + o)
        ∙ outside (a.page j) o n (pages.aligned j there) far (omega arith) a.memory.phys;
  },
)
  where
    new : (j : ℕ) → i ≡ j → b.page j ≡ page_of n
    new j e = ap (λ f. f j) page ∙ ground arith

    old : (j : ℕ) → i ≢ j → b.page j ≡ a.page j
    old j e = ap (λ f. f j) page ∙ update-ne a.page i j (page_of n) e

    was : (j : ℕ) → i ≢ j → b.page j ≢ 0 → a.page j ≢ 0
    was j e there gone = there (old j e ∙ gone)

    counted : (j : ℕ) → b.memory.mem_map j ≡ update a.memory.mem_map n 1 j
    counted j = ap (λ m. m.mem_map j) memory ∙ ap (λ f. f j) t.counted

-- The page of place `p` is at hand.
pub record IsReady (a b : Args) : Type 0 where
  pub p_same : b.p ≡ a.p
  pub at_place : IsCurrent b
  pub pages : ArePages b
  pub kept : AreKept a b

-- No page of the machine is free.
abbrev pub IsFull : Args → Type 0
IsFull a = free_pages a.memory ≡ 0

scan-none : (m : Memory) → scan m.mem_map paging_pages ≡ none → free_pages m ≡ 0
scan-none m full = elim (Bool-cases (free_pages m == 0)) [
  | inl e ↦ ground arith
  | inr e ↦
      let (i, found) = scan_total m.mem_map paging_pages (ground arith) in
      absurd (none_some (sym full ∙ found))
]
  where
    none_some : {i : ℕ} → none ≡ some i → ⊥
    none_some e = cc

-- `need_page` finds no page, or it has the one of place `p`.
need_page-IsReady :
    (a : Args)
    → ArePages a
    → ((((need_page a).pag ≡ 0) × IsFull (need_page a)) ⊎ IsReady a (need_page a))
unfolding need_page
need_page-IsReady a pages = elim (Bool-cases (a.page (a.p / page_size) == 0)) [
  | inr there ↦ rw there (
      inr (record {
        p_same = refl;
        at_place = (refl, refl, ground arith);
        pages = record { aligned = pages.aligned; in_use = pages.in_use; apart = pages.apart };
        kept = record { page_same = λ i e. refl; byte_same = λ y e. refl };
      }))
  | inl gone ↦ elim (Option-cases (scan a.memory.mem_map paging_pages)) [
    | inl full ↦ rw gone (
        inl (
          no_free a.memory full,
          ap free_pages (same_memory a.memory full) ∙ scan-none a.memory full,
        ))
    | inr (n, e) ↦
        let t = get_free_page-some a.memory n e in
        let i = a.p / 4096 in
        let b = record a {
          page = update a.page i (get_free_page a.memory).0;
          pag = (get_free_page a.memory).0;
          offset = a.p % 4096;
          memory = (get_free_page a.memory).1;
        } in
        let (pages', kept) =
          taken_lem a b i n pages (ground arith) t (ap (update a.page i) t.address) refl in
        rw gone (
          inr (record {
            p_same = refl;
            at_place = (
              refl,
              sym (update_self a.page i (get_free_page a.memory).0),
              λ e. taken_somewhere n (sym t.address ∙ e),
            );
            pages = pages';
            kept = kept;
          }))
  ]
]
  where
    taken_somewhere : (n : ℕ) → page_of n ≢ 0
    taken_somewhere n e = omega arith

    no_free : (m : Memory) → scan m.mem_map paging_pages ≡ none → (get_free_page m).0 ≡ 0
    no_free m e = rw (get_free_page, e) refl

    same_memory : (m : Memory) → scan m.mem_map paging_pages ≡ none → (get_free_page m).1 ≡ m
    same_memory m e = rw (get_free_page, e) refl
