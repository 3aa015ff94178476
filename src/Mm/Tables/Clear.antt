-- ===== src/Mm/Tables/Clear.antt =====
-- mm/memory.c: the inner loop of free_page_tables.
use lambda_linux_kernel.Prelude.{
  ℕ, zero, suc, ◌+◌, ◌/◌, ◌≤◌, ◌<◌, ◌≡◌, ◌≢◌, refl, true, ◌||◌, Option, none, List, ltb, leb, ◌==◌,
  is_some, get_or, arith, All, ap, ◌∙◌, Bool-cases, Option-cases, ◌⊎◌, inl, inr,
}
use native.Mathlib.Decide.{ℕ_discrete}
use lambda_linux_kernel.Mm.{
  Table, Mem, ok, then_do, low_mem, is_present, page_of, map_nr, entry, put_entry, set_entry,
  has_table, free_page, swap_free, one_if,
}
use lambda_linux_kernel.Mm.Refs.{
  in_page, points, refs, IsFull, own_dirs, total_after-put_entry, put_entry-tables,
  entry-put_entry_ne, entry-put_entry_self,
}
use lambda_linux_kernel.Mm.Counted.{
  IsCounted, plus, Keeps, set_entry-IsCounted, entry-inside, free_page-Keeps, Same, Same-Kept,
}
use lambda_linux_kernel.Mm.Swapping.{then_do-Keeps, Keeps-imp}
use lambda_linux_kernel.Mm.Tables.{free_entry, free_entries}
use lambda_linux_kernel.Mm.Tables.Links.{free_page-before}

-- The entries of a table up to `i` are clear; the tables are where they were.
pub record Cleared (others : ℕ → ℕ) (d i : ℕ) (m m' : Mem) : Type 0 where
  pub counted : IsCounted others m'
  pub clear : (j : ℕ) → j < i → entry m'.dir d j ≡ 0
  pub rest : (e j : ℕ) → (d ≢ e) ⊎ (i ≤ j) → entry m'.dir e j ≡ entry m.dir e j
  pub tables : (e : ℕ) → has_table m' e ≡ has_table m e

put-zero_le :
    (ts : List (Option Table)) (d i n : ℕ)
    → own_dirs ≤ d
    → All IsFull ts
    → is_some (get_or ts d none) ≡ true
    → i < 1024
    → refs (put_entry ts d i 0) n ≤ refs ts n
put-zero_le ts d i n own full there lt = omega (
  arith,
  total_after-put_entry own_dirs (λ a. one_if (in_page n a)) (points n) ts d i 0 own full there lt,
)

-- The state after an entry is cleared.
clear_entry :
    (others : ℕ → ℕ) (m m' : Mem) (d i : ℕ)
    → has_table m d ≡ true
    → i < 1024
    → All IsFull m.dir
    → IsCounted others m'
    → m'.dir ≡ put_entry m.dir d i 0
    → ((j : ℕ) → j < i → entry m.dir d j ≡ 0)
    → Cleared others d (i + 1) m m'
clear_entry others m m' d i there lt full v same before = record {
  counted = v;
  clear = λ j lt_j. ap (λ ts. entry ts d j) same ∙ elim (ℕ_discrete i j) [
    | yes e ↦ rw (← e) (entry-put_entry_self m.dir d i 0 full there lt)
    | no ne ↦ entry-put_entry_ne m.dir d i 0 d j (inr ne) ∙ before j (omega arith)
  ];
  rest = λ e j out.
      ap (λ ts. entry ts e j) same
      ∙ entry-put_entry_ne m.dir d i 0 e j
          (elim out [ inl ne ↦ inl ne | inr le ↦ inr (λ q. omega arith) ]);
  tables = λ e. ap (λ ts. is_some (get_or ts e none)) same ∙ put_entry-tables m.dir d i 0 e;
}

swap_free-Same : (nr : ℕ) (m : Mem) → Same m (swap_free nr m)
unfolding swap_free
swap_free-Same nr m = elim (Option-cases m.swap) [
  | inl e ↦ rw (e, swap_free) (refl, refl, refl, λ h. h)
  | inr (bits, e) ↦
      rw (e, swap_free)
        (elim (Bool-cases (nr == 0 || leb 32768 nr)) [
          | inl z ↦ rw z (refl, refl, refl, λ h. h)
          | inr nz ↦ rw nz (refl, refl, refl, λ h. h)
        ])
]

module _ (others : ℕ → ℕ) (m : Mem) (d i : ℕ) (own : own_dirs ≤ d) (v : IsCounted others m)
    (there : has_table m d ≡ true) (lt : i < 1024)
    (before : (j : ℕ) → j < i → entry m.dir d j ≡ 0) where
  abbrev w : ℕ
  w = entry m.dir d i

  free_entry-present :
      is_present w ≡ true
      → Keeps others
          (λ _. Cleared others d (i + 1) m)
          (then_do (free_page (page_of w) m) (λ _ m'. ok tt (set_entry d i 0 m')))
  unfolding free_page
  free_entry-present p =
      free_page-before others m (page_of w) (λ ts. put_entry ts d i 0) _
        (λ n. put-zero_le m.dir d i n own v.full there lt)
        (elim (Bool-cases (ltb (page_of w) low_mem)) [
          | inl low ↦
              let v' =
                set_entry-IsCounted others others m d i 0 own v there lt refl
                  (λ n lt_n. ground arith) in
              rw (low, free_page)
                (clear_entry others m (set_entry d i 0 m) d i there lt v.full v' refl before)
          | inr high ↦
              let n = map_nr (page_of w) in
              let held =
                set_entry-IsCounted others (plus n others) m d i 0 own v there lt refl
                  (λ k lt_k. ground arith) in
              Keeps-imp others _ (λ _. Cleared others d (i + 1) m)
                (free_page (page_of w) (set_entry d i 0 m))
                (free_page-Keeps others (set_entry d i 0 m) (page_of w) n held (ground arith) refl
                  (entry-inside others m d i own v p))
                (λ _ m' (kept, same, _).
                  clear_entry others m m' d i there lt v.full kept.counted same before)
        ])

  free_entry-Keeps : Keeps others (λ _. Cleared others d (i + 1) m) (free_entry d i m)
  unfolding free_entry
  free_entry-Keeps = elim (Bool-cases (w == 0)) [
    | inl z ↦ rw z (record {
      counted = v;
      clear = λ j lt_j. elim (ℕ_discrete j i) [
        | yes e ↦ rw e (ground arith)
        | no ne ↦ before j (omega arith)
      ];
      rest = λ e j out. refl;
      tables = λ e. refl;
    })
    | inr nz ↦ elim (Bool-cases (is_present w)) [
      | inl p ↦ rw (nz, p) (free_entry-present p)
      | inr absent ↦
          let same = swap_free-Same (w / 2) m in
          let m' = swap_free (w / 2) m in
          let v' = (Same-Kept others m m' same v).counted in
          let there' : has_table m' d ≡ true =
            ap (λ ts. is_some (get_or ts d none)) same.0 ∙ there in
          let at : entry m'.dir d i ≡ w = ap (λ ts. entry ts d i) same.0 in
          let v'' =
            set_entry-IsCounted others others m' d i 0 own v' there' lt refl
              (λ n lt_n. rw at (ground arith)) in
          rw (nz, absent)
            (clear_entry others m (set_entry d i 0 m') d i there lt v.full v''
              (ap (λ ts. put_entry ts d i 0) same.0) before)
    ]
  ]

pub free_entries-Keeps :
    (others : ℕ → ℕ) (rounds : ℕ) (m : Mem) (d i : ℕ)
    → own_dirs ≤ d
    → IsCounted others m
    → has_table m d ≡ true
    → rounds + i ≡ 1024
    → ((j : ℕ) → j < i → entry m.dir d j ≡ 0)
    → Keeps others (λ _. Cleared others d 1024 m) (free_entries rounds d i m)
unfolding free_entries
free_entries-Keeps others zero m d i own v there e before = record {
  counted = v;
  clear = λ j lt. before j (omega arith);
  rest = λ k j out. refl;
  tables = λ k. refl;
}
free_entries-Keeps others (suc rounds) m d i own v there e before =
    then_do-Keeps others _ (λ _. Cleared others d 1024 m) (free_entry d i m) _
      (free_entry-Keeps others m d i own v there (omega arith) before)
      (λ _ m' c.
        Keeps-imp others _ (λ _. Cleared others d 1024 m) (free_entries rounds d (i + 1) m')
          (free_entries-Keeps others rounds m' d (i + 1) own c.counted (c.tables d ∙ there)
            (omega arith) c.clear)
          (λ _ m'' c'. record {
            counted = c'.counted;
            clear = c'.clear;
            rest = λ k j out.
                c'.rest k j out
                ∙ c.rest k j (elim out [ inl ne ↦ inl ne | inr le ↦ inr (omega arith) ]);
            tables = λ k. c'.tables k ∙ c.tables k;
          }))
