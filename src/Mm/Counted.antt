-- ===== src/Mm/Counted.antt =====
-- mm/memory.c: the invariant of the page counts, and what a write to an entry and free_page do to it.
use lambda_linux_kernel.Prelude.{
  ℕ, ◌+◌, ◌-◌, ◌*◌, ◌%◌, ◌≤◌, ◌<◌, ◌≡◌, ◌≢◌, refl, true, false, ◌&&◌, Option, none, List, ltb, leb,
  ◌==◌, if◌then◌else◌, is_some, get_or, set, length, length-set, get_or-set_self, get_or-set_ne,
  arith, All, ap, ◌∙◌, Bool-cases, inl, inr,
}
use native.Mathlib.Decide.{ℕ_discrete}
use lambda_linux_kernel.Mm.{
  Table, Mem, Result, ok, dies, panics, rejects, low_mem, paging_memory, paging_pages, is_present,
  page_of, map_nr, count_of, set_count, entry, set_entry, has_table, free_page, one_if, zeros,
  first_dir,
}
use lambda_linux_kernel.Mm.Refs.{
  in_page, points, refs, strays, own_dirs, IsFull, total_after-put_entry, total_after-ge,
  put_entry-IsFull, length-put_entry, put_entry-tables, entry-put_entry_ne, sum_of-set,
}

-- What is so from the start: there is 1 MB at least, swap_out is at the directory entries of
-- processes, and the table that fork of task 0 copies has its 160 pages below 1 MB.
pub record IsBooted (high dir_entry : ℕ) (dir : List (Option Table)) : Type 0 where
  pub low_in : low_mem ≤ high
  pub sweep : first_dir ≤ dir_entry
  pub low_pages :
      (i : ℕ) → i < 160 → (is_present (entry dir 0 i) ≡ true) × (entry dir 0 i < low_mem)

-- Each page is counted for the references of the directory, the first four entries left out;
-- `others n` references to page `n` are held elsewhere. A count is a byte.
pub record IsCounted (others : ℕ → ℕ) (m : Mem) : Type 0 where
  pub size : length m.mem_map ≡ paging_pages
  pub counts : (n : ℕ) → n < paging_pages → count_of m n ≡ (refs m.dir n + others n) % 256
  pub inside : strays m.high m.dir ≡ 0
  pub high_in : m.high ≤ low_mem + paging_memory
  -- no page past the end of memory is free
  pub above : (n : ℕ) → n < paging_pages → m.high ≤ low_mem + n * 4096 → count_of m n ≢ 0
  pub dirs : length m.dir ≡ 1024
  pub full : All IsFull m.dir
  pub booted : IsBooted m.high m.dir_entry m.dir

-- One more reference to page `n`.
abbrev pub plus : ℕ → (ℕ → ℕ) → ℕ → ℕ
plus n others k = others k + one_if (n == k)

-- Some page has more references than a byte counts, with the one that is being dropped.
abbrev pub IsLost : (ℕ → ℕ) → Mem → Type 0
IsLost others m = (n : ℕ) × (255 ≤ refs m.dir n + others n)

-- The same directory entries have tables.
pub record Kept (others : ℕ → ℕ) (m m' : Mem) : Type 0 where
  pub counted : IsCounted others m'
  pub tables : (d : ℕ) → has_table m' d ≡ has_table m d
  -- and entries that are not present stay as they are
  pub absent : (d i : ℕ) → is_present (entry m.dir d i) ≡ false → entry m'.dir d i ≡ entry m.dir d i
  pub same_high : m'.high ≡ m.high

-- A call returns with `P`, or panics over a page with too many references.
abbrev pub Keeps : {A : Type 0} → (ℕ → ℕ) → (A → Mem → Type 0) → Result A → Type 0
Keeps others P (ok a m) = P a m
Keeps others P (dies m) = ⊥
Keeps others P (panics m) = IsLost others m
Keeps others P rejects = ⊥

pub count-set_count :
    (m : Mem) (n c k : ℕ)
    → n < length m.mem_map
    → count_of (set_count n c m) k ≡ (if n == k then c else count_of m k)
count-set_count m n c k lt = elim (ℕ_discrete n k) [
  | yes e ↦
      let hit : (n == k) ≡ true = ground arith in
      rw (← e) (rw (get_or-set_self m.mem_map n c 0 lt) (ground arith))
  | no ne ↦ rw (get_or-set_ne m.mem_map c 0 ne) (ground arith)
]

-- An entry rewritten, with counts that fit the references after it.
pub set_entry-IsCounted :
    (others others' : ℕ → ℕ) (m : Mem) (d i w : ℕ)
    → own_dirs ≤ d
    → IsCounted others m
    → has_table m d ≡ true
    → i < 1024
    → (is_present w && leb m.high (page_of w)) ≡ false
    → ((n : ℕ) → n < paging_pages → points n w + others' n ≡ points n (entry m.dir d i) + others n)
    → IsCounted others' (set_entry d i w m)
set_entry-IsCounted others others' m d i w own v there lt fits same = record {
  size = v.size;
  counts = λ n lt_n. omega (
    arith,
    v.counts n lt_n,
    same n lt_n,
    total_after-put_entry own_dirs (λ a. one_if (in_page n a)) (points n) m.dir d i w own v.full
        there lt,
  );
  inside =
      let none_in : one_if (is_present w && leb m.high (page_of w)) ≡ 0 = rw fits refl in
      omega (
        arith,
        v.inside,
        total_after-put_entry own_dirs (λ a. one_if (leb m.high a))
            (λ x. one_if (is_present x && leb m.high (page_of x))) m.dir d i w own v.full there lt,
      );
  high_in = v.high_in;
  above = v.above;
  dirs = length-put_entry m.dir d i w ∙ v.dirs;
  full = put_entry-IsFull m.dir d i w v.full;
  booted = record {
    low_in = v.booted.low_in;
    sweep = v.booted.sweep;
    low_pages = λ j lt_j.
        rw (entry-put_entry_ne m.dir d i w 0 j (inl (λ q. omega arith)))
          (v.booted.low_pages j lt_j);
  };
}

pub set_entry-Kept :
    (others : ℕ → ℕ) (m : Mem) (d i w : ℕ)
    → is_present (entry m.dir d i) ≡ true
    → IsCounted others (set_entry d i w m)
    → Kept others m (set_entry d i w m)
set_entry-Kept others m d i w p v = record {
  counted = v;
  tables = put_entry-tables m.dir d i w;
  absent = λ e j a. entry-put_entry_ne m.dir d i w e j (elim (ℕ_discrete d e) [
    | no ne ↦ inl ne
    | yes same ↦ elim (ℕ_discrete i j) [
      | no ne ↦ inr ne
      | yes same' ↦
          let p' : is_present (entry m.dir e j) ≡ true = rw (same, same') at p in absurd (cc)
    ]
  ]);
  same_high = refl;
}

pub Kept-trans :
    (others others' : ℕ → ℕ) (m m' m'' : Mem)
    → Kept others m m'
    → Kept others' m' m''
    → Kept others' m m''
Kept-trans others others' m m' m'' k k' = record {
  counted = k'.counted;
  tables = λ d. k'.tables d ∙ k.tables d;
  absent = λ d i a.
      let first = k.absent d i a in
      let still : is_present (entry m'.dir d i) ≡ false = rw first a in k'.absent d i still ∙ first;
  same_high = k'.same_high ∙ k.same_high;
}

-- A present entry leads to a page below the end of memory.
pub entry-inside :
    (others : ℕ → ℕ) (m : Mem) (d i : ℕ)
    → own_dirs ≤ d
    → IsCounted others m
    → is_present (entry m.dir d i) ≡ true
    → page_of (entry m.dir d i) < m.high
entry-inside others m d i own v p =
    let some_stray =
      total_after-ge own_dirs (λ a. one_if (leb m.high a))
        (λ x. one_if (is_present x && leb m.high (page_of x))) m.dir d i own refl in
    let none_stray = v.inside in ground arith

zeros-set : (cs : List ℕ) (n c : ℕ) → n < length cs → zeros (set cs n c) ≤ zeros cs + 1
zeros-set cs n c lt = ground (arith, sum_of-set (λ c. one_if (c == 0)) cs n c lt)

-- Nothing that the invariant speaks of differs.
abbrev pub Same : Mem → Mem → Type 0
Same m m' =
    (m'.dir ≡ m.dir)
    × (m'.mem_map ≡ m.mem_map)
    × (m'.high ≡ m.high)
    × (first_dir ≤ m.dir_entry → first_dir ≤ m'.dir_entry)

pub Same-Kept : (others : ℕ → ℕ) (m m' : Mem) → Same m m' → IsCounted others m → Kept others m m'
Same-Kept others m m' (dir, map, high, on) v = record {
  counted = record {
    size = ap length map ∙ v.size;
    counts = λ n lt. rw (dir, map) (v.counts n lt);
    inside = rw (dir, high) v.inside;
    high_in = rw high v.high_in;
    above = λ n lt up. rw map (v.above n lt (rw high at up));
    dirs = ap length dir ∙ v.dirs;
    full = rw dir v.full;
    booted = record {
      low_in = rw high v.booted.low_in;
      sweep = on v.booted.sweep;
      low_pages = rw dir v.booted.low_pages;
    };
  };
  tables = λ d. ap (λ ts. is_some (get_or ts d none)) dir;
  absent = λ d i a. ap (λ ts. entry ts d i) dir;
  same_high = high;
}

-- Freeing a page that is held: the reference is dropped.
pub free_page-Keeps :
    (others : ℕ → ℕ) (m : Mem) (addr n : ℕ)
    → IsCounted (plus n others) m
    → low_mem ≤ addr
    → map_nr addr ≡ n
    → addr < m.high
    → Keeps others
        (λ _ m'. Kept others m m' × (m'.dir ≡ m.dir) × (zeros m'.mem_map ≤ zeros m.mem_map + 1))
        (free_page addr m)
unfolding free_page
free_page-Keeps others m addr n v lo at hi =
    let is_high : ltb addr low_mem ≡ false = ground arith in
    let is_inside : leb m.high addr ≡ false = ground arith in
    let hi' = v.high_in in
    let lt : n < paging_pages = omega (arith, at) in
    let counted = v.counts n lt in
    rw (is_high, is_inside)
      (rw at (elim (Bool-cases (count_of m n == 0)) [
        | inl z ↦ rw z (n, ground arith)
        | inr nz ↦ rw nz (
          record {
            counted = record {
              size = length-set m.mem_map n _ ∙ v.size;
              counts = λ k lt_k.
                  ground (arith, count-set_count m n (count_of m n - 1) k, v.size, v.counts k lt_k);
              inside = v.inside;
              high_in = v.high_in;
              above = λ k lt_k up. λ e.
                  ground
                    (arith, count-set_count m n (count_of m n - 1) k, v.size, v.above k lt_k up);
              dirs = v.dirs;
              full = v.full;
              booted = v.booted;
            };
            tables = λ d. refl;
            absent = λ d i a. refl;
            same_high = refl;
          },
          refl,
          zeros-set m.mem_map n (count_of m n - 1) (omega (arith, v.size)),
        )
      ]))
