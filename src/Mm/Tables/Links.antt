-- ===== src/Mm/Tables/Links.antt =====
-- mm/memory.c: tables and references made and dropped.
use lambda_linux_kernel.Prelude.{
  ℕ, zero, suc, ◌+◌, ◌*◌, ◌%◌, ◌≤◌, ◌<◌, ◌≡◌, ◌≢◌, refl, false, ◌&&◌, Option, none, some, List, [],
  ◌∷◌, ltb, leb, ◌==◌, get_or, set, length, length-set, replicate, length-replicate, arith, All, ap,
  ◌∙◌, Bool-cases, inl, inr,
}
use lambda_linux_kernel.Mm.{
  Table, Mem, ok, then_do, low_mem, paging_pages, is_present, page_of, map_nr, count_of, entry,
  has_table, free_page, sum_of, total, one_if,
}
use lambda_linux_kernel.Mm.Refs.{in_page, points, refs, total_after, own_dirs, IsFull}
use lambda_linux_kernel.Mm.Counted.{IsBooted, IsCounted, plus, IsLost, Keeps, count-set_count}
use lambda_linux_kernel.Mm.Tables.{set_table, fresh, count_up}

-- A directory entry rewritten.
total-set_table :
    (tw ew : ℕ → ℕ) (ts : List (Option Table)) (d : ℕ) (t : Table)
    → get_or ts d none ≡ none
    → d < length ts
    → total tw ew (set ts d (some t)) ≡ total tw ew ts + (tw t.address + sum_of ew t.entries)
total-set_table tw ew [] d t e lt = absurd (omega arith)
total-set_table tw ew (none ∷ ts) zero t e lt = omega arith
total-set_table tw ew (some u ∷ ts) zero t e lt = cc
total-set_table tw ew (none ∷ ts) (suc d) t e lt = total-set_table tw ew ts d t e (omega arith)
total-set_table tw ew (some u ∷ ts) (suc d) t e lt =
    omega (arith, total-set_table tw ew ts d t e (omega arith))

total_after-set_table :
    (k : ℕ) (tw ew : ℕ → ℕ) (ts : List (Option Table)) (d : ℕ) (t : Table)
    → k ≤ d
    → get_or ts d none ≡ none
    → d < length ts
    → total_after k tw ew (set ts d (some t))
      ≡ total_after k tw ew ts + (tw t.address + sum_of ew t.entries)
unfolding total_after
total_after-set_table zero tw ew ts d t le e lt = total-set_table tw ew ts d t e lt
total_after-set_table (suc k) tw ew [] d t le e lt = absurd (omega arith)
total_after-set_table (suc k) tw ew (u ∷ ts) zero t le e lt = absurd (omega arith)
total_after-set_table (suc k) tw ew (u ∷ ts) (suc d) t le e lt =
    total_after-set_table k tw ew ts d t (omega arith) e (omega arith)

-- The directory entries other than the one rewritten.
pub entry-set_ne :
    (ts : List (Option Table)) (d e j : ℕ) (t : Option Table)
    → d ≢ e
    → entry (set ts d t) e j ≡ entry ts e j
unfolding entry
entry-set_ne [] d e j t ne = refl
entry-set_ne (u ∷ ts) zero zero j t ne = absurd (ne refl)
entry-set_ne (none ∷ ts) zero (suc e) j none ne = refl
entry-set_ne (none ∷ ts) zero (suc e) j (some t) ne = refl
entry-set_ne (some u ∷ ts) zero (suc e) j none ne = refl
entry-set_ne (some u ∷ ts) zero (suc e) j (some t) ne = refl
entry-set_ne (none ∷ ts) (suc d) zero j t ne = refl
entry-set_ne (some u ∷ ts) (suc d) zero j t ne = refl
entry-set_ne (none ∷ ts) (suc d) (suc e) j t ne = entry-set_ne ts d e j t (λ q. ne (ap suc q))
entry-set_ne (some u ∷ ts) (suc d) (suc e) j t ne = entry-set_ne ts d e j t (λ q. ne (ap suc q))

set-IsBooted :
    (high dir_entry : ℕ) (ts : List (Option Table)) (d : ℕ) (t : Option Table)
    → own_dirs ≤ d
    → IsBooted high dir_entry ts
    → IsBooted high dir_entry (set ts d t)
set-IsBooted high dir_entry ts d t own b = record {
  low_in = b.low_in;
  sweep = b.sweep;
  low_pages = λ i lt. rw (entry-set_ne ts d 0 i t (λ q. omega arith)) (b.low_pages i lt);
}

pub sum_of-replicate : (f : ℕ → ℕ) (n : ℕ) → f 0 ≡ 0 → sum_of f (replicate n 0) ≡ 0
sum_of-replicate f zero z = refl
sum_of-replicate f (suc n) z = omega (arith, sum_of-replicate f n z)

set-IsFull :
    (ts : List (Option Table)) (d : ℕ) (t : Option Table)
    → IsFull t
    → All IsFull ts
    → All IsFull (set ts d t)
set-IsFull [] d t f full = full
set-IsFull (u ∷ ts) zero t f (_, full) = (f, full)
set-IsFull (u ∷ ts) (suc d) t f (g, full) = (g, set-IsFull ts d t f full)

-- A page that is held becomes a table.
pub install-IsCounted :
    (others : ℕ → ℕ) (m : Mem) (n d : ℕ)
    → own_dirs ≤ d
    → IsCounted (plus n others) m
    → low_mem + n * 4096 < m.high
    → has_table m d ≡ false
    → d < 1024
    → IsCounted others (set_table d (some (fresh (low_mem + n * 4096))) m)
install-IsCounted others m n d own v below absent lt =
    let none_there : get_or m.dir d none ≡ none = ground arith in
    let fits : d < length m.dir = omega (arith, v.dirs) in
    let t = fresh (low_mem + n * 4096) in
    record {
      size = v.size;
      counts = λ k lt_k. ground (
        arith,
        v.counts k lt_k,
        total_after-set_table own_dirs (λ a. one_if (in_page k a)) (points k) m.dir d t own
            none_there fits,
        sum_of-replicate (points k) 1024 refl,
      );
      inside = ground (
        arith,
        v.inside,
        total_after-set_table own_dirs (λ a. one_if (leb m.high a))
            (λ w. one_if (is_present w && leb m.high (page_of w))) m.dir d t own none_there fits,
        sum_of-replicate (λ w. one_if (is_present w && leb m.high (page_of w))) 1024 refl,
      );
      high_in = v.high_in;
      above = v.above;
      dirs = length-set m.dir d (some t) ∙ v.dirs;
      full = set-IsFull m.dir d (some t) (length-replicate {A = ℕ} 1024 0) v.full;
      booted = set-IsBooted m.high m.dir_entry m.dir d (some t) own v.booted;
    }

pub count_up-IsCounted :
    (others : ℕ → ℕ) (m : Mem) (n : ℕ)
    → IsCounted others m
    → n < paging_pages
    → low_mem + n * 4096 < m.high
    → IsCounted (plus n others) (count_up n m)
count_up-IsCounted others m n v lt below = record {
  size = length-set m.mem_map n _ ∙ v.size;
  counts = λ k lt_k.
      ground (arith, count-set_count m n ((count_of m n + 1) % 256) k, v.size, v.counts k lt_k);
  inside = v.inside;
  high_in = v.high_in;
  above = λ k lt_k up e.
      ground (arith, count-set_count m n ((count_of m n + 1) % 256) k, v.size, v.above k lt_k up);
  dirs = v.dirs;
  full = v.full;
  booted = v.booted;
}

-- Freeing a page and then writing the directory is as good as the other order, if the write drops
-- references.
pub free_page-before :
    (others : ℕ → ℕ) (m : Mem) (addr : ℕ) (f : List (Option Table) → List (Option Table))
    (P : Unit {0} → Mem → Type 0)
    → ((n : ℕ) → refs (f m.dir) n ≤ refs m.dir n)
    → Keeps others P (free_page addr (record m { dir = f m.dir }))
    → Keeps others P (then_do (free_page addr m) (λ _ m'. ok tt (record m' { dir = f m'.dir })))
unfolding free_page
free_page-before others m addr f P less h = elim (Bool-cases (ltb addr low_mem)) [
  | inl low ↦ rw low (rw low at h)
  | inr high ↦ elim (Bool-cases (leb m.high addr)) [
    | inl out ↦ rw (high, out) (rw (high, out) at h)
    | inr within ↦ elim (Bool-cases (count_of m (map_nr addr) == 0)) [
      | inl z ↦
          let (n, lost) : IsLost others (record m { dir = f m.dir }) =
            rw (high, within) at (rw z at h) in
          rw (high, within) (rw z (n, omega (arith, less n)))
      | inr nz ↦ rw (high, within) (rw nz (rw (high, within) at (rw nz at h)))
    ]
  ]
]

total-drop :
    (tw ew : ℕ → ℕ) (ts : List (Option Table)) (d : ℕ) (t : Table)
    → get_or ts d none ≡ some t
    → total tw ew (set ts d none) + (tw t.address + sum_of ew t.entries) ≡ total tw ew ts
total-drop tw ew [] d t e = cc
total-drop tw ew (none ∷ ts) zero t e = cc
total-drop tw ew (some u ∷ ts) zero t e = let same : u ≡ t = cc in rw same (omega arith)
total-drop tw ew (none ∷ ts) (suc d) t e = total-drop tw ew ts d t e
total-drop tw ew (some u ∷ ts) (suc d) t e = omega (arith, total-drop tw ew ts d t e)

pub total_after-drop :
    (k : ℕ) (tw ew : ℕ → ℕ) (ts : List (Option Table)) (d : ℕ) (t : Table)
    → k ≤ d
    → get_or ts d none ≡ some t
    → total_after k tw ew (set ts d none) + (tw t.address + sum_of ew t.entries)
      ≡ total_after k tw ew ts
unfolding total_after
total_after-drop zero tw ew ts d t le e = total-drop tw ew ts d t e
total_after-drop (suc k) tw ew [] d t le e = cc
total_after-drop (suc k) tw ew (u ∷ ts) zero t le e = absurd (omega arith)
total_after-drop (suc k) tw ew (u ∷ ts) (suc d) t le e =
    total_after-drop k tw ew ts d t (omega arith) e

-- A table with no entries left adds nothing.
pub sum_of-zeros :
    (f : ℕ → ℕ) (ws : List ℕ)
    → f 0 ≡ 0
    → ((i : ℕ) → i < length ws → get_or ws i 0 ≡ 0)
    → sum_of f ws ≡ 0
sum_of-zeros f [] z h = refl
sum_of-zeros f (w ∷ ws) z h =
    let first : w ≡ 0 = h 0 (omega arith) in
    rw first (omega (arith, sum_of-zeros f ws z (λ i lt. h (suc i) (omega arith))))

-- Dropping an empty table leaves its page held.
pub drop-IsCounted :
    (others others' : ℕ → ℕ) (m : Mem) (d : ℕ) (t : Table)
    → own_dirs ≤ d
    → IsCounted others m
    → get_or m.dir d none ≡ some t
    → ((i : ℕ) → i < length t.entries → get_or t.entries i 0 ≡ 0)
    → ((n : ℕ) → n < paging_pages → others' n ≡ one_if (in_page n t.address) + others n)
    → IsCounted others' (set_table d none m)
drop-IsCounted others others' m d t own v e empty same = record {
  size = v.size;
  counts = λ k lt_k. ground (
    arith,
    v.counts k lt_k,
    same k lt_k,
    total_after-drop own_dirs (λ a. one_if (in_page k a)) (points k) m.dir d t own e,
    sum_of-zeros (points k) t.entries refl empty,
  );
  inside = ground (
    arith,
    v.inside,
    total_after-drop own_dirs (λ a. one_if (leb m.high a))
        (λ w. one_if (is_present w && leb m.high (page_of w))) m.dir d t own e,
  );
  high_in = v.high_in;
  above = v.above;
  dirs = length-set m.dir d none ∙ v.dirs;
  full = set-IsFull m.dir d none tt v.full;
  booted = set-IsBooted m.high m.dir_entry m.dir d none own v.booted;
}
