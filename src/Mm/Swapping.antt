-- ===== src/Mm/Swapping.antt =====
-- mm/swap.c: `swap_out` and the page counts.
use lambda_linux_kernel.Prelude.{
  ℕ, zero, suc, ◌+◌, ◌-◌, ◌*◌, ◌≤◌, ◌≡◌, refl, Bool, true, false, not, ◌||◌, none, ltb, leb, ◌==◌,
  if◌then◌else◌, is_some, get_or, arith, ap, ◌∙◌, Bool-cases, Option-cases, inl, inr,
}
use lambda_linux_kernel.Mm.{
  Mem, Result, ok, dies, panics, rejects, M, then_do, low_mem, paging_memory, is_present, is_dirty,
  page_of, map_nr, count_of, entry, set_entry, has_table, free_page, total, one_if, presents, zeros,
  find_swap, get_swap_page, swap_dirty, try_to_swap_out, find_table, next_table, advance, scan,
  swap_out, vm_pages, next_dir,
}
use lambda_linux_kernel.Mm.Refs.{own_dirs, total-put_entry, entry_there}
use lambda_linux_kernel.Mm.Counted.{
  IsCounted, plus, Kept, Keeps, set_entry-IsCounted, set_entry-Kept, Kept-trans, entry-inside,
  free_page-Keeps, Same, Same-Kept,
}

-- One entry less if a page is swapped out, and at most one page more is free.
pub record Swapped (others : ℕ → ℕ) (m : Mem) (done : Bool) (m' : Mem) : Type 0 where
  pub kept : Kept others m m'
  pub fewer : presents m' + one_if done ≡ presents m
  pub freed : zeros m'.mem_map ≤ zeros m.mem_map + one_if done

-- What follows a call.
pub then_do-Keeps :
    {A B : Type 0} (others : ℕ → ℕ) (P : A → Mem → Type 0) (Q : B → Mem → Type 0) (r : Result A)
    (k : A → M B)
    → Keeps others P r
    → ((a : A) (m : Mem) → P a m → Keeps others Q (k a m))
    → Keeps others Q (then_do r k)
then_do-Keeps others P Q (ok a m) k h keep = keep a m h
then_do-Keeps others P Q (dies m) k h keep = h
then_do-Keeps others P Q (panics m) k h keep = h
then_do-Keeps others P Q rejects k h keep = h

-- What follows a call, with the call that it follows.
pub then_do-returns :
    {A B : Type 0} (others : ℕ → ℕ) (P : A → Mem → Type 0) (Q : B → Mem → Type 0) (r : Result A)
    (k : A → M B)
    → Keeps others P r
    → ((a : A) (m : Mem) → r ≡ ok a m → P a m → Keeps others Q (k a m))
    → Keeps others Q (then_do r k)
then_do-returns others P Q (ok a m) k h keep = keep a m refl h
then_do-returns others P Q (dies m) k h keep = h
then_do-returns others P Q (panics m) k h keep = h
then_do-returns others P Q rejects k h keep = h

get_swap_page-Same : (m : Mem) → Same m (get_swap_page m).1
unfolding get_swap_page
get_swap_page-Same m = elim (Option-cases m.swap) [
  | inl e ↦ rw (e, get_swap_page) (refl, refl, refl, λ h. h)
  | inr (bits, e) ↦
      rw (e, get_swap_page)
        (elim (Bool-cases (find_swap 32767 bits 1 == 0)) [
          | inl z ↦ rw z (refl, refl, refl, λ h. h)
          | inr nz ↦ rw nz (refl, refl, refl, λ h. h)
        ])
]

-- An entry that leads to a page in memory is replaced by one that is not present, and the page freed.
unlink-Keeps :
    (others : ℕ → ℕ) (m : Mem) (d i w : ℕ)
    → own_dirs ≤ d
    → IsCounted others m
    → is_present (entry m.dir d i) ≡ true
    → low_mem ≤ entry m.dir d i
    → is_present w ≡ false
    → Keeps others
        (Swapped others m)
        (then_do (free_page (page_of (entry m.dir d i)) (set_entry d i w m)) (λ _. ok true))
unlink-Keeps others m d i w own v p lo gone =
    let (there, lt) = entry_there m.dir d i v.full p in
    let old = entry m.dir d i in
    let n = map_nr (page_of old) in
    let held : IsCounted (plus n others) (set_entry d i w m) =
      set_entry-IsCounted others (plus n others) m d i w own v there lt (ground arith)
        (λ k lt_k. ground arith) in
    let cleared = set_entry-Kept (plus n others) m d i w p held in
    let one_less =
      total-put_entry (λ a. 0) (λ x. one_if (is_present x)) m.dir d i w v.full there lt in
    then_do-Keeps others _ (Swapped others m) (free_page (page_of old) (set_entry d i w m))
      (λ _. ok true)
      (free_page-Keeps others (set_entry d i w m) (page_of old) n held (omega arith) refl
        (entry-inside others m d i own v p))
      (λ _ m' (kept, dir, free). record {
        kept = record {
          counted = kept.counted;
          tables = λ e. kept.tables e ∙ cleared.tables e;
          absent = λ e j a. ap (λ ts. entry ts e j) dir ∙ cleared.absent e j a;
          same_high = kept.same_high;
        };
        fewer = let same = ap (total (λ a. 0) (λ x. one_if (is_present x))) dir in ground arith;
        freed = free;
      })

pub nothing-Swapped : (others : ℕ → ℕ) (m : Mem) → IsCounted others m → Swapped others m false m
nothing-Swapped others m v = record {
  kept = Same-Kept others m m (refl, refl, refl, λ h. h) v;
  fewer = omega arith;
  freed = omega arith;
}

pub Keeps-imp :
    {A : Type 0} (others : ℕ → ℕ) (P Q : A → Mem → Type 0) (r : Result A)
    → Keeps others P r
    → ((a : A) (m : Mem) → P a m → Q a m)
    → Keeps others Q r
Keeps-imp others P Q (ok a m) h imp = imp a m h
Keeps-imp others P Q (dies m) h imp = h
Keeps-imp others P Q (panics m) h imp = h
Keeps-imp others P Q rejects h imp = h

-- A step that changes nothing of importance, and then one that swaps.
pub Swapped-after :
    (others : ℕ → ℕ) (m m' m'' : Mem) (done : Bool)
    → Same m m'
    → Swapped others m' done m''
    → Swapped others m done m''
Swapped-after others m m' m'' done (dir, map, high, on) s = record {
  kept = record {
    counted = s.kept.counted;
    tables = λ d. s.kept.tables d ∙ ap (λ ts. is_some (get_or ts d none)) dir;
    absent = λ d i a.
        let old : entry m'.dir d i ≡ entry m.dir d i = ap (λ ts. entry ts d i) dir in
        s.kept.absent d i (rw old a) ∙ old;
    same_high = s.kept.same_high ∙ high;
  };
  fewer = s.fewer ∙ ap (total (λ a. 0) (λ x. one_if (is_present x))) dir;
  freed = let same = ap zeros map in omega (arith, s.freed);
}

swap_to-Keeps :
    (others : ℕ → ℕ) (m m' : Mem) (d i nr : ℕ)
    → own_dirs ≤ d
    → IsCounted others m
    → Same m m'
    → is_present (entry m.dir d i) ≡ true
    → low_mem ≤ entry m.dir d i
    → Keeps others (Swapped others m) (
        if nr == 0
        then ok false m'
        else then_do
            (free_page (page_of (entry m.dir d i)) (set_entry d i (nr * 2) m'))
            (λ _. ok true))
swap_to-Keeps others m m' d i nr own v same p lo =
    let v' = (Same-Kept others m m' same v).counted in
    let there : entry m'.dir d i ≡ entry m.dir d i = ap (λ ts. entry ts d i) same.0 in
    elim (Bool-cases (nr == 0)) [
      | inl z ↦ rw z (Swapped-after others m m' m' false same (nothing-Swapped others m' v'))
      | inr nz ↦
          let out : Keeps others (Swapped others m') (
              then_do (free_page (page_of (entry m'.dir d i)) (set_entry d i (nr * 2) m'))
                (λ _. ok true)) =
            unlink-Keeps others m' d i (nr * 2) own v' (rw there p) (rw there lo) (ground arith) in
          let out' = rw there at out in
          rw nz (
            Keeps-imp others (Swapped others m') (Swapped others m) _ out'
              (λ b m''. Swapped-after others m m' m'' b same))
    ]

swap_dirty-Keeps :
    (others : ℕ → ℕ) (m : Mem) (d i : ℕ)
    → own_dirs ≤ d
    → IsCounted others m
    → is_present (entry m.dir d i) ≡ true
    → low_mem ≤ entry m.dir d i
    → Keeps others (Swapped others m) (swap_dirty d i (page_of (entry m.dir d i)) m)
unfolding swap_dirty
swap_dirty-Keeps others m d i own v p lo =
    elim (Bool-cases (not (count_of m (map_nr (page_of (entry m.dir d i))) == 1))) [
      | inl shared ↦ rw shared (nothing-Swapped others m v)
      | inr alone ↦ rw alone (
          swap_to-Keeps others m (get_swap_page m).1 d i (get_swap_page m).0 own v
            (get_swap_page-Same m) p lo)
    ]

pub try_to_swap_out-Keeps :
    (others : ℕ → ℕ) (m : Mem) (d i : ℕ)
    → own_dirs ≤ d
    → IsCounted others m
    → Keeps others (Swapped others m) (try_to_swap_out d i m)
unfolding try_to_swap_out
try_to_swap_out-Keeps others m d i own v = elim (Bool-cases (is_present (entry m.dir d i))) [
  | inr absent ↦ rw absent (nothing-Swapped others m v)
  | inl p ↦
      rw p
        (elim (Bool-cases
          (ltb (entry m.dir d i) low_mem || ltb (low_mem + paging_memory) (entry m.dir d i))) [
            | inl outside ↦ rw outside (nothing-Swapped others m v)
            | inr inside ↦ rw inside (elim (Bool-cases (is_dirty (entry m.dir d i))) [
              | inl dirty ↦ rw dirty (swap_dirty-Keeps others m d i own v p (ground arith))
              | inr clean ↦ rw clean (unlink-Keeps others m d i 0 own v p (ground arith) refl)
            ])
          ])
]

find_table-Same : (rounds : ℕ) (m : Mem) → Same m (find_table rounds m).1
unfolding find_table
find_table-Same zero m = (refl, refl, refl, λ h. h)
find_table-Same (suc rounds) m = elim (Bool-cases (has_table m m.dir_entry)) [
  | inl e ↦ rw e (refl, refl, refl, λ h. h)
  | inr e ↦
      let (dir, map, high, on) =
        find_table-Same rounds (record m { dir_entry = next_dir m.dir_entry }) in
      rw e (dir, map, high, λ h. on (ground arith))
]

next_table-Same : (fuel counter : ℕ) (m : Mem) → Same m (next_table fuel counter m).1
unfolding next_table
next_table-Same zero counter m = (refl, refl, refl, λ h. h)
next_table-Same (suc fuel) counter m =
    let m' = record m { dir_entry = next_dir m.dir_entry } in
    elim (Bool-cases (has_table m' m'.dir_entry)) [
      | inl e ↦ rw e (refl, refl, refl, λ h. ground arith)
      | inr e ↦ rw e (elim (Bool-cases (ltb 1024 counter)) [
        | inl more ↦
            let (dir, map, high, on) = next_table-Same fuel (counter - 1024) m' in
            rw more (dir, map, high, λ h. on (ground arith))
        | inr last ↦ rw last (refl, refl, refl, λ h. ground arith)
      ])
    ]

advance-Same : (counter : ℕ) (m : Mem) → Same m (advance counter m).1
advance-Same counter m = elim (Bool-cases (leb 1024 m.page_entry)) [
  | inl e ↦ rw e (next_table-Same 1009 counter (record m { page_entry = 0 }))
  | inr e ↦ rw e (refl, refl, refl, λ h. h)
]

-- Nothing swapped, and then a call that may swap.
Swapped-trans :
    (others : ℕ → ℕ) (m m' m'' : Mem) (done : Bool)
    → Swapped others m false m'
    → Swapped others m' done m''
    → Swapped others m done m''
Swapped-trans others m m' m'' done s s' = record {
  kept = Kept-trans others others m m' m'' s.kept s'.kept;
  fewer = omega (arith, s.fewer, s'.fewer);
  freed = omega (arith, s.freed, s'.freed);
}

-- The end of a round, where the rest of the loop keeps what it starts from.
round-Keeps :
    (others : ℕ → ℕ) (m m' : Mem) (done : Bool) (rest : M Bool)
    → ((m'' : Mem) → IsCounted others m'' → Keeps others (Swapped others m'') (rest m''))
    → Swapped others m done m'
    → Keeps others (Swapped others m) (elim done [ true ↦ ok true m' | false ↦ rest m' ])
round-Keeps others m m' true rest keep s = s
round-Keeps others m m' false rest keep s =
    Keeps-imp others (Swapped others m') (Swapped others m) (rest m') (keep m' s.kept.counted)
      (λ done m''. Swapped-trans others m m' m'' done s)

scan-Keeps :
    (others : ℕ → ℕ) (fuel counter : ℕ) (m : Mem)
    → IsCounted others m
    → Keeps others (Swapped others m) (scan fuel counter m)
unfolding scan
scan-Keeps others zero counter m v = nothing-Swapped others m v
scan-Keeps others (suc fuel) zero m v = nothing-Swapped others m v
scan-Keeps others (suc fuel) (suc counter) m v =
    let m' = (advance counter m).1 in
    let same = advance-Same counter m in
    let v' = (Same-Kept others m m' same v).counted in
    let at = record m' { page_entry = m'.page_entry + 1 } in
    let v'' = (Same-Kept others m' at (refl, refl, refl, λ h. h) v').counted in
    elim (Bool-cases ((advance counter m).0 == 0)) [
      | inl z ↦ rw z (Swapped-after others m m' m' false same (nothing-Swapped others m' v'))
      | inr more ↦ rw more (
          then_do-Keeps others (Swapped others at) (Swapped others m)
            (try_to_swap_out at.dir_entry m'.page_entry at) _
            (try_to_swap_out-Keeps others at at.dir_entry m'.page_entry
              (omega (arith, v''.booted.sweep)) v'')
            (λ done m'' s.
              round-Keeps others m m'' done (scan fuel ((advance counter m).0 - 1))
                (scan-Keeps others fuel ((advance counter m).0 - 1))
                (Swapped-after others m at m'' done same s)))
    ]

pub swap_out-Keeps :
    (others : ℕ → ℕ) (m : Mem) → IsCounted others m → Keeps others (Swapped others m) (swap_out m)
unfolding swap_out
swap_out-Keeps others m v =
    let (counter, m') = find_table 1008 m in
    let same = find_table-Same 1008 m in
    Keeps-imp others (Swapped others m') (Swapped others m) (scan vm_pages counter m')
      (scan-Keeps others vm_pages counter m' (Same-Kept others m m' same v).counted)
      (λ done m''. Swapped-after others m m' m'' done same)
