-- ===== src/Mm/FreePage.antt =====
-- mm/swap.c: get_free_page, its end and its page.
use lambda_linux_kernel.Prelude.{
  ℕ, zero, suc, ◌+◌, ◌-◌, ◌*◌, ◌≤◌, ◌<◌, ◌≡◌, ◌≢◌, refl, true, false, Option, none, some, List, [],
  ◌∷◌, leb, ◌==◌, if◌then◌else◌, get_or, length, length-set, arith, ◌∙◌, Option-cases, inl, inr,
}
use lambda_linux_kernel.Mm.{
  Mem, ok, low_mem, paging_pages, count_of, set_count, presents, zeros, swap_out, last_free,
  take_page, get_free_page,
}
use lambda_linux_kernel.Mm.Counted.{IsCounted, plus, Kept, Keeps, count-set_count, Kept-trans}
use lambda_linux_kernel.Mm.Swapping.{
  then_do-returns, nothing-Swapped, Keeps-imp, Swapped, swap_out-Keeps,
}

-- The page found is free, and in range.
last_free-some :
    (cs : List ℕ) (from n : ℕ)
    → last_free cs from ≡ some n
    → (from ≤ n) × (n < from + length cs) × (get_or cs (n - from) 0 ≡ 0)
unfolding last_free
last_free-some [] from n h = absurd (cc)
last_free-some (c ∷ cs) from n h = elim (Option-cases (last_free cs (from + 1))) [
  | inl e ↦ let h' : (if c == 0 then some from else none) ≡ some n = rw e at h in ground arith
  | inr (k, e) ↦
      let h' : ◌≡◌ {A = Option ℕ} (some k) (some n) = rw e at h in
      let same : k ≡ n = cc in
      let (lo, hi, free) = last_free-some cs (from + 1) n (e ∙ h') in
      let shift : n - from ≡ suc (n - (from + 1)) = omega arith in
      (omega arith, omega arith, rw shift free)
]

last_free-none :
    (cs : List ℕ) (from n : ℕ) → last_free cs from ≡ none → n < length cs → get_or cs n 0 ≢ 0
unfolding last_free
last_free-none [] from n h lt z = absurd (omega arith)
last_free-none (c ∷ cs) from zero h lt z = elim (Option-cases (last_free cs (from + 1))) [
  | inr (k, e) ↦ let h' : ◌≡◌ {A = Option ℕ} (some k) none = rw e at h in absurd (cc)
  | inl e ↦
      let h' : (if c == 0 then some from else none) ≡ none = rw e at h in absurd (ground arith)
]
last_free-none (c ∷ cs) from (suc n) h lt z = elim (Option-cases (last_free cs (from + 1))) [
  | inr (k, e) ↦ let h' : ◌≡◌ {A = Option ℕ} (some k) none = rw e at h in absurd (cc)
  | inl e ↦ last_free-none cs (from + 1) n e (omega arith) z
]

-- No page was free, some were swapped out at most, and then there is nothing to swap out and no page
-- free.
pub record IsOut (others : ℕ → ℕ) (m m' : Mem) : Type 0 where
  pub full : (n : ℕ) → n < paging_pages → count_of m n ≢ 0
  pub tried : (m1 : Mem) × Kept others m m1 × (swap_out m1 ≡ ok false m')
  pub spent : zeros m'.mem_map ≡ 0
  pub kept : Kept others m m'

-- What `get_free_page` gives: no page, or one that only the caller refers to.
pub data Got (others : ℕ → ℕ) (m : Mem) : ℕ → Mem → Type 0 where
  no_page : (m' : Mem) → IsOut others m m' → Got others m 0 m'
  page :
      (n : ℕ) (m' : Mem)
      → n < paging_pages
      → low_mem + n * 4096 < m.high
      → Kept (plus n others) m m'
      → Got others m (low_mem + n * 4096) m'

Got-after :
    (others : ℕ → ℕ) (m m' m'' : Mem) (a : ℕ)
    → ((n : ℕ) → n < paging_pages → count_of m n ≢ 0)
    → Kept others m m'
    → Got others m' a m''
    → Got others m a m''
Got-after others m m' m'' a full k (no_page _ out) =
    let (m1, k1, e) = out.tried in
    no_page m'' (record {
      full = full;
      tried = (m1, Kept-trans others others m m' m1 k k1, e);
      spent = out.spent;
      kept = Kept-trans others others m m' m'' k out.kept;
    })
Got-after others m m' m'' a full k (page n _ lt below k') =
    page n m'' lt (omega (arith, k.same_high)) (Kept-trans others (plus n others) m m' m'' k k')

-- A free page is below the end of memory, and counted once when it is taken.
taken :
    (others : ℕ → ℕ) (m : Mem) (n : ℕ)
    → IsCounted others m
    → last_free m.mem_map 0 ≡ some n
    → IsCounted (plus n others) (set_count n 1 m)
      × (n < paging_pages)
      × (low_mem + n * 4096 < m.high)
      × (count_of m n ≡ 0)
taken others m n v e =
    let (_, lt', free') = last_free-some m.mem_map 0 n e in
    let lt : n < paging_pages = omega (arith, v.size) in
    let start : n - 0 ≡ n = omega arith in
    let free : count_of m n ≡ 0 = rw start at free' in
    (
      record {
        size = length-set m.mem_map n 1 ∙ v.size;
        counts = λ k lt_k. ground (arith, count-set_count m n 1 k, v.size, v.counts k lt_k);
        inside = v.inside;
        high_in = v.high_in;
        above = λ k lt_k up e. ground (arith, count-set_count m n 1 k, v.size, v.above k lt_k up);
        dirs = v.dirs;
        full = v.full;
        booted = v.booted;
      },
      lt,
      ground (arith, v.above n lt),
      free,
    )

nothing-Kept : (others : ℕ → ℕ) (m : Mem) → IsCounted others m → Kept others m m
nothing-Kept others m v = (nothing-Swapped others m v).kept

zeros_none : (cs : List ℕ) (from : ℕ) → last_free cs from ≡ none → zeros cs ≡ 0
unfolding last_free
zeros_none [] from h = refl
zeros_none (c ∷ cs) from h = elim (Option-cases (last_free cs (from + 1))) [
  | inr (k, e) ↦ let h' : ◌≡◌ {A = Option ℕ} (some k) none = rw e at h in absurd (cc)
  | inl e ↦
      let h' : (if c == 0 then some from else none) ≡ none = rw e at h in
      let rest = zeros_none cs (from + 1) e in ground arith
]

take_page-Keeps :
    (others : ℕ → ℕ) (fuel : ℕ) (m : Mem)
    → IsCounted others m
    → 2 * presents m + zeros m.mem_map < fuel
    → Keeps others (Got others m) (take_page fuel m)
unfolding take_page
take_page-Keeps others zero m v h = absurd (omega arith)
take_page-Keeps others (suc fuel) m v h = elim (Option-cases (last_free m.mem_map 0)) [
  | inl none_free ↦
      let full : (n : ℕ) → n < paging_pages → count_of m n ≢ 0 =
        λ n lt. last_free-none m.mem_map 0 n none_free (omega (arith, v.size)) in
      rw (none_free, take_page)
        (then_do-returns others (Swapped others m) (Got others m) (swap_out m) _
          (swap_out-Keeps others m v)
          (λ done m' e s.
            elim done
                as (λ b.
                  swap_out m ≡ ok b m'
                  → Swapped others m b m'
                  → Keeps others (Got others m)
                      (elim b [ true ↦ take_page fuel m' | false ↦ ok 0 m' ])) [
                        | true ↦ λ e s.
                            Keeps-imp others (Got others m') (Got others m) (take_page fuel m')
                              (take_page-Keeps others fuel m' s.kept.counted
                                (omega (arith, s.fewer, s.freed)))
                              (λ a m''. Got-after others m m' m'' a full s.kept)
                        | false ↦ λ e s. no_page m' (record {
                          full = full;
                          tried = (m, nothing-Kept others m v, e);
                          spent = omega (arith, s.freed, zeros_none m.mem_map 0 none_free);
                          kept = s.kept;
                        })
                      ]
              e s))
  | inr (n, e) ↦
      let (held, lt, below, free) = taken others m n v e in
      let low : leb m.high (low_mem + n * 4096) ≡ false = ground arith in
      rw (e, take_page)
        (rw low (
          page n (set_count n 1 m) lt below (record {
            counted = held;
            tables = λ d. refl;
            absent = λ d i a. refl;
            same_high = refl;
          })))
]

-- With every page counted, mod 256, once for each page table and present entry that leads to it
-- from the directory entries after the four of head.s and each reference from elsewhere,
-- get_free_page ends: either it returns 0, which it does only if no page of mem_map was free, swap_out
-- at last finds nothing to swap out and no page is free then, or it returns a page below the end of
-- memory that has one reference more, the caller's, and in both cases all pages are counted, the
-- same directory entries have tables, and no entry that was not present has changed; or it panics
-- over a page that has at least 255 references.
pub get_free_page-Keeps :
    (others : ℕ → ℕ) (m : Mem) → IsCounted others m → Keeps others (Got others m) (get_free_page m)
unfolding get_free_page
get_free_page-Keeps others m v =
    take_page-Keeps others (2 * presents m + zeros m.mem_map + 1) m v (omega arith)

-- With a free page there is nothing to swap.
pub take_free :
    (others : ℕ → ℕ) (m : Mem) (n : ℕ)
    → IsCounted others m
    → last_free m.mem_map 0 ≡ some n
    → (get_free_page m ≡ ok (low_mem + n * 4096) (set_count n 1 m))
      × IsCounted (plus n others) (set_count n 1 m)
      × (n < paging_pages)
      × (low_mem + n * 4096 < m.high)
      × (count_of m n ≡ 0)
unfolding get_free_page take_page
take_free others m n v e =
    let (held, lt, below, free) = taken others m n v e in
    let low : leb m.high (low_mem + n * 4096) ≡ false = ground arith in
    let round : 2 * presents m + zeros m.mem_map + 1 ≡ suc (2 * presents m + zeros m.mem_map) =
      omega arith in
    (rw round (rw (e, take_page) (rw low refl)), held, lt, below, free)
