-- ===== src/Mm/Tests.antt =====
-- Tests of the page counts: a memory of 16 MB with the four tables of head.s, and after them one page
-- table, which has the same page at the first two entries.
use lambda_linux_kernel.Prelude.{
  ℕ, zero, suc, ◌+◌, ◌*◌, ◌%◌, ◌<◌, ◌≡◌, refl, Option, none, some, List, [], ◌∷◌, replicate,
  get_or-replicate, get_or, length, ◌∙◌, arith, All,
}
use lambda_linux_kernel.Mm.{
  Table, Mem, low_mem, paging_memory, paging_pages, count_of, entry, total, get_free_page,
}
use lambda_linux_kernel.Mm.Refs.{refs, total_after, IsFull}
use lambda_linux_kernel.Mm.Counted.{IsBooted, IsCounted, Keeps}
use lambda_linux_kernel.Mm.FreePage.{Got, get_free_page-Keeps}

abbrev nobody : ℕ → ℕ
nobody n = 0

abbrev shared_entry : ℕ
shared_entry = low_mem + 4096 + 5

-- The `n` pages from an entry on, one after the other.
pages_from : (n w : ℕ) → List ℕ
pages_from zero w = []
pages_from (suc n) w = w ∷ pages_from n (w + 4096)

length-pages_from : (n w : ℕ) → length (pages_from n w) ≡ n
unfolding pages_from
length-pages_from zero w = refl
length-pages_from (suc n) w = omega (arith, length-pages_from n (w + 4096))

get_or-pages_from : (n w i : ℕ) → i < n → get_or (pages_from n w) i 0 ≡ w + i * 4096
unfolding pages_from
get_or-pages_from zero w i lt = absurd (omega arith)
get_or-pages_from (suc n) w zero lt = omega arith
get_or-pages_from (suc n) w (suc i) lt =
    get_or-pages_from n (w + 4096) i (omega arith) ∙ omega arith

-- Table `k` of head.s, which maps 4 MB to themselves.
abbrev boot_table : ℕ → Option Table
boot_table k =
    some (record { address = (k + 1) * 4096; entries = pages_from 1024 (k * 0x400000 + 7) })

abbrev memory : Mem
memory = record {
  high = low_mem + paging_memory;
  mem_map = 1 ∷ 2 ∷ replicate 3838 0;
  dir =
      boot_table 0
      ∷ boot_table 1
      ∷ boot_table 2
      ∷ boot_table 3
      ∷ some
          (record { address = low_mem; entries = shared_entry ∷ shared_entry ∷ replicate 1022 0 })
      ∷ replicate 1019 none;
  swap = none;
  dir_entry = 16;
  page_entry = 0;
}

total-replicate : (tw ew : ℕ → ℕ) (n : ℕ) → total tw ew (replicate n none) ≡ 0
total-replicate tw ew zero = refl
total-replicate tw ew (suc n) = total-replicate tw ew n

IsFull-replicate : (n : ℕ) → All IsFull (replicate n none)
IsFull-replicate zero = tt
IsFull-replicate (suc n) = (tt, IsFull-replicate n)

counted : (n : ℕ) → n < paging_pages → count_of memory n ≡ (refs memory.dir n + nobody n) % 256
unfolding total_after
counted zero lt = refl
counted (suc zero) lt = refl
counted (suc (suc n)) lt = ground (arith, get_or-replicate {A = ℕ} 3838 n 0)

boot-IsFull : (k : ℕ) → IsFull (boot_table k)
boot-IsFull k = length-pages_from 1024 (k * 0x400000 + 7)

memory-IsBooted : IsBooted memory.high memory.dir_entry memory.dir
unfolding entry
memory-IsBooted = record {
  low_in = omega arith;
  sweep = omega arith;
  low_pages = λ i lt. rw (get_or-pages_from 1024 7 i (omega arith)) (ground arith, omega arith);
}

memory-IsCounted : IsCounted nobody memory
unfolding total_after
memory-IsCounted = record {
  size = refl;
  counts = counted;
  inside = refl;
  high_in = omega arith;
  above = λ n lt high. absurd (omega arith);
  dirs = refl;
  full = (
    boot-IsFull 0,
    (boot-IsFull 1, (boot-IsFull 2, (boot-IsFull 3, (refl, IsFull-replicate 1019)))),
  );
  booted = memory-IsBooted;
}

get_free_page-Keeps_example : Keeps nobody (Got nobody memory) (get_free_page memory)
get_free_page-Keeps_example = get_free_page-Keeps nobody memory memory-IsCounted
