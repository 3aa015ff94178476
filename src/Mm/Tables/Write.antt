-- ===== src/Mm/Tables/Write.antt =====
-- mm/memory.c: un_wp_page, a write to a page that may be shared.
use lambda_linux_kernel.Prelude.{
  ℕ, ◌+◌, ◌*◌, ◌/◌, ◌%◌, ◌≤◌, ◌<◌, ◌≡◌, ◌≢◌, true, length-set, arith, ◌∙◌, ◌⊎◌,
}
use lambda_linux_kernel.Mm.{
  Mem, low_mem, paging_pages, is_present, page_of, map_nr, count_of, set_count, entry, has_table,
}
use lambda_linux_kernel.Mm.Refs.{own_dirs, entry_there}
use lambda_linux_kernel.Mm.Counted.{IsCounted, plus, count-set_count}

pub count_down-IsCounted :
    (others : ℕ → ℕ) (m : Mem) (n : ℕ)
    → IsCounted (plus n others) m
    → n < paging_pages
    → low_mem + n * 4096 < m.high
    → IsCounted others (set_count n ((count_of m n + 255) % 256) m)
count_down-IsCounted others m n v lt below = record {
  size = length-set m.mem_map n _ ∙ v.size;
  counts = λ k lt_k.
      ground (arith, count-set_count m n ((count_of m n + 255) % 256) k, v.size, v.counts k lt_k);
  inside = v.inside;
  high_in = v.high_in;
  above = λ k lt_k up e.
      ground (arith, count-set_count m n ((count_of m n + 255) % 256) k, v.size, v.above k lt_k up);
  dirs = v.dirs;
  full = v.full;
  booted = v.booted;
}

abbrev pub page_at : Mem → (d i : ℕ) → ℕ
page_at m d i = page_of (entry m.dir d i)

-- The entry is present and may be written, and nothing else leads to its page, which is the one that
-- was there if nothing else led to that, and else one that was free; all other entries are as they
-- were.
pub record IsOwn (others : ℕ → ℕ) (d i : ℕ) (m m' : Mem) : Type 0 where
  pub counted : IsCounted others m'
  pub present : is_present (entry m'.dir d i) ≡ true
  pub may_write : entry m'.dir d i / 2 % 2 ≡ 1
  pub counted_in : low_mem ≤ page_at m' d i
  pub alone : count_of m' (map_nr (page_at m' d i)) ≡ 1
  pub page :
      ((count_of m (map_nr (page_at m d i)) ≡ 1)
        × (low_mem ≤ page_at m d i)
        × (page_at m' d i ≡ page_at m d i))
      ⊎ (count_of m (map_nr (page_at m' d i)) ≡ 0)
  pub rest : (e j : ℕ) → (d ≢ e) ⊎ (i ≢ j) → entry m'.dir e j ≡ entry m.dir e j

module _ (others : ℕ → ℕ) (m : Mem) (d i : ℕ) (own : own_dirs ≤ d) (v : IsCounted others m)
    (p : is_present (entry m.dir d i) ≡ true) where
  abbrev there : (has_table m d ≡ true) × (i < 1024)
  there = entry_there m.dir d i v.full p
