-- ===== src/Mm/Tables/Empty.antt =====
-- mm/memory.c: put_page and get_empty_page, where there is a page table.
use lambda_linux_kernel.Prelude.{ℕ, ◌/◌, ◌%◌, ◌≤◌, ◌≡◌, ◌≢◌, true, false, ◌⊎◌}
use lambda_linux_kernel.Mm.{
  Mem, Result, ok, dies, panics, rejects, is_present, entry, has_table, get_free_page,
}
use lambda_linux_kernel.Mm.Refs.{own_dirs}
use lambda_linux_kernel.Mm.Counted.{IsCounted, IsLost, Kept}
use lambda_linux_kernel.Mm.Tables.{dir_of, index_of}

-- A page at `d` and `i`, which may be written.
pub record IsMapped (others : ℕ → ℕ) (d i : ℕ) (m m' : Mem) : Type 0 where
  pub counted : IsCounted others m'
  pub present : is_present (entry m'.dir d i) ≡ true
  pub may_write : entry m'.dir d i / 2 % 2 ≡ 1
  pub absent :
      (e j : ℕ)
      → (d ≢ e) ⊎ (i ≢ j)
      → is_present (entry m.dir e j) ≡ false
      → entry m'.dir e j ≡ entry m.dir e j

-- What the call comes to; the process dies only where get_free_page has no page.
abbrev pub Filled : (others : ℕ → ℕ) (d i : ℕ) (m : Mem) → Result (Unit {0}) → Type 0
Filled others d i m (ok _ m') = IsMapped others d i m m'
Filled others d i m (dies m') = (get_free_page m ≡ ok 0 m') × Kept others m m'
Filled others d i m (panics m') = IsLost others m'
Filled others d i m rejects = ⊥

module _ (others : ℕ → ℕ) (m : Mem) (address : ℕ) (own : own_dirs ≤ dir_of address)
    (v : IsCounted others m) (there : has_table m (dir_of address) ≡ true)
    (none_there : is_present (entry m.dir (dir_of address) (index_of address)) ≡ false) where
  abbrev d : ℕ
  d = dir_of address

  abbrev i : ℕ
  i = index_of address
