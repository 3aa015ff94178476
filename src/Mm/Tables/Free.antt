-- ===== src/Mm/Tables/Free.antt =====
-- mm/memory.c: the outer loop of free_page_tables.
use lambda_linux_kernel.Prelude.{ℕ, ◌≤◌, ◌<◌, ◌≡◌, false, ◌⊎◌}
use lambda_linux_kernel.Mm.{Mem, entry, has_table}
use lambda_linux_kernel.Mm.Counted.{IsCounted}

-- The directory entries from `d` up to `top` have no table left; all else is as it was.
pub record Freed (others : ℕ → ℕ) (d top : ℕ) (m m' : Mem) : Type 0 where
  pub counted : IsCounted others m'
  pub gone : (e : ℕ) → d ≤ e → e < top → has_table m' e ≡ false
  pub tables : (e : ℕ) → (e < d) ⊎ (top ≤ e) → has_table m' e ≡ has_table m e
  pub rest : (e j : ℕ) → (e < d) ⊎ (top ≤ e) → entry m'.dir e j ≡ entry m.dir e j
