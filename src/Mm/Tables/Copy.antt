-- ===== src/Mm/Tables/Copy.antt =====
-- mm/memory.c: the loops of copy_page_tables.
use lambda_linux_kernel.Prelude.{ℕ, ◌+◌, ◌≤◌, ◌<◌, ◌≡◌, ◌≢◌, Bool, true, false, ◌⊎◌}
use lambda_linux_kernel.Mm.{Mem, has_table, zeros}
use lambda_linux_kernel.Mm.Refs.{own_dirs}
use lambda_linux_kernel.Mm.Counted.{IsCounted}

-- Both tables stay where they are.
record Ended (others : ℕ → ℕ) (m : Mem) (good : Bool) (m' : Mem) : Type 0 where
  counted : IsCounted others m'
  failed : good ≡ false → zeros m'.mem_map ≡ 0
  tables : (e : ℕ) → has_table m' e ≡ has_table m e

-- What may be copied: `nr` entries of a process's table, or up to 160 of the first one.
abbrev IsCopy : (d nr : ℕ) → Type 0
IsCopy d nr = (own_dirs ≤ d) ⊎ ((d ≡ 0) × (nr ≤ 160))

-- The directory entries other than `d'` keep or lack their tables, and after a good round `d'` has
-- one if `d` has.
record Joined (others : ℕ → ℕ) (d d' : ℕ) (m : Mem) (good : Bool) (m' : Mem) : Type 0 where
  counted : IsCounted others m'
  failed : good ≡ false → zeros m'.mem_map ≡ 0
  made : good ≡ true → has_table m' d' ≡ has_table m d
  tables : (e : ℕ) → e ≢ d' → has_table m' e ≡ has_table m e

-- The directory entries from `d'` on have tables where those from `d` on had, if all went well; the
-- others keep or lack theirs. It fails only with no page free.
pub record Spread (others : ℕ → ℕ) (rounds d d' : ℕ) (m : Mem) (good : Bool) (m' : Mem)
    : Type 0 where
  pub counted : IsCounted others m'
  pub failed : good ≡ false → zeros m'.mem_map ≡ 0
  pub tables : (e : ℕ) → (e < d') ⊎ (d' + rounds ≤ e) → has_table m' e ≡ has_table m e
  pub copied : good ≡ true → (e : ℕ) → e < rounds → has_table m' (d' + e) ≡ has_table m (d + e)

-- The blocks do not meet.
abbrev pub AreApart : (rounds d d' : ℕ) → Type 0
AreApart rounds d d' = (d + rounds ≤ d') ⊎ (d' + rounds ≤ d)
